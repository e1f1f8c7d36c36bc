-- ===== src/Inputs/DateInput/Synced.antt =====
-- What the two fields of the date input hold.
use voria.Prelude.{
  Bool, true, false, ◌≡◌, refl, subst, Option, none, some, [], arith, if_cases, if_both,
  with_value_both, with_value,
}
use voria.Prelude.Text.{Text, text_eq, text_eq_sound, is_empty}
use voria.Inputs.DateInput.{
  Flatpickr, Picker, SubmitMode, DateInput, display_format, trim, if_valid, parse_display,
  format_canonical, set_hidden_value, sync_from_input, apply_server_state, select,
}

module _ {D : Type 0} (lib : Flatpickr D) where
  -- Whatever is read as a date is shown as the text that was read.
  abbrev Formats : Picker → Text → Option D → Type 0
  Formats picker value none = Unit {0}
  Formats picker value (some d) = lib.format_date d (display_format picker) ≡ value

  Formats-parse_display :
      (picker : Picker) (value : Text) → Formats picker value (parse_display lib picker value)
  unfolding parse_display
  Formats-parse_display picker value = if_both (Formats picker value) (is_empty value) tt (
      with_value_both (Formats picker value)
        (if_valid lib (lib.parse_date value (display_format picker)))
        (λ d _.
          if_cases (Formats picker value)
            (text_eq (lib.format_date d (display_format picker)) value)
            (λ e. text_eq_sound (lib.format_date d (display_format picker)) value e) (λ _. tt))
        tt)

  parse_display-empty :
      (picker : Picker) (value : Text)
      → is_empty value ≡ true
      → parse_display lib picker value ≡ none
  unfolding parse_display
  parse_display-empty picker value e = rw e refl

  hidden-with_value :
      (mode : SubmitMode) (o : Option D) (f : D → DateInput D) (z : DateInput D)
      → ((d : D) → (f d).hidden ≡ format_canonical lib mode (some d))
      → z.hidden ≡ []
      → (with_value o f z).hidden ≡ format_canonical lib mode o
  unfolding format_canonical
  hidden-with_value mode none f z hf hz = hz
  hidden-with_value mode (some d) f z hf hz = hf d

  module _ (picker : Picker) (mode : SubmitMode) (pushes : Bool) where
    -- What was typed stays: unless there is nothing but white space in it, the visible field keeps its
    -- text without the white space around it, whether the text is a date or not.
    pub visible-sync_from_input :
        (s : DateInput D)
        → is_empty (trim s.visible) ≡ false
        → (sync_from_input lib picker mode pushes s).visible ≡ trim s.visible
    unfolding sync_from_input set_hidden_value
    visible-sync_from_input s h =
        if_cases (λ (r : DateInput D). r.visible ≡ trim s.visible) (is_empty (trim s.visible))
          (λ e. cc)
          (λ _.
            with_value_both (λ (r : DateInput D). r.visible ≡ trim s.visible)
              (parse_display lib picker (trim s.visible))
              (λ d e.
                subst (Formats picker (trim s.visible)) e
                  (Formats-parse_display picker (trim s.visible)))
              refl)

    -- What is submitted: the canonical text of the date that was typed, or the empty text if none was.
    pub hidden-sync_from_input :
        (s : DateInput D)
        → (sync_from_input lib picker mode pushes s).hidden
          ≡ format_canonical lib mode (parse_display lib picker (trim s.visible))
    unfolding sync_from_input set_hidden_value format_canonical
    hidden-sync_from_input s =
        let raw = trim s.visible in
        if_cases
          (λ (r : DateInput D). r.hidden ≡ format_canonical lib mode (parse_display lib picker raw))
          (is_empty raw) (λ e. rw (parse_display-empty picker raw e) refl)
          (λ _. hidden-with_value mode (parse_display lib picker raw) _ _ (λ d. refl) refl)

    -- A state that the server sends is taken over silently: the hidden field holds the server's text,
    -- and nothing is sent back.
    pub hidden-apply_server_state :
        (s : DateInput D) (display hidden : Text)
        → ((apply_server_state lib picker mode pushes s display hidden).hidden ≡ hidden)
          × ((apply_server_state lib picker mode pushes s display hidden).events ≡ s.events)
          × ((apply_server_state lib picker mode pushes s display hidden).pushed ≡ s.pushed)
    unfolding apply_server_state set_hidden_value select
    hidden-apply_server_state s display hidden = ground arith
