-- ===== src/Inputs/DateInput.antt =====
-- The date and time input (assets/js/hooks/flatpickr_input.js): a visible field with the date as it is
-- shown, and a hidden one with the text that is submitted. Dates and the picker are the browser's and
-- flatpickr's, and enter as the record `Flatpickr`.
pub mod Synced
pub mod Life
use voria.Prelude.{
  ℕ, zero, suc, ◌+◌, Bool, true, false, not, ◌&&◌, ◌||◌, Option, none, some, List, [], ◌∷◌, leb,
  ◌==◌, if◌then◌else◌, with_value,
}
use voria.Prelude.Int.{ℤ, pos_part, neg_part}
use voria.Prelude.Text.{Text, codes, text_eq, is_empty}

-- `time` is `getTime()`, `none` for an invalid date. `set_date` and `clear` give what is selected
-- after `setDate(d)` and `clear()`; the latter leaves a text in the visible field and calls back
-- some times.
pub record Flatpickr (D : Type 0) : Type 0 where
  pub time : D → Option ℤ
  pub new_date : Text → D
  pub to_iso_string : D → Text
  pub parse_date : Text → Text → Option D
  pub format_date : D → Text → Text
  pub set_date : Option D → D → Option D
  pub clear : Option D → Option D
  pub clear_text : Text
  pub clear_calls : ℕ

-- The values of `data-picker`, and of `data-submit-mode`.
pub data Picker : Type 0 where
  date datetime : Picker

pub data SubmitMode : Type 0 where
  utc_iso date_iso datetime_local other_mode : SubmitMode

unfoldable pub display_format : Picker → Text
display_format date = codes "d/m/Y"
display_format datetime = codes "d/m/Y H:i"

unfoldable pub canonical_format : SubmitMode → Option Text
canonical_format date_iso = some (codes "Y-m-d")
canonical_format datetime_local = some (codes "Y-m-d\\TH:i")
canonical_format utc_iso = none
canonical_format other_mode = none

-- The white space and the line ends of JavaScript.
unfoldable pub is_space : ℕ → Bool
is_space c =
    (leb 9 c && leb c 13)
    || (c == 32)
    || (c == 0xA0)
    || (c == 0x1680)
    || (leb 0x2000 c && leb c 0x200A)
    || (c == 0x2028)
    || (c == 0x2029)
    || (c == 0x202F)
    || (c == 0x205F)
    || (c == 0x3000)
    || (c == 0xFEFF)

trim_start : Text → Text
trim_start [] = []
trim_start (c ∷ s) = if is_space c then trim_start s else c ∷ s

trim_end : Text → Text
trim_end [] = []
trim_end (c ∷ s) = let rest = trim_end s in if is_space c && is_empty rest then [] else c ∷ rest

unfoldable pub trim : Text → Text
unfolding trim_start trim_end
trim s = trim_end (trim_start s)

pub record DateInput (D : Type 0) : Type 0 where
  pub visible : Text
  pub hidden : Text
  pub selected : Option D
  -- The "input" and "change" events of the hidden field, in pairs, and the values pushed.
  pub events : ℕ
  pub pushed : List Text

module _ {D : Type 0} (lib : Flatpickr D) where
  unfoldable pub valid_date : Option D → Bool
  valid_date none = false
  valid_date (some d) = with_value (lib.time d) (λ t. true) false

  same_time : Option ℤ → Option ℤ → Bool
  same_time (some s) (some t) = pos_part s + neg_part t == pos_part t + neg_part s
  same_time _ _ = false

  unfoldable pub same_date : Option D → D → Bool
  unfolding same_time
  same_date none d = false
  same_date (some c) d = same_time (lib.time c) (lib.time d)

  -- `validDate(parsed) ? parsed : null`
  unfoldable pub if_valid : Option D → Option D
  if_valid o = if valid_date o then o else none

  unfoldable pub parse_canonical : SubmitMode → Text → Option D
  parse_canonical utc_iso value =
      if is_empty value then none else if_valid (some (lib.new_date value))
  parse_canonical mode value =
      if is_empty value
      then none
      else with_value (canonical_format mode) (λ format. if_valid (lib.parse_date value format))
          none

  unfoldable pub parse_display : Picker → Text → Option D
  parse_display picker value =
      if is_empty value
      then none
      else with_value (if_valid (lib.parse_date value (display_format picker)))
          (λ d. if text_eq (lib.format_date d (display_format picker)) value then some d else none)
          none

  unfoldable pub format_canonical : SubmitMode → Option D → Text
  format_canonical mode none = []
  format_canonical utc_iso (some d) = if valid_date (some d) then lib.to_iso_string d else []
  format_canonical mode (some d) =
      if valid_date (some d)
      then with_value (canonical_format mode) (λ format. lib.format_date d format) []
      else []

  module _ (picker : Picker) (mode : SubmitMode) (pushes : Bool) where
    -- `pushes` says that there are an event to push and a name of the hidden field.
    unfoldable pub set_hidden_value : DateInput D → Text → Bool → Bool → DateInput D
    set_hidden_value s value notify push =
        let changed = not (text_eq s.hidden value) in
        record s {
          hidden = value;
          events = if notify && changed then s.events + 1 else s.events;
          pushed = if push && pushes then value ∷ s.pushed else s.pushed;
        }

    unfoldable pub sync_from_selected_dates : DateInput D → DateInput D
    sync_from_selected_dates s = set_hidden_value s (format_canonical mode s.selected) true true

    unfoldable pub called : ℕ → DateInput D → DateInput D
    called zero s = s
    called (suc n) s = called n (sync_from_selected_dates s)

    cleared : DateInput D → DateInput D
    cleared s =
        called lib.clear_calls
          (record s { visible = lib.clear_text; selected = lib.clear s.selected })

    select : DateInput D → D → DateInput D
    select s d =
        if same_date s.selected d then s else record s { selected = lib.set_date s.selected d }

    unfoldable pub sync_from_input : DateInput D → DateInput D
    unfolding cleared select called
    sync_from_input s =
        let raw = trim s.visible in
        if is_empty raw
        then set_hidden_value (cleared s) [] true true
        else with_value (parse_display picker raw)
            (λ d.
              set_hidden_value
                (record (select s d) { visible = lib.format_date d (display_format picker) })
                (format_canonical mode (some d)) true true)
            (set_hidden_value (record (cleared s) { visible = raw }) [] true true)

    -- `clear(false)` and `setDate(d, false)` do not call back.
    unfoldable pub apply_server_state : DateInput D → Text → Text → DateInput D
    unfolding select
    apply_server_state s display hidden =
        with_value (parse_canonical mode hidden)
          (λ d.
            set_hidden_value
              (record (select s d) { visible = lib.format_date d (display_format picker) }) hidden
              false false)
          (set_hidden_value (record s { visible = display; selected = lib.clear s.selected }) hidden
            false false)
