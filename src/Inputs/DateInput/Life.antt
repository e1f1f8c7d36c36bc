-- ===== src/Inputs/DateInput/Life.antt =====
-- The life of the date and time input (mounted, updated and destroyed of
-- assets/js/hooks/flatpickr_input.js).
use voria.Prelude.{
  ℕ, zero, suc, Bool, true, false, ◌≡◌, refl, subst, Bool-cases, ◌⊎◌, inl, inr, Option, some, List,
  [], ◌∷◌, arith, if◌then◌else◌, if_both,
}
use voria.Prelude.Text.{Text}
use voria.Inputs.DateInput.{
  Flatpickr, Picker, SubmitMode, DateInput, format_canonical, set_hidden_value,
  sync_from_selected_dates, called, sync_from_input, apply_server_state,
}
use voria.Inputs.DateInput.Synced.{hidden-sync_from_input, hidden-apply_server_state}

-- `here` is whether the hook and its picker are there; `form_listens` whether the form's submission calls
-- the hook.
pub record Life (D : Type 0) : Type 0 where
  pub fields : DateInput D
  pub here : Bool
  pub form_listens : Bool

-- A text is typed, the form is submitted, the picker is closed, a date is chosen in it, with the text that
-- the picker shows for it and the number of its callbacks but one, the server sends its values, and the
-- hook ends.
pub data Moment (D : Type 0) : Type 0 where
  typed : Text → Moment D
  submitted : Moment D
  closed : Moment D
  picked : (date : D) (shown : Text) (more : ℕ) → Moment D
  served : (display hidden : Text) → Moment D
  removed : Moment D

module _ {D : Type 0} (lib : Flatpickr D) (picker : Picker) (mode : SubmitMode)
    (pushes : Bool) where
  -- The fields as the page has them, with the date that the picker makes of the visible text.
  unfoldable pub mounted : DateInput D → Bool → Text → Text → Life D
  mounted page has_form display hidden = record {
    fields = apply_server_state lib picker mode pushes page display hidden;
    here = true;
    form_listens = has_form;
  }

  unfoldable pub synced : Life D → Life D
  synced l = record l { fields = sync_from_input lib picker mode pushes l.fields }

  unfoldable pub run_moment : Life D → Moment D → Life D
  unfolding synced
  run_moment l (typed text) =
      let changed = record l { fields = record l.fields { visible = text } } in
      if l.here then synced changed else changed
  run_moment l submitted = if l.form_listens then synced l else l
  run_moment l closed = if l.here then synced l else l
  run_moment l (picked date shown more) =
      let chosen = record l.fields { visible = shown; selected = some date } in
      if l.here then record l { fields = called lib picker mode pushes (suc more) chosen } else l
  run_moment l (served display hidden) =
      if l.here
      then record l { fields = apply_server_state lib picker mode pushes l.fields display hidden }
      else l
  run_moment l removed = record l { here = false; form_listens = false }

  abbrev pub run_moments : Life D → List (Moment D) → Life D
  run_moments l [] = l
  run_moments l (m ∷ ms) = run_moments (run_moment l m) ms

  abbrev pub here_after : Bool → Moment D → Bool
  here_after here removed = false
  here_after here m = here

  abbrev pub sent_after : Bool → Text → Moment D → Text
  sent_after here old (served display hidden) = if here then hidden else old
  sent_after here old m = old

  -- The hidden text that the server sent last to a hook that is there.
  abbrev pub last_sent : Bool → Text → List (Moment D) → Text
  last_sent here old [] = old
  last_sent here old (m ∷ ms) = last_sent (here_after here m) (sent_after here old m) ms

  -- The canonical text of a date, or the empty text of none, or what the server sent last.
  abbrev pub IsSubmittable : Text → Text → Type 0
  IsSubmittable sent text = ((o : Option D) × (text ≡ format_canonical lib mode o)) ⊎ (text ≡ sent)

  abbrev FromSelected : DateInput D → Type 0
  FromSelected s = (o : Option D) × (s.hidden ≡ format_canonical lib mode o)

  FromSelected-called :
      (n : ℕ) (s : DateInput D) → FromSelected s → FromSelected (called lib picker mode pushes n s)
  unfolding called sync_from_selected_dates set_hidden_value
  FromSelected-called zero s f = f
  FromSelected-called (suc n) s f =
      FromSelected-called n (sync_from_selected_dates lib picker mode pushes s) (s.selected, refl)

  FromSelected-called_once :
      (n : ℕ) (s : DateInput D) → FromSelected (called lib picker mode pushes (suc n) s)
  unfolding called sync_from_selected_dates set_hidden_value
  FromSelected-called_once n s =
      FromSelected-called n (sync_from_selected_dates lib picker mode pushes s) (s.selected, refl)

  IsSubmittable-synced : (sent : Text) (l : Life D) → IsSubmittable sent (synced l).fields.hidden
  unfolding synced
  IsSubmittable-synced sent l = inl (_, hidden-sync_from_input lib picker mode pushes l.fields)

  abbrev Holds : Text → Life D → Type 0
  Holds sent l = IsSubmittable sent l.fields.hidden

  here-run_moment : (l : Life D) (m : Moment D) → (run_moment l m).here ≡ here_after l.here m
  unfolding run_moment synced
  here-run_moment l (typed t) = ground arith
  here-run_moment l submitted = ground arith
  here-run_moment l closed = ground arith
  here-run_moment l (picked d t n) = ground arith
  here-run_moment l (served v t) = ground arith
  here-run_moment l removed = refl

  Holds-run_moment :
      (l : Life D) (sent : Text) (m : Moment D)
      → Holds sent l
      → Holds (sent_after l.here sent m) (run_moment l m)
  unfolding run_moment
  Holds-run_moment l sent (typed t) h =
      if_both (Holds sent) l.here
        (IsSubmittable-synced sent (record l { fields = record l.fields { visible = t } })) h
  Holds-run_moment l sent submitted h =
      if_both (Holds sent) l.form_listens (IsSubmittable-synced sent l) h
  Holds-run_moment l sent closed h = if_both (Holds sent) l.here (IsSubmittable-synced sent l) h
  Holds-run_moment l sent (picked d t n) h =
      if_both (Holds sent) l.here
        (inl (FromSelected-called_once n (record l.fields { visible = t; selected = some d }))) h
  Holds-run_moment l sent (served v t) h = elim (Bool-cases l.here) [
    | inl there ↦ rw there (inr (hidden-apply_server_state lib picker mode pushes l.fields v t).0)
    | inr gone ↦ rw gone h
  ]
  Holds-run_moment l sent removed h = h

  Holds-run_moments :
      (l : Life D) (sent : Text) (ms : List (Moment D))
      → Holds sent l
      → Holds (last_sent l.here sent ms) (run_moments l ms)
  Holds-run_moments l sent [] h = h
  Holds-run_moments l sent (m ∷ ms) h =
      subst
        (λ here.
          Holds (last_sent here (sent_after l.here sent m) ms) (run_moments (run_moment l m) ms))
        (here-run_moment l m)
        (Holds-run_moments (run_moment l m) (sent_after l.here sent m) ms
          (Holds-run_moment l sent m h))

  -- Nothing half typed is ever submitted: after any events since the input was mounted, the hidden field
  -- has the canonical text of a date, the empty text of none, or what the server sent last.
  pub run_moments-IsSubmittable :
      (page : DateInput D) (has_form : Bool) (display hidden : Text) (ms : List (Moment D))
      → IsSubmittable
          (last_sent true hidden ms)
          (run_moments (mounted page has_form display hidden) ms).fields.hidden
  unfolding mounted
  run_moments-IsSubmittable page has_form display hidden ms =
      Holds-run_moments (mounted page has_form display hidden) hidden ms
        (inr (hidden-apply_server_state lib picker mode pushes page display hidden).0)
