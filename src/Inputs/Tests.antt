-- ===== src/Inputs/Tests.antt =====
-- The theorems on the inputs at concrete inputs: the picker's dates are numbers, and a date is shown
-- as a numeral.
use voria.Inputs.RichText.Life.{
  edited, begins, held, removed, mounted, run_moments, ready-removed_moments,
}
use voria.Prelude.{ℕ, true, ◌≡◌, none, some, [], ◌∷◌, List}
use voria.Prelude.Int.{pos}
use voria.Prelude.Text.{codes, decimal, parse_decimal}
use voria.Inputs.RichText.{Event, input, change, blur, timer, run_events, begun, before_submit}
use voria.Inputs.RichText.Synced.{IsSynced, run_events-IsSynced, content-before_submit}
use voria.Inputs.DateInput.{
  Flatpickr, DateInput, date, date_iso, trim, parse_display, format_canonical, sync_from_input,
}
use voria.Inputs.DateInput.Life
use voria.Inputs.DateInput.Synced.{hidden-sync_from_input}

abbrev edits : List Event
edits = input (codes "a") ∷ timer ∷ input (codes "ab") ∷ []

run_events-IsSynced_example : IsSynced (run_events (begun [] []) edits)
run_events-IsSynced_example = run_events-IsSynced [] [] edits

content-before_submit_example :
    ((before_submit (run_events (begun [] []) edits)).content
      ≡ some (before_submit (run_events (begun [] []) edits)).source)
    × ((before_submit (run_events (begun [] []) edits)).content
        ≡ (run_events (begun [] []) edits).content)
    × ((before_submit (run_events (begun [] []) edits)).inputs
        ≡ (run_events (begun [] []) edits).inputs)
content-before_submit_example = content-before_submit [] [] edits

abbrev numbers : Flatpickr ℕ
numbers = record {
  time = λ d. some (pos d);
  new_date = λ t. 0;
  to_iso_string = decimal;
  parse_date = λ t f. parse_decimal t;
  format_date = λ d f. decimal d;
  set_date = λ o d. some d;
  clear = λ o. none;
  clear_text = [];
  clear_calls = 1;
}

abbrev typed : DateInput ℕ
typed = record { visible = codes " 7 "; hidden = []; selected = none; events = 0; pushed = [] }

hidden-sync_from_input_example :
    (sync_from_input numbers date date_iso true typed).hidden
    ≡ format_canonical numbers date_iso (parse_display numbers date (trim typed.visible))
hidden-sync_from_input_example = hidden-sync_from_input numbers date date_iso true typed

-- The editor's loading ends after the hook's end.
ready-removed_moments_example :
    (run_moments (mounted (codes "old") true) (
      begins (codes "<p>old</p>")
      ∷ removed
      ∷ edited blur
      ∷ held
      ∷ edited (change (codes "new"))
      ∷ [])).rich.ready
    ≡ true
ready-removed_moments_example =
    ready-removed_moments (codes "old") true (begins (codes "<p>old</p>") ∷ [])
      (edited blur ∷ held ∷ edited (change (codes "new")) ∷ []) tt

abbrev moments : List (Life.Moment ℕ)
moments =
    Life.typed (codes "1x")
    ∷ Life.closed
    ∷ Life.served (codes "12") (codes "12")
    ∷ Life.picked 9 (codes "9") 1
    ∷ Life.submitted
    ∷ Life.removed
    ∷ Life.typed (codes "13")
    ∷ []

run_moments-IsSubmittable_example :
    Life.IsSubmittable numbers date date_iso true
      (Life.last_sent numbers date date_iso true true (codes "7") moments)
      (Life.run_moments numbers date date_iso true
        (Life.mounted numbers date date_iso true typed true (codes "7") (codes "7"))
        moments).fields.hidden
run_moments-IsSubmittable_example =
    Life.run_moments-IsSubmittable numbers date date_iso true typed true (codes "7") (codes "7")
      moments
