-- ===== src/Inputs/RichText.antt =====
-- The rich text input (assets/js/hooks/hugerte_input.js): an editor whose content is copied to a
-- field of the form, at once or a quarter of a second after the last key. The editor is HugeRTE's: it
-- enters by the contents that it has after its events.
pub mod Synced
pub mod Life
use voria.Prelude.{
  ℕ, ◌+◌, Bool, true, false, not, ◌&&◌, Option, none, some, List, [], ◌∷◌, if◌then◌else◌,
  with_value,
}
use voria.Prelude.Text.{Text, text_eq}

-- `content` is there once the editor has begun, and `ready` says that the hook holds the editor.
-- `pending` is the timer, and `inputs` counts the "input" events that the field was sent.
pub record RichText : Type 0 where
  pub source : Text
  pub content : Option Text
  pub ready : Bool
  pub pending : Bool
  pub inputs : ℕ

unfoldable pub sync_source : RichText → Text → Bool → RichText
sync_source s value notify =
    let changed = not (text_eq s.source value) in
    record s { source = value; inputs = if notify && changed then s.inputs + 1 else s.inputs }

unfoldable pub flush_sync : RichText → Bool → RichText
flush_sync s notify =
    if s.ready then with_value s.content (λ value. sync_source s value notify) s else s

-- A timer that is pending is cleared first.
unfoldable pub schedule_sync : RichText → RichText
schedule_sync s = record s { pending = true }

unfoldable pub timer_fires : RichText → RichText
timer_fires s = flush_sync (record s { pending = false }) true

unfoldable pub before_submit : RichText → RichText
before_submit s = flush_sync s false

-- An editor that the hook does not hold yet is not removed.
unfoldable pub destroyed_editor : RichText → RichText
destroyed_editor s =
    let calm = record s { pending = false } in
    if s.ready then record calm { content = none; ready = false } else calm

-- The editor begins with the field's text, as it writes it, which the field takes back silently.
unfoldable pub editor_init : RichText → Text → RichText
editor_init s written = sync_source (record s { content = some written }) written false

unfoldable pub editor_ready : RichText → RichText
editor_ready s = record s { ready = true }

-- The events of an editor that is ready, with the content after them, the timer, and the form's
-- submission.
pub data Event : Type 0 where
  input : Text → Event
  change : Text → Event
  blur : Event
  timer : Event
  submit : Event

unfoldable pub run_event : RichText → Event → RichText
run_event s (input text) = schedule_sync (record s { content = some text })
run_event s (change text) = flush_sync (record s { content = some text }) true
run_event s blur = flush_sync s true
run_event s timer = if s.pending then timer_fires s else s
run_event s submit = before_submit s

abbrev pub run_events : RichText → List Event → RichText
run_events s [] = s
run_events s (e ∷ es) = run_events (run_event s e) es

-- The state in which the editor has begun and the hook holds it.
unfoldable pub begun : Text → Text → RichText
begun field written = editor_ready (
    editor_init
      (record { source = field; content = none; ready = false; pending = false; inputs = 0 })
      written)
