-- ===== src/Inputs/RichText/Life.antt =====
-- The life of the rich text input, from mounted to after destroyed: its editor is loaded meanwhile.
use voria.Prelude.{
  Bool, true, false, ◌||◌, ◌≡◌, refl, ap, ◌∙◌, none, List, [], ◌∷◌, ◌++◌, arith, if◌then◌else◌,
  with_value,
}
use voria.Prelude.Text.{Text}
use voria.Inputs.RichText.{
  RichText, sync_source, flush_sync, schedule_sync, timer_fires, before_submit, destroyed_editor,
  editor_init, editor_ready, Event, input, change, blur, timer, submit, run_event,
}

-- `listens` is whether the form's submission calls the hook.
pub record Life : Type 0 where
  pub rich : RichText
  pub listens : Bool

-- An edit, the timer or the submission; the editor's "init" event, with the text that it makes of the
-- field's; the end of `await this.initEditor()`; and the end of the hook.
pub data Moment : Type 0 where
  edited : Event → Moment
  begins : Text → Moment
  held : Moment
  removed : Moment

-- `mounted`, for a page with both fields.
unfoldable pub mounted : Text → Bool → Life
mounted field has_form = record {
  rich = record { source = field; content = none; ready = false; pending = false; inputs = 0 };
  listens = has_form;
}

-- An editor that is not there has no events.
unfoldable pub happens : Life → Event → Life
happens l timer = record l { rich = run_event l.rich timer }
happens l submit = if l.listens then record l { rich = run_event l.rich submit } else l
happens l e = with_value l.rich.content (λ text. record l { rich = run_event l.rich e }) l

unfoldable pub run_moment : Life → Moment → Life
unfolding happens
run_moment l (edited e) = happens l e
run_moment l (begins written) = record l { rich = editor_init l.rich written }
run_moment l held = record l { rich = editor_ready l.rich }
run_moment l removed = record { rich = destroyed_editor l.rich; listens = false }

abbrev pub run_moments : Life → List Moment → Life
run_moments l [] = l
run_moments l (m ∷ ms) = run_moments (run_moment l m) ms

-- The editor comes, and the hook is not removed, among these.
abbrev pub comes : List Moment → Bool
comes [] = false
comes (held ∷ ms) = true
comes (m ∷ ms) = comes ms

abbrev pub AllKept : List Moment → Type 0
AllKept [] = Unit {0}
AllKept (removed ∷ ms) = ⊥
AllKept (m ∷ ms) = AllKept ms

ready-happens : (l : Life) (e : Event) → (happens l e).rich.ready ≡ l.rich.ready
unfolding happens run_event timer_fires schedule_sync before_submit flush_sync sync_source
ready-happens l (input t) = ground arith
ready-happens l (change t) = ground arith
ready-happens l blur = ground arith
ready-happens l timer = ground arith
ready-happens l submit = ground arith

ready-run_moments :
    (l : Life) (ms : List Moment)
    → AllKept ms
    → (run_moments l ms).rich.ready ≡ (l.rich.ready || comes ms)
unfolding run_moment editor_init editor_ready sync_source
ready-run_moments l [] k = ground arith
ready-run_moments l (edited e ∷ ms) k =
    ready-run_moments (happens l e) ms k ∙ ap (λ b. b || comes ms) (ready-happens l e)
ready-run_moments l (begins w ∷ ms) k = ready-run_moments (run_moment l (begins w)) ms k
ready-run_moments l (held ∷ ms) k = ready-run_moments (run_moment l held) ms k ∙ ground arith
ready-run_moments l (removed ∷ ms) k = absurd k

run_moments-append :
    (l : Life) (ms ns : List Moment) → run_moments l (ms ++ ns) ≡ run_moments (run_moments l ms) ns
run_moments-append l [] ns = refl
run_moments-append l (m ∷ ms) ns = run_moments-append (run_moment l m) ms ns

ready-removed : (l : Life) → (run_moment l removed).rich.ready ≡ false
unfolding run_moment destroyed_editor
ready-removed l = ground arith

-- Whatever happened before its end: afterwards the hook holds an editor, which its end did not remove,
-- exactly if the loading of the editor ended only then.
pub ready-removed_moments :
    (field : Text) (has_form : Bool) (ms ns : List Moment)
    → AllKept ns
    → (run_moments (mounted field has_form) (ms ++ removed ∷ ns)).rich.ready ≡ comes ns
ready-removed_moments field has_form ms ns k =
    let l = run_moments (mounted field has_form) ms in
    ap (λ (t : Life). t.rich.ready) (run_moments-append (mounted field has_form) ms (removed ∷ ns))
    ∙ (ready-run_moments (run_moment l removed) ns k ∙ ap (λ b. b || comes ns) (ready-removed l))
