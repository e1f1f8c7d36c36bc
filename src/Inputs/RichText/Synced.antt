-- ===== src/Inputs/RichText/Synced.antt =====
-- What the form's field holds of the editor's content.
use voria.Prelude.{
  Bool, true, false, ◌≡◌, refl, sym, ◌⊎◌, inl, inr, some, List, [], ◌∷◌, arith, ap, ◌∙◌, if_cases,
}
use voria.Prelude.Text.{Text}
use voria.Inputs.RichText.{
  RichText, sync_source, flush_sync, schedule_sync, timer_fires, before_submit, editor_init,
  editor_ready, Event, input, change, blur, timer, submit, run_event, run_events, begun,
}

-- The hook holds the editor, and the field has its content or the timer will bring it there.
pub record IsSynced (s : RichText) : Type 0 where
  pub ready : s.ready ≡ true
  pub has_content : (text : Text) × (s.content ≡ some text)
  pub field : (s.pending ≡ true) ⊎ (s.content ≡ some s.source)

-- A flush brings the content to the field.
flush_sync-content :
    (s : RichText) (notify : Bool) {text : Text}
    → s.ready ≡ true
    → s.content ≡ some text
    → ((flush_sync s notify).content ≡ some text)
      × ((flush_sync s notify).source ≡ text)
      × ((flush_sync s notify).ready ≡ true)
unfolding flush_sync sync_source
flush_sync-content s notify h c = ground arith

IsSynced-flush_sync :
    (s : RichText) (notify : Bool) {text : Text}
    → s.ready ≡ true
    → s.content ≡ some text
    → IsSynced (flush_sync s notify)
IsSynced-flush_sync s notify {text} h c =
    let (c', e, r) = flush_sync-content s notify h c in
    record { ready = r; has_content = (text, c'); field = inr (c' ∙ ap some (sym e)) }

IsSynced-run_event : (s : RichText) (e : Event) → IsSynced s → IsSynced (run_event s e)
unfolding run_event schedule_sync timer_fires before_submit
IsSynced-run_event s (input text) y = record {
  ready = y.ready;
  has_content = (text, refl);
  field = inl refl;
}
IsSynced-run_event s (change text) y =
    IsSynced-flush_sync (record s { content = some text }) true y.ready refl
IsSynced-run_event s blur y = IsSynced-flush_sync s true y.ready y.has_content.1
IsSynced-run_event s timer y =
    if_cases IsSynced s.pending
      (λ _. IsSynced-flush_sync (record s { pending = false }) true y.ready y.has_content.1)
      (λ _. y)
IsSynced-run_event s submit y = IsSynced-flush_sync s false y.ready y.has_content.1

IsSynced-run_events : (s : RichText) (es : List Event) → IsSynced s → IsSynced (run_events s es)
IsSynced-run_events s [] y = y
IsSynced-run_events s (e ∷ es) y = IsSynced-run_events (run_event s e) es (IsSynced-run_event s e y)

IsSynced-begun : (field written : Text) → IsSynced (begun field written)
unfolding begun editor_ready editor_init sync_source
IsSynced-begun field written = record {
  ready = refl;
  has_content = (written, refl);
  field = inr refl;
}

-- No edit is lost: after any events of an editor that the hook holds, of the timer and of the form,
-- the field has the editor's
-- content or the timer is pending.
pub run_events-IsSynced :
    (field written : Text) (es : List Event) → IsSynced (run_events (begun field written) es)
run_events-IsSynced field written es =
    IsSynced-run_events (begun field written) es (IsSynced-begun field written)

silent :
    (s : RichText)
    → IsSynced s
    → ((before_submit s).content ≡ some (before_submit s).source)
      × ((before_submit s).content ≡ s.content)
      × ((before_submit s).inputs ≡ s.inputs)
unfolding before_submit flush_sync sync_source
silent s y = let c = y.has_content.1 in ground (arith, c)

-- What is submitted is what the editor shows: when the form is submitted after any events of an
-- editor that the hook holds, of the timer and of the form, the field has the editor's content, and no "input" event is sent for it.
pub content-before_submit :
    (field written : Text) (es : List Event)
    → let s = run_events (begun field written) es in
      ((before_submit s).content ≡ some (before_submit s).source)
      × ((before_submit s).content ≡ s.content)
      × ((before_submit s).inputs ≡ s.inputs)
content-before_submit field written es =
    silent (run_events (begun field written) es) (run_events-IsSynced field written es)
