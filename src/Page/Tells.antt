-- ===== src/Page/Tells.antt =====
-- What the timeline's operations send and show: the instant that it shows is that of the last frame.
use voria.Prelude.{
  Bool, true, false, ◌≡◌, refl, ◌∙◌, Option, none, some, List, ◌∷◌, if_both, with_both_both, ◌-◌,
  ◌*◌,
}
use voria.Prelude.Int.{ℤ, pos, ◌+ℤ◌, ◌-ℤ◌, leb_ℤ}
use voria.Prelude.Text.{Text}
use voria.Timeline.State.{Timeline, Label, dash, instant, Effect, frame}
use voria.Timeline.Publish.{publish_at, publish_frame, show_frame, is_time, set_time}
use voria.Timeline.Play.{
  or_zero, frame_count, start_at, start_play, advance_at, advance_play, hold_fires, stop_play,
  toggle_play,
}

abbrev pub IsQuiet : Effect → Type 0
IsQuiet (frame time live product) = ⊥
IsQuiet _ = Unit {0}

-- The label and the log after some operations: a frame is sent exactly where an instant is shown.
pub data Says (l : Label) (before : List Effect) : Label → List Effect → Type 0 where
  still : Says l before l before
  dashed : {m : Label} {log : List Effect} → Says l before m log → Says l before dash log
  said :
      {m : Label} {log : List Effect} (e : Effect)
      → IsQuiet e
      → Says l before m log
      → Says l before m (e ∷ log)
  framed :
      {m : Label} {log : List Effect} (t : ℤ) (live : Bool) (product : Text)
      → Says l before m log
      → Says l before (instant t) (frame t live product ∷ log)

-- A timeline and a later one of the same product.
abbrev pub Tells : Timeline → Timeline → Type 0
Tells s u = Says s.view.time_label s.log u.view.time_label u.log × (u.product ≡ s.product)

Says-trans :
    {l m : Label} {a b : List Effect} {n : Label} {d : List Effect}
    → Says l a m b
    → Says m b n d
    → Says l a n d
Says-trans x still = x
Says-trans x (dashed y) = dashed (Says-trans x y)
Says-trans x (said e q y) = said e q (Says-trans x y)
Says-trans x (framed t live product y) = framed t live product (Says-trans x y)

pub Tells-trans : (s u v : Timeline) → Tells s u → Tells u v → Tells s v
Tells-trans s u v (x, e) (y, f) = (Says-trans x y, f ∙ e)

Tells-publish_at : (s : Timeline) (b : Bool) (t l : Option ℤ) → Tells s (publish_at s b t l)
unfolding publish_at show_frame
Tells-publish_at s false t l = (still, refl)
Tells-publish_at s true none l = (still, refl)
Tells-publish_at s true (some t) none = (still, refl)
Tells-publish_at s true (some t) (some l) =
    if_both (Tells s) (leb_ℤ l t) (framed l true s.product still, refl)
      (framed t false s.product still, refl)

pub Tells-publish_frame : (s : Timeline) → Tells s (publish_frame s)
unfolding publish_frame
Tells-publish_frame s = Tells-publish_at s s.enabled s.time s.latest

pub Tells-set_time : (s : Timeline) (t : ℤ) → Tells s (set_time s t)
unfolding set_time
Tells-set_time s t =
    if_both (Tells s) (is_time s.time t) (Tells-publish_frame s)
      (Tells-publish_frame (record s { time = some t }))

pub Tells-toggle_play : (s : Timeline) → Tells s (toggle_play s)
unfolding toggle_play stop_play start_play start_at
Tells-toggle_play s =
    if_both (Tells s) s.playing (still, refl)
      (if_both (Tells s) s.enabled
        (with_both_both (Tells s) s.latest s.period
          (λ l p hl hp. Tells-publish_frame (record s {
            play_from = some (l -ℤ pos ((frame_count p - 1) * p));
            playing = true;
            time = some (l -ℤ pos ((frame_count p - 1) * p));
            view = record s.view { pause_shown = true };
          }))
          (still, refl))
        (still, refl))

pub Tells-advance_play : (s : Timeline) → Tells s (advance_play s)
unfolding advance_play advance_at
Tells-advance_play s =
    with_both_both (Tells s) s.latest s.period
      (λ l p hl hp.
        if_both (Tells s) (leb_ℤ l (or_zero s.time +ℤ pos p))
          (Tells-publish_frame (record s { time = some l }))
          (Tells-publish_frame (record s { time = some (or_zero s.time +ℤ pos p) })))
      (still, refl)

pub Tells-hold_fires : (s : Timeline) → Tells s (hold_fires s)
unfolding hold_fires
Tells-hold_fires s =
    if_both (Tells s) s.playing
      (Tells-publish_frame (record s { play_hold = false; time = s.play_from })) (still, refl)
