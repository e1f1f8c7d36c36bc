-- ===== src/Timeline/Life.antt =====
-- The end of the hook (destroyed of assets/js/hooks/radar_timeline.js), and what can come after it. The
-- elements are gone by then, and with them the user's events; the server and the page are not heard any
-- more. The pending timers, the socket and the request are the hook's own.
use voria.Prelude.{false, ◌≡◌, refl, ap, ◌∙◌, List, [], ◌∷◌, arith}
use voria.Timeline.State.{Timeline}
use voria.Timeline.Grid.{Calendar}
use voria.Timeline.Play.{stop_play}
use voria.Timeline.Connection.{close_socket}
use voria.Timeline.Controls.{destroyed}
use voria.Timeline.Step.{
  Event, answer, news, socket_lost, play_tick, hold_over, raf, sync_over, reconnect, run_event,
  run_events,
}

-- What may still come to a hook that was destroyed.
abbrev pub IsLeft : Event → Type 0
IsLeft (answer r) = Unit {0}
IsLeft (news m) = Unit {0}
IsLeft socket_lost = Unit {0}
IsLeft play_tick = Unit {0}
IsLeft hold_over = Unit {0}
IsLeft raf = Unit {0}
IsLeft sync_over = Unit {0}
IsLeft reconnect = Unit {0}
IsLeft e = ⊥

abbrev pub AllLeft : List Event → Type 0
AllLeft [] = Unit {0}
AllLeft (e ∷ es) = IsLeft e × AllLeft es

run_event-destroyed :
    (c : Calendar) (s : Timeline) (e : Event)
    → s.syncing ≡ false
    → IsLeft e
    → run_event c (destroyed s) e ≡ destroyed s
unfolding run_event destroyed close_socket stop_play
run_event-destroyed c s (answer r) h l = ground (arith, h)
run_event-destroyed c s (news m) h l = ground (arith, h)
run_event-destroyed c s socket_lost h l = ground (arith, h)
run_event-destroyed c s play_tick h l = ground (arith, h)
run_event-destroyed c s hold_over h l = ground (arith, h)
run_event-destroyed c s raf h l = ground (arith, h)
run_event-destroyed c s sync_over h l = ground (arith, h)
run_event-destroyed c s reconnect h l = ground (arith, h)
run_event-destroyed c s e h l = absurd l

-- Nothing outlives the hook but a request: destroyed while none is on its way, the timeline sends nothing
-- and changes nothing any more, whatever timers, socket and answers would still bring.
pub run_events-destroyed :
    (c : Calendar) (s : Timeline) (es : List Event)
    → s.syncing ≡ false
    → AllLeft es
    → run_events c (destroyed s) es ≡ destroyed s
run_events-destroyed c s [] h l = refl
run_events-destroyed c s (e ∷ es) h (l, ls) =
    ap (λ t. run_events c t es) (run_event-destroyed c s e h l) ∙ run_events-destroyed c s es h ls
