-- ===== src/Timeline/Step.antt =====
-- The hook as a transition system: every event that can reach it, and its handler.
use voria.Prelude.{Bool, Option, List, [], ◌∷◌, if◌then◌else◌, with_value}
use voria.Prelude.Int.{ℤ, pos, negsuc}
use voria.Prelude.Text.{Text}
use voria.Radar.Latest.{Response, fetch_latest}
use voria.Timeline.State.{Timeline}
use voria.Timeline.Grid.{Calendar}
use voria.Timeline.Publish.{raf_fires, sync_fires}
use voria.Timeline.Play.{toggle_play, advance_play, hold_fires}
use voria.Timeline.Connection.{schedule_reconnect}
use voria.Timeline.Sync.{Message, resync_with, on_socket_message, reconnect_fires}
use voria.Timeline.Controls.{
  Rect, Key, apply_state, visibility_change, step, go_live, track_down, track_move, track_up,
  handle_key,
}

pub data Event : Type 0 where
  -- From the server, the browser's page and the service.
  radar_state : Bool → Option Text → Event
  visibility : Bool → Event
  answer : Response → Event
  news : Option Message → Event
  socket_lost : Event
  -- From the user.
  play_click prev_click next_click live_click : Event
  pointer_down pointer_move : ℤ → Rect → Event
  pointer_up : Event
  key : Key → Bool → Event
  -- Timers that are pending fire.
  play_tick hold_over raf sync_over reconnect : Event

-- An answer comes to a request, news comes over a socket, and only a pending timer fires.
unfoldable pub run_event : Calendar → Timeline → Event → Timeline
run_event c s (radar_state enabled product) = apply_state s enabled product
run_event c s (visibility hidden) = visibility_change s hidden
run_event c s (answer r) = if s.syncing then resync_with c s (fetch_latest r) else s
run_event c s (news m) = if s.ws then on_socket_message c s m else s
run_event c s socket_lost = if s.ws then schedule_reconnect s else s
run_event c s play_click = toggle_play s
run_event c s prev_click = step s (negsuc 0)
run_event c s next_click = step s (pos 1)
run_event c s live_click = go_live s
run_event c s (pointer_down x r) = track_down s x r
run_event c s (pointer_move x r) = track_move s x r
run_event c s pointer_up = track_up s
run_event c s (key k shift) = handle_key s k shift
run_event c s play_tick = if s.play_timer then advance_play s else s
run_event c s hold_over = if s.play_hold then hold_fires s else s
run_event c s raf = if s.publish_raf then raf_fires s else s
run_event c s sync_over = if s.sync_timer then sync_fires s else s
run_event c s reconnect = with_value s.ws_timer (λ delay. reconnect_fires s) s

-- The states after any sequence of events.
abbrev pub run_events : Calendar → Timeline → List Event → Timeline
run_events c s [] = s
run_events c s (e ∷ es) = run_events c (run_event c s e) es
