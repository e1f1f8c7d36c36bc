-- ===== src/Timeline/Backoff.antt =====
-- The delays of reconnection, over any sequence of events.
use native.Mathlib.Nat.{pow-suc}
use voria.Prelude.{
  ◌∙◌, ℕ, suc, ◌*◌, ◌^◌, Bool, true, false, ◌≡◌, refl, Option, none, some, List, [], ◌∷◌, arith,
  min, if◌then◌else◌,
}
use voria.Prelude.Int.{ℤ}
use voria.Prelude.Text.{Text}
use voria.Radar.Latest.{LastProduct, fetch_latest}
use voria.Timeline.State.{Timeline, mounted, ws_reconnect_min_ms, ws_reconnect_max_ms}
use voria.Timeline.Grid.{Calendar}
use voria.Timeline.Publish.{
  publish_frame, publish_at, show_frame, set_time, schedule_publish, raf_fires, sync_fires,
  update_legend,
}
use voria.Timeline.Play.{
  start_at, start_play, advance_at, advance_play, hold_fires, stop_play, toggle_play,
}
use voria.Timeline.Connection.{open_socket, schedule_reconnect, close_socket}
use voria.Timeline.Sync.{
  Message, resync, synced, resync_with, frame_out, on_socket_message, reconnect_fires,
}
use voria.Timeline.Controls.{
  apply_state, visibility_change, step_at, step, go_live_at, go_live, Rect, Key, key_at, drag_at,
  drag_to, track_down, track_move, track_up, handle_key,
}
use voria.Timeline.Step.{
  Event, radar_state, visibility, answer, news, socket_lost, play_click, prev_click, next_click,
  live_click, pointer_down, pointer_move, pointer_up, key, play_tick, hold_over, raf, sync_over,
  reconnect, run_event, run_events,
}
use voria.Timeline.Wired.{IsWired, IsWired-run_event, IsWired-mounted}

-- How many losses count after an event: a socket that is lost is one more, and none counts any longer
-- when the radar is switched off or the page is hidden, which closes the socket on purpose.
abbrev pub counted : Timeline → ℕ → Event → ℕ
counted s n socket_lost = if s.ws then suc n else n
counted s n (radar_state false product) = 0
counted s n (visibility true) = 0
counted s n e = n

-- The losses of a run since the socket was last closed on purpose.
abbrev pub losses : Calendar → Timeline → ℕ → List Event → ℕ
losses c s n [] = n
losses c s n (e ∷ es) = losses c (run_event c s e) (counted s n e) es

-- The delay that doubles from the least one up to the greatest.
abbrev pub backoff : ℕ → ℕ
backoff n = min (ws_reconnect_min_ms * 2 ^ n) ws_reconnect_max_ms

backoff-suc : (n : ℕ) → min (backoff n * 2) ws_reconnect_max_ms ≡ backoff (suc n)
backoff-suc n = omega (arith, pow-suc 2 n)

-- The delay is the same.
abbrev Same : Timeline → Timeline → Type 0
Same s t = t.ws_delay ≡ s.ws_delay

publish_frame-Same : (s : Timeline) → Same s (publish_frame s)
unfolding publish_frame publish_at show_frame
publish_frame-Same s = ground arith

set_time-Same : (s : Timeline) (t : ℤ) → Same s (set_time s t)
unfolding set_time publish_frame publish_at show_frame
set_time-Same s t = ground arith

toggle_play-Same : (s : Timeline) → Same s (toggle_play s)
unfolding toggle_play stop_play start_play start_at publish_frame publish_at show_frame
toggle_play-Same s = ground arith

advance_play-Same : (s : Timeline) → Same s (advance_play s)
unfolding advance_play advance_at publish_frame publish_at show_frame
advance_play-Same s = ground arith

hold_fires-Same : (s : Timeline) → Same s (hold_fires s)
unfolding hold_fires publish_frame publish_at show_frame
hold_fires-Same s = ground arith

step-Same : (s : Timeline) (f : ℤ) → Same s (step s f)
unfolding step step_at stop_play
step-Same s f = grind (arith, set_time-Same)

go_live-Same : (s : Timeline) → Same s (go_live s)
unfolding go_live go_live_at stop_play
go_live-Same s = grind (arith, set_time-Same)

drag_to-Same : (s : Timeline) (x : ℤ) (r : Rect) → Same s (drag_to s x r)
unfolding drag_to drag_at schedule_publish
drag_to-Same s x r = ground arith

track_down-Same : (s : Timeline) (x : ℤ) (r : Rect) → Same s (track_down s x r)
unfolding track_down stop_play
track_down-Same s x r = grind (arith, drag_to-Same)

key_at-Same :
    (s : Timeline) (l : ℤ) (p : ℕ) (k : Key) (shift : Bool) → Same s (key_at s l p k shift)
unfolding key_at
key_at-Same s l p Key.arrow_left shift = step-Same s _
key_at-Same s l p Key.arrow_right shift = step-Same s _
key_at-Same s l p Key.home shift = set_time-Same s _
key_at-Same s l p Key.end shift = go_live-Same s
key_at-Same s l p Key.other_key shift = refl

handle_key-Same : (s : Timeline) (k : Key) (shift : Bool) → Same s (handle_key s k shift)
unfolding handle_key
handle_key-Same s k shift = grind (arith, key_at-Same)

switched_on-Same : (s : Timeline) (product : Option Text) → Same s (apply_state s true product)
unfolding apply_state update_legend open_socket resync publish_frame publish_at show_frame
switched_on-Same s product = ground arith

resync_with-Same :
    (c : Calendar) (s : Timeline) (o : Option LastProduct) → Same s (resync_with c s o)
unfolding resync_with synced publish_frame publish_at show_frame
resync_with-Same c s none = refl
resync_with-Same c s (some last) = ground arith

frame_out-Same : (c : Calendar) (s : Timeline) (t : ℤ) → Same s (frame_out c s t)
unfolding frame_out publish_frame publish_at show_frame
frame_out-Same c s t = ground arith

on_socket_message-Same :
    (c : Calendar) (s : Timeline) (m : Option Message) → Same s (on_socket_message c s m)
unfolding on_socket_message
on_socket_message-Same c s none = refl
on_socket_message-Same c s (some m) = grind (arith, frame_out-Same)

reconnect_fires-Same : (s : Timeline) → Same s (reconnect_fires s)
unfolding reconnect_fires resync open_socket
reconnect_fires-Same s = ground arith

-- What an event does to the delay.
ws_delay-run_event :
    (c : Calendar) (s : Timeline) (e : Event) (n : ℕ)
    → IsWired s
    → s.ws_delay ≡ backoff n
    → (run_event c s e).ws_delay ≡ backoff (counted s n e)
unfolding run_event visibility_change open_socket close_socket stop_play apply_state
    schedule_reconnect track_move track_up raf_fires sync_fires publish_frame publish_at show_frame
ws_delay-run_event c s (radar_state true product) n w d = switched_on-Same s product ∙ d
ws_delay-run_event c s (radar_state false product) n w d = ground arith
ws_delay-run_event c s (visibility true) n w d = ground arith
ws_delay-run_event c s (visibility false) n w d = ground arith
ws_delay-run_event c s (answer r) n w d = ground (arith, resync_with-Same c s (fetch_latest r))
ws_delay-run_event c s (news m) n w d = ground (arith, on_socket_message-Same c s m)
ws_delay-run_event c s socket_lost n w d = ground (arith, backoff-suc n)
ws_delay-run_event c s play_click n w d = toggle_play-Same s ∙ d
ws_delay-run_event c s prev_click n w d = step-Same s _ ∙ d
ws_delay-run_event c s next_click n w d = step-Same s _ ∙ d
ws_delay-run_event c s live_click n w d = go_live-Same s ∙ d
ws_delay-run_event c s (pointer_down x r) n w d = track_down-Same s x r ∙ d
ws_delay-run_event c s (pointer_move x r) n w d = ground (arith, drag_to-Same s x r)
ws_delay-run_event c s pointer_up n w d = ground arith
ws_delay-run_event c s (key k shift) n w d = handle_key-Same s k shift ∙ d
ws_delay-run_event c s play_tick n w d = ground (arith, advance_play-Same s)
ws_delay-run_event c s hold_over n w d = ground (arith, hold_fires-Same s)
ws_delay-run_event c s raf n w d = ground arith
ws_delay-run_event c s sync_over n w d = ground arith
ws_delay-run_event c s reconnect n w d = ground (arith, reconnect_fires-Same s)

ws_timer-run_event :
    (c : Calendar) (s : Timeline) (n : ℕ)
    → IsWired s
    → s.ws_delay ≡ backoff n
    → s.ws ≡ true
    → (run_event c s socket_lost).ws_timer ≡ some (backoff n)
unfolding run_event schedule_reconnect
ws_timer-run_event c s n w d h = ground arith

ws_timer-run_events :
    (c : Calendar) (s : Timeline) (n : ℕ) (es : List Event)
    → IsWired s
    → s.ws_delay ≡ backoff n
    → (run_events c s es).ws ≡ true
    → (run_event c (run_events c s es) socket_lost).ws_timer ≡ some (backoff (losses c s n es))
ws_timer-run_events c s n [] w d h = ws_timer-run_event c s n w d h
ws_timer-run_events c s n (e ∷ es) w d h =
    ws_timer-run_events c (run_event c s e) (counted s n e) es (IsWired-run_event c s e w)
      (ws_delay-run_event c s e n w d) h

ws_delay-mounted : (has_legend hidden : Bool) → (mounted has_legend hidden).ws_delay ≡ backoff 0
unfolding mounted
ws_delay-mounted has_legend hidden = omega arith

-- Whatever happens after the hook is mounted: when its socket is then lost, the timer of the
-- reconnection is set to a second, doubled for each loss of the socket since the hook was mounted or the
-- socket was last closed on purpose (as the radar was switched off or the page was hidden), but to a
-- minute at most. No message, answer or connection that works in between sets the delay back.
pub ws_timer-losses :
    (c : Calendar) (has_legend hidden : Bool) (es : List Event)
    → (run_events c (mounted has_legend hidden) es).ws ≡ true
    → (run_event c (run_events c (mounted has_legend hidden) es) socket_lost).ws_timer
      ≡ some (backoff (losses c (mounted has_legend hidden) 0 es))
ws_timer-losses c has_legend hidden es =
    ws_timer-run_events c (mounted has_legend hidden) 0 es (IsWired-mounted has_legend hidden)
      (ws_delay-mounted has_legend hidden)
