-- ===== src/Timeline/Wired.antt =====
-- Which timers and sockets can be there, in every state that the hook reaches.
mod Steps
use voria.Prelude.{
  ℕ, Bool, true, false, ◌≡◌, refl, ◌⊎◌, inl, inr, Option, none, some, arith, Bool-cases, List, [],
  ◌∷◌,
}
use voria.Prelude.Int.{ℤ}
use voria.Prelude.Text.{Text}
use voria.Radar.Latest.{LastProduct, fetch_latest}
use voria.Timeline.State.{Timeline, View, mounted}
use voria.Timeline.Grid.{Calendar, build_ticks}
use voria.Timeline.Publish.{
  publish_frame, publish_at, show_frame, set_time, schedule_publish, raf_fires, sync_fires, is_time,
  update_legend,
}
use voria.Timeline.Play.{
  start_at, start_play, advance_at, advance_play, hold_fires, stop_play, toggle_play,
}
use voria.Timeline.Connection.{open_socket, schedule_reconnect, close_socket}
use voria.Timeline.Sync.{
  Message, resync, synced, resync_with, frame_out, on_socket_message, reconnect_fires,
}
use voria.Timeline.Controls.{
  chosen_product, apply_state, visibility_change, step_at, step, go_live_at, go_live, Rect, Key,
  key_at, drag_at, drag_to, track_down, track_move, track_up, handle_key,
}
use voria.Timeline.Step.{
  Event, radar_state, visibility, answer, news, socket_lost, play_click, prev_click, next_click,
  live_click, pointer_down, pointer_move, pointer_up, key, play_tick, hold_over, raf, sync_over,
  reconnect, run_event, run_events,
}
use Steps.{
  IsWired-publish_frame, IsWired-stop_play, IsWired-start_at, IsWired-toggle_play,
  IsWired-hold_fires, IsWired-advance_at, IsWired-advance_play, IsWired-set_time, IsWired-step_at,
  IsWired-step, IsWired-go_live_at, IsWired-go_live, IsWired-open_socket, IsWired-close_socket,
  IsWired-schedule_reconnect, IsWired-resync, IsWired-reconnect_fires, IsWired-raf_fires,
  IsWired-sync_fires, IsWired-drag_at, IsWired-drag_to, IsWired-track_down, IsWired-track_move,
  IsWired-track_up, IsWired-key_at, IsWired-handle_key,
}
pub use Steps.{IsWired}

IsWired-visibility_change :
    (s : Timeline) (hidden : Bool) → IsWired s → IsWired (visibility_change s hidden)
unfolding visibility_change stop_play close_socket open_socket
IsWired-visibility_change s true w = ground arith
IsWired-visibility_change s false w = ground arith

-- A radar that is switched on keeps its wires, and one that is switched off loses them.
IsWired-update_legend : (s : Timeline) → IsWired s → IsWired (update_legend s)
unfolding update_legend
IsWired-update_legend s w = ground arith

enabled-update_legend : (s : Timeline) → (update_legend s).enabled ≡ s.enabled
unfolding update_legend
enabled-update_legend s = ground arith

IsWired-apply_state_on :
    (s : Timeline) (product : Option Text) → IsWired s → IsWired (apply_state s true product)
unfolding apply_state
IsWired-apply_state_on s product w =
    let on : Timeline = record s {
      enabled = true;
      product = chosen_product s.product product;
      view = record s.view { visible = true };
    } in
    let wired : IsWired on = ground arith in
    let opened =
      IsWired-open_socket (update_legend on) (enabled-update_legend on)
        (IsWired-update_legend on wired) in
    ground (
      arith,
      IsWired-resync (open_socket (update_legend on)),
      IsWired-publish_frame (open_socket (update_legend on)),
    )

IsWired-apply_state_off :
    (s : Timeline) (product : Option Text) → IsWired s → IsWired (apply_state s false product)
unfolding apply_state close_socket stop_play update_legend
IsWired-apply_state_off s product w = ground arith

IsWired-apply_state :
    (s : Timeline) (enabled : Bool) (product : Option Text)
    → IsWired s
    → IsWired (apply_state s enabled product)
IsWired-apply_state s true product w = IsWired-apply_state_on s product w
IsWired-apply_state s false product w = IsWired-apply_state_off s product w

IsWired-resync_with :
    (c : Calendar) (s : Timeline) (o : Option LastProduct) → IsWired s → IsWired (resync_with c s o)
unfolding resync_with synced publish_frame
IsWired-resync_with c s none w = ground arith
IsWired-resync_with c s (some last) w = ground arith

IsWired-frame_out : (c : Calendar) (s : Timeline) (t : ℤ) → IsWired s → IsWired (frame_out c s t)
unfolding frame_out publish_frame
IsWired-frame_out c s t w = ground arith

IsWired-on_socket_message :
    (c : Calendar) (s : Timeline) (m : Option Message)
    → IsWired s
    → IsWired (on_socket_message c s m)
unfolding on_socket_message
IsWired-on_socket_message c s none w = w
IsWired-on_socket_message c s (some m) w = grind (arith, IsWired-frame_out)

-- Every event keeps the wiring.
pub IsWired-run_event :
    (c : Calendar) (s : Timeline) (e : Event) → IsWired s → IsWired (run_event c s e)
unfolding run_event
IsWired-run_event c s (radar_state enabled product) w = IsWired-apply_state s enabled product w
IsWired-run_event c s (visibility hidden) w = IsWired-visibility_change s hidden w
IsWired-run_event c s (answer r) w = ground (arith, IsWired-resync_with c s (fetch_latest r))
IsWired-run_event c s (news m) w = ground (arith, IsWired-on_socket_message c s m)
IsWired-run_event c s socket_lost w = ground (arith, IsWired-schedule_reconnect s)
IsWired-run_event c s play_click w = IsWired-toggle_play s w
IsWired-run_event c s prev_click w = IsWired-step s _ w
IsWired-run_event c s next_click w = IsWired-step s _ w
IsWired-run_event c s live_click w = IsWired-go_live s w
IsWired-run_event c s (pointer_down x r) w = IsWired-track_down s x r w
IsWired-run_event c s (pointer_move x r) w = IsWired-track_move s x r w
IsWired-run_event c s pointer_up w = IsWired-track_up s w
IsWired-run_event c s (key k shift) w = IsWired-handle_key s k shift w
IsWired-run_event c s play_tick w = ground (arith, IsWired-advance_play s)
IsWired-run_event c s hold_over w = ground (arith, IsWired-hold_fires s)
IsWired-run_event c s raf w = ground (arith, IsWired-raf_fires s)
IsWired-run_event c s sync_over w = ground (arith, IsWired-sync_fires s)
IsWired-run_event c s reconnect w = ground (arith, IsWired-reconnect_fires s)

pub IsWired-mounted : (has_legend hidden : Bool) → IsWired (mounted has_legend hidden)
unfolding mounted
IsWired-mounted has_legend hidden = ground arith

IsWired-run_events :
    (c : Calendar) (s : Timeline) (es : List Event) → IsWired s → IsWired (run_events c s es)
IsWired-run_events c s [] w = w
IsWired-run_events c s (e ∷ es) w =
    IsWired-run_events c (run_event c s e) es (IsWired-run_event c s e w)

-- In every state that the timeline reaches after it was mounted, playback has one timer while it runs
-- and none while it does not, and neither playback, the socket nor a pending reconnection outlives
-- the radar's being switched off; the latter two do not outlive the page's being hidden either.
pub run_events-IsWired :
    (c : Calendar) (has_legend hidden : Bool) (es : List Event)
    → IsWired (run_events c (mounted has_legend hidden) es)
run_events-IsWired c has_legend hidden es =
    IsWired-run_events c _ es (IsWired-mounted has_legend hidden)
