-- ===== src/Timeline/Wired/Steps.antt =====
-- The timers and sockets after the operations of playback, of the connection and of the controls.
use voria.Prelude.{ℕ, Bool, true, false, ◌≡◌, ◌⊎◌, none, arith}
use voria.Prelude.Int.{ℤ}
use voria.Timeline.State.{Timeline}
use voria.Timeline.Publish.{
  publish_frame, set_time, schedule_publish, raf_fires, sync_fires, is_time,
}
use voria.Timeline.Play.{
  start_at, start_play, advance_at, advance_play, hold_fires, stop_play, toggle_play,
}
use voria.Timeline.Connection.{open_socket, schedule_reconnect, close_socket}
use voria.Timeline.Sync.{resync, reconnect_fires}
use voria.Timeline.Controls.{
  step_at, step, go_live_at, go_live, Rect, Key, key_at, drag_at, drag_to, track_down, track_move,
  track_up, handle_key,
}

-- Playback has exactly one of its two timers while it runs, and none while it does not; it runs only
-- while the radar is on. A radar that is off, or a page that is hidden, has neither a socket nor a
-- pending reconnection.
pub record IsWired (s : Timeline) : Type 0 where
  pub stopped : s.playing ≡ false → (s.play_timer ≡ false) × (s.play_hold ≡ false)
  pub one_timer :
      s.playing ≡ true
      → ((s.play_timer ≡ true) × (s.play_hold ≡ false))
        ⊎ ((s.play_timer ≡ false) × (s.play_hold ≡ true))
  pub off_still : s.enabled ≡ false → s.playing ≡ false
  pub off_silent : s.enabled ≡ false → (s.ws ≡ false) × (s.ws_timer ≡ none)
  pub hidden_silent : s.hidden ≡ true → (s.ws ≡ false) × (s.ws_timer ≡ none)

-- A state with the same fields of these kinds.
record SameWires (s t : Timeline) : Type 0 where
  enabled : t.enabled ≡ s.enabled
  playing : t.playing ≡ s.playing
  play_timer : t.play_timer ≡ s.play_timer
  play_hold : t.play_hold ≡ s.play_hold
  ws : t.ws ≡ s.ws
  ws_timer : t.ws_timer ≡ s.ws_timer
  hidden : t.hidden ≡ s.hidden

pub IsWired-publish_frame : (s : Timeline) → IsWired s → IsWired (publish_frame s)
unfolding publish_frame
IsWired-publish_frame s w = ground arith

pub IsWired-stop_play : (s : Timeline) → IsWired s → IsWired (stop_play s)
unfolding stop_play
IsWired-stop_play s w = ground arith

pub IsWired-start_at :
    (s : Timeline) (l : ℤ) (p : ℕ)
    → s.enabled ≡ true
    → s.playing ≡ false
    → IsWired s
    → IsWired (start_at s l p)
unfolding start_at publish_frame
IsWired-start_at s l p on off w = ground arith

pub IsWired-toggle_play : (s : Timeline) → IsWired s → IsWired (toggle_play s)
unfolding toggle_play start_play
IsWired-toggle_play s w = grind (arith, IsWired-stop_play, IsWired-start_at)

pub IsWired-hold_fires : (s : Timeline) → s.play_hold ≡ true → IsWired s → IsWired (hold_fires s)
unfolding hold_fires publish_frame
IsWired-hold_fires s h w = ground arith

pub IsWired-advance_at :
    (s : Timeline) (l : ℤ) (p : ℕ) → s.play_timer ≡ true → IsWired s → IsWired (advance_at s l p)
unfolding advance_at publish_frame
IsWired-advance_at s l p h w = ground arith

pub IsWired-advance_play :
    (s : Timeline) → s.play_timer ≡ true → IsWired s → IsWired (advance_play s)
unfolding advance_play
IsWired-advance_play s h w = grind (arith, IsWired-advance_at)

pub IsWired-set_time : (s : Timeline) (t : ℤ) → IsWired s → IsWired (set_time s t)
unfolding set_time publish_frame is_time
IsWired-set_time s t w = ground arith

pub IsWired-step_at : (s : Timeline) (l : ℤ) (p : ℕ) (f : ℤ) → IsWired s → IsWired (step_at s l p f)
unfolding step_at
IsWired-step_at s l p f w = IsWired-set_time _ _ (IsWired-stop_play s w)

pub IsWired-step : (s : Timeline) (f : ℤ) → IsWired s → IsWired (step s f)
unfolding step
IsWired-step s f w = grind (arith, IsWired-step_at)

pub IsWired-go_live_at : (s : Timeline) (l : ℤ) → IsWired s → IsWired (go_live_at s l)
unfolding go_live_at
IsWired-go_live_at s l w = ground (arith, IsWired-set_time (stop_play s) l (IsWired-stop_play s w))

pub IsWired-go_live : (s : Timeline) → IsWired s → IsWired (go_live s)
unfolding go_live
IsWired-go_live s w = grind (arith, IsWired-go_live_at)

pub IsWired-open_socket : (s : Timeline) → s.enabled ≡ true → IsWired s → IsWired (open_socket s)
unfolding open_socket
IsWired-open_socket s h w = ground arith

pub IsWired-close_socket : (s : Timeline) → IsWired s → IsWired (close_socket s)
unfolding close_socket
IsWired-close_socket s w = ground arith

pub IsWired-schedule_reconnect :
    (s : Timeline) → s.ws ≡ true → IsWired s → IsWired (schedule_reconnect s)
unfolding schedule_reconnect
IsWired-schedule_reconnect s h w = ground arith

pub IsWired-resync : (s : Timeline) → IsWired s → IsWired (resync s)
unfolding resync
IsWired-resync s w = ground arith

pub IsWired-reconnect_fires : (s : Timeline) → IsWired s → IsWired (reconnect_fires s)
unfolding reconnect_fires open_socket resync
IsWired-reconnect_fires s w = ground arith

pub IsWired-raf_fires : (s : Timeline) → IsWired s → IsWired (raf_fires s)
unfolding raf_fires publish_frame
IsWired-raf_fires s w = ground arith

pub IsWired-sync_fires : (s : Timeline) → IsWired s → IsWired (sync_fires s)
unfolding sync_fires
IsWired-sync_fires s w = ground arith

pub IsWired-drag_at :
    (s : Timeline) (l : ℤ) (p : ℕ) (x : ℤ) (r : Rect) → IsWired s → IsWired (drag_at s l p x r)
unfolding drag_at schedule_publish
IsWired-drag_at s l p x r w = ground arith

pub IsWired-drag_to : (s : Timeline) (x : ℤ) (r : Rect) → IsWired s → IsWired (drag_to s x r)
unfolding drag_to
IsWired-drag_to s x r w = grind (arith, IsWired-drag_at)

pub IsWired-track_down : (s : Timeline) (x : ℤ) (r : Rect) → IsWired s → IsWired (track_down s x r)
unfolding track_down stop_play
IsWired-track_down s x r w =
    let pressed : Timeline = record (stop_play s) {
      dragging = true;
      view = record (stop_play s).view { drag_shown = true };
    } in
    ground (arith, IsWired-drag_to pressed x r)

pub IsWired-track_move : (s : Timeline) (x : ℤ) (r : Rect) → IsWired s → IsWired (track_move s x r)
unfolding track_move
IsWired-track_move s x r w = ground (arith, IsWired-drag_to s x r)

pub IsWired-track_up : (s : Timeline) → IsWired s → IsWired (track_up s)
unfolding track_up publish_frame
IsWired-track_up s w = ground arith

pub IsWired-key_at :
    (s : Timeline) (l : ℤ) (p : ℕ) (k : Key) (shift : Bool)
    → IsWired s
    → IsWired (key_at s l p k shift)
unfolding key_at
IsWired-key_at s l p Key.arrow_left shift w = IsWired-step s _ w
IsWired-key_at s l p Key.arrow_right shift w = IsWired-step s _ w
IsWired-key_at s l p Key.home shift w = IsWired-set_time s _ w
IsWired-key_at s l p Key.end shift w = IsWired-go_live s w
IsWired-key_at s l p Key.other_key shift w = w

pub IsWired-handle_key :
    (s : Timeline) (k : Key) (shift : Bool) → IsWired s → IsWired (handle_key s k shift)
unfolding handle_key
IsWired-handle_key s k shift w = grind (arith, IsWired-key_at)
