-- ===== src/Timeline/Aligned/Steps.antt =====
-- The grid is kept by every event of the timeline (see `IsAligned`), the answer to a request while
-- playback runs apart.
use voria.Prelude.{
  not, with_both_both, with_value_both, if_both, if_cases, subst, ℕ, Bool, true, false, ◌≡◌, Option,
  none, some, arith,
}
use voria.Prelude.Int.{ℤ}
use voria.Prelude.Text.{Text}
use voria.Radar.Floor.{IsMultiple-add}
use voria.Timeline.State.{Timeline}
use voria.Timeline.Publish.{update_legend}
use voria.Timeline.Play.{start_play, advance_play, hold_fires, stop_play, toggle_play}
use voria.Timeline.Connection.{open_socket, schedule_reconnect, close_socket}
use voria.Timeline.Sync.{resync, reconnect_fires}
use voria.Timeline.Controls.{
  chosen_product, apply_state, visibility_change, step_at, step, go_live_at, go_live, Rect, Key,
  key_at, drag_to, track_down, track_move, track_up, handle_key,
}
use voria.Timeline.Aligned.{
  OnGrid, IsAligned, IsAligned-publish_frame, IsAligned-stop_play, IsAligned-set_time,
  IsAligned-start_at, IsAligned-advance_at, IsAligned-drag_at, IsAligned-set_time_at, NotAfter-of,
  latest-IsMultiple, or_zero-IsMultiple, cut-IsMultiple, oldest_time-IsMultiple,
}

module _ (s : Timeline) (a : IsAligned s) where
  pub IsAligned-toggle_play : IsAligned (toggle_play s)
  unfolding toggle_play start_play
  IsAligned-toggle_play = if_both IsAligned s.playing (IsAligned-stop_play s a) (
      if_both IsAligned s.enabled
        (with_both_both IsAligned s.latest s.period (λ l p hl hp. IsAligned-start_at s l p hl hp a)
          a)
        a)

  pub IsAligned-advance_play : IsAligned (advance_play s)
  unfolding advance_play
  IsAligned-advance_play =
      with_both_both IsAligned s.latest s.period (λ l p hl hp. IsAligned-advance_at s l p hl hp a) a

  pub IsAligned-hold_fires : IsAligned (hold_fires s)
  unfolding hold_fires
  IsAligned-hold_fires =
      if_cases IsAligned s.playing
        (λ runs.
          let (on, le) = a.from_on runs in
          let again : IsAligned (record s { play_hold = false; time = s.play_from }) = record {
            period_positive = a.period_positive;
            latest_on = a.latest_on;
            time_on = on;
            time_not_after = le;
            from_on = a.from_on;
          } in
          IsAligned-publish_frame (record s { play_hold = false; time = s.play_from }) again)
        (λ still. a)

  pub IsAligned-step : (f : ℤ) → IsAligned (step s f)
  unfolding step step_at stop_play
  IsAligned-step f =
      with_both_both IsAligned s.latest s.period
        (λ l p hl hp.
          IsAligned-set_time_at (stop_play s) l p hl hp _
            (cut-IsMultiple s l p hl hp _ a
              (IsMultiple-add _ f p (or_zero-IsMultiple s l p hl hp a)))
            (IsAligned-stop_play s a))
        a

  pub IsAligned-go_live : IsAligned (go_live s)
  unfolding go_live go_live_at stop_play
  IsAligned-go_live =
      with_value_both IsAligned s.latest
        (λ l hl.
          IsAligned-set_time (stop_play s) l (subst (OnGrid s.period) hl a.latest_on)
            (NotAfter-of s.latest l l hl (omega arith)) (IsAligned-stop_play s a))
        a

  pub IsAligned-drag_to : (x : ℤ) (r : Rect) → IsAligned (drag_to s x r)
  unfolding drag_to
  IsAligned-drag_to x r =
      with_both_both IsAligned s.latest s.period (λ l p hl hp. IsAligned-drag_at s l p hl hp x r a)
        a

pub IsAligned-track_down :
    (s : Timeline) (x : ℤ) (r : Rect) → IsAligned s → IsAligned (track_down s x r)
unfolding track_down stop_play
IsAligned-track_down s x r a =
    if_both IsAligned _ (IsAligned-drag_to _ (IsAligned-stop_play s a) x r) a

pub IsAligned-track_move :
    (s : Timeline) (x : ℤ) (r : Rect) → IsAligned s → IsAligned (track_move s x r)
unfolding track_move
IsAligned-track_move s x r a = if_both IsAligned s.dragging (IsAligned-drag_to s a x r) a

pub IsAligned-track_up : (s : Timeline) → IsAligned s → IsAligned (track_up s)
unfolding track_up
IsAligned-track_up s a = if_both IsAligned s.dragging (IsAligned-publish_frame _ a) a

module _ (s : Timeline) (l : ℤ) (p : ℕ) (hl : s.latest ≡ some l) (hp : s.period ≡ some p) where
  pub IsAligned-key_at : (k : Key) (shift : Bool) → IsAligned s → IsAligned (key_at s l p k shift)
  unfolding key_at
  IsAligned-key_at Key.arrow_left shift a = IsAligned-step s a _
  IsAligned-key_at Key.arrow_right shift a = IsAligned-step s a _
  IsAligned-key_at Key.home shift a =
      IsAligned-set_time_at s l p hl hp _
        (oldest_time-IsMultiple l p (latest-IsMultiple s l p hl hp a)) a
  IsAligned-key_at Key.end shift a = IsAligned-go_live s a
  IsAligned-key_at Key.other_key shift a = a

pub IsAligned-handle_key :
    (s : Timeline) (k : Key) (shift : Bool) → IsAligned s → IsAligned (handle_key s k shift)
unfolding handle_key
IsAligned-handle_key s k shift a =
    if_both IsAligned s.enabled
      (with_both_both IsAligned s.latest s.period
        (λ l p hl hp. IsAligned-key_at s l p hl hp k shift a) a)
      a

-- What the connection and the page do leaves the five fields alone, but for playback that stops.
pub IsAligned-open_socket : (s : Timeline) → IsAligned s → IsAligned (open_socket s)
unfolding open_socket
IsAligned-open_socket s a = if_both IsAligned _ a a

pub IsAligned-close_socket : (s : Timeline) → IsAligned s → IsAligned (close_socket s)
unfolding close_socket
IsAligned-close_socket s a = if_both IsAligned _ a a

pub IsAligned-schedule_reconnect : (s : Timeline) → IsAligned s → IsAligned (schedule_reconnect s)
unfolding schedule_reconnect
IsAligned-schedule_reconnect s a = if_both IsAligned _ a a

pub IsAligned-resync : (s : Timeline) → IsAligned s → IsAligned (resync s)
unfolding resync
IsAligned-resync s a = if_both IsAligned _ a a

pub IsAligned-reconnect_fires : (s : Timeline) → IsAligned s → IsAligned (reconnect_fires s)
unfolding reconnect_fires
IsAligned-reconnect_fires s a =
    if_both IsAligned _
      (IsAligned-resync _ (IsAligned-open_socket (record s { ws_timer = none }) a)) a

pub IsAligned-update_legend : (s : Timeline) → IsAligned s → IsAligned (update_legend s)
unfolding update_legend
IsAligned-update_legend s a =
    if_both IsAligned (not s.view.has_legend) a (if_both IsAligned s.enabled a a)

pub IsAligned-visibility_change :
    (s : Timeline) (hidden : Bool) → IsAligned s → IsAligned (visibility_change s hidden)
unfolding visibility_change
IsAligned-visibility_change s true a =
    IsAligned-close_socket _ (IsAligned-stop_play (record s { hidden = true }) a)
IsAligned-visibility_change s false a =
    if_both IsAligned _ (IsAligned-open_socket (record s { hidden = false }) a) a

pub IsAligned-apply_state :
    (s : Timeline) (enabled : Bool) (product : Option Text)
    → IsAligned s
    → IsAligned (apply_state s enabled product)
unfolding apply_state
IsAligned-apply_state s enabled product a =
    let set : Timeline = record s {
      enabled = enabled;
      product = chosen_product s.product product;
      view = record s.view { visible = enabled };
    } in
    let legend = IsAligned-update_legend set a in
    let opened = IsAligned-open_socket _ legend in
    if_both IsAligned enabled
      (if_both IsAligned _ (IsAligned-resync _ opened) (IsAligned-publish_frame _ opened))
      (IsAligned-close_socket _ (IsAligned-stop_play _ legend))
