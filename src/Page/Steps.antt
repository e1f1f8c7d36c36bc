-- ===== src/Page/Steps.antt =====
-- What the events of the timeline send and show (see `Tells`).
use voria.Prelude.{
  ℕ, Bool, true, false, refl, Option, none, some, if_both, with_value_both, with_both_both, not,
  ◌&&◌, ◌||◌,
}
use voria.Prelude.Int.{ℤ, ◌+ℤ◌, ◌*ℤ◌, min_ℤ, max_ℤ}
use voria.Prelude.Text.{Text, text_eq}
use voria.Radar.Latest.{LastProduct, fetch_latest}
use voria.Radar.Floor.{floor_to_period}
use voria.Radar.Period.{parse_period}
use voria.Timeline.State.{
  Timeline, requested, went_live, time_changed, socket_opened, socket_closed,
}
use voria.Timeline.Grid.{Calendar, build_ticks, oldest_time}
use voria.Timeline.Publish.{publish_frame, raf_fires, sync_fires, schedule_publish, update_legend}
use voria.Timeline.Play.{or_zero, stop_play}
use voria.Timeline.Connection.{open_socket, schedule_reconnect, close_socket}
use voria.Timeline.Sync.{
  Message, or_default, resync, synced, synced_time, resync_with, is_newer, frame_out,
  on_socket_message, reconnect_fires,
}
use voria.Timeline.Controls.{
  Rect, Key, apply_state, chosen_product, visibility_change, step_at, step, go_live_at, go_live,
  drag_at, drag_to, track_down, track_move, track_up, key_at, handle_key, is_ready,
}
use voria.Timeline.Step.{
  Event, radar_state, answer, news, visibility, socket_lost, play_click, prev_click, next_click,
  live_click, pointer_down, pointer_move, pointer_up, key, play_tick, hold_over, raf, sync_over,
  reconnect, run_event,
}
use voria.Page.{IsOwn}
use voria.Page.Tells.{
  still, dashed, said, Tells, Tells-trans, Tells-publish_frame, Tells-set_time, Tells-toggle_play,
  Tells-advance_play, Tells-hold_fires,
}

module _ (s : Timeline) where
  Tells-open_socket : Tells s (open_socket s)
  unfolding open_socket
  Tells-open_socket =
      if_both (Tells s) (s.ws || s.hidden) (still, refl) (said socket_opened tt still, refl)

  Tells-close_socket : Tells s (close_socket s)
  unfolding close_socket
  Tells-close_socket = if_both (Tells s) s.ws (said socket_closed tt still, refl) (still, refl)

  Tells-resync : Tells s (resync s)
  unfolding resync
  Tells-resync =
      if_both (Tells s) s.syncing (still, refl) (said (requested s.product) tt still, refl)

  Tells-schedule_reconnect : Tells s (schedule_reconnect s)
  unfolding schedule_reconnect
  Tells-schedule_reconnect = if_both (Tells s) s.enabled (still, refl) (still, refl)

  Tells-step : (f : ℤ) → Tells s (step s f)
  unfolding step step_at stop_play
  Tells-step f =
      with_both_both (Tells s) s.latest s.period
        (λ l p hl hp.
          Tells-set_time (stop_play s)
            (min_ℤ (max_ℤ (or_zero s.time +ℤ f *ℤ p) (oldest_time l p)) l))
        (still, refl)

  Tells-go_live : Tells s (go_live s)
  unfolding go_live go_live_at stop_play
  Tells-go_live =
      with_value_both (Tells s) s.latest
        (λ l hl. let (x, e) = Tells-set_time (stop_play s) l in (said went_live tt x, e))
        (still, refl)

  Tells-raf_fires : Tells s (raf_fires s)
  unfolding raf_fires
  Tells-raf_fires = Tells-publish_frame (record s { publish_raf = false })

  Tells-sync_fires : Tells s (sync_fires s)
  unfolding sync_fires
  Tells-sync_fires = (said (time_changed s.time s.live) tt still, refl)

  Tells-drag_to : (x : ℤ) (r : Rect) → Tells s (drag_to s x r)
  unfolding drag_to drag_at schedule_publish
  Tells-drag_to x r =
      with_both_both (Tells s) s.latest s.period
        (λ l p hl hp.
          if_both (Tells s) _ (still, refl)
            (if_both (Tells s) s.publish_raf (still, refl) (still, refl)))
        (still, refl)

  Tells-track_up : Tells s (track_up s)
  unfolding track_up
  Tells-track_up =
      if_both (Tells s) s.dragging
        (Tells-publish_frame
          (record s { dragging = false; view = record s.view { drag_shown = false } }))
        (still, refl)

  Tells-resync_with : (c : Calendar) (o : Option LastProduct) → Tells s (resync_with c s o)
  unfolding resync_with synced
  Tells-resync_with c none = (dashed still, refl)
  Tells-resync_with c (some last) =
      let p = or_default (parse_period last.period) s.product in
      let l = floor_to_period last.time p in
      Tells-publish_frame (record s {
        latest = some l;
        period = some p;
        time = some (synced_time s.live s.time l p);
        view = record s.view { ticks = build_ticks c l };
      })

  Tells-frame_out : (c : Calendar) (t : ℤ) → Tells s (frame_out c s t)
  unfolding frame_out
  Tells-frame_out c t =
      if_both (Tells s) (is_newer s.latest t)
        (if_both (Tells s) (s.live && not s.playing)
          (Tells-publish_frame (record s {
            latest = some t;
            time = some t;
            view = record s.view { ticks = build_ticks c t };
          }))
          (still, refl))
        (still, refl)

  Tells-on_socket_message : (c : Calendar) (o : Option Message) → Tells s (on_socket_message c s o)
  unfolding on_socket_message
  Tells-on_socket_message c none = (still, refl)
  Tells-on_socket_message c (some m) =
      with_value_both (Tells s) m.time
        (λ t h.
          if_both (Tells s) (text_eq m.product_type s.product) (Tells-frame_out c _) (still, refl))
        (still, refl)

  Tells-key_at : (l : ℤ) (p : ℕ) (k : Key) (shift : Bool) → Tells s (key_at s l p k shift)
  unfolding key_at
  Tells-key_at l p Key.arrow_left shift = Tells-step _
  Tells-key_at l p Key.arrow_right shift = Tells-step _
  Tells-key_at l p Key.home shift = Tells-set_time s _
  Tells-key_at l p Key.end shift = Tells-go_live
  Tells-key_at l p Key.other_key shift = (still, refl)

  Tells-handle_key : (k : Key) (shift : Bool) → Tells s (handle_key s k shift)
  unfolding handle_key
  Tells-handle_key k shift =
      if_both (Tells s) s.enabled
        (with_both_both (Tells s) s.latest s.period (λ l p hl hp. Tells-key_at l p k shift)
          (still, refl))
        (still, refl)

module _ (s : Timeline) where
  Tells-track_down : (x : ℤ) (r : Rect) → Tells s (track_down s x r)
  unfolding track_down stop_play
  Tells-track_down x r =
      let stopped = stop_play s in
      if_both (Tells s) (is_ready s)
        (Tells-drag_to
          (record stopped { dragging = true; view = record stopped.view { drag_shown = true } }) x
          r)
        (still, refl)

  Tells-track_move : (x : ℤ) (r : Rect) → Tells s (track_move s x r)
  unfolding track_move
  Tells-track_move x r = if_both (Tells s) s.dragging (Tells-drag_to s x r) (still, refl)

  Tells-reconnect_fires : Tells s (reconnect_fires s)
  unfolding reconnect_fires
  Tells-reconnect_fires =
      let over : Timeline = record s { ws_timer = none } in
      if_both (Tells s) (s.enabled && not s.hidden)
        (Tells-trans over (open_socket over) (resync (open_socket over)) (Tells-open_socket over)
          (Tells-resync (open_socket over)))
        (still, refl)

  Tells-visibility_change : (hidden : Bool) → Tells s (visibility_change s hidden)
  unfolding visibility_change stop_play
  Tells-visibility_change true = Tells-close_socket (stop_play (record s { hidden = true }))
  Tells-visibility_change false =
      if_both (Tells s) s.enabled (Tells-open_socket (record s { hidden = false })) (still, refl)

  -- An event of the timeline's own: what it sends and shows.
  pub Tells-run_event : (c : Calendar) (e : Event) → IsOwn e → Tells s (run_event c s e)
  unfolding run_event
  Tells-run_event c (radar_state enabled product) own = elim own [ ]
  Tells-run_event c (visibility hidden) own = Tells-visibility_change hidden
  Tells-run_event c (answer r) own =
      if_both (Tells s) s.syncing (Tells-resync_with s c (fetch_latest r)) (still, refl)
  Tells-run_event c (news m) own =
      if_both (Tells s) s.ws (Tells-on_socket_message s c m) (still, refl)
  Tells-run_event c socket_lost own =
      if_both (Tells s) s.ws (Tells-schedule_reconnect s) (still, refl)
  Tells-run_event c play_click own = Tells-toggle_play s
  Tells-run_event c prev_click own = Tells-step s _
  Tells-run_event c next_click own = Tells-step s _
  Tells-run_event c live_click own = Tells-go_live s
  Tells-run_event c (pointer_down x r) own = Tells-track_down x r
  Tells-run_event c (pointer_move x r) own = Tells-track_move x r
  Tells-run_event c pointer_up own = Tells-track_up s
  Tells-run_event c (key k shift) own = Tells-handle_key s k shift
  Tells-run_event c play_tick own =
      if_both (Tells s) s.play_timer (Tells-advance_play s) (still, refl)
  Tells-run_event c hold_over own = if_both (Tells s) s.play_hold (Tells-hold_fires s) (still, refl)
  Tells-run_event c raf own = if_both (Tells s) s.publish_raf (Tells-raf_fires s) (still, refl)
  Tells-run_event c sync_over own =
      if_both (Tells s) s.sync_timer (Tells-sync_fires s) (still, refl)
  Tells-run_event c reconnect own =
      with_value_both (Tells s) s.ws_timer (λ d h. Tells-reconnect_fires) (still, refl)

Tells-close_socket_off : (u : Timeline) → Tells u (close_socket (stop_play u))
unfolding stop_play
Tells-close_socket_off u = Tells-close_socket (stop_play u)

-- The timeline that the server's state leaves, before its socket and its frame.
abbrev pub set_state : Timeline → Bool → Option Text → Timeline
set_state s enabled product = record s {
  enabled = enabled;
  product = chosen_product s.product product;
  view = record s.view { visible = enabled };
}

Tells-update_legend : (s : Timeline) → Tells s (update_legend s)
unfolding update_legend
Tells-update_legend s =
    if_both (Tells s) (not s.view.has_legend) (still, refl)
      (if_both (Tells s) s.enabled (still, refl) (still, refl))

pub Tells-apply_state :
    (s : Timeline) (enabled : Bool) (product : Option Text)
    → Tells (set_state s enabled product) (apply_state s enabled product)
unfolding apply_state
Tells-apply_state s enabled product =
    let base = set_state s enabled product in
    let set = update_legend base in
    let open_ = open_socket set in
    let opened : Tells base open_ =
      Tells-trans base set open_ (Tells-update_legend base) (Tells-open_socket set) in
    if_both (Tells base) enabled
      (if_both (Tells base) _ (Tells-trans base open_ (resync open_) opened (Tells-resync open_))
        (Tells-trans base open_ (publish_frame open_) opened (Tells-publish_frame open_)))
      (Tells-trans base set (close_socket (stop_play set)) (Tells-update_legend base)
        (Tells-close_socket_off set))
