-- ===== src/Timeline/Sync.antt =====
-- The newest frame: asking the service for it, and hearing of it (resync, onSocketMessage, and the
-- callback of the reconnection's timer).
use voria.Prelude.{
  ℕ, Bool, true, false, not, ◌&&◌, ◌∷◌, Option, none, some, if◌then◌else◌, with_value,
}
use voria.Prelude.Int.{ℤ, ltb_ℤ}
use voria.Prelude.Text.{Text, text_eq}
use voria.Radar.Floor.{floor_to_period}
use voria.Radar.Latest.{LastProduct}
use voria.Radar.Period.{parse_period}
use voria.Radar.Product.{product_by_id}
use voria.Timeline.State.{Timeline, dash, dots, requested}
use voria.Timeline.Grid.{Calendar, build_ticks, snap_to_grid}
use voria.Timeline.Publish.{publish_frame}
use voria.Timeline.Connection.{open_socket}

-- A period, or else that of the product.
abbrev pub or_default : Option ℕ → Text → ℕ
or_default none product = (product_by_id product).period_ms
or_default (some p) product = p

-- The part of resync before its request is answered: one request at a time.
unfoldable pub resync : Timeline → Timeline
resync s = if s.syncing then s else record s {
  syncing = true;
  view = record s.view { sub_label = dots };
  log = requested s.product ∷ s.log;
}

-- The instant after the answer: the newest frame if the timeline is live or has no instant yet, or
-- else the old instant on the new grid.
unfoldable pub synced_time : Bool → Option ℤ → ℤ → ℕ → ℤ
synced_time live none latest period = latest
synced_time live (some t) latest period = if live then latest else snap_to_grid latest period t

unfoldable pub synced : Calendar → Timeline → ℤ → ℕ → Timeline
synced c s latest period = publish_frame (record s {
  latest = some latest;
  period = some period;
  time = some (synced_time s.live s.time latest period);
  view = record s.view { ticks = build_ticks c latest };
})

-- The part of resync after fetchLatest has returned or thrown (`none`); an error of the request ends in the dashes.
unfoldable pub resync_with : Calendar → Timeline → Option LastProduct → Timeline
resync_with c s none = record s {
  syncing = false;
  view = record s.view { time_label = dash; sub_label = dash };
}
resync_with c s (some last) =
    let period = or_default (parse_period last.period) s.product in
    let done = synced c s (floor_to_period last.time period) period in
    record done { syncing = false }

-- A message of the socket that is JSON and truthy; its time is `none` if it is no finite number.
pub record Message : Type 0 where
  pub product_type : Text
  pub time : Option ℤ

-- `this._latest == null || t > this._latest`
unfoldable pub is_newer : Option ℤ → ℤ → Bool
is_newer none t = true
is_newer (some latest) t = ltb_ℤ latest t

-- A frame at `t` is out. Only a live timeline that does not play follows it.
unfoldable pub frame_out : Calendar → Timeline → ℤ → Timeline
unfolding is_newer
frame_out c s t =
    let ticked = record s { latest = some t; view = record s.view { ticks = build_ticks c t } } in
    if is_newer s.latest t
    then (if s.live && not s.playing
        then publish_frame (record ticked { time = some t })
        else ticked)
    else s

-- `none` is a message that is no JSON, or null.
unfoldable pub on_socket_message : Calendar → Timeline → Option Message → Timeline
on_socket_message c s none = s
on_socket_message c s (some m) =
    with_value m.time
      (λ time.
        if text_eq m.product_type s.product
        then frame_out c s (floor_to_period time (or_default s.period s.product))
        else s)
      s

-- The reconnection's timer fires.
unfoldable pub reconnect_fires : Timeline → Timeline
reconnect_fires s =
    let over = record s { ws_timer = none } in
    if s.enabled && not s.hidden then resync (open_socket over) else over
