-- ===== src/Timeline/Connection.antt =====
-- The news socket and its reconnection (openSocket, scheduleReconnect, closeSocket).
use voria.Prelude.{◌*◌, true, false, ◌||◌, ◌∷◌, none, some, min, if◌then◌else◌}
use voria.Timeline.State.{
  Timeline, socket_opened, socket_closed, ws_reconnect_min_ms, ws_reconnect_max_ms,
}

unfoldable pub open_socket : Timeline → Timeline
open_socket s = if s.ws || s.hidden then s else record s { ws = true; log = socket_opened ∷ s.log }

-- The socket was lost: try again after the delay, and wait twice as long the next time.
unfoldable pub schedule_reconnect : Timeline → Timeline
schedule_reconnect s =
    if s.enabled
    then record s {
      ws = false;
      ws_timer = some s.ws_delay;
      ws_delay = min (s.ws_delay * 2) ws_reconnect_max_ms;
    }
    else record s { ws = false }

unfoldable pub close_socket : Timeline → Timeline
close_socket s =
    let calm = record s { ws_timer = none; ws_delay = ws_reconnect_min_ms } in
    if s.ws then record calm { ws = false; log = socket_closed ∷ s.log } else calm
