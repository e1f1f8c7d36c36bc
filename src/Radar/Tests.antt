-- ===== src/Radar/Tests.antt =====
-- The theorems on the radar service at concrete inputs.
use voria.Prelude.{◌≡◌, false, [], ◌∷◌}
use voria.Radar.Socket.{
  connect_radar_socket, callbacks, heard, callbacks-connect_radar_socket, message, closed_event,
  close, error_event,
}

callbacks-connect_radar_socket_example :
    callbacks
      (connect_radar_socket false)
      (message ∷ error_event ∷ closed_event ∷ close ∷ message ∷ [])
    ≡ heard (message ∷ error_event ∷ closed_event ∷ close ∷ message ∷ [])
callbacks-connect_radar_socket_example =
    callbacks-connect_radar_socket false
      (message ∷ error_event ∷ closed_event ∷ close ∷ message ∷ [])
