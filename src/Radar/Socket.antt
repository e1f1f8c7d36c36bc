-- ===== src/Radar/Socket.antt =====
-- The news socket (connectRadarSocket of assets/js/radar.js). The `WebSocket` is the browser's: it
-- enters by whether its constructor throws and by the events that it fires.
use voria.Prelude.{
  ℕ, ◌+◌, ◌≡◌, refl, ap, ◌++◌, Bool, true, false, List, [], ◌∷◌, arith, if◌then◌else◌,
}

-- `constructed` is false if the constructor threw, and the caller got a socket that does nothing.
pub record Socket : Type 0 where
  pub constructed : Bool
  pub closed : Bool
  pub on_message_set : Bool
  pub on_close_set : Bool
  -- How often `ws.close()` was called.
  pub close_calls : ℕ

-- Events of the `WebSocket`, and the caller's `close()`.
pub data SocketEvent : Type 0 where
  message closed_event error_event close : SocketEvent

-- Which callback of the caller runs.
pub data Callback : Type 0 where
  on_message on_close : Callback

pub connect_radar_socket : Bool → Socket
connect_radar_socket throws =
    if throws
    then record {
      constructed = false;
      closed = false;
      on_message_set = false;
      on_close_set = false;
      close_calls = 0;
    }
    else record {
      constructed = true;
      closed = false;
      on_message_set = true;
      on_close_set = true;
      close_calls = 0;
    }

-- `ws.onclose` asks for `closed` again before it calls `onClose`.
pub socket_event : Socket → SocketEvent → Socket × List Callback
socket_event s message = (s, if s.on_message_set then on_message ∷ [] else [])
socket_event s closed_event =
    (s, if s.on_close_set then (if s.closed then [] else on_close ∷ []) else [])
socket_event s error_event =
    (if s.constructed then record s { close_calls = s.close_calls + 1 } else s, [])
socket_event s close = (
  if s.constructed
      then record s {
        closed = true;
        on_close_set = false;
        on_message_set = false;
        close_calls = s.close_calls + 1;
      }
      else s,
  [],
)

-- The callbacks of a sequence of events, in order.
pub callbacks : Socket → List SocketEvent → List Callback
callbacks s [] = []
callbacks s (e ∷ es) =
    let (s', calls) = socket_event s e in let rest = callbacks s' es in calls ++ rest

-- What the caller should hear of the events of a socket that was constructed: each message and each
-- closing, in order, up to its own `close()`.
pub heard : List SocketEvent → List Callback
heard [] = []
heard (message ∷ es) = on_message ∷ heard es
heard (closed_event ∷ es) = on_close ∷ heard es
heard (error_event ∷ es) = heard es
heard (close ∷ es) = []

pub record IsSilent (s : Socket) : Type 0 where
  pub no_message : s.on_message_set ≡ false
  pub no_close : s.on_close_set ≡ false

IsSilent-socket_event :
    (s : Socket) (e : SocketEvent)
    → IsSilent s
    → IsSilent (socket_event s e).0 × ((socket_event s e).1 ≡ [])
unfolding socket_event
IsSilent-socket_event s message h = ground arith
IsSilent-socket_event s closed_event h = ground arith
IsSilent-socket_event s error_event h = ground arith
IsSilent-socket_event s close h = ground arith

callbacks-IsSilent : (s : Socket) (es : List SocketEvent) → IsSilent s → callbacks s es ≡ []
unfolding callbacks
callbacks-IsSilent s [] h = refl
callbacks-IsSilent s (e ∷ es) h =
    let (h', none_now) = IsSilent-socket_event s e h in
    rw (none_now, callbacks-IsSilent (socket_event s e).0 es h')

abbrev open_socket : ℕ → Socket
open_socket n = record {
  constructed = true;
  closed = false;
  on_message_set = true;
  on_close_set = true;
  close_calls = n;
}

callbacks-open_socket : (n : ℕ) (es : List SocketEvent) → callbacks (open_socket n) es ≡ heard es
unfolding callbacks heard socket_event
callbacks-open_socket n [] = refl
callbacks-open_socket n (message ∷ es) = ap (on_message ∷◌) (callbacks-open_socket n es)
callbacks-open_socket n (closed_event ∷ es) = ap (on_close ∷◌) (callbacks-open_socket n es)
callbacks-open_socket n (error_event ∷ es) = callbacks-open_socket (n + 1) es
callbacks-open_socket n (close ∷ es) =
    callbacks-IsSilent _ es (record { no_message = refl; no_close = refl })

-- A socket passes every message and every closing on, in order, until the caller closes it, and
-- nothing after that; if its constructor threw it passes nothing on at all.
pub callbacks-connect_radar_socket :
    (throws : Bool) (es : List SocketEvent)
    → callbacks (connect_radar_socket throws) es ≡ (if throws then [] else heard es)
unfolding connect_radar_socket
callbacks-connect_radar_socket true es =
    callbacks-IsSilent _ es (record { no_message = refl; no_close = refl })
callbacks-connect_radar_socket false es = callbacks-open_socket 0 es
