-- ===== src/Client/Events.antt =====
-- The client's tasks in fproxy-rs/src/client.rs as one function on a list of events.
use fproxy.Base.{ℕ, ◌+◌, min, max, List, [], ◌∷◌, Option, none, some, ◌++◌, map, Bytes}
use fproxy.Config.{ClientConfig}
use fproxy.Frame.{read_frames}
use fproxy.Client.State.{Client, SessionKey, Output}
use fproxy.Client.Packets.{Env, handle_packet}
use fproxy.Client.Responses.{process_udp_response, process_tcp_response}
use fproxy.Client.Cleanup.{cleanup_tcp_session, cleanup_expired_sessions}

-- What the loops of the client's tasks react to, brought together.
pub data Event : Type 0 where
  packet : Env → ℕ → Bytes → Event
  udp_response : ℕ → Bytes → Event
  tcp_response : ℕ → ℕ → Bytes → Event
  tcp_closed : SessionKey → Event
  tick : ℕ → Event

unfoldable pub step : Client → Event → Client × List Output
step c (packet env source_addr payload) = handle_packet c env source_addr payload
step c (udp_response now bytes) = process_udp_response c now bytes
step c (tcp_response now source_addr bytes) = process_tcp_response c now source_addr bytes
step c (tcp_closed key) = cleanup_tcp_session c key
step c (tick now) = cleanup_expired_sessions c now

unfoldable pub run : Client → List Event → Client × List Output
run c [] = (c, [])
run c (e ∷ es) =
    let (c', outputs) = step c e in let (c'', more) = run c' es in (c'', outputs ++ more)

-- The responses of one connection, each at its time.
unfoldable pub tcp_responses : (ℕ → ℕ) → ℕ → ℕ → List Bytes → List Event
tcp_responses times i source_addr [] = []
tcp_responses times i source_addr (bytes ∷ packets) =
    tcp_response (times i) source_addr bytes ∷ tcp_responses times (i + 1) source_addr packets

-- What one connection's reader brings, in this order, among the events of other tasks.
unfoldable pub handle_tcp_server_response : (ℕ → ℕ) → ℕ → SessionKey → Bytes → List Event
handle_tcp_server_response times source_addr key stream =
    tcp_responses times 0 source_addr (read_frames stream) ++ tcp_closed key ∷ []

-- A read of the socket gives a source and bytes, or an error, after which the socket is read on.
-- Packet `i` finds the surroundings `envs i`.
unfoldable pub handle_listener : (ℕ → Env) → ℕ → List (Option (ℕ × Bytes)) → List Event
handle_listener envs i [] = []
handle_listener envs i (some (source_addr, payload) ∷ reads) =
    packet (envs i) source_addr payload ∷ handle_listener envs (i + 1) reads
handle_listener envs i (none ∷ reads) = handle_listener envs i reads

-- A read gives the time and bytes, or an error, after which the socket is read on.
unfoldable pub handle_udp_server_response : List (Option (ℕ × Bytes)) → List Event
handle_udp_server_response [] = []
handle_udp_server_response (some (now, bytes) ∷ reads) =
    udp_response now bytes ∷ handle_udp_server_response reads
handle_udp_server_response (none ∷ reads) = handle_udp_server_response reads

-- The time between two clean-ups, in nanoseconds like the time-out: from 100 ms to 10 s.
unfoldable pub cleanup_interval : ℕ → ℕ
cleanup_interval session_timeout = max (min session_timeout 10000000000) 100000000

-- `ticker` gives the times at which an interval of that length ticks.
unfoldable pub session_cleanup_loop : (ℕ → List ℕ) → ClientConfig → List Event
session_cleanup_loop ticker cfg = map tick (ticker (cleanup_interval cfg.session_timeout))
