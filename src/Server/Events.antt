-- ===== src/Server/Events.antt =====
-- The server's tasks in fproxy-rs/src/server.rs as one function on a list of events.
use fproxy.Base.{ℕ, ◌+◌, min, max, List, [], ◌∷◌, Option, none, some, ◌++◌, map, Bytes, nat_eq}
use fproxy.Config.{ServerConfig}
use fproxy.Frame.{read_frames}
use fproxy.Server.State.{Server, Output}
use fproxy.Server.Packets.{Net, handle_udp_packet, handle_tcp_packet}
use fproxy.Server.Responses.{send_response_to_all_paths}
use fproxy.Server.Cleanup.{cleanup_tcp_conn, cleanup_expired_sessions}

-- What the loops of the server's tasks react to, brought together.
pub data Event : Type 0 where
  udp_packet : Net → ℕ → ℕ → ℕ → Bytes → Event
  tcp_packet : Net → ℕ → ℕ → ℕ → Bytes → Event
  target_response : ℕ → ℕ → Bytes → Event
  conn_closed : ℕ → Event
  tick : ℕ → Event

unfoldable pub step : Server → Event → Server × List Output
step s (udp_packet net now listener client_addr bytes) =
    handle_udp_packet s net now listener client_addr bytes
step s (tcp_packet net now conn_id writer bytes) = handle_tcp_packet s net now conn_id writer bytes
step s (target_response now session_id payload) =
    send_response_to_all_paths s now session_id payload
step s (conn_closed conn_id) = (cleanup_tcp_conn s conn_id, [])
step s (tick now) = cleanup_expired_sessions s now

unfoldable pub run : Server → List Event → Server × List Output
run s [] = (s, [])
run s (e ∷ es) =
    let (s', outputs) = step s e in let (s'', more) = run s' es in (s'', outputs ++ more)

-- The packets of one connection; the packet `i` finds the network as `answers i` says, at its time.
unfoldable pub tcp_packets : (ℕ → Net × ℕ) → ℕ → ℕ → ℕ → List Bytes → List Event
tcp_packets answers i conn_id writer [] = []
tcp_packets answers i conn_id writer (packet ∷ packets) =
    tcp_packet (answers i).0 (answers i).1 conn_id writer packet
    ∷ tcp_packets answers (i + 1) conn_id writer packets

-- What one connection brings, in this order, among the events of other tasks.
unfoldable pub handle_tcp_conn : (ℕ → Net × ℕ) → ℕ → ℕ → Bytes → List Event
handle_tcp_conn answers conn_id writer stream =
    tcp_packets answers 0 conn_id writer (read_frames stream) ++ conn_closed conn_id ∷ []

-- A read of the socket gives an address and bytes, or an error, after which the socket is read on.
-- Packet `i` finds the network as `answers i` says, at its time.
unfoldable pub handle_udp_listener : (ℕ → Net × ℕ) → ℕ → ℕ → List (Option (ℕ × Bytes)) → List Event
handle_udp_listener answers i listener [] = []
handle_udp_listener answers i listener (some (client_addr, bytes) ∷ reads) =
    udp_packet (answers i).0 (answers i).1 listener client_addr bytes
    ∷ handle_udp_listener answers (i + 1) listener reads
handle_udp_listener answers i listener (none ∷ reads) = handle_udp_listener answers i listener reads

-- A read of the target's socket gives the time and bytes, or an error, after which it is not read
-- any more.
unfoldable pub handle_target_response : ℕ → List (Option (ℕ × Bytes)) → List Event
handle_target_response session_id [] = []
handle_target_response session_id (some (now, payload) ∷ reads) =
    target_response now session_id payload ∷ handle_target_response session_id reads
handle_target_response session_id (none ∷ reads) = []

-- The time between two clean-ups, in nanoseconds like the time-out: from 100 ms to 10 s.
unfoldable pub cleanup_interval : ℕ → ℕ
cleanup_interval session_timeout = max (min session_timeout 10000000000) 100000000

-- `ticker` gives the times at which an interval of that length ticks.
unfoldable pub session_cleanup_loop : (ℕ → List ℕ) → ServerConfig → List Event
session_cleanup_loop ticker cfg = map tick (ticker (cleanup_interval cfg.session_timeout))
