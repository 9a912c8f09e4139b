-- ===== src/Server/Responses.antt =====
-- The way of a response from the target to the clients in fproxy-rs/src/server.rs.
use fproxy.Base.{ℕ, ◌+◌, ◌%◌, List, [], map, none, some, Bytes, u32_mod, unwrap_or, nat_eq}
use fproxy.Base.HashMap.{get}
use fproxy.Protocol.{encode_udp, encode_tcp}
use fproxy.Frame.{frame}
use fproxy.Server.State.{ClientPath, udp, tcp, Server, Output, to_client, to_writer, put_session}

-- What is sent on one path.
unfoldable pub response_on : ℕ → ℕ → Bytes → ClientPath → Output
response_on session_id seq payload (udp addr socket) =
    to_client socket addr (encode_udp session_id seq payload)
response_on session_id seq payload (tcp conn_id writer) =
    to_writer writer (frame (encode_tcp session_id seq payload))

-- With no paths registered the `map` is empty, as the early returns are.
unfoldable pub send_response_to_all_paths : Server → ℕ → ℕ → Bytes → Server × List Output
send_response_to_all_paths s now session_id payload = elim (get s.sessions session_id) [
  | none ↦ (s, [])
  | some t ↦ (
    put_session s session_id
        (record t { last_activity = now; response_seq = (t.response_seq + 1) % u32_mod }),
    map (response_on session_id t.response_seq payload)
        (unwrap_or (get s.client_paths session_id) []),
  )
]
