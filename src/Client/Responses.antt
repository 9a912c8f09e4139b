-- ===== src/Client/Responses.antt =====
-- The way of a response from a server to its source in fproxy-rs/src/client.rs.
use fproxy.Base.{ℕ, List, [], ◌∷◌, Option, none, some, Bytes, ok, err, if◌then◌else◌, nat_eq}
use fproxy.Base.HashMap.{get}
use fproxy.Protocol.{decode_udp, decode_tcp}
use fproxy.Client.Window.{is_duplicate}
use fproxy.Client.State.{Client, UdpSession, Output, to_source, put_udp_session}

unfoldable pub forward : Option ℕ → ℕ → Bytes → List Output
forward none source_addr payload = []
forward (some listener) source_addr payload = to_source listener source_addr payload ∷ []

-- The end of both handlers: what the session's window lets through goes to the source.
unfoldable pub deliver : Client → ℕ → ℕ → ℕ → Bytes → UdpSession → Client × List Output
deliver c now source_addr seq payload session =
    let (w, duplicate) = is_duplicate session.response_dedup seq in
    if duplicate
    then (put_udp_session c source_addr (record session { response_dedup = w }), [])
    else (
      put_udp_session c source_addr (record session { response_dedup = w; last_activity = now }),
      forward c.listener source_addr payload,
    )

unfoldable pub deliver_to : Client → ℕ → ℕ → ℕ → Bytes → Client × List Output
deliver_to c now source_addr seq payload = elim (get c.udp_sessions source_addr) [
  | none ↦ (c, [])
  | some session ↦ deliver c now source_addr seq payload session
]

unfoldable pub process_udp_response : Client → ℕ → Bytes → Client × List Output
process_udp_response c now bytes = elim (decode_udp bytes) [
  | err e ↦ (c, [])
  | ok (session_id, seq, payload) ↦ elim (get c.udp_session_addrs session_id) [
    | none ↦ (c, [])
    | some source_addr ↦ deliver_to c now source_addr seq payload
  ]
]

-- The session is that of the connection's source; the packet's own id is only logged.
unfoldable pub process_tcp_response : Client → ℕ → ℕ → Bytes → Client × List Output
process_tcp_response c now source_addr bytes = elim (decode_tcp bytes) [
  | err e ↦ (c, [])
  | ok (session_id, seq, payload) ↦ deliver_to c now source_addr seq payload
]
