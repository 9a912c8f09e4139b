-- ===== src/Client/Packets.antt =====
-- The way of a packet from a source to the servers in fproxy-rs/src/client.rs.
use fproxy.Base.{
  ℕ, ◌+◌, ◌-◌, ◌%◌, ◌/◌, List, [], ◌∷◌, ◌++◌, map, Option, none, some, Bytes, ltb, ◌==◌,
  if◌then◌else◌, length, u32_mod, u64_mod, nat_eq,
}
use fproxy.Base.HashMap.{get, insert}
use fproxy.Config.{Text, Endpoint, Protocol, udp, tcp}
use fproxy.Protocol.{encode_udp, encode_tcp}
use fproxy.Frame.{frame, max_tcp_frame_size}
use fproxy.Client.Window
use fproxy.Client.State.{
  Client, UdpSession, TcpSession, SessionKey, key_Eq, Output, to_server, to_writer,
  spawn_tcp_reader, put_udp_session, put_tcp_session,
}

abbrev pub default_response_dedup_size : ℕ
default_response_dedup_size = 1000

-- What a call takes from outside: the time, a random `u32`, and the writer that connecting to a
-- server's address gives.
pub record Env : Type 0 where
  pub now : ℕ
  pub random : ℕ
  pub connect : Text → Option ℕ

-- The next session id, which the counter then holds; 0 is passed over.
unfoldable pub next_session_id : ℕ → ℕ
next_session_id counter =
    let session_id = (counter + 1) % u64_mod in
    if session_id == 0 then (session_id + 1) % u64_mod else session_id

unfoldable pub new_session : Env → ℕ → UdpSession
unfolding Window.new
new_session env session_id = record {
  session_id = session_id;
  seq = env.random % ((u32_mod - 1) / 2);
  last_activity = env.now;
  response_dedup = Window.new default_response_dedup_size;
}

unfoldable pub create_udp_session : Client → Env → ℕ → Client × UdpSession
create_udp_session c env source_addr =
    let session_id = next_session_id c.session_id_counter in
    let session = new_session env session_id in
    (
      record c {
        session_id_counter = session_id;
        udp_sessions = insert c.udp_sessions source_addr session;
        udp_session_addrs = insert c.udp_session_addrs session_id source_addr;
      },
      session,
    )

unfoldable pub get_or_create_udp_session : Client → Env → ℕ → Client × UdpSession
get_or_create_udp_session c env source_addr = elim (get c.udp_sessions source_addr) [
  | some session ↦ (c, session)
  | none ↦ create_udp_session c env source_addr
]

unfoldable pub handle_udp_transport : List ℕ → ℕ → ℕ → Bytes → List Output
handle_udp_transport senders session_id seq payload =
    let packet = encode_udp session_id seq payload in
    map (λ sender. to_server sender packet) senders

-- The client, the session if there is one, and what starting it sends.
unfoldable pub get_or_create_tcp_session :
    Client → Env → ℕ → Text → SessionKey → Option (Client × TcpSession × List Output)
get_or_create_tcp_session c env source_addr server_addr key = elim (get c.tcp_sessions key) [
  | some session ↦ some (c, session, [])
  | none ↦ elim (env.connect server_addr) [
    | none ↦ none
    | some writer ↦
        let session : TcpSession = record { writer = writer; last_activity = env.now } in
        some (put_tcp_session c key session, session, spawn_tcp_reader source_addr key ∷ [])
  ]
]

-- A frame that is too large is refused.
unfoldable pub send_tcp_frame : ℕ → Bytes → List Output
send_tcp_frame writer packet =
    if ltb max_tcp_frame_size (length packet) then [] else to_writer writer (frame packet) ∷ []

-- One endpoint's turn in the loop over the servers.
unfoldable pub send_to_endpoint :
    Client → Env → ℕ → Bytes → Endpoint → Protocol → Client × List Output
send_to_endpoint c env source_addr packet endpoint udp = (c, [])
send_to_endpoint c env source_addr packet endpoint tcp =
    let key : SessionKey = (source_addr, endpoint.address) in
    elim (get_or_create_tcp_session c env source_addr endpoint.address key) [
      | none ↦ (c, [])
      | some (c', session, outputs) ↦ (
        put_tcp_session c' key (record session { last_activity = env.now }),
        outputs ++ send_tcp_frame session.writer packet,
      )
    ]

unfoldable pub handle_tcp_transport :
    Client → Env → ℕ → Bytes → List Endpoint → Client × List Output
handle_tcp_transport c env source_addr packet [] = (c, [])
handle_tcp_transport c env source_addr packet (endpoint ∷ servers) =
    let (c', outputs) = send_to_endpoint c env source_addr packet endpoint endpoint.protocol in
    let (c'', more) = handle_tcp_transport c' env source_addr packet servers in
    (c'', outputs ++ more)

unfoldable pub handle_packet : Client → Env → ℕ → Bytes → Client × List Output
handle_packet c env source_addr payload =
    let (c1, session) = get_or_create_udp_session c env source_addr in
    let next = record session { seq = (session.seq + 1) % u32_mod; last_activity = env.now } in
    let c2 = put_udp_session c1 source_addr next in
    let sent = handle_udp_transport c2.udp_senders session.session_id session.seq payload in
    let packet = encode_tcp session.session_id session.seq payload in
    let (c3, more) = handle_tcp_transport c2 env source_addr packet c2.cfg.servers in
    (c3, sent ++ more)
