-- ===== src/Client/Sending.antt =====
-- A packet of a source goes out once to each server, everywhere under the same number.
use fproxy.Base.{
  ℕ, ◌+◌, ◌%◌, ◌<◌, ◌≡◌, refl, List, [], ◌∷◌, ◌++◌, map, arith, ltb, some, Bytes, ok, inl, inr,
  Bool-cases, Option-cases, nat_eq, ◌∙◌, ap, u32_mod, u64_mod, ==_refl, All, All-append, length,
  append-nil,
}
use fproxy.Base.HashMap.{get, get-insert}
use fproxy.Config.{Endpoint, Protocol, udp, tcp}
use fproxy.Protocol.{decode_udp, decode_tcp, encode_udp, encode_tcp, encode_packet}
use fproxy.Protocol.RoundTrip.{decode_packet-encode_packet, length-encode_packet}
use fproxy.Frame.{read_frames, max_tcp_frame_size}
use fproxy.Frame.RoundTrip.{read_frames-frame, IsFramable}
use fproxy.Client.State.{
  Client, UdpSession, key_Eq, Output, to_server, to_writer, to_source, spawn_tcp_reader, cancel_tcp,
  put_udp_session,
}
use fproxy.Client.Packets.{
  Env, get_or_create_udp_session, create_udp_session, handle_udp_transport,
  get_or_create_tcp_session, send_tcp_frame, send_to_endpoint, handle_tcp_transport, handle_packet,
}
use fproxy.Client.Inverse.{handle_tcp_transport-SameMaps}

-- The output carries the session, number and payload, or starts the reader of a connection.
abbrev pub Sends : ℕ → ℕ → Bytes → Output → Type 0
Sends id seq payload (to_server sender bytes) = decode_udp bytes ≡ ok (id, seq, payload)
Sends id seq payload (to_writer writer bytes) =
    (packet : Bytes) × (read_frames bytes ≡ packet ∷ [])
    × (decode_tcp packet ≡ ok (id, seq, payload))
Sends id seq payload (to_source listener addr bytes) = ⊥
Sends id seq payload (spawn_tcp_reader addr key) = Unit
Sends id seq payload (cancel_tcp writer) = ⊥

-- The UDP senders that are used, in order.
unfoldable pub senders_used : List Output → List ℕ
senders_used [] = []
senders_used (to_server sender bytes ∷ os) = sender ∷ senders_used os
senders_used (to_writer writer bytes ∷ os) = senders_used os
senders_used (to_source listener addr bytes ∷ os) = senders_used os
senders_used (spawn_tcp_reader addr key ∷ os) = senders_used os
senders_used (cancel_tcp writer ∷ os) = senders_used os

senders_used-udp :
    (senders : List ℕ) (bytes : Bytes) (os : List Output)
    → senders_used (map (λ sender. to_server sender bytes) senders ++ os)
      ≡ senders ++ senders_used os
unfolding senders_used
senders_used-udp [] bytes os = refl
senders_used-udp (x ∷ senders) bytes os = ap (◌∷◌ x) (senders_used-udp senders bytes os)

senders_used-append :
    (xs ys : List Output) → senders_used (xs ++ ys) ≡ senders_used xs ++ senders_used ys
unfolding senders_used
senders_used-append [] ys = refl
senders_used-append (to_server x b ∷ xs) ys = ap (◌∷◌ x) (senders_used-append xs ys)
senders_used-append (to_writer w b ∷ xs) ys = senders_used-append xs ys
senders_used-append (to_source l a b ∷ xs) ys = senders_used-append xs ys
senders_used-append (spawn_tcp_reader a k ∷ xs) ys = senders_used-append xs ys
senders_used-append (cancel_tcp w ∷ xs) ys = senders_used-append xs ys

module _ (id seq : ℕ) (payload : Bytes) (hid : id < u64_mod) (hseq : seq < u32_mod) where
  udp-Sends :
      (senders : List ℕ) → All (Sends id seq payload) (handle_udp_transport senders id seq payload)
  unfolding handle_udp_transport decode_udp encode_udp
  udp-Sends [] = tt
  udp-Sends (x ∷ senders) = (decode_packet-encode_packet id seq payload hid hseq, udp-Sends senders)

  frame-Sends :
      (writer : ℕ) → All (Sends id seq payload) (send_tcp_frame writer (encode_tcp id seq payload))
  unfolding send_tcp_frame decode_tcp encode_tcp
  frame-Sends writer =
      let bytes : Bytes = encode_packet id seq payload in
      elim (Bool-cases (ltb max_tcp_frame_size (length bytes))) [
        | inl large ↦ rw large tt
        | inr fits ↦
            let f : IsFramable bytes = ground (arith, length-encode_packet id seq payload) in
            rw fits (
              (
                bytes,
                read_frames-frame bytes f,
                decode_packet-encode_packet id seq payload hid hseq,
              ),
              tt,
            )
      ]

  endpoint-Sends :
      (c : Client) (env : Env) (a : ℕ) (endpoint : Endpoint) (p : Protocol)
      → All
          (Sends id seq payload)
          (send_to_endpoint c env a (encode_tcp id seq payload) endpoint p).1
  unfolding send_to_endpoint get_or_create_tcp_session
  endpoint-Sends c env a endpoint udp = tt
  endpoint-Sends c env a endpoint tcp =
      elim (Option-cases (get c.tcp_sessions (a, endpoint.address))) [
        | inr (s, e) ↦ rw (e, get_or_create_tcp_session, send_to_endpoint) (frame-Sends s.writer)
        | inl e ↦ elim (Option-cases (env.connect endpoint.address)) [
          | inl n ↦ rw (e, get_or_create_tcp_session, n, send_to_endpoint) tt
          | inr (w, n) ↦ rw (e, get_or_create_tcp_session, n, send_to_endpoint) (tt, frame-Sends w)
        ]
      ]

  transport-Sends :
      (c : Client) (env : Env) (a : ℕ) (servers : List Endpoint)
      → All
          (Sends id seq payload)
          (handle_tcp_transport c env a (encode_tcp id seq payload) servers).1
  unfolding handle_tcp_transport
  transport-Sends c env a [] = tt
  transport-Sends c env a (endpoint ∷ servers) =
      All-append (Sends id seq payload)
        (send_to_endpoint c env a (encode_tcp id seq payload) endpoint endpoint.protocol).1 _
        (endpoint-Sends c env a endpoint endpoint.protocol)
        (transport-Sends
          (send_to_endpoint c env a (encode_tcp id seq payload) endpoint endpoint.protocol).0 env a
          servers)

frame-senders : (writer : ℕ) (bytes : Bytes) → senders_used (send_tcp_frame writer bytes) ≡ []
unfolding send_tcp_frame senders_used
frame-senders writer bytes = ground arith

endpoint-senders :
    (c : Client) (env : Env) (a : ℕ) (bytes : Bytes) (endpoint : Endpoint) (p : Protocol)
    → senders_used (send_to_endpoint c env a bytes endpoint p).1 ≡ []
unfolding send_to_endpoint get_or_create_tcp_session senders_used
endpoint-senders c env a bytes endpoint udp = refl
endpoint-senders c env a bytes endpoint tcp =
    elim (Option-cases (get c.tcp_sessions (a, endpoint.address))) [
      | inr (s, e) ↦
          rw (e, get_or_create_tcp_session, send_to_endpoint) (frame-senders s.writer bytes)
      | inl e ↦ elim (Option-cases (env.connect endpoint.address)) [
        | inl n ↦ rw (e, get_or_create_tcp_session, n, send_to_endpoint) refl
        | inr (w, n) ↦
            rw (e, get_or_create_tcp_session, n, send_to_endpoint) (frame-senders w bytes)
      ]
    ]

transport-senders :
    (c : Client) (env : Env) (a : ℕ) (bytes : Bytes) (servers : List Endpoint)
    → senders_used (handle_tcp_transport c env a bytes servers).1 ≡ []
unfolding handle_tcp_transport senders_used
transport-senders c env a bytes [] = refl
transport-senders c env a bytes (endpoint ∷ servers) =
    senders_used-append (send_to_endpoint c env a bytes endpoint endpoint.protocol).1 _
    ∙ rw (
      endpoint-senders c env a bytes endpoint endpoint.protocol,
      transport-senders (send_to_endpoint c env a bytes endpoint endpoint.protocol).0 env a bytes
          servers,
    )

opened_senders :
    (c : Client) (env : Env) (a : ℕ)
    → (get_or_create_udp_session c env a).0.udp_senders ≡ c.udp_senders
unfolding get_or_create_udp_session create_udp_session
opened_senders c env a = ground arith

-- If the source's session, found or made, has an id and a number that fit their fields, everything
-- that goes out for a packet carries the session's id, its next number and the payload, on UDP and
-- TCP alike; every UDP sender is used once; and the session's number goes up by one, round to 0 at
-- 2^32.
pub handle_packet_lem :
    (c : Client) (env : Env) (a : ℕ) (payload : Bytes)
    → let s = (get_or_create_udp_session c env a).1 in
      s.session_id < u64_mod
      → s.seq < u32_mod
      → let (c', outputs) = handle_packet c env a payload in
        All (Sends s.session_id s.seq payload) outputs
        × (senders_used outputs ≡ c.udp_senders)
        × (get c'.udp_sessions a
            ≡ some (record s { seq = (s.seq + 1) % u32_mod; last_activity = env.now }))
unfolding handle_packet handle_udp_transport
handle_packet_lem c env a payload hid hseq =
    let c1 = (get_or_create_udp_session c env a).0 in
    let s = (get_or_create_udp_session c env a).1 in
    let s' : UdpSession = record s { seq = (s.seq + 1) % u32_mod; last_activity = env.now } in
    let c2 = put_udp_session c1 a s' in
    let bytes : Bytes = encode_tcp s.session_id s.seq payload in
    let m = handle_tcp_transport-SameMaps c2 env a bytes c2.cfg.servers in
    let sent = handle_tcp_transport c2 env a bytes c2.cfg.servers in
    (
      All-append (Sends s.session_id s.seq payload) _ sent.1
          (udp-Sends s.session_id s.seq payload hid hseq c2.udp_senders)
          (transport-Sends s.session_id s.seq payload hid hseq c2 env a c2.cfg.servers),
      senders_used-udp c2.udp_senders (encode_udp s.session_id s.seq payload) sent.1
          ∙ ap (λ l. c2.udp_senders ++ l) (transport-senders c2 env a bytes c2.cfg.servers)
          ∙ append-nil c2.udp_senders
          ∙ opened_senders c env a,
      rw m.sessions (get-insert c1.udp_sessions a a s' ∙ rw (==_refl a)),
    )
