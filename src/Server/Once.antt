-- ===== src/Server/Once.antt =====
-- A packet reaches the target once, whichever of its copies comes first and by whichever path.
use fproxy.Base.{
  ℕ, ◌≡◌, refl, ◌≢◌, true, List, [], ◌∷◌, arith, none, some, Bytes, Result, ok, err, All, IsByte,
  inl, inr, Bool-cases, Option-cases, nat_eq, ◌∙◌, sym, if◌then◌else◌,
}
use fproxy.Base.HashMap.{get}
use fproxy.Protocol.{ProtocolError, Decoded, decode_packet, decode_udp, decode_tcp}
use fproxy.Server.Window.Invariant.{IsSeq}
use fproxy.Server.State.{Server, TargetSession, Output, to_target}
use fproxy.Server.Packets.{
  Net, add_udp_path, add_tcp_path, receive, handle_udp_packet, handle_tcp_packet,
}
use fproxy.Server.Responses.{send_response_to_all_paths}
use fproxy.Server.Cleanup.{drop_conn_paths, cleanup_tcp_conn}
use fproxy.Server.Events.{
  Event, udp_packet, tcp_packet, target_response, conn_closed, tick, step, run,
}
use fproxy.Server.Sessions.{IsSound}
use fproxy.Server.Windows.{
  knows, Keeps, Keeps-refl, Keeps-trans, same_sessions, put_session-Keeps, decode-IsSeq, knows-some,
}
use fproxy.Server.Receive.{AddsPath, receive-Keeps, receive_known, receive_new, receive_learns}

-- The event brings a packet, of bytes, for session `k` with number `seq`.
abbrev pub Carries : Event → ℕ → ℕ → Bytes → Type 0
Carries (udp_packet net now listener client_addr bytes) k seq payload =
    All IsByte bytes × (decode_udp bytes ≡ ok (k, seq, payload))
Carries (tcp_packet net now conn_id writer bytes) k seq payload =
    All IsByte bytes × (decode_tcp bytes ≡ ok (k, seq, payload))
Carries (target_response now session_id payload') k seq payload = ⊥
Carries (conn_closed conn_id) k seq payload = ⊥
Carries (tick now) k seq payload = ⊥

-- No clean-up of expired sessions, and what arrives is bytes.
abbrev pub EndsNothing : Event → Type 0
EndsNothing (udp_packet net now listener client_addr bytes) = All IsByte bytes
EndsNothing (tcp_packet net now conn_id writer bytes) = All IsByte bytes
EndsNothing (target_response now session_id payload) = Unit
EndsNothing (conn_closed conn_id) = Unit
EndsNothing (tick now) = ⊥

add_udp_path-AddsPath :
    (client_addr listener : ℕ) → AddsPath (λ s k. add_udp_path s k client_addr listener)
unfolding add_udp_path
add_udp_path-AddsPath client_addr listener s k = (refl, refl)

add_tcp_path-AddsPath : (conn_id writer : ℕ) → AddsPath (λ s k. add_tcp_path s k conn_id writer)
unfolding add_tcp_path
add_tcp_path-AddsPath conn_id writer s k = (refl, refl)

-- A decoded packet's number fits its field.
decoded-IsSeq :
    (bytes : Bytes) (d : Decoded) → All IsByte bytes → decode_packet bytes ≡ ok d → IsSeq d.1
decoded-IsSeq bytes (k, seq, payload) h e = decode-IsSeq bytes k seq payload h e

packet-Keeps :
    (s : Server) (net : Net) (now : ℕ) (bytes : Bytes) (r : Result ProtocolError Decoded)
    (add_path : Server → ℕ → Server)
    → AddsPath add_path
    → IsSound s
    → All IsByte bytes
    → decode_packet bytes ≡ r
    → Keeps s
        (elim r as (λ x. Server × List Output) [
          | err e ↦ (s, [])
          | ok d ↦ receive s net now d add_path
        ]).0
packet-Keeps s net now bytes (err e) add_path keep v h eq = Keeps-refl s v
packet-Keeps s net now bytes (ok d) add_path keep v h eq =
    receive-Keeps s net now d add_path keep v (decoded-IsSeq bytes d h eq)

cleanup_tcp_conn-sessions :
    (s : Server) (conn_id : ℕ)
    → ((cleanup_tcp_conn s conn_id).sessions ≡ s.sessions)
      × ((cleanup_tcp_conn s conn_id).cfg ≡ s.cfg)
unfolding cleanup_tcp_conn drop_conn_paths
cleanup_tcp_conn-sessions s conn_id = ground arith

response-Keeps :
    (s : Server) (now k : ℕ) (payload : Bytes)
    → IsSound s
    → Keeps s (send_response_to_all_paths s now k payload).0
unfolding send_response_to_all_paths
response-Keeps s now k payload v = elim (Option-cases (get s.sessions k)) [
  | inl e ↦ rw (e, send_response_to_all_paths) (Keeps-refl s v)
  | inr (t, e) ↦
      rw (e, send_response_to_all_paths)
        (put_session-Keeps s s k _ v (v.windows k t e) (λ j h. refl)
          (λ seq h. sym (knows-some s k seq t e) ∙ h))
]

-- Every event but a clean-up keeps what the sessions know.
pub step-Keeps : (s : Server) (e : Event) → EndsNothing e → IsSound s → Keeps s (step s e).0
unfolding step handle_udp_packet handle_tcp_packet decode_udp decode_tcp
step-Keeps s (udp_packet net now listener client_addr bytes) h v =
    packet-Keeps s net now bytes (decode_packet bytes) _
      (add_udp_path-AddsPath client_addr listener) v h refl
step-Keeps s (tcp_packet net now conn_id writer bytes) h v =
    packet-Keeps s net now bytes (decode_packet bytes) _ (add_tcp_path-AddsPath conn_id writer) v h
      refl
step-Keeps s (target_response now session_id payload) h v =
    response-Keeps s now session_id payload v
step-Keeps s (conn_closed conn_id) h v =
    let (e, c) = cleanup_tcp_conn-sessions s conn_id in
    same_sessions s s (cleanup_tcp_conn s conn_id) (sym e) (sym c) (Keeps-refl s v)
step-Keeps s (tick now) h v = absurd h

run-Keeps : (s : Server) (es : List Event) → All EndsNothing es → IsSound s → Keeps s (run s es).0
unfolding run
run-Keeps s [] h v = Keeps-refl s v
run-Keeps s (e ∷ es) h v =
    let k : Keeps s (step s e).0 = step-Keeps s e h.0 v in
    Keeps-trans s (step s e).0 (run (step s e).0 es).0 k (run-Keeps (step s e).0 es h.1 k.sound)

-- An event that carries a packet is a call of `receive`.
pub as_receive :
    (s : Server) (e : Event) (k seq : ℕ) (payload : Bytes)
    → Carries e k seq payload
    → (net : Net) × (now : ℕ) × (add_path : Server → ℕ → Server) × AddsPath add_path
      × (step s e ≡ receive s net now (k, seq, payload) add_path)
unfolding step handle_udp_packet handle_tcp_packet
as_receive s (udp_packet net now listener client_addr bytes) k seq payload c = (
  net,
  now,
  (λ s' k'. add_udp_path s' k' client_addr listener),
  add_udp_path-AddsPath client_addr listener,
  rw (c.1, handle_udp_packet),
)
as_receive s (tcp_packet net now conn_id writer bytes) k seq payload c = (
  net,
  now,
  (λ s' k'. add_tcp_path s' k' conn_id writer),
  add_tcp_path-AddsPath conn_id writer,
  rw (c.1, handle_tcp_packet),
)
as_receive s (target_response now session_id payload') k seq payload c = absurd c
as_receive s (conn_closed conn_id) k seq payload c = absurd c
as_receive s (tick now) k seq payload c = absurd c

pub carried-IsSeq : (e : Event) (k seq : ℕ) (payload : Bytes) → Carries e k seq payload → IsSeq seq
unfolding decode_udp decode_tcp
carried-IsSeq (udp_packet net now listener client_addr bytes) k seq payload c =
    decode-IsSeq bytes k seq payload c.0 c.1
carried-IsSeq (tcp_packet net now conn_id writer bytes) k seq payload c =
    decode-IsSeq bytes k seq payload c.0 c.1
carried-IsSeq (target_response now session_id payload') k seq payload c = absurd c
carried-IsSeq (conn_closed conn_id) k seq payload c = absurd c
carried-IsSeq (tick now) k seq payload c = absurd c

-- A packet of a session that exists is answered by its payload, sent from the session's own
-- socket, if the session does not know its number, and by nothing if it does.
pub step_outputs :
    (s : Server) (e : Event) (k seq : ℕ) (payload : Bytes) (t : TargetSession)
    → Carries e k seq payload
    → get s.sessions k ≡ some t
    → (step s e).1 ≡ (if knows s k seq then [] else to_target t.target_conn payload ∷ [])
step_outputs s e k seq payload t c there =
    let (net, now, add_path, keep, eq) = as_receive s e k seq payload c in
    elim (Bool-cases (knows s k seq)) [
      | inl old ↦ rw (eq, old) (receive_known s net now (k, seq, payload) add_path old)
      | inr fresh ↦ rw (eq, fresh) (receive_new s net now (k, seq, payload) t add_path there fresh)
    ]

-- At a server with well-formed windows, once a packet has been handled whose session is there
-- afterwards, another packet of that session with the same number sends nothing, by whichever
-- transport the two came and whatever was handled between, a clean-up excepted.
pub second_copy :
    (s : Server) (first second : Event) (between : List Event) (k seq : ℕ) (p q : Bytes)
    → IsSound s
    → Carries first k seq p
    → Carries second k seq q
    → All EndsNothing between
    → get (step s first).0.sessions k ≢ none
    → (step (run (step s first).0 between).0 second).1 ≡ []
second_copy s first second between k seq p q v c d h there =
    let (net, now, add_path, keep, eq) = as_receive s first k seq p c in
    let bound : IsSeq seq = carried-IsSeq first k seq p c in
    let s1 : Server = (receive s net now (k, seq, p) add_path).0 in
    let kept : Keeps s s1 = receive-Keeps s net now (k, seq, p) add_path keep v bound in
    let learned : knows s1 k seq ≡ true =
      receive_learns s net now (k, seq, p) add_path keep v bound (λ e. there (rw eq e)) in
    let later : Keeps s1 (run s1 between).0 = run-Keeps s1 between h kept.sound in
    let (net', now', add_path', keep', eq') = as_receive (run s1 between).0 second k seq q d in
    rw (eq, eq')
      (receive_known (run s1 between).0 net' now' (k, seq, q) add_path'
        (later.knows_on k seq learned))
