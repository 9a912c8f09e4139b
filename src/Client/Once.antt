-- ===== src/Client/Once.antt =====
-- A response reaches its source once, whichever of its copies comes first and by whichever path.
use fproxy.Base.{
  ℕ, ◌+◌, ◌%◌, ◌≡◌, refl, ◌≢◌, true, List, [], ◌∷◌, arith, none, some, Bytes, ok, inl, inr,
  Option-cases, Result-cases, nat_eq, ◌∙◌, sym, ap, subst, u32_mod, All, IsByte,
}
use fproxy.Base.HashMap.{get}
use fproxy.Protocol.{decode_packet, decode_udp, decode_tcp}
use fproxy.Server.Window.Invariant.{IsValid, IsSeq, new-IsValid}
use fproxy.Server.Windows.{decode-IsSeq}
use fproxy.Client.Window.{as_window, as_window-new}
use fproxy.Client.State.{Client, UdpSession, Output, put_udp_session}
use fproxy.Client.Packets.{
  Env, new_session, next_session_id, default_response_dedup_size, get_or_create_udp_session,
  create_udp_session, handle_packet,
}
use fproxy.Client.Responses.{deliver_to, process_udp_response, process_tcp_response}
use fproxy.Client.Events.{Event, packet, udp_response, tcp_response, tcp_closed, tick, step, run}
use fproxy.Client.Inverse.{handle_tcp_transport-SameMaps, opened_found}
use fproxy.Client.Cleared.{cleanup_tcp_session-SameMaps}
use fproxy.Client.Windows.{
  IsSound, knows, session_knows, Keeps, Keeps-refl, Keeps-trans, same_sessions, knows-some,
  put-Keeps,
}
use fproxy.Client.Deliver.{deliver_to-Keeps, deliver_to_learns, deliver_to_known}

-- The event brings to the client a response, of bytes, for the source `a` with number `seq`.
abbrev pub Brings : Event → Client → ℕ → ℕ → Bytes → Type 0
Brings (packet env a' payload') c a seq payload = ⊥
Brings (udp_response now bytes) c a seq payload =
    All IsByte bytes
    × ((id : ℕ) × (decode_udp bytes ≡ ok (id, seq, payload))
        × (get c.udp_session_addrs id ≡ some a))
Brings (tcp_response now a' bytes) c a seq payload =
    All IsByte bytes × (a' ≡ a) × ((id : ℕ) × (decode_tcp bytes ≡ ok (id, seq, payload)))
Brings (tcp_closed key) c a seq payload = ⊥
Brings (tick now) c a seq payload = ⊥

-- No clean-up of expired sessions, and what arrives is bytes.
abbrev pub EndsNothing : Event → Type 0
EndsNothing (packet env a payload) = Unit
EndsNothing (udp_response now bytes) = All IsByte bytes
EndsNothing (tcp_response now a bytes) = All IsByte bytes
EndsNothing (tcp_closed key) = Unit
EndsNothing (tick now) = ⊥

-- An event that brings a response is a call of `deliver_to`.
pub as_deliver_to :
    (c : Client) (e : Event) (a seq : ℕ) (payload : Bytes)
    → Brings e c a seq payload
    → (now : ℕ) × (step c e ≡ deliver_to c now a seq payload)
unfolding step process_udp_response process_tcp_response
as_deliver_to c (packet env a' payload') a seq payload b = absurd b
as_deliver_to c (udp_response now bytes) a seq payload (h, (id, d, g)) =
    (now, rw (d, process_udp_response, g))
as_deliver_to c (tcp_response now a' bytes) a seq payload (h, q, (id, d)) =
    (now, rw (d, process_tcp_response) (ap (λ (x : ℕ). deliver_to c now x seq payload) q))
as_deliver_to c (tcp_closed key) a seq payload b = absurd b
as_deliver_to c (tick now) a seq payload b = absurd b

pub brought-IsSeq :
    (c : Client) (e : Event) (a seq : ℕ) (payload : Bytes) → Brings e c a seq payload → IsSeq seq
unfolding decode_udp decode_tcp
brought-IsSeq c (packet env a' payload') a seq payload b = absurd b
brought-IsSeq c (udp_response now bytes) a seq payload (h, (id, d, g)) =
    decode-IsSeq bytes id seq payload h d
brought-IsSeq c (tcp_response now a' bytes) a seq payload (h, q, (id, d)) =
    decode-IsSeq bytes id seq payload h d
brought-IsSeq c (tcp_closed key) a seq payload b = absurd b
brought-IsSeq c (tick now) a seq payload b = absurd b

new_session-IsValid : (env : Env) (id : ℕ) → IsValid (as_window (new_session env id).response_dedup)
unfolding new_session
new_session-IsValid env id =
    rw (as_window-new default_response_dedup_size)
      (new-IsValid default_response_dedup_size (omega arith))

not_known : (c : Client) (a seq : ℕ) → get c.udp_sessions a ≡ none → knows c a seq ≡ true → ⊥
unfolding knows
not_known c a seq e k = cc (ap (λ o. session_knows o seq) e, k)

opened-Keeps :
    (c : Client) (env : Env) (a : ℕ) → IsSound c → Keeps c (get_or_create_udp_session c env a).0
unfolding get_or_create_udp_session create_udp_session
opened-Keeps c env a v = elim (Option-cases (get c.udp_sessions a)) [
  | inr (s, e) ↦ rw (e, get_or_create_udp_session) (Keeps-refl c v)
  | inl e ↦
      let s = new_session env (next_session_id c.session_id_counter) in
      let k =
        put-Keeps c a s v (new_session-IsValid env (next_session_id c.session_id_counter))
          (λ q h. absurd (not_known c a q e h)) in
      rw (e, get_or_create_udp_session)
        (Keeps-trans c (put_udp_session c a s) _ k
          (same_sessions (put_udp_session c a s) _ refl k.sound))
]

handle_packet-Keeps :
    (c : Client) (env : Env) (a : ℕ) (payload : Bytes)
    → IsSound c
    → Keeps c (handle_packet c env a payload).0
unfolding handle_packet
handle_packet-Keeps c env a payload v =
    let c1 = (get_or_create_udp_session c env a).0 in
    let s = (get_or_create_udp_session c env a).1 in
    let k1 : Keeps c c1 = opened-Keeps c env a v in
    let there : get c1.udp_sessions a ≡ some s = opened_found c env a in
    let s' : UdpSession = record s { seq = (s.seq + 1) % u32_mod; last_activity = env.now } in
    let c2 = put_udp_session c1 a s' in
    let k2 : Keeps c1 c2 =
      put-Keeps c1 a s' k1.sound (k1.sound.windows a s there)
        (λ q h. sym (knows-some c1 a q s there) ∙ h) in
    let m = handle_tcp_transport-SameMaps c2 env a _ c2.cfg.servers in
    Keeps-trans c c1 _ k1 (Keeps-trans c1 c2 _ k2 (same_sessions c2 _ m.sessions k2.sound))

udp_response-Keeps :
    (c : Client) (now : ℕ) (bytes : Bytes)
    → All IsByte bytes
    → IsSound c
    → Keeps c (process_udp_response c now bytes).0
unfolding process_udp_response decode_udp
udp_response-Keeps c now bytes h v = elim (Result-cases (decode_packet bytes)) [
  | inr (e, r) ↦ rw (r, process_udp_response) (Keeps-refl c v)
  | inl ((id, seq, payload), r) ↦ elim (Option-cases (get c.udp_session_addrs id)) [
    | inl g ↦ rw (r, process_udp_response, g) (Keeps-refl c v)
    | inr (a, g) ↦
        rw (r, process_udp_response, g)
          (deliver_to-Keeps c now a seq payload v (decode-IsSeq bytes id seq payload h r))
  ]
]

tcp_response-Keeps :
    (c : Client) (now a : ℕ) (bytes : Bytes)
    → All IsByte bytes
    → IsSound c
    → Keeps c (process_tcp_response c now a bytes).0
unfolding process_tcp_response decode_tcp
tcp_response-Keeps c now a bytes h v = elim (Result-cases (decode_packet bytes)) [
  | inr (e, r) ↦ rw (r, process_tcp_response) (Keeps-refl c v)
  | inl ((id, seq, payload), r) ↦
      rw (r, process_tcp_response)
        (deliver_to-Keeps c now a seq payload v (decode-IsSeq bytes id seq payload h r))
]

-- Every event but a clean-up keeps what the sessions know.
pub step-Keeps : (c : Client) (e : Event) → EndsNothing e → IsSound c → Keeps c (step c e).0
unfolding step
step-Keeps c (packet env a payload) h v = handle_packet-Keeps c env a payload v
step-Keeps c (udp_response now bytes) h v = udp_response-Keeps c now bytes h v
step-Keeps c (tcp_response now a bytes) h v = tcp_response-Keeps c now a bytes h v
step-Keeps c (tcp_closed key) h v =
    same_sessions c _ (cleanup_tcp_session-SameMaps c key).sessions v
step-Keeps c (tick now) h v = absurd h

run-Keeps : (c : Client) (es : List Event) → All EndsNothing es → IsSound c → Keeps c (run c es).0
unfolding run
run-Keeps c [] h v = Keeps-refl c v
run-Keeps c (e ∷ es) h v =
    let k : Keeps c (step c e).0 = step-Keeps c e h.0 v in
    Keeps-trans c (step c e).0 (run (step c e).0 es).0 k (run-Keeps (step c e).0 es h.1 k.sound)

-- At a client with well-formed windows, once a response for a source with a session has been
-- handled, another with the same number sends nothing, by whichever transport the two came and
-- whatever was handled between, a clean-up excepted.
pub second_response :
    (c : Client) (first second : Event) (between : List Event) (a seq : ℕ) (p q : Bytes)
    → IsSound c
    → Brings first c a seq p
    → get c.udp_sessions a ≢ none
    → All EndsNothing between
    → Brings second (run (step c first).0 between).0 a seq q
    → (step (run (step c first).0 between).0 second).1 ≡ []
second_response c first second between a seq p q v b there h b' =
    let (now, eq) = as_deliver_to c first a seq p b in
    let bound : IsSeq seq = brought-IsSeq c first a seq p b in
    let c1 = (deliver_to c now a seq p).0 in
    let kept : Keeps c c1 = deliver_to-Keeps c now a seq p v bound in
    let learned : knows c1 a seq ≡ true = deliver_to_learns c now a seq p v bound there in
    let later : Keeps c1 (run c1 between).0 = run-Keeps c1 between h kept.sound in
    let e1 : (step c first).0 ≡ c1 = ap (λ (r : Client × List Output). r.0) eq in
    let d = (run (step c first).0 between).0 in
    let known : knows d a seq ≡ true =
      subst (λ (x : Client). knows (run x between).0 a seq ≡ true) (sym e1)
        (later.knows_on a seq learned) in
    let (now', eq') = as_deliver_to d second a seq q b' in
    ap (λ (r : Client × List Output). r.1) eq' ∙ deliver_to_known d now' a seq q known
