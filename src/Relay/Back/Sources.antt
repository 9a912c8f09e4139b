-- ===== src/Relay/Back/Sources.antt =====
-- The sources that responses go to in fproxy-rs/src/client.rs.
use fproxy.Base.{
  ℕ, ◌+◌, ◌<◌, ◌≡◌, refl, ◌∙◌, ap, sym, true, false, List, [], ◌∷◌, arith, ◌==◌, Option, none, some,
  Bytes, ◌⊎◌, inl, inr, Bool-cases, Option-cases, nat_eq, ◌%◌, u32_mod, u64_mod,
}
use fproxy.Base.HashMap.{get}
use fproxy.Protocol.{encode_tcp}
use fproxy.Server.Window.Invariant.{IsSeq}
use fproxy.Server.Tasks.Views.{at_other}
use fproxy.Client.State.{Client, UdpSession, put_udp_session}
use fproxy.Client.Packets.{
  Env, get_or_create_udp_session, create_udp_session, new_session, next_session_id, handle_packet,
}
use fproxy.Client.Responses.{forward, deliver_to, process_udp_response}
use fproxy.Client.Events.{Event, packet, udp_response, tcp_response, tcp_closed, tick, step}
use fproxy.Client.Maps.{IsInverse, Issued}
use fproxy.Client.Inverse.{fresh, handle_tcp_transport-SameMaps}
use fproxy.Client.Cleared.{cleanup_tcp_session-SameMaps}
use fproxy.Client.Windows.{IsSound, knows, Keeps}
use fproxy.Client.Deliver.{deliver_to_lem, deliver_to_known, deliver_to_learns, deliver_to-Keeps}
use fproxy.Client.Once.{Brings, as_deliver_to, brought-IsSeq}
use fproxy.Relay.Downstream.{BringsBack, brought-Brings, deliver_to-addrs}
use fproxy.Relay.Back.Defs.{returned, ReturnsNothing, IsOnOwnConn, source_of}

-- Every session that belongs to a source goes on to.
abbrev pub SameSources : Client → Client → Type 0
SameSources c d =
    (k a : ℕ) → get c.udp_session_addrs k ≡ some a → get d.udp_session_addrs k ≡ some a

opened_sources :
    (initial n : ℕ) (c : Client) (env : Env) (a : ℕ)
    → Issued initial n c
    → n + 2 < u64_mod
    → SameSources c (get_or_create_udp_session c env a).0
unfolding get_or_create_udp_session create_udp_session new_session
opened_sources initial n c env a v h k b g = elim (Option-cases (get c.udp_sessions a)) [
  | inr (s, e) ↦ rw (e, get_or_create_udp_session) g
  | inl e ↦
      let id = next_session_id c.session_id_counter in
      rw (e, get_or_create_udp_session)
        (elim (Bool-cases (id == k)) [
          | inl same ↦
              let ik : id ≡ k = ground arith in
              absurd (cc (sym (fresh initial n c v h) ∙ ap (get c.udp_session_addrs) ik ∙ g))
          | inr other ↦ at_other c.udp_session_addrs id k a other ∙ g
        ])
]

-- A packet of a source and the end of a connection take no session from its source.
pub step_sources :
    (initial n : ℕ) (c : Client) (e : Event)
    → Issued initial n c
    → n + 2 < u64_mod
    → ReturnsNothing e
    → SameSources c (step c e).0
unfolding step handle_packet
step_sources initial n c (packet env a payload) v h r k b g =
    let c1 = (get_or_create_udp_session c env a).0 in
    let s = (get_or_create_udp_session c env a).1 in
    let s' : UdpSession = record s { seq = (s.seq + 1) % u32_mod; last_activity = env.now } in
    let c2 = put_udp_session c1 a s' in
    let bytes : Bytes = encode_tcp s.session_id s.seq payload in
    let m = handle_tcp_transport-SameMaps c2 env a bytes c2.cfg.servers in
    ap (λ x. get x k) m.addrs ∙ opened_sources initial n c env a v h k b g
step_sources initial n c (udp_response now bytes) v h r k b g = absurd r
step_sources initial n c (tcp_response now a bytes) v h r k b g = absurd r
step_sources initial n c (tcp_closed key) v h r k b g =
    ap (λ x. get x k) (cleanup_tcp_session-SameMaps c key).addrs ∙ g
step_sources initial n c (tick now) v h r k b g = absurd r

-- A response of a session without a source is dropped; one with a source is delivered to it.
pub brought_cases :
    (c : Client) (e : Event) (k seq : ℕ) (payload : Bytes)
    → BringsBack e k (source_of e) seq payload
    → IsOnOwnConn c e
    → (step c e ≡ (c, []))
      ⊎ ((a : ℕ) × (get c.udp_session_addrs k ≡ some a) × Brings e c a seq payload)
unfolding step process_udp_response
brought_cases c (packet env a' p) k seq payload b h = absurd b
brought_cases c (udp_response now bytes) k seq payload (bs, d) h =
    elim (Option-cases (get c.udp_session_addrs k)) [
      | inl n ↦ inl (rw (d, process_udp_response, n))
      | inr (a, g) ↦ inr (a, g, (bs, (k, d, g)))
    ]
brought_cases c (tcp_response now a bytes) k seq payload b h =
    let g : get c.udp_session_addrs k ≡ some a = rw b.2 at h in
    inr (a, g, brought-Brings c (tcp_response now a bytes) k a seq payload g b)
brought_cases c (tcp_closed key) k seq payload b h = absurd b
brought_cases c (tick now) k seq payload b h = absurd b

returned-forward :
    (listener : Option ℕ) (a : ℕ) (payload : Bytes)
    → (returned (forward listener a payload) ≡ [])
      ⊎ (returned (forward listener a payload) ≡ (a, payload) ∷ [])
unfolding returned forward
returned-forward none a payload = inl refl
returned-forward (some listener) a payload = inr refl

-- What the arrival of a response leaves, and what it gives to the source.
pub record Arrived (c d : Client) (k seq : ℕ) (payload : Bytes) (ps : List (ℕ × Bytes))
    : Type 0 where
  pub keeps : Keeps c d
  pub sources : SameSources c d
  pub gives :
      (ps ≡ [])
      ⊎ ((a : ℕ) × (get c.udp_session_addrs k ≡ some a)
          × (ps ≡ (a, payload) ∷ [])
          × (knows c a seq ≡ false)
          × (knows d a seq ≡ true))

delivered-Arrived :
    (c : Client) (now k a seq : ℕ) (payload : Bytes)
    → IsSound c
    → IsInverse c
    → IsSeq seq
    → get c.udp_session_addrs k ≡ some a
    → let (d, os) = deliver_to c now a seq payload in Arrived c d k seq payload (returned os)
unfolding returned
delivered-Arrived c now k a seq payload v i bound g =
    let (s, there, _) = i.backward k a g in
    record {
      keeps = deliver_to-Keeps c now a seq payload v bound;
      sources = λ j b e. ap (λ m. get m j) (deliver_to-addrs c now a seq payload) ∙ e;
      gives = elim (Bool-cases (knows c a seq)) [
        | inl old ↦ inl (ap returned (deliver_to_known c now a seq payload old))
        | inr fresh ↦
            let out : (deliver_to c now a seq payload).1 ≡ forward c.listener a payload =
              deliver_to_lem c now a seq payload s there ∙ rw fresh refl in
            let learned =
              deliver_to_learns c now a seq payload v bound (λ n. absurd (cc (n, there))) in
            elim (returned-forward c.listener a payload) [
              | inl nothing ↦ inl (ap returned out ∙ nothing)
              | inr one ↦ inr (a, g, ap returned out ∙ one, fresh, learned)
            ]
      ];
    }

pub brought-Arrived :
    (c : Client) (e : Event) (k seq : ℕ) (payload : Bytes)
    → IsSound c
    → IsInverse c
    → BringsBack e k (source_of e) seq payload
    → IsOnOwnConn c e
    → let (d, os) = step c e in Arrived c d k seq payload (returned os)
unfolding returned
brought-Arrived c e k seq payload v i b h = elim (brought_cases c e k seq payload b h) [
  | inl nothing ↦ rw nothing record {
    keeps = record { sound = v; knows_on = λ a q t. t };
    sources = λ j a t. t;
    gives = inl refl;
  }
  | inr (a, g, brings) ↦
      let (now, eq) = as_deliver_to c e a seq payload brings in
      rw eq (delivered-Arrived c now k a seq payload v i (brought-IsSeq c e a seq payload brings) g)
]
