-- ===== src/Client/Inverse.antt =====
-- The maps of UDP sessions stay inverse to one another under every event of the client.
use fproxy.Base.{
  ℕ, ◌+◌, ◌%◌, ◌≤◌, ◌<◌, ◌≡◌, refl, List, [], ◌∷◌, arith, ◌==◌, none, some, Bytes, inl, inr,
  Bool-cases, Option-cases, nat_eq, ◌∙◌, u64_mod, u32_mod, ==_refl,
}
use fproxy.Base.HashMap.{get, get-insert}
use fproxy.Config.{Endpoint, Protocol, udp, tcp}
use fproxy.Client.Window.{is_duplicate}
use fproxy.Client.State.{Client, UdpSession, key_Eq, put_udp_session}
use fproxy.Client.Packets.{
  Env, next_session_id, new_session, create_udp_session, get_or_create_udp_session,
  get_or_create_tcp_session, send_to_endpoint, handle_tcp_transport, handle_packet,
}
use fproxy.Client.Responses.{deliver, deliver_to}
use fproxy.Client.Ids.{next_session_id_lem}
use fproxy.Client.Maps.{IsInverse, Issued, put_udp_session-IsInverse, added-IsInverse}
use fproxy.Client.SameMaps.{
  SameMaps, SameMaps-IsInverse, SameMaps-Issued, SameMaps-trans, SameMaps-refl,
}

-- With fewer than 2^64 numbers gone through, the next id is one that is not mapped.
pub fresh :
    (initial n : ℕ) (c : Client)
    → Issued initial n c
    → n + 2 < u64_mod
    → get c.udp_session_addrs (next_session_id c.session_id_counter) ≡ none
fresh initial n c v h =
    elim (Option-cases (get c.udp_session_addrs (next_session_id c.session_id_counter))) [
      | inl e ↦ e
      | inr (a, e) ↦
          let (j, hi, lo, same) = v.ids (next_session_id c.session_id_counter) a e in
          absurd (omega (arith, v.counter, same, (next_session_id_lem c.session_id_counter).2))
    ]

create_udp_session-IsInverse :
    (c : Client) (env : Env) (a : ℕ)
    → IsInverse c
    → get c.udp_sessions a ≡ none
    → get c.udp_session_addrs (next_session_id c.session_id_counter) ≡ none
    → IsInverse (create_udp_session c env a).0
unfolding create_udp_session new_session
create_udp_session-IsInverse c env a v e f =
    added-IsInverse (record c { session_id_counter = next_session_id c.session_id_counter }) a
      (new_session env (next_session_id c.session_id_counter)) (SameIds v) e f
  where
    SameIds :
        IsInverse c
        → IsInverse (record c { session_id_counter = next_session_id c.session_id_counter })
    SameIds v = record { sessions_map = v.sessions_map; forward = v.forward; backward = v.backward }

create_udp_session-Issued :
    (initial n : ℕ) (c : Client) (env : Env) (a : ℕ)
    → Issued initial n c
    → (m : ℕ) × (m ≤ n + 2) × (n ≤ m) × Issued initial m (create_udp_session c env a).0
unfolding create_udp_session new_session
create_udp_session-Issued initial n c env a v = elim (next_session_id_lem c.session_id_counter).2 [
  | inl e ↦
      (n + 1, omega arith, omega arith, issued (n + 1) (omega arith) (omega (arith, v.counter, e)))
  | inr e ↦
      (n + 2, omega arith, omega arith, issued (n + 2) (omega arith) (omega (arith, v.counter, e)))
]
  where
    issued :
        (m : ℕ)
        → n < m
        → next_session_id c.session_id_counter ≡ (initial + m) % u64_mod
        → Issued initial m (create_udp_session c env a).0
    issued m lt e = record {
      counter = e;
      ids = λ id b g. elim (Bool-cases (next_session_id c.session_id_counter == id)) [
        | inl eq ↦ (m, omega arith, omega arith, ground (arith, e))
        | inr ne ↦
            let (j, hi, lo, same) = v.ids id b (
              ground (
                arith,
                get-insert c.udp_session_addrs (next_session_id c.session_id_counter) id a,
              )) in
            (j, omega arith, lo, same)
      ];
    }

created_found :
    (c : Client) (env : Env) (a : ℕ)
    → get (create_udp_session c env a).0.udp_sessions a ≡ some (create_udp_session c env a).1
unfolding create_udp_session
created_found c env a =
    get-insert c.udp_sessions a a (new_session env (next_session_id c.session_id_counter))
    ∙ rw (==_refl a)

send_to_endpoint-SameMaps :
    (c : Client) (env : Env) (a : ℕ) (bytes : Bytes) (endpoint : Endpoint) (p : Protocol)
    → SameMaps c (send_to_endpoint c env a bytes endpoint p).0
unfolding send_to_endpoint get_or_create_tcp_session
send_to_endpoint-SameMaps c env a bytes endpoint udp = SameMaps-refl c
send_to_endpoint-SameMaps c env a bytes endpoint tcp = ground arith

pub handle_tcp_transport-SameMaps :
    (c : Client) (env : Env) (a : ℕ) (bytes : Bytes) (servers : List Endpoint)
    → SameMaps c (handle_tcp_transport c env a bytes servers).0
unfolding handle_tcp_transport
handle_tcp_transport-SameMaps c env a bytes [] = SameMaps-refl c
handle_tcp_transport-SameMaps c env a bytes (endpoint ∷ servers) =
    let d = (send_to_endpoint c env a bytes endpoint endpoint.protocol).0 in
    SameMaps-trans c d (handle_tcp_transport d env a bytes servers).0
      (send_to_endpoint-SameMaps c env a bytes endpoint endpoint.protocol)
      (handle_tcp_transport-SameMaps d env a bytes servers)

-- The maps are inverse, and the counter has gone through `m` numbers, at most two more than before.
pub record Advanced (initial n : ℕ) (c : Client) : Type 0 where
  pub inverse : IsInverse c
  pub passed : ℕ
  pub at_least : n ≤ passed
  pub at_most : passed ≤ n + 2
  pub issued : Issued initial passed c

pub opened-Advanced :
    (initial n : ℕ) (c : Client) (env : Env) (a : ℕ)
    → IsInverse c
    → Issued initial n c
    → n + 2 < u64_mod
    → Advanced initial n (get_or_create_udp_session c env a).0
      × (get (get_or_create_udp_session c env a).0.udp_sessions a
          ≡ some (get_or_create_udp_session c env a).1)
unfolding get_or_create_udp_session
opened-Advanced initial n c env a v i h = elim (Option-cases (get c.udp_sessions a)) [
  | inr (s, e) ↦
      rw (e, get_or_create_udp_session)
        (
          record {
            inverse = v;
            passed = n;
            at_least = omega arith;
            at_most = omega arith;
            issued = i;
          },
          e,
        )
  | inl e ↦
      let (m, hi, lo, i') = create_udp_session-Issued initial n c env a i in
      rw (e, get_or_create_udp_session)
        (
          record {
            inverse = create_udp_session-IsInverse c env a v e (fresh initial n c i h);
            passed = m;
            at_least = lo;
            at_most = hi;
            issued = i';
          },
          created_found c env a,
        )
]

pub opened_found :
    (c : Client) (env : Env) (a : ℕ)
    → get (get_or_create_udp_session c env a).0.udp_sessions a
      ≡ some (get_or_create_udp_session c env a).1
unfolding get_or_create_udp_session
opened_found c env a = elim (Option-cases (get c.udp_sessions a)) [
  | inr (s, e) ↦ rw (e, get_or_create_udp_session) e
  | inl e ↦ rw (e, get_or_create_udp_session) (created_found c env a)
]

pub put-Issued :
    (initial n : ℕ) (c : Client) (a : ℕ) (s : UdpSession)
    → Issued initial n c
    → Issued initial n (put_udp_session c a s)
put-Issued initial n c a s v = record { counter = v.counter; ids = v.ids }

pub handle_packet-Advanced :
    (initial n : ℕ) (c : Client) (env : Env) (a : ℕ) (payload : Bytes)
    → IsInverse c
    → Issued initial n c
    → n + 2 < u64_mod
    → Advanced initial n (handle_packet c env a payload).0
unfolding handle_packet
handle_packet-Advanced initial n c env a payload v i h =
    let (adv, there) = opened-Advanced initial n c env a v i h in
    let c1 = (get_or_create_udp_session c env a).0 in
    let s = (get_or_create_udp_session c env a).1 in
    let s' : UdpSession = record s { seq = (s.seq + 1) % u32_mod; last_activity = env.now } in
    let c2 = put_udp_session c1 a s' in
    let m = handle_tcp_transport-SameMaps c2 env a _ c2.cfg.servers in
    record {
      inverse =
          SameMaps-IsInverse c2 _ m (put_udp_session-IsInverse c1 a s s' adv.inverse there refl);
      passed = adv.passed;
      at_least = adv.at_least;
      at_most = adv.at_most;
      issued =
          SameMaps-Issued initial adv.passed c2 _ m
            (put-Issued initial adv.passed c1 a s' adv.issued);
    }

pub deliver_to-IsInverse :
    (c : Client) (now a seq : ℕ) (payload : Bytes)
    → IsInverse c
    → IsInverse (deliver_to c now a seq payload).0
unfolding deliver_to deliver
deliver_to-IsInverse c now a seq payload v = elim (Option-cases (get c.udp_sessions a)) [
  | inl e ↦ rw (e, deliver_to) v
  | inr (s, e) ↦ elim (Bool-cases (is_duplicate s.response_dedup seq).1) [
    | inl d ↦ rw (e, deliver_to, d) (put_udp_session-IsInverse c a s _ v e refl)
    | inr d ↦ rw (e, deliver_to, d) (put_udp_session-IsInverse c a s _ v e refl)
  ]
]

pub deliver_to-Issued :
    (initial n : ℕ) (c : Client) (now a seq : ℕ) (payload : Bytes)
    → Issued initial n c
    → Issued initial n (deliver_to c now a seq payload).0
unfolding deliver_to deliver
deliver_to-Issued initial n c now a seq payload v = elim (Option-cases (get c.udp_sessions a)) [
  | inl e ↦ rw (e, deliver_to) v
  | inr (s, e) ↦ elim (Bool-cases (is_duplicate s.response_dedup seq).1) [
    | inl d ↦ rw (e, deliver_to, d) (put-Issued initial n c a _ v)
    | inr d ↦ rw (e, deliver_to, d) (put-Issued initial n c a _ v)
  ]
]
