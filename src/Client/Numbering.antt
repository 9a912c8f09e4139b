-- ===== src/Client/Numbering.antt =====
-- A packet of a source, in fproxy-rs/src/client.rs, moves its session past the number it gets.
use fproxy.Base.{
  ℕ, ◌+◌, ◌%◌, ◌≤◌, ◌<◌, ◌≡◌, refl, ◌∙◌, ap, sym, true, false, List, ◌∷◌, arith, ◌==◌, some, Bytes,
  ◌⊎◌, inl, inr, Bool-cases, Option-cases, nat_eq, if◌then◌else◌, u32_mod, u64_mod, length,
  some_inj,
}
use fproxy.Base.HashMap.{get, get-insert}
use fproxy.Protocol.{Decoded, encode_tcp}
use fproxy.Client.State.{Client, UdpSession, key_Eq, put_udp_session}
use fproxy.Client.Packets.{
  Env, get_or_create_udp_session, create_udp_session, new_session, next_session_id, handle_packet,
  handle_udp_transport,
}
use fproxy.Client.Ids.{next_session_id_lem}
use fproxy.Client.Maps.{IsInverse, put_udp_session-IsInverse}
use fproxy.Client.SameMaps.{SameMaps, SameMaps-IsInverse, SameMaps-Issued}
use fproxy.Client.Inverse.{opened-Advanced, opened_found, put-Issued, handle_tcp_transport-SameMaps}
use fproxy.Client.Numbers.{has_key, half, IsNumbered}

-- A new id is that of no packet before.
new_id :
    (given : List Decoded) (initial n : ℕ) (c : Client) (q : ℕ)
    → IsNumbered given initial n c
    → n + 2 < u64_mod
    → has_key given (next_session_id c.session_id_counter) q ≡ false
new_id given initial n c q v h =
    elim (Bool-cases (has_key given (next_session_id c.session_id_counter) q)) [
      | inr new_key ↦ new_key
      | inl old ↦
          let (j, hi, lo, same) = v.ids (next_session_id c.session_id_counter) q old in
          absurd
            (omega (arith, v.issued.counter, same, (next_session_id_lem c.session_id_counter).2))
    ]

-- Finding a session, or making one, gives nothing yet.
opened-IsNumbered :
    (given : List Decoded) (initial n : ℕ) (c : Client) (env : Env) (a : ℕ)
    → IsNumbered given initial n c
    → n + 2 < u64_mod
    → (m : ℕ) × (n ≤ m)
      × (m ≤ n + 2)
      × IsNumbered given initial m (get_or_create_udp_session c env a).0
unfolding get_or_create_udp_session create_udp_session new_session
opened-IsNumbered given initial n c env a v h =
    let adv = (opened-Advanced initial n c env a v.inverse v.issued h).0 in
    elim (Option-cases (get c.udp_sessions a)) [
      | inr (s, e) ↦ (n, omega arith, omega arith, rw (e, get_or_create_udp_session) v)
      | inl e ↦
          let id = next_session_id c.session_id_counter in
          let created : UdpSession = new_session env id in
          (
            adv.passed,
            adv.at_least,
            adv.at_most,
            record {
              inverse = adv.inverse;
              issued = adv.issued;
              ids = λ k q g.
                  let (j, hi, lo, same) = v.ids k q g in (j, omega (arith, adv.at_least), lo, same);
              below = λ b q s g f. elim (Bool-cases (a == b)) [
                | inl same ↦
                    let cs : created ≡ s = some_inj (
                      sym (get-insert c.udp_sessions a b created ∙ rw same refl)
                      ∙ rw (e, get_or_create_udp_session) at g) in
                    absurd (cc (sym (new_id given initial n c q v h) ∙ rw (← cs) at f))
                | inr other ↦
                    v.below b q s
                      (sym (get-insert c.udp_sessions a b created ∙ rw other refl)
                        ∙ rw (e, get_or_create_udp_session) at g)
                      f
              ];
              bounded = λ b s g. elim (Bool-cases (a == b)) [
                | inl same ↦
                    let cs : created ≡ s = some_inj (
                      sym (get-insert c.udp_sessions a b created ∙ rw same refl)
                      ∙ rw (e, get_or_create_udp_session) at g) in
                    rw (← cs) (omega arith)
                | inr other ↦ v.bounded b s (
                    sym (get-insert c.udp_sessions a b created ∙ rw other refl)
                    ∙ rw (e, get_or_create_udp_session) at g)
              ];
              distinct = v.distinct;
            },
          )
    ]

-- Sessions of two sources have different ids.
other_id :
    (c : Client) (a b : ℕ) (s t : UdpSession)
    → IsInverse c
    → get c.udp_sessions a ≡ some s
    → get c.udp_sessions b ≡ some t
    → (a == b) ≡ false
    → (s.session_id == t.session_id) ≡ false
other_id c a b s t v gs gt other = elim (Bool-cases (s.session_id == t.session_id)) [
  | inr different ↦ different
  | inl same ↦
      let st : s.session_id ≡ t.session_id = ground arith in
      let ab : a ≡ b =
        some_inj (sym (v.forward a s gs) ∙ ap (get c.udp_session_addrs) st ∙ v.forward b t gt) in
      absurd (ground arith)
]

-- The session's number moves past the one that was given.
given-IsNumbered :
    (given : List Decoded) (initial n : ℕ) (c d : Client) (a : ℕ) (s s' : UdpSession)
    (payload : Bytes)
    → IsNumbered given initial n c
    → get c.udp_sessions a ≡ some s
    → s'.session_id ≡ s.session_id
    → s'.seq ≡ s.seq + 1
    → SameMaps (put_udp_session c a s') d
    → IsNumbered ((s.session_id, s.seq, payload) ∷ given) initial n d
given-IsNumbered given initial n c d a s s' payload v there same_id next m =
    let after : (b : ℕ)
        → get d.udp_sessions b ≡ (if a == b then some s' else get c.udp_sessions b) =
      λ b. ap (λ x. get x b) m.sessions ∙ get-insert c.udp_sessions a b s' in
    let now : (b : ℕ) (t : UdpSession)
        → get d.udp_sessions b ≡ some t
        → (((a == b) ≡ true) × (s' ≡ t)) ⊎ (((a == b) ≡ false) × (get c.udp_sessions b ≡ some t)) =
      λ b t g. elim (Bool-cases (a == b)) [
        | inl same ↦ inl (same, some_inj (sym (after b ∙ rw same refl) ∙ g))
        | inr other ↦ inr (other, sym (after b ∙ rw other refl) ∙ g)
      ] in
    record {
      inverse =
          SameMaps-IsInverse _ d m (put_udp_session-IsInverse c a s s' v.inverse there same_id);
      issued = SameMaps-Issued initial n _ d m (put-Issued initial n c a s' v.issued);
      ids = λ k q f. elim (Bool-cases (has_key given k q)) [
        | inl old ↦ v.ids k q old
        | inr new_key ↦
            let ks : s.session_id ≡ k = ground arith in
            let (j, hi, lo, e) = v.issued.ids s.session_id a (v.inverse.forward a s there) in
            (j, hi, lo, sym ks ∙ e)
      ];
      below = λ b q t g f. elim (now b t g) [
        | inl (same, st) ↦
            let id : s.session_id ≡ t.session_id =
              sym same_id ∙ ap (λ (x : UdpSession). x.session_id) st in
            let seq : t.seq ≡ s.seq + 1 = ap (λ (x : UdpSession). x.seq) (sym st) ∙ next in
            elim (Bool-cases (has_key given s.session_id q)) [
              | inl old ↦ omega (arith, v.below a q s there old, seq)
              | inr new_key ↦ ground (arith, seq, id, new_key, f)
            ]
        | inr (other, old) ↦
            let different = other_id c a b s t v.inverse there old other in
            v.below b q t old (ground (arith, different, f))
      ];
      bounded = λ b t g. elim (now b t g) [
        | inl (same, st) ↦
            let seq : t.seq ≡ s.seq + 1 = ap (λ (x : UdpSession). x.seq) (sym st) ∙ next in
            omega (arith, seq, v.bounded a s there)
        | inr (other, old) ↦ omega (arith, v.bounded b t old)
      ];
      distinct = (
        elim (Bool-cases (has_key given s.session_id s.seq)) [
          | inl old ↦ absurd (omega (arith, v.below a s.seq s there old))
          | inr new_key ↦ new_key
        ],
        v.distinct,
      );
    }

-- Before the 2^31st packet, a packet keeps it.
pub packet-IsNumbered :
    (given : List Decoded) (initial n : ℕ) (c : Client) (env : Env) (a : ℕ) (payload : Bytes)
    → IsNumbered given initial n c
    → n + 2 < u64_mod
    → length given < half
    → let s = (get_or_create_udp_session c env a).1 in
      (m : ℕ) × (m ≤ n + 2)
      × (s.session_id < u64_mod)
      × (s.seq < u32_mod)
      × IsNumbered
          ((s.session_id, s.seq, payload) ∷ given)
          initial
          m
          (handle_packet c env a payload).0
unfolding handle_packet handle_udp_transport
packet-IsNumbered given initial n c env a payload v h k =
    let (m, lo, hi, w) = opened-IsNumbered given initial n c env a v h in
    let c1 = (get_or_create_udp_session c env a).0 in
    let s = (get_or_create_udp_session c env a).1 in
    let there : get c1.udp_sessions a ≡ some s = opened_found c env a in
    let s' : UdpSession = record s { seq = (s.seq + 1) % u32_mod; last_activity = env.now } in
    let c2 = put_udp_session c1 a s' in
    let bytes : Bytes = encode_tcp s.session_id s.seq payload in
    let bound : s.seq < half + length given = w.bounded a s there in
    let (j, _, _, id) = w.issued.ids s.session_id a (w.inverse.forward a s there) in
    (
      m,
      hi,
      omega (arith, id),
      omega arith,
      given-IsNumbered given initial m c1 _ a s s' payload w there refl (omega arith)
          (handle_tcp_transport-SameMaps c2 env a bytes c2.cfg.servers),
    )
