-- ===== src/Client/Maps.antt =====
-- The two maps of UDP sessions in fproxy-rs/src/client.rs are inverse to one another.
use fproxy.Base.{
  ℕ, ◌+◌, ◌%◌, ◌≤◌, ◌≡◌, arith, ◌==◌, none, some, inl, inr, Bool-cases, nat_eq, ◌∙◌, sym, ap, subst,
  some_inj, u64_mod, ==_refl,
}
use fproxy.Base.HashMap.{get, insert, get-insert, get-remove, IsMap, insert-IsMap, remove-IsMap}
use fproxy.Client.State.{Client, UdpSession, put_udp_session}
use fproxy.Client.Cleanup.{remove_udp_session}

-- Every session is found by its id, and every id that is mapped is that of a session.
pub record IsInverse (c : Client) : Type 0 where
  pub sessions_map : IsMap c.udp_sessions
  pub forward :
      (a : ℕ) (s : UdpSession)
      → get c.udp_sessions a ≡ some s
      → get c.udp_session_addrs s.session_id ≡ some a
  pub backward :
      (id a : ℕ)
      → get c.udp_session_addrs id ≡ some a
      → (s : UdpSession) × (get c.udp_sessions a ≡ some s) × (s.session_id ≡ id)

-- `n` bounds the numbers that the counter has gone through since `initial`.
pub record Issued (initial n : ℕ) (c : Client) : Type 0 where
  pub counter : c.session_id_counter ≡ (initial + n) % u64_mod
  pub ids :
      (id a : ℕ)
      → get c.udp_session_addrs id ≡ some a
      → (j : ℕ) × (j ≤ n) × (1 ≤ j) × (id ≡ (initial + j) % u64_mod)

-- A session may be replaced by another with its id.
pub put_udp_session-IsInverse :
    (c : Client) (a : ℕ) (old s : UdpSession)
    → IsInverse c
    → get c.udp_sessions a ≡ some old
    → s.session_id ≡ old.session_id
    → IsInverse (put_udp_session c a s)
put_udp_session-IsInverse c a old s v e same = record {
  sessions_map = insert-IsMap c.udp_sessions a s v.sessions_map;
  forward = λ b t g. elim (Bool-cases (a == b)) [
    | inl eq ↦
        let q : s ≡ t = ground (arith, get-insert c.udp_sessions a b s) in
        let ab : a ≡ b = ground arith in
        subst (λ (x : UdpSession). get c.udp_session_addrs x.session_id ≡ some b) q
          (subst (λ (x : ℕ). get c.udp_session_addrs s.session_id ≡ some x) ab
            (rw same (v.forward a old e)))
    | inr ne ↦ v.forward b t (ground (arith, get-insert c.udp_sessions a b s))
  ];
  backward = λ id b g.
      let (t, gt, it) = v.backward id b g in
      elim (Bool-cases (a == b)) [
        | inl eq ↦
            let ab : a ≡ b = ground arith in
            let q : old ≡ t = some_inj (sym e ∙ rw ab gt) in
            (
              s,
              ground (arith, get-insert c.udp_sessions a b s),
              same ∙ ap (λ (x : UdpSession). x.session_id) q ∙ it,
            )
        | inr ne ↦ (t, ground (arith, get-insert c.udp_sessions a b s), it)
      ];
}

-- A new session under an id that is not mapped, for a source that has none.
pub added-IsInverse :
    (c : Client) (a : ℕ) (s : UdpSession)
    → IsInverse c
    → get c.udp_sessions a ≡ none
    → get c.udp_session_addrs s.session_id ≡ none
    → IsInverse (record c {
      udp_sessions = insert c.udp_sessions a s;
      udp_session_addrs = insert c.udp_session_addrs s.session_id a;
    })
added-IsInverse c a s v e f = record {
  sessions_map = insert-IsMap c.udp_sessions a s v.sessions_map;
  forward = λ b t g. elim (Bool-cases (a == b)) [
    | inl eq ↦
        let q : s ≡ t = ground (arith, get-insert c.udp_sessions a b s) in
        let ab : a ≡ b = ground arith in
        subst
          (λ (x : UdpSession).
            get (insert c.udp_session_addrs s.session_id a) x.session_id ≡ some b)
          q
          (get-insert c.udp_session_addrs s.session_id s.session_id a
            ∙ rw (==_refl s.session_id) (ap some ab))
    | inr ne ↦
        let old : get c.udp_sessions b ≡ some t = ground (arith, get-insert c.udp_sessions a b s) in
        ground
          (arith, v.forward b t old, f, get-insert c.udp_session_addrs s.session_id t.session_id a)
  ];
  backward = λ id b g. elim (Bool-cases (s.session_id == id)) [
    | inl eq ↦
        let ab : a ≡ b = ground (arith, get-insert c.udp_session_addrs s.session_id id a) in
        (s, ground (arith, get-insert c.udp_sessions a b s), ground arith)
    | inr ne ↦
        let (t, gt, it) =
          v.backward id b (ground (arith, get-insert c.udp_session_addrs s.session_id id a)) in
        (t, ground (arith, get-insert c.udp_sessions a b s, e), it)
  ];
}

pub removed-IsInverse :
    (c : Client) (a : ℕ) (s : UdpSession)
    → IsInverse c
    → get c.udp_sessions a ≡ some s
    → IsInverse (remove_udp_session c a s.session_id)
unfolding remove_udp_session
removed-IsInverse c a s v e = record {
  sessions_map = remove-IsMap c.udp_sessions a v.sessions_map;
  forward = λ b t g.
      let old : get c.udp_sessions b ≡ some t = ground (arith, get-remove c.udp_sessions a b) in
      ground (
        arith,
        v.forward b t old,
        v.forward a s e,
        get-remove c.udp_sessions a b,
        get-remove c.udp_session_addrs s.session_id t.session_id,
      );
  backward = λ id b g.
      let old : get c.udp_session_addrs id ≡ some b =
        ground (arith, get-remove c.udp_session_addrs s.session_id id) in
      let (t, gt, it) = v.backward id b old in
      (
        t,
        ground (
          arith,
          get-remove c.udp_sessions a b,
          get-remove c.udp_session_addrs s.session_id id,
          e,
        ),
        it,
      );
}
