-- ===== src/Server/Sessions.antt =====
-- Lookups of sessions, and the invariant that each session's window is well formed.
use fproxy.Base.{
  ℕ, ◌≡◌, refl, true, false, arith, ◌==◌, none, some, inl, inr, Bool-cases, Option-cases, nat_eq,
  ◌∙◌, sym, ◌⊎◌, subst, ==_refl, some_inj,
}
use fproxy.Base.HashMap.{get, get-insert}
use fproxy.Server.Window.Invariant.{IsValid, IsSize, new-IsValid}
use fproxy.Server.State.{Server, TargetSession, put_session}
use fproxy.Server.Packets.{Net, Opened, found, opened, new_session, get_or_create_session}

pub record IsSound (s : Server) : Type 0 where
  pub sized : IsSize s.cfg.dedup_window
  pub windows : (k : ℕ) (t : TargetSession) → get s.sessions k ≡ some t → IsValid t.dedup_window

pub put_session-IsSound :
    (s : Server) (k : ℕ) (t : TargetSession)
    → IsSound s
    → IsValid t.dedup_window
    → IsSound (put_session s k t)
put_session-IsSound s k t v h = record {
  sized = v.sized;
  windows = λ j u e. elim (Bool-cases (k == j)) [
    | inl same ↦
        let same_session : t ≡ u = ground (arith, get-insert s.sessions k j t) in
        subst (λ (x : TargetSession). IsValid x.dedup_window) same_session h
    | inr other ↦ v.windows j u (ground (arith, get-insert s.sessions k j t))
  ];
}

-- What a lookup that succeeds gives.
pub record IsOpened (s : Server) (k : ℕ) (o : Opened) : Type 0 where
  pub found : get o.server.sessions k ≡ some o.session
  pub paths : o.server.client_paths ≡ s.client_paths
  pub conns : o.server.tcp_conn_to_session ≡ s.tcp_conn_to_session
  pub cfg : o.server.cfg ≡ s.cfg
  pub others : (j : ℕ) → (k == j) ≡ false → get o.server.sessions j ≡ get s.sessions j
  pub kept : (t : TargetSession) → get s.sessions k ≡ some t → o.session ≡ t
  pub sound : IsSound s → IsSound o.server

found-IsOpened :
    (s : Server) (k : ℕ) (t : TargetSession) → get s.sessions k ≡ some t → IsOpened s k (found s t)
found-IsOpened s k t e = record {
  found = e;
  paths = refl;
  conns = refl;
  cfg = refl;
  others = λ j h. refl;
  kept = λ u h. cc (e, h);
  sound = λ v. v;
}

opened-IsOpened :
    (s : Server) (k conn now : ℕ)
    → get s.sessions k ≡ none
    → IsOpened s k (opened s k conn (new_session s conn now))
opened-IsOpened s k conn now e =
    let t : TargetSession = new_session s conn now in
    record {
      found = rw (get-insert s.sessions k k t, ==_refl k);
      paths = refl;
      conns = refl;
      cfg = refl;
      others = λ j h. rw (get-insert s.sessions k j t, h);
      kept = λ u h. absurd (cc (e, h));
      sound = λ v. put_session-IsSound s k t v (new-IsValid s.cfg.dedup_window v.sized);
    }

-- A lookup finds the session, makes it, or fails for want of a socket.
pub get_or_create_session_cases :
    (s : Server) (net : Net) (now k : ℕ)
    → ((t : TargetSession) × (get s.sessions k ≡ some t)
        × (get_or_create_session s net now k ≡ some (found s t)))
      ⊎ (((conn : ℕ) × (get s.sessions k ≡ none)
            × (net.bind ≡ some conn)
            × (net.connects ≡ true)
            × (get_or_create_session s net now k ≡ some (opened s k conn (new_session s conn now))))
          ⊎ ((get s.sessions k ≡ none) × (get_or_create_session s net now k ≡ none)))
unfolding get_or_create_session
get_or_create_session_cases s net now k = elim (Option-cases (get s.sessions k)) [
  | inr (t, e) ↦ inl (t, e, rw (e, get_or_create_session))
  | inl e ↦ elim (Option-cases net.bind) [
    | inl b ↦ inr (inr (e, ground arith))
    | inr (conn, b) ↦ elim (Bool-cases net.connects) [
      | inl c ↦ inr (inl (conn, e, b, c, ground arith))
      | inr c ↦ inr (inr (e, ground arith))
    ]
  ]
]

pub get_or_create_session-IsOpened :
    (s : Server) (net : Net) (now k : ℕ) (o : Opened)
    → get_or_create_session s net now k ≡ some o
    → IsOpened s k o
get_or_create_session-IsOpened s net now k o h = elim (get_or_create_session_cases s net now k) [
  | inl (t, e, r) ↦ subst (IsOpened s k) (some_inj (sym r ∙ h)) (found-IsOpened s k t e)
  | inr (inl (conn, e, b, c, r)) ↦
      subst (IsOpened s k) (some_inj (sym r ∙ h)) (opened-IsOpened s k conn now e)
  | inr (inr (e, r)) ↦ absurd (cc (r, h))
]
