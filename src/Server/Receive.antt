-- ===== src/Server/Receive.antt =====
-- What `receive` knows and learns; both packet handlers of fproxy-rs/src/server.rs go through it.
use fproxy.Base.{
  ℕ, ◌≡◌, ◌≢◌, true, false, [], ◌∷◌, none, some, inl, inr, Bool-cases, Option-cases, nat_eq, ◌∙◌,
  sym, ap,
}
use fproxy.Base.HashMap.{get}
use fproxy.Protocol.{Decoded}
use fproxy.Server.Window.{is_duplicate}
use fproxy.Server.Window.Invariant.{IsSeq}
use fproxy.Server.Window.Once.{is_duplicate-rejects}
use fproxy.Server.State.{Server, TargetSession, to_target}
use fproxy.Server.Packets.{Net, get_or_create_session, check_duplicate, receive}
use fproxy.Server.Sessions.{
  IsSound, IsOpened, get_or_create_session_cases, get_or_create_session-IsOpened,
}
use fproxy.Server.Windows.{
  knows, Keeps, Keeps-refl, same_sessions, check_duplicate-Keeps, knows-some, session_knows,
}

pub not_known : (s : Server) (k seq : ℕ) → get s.sessions k ≡ none → knows s k seq ≡ true → ⊥
unfolding knows
not_known s k seq e h = cc (ap (λ x. session_knows x seq) e, h)

not_opened :
    (s : Server) (net : Net) (now k : ℕ)
    → get_or_create_session s net now k ≡ none
    → get s.sessions k ≡ none
not_opened s net now k h = elim (get_or_create_session_cases s net now k) [
  | inl (t, e, r) ↦ absurd (cc (r, h))
  | inr (inl (conn, e, b, c, r)) ↦ absurd (cc (r, h))
  | inr (inr (e, r)) ↦ e
]

abbrev pub AddsPath : (Server → ℕ → Server) → Type 0
AddsPath add_path =
    (s : Server) (k : ℕ) → ((add_path s k).sessions ≡ s.sessions) × ((add_path s k).cfg ≡ s.cfg)

pub receive-Keeps :
    (s : Server) (net : Net) (now : ℕ) (d : Decoded) (add_path : Server → ℕ → Server)
    → AddsPath add_path
    → IsSound s
    → IsSeq d.1
    → Keeps s (receive s net now d add_path).0
unfolding receive
receive-Keeps s net now (k, seq, payload) add_path keep v h =
    elim (Option-cases (get_or_create_session s net now k)) [
      | inl e ↦ rw (e, receive) (Keeps-refl s v)
      | inr (o, e) ↦
          let p : IsOpened s k o = get_or_create_session-IsOpened s net now k o e in
          let s' : Server = (check_duplicate o.server k o.session now seq).0 in
          let h' : Keeps s s' = (check_duplicate-Keeps s k now seq o v p h).0 in
          elim (Bool-cases (check_duplicate o.server k o.session now seq).1) [
            | inl d ↦ rw (e, receive, d) h'
            | inr d ↦
                rw (e, receive, d)
                  (same_sessions s s' (add_path s' k) (sym (keep s' k).0) (sym (keep s' k).1) h')
          ]
    ]

-- A number that the session knows is answered with nothing.
pub receive_known :
    (s : Server) (net : Net) (now : ℕ) (d : Decoded) (add_path : Server → ℕ → Server)
    → knows s d.0 d.1 ≡ true
    → (receive s net now d add_path).1 ≡ []
unfolding receive check_duplicate
receive_known s net now (k, seq, payload) add_path h =
    elim (get_or_create_session_cases s net now k) [
      | inl (t, e, r) ↦
          let d : (is_duplicate t.dedup_window seq).1 ≡ true =
            is_duplicate-rejects t.dedup_window seq ∙ sym (knows-some s k seq t e) ∙ h in
          rw (r, receive, d)
      | inr (inl (conn, e, _, _, _)) ↦ absurd (not_known s k seq e h)
      | inr (inr (e, _)) ↦ absurd (not_known s k seq e h)
    ]

-- In a session that exists, a number that it does not know is forwarded to the session's target.
pub receive_new :
    (s : Server) (net : Net) (now : ℕ) (d : Decoded) (t : TargetSession)
    (add_path : Server → ℕ → Server)
    → get s.sessions d.0 ≡ some t
    → knows s d.0 d.1 ≡ false
    → (receive s net now d add_path).1 ≡ to_target t.target_conn d.2 ∷ []
unfolding receive check_duplicate get_or_create_session
receive_new s net now (k, seq, payload) t add_path e h =
    let d : (is_duplicate t.dedup_window seq).1 ≡ false =
      is_duplicate-rejects t.dedup_window seq ∙ sym (knows-some s k seq t e) ∙ h in
    rw (e, receive, get_or_create_session, d)

-- What arrived in a session that is there afterwards is known to it.
pub receive_learns :
    (s : Server) (net : Net) (now : ℕ) (d : Decoded) (add_path : Server → ℕ → Server)
    → AddsPath add_path
    → IsSound s
    → IsSeq d.1
    → get (receive s net now d add_path).0.sessions d.0 ≢ none
    → knows (receive s net now d add_path).0 d.0 d.1 ≡ true
unfolding receive
receive_learns s net now (k, seq, payload) add_path keep v h there =
    elim (Option-cases (get_or_create_session s net now k)) [
      | inl e ↦ absurd (there (rw (e, receive) (not_opened s net now k e)))
      | inr (o, e) ↦
          let p : IsOpened s k o = get_or_create_session-IsOpened s net now k o e in
          let s' : Server = (check_duplicate o.server k o.session now seq).0 in
          let (kept, learned) = check_duplicate-Keeps s k now seq o v p h in
          let path : Keeps s' (add_path s' k) =
            same_sessions s' s' (add_path s' k) (sym (keep s' k).0) (sym (keep s' k).1)
              (Keeps-refl s' kept.sound) in
          elim (Bool-cases (check_duplicate o.server k o.session now seq).1) [
            | inl d ↦ rw (e, receive, d) learned
            | inr d ↦ rw (e, receive, d) (path.knows_on k seq learned)
          ]
    ]
