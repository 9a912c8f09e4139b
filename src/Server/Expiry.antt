-- ===== src/Server/Expiry.antt =====
-- What the clean-up of expired sessions in fproxy-rs/src/server.rs removes, and what it leaves.
use fproxy.Base.{
  ℕ, ◌≡◌, refl, false, List, [], ◌∷◌, arith, Option, none, some, All, inl, inr, Bool-cases,
  Option-cases, contains_key, IsByte, nat_eq, ◌∙◌, if◌then◌else◌,
}
use fproxy.Base.HashMap.{HashMap, get, get-remove, IsMap}
use fproxy.Config.{ServerConfig}
use fproxy.Server.State.{Server, TargetSession, new}
use fproxy.Server.Window.Invariant.{IsSize}
use fproxy.Server.Cleanup.{
  is_expired, expired_ids, remove_session, remove_sessions, cleanup_expired_sessions,
}
use fproxy.Server.Events.{
  Event, udp_packet, tcp_packet, target_response, conn_closed, tick, step, run,
}
use fproxy.Server.Consistent.{IsConsistent}
use fproxy.Server.Sessions.{IsSound}
use fproxy.Server.Once.{step-Keeps}

-- What is left of a session that was found.
abbrev pub unless_expired : ℕ → ℕ → Option TargetSession → Option TargetSession
unless_expired timeout now none = none
unless_expired timeout now (some t) = if is_expired timeout now t then none else some t

expired_ids-absent :
    (timeout now k : ℕ) (m : HashMap ℕ TargetSession)
    → get m k ≡ none
    → contains_key (expired_ids timeout now m) k ≡ false
unfolding get expired_ids contains_key
expired_ids-absent timeout now k [] e = refl
expired_ids-absent timeout now k ((j, t) ∷ m) e = ground (arith, expired_ids-absent timeout now k m)

expired_ids-present :
    (timeout now k : ℕ) (m : HashMap ℕ TargetSession) (t : TargetSession)
    → IsMap m
    → get m k ≡ some t
    → contains_key (expired_ids timeout now m) k ≡ is_expired timeout now t
unfolding get expired_ids contains_key
expired_ids-present timeout now k [] t h e = absurd (cc e)
expired_ids-present timeout now k ((j, u) ∷ m) t h e =
    ground
      (arith, expired_ids-present timeout now k m t h.1, expired_ids-absent timeout now j m h.0)

get-remove_sessions :
    (s : Server) (ids : List ℕ) (k : ℕ)
    → (get (remove_sessions s ids).sessions k
        ≡ (if contains_key ids k then none else get s.sessions k))
      × (get (remove_sessions s ids).client_paths k
          ≡ (if contains_key ids k then none else get s.client_paths k))
unfolding remove_sessions remove_session contains_key
get-remove_sessions s [] k = (refl, refl)
get-remove_sessions s (j ∷ ids) k =
    let ih = get-remove_sessions (remove_session s j) ids k in
    ground (arith, ih, get-remove s.sessions j k, get-remove s.client_paths j k)

-- A session's paths go with it.
abbrev pub paths_of {ℓ} : {A : Type ℓ} → Option TargetSession → Option A → Option A
paths_of none ps = none
paths_of (some t) ps = ps

pub no_paths :
    (s : Server) (k : ℕ) → IsConsistent s → get s.sessions k ≡ none → get s.client_paths k ≡ none
no_paths s k v e = elim (Option-cases (get s.client_paths k)) [
  | inl h ↦ h
  | inr (ps, h) ↦ absurd (v.owned k ps h e)
]

-- In a consistent server, a clean-up ends exactly the sessions that were idle for longer than the
-- timeout, with all of their paths; every other session and its paths stay as they were.
pub cleanup_expired_sessions_lem :
    (s : Server) (now k : ℕ)
    → IsConsistent s
    → let s' = (cleanup_expired_sessions s now).0 in
      let left = unless_expired s.cfg.session_timeout now (get s.sessions k) in
      (get s'.sessions k ≡ left) × (get s'.client_paths k ≡ paths_of left (get s.client_paths k))
unfolding cleanup_expired_sessions
cleanup_expired_sessions_lem s now k v =
    let timeout = s.cfg.session_timeout in
    let (gs, gp) = get-remove_sessions s (expired_ids timeout now s.sessions) k in
    elim (Option-cases (get s.sessions k)) [
      | inl e ↦
          let a = expired_ids-absent timeout now k s.sessions e in
          (gs ∙ rw (a, e), gp ∙ rw (a, e) (no_paths s k v e))
      | inr (t, e) ↦
          let a = expired_ids-present timeout now k s.sessions t v.sessions_map e in
          elim (Bool-cases (is_expired timeout now t)) [
            | inl old ↦ (gs ∙ ground (arith, a, e), gp ∙ ground (arith, a, e))
            | inr live ↦ (gs ∙ ground (arith, a, e), gp ∙ ground (arith, a, e))
          ]
    ]

pub remove_sessions-cfg : (s : Server) (ids : List ℕ) → (remove_sessions s ids).cfg ≡ s.cfg
unfolding remove_sessions remove_session
remove_sessions-cfg s [] = refl
remove_sessions-cfg s (k ∷ ids) = remove_sessions-cfg (remove_session s k) ids

cleanup-IsSound : (s : Server) (now : ℕ) → IsSound s → IsSound (cleanup_expired_sessions s now).0
unfolding cleanup_expired_sessions
cleanup-IsSound s now v =
    let ids = expired_ids s.cfg.session_timeout now s.sessions in
    record {
      sized = rw (remove_sessions-cfg s ids) v.sized;
      windows = λ k t e. v.windows k t (ground (arith, (get-remove_sessions s ids k).0));
    }

-- What arrives is bytes.
abbrev pub HasBytes : Event → Type 0
HasBytes (udp_packet net now listener client_addr bytes) = All IsByte bytes
HasBytes (tcp_packet net now conn_id writer bytes) = All IsByte bytes
HasBytes (target_response now session_id payload) = Unit
HasBytes (conn_closed conn_id) = Unit
HasBytes (tick now) = Unit

step-IsSound : (s : Server) (e : Event) → HasBytes e → IsSound s → IsSound (step s e).0
unfolding step
step-IsSound s (udp_packet net now listener client_addr bytes) h v =
    (step-Keeps s (udp_packet net now listener client_addr bytes) h v).sound
step-IsSound s (tcp_packet net now conn_id writer bytes) h v =
    (step-Keeps s (tcp_packet net now conn_id writer bytes) h v).sound
step-IsSound s (target_response now session_id payload) h v =
    (step-Keeps s (target_response now session_id payload) h v).sound
step-IsSound s (conn_closed conn_id) h v = (step-Keeps s (conn_closed conn_id) h v).sound
step-IsSound s (tick now) h v = cleanup-IsSound s now v

new-IsSound : (cfg : ServerConfig) → IsSize cfg.dedup_window → IsSound (new cfg)
unfolding new get
new-IsSound cfg h = record { sized = h; windows = λ k t e. absurd (cc e) }

run_from-IsSound :
    (s : Server) (es : List Event) → All HasBytes es → IsSound s → IsSound (run s es).0
unfolding run
run_from-IsSound s [] h v = v
run_from-IsSound s (e ∷ es) h v = run_from-IsSound (step s e).0 es h.1 (step-IsSound s e h.0 v)

-- With a window size from 1 to 2^32 - 1, the windows of all sessions are well formed after any
-- history in which what arrives is bytes.
pub run-IsSound :
    (cfg : ServerConfig) (es : List Event)
    → IsSize cfg.dedup_window
    → All HasBytes es
    → IsSound (run (new cfg) es).0
run-IsSound cfg es h b = run_from-IsSound (new cfg) es b (new-IsSound cfg h)
