-- ===== src/Server/Idle.antt =====
-- Idle sessions end: the ticking clean-up of fproxy-rs/src/server.rs, after events of other sessions.
use fproxy.Base.{
  ℕ, ◌+◌, ◌≤◌, ◌<◌, ◌≡◌, refl, ◌∙◌, ap, ◌⊎◌, true, false, List, [], ◌∷◌, ◌++◌, arith, ◌==◌, Option,
  none, some, Bytes, Result, ok, err, All, inl, inr, Bool-cases, Option-cases, Result-cases, nat_eq,
}
use fproxy.Base.HashMap.{get, get-insert}
use fproxy.Config.{ServerConfig}
use fproxy.Protocol.{ProtocolError, Decoded, decode_udp, decode_tcp}
use fproxy.Server.Window.{is_duplicate}
use fproxy.Server.State.{Server, TargetSession, new, put_session}
use fproxy.Server.Packets.{
  Net, get_or_create_session, check_duplicate, receive, handle_udp_packet, handle_tcp_packet,
  add_udp_path, add_tcp_path,
}
use fproxy.Server.Responses.{send_response_to_all_paths}
use fproxy.Server.Cleanup.{
  is_expired, expired_ids, cleanup_tcp_conn, drop_conn_paths, cleanup_expired_sessions,
}
use fproxy.Server.Events.{
  Event, udp_packet, tcp_packet, target_response, conn_closed, tick, step, run,
}
use fproxy.Server.Sessions.{IsOpened, get_or_create_session-IsOpened}
use fproxy.Server.Receive.{AddsPath}
use fproxy.Server.Consistent.{IsConsistent}
use fproxy.Server.Invariant.{step-IsConsistent, run-IsConsistent}
use fproxy.Server.Expiry.{unless_expired, cleanup_expired_sessions_lem, remove_sessions-cfg}

-- The packet does not decode to one of session `k`.
abbrev pub NotFor : ℕ → Result ProtocolError Decoded → Type 0
NotFor k (err e) = Unit
NotFor k (ok d) = (d.0 == k) ≡ false

-- The event is no activity of session `k`.
abbrev pub IsIdle : ℕ → Event → Type 0
IsIdle k (udp_packet net now listener client_addr bytes) = NotFor k (decode_udp bytes)
IsIdle k (tcp_packet net now conn_id writer bytes) = NotFor k (decode_tcp bytes)
IsIdle k (target_response now session_id payload) = (session_id == k) ≡ false
IsIdle k (conn_closed conn_id) = Unit
IsIdle k (tick now) = Unit

-- The session `k` is as it was or has ended, under the same configuration.
record Spares (k : ℕ) (s s' : Server) : Type 0 where
  session : (get s'.sessions k ≡ get s.sessions k) ⊎ (get s'.sessions k ≡ none)
  cfg : s'.cfg ≡ s.cfg

unchanged : (k : ℕ) (s s' : Server) → s'.sessions ≡ s.sessions → s'.cfg ≡ s.cfg → Spares k s s'
unchanged k s s' e c = record { session = inl (ap (λ m. get m k) e); cfg = c }

receive-Spares :
    (s : Server) (net : Net) (now : ℕ) (d : Decoded) (add_path : Server → ℕ → Server) (k : ℕ)
    → AddsPath add_path
    → (d.0 == k) ≡ false
    → Spares k s (receive s net now d add_path).0
unfolding receive check_duplicate
receive-Spares s net now (j, seq, payload) add_path k keep other =
    elim (Option-cases (get_or_create_session s net now j)) [
      | inl e ↦ rw (e, receive) (unchanged k s s refl refl)
      | inr (o, e) ↦
          let p : IsOpened s j o = get_or_create_session-IsOpened s net now j o e in
          let (w, duplicate) = is_duplicate o.session.dedup_window seq in
          let t : TargetSession = record o.session { last_activity = now; dedup_window = w } in
          let s' : Server = put_session o.server j t in
          let there : get s'.sessions k ≡ get s.sessions k =
            get-insert o.server.sessions j k t ∙ rw other (p.others k other) in
          elim (Bool-cases duplicate) [
            | inl old ↦ rw (e, receive, old) record { session = inl there; cfg = p.cfg }
            | inr fresh ↦
                rw (e, receive, fresh)
                  record {
                    session = inl (ap (λ m. get m k) (keep s' j).0 ∙ there);
                    cfg = (keep s' j).1 ∙ p.cfg;
                  }
          ]
    ]

udp_packet-Spares :
    (s : Server) (net : Net) (now listener client_addr : ℕ) (bytes : Bytes) (k : ℕ)
    → NotFor k (decode_udp bytes)
    → Spares k s (handle_udp_packet s net now listener client_addr bytes).0
unfolding handle_udp_packet add_udp_path
udp_packet-Spares s net now listener client_addr bytes k idle =
    elim (Result-cases (decode_udp bytes)) [
      | inr (e, r) ↦ rw (r, handle_udp_packet) (unchanged k s s refl refl)
      | inl (d, r) ↦
          rw (r, handle_udp_packet)
            (receive-Spares s net now d _ k (λ s' j. (refl, refl)) (rw r at idle))
    ]

tcp_packet-Spares :
    (s : Server) (net : Net) (now conn_id writer : ℕ) (bytes : Bytes) (k : ℕ)
    → NotFor k (decode_tcp bytes)
    → Spares k s (handle_tcp_packet s net now conn_id writer bytes).0
unfolding handle_tcp_packet add_tcp_path
tcp_packet-Spares s net now conn_id writer bytes k idle = elim (Result-cases (decode_tcp bytes)) [
  | inr (e, r) ↦ rw (r, handle_tcp_packet) (unchanged k s s refl refl)
  | inl (d, r) ↦
      rw (r, handle_tcp_packet)
        (receive-Spares s net now d _ k (λ s' j. (refl, refl)) (rw r at idle))
]

response-Spares :
    (s : Server) (now j : ℕ) (payload : Bytes) (k : ℕ)
    → (j == k) ≡ false
    → Spares k s (send_response_to_all_paths s now j payload).0
unfolding send_response_to_all_paths
response-Spares s now j payload k other = elim (Option-cases (get s.sessions j)) [
  | inl e ↦ rw (e, send_response_to_all_paths) (unchanged k s s refl refl)
  | inr (t, e) ↦
      rw (e, send_response_to_all_paths)
        record { session = inl (get-insert s.sessions j k _ ∙ rw other refl); cfg = refl }
]

closed-Spares : (s : Server) (conn_id k : ℕ) → Spares k s (cleanup_tcp_conn s conn_id)
unfolding cleanup_tcp_conn drop_conn_paths
closed-Spares s conn_id k = elim (Option-cases (get s.tcp_conn_to_session conn_id)) [
  | inl e ↦ rw (e, cleanup_tcp_conn) (unchanged k s _ refl refl)
  | inr (j, e) ↦ elim (Option-cases (get s.client_paths j)) [
    | inl n ↦ rw (e, cleanup_tcp_conn, n, drop_conn_paths) (unchanged k s _ refl refl)
    | inr (ps, n) ↦ rw (e, cleanup_tcp_conn, n, drop_conn_paths) (unchanged k s _ refl refl)
  ]
]

cleanup-cfg : (s : Server) (now : ℕ) → (cleanup_expired_sessions s now).0.cfg ≡ s.cfg
unfolding cleanup_expired_sessions
cleanup-cfg s now = remove_sessions-cfg s (expired_ids s.cfg.session_timeout now s.sessions)

unless_expired_cases :
    (timeout now : ℕ) (o : Option TargetSession)
    → (unless_expired timeout now o ≡ o) ⊎ (unless_expired timeout now o ≡ none)
unless_expired_cases timeout now none = inl refl
unless_expired_cases timeout now (some t) = elim (Bool-cases (is_expired timeout now t)) [
  | inl old ↦ inr (rw old refl)
  | inr live ↦ inl (rw live refl)
]

tick-Spares :
    (s : Server) (now k : ℕ) → IsConsistent s → Spares k s (cleanup_expired_sessions s now).0
tick-Spares s now k v =
    let left = (cleanup_expired_sessions_lem s now k v).0 in
    record {
      session = elim (unless_expired_cases s.cfg.session_timeout now (get s.sessions k)) [
        | inl same ↦ inl (left ∙ same)
        | inr gone ↦ inr (left ∙ gone)
      ];
      cfg = cleanup-cfg s now;
    }

step-Spares :
    (s : Server) (e : Event) (k : ℕ) → IsConsistent s → IsIdle k e → Spares k s (step s e).0
unfolding step
step-Spares s (udp_packet net now listener client_addr bytes) k v idle =
    udp_packet-Spares s net now listener client_addr bytes k idle
step-Spares s (tcp_packet net now conn_id writer bytes) k v idle =
    tcp_packet-Spares s net now conn_id writer bytes k idle
step-Spares s (target_response now j payload) k v idle = response-Spares s now j payload k idle
step-Spares s (conn_closed conn_id) k v idle = closed-Spares s conn_id k
step-Spares s (tick now) k v idle = tick-Spares s now k v

-- Gone, or idle since `last`.
abbrev SilentSince : ℕ → Option TargetSession → Type 0
SilentSince last none = Unit
SilentSince last (some t) = t.last_activity ≤ last

tick_ends :
    (s : Server) (now last k : ℕ)
    → IsConsistent s
    → SilentSince last (get s.sessions k)
    → last + s.cfg.session_timeout < now
    → let s' = (cleanup_expired_sessions s now).0 in
      (get s'.sessions k ≡ none) × (get s'.client_paths k ≡ none)
tick_ends s now last k v silent late =
    let (sessions, paths) = cleanup_expired_sessions_lem s now k v in
    elim (Option-cases (get s.sessions k)) [
      | inl e ↦ (sessions ∙ rw e refl, paths ∙ rw e refl)
      | inr (t, e) ↦
          let quiet : t.last_activity ≤ last = rw e at silent in
          let old : is_expired s.cfg.session_timeout now t ≡ true = ground arith in
          (sessions ∙ rw (e, old) refl, paths ∙ rw (e, old) refl)
    ]

run-tick_ends :
    (s : Server) (es : List Event) (now last k : ℕ)
    → IsConsistent s
    → All (IsIdle k) es
    → SilentSince last (get s.sessions k)
    → last + s.cfg.session_timeout < now
    → let s' = (run s (es ++ tick now ∷ [])).0 in
      (get s'.sessions k ≡ none) × (get s'.client_paths k ≡ none)
unfolding run step
run-tick_ends s [] now last k v idle silent late = tick_ends s now last k v silent late
run-tick_ends s (e ∷ es) now last k v idle silent late =
    let h : Spares k s (step s e).0 = step-Spares s e k v idle.0 in
    let silent' : SilentSince last (get (step s e).0.sessions k) = elim h.session [
      | inl same ↦ rw same silent
      | inr gone ↦ rw gone tt
    ] in
    run-tick_ends (step s e).0 es now last k (step-IsConsistent s e v) idle.1 silent'
      (rw h.cfg late)

-- After any history, when a session has been idle since its last activity, and the events that
-- follow bring no packet and no response of it, then the first clean-up later than the timeout after
-- that activity leaves neither the session nor a path of it.
pub idle_session_ends :
    (cfg : ServerConfig) (history es : List Event) (now k : ℕ) (t : TargetSession)
    → let s = (run (new cfg) history).0 in
      get s.sessions k ≡ some t
      → All (IsIdle k) es
      → t.last_activity + s.cfg.session_timeout < now
      → let s' = (run s (es ++ tick now ∷ [])).0 in
        (get s'.sessions k ≡ none) × (get s'.client_paths k ≡ none)
idle_session_ends cfg history es now k t e idle late =
    let s = (run (new cfg) history).0 in
    run-tick_ends s es now t.last_activity k (run-IsConsistent cfg history) idle
      (rw e (omega arith)) late
