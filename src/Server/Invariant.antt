-- ===== src/Server/Invariant.antt =====
-- The invariant of `Server`, which every event keeps.
use fproxy.Base.{
  ℕ, ◌≡◌, refl, List, [], ◌∷◌, arith, some, Bytes, Result, ok, err, inl, inr, Bool-cases,
  Option-cases, nat_eq, ◌∙◌, sym, some_inj,
}
use fproxy.Base.HashMap.{get, remove, get-insert}
use fproxy.Config.{ServerConfig}
use fproxy.Protocol.{Decoded, ProtocolError, decode_udp, decode_tcp}
use fproxy.Server.State.{Server, TargetSession, Output, put_session, new}
use fproxy.Server.Window.{is_duplicate}
use fproxy.Server.Packets.{
  Net, Opened, found, opened, new_session, get_or_create_session, check_duplicate, receive,
  handle_udp_packet, handle_tcp_packet,
}
use fproxy.Server.Responses.{send_response_to_all_paths}
use fproxy.Server.Cleanup.{
  drop_conn_paths, cleanup_tcp_conn, remove_session, remove_sessions, cleanup_expired_sessions,
}
use fproxy.Server.Events.{
  Event, udp_packet, tcp_packet, target_response, conn_closed, tick, step, run,
}
use fproxy.Server.Sessions.{get_or_create_session_cases}
use fproxy.Server.Paths.{retain-IsPaths}
use fproxy.Server.Consistent.{
  HasSession, IsConsistent, new-IsConsistent, put_session-IsConsistent, put_paths-IsConsistent,
  remove_session-IsConsistent, add_udp_path-IsConsistent, same_maps, add_tcp_path-IsConsistent,
}

opened-IsConsistent :
    (s : Server) (net : Net) (now k : ℕ) (o : Opened)
    → get_or_create_session s net now k ≡ some o
    → IsConsistent s
    → IsConsistent o.server
opened-IsConsistent s net now k o e v = elim (get_or_create_session_cases s net now k) [
  | inl (t, _, r) ↦ let q : found s t ≡ o = some_inj (sym r ∙ e) in rw (← q) v
  | inr (inl (conn, _, _, _, r)) ↦
      let q : opened s k conn (new_session s conn now) ≡ o = some_inj (sym r ∙ e) in
      rw (← q) (put_session-IsConsistent s k _ v)
  | inr (inr (_, r)) ↦ absurd (cc (r, e))
]

receive-IsConsistent :
    (s : Server) (net : Net) (now : ℕ) (d : Decoded) (add_path : Server → ℕ → Server)
    → ((t : Server) (k : ℕ) → IsConsistent t → HasSession t k → IsConsistent (add_path t k))
    → IsConsistent s
    → IsConsistent (receive s net now d add_path).0
unfolding receive check_duplicate
receive-IsConsistent s net now (k, seq, payload) add_path keep v =
    elim (Option-cases (get_or_create_session s net now k)) [
      | inl e ↦ rw (e, receive) v
      | inr (o, e) ↦
          let v' : IsConsistent o.server = opened-IsConsistent s net now k o e v in
          let (w, duplicate) = is_duplicate o.session.dedup_window seq in
          let t : TargetSession = record o.session { last_activity = now; dedup_window = w } in
          let v'' : IsConsistent (put_session o.server k t) =
            put_session-IsConsistent o.server k t v' in
          let there : HasSession (put_session o.server k t) k =
            λ gone. ground (arith, get-insert o.server.sessions k k t, gone) in
          elim (Bool-cases (is_duplicate o.session.dedup_window seq).1) [
            | inl d ↦ rw (e, receive, d) v''
            | inr d ↦ rw (e, receive, d) (keep (put_session o.server k t) k v'' there)
          ]
    ]

packet-IsConsistent :
    (s : Server) (net : Net) (now : ℕ) (r : Result ProtocolError Decoded)
    (add_path : Server → ℕ → Server)
    → ((t : Server) (k : ℕ) → IsConsistent t → HasSession t k → IsConsistent (add_path t k))
    → IsConsistent s
    → IsConsistent
        (elim r as (λ x. Server × List Output) [
          | err e ↦ (s, [])
          | ok d ↦ receive s net now d add_path
        ]).0
packet-IsConsistent s net now (err e) add_path keep v = v
packet-IsConsistent s net now (ok d) add_path keep v =
    receive-IsConsistent s net now d add_path keep v

response-IsConsistent :
    (s : Server) (now k : ℕ) (payload : Bytes)
    → IsConsistent s
    → IsConsistent (send_response_to_all_paths s now k payload).0
unfolding send_response_to_all_paths
response-IsConsistent s now k payload v = elim (Option-cases (get s.sessions k)) [
  | inl e ↦ rw (e, send_response_to_all_paths) v
  | inr (t, e) ↦ rw (e, send_response_to_all_paths) (put_session-IsConsistent s k _ v)
]

drop_conn_paths-IsConsistent :
    (s : Server) (conn_id k : ℕ) → IsConsistent s → IsConsistent (drop_conn_paths s conn_id k)
unfolding drop_conn_paths
drop_conn_paths-IsConsistent s conn_id k v = elim (Option-cases (get s.client_paths k)) [
  | inl e ↦ rw (e, drop_conn_paths) v
  | inr (ps, e) ↦
      rw (e, drop_conn_paths)
        (put_paths-IsConsistent s k _ v (v.owned k ps e)
          (retain-IsPaths ps conn_id (v.paths k ps e)))
]

cleanup_tcp_conn-IsConsistent :
    (s : Server) (conn_id : ℕ) → IsConsistent s → IsConsistent (cleanup_tcp_conn s conn_id)
unfolding cleanup_tcp_conn
cleanup_tcp_conn-IsConsistent s conn_id v =
    let s' : Server = record s { tcp_conn_to_session = remove s.tcp_conn_to_session conn_id } in
    let v' : IsConsistent s' = same_maps s s' refl refl v in
    elim (Option-cases (get s.tcp_conn_to_session conn_id)) [
      | inl e ↦ rw (e, cleanup_tcp_conn) v'
      | inr (k, e) ↦ rw (e, cleanup_tcp_conn) (drop_conn_paths-IsConsistent s' conn_id k v')
    ]

remove_sessions-IsConsistent :
    (s : Server) (ids : List ℕ) → IsConsistent s → IsConsistent (remove_sessions s ids)
unfolding remove_sessions
remove_sessions-IsConsistent s [] v = v
remove_sessions-IsConsistent s (k ∷ ids) v =
    remove_sessions-IsConsistent (remove_session s k) ids (remove_session-IsConsistent s k v)

-- Every event keeps the sessions' ids distinct, the paths one for each socket and connection, and
-- the paths of ended sessions away.
pub step-IsConsistent : (s : Server) (e : Event) → IsConsistent s → IsConsistent (step s e).0
unfolding step handle_udp_packet handle_tcp_packet cleanup_expired_sessions
step-IsConsistent s (udp_packet net now listener client_addr bytes) v =
    packet-IsConsistent s net now (decode_udp bytes) _
      (add_udp_path-IsConsistent client_addr listener) v
step-IsConsistent s (tcp_packet net now conn_id writer bytes) v =
    packet-IsConsistent s net now (decode_tcp bytes) _ (add_tcp_path-IsConsistent conn_id writer) v
step-IsConsistent s (target_response now session_id payload) v =
    response-IsConsistent s now session_id payload v
step-IsConsistent s (conn_closed conn_id) v = cleanup_tcp_conn-IsConsistent s conn_id v
step-IsConsistent s (tick now) v = remove_sessions-IsConsistent s _ v

run_from-IsConsistent : (s : Server) (es : List Event) → IsConsistent s → IsConsistent (run s es).0
unfolding run
run_from-IsConsistent s [] v = v
run_from-IsConsistent s (e ∷ es) v = run_from-IsConsistent (step s e).0 es (step-IsConsistent s e v)

-- When each event is handled in one step, no session id is listed twice, only sessions that are there
-- have client paths, and the paths of a session are one for each socket and one for each connection.
-- Between the sections of Server/Tasks a clean-up can come, and then paths may outlast their session.
pub run-IsConsistent : (cfg : ServerConfig) (es : List Event) → IsConsistent (run (new cfg) es).0
run-IsConsistent cfg es = run_from-IsConsistent (new cfg) es (new-IsConsistent cfg)
