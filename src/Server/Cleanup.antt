-- ===== src/Server/Cleanup.antt =====
-- The ends of connections and sessions in fproxy-rs/src/server.rs.
use fproxy.Base.{
  ℕ, ◌-◌, Bool, true, not, List, [], ◌∷◌, map, none, some, ltb, ◌==◌, if◌then◌else◌, retain, nat_eq,
}
use fproxy.Base.HashMap.{HashMap, get, insert, remove}
use fproxy.Server.State.{ClientPath, udp, tcp, TargetSession, Server, Output, cancel_session}

abbrev pub other_conn : ℕ → ClientPath → Bool
other_conn conn_id (udp addr socket) = true
other_conn conn_id (tcp c w) = not (c == conn_id)

unfoldable pub drop_conn_paths : Server → ℕ → ℕ → Server
drop_conn_paths s conn_id session_id = elim (get s.client_paths session_id) [
  | none ↦ s
  | some paths ↦ record s {
    client_paths = insert s.client_paths session_id (retain (other_conn conn_id) paths);
  }
]

unfoldable pub cleanup_tcp_conn : Server → ℕ → Server
cleanup_tcp_conn s conn_id =
    let s' = record s { tcp_conn_to_session = remove s.tcp_conn_to_session conn_id } in
    elim (get s.tcp_conn_to_session conn_id) [
      | none ↦ s'
      | some session_id ↦ drop_conn_paths s' conn_id session_id
    ]

-- `now.duration_since(last_activity) > timeout`; the difference stops at 0.
abbrev pub is_expired : ℕ → ℕ → TargetSession → Bool
is_expired timeout now t = ltb timeout (now - t.last_activity)

-- The ids of the sessions that have timed out.
unfoldable pub expired_ids : ℕ → ℕ → HashMap ℕ TargetSession → List ℕ
expired_ids timeout now [] = []
expired_ids timeout now ((session_id, t) ∷ sessions) =
    if is_expired timeout now t
    then session_id ∷ expired_ids timeout now sessions
    else expired_ids timeout now sessions

unfoldable pub remove_session : Server → ℕ → Server
remove_session s session_id = record s {
  sessions = remove s.sessions session_id;
  client_paths = remove s.client_paths session_id;
}

unfoldable pub remove_sessions : Server → List ℕ → Server
remove_sessions s [] = s
remove_sessions s (session_id ∷ ids) = remove_sessions (remove_session s session_id) ids

unfoldable pub cleanup_expired_sessions : Server → ℕ → Server × List Output
cleanup_expired_sessions s now =
    let ids = expired_ids s.cfg.session_timeout now s.sessions in
    (remove_sessions s ids, map cancel_session ids)
