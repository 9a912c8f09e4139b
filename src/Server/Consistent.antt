-- ===== src/Server/Consistent.antt =====
-- The invariant of `Server` in fproxy-rs/src/server.rs, and what changes of its maps keep it.
use fproxy.Base.{
  ℕ, ◌≡◌, refl, ◌≢◌, List, [], ◌∷◌, ◌++◌, arith, ◌==◌, none, some, inl, inr, Bool-cases,
  Option-cases, nat_eq, subst, if◌then◌else◌, unwrap_or,
}
use fproxy.Base.HashMap.{get, insert, get-insert, get-remove, IsMap, insert-IsMap, remove-IsMap}
use fproxy.Config.{ServerConfig}
use fproxy.Server.State.{Server, TargetSession, ClientPath, tcp, put_session, new}
use fproxy.Server.Packets.{add_udp_path, add_tcp_path, has_tcp_path}
use fproxy.Server.Cleanup.{remove_session}
use fproxy.Server.Paths.{udp_sockets, tcp_conns, IsPaths, update-IsPaths, snoc-IsPaths}

abbrev pub HasSession : Server → ℕ → Type 0
HasSession s k = get s.sessions k ≢ none

-- The sessions have each an id of their own, and only they have client paths, each path once.
pub record IsConsistent (s : Server) : Type 0 where
  pub sessions_map : IsMap s.sessions
  pub paths : (k : ℕ) (ps : List ClientPath) → get s.client_paths k ≡ some ps → IsPaths ps
  pub owned : (k : ℕ) (ps : List ClientPath) → get s.client_paths k ≡ some ps → HasSession s k

pub new-IsConsistent : (cfg : ServerConfig) → IsConsistent (new cfg)
unfolding new get
new-IsConsistent cfg = record {
  sessions_map = tt;
  paths = λ k ps e. absurd (cc e);
  owned = λ k ps e. absurd (cc e);
}

pub put_session-IsConsistent :
    (s : Server) (k : ℕ) (t : TargetSession) → IsConsistent s → IsConsistent (put_session s k t)
put_session-IsConsistent s k t v = record {
  sessions_map = insert-IsMap s.sessions k t v.sessions_map;
  paths = v.paths;
  owned = λ j ps e none_left. v.owned j ps e (ground (arith, get-insert s.sessions k j t));
}

-- A session's paths may be replaced by others that are one for each socket and connection.
pub put_paths-IsConsistent :
    (s : Server) (k : ℕ) (ps : List ClientPath)
    → IsConsistent s
    → HasSession s k
    → IsPaths ps
    → IsConsistent (record s { client_paths = insert s.client_paths k ps })
put_paths-IsConsistent s k ps v there h = record {
  sessions_map = v.sessions_map;
  paths = λ j qs e. elim (Bool-cases (k == j)) [
    | inl same ↦
        let q : ps ≡ qs = ground (arith, get-insert s.client_paths k j ps) in subst IsPaths q h
    | inr other ↦ v.paths j qs (ground (arith, get-insert s.client_paths k j ps))
  ];
  owned = λ j qs e. elim (Bool-cases (k == j)) [
    | inl same ↦ let q : k ≡ j = ground arith in subst (HasSession s) q there
    | inr other ↦ v.owned j qs (ground (arith, get-insert s.client_paths k j ps))
  ];
}

pub remove_session-IsConsistent :
    (s : Server) (k : ℕ) → IsConsistent s → IsConsistent (remove_session s k)
unfolding remove_session
remove_session-IsConsistent s k v = record {
  sessions_map = remove-IsMap s.sessions k v.sessions_map;
  paths = λ j ps e. v.paths j ps (ground (arith, get-remove s.client_paths k j));
  owned = λ j ps e gone.
      v.owned j ps (ground (arith, get-remove s.client_paths k j))
        (ground (arith, get-remove s.client_paths k j, get-remove s.sessions k j));
}

pub nil-IsPaths : IsPaths []
unfolding udp_sockets tcp_conns
nil-IsPaths = record { sockets = tt; conns = tt }

session_paths-IsPaths :
    (s : Server) (k : ℕ) → IsConsistent s → IsPaths (unwrap_or (get s.client_paths k) [])
session_paths-IsPaths s k v = elim (Option-cases (get s.client_paths k)) [
  | inl e ↦ rw e nil-IsPaths
  | inr (ps, e) ↦ rw e (v.paths k ps e)
]

pub add_udp_path-IsConsistent :
    (client_addr socket : ℕ) (s : Server) (k : ℕ)
    → IsConsistent s
    → HasSession s k
    → IsConsistent (add_udp_path s k client_addr socket)
unfolding add_udp_path
add_udp_path-IsConsistent client_addr socket s k v there =
    put_paths-IsConsistent s k _ v there
      (update-IsPaths _ client_addr socket (session_paths-IsPaths s k v))

pub pushed-IsPaths :
    (ps : List ClientPath) (conn_id writer : ℕ)
    → IsPaths ps
    → IsPaths (if has_tcp_path ps conn_id writer then ps else ps ++ tcp conn_id writer ∷ [])
pushed-IsPaths ps conn_id writer h = elim (Bool-cases (has_tcp_path ps conn_id writer)) [
  | inl e ↦ rw e h
  | inr e ↦ rw e (snoc-IsPaths ps conn_id writer e h)
]

-- The map from connections to sessions plays no part.
pub same_maps :
    (s t : Server)
    → s.sessions ≡ t.sessions
    → s.client_paths ≡ t.client_paths
    → IsConsistent s
    → IsConsistent t
same_maps s t e p v = record {
  sessions_map = rw (← e) v.sessions_map;
  paths = λ k ps g. v.paths k ps (rw p g);
  owned = λ k ps g gone. v.owned k ps (rw p g) (rw e gone);
}

pub add_tcp_path-IsConsistent :
    (conn_id writer : ℕ) (s : Server) (k : ℕ)
    → IsConsistent s
    → HasSession s k
    → IsConsistent (add_tcp_path s k conn_id writer)
unfolding add_tcp_path
add_tcp_path-IsConsistent conn_id writer s k v there =
    put_paths-IsConsistent
      (record s { tcp_conn_to_session = insert s.tcp_conn_to_session conn_id k }) k _
      (same_maps s _ refl refl v) there
      (pushed-IsPaths _ conn_id writer (session_paths-IsPaths s k v))
