-- ===== src/Server/Tasks/Paths.antt =====
-- The paths that the tasks of fproxy-rs/src/server.rs register, in every interleaving.
use fproxy.Base.{
  ℕ, ◌≡◌, refl, subst, ◌==◌, List, [], ◌∷◌, some, arith, inl, inr, Bool-cases, Option-cases, nat_eq,
  unwrap_or,
}
use fproxy.Base.HashMap.{
  HashMap, get, insert, remove, get-insert, get-remove, IsMap, insert-IsMap, remove-IsMap,
}
use fproxy.Config.{ServerConfig}
use fproxy.Server.State.{ClientPath, udp, tcp}
use fproxy.Server.Packets.{Net}
use fproxy.Server.Paths.{IsPaths, update-IsPaths}
use fproxy.Server.Consistent.{nil-IsPaths, pushed-IsPaths}
use fproxy.Server.Tasks.Defs.{
  Packet, Task, idle, looking, missed, holding, active, passed, mapped, registered, System, init,
  task_of, is_free, look, create, make, touch, ask_window, map_conn, add_path, register, send,
  advance, arrive, expired, remove_all, expire, clear, Action, arrives, advances, expires, clears,
  act, interleave,
}

-- No session id is listed twice, and each list of paths has one for each socket and connection.
pub record IsTidy (s : System) : Type 0 where
  pub sessions_map : IsMap s.sessions
  pub paths : (k : ℕ) (ps : List ClientPath) → get s.client_paths k ≡ some ps → IsPaths ps

-- What changes neither map.
same-IsTidy :
    (s t : System) → t.sessions ≡ s.sessions → t.client_paths ≡ s.client_paths → IsTidy s → IsTidy t
same-IsTidy s t e p v = record {
  sessions_map = rw e v.sessions_map;
  paths = λ k ps g. v.paths k ps (rw (← p) g);
}

added-IsTidy :
    (s t : System) (k h : ℕ)
    → t.sessions ≡ insert s.sessions k h
    → t.client_paths ≡ s.client_paths
    → IsTidy s
    → IsTidy t
added-IsTidy s t k h e p v = record {
  sessions_map = rw e (insert-IsMap s.sessions k h v.sessions_map);
  paths = λ j ps g. v.paths j ps (rw (← p) g);
}

look-IsTidy : (s : System) (i : ℕ) (p : Packet) → IsTidy s → IsTidy (look s i p)
unfolding look
look-IsTidy s i p v = elim (Bool-cases (is_free s.clearing)) [
  | inr locked ↦ rw (locked, look) v
  | inl free ↦ elim (Option-cases (get s.sessions p.session_id)) [
    | inl e ↦ rw (free, look, e) (same-IsTidy s _ refl refl v)
    | inr (h, e) ↦ rw (free, look, e) (same-IsTidy s _ refl refl v)
  ]
]

make-IsTidy :
    (s : System) (net : Net) (now i : ℕ) (p : Packet) → IsTidy s → IsTidy (make s net now i p)
unfolding make
make-IsTidy s net now i p v = elim (Option-cases net.bind) [
  | inl e ↦ rw (e, make) (same-IsTidy s _ refl refl v)
  | inr (conn, e) ↦ elim (Bool-cases net.connects) [
    | inl c ↦ rw (e, make, c) (added-IsTidy s _ p.session_id s.made refl refl v)
    | inr c ↦ rw (e, make, c) (same-IsTidy s _ refl refl v)
  ]
]

create-IsTidy :
    (s : System) (net : Net) (now i : ℕ) (p : Packet) → IsTidy s → IsTidy (create s net now i p)
unfolding create
create-IsTidy s net now i p v = elim (Bool-cases (is_free s.clearing)) [
  | inr locked ↦ rw (locked, create) v
  | inl free ↦ elim (Option-cases (get s.sessions p.session_id)) [
    | inl e ↦ rw (free, create, e) (make-IsTidy s net now i p v)
    | inr (h, e) ↦ rw (free, create, e) (same-IsTidy s _ refl refl v)
  ]
]

add_path-IsPaths : (p : ClientPath) (ps : List ClientPath) → IsPaths ps → IsPaths (add_path p ps)
add_path-IsPaths (udp addr socket) ps h = update-IsPaths ps addr socket h
add_path-IsPaths (tcp conn_id writer) ps h = pushed-IsPaths ps conn_id writer h

paths_of-IsPaths : (s : System) (k : ℕ) → IsTidy s → IsPaths (unwrap_or (get s.client_paths k) [])
paths_of-IsPaths s k v = elim (Option-cases (get s.client_paths k)) [
  | inl e ↦ rw e nil-IsPaths
  | inr (ps, e) ↦ rw e (v.paths k ps e)
]

register-IsTidy : (s : System) (i : ℕ) (p : Packet) (h : ℕ) → IsTidy s → IsTidy (register s i p h)
unfolding register
register-IsTidy s i p h v =
    let ps : List ClientPath = add_path p.path (unwrap_or (get s.client_paths p.session_id) []) in
    let tidy : IsPaths ps = add_path-IsPaths p.path _ (paths_of-IsPaths s p.session_id v) in
    record {
      sessions_map = v.sessions_map;
      paths = λ k qs g. elim (Bool-cases (p.session_id == k)) [
        | inl same ↦
            let q : ps ≡ qs = ground (arith, get-insert s.client_paths p.session_id k ps) in
            subst IsPaths q tidy
        | inr other ↦ v.paths k qs (ground (arith, get-insert s.client_paths p.session_id k ps))
      ];
    }

touch-IsTidy : (s : System) (now i : ℕ) (p : Packet) (h : ℕ) → IsTidy s → IsTidy (touch s now i p h)
unfolding touch
touch-IsTidy s now i p h v = elim (Option-cases (get s.objects h)) [
  | inl e ↦ rw (e, touch) v
  | inr (object, e) ↦ rw (e, touch) (same-IsTidy s _ refl refl v)
]

ask_window-IsTidy :
    (s : System) (i : ℕ) (p : Packet) (h : ℕ) → IsTidy s → IsTidy (ask_window s i p h)
unfolding ask_window
ask_window-IsTidy s i p h v = elim (Option-cases (get s.objects h)) [
  | inl e ↦ rw (e, ask_window) v
  | inr (object, e) ↦ rw (e, ask_window) (same-IsTidy s _ refl refl v)
]

map_conn-IsTidy : (s : System) (i : ℕ) (p : Packet) (h : ℕ) → IsTidy s → IsTidy (map_conn s i p h)
unfolding map_conn
map_conn-IsTidy s i p h v = by_path p.path
  where
    by_path : (path : ClientPath) → IsTidy (map_conn s i (record p { path = path }) h)
    by_path (udp addr socket) = same-IsTidy s _ refl refl v
    by_path (tcp conn_id writer) = same-IsTidy s _ refl refl v

advance-IsTidy :
    (s : System) (net : Net) (now i : ℕ) (t : Task) → IsTidy s → IsTidy (advance s net now i t)
unfolding advance send
advance-IsTidy s net now i idle v = v
advance-IsTidy s net now i (looking p) v = look-IsTidy s i p v
advance-IsTidy s net now i (missed p) v = create-IsTidy s net now i p v
advance-IsTidy s net now i (holding p h) v = touch-IsTidy s now i p h v
advance-IsTidy s net now i (active p h) v = ask_window-IsTidy s i p h v
advance-IsTidy s net now i (passed p h) v = map_conn-IsTidy s i p h v
advance-IsTidy s net now i (mapped p h) v = register-IsTidy s i p h v
advance-IsTidy s net now i (registered p h) v = same-IsTidy s _ refl refl v

arrive-IsTidy : (s : System) (i : ℕ) (p : Packet) (t : Task) → IsTidy s → IsTidy (arrive s i p t)
unfolding arrive
arrive-IsTidy s i p t v = elim t as (λ x. IsTidy (arrive s i p x)) [
  | idle ↦ same-IsTidy s _ refl refl v
  | looking q ↦ v
  | missed q ↦ v
  | holding q h ↦ v
  | active q h ↦ v
  | passed q h ↦ v
  | mapped q h ↦ v
  | registered q h ↦ v
]

remove_all-IsMap : (m : HashMap ℕ ℕ) (ids : List ℕ) → IsMap m → IsMap (remove_all m ids)
unfolding remove_all
remove_all-IsMap m [] h = h
remove_all-IsMap m (k ∷ ids) h = remove_all-IsMap (remove m k) ids (remove-IsMap m k h)

expire-IsTidy : (s : System) (now : ℕ) → IsTidy s → IsTidy (expire s now)
unfolding expire
expire-IsTidy s now v = elim (Bool-cases (is_free s.clearing)) [
  | inr locked ↦ rw (locked, expire) v
  | inl free ↦
      rw (free, expire)
        record {
          sessions_map = remove_all-IsMap s.sessions (expired s now s.sessions) v.sessions_map;
          paths = v.paths;
        }
]

clear-IsTidy : (s : System) (ids : List ℕ) → IsTidy s → IsTidy (clear s ids)
unfolding clear
clear-IsTidy s [] v = v
clear-IsTidy s (k ∷ ids) v = record {
  sessions_map = v.sessions_map;
  paths = λ j ps g. v.paths j ps (ground (arith, get-remove s.client_paths k j));
}

act-IsTidy : (s : System) (a : Action) → IsTidy s → IsTidy (act s a)
unfolding act
act-IsTidy s (arrives i p) v = arrive-IsTidy s i p (task_of s i) v
act-IsTidy s (advances net now i) v = advance-IsTidy s net now i (task_of s i) v
act-IsTidy s (expires now) v = expire-IsTidy s now v
act-IsTidy s clears v = clear-IsTidy s s.clearing v

from-IsTidy : (s : System) (actions : List Action) → IsTidy s → IsTidy (interleave s actions)
unfolding interleave
from-IsTidy s [] v = v
from-IsTidy s (a ∷ actions) v = from-IsTidy (act s a) actions (act-IsTidy s a v)

-- However the sections of the tasks that handle packets and of the clean-up interleave, no session
-- id is listed twice, and the paths registered under an id are at most one for each listening socket
-- and at most one for each connection. The paths may outlast their session.
pub interleave-IsTidy :
    (cfg : ServerConfig) (actions : List Action) → IsTidy (interleave (init cfg) actions)
unfolding init get
interleave-IsTidy cfg actions =
    from-IsTidy (init cfg) actions (record { sessions_map = tt; paths = λ k ps e. absurd (cc e) })
