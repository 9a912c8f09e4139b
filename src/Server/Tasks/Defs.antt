-- ===== src/Server/Tasks/Defs.antt =====
-- The tasks that handle packets in fproxy-rs/src/server.rs, section by section.
use fproxy.Base.{
  ℕ, ◌+◌, Bool, true, false, List, [], ◌∷◌, ◌++◌, Option, none, some, Bytes, if◌then◌else◌,
  unwrap_or, nat_eq,
}
use fproxy.Base.HashMap.{HashMap, get, insert, remove}
use fproxy.Config.{ServerConfig}
use fproxy.Server.Window.{is_duplicate}
use fproxy.Server.Window as Window
use fproxy.Server.State.{ClientPath, udp, tcp, TargetSession}
use fproxy.Server.Packets.{Net, update_udp_path, has_tcp_path}
use fproxy.Server.Cleanup.{is_expired}

-- A decoded packet and the path that it came by.
pub record Packet : Type 0 where
  pub session_id : ℕ
  pub seq : ℕ
  pub payload : Bytes
  pub path : ClientPath

-- Where a task stands: before the read of the map, after a read that found nothing, with a session
-- but before its activity time is set, before the window is asked, after the window has let the
-- packet through, with the connection in its map, and before the payload is sent.
pub data Task : Type 0 where
  idle : Task
  looking missed : Packet → Task
  holding active passed mapped registered : Packet → ℕ → Task

-- What was sent to a target: the session's id and object, the packet's number and its payload.
pub record Sent : Type 0 where
  pub session_id : ℕ
  pub object : ℕ
  pub seq : ℕ
  pub payload : Bytes

-- `objects` are all sessions that were made, `sessions` the map of the server, `clearing` the ids
-- whose paths the clean-up has yet to remove while it holds the lock of that map.
pub record System : Type 0 where
  pub cfg : ServerConfig
  pub objects : HashMap ℕ TargetSession
  pub made : ℕ
  pub sessions : HashMap ℕ ℕ
  pub client_paths : HashMap ℕ (List ClientPath)
  pub tcp_conn_to_session : HashMap ℕ ℕ
  pub clearing : List ℕ
  pub tasks : HashMap ℕ Task
  pub sent : List Sent

unfoldable pub init : ServerConfig → System
init cfg = record {
  cfg = cfg;
  objects = [];
  made = 0;
  sessions = [];
  client_paths = [];
  tcp_conn_to_session = [];
  clearing = [];
  tasks = [];
  sent = [];
}

abbrev pub task_of : System → ℕ → Task
task_of s i = unwrap_or (get s.tasks i) idle

abbrev pub goes : System → ℕ → Task → System
goes s i task = record s { tasks = insert s.tasks i task }

abbrev pub put_object : System → ℕ → TargetSession → System
put_object s h object = record s { objects = insert s.objects h object }

abbrev pub is_free : List ℕ → Bool
is_free [] = true
is_free (k ∷ ids) = false

-- The read of the map. It waits while the clean-up holds the lock.
unfoldable pub look : System → ℕ → Packet → System
look s i p =
    if is_free s.clearing
    then elim (get s.sessions p.session_id) [
      | some h ↦ goes s i (holding p h)
      | none ↦ goes s i (missed p)
    ]
    else s

abbrev pub fresh_object : System → ℕ → ℕ → TargetSession
fresh_object s target_conn now = record {
  target_conn = target_conn;
  dedup_window = Window.new s.cfg.dedup_window;
  response_seq = 0;
  last_activity = now;
}

-- A new object in the map, for the task that made it.
abbrev pub add_object : System → ℕ → Packet → TargetSession → System
add_object s i p object = record s {
  objects = insert s.objects s.made object;
  made = s.made + 1;
  sessions = insert s.sessions p.session_id s.made;
  tasks = insert s.tasks i (holding p s.made);
}

unfoldable pub make : System → Net → ℕ → ℕ → Packet → System
make s net now i p = elim net.bind [
  | none ↦ goes s i idle
  | some target_conn ↦
      if net.connects then add_object s i p (fresh_object s target_conn now) else goes s i idle
]

-- The section under the write lock: the map is read again before a session is made.
unfoldable pub create : System → Net → ℕ → ℕ → Packet → System
create s net now i p =
    if is_free s.clearing
    then elim (get s.sessions p.session_id) [
      | some h ↦ goes s i (holding p h)
      | none ↦ make s net now i p
    ]
    else s

unfoldable pub touch : System → ℕ → ℕ → Packet → ℕ → System
touch s now i p h = elim (get s.objects h) [
  | none ↦ s
  | some object ↦ goes (put_object s h (record object { last_activity = now })) i (active p h)
]

unfoldable pub ask_window : System → ℕ → Packet → ℕ → System
ask_window s i p h = elim (get s.objects h) [
  | none ↦ s
  | some object ↦
      let (w, duplicate) = is_duplicate object.dedup_window p.seq in
      goes (put_object s h (record object { dedup_window = w })) i
        (if duplicate then idle else passed p h)
]

-- The connection is mapped under its own lock, before the paths.
unfoldable pub map_conn : System → ℕ → Packet → ℕ → System
map_conn s i p h = elim p.path [
  | udp addr socket ↦ goes s i (mapped p h)
  | tcp conn_id writer ↦
      goes (record s { tcp_conn_to_session = insert s.tcp_conn_to_session conn_id p.session_id }) i
        (mapped p h)
]

abbrev pub add_path : ClientPath → List ClientPath → List ClientPath
add_path (udp addr socket) paths = update_udp_path paths addr socket
add_path (tcp conn_id writer) paths =
    if has_tcp_path paths conn_id writer then paths else paths ++ tcp conn_id writer ∷ []

unfoldable pub register : System → ℕ → Packet → ℕ → System
register s i p h =
    let paths = unwrap_or (get s.client_paths p.session_id) [] in
    goes (record s { client_paths = insert s.client_paths p.session_id (add_path p.path paths) }) i
      (registered p h)

unfoldable pub send : System → ℕ → Packet → ℕ → System
send s i p h =
    let entry : Sent = record {
      session_id = p.session_id;
      object = h;
      seq = p.seq;
      payload = p.payload;
    } in
    goes (record s { sent = entry ∷ s.sent }) i idle

-- The next section of task `i`.
unfoldable pub advance : System → Net → ℕ → ℕ → Task → System
advance s net now i idle = s
advance s net now i (looking p) = look s i p
advance s net now i (missed p) = create s net now i p
advance s net now i (holding p h) = touch s now i p h
advance s net now i (active p h) = ask_window s i p h
advance s net now i (passed p h) = map_conn s i p h
advance s net now i (mapped p h) = register s i p h
advance s net now i (registered p h) = send s i p h

-- A packet is taken up by a task that is idle.
unfoldable pub arrive : System → ℕ → Packet → Task → System
arrive s i p idle = goes s i (looking p)
arrive s i p other = s

-- An id is expired if its object is.
abbrev pub has_expired : ℕ → ℕ → Option TargetSession → Bool
has_expired timeout now none = false
has_expired timeout now (some object) = is_expired timeout now object

unfoldable pub expired : System → ℕ → HashMap ℕ ℕ → List ℕ
expired s now [] = []
expired s now ((k, h) ∷ sessions) =
    let more = expired s now sessions in
    if has_expired s.cfg.session_timeout now (get s.objects h) then k ∷ more else more

unfoldable pub remove_all : {V : Type 0} → HashMap ℕ V → List ℕ → HashMap ℕ V
remove_all m [] = m
remove_all m (k ∷ ids) = remove_all (remove m k) ids

-- The clean-up takes the lock of the map, and keeps it until the paths are removed.
unfoldable pub expire : System → ℕ → System
expire s now =
    let ids = expired s now s.sessions in
    if is_free s.clearing
    then record s { sessions = remove_all s.sessions ids; clearing = ids }
    else s

unfoldable pub clear : System → List ℕ → System
clear s [] = s
clear s (k ∷ ids) = record s { client_paths = remove s.client_paths k; clearing = ids }

pub data Action : Type 0 where
  arrives : ℕ → Packet → Action
  advances : Net → ℕ → ℕ → Action
  expires : ℕ → Action
  clears : Action

unfoldable pub act : System → Action → System
act s (arrives i p) = arrive s i p (task_of s i)
act s (advances net now i) = advance s net now i (task_of s i)
act s (expires now) = expire s now
act s clears = clear s s.clearing

-- An interleaving: the sections in the order in which they run.
unfoldable pub interleave : System → List Action → System
interleave s [] = s
interleave s (a ∷ actions) = interleave (act s a) actions
