-- ===== src/Server/Tasks/Alone.antt =====
-- A task that runs by itself does what the handler of packets in fproxy-rs/src/server.rs does in one step.
use fproxy.Base.{
  ℕ, ◌≡◌, refl, ◌∙◌, sym, Bool, true, false, List, [], ◌∷◌, arith, some, Bytes, nat_eq,
  if◌then◌else◌, unwrap_or, ==_refl,
}
use fproxy.Base.HashMap.{get, insert, get-insert}
use fproxy.Server.Window.{is_duplicate}
use fproxy.Server.State.{Server, TargetSession, ClientPath, udp, tcp, put_session}
use fproxy.Server.Packets.{Net, add_udp_path, add_tcp_path}
use fproxy.Server.Tasks.Defs.{
  Packet, idle, holding, active, passed, mapped, registered, Sent, System, goes, put_object,
  map_conn, add_path, advances, act,
}
use fproxy.Server.Tasks.Views.{Views, same_shared, same_server, put-Views, at_key}
use fproxy.Server.Tasks.Rounds.{
  register_path, entry_of, IsDone, at_own, idle_round, touch_round, ask_round, register_round,
  send_round, map_round,
}

-- The paths and the connections of a view may be changed together.
paths-Views :
    (s s' : System) (v v' : Server)
    → Views s v
    → s'.cfg ≡ s.cfg
    → s'.objects ≡ s.objects
    → s'.made ≡ s.made
    → s'.sessions ≡ s.sessions
    → v'.cfg ≡ v.cfg
    → v'.sessions ≡ v.sessions
    → v'.client_paths ≡ s'.client_paths
    → v'.tcp_conn_to_session ≡ s'.tcp_conn_to_session
    → Views s' v'
paths-Views s s' v v' w cfg objects made sessions cfg' sessions' paths conns = record {
  cfg = cfg' ∙ w.cfg ∙ sym cfg;
  sessions = λ k. rw (objects, sessions, sessions') (w.sessions k);
  paths = paths;
  conns = conns;
  own = λ j k h e f. w.own j k h (rw (← sessions) e) (rw (← sessions) f);
  there = λ k h e. rw objects (w.there k h (rw (← sessions) e));
  unmade = λ h le. rw objects (w.unmade h (rw (← made) le));
}

abbrev pub along : ℕ → ℕ → Bytes → ClientPath → Packet
along k seq payload path = record { session_id = k; seq = seq; payload = payload; path = path }

-- What the window has let through is registered and sent.
along_run :
    (s : System) (v : Server) (net : Net) (now i k seq : ℕ) (payload : Bytes) (path : ClientPath)
    (h : ℕ)
    → Views s v
    → let a = advances net now i in
      let p = along k seq payload path in
      IsDone i s
        (act (act (act (goes s i (passed p h)) a) a) a)
        (register_path path v k)
        (entry_of p h ∷ s.sent)
unfolding add_udp_path add_tcp_path map_conn
along_run s v net now i k seq payload (udp addr socket) h w =
    let p = along k seq payload (udp addr socket) in
    let s1 = goes s i (passed p h) in
    let paths = add_path (udp addr socket) (unwrap_or (get s.client_paths k) []) in
    let s2 = record (goes s1 i (mapped p h)) { client_paths = insert s.client_paths k paths } in
    rw (map_round s net now i p h, register_round s1 net now i p h, send_round s2 net now i p h)
      record {
        views = paths-Views s _ v _ w refl refl refl refl refl refl (rw w.paths refl) w.conns;
        sent_now = refl;
        at_rest =
            at_own (record (goes s2 i (registered p h)) { sent = entry_of p h ∷ s.sent }) i idle;
        clearing = refl;
      }
along_run s v net now i k seq payload (tcp conn_id writer) h w =
    let p = along k seq payload (tcp conn_id writer) in
    let s1 = record (goes s i (passed p h)) {
      tcp_conn_to_session = insert s.tcp_conn_to_session conn_id k;
    } in
    let paths = add_path (tcp conn_id writer) (unwrap_or (get s.client_paths k) []) in
    let s2 = record (goes s1 i (mapped p h)) { client_paths = insert s.client_paths k paths } in
    rw (map_round s net now i p h, register_round s1 net now i p h, send_round s2 net now i p h)
      record {
        views =
            paths-Views s _ v _ w refl refl refl refl refl refl (rw w.paths refl) (rw w.conns refl);
        sent_now = refl;
        at_rest =
            at_own (record (goes s2 i (registered p h)) { sent = entry_of p h ∷ s.sent }) i idle;
        clearing = refl;
      }

-- The session after a packet: active now, with the window that has been asked.
abbrev pub asked : TargetSession → ℕ → ℕ → TargetSession
asked o now seq = record o {
  last_activity = now;
  dedup_window = (is_duplicate o.dedup_window seq).0;
}

abbrev pub after_window : Bool → Server → Packet → Server
after_window true v p = v
after_window false v p = register_path p.path v p.session_id

abbrev pub sent_after : Bool → Packet → ℕ → List Sent → List Sent
sent_after true p h sent = sent
sent_after false p h sent = entry_of p h ∷ sent

-- The rounds after the window's answer.
answered_run :
    (s : System) (v : Server) (net : Net) (now i : ℕ) (p : Packet) (h : ℕ) (duplicate : Bool)
    → Views s v
    → let a = advances net now i in
      let t = if duplicate then idle else passed p h in
      IsDone i s
        (act (act (act (goes s i t) a) a) a)
        (after_window duplicate v p)
        (sent_after duplicate p h s.sent)
answered_run s v net now i p h false w =
    along_run s v net now i p.session_id p.seq p.payload p.path h w
answered_run s v net now i p h true w =
    rw (idle_round s net now i, idle_round s net now i, idle_round s net now i)
      record {
        views = same_shared s (goes s i idle) v refl refl refl refl refl refl w;
        sent_now = refl;
        at_rest = at_own s i idle;
        clearing = refl;
      }

-- A session that is put twice is as good as put once.
put_twice :
    (v : Server) (k : ℕ) (a b : TargetSession) (j : ℕ)
    → get (put_session v k b).sessions j ≡ get (put_session (put_session v k a) k b).sessions j
put_twice v k a b j = ground (
  arith,
  get-insert v.sessions k j b,
  get-insert v.sessions k j a,
  get-insert (insert v.sessions k a) k j b,
)

-- The run of a task that holds a session.
pub holding_run :
    (s : System) (v : Server) (net : Net) (now i : ℕ) (p : Packet) (h : ℕ) (o : TargetSession)
    → get s.sessions p.session_id ≡ some h
    → get s.objects h ≡ some o
    → Views s v
    → let a = advances net now i in
      let duplicate = (is_duplicate o.dedup_window p.seq).1 in
      IsDone i s
        (act (act (act (act (act (goes s i (holding p h)) a) a) a) a) a)
        (after_window duplicate (put_session v p.session_id (asked o now p.seq)) p)
        (sent_after duplicate p h s.sent)
holding_run s v net now i p h o e f w =
    let k = p.session_id in
    let duplicate = (is_duplicate o.dedup_window p.seq).1 in
    let o1 : TargetSession = record o { last_activity = now } in
    let s1 = put_object (goes s i (holding p h)) h o1 in
    let s2 = put_object (goes s1 i (active p h)) h (asked o now p.seq) in
    let first : Views s1 (put_session v k o1) =
      put-Views (goes s i (holding p h)) v k h o1 e
        (same_shared s (goes s i (holding p h)) v refl refl refl refl refl refl w) in
    let second : Views s2 (put_session (put_session v k o1) k (asked o now p.seq)) =
      put-Views (goes s1 i (active p h)) (put_session v k o1) k h (asked o now p.seq) e (
        same_shared s1 (goes s1 i (active p h)) (put_session v k o1) refl refl refl refl refl refl
          first) in
    let seen : Views s2 (put_session v k (asked o now p.seq)) =
      same_server s2 (put_session (put_session v k o1) k (asked o now p.seq))
        (put_session v k (asked o now p.seq)) refl (put_twice v k o1 (asked o now p.seq)) refl refl
        second in
    let run = answered_run s2 (put_session v k (asked o now p.seq)) net now i p h duplicate seen in
    rw
      (
        touch_round s net now i p h o f,
        ask_round s1 net now i p h o1 (at_key s.objects h h o1 (==_refl h)),
      )
      record {
        views = run.views;
        sent_now = run.sent_now;
        at_rest = run.at_rest;
        clearing = run.clearing;
      }
