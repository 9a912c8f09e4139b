-- ===== src/Server/Tasks/Rounds.antt =====
-- What each turn of a task of fproxy-rs/src/server.rs does.
use fproxy.Base.{
  ℕ, ◌≡◌, refl, ◌∙◌, ap, List, [], ◌∷◌, some, nat_eq, if◌then◌else◌, unwrap_or, ==_refl,
}
use fproxy.Base.HashMap.{get, insert}
use fproxy.Server.Window.{is_duplicate}
use fproxy.Server.State.{Server, TargetSession, ClientPath, udp, tcp}
use fproxy.Server.Packets.{Net, add_udp_path, add_tcp_path}
use fproxy.Server.Tasks.Defs.{
  Packet, Task, idle, holding, active, passed, mapped, registered, Sent, System, task_of, goes,
  put_object, touch, ask_window, map_conn, add_path, register, send, advance, advances, act,
}
use fproxy.Server.Tasks.Views.{Views, at_key}

abbrev pub register_path : ClientPath → Server → ℕ → Server
register_path (udp addr socket) v k = add_udp_path v k addr socket
register_path (tcp conn_id writer) v k = add_tcp_path v k conn_id writer

abbrev pub entry_of : Packet → ℕ → Sent
entry_of p h = record { session_id = p.session_id; object = h; seq = p.seq; payload = p.payload }

-- Where a task has come to its end.
pub record IsDone (i : ℕ) (s s' : System) (v : Server) (sent : List Sent) : Type 0 where
  pub views : Views s' v
  pub sent_now : s'.sent ≡ sent
  pub at_rest : task_of s' i ≡ idle
  pub clearing : s'.clearing ≡ s.clearing

pub at_own : (s : System) (i : ℕ) (t : Task) → task_of (goes s i t) i ≡ t
at_own s i t = ap (λ o. unwrap_or o idle) (at_key s.tasks i i t (==_refl i))

-- The next section is that of the place the task has gone to.
pub act_at :
    (s : System) (net : Net) (now i : ℕ) (t : Task)
    → act (goes s i t) (advances net now i) ≡ advance (goes s i t) net now i t
unfolding act
act_at s net now i t = ap (advance (goes s i t) net now i) (at_own s i t)

pub idle_round :
    (s : System) (net : Net) (now i : ℕ) → act (goes s i idle) (advances net now i) ≡ goes s i idle
unfolding advance
idle_round s net now i = act_at s net now i idle

pub touch_round :
    (s : System) (net : Net) (now i : ℕ) (p : Packet) (h : ℕ) (o : TargetSession)
    → get s.objects h ≡ some o
    → act (goes s i (holding p h)) (advances net now i)
      ≡ goes
          (put_object (goes s i (holding p h)) h (record o { last_activity = now }))
          i
          (active p h)
unfolding advance touch
touch_round s net now i p h o e = act_at s net now i (holding p h) ∙ rw (e, touch) refl

pub ask_round :
    (s : System) (net : Net) (now i : ℕ) (p : Packet) (h : ℕ) (o : TargetSession)
    → get s.objects h ≡ some o
    → act (goes s i (active p h)) (advances net now i)
      ≡ goes
          (put_object
            (goes s i (active p h))
            h
            (record o { dedup_window = (is_duplicate o.dedup_window p.seq).0 }))
          i
          (if (is_duplicate o.dedup_window p.seq).1 then idle else passed p h)
unfolding advance ask_window
ask_round s net now i p h o e = act_at s net now i (active p h) ∙ rw (e, ask_window) refl

pub register_round :
    (s : System) (net : Net) (now i : ℕ) (p : Packet) (h : ℕ)
    → act (goes s i (mapped p h)) (advances net now i)
      ≡ goes
          (record (goes s i (mapped p h)) {
            client_paths =
                insert s.client_paths p.session_id
                  (add_path p.path (unwrap_or (get s.client_paths p.session_id) []));
          })
          i
          (registered p h)
unfolding advance register
register_round s net now i p h = act_at s net now i (mapped p h)

pub send_round :
    (s : System) (net : Net) (now i : ℕ) (p : Packet) (h : ℕ)
    → act (goes s i (registered p h)) (advances net now i)
      ≡ goes (record (goes s i (registered p h)) { sent = entry_of p h ∷ s.sent }) i idle
unfolding advance send
send_round s net now i p h = act_at s net now i (registered p h)

pub map_round :
    (s : System) (net : Net) (now i : ℕ) (p : Packet) (h : ℕ)
    → act (goes s i (passed p h)) (advances net now i) ≡ map_conn (goes s i (passed p h)) i p h
unfolding advance
map_round s net now i p h = act_at s net now i (passed p h)
