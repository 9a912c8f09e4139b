-- ===== src/Server/Tasks/Sharing.antt =====
-- Every section of a task in fproxy-rs/src/server.rs keeps the one object of a session.
use fproxy.Base.{
  ℕ, ◌≡◌, refl, true, ◌&&◌, List, [], ◌∷◌, arith, ◌==◌, some, inl, inr, Bool-cases, Option-cases,
  nat_eq, All,
}
use fproxy.Base.HashMap.{get}
use fproxy.Config.{ServerConfig}
use fproxy.Server.Window.{is_duplicate}
use fproxy.Server.Packets.{Net}
use fproxy.Server.Tasks.Defs.{
  Packet, Task, idle, looking, missed, holding, active, passed, mapped, registered, System, init,
  task_of, is_free, touch, ask_window, map_conn, register, send, advance, arrive, clear, Action,
  arrives, advances, expires, clears, act, interleave,
}
use fproxy.Server.Tasks.Sending.{path_cases}
use fproxy.Server.Tasks.Shared.{
  holds, IsShared, stays, same_map, held_before, look-IsShared, create-IsShared,
}

pub touch-IsShared :
    (s : System) (now i : ℕ) (p : Packet) (h : ℕ)
    → IsShared s
    → task_of s i ≡ holding p h
    → IsShared (touch s now i p h)
unfolding touch
touch-IsShared s now i p h v e = elim (Option-cases (get s.objects h)) [
  | inl gone ↦ rw (gone, touch) v
  | inr (object, found) ↦
      rw (found, touch)
        (same_map s _ i (active p h) v refl refl refl refl
          (held_before s i (holding p h) (active p h) v e (λ k j f. f)))
]

pub ask_window-IsShared :
    (s : System) (i : ℕ) (p : Packet) (h : ℕ)
    → IsShared s
    → task_of s i ≡ active p h
    → IsShared (ask_window s i p h)
unfolding ask_window
ask_window-IsShared s i p h v e = elim (Option-cases (get s.objects h)) [
  | inl gone ↦ rw (gone, ask_window) v
  | inr (object, found) ↦ elim (Bool-cases (is_duplicate object.dedup_window p.seq).1) [
    | inl duplicate ↦
        rw (found, ask_window, duplicate)
          (same_map s _ i idle v refl refl refl refl (λ k j f. absurd (cc f)))
    | inr new_seq ↦
        rw (found, ask_window, new_seq)
          (same_map s _ i (passed p h) v refl refl refl refl
            (held_before s i (active p h) (passed p h) v e (λ k j f. f)))
  ]
]

pub map_conn-IsShared :
    (s : System) (i : ℕ) (p : Packet) (h : ℕ)
    → IsShared s
    → task_of s i ≡ passed p h
    → IsShared (map_conn s i p h)
unfolding map_conn
map_conn-IsShared s i p h v e =
    let own : (k j : ℕ) → holds (mapped p h) k j ≡ true → get s.sessions k ≡ some j =
      held_before s i (passed p h) (mapped p h) v e (λ k j f. f) in
    elim (path_cases p.path) [
      | inl (addr, socket, is_udp) ↦
          rw (is_udp, map_conn) (same_map s _ i (mapped p h) v refl refl refl refl own)
      | inr (conn_id, writer, is_tcp) ↦
          rw (is_tcp, map_conn) (same_map s _ i (mapped p h) v refl refl refl refl own)
    ]

pub register-IsShared :
    (s : System) (i : ℕ) (p : Packet) (h : ℕ)
    → IsShared s
    → task_of s i ≡ mapped p h
    → IsShared (register s i p h)
unfolding register
register-IsShared s i p h v e =
    same_map s _ i (registered p h) v refl refl refl refl
      (held_before s i (mapped p h) (registered p h) v e (λ k j f. f))

pub send-IsShared :
    (s : System) (i : ℕ) (p : Packet) (h : ℕ)
    → IsShared s
    → task_of s i ≡ registered p h
    → IsShared (send s i p h)
unfolding send
send-IsShared s i p h v e =
    stays s _ i idle v refl refl (λ k j f. f) (λ k j f. absurd (cc f))
      (λ k j f. elim (Bool-cases (p.session_id == k && h == j)) [
        | inl mine ↦ held_before s i (registered p h) (registered p h) v e (λ k' j' g. g) k j mine
        | inr other ↦ v.from_map k j (ground arith)
      ])

pub arrive-IsShared :
    (s : System) (i : ℕ) (p : Packet) (t : Task) → IsShared s → IsShared (arrive s i p t)
unfolding arrive
arrive-IsShared s i p idle v =
    same_map s _ i (looking p) v refl refl refl refl (λ k h e. absurd (cc e))
arrive-IsShared s i p (looking _) v = v
arrive-IsShared s i p (missed _) v = v
arrive-IsShared s i p (holding _ h) v = v
arrive-IsShared s i p (active _ h) v = v
arrive-IsShared s i p (passed _ h) v = v
arrive-IsShared s i p (mapped _ h) v = v
arrive-IsShared s i p (registered _ h) v = v

pub advance-IsShared :
    (s : System) (net : Net) (now i : ℕ) (t : Task)
    → IsShared s
    → task_of s i ≡ t
    → IsShared (advance s net now i t)
unfolding advance
advance-IsShared s net now i idle v e = v
advance-IsShared s net now i (looking p) v e = look-IsShared s i p v
advance-IsShared s net now i (missed p) v e = create-IsShared s net now i p v
advance-IsShared s net now i (holding p h) v e = touch-IsShared s now i p h v e
advance-IsShared s net now i (active p h) v e = ask_window-IsShared s i p h v e
advance-IsShared s net now i (passed p h) v e = map_conn-IsShared s i p h v e
advance-IsShared s net now i (mapped p h) v e = register-IsShared s i p h v e
advance-IsShared s net now i (registered p h) v e = send-IsShared s i p h v e

pub clear-IsShared :
    (s : System) (ids : List ℕ) → IsShared s → is_free ids ≡ true → IsShared (clear s ids)
unfolding clear
clear-IsShared s [] v e = v
clear-IsShared s (k ∷ ids) v e = absurd (cc e)

-- The clean-up does not start.
abbrev pub NoExpiry : Action → Type 0
NoExpiry (arrives i p) = Unit
NoExpiry (advances net now i) = Unit
NoExpiry (expires now) = ⊥
NoExpiry clears = Unit

pub act-IsShared : (s : System) (a : Action) → IsShared s → NoExpiry a → IsShared (act s a)
unfolding act
act-IsShared s (arrives i p) v n = arrive-IsShared s i p (task_of s i) v
act-IsShared s (advances net now i) v n = advance-IsShared s net now i (task_of s i) v refl
act-IsShared s (expires now) v n = absurd n
act-IsShared s clears v n = clear-IsShared s s.clearing v v.free

pub interleave-IsShared :
    (s : System) (actions : List Action)
    → IsShared s
    → All NoExpiry actions
    → IsShared (interleave s actions)
unfolding interleave
interleave-IsShared s [] v n = v
interleave-IsShared s (a ∷ actions) v n =
    interleave-IsShared (act s a) actions (act-IsShared s a v n.0) n.1

pub init-IsShared : (cfg : ServerConfig) → IsShared (init cfg)
unfolding init get
init-IsShared cfg = record {
  free = refl;
  shared = λ i k h e. absurd (cc e);
  from_map = λ k h e. absurd (cc e);
}
