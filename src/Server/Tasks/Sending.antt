-- ===== src/Server/Tasks/Sending.antt =====
-- The sections in which a task of fproxy-rs/src/server.rs adds its path and sends keep the invariant.
use fproxy.Base.{
  ℕ, ◌≡◌, refl, ◌∙◌, ap, sym, subst, true, false, ◌&&◌, arith, ◌==◌, ◌⊎◌, inl, inr, Bool-cases,
  nat_eq,
}
use fproxy.Server.Window.Invariant.{IsSeq}
use fproxy.Server.State.{ClientPath, udp, tcp}
use fproxy.Server.Tasks.Defs.{
  Packet, Task, idle, passed, mapped, registered, System, task_of, map_conn, register, send,
}
use fproxy.Server.Tasks.Invariant.{let_through, HasSeq, IsOnce, went}
use fproxy.Server.Tasks.Moves.{same_objects, moved}

pub path_cases :
    (path : ClientPath)
    → ((addr : ℕ) × (socket : ℕ) × (path ≡ udp addr socket))
      ⊎ ((conn_id : ℕ) × (writer : ℕ) × (path ≡ tcp conn_id writer))
path_cases (udp addr socket) = inl (addr, socket, refl)
path_cases (tcp conn_id writer) = inr (conn_id, writer, refl)

pub map_conn-IsOnce :
    (s : System) (i : ℕ) (p : Packet) (h : ℕ)
    → IsOnce s
    → IsSeq p.seq
    → task_of s i ≡ passed p h
    → IsOnce (map_conn s i p h)
unfolding map_conn
map_conn-IsOnce s i p h v k e = elim (path_cases p.path) [
  | inl (addr, socket, is_udp) ↦
      rw (is_udp, map_conn)
        (moved s _ i (mapped p h) v refl refl refl (same_objects s v) k (λ j q f. rw e f))
  | inr (conn_id, writer, is_tcp) ↦
      rw (is_tcp, map_conn)
        (moved s _ i (mapped p h) v refl refl refl (same_objects s v) k (λ j q f. rw e f))
]

pub register-IsOnce :
    (s : System) (i : ℕ) (p : Packet) (h : ℕ)
    → IsOnce s
    → IsSeq p.seq
    → task_of s i ≡ mapped p h
    → IsOnce (register s i p h)
unfolding register
register-IsOnce s i p h v k e =
    moved s _ i (registered p h) v refl refl refl (same_objects s v) k (λ j q f. rw e f)

-- A number goes out while no other task has it.
pub send-IsOnce :
    (s : System) (i : ℕ) (p : Packet) (h : ℕ)
    → IsOnce s
    → task_of s i ≡ registered p h
    → IsOnce (send s i p h)
unfolding send
send-IsOnce s i p h v e =
    let s' = send s i p h in
    let mine : let_through (task_of s i) h p.seq ≡ true =
      ap (λ t. let_through t h p.seq) e ∙ ground arith in
    let old : (j h' q : ℕ)
        → let_through (task_of s' j) h' q ≡ true
        → ((i == j) ≡ false) × (let_through (task_of s j) h' q ≡ true) =
      λ j h' q f. elim (went s s' i idle refl j) [
        | inl (ij, here) ↦
            let none_through : let_through idle h' q ≡ true =
              subst (λ (x : Task). let_through x h' q ≡ true) here f in
            absurd (cc none_through)
        | inr (other, there) ↦ (other, rw (← there) f)
      ] in
    record {
      sized = v.sized;
      unmade = v.unmade;
      windows = v.windows;
      seqs = λ j. elim (went s s' i idle refl j) [
        | inl (ij, here) ↦ subst HasSeq (sym here) tt
        | inr (other, there) ↦ subst HasSeq (sym there) (v.seqs j)
      ];
      known_through = λ j h' q f. v.known_through j h' q (old j h' q f).1;
      known_sent = λ h' q f. elim (Bool-cases (h == h' && p.seq == q)) [
        | inl same ↦
            let hh : h ≡ h' = ground arith in
            let qq : p.seq ≡ q = ground arith in rw (← hh, ← qq) (v.known_through i h p.seq mine)
        | inr other ↦ v.known_sent h' q (ground arith)
      ];
      one_task = λ j j' h' q f g. v.one_task j j' h' q (old j h' q f).1 (old j' h' q g).1;
      unsent = λ j h' q f. elim (Bool-cases (h == h' && p.seq == q)) [
        | inl same ↦
            let hh : h ≡ h' = ground arith in
            let qq : p.seq ≡ q = ground arith in
            let ij : i ≡ j = v.one_task i j h p.seq mine (rw (hh, qq) (old j h' q f).1) in
            absurd (ground (arith, (old j h' q f).0))
        | inr other ↦ ground (arith, v.unsent j h' q (old j h' q f).1)
      ];
      once = (v.unsent i h p.seq mine, v.once);
    }
