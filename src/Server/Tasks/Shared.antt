-- ===== src/Server/Tasks/Shared.antt =====
-- What holds of the map of sessions in fproxy-rs/src/server.rs while the clean-up does not run: all tasks of a session
-- share its one object, since the map is read again under the write lock.
use fproxy.Base.{
  ℕ, ◌≡◌, refl, ◌∙◌, ap, sym, subst, Bool, true, false, ◌&&◌, ◌||◌, List, [], ◌∷◌, arith, ◌==◌,
  none, some, inl, inr, Bool-cases, Option-cases, nat_eq, if◌then◌else◌,
}
use fproxy.Base.HashMap.{get, insert, get-insert}
use fproxy.Server.Packets.{Net}
use fproxy.Server.Tasks.Defs.{
  Packet, Task, idle, looking, missed, holding, active, passed, mapped, registered, Sent, System,
  task_of, goes, is_free, look, fresh_object, add_object, make, create,
}
use fproxy.Server.Tasks.Invariant.{went}

-- Whether the task holds object `h` for the session `k`.
abbrev pub holds : Task → ℕ → ℕ → Bool
holds idle k h = false
holds (looking p) k h = false
holds (missed p) k h = false
holds (holding p j) k h = p.session_id == k && j == h
holds (active p j) k h = p.session_id == k && j == h
holds (passed p j) k h = p.session_id == k && j == h
holds (mapped p j) k h = p.session_id == k && j == h
holds (registered p j) k h = p.session_id == k && j == h

abbrev pub sent_by : List Sent → ℕ → ℕ → Bool
sent_by [] k h = false
sent_by (e ∷ sent) k h = (e.session_id == k && e.object == h) || sent_by sent k h

pub record IsShared (s : System) : Type 0 where
  pub free : is_free s.clearing ≡ true
  pub shared : (i k h : ℕ) → holds (task_of s i) k h ≡ true → get s.sessions k ≡ some h
  pub from_map : (k h : ℕ) → sent_by s.sent k h ≡ true → get s.sessions k ≡ some h

-- A task that goes on keeps this, if the map only grows and the task holds what is in it.
pub stays :
    (s s' : System) (i : ℕ) (t : Task)
    → IsShared s
    → s'.tasks ≡ insert s.tasks i t
    → s'.clearing ≡ s.clearing
    → ((k h : ℕ) → get s.sessions k ≡ some h → get s'.sessions k ≡ some h)
    → ((k h : ℕ) → holds t k h ≡ true → get s'.sessions k ≡ some h)
    → ((k h : ℕ) → sent_by s'.sent k h ≡ true → get s.sessions k ≡ some h)
    → IsShared s'
stays s s' i t v tasks clearing grows own sent = record {
  free = rw clearing v.free;
  shared = λ j k h e. elim (went s s' i t tasks j) [
    | inl (ij, here) ↦ own k h (subst (λ (x : Task). holds x k h ≡ true) here e)
    | inr (other, there) ↦
        grows k h (v.shared j k h (subst (λ (x : Task). holds x k h ≡ true) there e))
  ];
  from_map = λ k h e. grows k h (sent k h e);
}

-- Most sections leave the map alone.
pub same_map :
    (s s' : System) (i : ℕ) (t : Task)
    → IsShared s
    → s'.tasks ≡ insert s.tasks i t
    → s'.clearing ≡ s.clearing
    → s'.sessions ≡ s.sessions
    → s'.sent ≡ s.sent
    → ((k h : ℕ) → holds t k h ≡ true → get s.sessions k ≡ some h)
    → IsShared s'
same_map s s' i t v tasks clearing sessions sent own =
    stays s s' i t v tasks clearing (λ k h e. rw sessions e) (λ k h e. rw sessions (own k h e))
      (λ k h e. v.from_map k h (rw (← sent) e))

-- What a task holds, it held.
pub held_before :
    (s : System) (i : ℕ) (t t' : Task)
    → IsShared s
    → task_of s i ≡ t
    → ((k h : ℕ) → holds t' k h ≡ true → holds t k h ≡ true)
    → (k h : ℕ) → holds t' k h ≡ true
    → get s.sessions k ≡ some h
held_before s i t t' v e less k h f =
    v.shared i k h (subst (λ (x : Task). holds x k h ≡ true) (sym e) (less k h f))

pub found_own :
    (s : System) (p : Packet) (h : ℕ)
    → get s.sessions p.session_id ≡ some h
    → (k j : ℕ) → holds (holding p h) k j ≡ true
    → get s.sessions k ≡ some j
found_own s p h e k j f =
    let kk : p.session_id ≡ k = ground arith in let jj : h ≡ j = ground arith in rw (← kk, ← jj) e

pub look-IsShared : (s : System) (i : ℕ) (p : Packet) → IsShared s → IsShared (look s i p)
unfolding look
look-IsShared s i p v = elim (Option-cases (get s.sessions p.session_id)) [
  | inl missing ↦
      rw (v.free, missing)
        (same_map s _ i (missed p) v refl refl refl refl (λ k h e. absurd (cc e)))
  | inr (h, found) ↦
      rw (v.free, found)
        (same_map s _ i (holding p h) v refl refl refl refl (found_own s p h found))
]

pub make-IsShared :
    (s : System) (net : Net) (now i : ℕ) (p : Packet)
    → IsShared s
    → get s.sessions p.session_id ≡ none
    → IsShared (make s net now i p)
unfolding make
make-IsShared s net now i p v missing =
    let quit : IsShared (goes s i idle) =
      same_map s _ i idle v refl refl refl refl (λ k h e. absurd (cc e)) in
    let put : (k : ℕ)
        → get (insert s.sessions p.session_id s.made) k
          ≡ (if p.session_id == k then some s.made else get s.sessions k) =
      λ k. get-insert s.sessions p.session_id k s.made in
    let grows : (k h : ℕ)
        → get s.sessions k ≡ some h
        → get (insert s.sessions p.session_id s.made) k ≡ some h =
      λ k h e. elim (Bool-cases (p.session_id == k)) [
        | inl same ↦
            let kk : p.session_id ≡ k = ground arith in
            absurd (cc (sym missing ∙ ap (get s.sessions) kk ∙ e))
        | inr other ↦ put k ∙ rw other e
      ] in
    let own : (k h : ℕ)
        → holds (holding p s.made) k h ≡ true
        → get (insert s.sessions p.session_id s.made) k ≡ some h =
      λ k h e.
        let kk : (p.session_id == k) ≡ true = ground arith in
        let hh : s.made ≡ h = ground arith in put k ∙ rw kk (ap some hh) in
    elim (Option-cases net.bind) [
      | inl unbound ↦ rw unbound quit
      | inr (target_conn, bound) ↦ elim (Bool-cases net.connects) [
        | inl connected ↦
            rw (bound, connected)
              (stays s (add_object s i p (fresh_object s target_conn now)) i (holding p s.made) v
                refl refl grows own v.from_map)
        | inr unconnected ↦ rw (bound, unconnected) quit
      ]
    ]

pub create-IsShared :
    (s : System) (net : Net) (now i : ℕ) (p : Packet) → IsShared s → IsShared (create s net now i p)
unfolding create
create-IsShared s net now i p v = elim (Option-cases (get s.sessions p.session_id)) [
  | inl missing ↦ rw (v.free, missing) (make-IsShared s net now i p v missing)
  | inr (h, found) ↦
      rw (v.free, found)
        (same_map s _ i (holding p h) v refl refl refl refl (found_own s p h found))
]
