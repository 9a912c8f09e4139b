-- ===== src/Server/Tasks/Moves.antt =====
-- Every section of a task, and of the clean-up, in fproxy-rs/src/server.rs keeps the invariant.
use fproxy.Base.{
  ℕ, ◌≤◌, ◌≡◌, ◌∙◌, ap, sym, subst, true, arith, ◌==◌, none, some, inl, inr, Bool-cases, nat_eq,
}
use fproxy.Base.HashMap.{HashMap, get, insert, get-insert}
use fproxy.Server.Window.Invariant.{IsValid}
use fproxy.Server.Window.Once.{rejects}
use fproxy.Server.State.{TargetSession}
use fproxy.Server.Tasks.Defs.{Task, System, task_of}
use fproxy.Server.Tasks.Invariant.{object_knows, let_through, HasSeq, IsOnce, IsQuiet-IsOnce, went}

-- What a change of the objects must keep.
pub record KeepsObjects (s : System) (objects : HashMap ℕ TargetSession) (made : ℕ) : Type 0 where
  pub unmade : (h : ℕ) → made ≤ h → get objects h ≡ none
  pub windows :
      (h : ℕ) (object : TargetSession) → get objects h ≡ some object → IsValid object.dedup_window
  pub more :
      (h q : ℕ) → object_knows (get s.objects h) q ≡ true → object_knows (get objects h) q ≡ true

pub same_objects : (s : System) → IsOnce s → KeepsObjects s s.objects s.made
same_objects s v = record { unmade = v.unmade; windows = v.windows; more = λ h q e. e }

-- An object may be replaced by one that knows as much.
pub put_keeps :
    (s : System) (h : ℕ) (object object' : TargetSession)
    → IsOnce s
    → get s.objects h ≡ some object
    → IsValid object'.dedup_window
    → ((q : ℕ) → rejects object.dedup_window q ≡ true → rejects object'.dedup_window q ≡ true)
    → KeepsObjects s (insert s.objects h object') s.made
put_keeps s h object object' v e valid more = record {
  unmade = λ j le. elim (Bool-cases (h == j)) [
    | inl same ↦
        let q : h ≡ j = ground arith in absurd (cc (sym e ∙ ap (get s.objects) q ∙ v.unmade j le))
    | inr other ↦ get-insert s.objects h j object' ∙ rw other (v.unmade j le)
  ];
  windows = λ j o g. elim (Bool-cases (h == j)) [
    | inl same ↦
        let q : object' ≡ o = ground (arith, get-insert s.objects h j object') in
        subst (λ (x : TargetSession). IsValid x.dedup_window) q valid
    | inr other ↦ v.windows j o (ground (arith, get-insert s.objects h j object'))
  ];
  more = λ j q k. elim (Bool-cases (h == j)) [
    | inl same ↦
        let hj : h ≡ j = ground arith in
        let known : rejects object.dedup_window q ≡ true =
          ap (λ o. object_knows o q) (sym e ∙ ap (get s.objects) hj) ∙ k in
        rw (get-insert s.objects h j object', same) (more q known)
    | inr other ↦ rw (get-insert s.objects h j object', other) k
  ];
}

-- A task that goes on, with objects kept, is quiet if its new place lets nothing more through.
pub moved :
    (s s' : System) (i : ℕ) (t : Task)
    → IsOnce s
    → s'.tasks ≡ insert s.tasks i t
    → s'.cfg ≡ s.cfg
    → s'.sent ≡ s.sent
    → KeepsObjects s s'.objects s'.made
    → HasSeq t
    → ((h q : ℕ) → let_through t h q ≡ true → let_through (task_of s i) h q ≡ true)
    → IsOnce s'
moved s s' i t v tasks cfg sent k seq fewer =
    IsQuiet-IsOnce s s'
      (record {
        cfg = cfg;
        unmade = k.unmade;
        windows = k.windows;
        more = k.more;
        fewer = λ j h q e. elim (went s s' i t tasks j) [
          | inl (ij, here) ↦
              subst (λ (x : ℕ). let_through (task_of s x) h q ≡ true) ij (fewer h q (rw (← here) e))
          | inr (other, there) ↦ rw (← there) e
        ];
        seqs = λ j. elim (went s s' i t tasks j) [
          | inl (ij, here) ↦ subst HasSeq (sym here) seq
          | inr (other, there) ↦ subst HasSeq (sym there) (v.seqs j)
        ];
        sent = sent;
      })
      v
