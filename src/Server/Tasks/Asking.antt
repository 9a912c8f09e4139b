-- ===== src/Server/Tasks/Asking.antt =====
-- The section in which a task of fproxy-rs/src/server.rs asks the window keeps the invariant.
use fproxy.Base.{
  ℕ, ◌≡◌, refl, ◌∙◌, ap, sym, subst, true, false, arith, some, ◌⊎◌, inl, inr, Bool-cases,
  Option-cases, nat_eq, ==_refl,
}
use fproxy.Base.HashMap.{get, insert, get-insert}
use fproxy.Server.Window.{is_duplicate}
use fproxy.Server.Window.Invariant.{IsValid, IsSeq, is_duplicate-IsValid}
use fproxy.Server.Window.Once.{rejects-persists, rejects-is_duplicate, is_duplicate-rejects}
use fproxy.Server.State.{TargetSession}
use fproxy.Server.Tasks.Defs.{Packet, Task, idle, passed, System, task_of, ask_window}
use fproxy.Server.Tasks.Invariant.{object_knows, let_through, HasSeq, was_sent, IsOnce, went}
use fproxy.Server.Tasks.Moves.{KeepsObjects, put_keeps, moved}

-- The window lets a number through that it did not know, and so no task and no target has.
pub let_in :
    (s s' : System) (i h : ℕ) (p : Packet)
    → IsOnce s
    → s'.tasks ≡ insert s.tasks i (passed p h)
    → s'.cfg ≡ s.cfg
    → s'.sent ≡ s.sent
    → KeepsObjects s s'.objects s'.made
    → IsSeq p.seq
    → object_knows (get s.objects h) p.seq ≡ false
    → object_knows (get s'.objects h) p.seq ≡ true
    → IsOnce s'
let_in s s' i h p v tasks cfg sent k seq unknown known =
    let mine : (h' q : ℕ) → let_through (passed p h) h' q ≡ true → (h ≡ h') × (p.seq ≡ q) =
      λ h' q e. ground arith in
    let old : (j h' q : ℕ)
        → let_through (task_of s' j) h' q ≡ true
        → ((i ≡ j) × (h ≡ h') × (p.seq ≡ q)) ⊎ (let_through (task_of s j) h' q ≡ true) =
      λ j h' q e. elim (went s s' i (passed p h) tasks j) [
        | inl (ij, here) ↦
            let (hh, qq) = mine h' q (subst (λ (x : Task). let_through x h' q ≡ true) here e) in
            inl (ij, hh, qq)
        | inr (other, there) ↦ inr (rw (← there) e)
      ] in
    let fresh : (j : ℕ) → ¬ (let_through (task_of s j) h p.seq ≡ true) =
      λ j e. cc (sym unknown ∙ v.known_through j h p.seq e) in
    let unsent : was_sent s.sent h p.seq ≡ false = elim (Bool-cases (was_sent s.sent h p.seq)) [
      | inl was ↦ absurd (cc (sym unknown ∙ v.known_sent h p.seq was))
      | inr not_yet ↦ not_yet
    ] in
    record {
      sized = rw cfg v.sized;
      unmade = k.unmade;
      windows = k.windows;
      seqs = λ j. elim (went s s' i (passed p h) tasks j) [
        | inl (ij, here) ↦ subst HasSeq (sym here) seq
        | inr (other, there) ↦ subst HasSeq (sym there) (v.seqs j)
      ];
      known_through = λ j h' q e. elim (old j h' q e) [
        | inl (ij, hh, qq) ↦ rw (← hh, ← qq) known
        | inr before ↦ k.more h' q (v.known_through j h' q before)
      ];
      known_sent = λ h' q e. k.more h' q (v.known_sent h' q (rw (← sent) e));
      one_task = λ j j' h' q e f. elim (old j h' q e) [
        | inl (ij, hh, qq) ↦ elim (old j' h' q f) [
          | inl (ij', _, _) ↦ sym ij ∙ ij'
          | inr before ↦ absurd (fresh j' (rw (hh, qq) before))
        ]
        | inr before ↦ elim (old j' h' q f) [
          | inl (_, hh, qq) ↦ absurd (fresh j (rw (hh, qq) before))
          | inr before' ↦ v.one_task j j' h' q before before'
        ]
      ];
      unsent = λ j h' q e. elim (old j h' q e) [
        | inl (ij, hh, qq) ↦ rw (sent, ← hh, ← qq) unsent
        | inr before ↦ rw sent (v.unsent j h' q before)
      ];
      once = rw sent v.once;
    }

pub ask_window-IsOnce :
    (s : System) (i : ℕ) (p : Packet) (h : ℕ) → IsOnce s → IsSeq p.seq → IsOnce (ask_window s i p h)
unfolding ask_window
ask_window-IsOnce s i p h v k = elim (Option-cases (get s.objects h)) [
  | inl gone ↦ rw (gone, ask_window) v
  | inr (object, e) ↦
      let w = object.dedup_window in
      let valid : IsValid w = v.windows h object e in
      let after = is_duplicate w p.seq in
      let object' : TargetSession = record object { dedup_window = after.0 } in
      let here : get (insert s.objects h object') h ≡ some object' =
        get-insert s.objects h h object' ∙ rw (==_refl h) refl in
      let keeps : KeepsObjects s (insert s.objects h object') s.made =
        put_keeps s h object object' v e (is_duplicate-IsValid w p.seq valid k)
          (λ q r. rejects-persists w p.seq q valid k r) in
      elim (Bool-cases after.1) [
        | inl duplicate ↦
            rw (e, ask_window, duplicate)
              (moved s _ i idle v refl refl refl keeps tt (λ j q f. absurd (cc f)))
        | inr new_seq ↦
            rw (e, ask_window, new_seq)
              (let_in s _ i h p v refl refl refl keeps k
                (ap (λ o. object_knows o p.seq) e ∙ sym (is_duplicate-rejects w p.seq) ∙ new_seq)
                (ap (λ o. object_knows o p.seq) here ∙ rejects-is_duplicate w p.seq valid k))
      ]
]
