-- ===== src/Server/Tasks/Invariant.antt =====
-- What holds of the tasks and the objects that they share, in every interleaving.
use fproxy.Base.{
  ℕ, ◌≤◌, ◌≡◌, refl, ◌∙◌, ap, Bool, true, false, ◌&&◌, ◌||◌, List, [], ◌∷◌, arith, ◌==◌, Option,
  none, some, ◌⊎◌, inl, inr, Bool-cases, nat_eq, if◌then◌else◌, unwrap_or,
}
use fproxy.Base.HashMap.{get, insert, get-insert}
use fproxy.Config.{ServerConfig}
use fproxy.Server.Window.Invariant.{IsValid, IsSeq, IsSize}
use fproxy.Server.Window.Once.{rejects}
use fproxy.Server.State.{TargetSession}
use fproxy.Server.Tasks.Defs.{
  Task, idle, looking, missed, holding, active, passed, mapped, registered, Sent, System, init,
  task_of,
}

-- Whether the window of object `h` would call `q` a duplicate.
abbrev pub object_knows : Option TargetSession → ℕ → Bool
object_knows none q = false
object_knows (some object) q = rejects object.dedup_window q

-- The window of object `h` has let the task's packet, with number `q`, through, and it is not sent yet.
abbrev pub let_through : Task → ℕ → ℕ → Bool
let_through idle h q = false
let_through (looking p) h q = false
let_through (missed p) h q = false
let_through (holding p j) h q = false
let_through (active p j) h q = false
let_through (passed p j) h q = j == h && p.seq == q
let_through (mapped p j) h q = j == h && p.seq == q
let_through (registered p j) h q = j == h && p.seq == q

-- The numbers of packets fit 32 bits.
abbrev pub HasSeq : Task → Type 0
HasSeq idle = Unit
HasSeq (looking p) = IsSeq p.seq
HasSeq (missed p) = IsSeq p.seq
HasSeq (holding p h) = IsSeq p.seq
HasSeq (active p h) = IsSeq p.seq
HasSeq (passed p h) = IsSeq p.seq
HasSeq (mapped p h) = IsSeq p.seq
HasSeq (registered p h) = IsSeq p.seq

abbrev pub was_sent : List Sent → ℕ → ℕ → Bool
was_sent [] h q = false
was_sent (e ∷ sent) h q = (e.object == h && e.seq == q) || was_sent sent h q

-- No object has sent a number twice.
abbrev pub SentOnce : List Sent → Type 0
SentOnce [] = Unit
SentOnce (e ∷ sent) = (was_sent sent e.object e.seq ≡ false) × SentOnce sent

pub record IsOnce (s : System) : Type 0 where
  pub sized : IsSize s.cfg.dedup_window
  pub unmade : (h : ℕ) → s.made ≤ h → get s.objects h ≡ none
  pub windows :
      (h : ℕ) (object : TargetSession) → get s.objects h ≡ some object → IsValid object.dedup_window
  pub seqs : (i : ℕ) → HasSeq (task_of s i)
  pub known_through :
      (i h q : ℕ) → let_through (task_of s i) h q ≡ true → object_knows (get s.objects h) q ≡ true
  pub known_sent : (h q : ℕ) → was_sent s.sent h q ≡ true → object_knows (get s.objects h) q ≡ true
  pub one_task :
      (i j h q : ℕ)
      → let_through (task_of s i) h q ≡ true
      → let_through (task_of s j) h q ≡ true
      → i ≡ j
  pub unsent : (i h q : ℕ) → let_through (task_of s i) h q ≡ true → was_sent s.sent h q ≡ false
  pub once : SentOnce s.sent

pub init-IsOnce : (cfg : ServerConfig) → IsSize cfg.dedup_window → IsOnce (init cfg)
unfolding init get
init-IsOnce cfg h = record {
  sized = h;
  unmade = λ h' le. refl;
  windows = λ h' object e. absurd (cc e);
  seqs = λ i. tt;
  known_through = λ i h' q e. absurd (cc e);
  known_sent = λ h' q e. absurd (cc e);
  one_task = λ i j h' q e. absurd (cc e);
  unsent = λ i h' q e. refl;
  once = tt;
}

-- After task `i` has gone to `t`, it is there, and the others are where they were.
pub went :
    (s s' : System) (i : ℕ) (t : Task)
    → s'.tasks ≡ insert s.tasks i t
    → (j : ℕ) → ((i ≡ j) × (task_of s' j ≡ t)) ⊎ (((i == j) ≡ false) × (task_of s' j ≡ task_of s j))
went s s' i t tasks j =
    let at : task_of s' j ≡ (if i == j then t else task_of s j) =
      ap (λ m. unwrap_or (get m j) idle) tasks ∙ rw (get-insert s.tasks i j t) (ground arith) in
    elim (Bool-cases (i == j)) [
      | inl same ↦ inl (ground arith, at ∙ rw same refl)
      | inr other ↦ inr (other, at ∙ rw other refl)
    ]

-- A step that sends nothing and lets nothing new through.
pub record IsQuiet (s s' : System) : Type 0 where
  pub cfg : s'.cfg ≡ s.cfg
  pub unmade : (h : ℕ) → s'.made ≤ h → get s'.objects h ≡ none
  pub windows :
      (h : ℕ) (object : TargetSession)
      → get s'.objects h ≡ some object
      → IsValid object.dedup_window
  pub more :
      (h q : ℕ) → object_knows (get s.objects h) q ≡ true → object_knows (get s'.objects h) q ≡ true
  pub fewer :
      (i h q : ℕ) → let_through (task_of s' i) h q ≡ true → let_through (task_of s i) h q ≡ true
  pub seqs : (i : ℕ) → HasSeq (task_of s' i)
  pub sent : s'.sent ≡ s.sent

pub IsQuiet-IsOnce : (s s' : System) → IsQuiet s s' → IsOnce s → IsOnce s'
IsQuiet-IsOnce s s' k v = record {
  sized = rw k.cfg v.sized;
  unmade = k.unmade;
  windows = k.windows;
  seqs = k.seqs;
  known_through = λ i h q e. k.more h q (v.known_through i h q (k.fewer i h q e));
  known_sent = λ h q e. k.more h q (v.known_sent h q (rw (← k.sent) e));
  one_task = λ i j h q e f. v.one_task i j h q (k.fewer i h q e) (k.fewer j h q f);
  unsent = λ i h q e. rw k.sent (v.unsent i h q (k.fewer i h q e));
  once = rw k.sent v.once;
}
