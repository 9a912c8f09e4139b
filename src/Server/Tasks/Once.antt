-- ===== src/Server/Tasks/Once.antt =====
-- No session object of fproxy-rs/src/server.rs sends a number twice, however tasks interleave.
use fproxy.Base.{
  ℕ, ◌≡◌, refl, ap, sym, subst, true, List, [], ◌∷◌, inl, inr, Bool-cases, nat_eq, unwrap_or, All,
}
use fproxy.Base.HashMap.{get}
use fproxy.Config.{ServerConfig}
use fproxy.Server.Window.Invariant.{IsSeq, IsSize}
use fproxy.Server.Packets.{Net}
use fproxy.Server.Tasks.Defs.{
  Packet, Task, idle, looking, missed, holding, active, passed, mapped, registered, System, init,
  task_of, is_free, advance, arrive, expire, clear, Action, arrives, advances, expires, clears, act,
  interleave,
}
use fproxy.Server.Tasks.Invariant.{
  let_through, HasSeq, SentOnce, IsOnce, IsQuiet-IsOnce, init-IsOnce,
}
use fproxy.Server.Tasks.Moves.{KeepsObjects, same_objects}
use fproxy.Server.Tasks.Lookup.{calm, look-IsOnce, create-IsOnce, touch-IsOnce}
use fproxy.Server.Tasks.Asking.{ask_window-IsOnce}
use fproxy.Server.Tasks.Sending.{map_conn-IsOnce, register-IsOnce, send-IsOnce}

arrive-IsOnce :
    (s : System) (i : ℕ) (p : Packet) (t : Task) → IsOnce s → IsSeq p.seq → IsOnce (arrive s i p t)
unfolding arrive
arrive-IsOnce s i p idle v k = calm s i (looking p) v k (λ h q e. absurd (cc e))
arrive-IsOnce s i p (looking _) v k = v
arrive-IsOnce s i p (missed _) v k = v
arrive-IsOnce s i p (holding _ h) v k = v
arrive-IsOnce s i p (active _ h) v k = v
arrive-IsOnce s i p (passed _ h) v k = v
arrive-IsOnce s i p (mapped _ h) v k = v
arrive-IsOnce s i p (registered _ h) v k = v

advance-IsOnce :
    (s : System) (net : Net) (now i : ℕ) (t : Task)
    → IsOnce s
    → task_of s i ≡ t
    → HasSeq t
    → IsOnce (advance s net now i t)
unfolding advance
advance-IsOnce s net now i idle v e k = v
advance-IsOnce s net now i (looking p) v e k = look-IsOnce s i p v k
advance-IsOnce s net now i (missed p) v e k = create-IsOnce s net now i p v k
advance-IsOnce s net now i (holding p h) v e k = touch-IsOnce s now i p h v k
advance-IsOnce s net now i (active p h) v e k = ask_window-IsOnce s i p h v k
advance-IsOnce s net now i (passed p h) v e k = map_conn-IsOnce s i p h v k e
advance-IsOnce s net now i (mapped p h) v e k = register-IsOnce s i p h v k e
advance-IsOnce s net now i (registered p h) v e k = send-IsOnce s i p h v e

-- The clean-up takes ids out of maps; objects and tasks stay.
kept :
    (s s' : System)
    → IsOnce s
    → s'.tasks ≡ s.tasks
    → s'.cfg ≡ s.cfg
    → s'.sent ≡ s.sent
    → KeepsObjects s s'.objects s'.made
    → IsOnce s'
kept s s' v tasks cfg sent k =
    let same : (j : ℕ) → task_of s' j ≡ task_of s j =
      λ j. ap (λ m. unwrap_or (get m j) idle) tasks in
    IsQuiet-IsOnce s s'
      (record {
        cfg = cfg;
        unmade = k.unmade;
        windows = k.windows;
        more = k.more;
        fewer = λ j h q e. subst (λ (x : Task). let_through x h q ≡ true) (same j) e;
        seqs = λ j. subst HasSeq (sym (same j)) (v.seqs j);
        sent = sent;
      })
      v

expire-IsOnce : (s : System) (now : ℕ) → IsOnce s → IsOnce (expire s now)
unfolding expire
expire-IsOnce s now v = elim (Bool-cases (is_free s.clearing)) [
  | inl free ↦ rw free (kept s _ v refl refl refl (same_objects s v))
  | inr busy ↦ rw busy v
]

clear-IsOnce : (s : System) (ids : List ℕ) → IsOnce s → IsOnce (clear s ids)
unfolding clear
clear-IsOnce s [] v = v
clear-IsOnce s (k ∷ ids) v = kept s _ v refl refl refl (same_objects s v)

-- The numbers of packets that arrive fit 32 bits.
abbrev pub HasSeqs : Action → Type 0
HasSeqs (arrives i p) = IsSeq p.seq
HasSeqs (advances net now i) = Unit
HasSeqs (expires now) = Unit
HasSeqs clears = Unit

act-IsOnce : (s : System) (a : Action) → IsOnce s → HasSeqs a → IsOnce (act s a)
unfolding act
act-IsOnce s (arrives i p) v k = arrive-IsOnce s i p (task_of s i) v k
act-IsOnce s (advances net now i) v k = advance-IsOnce s net now i (task_of s i) v refl (v.seqs i)
act-IsOnce s (expires now) v k = expire-IsOnce s now v
act-IsOnce s clears v k = clear-IsOnce s s.clearing v

pub interleave-IsOnce :
    (s : System) (actions : List Action)
    → IsOnce s
    → All HasSeqs actions
    → IsOnce (interleave s actions)
unfolding interleave
interleave-IsOnce s [] v k = v
interleave-IsOnce s (a ∷ actions) v k =
    interleave-IsOnce (act s a) actions (act-IsOnce s a v k.0) k.1

-- With a window of a size from 1 to 2^32 - 1, however the handlers of packets with 32-bit numbers
-- and the clean-up interleave between the sections that they run under a lock, no session object
-- sends a number to its target twice.
pub interleave-SentOnce :
    (cfg : ServerConfig) (actions : List Action)
    → IsSize cfg.dedup_window
    → All HasSeqs actions
    → SentOnce (interleave (init cfg) actions).sent
interleave-SentOnce cfg actions h k =
    (interleave-IsOnce (init cfg) actions (init-IsOnce cfg h) k).once
