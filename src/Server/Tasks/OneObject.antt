-- ===== src/Server/Tasks/OneObject.antt =====
-- While the clean-up of fproxy-rs/src/server.rs does not run, no session sends a number twice.
use fproxy.Base.{
  ℕ, ◌≡◌, ◌∙◌, ap, sym, Bool, true, false, ◌&&◌, ◌||◌, List, [], ◌∷◌, arith, ◌==◌, some, inl, inr,
  Bool-cases, nat_eq, ==_refl, All, some_inj,
}
use fproxy.Base.HashMap.{HashMap, get}
use fproxy.Config.{ServerConfig}
use fproxy.Server.Window.Invariant.{IsSize}
use fproxy.Server.Tasks.Defs.{Sent, init, Action, interleave}
use fproxy.Server.Tasks.Invariant.{was_sent, SentOnce}
use fproxy.Server.Tasks.Once.{HasSeqs, interleave-SentOnce}
use fproxy.Server.Tasks.Shared.{sent_by, IsShared}
use fproxy.Server.Tasks.Sharing.{NoExpiry, interleave-IsShared, init-IsShared}

-- Whether number `q` was sent for the session `k`, by any object.
abbrev pub sent_for : List Sent → ℕ → ℕ → Bool
sent_for [] k q = false
sent_for (e ∷ sent) k q = (e.session_id == k && e.seq == q) || sent_for sent k q

-- No session has sent a number twice.
abbrev pub SentOnceFor : List Sent → Type 0
SentOnceFor [] = Unit
SentOnceFor (e ∷ sent) = (sent_for sent e.session_id e.seq ≡ false) × SentOnceFor sent

-- With one object for each session, what a session sent, the object did.
sent_for-was_sent :
    (sent : List Sent) (sessions : HashMap ℕ ℕ) (k q h : ℕ)
    → ((k' h' : ℕ) → sent_by sent k' h' ≡ true → get sessions k' ≡ some h')
    → get sessions k ≡ some h
    → sent_for sent k q ≡ true
    → was_sent sent h q ≡ true
sent_for-was_sent [] sessions k q h own e f = absurd (cc f)
sent_for-was_sent (x ∷ sent) sessions k q h own e f =
    elim (Bool-cases (x.session_id == k && x.seq == q)) [
      | inl here ↦
          let xk : x.session_id ≡ k = ground arith in
          let xh : x.object ≡ h = some_inj (
            sym (own x.session_id x.object (ground (arith, ==_refl x.session_id, ==_refl x.object)))
            ∙ ap (get sessions) xk
            ∙ e) in
          ground arith
      | inr elsewhere ↦
          let rest : was_sent sent h q ≡ true =
            sent_for-was_sent sent sessions k q h (λ k' h' g. own k' h' (ground arith)) e
              (ground arith) in
          ground (arith, rest)
    ]

SentOnce-SentOnceFor :
    (sent : List Sent) (sessions : HashMap ℕ ℕ)
    → ((k h : ℕ) → sent_by sent k h ≡ true → get sessions k ≡ some h)
    → SentOnce sent
    → SentOnceFor sent
SentOnce-SentOnceFor [] sessions own once = tt
SentOnce-SentOnceFor (x ∷ sent) sessions own once =
    let here : get sessions x.session_id ≡ some x.object =
      own x.session_id x.object (ground (arith, ==_refl x.session_id, ==_refl x.object)) in
    let rest : (k h : ℕ) → sent_by sent k h ≡ true → get sessions k ≡ some h =
      λ k h e. own k h (ground arith) in
    (
      elim (Bool-cases (sent_for sent x.session_id x.seq)) [
        | inl again ↦ absurd (
            cc (
              sym once.0
              ∙ sent_for-was_sent sent sessions x.session_id x.seq x.object rest here again))
        | inr new_seq ↦ new_seq
      ],
      SentOnce-SentOnceFor sent sessions rest once.1,
    )

-- With a window of a size from 1 to 2^32 - 1, and while the clean-up does not start, however the
-- handlers of packets with 32-bit numbers interleave, no session sends a number to its target
-- twice, not even when several packets of a session that is not there yet arrive at once.
pub interleave-SentOnceFor :
    (cfg : ServerConfig) (actions : List Action)
    → IsSize cfg.dedup_window
    → All HasSeqs actions
    → All NoExpiry actions
    → SentOnceFor (interleave (init cfg) actions).sent
interleave-SentOnceFor cfg actions h k n =
    let v : IsShared (interleave (init cfg) actions) =
      interleave-IsShared (init cfg) actions (init-IsShared cfg) n in
    SentOnce-SentOnceFor _ _ v.from_map (interleave-SentOnce cfg actions h k)
