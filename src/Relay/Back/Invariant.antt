-- ===== src/Relay/Back/Invariant.antt =====
-- What holds of responses in a network of fproxy-rs/src/server.rs and fproxy-rs/src/client.rs.
use fproxy.Base.{
  ℕ, ◌+◌, ◌≤◌, ◌<◌, List, [], ◌∷◌, ◌++◌, ◌≡◌, refl, inl, inr, ◌∙◌, ap, sym, arith, true, false,
  ◌==◌, none, some, Bytes, All, All-append, Bool-cases, Option-cases, nat_eq, u32_mod, u64_mod,
  length, map, ◌⊎◌,
}
use fproxy.Base.HashMap.{get}
use fproxy.Protocol.{Decoded}
use fproxy.Frame.{max_tcp_frame_size}
use fproxy.Client.State.{Client}
use fproxy.Client.Maps.{IsInverse, Issued}
use fproxy.Client.Windows.{IsSound, knows}
use fproxy.Client.Numbers.{has_key, KeysDistinct}
use fproxy.Server.State.{Server, TargetSession}
use fproxy.Server.State as ServerState
use fproxy.Server.Responses.{send_response_to_all_paths}
use fproxy.Server.Events as ServerEvents
use fproxy.Relay.{Any}
use fproxy.Relay.Downstream.{Decodes}
use fproxy.Relay.Network.Invariant.{IsGiven}
use fproxy.Relay.Back.Defs.{World, answer}
use fproxy.Relay.Back.Answers.{next_of, SameNext, IsAnswered, response-IsAnswered}

-- The output carries one of the responses.
abbrev pub Shows : List Decoded → ServerState.Output → Type 0
Shows answered o = Any (λ (d : Decoded). Decodes d.0 d.1 d.2 o) answered

-- The delivery is of one of the responses.
abbrev pub IsAnswer : List Decoded → ℕ × Decoded → Type 0
IsAnswer answered p = IsGiven answered p.1

-- The delivery went to the source of its session, whose window knows the number.
abbrev pub IsKept : Client → ℕ × Decoded → Type 0
IsKept c (a, (k, q, payload)) = (get c.udp_session_addrs k ≡ some a) × (knows c a q ≡ true)

-- What was delivered, without the sources.
abbrev pub contents : List (ℕ × Decoded) → List Decoded
contents ps = map (λ (p : ℕ × Decoded). p.1) ps

pub record IsReturning (initial n : ℕ) (w : World) : Type 0 where
  pub below : (k q : ℕ) → has_key w.answered k q ≡ true → q < next_of (get w.server.sessions k)
  pub bounded : (k : ℕ) → next_of (get w.server.sessions k) ≤ length w.answered
  pub distinct : KeysDistinct w.answered
  pub carried : All (Shows w.answered) w.sent
  pub inverse : IsInverse w.client
  pub issued : Issued initial n w.client
  pub sound : IsSound w.client
  pub kept : All (IsKept w.client) w.delivered
  pub once : KeysDistinct (contents w.delivered)
  pub answers_first : All (IsAnswer w.answered) w.delivered

more_IsAnswer :
    (answered : List Decoded) (d : Decoded) (ps : List (ℕ × Decoded))
    → All (IsAnswer answered) ps
    → All (IsAnswer (d ∷ answered)) ps
more_IsAnswer answered d [] h = tt
more_IsAnswer answered d (p ∷ ps) h = (inr h.0, more_IsAnswer answered d ps h.1)

more_Shows :
    (answered : List Decoded) (d : Decoded) (os : List ServerState.Output)
    → All (Shows answered) os
    → All (Shows (d ∷ answered)) os
more_Shows answered d [] h = tt
more_Shows answered d (o ∷ os) h = (inr h.0, more_Shows answered d os h.1)

new_Shows :
    (answered : List Decoded) (k q : ℕ) (payload : Bytes) (os : List ServerState.Output)
    → All (Decodes k q payload) os
    → All (Shows ((k, q, payload) ∷ answered)) os
new_Shows answered k q payload [] h = tt
new_Shows answered k q payload (o ∷ os) h = (inl h.0, new_Shows answered k q payload os h.1)

unknown_answer :
    (s : Server) (now k : ℕ) (payload : Bytes)
    → get s.sessions k ≡ none
    → ServerEvents.step s (ServerEvents.target_response now k payload) ≡ (s, [])
unfolding ServerEvents.step send_response_to_all_paths
unknown_answer s now k payload e = rw (e, send_response_to_all_paths)

-- The session's number moves past the one that the response got.
answered-IsReturning :
    (initial n : ℕ) (w : World) (s : Server) (k : ℕ) (payload : Bytes) (t : TargetSession)
    (os : List ServerState.Output)
    → IsReturning initial n w
    → get w.server.sessions k ≡ some t
    → IsAnswered w.server s k payload t os
    → IsReturning initial n (record w {
      server = s;
      sent = os ++ w.sent;
      answered = (k, t.response_seq, payload) ∷ w.answered;
    })
answered-IsReturning initial n w s k payload t os v e i =
    let here : next_of (get w.server.sessions k) ≡ t.response_seq = ap next_of e in
    let after : (j : ℕ)
        → ((k ≡ j) × (next_of (get s.sessions j) ≡ t.response_seq + 1))
          ⊎ (((k == j) ≡ false)
              × (next_of (get s.sessions j) ≡ next_of (get w.server.sessions j))) =
      λ j. elim (Bool-cases (k == j)) [
        | inl same ↦
            let kj : k ≡ j = ground arith in
            inl (kj, ap (λ (x : ℕ). next_of (get s.sessions x)) (sym kj) ∙ i.passed)
        | inr other ↦ inr (other, ap next_of (i.others j other))
      ] in
    record {
      below = λ j q f. elim (after j) [
        | inl (kj, next) ↦ elim (Bool-cases (has_key w.answered j q)) [
          | inl old ↦ omega (
            arith,
            v.below j q old,
            next,
            here,
            ap (λ (x : ℕ). next_of (get w.server.sessions x)) kj,
          )
          | inr new_key ↦ ground (arith, next, new_key, f)
        ]
        | inr (other, same) ↦ rw same (v.below j q (ground (arith, other, f)))
      ];
      bounded = λ j. elim (after j) [
        | inl (kj, next) ↦ omega (arith, next, here, v.bounded k)
        | inr (other, same) ↦ omega (arith, same, v.bounded j)
      ];
      distinct = (
        elim (Bool-cases (has_key w.answered k t.response_seq)) [
          | inl old ↦ absurd (omega (arith, v.below k t.response_seq old, here))
          | inr new_key ↦ new_key
        ],
        v.distinct,
      );
      carried =
          All-append (Shows ((k, t.response_seq, payload) ∷ w.answered)) os w.sent
            (new_Shows w.answered k t.response_seq payload os i.outputs)
            (more_Shows w.answered (k, t.response_seq, payload) w.sent v.carried);
      inverse = v.inverse;
      issued = v.issued;
      sound = v.sound;
      kept = v.kept;
      once = v.once;
      answers_first =
          more_IsAnswer w.answered (k, t.response_seq, payload) w.delivered v.answers_first;
    }

-- A server whose sessions go on where they were, and that sends nothing.
pub server-IsReturning :
    (initial n : ℕ) (w : World) (s : Server)
    → IsReturning initial n w
    → SameNext w.server s
    → IsReturning initial n (record w { server = s })
server-IsReturning initial n w s v same = record {
  below = λ k q f. rw (same k) (v.below k q f);
  bounded = λ k. rw (same k) (v.bounded k);
  distinct = v.distinct;
  carried = v.carried;
  inverse = v.inverse;
  issued = v.issued;
  sound = v.sound;
  kept = v.kept;
  once = v.once;
  answers_first = v.answers_first;
}

-- With fewer than 2^32 - 1 responses, an answer keeps it.
pub answer-IsReturning :
    (initial n : ℕ) (w : World) (now k : ℕ) (payload : Bytes)
    → IsReturning initial n w
    → length w.answered + 1 < u32_mod
    → k < u64_mod
    → 12 + length payload ≤ max_tcp_frame_size
    → IsReturning initial n (answer w now k payload)
answer-IsReturning initial n w now k payload v h hk hp =
    elim (Option-cases (get w.server.sessions k)) [
      | inl e ↦
          rw (e, unknown_answer w.server now k payload e)
            (server-IsReturning initial n w w.server v (λ j. refl))
      | inr (t, e) ↦
          let bound : t.response_seq + 1 < u32_mod = omega (arith, v.bounded k, ap next_of e) in
          rw e (
            answered-IsReturning initial n w _ k payload t _ v e
              (response-IsAnswered w.server now k payload t e hk bound hp))
    ]
