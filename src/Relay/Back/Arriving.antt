-- ===== src/Relay/Back/Arriving.antt =====
-- What one arrival does in a network of fproxy-rs/src/server.rs and fproxy-rs/src/client.rs.
use fproxy.Base.{
  ℕ, ◌+◌, ◌≤◌, ◌<◌, List, [], ◌∷◌, ◌≡◌, refl, inl, inr, ◌∙◌, sym, false, Bytes, All, Bool-cases,
  nat_eq, u64_mod, ok,
}
use fproxy.Protocol.{Decoded}
use fproxy.Client.Events.{Event, packet, udp_response, tcp_response, tcp_closed, tick, step}
use fproxy.Client.Runs.{step-Advanced}
use fproxy.Client.Once.{EndsNothing, step-Keeps}
use fproxy.Client.Numbers.{has_key}
use fproxy.Server.State as ServerState
use fproxy.Relay.{Any}
use fproxy.Relay.Downstream.{ArrivesBack, BringsBack, arrived-BringsBack}
use fproxy.Relay.Network.Invariant.{IsGiven}
use fproxy.Relay.Back.Defs.{World, bring, decoded, source_of, IsOnOwnConn, ReturnsNothing}
use fproxy.Relay.Back.Sources.{step_sources, brought-Arrived}
use fproxy.Relay.Back.Invariant.{Shows, contents, IsReturning}
use fproxy.Relay.Back.Returned.{known_contents, client-IsReturning, returned-IsReturning}

-- The arrival carries one of the responses.
record Carries (answered : List Decoded) (e : Event) : Type 0 where
  k : ℕ
  seq : ℕ
  payload : Bytes
  is_given : IsGiven answered (k, seq, payload)
  brings : BringsBack e k (source_of e) seq payload

more_Carries :
    (d : Decoded) (answered : List Decoded) (e : Event)
    → Carries answered e
    → Carries (d ∷ answered) e
more_Carries d answered e b = record {
  k = b.k;
  seq = b.seq;
  payload = b.payload;
  is_given = inr b.is_given;
  brings = b.brings;
}

output_Carries :
    (answered : List Decoded) (e : Event) (o : ServerState.Output)
    → ArrivesBack (source_of e) e o
    → Shows answered o
    → Carries answered e
output_Carries [] e o r h = absurd h
output_Carries ((k, seq, payload) ∷ answered) e o r (inl d) = record {
  k = k;
  seq = seq;
  payload = payload;
  is_given = inl refl;
  brings = arrived-BringsBack e o k (source_of e) seq payload r d;
}
output_Carries (d ∷ answered) e o r (inr h) =
    more_Carries d answered e (output_Carries answered e o r h)

arrival_Carries :
    (answered : List Decoded) (e : Event) (os : List ServerState.Output)
    → Any (ArrivesBack (source_of e) e) os
    → All (Shows answered) os
    → Carries answered e
arrival_Carries answered e [] r h = absurd r
arrival_Carries answered e (o ∷ os) (inl r) h = output_Carries answered e o r h.0
arrival_Carries answered e (o ∷ os) (inr r) h = arrival_Carries answered e os r h.1

brought-decoded :
    (e : Event) (k a seq : ℕ) (payload : Bytes)
    → BringsBack e k a seq payload
    → decoded e ≡ ok (k, seq, payload)
brought-decoded (packet env b p) k a seq payload h = absurd h
brought-decoded (udp_response now bytes) k a seq payload h = h.1
brought-decoded (tcp_response now b bytes) k a seq payload h = h.2
brought-decoded (tcp_closed key) k a seq payload h = absurd h
brought-decoded (tick now) k a seq payload h = absurd h

-- An arrival returns one of the responses that was not returned before, or nothing.
pub bring-IsReturning :
    (initial n : ℕ) (w : World) (e : Event)
    → IsReturning initial n w
    → n + 2 < u64_mod
    → Any (ArrivesBack (source_of e) e) w.sent
    → IsOnOwnConn w.client e
    → (m : ℕ) × (m ≤ n + 2) × IsReturning initial m (bring w e)
bring-IsReturning initial n w e v h r own =
    let b : Carries w.answered e = arrival_Carries w.answered e w.sent r v.carried in
    let adv = step-Advanced initial n w.client e v.inverse v.issued h in
    let arrived = brought-Arrived w.client e b.k b.seq b.payload v.sound v.inverse b.brings own in
    let read = brought-decoded e b.k (source_of e) b.seq b.payload b.brings in
    let after =
      client-IsReturning initial n adv.passed w (step w.client e).0 v adv.inverse adv.issued
        arrived.keeps arrived.sources in
    (
      adv.passed,
      adv.at_most,
      elim arrived.gives [
        | inl nothing ↦ rw (nothing, read) after
        | inr (a, g, one, fresh, learned) ↦
            let new_key : has_key (contents w.delivered) b.k b.seq ≡ false =
              elim (Bool-cases (has_key (contents w.delivered) b.k b.seq)) [
                | inr new_key ↦ new_key
                | inl old ↦
                    absurd (
                      cc (sym fresh ∙ known_contents w.client w.delivered b.k a b.seq v.kept g old))
              ] in
            rw (one, read)
              (returned-IsReturning initial adv.passed _ a b.k b.seq b.payload after new_key
                (arrived.sources b.k a g, learned) b.is_given)
      ],
    )

quiet-EndsNothing : (e : Event) → ReturnsNothing e → EndsNothing e
quiet-EndsNothing (packet env a payload) h = tt
quiet-EndsNothing (udp_response now bytes) h = absurd h
quiet-EndsNothing (tcp_response now a bytes) h = absurd h
quiet-EndsNothing (tcp_closed key) h = tt
quiet-EndsNothing (tick now) h = absurd h

pub quiet-IsReturning :
    (initial n : ℕ) (w : World) (e : Event)
    → IsReturning initial n w
    → n + 2 < u64_mod
    → ReturnsNothing e
    → (m : ℕ) × (m ≤ n + 2) × IsReturning initial m (record w { client = (step w.client e).0 })
quiet-IsReturning initial n w e v h q =
    let adv = step-Advanced initial n w.client e v.inverse v.issued h in
    (
      adv.passed,
      adv.at_most,
      client-IsReturning initial n adv.passed w (step w.client e).0 v adv.inverse adv.issued
          (step-Keeps w.client e (quiet-EndsNothing e q) v.sound)
          (step_sources initial n w.client e v.issued h q),
    )
