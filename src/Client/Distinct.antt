-- ===== src/Client/Distinct.antt =====
-- No two packets of a client in fproxy-rs/src/client.rs share an id and a number.
use fproxy.Base.{ℕ, ◌+◌, ◌*◌, ◌≤◌, ◌<◌, List, [], ◌∷◌, ◌++◌, arith, nat_eq, u64_mod, length}
use fproxy.Config.{ClientConfig}
use fproxy.Protocol.{Decoded}
use fproxy.Client.State.{Client, key_Eq, new}
use fproxy.Client.Events.{Event, packet, udp_response, tcp_response, tcp_closed, tick, step}
use fproxy.Client.Numbers.{
  KeysDistinct, given_by, half, IsNumbered, new-IsNumbered, other-IsNumbered,
}
use fproxy.Client.Numbering.{packet-IsNumbered}

-- All that a client has given, the last first.
unfoldable pub given_by_run : Client → List Event → List Decoded → List Decoded
given_by_run c [] given = given
given_by_run c (e ∷ es) given = given_by_run (step c e).0 es (given_by c e ++ given)

event-IsNumbered :
    (given : List Decoded) (initial n : ℕ) (c : Client) (e : Event)
    → IsNumbered given initial n c
    → n + 2 < u64_mod
    → length given < half
    → (m : ℕ) × (m ≤ n + 2) × IsNumbered (given_by c e ++ given) initial m (step c e).0
unfolding step given_by
event-IsNumbered given initial n c (packet env a payload) v h k =
    let (m, hi, _, _, w) = packet-IsNumbered given initial n c env a payload v h k in (m, hi, w)
event-IsNumbered given initial n c (udp_response now bytes) v h k =
    other-IsNumbered given initial n c (udp_response now bytes) v tt h
event-IsNumbered given initial n c (tcp_response now a bytes) v h k =
    other-IsNumbered given initial n c (tcp_response now a bytes) v tt h
event-IsNumbered given initial n c (tcp_closed key) v h k =
    other-IsNumbered given initial n c (tcp_closed key) v tt h
event-IsNumbered given initial n c (tick now) v h k =
    other-IsNumbered given initial n c (tick now) v tt h

length-given_by :
    (c : Client) (e : Event) (given : List Decoded)
    → length (given_by c e ++ given) ≤ length given + 1
unfolding given_by
length-given_by c (packet env a payload) given = omega arith
length-given_by c (udp_response now bytes) given = omega arith
length-given_by c (tcp_response now a bytes) given = omega arith
length-given_by c (tcp_closed key) given = omega arith
length-given_by c (tick now) given = omega arith

run-IsNumbered :
    (given : List Decoded) (initial n : ℕ) (c : Client) (es : List Event)
    → IsNumbered given initial n c
    → n + 2 * length es < u64_mod
    → length given + length es ≤ half
    → KeysDistinct (given_by_run c es given)
unfolding given_by_run
run-IsNumbered given initial n c [] v h k = v.distinct
run-IsNumbered given initial n c (e ∷ es) v h k =
    let (m, hi, w) = event-IsNumbered given initial n c e v (omega arith) (omega arith) in
    run-IsNumbered (given_by c e ++ given) initial m (step c e).0 es w (omega arith)
      (omega (arith, length-given_by c e given))

-- With a counter that starts at any 64-bit number, over at most 2^31 events, no two packets go out
-- under the same session id and number, whatever responses arrive and whichever sessions end in
-- between.
pub given_by_run-KeysDistinct :
    (cfg : ClientConfig) (initial : ℕ) (es : List Event)
    → initial < u64_mod
    → length es ≤ half
    → KeysDistinct (given_by_run (new cfg initial) es [])
given_by_run-KeysDistinct cfg initial es h k =
    run-IsNumbered [] initial 0 (new cfg initial) es (new-IsNumbered cfg initial h) (omega arith)
      (omega arith)
