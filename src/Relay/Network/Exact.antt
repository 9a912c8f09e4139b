-- ===== src/Relay/Network/Exact.antt =====
-- Every delivery in a network of fproxy-rs/src/client.rs and fproxy-rs/src/server.rs is that of one packet.
use fproxy.Base.{ℕ, ◌+◌, ◌*◌, ◌≤◌, ◌<◌, [], arith, All, nat_eq, u64_mod, length}
use fproxy.Config.{ClientConfig, ServerConfig}
use fproxy.Client.State.{Client}
use fproxy.Client.State as ClientState
use fproxy.Client.SameMaps.{SameMaps, SameMaps-IsInverse, SameMaps-Issued}
use fproxy.Client.Numbers.{given_by, KeysDistinct, half, IsNumbered, new-IsNumbered}
use fproxy.Server.State.{new}
use fproxy.Server.Window.Invariant.{IsSize}
use fproxy.Server.Expiry.{run-IsSound}
use fproxy.Server.Events.{run}
use fproxy.Server.Once.{step-Keeps}
use fproxy.Relay.Network.Defs.{
  World, begin, Moves, takes, client_moves, arrives, server_moves, Reaches, start, next,
}
use fproxy.Relay.Network.Invariant.{
  IsGiven, IsExact, take-IsExact, client-IsExact, kept-IsExact, quiet-EndsNothing, bring-IsExact,
}

move-IsExact :
    (initial n : ℕ) (w w' : World)
    → Moves w w'
    → IsExact initial n w
    → n + 2 < u64_mod
    → length w'.given ≤ half
    → (m : ℕ) × (m ≤ n + 2) × IsExact initial m w'
unfolding given_by
move-IsExact initial n w _ (takes env a payload) v h k =
    take-IsExact initial n w env a payload v h (omega arith)
move-IsExact initial n w _ (client_moves e g) v h k = client-IsExact initial n w e v h g
move-IsExact initial n w _ (arrives e b r) v h k =
    (n, omega arith, bring-IsExact initial n w e v b r)
move-IsExact initial n w _ (server_moves e q) v h k = (
  n,
  omega arith,
  kept-IsExact initial n w _ v (step-Keeps w.server e (quiet-EndsNothing e q) v.sound),
)

move-given : (w w' : World) → Moves w w' → length w.given ≤ length w'.given
unfolding given_by
move-given w _ (takes env a payload) = omega arith
move-given w _ (client_moves e g) = omega arith
move-given w _ (arrives e b r) = omega arith
move-given w _ (server_moves e q) = omega arith

reach-IsExact :
    (initial : ℕ) (w : World) (n : ℕ) (w' : World)
    → Reaches w n w'
    → IsExact initial 0 w
    → 2 * n < u64_mod
    → length w'.given ≤ half
    → (m : ℕ) × (m ≤ 2 * n) × IsExact initial m w'
reach-IsExact initial w _ _ start v h k = (0, omega arith, v)
reach-IsExact initial w _ _ (next n u u' r move) v h k =
    let (m, hi, mid) =
      reach-IsExact initial w n u r v (omega arith) (omega (arith, move-given u u' move)) in
    let (m', hi', last) = move-IsExact initial m u u' move mid (omega arith) k in
    (m', omega arith, last)

-- A client that has not worked yet, whatever sockets it has.
started-IsNumbered :
    (cfg : ClientConfig) (initial : ℕ) (c : Client)
    → initial < u64_mod
    → SameMaps (ClientState.new cfg initial) c
    → IsNumbered [] initial 0 c
started-IsNumbered cfg initial c h m =
    let v = new-IsNumbered cfg initial h in
    record {
      inverse = SameMaps-IsInverse _ c m v.inverse;
      issued = SameMaps-Issued initial 0 _ c m v.issued;
      ids = v.ids;
      below = λ a q s e. v.below a q s (rw (← m.sessions) e);
      bounded = λ a s e. v.bounded a s (rw (← m.sessions) e);
      distinct = v.distinct;
    }

begin-IsExact :
    (cfg : ClientConfig) (initial : ℕ) (c : Client) (server_cfg : ServerConfig)
    → initial < u64_mod
    → SameMaps (ClientState.new cfg initial) c
    → IsSize server_cfg.dedup_window
    → IsExact initial 0 (begin c (new server_cfg))
unfolding run
begin-IsExact cfg initial c server_cfg h m size = record {
  numbered = started-IsNumbered cfg initial c h m;
  carried = tt;
  sound = run-IsSound server_cfg [] size tt;
  known = λ k q e. absurd (cc e);
  once = tt;
  given_first = tt;
}

-- A client that has just started and a server that has just started, with a window of a size from 1
-- to 2^32 - 1, take any number of steps up to 2^63: sources hand packets to the client, up to 2^31,
-- whatever the client has sent arrives at the server any number of times, in any order and by any
-- path, and either side does anything else it does, the server's clean-up excepted. Then what went
-- to the target was given by a source under the same session id and number, nothing that was given
-- went there twice, and no two packets were given under one id and number.
pub deliveries_exact :
    (cfg : ClientConfig) (initial : ℕ) (c : Client) (server_cfg : ServerConfig) (n : ℕ) (w : World)
    → initial < u64_mod
    → SameMaps (ClientState.new cfg initial) c
    → IsSize server_cfg.dedup_window
    → Reaches (begin c (new server_cfg)) n w
    → 2 * n < u64_mod
    → length w.given ≤ half
    → All (IsGiven w.given) w.delivered × KeysDistinct w.delivered × KeysDistinct w.given
deliveries_exact cfg initial c server_cfg n w h m size r k l =
    let (_, _, v) =
      reach-IsExact initial (begin c (new server_cfg)) n w r
        (begin-IsExact cfg initial c server_cfg h m size) k l in
    (v.given_first, v.once, v.numbered.distinct)
