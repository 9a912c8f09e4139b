-- ===== src/Relay/Back/Exact.antt =====
-- Every response that comes back in a network of fproxy-rs/src/server.rs and fproxy-rs/src/client.rs is that of a target.
use fproxy.Base.{
  ℕ, Option-cases, inl, inr, ◌+◌, ◌*◌, ◌≤◌, ◌<◌, [], arith, All, nat_eq, u32_mod, u64_mod, length,
}
use fproxy.Base.HashMap.{get}
use fproxy.Config.{ClientConfig, ServerConfig}
use fproxy.Client.State.{Client}
use fproxy.Client.State as ClientState
use fproxy.Client.SameMaps.{SameMaps, SameMaps-IsInverse, SameMaps-Issued}
use fproxy.Client.Runs.{new-IsInverse, new-Issued}
use fproxy.Client.Windows.{same_sessions}
use fproxy.Client.Expiry.{response_windows-IsSound}
use fproxy.Client.Events.{run}
use fproxy.Client.Numbers.{KeysDistinct}
use fproxy.Server.State as ServerState
use fproxy.Relay.Back.Defs.{
  World, begin, Moves, answers, server_moves, arrives, client_moves, Reaches, start, next,
}
use fproxy.Relay.Back.Answers.{step_next}
use fproxy.Relay.Back.Invariant.{
  IsAnswer, IsKept, contents, IsReturning, answer-IsReturning, server-IsReturning,
}
use fproxy.Relay.Back.Arriving.{bring-IsReturning, quiet-IsReturning}

move-IsReturning :
    (initial n : ℕ) (w w' : World)
    → Moves w w'
    → IsReturning initial n w
    → n + 2 < u64_mod
    → length w.answered + 1 < u32_mod
    → (m : ℕ) × (m ≤ n + 2) × IsReturning initial m w'
move-IsReturning initial n w _ (answers now k payload hk hp) v h r =
    (n, omega arith, answer-IsReturning initial n w now k payload v r hk hp)
move-IsReturning initial n w _ (server_moves e q) v h r =
    (n, omega arith, server-IsReturning initial n w _ v (step_next w.server e q))
move-IsReturning initial n w _ (arrives e a own) v h r = bring-IsReturning initial n w e v h a own
move-IsReturning initial n w _ (client_moves e q) v h r = quiet-IsReturning initial n w e v h q

-- Nothing that was answered is forgotten.
move-answered : (w w' : World) → Moves w w' → length w.answered ≤ length w'.answered
move-answered w _ (answers now k payload hk hp) = elim (Option-cases (get w.server.sessions k)) [
  | inl e ↦ rw e (omega arith)
  | inr (t, e) ↦ rw e (omega arith)
]
move-answered w _ (server_moves e q) = omega arith
move-answered w _ (arrives e a own) = omega arith
move-answered w _ (client_moves e q) = omega arith

reach-IsReturning :
    (initial : ℕ) (w : World) (n : ℕ) (w' : World)
    → Reaches w n w'
    → IsReturning initial 0 w
    → 2 * n < u64_mod
    → length w'.answered + 1 < u32_mod
    → (m : ℕ) × (m ≤ 2 * n) × IsReturning initial m w'
reach-IsReturning initial w _ _ start v h r = (0, omega arith, v)
reach-IsReturning initial w _ _ (next n u u' before move) v h r =
    let few : length u.answered + 1 < u32_mod = omega (arith, move-answered u u' move) in
    let (m, hi, mid) = reach-IsReturning initial w n u before v (omega arith) few in
    let (m', hi', last) = move-IsReturning initial m u u' move mid (omega arith) few in
    (m', omega arith, last)

begin-IsReturning :
    (cfg : ClientConfig) (initial : ℕ) (c : Client) (server_cfg : ServerConfig)
    → initial < u64_mod
    → SameMaps (ClientState.new cfg initial) c
    → IsReturning initial 0 (begin (ServerState.new server_cfg) c)
unfolding ServerState.new get run
begin-IsReturning cfg initial c server_cfg h m = record {
  below = λ k q f. absurd (cc f);
  bounded = λ k. omega arith;
  distinct = tt;
  carried = tt;
  inverse = SameMaps-IsInverse _ c m (new-IsInverse cfg initial);
  issued = SameMaps-Issued initial 0 _ c m (new-Issued cfg initial h);
  sound = (same_sessions _ c m.sessions (response_windows-IsSound cfg initial [] tt)).sound;
  kept = tt;
  once = tt;
  answers_first = tt;
}

-- A server that has just started and a client that has just started take any number of steps up to
-- 2^63: a target answers in a session whose id fits its field, with what fits a frame and fewer than
-- 2^32 - 1 times in all, whatever the server has sent arrives at the client any number of times, in
-- any order and by any path, a frame on a connection of its session's source, and either side does
-- anything else it does, the clean-ups excepted. Then what went to a source was answered by a target
-- in a session that the client maps to that source, under the number that the answer got, nothing
-- that was answered went to a source twice, and no two answers got one number in one session.
pub responses_exact :
    (cfg : ClientConfig) (initial : ℕ) (c : Client) (server_cfg : ServerConfig) (n : ℕ) (w : World)
    → initial < u64_mod
    → SameMaps (ClientState.new cfg initial) c
    → Reaches (begin (ServerState.new server_cfg) c) n w
    → 2 * n < u64_mod
    → length w.answered + 1 < u32_mod
    → All (IsAnswer w.answered) w.delivered
      × All (IsKept w.client) w.delivered
      × KeysDistinct (contents w.delivered)
      × KeysDistinct w.answered
responses_exact cfg initial c server_cfg n w h m before k r =
    let (_, _, v) =
      reach-IsReturning initial (begin (ServerState.new server_cfg) c) n w before
        (begin-IsReturning cfg initial c server_cfg h m) k r in
    (v.answers_first, v.kept, v.once, v.distinct)
