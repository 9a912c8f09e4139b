-- ===== src/Server/Outputs.antt =====
-- What the outputs of fproxy-rs/src/server.rs bring to targets.
use fproxy.Base.{List, [], ◌∷◌, ◌++◌, ◌≡◌, refl, ap, Bytes}
use fproxy.Server.State.{
  Output, to_target, to_client, to_writer, spawn_target_reader, cancel_session,
}

-- The payloads that go to targets, in order.
unfoldable pub payloads : List Output → List Bytes
payloads [] = []
payloads (to_target conn payload ∷ os) = payload ∷ payloads os
payloads (to_client socket addr bytes ∷ os) = payloads os
payloads (to_writer writer bytes ∷ os) = payloads os
payloads (spawn_target_reader k conn ∷ os) = payloads os
payloads (cancel_session k ∷ os) = payloads os

pub payloads-append : (xs ys : List Output) → payloads (xs ++ ys) ≡ payloads xs ++ payloads ys
unfolding payloads
payloads-append [] ys = refl
payloads-append (to_target conn payload ∷ os) ys = ap (payload ∷◌) (payloads-append os ys)
payloads-append (to_client socket addr bytes ∷ os) ys = payloads-append os ys
payloads-append (to_writer writer bytes ∷ os) ys = payloads-append os ys
payloads-append (spawn_target_reader k conn ∷ os) ys = payloads-append os ys
payloads-append (cancel_session k ∷ os) ys = payloads-append os ys
