-- ===== src/Relay/Back/Returned.antt =====
-- What the client's side leaves of the invariant of a network of fproxy-rs/src/client.rs and
-- fproxy-rs/src/server.rs.
use fproxy.Base.{
  ℕ, List, [], ◌∷◌, ◌≡◌, inl, inr, ◌∙◌, ap, sym, arith, true, false, ◌&&◌, ◌==◌, some, Bytes, All,
  Bool-cases, nat_eq, some_inj,
}
use fproxy.Base.HashMap.{get}
use fproxy.Protocol.{Decoded}
use fproxy.Client.State.{Client}
use fproxy.Client.Maps.{IsInverse, Issued}
use fproxy.Client.Windows.{knows, Keeps}
use fproxy.Client.Numbers.{has_key}
use fproxy.Relay.Network.Invariant.{IsGiven}
use fproxy.Relay.Back.Defs.{World}
use fproxy.Relay.Back.Sources.{SameSources}
use fproxy.Relay.Back.Invariant.{IsKept, contents, IsReturning}

pub known_contents :
    (c : Client) (ps : List (ℕ × Decoded)) (k a q : ℕ)
    → All (IsKept c) ps
    → get c.udp_session_addrs k ≡ some a
    → has_key (contents ps) k q ≡ true
    → knows c a q ≡ true
known_contents c [] k a q h g f = absurd (cc f)
known_contents c ((b, (j, p, payload)) ∷ ps) k a q ((gb, kb), h) g f =
    elim (Bool-cases (j == k && p == q)) [
      | inl same ↦
          let jk : j ≡ k = ground arith in
          let pq : p ≡ q = ground arith in
          let ab : b ≡ a = some_inj (sym gb ∙ ap (get c.udp_session_addrs) jk ∙ g) in
          ap (knows c a) (sym pq) ∙ ap (λ (x : ℕ). knows c x p) (sym ab) ∙ kb
      | inr other ↦ known_contents c ps k a q h g (ground (arith, other, f))
    ]

later_IsKept :
    (c d : Client) (ps : List (ℕ × Decoded))
    → Keeps c d
    → SameSources c d
    → All (IsKept c) ps
    → All (IsKept d) ps
later_IsKept c d [] m s h = tt
later_IsKept c d ((a, (k, q, payload)) ∷ ps) m s ((g, e), h) =
    ((s k a g, m.knows_on a q e), later_IsKept c d ps m s h)

-- A client that forgets nothing and returns nothing.
pub client-IsReturning :
    (initial n m : ℕ) (w : World) (d : Client)
    → IsReturning initial n w
    → IsInverse d
    → Issued initial m d
    → Keeps w.client d
    → SameSources w.client d
    → IsReturning initial m (record w { client = d })
client-IsReturning initial n m w d v i issued keeps sources = record {
  below = v.below;
  bounded = v.bounded;
  distinct = v.distinct;
  carried = v.carried;
  inverse = i;
  issued = issued;
  sound = keeps.sound;
  kept = later_IsKept w.client d w.delivered keeps sources v.kept;
  once = v.once;
  answers_first = v.answers_first;
}

-- The first response under an id and a number, for the source of its session.
pub returned-IsReturning :
    (initial n : ℕ) (w : World) (a k q : ℕ) (payload : Bytes)
    → IsReturning initial n w
    → has_key (contents w.delivered) k q ≡ false
    → IsKept w.client (a, (k, q, payload))
    → IsGiven w.answered (k, q, payload)
    → IsReturning initial n (record w { delivered = (a, (k, q, payload)) ∷ w.delivered })
returned-IsReturning initial n w a k q payload v new_key kept given = record {
  below = v.below;
  bounded = v.bounded;
  distinct = v.distinct;
  carried = v.carried;
  inverse = v.inverse;
  issued = v.issued;
  sound = v.sound;
  kept = (kept, v.kept);
  once = (new_key, v.once);
  answers_first = (given, v.answers_first);
}
