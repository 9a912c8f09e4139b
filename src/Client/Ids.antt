-- ===== src/Client/Ids.antt =====
-- The session ids that `Client` of fproxy-rs/src/client.rs gives out.
use fproxy.Base.{ℕ, ◌+◌, ◌%◌, ◌<◌, ◌≡◌, ◌≢◌, arith, u64_mod, ◌==◌, inl, inr, ◌⊎◌, Bool-cases}
use fproxy.Client.Packets.{next_session_id}

-- A session id is never 0, fits 64 bits, and is one or two steps after the counter.
pub next_session_id_lem :
    (counter : ℕ)
    → (next_session_id counter ≢ 0)
      × (next_session_id counter < u64_mod)
      × ((next_session_id counter ≡ (counter + 1) % u64_mod)
          ⊎ (next_session_id counter ≡ (counter + 2) % u64_mod))
unfolding next_session_id
next_session_id_lem counter = elim (Bool-cases ((counter + 1) % u64_mod == 0)) [
  | inl wrapped ↦ rw wrapped (ground arith)
  | inr plain ↦ rw plain (ground arith)
]

-- Counting from the same start, numbers less than 2^64 apart are different modulo 2^64.
pub apart :
    (initial j n : ℕ) → j < n → n < j + u64_mod → (initial + j) % u64_mod ≢ (initial + n) % u64_mod
apart initial j n h k = omega arith
