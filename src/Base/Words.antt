-- ===== src/Base/Words.antt =====
-- Machine words and their big-endian bytes: `to_be_bytes`, `from_be_bytes` and wrapping additions.
use Prim.Native.Nat.{ℕ, zero, suc, ◌+◌, ◌*◌, ◌/◌, ◌%◌, ◌^◌, ◌<◌, ◌≤◌}
use mathlib.Core.Path.{◌≡◌, refl, subst}
use mathlib.Core.List.{List, [], ◌∷◌, ◌++◌, append-nil, append_assoc}
use native.Mathlib.Nat.{pow-suc}
use Prim.Native.Nat.add
use native.Mathlib.Omega.{arith}
use fproxy.Base.Lists.{length, All, length-append, All-append}

abbrev pub Bytes : Type 0
Bytes = List ℕ

abbrev pub IsByte : ℕ → Type 0
IsByte b = b < 256

abbrev pub u16_mod : ℕ
u16_mod = 2 ^ 16

abbrev pub u32_mod : ℕ
u32_mod = 2 ^ 32

abbrev pub u64_mod : ℕ
u64_mod = 2 ^ 64

-- The low `w` bytes of `x`, highest first.
unfoldable pub to_be_bytes : ℕ → ℕ → Bytes
to_be_bytes zero x = []
to_be_bytes (suc w) x = to_be_bytes w (x / 256) ++ (x % 256) ∷ []

be_bytes_from : ℕ → Bytes → ℕ
be_bytes_from acc [] = acc
be_bytes_from acc (b ∷ bs) = be_bytes_from (acc * 256 + b) bs

unfoldable pub from_be_bytes : Bytes → ℕ
unfolding be_bytes_from
from_be_bytes = be_bytes_from 0

be_bytes_from-snoc :
    (acc : ℕ) (bs : Bytes) (b : ℕ)
    → be_bytes_from acc (bs ++ b ∷ []) ≡ be_bytes_from acc bs * 256 + b
unfolding be_bytes_from
be_bytes_from-snoc acc [] b = refl
be_bytes_from-snoc acc (a ∷ bs) b = be_bytes_from-snoc (acc * 256 + a) bs b

pub from_be_bytes-snoc :
    (bs : Bytes) (b : ℕ) → from_be_bytes (bs ++ b ∷ []) ≡ from_be_bytes bs * 256 + b
unfolding from_be_bytes
from_be_bytes-snoc bs b = be_bytes_from-snoc 0 bs b

pub length-to_be_bytes : (w x : ℕ) → length (to_be_bytes w x) ≡ w
unfolding to_be_bytes
length-to_be_bytes zero x = refl
length-to_be_bytes (suc w) x = omega (
  arith,
  length-append (to_be_bytes w (x / 256)) ((x % 256) ∷ []),
  length-to_be_bytes w (x / 256),
)

pub to_be_bytes-IsByte : (w x : ℕ) → All IsByte (to_be_bytes w x)
unfolding to_be_bytes
to_be_bytes-IsByte zero x = tt
to_be_bytes-IsByte (suc w) x =
    All-append IsByte (to_be_bytes w (x / 256)) ((x % 256) ∷ []) (to_be_bytes-IsByte w (x / 256))
      (omega arith, tt)

pub from_be_bytes-to_be_bytes : (w x : ℕ) → x < 256 ^ w → from_be_bytes (to_be_bytes w x) ≡ x
unfolding to_be_bytes from_be_bytes
from_be_bytes-to_be_bytes zero x h = omega arith
from_be_bytes-to_be_bytes (suc w) x h = omega (
  arith,
  from_be_bytes-snoc (to_be_bytes w (x / 256)) (x % 256),
  from_be_bytes-to_be_bytes w (x / 256) (omega (arith, pow-suc 256 w)),
)

pub to_be_bytes-snoc :
    (w x b : ℕ) → b < 256 → to_be_bytes (suc w) (x * 256 + b) ≡ to_be_bytes w x ++ b ∷ []
unfolding to_be_bytes
to_be_bytes-snoc w x b h =
    let q : (x * 256 + b) / 256 ≡ x = omega arith in
    let r : (x * 256 + b) % 256 ≡ b = omega arith in rw (q, r)

to_be_bytes-be_bytes_from :
    (w acc : ℕ) (bs : Bytes)
    → All IsByte bs
    → to_be_bytes (length bs + w) (be_bytes_from acc bs) ≡ to_be_bytes w acc ++ bs
unfolding be_bytes_from
to_be_bytes-be_bytes_from w acc [] h = rw (add.zero w, append-nil)
to_be_bytes-be_bytes_from w acc (b ∷ bs) h =
    let e : suc (length bs) + w ≡ length bs + suc w = omega arith in
    rw (e, to_be_bytes-be_bytes_from (suc w) (acc * 256 + b) bs h.1, to_be_bytes-snoc w acc b h.0)
      (append_assoc (to_be_bytes w acc) (b ∷ []) bs)

-- The big-endian bytes of the number that bytes stand for are these bytes.
pub to_be_bytes-from_be_bytes :
    (w : ℕ) (bs : Bytes) → length bs ≡ w → All IsByte bs → to_be_bytes w (from_be_bytes bs) ≡ bs
unfolding from_be_bytes to_be_bytes
to_be_bytes-from_be_bytes w bs e h =
    let n : length bs + 0 ≡ w = omega (arith, e) in
    subst (λ (k : ℕ). to_be_bytes k (be_bytes_from 0 bs) ≡ bs) n
      (to_be_bytes-be_bytes_from 0 0 bs h)

scaled : (b p : ℕ) → b < 256 → b * p + p ≤ 256 * p
scaled b p h = grind arith

one_more_byte :
    (acc b p x : ℕ) → b < 256 → x + 1 ≤ (acc * 256 + b + 1) * p → x + 1 ≤ (acc + 1) * (256 * p)
one_more_byte acc b p x h k = omega (arith, scaled b p h)

be_bytes_from-lt :
    (acc : ℕ) (bs : Bytes) → All IsByte bs → be_bytes_from acc bs + 1 ≤ (acc + 1) * 256 ^ length bs
unfolding be_bytes_from
be_bytes_from-lt acc [] h = omega arith
be_bytes_from-lt acc (b ∷ bs) h =
    let e : 256 ^ suc (length bs) ≡ 256 * 256 ^ length bs =
      omega (arith, pow-suc 256 (length bs)) in
    rw e (one_more_byte acc b (256 ^ length bs) _ h.0 (be_bytes_from-lt (acc * 256 + b) bs h.1))

pub from_be_bytes-lt :
    (w : ℕ) (bs : Bytes) → length bs ≡ w → All IsByte bs → from_be_bytes bs < 256 ^ w
unfolding from_be_bytes
from_be_bytes-lt w bs e h =
    subst (λ (k : ℕ). from_be_bytes bs < 256 ^ k) e (omega (arith, be_bytes_from-lt 0 bs h))
