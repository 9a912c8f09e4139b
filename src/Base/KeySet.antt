-- ===== src/Base/KeySet.antt =====
-- `HashMap<u32, ()>`: the set of its keys, as a list.
use fproxy.Base.Tests.{◌==◌, if◌then◌else◌, Bool-cases}
use fproxy.Base.Lists.{length, retain, All}
use Prim.Native.Nat.{ℕ, zero, suc, ◌+◌, ◌≤◌}
use mathlib.Core.Path.{◌≡◌, refl}
use mathlib.Core.Bool.{Bool, true, false, not, ◌&&◌, ◌||◌}
use mathlib.Core.Logic.{inl, inr}
use mathlib.Core.List.{List, [], ◌∷◌}
use native.Mathlib.Omega.{arith}

unfoldable pub contains_key : List ℕ → ℕ → Bool
contains_key [] k = false
contains_key (x ∷ xs) k = x == k || contains_key xs k

unfoldable pub insert_key : List ℕ → ℕ → List ℕ
unfolding contains_key
insert_key xs k = if contains_key xs k then xs else k ∷ xs

-- No key is listed twice.
abbrev pub Distinct : List ℕ → Type 0
Distinct [] = Unit
Distinct (x ∷ xs) = (contains_key xs x ≡ false) × Distinct xs

abbrev pub Within : ℕ → ℕ → List ℕ → Type 0
Within lo hi = All (λ s. (lo ≤ s) × (s ≤ hi))

pub contains_key-insert_key :
    (xs : List ℕ) (k j : ℕ) → contains_key (insert_key xs k) j ≡ (k == j || contains_key xs j)
unfolding contains_key insert_key
contains_key-insert_key xs k j = elim (Bool-cases (contains_key xs k)) [
  | inl old ↦ elim (Bool-cases (k == j)) [
    | inl same ↦ let e : k ≡ j = ground arith in rw old (rw same (rw (← e) old))
    | inr other ↦ rw old (rw other)
  ]
  | inr new ↦ rw new
]

pub contains_key-retain :
    (p : ℕ → Bool) (xs : List ℕ) (k : ℕ) → contains_key (retain p xs) k ≡ (p k && contains_key xs k)
unfolding contains_key
contains_key-retain p [] k = ground arith
contains_key-retain p (x ∷ xs) k = elim (Bool-cases (x == k)) [
  | inl same ↦ let e : x ≡ k = ground arith in rw (← e) (ground (arith, contains_key-retain p xs x))
  | inr other ↦ ground (arith, contains_key-retain p xs k)
]

pub Distinct-retain : (p : ℕ → Bool) (xs : List ℕ) → Distinct xs → Distinct (retain p xs)
Distinct-retain p [] h = tt
Distinct-retain p (x ∷ xs) h = ground (arith, Distinct-retain p xs h.1, contains_key-retain p xs x)

pub Distinct-insert_key : (xs : List ℕ) (k : ℕ) → Distinct xs → Distinct (insert_key xs k)
unfolding insert_key
Distinct-insert_key xs k h = ground arith

pub Within-insert_key :
    (lo hi k : ℕ) (xs : List ℕ) → Within lo hi xs → lo ≤ k → k ≤ hi → Within lo hi (insert_key xs k)
unfolding insert_key
Within-insert_key lo hi k xs h a b = ground arith

pub Within-mono : (lo hi hi' : ℕ) (xs : List ℕ) → Within lo hi xs → hi ≤ hi' → Within lo hi' xs
Within-mono lo hi hi' [] h a = tt
Within-mono lo hi hi' (x ∷ xs) h a = (omega arith, Within-mono lo hi hi' xs h.1 a)

pub contains_key-Within :
    (lo hi k : ℕ) (xs : List ℕ) → Within lo hi xs → contains_key xs k ≡ true → (lo ≤ k) × (k ≤ hi)
unfolding contains_key
contains_key-Within lo hi k [] h e = absurd (ground arith)
contains_key-Within lo hi k (x ∷ xs) h e = ground (arith, contains_key-Within lo hi k xs h.1)

-- Keys from a range of `n` numbers are `n` at most.
abbrev other_than : ℕ → ℕ → Bool
other_than k s = not (s == k)

retain_all : (k : ℕ) (xs : List ℕ) → contains_key xs k ≡ false → retain (other_than k) xs ≡ xs
unfolding contains_key
retain_all k [] h = refl
retain_all k (x ∷ xs) h = ground (arith, retain_all k xs)

length-other :
    (k : ℕ) (xs : List ℕ) → Distinct xs → length xs ≤ length (retain (other_than k) xs) + 1
length-other k [] h = omega arith
length-other k (x ∷ xs) h = ground (arith, length-other k xs h.1, retain_all x xs h.0)

Within-other :
    (lo n : ℕ) (xs : List ℕ)
    → Within lo (lo + suc n) xs
    → Within lo (lo + n) (retain (other_than (lo + suc n)) xs)
Within-other lo n [] h = tt
Within-other lo n (x ∷ xs) h = ground (arith, Within-other lo n xs h.1)

pub length-Within :
    (lo n : ℕ) (xs : List ℕ) → Distinct xs → Within lo (lo + n) xs → length xs ≤ n + 1
unfolding contains_key
length-Within lo zero [] d h = omega arith
length-Within lo zero (x ∷ []) d h = omega arith
length-Within lo zero (x ∷ y ∷ xs) d h = absurd (ground arith)
length-Within lo (suc n) xs d h = omega (
  arith,
  length-other (lo + suc n) xs d,
  length-Within lo n (retain (other_than (lo + suc n)) xs)
      (Distinct-retain (other_than (lo + suc n)) xs d) (Within-other lo n xs h),
)

pub Within-retain :
    (lo lo' hi : ℕ) (p : ℕ → Bool) (xs : List ℕ)
    → ((s : ℕ) → p s ≡ true → lo' ≤ s)
    → Within lo hi xs
    → Within lo' hi (retain p xs)
Within-retain lo lo' hi p [] q h = tt
Within-retain lo lo' hi p (x ∷ xs) q h = ground (arith, q x, Within-retain lo lo' hi p xs q h.1)
