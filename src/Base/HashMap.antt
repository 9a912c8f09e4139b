-- ===== src/Base/HashMap.antt =====
-- `HashMap<K, V>` as an association list. Its order of iteration carries no meaning.
use mathlib.Core.Path.{◌≡◌, refl}
use mathlib.Core.List.{List, [], ◌∷◌}
use mathlib.Core.Option.{Option, none, some}
use native.Mathlib.Omega.{arith}
use fproxy.Base.Tests.{Eq, if◌then◌else◌}

abbrev pub HashMap : Type 0 → Type 0 → Type 0
HashMap K V = List (K × V)

module _ {K V : Type 0} ⦃e : Eq K⦄ where
  unfoldable pub get : HashMap K V → K → Option V
  get [] k = none
  get ((j, v) ∷ m) k = if e.beq j k then some v else get m k

  unfoldable pub insert : HashMap K V → K → V → HashMap K V
  insert [] k v = (k, v) ∷ []
  insert ((j, w) ∷ m) k v = if e.beq j k then (k, v) ∷ m else (j, w) ∷ insert m k v

  unfoldable pub remove : HashMap K V → K → HashMap K V
  remove [] k = []
  remove ((j, w) ∷ m) k = if e.beq j k then remove m k else (j, w) ∷ remove m k

  pub get-insert :
      (m : HashMap K V) (k j : K) (v : V)
      → get (insert m k v) j ≡ (if e.beq k j then some v else get m j)
  unfolding get insert
  get-insert [] k j v = refl
  get-insert ((i, w) ∷ m) k j v =
      ground (arith, e.beq_iff i k, e.beq_iff k j, e.beq_iff i j, get-insert m k j v)

  pub get-remove :
      (m : HashMap K V) (k j : K) → get (remove m k) j ≡ (if e.beq k j then none else get m j)
  unfolding get remove
  get-remove [] k j = ground arith
  get-remove ((i, w) ∷ m) k j =
      ground (arith, e.beq_iff i k, e.beq_iff k j, e.beq_iff i j, get-remove m k j)

  -- No key is listed twice.
  abbrev pub IsMap : HashMap K V → Type 0
  IsMap [] = Unit
  IsMap ((k, v) ∷ m) = (get m k ≡ none) × IsMap m

  pub insert-IsMap : (m : HashMap K V) (k : K) (v : V) → IsMap m → IsMap (insert m k v)
  unfolding get insert
  insert-IsMap [] k v h = (refl, tt)
  insert-IsMap ((j, w) ∷ m) k v h =
      ground (arith, e.beq_iff j k, e.beq_iff k j, insert-IsMap m k v h.1, get-insert m k j v)

  pub remove-IsMap : (m : HashMap K V) (k : K) → IsMap m → IsMap (remove m k)
  unfolding get remove
  remove-IsMap [] k h = tt
  remove-IsMap ((j, w) ∷ m) k h =
      ground (arith, e.beq_iff j k, e.beq_iff k j, remove-IsMap m k h.1, get-remove m k j)
