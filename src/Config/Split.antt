-- ===== src/Config/Split.antt =====
-- `split` of fproxy-rs/src/config.rs cuts a text at each separator and loses nothing.
use fproxy.Base.{
  ℕ, ◌≡◌, refl, ◌∙◌, ap, sym, false, List, [], ◌∷◌, ◌++◌, arith, ◌==◌, All, contains_key,
  Bool-cases, inl, inr, ==_refl,
}
use fproxy.Config.{Text}
use fproxy.Config.Text.{split, push}

abbrev pub join : ℕ → List Text → Text
join c [] = []
join c (p ∷ []) = p
join c (p ∷ q ∷ ps) = p ++ c ∷ join c (q ∷ ps)

split-nonempty : (c : ℕ) (s : Text) → (p : Text) × (ps : List Text) × (split c s ≡ p ∷ ps)
unfolding split
split-nonempty c [] = ([], [], refl)
split-nonempty c (x ∷ s) =
    let (p, ps, e) = split-nonempty c s in
    elim (Bool-cases (x == c)) [
      | inl h ↦ ([], p ∷ ps, rw (h, e) refl)
      | inr h ↦ (x ∷ p, ps, rw (h, e) refl)
    ]

join-push : (c x : ℕ) (parts : List Text) → join c (push x parts) ≡ x ∷ join c parts
join-push c x [] = refl
join-push c x (p ∷ []) = refl
join-push c x (p ∷ q ∷ ps) = refl

-- The parts, joined, are the text.
pub join-split : (c : ℕ) (s : Text) → join c (split c s) ≡ s
unfolding split
join-split c [] = refl
join-split c (x ∷ s) =
    let (p, ps, e) = split-nonempty c s in
    let ih : join c (p ∷ ps) ≡ s = ap (join c) (sym e) ∙ join-split c s in
    elim (Bool-cases (x == c)) [
      | inl h ↦ let same : x ≡ c = ground arith in rw (h, e, ih) (ap (λ (y : ℕ). y ∷ s) (sym same))
      | inr h ↦ rw (h, e) (join-push c x (p ∷ ps) ∙ ap (x ∷◌) ih)
    ]

push-free :
    (c x : ℕ) (parts : List Text)
    → (x == c) ≡ false
    → All (λ p. contains_key p c ≡ false) parts
    → All (λ p. contains_key p c ≡ false) (push x parts)
unfolding contains_key
push-free c x [] h a = (ground arith, tt)
push-free c x (p ∷ ps) h a = (ground (arith, a.0), a.1)

-- No part holds the separator.
pub split-free : (c : ℕ) (s : Text) → All (λ p. contains_key p c ≡ false) (split c s)
unfolding split contains_key
split-free c [] = (refl, tt)
split-free c (x ∷ s) = elim (Bool-cases (x == c)) [
  | inl h ↦ rw h (refl, split-free c s)
  | inr h ↦ rw h (push-free c x (split c s) h (split-free c s))
]

-- A text without the separator is its only part.
pub split_whole : (c : ℕ) (s : Text) → contains_key s c ≡ false → split c s ≡ s ∷ []
unfolding split contains_key
split_whole c [] h = refl
split_whole c (x ∷ s) h = ground (arith, split_whole c s)

pub split_at :
    (c : ℕ) (p s : Text) → contains_key p c ≡ false → split c (p ++ c ∷ s) ≡ p ∷ split c s
unfolding split contains_key
split_at c [] s h = rw (==_refl c) refl
split_at c (x ∷ p) s h = ground (arith, split_at c p s)
