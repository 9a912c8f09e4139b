-- ===== src/Tests/Window.antt =====
-- The theorems on the deduplication windows at concrete inputs.
use fproxy.Base.{
  Option, none, ℕ, List, [], ◌∷◌, ◌≡◌, refl, ◌&&◌, ◌||◌, ltb, arith, length, contains_key, Distinct,
}
use fproxy.Server.Window.{new, is_duplicate, feed}
use fproxy.Server.Window.Invariant.{IsValid, new-IsValid}
use fproxy.Server.Window.Spec.{History, Runs, answers, window_refines}
use fproxy.Server.Window.Once.{feed-Distinct}
use fproxy.Server.Window.Bounds.{
  is_duplicate-history, is_duplicate_in_window, feed_late_unbounded, feed_below_first,
}

abbrev numbers : List ℕ
numbers = 6 ∷ 8 ∷ 7 ∷ 6 ∷ 11 ∷ []

new-IsValid_4 : IsValid (new 4)
new-IsValid_4 = new-IsValid 4 (omega arith)

feed-Distinct_example : Distinct (feed (new 4) numbers).1
feed-Distinct_example = feed-Distinct (new 4) numbers new-IsValid_4 (omega arith)

is_duplicate-history_example :
    let (w, accepted) = feed (new 4) numbers in
    (is_duplicate w 8).1 ≡ (contains_key accepted 8 || (w.started && ltb 8 w.min_seq))
is_duplicate-history_example = is_duplicate-history 4 numbers 8 (omega arith) (omega arith)

is_duplicate_in_window_example :
    let (w, accepted) = feed (new 4) numbers in (is_duplicate w 9).1 ≡ contains_key accepted 9
is_duplicate_in_window_example =
    is_duplicate_in_window 4 6 (8 ∷ 7 ∷ 6 ∷ 11 ∷ []) 9 (omega arith) (omega arith) (omega arith)
      (omega arith)

feed_below_first_example : let w = (feed (new 4) (6 ∷ 8 ∷ [])).0 in feed w (0 ∷ 1 ∷ []) ≡ (w, [])
feed_below_first_example =
    feed_below_first 4 6 (8 ∷ []) (0 ∷ 1 ∷ []) (omega arith) (omega arith) (omega arith)

-- A window of size 2 holds six numbers.
feed_late_unbounded_example :
    let (w, accepted) = feed (new 2) (6 ∷ 11 ∷ 7 ∷ 10 ∷ 8 ∷ 9 ∷ []) in
    (w.size ≡ 2) × (length w.seen ≡ 6) × (accepted ≡ 6 ∷ 11 ∷ 7 ∷ 10 ∷ 8 ∷ 9 ∷ [])
feed_late_unbounded_example =
    feed_late_unbounded 2 6 11 (7 ∷ 10 ∷ 8 ∷ 9 ∷ []) (omega arith) (omega arith)
      (unfold contains_key in (refl, (refl, (refl, (refl, tt))))) (omega arith)

window_refines_example : (h : Option History) × Runs 4 none numbers (answers (new 4) numbers) h
window_refines_example = window_refines 4 numbers (omega arith) (omega arith)
