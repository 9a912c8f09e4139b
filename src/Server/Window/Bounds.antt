-- ===== src/Server/Window/Bounds.antt =====
-- What `DedupWindow` still knows: every number less than `size` behind the newest.
use fproxy.Base.{
  ℕ, ◌+◌, ◌≤◌, ◌<◌, ◌≡◌, refl, Bool, true, false, ◌||◌, ◌&&◌, List, [], ◌∷◌, arith, ltb, leb, ◌==◌,
  length, contains_key, insert_key, inl, inr, Bool-cases, All, max, contains_key-insert_key,
  contains_key-retain, ◌∙◌, ap, contains_key-Within, Distinct,
}
use fproxy.Server.Window.{DedupWindow, new, new_min, slide, mark_seen, start, is_duplicate, feed}
use fproxy.Server.Window.Invariant.{
  IsStarted, IsValid, IsSeq, IsSize, new-IsValid, is_duplicate-IsValid, is_duplicate-IsStarted,
  start-IsStarted, length-slide, marked-IsStarted, raised-IsStarted,
}
use fproxy.Server.Window.Once.{
  rejects, is_duplicate-rejects, rejects-persists, rejects-is_duplicate,
}

-- A number is held because it was held before or has just been let through.
pub held :
    (w : DedupWindow) (seq s : ℕ)
    → contains_key (is_duplicate w seq).0.seen s ≡ true
    → contains_key w.seen s ≡ false
    → ((is_duplicate w seq).1 ≡ false) × ((seq == s) ≡ true)
unfolding is_duplicate mark_seen slide start
held w seq s h e = ground (
  arith,
  contains_key-insert_key w.seen seq s,
  contains_key-retain (λ x. leb (new_min seq w.size) x) (insert_key w.seen seq) s,
)

feed_held :
    (w : DedupWindow) (seqs : List ℕ) (s : ℕ)
    → contains_key (feed w seqs).0.seen s ≡ true
    → contains_key w.seen s ≡ false
    → contains_key (feed w seqs).1 s ≡ true
unfolding feed contains_key
feed_held w [] s h e = absurd (ground arith)
feed_held w (seq ∷ seqs) s h e =
    ground (arith, feed_held (is_duplicate w seq).0 seqs s h, held w seq s)

feed_persists :
    (w : DedupWindow) (seqs : List ℕ) (s : ℕ)
    → IsValid w
    → All IsSeq seqs
    → rejects w s ≡ true
    → rejects (feed w seqs).0 s ≡ true
unfolding feed
feed_persists w [] s v h r = r
feed_persists w (seq ∷ seqs) s v h r =
    feed_persists (is_duplicate w seq).0 seqs s (is_duplicate-IsValid w seq v h.0) h.1
      (rejects-persists w seq s v h.0 r)

feed_accepted :
    (w : DedupWindow) (seqs : List ℕ) (s : ℕ)
    → IsValid w
    → All IsSeq seqs
    → contains_key (feed w seqs).1 s ≡ true
    → rejects (feed w seqs).0 s ≡ true
unfolding feed contains_key
feed_accepted w [] s v h c = absurd (ground arith)
feed_accepted w (seq ∷ seqs) s v h c =
    let v' : IsValid (is_duplicate w seq).0 = is_duplicate-IsValid w seq v h.0 in
    elim (Bool-cases (seq == s)) [
      | inl same ↦
          let e : seq ≡ s = ground arith in
          feed_persists (is_duplicate w seq).0 seqs s v' h.1
            (rw (← e) (rejects-is_duplicate w seq v h.0))
      | inr other ↦ feed_accepted (is_duplicate w seq).0 seqs s v' h.1 (ground arith)
    ]

unheld :
    (size : ℕ) (seqs : List ℕ) (s : ℕ)
    → contains_key (feed (new size) seqs).1 s ≡ false
    → contains_key (feed (new size) seqs).0.seen s ≡ false
unfolding contains_key new
unheld size seqs s unseen = ground (arith, feed_held (new size) seqs s)

rejects_unheld :
    (w : DedupWindow) (s : ℕ) (b : Bool)
    → b ≡ false
    → contains_key w.seen s ≡ false
    → rejects w s ≡ (b || (w.started && ltb s w.min_seq))
unfolding rejects
rejects_unheld w s b e h = ground arith

-- In a window of a size from 1 to 2^32 - 1, after any history of 32-bit numbers, a number is
-- called a duplicate exactly when it was let through before, or lies below the lower end of a
-- started window.
pub is_duplicate-history :
    (size : ℕ) (seqs : List ℕ) (s : ℕ)
    → IsSize size
    → All IsSeq seqs
    → let (w, accepted) = feed (new size) seqs in
      (is_duplicate w s).1 ≡ (contains_key accepted s || (w.started && ltb s w.min_seq))
is_duplicate-history size seqs s h k =
    let v : IsValid (new size) = new-IsValid size h in
    let r : (is_duplicate (feed (new size) seqs).0 s).1 ≡ rejects (feed (new size) seqs).0 s =
      is_duplicate-rejects (feed (new size) seqs).0 s in
    elim (Bool-cases (contains_key (feed (new size) seqs).1 s)) [
      | inl old ↦ r ∙ feed_accepted (new size) seqs s v k old ∙ rw old
      | inr unseen ↦
          r ∙ rejects_unheld (feed (new size) seqs).0 s _ unseen (unheld size seqs s unseen)
    ]

pub is_duplicate-max_seq :
    {first : ℕ} (w : DedupWindow) (seq : ℕ)
    → IsStarted first w
    → (is_duplicate w seq).0.max_seq ≡ max w.max_seq seq
unfolding is_duplicate mark_seen slide
is_duplicate-max_seq w seq v =
    ground
      (arith, v.is_started, v.ordered, contains_key-Within w.min_seq w.max_seq seq w.seen v.within)

-- The highest of the numbers that have arrived.
abbrev pub newest : ℕ → List ℕ → ℕ
newest m [] = m
newest m (s ∷ seqs) = newest (max m s) seqs

pub is_duplicate-size : (w : DedupWindow) (seq : ℕ) → (is_duplicate w seq).0.size ≡ w.size
unfolding is_duplicate mark_seen slide start
is_duplicate-size w seq = ground arith

feed-IsStarted :
    {first : ℕ} (w : DedupWindow) (seqs : List ℕ)
    → IsStarted first w
    → All IsSeq seqs
    → IsStarted first (feed w seqs).0
      × ((feed w seqs).0.max_seq ≡ newest w.max_seq seqs)
      × ((feed w seqs).0.size ≡ w.size)
unfolding feed
feed-IsStarted w [] v h = (v, refl, refl)
feed-IsStarted {first} w (seq ∷ seqs) v h =
    let (v', m, z) =
      feed-IsStarted (is_duplicate w seq).0 seqs (is_duplicate-IsStarted w seq v h.0) h.1 in
    (
      v',
      m ∙ ap (λ (k : ℕ). newest k seqs) (is_duplicate-max_seq w seq v),
      z ∙ is_duplicate-size w seq,
    )

lower_end :
    (size first : ℕ) (seqs : List ℕ) (s : ℕ)
    → IsSize size
    → All IsSeq (first ∷ seqs)
    → first ≤ s
    → newest first seqs < s + size
    → (feed (new size) (first ∷ seqs)).0.min_seq ≤ s
unfolding new feed is_duplicate start
lower_end size first seqs s h k a b =
    let (v, m, z) =
      feed-IsStarted (start (new size) first) seqs (start-IsStarted (new size) first refl h k.0)
        k.1 in
    ground (arith, v.anchored, m, z)

-- In a window of a size from 1 to 2^32 - 1, whatever 32-bit numbers have arrived since the first,
-- a number that is not below the first, and less than `size` behind the newest, is called a
-- duplicate exactly when it was let through before.
pub is_duplicate_in_window :
    (size first : ℕ) (seqs : List ℕ) (s : ℕ)
    → IsSize size
    → All IsSeq (first ∷ seqs)
    → first ≤ s
    → newest first seqs < s + size
    → let (w, accepted) = feed (new size) (first ∷ seqs) in
      (is_duplicate w s).1 ≡ contains_key accepted s
is_duplicate_in_window size first seqs s h k a b =
    ground
      (arith, is_duplicate-history size (first ∷ seqs) s h k, lower_end size first seqs s h k a b)

-- In a started, well-formed window, a number above all before leaves at most `size` numbers held.
pub length-seen-newest :
    (w : DedupWindow) (seq first : ℕ)
    → IsStarted first w
    → IsSeq seq
    → w.max_seq < seq
    → length (is_duplicate w seq).0.seen ≤ w.size
unfolding is_duplicate mark_seen
length-seen-newest w seq first v h k =
    let low : ltb seq w.min_seq ≡ false = ground (arith, v.ordered) in
    let new_seq : contains_key w.seen seq ≡ false =
      ground (arith, contains_key-Within w.min_seq w.max_seq seq w.seen v.within) in
    let newer : ltb w.max_seq seq ≡ true = ground arith in
    let marked : IsStarted first (record w { max_seq = seq; seen = insert_key w.seen seq }) =
      marked-IsStarted (record w { max_seq = seq }) seq (raised-IsStarted w seq v k h)
        (omega (arith, v.ordered)) (omega arith) in
    ground (arith, v.is_started, low, new_seq, newer, length-slide _ marked)

-- A number that is held from now on is one that was held, or the new one.
still_new :
    (seen : List ℕ) (seq : ℕ) (late : List ℕ) (low high : ℕ)
    → contains_key late seq ≡ false
    → All (λ s. (low ≤ s) × (s ≤ high) × (contains_key seen s ≡ false)) late
    → All (λ s. (low ≤ s) × (s ≤ high) × (contains_key (insert_key seen seq) s ≡ false)) late
unfolding contains_key
still_new seen seq [] low high e h = tt
still_new seen seq (s ∷ late) low high e ((a, b, c), h) = (
  (a, b, ground (arith, e, contains_key-insert_key seen seq s)),
  still_new seen seq late low high (ground (arith, e)) h,
)

late_is_duplicate :
    (w : DedupWindow) (seq : ℕ)
    → w.started ≡ true
    → w.min_seq ≤ seq
    → seq ≤ w.max_seq
    → contains_key w.seen seq ≡ false
    → is_duplicate w seq ≡ (record w { seen = insert_key w.seen seq }, false)
unfolding is_duplicate mark_seen
late_is_duplicate w seq t a b c = ground arith

feed_late :
    (w : DedupWindow) (late : List ℕ)
    → w.started ≡ true
    → Distinct late
    → All (λ s. (w.min_seq ≤ s) × (s ≤ w.max_seq) × (contains_key w.seen s ≡ false)) late
    → (length (feed w late).0.seen ≡ length w.seen + length late)
      × ((feed w late).1 ≡ late)
      × ((feed w late).0.size ≡ w.size)
unfolding feed
feed_late w [] t d h = (omega arith, refl, refl)
feed_late w (seq ∷ late) t d ((a, b, c), h) =
    let marked : DedupWindow = record w { seen = insert_key w.seen seq } in
    let next : is_duplicate w seq ≡ (marked, false) = late_is_duplicate w seq t a b c in
    let (n, e, z) =
      feed_late marked late t d.1 (still_new w.seen seq late w.min_seq w.max_seq d.0 h) in
    let longer : length (insert_key w.seen seq) ≡ length w.seen + 1 =
      unfold insert_key in ground arith in
    rw next (omega (arith, n, longer), ap (◌∷◌ seq) e, z)

outside :
    (first last : ℕ) (late : List ℕ)
    → All (λ s. (first < s) × (s < last)) late
    → All
        (λ s.
          (first ≤ s)
          × (s ≤ last)
          × (contains_key (insert_key (insert_key [] first) last) s ≡ false))
        late
unfolding contains_key insert_key
outside first last [] h = tt
outside first last (s ∷ late) ((a, b), h) =
    ((omega arith, omega arith, ground arith), outside first last late h)

-- In a window of size 2 or more, once a number and then a higher one have arrived, all numbers
-- between the two that come late, each of them once, are let through and held: whatever its size is,
-- the window then holds as many numbers as have arrived.
pub feed_late_unbounded :
    (size first last : ℕ) (late : List ℕ)
    → 2 ≤ size
    → first < last
    → Distinct late
    → All (λ s. (first < s) × (s < last)) late
    → let (w, accepted) = feed (new size) (first ∷ last ∷ late) in
      (w.size ≡ size) × (length w.seen ≡ length late + 2) × (accepted ≡ first ∷ last ∷ late)
unfolding feed start new
feed_late_unbounded size first last late h k d between =
    let v : DedupWindow = start (new size) first in
    let w : DedupWindow = record v { max_seq = last; seen = insert_key v.seen last } in
    let one : is_duplicate (new size) first ≡ (v, false) = unfold is_duplicate in refl in
    let two : is_duplicate v last ≡ (w, false) =
      unfold is_duplicate mark_seen slide contains_key insert_key in ground arith in
    let (n, e, z) = feed_late w late refl d (outside first last late between) in
    rw (one, two)
      (z, n ∙ (unfold insert_key in ground arith), ap (λ (l : List ℕ). first ∷ last ∷ l) e)

feed_low :
    {first : ℕ} (w : DedupWindow) (seqs : List ℕ)
    → IsStarted first w
    → All (λ s. s < first) seqs
    → feed w seqs ≡ (w, [])
unfolding feed is_duplicate
feed_low w [] v h = refl
feed_low w (seq ∷ seqs) v h =
    let low : is_duplicate w seq ≡ (w, true) = ground (arith, v.is_started, v.first_le) in
    rw (low, feed_low w seqs v h.1)

-- In a window of a size from 1 to 2^32 - 1 that has started, numbers below the first one that
-- arrived are never let through, however many come, and leave the window as it is: a counter that
-- has wrapped round to 0 is shut out for as long as it is below the first number.
pub feed_below_first :
    (size first : ℕ) (seqs later : List ℕ)
    → IsSize size
    → All IsSeq (first ∷ seqs)
    → All (λ s. s < first) later
    → let w = (feed (new size) (first ∷ seqs)).0 in feed w later ≡ (w, [])
unfolding new feed is_duplicate start
feed_below_first size first seqs later h k l =
    let (v, m, z) =
      feed-IsStarted (start (new size) first) seqs (start-IsStarted (new size) first refl h k.0)
        k.1 in
    feed_low _ later v l
