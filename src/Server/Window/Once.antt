-- ===== src/Server/Window/Once.antt =====
-- `DedupWindow` lets each sequence number through once.
use fproxy.Base.{
  ℕ, ◌≤◌, ◌≡◌, refl, Bool, true, false, ◌||◌, ◌&&◌, List, [], ◌∷◌, arith, ltb, leb, ◌==◌,
  contains_key, insert_key, Distinct, inl, inr, Bool-cases, All, contains_key-insert_key,
  contains_key-retain, ◌∙◌, ap,
}
use fproxy.Server.Window.{DedupWindow, new_min, slide, mark_seen, start, is_duplicate, feed}
use fproxy.Server.Window.Invariant.{
  IsStarted, IsValid, IsSeq, fresh, running, new_min_bounds, is_duplicate-IsValid, marked-IsStarted,
  raised-IsStarted,
}

-- What the window answers for `seq`, without the bookkeeping.
unfoldable pub rejects : DedupWindow → ℕ → Bool
rejects w seq = w.started && (contains_key w.seen seq || ltb seq w.min_seq)

pub is_duplicate-rejects : (w : DedupWindow) (seq : ℕ) → (is_duplicate w seq).1 ≡ rejects w seq
unfolding is_duplicate rejects
is_duplicate-rejects w seq = ground arith

-- The slide forgets only numbers that it has put below `min_seq`.
slide-rejects :
    {first : ℕ} (w : DedupWindow) (s : ℕ)
    → IsStarted first w
    → rejects w s ≡ true
    → rejects (slide w) s ≡ true
unfolding slide rejects
slide-rejects w s v h = ground (
  arith,
  new_min_bounds w v,
  contains_key-retain (λ x. leb (new_min w.max_seq w.size) x) w.seen s,
)

marked-rejects :
    (w : DedupWindow) (seq s : ℕ)
    → w.started ≡ true
    → rejects (record w { seen = insert_key w.seen seq }) s ≡ (seq == s || rejects w s)
unfolding rejects
marked-rejects w seq s e = ground (arith, contains_key-insert_key w.seen seq s)

-- Marking a number rejects it from then on, with whatever was rejected before.
mark_seen-rejects :
    {first : ℕ} (w : DedupWindow) (seq s : ℕ)
    → IsStarted first w
    → IsSeq seq
    → w.min_seq ≤ seq
    → (seq == s || rejects w s) ≡ true
    → rejects (mark_seen w seq) s ≡ true
unfolding mark_seen
mark_seen-rejects w seq s v k h r = elim (Bool-cases (ltb w.max_seq seq)) [
  | inl newer ↦ rw newer (
      slide-rejects _ s
        (marked-IsStarted (record w { max_seq = seq }) seq
          (raised-IsStarted w seq v (ground arith) k) h (omega arith))
        (marked-rejects (record w { max_seq = seq }) seq s v.is_started ∙ unfold rejects in r))
  | inr older ↦ rw older (marked-rejects w seq s v.is_started ∙ r)
]

start-rejects : (w : DedupWindow) (seq : ℕ) → rejects (start w seq) seq ≡ true
unfolding rejects start
start-rejects w seq = ground (arith, contains_key-insert_key w.seen seq seq)

-- A rejected number stays rejected, whatever arrives.
pub rejects-persists :
    (w : DedupWindow) (seq s : ℕ)
    → IsValid w
    → IsSeq seq
    → rejects w s ≡ true
    → rejects (is_duplicate w seq).0 s ≡ true
unfolding is_duplicate
rejects-persists w seq s (fresh e n h) k r = absurd (unfold rejects in ground arith)
rejects-persists w seq s (running first v) k r =
    ground (arith, v.is_started, mark_seen-rejects w seq s v k)

-- Once it has arrived, a number is rejected.
pub rejects-is_duplicate :
    (w : DedupWindow) (seq : ℕ) → IsValid w → IsSeq seq → rejects (is_duplicate w seq).0 seq ≡ true
unfolding is_duplicate
rejects-is_duplicate w seq (fresh e n h) k = ground (arith, start-rejects w seq)
rejects-is_duplicate w seq (running first v) k =
    unfold rejects in ground (arith, v.is_started, mark_seen-rejects w seq seq v k)

pub feed-IsValid :
    (w : DedupWindow) (seqs : List ℕ) → IsValid w → All IsSeq seqs → IsValid (feed w seqs).0
unfolding feed
feed-IsValid w [] v h = v
feed-IsValid w (seq ∷ seqs) v h =
    feed-IsValid (is_duplicate w seq).0 seqs (is_duplicate-IsValid w seq v h.0) h.1

-- Nothing that the window rejects is let through later.
feed_rejected :
    (w : DedupWindow) (seqs : List ℕ) (s : ℕ)
    → IsValid w
    → All IsSeq seqs
    → rejects w s ≡ true
    → contains_key (feed w seqs).1 s ≡ false
unfolding feed contains_key
feed_rejected w [] s v h r = refl
feed_rejected w (seq ∷ seqs) s v h r =
    let v' : IsValid (is_duplicate w seq).0 = is_duplicate-IsValid w seq v h.0 in
    let rest : contains_key (feed (is_duplicate w seq).0 seqs).1 s ≡ false =
      feed_rejected (is_duplicate w seq).0 seqs s v' h.1 (rejects-persists w seq s v h.0 r) in
    elim (Bool-cases (seq == s)) [
      | inl same ↦
          let e : seq ≡ s = ground arith in
          let d : (is_duplicate w seq).1 ≡ true =
            is_duplicate-rejects w seq ∙ ap (rejects w) e ∙ r in
          rw d rest
      | inr other ↦ ground (arith, rest)
    ]

-- A well-formed window lets no 32-bit number through twice, in whatever order and however often
-- numbers arrive.
pub feed-Distinct :
    (w : DedupWindow) (seqs : List ℕ) → IsValid w → All IsSeq seqs → Distinct (feed w seqs).1
unfolding feed
feed-Distinct w [] v h = tt
feed-Distinct w (seq ∷ seqs) v h =
    let v' : IsValid (is_duplicate w seq).0 = is_duplicate-IsValid w seq v h.0 in
    ground (
      arith,
      feed-Distinct (is_duplicate w seq).0 seqs v' h.1,
      feed_rejected (is_duplicate w seq).0 seqs seq v' h.1 (rejects-is_duplicate w seq v h.0),
    )
