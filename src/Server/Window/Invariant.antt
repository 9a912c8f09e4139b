-- ===== src/Server/Window/Invariant.antt =====
-- The invariant of `DedupWindow`: what is held lies between `min_seq` and `max_seq`, once each.
use fproxy.Base.{
  ℕ, ◌+◌, ◌-◌, ◌≤◌, ◌<◌, ◌≡◌, refl, true, false, [], arith, ltb, length, contains_key, insert_key,
  Distinct, Within, u32_mod, inl, inr, Bool-cases, Distinct-retain, Distinct-insert_key,
  Within-insert_key, Within-mono, length-Within, Within-retain, ◌⊎◌,
}
use fproxy.Server.Window.{DedupWindow, new, new_min, slide, mark_seen, start, is_duplicate}

-- The sizes for which `size as u32 - 1` neither truncates nor wraps.
abbrev pub IsSize : ℕ → Type 0
IsSize size = (1 ≤ size) × (size < u32_mod)

abbrev pub IsSeq : ℕ → Type 0
IsSeq seq = seq < u32_mod

-- A window whose first number was `first`. `min_seq` is that number, or `size` numbers fit above it.
pub record IsStarted (first : ℕ) (w : DedupWindow) : Type 0 where
  pub is_started : w.started ≡ true
  pub sized : IsSize w.size
  pub ordered : w.min_seq ≤ w.max_seq
  pub newest : IsSeq w.max_seq
  pub distinct : Distinct w.seen
  pub within : Within w.min_seq w.max_seq w.seen
  pub first_le : first ≤ w.min_seq
  pub anchored : (w.min_seq ≡ first) ⊎ (w.min_seq + w.size ≤ w.max_seq + 1)

pub new_min-eq : (m size : ℕ) → IsSize size → new_min m size ≡ m + 1 - size
unfolding new_min
new_min-eq m size h = omega arith

-- What is held is no more than the numbers from `min_seq` to `max_seq`.
pub span :
    {first : ℕ} (w : DedupWindow) → IsStarted first w → length w.seen + w.min_seq ≤ w.max_seq + 1
span w v =
    let e : w.min_seq + (w.max_seq - w.min_seq) ≡ w.max_seq = omega (arith, v.ordered) in
    let h : Within w.min_seq (w.min_seq + (w.max_seq - w.min_seq)) w.seen = rw e v.within in
    omega (arith, v.ordered, length-Within w.min_seq (w.max_seq - w.min_seq) w.seen v.distinct h)

-- So more than `size` numbers span more than `size`, and the lower end moves up.
pub new_min_bounds :
    {first : ℕ} (w : DedupWindow)
    → IsStarted first w
    → w.size < length w.seen
    → (w.min_seq ≤ new_min w.max_seq w.size) × (new_min w.max_seq w.size + w.size ≡ w.max_seq + 1)
new_min_bounds w v h =
    let e : new_min w.max_seq w.size ≡ w.max_seq + 1 - w.size =
      new_min-eq w.max_seq w.size v.sized in
    omega (arith, e, v.sized, span w v)

slide-IsStarted : {first : ℕ} (w : DedupWindow) → IsStarted first w → IsStarted first (slide w)
unfolding slide
slide-IsStarted w v = elim (Bool-cases (ltb w.size (length w.seen))) [
  | inl full ↦
      let b : (w.min_seq ≤ new_min w.max_seq w.size)
          × (new_min w.max_seq w.size + w.size ≡ w.max_seq + 1) =
        new_min_bounds w v (ground arith) in
      rw full record {
        is_started = v.is_started;
        sized = v.sized;
        ordered = omega (arith, b, v.sized);
        newest = v.newest;
        distinct = Distinct-retain _ w.seen v.distinct;
        within =
            Within-retain w.min_seq (new_min w.max_seq w.size) w.max_seq _ w.seen
              (λ s h. ground arith) v.within;
        first_le = omega (arith, b, v.first_le);
        anchored = inr (omega (arith, b));
      }
  | inr room ↦ rw room v
]

-- A slide leaves `size` numbers at most.
pub length-slide :
    {first : ℕ} (w : DedupWindow) → IsStarted first w → length (slide w).seen ≤ w.size
unfolding slide
length-slide w v = ground (arith, new_min_bounds w v, span (slide w) (slide-IsStarted w v))

pub marked-IsStarted :
    {first : ℕ} (w : DedupWindow) (seq : ℕ)
    → IsStarted first w
    → w.min_seq ≤ seq
    → seq ≤ w.max_seq
    → IsStarted first (record w { seen = insert_key w.seen seq })
marked-IsStarted w seq v h k = record {
  is_started = v.is_started;
  sized = v.sized;
  ordered = v.ordered;
  newest = v.newest;
  distinct = Distinct-insert_key w.seen seq v.distinct;
  within = Within-insert_key w.min_seq w.max_seq seq w.seen v.within h k;
  first_le = v.first_le;
  anchored = v.anchored;
}

pub raised-IsStarted :
    {first : ℕ} (w : DedupWindow) (seq : ℕ)
    → IsStarted first w
    → w.max_seq < seq
    → IsSeq seq
    → IsStarted first (record w { max_seq = seq })
raised-IsStarted w seq v h k = record {
  is_started = v.is_started;
  sized = v.sized;
  ordered = omega (arith, v.ordered);
  newest = k;
  distinct = v.distinct;
  within = Within-mono w.min_seq w.max_seq seq w.seen v.within (omega arith);
  first_le = v.first_le;
  anchored = ground (arith, v.anchored);
}

mark_seen-IsStarted :
    {first : ℕ} (w : DedupWindow) (seq : ℕ)
    → IsStarted first w
    → IsSeq seq
    → w.min_seq ≤ seq
    → IsStarted first (mark_seen w seq)
unfolding mark_seen
mark_seen-IsStarted w seq v k h = elim (Bool-cases (ltb w.max_seq seq)) [
  | inl newer ↦ rw newer (
      slide-IsStarted _ (
        marked-IsStarted (record w { max_seq = seq }) seq
          (raised-IsStarted w seq v (ground arith) k) h (omega arith)))
  | inr older ↦ rw older (marked-IsStarted w seq v h (ground arith))
]

-- The first number starts the window.
pub start-IsStarted :
    (w : DedupWindow) (seq : ℕ)
    → w.seen ≡ []
    → IsSize w.size
    → IsSeq seq
    → IsStarted seq (start w seq)
unfolding start insert_key contains_key
start-IsStarted w seq e h k = ground (arith, e)

-- Every later number keeps the invariant.
pub is_duplicate-IsStarted :
    {first : ℕ} (w : DedupWindow) (seq : ℕ)
    → IsStarted first w
    → IsSeq seq
    → IsStarted first (is_duplicate w seq).0
unfolding is_duplicate
is_duplicate-IsStarted w seq v k = ground (arith, v.is_started, mark_seen-IsStarted w seq v k)

-- A window that the code has made: new, or started at some number.
pub data IsValid (w : DedupWindow) : Type 0 where
  fresh : w.started ≡ false → w.seen ≡ [] → IsSize w.size → IsValid w
  running : (first : ℕ) → IsStarted first w → IsValid w

pub new-IsValid : (size : ℕ) → IsSize size → IsValid (new size)
unfolding new
new-IsValid size h = fresh refl refl h

-- Whatever 32-bit number arrives, a window that is well formed stays so: what it holds is distinct
-- and lies between its two ends, and the lower end is the first number, or `size` numbers fit
-- above it.
pub is_duplicate-IsValid :
    (w : DedupWindow) (seq : ℕ) → IsValid w → IsSeq seq → IsValid (is_duplicate w seq).0
unfolding is_duplicate start
is_duplicate-IsValid w seq (fresh e s h) k = rw e (running seq (start-IsStarted w seq s h k))
is_duplicate-IsValid w seq (running first v) k = running first (is_duplicate-IsStarted w seq v k)
