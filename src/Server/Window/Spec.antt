-- ===== src/Server/Window/Spec.antt =====
-- What `DedupWindow` of fproxy-rs/src/server.rs promises, as a machine without sets that slide: it remembers every
-- number that it let through, and may call others duplicates only if they are old.
use fproxy.Base.{
  ℕ, ◌+◌, ◌≤◌, ◌<◌, ◌≡◌, refl, Bool, true, false, List, [], ◌∷◌, arith, ◌==◌, Option, none, some,
  ◌⊎◌, contains_key, insert_key, inl, inr, Bool-cases, All, max, contains_key-insert_key, ◌∙◌, ap,
  sym, nat_eq,
}
use fproxy.Server.Window.{DedupWindow, new, start, is_duplicate}
use fproxy.Server.Window.Invariant.{
  IsStarted, running, IsSeq, IsSize, is_duplicate-IsStarted, start-IsStarted,
}
use fproxy.Server.Window.Once.{
  rejects, is_duplicate-rejects, rejects-persists, rejects-is_duplicate,
}
use fproxy.Server.Window.Bounds.{held, is_duplicate-max_seq, is_duplicate-size}

-- The first number, the newest, and all that were let through.
pub record History : Type 0 where
  pub first : ℕ
  pub newest : ℕ
  pub accepted : List ℕ

-- `Answers size before seq duplicate after`: the first number is let through. A number that was let
-- through before is a duplicate. A number below the first, or `size` or more behind the newest, may
-- be called one. No other is.
pub data Answers (size : ℕ) : Option History → ℕ → Bool → Option History → Type 0 where
  begins :
      (seq : ℕ)
      → Answers size none seq false (some record { first = seq; newest = seq; accepted = seq ∷ [] })
  accepts :
      (h : History) (seq : ℕ)
      → contains_key h.accepted seq ≡ false
      → h.first ≤ seq
      → Answers size
          (some h)
          seq
          false
          (some record { first = h.first; newest = max h.newest seq; accepted = seq ∷ h.accepted })
  repeats :
      (h : History) (seq : ℕ)
      → contains_key h.accepted seq ≡ true
      → Answers size (some h) seq true (some h)
  too_old :
      (h : History) (seq : ℕ)
      → (seq < h.first) ⊎ (seq + size ≤ h.newest)
      → Answers size (some h) seq true (some h)

-- The answers to numbers that arrive one after the other.
pub data Runs (size : ℕ) : Option History → List ℕ → List Bool → Option History → Type 0 where
  done : (h : Option History) → Runs size h [] [] h
  next :
      (h h' h'' : Option History) (seq : ℕ) (seqs : List ℕ) (duplicate : Bool) (answers : List Bool)
      → Answers size h seq duplicate h'
      → Runs size h' seqs answers h''
      → Runs size h (seq ∷ seqs) (duplicate ∷ answers) h''

-- The window's answers to numbers that arrive one after the other.
unfoldable pub answers : DedupWindow → List ℕ → List Bool
answers w [] = []
answers w (seq ∷ seqs) = let (w', duplicate) = is_duplicate w seq in duplicate ∷ answers w' seqs

-- What the window keeps of a history.
pub data Keeps (size : ℕ) (w : DedupWindow) : Option History → Type 0 where
  nothing : w.started ≡ false → w.seen ≡ [] → w.size ≡ size → IsSize size → Keeps size w none
  something :
      (h : History)
      → IsStarted h.first w
      → w.size ≡ size
      → w.max_seq ≡ h.newest
      → ((s : ℕ) → contains_key w.seen s ≡ true → contains_key h.accepted s ≡ true)
      → ((s : ℕ) → contains_key h.accepted s ≡ true → rejects w s ≡ true)
      → Keeps size w (some h)

-- The window's next answer, from what it keeps, is one that the machine may give.
pub record IsRefined (size : ℕ) (w : DedupWindow) (h : Option History) (seq : ℕ) : Type 0 where
  pub after : Option History
  pub answer : Answers size h seq (is_duplicate w seq).1 after
  pub keeps : Keeps size (is_duplicate w seq).0 after

begins-IsRefined :
    (size : ℕ) (w : DedupWindow) (seq : ℕ)
    → w.started ≡ false
    → w.seen ≡ []
    → w.size ≡ size
    → IsSize size
    → IsSeq seq
    → IsRefined size w none seq
unfolding is_duplicate start
begins-IsRefined size w seq e n z h k =
    let v : IsStarted seq (start w seq) = start-IsStarted w seq n (rw z h) k in
    let learns : rejects (start w seq) seq ≡ true =
      unfold rejects insert_key in ground (arith, contains_key-insert_key w.seen seq seq) in
    rw e record {
      after = some record { first = seq; newest = seq; accepted = seq ∷ [] };
      answer = begins seq;
      keeps =
          something record { first = seq; newest = seq; accepted = seq ∷ [] } v z refl
            (λ s c. unfold contains_key in ground (arith, contains_key-insert_key w.seen seq s, n))
            (λ s c. let q : seq ≡ s = unfold contains_key in ground arith in rw (← q) learns);
    }

-- A duplicate leaves the window as it is.
duplicate_same :
    (w : DedupWindow) (seq : ℕ) → (is_duplicate w seq).1 ≡ true → (is_duplicate w seq).0 ≡ w
unfolding is_duplicate
duplicate_same w seq e = ground arith

-- A started window that calls a number a duplicate holds it, or has moved past it.
why_duplicate :
    {first : ℕ} (w : DedupWindow) (seq : ℕ)
    → IsStarted first w
    → (is_duplicate w seq).1 ≡ true
    → (contains_key w.seen seq ≡ true) ⊎ ((seq < first) ⊎ (seq + w.size ≤ w.max_seq))
why_duplicate w seq v e =
    let r : rejects w seq ≡ true = sym (is_duplicate-rejects w seq) ∙ e in
    unfold rejects in ground (arith, v.anchored)

duplicate-IsRefined :
    (size : ℕ) (w : DedupWindow) (h : History) (seq : ℕ)
    → Keeps size w (some h)
    → (is_duplicate w seq).1 ≡ true
    → IsRefined size w (some h) seq
duplicate-IsRefined size w h seq (something _ v z m less more) e =
    let same : (is_duplicate w seq).0 ≡ w = duplicate_same w seq e in
    let keeps : Keeps size (is_duplicate w seq).0 (some h) =
      rw same (something h v z m less more) in
    elim (why_duplicate w seq v e) [
      | inl c ↦ record { after = some h; answer = rw e (repeats h seq (less seq c)); keeps = keeps }
      | inr old ↦ record {
        after = some h;
        answer = rw e (too_old h seq (ground (arith, z, m)));
        keeps = keeps;
      }
    ]

accepts-IsRefined :
    (size : ℕ) (w : DedupWindow) (h : History) (seq : ℕ)
    → Keeps size w (some h)
    → IsSeq seq
    → (is_duplicate w seq).1 ≡ false
    → IsRefined size w (some h) seq
accepts-IsRefined size w h seq (something _ v z m less more) k e =
    let r : rejects w seq ≡ false = sym (is_duplicate-rejects w seq) ∙ e in
    let unseen : contains_key h.accepted seq ≡ false =
      elim (Bool-cases (contains_key h.accepted seq)) [
        | inl c ↦ absurd (cc (sym r ∙ more seq c))
        | inr c ↦ c
      ] in
    let above : h.first ≤ seq = unfold rejects in ground (arith, v.first_le, v.is_started) in
    let after : History = record {
      first = h.first;
      newest = max h.newest seq;
      accepted = seq ∷ h.accepted;
    } in
    record {
      after = some after;
      answer = rw e (accepts h seq unseen above);
      keeps =
          something after (is_duplicate-IsStarted w seq v k) (is_duplicate-size w seq ∙ z)
            (is_duplicate-max_seq w seq v ∙ ap (λ (n : ℕ). max n seq) m)
            (λ s c. elim (Bool-cases (contains_key w.seen s)) [
              | inl old ↦ unfold contains_key in ground (arith, less s)
              | inr fresh ↦ unfold contains_key in ground (arith, held w seq s)
            ])
            (λ s c. elim (Bool-cases (seq == s)) [
              | inl now ↦
                  let q : seq ≡ s = ground arith in
                  rw (← q) (rejects-is_duplicate w seq (running h.first v) k)
              | inr before ↦
                  rejects-persists w seq s (running h.first v) k
                    (more s (unfold contains_key in ground arith))
            ]);
    }

-- Whatever a window keeps of a history, its next answer is one that the abstract machine may give
-- after that history, and it keeps the history that comes of it: the machine lets no number through
-- twice, and calls no other a duplicate unless it lies below the first or `size` or more behind the
-- newest.
pub is_duplicate-IsRefined :
    (size : ℕ) (w : DedupWindow) (h : Option History) (seq : ℕ)
    → Keeps size w h
    → IsSeq seq
    → IsRefined size w h seq
is_duplicate-IsRefined size w none seq (nothing e n z k) l = begins-IsRefined size w seq e n z k l
is_duplicate-IsRefined size w (some h) seq v l = elim (Bool-cases (is_duplicate w seq).1) [
  | inl e ↦ duplicate-IsRefined size w h seq v e
  | inr e ↦ accepts-IsRefined size w h seq v l e
]

answers-Runs :
    (size : ℕ) (w : DedupWindow) (h : Option History) (seqs : List ℕ)
    → Keeps size w h
    → All IsSeq seqs
    → (h' : Option History) × Runs size h seqs (answers w seqs) h'
unfolding answers
answers-Runs size w h [] v k = (h, done h)
answers-Runs size w h (seq ∷ seqs) v k =
    let r : IsRefined size w h seq = is_duplicate-IsRefined size w h seq v k.0 in
    let (h', rest) = answers-Runs size (is_duplicate w seq).0 r.after seqs r.keeps k.1 in
    (h', next h r.after h' seq seqs _ _ r.answer rest)

-- A window of a size from 1 to 2^32 - 1 refines the abstract machine: its answers to 32-bit numbers,
-- however they arrive, are answers that the machine may give. The machine lets the first number
-- through, lets none through twice, and calls no other a duplicate unless it lies below the first or
-- `size` or more behind the newest.
pub window_refines :
    (size : ℕ) (seqs : List ℕ)
    → IsSize size
    → All IsSeq seqs
    → (h : Option History) × Runs size none seqs (answers (new size) seqs) h
unfolding new
window_refines size seqs h k = answers-Runs size (new size) none seqs (nothing refl refl refl h) k
