-- ===== src/Server/Window.antt =====
-- `DedupWindow` of fproxy-rs/src/server.rs: the sequence numbers seen in one session.
-- A sequence number is a `u32`. The subtraction `size as u32 - 1` wraps, as in a release build.
pub mod Invariant
pub mod Once
pub mod Bounds
pub mod Spec
use fproxy.Base.{
  ℕ, ◌+◌, ◌-◌, ◌%◌, Bool, true, false, not, ◌||◌, ◌&&◌, List, [], ◌∷◌, ltb, leb, if◌then◌else◌,
  length, retain, contains_key, insert_key, u32_mod,
}

pub record DedupWindow : Type 0 where
  pub seen : List ℕ
  pub min_seq : ℕ
  pub max_seq : ℕ
  pub size : ℕ
  pub started : Bool

unfoldable pub new : ℕ → DedupWindow
new size = record { seen = []; min_seq = 0; max_seq = 0; size = size; started = false }

-- The oldest number that a window of `size` keeps when `max_seq` is the newest.
unfoldable pub new_min : ℕ → ℕ → ℕ
new_min max_seq size = max_seq - (size % u32_mod + u32_mod - 1) % u32_mod

-- Drop what is too old, if more than `size` numbers are held.
unfoldable pub slide : DedupWindow → DedupWindow
slide w =
    if ltb w.size (length w.seen)
    then record w {
      seen = retain (λ s. leb (new_min w.max_seq w.size) s) w.seen;
      min_seq = new_min w.max_seq w.size;
    }
    else w

unfoldable pub mark_seen : DedupWindow → ℕ → DedupWindow
mark_seen w seq =
    let marked = record w { seen = insert_key w.seen seq } in
    if ltb w.max_seq seq then slide (record marked { max_seq = seq }) else marked

unfoldable pub start : DedupWindow → ℕ → DedupWindow
start w seq = record w {
  started = true;
  min_seq = seq;
  max_seq = seq;
  seen = insert_key w.seen seq;
}

-- The new window, and whether the number is a duplicate.
unfoldable pub is_duplicate : DedupWindow → ℕ → DedupWindow × Bool
is_duplicate w seq =
    if not w.started
    then (start w seq, false)
    else if contains_key w.seen seq
    then (w, true)
    else if ltb seq w.min_seq
    then (w, true)
    else (mark_seen w seq, false)

-- The numbers that are let through when `seqs` arrive one after the other, and the last window.
unfoldable pub feed : DedupWindow → List ℕ → DedupWindow × List ℕ
feed w [] = (w, [])
feed w (seq ∷ seqs) =
    let (w', duplicate) = is_duplicate w seq in
    let (w'', accepted) = feed w' seqs in (w'', if duplicate then accepted else seq ∷ accepted)
