-- ===== src/Client/Window.antt =====
-- `ResponseDedupWindow` of fproxy-rs/src/client.rs: the response numbers seen in one session. It is
-- the server's `DedupWindow` once more, and shown to answer as that does.
use fproxy.Base.{
  ℕ, ◌+◌, ◌-◌, ◌%◌, ◌≡◌, refl, Bool, true, false, not, List, [], ltb, leb, if◌then◌else◌, length,
  retain, contains_key, insert_key, u32_mod, arith,
}
use fproxy.Server.Window.{DedupWindow}
use fproxy.Server.Window

pub record ResponseDedupWindow : Type 0 where
  pub seen : List ℕ
  pub min_seq : ℕ
  pub max_seq : ℕ
  pub size : ℕ
  pub started : Bool

unfoldable pub new : ℕ → ResponseDedupWindow
new size = record { seen = []; min_seq = 0; max_seq = 0; size = size; started = false }

unfoldable pub new_min : ℕ → ℕ → ℕ
new_min max_seq size = max_seq - (size % u32_mod + u32_mod - 1) % u32_mod

unfoldable pub slide : ResponseDedupWindow → ResponseDedupWindow
unfolding new_min
slide w =
    if ltb w.size (length w.seen)
    then record w {
      seen = retain (λ s. leb (new_min w.max_seq w.size) s) w.seen;
      min_seq = new_min w.max_seq w.size;
    }
    else w

unfoldable pub is_duplicate : ResponseDedupWindow → ℕ → ResponseDedupWindow × Bool
unfolding slide
is_duplicate w seq =
    if not w.started
    then (
      record w { started = true; min_seq = seq; max_seq = seq; seen = insert_key w.seen seq },
      false,
    )
    else if contains_key w.seen seq
    then (w, true)
    else if ltb seq w.min_seq
    then (w, true)
    else let marked = record w { seen = insert_key w.seen seq } in
      (if ltb w.max_seq seq then slide (record marked { max_seq = seq }) else marked, false)

-- The same fields, as the server's window.
unfoldable pub as_window : ResponseDedupWindow → DedupWindow
as_window w = record {
  seen = w.seen;
  min_seq = w.min_seq;
  max_seq = w.max_seq;
  size = w.size;
  started = w.started;
}

pub as_window-new : (size : ℕ) → as_window (new size) ≡ Window.new size
unfolding as_window new Window.new
as_window-new size = refl

-- The client's window of responses, read as a window of the server's, gives the same answer to a
-- number and moves in the same way.
pub as_window-is_duplicate :
    (w : ResponseDedupWindow) (seq : ℕ)
    → (as_window (is_duplicate w seq).0 ≡ (Window.is_duplicate (as_window w) seq).0)
      × ((is_duplicate w seq).1 ≡ (Window.is_duplicate (as_window w) seq).1)
unfolding as_window is_duplicate Window.is_duplicate Window.start Window.mark_seen Window.slide
    Window.new_min
as_window-is_duplicate w seq = ground arith
