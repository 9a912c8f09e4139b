-- ===== src/Frame/RoundTrip.antt =====
-- What was framed is read back, packet for packet.
use fproxy.Base.{
  ℕ, zero, suc, ◌+◌, ◌%◌, ◌≤◌, ◌≡◌, refl, ◌||◌, false, List, [], ◌∷◌, ◌++◌, Bytes, ltb, ◌==◌,
  length, take, drop, to_be_bytes, from_be_bytes, u16_mod, arith, All, ap, ◌∙◌, sym, length-append,
  length-to_be_bytes, from_be_bytes-to_be_bytes, take-append, drop-append, append_assoc, append-nil,
  subst, length-drop, length-take_le,
}
use fproxy.Frame.{
  max_tcp_frame_size, frame, Next, closed, invalid, cut, packet, next_frame, read_loop, read_frames,
  after_round,
}

-- The packets that fit a frame.
abbrev pub IsFramable : Bytes → Type 0
IsFramable payload = (1 ≤ length payload) × (length payload ≤ max_tcp_frame_size)

abbrev pub frames : List Bytes → Bytes
frames [] = []
frames (p ∷ ps) = frame p ++ frames ps

pub next_frame-frame :
    (payload rest : Bytes)
    → IsFramable payload
    → next_frame (frame payload ++ rest) ≡ packet payload rest
unfolding next_frame frame
next_frame-frame payload rest h =
    let head = to_be_bytes 2 (length payload % u16_mod) in
    let n : length payload % u16_mod ≡ length payload = omega arith in
    let lh : length head ≡ 2 = length-to_be_bytes 2 (length payload % u16_mod) in
    let tk : take 2 (head ++ (payload ++ rest)) ≡ head = take-append 2 head (payload ++ rest) lh in
    let dr : drop 2 (head ++ (payload ++ rest)) ≡ payload ++ rest =
      drop-append 2 head (payload ++ rest) lh in
    let len : from_be_bytes head ≡ length payload =
      from_be_bytes-to_be_bytes 2 (length payload % u16_mod) (omega arith) ∙ n in
    let l1 : ltb (length (head ++ (payload ++ rest))) 2 ≡ false =
      ground (arith, length-append head (payload ++ rest), lh) in
    let l2 : (length payload == 0 || ltb max_tcp_frame_size (length payload)) ≡ false =
      ground arith in
    let l3 : ltb (length (payload ++ rest)) (length payload) ≡ false =
      ground (arith, length-append payload rest) in
    rw (
      append_assoc head payload rest,
      l1,
      tk,
      dr,
      len,
      l2,
      l3,
      take-append (length payload) payload rest refl,
      drop-append (length payload) payload rest refl,
    )

-- A packet that was read leaves at least two bytes less.
next_frame_shrinks :
    (stream payload rest : Bytes)
    → next_frame stream ≡ packet payload rest
    → length rest + 2 ≤ length stream
unfolding next_frame
next_frame_shrinks stream payload rest h =
    ground
      (arith, length-drop 2 stream, length-drop (from_be_bytes (take 2 stream)) (drop 2 stream))

short : (stream : Bytes) → length stream ≤ 0 → next_frame stream ≡ closed
unfolding next_frame
short stream h = ground arith

after_round_eq :
    (f g : Bytes → List Bytes) (n : Next)
    → ((payload rest : Bytes) → n ≡ packet payload rest → f rest ≡ g rest)
    → after_round f n ≡ after_round g n
after_round_eq f g closed h = refl
after_round_eq f g invalid h = refl
after_round_eq f g cut h = refl
after_round_eq f g (packet payload rest) h = ap (◌∷◌ payload) (h payload rest refl)

more_fuel :
    (more fuel : ℕ) (stream : Bytes)
    → length stream ≤ more
    → length stream ≤ fuel
    → read_loop more stream ≡ read_loop fuel stream
unfolding read_loop
more_fuel zero zero stream h k = refl
more_fuel zero (suc fuel) stream h k = rw (short stream h)
more_fuel (suc more) zero stream h k = rw (short stream k)
more_fuel (suc more) (suc fuel) stream h k =
    after_round_eq (read_loop more) (read_loop fuel) (next_frame stream) λ payload rest e.
      let s : length rest + 2 ≤ length stream = next_frame_shrinks stream payload rest e in
      more_fuel more fuel rest (omega arith) (omega arith)

-- With as many rounds as the stream has bytes, or more, the loop reads what it reads with as many
-- as bytes: it has ended by itself.
pub read_loop_fuel :
    (fuel : ℕ) (stream : Bytes) → length stream ≤ fuel → read_loop fuel stream ≡ read_frames stream
unfolding read_frames
read_loop_fuel fuel stream h = more_fuel fuel (length stream) stream h (omega arith)

-- Reading is a round, and reading what the round leaves.
pub read_frames_step :
    (stream : Bytes) → read_frames stream ≡ after_round read_frames (next_frame stream)
unfolding read_loop
read_frames_step stream =
    sym (read_loop_fuel (suc (length stream)) stream (omega arith))
    ∙ after_round_eq (read_loop (length stream)) read_frames (next_frame stream) λ payload rest e.
      let s : length rest + 2 ≤ length stream = next_frame_shrinks stream payload rest e in
      read_loop_fuel (length stream) rest (omega arith)

-- Packets of 1 to 65535 bytes that were framed are read back in order, and whatever follows them
-- is read after them.
pub read_frames-frames :
    (packets : List Bytes) (rest : Bytes)
    → All IsFramable packets
    → read_frames (frames packets ++ rest) ≡ packets ++ read_frames rest
read_frames-frames [] rest h = refl
read_frames-frames (p ∷ ps) rest h = rw (
  append_assoc (frame p) (frames ps) rest,
  read_frames_step (frame p ++ (frames ps ++ rest)),
  next_frame-frame p (frames ps ++ rest) h.0,
  read_frames-frames ps rest h.1,
)

packet-IsFramable :
    (stream payload rest : Bytes) → next_frame stream ≡ packet payload rest → IsFramable payload
unfolding next_frame
packet-IsFramable stream payload rest h =
    ground (arith, length-take_le (from_be_bytes (take 2 stream)) (drop 2 stream))

after_round-IsFramable :
    (f : Bytes → List Bytes) (n : Next)
    → ((payload rest : Bytes) → n ≡ packet payload rest → IsFramable payload)
    → ((rest : Bytes) → All IsFramable (f rest))
    → All IsFramable (after_round f n)
after_round-IsFramable f closed h k = tt
after_round-IsFramable f invalid h k = tt
after_round-IsFramable f cut h k = tt
after_round-IsFramable f (packet payload rest) h k = (h payload rest refl, k rest)

read_loop-IsFramable : (fuel : ℕ) (stream : Bytes) → All IsFramable (read_loop fuel stream)
unfolding read_loop
read_loop-IsFramable zero stream = tt
read_loop-IsFramable (suc fuel) stream =
    after_round-IsFramable (read_loop fuel) (next_frame stream) (packet-IsFramable stream)
      (read_loop-IsFramable fuel)

-- A single frame is read as its packet.
pub read_frames-frame :
    (payload : Bytes) → IsFramable payload → read_frames (frame payload) ≡ payload ∷ []
unfolding read_frames read_loop next_frame
read_frames-frame payload h =
    let e : (frame payload ++ []) ++ [] ≡ frame payload =
      append-nil (frame payload ++ []) ∙ append-nil (frame payload) in
    subst (λ (b : Bytes). read_frames b ≡ payload ∷ []) e
      (read_frames-frames (payload ∷ []) [] (h, tt))
