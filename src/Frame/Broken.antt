-- ===== src/Frame/Broken.antt =====
-- How the reading loops of fproxy-rs/src/server.rs and fproxy-rs/src/client.rs end on a stream that
-- breaks off or brings a length of zero.
use fproxy.Base.{
  ℕ, zero, suc, ◌%◌, ◌<◌, ◌≡◌, refl, ◌||◌, true, false, List, [], ◌∷◌, ◌++◌, Bytes, ltb, ◌==◌,
  length, take, to_be_bytes, from_be_bytes, u16_mod, arith, All, ◌∙◌, length-append,
  length-to_be_bytes, from_be_bytes-to_be_bytes, take-append, drop-append, append-nil,
  length-take_le,
}
use fproxy.Frame.{max_tcp_frame_size, frame, closed, invalid, cut, next_frame, read_frames}
use fproxy.Frame.RoundTrip.{IsFramable, frames, read_frames-frames, read_frames_step}

-- A length of zero with anything after it, or a frame that is not complete.
pub data IsBroken : Bytes → Type 0 where
  no_length : (rest : Bytes) → IsBroken (0 ∷ 0 ∷ rest)
  cut_off :
      (payload : Bytes) (n : ℕ)
      → IsFramable payload
      → n < length (frame payload)
      → IsBroken (take n (frame payload))

take_head :
    (m : ℕ) (head payload : Bytes)
    → length head ≡ 2
    → take (suc (suc m)) (head ++ payload) ≡ head ++ take m payload
take_head m [] payload h = absurd (omega arith)
take_head m (a ∷ []) payload h = absurd (omega arith)
take_head m (a ∷ b ∷ []) payload h = refl
take_head m (a ∷ b ∷ c ∷ head) payload h = absurd (omega arith)

-- Of a frame that has its length but not all of its data, the data is short.
next_frame_cut :
    (m : ℕ) (payload : Bytes)
    → IsFramable payload
    → suc (suc m) < length (frame payload)
    → next_frame (take (suc (suc m)) (frame payload)) ≡ cut
unfolding next_frame frame
next_frame_cut m payload h k =
    let head = to_be_bytes 2 (length payload % u16_mod) in
    let n : length payload % u16_mod ≡ length payload = omega arith in
    let lh : length head ≡ 2 = length-to_be_bytes 2 (length payload % u16_mod) in
    let len : from_be_bytes head ≡ length payload =
      from_be_bytes-to_be_bytes 2 (length payload % u16_mod) (omega arith) ∙ n in
    let l1 : ltb (length (head ++ take m payload)) 2 ≡ false =
      ground (arith, length-append head (take m payload), lh) in
    let l2 : (length payload == 0 || ltb max_tcp_frame_size (length payload)) ≡ false =
      ground arith in
    let l3 : ltb (length (take m payload)) (length payload) ≡ true =
      ground (arith, length-take_le m payload, length-append head payload, lh) in
    rw (
      take_head m head payload lh,
      l1,
      take-append 2 head (take m payload) lh,
      drop-append 2 head (take m payload) lh,
      len,
      l2,
      l3,
    )

next_frame_short : (stream : Bytes) → length stream < 2 → next_frame stream ≡ closed
unfolding next_frame
next_frame_short stream h = ground arith

next_frame_zero : (rest : Bytes) → next_frame (0 ∷ 0 ∷ rest) ≡ invalid
unfolding next_frame from_be_bytes
next_frame_zero rest = ground arith

-- Nothing is read from a broken stream.
read_frames_broken : (stream : Bytes) → IsBroken stream → read_frames stream ≡ []
read_frames_broken _ (no_length rest) =
    read_frames_step (0 ∷ 0 ∷ rest) ∙ rw (next_frame_zero rest) refl
read_frames_broken _ (cut_off payload zero h k) =
    read_frames_step [] ∙ rw (next_frame_short [] (omega arith)) refl
read_frames_broken _ (cut_off payload (suc zero) h k) =
    let s : length (take 1 (frame payload)) ≡ 1 = length-take_le 1 (frame payload) (omega arith) in
    read_frames_step (take 1 (frame payload))
    ∙ rw (next_frame_short (take 1 (frame payload)) (omega (arith, s))) refl
read_frames_broken _ (cut_off payload (suc (suc m)) h k) =
    read_frames_step (take (suc (suc m)) (frame payload)) ∙ rw (next_frame_cut m payload h k) refl

-- A stream of packets of 1 to 65535 bytes that then breaks off within a frame, or brings a length of
-- zero, is read up to there: all packets before, in order, and nothing of what comes after.
pub read_frames-broken :
    (packets : List Bytes) (stream : Bytes)
    → All IsFramable packets
    → IsBroken stream
    → read_frames (frames packets ++ stream) ≡ packets
read_frames-broken packets stream h k =
    read_frames-frames packets stream h ∙ rw (read_frames_broken stream k) (append-nil packets)
