-- ===== src/Frame.antt =====
-- TCP framing, as fproxy-rs/src/client.rs and fproxy-rs/src/server.rs write and read it: each packet
-- behind its length in two big-endian bytes. `read_exact` hides how the bytes were cut up on the
-- way, so a connection is the list of the bytes that arrive before it ends.
pub mod RoundTrip
pub mod Broken
use fproxy.Base.{
  ℕ, zero, suc, ◌+◌, ◌%◌, ◌||◌, List, [], ◌∷◌, ◌++◌, Bytes, ltb, ◌==◌, if◌then◌else◌, length, take,
  drop, to_be_bytes, from_be_bytes, u16_mod,
}

abbrev pub max_tcp_frame_size : ℕ
max_tcp_frame_size = 65535

-- `data.len() as u16`, then the data.
unfoldable pub frame : Bytes → Bytes
frame payload = to_be_bytes 2 (length payload % u16_mod) ++ payload

-- How a round of the reading loop ends: the connection closed before a length, a length that is
-- refused, a connection closed within the data, or a packet and the bytes after it.
pub data Next : Type 0 where
  closed invalid cut : Next
  packet : Bytes → Bytes → Next

unfoldable pub next_frame : Bytes → Next
next_frame stream =
    if ltb (length stream) 2
    then closed
    else let len = from_be_bytes (take 2 stream) in
      let body = drop 2 stream in
      if len == 0 || ltb max_tcp_frame_size len
      then invalid
      else if ltb (length body) len
      then cut
      else packet (take len body) (drop len body)

-- What a round adds, when `read` reads what follows.
abbrev pub after_round : (Bytes → List Bytes) → Next → List Bytes
after_round read closed = []
after_round read invalid = []
after_round read cut = []
after_round read (packet payload rest) = payload ∷ read rest

-- The packets read until the loop ends.
unfoldable pub read_loop : ℕ → Bytes → List Bytes
read_loop zero stream = []
read_loop (suc fuel) stream = after_round (read_loop fuel) (next_frame stream)

-- Each round takes two bytes or more, so the length of the stream bounds the rounds.
unfoldable pub read_frames : Bytes → List Bytes
read_frames stream = read_loop (length stream) stream
