-- ===== src/Protocol/RoundTrip.antt =====
-- Encoding and decoding of packets are inverse to one another.
use fproxy.Base.{
  ℕ, ◌+◌, ◌≤◌, ◌<◌, ◌≡◌, refl, ◌++◌, Bytes, ok, err, ltb, false, ◌⊎◌, drop-drop,
  to_be_bytes-from_be_bytes, from_be_bytes-lt, length, take, drop, to_be_bytes, from_be_bytes,
  arith, All, IsByte, u32_mod, u64_mod, take-append, drop-append, length-append, length-to_be_bytes,
  from_be_bytes-to_be_bytes, take-append-drop, append_assoc, Bool-cases, inl, inr, length-take_le,
  All-take, All-drop, length-drop,
}
use fproxy.Protocol.{packet_too_short, header_size, Decoded, encode_packet, decode_packet}

pub length-encode_packet :
    (session_id seq : ℕ) (payload : Bytes)
    → length (encode_packet session_id seq payload) ≡ header_size + length payload
unfolding encode_packet
length-encode_packet session_id seq payload = omega (
  arith,
  length-append (to_be_bytes 8 session_id) (to_be_bytes 4 seq ++ payload),
  length-append (to_be_bytes 4 seq) payload,
  length-to_be_bytes 8 session_id,
  length-to_be_bytes 4 seq,
)

-- A packet that was encoded decodes to what it was made of, if the id fits 64 bits and the number
-- 32.
pub decode_packet-encode_packet :
    (session_id seq : ℕ) (payload : Bytes)
    → session_id < u64_mod
    → seq < u32_mod
    → decode_packet (encode_packet session_id seq payload) ≡ ok (session_id, seq, payload)
unfolding decode_packet encode_packet
decode_packet-encode_packet session_id seq payload hs hq =
    let head = to_be_bytes 8 session_id in
    let mid = to_be_bytes 4 seq in
    let lh : length head ≡ 8 = length-to_be_bytes 8 session_id in
    let lm : length mid ≡ 4 = length-to_be_bytes 4 seq in
    let lhm : length (head ++ mid) ≡ 12 = omega (arith, length-append head mid, lh, lm) in
    let long : ltb (length (head ++ (mid ++ payload))) header_size ≡ false =
      ground (arith, length-encode_packet session_id seq payload) in
    let tail : drop header_size (head ++ (mid ++ payload)) ≡ payload =
      rw (← append_assoc head mid payload) (drop-append 12 (head ++ mid) payload lhm) in
    rw (
      long,
      tail,
      take-append 8 head (mid ++ payload) lh,
      drop-append 8 head (mid ++ payload) lh,
      take-append 4 mid payload lm,
      from_be_bytes-to_be_bytes 8 session_id hs,
      from_be_bytes-to_be_bytes 4 seq hq,
    )

-- A packet of bytes is rejected exactly when it is shorter than the header; any other is what
-- its parts encode to, and the parts fit their fields.
pub encode_packet-decode_packet :
    (packet : Bytes)
    → All IsByte packet
    → ((decode_packet packet ≡ err packet_too_short) × (length packet < header_size))
      ⊎ ((d : Decoded) × (decode_packet packet ≡ ok d)
          × (d.0 < u64_mod)
          × (d.1 < u32_mod)
          × (encode_packet d.0 d.1 d.2 ≡ packet))
unfolding decode_packet encode_packet
encode_packet-decode_packet packet h = elim (Bool-cases (ltb (length packet) header_size)) [
  | inl short ↦ rw short (inl (refl, ground arith))
  | inr long ↦
      let n : 12 ≤ length packet = ground arith in
      let lh : length (take 8 packet) ≡ 8 = length-take_le 8 packet (omega arith) in
      let bh : All IsByte (take 8 packet) = All-take IsByte 8 packet h in
      let lm : length (take 4 (drop 8 packet)) ≡ 4 =
        length-take_le 4 (drop 8 packet) (omega (arith, length-drop 8 packet)) in
      let bm : All IsByte (take 4 (drop 8 packet)) =
        All-take IsByte 4 (drop 8 packet) (All-drop IsByte 8 packet h) in
      rw long (
        inr (
          (from_be_bytes (take 8 packet), from_be_bytes (take 4 (drop 8 packet)), drop 12 packet),
          refl,
          from_be_bytes-lt 8 (take 8 packet) lh bh,
          from_be_bytes-lt 4 (take 4 (drop 8 packet)) lm bm,
          rw
              (
                to_be_bytes-from_be_bytes 8 (take 8 packet) lh bh,
                to_be_bytes-from_be_bytes 4 (take 4 (drop 8 packet)) lm bm,
                ← drop-drop 4 8 packet,
                take-append-drop 4 (drop 8 packet),
              )
              (take-append-drop 8 packet),
        ))
]
