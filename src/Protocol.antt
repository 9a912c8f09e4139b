-- ===== src/Protocol.antt =====
-- fproxy-rs/src/protocol.rs: the packet format, `[session_id: 8 bytes][seq: 4 bytes][payload]`,
-- numbers in big-endian order. A `u64` or `u32` is a natural number below its modulus.
pub mod RoundTrip
use fproxy.Base.{
  ℕ, ◌++◌, Bytes, Result, ok, err, ltb, if◌then◌else◌, length, take, drop, to_be_bytes,
  from_be_bytes,
}

abbrev pub header_size : ℕ
header_size = 12

pub data ProtocolError : Type 0 where
  packet_too_short : ProtocolError

-- A decoded packet: `(session_id, seq, payload)`.
abbrev pub Decoded : Type 0
Decoded = ℕ × ℕ × Bytes

unfoldable pub encode_packet : ℕ → ℕ → Bytes → Bytes
encode_packet session_id seq payload = to_be_bytes 8 session_id ++ (to_be_bytes 4 seq ++ payload)

unfoldable pub decode_packet : Bytes → Result ProtocolError Decoded
decode_packet packet =
    if ltb (length packet) header_size
    then err packet_too_short
    else ok (
      from_be_bytes (take 8 packet),
      from_be_bytes (take 4 (drop 8 packet)),
      drop header_size packet,
    )

unfoldable pub encode_tcp : ℕ → ℕ → Bytes → Bytes
encode_tcp session_id seq payload = encode_packet session_id seq payload

unfoldable pub decode_tcp : Bytes → Result ProtocolError Decoded
decode_tcp packet = decode_packet packet

unfoldable pub encode_udp : ℕ → ℕ → Bytes → Bytes
encode_udp session_id seq payload = encode_packet session_id seq payload

unfoldable pub decode_udp : Bytes → Result ProtocolError Decoded
decode_udp packet = decode_packet packet
