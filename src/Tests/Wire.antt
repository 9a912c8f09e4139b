-- ===== src/Tests/Wire.antt =====
-- The theorems on packets and frames at concrete inputs.
use fproxy.Base.{[], ◌∷◌, ◌++◌, ◌≡◌, ok, err, ◌⊎◌, ◌<◌, arith, length, to_be_bytes}
use fproxy.Protocol.{encode_packet, decode_packet, packet_too_short, header_size, Decoded}
use fproxy.Protocol.RoundTrip.{decode_packet-encode_packet, encode_packet-decode_packet}
use fproxy.Base.{u64_mod, u32_mod}
use fproxy.Frame.{frame, read_frames, read_loop}
use fproxy.Frame.RoundTrip.{frames, read_frames-frames, read_loop_fuel}
use fproxy.Tests.Fixtures.{hello, bytes}

decode_packet-encode_packet_example : decode_packet (encode_packet 7 3 hello) ≡ ok (7, 3, hello)
decode_packet-encode_packet_example =
    decode_packet-encode_packet 7 3 hello (omega arith) (omega arith)

encode_packet-decode_packet_example :
    ((decode_packet bytes ≡ err packet_too_short) × (length bytes < header_size))
    ⊎ ((d : Decoded) × (decode_packet bytes ≡ ok d)
        × (d.0 < u64_mod)
        × (d.1 < u32_mod)
        × (encode_packet d.0 d.1 d.2 ≡ bytes))
unfolding encode_packet to_be_bytes
encode_packet-decode_packet_example = encode_packet-decode_packet bytes (omega arith)

read_frames-frames_example :
    read_frames (frames (hello ∷ bytes ∷ []) ++ 0 ∷ [])
    ≡ (hello ∷ bytes ∷ []) ++ read_frames (0 ∷ [])
unfolding encode_packet to_be_bytes
read_frames-frames_example = read_frames-frames (hello ∷ bytes ∷ []) (0 ∷ []) (omega arith)

read_loop_fuel_example : read_loop 10 (frame hello) ≡ read_frames (frame hello)
unfolding frame to_be_bytes
read_loop_fuel_example = read_loop_fuel 10 (frame hello) (omega arith)
