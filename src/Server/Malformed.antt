-- ===== src/Server/Malformed.antt =====
-- Packets that are too short, at the handlers of fproxy-rs/src/server.rs.
use fproxy.Base.{
  ℕ, ◌≡◌, refl, Bool, true, false, List, [], ◌∷◌, ◌++◌, arith, ltb, not, Bytes, err, inl, inr,
  Bool-cases, nat_eq, length, retain, All,
}
use fproxy.Protocol.{packet_too_short, header_size, decode_packet, decode_udp, decode_tcp}
use fproxy.Frame.RoundTrip.{IsFramable, frames}
use fproxy.Frame.Broken.{IsBroken, read_frames-broken}
use fproxy.Server.State.{Server}
use fproxy.Server.Packets.{Net, handle_udp_packet, handle_tcp_packet}
use fproxy.Server.Events.{
  Event, udp_packet, tcp_packet, target_response, conn_closed, tick, step, run, tcp_packets,
  handle_tcp_conn,
}

-- Whether what arrives is at least a header.
abbrev pub has_header : Event → Bool
has_header (udp_packet net now listener client_addr bytes) = not (ltb (length bytes) header_size)
has_header (tcp_packet net now conn_id writer bytes) = not (ltb (length bytes) header_size)
has_header (target_response now session_id payload) = true
has_header (conn_closed conn_id) = true
has_header (tick now) = true

pub decode_short :
    (bytes : Bytes)
    → not (ltb (length bytes) header_size) ≡ false
    → (decode_udp bytes ≡ err packet_too_short) × (decode_tcp bytes ≡ err packet_too_short)
unfolding decode_packet decode_udp decode_tcp
decode_short bytes h = ground arith

malformed : (s : Server) (e : Event) → has_header e ≡ false → step s e ≡ (s, [])
unfolding step handle_udp_packet handle_tcp_packet
malformed s (udp_packet net now listener client_addr bytes) h =
    rw ((decode_short bytes h).0, handle_udp_packet) refl
malformed s (tcp_packet net now conn_id writer bytes) h =
    rw ((decode_short bytes h).1, handle_tcp_packet) refl
malformed s (target_response now session_id payload) h = absurd (cc h)
malformed s (conn_closed conn_id) h = absurd (cc h)
malformed s (tick now) h = absurd (cc h)

-- Packets shorter than the header, by UDP or in frames, change nothing: a history and the same
-- history without them lead to the same state and the same outputs.
pub run_without_malformed : (s : Server) (es : List Event) → run s es ≡ run s (retain has_header es)
unfolding run
run_without_malformed s [] = refl
run_without_malformed s (e ∷ es) = elim (Bool-cases (has_header e)) [
  | inl whole ↦ rw (whole, run_without_malformed (step s e).0 es) refl
  | inr short ↦ rw (short, malformed s e short, run_without_malformed s es) refl
]

-- A connection that breaks off within a frame, or brings a length of zero, after packets of 1 to
-- 65535 bytes: each packet before is handled, in order and at its own time, then the connection is cleaned up, and
-- nothing after is looked at.
pub handle_tcp_conn-broken :
    (answers : ℕ → Net × ℕ) (conn_id writer : ℕ) (packets : List Bytes) (stream : Bytes)
    → All IsFramable packets
    → IsBroken stream
    → handle_tcp_conn answers conn_id writer (frames packets ++ stream)
      ≡ tcp_packets answers 0 conn_id writer packets ++ conn_closed conn_id ∷ []
unfolding handle_tcp_conn
handle_tcp_conn-broken answers conn_id writer packets stream h k =
    rw (read_frames-broken packets stream h k) refl
