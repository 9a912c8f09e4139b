-- ===== src/Client/Malformed.antt =====
-- Responses that are too short, at the handlers of fproxy-rs/src/client.rs.
use fproxy.Base.{
  ℕ, ◌≡◌, refl, Bool, true, false, List, [], ◌∷◌, ◌++◌, ltb, not, Bytes, inl, inr, Bool-cases,
  nat_eq, length, retain, All,
}
use fproxy.Protocol.{header_size}
use fproxy.Frame.RoundTrip.{IsFramable, frames}
use fproxy.Frame.Broken.{IsBroken, read_frames-broken}
use fproxy.Server.Malformed.{decode_short}
use fproxy.Client.State.{Client, SessionKey}
use fproxy.Client.Responses.{process_udp_response, process_tcp_response}
use fproxy.Client.Events.{
  Event, packet, udp_response, tcp_response, tcp_closed, tick, step, run, tcp_responses,
  handle_tcp_server_response,
}

-- Whether what arrives from a server is at least a header. The payload of a source may be empty.
abbrev pub has_header : Event → Bool
has_header (packet env source_addr payload) = true
has_header (udp_response now bytes) = not (ltb (length bytes) header_size)
has_header (tcp_response now source_addr bytes) = not (ltb (length bytes) header_size)
has_header (tcp_closed key) = true
has_header (tick now) = true

malformed : (c : Client) (e : Event) → has_header e ≡ false → step c e ≡ (c, [])
unfolding step process_udp_response process_tcp_response
malformed c (packet env source_addr payload) h = absurd (cc h)
malformed c (udp_response now bytes) h = rw ((decode_short bytes h).0, process_udp_response) refl
malformed c (tcp_response now source_addr bytes) h =
    rw ((decode_short bytes h).1, process_tcp_response) refl
malformed c (tcp_closed key) h = absurd (cc h)
malformed c (tick now) h = absurd (cc h)

-- Responses shorter than the header, by UDP or in frames, change nothing: a history of the client
-- and the same history without them lead to the same state and the same outputs.
pub run_without_short : (c : Client) (es : List Event) → run c es ≡ run c (retain has_header es)
unfolding run
run_without_short c [] = refl
run_without_short c (e ∷ es) = elim (Bool-cases (has_header e)) [
  | inl whole ↦ rw (whole, run_without_short (step c e).0 es) refl
  | inr short ↦ rw (short, malformed c e short, run_without_short c es) refl
]

-- A connection from a server that breaks off within a frame, or brings a length of zero, after
-- packets of 1 to 65535 bytes: each packet before is handled, in order, then the connection is
-- cleaned up, and nothing after is looked at.
pub handle_tcp_server_response-broken :
    (times : ℕ → ℕ) (source_addr : ℕ) (key : SessionKey) (packets : List Bytes) (stream : Bytes)
    → All IsFramable packets
    → IsBroken stream
    → handle_tcp_server_response times source_addr key (frames packets ++ stream)
      ≡ tcp_responses times 0 source_addr packets ++ tcp_closed key ∷ []
unfolding handle_tcp_server_response
handle_tcp_server_response-broken times source_addr key packets stream h k =
    rw (read_frames-broken packets stream h k) refl
