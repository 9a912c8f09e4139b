-- ===== src/Server/Routing.antt =====
-- A response of the target goes to every path of its session, and can be read there.
use fproxy.Base.{
  ℕ, ◌+◌, ◌%◌, ◌≤◌, ◌<◌, ◌≡◌, refl, List, [], ◌∷◌, map, arith, ◌==◌, Bytes, ok, some, length,
  nat_eq, u32_mod, u64_mod, ==_refl, if◌then◌else◌,
}
use fproxy.Base.HashMap.{get, get-insert}
use fproxy.Protocol.{decode_udp, decode_tcp, encode_udp, encode_tcp, encode_packet}
use fproxy.Protocol.RoundTrip.{decode_packet-encode_packet, length-encode_packet}
use fproxy.Frame.{read_frames, max_tcp_frame_size}
use fproxy.Frame.RoundTrip.{read_frames-frame, IsFramable}
use fproxy.Server.State.{Server, TargetSession, ClientPath, udp, tcp, Output, to_client, to_writer}
use fproxy.Server.Responses.{response_on, send_response_to_all_paths}

-- The output goes out on the path, and the receiver decodes it to the session, number and payload.
abbrev pub Delivers : ℕ → ℕ → Bytes → ClientPath → Output → Type 0
Delivers k seq payload (udp addr socket) (to_client socket' addr' bytes) =
    (socket' ≡ socket) × (addr' ≡ addr) × (decode_udp bytes ≡ ok (k, seq, payload))
Delivers k seq payload (tcp conn_id writer) (to_writer writer' bytes) =
    (writer' ≡ writer)
    × ((packet : Bytes) × (read_frames bytes ≡ packet ∷ [])
        × (decode_tcp packet ≡ ok (k, seq, payload)))
Delivers k seq payload path output = ⊥

-- One output for each path, in order.
abbrev pub DeliversAll : ℕ → ℕ → Bytes → List ClientPath → List Output → Type 0
DeliversAll k seq payload [] [] = Unit
DeliversAll k seq payload (p ∷ ps) (o ∷ os) =
    Delivers k seq payload p o × DeliversAll k seq payload ps os
DeliversAll k seq payload _ _ = ⊥

module _ (k seq : ℕ) (payload : Bytes) (hk : k < u64_mod) (hs : seq < u32_mod)
    (hp : 12 + length payload ≤ max_tcp_frame_size) where
  response_on-Delivers : (p : ClientPath) → Delivers k seq payload p (response_on k seq payload p)
  unfolding response_on decode_udp decode_tcp encode_udp encode_tcp
  response_on-Delivers (udp addr socket) =
      (refl, refl, decode_packet-encode_packet k seq payload hk hs)
  response_on-Delivers (tcp conn_id writer) =
      let packet : Bytes = encode_packet k seq payload in
      let fits : IsFramable packet = omega (arith, length-encode_packet k seq payload) in
      (
        refl,
        (packet, read_frames-frame packet fits, decode_packet-encode_packet k seq payload hk hs),
      )

  pub map-DeliversAll :
      (ps : List ClientPath) → DeliversAll k seq payload ps (map (response_on k seq payload) ps)
  map-DeliversAll [] = tt
  map-DeliversAll (p ∷ ps) = (response_on-Delivers p, map-DeliversAll ps)

-- For a session whose id and number fit their fields, and a response that fits a frame: every path
-- of the session gets the response, from its own socket or connection, under the session's next
-- response number and in a form that the client decodes to it. The number goes up by one, round to
-- 0 at 2^32, and the deduplication window is not touched.
pub send_response_delivers :
    (s : Server) (now k : ℕ) (payload : Bytes) (t : TargetSession) (ps : List ClientPath)
    → get s.sessions k ≡ some t
    → get s.client_paths k ≡ some ps
    → k < u64_mod
    → t.response_seq < u32_mod
    → 12 + length payload ≤ max_tcp_frame_size
    → let (s', outputs) = send_response_to_all_paths s now k payload in
      DeliversAll k t.response_seq payload ps outputs
      × (get s'.sessions k
          ≡ some (record t {
            last_activity = now;
            response_seq = (if t.response_seq + 1 == u32_mod then 0 else t.response_seq + 1);
          }))
unfolding send_response_to_all_paths
send_response_delivers s now k payload t ps e p hk hs hp =
    let next : (t.response_seq + 1) % u32_mod
        ≡ (if t.response_seq + 1 == u32_mod then 0 else t.response_seq + 1) =
      ground arith in
    rw (e, send_response_to_all_paths, p)
      (
        map-DeliversAll k t.response_seq payload hk hs hp ps,
        rw (get-insert s.sessions k k _, ==_refl k, next),
      )
