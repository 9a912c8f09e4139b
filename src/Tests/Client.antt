-- ===== src/Tests/Client.antt =====
-- The theorems on the client at concrete inputs.
use fproxy.Base.{
  [], ◌∷◌, ◌≡◌, refl, false, some, arith, ◌+◌, ◌%◌, ok, IsByte, All, to_be_bytes, nat_eq, u32_mod,
}
use fproxy.Base.HashMap.{get, insert}
use fproxy.Protocol.{encode_packet, decode_packet, decode_udp, decode_tcp}
use fproxy.Protocol.RoundTrip.{decode_packet-encode_packet}
use fproxy.Client.State.{UdpSession, new, key_Eq}
use fproxy.Client.Packets.{
  get_or_create_udp_session, next_session_id, create_udp_session, new_session, handle_packet,
  handle_udp_transport, handle_tcp_transport, send_to_endpoint, get_or_create_tcp_session,
}
use fproxy.Client.Events.{udp_response, tcp_response, tick, step, run}
use fproxy.Client.Start.{Sockets, start, start_senders, start_lem, is_udp}
use fproxy.Base.{map, retain}
use fproxy.Client.Maps.{IsInverse}
use fproxy.Client.Runs.{run-IsInverse}
use fproxy.Client.Windows.{IsSound, same_sessions}
use fproxy.Client.Once.{Brings, second_response}
use fproxy.Client.Sending.{handle_packet_lem, Sends, senders_used}
use fproxy.Client.Expiry.{response_windows-IsSound}
use fproxy.Tests.Fixtures.{client_config, env, hello, bytes, sent, calling, listening}

abbrev pub caller : UdpSession
caller = record {
  session_id = 7;
  seq = 10;
  last_activity = 5;
  response_dedup = record { seen = []; min_seq = 0; max_seq = 0; size = 1000; started = false };
}

pub calling_found : get calling.udp_sessions 11 ≡ some caller
unfolding step handle_packet get_or_create_udp_session create_udp_session new_session
    next_session_id new get insert handle_udp_transport handle_tcp_transport send_to_endpoint
    get_or_create_tcp_session
calling_found = refl

calling_addr : get calling.udp_session_addrs 7 ≡ some 11
unfolding step handle_packet get_or_create_udp_session create_udp_session new_session
    next_session_id new get insert handle_udp_transport handle_tcp_transport send_to_endpoint
    get_or_create_tcp_session
calling_addr = refl

pub calling-IsSound : IsSound calling
unfolding run
calling-IsSound = response_windows-IsSound client_config 6 (sent ∷ []) (tt, tt)

pub listening-IsSound : IsSound listening
listening-IsSound = (same_sessions calling listening refl calling-IsSound).sound

bytes-IsByte : All IsByte bytes
unfolding encode_packet to_be_bytes
bytes-IsByte = omega arith

decoded : decode_packet bytes ≡ ok (7, 3, hello)
decoded = decode_packet-encode_packet 7 3 hello (omega arith) (omega arith)

response_Brings : Brings (udp_response 8 bytes) listening 11 3 hello
unfolding decode_udp
response_Brings = (bytes-IsByte, (7, decoded, calling_addr))

second_response_example :
    (step (run (step listening (udp_response 8 bytes)).0 (sent ∷ [])).0 (tcp_response 9 11 bytes)).1
    ≡ []
unfolding decode_tcp
second_response_example =
    second_response listening (udp_response 8 bytes) (tcp_response 9 11 bytes) (sent ∷ []) 11 3
      hello hello listening-IsSound response_Brings (λ e. absurd (cc (e, calling_found))) (tt, tt)
      (bytes-IsByte, refl, (7, decoded))

run-IsInverse_example : IsInverse (run (new client_config 6) (sent ∷ tick 9 ∷ [])).0
run-IsInverse_example =
    run-IsInverse client_config 6 (sent ∷ tick 9 ∷ []) (omega arith) (omega arith)

handle_packet_lem_example :
    let (c', outputs) = handle_packet (new client_config 6) env 11 hello in
    let s = (get_or_create_udp_session (new client_config 6) env 11).1 in
    All (Sends s.session_id s.seq hello) outputs
    × (senders_used outputs ≡ (new client_config 6).udp_senders)
    × (get c'.udp_sessions 11 ≡ some (record s { seq = (s.seq + 1) % u32_mod; last_activity = 5 }))
unfolding get_or_create_udp_session create_udp_session new_session next_session_id new get
handle_packet_lem_example =
    handle_packet_lem (new client_config 6) env 11 hello (omega arith) (omega arith)

abbrev sockets : Sockets
sockets = record { connected = λ address. some 60; bound = λ address. some 70 }

start_lem_example :
    let c = (start (new client_config 6) sockets).0 in
    (map some c.udp_senders
      ≡ map
          (λ e. sockets.connected e.address)
          (retain (λ e. is_udp e.protocol) client_config.servers))
    × (c.listener ≡ some 70)
unfolding start start_senders new
start_lem_example = start_lem client_config 6 sockets refl
