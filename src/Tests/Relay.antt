-- ===== src/Tests/Relay.antt =====
-- The theorems on the client and the server together, at concrete inputs.
use fproxy.Base.{
  ℕ, [], ◌∷◌, ◌≡◌, ◌≢◌, refl, inl, inr, none, arith, false, Bytes, All, IsByte, to_be_bytes,
  from_be_bytes, nat_eq, insert_key, contains_key,
}
use fproxy.Base.HashMap.{get, insert}
use fproxy.Protocol.{encode_packet, encode_tcp, decode_packet, decode_tcp}
use fproxy.Frame.RoundTrip.{IsFramable, read_frames-frame}
use fproxy.Client.State as ClientState
use fproxy.Client.State.{to_source}
use fproxy.Client.Maps.{IsInverse}
use fproxy.Client.SameMaps.{SameMaps, SameMaps-IsInverse}
use fproxy.Client.Packets.{
  get_or_create_udp_session, create_udp_session, new_session, next_session_id, handle_packet,
  handle_udp_transport, handle_tcp_transport, send_to_endpoint, get_or_create_tcp_session,
  send_tcp_frame,
}
use fproxy.Server.State.{new}
use fproxy.Server.Window as Window
use fproxy.Server.Window.{is_duplicate, start}
use fproxy.Server.Packets.{
  get_or_create_session, create_session, check_duplicate, receive, add_tcp_path, handle_tcp_packet,
}
use fproxy.Server.Cleanup.{cleanup_tcp_conn}
use fproxy.Server.Events.{Event, tcp_packet, step, run}
use fproxy.Server.Expiry.{run-IsSound}
use fproxy.Server.Windows.{knows}
use fproxy.Server.Connections.{cleanup_tcp_conn_lem, is_session, Leaves}
use fproxy.Relay.{Any, Arrives}
use fproxy.Relay.Downstream.{ArrivesBack, response_once}
use fproxy.Server.State.{Server, TargetSession, udp, tcp}
use fproxy.Server.Responses.{send_response_to_all_paths, response_on}
use fproxy.Protocol.{encode_udp}
use fproxy.Client.Events as ClientEvents
use fproxy.Client.Runs.{run-IsInverse}
use fproxy.Client.Windows as ClientWindows
use fproxy.Client.Window.{as_window}
use fproxy.Server.Window.Once.{rejects}
use fproxy.Tests.Client.{caller, calling_found, listening-IsSound}
use fproxy.Relay.Upstream.{payload_once}
use fproxy.Server.Outputs.{payloads}
use fproxy.Tests.Fixtures.{
  server_config, client_config, net, env, hello, sent, calling, listening, fresh_server,
}

abbrev pub client : ClientState.Client
client = ClientState.new client_config 6

abbrev pub first_bytes : Bytes
first_bytes = encode_packet 7 9 hello

abbrev pub arrival : Event
arrival = tcp_packet net 2 50 51 first_bytes

pub first_IsByte : All IsByte first_bytes
unfolding encode_packet to_be_bytes
first_IsByte = omega arith

first_IsFramable : IsFramable first_bytes
unfolding encode_packet to_be_bytes
first_IsFramable = omega arith

arrival_found : get (step fresh_server arrival).0.sessions 7 ≢ none
unfolding step handle_tcp_packet decode_tcp decode_packet encode_packet to_be_bytes from_be_bytes
    receive get_or_create_session create_session check_duplicate add_tcp_path new Window.new
    is_duplicate start insert_key contains_key get insert
arrival_found = λ e. absurd (cc e)

pub arrival-Arrives : Any (Arrives arrival) (handle_packet client env 11 hello).1
unfolding handle_packet get_or_create_udp_session create_udp_session new_session next_session_id
    ClientState.new get insert handle_udp_transport handle_tcp_transport send_to_endpoint
    get_or_create_tcp_session send_tcp_frame encode_tcp encode_packet to_be_bytes
arrival-Arrives = inr (inl (read_frames-frame first_bytes first_IsFramable))

payload_once_example : payloads (run fresh_server (arrival ∷ arrival ∷ [])).1 ≡ hello ∷ []
unfolding get_or_create_udp_session create_udp_session new_session next_session_id ClientState.new
    get new run knows
payload_once_example =
    payload_once client env 11 hello fresh_server arrival (arrival ∷ []) (omega arith) (omega arith)
      (run-IsSound server_config [] (omega arith) tt) arrival_found refl
      ((first_IsByte, arrival-Arrives), ((first_IsByte, arrival-Arrives), tt))

abbrev target_session : TargetSession
target_session = record {
  target_conn = 40;
  dedup_window = record { seen = []; min_seq = 0; max_seq = 0; size = 4; started = false };
  response_seq = 3;
  last_activity = 1;
}

abbrev serving_two : Server
serving_two = record {
  cfg = server_config;
  sessions = (7, target_session) ∷ [];
  client_paths = (7, udp 20 10 ∷ tcp 50 51 ∷ []) ∷ [];
  tcp_conn_to_session = (50, 7) ∷ [];
}

cleanup_tcp_conn_lem_example :
    let s' = cleanup_tcp_conn serving_two 50 in
    (get s'.tcp_conn_to_session 50 ≡ none)
    × ((c : ℕ) → c ≢ 50 → get s'.tcp_conn_to_session c ≡ get serving_two.tcp_conn_to_session c)
    × ((k : ℕ)
        → Leaves 50
            (is_session (get serving_two.tcp_conn_to_session 50) k)
            (get serving_two.client_paths k)
            (get s'.client_paths k))
    × (s'.sessions ≡ serving_two.sessions)
cleanup_tcp_conn_lem_example = cleanup_tcp_conn_lem serving_two 50

abbrev response_bytes : Bytes
response_bytes = encode_packet 7 3 hello

abbrev by_udp : ClientEvents.Event
by_udp = ClientEvents.udp_response 8 response_bytes

abbrev by_tcp : ClientEvents.Event
by_tcp = ClientEvents.tcp_response 9 11 response_bytes

response-IsByte : All IsByte response_bytes
unfolding encode_packet to_be_bytes
response-IsByte = omega arith

response-IsFramable : IsFramable response_bytes
unfolding encode_packet to_be_bytes
response-IsFramable = omega arith

responses-ArrivesBack :
    All
      (λ e. Any (ArrivesBack 11 e) (send_response_to_all_paths serving_two 8 7 hello).1)
      (by_udp ∷ by_tcp ∷ [])
unfolding send_response_to_all_paths response_on get encode_udp encode_tcp
responses-ArrivesBack = (
  inl (response-IsByte, refl),
  (inr (inl (response-IsByte, refl, read_frames-frame response_bytes response-IsFramable)), tt),
)

listening-IsInverse : IsInverse listening
unfolding ClientEvents.run
listening-IsInverse =
    let same : SameMaps calling listening = record {
      sessions = refl;
      addrs = refl;
      counter = refl;
      cfg = refl;
    } in
    SameMaps-IsInverse calling listening same
      (run-IsInverse client_config 6 (sent ∷ []) (omega arith) (omega arith))

response_once_example :
    (ClientEvents.run listening (by_udp ∷ by_tcp ∷ [])).1 ≡ to_source 70 11 hello ∷ []
unfolding get rejects as_window
response_once_example =
    response_once serving_two 8 7 hello target_session (udp 20 10 ∷ tcp 50 51 ∷ []) listening 70 11
      caller by_udp (by_tcp ∷ []) refl refl (omega arith) (omega arith) (omega arith) refl
      listening-IsSound listening-IsInverse calling_found refl
      (ClientWindows.knows-some listening 11 3 caller calling_found) responses-ArrivesBack
