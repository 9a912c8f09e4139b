-- ===== src/Tests/Back.antt =====
-- A response and its copies in the network, at concrete inputs.
use fproxy.Base.{
  [], some, ◌≡◌, ◌∷◌, All, IsByte, Bytes, arith, nat_eq, to_be_bytes, from_be_bytes, insert_key,
  contains_key, inl, refl, length, ◌+◌, ◌<◌, u32_mod,
}
use fproxy.Base.HashMap.{get, insert}
use fproxy.Protocol.{encode_packet, encode_udp, decode_udp, decode_packet}
use fproxy.Client.Events as ClientEvents
use fproxy.Client.State as ClientState
use fproxy.Client.Window as ClientWindow
use fproxy.Client.Packets.{
  get_or_create_udp_session, create_udp_session, new_session, next_session_id, handle_packet,
  handle_udp_transport, handle_tcp_transport, send_to_endpoint, get_or_create_tcp_session,
}
use fproxy.Client.Responses.{process_udp_response, deliver_to, deliver, forward}
use fproxy.Client.Events.{udp_response}
use fproxy.Client.Numbers.{KeysDistinct}
use fproxy.Client.State.{Client}
use fproxy.Server.Window as Window
use fproxy.Server.Window.{is_duplicate}
use fproxy.Server.State as ServerState
use fproxy.Server.Packets.{
  get_or_create_session, create_session, check_duplicate, receive, add_udp_path, update_udp_path,
  handle_udp_packet,
}
use fproxy.Server.Events as ServerEvents
use fproxy.Server.Responses.{send_response_to_all_paths, response_on}
use fproxy.Relay.{Any}
use fproxy.Relay.Downstream.{ArrivesBack}
use fproxy.Relay.Back.Defs.{
  World, begin, answer, bring, Reaches, start, next, answers, arrives, returned, server_moves,
  client_moves,
}
use fproxy.Relay.Back.Invariant.{IsAnswer, IsKept, contents}
use fproxy.Relay.Back.Exact.{responses_exact}
use fproxy.Tests.Relay.{client}
use fproxy.Tests.Fixtures.{server_config, client_config, hello, sent, by_udp, fresh_server}

abbrev listening_client : Client
listening_client = record client { listener = some 70 }

abbrev opened : World
opened = record (begin fresh_server listening_client) {
  client = (ClientEvents.step listening_client sent).0;
}

abbrev served : World
served = record opened { server = (ServerEvents.step opened.server by_udp).0 }

abbrev answered : World
answered = answer served 8 7 hello

abbrev response : Bytes
response = encode_packet 7 0 hello

abbrev arrival : ClientEvents.Event
arrival = udp_response 9 response

abbrev returned_once : World
returned_once = bring answered arrival

abbrev returned_again : World
returned_again = bring returned_once arrival

response-IsByte : All IsByte response
unfolding encode_packet to_be_bytes
response-IsByte = omega arith

abbrev UnderWay : World → Type 0
UnderWay w = Any (ArrivesBack 0 arrival) w.sent

arrival-UnderWay : UnderWay answered
unfolding ServerEvents.step
arrival-UnderWay =
    unfold handle_udp_packet decode_udp decode_packet encode_packet to_be_bytes from_be_bytes
      receive get_or_create_session create_session check_duplicate add_udp_path update_udp_path
      ServerState.new Window.new is_duplicate Window.start insert_key contains_key get insert
      send_response_to_all_paths response_on encode_udp in
    inl (unfold encode_packet to_be_bytes in omega arith, refl)

answered-IsFew : length answered.answered + 1 < u32_mod
unfolding ServerEvents.step
answered-IsFew =
    unfold handle_udp_packet decode_udp decode_packet encode_packet to_be_bytes from_be_bytes
      receive get_or_create_session create_session check_duplicate add_udp_path update_udp_path
      ServerState.new Window.new is_duplicate Window.start insert_key contains_key get insert in
    omega arith

-- The first copy goes to the source, the second goes nowhere.
delivered_once : returned_again.delivered ≡ (11, (7, 0, hello)) ∷ []
unfolding returned ServerEvents.step ClientEvents.step
delivered_once =
    unfold decode_udp decode_packet encode_packet to_be_bytes from_be_bytes get insert insert_key
      contains_key handle_packet get_or_create_udp_session create_udp_session new_session
      next_session_id ClientState.new handle_udp_transport handle_tcp_transport send_to_endpoint
      get_or_create_tcp_session process_udp_response deliver_to deliver forward
      ClientWindow.is_duplicate ClientWindow.new handle_udp_packet receive get_or_create_session
      create_session check_duplicate add_udp_path update_udp_path ServerState.new Window.new
      is_duplicate Window.start send_response_to_all_paths in
    refl

reached : Reaches (begin fresh_server listening_client) 5 returned_again
reached =
    next 4 _ _
      (next 3 _ _
        (next 2 _ _ (next 1 _ _ (next 0 _ _ start (client_moves sent tt)) (server_moves by_udp tt))
          (answers 8 7 hello (omega arith) (omega arith)))
        (arrives arrival arrival-UnderWay tt))
      (arrives arrival arrival-UnderWay tt)

responses_exact_example :
    All (IsAnswer returned_again.answered) returned_again.delivered
    × All (IsKept returned_again.client) returned_again.delivered
    × KeysDistinct (contents returned_again.delivered)
    × KeysDistinct returned_again.answered
responses_exact_example =
    responses_exact client_config 6 listening_client server_config 5 returned_again (omega arith)
      (record { sessions = refl; addrs = refl; counter = refl; cfg = refl }) reached (omega arith)
      answered-IsFew
