-- ===== src/Tests/Network.antt =====
-- A packet and its copies in the network, at concrete inputs.
use fproxy.Base.{[], ◌∷◌, All, arith, nat_eq, to_be_bytes}
use fproxy.Base.HashMap.{get, insert}
use fproxy.Protocol.{encode_packet, encode_tcp}
use fproxy.Client.State as ClientState
use fproxy.Client.State.{key_Eq}
use fproxy.Client.Events as ClientEvents
use fproxy.Client.Events.{packet}
use fproxy.Client.Packets.{
  get_or_create_udp_session, create_udp_session, new_session, next_session_id, handle_packet,
  handle_udp_transport, handle_tcp_transport, send_to_endpoint, get_or_create_tcp_session,
  send_tcp_frame,
}
use fproxy.Client.Numbers.{given_by, KeysDistinct}
use fproxy.Client.Distinct.{given_by_run, given_by_run-KeysDistinct}
use fproxy.Client.SameMaps.{SameMaps-refl}
use fproxy.Relay.{Any, Arrives}
use fproxy.Relay.Network.Defs.{
  World, begin, take_packet, bring, Reaches, start, next, takes, arrives,
}
use fproxy.Relay.Network.Exact.{deliveries_exact}
use fproxy.Relay.Network.Invariant.{IsGiven}
use fproxy.Tests.Relay.{client, arrival, first_IsByte, arrival-Arrives}
use fproxy.Tests.Fixtures.{server_config, client_config, env, hello, sent, fresh_server}

given_by_run-KeysDistinct_example :
    KeysDistinct (given_by_run (ClientState.new client_config 6) (sent ∷ sent ∷ []) [])
given_by_run-KeysDistinct_example =
    given_by_run-KeysDistinct client_config 6 (sent ∷ sent ∷ []) (omega arith) (omega arith)

abbrev taken : World
taken = take_packet (begin client fresh_server) env 11 hello

abbrev brought : World
brought = bring taken arrival

abbrev brought_again : World
brought_again = bring brought arrival

abbrev UnderWay : World → Type 0
UnderWay w = Any (Arrives arrival) w.sent

arrival-UnderWay : UnderWay taken
unfolding ClientEvents.step
arrival-UnderWay =
    unfold handle_packet get_or_create_udp_session create_udp_session new_session next_session_id
      ClientState.new get insert handle_udp_transport handle_tcp_transport send_to_endpoint
      get_or_create_tcp_session send_tcp_frame encode_tcp encode_packet to_be_bytes in
    arrival-Arrives

reached : Reaches (begin client fresh_server) 3 brought_again
reached =
    next 2 _ _
      (next 1 _ _ (next 0 _ _ start (takes env 11 hello))
        (arrives arrival first_IsByte arrival-UnderWay))
      (arrives arrival first_IsByte arrival-UnderWay)

deliveries_exact_example :
    All (IsGiven brought_again.given) brought_again.delivered
    × KeysDistinct brought_again.delivered
    × KeysDistinct brought_again.given
unfolding given_by
deliveries_exact_example =
    deliveries_exact client_config 6 client server_config 3 brought_again (omega arith)
      (SameMaps-refl client) (omega arith) reached (omega arith) (omega arith)
