-- ===== src/Relay/Network/Defs.antt =====
-- A client, a server and what is under way, step by step.
use fproxy.Base.{ℕ, zero, suc, List, [], ◌++◌, map, Bytes, Result, ok, err}
use fproxy.Protocol.{ProtocolError, Decoded, decode_udp, decode_tcp, packet_too_short}
use fproxy.Client.State.{Client}
use fproxy.Client.State as ClientState
use fproxy.Client.Packets.{Env}
use fproxy.Client.Events as ClientEvents
use fproxy.Client.Numbers.{given_by, GivesNothing}
use fproxy.Server.State.{Server}
use fproxy.Server.Events.{Event, udp_packet, tcp_packet, target_response, conn_closed, tick, step}
use fproxy.Server.Expiry.{HasBytes}
use fproxy.Relay.{Any, Arrives}
use fproxy.Server.Outputs.{payloads}

-- What the server takes the event for.
abbrev pub decoded : Event → Result ProtocolError Decoded
decoded (udp_packet net now listener client_addr bytes) = decode_udp bytes
decoded (tcp_packet net now conn_id writer bytes) = decode_tcp bytes
decoded (target_response now session_id payload) = err packet_too_short
decoded (conn_closed conn_id) = err packet_too_short
decoded (tick now) = err packet_too_short

-- Payloads under the id and the number that the event brought.
abbrev pub tag : Result ProtocolError Decoded → List Bytes → List Decoded
tag (err e) ps = []
tag (ok (k, seq, _)) ps = map (λ p. (k, seq, p)) ps

-- What the event sends to a target.
abbrev pub delivered_by : Server → Event → List Decoded
delivered_by s e = tag (decoded e) (payloads (step s e).1)

-- `sent` is all that the client has sent, `given` the packets of sources under the id and number
-- that they got, `delivered` what went to targets.
pub record World : Type 0 where
  pub client : Client
  pub server : Server
  pub sent : List ClientState.Output
  pub given : List Decoded
  pub delivered : List Decoded

abbrev pub begin : Client → Server → World
begin c s = record { client = c; server = s; sent = []; given = []; delivered = [] }

-- A source hands a packet to the client.
abbrev pub take_packet : World → Env → ℕ → Bytes → World
take_packet w env a payload =
    let e = ClientEvents.packet env a payload in
    record w {
      client = (ClientEvents.step w.client e).0;
      sent = (ClientEvents.step w.client e).1 ++ w.sent;
      given = given_by w.client e ++ w.given;
    }

abbrev pub bring : World → Event → World
bring w e = record w {
  server = (step w.server e).0;
  delivered = delivered_by w.server e ++ w.delivered;
}

-- The event is a response of a target or the end of a connection.
abbrev pub BringsNothing : Event → Type 0
BringsNothing (udp_packet net now listener client_addr bytes) = ⊥
BringsNothing (tcp_packet net now conn_id writer bytes) = ⊥
BringsNothing (target_response now session_id payload) = Unit
BringsNothing (conn_closed conn_id) = Unit
BringsNothing (tick now) = ⊥

-- One step: a packet is taken, something of what was sent arrives, or one side does something else,
-- the server's clean-up excepted.
pub data Moves (w : World) : World → Type 0 where
  takes : (env : Env) (a : ℕ) (payload : Bytes) → Moves w (take_packet w env a payload)
  client_moves :
      (e : ClientEvents.Event)
      → GivesNothing e
      → Moves w (record w { client = (ClientEvents.step w.client e).0 })
  arrives : (e : Event) → HasBytes e → Any (Arrives e) w.sent → Moves w (bring w e)
  server_moves : (e : Event) → BringsNothing e → Moves w (record w { server = (step w.server e).0 })

-- `n` steps, the last one last.
pub data Reaches (w : World) : ℕ → World → Type 0 where
  start : Reaches w zero w
  next : (n : ℕ) (u v : World) → Reaches w n u → Moves u v → Reaches w (suc n) v
