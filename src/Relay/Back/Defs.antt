-- ===== src/Relay/Back/Defs.antt =====
-- A server, a client and the responses under way, step by step.
use fproxy.Base.{
  ℕ, zero, suc, ◌+◌, ◌≤◌, ◌<◌, ◌≡◌, List, [], ◌∷◌, ◌++◌, map, Option, none, some, Bytes, Result, ok,
  err, length, nat_eq, u64_mod,
}
use fproxy.Base.HashMap.{get}
use fproxy.Protocol.{ProtocolError, Decoded, decode_udp, decode_tcp, packet_too_short}
use fproxy.Frame.{max_tcp_frame_size}
use fproxy.Client.State.{
  Client, Output, to_server, to_writer, to_source, spawn_tcp_reader, cancel_tcp,
}
use fproxy.Client.Events.{Event, packet, udp_response, tcp_response, tcp_closed, tick, step}
use fproxy.Server.State.{Server, TargetSession}
use fproxy.Server.State as ServerState
use fproxy.Server.Events as ServerEvents
use fproxy.Server.Events.{udp_packet, tcp_packet, target_response, conn_closed}
use fproxy.Relay.{Any}
use fproxy.Relay.Downstream.{ArrivesBack}

-- The payloads that go to sources, each with the source's address.
unfoldable pub returned : List Output → List (ℕ × Bytes)
returned [] = []
returned (to_server sender bytes ∷ os) = returned os
returned (to_writer writer bytes ∷ os) = returned os
returned (to_source listener addr payload ∷ os) = (addr, payload) ∷ returned os
returned (spawn_tcp_reader addr key ∷ os) = returned os
returned (cancel_tcp writer ∷ os) = returned os

-- What the client takes the event for.
abbrev pub decoded : Event → Result ProtocolError Decoded
decoded (packet env a payload) = err packet_too_short
decoded (udp_response now bytes) = decode_udp bytes
decoded (tcp_response now a bytes) = decode_tcp bytes
decoded (tcp_closed key) = err packet_too_short
decoded (tick now) = err packet_too_short

-- Payloads with their sources, under the id and the number that the event brought.
abbrev pub tag : Result ProtocolError Decoded → List (ℕ × Bytes) → List (ℕ × Decoded)
tag (err e) ps = []
tag (ok (k, seq, _)) ps = map (λ (p : ℕ × Bytes). (p.0, (k, seq, p.1))) ps

abbrev pub delivered_by : Client → Event → List (ℕ × Decoded)
delivered_by c e = tag (decoded e) (returned (step c e).1)

-- The id, number and payload under which a response of a target goes out.
abbrev pub answered_by : Option TargetSession → ℕ → Bytes → List Decoded
answered_by none k payload = []
answered_by (some t) k payload = (k, t.response_seq, payload) ∷ []

-- `sent` is all that the server has sent, `answered` the responses of targets under the id and the
-- number that they got, `delivered` what went to sources.
pub record World : Type 0 where
  pub server : Server
  pub client : Client
  pub sent : List ServerState.Output
  pub answered : List Decoded
  pub delivered : List (ℕ × Decoded)

abbrev pub begin : Server → Client → World
begin s c = record { server = s; client = c; sent = []; answered = []; delivered = [] }

-- A target answers in session `k`.
abbrev pub answer : World → ℕ → ℕ → Bytes → World
answer w now k payload =
    let e = target_response now k payload in
    record w {
      server = (ServerEvents.step w.server e).0;
      sent = (ServerEvents.step w.server e).1 ++ w.sent;
      answered = answered_by (get w.server.sessions k) k payload ++ w.answered;
    }

abbrev pub bring : World → Event → World
bring w e = record w {
  client = (step w.client e).0;
  delivered = delivered_by w.client e ++ w.delivered;
}

-- The source whose connection brings the event.
abbrev pub source_of : Event → ℕ
source_of (packet env a payload) = a
source_of (udp_response now bytes) = 0
source_of (tcp_response now a bytes) = a
source_of (tcp_closed key) = 0
source_of (tick now) = 0

abbrev pub MapsTo : Client → Result ProtocolError Decoded → ℕ → Type 0
MapsTo c (err e) a = Unit
MapsTo c (ok d) a = get c.udp_session_addrs d.0 ≡ some a

-- A frame comes on a connection of the source that its session belongs to.
abbrev pub IsOnOwnConn : Client → Event → Type 0
IsOnOwnConn c (packet env a payload) = Unit
IsOnOwnConn c (udp_response now bytes) = Unit
IsOnOwnConn c (tcp_response now a bytes) = MapsTo c (decode_tcp bytes) a
IsOnOwnConn c (tcp_closed key) = Unit
IsOnOwnConn c (tick now) = Unit

-- The event is a packet of a source or the end of a connection.
abbrev pub ReturnsNothing : Event → Type 0
ReturnsNothing (packet env a payload) = Unit
ReturnsNothing (udp_response now bytes) = ⊥
ReturnsNothing (tcp_response now a bytes) = ⊥
ReturnsNothing (tcp_closed key) = Unit
ReturnsNothing (tick now) = ⊥

-- The event is a packet of a client or the end of a connection.
abbrev pub AnswersNothing : ServerEvents.Event → Type 0
AnswersNothing (udp_packet net now listener client_addr bytes) = Unit
AnswersNothing (tcp_packet net now conn_id writer bytes) = Unit
AnswersNothing (target_response now session_id payload) = ⊥
AnswersNothing (conn_closed conn_id) = Unit
AnswersNothing (ServerEvents.tick now) = ⊥

-- One step: a target answers with what fits a frame, something of what was sent arrives, or one side
-- does something else, the clean-ups of sessions excepted.
pub data Moves (w : World) : World → Type 0 where
  answers :
      (now k : ℕ) (payload : Bytes)
      → k < u64_mod
      → 12 + length payload ≤ max_tcp_frame_size
      → Moves w (answer w now k payload)
  server_moves :
      (e : ServerEvents.Event)
      → AnswersNothing e
      → Moves w (record w { server = (ServerEvents.step w.server e).0 })
  arrives :
      (e : Event)
      → Any (ArrivesBack (source_of e) e) w.sent
      → IsOnOwnConn w.client e
      → Moves w (bring w e)
  client_moves :
      (e : Event) → ReturnsNothing e → Moves w (record w { client = (step w.client e).0 })

-- `n` steps, the last one last.
pub data Reaches (w : World) : ℕ → World → Type 0 where
  start : Reaches w zero w
  next : (n : ℕ) (u v : World) → Reaches w n u → Moves u v → Reaches w (suc n) v
