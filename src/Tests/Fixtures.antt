-- ===== src/Tests/Fixtures.antt =====
-- A server and a client, and what arrives at them.
use fproxy.Base.{[], ◌∷◌, some, Bytes, true, nat_eq}
use fproxy.Config.{ClientConfig, ServerConfig, udp, tcp}
use fproxy.Protocol.{encode_packet}
use fproxy.Server.Packets.{Net}
use fproxy.Server.State.{Server}
use fproxy.Server.State as ServerState
use fproxy.Server.Events as ServerEvents
use fproxy.Client.Packets.{Env}
use fproxy.Client.State.{Client}
use fproxy.Client.State as ClientState
use fproxy.Client.Events as ClientEvents

abbrev pub server_config : ServerConfig
server_config = record {
  listen_addrs = [];
  target_addr = [];
  dedup_window = 4;
  session_timeout = 60;
}

abbrev pub client_config : ClientConfig
client_config = record {
  listen_addr = [];
  servers =
      record { address = 1 ∷ []; protocol = udp }
      ∷ record { address = 2 ∷ []; protocol = tcp }
      ∷ [];
  session_timeout = 60;
}

abbrev pub net : Net
net = record { bind = some 40; connects = true }

abbrev pub env : Env
env = record { now = 5; random = 9; connect = λ server_addr. some 30 }

-- The packet of session 7 with number 3.
abbrev pub hello : Bytes
hello = 1 ∷ 2 ∷ []

abbrev pub bytes : Bytes
bytes = encode_packet 7 3 hello

abbrev pub by_udp : ServerEvents.Event
by_udp = ServerEvents.udp_packet net 1 10 20 bytes

abbrev pub by_tcp : ServerEvents.Event
by_tcp = ServerEvents.tcp_packet net 2 50 51 bytes

abbrev pub fresh_server : Server
fresh_server = ServerState.new server_config

abbrev pub serving : Server
serving = (ServerEvents.step fresh_server by_udp).0

abbrev pub sent : ClientEvents.Event
sent = ClientEvents.packet env 11 hello

abbrev pub calling : Client
calling = (ClientEvents.step (ClientState.new client_config 6) sent).0

-- The same client with its listening socket.
abbrev pub listening : Client
listening = record calling { listener = some 70 }
