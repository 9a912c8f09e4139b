-- ===== src/Client/State.antt =====
-- The state of `Client` in fproxy-rs/src/client.rs, and what its handlers send. Left out are
-- `listen_addr`, which is only reported, and the cancellation tokens.
use fproxy.Base.{
  ℕ, Bool, List, [], Option, none, Bytes, Eq, ◌==◌, ◌&&◌, bytes_eq, bytes_eq_iff, ◌≡◌, ◌↔◌, true,
  arith, nat_eq,
}
use fproxy.Base.HashMap.{HashMap, insert}
use fproxy.Config.{ClientConfig, Text}
use fproxy.Client.Window.{ResponseDedupWindow}

pub record UdpSession : Type 0 where
  pub session_id : ℕ
  pub seq : ℕ
  pub last_activity : ℕ
  pub response_dedup : ResponseDedupWindow

pub record TcpSession : Type 0 where
  pub writer : ℕ
  pub last_activity : ℕ

-- The key of a TCP session, which the code prints as "source->server". The text of a source address
-- holds no "->", so the pair is as good.
abbrev pub SessionKey : Type 0
SessionKey = ℕ × Text

abbrev pub key_eq : SessionKey → SessionKey → Bool
key_eq (a, x) (b, y) = a == b && bytes_eq x y

pub key_eq_iff : (k j : SessionKey) → (key_eq k j ≡ true) ↔ (k ≡ j)
key_eq_iff (a, x) (b, y) = ground (arith, bytes_eq_iff x y)

instance abbrev pub key_Eq : Eq SessionKey
key_Eq = record { beq = key_eq; beq_iff = key_eq_iff }

pub record Client : Type 0 where
  pub cfg : ClientConfig
  pub listener : Option ℕ
  pub session_id_counter : ℕ
  pub udp_sessions : HashMap ℕ UdpSession
  pub udp_session_addrs : HashMap ℕ ℕ
  pub tcp_sessions : HashMap SessionKey TcpSession
  pub udp_senders : List ℕ

-- What the client sends, or starts: a packet on a connected UDP sender, bytes to a connection's
-- writer, a payload from the listening socket to a source, the task that reads a connection, and
-- the end of that task.
pub data Output : Type 0 where
  to_server : ℕ → Bytes → Output
  to_writer : ℕ → Bytes → Output
  to_source : ℕ → ℕ → Bytes → Output
  spawn_tcp_reader : ℕ → SessionKey → Output
  cancel_tcp : ℕ → Output

-- `initial` is the random first value of the counter.
unfoldable pub new : ClientConfig → ℕ → Client
new cfg initial = record {
  cfg = cfg;
  listener = none;
  session_id_counter = initial;
  udp_sessions = [];
  udp_session_addrs = [];
  tcp_sessions = [];
  udp_senders = [];
}

abbrev pub put_udp_session : Client → ℕ → UdpSession → Client
put_udp_session c source_addr s = record c { udp_sessions = insert c.udp_sessions source_addr s }

abbrev pub put_tcp_session : Client → SessionKey → TcpSession → Client
put_tcp_session c key s = record c { tcp_sessions = insert c.tcp_sessions key s }
