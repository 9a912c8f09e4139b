-- ===== src/Server/State.antt =====
-- The state of `Server` in fproxy-rs/src/server.rs, and what its handlers send. Left out are the
-- cancellation tokens; the end of a session is an output.
use fproxy.Base.{ℕ, List, [], Bytes, length, nat_eq}
use fproxy.Base.HashMap.{HashMap, insert}
use fproxy.Config.{ServerConfig}
use fproxy.Server.Window.{DedupWindow}

-- `udp addr socket`, `tcp conn_id writer`.
pub data ClientPath : Type 0 where
  udp : ℕ → ℕ → ClientPath
  tcp : ℕ → ℕ → ClientPath

pub record TargetSession : Type 0 where
  pub target_conn : ℕ
  pub dedup_window : DedupWindow
  pub response_seq : ℕ
  pub last_activity : ℕ

pub record Server : Type 0 where
  pub cfg : ServerConfig
  pub sessions : HashMap ℕ TargetSession
  pub client_paths : HashMap ℕ (List ClientPath)
  pub tcp_conn_to_session : HashMap ℕ ℕ

-- What the server sends, or starts: a payload to the target, a packet to a client's address from a
-- listening socket, a frame to a connection's writer, the task that reads a target socket, and the
-- end of that task.
pub data Output : Type 0 where
  to_target : ℕ → Bytes → Output
  to_client : ℕ → ℕ → Bytes → Output
  to_writer : ℕ → Bytes → Output
  spawn_target_reader : ℕ → ℕ → Output
  cancel_session : ℕ → Output

unfoldable pub new : ServerConfig → Server
new cfg = record { cfg = cfg; sessions = []; client_paths = []; tcp_conn_to_session = [] }

unfoldable pub session_count : Server → ℕ
session_count s = length s.sessions

abbrev pub put_session : Server → ℕ → TargetSession → Server
put_session s session_id t = record s { sessions = insert s.sessions session_id t }
