-- ===== src/Server/Packets.antt =====
-- The handlers for packets from clients in fproxy-rs/src/server.rs, and what they call.
use fproxy.Base.{
  ℕ, Bool, true, false, ◌||◌, List, [], ◌∷◌, ◌++◌, Option, none, some, Bytes, ok, err, ◌==◌,
  if◌then◌else◌, unwrap_or, nat_eq,
}
use fproxy.Base.HashMap.{get, insert}
use fproxy.Protocol.{Decoded, decode_udp, decode_tcp}
use fproxy.Server.Window.{is_duplicate}
use fproxy.Server.Window
use fproxy.Server.State.{
  ClientPath, udp, tcp, TargetSession, Server, Output, to_target, spawn_target_reader, put_session,
}

-- What the operating system answers: the socket that `bind` gives, and whether `connect` succeeds.
pub record Net : Type 0 where
  pub bind : Option ℕ
  pub connects : Bool

-- The server after a lookup, the session found or made, and whether it was made.
pub record Opened : Type 0 where
  pub server : Server
  pub session : TargetSession
  pub created : Bool
  pub outputs : List Output

abbrev pub new_session : Server → ℕ → ℕ → TargetSession
new_session s target_conn now = record {
  target_conn = target_conn;
  dedup_window = Window.new s.cfg.dedup_window;
  response_seq = 0;
  last_activity = now;
}

abbrev pub opened : Server → ℕ → ℕ → TargetSession → Opened
opened s session_id target_conn session = record {
  server = put_session s session_id session;
  session = session;
  created = true;
  outputs = spawn_target_reader session_id target_conn ∷ [];
}

abbrev pub found : Server → TargetSession → Opened
found s session = record { server = s; session = session; created = false; outputs = [] }

unfoldable pub create_session : Server → Net → ℕ → ℕ → Option Opened
create_session s net now session_id = elim net.bind [
  | none ↦ none
  | some target_conn ↦
      if net.connects
      then some (opened s session_id target_conn (new_session s target_conn now))
      else none
]

unfoldable pub get_or_create_session : Server → Net → ℕ → ℕ → Option Opened
unfolding create_session
get_or_create_session s net now session_id = elim (get s.sessions session_id) [
  | some session ↦ some (found s session)
  | none ↦ create_session s net now session_id
]

-- A UDP path is known by its socket; its address follows the client.
unfoldable pub update_udp_path : List ClientPath → ℕ → ℕ → List ClientPath
update_udp_path [] client_addr socket = udp client_addr socket ∷ []
update_udp_path (udp addr s ∷ paths) client_addr socket =
    if s == socket
    then (if addr == client_addr then udp addr s ∷ paths else udp client_addr s ∷ paths)
    else udp addr s ∷ update_udp_path paths client_addr socket
update_udp_path (tcp c w ∷ paths) client_addr socket =
    tcp c w ∷ update_udp_path paths client_addr socket

unfoldable pub add_udp_path : Server → ℕ → ℕ → ℕ → Server
add_udp_path s session_id client_addr socket =
    let paths = unwrap_or (get s.client_paths session_id) [] in
    record s {
      client_paths = insert s.client_paths session_id (update_udp_path paths client_addr socket);
    }

unfoldable pub has_tcp_path : List ClientPath → ℕ → ℕ → Bool
has_tcp_path [] conn_id writer = false
has_tcp_path (udp a s ∷ paths) conn_id writer = has_tcp_path paths conn_id writer
has_tcp_path (tcp c w ∷ paths) conn_id writer =
    (c == conn_id || w == writer) || has_tcp_path paths conn_id writer

unfoldable pub add_tcp_path : Server → ℕ → ℕ → ℕ → Server
add_tcp_path s session_id conn_id writer =
    let paths = unwrap_or (get s.client_paths session_id) [] in
    record s {
      tcp_conn_to_session = insert s.tcp_conn_to_session conn_id session_id;
      client_paths =
          insert s.client_paths session_id
            (if has_tcp_path paths conn_id writer then paths else paths ++ tcp conn_id writer ∷ []);
    }

-- The new activity time and window of a session, and whether the number is a duplicate.
unfoldable pub check_duplicate : Server → ℕ → TargetSession → ℕ → ℕ → Server × Bool
check_duplicate s session_id session now seq =
    let (w, duplicate) = is_duplicate session.dedup_window seq in
    (put_session s session_id (record session { last_activity = now; dedup_window = w }), duplicate)

-- What both handlers do with a packet that was decoded; `add_path` registers the way it came. This is
-- one step here. The code gives up the lock of the sessions between the lookup, the window and the
-- path: Server/Tasks has the same sections as steps of their own.
unfoldable pub receive : Server → Net → ℕ → Decoded → (Server → ℕ → Server) → Server × List Output
receive s net now (session_id, seq, payload) add_path =
    elim (get_or_create_session s net now session_id) [
      | none ↦ (s, [])
      | some o ↦
          let (s', duplicate) = check_duplicate o.server session_id o.session now seq in
          if duplicate
          then (s', o.outputs)
          else (add_path s' session_id, o.outputs ++ to_target o.session.target_conn payload ∷ [])
    ]

unfoldable pub handle_udp_packet : Server → Net → ℕ → ℕ → ℕ → Bytes → Server × List Output
handle_udp_packet s net now listener client_addr bytes = elim (decode_udp bytes) [
  | err e ↦ (s, [])
  | ok d ↦ receive s net now d (λ s' session_id. add_udp_path s' session_id client_addr listener)
]

unfoldable pub handle_tcp_packet : Server → Net → ℕ → ℕ → ℕ → Bytes → Server × List Output
handle_tcp_packet s net now conn_id writer bytes = elim (decode_tcp bytes) [
  | err e ↦ (s, [])
  | ok d ↦ receive s net now d (λ s' session_id. add_tcp_path s' session_id conn_id writer)
]
