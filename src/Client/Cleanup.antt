-- ===== src/Client/Cleanup.antt =====
-- The ends of connections and sessions in fproxy-rs/src/client.rs.
use fproxy.Base.{ℕ, ◌-◌, Bool, List, [], ◌∷◌, ◌++◌, none, some, ltb, if◌then◌else◌, nat_eq}
use fproxy.Base.HashMap.{HashMap, get, remove}
use fproxy.Client.State.{Client, UdpSession, TcpSession, SessionKey, key_Eq, Output, cancel_tcp}

unfoldable pub cleanup_tcp_session : Client → SessionKey → Client × List Output
cleanup_tcp_session c key = elim (get c.tcp_sessions key) [
  | none ↦ (c, [])
  | some session ↦
      (record c { tcp_sessions = remove c.tcp_sessions key }, cancel_tcp session.writer ∷ [])
]

-- `now.duration_since(last_activity) > timeout`; the difference stops at 0.
abbrev pub is_idle : ℕ → ℕ → ℕ → Bool
is_idle timeout now last_activity = ltb timeout (now - last_activity)

-- The source addresses and ids of the UDP sessions that have timed out.
unfoldable pub expired_udp : ℕ → ℕ → HashMap ℕ UdpSession → List (ℕ × ℕ)
expired_udp timeout now [] = []
expired_udp timeout now ((source_addr, s) ∷ sessions) =
    if is_idle timeout now s.last_activity
    then (source_addr, s.session_id) ∷ expired_udp timeout now sessions
    else expired_udp timeout now sessions

unfoldable pub expired_tcp : ℕ → ℕ → HashMap SessionKey TcpSession → List SessionKey
expired_tcp timeout now [] = []
expired_tcp timeout now ((key, s) ∷ sessions) =
    if is_idle timeout now s.last_activity
    then key ∷ expired_tcp timeout now sessions
    else expired_tcp timeout now sessions

unfoldable pub remove_udp_session : Client → ℕ → ℕ → Client
remove_udp_session c source_addr session_id = record c {
  udp_sessions = remove c.udp_sessions source_addr;
  udp_session_addrs = remove c.udp_session_addrs session_id;
}

unfoldable pub remove_udp_sessions : Client → List (ℕ × ℕ) → Client
remove_udp_sessions c [] = c
remove_udp_sessions c ((source_addr, session_id) ∷ expired) =
    remove_udp_sessions (remove_udp_session c source_addr session_id) expired

unfoldable pub remove_tcp_sessions : Client → List SessionKey → Client × List Output
remove_tcp_sessions c [] = (c, [])
remove_tcp_sessions c (key ∷ keys) =
    let (c', outputs) = cleanup_tcp_session c key in
    let (c'', more) = remove_tcp_sessions c' keys in (c'', outputs ++ more)

unfoldable pub cleanup_expired_sessions : Client → ℕ → Client × List Output
cleanup_expired_sessions c now =
    let timeout = c.cfg.session_timeout in
    let c' = remove_udp_sessions c (expired_udp timeout now c.udp_sessions) in
    remove_tcp_sessions c' (expired_tcp timeout now c'.tcp_sessions)
