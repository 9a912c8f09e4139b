-- ===== src/Server/Paths.antt =====
-- The client paths of a session: one for each listening socket and one for each connection.
use fproxy.Base.{
  ℕ, ◌≡◌, refl, false, not, ◌||◌, ◌&&◌, List, [], ◌∷◌, ◌++◌, arith, ◌==◌, Option, none, some,
  retain, contains_key, Distinct, if◌then◌else◌, ap,
}
use fproxy.Server.State.{ClientPath, udp, tcp}
use fproxy.Server.Packets.{update_udp_path, has_tcp_path}
use fproxy.Server.Cleanup.{other_conn}

unfoldable pub udp_sockets : List ClientPath → List ℕ
udp_sockets [] = []
udp_sockets (udp addr socket ∷ paths) = socket ∷ udp_sockets paths
udp_sockets (tcp c w ∷ paths) = udp_sockets paths

unfoldable pub tcp_conns : List ClientPath → List ℕ
tcp_conns [] = []
tcp_conns (udp addr socket ∷ paths) = tcp_conns paths
tcp_conns (tcp c w ∷ paths) = c ∷ tcp_conns paths

-- The address to which a session's packets go from a socket.
unfoldable pub udp_addr : List ClientPath → ℕ → Option ℕ
udp_addr [] socket = none
udp_addr (udp addr s ∷ paths) socket = if s == socket then some addr else udp_addr paths socket
udp_addr (tcp c w ∷ paths) socket = udp_addr paths socket

-- One path for each socket, one for each connection.
pub record IsPaths (paths : List ClientPath) : Type 0 where
  pub sockets : Distinct (udp_sockets paths)
  pub conns : Distinct (tcp_conns paths)

sockets-update :
    (paths : List ClientPath) (addr socket x : ℕ)
    → contains_key (udp_sockets (update_udp_path paths addr socket)) x
      ≡ (socket == x || contains_key (udp_sockets paths) x)
unfolding udp_sockets update_udp_path contains_key
sockets-update [] addr socket x = refl
sockets-update (udp a s ∷ paths) addr socket x = ground (arith, sockets-update paths addr socket x)
sockets-update (tcp c w ∷ paths) addr socket x = sockets-update paths addr socket x

Distinct-update :
    (paths : List ClientPath) (addr socket : ℕ)
    → Distinct (udp_sockets paths)
    → Distinct (udp_sockets (update_udp_path paths addr socket))
unfolding udp_sockets update_udp_path contains_key
Distinct-update [] addr socket h = (refl, tt)
Distinct-update (udp a s ∷ paths) addr socket h =
    ground (arith, sockets-update paths addr socket s, Distinct-update paths addr socket h.1)
Distinct-update (tcp c w ∷ paths) addr socket h = Distinct-update paths addr socket h

tcp_conns-update :
    (paths : List ClientPath) (addr socket : ℕ)
    → tcp_conns (update_udp_path paths addr socket) ≡ tcp_conns paths
unfolding tcp_conns update_udp_path
tcp_conns-update [] addr socket = refl
tcp_conns-update (udp a s ∷ paths) addr socket = ground (arith, tcp_conns-update paths addr socket)
tcp_conns-update (tcp c w ∷ paths) addr socket = ground (arith, tcp_conns-update paths addr socket)

pub update-IsPaths :
    (paths : List ClientPath) (addr socket : ℕ)
    → IsPaths paths
    → IsPaths (update_udp_path paths addr socket)
update-IsPaths paths addr socket h = record {
  sockets = Distinct-update paths addr socket h.sockets;
  conns = rw (tcp_conns-update paths addr socket) h.conns;
}

udp_addr-update :
    (paths : List ClientPath) (addr socket x : ℕ)
    → udp_addr (update_udp_path paths addr socket) x
      ≡ (if socket == x then some addr else udp_addr paths x)
unfolding udp_addr update_udp_path
udp_addr-update [] addr socket x = refl
udp_addr-update (udp a s ∷ paths) addr socket x =
    ground (arith, udp_addr-update paths addr socket x)
udp_addr-update (tcp c w ∷ paths) addr socket x = udp_addr-update paths addr socket x

-- After an update the socket's packets go to the new address, and no other path has changed.
pub update_udp_path_lem :
    (paths : List ClientPath) (addr socket x : ℕ)
    → (udp_addr (update_udp_path paths addr socket) x
        ≡ (if socket == x then some addr else udp_addr paths x))
      × (tcp_conns (update_udp_path paths addr socket) ≡ tcp_conns paths)
update_udp_path_lem paths addr socket x =
    (udp_addr-update paths addr socket x, tcp_conns-update paths addr socket)

conns-snoc :
    (paths : List ClientPath) (conn_id writer x : ℕ)
    → contains_key (tcp_conns (paths ++ tcp conn_id writer ∷ [])) x
      ≡ (contains_key (tcp_conns paths) x || conn_id == x)
unfolding tcp_conns contains_key
conns-snoc [] conn_id writer x = ground arith
conns-snoc (udp a s ∷ paths) conn_id writer x = conns-snoc paths conn_id writer x
conns-snoc (tcp c w ∷ paths) conn_id writer x = ground (arith, conns-snoc paths conn_id writer x)

sockets-snoc :
    (paths : List ClientPath) (conn_id writer : ℕ)
    → udp_sockets (paths ++ tcp conn_id writer ∷ []) ≡ udp_sockets paths
unfolding udp_sockets
sockets-snoc [] conn_id writer = refl
sockets-snoc (udp a s ∷ paths) conn_id writer = ap (◌∷◌ s) (sockets-snoc paths conn_id writer)
sockets-snoc (tcp c w ∷ paths) conn_id writer = sockets-snoc paths conn_id writer

absent_conn :
    (paths : List ClientPath) (conn_id writer : ℕ)
    → has_tcp_path paths conn_id writer ≡ false
    → contains_key (tcp_conns paths) conn_id ≡ false
unfolding tcp_conns has_tcp_path contains_key
absent_conn [] conn_id writer e = refl
absent_conn (udp a s ∷ paths) conn_id writer e = absent_conn paths conn_id writer e
absent_conn (tcp c w ∷ paths) conn_id writer e = ground (arith, absent_conn paths conn_id writer)

Distinct-snoc :
    (paths : List ClientPath) (conn_id writer : ℕ)
    → contains_key (tcp_conns paths) conn_id ≡ false
    → Distinct (tcp_conns paths)
    → Distinct (tcp_conns (paths ++ tcp conn_id writer ∷ []))
unfolding tcp_conns contains_key
Distinct-snoc [] conn_id writer e h = (refl, tt)
Distinct-snoc (udp a s ∷ paths) conn_id writer e h = Distinct-snoc paths conn_id writer e h
Distinct-snoc (tcp c w ∷ paths) conn_id writer e h =
    ground (arith, conns-snoc paths conn_id writer c, Distinct-snoc paths conn_id writer)

-- A connection that has no path yet gets one at the end.
pub snoc-IsPaths :
    (paths : List ClientPath) (conn_id writer : ℕ)
    → has_tcp_path paths conn_id writer ≡ false
    → IsPaths paths
    → IsPaths (paths ++ tcp conn_id writer ∷ [])
snoc-IsPaths paths conn_id writer e h = record {
  sockets = rw (sockets-snoc paths conn_id writer) h.sockets;
  conns = Distinct-snoc paths conn_id writer (absent_conn paths conn_id writer e) h.conns;
}

sockets-retain :
    (paths : List ClientPath) (conn_id : ℕ)
    → udp_sockets (retain (other_conn conn_id) paths) ≡ udp_sockets paths
unfolding udp_sockets
sockets-retain [] conn_id = refl
sockets-retain (udp a s ∷ paths) conn_id = ap (◌∷◌ s) (sockets-retain paths conn_id)
sockets-retain (tcp c w ∷ paths) conn_id = ground (arith, sockets-retain paths conn_id)

conns-retain :
    (paths : List ClientPath) (conn_id x : ℕ)
    → contains_key (tcp_conns (retain (other_conn conn_id) paths)) x
      ≡ (not (x == conn_id) && contains_key (tcp_conns paths) x)
unfolding tcp_conns contains_key
conns-retain [] conn_id x = ground arith
conns-retain (udp a s ∷ paths) conn_id x = conns-retain paths conn_id x
conns-retain (tcp c w ∷ paths) conn_id x = ground (arith, conns-retain paths conn_id x)

Distinct-conns-retain :
    (paths : List ClientPath) (conn_id : ℕ)
    → Distinct (tcp_conns paths)
    → Distinct (tcp_conns (retain (other_conn conn_id) paths))
unfolding tcp_conns
Distinct-conns-retain [] conn_id h = tt
Distinct-conns-retain (udp a s ∷ paths) conn_id h = Distinct-conns-retain paths conn_id h
Distinct-conns-retain (tcp c w ∷ paths) conn_id h =
    ground (arith, conns-retain paths conn_id c, Distinct-conns-retain paths conn_id)

pub retain-IsPaths :
    (paths : List ClientPath) (conn_id : ℕ)
    → IsPaths paths
    → IsPaths (retain (other_conn conn_id) paths)
retain-IsPaths paths conn_id h = record {
  sockets = rw (sockets-retain paths conn_id) h.sockets;
  conns = Distinct-conns-retain paths conn_id h.conns;
}

-- Dropping a connection takes its path away, and leaves every other connection and every socket.
pub retain-other_conn :
    (paths : List ClientPath) (conn_id x : ℕ)
    → (contains_key (tcp_conns (retain (other_conn conn_id) paths)) x
        ≡ (not (x == conn_id) && contains_key (tcp_conns paths) x))
      × (udp_sockets (retain (other_conn conn_id) paths) ≡ udp_sockets paths)
retain-other_conn paths conn_id x = (conns-retain paths conn_id x, sockets-retain paths conn_id)
