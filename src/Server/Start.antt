-- ===== src/Server/Start.antt =====
-- `Server::start` in fproxy-rs/src/server.rs: the listeners, in the order of the configuration.
use fproxy.Base.{ℕ, ◌≡◌, refl, ap, List, [], ◌∷◌, ◌++◌, map, Option, none, some}
use fproxy.Config.{Text, Protocol, udp, tcp, Endpoint, ServerConfig}

-- What the operating system answers: a socket or a listener bound to an address, and the address
-- that it has then.
pub record Sockets : Type 0 where
  pub bound : Protocol → Text → Option ℕ
  pub local_addr : ℕ → Option ℕ

-- The tasks that are spawned.
pub data Spawned : Type 0 where
  udp_listener tcp_listener : ℕ → Spawned
  session_cleanup : Spawned

abbrev pub listener_of : Protocol → ℕ → Spawned
listener_of udp socket = udp_listener socket
listener_of tcp socket = tcp_listener socket

-- The socket of an endpoint and its address, if it can be had.
abbrev pub listen_on : Sockets → Endpoint → Option (ℕ × ℕ)
listen_on sockets endpoint = elim (sockets.bound endpoint.protocol endpoint.address) [
  | none ↦ none
  | some socket ↦ elim (sockets.local_addr socket) [ none ↦ none | some addr ↦ some (socket, addr) ]
]

-- One endpoint's part, given what the later ones come to: a failure ends the loop.
abbrev pub listened :
    Protocol → Option (ℕ × ℕ) → List Spawned × Option (List ℕ) → List Spawned × Option (List ℕ)
listened protocol none later = ([], none)
listened protocol (some (socket, addr)) (spawned, none) =
    (listener_of protocol socket ∷ spawned, none)
listened protocol (some (socket, addr)) (spawned, some addrs) =
    (listener_of protocol socket ∷ spawned, some (addr ∷ addrs))

-- The tasks spawned, and the addresses if every endpoint could be listened on.
unfoldable pub start_listeners : Sockets → List Endpoint → List Spawned × Option (List ℕ)
start_listeners sockets [] = ([], some [])
start_listeners sockets (endpoint ∷ endpoints) =
    listened endpoint.protocol (listen_on sockets endpoint) (start_listeners sockets endpoints)

abbrev pub with_cleanup : List Spawned × Option (List ℕ) → List Spawned × Option (List ℕ)
with_cleanup (spawned, none) = (spawned, none)
with_cleanup (spawned, some addrs) = (spawned ++ session_cleanup ∷ [], some addrs)

-- A start that fails leaves the tasks that it has spawned.
unfoldable pub start : Sockets → ServerConfig → List Spawned × Option (List ℕ)
start sockets cfg = with_cleanup (start_listeners sockets cfg.listen_addrs)

-- The tasks for endpoints and their sockets.
abbrev pub listeners : List Endpoint → List (ℕ × ℕ) → List Spawned
listeners [] opened = []
listeners (e ∷ endpoints) [] = []
listeners (e ∷ endpoints) ((socket, addr) ∷ opened) =
    listener_of e.protocol socket ∷ listeners endpoints opened

-- Every endpoint is listened on.
pub record IsListening (sockets : Sockets) (endpoints : List Endpoint) (spawned : List Spawned)
    (addrs : List ℕ) : Type 0 where
  pub opened : List (ℕ × ℕ)
  pub all : map (listen_on sockets) endpoints ≡ map some opened
  pub tasks : spawned ≡ listeners endpoints opened
  pub local : addrs ≡ map (λ (o : ℕ × ℕ). o.1) opened

-- The endpoints before one that cannot be listened on are.
pub record IsStopped (sockets : Sockets) (endpoints : List Endpoint) (spawned : List Spawned)
    : Type 0 where
  pub before : List Endpoint
  pub failing : Endpoint
  pub after : List Endpoint
  pub opened : List (ℕ × ℕ)
  pub split : endpoints ≡ before ++ failing ∷ after
  pub all : map (listen_on sockets) before ≡ map some opened
  pub fails : listen_on sockets failing ≡ none
  pub tasks : spawned ≡ listeners before opened

-- What came of the endpoints, by whether there are addresses.
abbrev pub Came : Sockets → List Endpoint → List Spawned → Option (List ℕ) → Type 0
Came sockets endpoints spawned none = IsStopped sockets endpoints spawned
Came sockets endpoints spawned (some addrs) = IsListening sockets endpoints spawned addrs

listened_lem :
    (sockets : Sockets) (e : Endpoint) (endpoints : List Endpoint) (answer : Option (ℕ × ℕ))
    (spawned : List Spawned) (addrs : Option (List ℕ))
    → listen_on sockets e ≡ answer
    → Came sockets endpoints spawned addrs
    → let (spawned', addrs') = listened e.protocol answer (spawned, addrs) in
      Came sockets (e ∷ endpoints) spawned' addrs'
listened_lem sockets e endpoints none spawned addrs h c = record {
  before = [];
  failing = e;
  after = endpoints;
  opened = [];
  split = refl;
  all = refl;
  fails = h;
  tasks = refl;
}
listened_lem sockets e endpoints (some (socket, addr)) spawned none h c = record {
  before = e ∷ c.before;
  failing = c.failing;
  after = c.after;
  opened = (socket, addr) ∷ c.opened;
  split = ap (e ∷◌) c.split;
  all = cc (h, c.all);
  fails = c.fails;
  tasks = ap (listener_of e.protocol socket ∷◌) c.tasks;
}
listened_lem sockets e endpoints (some (socket, addr)) spawned (some addrs) h c = record {
  opened = (socket, addr) ∷ c.opened;
  all = cc (h, c.all);
  tasks = ap (listener_of e.protocol socket ∷◌) c.tasks;
  local = ap (addr ∷◌) c.local;
}

start_listeners_lem :
    (sockets : Sockets) (endpoints : List Endpoint)
    → let (spawned, addrs) = start_listeners sockets endpoints in
      Came sockets endpoints spawned addrs
unfolding start_listeners
start_listeners_lem sockets [] = record { opened = []; all = refl; tasks = refl; local = refl }
start_listeners_lem sockets (e ∷ endpoints) =
    listened_lem sockets e endpoints (listen_on sockets e) (start_listeners sockets endpoints).0
      (start_listeners sockets endpoints).1 refl (start_listeners_lem sockets endpoints)

-- What `start` comes to, in both of its outcomes.
abbrev pub Starts : Sockets → List Endpoint → List Spawned × Option (List ℕ) → Type 0
Starts sockets endpoints (spawned, none) = IsStopped sockets endpoints spawned
Starts sockets endpoints (spawned, some addrs) =
    (tasks : List Spawned) × (spawned ≡ tasks ++ session_cleanup ∷ [])
    × IsListening sockets endpoints tasks addrs

with_cleanup_lem :
    (sockets : Sockets) (endpoints : List Endpoint) (spawned : List Spawned)
    (addrs : Option (List ℕ))
    → Came sockets endpoints spawned addrs
    → Starts sockets endpoints (with_cleanup (spawned, addrs))
with_cleanup_lem sockets endpoints spawned none c = c
with_cleanup_lem sockets endpoints spawned (some addrs) c = (spawned, refl, c)

-- If `start` succeeds, each endpoint of the configuration has a task of its protocol on the socket
-- bound to its address, in that order, followed by the clean-up, and the addresses returned are those
-- of the sockets. If it fails, some endpoint could not be listened on; the tasks of those before it
-- have been spawned, and the clean-up has not.
pub start_tasks :
    (sockets : Sockets) (cfg : ServerConfig) → Starts sockets cfg.listen_addrs (start sockets cfg)
unfolding start
start_tasks sockets cfg =
    with_cleanup_lem sockets cfg.listen_addrs (start_listeners sockets cfg.listen_addrs).0
      (start_listeners sockets cfg.listen_addrs).1 (start_listeners_lem sockets cfg.listen_addrs)
