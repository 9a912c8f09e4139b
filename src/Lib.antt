-- ===== src/Lib.antt =====
-- fproxy relays UDP packets between sources and a target over several paths. A client wraps each
-- packet of a source in a header with a session id and a sequence number, and sends it to all its
-- servers, by UDP and by TCP. A server forwards the first copy to the target and drops the others;
-- it sends each response on every path that the session has used, and the client drops the copies.
--
-- Where each part of fproxy-rs/src is modelled:
--   Protocol     protocol.rs: the packet header. Protocol/RoundTrip: encoding and decoding.
--   Frame        the length prefix on TCP: `send_tcp_frame` and the reading loops of client.rs and
--                server.rs. Frame/RoundTrip: what was framed is read back,
--                Frame/Broken: up to where the stream breaks.
--   Config       config.rs. Config/Text has the methods of `str` that it uses, Config/IpAddr the
--                parser of IP addresses, Config/Parse endpoints and durations, Config/Load
--                validation and the merging of arguments with the file; Config/Split,
--                Config/Accepts, Config/Ready, Config/Valid and Config/Duration are proofs.
--   Server       server.rs. Server/Window is `DedupWindow`, with its invariant, what it lets through
--                and its bounds below it. Server/State is `Server` with its three maps;
--                Server/Packets has the handlers of packets, Server/Responses the way back,
--                Server/Cleanup the ends of connections and sessions, Server/Start the listeners, Server/Events all handlers as
--                steps on a list of events. Server/Tasks has the handlers of packets again, cut into
--                the sections that they run under one lock, with the clean-up, in any interleaving.
--                Server/Window/Spec is what the window promises, as an abstract machine. The other
--                files are proofs, named for what they prove.
--   Client       client.rs, laid out in the same way: Window, State, Packets, Responses, Cleanup,
--                Events, Start, and the proofs.
--   Relay        a client and a server together: Relay/Upstream for packets, Relay/Downstream for
--                responses, Relay/Network for the two with what is under way between them, as a
--                step relation, and Relay/Back for the same on the way back to the sources.
--   Main         main.rs: the flags in the style of Go. Main/Run: `main` up to the wait for a signal.
--   Base         shared names: tests on numbers, lists, machine words, results, sets and maps.
--   Tests        the theorems at concrete inputs.
--
-- How the code is read. An async handler is a function from the state to the new state and the list
-- of what it sends, and a handler is one step. Each loop that waits for events is a function from what
-- its socket, connection or ticker gives to the list of events that it hands on (`handle_udp_listener`,
-- `handle_tcp_conn`, `session_cleanup_loop`); `run` takes the events of all loops in one order, which
-- the theorems leave open. Server/Tasks is the finer reading: tasks share session
-- objects (`Arc`), and a step is what one task does under one lock. There, waiting for the lock of the
-- sessions while the clean-up holds it is a step that changes nothing; the clean-up reads the
-- activity times of all sessions in one step; the way back and the ends of connections take no part.
-- Where each packet is one step, a path cannot be registered after the clean-up of its session, as it
-- can in the code; Server/Tasks has that order of events. Sockets, connections and
-- addresses are numbers, and what the operating system answers (`bind`, `connect`, the time, random
-- numbers) is an argument of the handler. A send that fails is not told apart from one that
-- succeeds, since the code only logs the failure and goes on; the end of a connection is an event of
-- its own. Sequence numbers are `u32`, session ids `u64`, with their wrap-around written out. A
-- `HashMap` is an association list, a `HashSet` a list. `Instant` is a number of nanoseconds and a
-- difference stops at 0.
--
-- Fuel: the loop that reads frames takes the length of the stream as fuel, and each round takes two
-- bytes or more. All other recursion is on lists.
--
-- A text is the list of its code points. Reading a configuration file and its YAML is a parameter
-- of `load`.
--
-- Not modelled: cancelling in `stop`, accepting connections (calls of tokio), logging, signals, the
-- parsing of arguments (clap), and the implementation in Go at the root of the repository.
pub mod Base
pub mod Protocol
pub mod Config
pub mod Frame
pub mod Server
pub mod Client
pub mod Relay
pub mod Main
pub mod Tests
