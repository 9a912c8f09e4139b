-- ===== src/Server.antt =====
-- `Server` of fproxy-rs/src/server.rs: its state, and its handlers as functions on that state.
-- A handler runs without interruption. Sockets, connections and addresses are numbers, since the
-- code only compares them; what a handler sends is the list of its outputs.
pub mod Window
pub mod State
pub mod Sessions
pub mod Windows
pub mod Receive
pub mod Once
pub mod Paths
pub mod Consistent
pub mod Invariant
pub mod Expiry
pub mod Idle
pub mod Malformed
pub mod Start
pub mod Outputs
pub mod Routing
pub mod Packets
pub mod Responses
pub mod Cleanup
pub mod Tasks
pub mod Events
pub mod Connections
