-- ===== src/Client.antt =====
-- `Client` of fproxy-rs/src/client.rs: its state, and its handlers as functions on that state.
-- A handler runs without interruption. Sockets, connections and addresses are numbers, since the
-- code only compares them; what a handler sends is the list of its outputs.
pub mod Window
pub mod State
pub mod Packets
pub mod Responses
pub mod Cleanup
pub mod Events
pub mod Start
pub mod Ids
pub mod Maps
pub mod SameMaps
pub mod Inverse
pub mod Cleared
pub mod Runs
pub mod Expiry
pub mod Sending
pub mod Windows
pub mod Deliver
pub mod Once
pub mod Malformed
pub mod Numbers
pub mod Numbering
pub mod Distinct
