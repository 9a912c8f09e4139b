-- ===== src/Relay/Network.antt =====
-- The client of fproxy-rs/src/client.rs and the server of fproxy-rs/src/server.rs with the network
-- between them, which may lose, repeat and reorder what the client sends.
pub mod Defs
pub mod Arriving
pub mod Invariant
pub mod Exact
