-- ===== src/Relay/Back.antt =====
-- The way back: the server of fproxy-rs/src/server.rs and the client of fproxy-rs/src/client.rs with the
-- network between them, which may lose, repeat and reorder what the server sends.
pub mod Defs
pub mod Answers
pub mod Sources
pub mod Invariant
pub mod Returned
pub mod Arriving
pub mod Exact
