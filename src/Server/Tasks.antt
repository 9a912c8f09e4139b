-- ===== src/Server/Tasks.antt =====
-- The handlers of packets in fproxy-rs/src/server.rs as tasks that run at the same time. A task is
-- interrupted between the sections that it runs under a lock; what it does under one lock is one
-- step. A session is an object that tasks share (`Arc<TargetSession>`): a task that holds one keeps
-- it after the clean-up has taken it out of the map.
pub mod Defs
pub mod Invariant
pub mod Moves
pub mod Lookup
pub mod Asking
pub mod Sending
pub mod Once
pub mod Paths
pub mod Shared
pub mod Sharing
pub mod OneObject
pub mod Views
pub mod Rounds
pub mod Alone
pub mod Refines
pub mod Single
pub mod Atomic
