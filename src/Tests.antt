-- ===== src/Tests.antt =====
-- The theorems at concrete inputs.
mod Fixtures
mod Wire
mod Server
mod Tasks
mod Window
mod Client
mod Relay
mod Network
mod Back
mod Config
mod Main
