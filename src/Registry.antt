-- ===== src/Registry.antt =====
-- Registry membership: src/chain/mod.rs (events, the pinned check) and src/chain/discovery.rs (replay).
pub mod Events
pub mod Fingerprint
pub mod Pinned
pub mod Replay
pub mod Members
pub mod Resume
pub mod Progress
pub mod Checkpoint
mod Tests
