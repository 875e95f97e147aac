-- ===== src/Seed.antt =====
-- The seed topology that clients read: src/api.rs.
pub mod Cache
pub mod Freshness
pub mod Snapshot
pub mod Assembled
pub mod Build
mod Tests
