-- ===== src/Sync.antt =====
-- The chain sync's public state: src/state.rs.
pub mod Status
pub mod Health
pub mod Healthz
mod Tests
