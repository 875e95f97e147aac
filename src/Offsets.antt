-- ===== src/Offsets.antt =====
-- src/node/offsets.rs: lifetime counters across node restarts.
pub mod Counters
pub mod Observe
pub mod Allowance
pub mod Lifetime
mod Tests
