-- ===== src/Settlement.antt =====
-- The settlement figures: src/chain/settlement.rs.
pub mod Store
pub mod Replay
pub mod Totals
pub mod Merged
pub mod Summary
pub mod Dated
mod Tests
