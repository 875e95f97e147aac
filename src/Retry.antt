-- ===== src/Retry.antt =====
-- src/chain/retry.rs: backoff and the adaptive size of `eth_getLogs` block ranges.
pub mod Chunk
pub mod Bounds
pub mod Sharing
pub mod Backoff
pub mod Classify
pub mod Hints
mod Tests
