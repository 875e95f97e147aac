-- ===== src/Nodes.antt =====
-- A node as the indexer keeps it: its status, its addresses and what may be polled.
pub mod Status
pub mod Targets
pub mod Ranges
pub mod Address
pub mod State
pub mod Stored
pub mod Polled
mod Tests
