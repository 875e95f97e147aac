-- ===== src/Discovery.antt =====
-- src/chain/discovery.rs over the shared state and the tables that it keeps.
pub mod State
pub mod Live
pub mod Agreement
pub mod Probed
pub mod Retried
pub mod Initial
pub mod Kept
pub mod Began
pub mod Checked
pub mod Synced
pub mod Start
pub mod Started
pub mod Loop
pub mod CaughtUp
pub mod Looped
pub mod Reconcile
pub mod Rows
pub mod Persisted
pub mod Reconciled
mod Tests
