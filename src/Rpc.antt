-- ===== src/Rpc.antt =====
-- src/chain/rpc.rs: several JSON-RPC endpoints behind one client.
pub mod Urls
pub mod Endpoints
pub mod Failover
pub mod Skipping
pub mod Rotation
pub mod Coverage
pub mod Indices
mod Tests
