-- ===== src/Fetch.antt =====
-- `fetch_filtered_logs_chunk` and `check_logs_endpoint_head` of src/chain/mod.rs.
pub mod Chunked
pub mod Progress
pub mod Coverage
mod Tests
