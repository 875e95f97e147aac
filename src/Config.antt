-- ===== src/Config.antt =====
-- The settings of the process: src/config.rs.
pub mod Network
mod Tests
