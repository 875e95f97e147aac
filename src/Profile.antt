-- ===== src/Profile.antt =====
-- src/chain/profile.rs: the profile of a relayer from the return data of the registry.
pub mod Decode
pub mod Decoded
mod Tests
