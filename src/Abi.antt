-- ===== src/Abi.antt =====
-- The contract between host and guest: crates/cuttlefish-abi/src/lib.rs.
pub mod Ty
pub mod Status
pub mod Describe
