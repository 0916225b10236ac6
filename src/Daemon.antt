-- ===== src/Daemon.antt =====
-- The daemon: crates/cuttlefishd.
pub mod Store
pub mod Cancelled
pub mod Resumed
pub mod Tests
