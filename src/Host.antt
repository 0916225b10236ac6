-- ===== src/Host.antt =====
-- The host: crates/cuttlefish-host.
pub mod Dag
pub mod Hex
pub mod Serde
pub mod Ledger
pub mod Platform
pub mod Accept
pub mod Runner
pub mod Caps
pub mod Handles
