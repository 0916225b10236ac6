-- ===== src/Core.antt =====
-- The spec language: crates/cuttlefish-core.
pub mod Lex
pub mod Parse
pub mod Graph
pub mod Spec
