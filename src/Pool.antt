-- ===== src/Pool.antt =====
-- The pool of plugin instances of crates/agentplug-host/src/registry.rs (`SharedPluginPool`).
pub mod Limits
pub mod Holders
pub mod Records
pub mod Admission
pub mod Tickets
pub mod Swap
