-- ===== src/Verbs.antt =====
-- Verb tables, cost classes, serial lanes and call deadlines of crates/agentplug-host/src/registry.rs.
pub mod Tables
pub mod Json
pub mod Cost
pub mod Lanes
pub mod Deadlines
mod Examples
