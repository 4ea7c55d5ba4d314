-- ===== src/Lanes.antt =====
-- The serial lanes of a project: their queues of waiters and their owners.
pub mod Root
pub mod Queue
pub mod Keys
pub mod Owners
pub mod Sweep
pub mod Reports
mod Examples
