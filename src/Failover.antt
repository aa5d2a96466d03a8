-- ===== src/Failover.antt =====
-- Failover mode: the master-death predicate and the election plan.
pub mod Death
pub mod Intent
pub mod Plan
pub mod Watcher
mod Examples
