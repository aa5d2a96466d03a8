-- ===== src/Replication.antt =====
-- internal/redis/replication_state.go: the gathered state of a replication-based instance and the
-- questions that the planners ask of it.
pub mod State
pub mod Lineage
pub mod BestHolder
pub mod Sentinels
pub mod Rescue
pub mod Examples
