-- ===== src/Cluster.antt =====
-- internal/redis: the slot ranges and the gathered state of a Redis Cluster, and the plans over it.
pub mod State
pub mod Meets
pub mod Migration
pub mod Slots
pub mod Rollout
pub mod Reshard
pub mod Wipe
mod Examples
mod Samples
