-- ===== src/Cluster/Rollout/Examples.antt =====
-- A shard of one replica, whose replica was replaced and has synced.
use littlered.Prelude.{
  ℕ, ◌+◌, ◌≤◌, ◌<◌, ◌≡◌, refl, ◌≢◌, ◌⊎◌, ◌↔◌, true, false, some, none, List, [], ◌∷◌, String, arith,
  suc, Option,
}
use littlered.Prelude.Int.{pos}
use littlered.Cluster.State.{ClusterNodeState, ClusterGroundTruth}
use littlered.Cluster.Samples.{node, gathered}
use littlered.Cluster.Rollout.{
  StatefulSetView, ShardRolloutInput, advance, current_partition, observes_settled,
  plan_shard_rollout_partition,
}
use littlered.Cluster.Rollout.Partition.{IsRolling, IsRedundant, advance_iff, partition_moves}
use littlered.Cluster.Rollout.Owner.{PodView, build_shard_rollout_input}
use littlered.Cluster.Rollout.Redundancy.{IsRangeMaster, IsSyncedCopy, advance-IsSyncedCopy}

abbrev view : StatefulSetView
view = record {
  generation = pos 2;
  observed_generation = pos 2;
  update_revision = "new";
  current_revision = "old";
  spec_replicas = some (pos 2);
  updated_replicas = pos 1;
  ready_replicas = pos 2;
  replicas = pos 2;
  pod_spec_hash = "h";
  partition = some (pos 1);
}

abbrev pod : String → PodView
pod rev = record {
  revision_label = rev;
  containers = ("redis", true) ∷ [];
  conditions = ("Ready", some (pos 0)) ∷ [];
}

abbrev pods : List (String × PodView)
pods = ("db-shard-0-0", pod "old") ∷ ("db-shard-0-1", pod "new") ∷ []

abbrev truth : ClusterGroundTruth
truth =
    record (gathered (node "db-shard-0-0" "M" ("0-16383" ∷ []) "master" "-")
      (node "db-shard-0-1" "R" [] "replica" "M")) {
        nodes =
            ("db-shard-0-0", node "db-shard-0-0" "M" ("0-16383" ∷ []) "master" "-")
            ∷ ("db-shard-0-1", node "db-shard-0-1" "R" [] "replica" "M")
            ∷ [];
      }

abbrev input : ShardRolloutInput
input = build_shard_rollout_input "db" 1 0 1 "h" (some view) pods (some truth) (pos 0)

lowered : (plan_shard_rollout_partition input).verdict ≡ advance
unfolding plan_shard_rollout_partition build_shard_rollout_input
    littlered.Cluster.Rollout.Owner.cluster_shard_pod_name littlered.Prelude.Decimal.itoa
    littlered.Cluster.Rollout.Owner.cluster_pod_refs littlered.Prelude.Text.split
    littlered.Prelude.Decimal.atoi littlered.Cluster.Migration.is_link_up_replica_of
lowered = refl

to_zero : (plan_shard_rollout_partition input).partition ≡ some 0
unfolding plan_shard_rollout_partition build_shard_rollout_input
    littlered.Cluster.Rollout.Owner.cluster_shard_pod_name littlered.Prelude.Decimal.itoa
    littlered.Cluster.Rollout.Owner.cluster_pod_refs littlered.Prelude.Text.split
    littlered.Prelude.Decimal.atoi littlered.Cluster.Migration.is_link_up_replica_of
to_zero = refl

advance_iff_example :
    ((plan_shard_rollout_partition input).verdict ≡ advance)
    ↔ (IsRolling input × (0 < current_partition input) × IsRedundant input)
advance_iff_example = advance_iff input

partition_moves_example :
    (0 ≤ input.replicas_per_shard)
    × (current_partition input < 0 → input.applied_hash ≢ input.desired_hash)
    × (0 < current_partition input
        → (observes_settled input ≡ true) ⊎ ((suc 0 ≡ current_partition input) × IsRedundant input))
partition_moves_example = partition_moves input 0 to_zero

advance-IsSyncedCopy_example :
    (owner : ClusterNodeState) × IsRangeMaster truth "db" 1 1 0 owner
    × ((k : ℕ) → current_partition input ≤ k → k ≤ 1 → IsSyncedCopy input "db" 0 pods truth owner k)
advance-IsSyncedCopy_example =
    advance-IsSyncedCopy "db" 1 0 1 "h" (some view) pods truth (pos 0) lowered
