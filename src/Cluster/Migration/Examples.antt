-- ===== src/Cluster/Migration/Examples.antt =====
-- The late phases of a migration of one shard.
use littlered.Prelude.{◌≡◌, refl, true, false, some, [], ◌∷◌, String, In, get_elem?, ℕ}
use littlered.Replication.State.{lookup, values}
use littlered.Cluster.State.{ClusterNodeState}
use littlered.Cluster.Slots.{SlotRange, generate_slot_ranges, parse_slot_range}
use littlered.Cluster.Migration.{
  FailoverAction, failover, decommission, all_new_pods_met, expected_new_pods, new_master_pod_name,
  shard_new_pods, owner_of_range, is_link_up_replica_of, plan_replicates, replicate_turns,
  replicate_turn, next_failover, present_legacy_nodes, present_legacy_ids_sorted,
  any_legacy_owns_slots, count_shards_on_new_masters,
}
use littlered.Cluster.Migration.Plan.{plan_cluster_migration, plan_with_legacy, promote_or_retire}
use littlered.Cluster.Migration.Synced.{AllSynced, AllSettled}
use littlered.Cluster.Migration.Handover.{Handed, Next}
use littlered.Cluster.Migration.Phases.{failover_safe, decommission_safe, IsTakeover}
use littlered.Prelude.Decimal.{itoa, atoi}
use littlered.Prelude.Text.{split}
use littlered.Cluster.Samples.{facts, before, after, unowned}

before_fails_over : (plan_cluster_migration before 1 0 "db" facts).phase ≡ failover
unfolding plan_cluster_migration plan_with_legacy promote_or_retire lookup generate_slot_ranges
    parse_slot_range all_new_pods_met expected_new_pods new_master_pod_name shard_new_pods
    plan_replicates replicate_turns replicate_turn next_failover owner_of_range present_legacy_nodes
    present_legacy_ids_sorted any_legacy_owns_slots count_shards_on_new_masters
    is_link_up_replica_of itoa split atoi
before_fails_over = refl

failover_safe_example :
    (all_new_pods_met before "db" 1 0 ≡ true)
    × AllSettled before "db" 0 (generate_slot_ranges 1)
    × ((f : FailoverAction) × (k : ℕ) × (r : SlotRange) × Next before facts.new_pod_addrs "db" 0
          (generate_slot_ranges 1)
          f
          k
          r
        × ((plan_cluster_migration before 1 0 "db" facts).failovers ≡ f ∷ [])
        × (f.force ≡ true → IsTakeover before "db" k r))
    × ((plan_cluster_migration before 1 0 "db" facts).forgets ≡ [])
    × ((plan_cluster_migration before 1 0 "db" facts).delete_legacy ≡ false)
failover_safe_example = failover_safe before 1 0 "db" facts before_fails_over

-- A pod without a gathered master is let through where its range has no owner.
orphan_fails_over : (plan_cluster_migration unowned 1 0 "db" facts).phase ≡ failover
unfolding plan_cluster_migration plan_with_legacy promote_or_retire lookup generate_slot_ranges
    parse_slot_range all_new_pods_met expected_new_pods new_master_pod_name shard_new_pods
    plan_replicates replicate_turns replicate_turn next_failover owner_of_range present_legacy_nodes
    present_legacy_ids_sorted any_legacy_owns_slots count_shards_on_new_masters
    is_link_up_replica_of itoa split atoi
orphan_fails_over = refl

after_retires : (plan_cluster_migration after 1 0 "db" facts).phase ≡ decommission
unfolding plan_cluster_migration plan_with_legacy promote_or_retire lookup generate_slot_ranges
    parse_slot_range all_new_pods_met expected_new_pods new_master_pod_name shard_new_pods
    plan_replicates replicate_turns replicate_turn next_failover owner_of_range present_legacy_nodes
    present_legacy_ids_sorted any_legacy_owns_slots count_shards_on_new_masters
    is_link_up_replica_of itoa split atoi
after_retires = refl

decommission_safe_example :
    (all_new_pods_met after "db" 1 0 ≡ true)
    × AllSynced after "db" 0 (generate_slot_ranges 1)
    × ((k : ℕ) (r : SlotRange)
        → get_elem? (generate_slot_ranges 1) k ≡ some r
        → Handed after "db" k r)
    × ((id : String)
        → In id (plan_cluster_migration after 1 0 "db" facts).forgets
        → In id facts.legacy_node_ids)
    × ((plan_cluster_migration after 1 0 "db" facts).delete_legacy ≡ true
        → (n : ClusterNodeState) → In n (values after.nodes)
        → In n.node_id facts.legacy_node_ids
        → n.slots ≡ [])
    × ((plan_cluster_migration after 1 0 "db" facts).failovers ≡ [])
decommission_safe_example = decommission_safe after 1 0 "db" facts after_retires
