-- ===== src/Cluster/Migration/Plan.antt =====
-- internal/redis/migration_plan.go: PlanClusterMigration, and the two gates before a migration.
use littlered.Prelude.{
  ℕ, ◌+◌, ◌*◌, Bool, true, false, not, ◌&&◌, Option, none, some, List, [], ◌∷◌, String, length, ltb,
  ◌==◌, string_eq, nat_eq, if◌then◌else◌, any, count_if,
}
use Prim.Native.String.{◌++◌ as ◌+++◌}
use littlered.Prelude.Int.{pos, beq_ℤ}
use littlered.Prelude.Decimal.{itoa}
use littlered.Replication.State.{values}
use littlered.Cluster.State.{ClusterNodeState, ClusterGroundTruth, owns_slots}
use littlered.Cluster.Slots.{SlotRange, generate_slot_ranges, format_slot_range}
use littlered.Cluster.Migration.{
  MigrationPlan, FailoverAction, LegacyFacts, Replicates, no_phase, standup, meet, replicate,
  failover, decommission, complete, all_new_pods_met, missing_new_pod_meets, aligned_range_index,
  count_shards_on_new_masters, plan_replicates, next_failover, present_legacy_nodes,
  present_legacy_ids_sorted, any_legacy_owns_slots,
}

-- `plan` before a phase is found.
abbrev pub blank : ℕ → ℕ → MigrationPlan
blank shards moved = record {
  phase = no_phase;
  meets = [];
  replicates = [];
  failovers = [];
  forgets = [];
  delete_legacy = false;
  shards_moved = moved;
  total_shards = shards;
  reason = "";
}

abbrev non_empty {ℓ} : {A : Type ℓ} → List A → Bool
non_empty [] = false
non_empty (_ ∷ _) = true

unfoldable pub plan_standup_or_meet :
    MigrationPlan → ClusterGroundTruth → String → ℕ → ℕ → LegacyFacts → MigrationPlan
plan_standup_or_meet plan gt name shards rps legacy =
    let meets = missing_new_pod_meets gt name shards rps legacy.new_pod_addrs in
    if non_empty meets && non_empty legacy.seed_addrs
    then record plan {
      phase = meet;
      meets = meets;
      reason = "MEET " +++ itoa (length meets) +++ " new pod(s) into the cluster";
    }
    else record plan { phase = standup; reason = "waiting for new shard pods to come up" }

abbrev pub replicate_plan : MigrationPlan → Replicates → MigrationPlan
replicate_plan plan r = record plan {
  phase = replicate;
  replicates = r.replicates;
  reason =
      if ltb 0 r.deferred
      then "replicating "
        +++ itoa (length r.replicates)
        +++ " new pod(s) onto their range owner; "
        +++ itoa r.deferred
        +++ " deferred (owner not yet known via gossip)"
      else "replicating " +++ itoa (length r.replicates) +++ " new pod(s) onto their range owner";
}

abbrev pub failover_plan : MigrationPlan → String → FailoverAction → ℕ → SlotRange → MigrationPlan
failover_plan plan name fo k r = record plan {
  phase = failover;
  failovers = fo ∷ [];
  reason =
      "promoting "
      +++ name
      +++ "-shard-"
      +++ itoa k
      +++ "-0 to own range "
      +++ format_slot_range r.start r.end
      +++ " ("
      +++ (if fo.force
          then "forced TAKEOVER (range owner unreachable, replica synced)"
          else "coordinated")
      +++ ")";
}

abbrev pub decommission_plan : MigrationPlan → ClusterGroundTruth → LegacyFacts → MigrationPlan
decommission_plan plan gt legacy =
    let forgets = present_legacy_ids_sorted gt legacy.legacy_node_ids in
    record plan {
      phase = decommission;
      forgets = forgets;
      delete_legacy = not (any_legacy_owns_slots gt legacy.legacy_node_ids);
      reason = "decommissioning " +++ itoa (length forgets) +++ " legacy node(s)";
    }

-- The last two phases, over what `nextFailover` returns.
unfoldable pub promote_or_retire :
    MigrationPlan
    → ClusterGroundTruth
    → String
    → LegacyFacts
    → Option (FailoverAction × ℕ × SlotRange)
    → MigrationPlan
promote_or_retire plan gt name legacy none = decommission_plan plan gt legacy
promote_or_retire plan gt name legacy (some (fo, k, r)) = failover_plan plan name fo k r

-- The phases after Complete, over the ranges of the shards.
unfoldable pub plan_with_legacy :
    MigrationPlan
    → ClusterGroundTruth
    → ℕ
    → ℕ
    → String
    → LegacyFacts
    → List SlotRange
    → MigrationPlan
plan_with_legacy plan gt shards rps name legacy ranges =
    if not (all_new_pods_met gt name shards rps)
    then plan_standup_or_meet plan gt name shards rps legacy
    else if (plan_replicates gt name rps ranges legacy.new_pod_addrs).unsynced
    then replicate_plan plan (plan_replicates gt name rps ranges legacy.new_pod_addrs)
    else promote_or_retire plan gt name legacy (next_failover gt name ranges legacy.new_pod_addrs)

unfoldable pub plan_cluster_migration :
    ClusterGroundTruth → ℕ → ℕ → String → LegacyFacts → MigrationPlan
plan_cluster_migration gt shards rps name legacy =
    if shards == 0
    then record (blank shards 0) { reason = "invalid shard count" }
    else (let ranges = generate_slot_ranges shards in
        let plan = blank shards (count_shards_on_new_masters gt name ranges) in
        if not (non_empty (present_legacy_nodes gt legacy.legacy_node_ids))
        then record plan { phase = complete; reason = "no legacy nodes remain; migration complete" }
        else plan_with_legacy plan gt shards rps name legacy ranges)

-- The reachable ones of the masters that own slots, and all of them.
unfoldable pub count_reachable_masters : ClusterGroundTruth → ℕ × ℕ
count_reachable_masters gt = (
  count_if (λ n. owns_slots n && n.reachable) (values gt.nodes),
  count_if owns_slots (values gt.nodes),
)

unfoldable pub legacy_migration_ready : ClusterGroundTruth → Bool → Bool
unfolding count_reachable_masters
legacy_migration_ready gt all_legacy_pods_ready =
    if not (gt.cluster_state == "ok")
    then false
    else if not (beq_ℤ gt.total_slots (pos 16384))
    then false
    else if not all_legacy_pods_ready
    then false
    else (let masters = count_reachable_masters gt in
        ltb 0 masters.1 && ltb masters.1 (masters.0 * 2))

abbrev pub member_nat : ℕ → List ℕ → Bool
member_nat k ks = any (λ j. j == k) ks

abbrev sole : List String → Option String
sole [] = none
sole (s ∷ []) = some s
sole (s ∷ _ ∷ _) = none

abbrev pub sole_range : List SlotRange → ClusterNodeState → Option ℕ
sole_range ranges n = elim (sole n.slots) [ none ↦ none | some s ↦ aligned_range_index ranges s ]

-- The loop with `ownedIdx`, and the count of the masters; `none` is `return false`.
unfoldable pub owned_from :
    List SlotRange → List ℕ → ℕ → List ClusterNodeState → Option (List ℕ × ℕ)
owned_from ranges owned masters [] = some (owned, masters)
owned_from ranges owned masters (n ∷ ns) =
    if not (owns_slots n) then owned_from ranges owned masters ns else elim (sole_range ranges n) [
      | none ↦ none
      | some idx ↦
          if member_nat idx owned then none else owned_from ranges (idx ∷ owned) (masters + 1) ns
    ]

abbrev counts_are : ℕ → Option (List ℕ × ℕ) → Bool
counts_are shards none = false
counts_are shards (some (owned, masters)) = masters == shards && length owned == shards

unfoldable pub legacy_shape_preserved : ClusterGroundTruth → ℕ → ℕ → Bool
unfolding owned_from
legacy_shape_preserved gt shards rps =
    if shards == 0
    then false
    else if not (length gt.nodes == shards * (1 + rps))
    then false
    else counts_are shards (owned_from (generate_slot_ranges shards) [] 0 (values gt.nodes))
