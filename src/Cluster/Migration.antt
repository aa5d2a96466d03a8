-- ===== src/Cluster/Migration.antt =====
-- internal/redis/migration_plan.go: the phases of the migration from the legacy cluster to one
-- StatefulSet per shard.
-- The counts of shards and of replicas are natural numbers: a negative one is 0 here, and the
-- loops of the source do nothing on either.
pub mod Plan
pub mod Synced
pub mod Handover
pub mod Phases
mod Examples
use littlered.Prelude.{
  ℕ, zero, suc, ◌+◌, ◌*◌, Bool, true, false, not, ◌&&◌, ◌||◌, Option, none, some, List, [], ◌∷◌,
  String, length, ltb, ◌==◌, string_eq, nat_eq, if◌then◌else◌, select, any, all, count_if,
  find_first, map, is_some, ◌++◌,
}
use Prim.Native.String.{◌++◌ as ◌+++◌}
use littlered.Prelude.Int.{pos, beq_ℤ}
use littlered.Prelude.Text.{str_ltb}
use littlered.Prelude.Sort.{sort_by}
use littlered.Prelude.Decimal.{itoa}
use littlered.Replication.State.{lookup, values, contains, role_replica}
use littlered.Cluster.State.{ClusterNodeState, ClusterGroundTruth, owns_slots, node_knows}
use littlered.Cluster.Slots.{SlotRange, generate_slot_ranges, parse_slot_range, format_slot_range}

-- The zero value "" is `no_phase`.
pub data MigrationPhase : Type 0 where
  no_phase standup meet replicate failover decommission complete : MigrationPhase

pub record ReplicaAttach : Type 0 where
  pub replica_addr : String
  pub master_id : String

pub record LegacyFacts : Type 0 where
  pub seed_addrs : List String
  pub legacy_node_ids : List String
  pub new_pod_addrs : List (String × String)

pub record FailoverAction : Type 0 where
  pub addr : String
  pub force : Bool

pub record MigrationPlan : Type 0 where
  pub phase : MigrationPhase
  pub meets : List String
  pub replicates : List ReplicaAttach
  pub failovers : List FailoverAction
  pub forgets : List String
  pub delete_legacy : Bool
  pub shards_moved : ℕ
  pub total_shards : ℕ
  pub reason : String

-- `gt.Nodes[p]`.
abbrev pub node_at : ClusterGroundTruth → String → Option ClusterNodeState
node_at gt pod = lookup pod gt.nodes

-- A slot text that does not parse is no range.
abbrev is_range : Option SlotRange → SlotRange → Bool
is_range none r = false
is_range (some s) r = s.start == r.start && s.end == r.end

unfoldable pub node_owns_range : ClusterNodeState → SlotRange → Bool
node_owns_range n r = any (λ s. is_range (parse_slot_range s) r) n.slots

unfoldable pub owner_of_range : ClusterGroundTruth → SlotRange → Option ClusterNodeState
unfolding node_owns_range
owner_of_range gt r = find_first (λ n. node_owns_range n r) (values gt.nodes)

unfoldable pub is_link_up_replica_of : Option ClusterNodeState → String → Bool
is_link_up_replica_of none master_node_id = false
is_link_up_replica_of (some rep) master_node_id =
    rep.role == role_replica && rep.master_node_id == master_node_id && rep.link_status == "up"

unfoldable pub new_master_pod_name : String → ℕ → String
new_master_pod_name name k = name +++ "-shard-" +++ itoa k +++ "-0"

unfoldable pub new_replica_pod_name : String → ℕ → ℕ → String
new_replica_pod_name name k m = name +++ "-shard-" +++ itoa k +++ "-" +++ itoa m

-- The replicas `m` to `m + n - 1`.
abbrev replica_pods : ℕ → String → ℕ → ℕ → List String
replica_pods zero name k m = []
replica_pods (suc n) name k m = new_replica_pod_name name k m ∷ replica_pods n name k (m + 1)

unfoldable pub shard_new_pods : String → ℕ → ℕ → List String
shard_new_pods name k rps = new_master_pod_name name k ∷ replica_pods rps name k 1

-- The pods of the shards `k` to `k + n - 1`.
unfoldable pub new_pods_from : ℕ → String → ℕ → ℕ → List String
new_pods_from zero name k rps = []
new_pods_from (suc n) name k rps =
    (new_master_pod_name name k ∷ replica_pods rps name k 1) ++ new_pods_from n name (k + 1) rps

unfoldable pub expected_new_pods : String → ℕ → ℕ → List String
unfolding new_pods_from
expected_new_pods name shards rps = new_pods_from shards name 0 rps

unfoldable pub all_new_pods_met : ClusterGroundTruth → String → ℕ → ℕ → Bool
all_new_pods_met gt name shards rps =
    all (λ p. is_some (node_at gt p)) (expected_new_pods name shards rps)

-- A missing address is "".
abbrev pub addr_of : List (String × String) → String → String
addr_of addrs pod = elim (lookup pod addrs) [ none ↦ "" | some a ↦ a ]

unfoldable pub missing_new_pod_meets :
    ClusterGroundTruth → String → ℕ → ℕ → List (String × String) → List String
missing_new_pod_meets gt name shards rps addrs =
    select (λ a. not (a == ""))
      (map (addr_of addrs)
        (select (λ p. not (is_some (node_at gt p))) (expected_new_pods name shards rps)))

-- The index of the first range that the text writes; `none` is -1.
index_of_range : ℕ → List SlotRange → Option SlotRange → Option ℕ
index_of_range i [] slot = none
index_of_range i (r ∷ rs) slot = if is_range slot r then some i else index_of_range (i + 1) rs slot

unfoldable pub aligned_range_index : List SlotRange → String → Option ℕ
unfolding index_of_range
aligned_range_index ranges slot = index_of_range 0 ranges (parse_slot_range slot)

abbrev pub owns_own : Option ClusterNodeState → SlotRange → Bool
owns_own none r = false
owns_own (some m) r = node_owns_range m r

unfoldable pub count_moved_from : ClusterGroundTruth → String → ℕ → List SlotRange → ℕ
count_moved_from gt name k [] = 0
count_moved_from gt name k (r ∷ rs) =
    (if owns_own (node_at gt (new_master_pod_name name k)) r then 1 else 0)
    + count_moved_from gt name (k + 1) rs

unfoldable pub count_shards_on_new_masters : ClusterGroundTruth → String → List SlotRange → ℕ
unfolding count_moved_from
count_shards_on_new_masters gt name ranges = count_moved_from gt name 0 ranges

abbrev pub owner_node_id : Option ClusterNodeState → String
owner_node_id none = ""
owner_node_id (some owner) = owner.node_id

-- What one turn of the loop of planReplicates does with a pod: nothing, where the pod is settled;
-- `unsynced = true` alone, where it waits; that and `deferred++`; or that and an attach.
pub data Turn : Type 0 where
  settled waits defers : Turn
  attaches : ReplicaAttach → Turn

abbrev pub attach_to :
    ClusterGroundTruth
    → List (String × String)
    → String
    → ClusterNodeState
    → Option ClusterNodeState
    → Turn
attach_to gt addrs pod node none = waits
attach_to gt addrs pod node (some owner) =
    if node.role == role_replica && node.master_node_id == owner.node_id
    then waits
    else if not (node_knows gt node.node_id owner.node_id)
    then defers
    else attaches (record { replica_addr = addr_of addrs pod; master_id = owner.node_id })

abbrev pub turn_of_node :
    ClusterGroundTruth
    → List (String × String)
    → SlotRange
    → Option ClusterNodeState
    → String
    → Option ClusterNodeState
    → Turn
turn_of_node gt addrs r owner pod none = settled
turn_of_node gt addrs r owner pod (some node) =
    if node_owns_range node r
    then settled
    else if is_link_up_replica_of (some node) (owner_node_id owner)
    then settled
    else attach_to gt addrs pod node owner

unfoldable pub replicate_turn :
    ClusterGroundTruth → List (String × String) → SlotRange → String → Turn
replicate_turn gt addrs r pod = turn_of_node gt addrs r (owner_of_range gt r) pod (node_at gt pod)

-- The turns of the two loops, from shard `k` on; there is one range for each shard.
unfoldable pub replicate_turns :
    ClusterGroundTruth → List (String × String) → String → ℕ → ℕ → List SlotRange → List Turn
replicate_turns gt addrs name rps k [] = []
replicate_turns gt addrs name rps k (r ∷ rs) =
    map (replicate_turn gt addrs r) (shard_new_pods name k rps)
    ++ replicate_turns gt addrs name rps (k + 1) rs

abbrev pub attaches_of : List Turn → List ReplicaAttach
attaches_of [] = []
attaches_of (attaches a ∷ ts) = a ∷ attaches_of ts
attaches_of (_ ∷ ts) = attaches_of ts

abbrev is_deferred : Turn → Bool
is_deferred defers = true
is_deferred _ = false

abbrev pub is_settled : Turn → Bool
is_settled settled = true
is_settled _ = false

-- The three results of planReplicates, read off its turns.
pub record Replicates : Type 0 where
  pub replicates : List ReplicaAttach
  pub deferred : ℕ
  pub unsynced : Bool

unfoldable pub plan_replicates :
    ClusterGroundTruth → String → ℕ → List SlotRange → List (String × String) → Replicates
plan_replicates gt name rps ranges addrs =
    let turns = replicate_turns gt addrs name rps 0 ranges in
    record {
      replicates = attaches_of turns;
      deferred = count_if is_deferred turns;
      unsynced = any (λ t. not (is_settled t)) turns;
    }

-- The lowest shard from `k` on whose new master does not own its range.
abbrev pub forced : Option ClusterNodeState → Option ClusterNodeState → Bool
forced none m0 = false
forced (some owner) m0 = not owner.reachable && is_link_up_replica_of m0 owner.node_id

unfoldable pub failover_from :
    ClusterGroundTruth
    → List (String × String)
    → String
    → ℕ
    → List SlotRange
    → Option (FailoverAction × ℕ × SlotRange)
failover_from gt addrs name k [] = none
failover_from gt addrs name k (r ∷ rs) =
    let rest = failover_from gt addrs name (k + 1) rs in
    let m0 = node_at gt (new_master_pod_name name k) in
    if owns_own m0 r
    then rest
    else some (
      record {
        addr = addr_of addrs (new_master_pod_name name k);
        force = forced (owner_of_range gt r) m0;
      },
      k,
      r,
    )

unfoldable pub next_failover :
    ClusterGroundTruth
    → String
    → List SlotRange
    → List (String × String)
    → Option (FailoverAction × ℕ × SlotRange)
unfolding failover_from
next_failover gt name ranges addrs = failover_from gt addrs name 0 ranges

unfoldable pub present_legacy_nodes : ClusterGroundTruth → List String → List ClusterNodeState
present_legacy_nodes gt legacy_ids = select (λ n. contains n.node_id legacy_ids) (values gt.nodes)

unfoldable pub present_legacy_ids_sorted : ClusterGroundTruth → List String → List String
unfolding sort_by
present_legacy_ids_sorted gt legacy_ids =
    sort_by str_ltb (map (λ n. n.node_id) (present_legacy_nodes gt legacy_ids))

unfoldable pub any_legacy_owns_slots : ClusterGroundTruth → List String → Bool
any_legacy_owns_slots gt legacy_ids =
    any (λ n. ltb 0 (length n.slots)) (present_legacy_nodes gt legacy_ids)
