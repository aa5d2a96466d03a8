-- ===== src/Cluster/Rollout/Owner.antt =====
-- internal/controller/cluster_rollout.go and cluster_topology.go: the pods of the shards, the owner of a
-- shard's slots, and the input of the partition planner from live objects.
use Prim.Native.String.{◌++◌ as ◌+++◌}
use littlered.Prelude.{
  ℕ, zero, suc, ◌+◌, Bool, false, not, ◌&&◌, Option, none, some, List, [], ◌∷◌, ◌++◌, String, ◌==◌,
  string_eq, nat_eq, if◌then◌else◌, leb, any, get_elem?,
}
use littlered.Prelude.Int.{ℤ, pos}
use littlered.Prelude.Decimal.{itoa}
use littlered.Replication.State.{lookup, role_master, role_replica}
use littlered.Cluster.State.{ClusterNodeState, ClusterGroundTruth}
use littlered.Cluster.Slots.{SlotRange, generate_slot_ranges, parse_slot_range}
use littlered.Cluster.Migration.{is_link_up_replica_of}
use littlered.Cluster.Rollout.{StatefulSetView, ShardRolloutInput, ShardRolloutPod}

pub record ClusterPodRef : Type 0 where
  pub name : String
  pub shard_idx : ℕ
  pub ordinal : ℕ
  pub is_master : Bool

unfoldable pub cluster_shard_pod_name : String → ℕ → ℕ → String
cluster_shard_pod_name name shard_idx ordinal =
    name +++ "-shard-" +++ itoa shard_idx +++ "-" +++ itoa ordinal

-- The `n` ordinals from `ordinal` on.
unfoldable pub shard_refs : ℕ → String → ℕ → ℕ → List ClusterPodRef
unfolding cluster_shard_pod_name
shard_refs zero name shard_idx ordinal = []
shard_refs (suc n) name shard_idx ordinal =
    record {
      name = cluster_shard_pod_name name shard_idx ordinal;
      shard_idx = shard_idx;
      ordinal = ordinal;
      is_master = ordinal == 0;
    }
    ∷ shard_refs n name shard_idx (ordinal + 1)

-- The `n` shards from `shard_idx` on.
unfoldable pub refs_from : ℕ → String → ℕ → ℕ → List ClusterPodRef
unfolding shard_refs
refs_from zero name shard_idx rps = []
refs_from (suc n) name shard_idx rps =
    shard_refs (rps + 1) name shard_idx 0 ++ refs_from n name (shard_idx + 1) rps

unfoldable pub cluster_pod_refs : String → ℕ → ℕ → List ClusterPodRef
unfolding refs_from
cluster_pod_refs name shards rps = refs_from shards name 0 rps

-- A text that does not parse covers nothing.
abbrev pub covers : ℕ → Option SlotRange → Bool
covers want none = false
covers want (some r) = leb r.start want && leb want r.end

unfoldable pub serves_slot : ℕ → ClusterNodeState → Bool
unfolding parse_slot_range
serves_slot want n = n.role == role_master && any (λ s. covers want (parse_slot_range s)) n.slots

unfoldable pub first_serving : ℕ → ClusterGroundTruth → List ClusterPodRef → Option ClusterNodeState
unfolding serves_slot
first_serving want gt [] = none
first_serving want gt (ref ∷ refs) =
    let rest = first_serving want gt refs in
    elim (lookup ref.name gt.nodes) [
      | none ↦ rest
      | some n ↦ if serves_slot want n then some n else rest
    ]

-- An index that is out of range has no owner.
unfoldable pub owner_in :
    ClusterGroundTruth → String → ℕ → ℕ → Option SlotRange → Option ClusterNodeState
unfolding first_serving
owner_in gt name shards rps none = none
owner_in gt name shards rps (some r) = first_serving r.start gt (cluster_pod_refs name shards rps)

unfoldable pub shard_slot_owner :
    Option ClusterGroundTruth → String → ℕ → ℕ → ℕ → Option ClusterNodeState
unfolding owner_in generate_slot_ranges
shard_slot_owner none name shards rps shard_idx = none
shard_slot_owner (some gt) name shards rps shard_idx =
    owner_in gt name shards rps (get_elem? (generate_slot_ranges shards) shard_idx)

-- What is read of a pod: a label that is missing is "", and a time that is zero is `none`.
pub record PodView : Type 0 where
  pub revision_label : String
  pub containers : List (String × Bool)
  pub conditions : List (String × Option ℤ)

abbrev component_redis : String
component_redis = "redis"

abbrev or_false : Option Bool → Bool
or_false none = false
or_false (some b) = b

-- The first container of that name.
unfoldable pub redis_container_ready : PodView → Bool
unfolding lookup
redis_container_ready pod = or_false (lookup component_redis pod.containers)

abbrev flat : Option (Option ℤ) → Option ℤ
flat none = none
flat (some t) = t

unfoldable pub gt_node : Option ClusterGroundTruth → String → Option ClusterNodeState
gt_node none pod = none
gt_node (some gt) pod = lookup pod gt.nodes

abbrev pub id_of : Option ClusterNodeState → String
id_of none = ""
id_of (some owner) = owner.node_id

abbrev pub attached : String → Option ClusterNodeState → Bool
attached owner_id none = false
attached owner_id (some n) = n.role == role_replica && n.master_node_id == owner_id

abbrev pub is_node : String → Option ClusterNodeState → Bool
is_node owner_id none = false
is_node owner_id (some n) = n.node_id == owner_id

unfoldable pub rollout_pod : ℕ → PodView → Option ClusterNodeState → String → ShardRolloutPod
unfolding redis_container_ready
rollout_pod ord pod node owner_id =
    let known = not (owner_id == "") in
    record {
      ordinal = ord;
      pod_revision = pod.revision_label;
      ready = redis_container_ready pod;
      ready_since = flat (lookup "Ready" pod.conditions);
      attached_to_owner = known && attached owner_id node;
      synced_with_owner = known && is_link_up_replica_of node owner_id;
      is_owner = known && is_node owner_id node;
    }

-- The `n` ordinals from `ord` on, less those that have no pod.
unfoldable pub rollout_pods :
    ℕ
    → String
    → ℕ
    → List (String × PodView)
    → Option ClusterGroundTruth
    → String
    → ℕ
    → List ShardRolloutPod
unfolding rollout_pod gt_node
rollout_pods zero name shard_idx pods gt owner_id ord = []
rollout_pods (suc n) name shard_idx pods gt owner_id ord =
    let rest = rollout_pods n name shard_idx pods gt owner_id (ord + 1) in
    let pod_name = cluster_shard_pod_name name shard_idx ord in
    elim (lookup pod_name pods) [
      | none ↦ rest
      | some pod ↦ rollout_pod ord pod (gt_node gt pod_name) owner_id ∷ rest
    ]

-- Without a StatefulSet the fields have Go's zero values.
abbrev absent : StatefulSetView
absent = record {
  generation = pos 0;
  observed_generation = pos 0;
  update_revision = "";
  current_revision = "";
  spec_replicas = none;
  updated_replicas = pos 0;
  ready_replicas = pos 0;
  replicas = pos 0;
  pod_spec_hash = "";
  partition = none;
}

abbrev or_absent : Option StatefulSetView → StatefulSetView
or_absent none = absent
or_absent (some sts) = sts

-- The name and the count of shards are those of the LittleRed.
unfoldable pub build_shard_rollout_input :
    String
    → ℕ
    → ℕ
    → ℕ
    → String
    → Option StatefulSetView
    → List (String × PodView)
    → Option ClusterGroundTruth
    → ℤ
    → ShardRolloutInput
unfolding shard_slot_owner rollout_pods
build_shard_rollout_input name shards shard_idx rps desired_hash sts pods gt now =
    let view = or_absent sts in
    record {
      shard_idx = shard_idx;
      replicas_per_shard = rps;
      desired_hash = desired_hash;
      applied_hash = view.pod_spec_hash;
      generation = view.generation;
      observed_generation = view.observed_generation;
      update_revision = view.update_revision;
      current_revision = view.current_revision;
      applied_partition = view.partition;
      pods =
          rollout_pods (rps + 1) name shard_idx pods gt
            (id_of (shard_slot_owner gt name shards rps shard_idx)) 0;
      now = now;
    }
