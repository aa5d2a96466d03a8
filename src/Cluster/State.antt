-- ===== src/Cluster/State.antt =====
-- internal/redis/cluster_state.go: the gathered state of a Redis Cluster, and the questions that
-- the reconcile steps ask of it.
-- A Go map is the list of its entries, in the order in which `range` visits them; a pointer in a
-- map is the record that it points to, and no map here holds a nil pointer. A set is a list.
pub mod Health
use littlered.Prelude.{
  ℕ, zero, suc, ◌+◌, Bool, true, false, not, ◌&&◌, ◌||◌, Option, none, some, List, [], ◌∷◌, String,
  length, ltb, ◌==◌, string_eq, nat_eq, if◌then◌else◌, select, any, count_if, find_first, head?,
  ◌++◌, leb,
}
use littlered.Prelude.Int.{ℤ, pos, ltb_ℤ, beq_ℤ}
use littlered.Prelude.Sort.{by, sort_by}
use littlered.Replication.State.{
  ProbeFailure, is_auth_failed, lookup, values, contains, role_master, role_replica,
}

pub record ClusterNodeState : Type 0 where
  pub pod_name : String
  pub pod_ip : String
  pub node_id : String
  pub slots : List String
  pub role : String
  pub master_node_id : String
  pub link_status : String
  pub reachable : Bool
  pub probe_failure : ProbeFailure
  pub probe_error : String

pub record ClusterGroundTruth : Type 0 where
  pub nodes : List (String × ClusterNodeState)
  pub partitions : List (List String)
  pub ghost_nodes : List String
  pub cluster_state : String
  pub total_slots : ℤ
  pub all_node_ids : List String
  pub known_nodes : List (String × List String)
  pub atomic_slot_migration : Bool

unfoldable pub new_cluster_ground_truth : ClusterGroundTruth
new_cluster_ground_truth = record {
  nodes = [];
  partitions = [];
  ghost_nodes = [];
  cluster_state = "";
  total_slots = pos 0;
  all_node_ids = [];
  known_nodes = [];
  atomic_slot_migration = false;
}

abbrev pub no_slots : ClusterNodeState → Bool
no_slots n = length n.slots == 0

unfoldable pub auth_failed_nodes : ClusterGroundTruth → List ClusterNodeState
unfolding sort_by
auth_failed_nodes gt =
    sort_by (by (λ n. n.pod_name))
      (select (λ n. not n.reachable && is_auth_failed n.probe_failure) (values gt.nodes))

unfoldable pub has_partitions : ClusterGroundTruth → Bool
has_partitions gt = ltb 1 (length gt.partitions)

unfoldable pub has_ghost_nodes : ClusterGroundTruth → Bool
has_ghost_nodes gt = ltb 0 (length gt.ghost_nodes)

unfoldable pub has_orphaned_slots : ClusterGroundTruth → Bool
has_orphaned_slots gt = ltb_ℤ gt.total_slots (pos 16384)

abbrev pub owns_slots : ClusterNodeState → Bool
owns_slots n = n.role == role_master && not (no_slots n)

abbrev pub is_empty_master : ClusterNodeState → Bool
is_empty_master n = n.role == role_master && no_slots n

unfoldable pub count_masters : ClusterGroundTruth → ℕ
count_masters gt = count_if owns_slots (values gt.nodes)

unfoldable pub get_empty_masters : ClusterGroundTruth → List ClusterNodeState
get_empty_masters gt = select is_empty_master (values gt.nodes)

unfoldable pub has_empty_masters : ClusterGroundTruth → Bool
has_empty_masters gt = any is_empty_master (values gt.nodes)

unfoldable pub is_healthy : ClusterGroundTruth → ℕ → ℕ → Bool
unfolding has_partitions count_masters has_empty_masters
is_healthy gt expected_nodes expected_shards =
    if ltb (length gt.nodes) expected_nodes
    then false
    else if not (length gt.all_node_ids == expected_nodes)
    then false
    else if has_partitions gt
    then false
    else if not (count_masters gt == expected_shards)
    then false
    else if has_empty_masters gt
    then false
    else gt.cluster_state == "ok" && beq_ℤ gt.total_slots (pos 16384)

-- The loop for `maxIdx`, with the longest partition so far: a later one has to be longer.
unfoldable pub longest_from : List String → List (List String) → List String
longest_from best [] = best
longest_from best (p ∷ ps) = longest_from (if ltb (length best) (length p) then p else best) ps

-- The node that the partition's first id names. On an empty partition the source would panic; the
-- gather builds none, and it is `none` here.
abbrev pub seed_of : List ClusterNodeState → List String → Option ClusterNodeState
seed_of nodes [] = none
seed_of nodes (target_id ∷ _) = find_first (λ n. n.node_id == target_id) nodes

-- The source starts at index 0 and length 0.
unfoldable pub get_largest_partition_seed : ClusterGroundTruth → Option ClusterNodeState
unfolding longest_from
get_largest_partition_seed gt = elim gt.partitions [
  | [] ↦ head? (values gt.nodes)
  | p ∷ ps ↦ seed_of (values gt.nodes) (longest_from p ps)
]

-- A missing entry of the map is the empty view.
abbrev pub view_of : ClusterGroundTruth → String → List String
view_of gt id = elim (lookup id gt.known_nodes) [ none ↦ [] | some view ↦ view ]

unfoldable pub node_knows : ClusterGroundTruth → String → String → Bool
node_knows gt observer_id target_id = contains target_id (view_of gt observer_id)

-- `m[id] = append(m[id], node)`.
unfoldable pub append_at :
    String → String → List (String × List String) → List (String × List String)
append_at id node [] = (id, node ∷ []) ∷ []
append_at id node ((j, nodes) ∷ m) =
    if j == id then (j, nodes ++ (node ∷ [])) ∷ m else (j, nodes) ∷ append_at id node m

abbrev pub replicas_from :
    List ClusterNodeState → List (String × List String) → List (String × List String)
replicas_from [] m = m
replicas_from (n ∷ ns) m = replicas_from ns (
    if n.role == role_replica && not (n.master_node_id == "-")
    then append_at n.master_node_id n.node_id m
    else m)

unfoldable pub get_masters_with_replicas : ClusterGroundTruth → List (String × List String)
unfolding append_at
get_masters_with_replicas gt = replicas_from (values gt.nodes) []
