-- ===== src/Cluster/Samples.antt =====
-- A legacy cluster of one shard, before and after its new master takes the range over.
use littlered.Prelude.{true, false, List, [], ◌∷◌, String}
use littlered.Prelude.Int.{pos}
use littlered.Replication.State.{ProbeFailure}
use littlered.Cluster.State.{ClusterNodeState, ClusterGroundTruth}
use littlered.Cluster.Migration.{LegacyFacts}

abbrev pub node : String → String → List String → String → String → ClusterNodeState
node pod id slots role master = record {
  pod_name = pod;
  pod_ip = "10.0.0.1";
  node_id = id;
  slots = slots;
  role = role;
  master_node_id = master;
  link_status = "up";
  reachable = true;
  probe_failure = ProbeFailure.ok;
  probe_error = "";
}

abbrev pub gathered : ClusterNodeState → ClusterNodeState → ClusterGroundTruth
gathered legacy new = record {
  nodes = ("db-cluster-0", legacy) ∷ ("db-shard-0-0", new) ∷ [];
  partitions = ("L" ∷ "N" ∷ []) ∷ [];
  ghost_nodes = [];
  cluster_state = "ok";
  total_slots = pos 16384;
  all_node_ids = "L" ∷ "N" ∷ [];
  known_nodes = ("L", "L" ∷ "N" ∷ []) ∷ ("N", "L" ∷ "N" ∷ []) ∷ [];
  atomic_slot_migration = false;
}

abbrev pub facts : LegacyFacts
facts = record {
  seed_addrs = "10.0.0.1:6379" ∷ [];
  legacy_node_ids = "L" ∷ [];
  new_pod_addrs = ("db-shard-0-0", "10.0.0.2:6379") ∷ [];
}

abbrev pub before : ClusterGroundTruth
before =
    gathered (node "db-cluster-0" "L" ("0-16383" ∷ []) "master" "-")
      (node "db-shard-0-0" "N" [] "replica" "L")

abbrev pub after : ClusterGroundTruth
after =
    gathered (node "db-cluster-0" "L" [] "replica" "N")
      (node "db-shard-0-0" "N" ("0-16383" ∷ []) "master" "-")

-- The legacy owner has lost the range, and the new pod has no gathered master.
abbrev pub unowned : ClusterGroundTruth
unowned =
    gathered (node "db-cluster-0" "L" [] "master" "-") (node "db-shard-0-0" "N" [] "replica" "")
