-- ===== src/Cluster/Reshard/Examples.antt =====
-- Two shards on one master, and an empty master.
use littlered.Prelude.{◌≡◌, refl, inl, true, List, [], ◌∷◌, String, In}
use littlered.Cluster.State.{ClusterGroundTruth}
use littlered.Cluster.Slots.{generate_slot_ranges}
use littlered.Cluster.Samples.{node, gathered}
use littlered.Replication.State.{values}
use littlered.Cluster.Reshard.{ReshardMove, plan_reshard}
use littlered.Cluster.Reshard.Moves.{IsSafeMove, plan_reshard-IsSafeMove}

abbrev crowded : ClusterGroundTruth
crowded =
    gathered (node "db-cluster-0" "L" ("0-8191" ∷ "8192-16383" ∷ []) "master" "-")
      (node "db-shard-0-0" "N" [] "master" "-")

abbrev move : ReshardMove
move = record {
  start = 8192;
  end = 16383;
  source = node "db-cluster-0" "L" ("0-8191" ∷ "8192-16383" ∷ []) "master" "-";
  dest = node "db-shard-0-0" "N" [] "master" "-";
}

one_move : plan_reshard crowded 2 ≡ move ∷ []
unfolding plan_reshard littlered.Cluster.Slots.generate_slot_ranges
    littlered.Cluster.Migration.aligned_range_index littlered.Cluster.Slots.parse_slot_range
    littlered.Prelude.Text.split littlered.Prelude.Decimal.atoi
one_move = refl

plan_reshard-IsSafeMove_example : IsSafeMove (generate_slot_ranges 2) (values crowded.nodes) move
plan_reshard-IsSafeMove_example = plan_reshard-IsSafeMove crowded 2 move (rw one_move (inl refl))
