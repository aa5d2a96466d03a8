-- ===== src/Cluster/Meets/Examples.antt =====
-- The meets and the health of a cluster of two nodes.
use littlered.Prelude.{
  ◌≡◌, refl, ◌≢◌, ◌↔◌, true, some, [], ◌∷◌, String, In, arith, length, ◌≤◌, count_if,
}
use littlered.Prelude.Sort.{sort_by}
use littlered.Replication.State.{lookup, values, role_master}
use littlered.Cluster.State.{
  ClusterNodeState, is_healthy, count_masters, has_empty_masters, has_partitions,
  get_largest_partition_seed,
}
use littlered.Cluster.State.Health.{is_healthy_masters, is_master}
use littlered.Cluster.Meets.{
  plan_partition_meets, plan_at, screen_all, screen, attribute_meet_target, meet_candidate, member,
  isolated, unattributed, MeetCandidate,
}
use littlered.Cluster.Meets.Attribution.{attribute-Answered, KnowsOurs, Peer, Answered}
use littlered.Cluster.Meets.Screening.{plan_partition_meets-Screened, Screened}
use text.Mathlib.TextEquality.{eq_iff}
use littlered.Cluster.Samples.{node, after}

after_healthy : is_healthy after 2 1 ≡ true
unfolding is_healthy count_masters has_empty_masters has_partitions
after_healthy = refl

is_healthy_masters_example :
    (count_if is_master (values after.nodes) ≡ 1)
    × ((n : ClusterNodeState) → In n (values after.nodes) → n.role ≡ role_master → n.slots ≢ [])
    × (length after.partitions ≤ 1)
    × (2 ≤ length after.nodes)
is_healthy_masters_example = is_healthy_masters after 2 1 after_healthy

abbrev seed : ClusterNodeState
seed = node "db-cluster-0" "L" [] "replica" "N"

seeds_first : get_largest_partition_seed after ≡ some seed
unfolding get_largest_partition_seed
seeds_first = refl

partitioned : after.partitions ≢ []
partitioned e = absurd (ground arith)

-- A node that names a peer, which is not ours.
abbrev stranger : MeetCandidate
stranger = record {
  pod_name = "db-cluster-1";
  pod_ip = "10.0.0.7";
  node_id = "X";
  identified = true;
  view_known = true;
  known_ids = "X" ∷ "Y" ∷ [];
  slots = [];
}

stranger_unattributed : attribute_meet_target stranger ("L" ∷ "N" ∷ []) ≡ unattributed
unfolding attribute_meet_target
stranger_unattributed = refl

stranger-Answered : Answered stranger
stranger-Answered = record {
  address = ground (arith, eq_iff "10.0.0.7" "");
  identified = refl;
  known = ground (arith, eq_iff "X" "");
  viewed = refl;
}

attribute-Answered_example :
    ((attribute_meet_target stranger ("L" ∷ "N" ∷ []) ≡ member)
      ↔ KnowsOurs stranger ("L" ∷ "N" ∷ []))
    × ((attribute_meet_target stranger ("L" ∷ "N" ∷ []) ≡ isolated)
        ↔ ((id : String) → ¬ Peer stranger id))
    × ((attribute_meet_target stranger ("L" ∷ "N" ∷ []) ≡ unattributed)
        ↔ (((id : String) × Peer stranger id) × ¬ KnowsOurs stranger ("L" ∷ "N" ∷ [])))
attribute-Answered_example = attribute-Answered stranger ("L" ∷ "N" ∷ []) stranger-Answered

meets_at_first : (plan_partition_meets after).seed ≡ some seed
unfolding plan_partition_meets plan_at get_largest_partition_seed attribute_meet_target
    meet_candidate lookup screen screen_all sort_by
meets_at_first = refl

plan_partition_meets-Screened_example : Screened after seed (plan_partition_meets after)
plan_partition_meets-Screened_example = plan_partition_meets-Screened after seed meets_at_first
