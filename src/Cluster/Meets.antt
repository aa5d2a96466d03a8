-- ===== src/Cluster/Meets.antt =====
-- internal/redis/cluster_state.go: the attribution of CLUSTER MEET targets and the plan that heals
-- a partition.
pub mod Attribution
pub mod Screening
mod Examples
use littlered.Prelude.{
  Bool, true, false, not, ◌&&◌, ◌||◌, Option, none, some, List, [], ◌∷◌, String, ◌==◌, string_eq,
  if◌then◌else◌, any, select, map, ◌++◌, is_some,
}
use littlered.Prelude.Int.{ℤ}
use littlered.Prelude.Text.{str_ltb}
use littlered.Prelude.Sort.{sort_by}
use littlered.Replication.State.{lookup, values, contains}
use littlered.Cluster.State.{
  ClusterNodeState, ClusterGroundTruth, view_of, get_largest_partition_seed,
}

-- A MeetVerdict; the zero value "" is `no_verdict`.
pub data MeetVerdict : Type 0 where
  member isolated no_address unidentified no_gossip_view unattributed no_verdict : MeetVerdict

abbrev pub allowed : MeetVerdict → Bool
allowed member = true
allowed isolated = true
allowed _ = false

abbrev pub is_unattributed : MeetVerdict → Bool
is_unattributed unattributed = true
is_unattributed _ = false

abbrev pub admissible_when_confirmed : MeetVerdict → Bool
admissible_when_confirmed v = allowed v || is_unattributed v

pub record MeetCandidate : Type 0 where
  pub pod_name : String
  pub pod_ip : String
  pub node_id : String
  pub identified : Bool
  pub view_known : Bool
  pub known_ids : List String
  pub slots : List String

-- The loop over `KnownIDs`; `peered` is `peers > 0`.
unfoldable pub attribute_view : String → Bool → List String → List String → MeetVerdict
attribute_view node_id peered our_ids [] = if peered then unattributed else isolated
attribute_view node_id peered our_ids (id ∷ ids) =
    let skipped = attribute_view node_id peered our_ids ids in
    let counted = attribute_view node_id true our_ids ids in
    if id == "" || id == node_id then skipped else if contains id our_ids then member else counted

unfoldable pub attribute_meet_target : MeetCandidate → List String → MeetVerdict
unfolding attribute_view
attribute_meet_target c our_ids =
    if c.pod_ip == ""
    then no_address
    else if not c.identified || c.node_id == ""
    then unidentified
    else if not c.view_known
    then no_gossip_view
    else attribute_view c.node_id false our_ids c.known_ids

-- An entry of CLUSTER NODES (cluster_client.go).
pub record ClusterNodeInfo : Type 0 where
  pub node_id : String
  pub addr : String
  pub hostname : String
  pub flags : List String
  pub master_id : String
  pub ping_sent : ℤ
  pub pong_recv : ℤ
  pub config_epoch : ℤ
  pub link_state : String
  pub slots : List String

abbrev pub node_flags_failed : List String → Bool
node_flags_failed [] = false
node_flags_failed (f ∷ fs) =
    f == "fail" || f == "noaddr" || f == "handshake" || node_flags_failed fs

-- The node id of the first entry that says `myself`.
unfoldable pub myself_id : List ClusterNodeInfo → String
myself_id [] = ""
myself_id (i ∷ view) = if contains "myself" i.flags then i.node_id else myself_id view

-- The last entry of the node gives its slots.
unfoldable pub slots_in : String → List String → List ClusterNodeInfo → List String
slots_in node_id slots [] = slots
slots_in node_id slots (i ∷ view) =
    slots_in node_id (if i.node_id == node_id then i.slots else slots) view

unfoldable pub live_ids : List ClusterNodeInfo → List String
live_ids view = map (λ i. i.node_id) (select (λ i. not (node_flags_failed i.flags)) view)

unfoldable pub meet_candidate_from_nodes :
    String → String → String → List ClusterNodeInfo → MeetCandidate
unfolding myself_id slots_in live_ids
meet_candidate_from_nodes pod_name pod_ip node_id view =
    let id = if node_id == "" then myself_id view else node_id in
    record {
      pod_name = pod_name;
      pod_ip = pod_ip;
      node_id = id;
      identified = not (id == "");
      view_known = not (id == "");
      known_ids = live_ids view;
      slots = slots_in id [] view;
    }

unfoldable pub meet_candidate : ClusterGroundTruth → ClusterNodeState → MeetCandidate
meet_candidate gt n = record {
  pod_name = n.pod_name;
  pod_ip = n.pod_ip;
  node_id = n.node_id;
  identified = n.reachable && not (n.node_id == "");
  view_known = not (n.node_id == "") && is_some (lookup n.node_id gt.known_nodes);
  known_ids = view_of gt n.node_id;
  slots = n.slots;
}

pub record MeetSkip : Type 0 where
  pub pod_name : String
  pub pod_ip : String
  pub node_id : String
  pub verdict : MeetVerdict

pub record MeetPlan : Type 0 where
  pub seed : Option ClusterNodeState
  pub seed_verdict : MeetVerdict
  pub targets : List ClusterNodeState
  pub skipped : List MeetSkip
  pub unattributed : List MeetSkip

-- `ourIDs`.
abbrev pub our_node_ids : List ClusterNodeState → List String
our_node_ids ns = map (λ n. n.node_id) (select (λ n. n.reachable && not (n.node_id == "")) ns)

abbrev pub verdict_of : ClusterGroundTruth → ClusterNodeState → MeetVerdict
verdict_of gt n = attribute_meet_target (meet_candidate gt n) (our_node_ids (values gt.nodes))

abbrev pub skip_of : ClusterGroundTruth → ClusterNodeState → MeetSkip
skip_of gt n = record {
  pod_name = n.pod_name;
  pod_ip = n.pod_ip;
  node_id = n.node_id;
  verdict = verdict_of gt n;
}

-- The body of the loop over the nodes, with what the later nodes add: an append to a slice that is
-- empty before the loop puts the nodes in the loop's order.
unfoldable pub screen :
    ClusterGroundTruth → ClusterNodeState → ClusterNodeState → MeetPlan → MeetPlan
screen gt seed n rest =
    if not (n.node_id == "") && n.node_id == seed.node_id
    then rest
    else if admissible_when_confirmed (verdict_of gt n)
    then record rest {
      targets = n ∷ rest.targets;
      unattributed =
          if not (allowed (verdict_of gt n))
          then skip_of gt n ∷ rest.unattributed
          else rest.unattributed;
    }
    else record rest { skipped = skip_of gt n ∷ rest.skipped }

-- `name` is a key of the map, so its entry is found.
unfoldable pub screen_all :
    ClusterGroundTruth → ClusterNodeState → MeetPlan → List String → MeetPlan
screen_all gt seed plan [] = plan
screen_all gt seed plan (name ∷ names) = elim (lookup name gt.nodes) [
  | none ↦ screen_all gt seed plan names
  | some n ↦ screen gt seed n (screen_all gt seed plan names)
]

abbrev pub keys {ℓ} : {V : Type ℓ} → List (String × V) → List String
keys [] = []
keys ((k, v) ∷ m) = k ∷ keys m

abbrev pub pod_names : ClusterGroundTruth → List String
pod_names gt = sort_by str_ltb (keys gt.nodes)

abbrev pub no_targets : Option ClusterNodeState → MeetVerdict → MeetPlan
no_targets seed v = record {
  seed = seed;
  seed_verdict = v;
  targets = [];
  skipped = [];
  unattributed = [];
}

unfoldable pub plan_at : ClusterGroundTruth → Option ClusterNodeState → MeetPlan
unfolding screen screen_all
plan_at gt none = no_targets none unidentified
plan_at gt (some seed) =
    let v = verdict_of gt seed in
    if not (admissible_when_confirmed v)
    then no_targets none v
    else screen_all gt seed (no_targets (some seed) v) (pod_names gt)

unfoldable pub plan_partition_meets : ClusterGroundTruth → MeetPlan
unfolding plan_at
plan_partition_meets gt = plan_at gt (get_largest_partition_seed gt)
