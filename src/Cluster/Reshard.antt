-- ===== src/Cluster/Reshard.antt =====
-- internal/redis/reshard_plan.go: the moves that give each shard a master of its own again. The
-- explanation for the log is not modelled. A master that the map ownedShards lists is one entry, in
-- the order in which the nodes are visited.
mod Surplus
mod Moves
mod Examples
use littlered.Prelude.{
  ℕ, Bool, true, false, not, ◌&&◌, ◌||◌, Option, none, some, List, [], ◌∷◌, ◌++◌, map, String,
  length, get_elem?, ◌==◌, string_eq, nat_eq, if◌then◌else◌, ltb, select,
}
use littlered.Prelude.Int.{ℤ, pos, ltb_ℤ}
use littlered.Prelude.Sort.{sort_by}
use littlered.Prelude.Text.{str_ltb}
use littlered.Replication.State.{role_master, values}
use littlered.Cluster.State.{ClusterNodeState, ClusterGroundTruth, no_slots}
use littlered.Cluster.Slots.{SlotRange, generate_slot_ranges}
use littlered.Cluster.Migration.{aligned_range_index}

pub record ReshardMove : Type 0 where
  pub start : ℕ
  pub end : ℕ
  pub source : ClusterNodeState
  pub dest : ClusterNodeState

abbrev pub is_empty_target : ClusterNodeState → Bool
is_empty_target n = n.reachable && (n.role == role_master && no_slots n)

unfoldable pub safe_missing_shard_target : Option ClusterNodeState → Bool
safe_missing_shard_target none = false
safe_missing_shard_target (some n) = is_empty_target n

unfoldable pub slots_needing_drain : List (ℕ × ℤ) → List ℕ
unfolding sort_by
slots_needing_drain counts = sort_by ltb (map (λ c. c.0) (select (λ c. ltb_ℤ (pos 0) c.1) counts))

-- The shards of a master's slots; `none` where a slot text is not one of the ranges.
abbrev pub cons_index : Option ℕ → Option (List ℕ) → Option (List ℕ)
cons_index none is = none
cons_index (some i) none = none
cons_index (some i) (some is) = some (i ∷ is)

unfoldable pub owned_shards : List SlotRange → List String → Option (List ℕ)
owned_shards ranges [] = some []
owned_shards ranges (slot ∷ slots) =
    cons_index (aligned_range_index ranges slot) (owned_shards ranges slots)

abbrev pub cons_owner :
    ClusterNodeState
    → Option (List ℕ)
    → Option (List (ClusterNodeState × List ℕ))
    → Option (List (ClusterNodeState × List ℕ))
cons_owner n none rest = none
cons_owner n (some is) none = none
cons_owner n (some is) (some rest) = some ((n, is) ∷ rest)

abbrev pub is_slot_owner : ClusterNodeState → Bool
is_slot_owner n = n.reachable && (n.role == role_master && not (no_slots n))

-- The masters with slots; `none` is the early return.
unfoldable pub survey_owners :
    List SlotRange → List ClusterNodeState → Option (List (ClusterNodeState × List ℕ))
unfolding owned_shards
survey_owners ranges [] = some []
survey_owners ranges (n ∷ ns) =
    let rest = survey_owners ranges ns in
    if is_slot_owner n then cons_owner n (owned_shards ranges n.slots) rest else rest

-- All but the lowest shard.
unfoldable pub surplus_of : ClusterNodeState → List ℕ → List (ℕ × ClusterNodeState)
surplus_of n [] = []
surplus_of n (i ∷ is) = map (λ k. (k, n)) is

unfoldable pub surpluses : List (ClusterNodeState × List ℕ) → List (ℕ × ClusterNodeState)
unfolding surplus_of sort_by
surpluses [] = []
surpluses ((n, is) ∷ owners) = surplus_of n (sort_by ltb is) ++ surpluses owners

abbrev pub by_shard : ℕ × ClusterNodeState → ℕ × ClusterNodeState → Bool
by_shard a b = ltb a.0 b.0

abbrev pub by_pod : ClusterNodeState → ClusterNodeState → Bool
by_pod a b =
    if a.pod_name == b.pod_name then str_ltb a.node_id b.node_id else str_ltb a.pod_name b.pod_name

-- An index that is out of range, at which the source would panic, adds no move.
abbrev pub cons_move :
    Option SlotRange → ClusterNodeState → ClusterNodeState → List ReshardMove → List ReshardMove
cons_move none source dest rest = rest
cons_move (some r) source dest rest =
    record { start = r.start; end = r.end; source = source; dest = dest } ∷ rest

unfoldable pub pair_moves :
    List SlotRange → List (ℕ × ClusterNodeState) → List ClusterNodeState → List ReshardMove
pair_moves ranges [] dests = []
pair_moves ranges (s ∷ ss) [] = []
pair_moves ranges ((i, source) ∷ ss) (d ∷ ds) =
    cons_move (get_elem? ranges i) source d (pair_moves ranges ss ds)

unfoldable pub moves_for :
    List SlotRange
    → Option (List (ClusterNodeState × List ℕ))
    → List ClusterNodeState
    → List ReshardMove
unfolding surpluses pair_moves sort_by
moves_for ranges none empties = []
moves_for ranges (some owners) empties =
    pair_moves ranges (sort_by by_shard (surpluses owners)) (sort_by by_pod empties)

-- The moves of the plan: there are none on each early return.
unfoldable pub plan_reshard : ClusterGroundTruth → ℕ → List ReshardMove
unfolding survey_owners moves_for
plan_reshard gt shards =
    if shards == 0
    then []
    else moves_for (generate_slot_ranges shards)
        (survey_owners (generate_slot_ranges shards) (values gt.nodes))
        (select is_empty_target (values gt.nodes))
