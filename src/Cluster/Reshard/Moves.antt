-- ===== src/Cluster/Reshard/Moves.antt =====
-- What a planned move takes from where, and where to.
use littlered.Prelude.{
  ℕ, ◌≡◌, refl, sym, subst, inl, inr, true, Option, none, some, List, [], ◌∷◌, get_elem?, ◌==◌,
  string_eq, nat_eq, select, In, In-of_select, Bool-cases, Option-cases,
}
use littlered.Prelude.Sort.{sort_by, In-of_sort_by}
use littlered.Replication.State.{values}
use littlered.Cluster.State.{ClusterNodeState, ClusterGroundTruth}
use littlered.Cluster.Slots.{SlotRange, generate_slot_ranges}
use littlered.Cluster.Reshard.{
  ReshardMove, is_empty_target, safe_missing_shard_target, survey_owners, surpluses, by_shard,
  by_pod, pair_moves, moves_for, plan_reshard,
}
use littlered.Cluster.Reshard.Surplus.{IsSurplus, survey_owners-IsEntry, surpluses-IsSurplus}

-- The move is of a range of the source's, to the destination.
record IsPaired (ranges : List SlotRange) (ss : List (ℕ × ClusterNodeState))
    (ds : List ClusterNodeState) (m : ReshardMove) : Type 0 where
  pub index : ℕ
  pub range : SlotRange
  pub surplus : In (index, m.source) ss
  pub target : In m.dest ds
  pub aligned : get_elem? ranges index ≡ some range
  pub start : m.start ≡ range.start
  pub end : m.end ≡ range.end

pair_moves-IsPaired :
    (ranges : List SlotRange) (ss : List (ℕ × ClusterNodeState)) (ds : List ClusterNodeState)
    (m : ReshardMove)
    → In m (pair_moves ranges ss ds)
    → IsPaired ranges ss ds m
unfolding pair_moves
pair_moves-IsPaired ranges [] ds m h = elim h [ ]
pair_moves-IsPaired ranges (s ∷ ss) [] m h = elim h [ ]
pair_moves-IsPaired ranges ((i, n) ∷ ss) (d ∷ ds) m h = elim (Option-cases (get_elem? ranges i)) [
  | inl e ↦ later (pair_moves-IsPaired ranges ss ds m (rw e at h))
  | inr (r, e) ↦ elim (rw e at h) as (λ _. IsPaired ranges ((i, n) ∷ ss) (d ∷ ds) m) [
    | inl f ↦ subst (IsPaired ranges ((i, n) ∷ ss) (d ∷ ds)) (sym f) (record {
      index = i;
      range = r;
      surplus = inl refl;
      target = inl refl;
      aligned = e;
      start = refl;
      end = refl;
    })
    | inr f ↦ later (pair_moves-IsPaired ranges ss ds m f)
  ]
]
  where
    later : IsPaired ranges ss ds m → IsPaired ranges ((i, n) ∷ ss) (d ∷ ds) m
    later t = record {
      index = t.index;
      range = t.range;
      surplus = inr t.surplus;
      target = inr t.target;
      aligned = t.aligned;
      start = t.start;
      end = t.end;
    }

-- What a planned move may be.
pub record IsSafeMove (ranges : List SlotRange) (nodes : List ClusterNodeState) (m : ReshardMove)
    : Type 0 where
  pub index : ℕ
  pub range : SlotRange
  pub aligned : get_elem? ranges index ≡ some range
  pub start : m.start ≡ range.start
  pub end : m.end ≡ range.end
  pub surplus : IsSurplus ranges nodes index m.source
  pub target : In m.dest nodes
  pub empty : safe_missing_shard_target (some m.dest) ≡ true

moves_for-IsSafeMove :
    (ranges : List SlotRange) (nodes : List ClusterNodeState)
    (o : Option (List (ClusterNodeState × List ℕ))) (m : ReshardMove)
    → survey_owners ranges nodes ≡ o
    → In m (moves_for ranges o (select is_empty_target nodes))
    → IsSafeMove ranges nodes m
unfolding moves_for safe_missing_shard_target
moves_for-IsSafeMove ranges nodes none m e h = elim h [ ]
moves_for-IsSafeMove ranges nodes (some owners) m e h =
    let p =
      pair_moves-IsPaired ranges (sort_by by_shard (surpluses owners))
        (sort_by by_pod (select is_empty_target nodes)) m h in
    let dest =
      In-of_select is_empty_target m.dest nodes
        (In-of_sort_by by_pod m.dest (select is_empty_target nodes) p.target) in
    record {
      index = p.index;
      range = p.range;
      aligned = p.aligned;
      start = p.start;
      end = p.end;
      surplus =
          surpluses-IsSurplus ranges nodes owners (p.index, m.source)
            (λ entry i. survey_owners-IsEntry ranges nodes owners entry e i)
            (In-of_sort_by by_shard (p.index, m.source) (surpluses owners) p.surplus);
      target = dest.0;
      empty = dest.1;
    }

-- Each move of PlanReshard moves exactly one of the ranges of GenerateSlotRanges, from a gathered master
-- that answered, has at least two slot texts, one of which is that range, and keeps a range that is no
-- later, to a gathered master that answered and has no slots.
pub plan_reshard-IsSafeMove :
    (gt : ClusterGroundTruth) (shards : ℕ) (m : ReshardMove)
    → In m (plan_reshard gt shards)
    → IsSafeMove (generate_slot_ranges shards) (values gt.nodes) m
unfolding plan_reshard
plan_reshard-IsSafeMove gt shards m h = elim (Bool-cases (shards == 0)) [
  | inl z ↦ absurd (rw z at h)
  | inr z ↦
      moves_for-IsSafeMove (generate_slot_ranges shards) (values gt.nodes)
        (survey_owners (generate_slot_ranges shards) (values gt.nodes)) m refl (rw z at h)
]
