-- ===== src/Cluster/Migration/Phases.antt =====
-- What has to hold before the migration promotes, and before it retires the legacy nodes.
use littlered.Prelude.{
  ℕ, ◌+◌, ◌≡◌, ◌⊎◌, inl, inr, sym, subst, ◌∙◌, true, false, not, Option, none, some, List, [], ◌∷◌,
  String, length, string_eq, nat_eq, any, map, arith, Option-cases, In, get_elem?, select,
}
use littlered.Prelude.{ltb}
use littlered.Prelude.Text.{str_ltb}
use littlered.Prelude.Sort.{In-of_sort_by}
use littlered.Cluster.Meets.Attribution.{contains_iff}
use littlered.Replication.State.{values, contains}
use littlered.Cluster.State.{ClusterNodeState, ClusterGroundTruth}
use littlered.Cluster.Slots.{SlotRange, generate_slot_ranges}
use littlered.Cluster.Migration.{
  MigrationPlan, FailoverAction, LegacyFacts, failover, decommission, node_at, owner_of_range,
  is_link_up_replica_of, new_master_pod_name, all_new_pods_met, plan_replicates, forced,
  next_failover, present_legacy_nodes, present_legacy_ids_sorted, any_legacy_owns_slots,
}
use littlered.Cluster.Migration.Plan.{
  plan_cluster_migration, plan_with_legacy, promote_or_retire, plan_standup_or_meet,
}
use littlered.Cluster.Migration.Synced.{AllSynced, AllSettled, unsynced-AllSettled, owned_by_member}
use littlered.Cluster.Migration.Handover.{Handed, Next, failover_from-Handed, failover_from-Next}

next_none :
    (gt : ClusterGroundTruth) (addrs : List (String × String)) (name : String)
    (ranges : List SlotRange)
    → next_failover gt name ranges addrs ≡ none
    → (k : ℕ) (r : SlotRange) → get_elem? ranges k ≡ some r
    → Handed gt name k r
unfolding next_failover
next_none gt addrs name ranges h k r e =
    let shift : 0 + k ≡ k = omega arith in
    subst (λ j. Handed gt name j r) shift (failover_from-Handed gt addrs name 0 ranges h k r e)

next_failover-Next :
    (gt : ClusterGroundTruth) (addrs : List (String × String)) (name : String)
    (ranges : List SlotRange) (f : FailoverAction) (k : ℕ) (r : SlotRange)
    → next_failover gt name ranges addrs ≡ some (f, k, r)
    → Next gt addrs name 0 ranges f k r
unfolding next_failover
next_failover-Next gt addrs name ranges f k r e = failover_from-Next gt addrs name 0 ranges f k r e

-- The range's owner is unreachable, and the new master replicates it with the link up.
pub record IsTakeover (gt : ClusterGroundTruth) (name : String) (k : ℕ) (r : SlotRange)
    : Type 0 where
  pub owner : ClusterNodeState
  pub owns : owner_of_range gt r ≡ some owner
  pub gone : owner.reachable ≡ false
  pub synced : is_link_up_replica_of (node_at gt (new_master_pod_name name k)) owner.node_id ≡ true

forced-IsTakeover :
    (gt : ClusterGroundTruth) (name : String) (k : ℕ) (r : SlotRange)
    → forced (owner_of_range gt r) (node_at gt (new_master_pod_name name k)) ≡ true
    → IsTakeover gt name k r
forced-IsTakeover gt name k r h = elim (Option-cases (owner_of_range gt r)) [
  | inl e ↦ absurd (ground (arith, h, e))
  | inr (o, e) ↦ record {
    owner = o;
    owns = e;
    gone = ground (arith, h, e);
    synced = ground (arith, h, e);
  }
]

forgets_legacy :
    (gt : ClusterGroundTruth) (ids : List String) (id : String)
    → In id (present_legacy_ids_sorted gt ids)
    → In id ids
unfolding present_legacy_ids_sorted present_legacy_nodes
forgets_legacy gt ids id m = among (values gt.nodes) (
    In-of_sort_by str_ltb id
      (map (λ n. n.node_id) (select (λ n. contains n.node_id ids) (values gt.nodes))) m)
  where
    among :
        (ns : List ClusterNodeState)
        → In id (map (λ n. n.node_id) (select (λ n. contains n.node_id ids) ns))
        → In id ids
    among [] m = elim m [ ]
    among (n ∷ ns) m = ground (arith, m, among ns, contains_iff n.node_id ids)

drained :
    (gt : ClusterGroundTruth) (ids : List String)
    → not (any_legacy_owns_slots gt ids) ≡ true
    → (n : ClusterNodeState) → In n (values gt.nodes)
    → In n.node_id ids
    → n.slots ≡ []
unfolding any_legacy_owns_slots present_legacy_nodes
drained gt ids h n m i = among (values gt.nodes) (ground (arith, h)) m
  where
    among :
        (ns : List ClusterNodeState)
        → any (λ k. ltb 0 (length k.slots)) (select (λ k. contains k.node_id ids) ns) ≡ false
        → In n ns
        → n.slots ≡ []
    among [] h m = elim m [ ]
    among (k ∷ ns) h m =
        ground (arith, h, m, i, among ns, contains_iff n.node_id ids, contains_iff k.node_id ids)

-- Where every range is handed over, none is without an owner.
handed-AllSynced :
    (gt : ClusterGroundTruth) (name : String) (rps : ℕ) (ranges : List SlotRange)
    → ((k : ℕ) (r : SlotRange) → get_elem? ranges k ≡ some r → Handed gt name k r)
    → AllSettled gt name rps ranges
    → AllSynced gt name rps ranges
handed-AllSynced gt name rps ranges handed settled k r pod node e m a =
    elim (settled k r pod node e m a) [
      | inl s ↦ s
      | inr o ↦
          let h = handed k r e in
          absurd
            (owned_by_member gt r (new_master_pod_name name k) h.node h.entry h.owner o.unowned)
    ]

module _ (gt : ClusterGroundTruth) (shards rps : ℕ) (name : String) (legacy : LegacyFacts) where
  abbrev plan : MigrationPlan
  plan = plan_cluster_migration gt shards rps name legacy

  abbrev next : Option (FailoverAction × ℕ × SlotRange)
  next = next_failover gt name (generate_slot_ranges shards) legacy.new_pod_addrs

  -- The gates that both late phases have passed.
  past_replication :
      (plan.phase ≡ failover) ⊎ (plan.phase ≡ decommission)
      → (all_new_pods_met gt name shards rps ≡ true)
        × ((plan_replicates gt name rps (generate_slot_ranges shards) legacy.new_pod_addrs).unsynced
            ≡ false)
  unfolding plan_cluster_migration plan_with_legacy plan_standup_or_meet
  past_replication h = ground (arith, h)

  at_decommission :
      plan.phase ≡ decommission
      → (next ≡ none)
        × (plan.forgets ≡ present_legacy_ids_sorted gt legacy.legacy_node_ids)
        × (plan.delete_legacy ≡ not (any_legacy_owns_slots gt legacy.legacy_node_ids))
        × (plan.failovers ≡ [])
        × (plan.replicates ≡ [])
  unfolding plan_cluster_migration plan_with_legacy plan_standup_or_meet promote_or_retire
  at_decommission h = ground (arith, h, Option-cases next)

  at_failover :
      plan.phase ≡ failover
      → (f : FailoverAction) × (k : ℕ) × (r : SlotRange) × (next ≡ some (f, k, r))
        × (plan.failovers ≡ f ∷ [])
        × (plan.forgets ≡ [])
        × (plan.delete_legacy ≡ false)
  unfolding plan_cluster_migration plan_with_legacy plan_standup_or_meet promote_or_retire
  at_failover h = elim (Option-cases next) [
    | inl e ↦ absurd (ground (arith, h, e))
    | inr ((f, k, r), e) ↦
        (f, k, r, e, ground (arith, h, e), ground (arith, h, e), ground (arith, h, e))
  ]

  -- In the Decommission phase every new pod is a member and is synced, every shard's range is
  -- owned by its new master, nothing is promoted, only ids of legacy nodes are forgotten,
  -- and the legacy StatefulSet is deleted only if no gathered legacy node owns a slot.
  pub decommission_safe :
      plan.phase ≡ decommission
      → (all_new_pods_met gt name shards rps ≡ true)
        × AllSynced gt name rps (generate_slot_ranges shards)
        × ((k : ℕ) (r : SlotRange)
            → get_elem? (generate_slot_ranges shards) k ≡ some r
            → Handed gt name k r)
        × ((id : String) → In id plan.forgets → In id legacy.legacy_node_ids)
        × (plan.delete_legacy ≡ true
            → (n : ClusterNodeState) → In n (values gt.nodes)
            → In n.node_id legacy.legacy_node_ids
            → n.slots ≡ [])
        × (plan.failovers ≡ [])
  decommission_safe h =
      let (met, synced) = past_replication (inr h) in
      let (last, forgets, deletes, still, _) = at_decommission h in
      let ranges = generate_slot_ranges shards in
      let handed = next_none gt legacy.new_pod_addrs name ranges last in
      (
        met,
        handed-AllSynced gt name rps ranges handed
            (unsynced-AllSettled gt legacy.new_pod_addrs name rps ranges synced),
        handed,
        λ id m. forgets_legacy gt legacy.legacy_node_ids id (subst (In id) forgets m),
        λ d n m i. drained gt legacy.legacy_node_ids (sym deletes ∙ d) n m i,
        still,
      )

  -- In the Failover phase every new pod is a member, and it owns the range of its shard, or follows
  -- the gathered owner of the range with the link up, or the range has no gathered owner and the pod
  -- is a replica with the link up for which no master was gathered. Exactly one new master is
  -- promoted: that of the lowest shard whose range it does not own yet; the takeover is forced
  -- only where the range has an owner that is unreachable, and the new master replicates that
  -- owner with the link up. Nothing is forgotten or deleted.
  pub failover_safe :
      plan.phase ≡ failover
      → (all_new_pods_met gt name shards rps ≡ true)
        × AllSettled gt name rps (generate_slot_ranges shards)
        × ((f : FailoverAction) × (k : ℕ) × (r : SlotRange) × Next gt legacy.new_pod_addrs name 0
              (generate_slot_ranges shards)
              f
              k
              r
            × (plan.failovers ≡ f ∷ [])
            × (f.force ≡ true → IsTakeover gt name k r))
        × (plan.forgets ≡ [])
        × (plan.delete_legacy ≡ false)
  failover_safe h =
      let (met, synced) = past_replication (inl h) in
      let (f, k, r, e, one, kept, whole) = at_failover h in
      let n =
        next_failover-Next gt legacy.new_pod_addrs name (generate_slot_ranges shards) f k r e in
      (
        met,
        unsynced-AllSettled gt legacy.new_pod_addrs name rps (generate_slot_ranges shards) synced,
        (f, k, r, n, one, λ t. forced-IsTakeover gt name k r (sym n.forcing ∙ t)),
        kept,
        whole,
      )
