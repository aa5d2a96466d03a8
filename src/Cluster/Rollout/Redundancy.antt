-- ===== src/Cluster/Rollout/Redundancy.antt =====
-- The planner over live objects: what holds of the gathered cluster when a partition is lowered.
use littlered.Prelude.{
  ℕ, zero, suc, ◌+◌, ◌≤◌, ◌≡◌, refl, sym, ap, ◌∙◌, subst, inl, inr, Bool, true, not, ◌&&◌, Option,
  none, some, List, [], ◌∷◌, String, arith, Bool-cases, Option-cases, In, ◌==◌, string_eq, nat_eq,
  get_elem?,
}
use littlered.Prelude.Int.{ℤ}
use mathlib.Core.Option.{some-injective}
use littlered.Replication.State.{lookup}
use littlered.Cluster.State.{ClusterNodeState, ClusterGroundTruth}
use littlered.Cluster.Slots.{SlotRange, generate_slot_ranges}
use littlered.Cluster.Migration.{is_link_up_replica_of}
use littlered.Cluster.Rollout.{
  StatefulSetView, ShardRolloutInput, ShardRolloutPod, advance, pod_at, current_partition,
  plan_shard_rollout_partition,
}
use littlered.Cluster.Rollout.Survey.{IsHandedOver}
use littlered.Cluster.Rollout.Partition.{IsRedundant, current_partition_bound, advance_iff}
use littlered.Cluster.Rollout.Owner.{
  ClusterPodRef, PodView, cluster_shard_pod_name, cluster_pod_refs, serves_slot, first_serving,
  owner_in, shard_slot_owner, gt_node, id_of, rollout_pod, rollout_pods, redis_container_ready,
  build_shard_rollout_input,
}

pod_at-In :
    (k : ℕ) (ps : List ShardRolloutPod) (p : ShardRolloutPod)
    → pod_at k ps ≡ some p
    → In p ps × (p.ordinal ≡ k)
unfolding pod_at
pod_at-In k [] p e = absurd (cc)
pod_at-In k (q ∷ ps) p e = elim (Option-cases (pod_at k ps)) [
  | inl n ↦ elim (Bool-cases (q.ordinal == k)) [
    | inl h ↦
        let same = some-injective q p (rw (n, h) at e) in
        (inl (sym same), ap (λ x. x.ordinal) (sym same) ∙ ground (arith, h))
    | inr h ↦ absurd (ground (arith, rw (n, h) at e))
  ]
  | inr (r, n) ↦ let t = pod_at-In k ps p (n ∙ (rw n at e)) in (inr t.0, t.1)
]

module _ (name : String) (shard_idx : ℕ) (pods : List (String × PodView))
    (gt : Option ClusterGroundTruth) (owner_id : String) where
  -- The pod of the planner is that of the live pod with its ordinal.
  record IsLive (p : ShardRolloutPod) : Type 0 where
    pub pod : PodView
    pub listed : lookup (cluster_shard_pod_name name shard_idx p.ordinal) pods ≡ some pod
    pub same :
        p
        ≡ rollout_pod p.ordinal pod
            (gt_node gt (cluster_shard_pod_name name shard_idx p.ordinal))
            owner_id

  abbrev live_pod : ℕ → PodView → ShardRolloutPod
  live_pod ord pod =
      rollout_pod ord pod (gt_node gt (cluster_shard_pod_name name shard_idx ord)) owner_id

  rollout_pods_found :
      (n ord : ℕ) (pod : PodView)
      → lookup (cluster_shard_pod_name name shard_idx ord) pods ≡ some pod
      → rollout_pods (suc n) name shard_idx pods gt owner_id ord
        ≡ live_pod ord pod ∷ rollout_pods n name shard_idx pods gt owner_id (ord + 1)
  unfolding rollout_pods
  rollout_pods_found n ord pod e = rw (rollout_pods, e) refl

  rollout_pods-IsLive :
      (n ord : ℕ) (p : ShardRolloutPod)
      → In p (rollout_pods n name shard_idx pods gt owner_id ord)
      → IsLive p
  unfolding rollout_pods rollout_pod
  rollout_pods-IsLive zero ord p m = elim m [ ]
  rollout_pods-IsLive (suc n) ord p m =
      elim (Option-cases (lookup (cluster_shard_pod_name name shard_idx ord) pods)) [
        | inl e ↦ rollout_pods-IsLive n (ord + 1) p (rw (In, rollout_pods, e) at m)
        | inr (pod, e) ↦ elim (subst (In p) (rollout_pods_found n ord pod e) m) as (λ _. IsLive p) [
          | inl same ↦ subst IsLive (sym same) (record { pod = pod; listed = e; same = refl })
          | inr rest ↦ rollout_pods-IsLive n (ord + 1) p rest
        ]
      ]

-- The pod is present, runs the new template, its redis container is ready, and its node is a replica of
-- the owner with the link up.
pub record IsSyncedCopy (i : ShardRolloutInput) (name : String) (shard_idx : ℕ)
    (pods : List (String × PodView)) (gt : ClusterGroundTruth) (owner : ClusterNodeState) (k : ℕ)
    : Type 0 where
  pub pod : PodView
  pub present : lookup (cluster_shard_pod_name name shard_idx k) pods ≡ some pod
  pub updated : pod.revision_label ≡ i.update_revision
  pub kubelet : redis_container_ready pod ≡ true
  pub copy :
      is_link_up_replica_of
        (lookup (cluster_shard_pod_name name shard_idx k) gt.nodes)
        owner.node_id
      ≡ true

and_right : (a b : Bool) → (a && b) ≡ true → b ≡ true
and_right a b h = ground (arith, h)

synced_copy :
    (i : ShardRolloutInput) (name : String) (shard_idx : ℕ) (pods : List (String × PodView))
    (gt : ClusterGroundTruth) (owner : ClusterNodeState) (k : ℕ)
    → i.pods ≡ rollout_pods (i.replicas_per_shard + 1) name shard_idx pods (some gt) owner.node_id 0
    → IsHandedOver i (pod_at k i.pods)
    → IsSyncedCopy i name shard_idx pods gt owner k
unfolding rollout_pod gt_node
synced_copy i name shard_idx pods gt owner k e h =
    let found = pod_at-In k i.pods h.pod h.present in
    let live =
      rollout_pods-IsLive name shard_idx pods (some gt) owner.node_id (i.replicas_per_shard + 1) 0
        h.pod (subst (In h.pod) e found.0) in
    record {
      pod = live.pod;
      present =
          subst (λ o. lookup (cluster_shard_pod_name name shard_idx o) pods ≡ some live.pod) found.1
            live.listed;
      updated = sym (ap (λ x. x.pod_revision) live.same) ∙ h.updated;
      kubelet = sym (ap (λ x. x.ready) live.same) ∙ h.kubelet;
      copy =
          subst
            (λ o.
              is_link_up_replica_of (lookup (cluster_shard_pod_name name shard_idx o) gt.nodes)
                owner.node_id
              ≡ true)
            found.1
            (and_right (not (owner.node_id == "")) _
              (sym (ap (λ x. x.synced_with_owner) live.same) ∙ h.copy));
    }

first_serving-In :
    (want : ℕ) (gt : ClusterGroundTruth) (refs : List ClusterPodRef) (n : ClusterNodeState)
    → first_serving want gt refs ≡ some n
    → (ref : ClusterPodRef) × In ref refs
      × (lookup ref.name gt.nodes ≡ some n)
      × (serves_slot want n ≡ true)
unfolding first_serving
first_serving-In want gt [] n e = absurd (cc)
first_serving-In want gt (ref ∷ refs) n e = elim (Option-cases (lookup ref.name gt.nodes)) [
  | inl f ↦
      let t = first_serving-In want gt refs n (rw (first_serving, f) at e) in
      (t.0, inr t.1, t.2, t.3)
  | inr (m, f) ↦ elim (Bool-cases (serves_slot want m)) [
    | inl h ↦
        let same = some-injective m n (rw (first_serving, f, h) at e) in
        (ref, inl refl, f ∙ ap some same, subst (λ x. serves_slot want x ≡ true) same h)
    | inr h ↦
        let t = first_serving-In want gt refs n (rw (first_serving, f, h) at e) in
        (t.0, inr t.1, t.2, t.3)
  ]
]

-- A gathered master of a pod of the instance that serves the first slot of the shard's range.
pub record IsRangeMaster (gt : ClusterGroundTruth) (name : String) (shards rps shard_idx : ℕ)
    (owner : ClusterNodeState) : Type 0 where
  pub range : SlotRange
  pub aligned : get_elem? (generate_slot_ranges shards) shard_idx ≡ some range
  pub ref : ClusterPodRef
  pub ours : In ref (cluster_pod_refs name shards rps)
  pub gathered : lookup ref.name gt.nodes ≡ some owner
  pub serving : serves_slot range.start owner ≡ true

shard_slot_owner-IsRangeMaster :
    (gt : ClusterGroundTruth) (name : String) (shards rps shard_idx : ℕ) (owner : ClusterNodeState)
    (o : Option SlotRange)
    → get_elem? (generate_slot_ranges shards) shard_idx ≡ o
    → owner_in gt name shards rps o ≡ some owner
    → IsRangeMaster gt name shards rps shard_idx owner
unfolding owner_in
shard_slot_owner-IsRangeMaster gt name shards rps shard_idx owner none e h = absurd (cc)
shard_slot_owner-IsRangeMaster gt name shards rps shard_idx owner (some r) e h =
    let t = first_serving-In r.start gt (cluster_pod_refs name shards rps) owner h in
    record { range = r; aligned = e; ref = t.0; ours = t.1; gathered = t.2; serving = t.3 }

owner_known :
    (i : ShardRolloutInput) (name : String) (shard_idx : ℕ) (pods : List (String × PodView))
    (gt : ClusterGroundTruth) (o : Option ClusterNodeState) (k : ℕ)
    → i.pods ≡ rollout_pods (i.replicas_per_shard + 1) name shard_idx pods (some gt) (id_of o) 0
    → IsHandedOver i (pod_at k i.pods)
    → (owner : ClusterNodeState) × (o ≡ some owner)
unfolding rollout_pod
owner_known i name shard_idx pods gt (some owner) k e h = (owner, refl)
owner_known i name shard_idx pods gt none k e h =
    let found = pod_at-In k i.pods h.pod h.present in
    let live =
      rollout_pods-IsLive name shard_idx pods (some gt) "" (i.replicas_per_shard + 1) 0 h.pod
        (subst (In h.pod) e found.0) in
    absurd (ground (arith, sym (ap (λ x. x.synced_with_owner) live.same) ∙ h.copy))

redundant :
    (i : ShardRolloutInput) (name : String) (shards shard_idx : ℕ) (pods : List (String × PodView))
    (gt : ClusterGroundTruth) (o : Option ClusterNodeState)
    → o
      ≡ owner_in gt name shards i.replicas_per_shard
          (get_elem? (generate_slot_ranges shards) shard_idx)
    → i.pods ≡ rollout_pods (i.replicas_per_shard + 1) name shard_idx pods (some gt) (id_of o) 0
    → IsRedundant i
    → (owner : ClusterNodeState) × IsRangeMaster gt name shards i.replicas_per_shard shard_idx owner
      × ((k : ℕ)
          → current_partition i ≤ k
          → k ≤ i.replicas_per_shard
          → IsSyncedCopy i name shard_idx pods gt owner k)
redundant i name shards shard_idx pods gt o f e r =
    let c = current_partition i in
    let b = current_partition_bound i in
    let known =
      owner_known i name shard_idx pods gt o c e (r c (ground arith) (ground (arith, b))) in
    (
      known.0,
      shard_slot_owner-IsRangeMaster gt name shards i.replicas_per_shard shard_idx known.0
          (get_elem? (generate_slot_ranges shards) shard_idx) refl (sym f ∙ known.1),
      λ k l m.
          synced_copy i name shard_idx pods gt known.0 k
            (subst
              (λ x.
                i.pods
                ≡ rollout_pods (i.replicas_per_shard + 1) name shard_idx pods (some gt) (id_of x) 0)
              known.1 e)
            (r k l (ground (arith, m))),
    )

-- Where planShardRolloutPartition lowers the partition of a shard on the input that
-- buildShardRolloutInput builds from the gathered cluster, a gathered master of the instance serves the
-- first slot of the shard's range, and for every ordinal from the applied partition to the highest, the
-- pod is present, runs the new template, has its redis container ready, and its gathered node is a
-- replica of that master with the link up.
pub advance-IsSyncedCopy :
    (name : String) (shards shard_idx rps : ℕ) (desired : String) (sts : Option StatefulSetView)
    (pods : List (String × PodView)) (gt : ClusterGroundTruth) (now : ℤ)
    → let i = build_shard_rollout_input name shards shard_idx rps desired sts pods (some gt) now in
      (plan_shard_rollout_partition i).verdict ≡ advance
      → (owner : ClusterNodeState) × IsRangeMaster gt name shards rps shard_idx owner
        × ((k : ℕ)
            → current_partition i ≤ k
            → k ≤ rps
            → IsSyncedCopy i name shard_idx pods gt owner k)
unfolding build_shard_rollout_input shard_slot_owner
advance-IsSyncedCopy name shards shard_idx rps desired sts pods gt now adv =
    let i = build_shard_rollout_input name shards shard_idx rps desired sts pods (some gt) now in
    redundant i name shards shard_idx pods gt (shard_slot_owner (some gt) name shards rps shard_idx)
      refl refl ((advance_iff i).0 adv).2
