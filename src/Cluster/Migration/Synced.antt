-- ===== src/Cluster/Migration/Synced.antt =====
-- What planReplicates has checked where it reports no pod as unsynced.
use littlered.Prelude.{
  ℕ, zero, suc, ◌+◌, ◌≡◌, ◌≢◌, inl, inr, sym, subst, true, false, not, Option, none, some, List, [],
  ◌∷◌, String, string_eq, nat_eq, map, arith, any-In, In-map, Bool-cases, In, get_elem?,
  In-append_left, In-append_right, ◌↔◌, ◌⊎◌, Option-cases, find_first, refl,
}
use text.Mathlib.TextEquality.{eq_iff}
use littlered.Replication.State.{lookup, values, role_replica}
use littlered.Cluster.State.{ClusterNodeState, ClusterGroundTruth}
use mathlib.Core.Option.{some-injective}
use littlered.Cluster.Slots.{SlotRange}
use littlered.Cluster.Migration.{
  node_at, node_owns_range, owner_of_range, is_link_up_replica_of, shard_new_pods, owner_node_id,
  is_settled, turn_of_node, attach_to, replicate_turn, replicate_turns, plan_replicates,
}

-- The node is a replica of the node with an id, with the link up.
pub record IsFollower (node : ClusterNodeState) (id : String) : Type 0 where
  pub is_replica : node.role ≡ role_replica
  pub of_master : node.master_node_id ≡ id
  pub link : node.link_status ≡ "up"

pub IsFollower-iff :
    (node : ClusterNodeState) (id : String)
    → (is_link_up_replica_of (some node) id ≡ true) ↔ IsFollower node id
unfolding is_link_up_replica_of
IsFollower-iff node id = (
  λ h. record {
    is_replica = (eq_iff node.role role_replica).0 (ground (arith, h));
    of_master = (eq_iff node.master_node_id id).0 (ground (arith, h));
    link = (eq_iff node.link_status "up").0 (ground (arith, h));
  },
  λ f.
      rw
        (
          (eq_iff node.role role_replica).1 f.is_replica,
          (eq_iff node.master_node_id id).1 f.of_master,
          (eq_iff node.link_status "up").1 f.link,
        )
        refl,
)

-- The pod either owns the range, or replicates the gathered owner of it with the link up.
pub data Synced (gt : ClusterGroundTruth) (r : SlotRange) (node : ClusterNodeState) : Type 0 where
  owns : node_owns_range node r ≡ true → Synced gt r node
  follows :
      (owner : ClusterNodeState)
      → owner_of_range gt r ≡ some owner
      → IsFollower node owner.node_id
      → Synced gt r node

-- No gathered node owns the range, and the pod is a replica with the link up for which no master
-- was gathered.
pub record IsOrphan (gt : ClusterGroundTruth) (r : SlotRange) (node : ClusterNodeState)
    : Type 0 where
  pub unowned : owner_of_range gt r ≡ none
  pub masterless : IsFollower node ""

settled-Synced :
    (gt : ClusterGroundTruth) (addrs : List (String × String)) (r : SlotRange) (pod : String)
    (node : ClusterNodeState)
    → is_settled (turn_of_node gt addrs r (owner_of_range gt r) pod (some node)) ≡ true
    → Synced gt r node ⊎ IsOrphan gt r node
settled-Synced gt addrs r pod node h = elim (Bool-cases (node_owns_range node r)) [
  | inl o ↦ inl (owns o)
  | inr n ↦
      elim (Bool-cases (is_link_up_replica_of (some node) (owner_node_id (owner_of_range gt r)))) [
        | inl f ↦ following (Option-cases (owner_of_range gt r)) f
        | inr g ↦ absurd (unsettled (owner_of_range gt r) (rw (n, g) at h))
      ]
]
  where
    unsettled : (o : Option ClusterNodeState) → is_settled (attach_to gt addrs pod node o) ≢ true
    unsettled none e = ground arith
    unsettled (some o) e = ground arith

    following :
        (owner_of_range gt r ≡ none) ⊎ ((o : ClusterNodeState) × (owner_of_range gt r ≡ some o))
        → is_link_up_replica_of (some node) (owner_node_id (owner_of_range gt r)) ≡ true
        → Synced gt r node ⊎ IsOrphan gt r node
    following (inl e) f =
        inr (record { unowned = e; masterless = (IsFollower-iff node "").0 (rw e at f) })
    following (inr (o, e)) f = inl (follows o e ((IsFollower-iff node o.node_id).0 (rw e at f)))

turn-In :
    (gt : ClusterGroundTruth) (addrs : List (String × String)) (name : String) (rps k i : ℕ)
    (rs : List SlotRange) (r : SlotRange) (pod : String)
    → get_elem? rs i ≡ some r
    → In pod (shard_new_pods name (k + i) rps)
    → In (replicate_turn gt addrs r pod) (replicate_turns gt addrs name rps k rs)
unfolding replicate_turns
turn-In gt addrs name rps k i [] r pod e m = absurd (cc)
turn-In gt addrs name rps k zero (q ∷ rs) r pod e m = In-append_left _ _ _ (
    subst
      (λ s.
        In (replicate_turn gt addrs r pod)
          (map (replicate_turn gt addrs s) (shard_new_pods name k rps)))
      (sym (some-injective _ _ e))
      (In-map (replicate_turn gt addrs r) pod (shard_new_pods name k rps)
        (subst (λ j. In pod (shard_new_pods name j rps)) same m)))
  where
    same : k + 0 ≡ k
    same = omega arith
turn-In gt addrs name rps k (suc i) (q ∷ rs) r pod e m =
    let shift : k + suc i ≡ (k + 1) + i = omega arith in
    In-append_right _ _ _ (
      turn-In gt addrs name rps (k + 1) i rs r pod e
        (subst (λ j. In pod (shard_new_pods name j rps)) shift m))

-- Every new pod of shard `k`, whose range is `r`, that is a member.
abbrev pub EachMember :
    ClusterGroundTruth
    → String
    → ℕ
    → List SlotRange
    → (SlotRange → ClusterNodeState → Type 0)
    → Type 0
EachMember gt name rps ranges P =
    (k : ℕ) (r : SlotRange) (pod : String) (node : ClusterNodeState)
    → get_elem? ranges k ≡ some r
    → In pod (shard_new_pods name k rps)
    → node_at gt pod ≡ some node
    → P r node

-- Every new pod that is a member is synced for its shard.
abbrev pub AllSynced : ClusterGroundTruth → String → ℕ → List SlotRange → Type 0
AllSynced gt name rps ranges = EachMember gt name rps ranges (Synced gt)

-- The same, but for the orphans of ranges that have no owner.
abbrev pub AllSettled : ClusterGroundTruth → String → ℕ → List SlotRange → Type 0
AllSettled gt name rps ranges =
    EachMember gt name rps ranges (λ r node. Synced gt r node ⊎ IsOrphan gt r node)

settles :
    (gt : ClusterGroundTruth) (addrs : List (String × String)) (r : SlotRange) (pod : String)
    → not (is_settled (replicate_turn gt addrs r pod)) ≡ false
    → is_settled (turn_of_node gt addrs r (owner_of_range gt r) pod (node_at gt pod)) ≡ true
unfolding replicate_turn
settles gt addrs r pod h = ground arith

pub unsynced-AllSettled :
    (gt : ClusterGroundTruth) (addrs : List (String × String)) (name : String) (rps : ℕ)
    (ranges : List SlotRange)
    → (plan_replicates gt name rps ranges addrs).unsynced ≡ false
    → AllSettled gt name rps ranges
unfolding plan_replicates
unsynced-AllSettled gt addrs name rps ranges h k r pod node e m a =
    settled-Synced gt addrs r pod node (
      subst (λ o. is_settled (turn_of_node gt addrs r (owner_of_range gt r) pod o) ≡ true) a
        (settles gt addrs r pod (
          any-In (λ t. not (is_settled t)) (replicate_turns gt addrs name rps 0 ranges)
            (replicate_turn gt addrs r pod) h
            (turn-In gt addrs name rps 0 k ranges r pod e
              (subst (λ j. In pod (shard_new_pods name j rps)) from_zero m)))))
  where
    from_zero : k ≡ 0 + k
    from_zero = omega arith

In-values :
    {V : Type 0} (k : String) (m : List (String × V)) (v : V)
    → lookup k m ≡ some v
    → In v (values m)
unfolding lookup
In-values k [] v e = absurd (cc)
In-values k ((j, w) ∷ m) v e = ground (arith, e, In-values k m v)

-- A range that a member owns is not without an owner.
pub owned_by_member :
    (gt : ClusterGroundTruth) (r : SlotRange) (pod : String) (node : ClusterNodeState)
    → node_at gt pod ≡ some node
    → node_owns_range node r ≡ true
    → owner_of_range gt r ≢ none
unfolding owner_of_range
owned_by_member gt r pod node e o u = among (values gt.nodes) (In-values pod gt.nodes node e) u
  where
    among :
        (ns : List ClusterNodeState) → In node ns → find_first (λ n. node_owns_range n r) ns ≢ none
    among [] m e = elim m [ ]
    among (n ∷ ns) m e = ground (arith, m, e, o, among ns)
