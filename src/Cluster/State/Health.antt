-- ===== src/Cluster/State/Health.antt =====
-- What a healthy verdict says of the masters, and where the partition seed comes from.
use littlered.Prelude.{
  ◌≡◌, refl, ◌≢◌, ◌↔◌, ◌⊎◌, inl, inr, Bool, true, false, not, ◌&&◌, Option, none, some, List, [],
  ◌∷◌, String, ◌==◌, string_eq, nat_eq, if◌then◌else◌, arith, Bool-cases, In, subst, sym, length,
  count_if, any, select, ℕ, ◌+◌, ◌≤◌, ltb, find_first, suc,
}
use text.Mathlib.TextEquality.{eq_iff}
use littlered.Replication.State.{values, role_master}
use littlered.Cluster.State.{
  ClusterNodeState, ClusterGroundTruth, owns_slots, is_empty_master, count_masters,
  get_empty_masters, has_empty_masters, is_healthy, longest_from, seed_of,
  get_largest_partition_seed, has_partitions,
}

abbrev pub is_master : ClusterNodeState → Bool
is_master n = n.role == role_master

count_masters_split :
    (ns : List ClusterNodeState)
    → count_if is_master ns ≡ count_if owns_slots ns + length (select is_empty_master ns)
count_masters_split [] = refl
count_masters_split (n ∷ ns) = ground (arith, count_masters_split ns)

any-select :
    (ns : List ClusterNodeState)
    → (any is_empty_master ns ≡ true) ↔ (select is_empty_master ns ≢ [])
any-select [] = (λ e. absurd (cc), λ h. absurd (h refl))
any-select (n ∷ ns) = ground (arith, any-select ns)

-- HasEmptyMasters is true exactly when GetEmptyMasters returns some node.
pub has_empty_masters_iff :
    (gt : ClusterGroundTruth) → (has_empty_masters gt ≡ true) ↔ (get_empty_masters gt ≢ [])
unfolding has_empty_masters get_empty_masters
has_empty_masters_iff gt = any-select (values gt.nodes)

no_empty :
    (ns : List ClusterNodeState)
    → any is_empty_master ns ≡ false
    → length (select is_empty_master ns) ≡ 0
no_empty [] h = refl
no_empty (n ∷ ns) h = ground (arith, no_empty ns)

-- In a cluster that IsHealthy accepts, the nodes that are masters are as many as the expected
-- shards, each of them owns slots, there is at most one partition, and at
-- least the expected nodes are gathered.
pub is_healthy_masters :
    (gt : ClusterGroundTruth) (expected_nodes expected_shards : ℕ)
    → is_healthy gt expected_nodes expected_shards ≡ true
    → (count_if is_master (values gt.nodes) ≡ expected_shards)
      × ((n : ClusterNodeState) → In n (values gt.nodes) → n.role ≡ role_master → n.slots ≢ [])
      × (length gt.partitions ≤ 1)
      × (expected_nodes ≤ length gt.nodes)
unfolding is_healthy has_empty_masters count_masters has_partitions
is_healthy_masters gt en es h = (
  ground (arith, count_masters_split (values gt.nodes), no_empty (values gt.nodes)),
  λ n m r e. with_slots n (values gt.nodes) m r (ground arith) e,
  ground arith,
  ground arith,
)
  where
    with_slots :
        (n : ClusterNodeState) (ns : List ClusterNodeState)
        → In n ns
        → n.role ≡ role_master
        → any is_empty_master ns ≡ false
        → n.slots ≢ []
    with_slots n [] m r h e = elim m [ ]
    with_slots n (k ∷ ns) (inl q) r h e = absurd (ground (arith, q, e, eq_iff n.role role_master))
    with_slots n (k ∷ ns) (inr m) r h e = with_slots n ns m r (ground arith) e

longest_from_step :
    (best p : List String) (ps : List (List String))
    → longest_from best (p ∷ ps)
      ≡ longest_from (if ltb (length best) (length p) then p else best) ps
unfolding longest_from
longest_from_step best p ps = refl

longest_from_end : (best : List String) → longest_from best [] ≡ best
unfolding longest_from
longest_from_end best = refl

-- `l` is one of the partitions, and no other is longer.
abbrev Longest : List String → List (List String) → List String → Type 0
Longest best ps l =
    ((l ≡ best) ⊎ In l ps)
    × (length best ≤ length l)
    × ((q : List String) → In q ps → length q ≤ length l)

Longest-later :
    (best p l : List String) (ps : List (List String))
    → length best ≤ length p
    → Longest p ps l
    → Longest best (p ∷ ps) l
Longest-later best p l ps h (i, a, m) =
    (ground (arith, i), omega arith, λ q n. ground (arith, m q, n))

Longest-kept :
    (best p l : List String) (ps : List (List String))
    → length p ≤ length best
    → Longest best ps l
    → Longest best (p ∷ ps) l
Longest-kept best p l ps h (i, a, m) = (ground (arith, i), a, λ q n. ground (arith, m q, n))

longest_from-Longest :
    (best : List String) (ps : List (List String)) → Longest best ps (longest_from best ps)
longest_from-Longest best [] = rw (longest_from_end best) (inl refl, omega arith, λ q m. elim m [ ])
longest_from-Longest best (p ∷ ps) = elim (Bool-cases (ltb (length best) (length p))) [
  | inl longer ↦
      (let same : longest_from best (p ∷ ps) ≡ longest_from p ps =
          rw (longest_from_step best p ps, longer) refl in
        subst (Longest best (p ∷ ps)) (sym same)
          (Longest-later best p (longest_from p ps) ps (ground arith) (longest_from-Longest p ps)))
  | inr shorter ↦
      (let same : longest_from best (p ∷ ps) ≡ longest_from best ps =
          rw (longest_from_step best p ps, shorter) refl in
        subst (Longest best (p ∷ ps)) (sym same) (
          Longest-kept best p (longest_from best ps) ps (ground arith)
            (longest_from-Longest best ps)))
]

find_first_lem :
    (p : ClusterNodeState → Bool) (n : ClusterNodeState) (ns : List ClusterNodeState)
    → find_first p ns ≡ some n
    → In n ns × (p n ≡ true)
find_first_lem p n [] e = absurd (cc)
find_first_lem p n (k ∷ ns) e = ground (arith, find_first_lem p n ns)

seed_of_lem :
    (n : ClusterNodeState) (nodes : List ClusterNodeState) (p : List String)
    → seed_of nodes p ≡ some n
    → In n nodes × In n.node_id p
seed_of_lem n nodes [] e = absurd (cc)
seed_of_lem n nodes (t ∷ ts) e =
    let (m, i) = find_first_lem (λ k. k.node_id == t) n nodes e in
    (m, inl ((eq_iff n.node_id t).0 i))

-- Where partitions were gathered, the seed of GetLargestPartitionSeed is a gathered node, and it
-- is in a partition that no other one exceeds in length.
pub largest_seed :
    (gt : ClusterGroundTruth) (n : ClusterNodeState)
    → gt.partitions ≢ []
    → get_largest_partition_seed gt ≡ some n
    → In n (values gt.nodes)
      × ((p : List String) × In p gt.partitions
          × In n.node_id p
          × ((q : List String) → In q gt.partitions → length q ≤ length p))
unfolding get_largest_partition_seed
largest_seed gt n h e = by_partitions gt.partitions h e
  where
    by_partitions :
        (ps : List (List String))
        → ps ≢ []
        → (elim ps [
          | [] ↦ littlered.Prelude.head? (values gt.nodes)
          | p ∷ ps ↦ seed_of (values gt.nodes) (longest_from p ps)
        ])
          ≡ some n
        → In n (values gt.nodes)
          × ((p : List String) × In p ps
              × In n.node_id p
              × ((q : List String) → In q ps → length q ≤ length p))
    by_partitions [] h e = absurd (h refl)
    by_partitions (p ∷ ps) h e =
        let (m, i) = seed_of_lem n (values gt.nodes) (longest_from p ps) e in
        let (j, a, l) = longest_from-Longest p ps in
        (m, (longest_from p ps, ground (arith, j), i, λ q k. ground (arith, k, a, l q)))
