-- ===== src/Cluster/Migration/Handover.antt =====
-- Which shards are handed over to their new masters, and which one is next.
use littlered.Prelude.{
  ℕ, zero, suc, ◌+◌, ◌<◌, ◌≡◌, refl, ◌⊎◌, inl, inr, sym, subst, ◌∙◌, ap, true, false, none, some,
  List, [], ◌∷◌, String, string_eq, nat_eq, arith, Bool-cases, Option-cases, get_elem?,
}
use littlered.Cluster.State.{ClusterNodeState, ClusterGroundTruth}
use mathlib.Core.Option.{some-injective}
use littlered.Cluster.Slots.{SlotRange}
use littlered.Cluster.Migration.{
  FailoverAction, node_at, node_owns_range, owner_of_range, new_master_pod_name, forced,
  failover_from, addr_of, owns_own,
}

-- The new master of the shard is a member that owns the range.
pub record Handed (gt : ClusterGroundTruth) (name : String) (k : ℕ) (r : SlotRange) : Type 0 where
  pub node : ClusterNodeState
  pub entry : node_at gt (new_master_pod_name name k) ≡ some node
  pub owner : node_owns_range node r ≡ true

owns_own-Handed :
    (gt : ClusterGroundTruth) (name : String) (k : ℕ) (r : SlotRange)
    → owns_own (node_at gt (new_master_pod_name name k)) r ≡ true
    → Handed gt name k r
owns_own-Handed gt name k r h = by_entry (Option-cases (node_at gt (new_master_pod_name name k)))
  where
    by_entry :
        (node_at gt (new_master_pod_name name k) ≡ none)
          ⊎ ((n : ClusterNodeState) × (node_at gt (new_master_pod_name name k) ≡ some n))
        → Handed gt name k r
    by_entry (inl e) = absurd (ground (arith, subst (λ o. owns_own o r ≡ true) e h))
    by_entry (inr (n, e)) = record {
      node = n;
      entry = e;
      owner = subst (λ o. owns_own o r ≡ true) e h;
    }

-- The shard that is promoted next: those below it are handed over, and it is not.
pub record Next (gt : ClusterGroundTruth) (addrs : List (String × String)) (name : String) (k₀ : ℕ)
    (rs : List SlotRange) (f : FailoverAction) (k : ℕ) (r : SlotRange) : Type 0 where
  pub index : ℕ
  pub shard : k ≡ k₀ + index
  pub range : get_elem? rs index ≡ some r
  pub pending : owns_own (node_at gt (new_master_pod_name name k)) r ≡ false
  pub before :
      (i : ℕ) (q : SlotRange) → i < index → get_elem? rs i ≡ some q → Handed gt name (k₀ + i) q
  pub addressed : f.addr ≡ addr_of addrs (new_master_pod_name name k)
  pub forcing : f.force ≡ forced (owner_of_range gt r) (node_at gt (new_master_pod_name name k))

failover_from_cons :
    (gt : ClusterGroundTruth) (addrs : List (String × String)) (name : String) (k : ℕ)
    (q : SlotRange) (rs : List SlotRange)
    → failover_from gt addrs name k (q ∷ rs) ≡ none
    → (owns_own (node_at gt (new_master_pod_name name k)) q ≡ true)
      × (failover_from gt addrs name (k + 1) rs ≡ none)
unfolding failover_from
failover_from_cons gt addrs name k q rs h = ground arith

pub failover_from-Handed :
    (gt : ClusterGroundTruth) (addrs : List (String × String)) (name : String) (k : ℕ)
    (rs : List SlotRange)
    → failover_from gt addrs name k rs ≡ none
    → (i : ℕ) (r : SlotRange) → get_elem? rs i ≡ some r
    → Handed gt name (k + i) r
failover_from-Handed gt addrs name k [] h i r e = absurd (cc)
failover_from-Handed gt addrs name k (q ∷ rs) h zero r e =
    let shift : k ≡ k + 0 = omega arith in
    subst (λ j. Handed gt name j r) shift
      (subst (Handed gt name k) (some-injective _ _ e)
        (owns_own-Handed gt name k q (failover_from_cons gt addrs name k q rs h).0))
failover_from-Handed gt addrs name k (q ∷ rs) h (suc i) r e =
    let shift : (k + 1) + i ≡ k + suc i = omega arith in
    subst (λ j. Handed gt name j r) shift
      (failover_from-Handed gt addrs name (k + 1) rs (failover_from_cons gt addrs name k q rs h).1 i
        r e)

failover_from_end :
    (gt : ClusterGroundTruth) (addrs : List (String × String)) (name : String) (k : ℕ)
    → failover_from gt addrs name k [] ≡ none
unfolding failover_from
failover_from_end gt addrs name k = refl

-- Where the first shard is handed over, the next one is among the later shards.
Next-later :
    (gt : ClusterGroundTruth) (addrs : List (String × String)) (name : String) (k₀ : ℕ)
    (q : SlotRange) (rs : List SlotRange) (f : FailoverAction) (k : ℕ) (r : SlotRange)
    → Handed gt name k₀ q
    → Next gt addrs name (k₀ + 1) rs f k r
    → Next gt addrs name k₀ (q ∷ rs) f k r
Next-later gt addrs name k₀ q rs f k r handed n = record {
  index = suc n.index;
  shard = omega (arith, n.shard);
  range = n.range;
  pending = n.pending;
  before = earlier;
  addressed = n.addressed;
  forcing = n.forcing;
}
  where
    earlier :
        (i : ℕ) (p : SlotRange)
        → i < suc n.index
        → get_elem? (q ∷ rs) i ≡ some p
        → Handed gt name (k₀ + i) p
    earlier zero p l e =
        let shift : k₀ ≡ k₀ + 0 = omega arith in
        subst (λ j. Handed gt name j p) shift
          (subst (Handed gt name k₀) (some-injective _ _ e) handed)
    earlier (suc i) p l e =
        let shift : (k₀ + 1) + i ≡ k₀ + suc i = omega arith in
        subst (λ j. Handed gt name j p) shift (n.before i p (omega arith) e)

failover_from_step :
    (gt : ClusterGroundTruth) (addrs : List (String × String)) (name : String) (k : ℕ)
    (q : SlotRange) (rs : List SlotRange)
    → owns_own (node_at gt (new_master_pod_name name k)) q ≡ true
    → failover_from gt addrs name k (q ∷ rs) ≡ failover_from gt addrs name (k + 1) rs
unfolding failover_from
failover_from_step gt addrs name k q rs h = rw h refl

failover_from_stop :
    (gt : ClusterGroundTruth) (addrs : List (String × String)) (name : String) (k : ℕ)
    (q : SlotRange) (rs : List SlotRange) (f : FailoverAction) (j : ℕ) (r : SlotRange)
    → owns_own (node_at gt (new_master_pod_name name k)) q ≡ false
    → failover_from gt addrs name k (q ∷ rs) ≡ some (f, j, r)
    → (j ≡ k)
      × (r ≡ q)
      × (f.addr ≡ addr_of addrs (new_master_pod_name name k))
      × (f.force ≡ forced (owner_of_range gt q) (node_at gt (new_master_pod_name name k)))
unfolding failover_from
failover_from_stop gt addrs name k q rs f j r h e = ground (arith, h, e)

pub failover_from-Next :
    (gt : ClusterGroundTruth) (addrs : List (String × String)) (name : String) (k₀ : ℕ)
    (rs : List SlotRange) (f : FailoverAction) (k : ℕ) (r : SlotRange)
    → failover_from gt addrs name k₀ rs ≡ some (f, k, r)
    → Next gt addrs name k₀ rs f k r
failover_from-Next gt addrs name k₀ [] f k r e =
    absurd (ground (arith, failover_from_end gt addrs name k₀, e))
failover_from-Next gt addrs name k₀ (q ∷ rs) f k r e =
    elim (Bool-cases (owns_own (node_at gt (new_master_pod_name name k₀)) q)) [
      | inl h ↦ Next-later gt addrs name k₀ q rs f k r (owns_own-Handed gt name k₀ q h) (
          failover_from-Next gt addrs name (k₀ + 1) rs f k r
            (sym (failover_from_step gt addrs name k₀ q rs h) ∙ e))
      | inr h ↦ first h (failover_from_stop gt addrs name k₀ q rs f k r h e)
    ]
  where
    first :
        owns_own (node_at gt (new_master_pod_name name k₀)) q ≡ false
        → (k ≡ k₀)
          × (r ≡ q)
          × (f.addr ≡ addr_of addrs (new_master_pod_name name k₀))
          × (f.force ≡ forced (owner_of_range gt q) (node_at gt (new_master_pod_name name k₀)))
        → Next gt addrs name k₀ (q ∷ rs) f k r
    first h (a, b, c, d) = record {
      index = 0;
      shard = omega (arith, a);
      range = ap some (sym b);
      pending = rw (a, b) h;
      before = λ i p l _. absurd (omega arith);
      addressed = rw a c;
      forcing = rw (a, b) d;
    }
