-- ===== src/Replication/BestHolder/Chosen.antt =====
-- What `BestDataHolder` elects: a reachable node with keys that no other beats, whatever the order
-- in which the map is visited. What `holdersForked` counts.
use mathlib.Core.Option.{some-injective}
use littlered.Prelude.{
  ℕ, suc, ◌+◌, ◌≤◌, ◌≡◌, refl, sym, ap, ◌∙◌, subst, Bool, true, false, some, List, [], ◌∷◌, ◌==◌,
  string_eq, if◌then◌else◌, arith, Bool-cases, ◌⊎◌, inl, inr, ◌↔◌, In, All, All-In, All-of_In,
  In-of_select, In-select, count_if, select,
}
use littlered.Replication.State.{
  RedisNodeState, ReplicationState, role_master, data_holders, holds_data, values,
}
use littlered.Replication.Lineage.{holders_diverged}
use littlered.Replication.BestHolder.{
  better, best_from, best_of, best_data_holder, holders_forked, forked_from,
}
use littlered.Replication.BestHolder.Order.{better_irrefl, better_trans, better_connex}

-- Nothing in the list beats the node.
abbrev Unbeaten : RedisNodeState → List RedisNodeState → Type 0
Unbeaten b hs = All (λ h. better h b ≡ false) hs

-- What beats the winner of a round beats the node that stood there before.
beats_earlier :
    (x h b : RedisNodeState) → better x (if better h b then h else b) ≡ true → (better x b ≡ true)
beats_earlier x h b e = elim (Bool-cases (better h b)) [
  | inl w ↦ better_trans x h b (ground arith) w
  | inr w ↦ ground arith
]

best_from_beats :
    (x b : RedisNodeState) (hs : List RedisNodeState)
    → better x (best_from b hs) ≡ true
    → better x b ≡ true
unfolding best_from
best_from_beats x b [] e = e
best_from_beats x b (h ∷ hs) e =
    beats_earlier x h b (best_from_beats x (if better h b then h else b) hs e)

best_from-Unbeaten : (b : RedisNodeState) (hs : List RedisNodeState) → Unbeaten (best_from b hs) hs
unfolding best_from
best_from-Unbeaten b [] = tt
best_from-Unbeaten b (h ∷ hs) = (first, best_from-Unbeaten (if better h b then h else b) hs)
  where
    won : better h (if better h b then h else b) ≡ false
    won = elim (Bool-cases (better h b)) [ inl w ↦ rw w (better_irrefl h) | inr w ↦ rw w w ]

    first : better h (best_from (if better h b then h else b) hs) ≡ false
    first = elim (Bool-cases (better h (best_from (if better h b then h else b) hs))) [
      | inl e ↦ absurd (ground (arith, best_from_beats h (if better h b then h else b) hs e, won))
      | inr e ↦ e
    ]

best_from-In :
    (b : RedisNodeState) (hs : List RedisNodeState) → (best_from b hs ≡ b) ⊎ In (best_from b hs) hs
unfolding best_from
best_from-In b [] = inl refl
best_from-In b (h ∷ hs) = ground (arith, best_from-In (if better h b then h else b) hs)

-- What an election may rely on.
pub record Elected (nodes : List RedisNodeState) (b : RedisNodeState) : Type 0 where
  pub listed : In b nodes
  pub holding : holds_data b ≡ true
  pub unbeaten : All (λ h. holds_data h ≡ true → better h b ≡ false) nodes

best_of-Elected :
    (hs : List RedisNodeState) (b : RedisNodeState)
    → (best_of hs).best ≡ some b
    → In b hs × Unbeaten b hs
unfolding best_of
best_of-Elected [] b e = absurd (cc)
best_of-Elected (h ∷ hs) b e =
    subst (λ q. In q (h ∷ hs) × Unbeaten q (h ∷ hs)) (some-injective _ _ e)
      (
        elim (best_from-In h (h ∷ hs)) [ inl here ↦ inl here | inr m ↦ m ],
        best_from-Unbeaten h (h ∷ hs),
      )

-- The node that `BestDataHolder` names is reachable, holds keys, and no other such node has a
-- higher offset, or as high an offset and more keys, or equal in both a lower address.
pub best_data_holder-Elected :
    (s : ReplicationState) (b : RedisNodeState)
    → (best_data_holder s).best ≡ some b
    → Elected (values s.redis_nodes) b
unfolding best_data_holder data_holders
best_data_holder-Elected s b e =
    let (m, u) = best_of-Elected (select holds_data (values s.redis_nodes)) b e in
    let (listed, holding) = In-of_select holds_data b (values s.redis_nodes) m in
    record {
      listed = listed;
      holding = holding;
      unbeaten = All-of_In _ (values s.redis_nodes) (λ h i d.
          All-In _ (select holds_data (values s.redis_nodes)) u
            (In-select holds_data h (values s.redis_nodes) i d));
    }

-- There is a node to name exactly when some node holds data.
pub best_data_holder-some :
    (s : ReplicationState) (h : RedisNodeState)
    → In h (values s.redis_nodes)
    → holds_data h ≡ true
    → (b : RedisNodeState) × ((best_data_holder s).best ≡ some b)
unfolding best_data_holder data_holders
best_data_holder-some s h m d =
    go (select holds_data (values s.redis_nodes))
      (In-select holds_data h (values s.redis_nodes) m d)
  where
    go : (hs : List RedisNodeState) → In h hs → (b : RedisNodeState) × ((best_of hs).best ≡ some b)
    go [] i = elim i [ ]
    go (k ∷ ks) i = (best_from k (k ∷ ks), unfold best_of in refl)

abbrev pub SameNodes : List RedisNodeState → List RedisNodeState → Type 0
SameNodes xs ys = (n : RedisNodeState) → In n xs ↔ In n ys

abbrev pub DistinctIps : List RedisNodeState → Type 0
DistinctIps ns = (a b : RedisNodeState) → In a ns → In b ns → a.ip ≡ b.ip → a ≡ b

Elected-unique :
    (xs ys : List RedisNodeState) (a b : RedisNodeState)
    → SameNodes xs ys
    → DistinctIps xs
    → Elected xs a
    → Elected ys b
    → a ≡ b
Elected-unique xs ys a b same distinct A B = distinct a b A.listed ((same b).1 B.listed) (
    better_connex a b
      (All-In (λ h. holds_data h ≡ true → better h b ≡ false) ys B.unbeaten ((same a).0 A.listed)
        A.holding)
      (All-In (λ h. holds_data h ≡ true → better h a ≡ false) xs A.unbeaten ((same b).1 B.listed)
        B.holding))

-- Two visits of one map, in any two orders, name the same node, where no two nodes share an
-- address.
pub best_data_holder_order :
    (s t : ReplicationState) (a : RedisNodeState)
    → SameNodes (values s.redis_nodes) (values t.redis_nodes)
    → DistinctIps (values s.redis_nodes)
    → (best_data_holder s).best ≡ some a
    → (best_data_holder t).best ≡ some a
best_data_holder_order s t a same distinct e =
    let A = best_data_holder-Elected s a e in
    let (b, found) = best_data_holder-some t a ((same a).0 A.listed) A.holding in
    found
    ∙ ap some (
        sym (
          Elected-unique (values s.redis_nodes) (values t.redis_nodes) a b same distinct A
            (best_data_holder-Elected t b found)))

abbrev pub is_master : RedisNodeState → Bool
is_master h = h.role == role_master

forked_from-count :
    (n : ℕ) (hs : List RedisNodeState)
    → n ≤ 1
    → (forked_from n hs ≡ true) ↔ (2 ≤ n + count_if is_master hs)
unfolding forked_from
forked_from-count n [] h = (λ e. cc, λ e. absurd (omega arith))
forked_from-count n (k ∷ ks) h =
    ground (arith, forked_from-count n ks, forked_from-count (suc n) ks)

-- The holders are forked exactly when at least two of them are masters.
pub holders_forked-count :
    (hs : List RedisNodeState) → (holders_forked hs ≡ true) ↔ (2 ≤ count_if is_master hs)
unfolding holders_forked
holders_forked-count hs = ground (arith, forked_from-count 0 hs)

-- What `BestDataHolder` returns where there are holders.
pub best_data_holder_found :
    (s : ReplicationState) {h : RedisNodeState} {hs : List RedisNodeState}
    → data_holders s ≡ h ∷ hs
    → (b : RedisNodeState) × ((best_data_holder s).best ≡ some b)
      × ((best_data_holder s).diverged ≡ holders_diverged (data_holders s))
      × ((best_data_holder s).forked ≡ holders_forked (data_holders s))
unfolding best_data_holder best_of
best_data_holder_found s {h} {hs} e = (best_from h (h ∷ hs), rw e refl, rw e refl, rw e refl)
