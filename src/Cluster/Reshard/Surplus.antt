-- ===== src/Cluster/Reshard/Surplus.antt =====
-- Which ranges a master may give away: all but its first one.
use littlered.Prelude.{
  ℕ, suc, ◌≤◌, ◌≡◌, refl, sym, ap, ◌∙◌, subst, inl, inr, true, false, Option, none, some, List, [],
  ◌∷◌, String, length, string_eq, nat_eq, arith, ltb, In, In-of_append, In-of_map, Bool-cases,
}
use mathlib.Core.Option.{some-injective}
use littlered.Prelude.Sort.{sort_by, In-of_sort_by, IsSorted, sort_by-IsSorted, length-sort_by}
use littlered.Cluster.State.{ClusterNodeState}
use littlered.Cluster.Slots.{SlotRange}
use littlered.Cluster.Migration.{aligned_range_index}
use littlered.Cluster.Reshard.{
  cons_index, cons_owner, owned_shards, is_slot_owner, survey_owners, surplus_of, surpluses,
}

-- One of the slot texts of the master is the range of that index.
abbrev pub Owns : List SlotRange → ClusterNodeState → ℕ → Type 0
Owns ranges n i = (slot : String) × In slot n.slots × (aligned_range_index ranges slot ≡ some i)

-- A master that answered keeps a range that is no later than the one that may be moved off.
pub record IsSurplus (ranges : List SlotRange) (nodes : List ClusterNodeState) (i : ℕ)
    (n : ClusterNodeState) : Type 0 where
  pub listed : In n nodes
  pub serving : is_slot_owner n ≡ true
  pub several : 2 ≤ length n.slots
  pub owned : Owns ranges n i
  pub kept : (k : ℕ) × Owns ranges n k × (k ≤ i)

cons_index-some :
    (o : Option ℕ) (os : Option (List ℕ)) (is : List ℕ)
    → cons_index o os ≡ some is
    → (k : ℕ) × (js : List ℕ) × (o ≡ some k) × (os ≡ some js) × (is ≡ k ∷ js)
cons_index-some none os is e = absurd (cc)
cons_index-some (some k) none is e = absurd (cc)
cons_index-some (some k) (some js) is e = (k, js, refl, refl, sym (some-injective (k ∷ js) is e))

owned_shards-In :
    (ranges : List SlotRange) (slots : List String) (is : List ℕ) (i : ℕ)
    → owned_shards ranges slots ≡ some is
    → In i is
    → (slot : String) × In slot slots × (aligned_range_index ranges slot ≡ some i)
unfolding owned_shards
owned_shards-In ranges [] is i e m = absurd (subst (In i) (sym (some-injective [] is e)) m)
owned_shards-In ranges (s ∷ slots) is i e m =
    let c = cons_index-some (aligned_range_index ranges s) (owned_shards ranges slots) is e in
    elim (subst (In i) c.4 m) [
      | inl h ↦ (s, inl refl, c.2 ∙ ap some (sym h))
      | inr h ↦ let t = owned_shards-In ranges slots c.1 i c.3 h in (t.0, inr t.1, t.2)
    ]

owned_shards-length :
    (ranges : List SlotRange) (slots : List String) (is : List ℕ)
    → owned_shards ranges slots ≡ some is
    → length is ≡ length slots
unfolding owned_shards
owned_shards-length ranges [] is e = ap length (sym (some-injective [] is e))
owned_shards-length ranges (s ∷ slots) is e =
    let c = cons_index-some (aligned_range_index ranges s) (owned_shards ranges slots) is e in
    ap length c.4 ∙ ap suc (owned_shards-length ranges slots c.1 c.3)

sorted_head : (x : ℕ) (xs : List ℕ) (y : ℕ) → IsSorted ltb (x ∷ xs) → In y xs → x ≤ y
sorted_head x [] y s m = elim m [ ]
sorted_head x (z ∷ zs) y s (inl e) = ground (arith, s.0, e)
sorted_head x (z ∷ zs) y s (inr m) = ground (arith, s.0, sorted_head z zs y s.1 m)

cons_owner-some :
    (n : ClusterNodeState) (o : Option (List ℕ)) (r : Option (List (ClusterNodeState × List ℕ)))
    (owners : List (ClusterNodeState × List ℕ))
    → cons_owner n o r ≡ some owners
    → (is : List ℕ) × (rest : List (ClusterNodeState × List ℕ)) × (o ≡ some is)
      × (r ≡ some rest)
      × (owners ≡ (n, is) ∷ rest)
cons_owner-some n none r owners e = absurd (cc)
cons_owner-some n (some is) none owners e = absurd (cc)
cons_owner-some n (some is) (some rest) owners e =
    (is, rest, refl, refl, sym (some-injective ((n, is) ∷ rest) owners e))

-- The entry is that of a master with slots, with all its shards.
pub record IsEntry (ranges : List SlotRange) (nodes : List ClusterNodeState)
    (entry : ClusterNodeState × List ℕ) : Type 0 where
  pub listed : In entry.0 nodes
  pub serving : is_slot_owner entry.0 ≡ true
  pub shards : owned_shards ranges entry.0.slots ≡ some entry.1

pub survey_owners-IsEntry :
    (ranges : List SlotRange) (nodes : List ClusterNodeState)
    (owners : List (ClusterNodeState × List ℕ)) (entry : ClusterNodeState × List ℕ)
    → survey_owners ranges nodes ≡ some owners
    → In entry owners
    → IsEntry ranges nodes entry
unfolding survey_owners
survey_owners-IsEntry ranges [] owners entry e m =
    absurd (subst (In entry) (sym (some-injective [] owners e)) m)
survey_owners-IsEntry ranges (n ∷ ns) owners entry e m = elim (Bool-cases (is_slot_owner n)) [
  | inl h ↦
      let c =
        cons_owner-some n (owned_shards ranges n.slots) (survey_owners ranges ns) owners
          (rw h at e) in
      elim (subst (In entry) c.4 m) [
        | inl f ↦
            subst (IsEntry ranges (n ∷ ns)) (sym f)
              (record { listed = inl refl; serving = h; shards = c.2 })
        | inr f ↦ later n (survey_owners-IsEntry ranges ns c.1 entry c.3 f)
      ]
  | inr h ↦ later n (survey_owners-IsEntry ranges ns owners entry (rw h at e) m)
]
  where
    later : (x : ClusterNodeState) → IsEntry ranges ns entry → IsEntry ranges (x ∷ ns) entry
    later x t = record { listed = inr t.listed; serving = t.serving; shards = t.shards }

tail-of_sorted :
    (n : ClusterNodeState) (is : List ℕ) (x : ℕ × ClusterNodeState)
    → IsSorted ltb is
    → In x (surplus_of n is)
    → (k : ℕ) × In k is × In x.0 is × (x.1 ≡ n) × (k ≤ x.0) × (2 ≤ length is)
unfolding surplus_of
tail-of_sorted n [] x s m = elim m [ ]
tail-of_sorted n (i ∷ is) x s m =
    let found = In-of_map (λ k. (k, n)) x is m in
    let same = ap (λ p. p.0) found.2 in
    (
      i,
      inl refl,
      inr (subst (λ z. In z is) (sym same) found.1),
      ap (λ p. p.1) found.2,
      ground (arith, sorted_head i is found.0 s found.1, same),
      two is found.0 found.1,
    )
  where
    two : (js : List ℕ) (j : ℕ) → In j js → 2 ≤ suc (length js)
    two [] j m = elim m [ ]
    two (k ∷ js) j m = ground arith

ltb_asym : (a b : ℕ) → ltb a b ≡ true → ltb b a ≡ false
ltb_asym a b h = ground (arith, h)

entry-IsSurplus :
    (ranges : List SlotRange) (nodes : List ClusterNodeState) (n : ClusterNodeState) (is : List ℕ)
    (x : ℕ × ClusterNodeState)
    → IsEntry ranges nodes (n, is)
    → In x (surplus_of n (sort_by ltb is))
    → IsSurplus ranges nodes x.0 x.1
entry-IsSurplus ranges nodes n is x e m =
    let t = tail-of_sorted n (sort_by ltb is) x (sort_by-IsSorted ltb ltb_asym is) m in
    subst (IsSurplus ranges nodes x.0) (sym t.3) (record {
      listed = e.listed;
      serving = e.serving;
      several =
          ground
            (arith, t.5, length-sort_by ltb is, owned_shards-length ranges n.slots is e.shards);
      owned = owned_shards-In ranges n.slots is x.0 e.shards (In-of_sort_by ltb x.0 is t.2);
      kept =
          (t.0, owned_shards-In ranges n.slots is t.0 e.shards (In-of_sort_by ltb t.0 is t.1), t.4);
    })

pub surpluses-IsSurplus :
    (ranges : List SlotRange) (nodes : List ClusterNodeState)
    (owners : List (ClusterNodeState × List ℕ)) (x : ℕ × ClusterNodeState)
    → ((o : ClusterNodeState × List ℕ) → In o owners → IsEntry ranges nodes o)
    → In x (surpluses owners)
    → IsSurplus ranges nodes x.0 x.1
unfolding surpluses
surpluses-IsSurplus ranges nodes [] x h m = elim m [ ]
surpluses-IsSurplus ranges nodes ((n, is) ∷ owners) x h m =
    elim (In-of_append x (surplus_of n (sort_by ltb is)) (surpluses owners) m) [
      | inl a ↦ entry-IsSurplus ranges nodes n is x (h (n, is) (inl refl)) a
      | inr b ↦ surpluses-IsSurplus ranges nodes owners x (λ o i. h o (inr i)) b
    ]
