-- ===== src/Replication/Lineage/Decides.antt =====
-- `holdersDiverged` decides whether the holders have one lineage.
use littlered.Prelude.{
  ℕ, suc, ◌+◌, ◌≤◌, ◌≡◌, refl, sym, ap, ◌∙◌, subst, ◌⊎◌, inl, inr, ◌↔◌, true, false, some, List, [],
  ◌∷◌, String, length, ltb, string_eq, if◌then◌else◌, arith, Bool-cases, All, All-In,
}
use text.Mathlib.TextEquality.{eq_iff}
use littlered.Replication.State.{RedisNodeState}
use littlered.Replication.Lineage.{
  Parents, valid, connect_all, CompKey, root, no_replid, key_beq, add_key, comp_key, components,
  holders_diverged,
}
use littlered.Replication.Lineage.Spec.{Connected, here, back, lineage, OneLineage}
use littlered.Replication.Lineage.Forest.{Forest, Forest-nil, find-Found}
use littlered.Replication.Lineage.Joining.{Joins, Pass, connect_all-Pass, Connected-root}

-- The keys of `comps` by the roots alone.
abbrev key_of : (String → String) → ℕ → RedisNodeState → CompKey
key_of R i h =
    if valid h.replid
    then root (R h.replid)
    else if valid h.replid2
    then root (R h.replid2)
    else no_replid i

abbrev keys_from : (String → String) → ℕ → List RedisNodeState → List CompKey
keys_from R i [] = []
keys_from R i (h ∷ hs) = key_of R i h ∷ keys_from R (i + 1) hs

add_all : List CompKey → List CompKey → List CompKey
add_all [] cs = cs
add_all (k ∷ ks) cs = add_all ks (add_key k cs)

comp_key-key_of :
    {R : String → String} {d : String → ℕ} (i : ℕ) (h : RedisNodeState) (m : Parents)
    → Forest R d m
    → ((comp_key i h m).0 ≡ key_of R i h) × Forest R d (comp_key i h m).1
unfolding comp_key
comp_key-key_of {R} {d} i h m F = elim (Bool-cases (valid h.replid)) [
  | inl v ↦ rw v (let at = find-Found h.replid m F in (ap root at.root, at.forest))
  | inr v ↦ rw v (elim (Bool-cases (valid h.replid2)) [
    | inl w ↦ rw w (let at = find-Found h.replid2 m F in (ap root at.root, at.forest))
    | inr w ↦ rw w (refl, F)
  ])
]

components-add_all :
    {R : String → String} {d : String → ℕ} (i : ℕ) (hs : List RedisNodeState) (m : Parents)
    (cs : List CompKey)
    → Forest R d m
    → components i hs m cs ≡ add_all (keys_from R i hs) cs
unfolding components add_all
components-add_all i [] m cs F = refl
components-add_all {R} i (h ∷ hs) m cs F =
    let (same, F') = comp_key-key_of i h m F in
    components-add_all (i + 1) hs (comp_key i h m).1 (add_key (comp_key i h m).0 cs) F'
    ∙ ap (λ k. add_all (keys_from R (i + 1) hs) (add_key k cs)) same

key_beq_iff : (a b : CompKey) → (key_beq a b ≡ true) ↔ (a ≡ b)
key_beq_iff (root a) (root b) = (λ h. ap root ((eq_iff a b).0 h), λ h. (eq_iff a b).1 (cc))
key_beq_iff (no_replid i) (no_replid j) = ground arith
key_beq_iff (root a) (no_replid j) = (λ h. cc, λ h. cc)
key_beq_iff (no_replid i) (root b) = (λ h. cc, λ h. cc)

length-add_all : (ks cs : List CompKey) → length cs ≤ length (add_all ks cs)
unfolding add_all add_key
length-add_all [] cs = omega arith
length-add_all (k ∷ ks) cs = ground (arith, length-add_all ks cs, length-add_all ks (k ∷ cs))

add_all-le : (ks cs : List CompKey) → length (add_all ks cs) ≤ length ks + length cs
unfolding add_all add_key
add_all-le [] cs = omega arith
add_all-le (k ∷ ks) cs = ground (arith, add_all-le ks cs, add_all-le ks (k ∷ cs))

add_all_same :
    (k : CompKey) (ks : List CompKey) → All (λ c. c ≡ k) ks → add_all ks (k ∷ []) ≡ k ∷ []
unfolding add_all add_key
add_all_same k [] h = refl
add_all_same k (c ∷ ks) h = ground (arith, h.0, key_beq_iff k c, add_all_same k ks h.1)

same_of_add_all :
    (k : CompKey) (ks : List CompKey) → length (add_all ks (k ∷ [])) ≤ 1 → All (λ c. c ≡ k) ks
unfolding add_all add_key
same_of_add_all k [] h = tt
same_of_add_all k (c ∷ ks) h = elim (Bool-cases (key_beq k c)) [
  | inl e ↦ (sym ((key_beq_iff k c).0 e), same_of_add_all k ks (ground arith))
  | inr e ↦ absurd (ground (arith, length-add_all ks (c ∷ k ∷ [])))
]

add_all_one : (k : CompKey) (ks : List CompKey) → All (λ c. c ≡ k) ks → length (add_all ks []) ≤ 1
unfolding add_all add_key
add_all_one k [] h = omega arith
add_all_one k (c ∷ ks) (e, h) =
    let same = add_all_same c ks (subst (λ q. All (λ x. x ≡ q) ks) (sym e) h) in
    rw same (omega arith)

module _ (R : String → String) where
  abbrev Rooted : String → RedisNodeState → Type 0
  Rooted r h = (a : String) × (lineage h ≡ some a) × (R a ≡ r)

  Rooted-of_key : (r : String) (i : ℕ) (h : RedisNodeState) → key_of R i h ≡ root r → Rooted r h
  Rooted-of_key r i h e = elim (Bool-cases (valid h.replid)) [
    | inl v ↦ (h.replid, rw v refl, ground arith)
    | inr v ↦ elim (Bool-cases (valid h.replid2)) [
      | inl w ↦ (h.replid2, rw (v, w) refl, ground arith)
      | inr w ↦ absurd (ground arith)
    ]
  ]

  All-Rooted :
      (r : String) (i : ℕ) (hs : List RedisNodeState)
      → All (λ c. c ≡ root r) (keys_from R i hs)
      → All (Rooted r) hs
  All-Rooted r i [] h = tt
  All-Rooted r i (h ∷ hs) (k, ks) = (Rooted-of_key r i h k, All-Rooted r (i + 1) hs ks)

  key_of-root :
      (i : ℕ) (h : RedisNodeState) (a : String) → lineage h ≡ some a → key_of R i h ≡ root (R a)
  key_of-root i h a e = ground arith

  All-root :
      (r : String) (i : ℕ) (hs : List RedisNodeState)
      → All (Rooted r) hs
      → All (λ c. c ≡ root r) (keys_from R i hs)
  All-root r i [] h = tt
  All-root r i (h ∷ hs) ((a, e, s), rest) =
      (key_of-root i h a e ∙ ap root s, All-root r (i + 1) hs rest)

  length-keys_from : (i : ℕ) (hs : List RedisNodeState) → length (keys_from R i hs) ≡ length hs
  length-keys_from i [] = refl
  length-keys_from i (h ∷ hs) = ap suc (length-keys_from (i + 1) hs)

  -- Two keys that agree are roots, since the keys of holders with no id differ.
  two_keys :
      (h k : RedisNodeState) → key_of R 1 k ≡ key_of R 0 h → (r : String) × (key_of R 0 h ≡ root r)
  two_keys h k e = elim (Bool-cases (valid h.replid)) [
    | inl v ↦ (R h.replid, rw v refl)
    | inr v ↦ elim (Bool-cases (valid h.replid2)) [
      | inl w ↦ (R h.replid2, rw (v, w) refl)
      | inr w ↦ absurd (ground arith)
    ]
  ]

  abbrev key_count : List RedisNodeState → ℕ
  key_count hs = length (add_all (keys_from R 0 hs) [])

  Rooted-of_count :
      (hs : List RedisNodeState)
      → key_count hs ≤ 1
      → (length hs ≤ 1) ⊎ ((r : String) × All (Rooted r) hs)
  unfolding add_all add_key
  Rooted-of_count [] h = inl (omega arith)
  Rooted-of_count (k ∷ []) h = inl (omega arith)
  Rooted-of_count (k ∷ l ∷ hs) h =
      let same = same_of_add_all (key_of R 0 k) (keys_from R 1 (l ∷ hs)) h in
      let (r, e) = two_keys k l same.0 in
      inr (
        r,
        All-Rooted r 0 (k ∷ l ∷ hs)
            (e, subst (λ q. All (λ c. c ≡ q) (keys_from R 1 (l ∷ hs))) e same),
      )

  count_of_Rooted :
      (hs : List RedisNodeState)
      → (length hs ≤ 1) ⊎ ((r : String) × All (Rooted r) hs)
      → key_count hs ≤ 1
  count_of_Rooted hs (inl h) =
      omega (arith, add_all-le (keys_from R 0 hs) [], length-keys_from 0 hs)
  count_of_Rooted hs (inr (r, h)) = add_all_one (root r) (keys_from R 0 hs) (All-root r 0 hs h)

module _ (hs : List RedisNodeState) (P : Pass hs (λ x. x) hs (connect_all hs [])) where
  open P use {roots, forest, sound, joined}

  connected :
      (r : String) (ks : List RedisNodeState)
      → All (Rooted roots r) ks
      → All (λ h. (a : String) × (lineage h ≡ some a) × Connected hs r a) ks
  connected r [] h = tt
  connected r (k ∷ ks) ((a, e, s), rest) =
      ((a, e, back (subst (Connected hs a) s (sound a))), connected r ks rest)

  rooted :
      (r : String) (ks : List RedisNodeState)
      → All (λ h. (a : String) × (lineage h ≡ some a) × Connected hs r a) ks
      → All (Rooted roots (roots r)) ks
  rooted r [] h = tt
  rooted r (k ∷ ks) ((a, e, c), rest) = (
    (a, e, sym (Connected-root roots (λ h m. All-In (Joins roots) hs joined m) c)),
    rooted r ks rest,
  )

  diverged_count : holders_diverged hs ≡ ltb 1 (key_count roots hs)
  unfolding holders_diverged
  diverged_count =
      ap (λ cs. ltb 1 (length cs)) (components-add_all 0 hs (connect_all hs []) [] forest)

-- `holdersDiverged` is false exactly when the holders have one lineage: there is at most one, or
-- all of their replication ids are connected.
pub holders_diverged-OneLineage :
    (hs : List RedisNodeState) → (holders_diverged hs ≡ false) ↔ OneLineage hs
holders_diverged-OneLineage hs = (forth, back_again)
  where
    P : Pass hs (λ x. x) hs (connect_all hs [])
    P = connect_all-Pass hs (λ x. x) (λ _. 0) hs [] (λ h m. m) Forest-nil (λ x. here x)

    forth : holders_diverged hs ≡ false → OneLineage hs
    forth e = elim (Rooted-of_count P.roots hs (ground (arith, diverged_count hs P))) [
      | inl few ↦ inl few
      | inr (r, all) ↦ inr (r, connected hs P r hs all)
    ]

    counted : OneLineage hs → key_count P.roots hs ≤ 1
    counted (inl few) = count_of_Rooted P.roots hs (inl few)
    counted (inr (r, all)) = count_of_Rooted P.roots hs (inr (P.roots r, rooted hs P r hs all))

    back_again : OneLineage hs → holders_diverged hs ≡ false
    back_again one = ground (arith, diverged_count hs P, counted one)
