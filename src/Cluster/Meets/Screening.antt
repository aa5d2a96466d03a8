-- ===== src/Cluster/Meets/Screening.antt =====
-- Which nodes the plan of PlanPartitionMeets introduces to the seed.
use littlered.Prelude.{
  ◌≡◌, refl, ◌≢◌, ◌↔◌, ◌⊎◌, inl, inr, Bool, true, false, not, ◌&&◌, Option, none, some, List, [],
  ◌∷◌, String, ◌==◌, string_eq, if◌then◌else◌, arith, Bool-cases, Option-cases, In, sym, subst, ◌∙◌,
  ap,
}
use text.Mathlib.TextEquality.{eq_iff}
use mathlib.Core.Option.{some-injective}
use littlered.Prelude.Text.{str_ltb}
use littlered.Prelude.Sort.{In-sort_by}
use littlered.Replication.State.{lookup, values}
use littlered.Cluster.State.{ClusterNodeState, ClusterGroundTruth, get_largest_partition_seed}
use littlered.Cluster.Meets.{
  MeetPlan, allowed, admissible_when_confirmed, verdict_of, skip_of, screen, screen_all, keys,
  pod_names, plan_at, plan_partition_meets, meet_candidate, no_targets, our_node_ids,
}
use littlered.Cluster.Meets.Attribution.{Answered, admissible_iff_Answered}

-- The map's entry for the pod is `n`, a node other than the seed that answered this pass.
pub record Meetable (gt : ClusterGroundTruth) (seed : ClusterNodeState) (pod : String)
    (n : ClusterNodeState) : Type 0 where
  pub entry : lookup pod gt.nodes ≡ some n
  pub answered : Answered (meet_candidate gt n)
  pub other : n.node_id ≢ seed.node_id

Answered-node_id :
    (gt : ClusterGroundTruth) (n : ClusterNodeState)
    → Answered (meet_candidate gt n)
    → n.node_id ≢ ""
unfolding meet_candidate
Answered-node_id gt n w = w.known

module _ (gt : ClusterGroundTruth) (seed : ClusterNodeState) where
  -- What the loop's body does with a node.
  data Turn (n : ClusterNodeState) (rest : MeetPlan) : Type 0 where
    passes :
        (n.node_id ≡ seed.node_id) ⊎ ¬ Answered (meet_candidate gt n)
        → (screen gt seed n rest).targets ≡ rest.targets
        → (screen gt seed n rest).unattributed ≡ rest.unattributed
        → Turn n rest
    admits :
        Answered (meet_candidate gt n)
        → n.node_id ≢ seed.node_id
        → (screen gt seed n rest).targets ≡ n ∷ rest.targets
        → (screen gt seed n rest).unattributed ≡ (
            if not (allowed (verdict_of gt n))
            then skip_of gt n ∷ rest.unattributed
            else rest.unattributed)
        → Turn n rest

  turn : (n : ClusterNodeState) (rest : MeetPlan) → Turn n rest
  unfolding screen
  turn n rest = elim (Bool-cases (not (n.node_id == "") && n.node_id == seed.node_id)) [
    | inl s ↦ passes (inl (ground (arith, eq_iff n.node_id seed.node_id))) (rw s refl) (rw s refl)
    | inr d ↦ elim (Bool-cases (admissible_when_confirmed (verdict_of gt n))) [
      | inl a ↦
          (let w =
              (admissible_iff_Answered (meet_candidate gt n) (our_node_ids (values gt.nodes))).0
                a in
            admits w
              (λ e. ground (
                arith,
                Answered-node_id gt n w,
                e,
                d,
                eq_iff n.node_id "",
                eq_iff n.node_id seed.node_id,
              ))
              (rw (d, a) refl) (rw (d, a) refl))
      | inr a ↦
          passes
            (inr (λ w. ground (
              arith,
              (admissible_iff_Answered (meet_candidate gt n) (our_node_ids (values gt.nodes))).1 w,
              a,
            )))
            (rw (d, a) refl) (rw (d, a) refl)
    ]
  ]

  abbrev IsTarget : List String → ClusterNodeState → Type 0
  IsTarget names n = (pod : String) × In pod names × Meetable gt seed pod n

  step :
      (plan : MeetPlan) (name : String) (names : List String) (m : ClusterNodeState)
      → lookup name gt.nodes ≡ some m
      → screen_all gt seed plan (name ∷ names) ≡ screen gt seed m (screen_all gt seed plan names)
  unfolding screen_all
  step plan name names m e = rw (screen_all, e) refl

  step_none :
      (plan : MeetPlan) (name : String) (names : List String)
      → lookup name gt.nodes ≡ none
      → screen_all gt seed plan (name ∷ names) ≡ screen_all gt seed plan names
  unfolding screen_all
  step_none plan name names e = rw (screen_all, e) refl

  done : (plan : MeetPlan) → screen_all gt seed plan [] ≡ plan
  unfolding screen_all
  done plan = refl

  screen_all-IsTarget :
      (plan : MeetPlan) (names : List String) (n : ClusterNodeState)
      → plan.targets ≡ []
      → In n (screen_all gt seed plan names).targets
      → IsTarget names n
  screen_all-IsTarget plan [] n e m =
      absurd (subst (In n) e (subst (λ p. In n p.targets) (done plan) m))
  screen_all-IsTarget plan (name ∷ names) n e m =
      by_entry (screen_all-IsTarget plan names n e) (Option-cases (lookup name gt.nodes))
    where
      later : IsTarget names n → IsTarget (name ∷ names) n
      later (pod, i, r) = (pod, inr i, r)

      by_turn :
          (k : ClusterNodeState)
          → lookup name gt.nodes ≡ some k
          → (In n (screen_all gt seed plan names).targets → IsTarget names n)
          → In n (screen gt seed k (screen_all gt seed plan names)).targets
          → Turn k (screen_all gt seed plan names)
          → IsTarget (name ∷ names) n
      by_turn k l ih i (passes _ t _) = later (ih (subst (In n) t i))
      by_turn k l ih i (admits w o t _) = elim (subst (In n) t i) [
        | inl q ↦ (
          name,
          inl refl,
          subst (Meetable gt seed name) (sym q) (record { entry = l; answered = w; other = o }),
        )
        | inr r ↦ later (ih r)
      ]

      by_entry :
          (In n (screen_all gt seed plan names).targets → IsTarget names n)
          → (lookup name gt.nodes ≡ none)
            ⊎ ((k : ClusterNodeState) × (lookup name gt.nodes ≡ some k))
          → IsTarget (name ∷ names) n
      by_entry ih (inl l) = later (ih (subst (λ p. In n p.targets) (step_none plan name names l) m))
      by_entry ih (inr (k, l)) =
          by_turn k l ih (subst (λ p. In n p.targets) (step plan name names k l) m)
            (turn k (screen_all gt seed plan names))

  -- A target, which is listed as unattributed where the bus alone would have refused it.
  abbrev Listed : ClusterNodeState → MeetPlan → Type 0
  Listed n plan =
      In n plan.targets × ((allowed (verdict_of gt n) ≡ true) ⊎ In (skip_of gt n) plan.unattributed)

  Listed-later :
      (n k : ClusterNodeState) (rest : MeetPlan)
      → Turn k rest
      → Listed n rest
      → Listed n (screen gt seed k rest)
  Listed-later n k rest (passes _ t u) (i, v) = (
    subst (In n) (sym t) i,
    subst (λ us. (allowed (verdict_of gt n) ≡ true) ⊎ In (skip_of gt n) us) (sym u) v,
  )
  Listed-later n k rest (admits w o t u) (i, v) = (
    subst (In n) (sym t) (inr i),
    subst (λ us. (allowed (verdict_of gt n) ≡ true) ⊎ In (skip_of gt n) us) (sym u)
        (more (allowed (verdict_of gt k)) v),
  )
    where
      more :
          (b : Bool)
          → (allowed (verdict_of gt n) ≡ true) ⊎ In (skip_of gt n) rest.unattributed
          → (allowed (verdict_of gt n) ≡ true)
            ⊎ In
                (skip_of gt n)
                (if not b then skip_of gt k ∷ rest.unattributed else rest.unattributed)
      more true v = v
      more false (inl a) = inl a
      more false (inr m) = inr (inr m)

  Listed-now :
      (n : ClusterNodeState) (pod : String) (rest : MeetPlan)
      → Meetable gt seed pod n
      → Turn n rest
      → Listed n (screen gt seed n rest)
  Listed-now n pod rest m (passes (inl e) _ _) = absurd (m.other e)
  Listed-now n pod rest m (passes (inr f) _ _) = absurd (f m.answered)
  Listed-now n pod rest m (admits w o t u) = (
    subst (In n) (sym t) (inl refl),
    subst (λ us. (allowed (verdict_of gt n) ≡ true) ⊎ In (skip_of gt n) us) (sym u)
        (by_verdict (allowed (verdict_of gt n)) refl),
  )
    where
      by_verdict :
          (b : Bool)
          → allowed (verdict_of gt n) ≡ b
          → (allowed (verdict_of gt n) ≡ true)
            ⊎ In
                (skip_of gt n)
                (if not b then skip_of gt n ∷ rest.unattributed else rest.unattributed)
      by_verdict true e = inl e
      by_verdict false e = inr (inl refl)

  IsTarget-Listed :
      (plan : MeetPlan) (names : List String) (n : ClusterNodeState)
      → IsTarget names n
      → Listed n (screen_all gt seed plan names)
  IsTarget-Listed plan [] n (pod, i, m) = elim i [ ]
  IsTarget-Listed plan (name ∷ names) n (pod, inl e, m) =
      subst (Listed n)
        (sym (step plan name names n (subst (λ p. lookup p gt.nodes ≡ some n) e m.entry)))
        (Listed-now n pod (screen_all gt seed plan names) m
          (turn n (screen_all gt seed plan names)))
  IsTarget-Listed plan (name ∷ names) n (pod, inr i, m) =
      elim (Option-cases (lookup name gt.nodes)) [
        | inl l ↦
            subst (Listed n) (sym (step_none plan name names l))
              (IsTarget-Listed plan names n (pod, i, m))
        | inr (k, l) ↦ subst (Listed n) (sym (step plan name names k l)) (
            Listed-later n k (screen_all gt seed plan names)
              (turn k (screen_all gt seed plan names)) (IsTarget-Listed plan names n (pod, i, m)))
      ]

  screen_all_seed :
      (plan : MeetPlan) (names : List String) → (screen_all gt seed plan names).seed ≡ plan.seed
  unfolding screen_all screen
  screen_all_seed plan [] = refl
  screen_all_seed plan (name ∷ names) =
      ground (arith, screen_all_seed plan names, Option-cases (lookup name gt.nodes))

In-of_lookup :
    (pod : String) (m : List (String × ClusterNodeState)) (n : ClusterNodeState)
    → lookup pod m ≡ some n
    → In pod (keys m)
unfolding lookup
In-of_lookup pod [] n e = absurd (cc)
In-of_lookup pod ((k, v) ∷ m) n e = ground (arith, eq_iff k pod, In-of_lookup pod m n)

screened_plan :
    (gt : ClusterGroundTruth) (k : ClusterNodeState)
    → admissible_when_confirmed (verdict_of gt k) ≡ true
    → plan_at gt (some k) ≡ screen_all gt k (no_targets (some k) (verdict_of gt k)) (pod_names gt)
unfolding plan_at
screened_plan gt k a = rw a refl

refused_plan :
    (gt : ClusterGroundTruth) (k : ClusterNodeState)
    → admissible_when_confirmed (verdict_of gt k) ≡ false
    → (plan_at gt (some k)).seed ≡ none
unfolding plan_at
refused_plan gt k a = rw a refl

no_plan : (gt : ClusterGroundTruth) → (plan_at gt none).seed ≡ none
unfolding plan_at
no_plan gt = refl

-- What the plan has where its seed is `seed`.
pub record Screened (gt : ClusterGroundTruth) (seed : ClusterNodeState) (plan : MeetPlan)
    : Type 0 where
  pub seed_answered : Answered (meet_candidate gt seed)
  pub targets_iff :
      (n : ClusterNodeState) → In n plan.targets ↔ ((pod : String) × Meetable gt seed pod n)
  pub marked :
      (n : ClusterNodeState)
      → In n plan.targets
      → (allowed (verdict_of gt n) ≡ true) ⊎ In (skip_of gt n) plan.unattributed

screen_all-Screened :
    (gt : ClusterGroundTruth) (k : ClusterNodeState)
    → admissible_when_confirmed (verdict_of gt k) ≡ true
    → Screened gt k (screen_all gt k (no_targets (some k) (verdict_of gt k)) (pod_names gt))
screen_all-Screened gt k a = record {
  seed_answered =
      (admissible_iff_Answered (meet_candidate gt k) (our_node_ids (values gt.nodes))).0 a;
  targets_iff = λ n. (
    λ i. let (pod, j, m) = screen_all-IsTarget gt k start (pod_names gt) n refl i in (pod, m),
    λ (pod, m). (listed n pod m).0,
  );
  marked = λ n i.
      let (pod, j, m) = screen_all-IsTarget gt k start (pod_names gt) n refl i in
      (listed n pod m).1;
}
  where
    start : MeetPlan
    start = no_targets (some k) (verdict_of gt k)

    listed :
        (n : ClusterNodeState) (pod : String)
        → Meetable gt k pod n
        → Listed gt k n (screen_all gt k (no_targets (some k) (verdict_of gt k)) (pod_names gt))
    listed n pod m =
        IsTarget-Listed gt k (no_targets (some k) (verdict_of gt k)) (pod_names gt) n
          (pod, In-sort_by str_ltb pod (keys gt.nodes) (In-of_lookup pod gt.nodes n m.entry), m)

plan_at-Screened :
    (gt : ClusterGroundTruth) (o : Option ClusterNodeState) (seed : ClusterNodeState)
    → (plan_at gt o).seed ≡ some seed
    → Screened gt seed (plan_at gt o)
plan_at-Screened gt none seed e = absurd (ground (arith, no_plan gt, e))
plan_at-Screened gt (some k) seed e =
    elim (Bool-cases (admissible_when_confirmed (verdict_of gt k))) [
      | inl a ↦
          (let same : k ≡ seed = some-injective _ _ (
              sym (screen_all_seed gt k (no_targets (some k) (verdict_of gt k)) (pod_names gt))
              ∙ ap (λ p. p.seed) (sym (screened_plan gt k a))
              ∙ e) in
            subst (λ s. Screened gt s (plan_at gt (some k))) same
              (subst (Screened gt k) (sym (screened_plan gt k a)) (screen_all-Screened gt k a)))
      | inr r ↦ absurd (ground (arith, refused_plan gt k r, e))
    ]

-- A plan that issues a MEET at a seed: the seed answered at its address, with its id and its view;
-- the targets are exactly the gathered nodes that answered so too, and that are not the seed's id;
-- and each of them either is attributed by the bus, or is listed as unattributed.
pub plan_partition_meets-Screened :
    (gt : ClusterGroundTruth) (seed : ClusterNodeState)
    → (plan_partition_meets gt).seed ≡ some seed
    → Screened gt seed (plan_partition_meets gt)
unfolding plan_partition_meets
plan_partition_meets-Screened gt seed e = plan_at-Screened gt (get_largest_partition_seed gt) seed e
