-- ===== src/Cluster/Rollout/Survey.antt =====
-- What it takes for the survey of a shard's pods to find no reason to hold.
use littlered.Prelude.{
  ℕ, zero, suc, ◌+◌, ◌≤◌, ◌<◌, ◌≡◌, refl, ◌∙◌, subst, ◌≢◌, inl, inr, true, false, Option, none,
  some, arith, Bool-cases, ◌==◌, string_eq, nat_eq,
}
use mathlib.Core.Option.{some-injective}
use text.Mathlib.TextEquality.{eq_iff}
use littlered.Cluster.Rollout.{
  ShardRolloutInput, ShardRolloutPod, ShardRolloutPlan, ShardRolloutHold, no_hold, pod_absent,
  revision, readiness, redundancy, hold_by, inspect, pod_at, survey,
}

-- The pod runs the new template, the kubelet calls it Ready, and it is a synced copy of the owner.
pub record IsHandedOver (i : ShardRolloutInput) (o : Option ShardRolloutPod) : Type 0 where
  pub pod : ShardRolloutPod
  pub present : o ≡ some pod
  pub known : i.update_revision ≢ ""
  pub updated : pod.pod_revision ≡ i.update_revision
  pub kubelet : pod.ready ≡ true
  pub copy : pod.synced_with_owner ≡ true

hold_by-no_hold :
    (r : ShardRolloutHold) (ord : ℕ) (plan : ShardRolloutPlan)
    → r ≢ no_hold
    → (hold_by r ord plan).hold_reason ≢ no_hold
unfolding hold_by
hold_by-no_hold r ord plan n = ground (arith, n)

hold_by-partition :
    (r : ShardRolloutHold) (ord : ℕ) (plan : ShardRolloutPlan)
    → (hold_by r ord plan).partition ≡ plan.partition
unfolding hold_by
hold_by-partition r ord plan = ground arith

passed :
    (i : ShardRolloutInput) (ord : ℕ) (pod : ShardRolloutPod) (plan : ShardRolloutPlan)
    → (inspect i ord (some pod) plan).hold_reason ≡ no_hold
    → (plan.hold_reason ≡ no_hold)
      × (i.update_revision ≢ "")
      × (pod.pod_revision ≡ i.update_revision)
      × (pod.ready ≡ true)
      × (pod.synced_with_owner ≡ true)
unfolding inspect
passed i ord pod plan e = ground (
  arith,
  e,
  hold_by-no_hold revision ord plan,
  hold_by-no_hold readiness ord plan,
  hold_by-no_hold redundancy ord plan,
  eq_iff i.update_revision "",
  eq_iff pod.pod_revision i.update_revision,
)

inspect-hold :
    (i : ShardRolloutInput) (ord : ℕ) (o : Option ShardRolloutPod) (plan : ShardRolloutPlan)
    → (inspect i ord o plan).hold_reason ≡ no_hold
    → (plan.hold_reason ≡ no_hold) × IsHandedOver i o
unfolding inspect
inspect-hold i ord none plan e = absurd (hold_by-no_hold pod_absent ord plan (λ p. absurd (cc)) e)
inspect-hold i ord (some pod) plan e =
    let facts = passed i ord pod plan e in
    (
      facts.0,
      record {
        pod = pod;
        present = refl;
        known = facts.1;
        updated = facts.2;
        kubelet = facts.3;
        copy = facts.4;
      },
    )

inspect-of_IsHandedOver :
    (i : ShardRolloutInput) (ord : ℕ) (o : Option ShardRolloutPod) (plan : ShardRolloutPlan)
    → IsHandedOver i o
    → inspect i ord o plan ≡ plan
unfolding inspect
inspect-of_IsHandedOver i ord none plan h = absurd (ground (arith, h.present))
inspect-of_IsHandedOver i ord (some pod) plan h = rw (tests.0, tests.1, tests.2, tests.3) refl
  where
    tests :
        ((i.update_revision == "") ≡ false)
        × ((pod.pod_revision == i.update_revision) ≡ true)
        × (pod.ready ≡ true)
        × (pod.synced_with_owner ≡ true)
    tests = ground (
      arith,
      h.known,
      h.updated,
      h.kubelet,
      h.copy,
      some-injective pod h.pod h.present,
      eq_iff i.update_revision "",
      eq_iff pod.pod_revision i.update_revision,
    )

inspect_partition :
    (i : ShardRolloutInput) (ord : ℕ) (o : Option ShardRolloutPod) (plan : ShardRolloutPlan)
    → (inspect i ord o plan).partition ≡ plan.partition
unfolding inspect
inspect_partition i ord none plan = hold_by-partition pod_absent ord plan
inspect_partition i ord (some pod) plan = ground (
  arith,
  hold_by-partition revision ord plan,
  hold_by-partition readiness ord plan,
  hold_by-partition redundancy ord plan,
)

pub survey_partition :
    (i : ShardRolloutInput) (ord n : ℕ) (plan : ShardRolloutPlan)
    → (survey i ord n plan).partition ≡ plan.partition
unfolding survey
survey_partition i ord zero plan = refl
survey_partition i ord (suc n) plan =
    survey_partition i (ord + 1) n (inspect i ord (pod_at ord i.pods) plan)
    ∙ inspect_partition i ord (pod_at ord i.pods) plan

-- The pods of the `n` ordinals from `ord` on are handed over.
abbrev pub AllHandedOver : ShardRolloutInput → ℕ → ℕ → Type 0
AllHandedOver i ord n = (k : ℕ) → ord ≤ k → k < ord + n → IsHandedOver i (pod_at k i.pods)

pub survey-AllHandedOver :
    (i : ShardRolloutInput) (ord n : ℕ) (plan : ShardRolloutPlan)
    → (survey i ord n plan).hold_reason ≡ no_hold
    → (plan.hold_reason ≡ no_hold) × AllHandedOver i ord n
unfolding survey
survey-AllHandedOver i ord zero plan e = (e, λ k l m. absurd (ground (arith, l, m)))
survey-AllHandedOver i ord (suc n) plan e =
    let t = survey-AllHandedOver i (ord + 1) n (inspect i ord (pod_at ord i.pods) plan) e in
    let h = inspect-hold i ord (pod_at ord i.pods) plan t.0 in
    (
      h.0,
      λ k l m. elim (Bool-cases (ord == k)) [
        | inl c ↦ subst (λ x. IsHandedOver i (pod_at x i.pods)) (ground (arith, c)) h.1
        | inr c ↦ t.1 k (ground (arith, c, l)) (ground (arith, m))
      ],
    )

pub survey-of_AllHandedOver :
    (i : ShardRolloutInput) (ord n : ℕ) (plan : ShardRolloutPlan)
    → AllHandedOver i ord n
    → survey i ord n plan ≡ plan
unfolding survey
survey-of_AllHandedOver i ord zero plan h = refl
survey-of_AllHandedOver i ord (suc n) plan h =
    rw
      (inspect-of_IsHandedOver i ord (pod_at ord i.pods) plan (h ord (ground arith) (ground arith)))
      (survey-of_AllHandedOver i (ord + 1) n plan
        (λ k l m. h k (ground (arith, l)) (ground (arith, m))))
