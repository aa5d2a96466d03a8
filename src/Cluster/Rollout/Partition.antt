-- ===== src/Cluster/Rollout/Partition.antt =====
-- How the partition of a shard moves: it is the cursor of the update.
use littlered.Prelude.{
  ℕ, suc, ◌+◌, ◌-◌, ◌≤◌, ◌<◌, ◌≡◌, refl, sym, ap, ◌∙◌, ◌≢◌, ◌⊎◌, inl, inr, ◌↔◌, true, false, Option,
  none, some, arith, Bool-cases, ◌==◌, string_eq, nat_eq,
}
use littlered.Prelude.Int.{ℤ}
use mathlib.Core.Option.{some-injective}
use text.Mathlib.TextEquality.{eq_iff}
use littlered.Cluster.Rollout.{
  ShardRolloutInput, ShardRolloutPlan, no_hold, ungated, start, advance, hold, complete, plan_of,
  current_partition, survey, conclude, observes_settled, plan_shard_rollout_partition, clamp,
}
use littlered.Cluster.Rollout.Survey.{
  AllHandedOver, survey_partition, survey-AllHandedOver, survey-of_AllHandedOver,
}

-- The ordinals from the partition to the highest are handed over.
abbrev pub IsRedundant : ShardRolloutInput → Type 0
IsRedundant i =
    AllHandedOver i (current_partition i) (i.replicas_per_shard + 1 - current_partition i)

clamp_bound : (o : Option ℤ) (n : ℕ) → clamp o n ≤ n
clamp_bound none n = ground arith
clamp_bound (some p) n = ground arith

pub current_partition_bound : (i : ShardRolloutInput) → current_partition i ≤ i.replicas_per_shard
unfolding current_partition
current_partition_bound i = clamp_bound i.applied_partition i.replicas_per_shard

conclude-cases :
    (c : ℕ) (plan : ShardRolloutPlan)
    → plan.partition ≡ some c
    → ((conclude c plan).verdict ≡ hold) × ((conclude c plan).partition ≡ some c)
      ⊎ ((plan.hold_reason ≡ no_hold)
          × (0 < c)
          × ((conclude c plan).verdict ≡ advance)
          × ((conclude c plan).partition ≡ some (c - 1)))
unfolding conclude
conclude-cases c plan e = ground (arith, e)

conclude-advances :
    (c : ℕ) (plan : ShardRolloutPlan)
    → plan.hold_reason ≡ no_hold
    → 0 < c
    → (conclude c plan).verdict ≡ advance
unfolding conclude
conclude-advances c plan e h = rw e (ground (arith, h))

-- The last two steps, over the pods.
abbrev gated : ShardRolloutInput → ShardRolloutPlan
gated i = conclude (current_partition i) (
    survey i (current_partition i) (i.replicas_per_shard + 1 - current_partition i)
      (plan_of hold (some (current_partition i))))

gated-cases :
    (i : ShardRolloutInput)
    → (((gated i).verdict ≡ hold) × ((gated i).partition ≡ some (current_partition i)))
      ⊎ (IsRedundant i
          × (0 < current_partition i)
          × ((gated i).verdict ≡ advance)
          × ((gated i).partition ≡ some (current_partition i - 1)))
gated-cases i =
    let c = current_partition i in
    let n = i.replicas_per_shard + 1 - c in
    let seen = survey i c n (plan_of hold (some c)) in
    elim (conclude-cases c seen (survey_partition i c n (plan_of hold (some c)))) [
      | inl h ↦ inl h
      | inr h ↦ inr ((survey-AllHandedOver i c n (plan_of hold (some c)) h.0).1, h.1, h.2, h.3)
    ]

gated-advances :
    (i : ShardRolloutInput) → IsRedundant i → 0 < current_partition i → (gated i).verdict ≡ advance
gated-advances i h l =
    let c = current_partition i in
    let n = i.replicas_per_shard + 1 - c in
    conclude-advances c (survey i c n (plan_of hold (some c)))
      (rw (survey-of_AllHandedOver i c n (plan_of hold (some c)) h) refl) l

-- The template is applied and not settled, in a shard that has replicas.
pub record IsRolling (i : ShardRolloutInput) : Type 0 where
  pub replicated : 0 < i.replicas_per_shard
  pub applied : i.applied_hash ≡ i.desired_hash
  pub unsettled : observes_settled i ≡ false

plan-cases :
    (i : ShardRolloutInput)
    → ((i.replicas_per_shard ≡ 0) × (plan_shard_rollout_partition i ≡ plan_of ungated none))
      ⊎ (((i.applied_hash ≢ i.desired_hash)
            × (plan_shard_rollout_partition i ≡ plan_of start (some i.replicas_per_shard)))
          ⊎ (((observes_settled i ≡ true)
                × (plan_shard_rollout_partition i ≡ plan_of complete (some 0)))
              ⊎ (IsRolling i × (plan_shard_rollout_partition i ≡ gated i))))
unfolding plan_shard_rollout_partition
plan-cases i = elim (Bool-cases (i.replicas_per_shard == 0)) [
  | inl a ↦ inl (ground (arith, a), rw a refl)
  | inr a ↦ elim (Bool-cases (i.applied_hash == i.desired_hash)) [
    | inr b ↦
        inr
          (inl (λ e. ground (arith, (eq_iff i.applied_hash i.desired_hash).1 e, b), rw (a, b) refl))
    | inl b ↦ elim (Bool-cases (observes_settled i)) [
      | inl c ↦ inr (inr (inl (c, rw (a, b, c) refl)))
      | inr c ↦ inr (
          inr (
            inr (
              record {
                replicated = ground (arith, a);
                applied = (eq_iff i.applied_hash i.desired_hash).0 b;
                unsettled = c;
              },
              rw (a, b, c) refl,
            )))
    ]
  ]
]

-- planShardRolloutPartition advances exactly where the shard has replicas, the desired template is
-- applied and not settled, the partition is above 0, and every ordinal from it to the highest has a
-- pod that runs the new template, is Ready, and is a synced copy of the owner of the slots.
pub advance_iff :
    (i : ShardRolloutInput)
    → ((plan_shard_rollout_partition i).verdict ≡ advance)
      ↔ (IsRolling i × (0 < current_partition i) × IsRedundant i)
advance_iff i = elim (plan-cases i) [
  | inl (z, e) ↦ rw e (λ h. absurd (cc), λ h. absurd (ground (arith, h.0.replicated, z)))
  | inr (inl (d, e)) ↦ rw e (λ h. absurd (cc), λ h. absurd (d h.0.applied))
  | inr (inr (inl (c, e))) ↦ rw e (λ h. absurd (cc), λ h. absurd (ground (arith, h.0.unsettled, c)))
  | inr (inr (inr (r, e))) ↦ rw e (
    λ h. elim (gated-cases i) [ inl g ↦ absurd (ground (arith, g.0, h)) | inr g ↦ (r, g.1, g.0) ],
    λ h. gated-advances i h.2 h.1,
  )
]

-- A partition that planShardRolloutPartition sets is at most the highest ordinal. It is above the
-- partition that is applied only where the template changed. It is below only where the template is
-- settled, or by exactly one and with every pod from the applied partition on handed over.
pub partition_moves :
    (i : ShardRolloutInput) (p : ℕ)
    → (plan_shard_rollout_partition i).partition ≡ some p
    → (p ≤ i.replicas_per_shard)
      × (current_partition i < p → i.applied_hash ≢ i.desired_hash)
      × (p < current_partition i
          → (observes_settled i ≡ true) ⊎ ((suc p ≡ current_partition i) × IsRedundant i))
partition_moves i p e = elim (plan-cases i) [
  | inl (z, f) ↦ absurd (ground (arith, sym (ap (λ x. x.partition) f) ∙ e))
  | inr (inl (d, f)) ↦
      let q = some-injective i.replicas_per_shard p (sym (ap (λ x. x.partition) f) ∙ e) in
      (ground (arith, q), λ _. d, λ l. absurd (ground (arith, l, q, current_partition_bound i)))
  | inr (inr (inl (c, f))) ↦
      let q = some-injective 0 p (sym (ap (λ x. x.partition) f) ∙ e) in
      (ground (arith, q), λ l. absurd (ground (arith, l, q)), λ _. inl c)
  | inr (inr (inr (r, f))) ↦ elim (gated-cases i) [
    | inl g ↦
        let q =
          some-injective (current_partition i) p (sym g.1 ∙ sym (ap (λ x. x.partition) f) ∙ e) in
        (
          ground (arith, q, current_partition_bound i),
          λ l. absurd (ground (arith, l, q)),
          λ l. absurd (ground (arith, l, q)),
        )
    | inr g ↦
        let q =
          some-injective (current_partition i - 1) p
            (sym g.3 ∙ sym (ap (λ x. x.partition) f) ∙ e) in
        (
          ground (arith, q, current_partition_bound i),
          λ l. absurd (ground (arith, l, q)),
          λ _. inr (ground (arith, q, g.1), g.0),
        )
  ]
]
