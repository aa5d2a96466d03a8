-- ===== src/Cluster/Rollout.antt =====
-- internal/controller/cluster_rollout.go: the state-gated rolling update of one shard. What the code
-- reads of a Kubernetes object is a record of those fields. A time is nanoseconds, and `none` is the
-- zero time; a count of replicas that is not positive is 0, and an ordinal fits an int32.
pub mod Survey
pub mod Partition
pub mod Owner
pub mod Redundancy
mod Examples
use littlered.Prelude.{
  ℕ, zero, suc, ◌+◌, ◌-◌, Bool, true, false, not, ◌&&◌, ◌||◌, Option, none, some, List, [], ◌∷◌,
  ◌++◌, String, ◌==◌, string_eq, nat_eq, if◌then◌else◌, ltb,
}
use littlered.Prelude.Int.{ℤ, pos, pos_part, ◌-ℤ◌, ltb_ℤ, beq_ℤ}

pub record StatefulSetView : Type 0 where
  pub generation : ℤ
  pub observed_generation : ℤ
  pub update_revision : String
  pub current_revision : String
  pub spec_replicas : Option ℤ
  pub updated_replicas : ℤ
  pub ready_replicas : ℤ
  pub replicas : ℤ
  pub pod_spec_hash : String
  pub partition : Option ℤ

unfoldable pub settled_at : StatefulSetView → Option ℤ → Bool
settled_at sts none = false
settled_at sts (some want) =
    beq_ℤ sts.observed_generation sts.generation
    && not (sts.update_revision == "")
    && sts.update_revision == sts.current_revision
    && beq_ℤ sts.updated_replicas want
    && beq_ℤ sts.ready_replicas want
    && beq_ℤ sts.replicas want

unfoldable pub stateful_set_rollout_settled : Option StatefulSetView → Bool
unfolding settled_at
stateful_set_rollout_settled none = false
stateful_set_rollout_settled (some sts) = settled_at sts sts.spec_replicas

pub data ShardRolloutVerdict : Type 0 where
  ungated start advance hold complete : ShardRolloutVerdict

pub data ShardRolloutHold : Type 0 where
  no_hold pod_absent revision readiness redundancy settling : ShardRolloutHold

abbrev cluster_rollout_reattach_budget : ℤ
cluster_rollout_reattach_budget = pos 120000000000

pub record ShardRolloutPod : Type 0 where
  pub ordinal : ℕ
  pub pod_revision : String
  pub ready : Bool
  pub ready_since : Option ℤ
  pub attached_to_owner : Bool
  pub synced_with_owner : Bool
  pub is_owner : Bool

pub record ShardRolloutInput : Type 0 where
  pub shard_idx : ℕ
  pub replicas_per_shard : ℕ
  pub desired_hash : String
  pub applied_hash : String
  pub generation : ℤ
  pub observed_generation : ℤ
  pub update_revision : String
  pub current_revision : String
  pub applied_partition : Option ℤ
  pub pods : List ShardRolloutPod
  pub now : ℤ

pub record ShardRolloutPlan : Type 0 where
  pub verdict : ShardRolloutVerdict
  pub partition : Option ℕ
  pub hold_reason : ShardRolloutHold
  pub hold_pod : Option ℕ
  pub blocked : Bool
  pub blocked_pods : List ℕ

abbrev pub plan_of : ShardRolloutVerdict → Option ℕ → ShardRolloutPlan
plan_of verdict partition = record {
  verdict = verdict;
  partition = partition;
  hold_reason = no_hold;
  hold_pod = none;
  blocked = false;
  blocked_pods = [];
}

-- Raised to 0 and lowered to the highest ordinal.
abbrev clamp : Option ℤ → ℕ → ℕ
clamp none highest = 0
clamp (some p) highest = if ltb highest (pos_part p) then highest else pos_part p

unfoldable pub current_partition : ShardRolloutInput → ℕ
current_partition i = clamp i.applied_partition i.replicas_per_shard

-- `now.Before(since.Add(budget))`.
abbrev stalled_for : Option ℤ → ℤ → Bool
stalled_for none now = false
stalled_for (some since) now = not (ltb_ℤ (now -ℤ since) cluster_rollout_reattach_budget)

unfoldable pub pod_stalled : ShardRolloutInput → ShardRolloutPod → Bool
pod_stalled i pod =
    if pod.is_owner || pod.attached_to_owner then false else stalled_for pod.ready_since i.now

-- `hold`: the first reason stays.
unfoldable pub hold_by : ShardRolloutHold → ℕ → ShardRolloutPlan → ShardRolloutPlan
hold_by reason ord plan = elim plan.hold_reason [
  | no_hold ↦ record plan { hold_reason = reason; hold_pod = some ord }
  | _ ↦ plan
]

-- `byOrdinal[ord]`: the last pod of that ordinal.
unfoldable pub pod_at : ℕ → List ShardRolloutPod → Option ShardRolloutPod
pod_at ord [] = none
pod_at ord (p ∷ ps) = elim (pod_at ord ps) [
  | none ↦ if p.ordinal == ord then some p else none
  | some q ↦ some q
]

abbrev block : Bool → ℕ → ShardRolloutPlan → ShardRolloutPlan
block stalled ord plan =
    if stalled
    then record plan { blocked = true; blocked_pods = plan.blocked_pods ++ (ord ∷ []) }
    else plan

-- One turn of the survey.
unfoldable pub inspect :
    ShardRolloutInput → ℕ → Option ShardRolloutPod → ShardRolloutPlan → ShardRolloutPlan
unfolding hold_by pod_stalled
inspect i ord none plan = hold_by pod_absent ord plan
inspect i ord (some pod) plan =
    if i.update_revision == "" || not (pod.pod_revision == i.update_revision)
    then hold_by revision ord plan
    else if not pod.ready
    then hold_by readiness ord plan
    else if not pod.synced_with_owner
    then block (pod_stalled i pod) ord (hold_by redundancy ord plan)
    else plan

-- The `n` ordinals from `ord` on.
unfoldable pub survey : ShardRolloutInput → ℕ → ℕ → ShardRolloutPlan → ShardRolloutPlan
unfolding inspect pod_at
survey i ord zero plan = plan
survey i ord (suc n) plan = survey i (ord + 1) n (inspect i ord (pod_at ord i.pods) plan)

unfoldable pub conclude : ℕ → ShardRolloutPlan → ShardRolloutPlan
conclude partition plan = elim plan.hold_reason [
  | no_hold ↦
      if ltb 0 partition
      then record plan { verdict = advance; partition = some (partition - 1) }
      else record plan { verdict = hold; hold_reason = settling }
  | _ ↦ record plan { verdict = hold }
]

abbrev pub observes_settled : ShardRolloutInput → Bool
observes_settled i =
    beq_ℤ i.observed_generation i.generation
    && not (i.update_revision == "")
    && i.update_revision == i.current_revision

-- The verdict of the plan that the survey starts with is "", and is overwritten at the end.
unfoldable pub plan_shard_rollout_partition : ShardRolloutInput → ShardRolloutPlan
unfolding current_partition survey conclude
plan_shard_rollout_partition i =
    if i.replicas_per_shard == 0
    then plan_of ungated none
    else if not (i.applied_hash == i.desired_hash)
    then plan_of start (some i.replicas_per_shard)
    else if observes_settled i
    then plan_of complete (some 0)
    else let partition = current_partition i in
      conclude partition
        (survey i partition (i.replicas_per_shard + 1 - partition) (plan_of hold (some partition)))
