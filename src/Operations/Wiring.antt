-- ===== src/Operations/Wiring.antt =====
-- internal/controller/operation_wiring.go: what planOperation reads from the status of an instance,
-- and what is written back. The conditions that are kept by name are reduced to the one of the
-- operations; the events and the retry on a conflict are left out.
pub mod Acknowledged
pub mod Passes
pub mod Clock
use littlered.Prelude.{
  ℕ, Bool, true, false, not, ◌&&◌, ◌||◌, Option, none, some, List, [], ◌∷◌, String, ◌==◌, string_eq,
  nat_eq, if◌then◌else◌, is_some,
}
use littlered.Prelude.Int.{ℤ}
use littlered.Operations.Plan.{
  Reason, converged, running, blocked, stalled, quarantined, seeded, Candidate, OperationStatus,
  OperationInput, OperationPlan,
}

-- A row of the registry: whether the operation exists on an instance, and the digest of the value
-- that the instance declares for it. The digest and the test are functions of the row; the texts that
-- only the admission rule and the tests of the registry read are left out.
pub record HeavyOperation (Spec : Type 0) : Type 0 where
  pub name : String
  pub applies : Option (Spec → Bool)
  pub fingerprint : Spec → String
  pub requires : List String
  pub stall_after : ℤ

pub record OperationAck : Type 0 where
  pub name : String
  pub fingerprint : String
  pub acknowledged_at : ℤ

-- The published condition; its status is `True` or not.
pub record OperationCondition : Type 0 where
  pub status : Bool
  pub reason : Reason
  pub message : String

-- What of the status of an instance the operations read and write.
pub record InstanceStatus : Type 0 where
  pub acknowledged_operations : List OperationAck
  pub quarantined_since : Option ℤ
  pub phase : String
  pub bootstrap_required : Bool
  pub operation : Option OperationStatus
  pub condition : Option OperationCondition

abbrev is_applied : {Spec : Type 0} → Option (Spec → Bool) → Spec → Bool
is_applied none lr = false
is_applied (some applies) lr = applies lr

unfoldable pub operation_candidates :
    {Spec : Type 0} → Spec → List (HeavyOperation Spec) → List Candidate
operation_candidates lr [] = []
operation_candidates lr (op ∷ ops) =
    if not (is_applied op.applies lr)
    then operation_candidates lr ops
    else record {
      name = op.name;
      fingerprint = op.fingerprint lr;
      requires = op.requires;
      stall_after = op.stall_after;
    }
      ∷ operation_candidates lr ops

-- `m[k] = v`.
unfoldable pub put : String → String → List (String × String) → List (String × String)
put k v [] = (k, v) ∷ []
put k v ((j, w) ∷ m) = if j == k then (k, v) ∷ m else (j, w) ∷ put k v m

unfoldable pub acks_onto : List (String × String) → List OperationAck → List (String × String)
acks_onto m [] = m
acks_onto m (a ∷ rest) = acks_onto (put a.name a.fingerprint m) rest

unfoldable pub build_operation_input :
    {Spec : Type 0} → List (HeavyOperation Spec) → Spec → InstanceStatus → Bool → ℤ → OperationInput
build_operation_input heavy lr st settled now = record {
  candidates = operation_candidates lr heavy;
  acks = acks_onto [] st.acknowledged_operations;
  quarantined = is_some st.quarantined_since;
  bootstrapping = st.phase == "" || st.bootstrap_required;
  settled = settled;
  driver_done = false;
  driver_blocked = false;
  active = st.operation;
  now = now;
}

-- `in.DriverDone, in.DriverBlocked = operationDriverReport(plan)`.
abbrev pub with_report : OperationInput → Bool × Bool → OperationInput
with_report inp report = record inp { driver_done = report.0; driver_blocked = report.1 }

unfoldable pub operation_condition_for : OperationPlan → OperationCondition
operation_condition_for plan = record {
  status = not (plan.report == "");
  reason = plan.reason;
  message =
      if plan.detail == "" then "No declared heavy operation is in progress." else plan.detail;
}

-- The row of one candidate.
unfoldable pub upsert_operation_ack : List OperationAck → Candidate → ℤ → List OperationAck
upsert_operation_ack [] c at =
    record { name = c.name; fingerprint = c.fingerprint; acknowledged_at = at } ∷ []
upsert_operation_ack (a ∷ rest) c at =
    if a.name == c.name
    then record a { fingerprint = c.fingerprint; acknowledged_at = at } ∷ rest
    else a ∷ upsert_operation_ack rest c at

unfoldable pub upsert_operation_acks : List OperationAck → List Candidate → ℤ → List OperationAck
upsert_operation_acks existing [] at = existing
upsert_operation_acks existing (c ∷ ack) at =
    upsert_operation_acks (upsert_operation_ack existing c at) ack at

-- `StartedAt` of the current operation, where it is the reported one.
unfoldable pub clock_of : OperationPlan → Option OperationStatus → ℤ → Option ℤ
clock_of plan none at = some at
clock_of plan (some current) at =
    if current.name == plan.report && is_some current.started_at
    then current.started_at
    else some at

unfoldable pub operation_status_for :
    OperationPlan → Option OperationStatus → ℤ → Option OperationStatus
unfolding clock_of
operation_status_for plan current at =
    if plan.report == ""
    then none
    else some (record {
      name = plan.report;
      started_at = clock_of plan current at;
      reason = plan.reason;
      pending = plan.pending;
    })

abbrev tag : Reason → ℕ
tag converged = 0
tag running = 1
tag blocked = 2
tag stalled = 3
tag quarantined = 4
tag seeded = 5

abbrev pub reason_equal : Reason → Reason → Bool
reason_equal a b = tag a == tag b

abbrev pub pending_equal : List String → List String → Bool
pending_equal [] [] = true
pending_equal [] (_ ∷ _) = false
pending_equal (_ ∷ _) [] = false
pending_equal (x ∷ xs) (y ∷ ys) = x == y && pending_equal xs ys

unfoldable pub operation_status_equal : Option OperationStatus → Option OperationStatus → Bool
operation_status_equal none none = true
operation_status_equal none (some b) = false
operation_status_equal (some a) none = false
operation_status_equal (some a) (some b) =
    a.name == b.name && reason_equal a.reason b.reason && pending_equal a.pending b.pending

-- `prev` is the condition that the status holds.
abbrev same_condition : Option OperationCondition → OperationCondition → Bool
same_condition none cond = false
same_condition (some prev) cond =
    (if prev.status then cond.status else not cond.status)
    && reason_equal prev.reason cond.reason
    && prev.message == cond.message

abbrev pub has_acks : List Candidate → Bool
has_acks [] = false
has_acks (_ ∷ _) = true

unfoldable pub is_unchanged : InstanceStatus → OperationPlan → ℤ → Bool
is_unchanged lr plan at =
    same_condition lr.condition (operation_condition_for plan)
    && not (has_acks plan.ack)
    && operation_status_equal lr.operation (operation_status_for plan lr.operation at)

-- The status of the instance after the pass, where `latest` is the one that the server holds and the
-- write succeeds.
unfoldable pub apply_operation_status :
    InstanceStatus → InstanceStatus → OperationPlan → ℤ → InstanceStatus
apply_operation_status lr latest plan at = if is_unchanged lr plan at then lr else record lr {
  condition = some (operation_condition_for plan);
  operation = operation_status_for plan latest.operation at;
  acknowledged_operations =
      if has_acks plan.ack
      then upsert_operation_acks latest.acknowledged_operations plan.ack at
      else latest.acknowledged_operations;
}
