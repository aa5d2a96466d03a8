-- ===== src/Capture/Quarantine.antt =====
-- internal/controller/quarantine_plan.go: the quarantine of a forsaken instance, and from
-- internal/controller/littlered_controller.go what setForsaken and clearForsaken write of its status.
pub mod Lifecycle
pub mod Safety
use littlered.Prelude.{
  ℕ, suc, ◌+◌, Bool, true, false, not, ◌&&◌, ◌||◌, Option, none, some, List, [], ◌∷◌, String, ◌==◌,
  string_eq, if◌then◌else◌, ltb, leb, any, nat_eq,
}
use littlered.Prelude.Int.{ℤ, pos, ◌-ℤ◌, ltb_ℤ}
use littlered.Replication.State.{RedisNodeState, ReplicationState, lookup, unprovably_empty, values}
use littlered.Capture.{ForsakenPlan, plan_forsaken, sentinel_process_replicas}

pub data QuarantinePhase : Type 0 where
  clear hold_suspected hold_data_present hold_data_unknown start settling release latched :
      QuarantinePhase

abbrev pub quarantine_settle_period : ℤ
quarantine_settle_period = pos 120000000000

abbrev pub quarantine_attempt_limit : ℕ
quarantine_attempt_limit = 2

abbrev pub quarantine_attempt_limit_dangerous : ℕ
quarantine_attempt_limit_dangerous = 1

pub record QuarantineInput : Type 0 where
  pub captured : Bool
  pub forsaken : Bool
  pub data_at_risk : Bool
  pub data_unverified : Bool
  pub quarantined_since : Option ℤ
  pub attempts : ℕ
  pub dangerous : Bool
  pub now : ℤ

pub record QuarantinePlan : Type 0 where
  pub phase : QuarantinePhase
  pub scale_to_zero : Bool
  pub arm : Bool
  pub clear : Bool
  pub next_attempts : ℕ
  pub attempt_limit : ℕ

abbrev pub limit_of : QuarantineInput → ℕ
limit_of i = if i.dangerous then quarantine_attempt_limit_dangerous else quarantine_attempt_limit

abbrev pub in_phase : QuarantineInput → QuarantinePhase → Bool → QuarantinePlan
in_phase i phase scale_to_zero = record {
  phase = phase;
  scale_to_zero = scale_to_zero;
  arm = false;
  clear = false;
  next_attempts = i.attempts;
  attempt_limit = limit_of i;
}

-- The quarantine is in force.
unfoldable pub keep : QuarantineInput → ℤ → QuarantinePlan
keep i since =
    if leb (limit_of i) i.attempts
    then in_phase i latched true
    else if ltb_ℤ (i.now -ℤ since) quarantine_settle_period
    then in_phase i settling true
    else record (in_phase i release false) { clear = true }

unfoldable pub consider : QuarantineInput → QuarantinePlan
consider i =
    if not i.captured
    then in_phase i QuarantinePhase.clear false
    else if i.data_at_risk
    then in_phase i hold_data_present false
    else if i.data_unverified
    then in_phase i hold_data_unknown false
    else if not i.forsaken
    then in_phase i hold_suspected false
    else record (in_phase i start true) { arm = true; next_attempts = i.attempts + 1 }

unfoldable pub by_marker : QuarantineInput → Option ℤ → QuarantinePlan
unfolding keep consider
by_marker i none = consider i
by_marker i (some since) = keep i since

unfoldable pub plan_quarantine : QuarantineInput → QuarantinePlan
unfolding by_marker
plan_quarantine i = by_marker i i.quarantined_since

-- The kubelet calls the pod Ready, or has no view of it.
abbrev pub maybe_ready : Option Bool → Bool
maybe_ready none = true
maybe_ready (some ready) = ready

unfoldable pub is_unverified : List (String × Bool) → RedisNodeState → Bool
unfolding unprovably_empty lookup
is_unverified redis_ready rn =
    not rn.reachable && (unprovably_empty rn || maybe_ready (lookup rn.pod_name redis_ready))

abbrev pub captors_copy : String → RedisNodeState → Bool
captors_copy foreign_master rn =
    not (foreign_master == "") && (rn.master_host == foreign_master && rn.link_status == "up")

unfoldable pub is_at_risk : String → RedisNodeState → Bool
is_at_risk foreign_master rn =
    rn.reachable && (ltb_ℤ (pos 0) rn.keys && not (captors_copy foreign_master rn))

-- The two answers, at risk and unverified. There is a state.
unfoldable pub quarantine_data_risk : ReplicationState → String → List (String × Bool) → Bool × Bool
unfolding is_unverified is_at_risk
quarantine_data_risk s foreign_master redis_ready = (
  any (is_at_risk foreign_master) (values s.redis_nodes),
  any (is_unverified redis_ready) (values s.redis_nodes),
)

-- The fields of the status that carry the capture across passes, and whether the phase is Running.
pub record CaptureStatus : Type 0 where
  pub forsaken_since : Option ℤ
  pub quarantined_since : Option ℤ
  pub quarantine_attempts : ℕ
  pub running : Bool

-- `if latest.Status.ForsakenSince == nil`.
abbrev pub or_stamp : Option ℤ → ℤ → Option ℤ
or_stamp none t = some t
or_stamp (some since) t = some since

unfoldable pub set_forsaken : CaptureStatus → ℤ → QuarantinePlan → CaptureStatus
set_forsaken st t q = record st {
  forsaken_since = or_stamp st.forsaken_since t;
  quarantined_since = if q.arm then some t else st.quarantined_since;
  quarantine_attempts = if q.arm then q.next_attempts else st.quarantine_attempts;
}

-- The early return leaves these fields as the update would.
unfoldable pub clear_forsaken : CaptureStatus → QuarantinePlan → CaptureStatus
clear_forsaken st q =
    let clear_attempts = st.running && not (st.quarantine_attempts == 0) in
    record st {
      forsaken_since = none;
      quarantined_since = if q.clear || clear_attempts then none else st.quarantined_since;
      quarantine_attempts = if clear_attempts then 0 else st.quarantine_attempts;
    }

-- What one pass of reconcileSentinelCluster sees; `written` is the time of the write.
pub record Pass : Type 0 where
  pub gathered : ReplicationState
  pub redis_ready : List (String × Bool)
  pub rolling : Bool
  pub dangerous : Bool
  pub now : ℤ
  pub written : ℤ

unfoldable pub forsaken_plan_of : Pass → CaptureStatus → ForsakenPlan
forsaken_plan_of p st = plan_forsaken p.gathered st.forsaken_since p.now p.rolling

unfoldable pub quarantine_input_of : Pass → CaptureStatus → QuarantineInput
unfolding forsaken_plan_of quarantine_data_risk
quarantine_input_of p st =
    let f = forsaken_plan_of p st in
    let (at_risk, unverified) = quarantine_data_risk p.gathered f.foreign_master p.redis_ready in
    record {
      captured = f.captured;
      forsaken = f.forsaken;
      data_at_risk = at_risk;
      data_unverified = unverified;
      quarantined_since = st.quarantined_since;
      attempts = st.quarantine_attempts;
      dangerous = p.dangerous;
      now = p.now;
    }

unfoldable pub quarantine_plan_of : Pass → CaptureStatus → QuarantinePlan
unfolding quarantine_input_of plan_quarantine
quarantine_plan_of p st = plan_quarantine (quarantine_input_of p st)

unfoldable pub settle_status : CaptureStatus → ℤ → Bool → QuarantinePlan → CaptureStatus
unfolding set_forsaken clear_forsaken
settle_status st written captured q =
    if q.scale_to_zero
    then set_forsaken st written q
    else if captured
    then set_forsaken st written q
    else clear_forsaken st q

unfoldable pub capture_pass : Pass → CaptureStatus → CaptureStatus
unfolding forsaken_plan_of quarantine_plan_of settle_status
capture_pass p st =
    settle_status st p.written (forsaken_plan_of p st).captured (quarantine_plan_of p st)

abbrev mode_sentinel : String
mode_sentinel = "sentinel"

abbrev sentinel_redis_replicas : ℕ
sentinel_redis_replicas = 3

-- There is no verdict before the gather.
unfoldable pub ungathered : CaptureStatus → Bool → ℤ → QuarantineInput
ungathered st dangerous now = record {
  captured = false;
  forsaken = false;
  data_at_risk = false;
  data_unverified = false;
  quarantined_since = st.quarantined_since;
  attempts = st.quarantine_attempts;
  dangerous = dangerous;
  now = now;
}

-- The replicas of Redis and of Sentinel that are asked for before the gather.
unfoldable pub sentinel_desired_replicas : String → CaptureStatus → Bool → ℤ → ℕ × ℕ
unfolding plan_quarantine ungathered
sentinel_desired_replicas mode st dangerous now =
    if not (mode == mode_sentinel)
    then (sentinel_redis_replicas, sentinel_process_replicas)
    else if (plan_quarantine (ungathered st dangerous now)).scale_to_zero
    then (0, 0)
    else (sentinel_redis_replicas, sentinel_process_replicas)
