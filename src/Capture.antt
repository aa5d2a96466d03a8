-- ===== src/Capture.antt =====
-- internal/controller/forsaken_plan.go: whether another Sentinel deployment has captured the instance.
-- A *metav1.Time is an option, in which `none` is nil and the zero time alike; times and durations
-- are nanoseconds.
pub mod Evidence
pub mod Verdict
pub mod Quarantine
mod Examples
use littlered.Prelude.{
  ℕ, suc, ◌+◌, ◌/◌, Bool, true, false, not, ◌&&◌, ◌||◌, Option, none, some, List, [], ◌∷◌, ◌++◌,
  String, ◌==◌, string_eq, if◌then◌else◌, ltb, any,
}
use littlered.Prelude.Int.{ℤ, pos, ◌-ℤ◌, ltb_ℤ}
use littlered.Replication.State.{
  MonitoredMaster, RedisNodeState, ReplicationState, SentinelNodeState, is_ours, values,
}
use littlered.Replication.Sentinels.{flagged_down, is_redis_master}

-- time.Second.
abbrev pub second : ℕ
second = 1000000000

abbrev pub forsaken_cooldown : ℤ
forsaken_cooldown = pos 30000000000

abbrev pub sentinel_process_replicas : ℕ
sentinel_process_replicas = 3

abbrev pub forsaken_monitoring_floor : ℕ
forsaken_monitoring_floor = sentinel_process_replicas / 2 + 1

pub record ForsakenPlan : Type 0 where
  pub captured : Bool
  pub forsaken : Bool
  pub foreign_master : String

abbrev pub no_verdict : ForsakenPlan
no_verdict = record { captured = false; forsaken = false; foreign_master = "" }

-- The name of the desired master is not read here.
abbrev pub desired : SentinelNodeState → MonitoredMaster
desired sn = record { name = ""; ip = sn.master_ip; flags = sn.master_flags; failover_state = "" }

unfoldable pub monitored_addresses : SentinelNodeState → List MonitoredMaster
monitored_addresses sn = (if sn.monitoring then desired sn ∷ [] else []) ++ sn.monitored_masters

-- One turn of the inner loop; `none` is the return without a verdict.
unfoldable pub weigh : ReplicationState → MonitoredMaster → Option String → Option String
weigh s m none = none
weigh s m (some foreign) =
    if m.ip == ""
    then none
    else if not (foreign == "") && not (foreign == m.ip)
    then none
    else if is_ours s m.ip || flagged_down m.flags
    then none
    else some m.ip

unfoldable pub weigh_all : ReplicationState → List MonitoredMaster → Option String → Option String
unfolding weigh
weigh_all s [] foreign = foreign
weigh_all s (m ∷ ms) foreign = weigh_all s ms (weigh s m foreign)

-- `monitoring++` where a Sentinel has an observation.
abbrev pub speaks : SentinelNodeState → List MonitoredMaster → Bool
speaks sn [] = false
speaks sn (m ∷ ms) = sn.reachable

unfoldable pub hear :
    ReplicationState
    → SentinelNodeState
    → List MonitoredMaster
    → Option String × ℕ
    → Option String × ℕ
unfolding weigh_all
hear s sn observed (foreign, monitoring) =
    if speaks sn observed
    then (weigh_all s observed foreign, suc monitoring)
    else (foreign, monitoring)

unfoldable pub hear_all :
    ReplicationState → List SentinelNodeState → Option String × ℕ → Option String × ℕ
unfolding hear monitored_addresses
hear_all s [] acc = acc
hear_all s (sn ∷ sns) acc = hear_all s sns (hear s sn (monitored_addresses sn) acc)

unfoldable pub sign : ReplicationState → Option String × ℕ → Option String
sign s (none, monitoring) = none
sign s (some foreign, monitoring) =
    if ltb monitoring forsaken_monitoring_floor
    then none
    else if any is_redis_master (values s.redis_nodes)
    then none
    else some foreign

-- `none` is `false, ""`.
unfoldable pub forsaken_signature : ReplicationState → Option String
unfolding hear_all sign
forsaken_signature s = sign s (hear_all s (values s.sentinel_nodes) (some "", 0))

abbrev pub armed : Option ℤ → Bool
armed none = false
armed (some since) = true

abbrev pub has_cooled : Option ℤ → ℤ → Bool
has_cooled none now = false
has_cooled (some since) now = not (ltb_ℤ (now -ℤ since) forsaken_cooldown)

unfoldable pub verdict : Option String → Option ℤ → ℤ → ForsakenPlan
verdict none since now = no_verdict
verdict (some foreign) since now = record {
  captured = true;
  forsaken = has_cooled since now;
  foreign_master = foreign;
}

unfoldable pub plan_forsaken : ReplicationState → Option ℤ → ℤ → Bool → ForsakenPlan
unfolding forsaken_signature verdict
plan_forsaken s since now rolling =
    if rolling && not (armed since) then no_verdict else verdict (forsaken_signature s) since now
