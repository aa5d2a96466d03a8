-- ===== src/Naming.antt =====
-- internal/controller/stale_master_name_plan.go: which names of masters the Sentinels are told to forget
-- (Rule N), and from internal/controller/operation_wiring.go what that reports of a rename. There is a
-- gathered state. The sentences for a human are not modelled, nor the lists of names that only they use.
mod Prune
mod Driver
mod Examples
use littlered.Prelude.{
  ℕ, Bool, true, false, not, ◌&&◌, ◌||◌, Option, none, some, List, [], ◌∷◌, ◌++◌, map, String, ◌==◌,
  string_eq, nat_eq, if◌then◌else◌, ltb, any, select,
}
use littlered.Prelude.Sort.{by, sort_by}
use littlered.Prelude.Text.{str_ltb}
use littlered.Replication.State.{
  MonitoredMaster, RedisNodeState, ReplicationState, SentinelNodeState, contains, is_ours, lookup,
  values,
}
use littlered.Replication.Sentinels.{
  failover_in_progress, flagged_down, is_redis_master, reachable_sentinels,
}

pub data StaleNamesReason : Type 0 where
  converged pruning deferred foreign : StaleNamesReason

pub record StaleEntry : Type 0 where
  pub sentinel_ip : String
  pub sentinel_pod : String
  pub names : List String

pub record StaleMasterNamePlan : Type 0 where
  pub prune : List StaleEntry
  pub skipped : List String
  pub reason : StaleNamesReason
  pub gate : String

abbrev pub says : StaleNamesReason → String → StaleMasterNamePlan
says reason gate = record { prune = []; skipped = []; reason = reason; gate = gate }

unfoldable pub defer_stale_names : String → StaleMasterNamePlan
defer_stale_names gate = says deferred gate

abbrev pub stale_gate_rule0_pending : String
stale_gate_rule0_pending = "G6"

unfoldable pub stale_masters : String → SentinelNodeState → List MonitoredMaster
stale_masters desired sn = select (λ m. not (m.name == desired)) sn.monitored_masters

abbrev pub name_of : MonitoredMaster → String
name_of m = m.name

unfoldable pub has_desired : String → SentinelNodeState → Bool
has_desired desired sn = any (λ m. m.name == desired) sn.monitored_masters

-- An address that is not ours and not flagged down.
unfoldable pub is_unowned : ReplicationState → MonitoredMaster → Bool
unfolding flagged_down
is_unowned s m = not (is_ours s m.ip) && not (flagged_down m.flags)

abbrev pub is_failing_over : MonitoredMaster → Bool
is_failing_over m = failover_in_progress m.flags m.failover_state

abbrev pub non_empty {ℓ} : {A : Type ℓ} → List A → Bool
non_empty [] = false
non_empty (x ∷ xs) = true

abbrev pub is_reachable : SentinelNodeState → Bool
is_reachable sn = sn.reachable

-- What the survey asks of the reachable Sentinels.
unfoldable pub any_failover : List SentinelNodeState → Bool
any_failover sns = any (λ sn. any is_failing_over sn.monitored_masters) (select is_reachable sns)

unfoldable pub any_stale : String → List SentinelNodeState → Bool
unfolding stale_masters
any_stale desired sns = any (λ sn. non_empty (stale_masters desired sn)) (select is_reachable sns)

unfoldable pub any_unowned : ReplicationState → String → List SentinelNodeState → Bool
unfolding stale_masters is_unowned
any_unowned s desired sns =
    any (λ sn. any (is_unowned s) (stale_masters desired sn)) (select is_reachable sns)

-- The Sentinels with stale names, by whether they have the desired one.
unfoldable pub carriers : Bool → String → List SentinelNodeState → List SentinelNodeState
unfolding stale_masters has_desired
carriers with_desired desired sns =
    select
      (λ sn.
        non_empty (stale_masters desired sn)
        && (if with_desired then has_desired desired sn else not (has_desired desired sn)))
      (select is_reachable sns)

unfoldable pub entry_of : String → SentinelNodeState → StaleEntry
unfolding stale_masters sort_by
entry_of desired sn = record {
  sentinel_ip = sn.ip;
  sentinel_pod = sn.pod_name;
  names = sort_by str_ltb (map name_of (stale_masters desired sn));
}

unfoldable pub stale_entries : String → List SentinelNodeState → List StaleEntry
unfolding carriers entry_of sort_by
stale_entries desired sns =
    sort_by (by (λ e. e.sentinel_pod)) (map (entry_of desired) (carriers true desired sns))

unfoldable pub skipped_pods : String → List SentinelNodeState → List String
unfolding carriers sort_by
skipped_pods desired sns = sort_by str_ltb (map (λ sn. sn.pod_name) (carriers false desired sns))

abbrev living : Option RedisNodeState → Bool
living none = false
living (some m) = is_redis_master m

-- G2: a master of ours to keep monitoring.
unfoldable pub has_living_master : ReplicationState → Bool
unfolding lookup
has_living_master s =
    not (s.real_master_ip == "")
    && (contains s.real_master_ip s.live_topology_ips
        && living (lookup s.real_master_ip s.redis_nodes))

-- The last gates, over the entries.
unfoldable pub prune_entries : List StaleEntry → List String → StaleMasterNamePlan
unfolding defer_stale_names
prune_entries [] skipped = defer_stale_names stale_gate_rule0_pending
prune_entries (e ∷ es) skipped = record {
  prune = e ∷ es;
  skipped = skipped;
  reason = pruning;
  gate = "";
}

unfoldable pub plan_stale_master_names :
    ReplicationState → String → ℕ → Bool → Bool → StaleMasterNamePlan
unfolding defer_stale_names any_failover any_stale any_unowned stale_entries skipped_pods
    has_living_master prune_entries reachable_sentinels
plan_stale_master_names s desired quorum captured rolling =
    let sns = values s.sentinel_nodes in
    if captured
    then says foreign ""
    else if desired == ""
    then defer_stale_names "G1"
    else if not (any_stale desired sns)
    then says converged ""
    else if any_unowned s desired sns
    then (if rolling then defer_stale_names "G5" else says foreign "")
    else if not (has_living_master s)
    then defer_stale_names "G2"
    else if any_failover sns || s.failover_reported
    then defer_stale_names "G3"
    else if ltb (reachable_sentinels s) quorum || reachable_sentinels s == 0
    then defer_stale_names "G4"
    else prune_entries (stale_entries desired sns) (skipped_pods desired sns)

-- The two flags, done and blocked.
unfoldable pub operation_driver_report : StaleMasterNamePlan → Bool × Bool
operation_driver_report plan = elim plan.reason [
  | converged ↦ (true, false)
  | foreign ↦ (false, true)
  | deferred ↦ (false, not (plan.gate == stale_gate_rule0_pending))
  | pruning ↦ (false, false)
]
