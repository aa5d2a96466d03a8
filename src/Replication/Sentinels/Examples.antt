-- ===== src/Replication/Sentinels/Examples.antt =====
-- Three Sentinels over two pods: agreed, pinned to a dead master, and bare.
use littlered.Prelude.{
  ◌≡◌, refl, ◌↔◌, true, false, [], ◌∷◌, String, arith, Bool, ◌+◌, ◌/◌, ◌≤◌, ◌<◌, sym, ◌∙◌,
}
use littlered.Prelude.Int.{pos}
use text.Mathlib.TextEquality.{eq_iff}
use littlered.Replication.State.{ProbeFailure, ReplicationState, SentinelNodeState, is_ghost}
use littlered.Replication.Examples.{chain_a, chain_b}
use littlered.Replication.Sentinels.{
  determine_real_master, reachable_sentinels, sentinels_monitor_ghost_master, failover_stalled,
}
use littlered.Replication.Sentinels.Gates.{get_heal_actions}
use littlered.Replication.Sentinels.Votes.{votes}
use littlered.Replication.Sentinels.Fallback.{
  FallsBackTo, majority-RealMaster, fallback-FallsBackTo,
}
use littlered.Replication.Sentinels.Heal.{Converged, get_heal_actions-Converged}

abbrev pub sentinel : String → Bool → String → SentinelNodeState
sentinel name monitoring master = record {
  pod_name = name;
  ip = name;
  monitoring = monitoring;
  master_ip = master;
  reachable = true;
  replicas = [];
  master_failover_state = "";
  master_flags = "master";
  num_other_sentinels = pos 2;
  num_slaves = pos 1;
  monitored_masters = [];
  probe_failure = ProbeFailure.ok;
  probe_error = "";
}

abbrev pub watched : Bool → String → String → ReplicationState
watched monitoring master other = record {
  redis_nodes = ("10.0.0.1", chain_a) ∷ ("10.0.0.2", chain_b) ∷ [];
  sentinel_nodes =
      ("s0", sentinel "s0" monitoring master)
      ∷ ("s1", sentinel "s1" monitoring other)
      ∷ ("s2", sentinel "s2" monitoring master)
      ∷ [];
  live_topology_ips = "10.0.0.1" ∷ "10.0.0.2" ∷ [];
  owned_ips = "10.0.0.1" ∷ "10.0.0.2" ∷ [];
  real_master_ip = "";
  failover_reported = false;
  failover_progressing = false;
}

abbrev agreed : ReplicationState
agreed = watched true "10.0.0.1" "10.0.0.2"

abbrev pub pinned : ReplicationState
pinned = watched true "10.0.0.9" "10.0.0.2"

abbrev pub bare : ReplicationState
bare = watched false "" ""

agreed_master : reachable_sentinels agreed / 2 + 1 ≤ votes agreed "10.0.0.1"
unfolding reachable_sentinels
agreed_master = ground arith

pinned_to_ghost : sentinels_monitor_ghost_master pinned ≡ true
unfolding sentinels_monitor_ghost_master is_ghost
pinned_to_ghost = refl

bare_votes : (ip : String) → votes bare ip < reachable_sentinels bare / 2 + 1
unfolding reachable_sentinels
bare_votes ip = ground arith

bare_master : (determine_real_master bare).real_master_ip ≡ "10.0.0.1"
unfolding determine_real_master
bare_master = refl

majority-RealMaster_example : (determine_real_master agreed).real_master_ip ≡ "10.0.0.1"
majority-RealMaster_example =
    majority-RealMaster agreed "10.0.0.1" (record { won = agreed_master; live = refl })

fallback-FallsBackTo_example : FallsBackTo bare (determine_real_master bare).real_master_ip
fallback-FallsBackTo_example =
    fallback-FallsBackTo bare refl (λ ip h. ground (arith, bare_votes ip, h.won))
      (λ e. ground (arith, sym bare_master ∙ e, eq_iff "10.0.0.1" ""))

-- A failover that Sentinel reports in the state that no timer bounds, with the promoted pod down.
latched : SentinelNodeState
latched = record (sentinel "s0" true "10.0.0.1") {
  master_failover_state = "reconf_slaves";
  replicas = record { ip = "10.0.0.2"; port = "6379"; flags = "slave,s_down,promoted" } ∷ [];
}

latched_test : failover_stalled latched ≡ true
unfolding failover_stalled latched
latched_test = refl

get_heal_actions-Converged_example :
    let s = record agreed { real_master_ip = "10.0.0.1" } in
    (get_heal_actions s "mymaster" ≡ []) ↔ Converged s
get_heal_actions-Converged_example =
    get_heal_actions-Converged (record agreed { real_master_ip = "10.0.0.1" }) "mymaster"
      (λ e. ground (arith, e, eq_iff "10.0.0.1" ""))

heal_test :
    get_heal_actions (record agreed { real_master_ip = "10.0.0.1" }) "mymaster"
    ≡ "MONITOR 10.0.0.1 ON s1" ∷ "SLAVEOF 10.0.0.1 ON 10.0.0.2" ∷ []
unfolding get_heal_actions
heal_test = refl
