-- ===== src/Capture/Examples.antt =====
-- An instance whose Sentinels serve a stranger, over its first and second quarantine.
use littlered.Prelude.{
  ◌≡◌, refl, ◌≢◌, ◌↔◌, ◌⊎◌, inl, inr, true, false, none, some, List, [], ◌∷◌, String, Bool, ℕ,
  arith, sym, ◌∙◌, All,
}
use littlered.Prelude.Int.{ℤ, pos}
use littlered.Replication.State.{ProbeFailure, RedisNodeState, ReplicationState, values}
use littlered.Replication.Examples.{chain_b}
use littlered.Replication.Sentinels.Examples.{sentinel}
use littlered.Capture.{plan_forsaken, armed}
use littlered.Capture.Evidence.{CapturedBy}
use littlered.Capture.Verdict.{Lasted, captured_iff, forsaken_iff}
use littlered.Capture.Quarantine.{CaptureStatus, Pass, quarantine_plan_of, capture_pass}
use littlered.Capture.Quarantine.Lifecycle.{
  done, then_step, passed, fresh, armings_after, latched-Stays,
}
use littlered.Capture.Quarantine.Safety.{IsExpendable, arm-IsExpendable}

-- A replica that has the copy of the stranger's data.
abbrev follower : RedisNodeState
follower = record chain_b { master_host = "10.9.9.9" }

abbrev stolen : ReplicationState
stolen = record {
  redis_nodes = ("10.0.0.2", follower) ∷ [];
  sentinel_nodes =
      ("s0", sentinel "s0" true "10.9.9.9") ∷ ("s1", sentinel "s1" true "10.9.9.9") ∷ [];
  live_topology_ips = "10.0.0.2" ∷ [];
  owned_ips = "10.0.0.2" ∷ [];
  real_master_ip = "";
  failover_reported = false;
  failover_progressing = false;
}

abbrev look : ℕ → Pass
look now = record {
  gathered = stolen;
  redis_ready = [];
  rolling = false;
  dangerous = false;
  now = pos now;
  written = pos now;
}

abbrev suspected : CaptureStatus
suspected = record (fresh true) { forsaken_since = some (pos 0) }

abbrev spent : CaptureStatus
spent = record suspected { quarantined_since = some (pos 0); quarantine_attempts = 2 }

captured_iff_example :
    (((plan_forsaken stolen none (pos 0) false).captured ≡ true)
      × ((plan_forsaken stolen none (pos 0) false).foreign_master ≡ "10.9.9.9"))
    ↔ (CapturedBy stolen "10.9.9.9" × ((armed none ≡ true) ⊎ (false ≡ false)))
captured_iff_example = captured_iff stolen none (pos 0) false "10.9.9.9"

forsaken_iff_example :
    (((plan_forsaken stolen (some (pos 0)) (pos 30000000000) false).forsaken ≡ true)
      × ((plan_forsaken stolen (some (pos 0)) (pos 30000000000) false).foreign_master ≡ "10.9.9.9"))
    ↔ (CapturedBy stolen "10.9.9.9" × Lasted (some (pos 0)) (pos 30000000000))
forsaken_iff_example = forsaken_iff stolen (some (pos 0)) (pos 30000000000) false "10.9.9.9"

stolen_arms : (quarantine_plan_of (look 30000000000) suspected).arm ≡ true
unfolding quarantine_plan_of plan_forsaken littlered.Replication.State.is_ours
    littlered.Replication.Sentinels.flagged_down littlered.Prelude.Int.◌-ℤ◌
stolen_arms = refl

arm-IsExpendable_example :
    (foreign : String) × CapturedBy stolen foreign
    × Lasted (some (pos 0)) (pos 30000000000)
    × All (IsExpendable [] foreign) (values stolen.redis_nodes)
arm-IsExpendable_example = arm-IsExpendable (look 30000000000) suspected stolen_arms

abbrev twice : CaptureStatus
twice = capture_pass (look 30000000000) (capture_pass (look 0) (fresh false))

-- The armings of these two passes.
abbrev counted : ℕ
counted =
    armings_after (look 30000000000) (capture_pass (look 0) (fresh false))
      (armings_after (look 0) (fresh false) 0)

quarantined_test :
    (capture_pass (look 30000000000) (capture_pass (look 0) (fresh false))).quarantine_attempts ≡ 1
unfolding capture_pass plan_forsaken littlered.Replication.State.is_ours
    littlered.Replication.Sentinels.flagged_down littlered.Prelude.Int.◌-ℤ◌
quarantined_test = refl

latched-Stays_example :
    (quarantine_plan_of (look 900000000000) (capture_pass (look 0) spent)).scale_to_zero ≡ true
latched-Stays_example =
    latched-Stays spent (capture_pass (look 0) spent) (look 900000000000) (refl, refl)
      (then_step done (passed (look 0)))
