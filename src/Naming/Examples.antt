-- ===== src/Naming/Examples.antt =====
-- A rename from "old" to "new": the old name is still monitored, and then is not.
use littlered.Prelude.{
  ◌≡◌, refl, ◌≢◌, ◌⊎◌, inl, inr, true, false, none, List, [], ◌∷◌, String, In, All, arith, sym, ◌∙◌,
}
use littlered.Prelude.Int.{pos}
use littlered.Replication.State.{MonitoredMaster, ReplicationState, SentinelNodeState, values}
use littlered.Replication.Examples.{chain_a, chain_b}
use littlered.Replication.Sentinels.Examples.{sentinel}
use littlered.Operations.Plan.{
  Candidate, OperationInput, plan_operation, queue, row_completed, operation_runnable, unseeded_of,
}
use littlered.Naming.{StaleEntry, plan_stale_master_names, operation_driver_report}
use littlered.Naming.Prune.{IsClear, IsPermitted, prune-IsPermitted}
use littlered.Naming.Driver.{IsScoped, rename_ack-IsScoped}

abbrev watch : String → MonitoredMaster
watch name = record { name = name; ip = "10.0.0.1"; flags = "master"; failover_state = "" }

abbrev renamed : List MonitoredMaster → ReplicationState
renamed ms = record {
  redis_nodes = ("10.0.0.1", chain_a) ∷ ("10.0.0.2", chain_b) ∷ [];
  sentinel_nodes = ("s0", record (sentinel "s0" true "10.0.0.1") { monitored_masters = ms }) ∷ [];
  live_topology_ips = "10.0.0.1" ∷ "10.0.0.2" ∷ [];
  owned_ips = "10.0.0.1" ∷ "10.0.0.2" ∷ [];
  real_master_ip = "10.0.0.1";
  failover_reported = false;
  failover_progressing = false;
}

abbrev leftover : ReplicationState
leftover = renamed (watch "new" ∷ watch "old" ∷ [])

abbrev entry : StaleEntry
entry = record { sentinel_ip = "s0"; sentinel_pod = "s0"; names = "old" ∷ [] }

prunes_old : (plan_stale_master_names leftover "new" 1 false false).prune ≡ entry ∷ []
unfolding plan_stale_master_names littlered.Replication.State.is_ours
    littlered.Replication.Sentinels.failover_in_progress
prunes_old = refl

prune-IsPermitted_example : IsClear leftover "new" 1 false × IsPermitted leftover "new" entry
prune-IsPermitted_example =
    prune-IsPermitted leftover "new" 1 false false entry (rw prunes_old (inl refl))

abbrev wanted : String
wanted = "new"

abbrev rename : Candidate
rename = record { name = "rename"; fingerprint = "new"; requires = []; stall_after = pos 0 }

abbrev pass : OperationInput
pass = record {
  candidates = rename ∷ [];
  acks = ("rename", "old") ∷ [];
  quarantined = false;
  bootstrapping = false;
  settled = true;
  driver_done = true;
  driver_blocked = false;
  active = none;
  now = pos 0;
}

abbrev scoped : ReplicationState
scoped = renamed (watch "new" ∷ [])

scoped_done :
    true ≡ (operation_driver_report (plan_stale_master_names scoped "new" 1 false false)).0
unfolding plan_stale_master_names operation_driver_report
scoped_done = refl

acks_rename : (plan_operation pass).ack ≡ rename ∷ []
unfolding plan_operation littlered.Prelude.Sort.sort_by littlered.Replication.State.lookup queue
    operation_runnable row_completed
acks_rename = refl

all_seeded : unseeded_of pass ≡ []
unfolding plan_operation littlered.Prelude.Sort.sort_by littlered.Replication.State.lookup
all_seeded = refl

rename_ack-IsScoped_example : (wanted ≢ "") × All (IsScoped wanted) (values scoped.sentinel_nodes)
rename_ack-IsScoped_example =
    rename_ack-IsScoped scoped "new" 1 false false pass rename scoped_done refl
      (λ m. rw all_seeded at m) (rw acks_rename (inl refl))
