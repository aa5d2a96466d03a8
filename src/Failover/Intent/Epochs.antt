-- ===== src/Failover/Intent/Epochs.antt =====
-- What the resolved intent is, and what the re-authorization stamps.
use littlered.Prelude.{◌≡◌, ◌≢◌, Bool, true, false, ◌&&◌, List, String, ◌==◌, string_eq, nat_eq, In}
use littlered.Prelude.Int.{pos, ◌<ℤ◌}
use littlered.Replication.State.{role_master}
use littlered.Failover.Intent.{
  FailoverPodView, FailoverStamp, resolve_failover_intent, replica_stamp,
}

-- The pod is assigned the role of master.
abbrev pub is_assigned_master : FailoverPodView → Bool
is_assigned_master p = p.has_assignment && p.assigned_role == role_master

-- A pod that the re-authorization may stamp, and its stamp.
pub record Reauthorized (pods : List FailoverPodView) (live_master_ip : String) (st : FailoverStamp)
    : Type 0 where
  pub pod : FailoverPodView
  pub listed : In pod pods
  pub stamp : st ≡ replica_stamp pod live_master_ip st.epoch
  pub unintended : pod.name ≢ (resolve_failover_intent pods).master_name
  pub apart : pod.ip ≢ live_master_ip
  pub staying : pod.terminating ≡ false
  pub fresh :
      pod.has_assignment ≡ true
      → (resolve_failover_intent pods).max_epoch <ℤ pos 9223372036854775807
      → (q : FailoverPodView) → In q pods
      → q.has_assignment ≡ true
      → q.epoch <ℤ st.epoch
