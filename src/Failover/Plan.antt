-- ===== src/Failover/Plan.antt =====
-- internal/controller/failover_plan.go: planFailover, the table of "who should be master", the
-- fence of an outgoing master, and the authorization to start as one.
pub mod Gates
pub mod Acting
pub mod Elections
use littlered.Prelude.{
  ℕ, Bool, true, false, not, ◌&&◌, ◌||◌, Option, none, some, List, [], ◌∷◌, String, ◌==◌, string_eq,
  if◌then◌else◌, length,
}
use littlered.Prelude.Int.{ℤ, ◌-ℤ◌, ltb_ℤ}
use littlered.Replication.State.{
  RedisNodeState, ReplicationState, auth_failed_redis_nodes, data_holders,
}
use littlered.Failover.Intent.{FailoverPodView}
use littlered.Replication.BestHolder.{Best, best_data_holder}

pub data FailoverAction : Type 0 where
  stay wait seed promote refuse unsafe_elect refuse_unverified : FailoverAction

pub record FailoverPlan : Type 0 where
  pub action : FailoverAction
  pub master_ip : String
  pub diverged : Bool
  pub forked : Bool
  pub holders : ℕ
  pub unverified : List RedisNodeState

-- `failoverPlan{action: a}`: the other fields have Go's zero values.
abbrev pub only : FailoverAction → FailoverPlan
only a = record {
  action = a;
  master_ip = "";
  diverged = false;
  forked = false;
  holders = 0;
  unverified = [];
}

-- `transitionSince != nil && now.Sub(*transitionSince) < cooldown`.
abbrev pub within : Option ℤ → ℤ → ℤ → Bool
within none now cooldown = false
within (some since) now cooldown = ltb_ℤ (now -ℤ since) cooldown

-- Steps 5 and 6, over what `BestDataHolder` returned and the number of holders.
unfoldable pub elect : Best → Bool → ℕ → FailoverPlan
elect b allow_unsafe count = elim b.best [
  | none ↦ record (only wait) { holders = count }
  | some best ↦
      if b.diverged || b.forked
      then (if not allow_unsafe
          then record (only refuse) { forked = b.forked; holders = count }
          else record (only unsafe_elect) {
            master_ip = best.ip;
            diverged = b.diverged;
            forked = b.forked;
            holders = count;
          })
      else record (only promote) { master_ip = best.ip; holders = count }
]

-- Step 4, and the branch to steps 5 and 6.
unfoldable pub act : ReplicationState → List RedisNodeState → Bool → String → FailoverPlan
act s [] allow_unsafe bootstrap =
    if bootstrap == "" then only wait else record (only seed) { master_ip = bootstrap }
act s (h ∷ hs) allow_unsafe bootstrap = elect (best_data_holder s) allow_unsafe (length (h ∷ hs))

-- Step 3b, over the pods that refused the credential.
unfoldable pub verify : ReplicationState → List RedisNodeState → Bool → String → FailoverPlan
verify s [] allow_unsafe bootstrap = act s (data_holders s) allow_unsafe bootstrap
verify s (n ∷ ns) allow_unsafe bootstrap = record (only refuse_unverified) { unverified = n ∷ ns }

unfoldable pub plan_failover :
    ReplicationState → String → Bool → String → Bool → Option ℤ → ℤ → ℤ → FailoverPlan
plan_failover s live_master_ip allow_unsafe bootstrap unsettled transition_since now cooldown =
    if not (live_master_ip == "")
    then only stay
    else if unsettled
    then only wait
    else if within transition_since now cooldown
    then only wait
    else verify s (auth_failed_redis_nodes s) allow_unsafe bootstrap

fence_scan : List FailoverPodView → String → String
fence_scan [] outgoing = ""
fence_scan (v ∷ views) outgoing =
    let rest = fence_scan views outgoing in if v.ip == outgoing then outgoing else rest

unfoldable pub plan_failover_fence : List FailoverPodView → String → String → String
unfolding fence_scan
plan_failover_fence views outgoing new_master =
    if outgoing == "" || outgoing == new_master then "" else fence_scan views outgoing

unfoldable pub master_start_authorized_for : FailoverAction → Bool
master_start_authorized_for seed = true
master_start_authorized_for _ = false
