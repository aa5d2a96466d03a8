-- ===== src/Recovery.antt =====
-- internal/controller/leaderless_recovery.go and ghost_master_recovery.go: the two planners that elect
-- a master where the Sentinels cannot. Times and durations are nanoseconds.
mod Warrant
mod Exclusion
mod Examples
use littlered.Prelude.{
  ℕ, Bool, true, false, not, ◌&&◌, ◌||◌, Option, none, some, List, [], ◌∷◌, String, ◌==◌, string_eq,
  if◌then◌else◌, length, ltb,
}
use littlered.Prelude.Int.{ℤ, ◌-ℤ◌, ltb_ℤ}
use littlered.Replication.State.{
  RedisNodeState, ReplicationState, auth_failed_redis_nodes, data_holders, lookup, role_master,
}
use littlered.Replication.BestHolder.{Best, best_data_holder}
use littlered.Replication.Sentinels.{
  all_sentinels_bare, reachable_sentinels, sentinels_monitor_ghost_master,
}
use littlered.Replication.Sentinels.Gates.{has_healthy_known_replica}

pub data RecoveryAction : Type 0 where
  clear_marker start_cooldown wait seed_no_data promote_survivor refuse unsafe_elect
        refuse_unverified :
      RecoveryAction

pub record LeaderlessPlan : Type 0 where
  pub action : RecoveryAction
  pub master_ip : String
  pub diverged : Bool
  pub forked : Bool
  pub holders : ℕ
  pub unverified : List RedisNodeState

-- `leaderlessPlan{action: a}`: the other fields have Go's zero values.
abbrev pub only : RecoveryAction → LeaderlessPlan
only a = record {
  action = a;
  master_ip = "";
  diverged = false;
  forked = false;
  holders = 0;
  unverified = [];
}

-- The veto, over the pods that refused the credential, and the plan that stands where there is none.
unfoldable pub unprovably_empty_veto : List RedisNodeState → LeaderlessPlan → LeaderlessPlan
unprovably_empty_veto [] plan = plan
unprovably_empty_veto (n ∷ ns) plan = record (only refuse_unverified) { unverified = n ∷ ns }

-- The persistence gate of both planners, and what follows it.
unfoldable pub after_cooldown : Option ℤ → ℤ → ℤ → LeaderlessPlan → LeaderlessPlan
after_cooldown none now cooldown plan = only start_cooldown
after_cooldown (some since) now cooldown plan =
    if ltb_ℤ (now -ℤ since) cooldown then only wait else plan

-- The bootstrap master, where no pod holds data.
abbrev pub seeded : String → LeaderlessPlan
seeded bootstrap =
    if bootstrap == "" then only wait else record (only seed_no_data) { master_ip = bootstrap }

unfoldable pub force : Best → ℕ → LeaderlessPlan
force b count = elim b.best [
  | none ↦ record (only wait) { holders = count }
  | some best ↦ record (only unsafe_elect) {
    master_ip = best.ip;
    diverged = b.diverged;
    forked = b.forked;
    holders = count;
  }
]

-- The act step of Rule L, by the number of data holders.
unfoldable pub act_by_count :
    ReplicationState → List RedisNodeState → Bool → String → LeaderlessPlan
unfolding force
act_by_count s [] allow_unsafe bootstrap = seeded bootstrap
act_by_count s (h ∷ []) allow_unsafe bootstrap = record (only promote_survivor) {
  master_ip = h.ip;
  holders = 1;
}
act_by_count s (h ∷ k ∷ hs) allow_unsafe bootstrap =
    if not allow_unsafe
    then record (only refuse) { holders = length (h ∷ k ∷ hs) }
    else force (best_data_holder s) (length (h ∷ k ∷ hs))

unfoldable pub plan_leaderless_recovery :
    ReplicationState → ℕ → Bool → String → Option ℤ → ℤ → ℤ → LeaderlessPlan
unfolding act_by_count unprovably_empty_veto after_cooldown
plan_leaderless_recovery s quorum allow_unsafe bootstrap leaderless_since now cooldown =
    let (bare, reachable) = all_sentinels_bare s in
    if not bare || ltb reachable quorum
    then only clear_marker
    else after_cooldown leaderless_since now cooldown (
        unprovably_empty_veto (auth_failed_redis_nodes s)
          (act_by_count s (data_holders s) allow_unsafe bootstrap))

-- What `BestDataHolder` returned and the number of holders.
unfoldable pub elect_survivor : Best → Bool → ℕ → LeaderlessPlan
elect_survivor b allow_unsafe count = elim b.best [
  | none ↦ record (only wait) { holders = count }
  | some best ↦
      if b.diverged || b.forked
      then (if not allow_unsafe
          then record (only refuse) { forked = b.forked; holders = count }
          else record (only unsafe_elect) {
            master_ip = best.ip;
            diverged = b.diverged;
            forked = b.forked;
            holders = count;
          })
      else record (only promote_survivor) { master_ip = best.ip; holders = count }
]

-- The act step of the ghost-master recovery, by lineage.
unfoldable pub act_by_lineage :
    ReplicationState → List RedisNodeState → Bool → String → LeaderlessPlan
unfolding elect_survivor
act_by_lineage s [] allow_unsafe bootstrap = seeded bootstrap
act_by_lineage s (h ∷ hs) allow_unsafe bootstrap =
    elect_survivor (best_data_holder s) allow_unsafe (length (h ∷ hs))

unfoldable pub plan_ghost_master_recovery :
    ReplicationState → ℕ → Bool → String → Option ℤ → ℤ → ℤ → LeaderlessPlan
unfolding act_by_lineage unprovably_empty_veto after_cooldown
plan_ghost_master_recovery s quorum allow_unsafe bootstrap stuck_since now cooldown =
    if not (sentinels_monitor_ghost_master s) || has_healthy_known_replica s
    then only clear_marker
    else if ltb (reachable_sentinels s) quorum
    then only clear_marker
    else after_cooldown stuck_since now cooldown (
        unprovably_empty_veto (auth_failed_redis_nodes s)
          (act_by_lineage s (data_holders s) allow_unsafe bootstrap))

abbrev replica_to_promote : Option RedisNodeState → Bool
replica_to_promote none = false
replica_to_promote (some rn) = rn.reachable && not (rn.role == role_master)

unfoldable pub needs_promotion : ReplicationState → String → Bool
unfolding lookup
needs_promotion s master_ip = replica_to_promote (lookup master_ip s.redis_nodes)
