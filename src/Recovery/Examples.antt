-- ===== src/Recovery/Examples.antt =====
-- Bare Sentinels over one data holder, and Sentinels pinned to a dead master over a promotion chain.
use littlered.Prelude.{
  ◌≡◌, refl, ◌≢◌, ◌⊎◌, true, false, some, none, List, [], ◌∷◌, arith, String, sym, ◌∙◌,
}
use littlered.Prelude.Int.{pos}
use text.Mathlib.TextEquality.{eq_iff}
use littlered.Replication.State.{
  ProbeFailure, RedisNodeState, ReplicationState, auth_failed_redis_nodes,
}
use littlered.Replication.Examples.{chain_a, chain_b}
use littlered.Replication.Sentinels.Examples.{pinned, bare}
use littlered.Failover.Plan.Acting.{IsLossless}
use littlered.Recovery.{
  clear_marker, start_cooldown, plan_leaderless_recovery, plan_ghost_master_recovery,
}
use littlered.Recovery.Warrant.{
  Seeds, IsSole, BareGates, GhostGates, leaderless-Seeds, ghost_recovery-IsLossless,
  recovery-Verified,
}
use littlered.Recovery.Exclusion.{one_recovery}

abbrev alone : ReplicationState
alone = record bare { redis_nodes = ("10.0.0.1", chain_a) ∷ [] }

alone_promotes :
    (plan_leaderless_recovery alone 2 false "10.0.0.1" (some (pos 0)) (pos 40) (pos 30)).master_ip
    ≡ "10.0.0.1"
unfolding plan_leaderless_recovery littlered.Replication.Sentinels.all_sentinels_bare
    littlered.Prelude.Int.◌-ℤ◌ auth_failed_redis_nodes littlered.Replication.State.data_holders
alone_promotes = refl

leaderless-Seeds_example :
    BareGates alone 2 "10.0.0.1" (some (pos 0)) (pos 40) (pos 30)
    × (Seeds alone "10.0.0.1"
          (plan_leaderless_recovery alone 2 false "10.0.0.1"
            (some (pos 0))
            (pos 40)
            (pos 30)).master_ip
        ⊎ IsSole alone
            (plan_leaderless_recovery alone 2 false "10.0.0.1"
              (some (pos 0))
              (pos 40)
              (pos 30)).master_ip)
leaderless-Seeds_example =
    leaderless-Seeds alone 2 "10.0.0.1" (some (pos 0)) (pos 40) (pos 30)
      (λ e. ground (arith, sym alone_promotes ∙ e, eq_iff "10.0.0.1" ""))

pinned_elects :
    (plan_ghost_master_recovery pinned 2 false "10.0.0.1"
      (some (pos 0))
      (pos 40)
      (pos 30)).master_ip
    ≡ "10.0.0.2"
unfolding plan_ghost_master_recovery littlered.Replication.Sentinels.sentinels_monitor_ghost_master
    littlered.Replication.State.is_ghost
    littlered.Replication.Sentinels.Gates.has_healthy_known_replica littlered.Prelude.Int.◌-ℤ◌
    auth_failed_redis_nodes littlered.Replication.State.data_holders
    littlered.Replication.BestHolder.best_data_holder littlered.Replication.Lineage.holders_diverged
    littlered.Replication.Lineage.valid littlered.Replication.Lineage.is_zero_replid
    littlered.Replication.State.lookup littlered.Replication.BestHolder.holders_forked
pinned_elects = refl

ghost_recovery-IsLossless_example :
    GhostGates pinned 2 "10.0.0.1" (some (pos 0)) (pos 40) (pos 30)
    × (Seeds pinned "10.0.0.1"
          (plan_ghost_master_recovery pinned 2 false "10.0.0.1"
            (some (pos 0))
            (pos 40)
            (pos 30)).master_ip
        ⊎ IsLossless pinned
            (plan_ghost_master_recovery pinned 2 false "10.0.0.1"
              (some (pos 0))
              (pos 40)
              (pos 30)).master_ip)
ghost_recovery-IsLossless_example =
    ghost_recovery-IsLossless pinned 2 "10.0.0.1" (some (pos 0)) (pos 40) (pos 30)
      (λ e. ground (arith, sym pinned_elects ∙ e, eq_iff "10.0.0.2" ""))

abbrev refused : RedisNodeState
refused = record chain_b { reachable = false; probe_failure = ProbeFailure.auth_failed }

abbrev unread : ReplicationState
unread = record bare { redis_nodes = ("10.0.0.1", chain_a) ∷ ("10.0.0.2", refused) ∷ [] }

unread_veto : auth_failed_redis_nodes unread ≡ refused ∷ []
unfolding auth_failed_redis_nodes
unread_veto = refl

recovery-Verified_example :
    ((plan_leaderless_recovery unread 2 true "10.0.0.1" (some (pos 0)) (pos 40) (pos 30)).master_ip
      ≡ "")
    × ((plan_ghost_master_recovery unread 2 true "10.0.0.1"
          (some (pos 0))
          (pos 40)
          (pos 30)).master_ip
        ≡ "")
recovery-Verified_example =
    recovery-Verified unread 2 "10.0.0.1" (some (pos 0)) (pos 40) (pos 30) true
      (λ e. absurd (ground (arith, sym unread_veto ∙ e)))

bare_starts :
    (plan_leaderless_recovery bare 2 false "" none (pos 0) (pos 30)).action ≡ start_cooldown
unfolding plan_leaderless_recovery littlered.Replication.Sentinels.all_sentinels_bare
bare_starts = refl

one_recovery_example :
    (plan_ghost_master_recovery bare 2 false "" none (pos 0) (pos 30)).action ≡ clear_marker
one_recovery_example =
    one_recovery bare 2 false "" none none (pos 0) (pos 30) (pos 30)
      (λ e. absurd (ground (arith, sym bare_starts ∙ e)))
