-- ===== src/Recovery/Exclusion.antt =====
-- The two recoveries do not run on one state.
use littlered.Prelude.{
  ℕ, ◌≤◌, ◌≡◌, refl, Bool, true, false, Option, List, String, arith, count_if, count_if_disjoint,
  ◌≢◌, Bool-cases, inl, inr,
}
use littlered.Prelude.Int.{ℤ}
use littlered.Replication.State.{ReplicationState, SentinelNodeState, is_ghost, values}
use littlered.Replication.Sentinels.{
  all_sentinels_bare, sentinels_monitor_ghost_master, watches_ghost, watching,
}
use littlered.Recovery.{clear_marker, plan_leaderless_recovery, plan_ghost_master_recovery}

ghosts_watched :
    (s : ReplicationState) (sns : List SentinelNodeState)
    → count_if (watches_ghost s) sns ≤ count_if watching sns
unfolding is_ghost
ghosts_watched s sns = ground (
  arith,
  count_if_disjoint (watches_ghost s) (λ _. false) watching (λ x h k. ground (arith, k))
      (λ x h. ground (arith, h)) (λ x h. ground (arith, h)) sns,
)

bare-no_ghost :
    (s : ReplicationState)
    → (all_sentinels_bare s).0 ≡ true
    → sentinels_monitor_ghost_master s ≡ false
unfolding all_sentinels_bare sentinels_monitor_ghost_master
bare-no_ghost s h = ground (arith, ghosts_watched s (values s.sentinel_nodes))

-- On one state, where planLeaderlessRecovery does anything but clear its marker,
-- planGhostMasterRecovery clears its own.
pub one_recovery :
    (s : ReplicationState) (quorum : ℕ) (u : Bool) (boot : String) (since since2 : Option ℤ)
    (now cooldown cooldown2 : ℤ)
    → (plan_leaderless_recovery s quorum u boot since now cooldown).action ≢ clear_marker
    → (plan_ghost_master_recovery s quorum u boot since2 now cooldown2).action ≡ clear_marker
unfolding plan_leaderless_recovery plan_ghost_master_recovery
one_recovery s quorum u boot since since2 now cooldown cooldown2 n =
    elim (Bool-cases (all_sentinels_bare s).0) [
      | inl e ↦ rw (bare-no_ghost s e) refl
      | inr e ↦ absurd (rw e at n refl)
    ]
