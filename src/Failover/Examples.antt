-- ===== src/Failover/Examples.antt =====
-- The elections of failover mode on a promotion chain, a fork and an empty instance, and a master
-- whose death the probe declares.
use littlered.Failover.Watcher.{FailoverProbeStreak, is_late, events, once, streak_fires_once}
use littlered.Prelude.{
  ◌≡◌, ◌≢◌, refl, ◌↔◌, ◌⊎◌, true, false, none, some, [], ◌∷◌, String, ◌∙◌, sym, arith, any, inl,
}
use text.Mathlib.TextEquality.{eq_iff}
use littlered.Prelude.Int.{pos, ◌-ℤ◌}
use littlered.Replication.State.{data_holders, auth_failed_redis_nodes, lookup}
use littlered.Replication.Lineage.{holders_diverged, valid, is_zero_replid}
use littlered.Replication.BestHolder.{best_data_holder, holders_forked}
use littlered.Replication.Examples.{chain, fork, state}
use littlered.Failover.Death.{
  MasterPodView, plan_master_death, corroborated, declare_k8s, declare_probe,
}
use littlered.Failover.Death.Table.{declare_iff, IsGone, ProbeEvidence}
use littlered.Failover.Plan.{
  plan_failover, act, verify, elect, promote, refuse, master_start_authorized_for,
}
use littlered.Failover.Plan.Gates.{Open}
use littlered.Failover.Plan.Acting.{HasHolder, IsLossless, OneHistory}
use littlered.Failover.Plan.Elections.{promote_iff, refuse_iff, named-IsLossless, start_authorized}

abbrev up_pod : MasterPodView
up_pod = record { present = true; ready = true; terminating = false }

probe_declares :
    plan_master_death up_pod false ("down" ∷ "down" ∷ []) (some (pos 10)) (pos 40) (pos 30)
    ≡ declare_probe
unfolding plan_master_death ◌-ℤ◌ corroborated
probe_declares = refl

declare_iff_example :
    ((plan_master_death up_pod false ("down" ∷ "down" ∷ []) (some (pos 10)) (pos 40) (pos 30)
        ≡ declare_k8s)
      ↔ IsGone up_pod)
    × ((plan_master_death up_pod false ("down" ∷ "down" ∷ []) (some (pos 10)) (pos 40) (pos 30)
          ≡ declare_probe)
        ↔ (¬ IsGone up_pod
            × ProbeEvidence false ("down" ∷ "down" ∷ []) (some (pos 10)) (pos 40) (pos 30)))
declare_iff_example =
    declare_iff up_pod false ("down" ∷ "down" ∷ []) (some (pos 10)) (pos 40) (pos 30)

chain_promotes :
    (plan_failover chain "" false "" false none (pos 100) (pos 30)).master_ip ≡ "10.0.0.2"
unfolding plan_failover auth_failed_redis_nodes data_holders verify act elect best_data_holder
    holders_forked holders_diverged valid is_zero_replid lookup
chain_promotes = refl

promote_iff_example :
    ((plan_failover chain "" false "" false none (pos 100) (pos 30)).action ≡ promote) ↔ (
      Open chain "" false none (pos 100) (pos 30)
      × HasHolder chain
      × IsLossless chain (plan_failover chain "" false "" false none (pos 100) (pos 30)).master_ip)
promote_iff_example = promote_iff chain "" false "" false none (pos 100) (pos 30)

fork_refused : (plan_failover fork "" false "" false none (pos 100) (pos 30)).action ≡ refuse
unfolding plan_failover auth_failed_redis_nodes data_holders verify act elect best_data_holder
    holders_forked holders_diverged valid is_zero_replid lookup
fork_refused = refl

refuse_iff_example :
    ((plan_failover fork "" false "" false none (pos 100) (pos 30)).action ≡ refuse) ↔ (
      Open fork "" false none (pos 100) (pos 30)
      × HasHolder fork
      × (¬ OneHistory fork)
      × (false ≡ false))
refuse_iff_example = refuse_iff fork "" false "" false none (pos 100) (pos 30)

names_one : (plan_failover chain "" false "" false none (pos 100) (pos 30)).master_ip ≢ ""
names_one e = absurd (ground (arith, eq_iff "10.0.0.2" "", sym chain_promotes ∙ e))

named-IsLossless_example :
    ((data_holders chain ≡ [])
      × ((plan_failover chain "" false "" false none (pos 100) (pos 30)).master_ip ≡ ""))
    ⊎ IsLossless chain (plan_failover chain "" false "" false none (pos 100) (pos 30)).master_ip
named-IsLossless_example =
    named-IsLossless chain "" false "" false none (pos 100) (pos 30) refl names_one

blank_seeds :
    master_start_authorized_for
      (plan_failover (state []) "" false "10.0.0.9" false none (pos 100) (pos 30)).action
    ≡ true
unfolding plan_failover auth_failed_redis_nodes data_holders verify act master_start_authorized_for
blank_seeds = refl

start_authorized_example :
    (data_holders (state []) ≡ [])
    × (auth_failed_redis_nodes (state []) ≡ [])
    × ((plan_failover (state []) "" false "10.0.0.9" false none (pos 100) (pos 30)).master_ip
        ≡ "10.0.0.9")
    × ◌≢◌ {A = String} "10.0.0.9" ""
start_authorized_example =
    start_authorized (state []) "" false "10.0.0.9" false none (pos 100) (pos 30) blank_seeds

-- A streak that lasts as long as downAfter, after a probe that succeeded.
abbrev healthy : FailoverProbeStreak
healthy = record { master_ip = "10.0.0.1"; failing_since = none; fired = false }

streak_fires_once_example :
    events healthy "10.0.0.1" (pos 2) (pos 5 ∷ pos 6 ∷ pos 7 ∷ pos 8 ∷ [])
    ≡ once (any (is_late (pos 2) (pos 5)) (pos 5 ∷ pos 6 ∷ pos 7 ∷ pos 8 ∷ []))
streak_fires_once_example =
    streak_fires_once healthy "10.0.0.1" (pos 2) (pos 5) (pos 6 ∷ pos 7 ∷ pos 8 ∷ [])
      (λ e. ground (arith, e, eq_iff "10.0.0.1" "")) (inl refl)

fires_test : events healthy "10.0.0.1" (pos 2) (pos 5 ∷ pos 6 ∷ pos 7 ∷ pos 8 ∷ []) ≡ 1
unfolding events ◌-ℤ◌
fires_test = refl
