-- ===== src/Failover/Death.antt =====
-- internal/controller/failover_plan.go: the master-death predicate.
pub mod Table
use littlered.Prelude.{
  Bool, true, false, not, ◌&&◌, ◌||◌, Option, none, some, List, [], ◌∷◌, String, ◌==◌, string_eq,
  if◌then◌else◌,
}
use littlered.Prelude.Int.{ℤ, ◌-ℤ◌, ltb_ℤ}

pub data MasterDeathAction : Type 0 where
  clear_marker start_window wait hold declare_k8s declare_probe : MasterDeathAction

pub record MasterPodView : Type 0 where
  pub present : Bool
  pub ready : Bool
  pub terminating : Bool

abbrev pub link_status_down : String
link_status_down = "down"

-- `corroborated` after the loop over the links.
all_down : List String → Bool
all_down [] = true
all_down (link ∷ links) = elim (link == link_status_down) [ true ↦ all_down links | false ↦ false ]

-- Step 5: at least one link, and all of them down.
unfoldable pub corroborated : List String → Bool
unfolding all_down
corroborated [] = false
corroborated (link ∷ links) = all_down (link ∷ links)

-- Steps 3 to 6, at the time since which the master is known to be unreachable.
past_window : List String → ℤ → ℤ → ℤ → MasterDeathAction
past_window links since now down_after =
    if ltb_ℤ (now -ℤ since) down_after
    then wait
    else if corroborated links
    then declare_probe
    else hold

-- A time is its nanoseconds; `now.Sub(since)` is their difference.
unfoldable pub plan_master_death :
    MasterPodView → Bool → List String → Option ℤ → ℤ → ℤ → MasterDeathAction
unfolding past_window
plan_master_death pod master_reachable replica_links down_since now down_after =
    if not pod.present || not pod.ready || pod.terminating
    then declare_k8s
    else if master_reachable
    then clear_marker
    else elim down_since [
      | none ↦ start_window
      | some since ↦ past_window replica_links since now down_after
    ]
