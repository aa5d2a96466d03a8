-- ===== src/Cluster/Wipe.antt =====
-- internal/controller/cluster_wipe_recovery.go: which pods of a cluster whose redis is down are
-- recycled, and what a pass writes of the marker.
use littlered.Prelude.{
  ◌≡◌, refl, inl, inr, Bool, true, false, not, ◌&&◌, Option, none, some, List, [], ◌∷◌, map, String,
  if◌then◌else◌, arith, select, In, In-of_select, In-of_map, Bool-cases,
}
use littlered.Prelude.Int.{ℤ, pos, ◌-ℤ◌, ltb_ℤ}

abbrev cluster_wipe_recovery_cooldown : ℤ
cluster_wipe_recovery_cooldown = pos 120000000000

pub data ClusterWipeAction : Type 0 where
  clear_marker start_cooldown wait recycle : ClusterWipeAction

pub record ClusterPodHealth : Type 0 where
  pub name : String
  pub redis_ready : Bool
  pub restarted : Bool
  pub oom_killed : Bool

unfoldable pub recyclable : ClusterPodHealth → Bool
recyclable h = not h.redis_ready && (h.restarted && not h.oom_killed)

abbrev pub name_of : ClusterPodHealth → String
name_of h = h.name

unfoldable pub recyclable_names : List ClusterPodHealth → List String
unfolding recyclable
recyclable_names pods = map name_of (select recyclable pods)

pub record ClusterWipePlan : Type 0 where
  pub action : ClusterWipeAction
  pub recycled : List String

abbrev just : ClusterWipeAction → ClusterWipePlan
just action = record { action = action; recycled = [] }

-- The gates, over the names to recycle.
unfoldable pub gate_wipe : List String → Option ℤ → ℤ → ℤ → ClusterWipePlan
gate_wipe [] since now cooldown = just clear_marker
gate_wipe (n ∷ ns) none now cooldown = just start_cooldown
gate_wipe (n ∷ ns) (some since) now cooldown =
    if ltb_ℤ (now -ℤ since) cooldown
    then just wait
    else record { action = recycle; recycled = n ∷ ns }

unfoldable pub plan_cluster_wipe_recovery :
    List ClusterPodHealth → Option ℤ → ℤ → ℤ → ClusterWipePlan
unfolding recyclable_names gate_wipe
plan_cluster_wipe_recovery pods since now cooldown =
    gate_wipe (recyclable_names pods) since now cooldown

-- status.cluster.wipeDeadlockSince after a pass whose deletions succeed.
unfoldable pub next_marker : ClusterWipeAction → Option ℤ → ℤ → Option ℤ
next_marker clear_marker since now = none
next_marker start_cooldown since now = some now
next_marker wait since now = since
next_marker recycle since now = none

-- The redis of the pod is not ready, has restarted, and was not killed for its memory.
pub record IsDown (pods : List ClusterPodHealth) (name : String) : Type 0 where
  pub pod : ClusterPodHealth
  pub listed : In pod pods
  pub named : name ≡ pod.name
  pub unready : pod.redis_ready ≡ false
  pub looping : (pod.restarted ≡ true) × (pod.oom_killed ≡ false)

gated :
    (names : List String) (since : Option ℤ) (now cooldown : ℤ) (name : String)
    → In name (gate_wipe names since now cooldown).recycled
    → In name names × ((t : ℤ) × (since ≡ some t) × (ltb_ℤ (now -ℤ t) cooldown ≡ false))
unfolding gate_wipe
gated [] since now cooldown name m = elim m [ ]
gated (n ∷ ns) none now cooldown name m = elim m [ ]
gated (n ∷ ns) (some since) now cooldown name m =
    elim (Bool-cases (ltb_ℤ (now -ℤ since) cooldown)) [
      | inl e ↦ absurd (rw e at m)
      | inr e ↦ (rw e at m, (since, refl, e))
    ]

-- What planClusterWipeRecovery recycles.
pub recycled-IsDown :
    (pods : List ClusterPodHealth) (since : Option ℤ) (now cooldown : ℤ) (name : String)
    → In name (plan_cluster_wipe_recovery pods since now cooldown).recycled
    → IsDown pods name × ((t : ℤ) × (since ≡ some t) × (ltb_ℤ (now -ℤ t) cooldown ≡ false))
unfolding plan_cluster_wipe_recovery recyclable
recycled-IsDown pods since now cooldown name m =
    let g = gated (recyclable_names pods) since now cooldown name m in
    let found = In-of_map name_of name (select recyclable pods) g.0 in
    let chosen = In-of_select recyclable found.0 pods found.1 in
    (
      record {
        pod = found.0;
        listed = chosen.0;
        named = found.2;
        unready = ground (arith, chosen.1);
        looping = ground (arith, chosen.1);
      },
      g.1,
    )
