-- ===== src/Failover/Death/Table.antt =====
-- When the failure detector declares a master dead, and when it must not.
use littlered.Prelude.{
  ◌≡◌, refl, ◌≢◌, ◌⊎◌, ◌↔◌, Bool, true, false, Option, none, some, List, [], ◌∷◌, String, string_eq,
  arith, All, Option-cases,
}
use text.Mathlib.TextEquality.{eq_iff}
use littlered.Prelude.Int.{ℤ, ◌-ℤ◌, ◌≤ℤ◌}
use littlered.Failover.Death.{
  MasterPodView, all_down, corroborated, plan_master_death, link_status_down, declare_probe,
  declare_k8s,
}

-- Kubernetes itself says that the master is gone.
abbrev pub IsGone : MasterPodView → Type 0
IsGone pod = (pod.present ≡ false) ⊎ (pod.ready ≡ false) ⊎ (pod.terminating ≡ true)

all_down-All :
    (links : List String) → (all_down links ≡ true) ↔ All (λ l. l ≡ link_status_down) links
unfolding all_down
all_down-All [] = (λ _. tt, λ _. refl)
all_down-All (l ∷ links) = ground (arith, eq_iff l link_status_down, all_down-All links)

corroborated_iff :
    (links : List String)
    → (corroborated links ≡ true) ↔ ((links ≢ []) × All (λ l. l ≡ link_status_down) links)
unfolding corroborated
corroborated_iff [] = (λ e. absurd (cc), λ h. absurd (h.0 refl))
corroborated_iff (l ∷ links) =
    (λ e. (λ n. cc, (all_down-All (l ∷ links)).0 e), λ h. (all_down-All (l ∷ links)).1 h.1)

-- The evidence of a death that the probe declares: past the window, with a reachable replica, and
-- every one of them reporting its link down.
pub record ProbeEvidence (reachable : Bool) (links : List String) (down_since : Option ℤ)
    (now down_after : ℤ) : Type 0 where
  pub unreachable : reachable ≡ false
  pub since : ℤ
  pub marked : down_since ≡ some since
  pub elapsed : down_after ≤ℤ (now -ℤ since)
  pub witnessed : links ≢ []
  pub unanimous : All (λ l. l ≡ link_status_down) links

module _ (pod : MasterPodView) (reachable : Bool) (links : List String) where
  probe_evidence :
      (down_since : Option ℤ) (now down_after : ℤ)
      → plan_master_death pod reachable links down_since now down_after ≡ declare_probe
      → ProbeEvidence reachable links down_since now down_after
  unfolding plan_master_death
  probe_evidence none now down_after e = absurd (ground arith)
  probe_evidence (some since) now down_after e = record {
    unreachable = ground arith;
    since = since;
    marked = refl;
    elapsed = ground arith;
    witnessed = ((corroborated_iff links).0 (ground arith)).0;
    unanimous = ((corroborated_iff links).0 (ground arith)).1;
  }

  evidence_probe :
      (down_since : Option ℤ) (now down_after : ℤ)
      → ¬ IsGone pod
      → ProbeEvidence reachable links down_since now down_after
      → plan_master_death pod reachable links down_since now down_after ≡ declare_probe
  unfolding plan_master_death
  evidence_probe none now down_after g v = absurd (ground (arith, v.marked))
  evidence_probe (some since) now down_after g v =
      let c = (corroborated_iff links).1 (v.witnessed, v.unanimous) in
      ground (arith, c, v.unreachable, v.elapsed, v.marked)

module _ (pod : MasterPodView) (reachable : Bool) (links : List String) (down_since : Option ℤ)
    (now down_after : ℤ) where
  declares_IsGone :
      (plan_master_death pod reachable links down_since now down_after ≡ declare_k8s) ↔ IsGone pod
  unfolding plan_master_death
  declares_IsGone = ground (arith, Option-cases down_since)

  -- A master is declared dead exactly in two ways: at once, when Kubernetes says that its pod is
  -- gone, not ready or terminating; or on the operator's own probe, when the pod is none of these,
  -- the master was unreachable for the whole window, and at least one replica is reachable and all
  -- of them report their link down.
  pub declare_iff :
      ((plan_master_death pod reachable links down_since now down_after ≡ declare_k8s) ↔ IsGone pod)
      × ((plan_master_death pod reachable links down_since now down_after ≡ declare_probe)
          ↔ (¬ IsGone pod × ProbeEvidence reachable links down_since now down_after))
  declare_iff = (
    declares_IsGone,
    (
      λ e. (
        λ g. ground (arith, e, declares_IsGone.1 g),
        probe_evidence pod reachable links down_since now down_after e,
      ),
      λ h. evidence_probe pod reachable links down_since now down_after h.0 h.1,
    ),
  )
