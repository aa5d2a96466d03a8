-- ===== src/Naming/Driver.antt =====
-- When a rename is reported as done.
use littlered.Prelude.{
  ℕ, ◌≡◌, refl, sym, ◌∙◌, ◌≢◌, inl, inr, ◌↔◌, Bool, true, false, not, ◌||◌, List, [], ◌∷◌, String,
  ◌==◌, string_eq, nat_eq, if◌then◌else◌, arith, ltb, select, All, Bool-cases, In,
}
use text.Mathlib.TextEquality.{eq_iff}
use littlered.Replication.State.{MonitoredMaster, ReplicationState, SentinelNodeState, values}
use littlered.Replication.Sentinels.{reachable_sentinels}
use littlered.Operations.Plan.{Candidate, OperationInput, unseeded_of, plan_operation}
use littlered.Operations.Acks.{at_bootstrap, never_recorded, completed, ack-Warranted}
use littlered.Naming.{
  StaleEntry, foreign, says, defer_stale_names, stale_masters, non_empty, any_failover, any_stale,
  any_unowned, stale_entries, skipped_pods, has_living_master, prune_entries,
  plan_stale_master_names, operation_driver_report,
}

-- What a reachable Sentinel monitors has the desired name.
abbrev pub IsScoped : String → SentinelNodeState → Type 0
IsScoped desired sn = sn.reachable ≡ true → All (λ m. m.name ≡ desired) sn.monitored_masters

non_stale_iff :
    (desired : String) (ms : List MonitoredMaster)
    → (non_empty (select (λ m. not (m.name == desired)) ms) ≡ false)
      ↔ All (λ m. m.name ≡ desired) ms
non_stale_iff desired [] = (λ _. tt, λ _. refl)
non_stale_iff desired (m ∷ ms) = elim (Bool-cases (m.name == desired)) [
  | inl e ↦ rw e (
    λ h. ((eq_iff m.name desired).0 e, (non_stale_iff desired ms).0 h),
    λ h. (non_stale_iff desired ms).1 h.1,
  )
  | inr e ↦ rw e (λ h. absurd (cc), λ h. absurd (ground (arith, e, (eq_iff m.name desired).1 h.0)))
]

any_stale_iff :
    (desired : String) (sns : List SentinelNodeState)
    → (any_stale desired sns ≡ false) ↔ All (IsScoped desired) sns
unfolding any_stale stale_masters
any_stale_iff desired [] = (λ _. tt, λ _. refl)
any_stale_iff desired (sn ∷ sns) =
    let one = non_stale_iff desired sn.monitored_masters in
    let rest = any_stale_iff desired sns in
    elim (Bool-cases sn.reachable) [
      | inl r ↦ rw r (
        λ h. (λ _. one.0 (ground (arith, h)), rest.0 (ground (arith, h))),
        λ h. ground (arith, one.1 (h.0 refl), rest.1 h.1),
      )
      | inr r ↦ rw r (λ h. (λ c. absurd (cc), rest.0 h), λ h. rest.1 h.1)
    ]

pruned_reason :
    (es : List StaleEntry) (skipped : List String)
    → (operation_driver_report (prune_entries es skipped)).0 ≡ false
unfolding operation_driver_report prune_entries defer_stale_names
pruned_reason [] skipped = refl
pruned_reason (e ∷ es) skipped = refl

deferred_or_foreign :
    (rolling : Bool)
    → (operation_driver_report (if rolling then defer_stale_names "G5" else says foreign "")).0
      ≡ false
unfolding operation_driver_report defer_stale_names
deferred_or_foreign true = refl
deferred_or_foreign false = refl

-- The gates after the survey.
not_done :
    (s : ReplicationState) (desired : String) (quorum : ℕ) (rolling : Bool)
    → (operation_driver_report (
        if any_unowned s desired (values s.sentinel_nodes)
        then (if rolling then defer_stale_names "G5" else says foreign "")
        else if not (has_living_master s)
        then defer_stale_names "G2"
        else if any_failover (values s.sentinel_nodes) || s.failover_reported
        then defer_stale_names "G3"
        else if ltb (reachable_sentinels s) quorum || reachable_sentinels s == 0
        then defer_stale_names "G4"
        else prune_entries
            (stale_entries desired (values s.sentinel_nodes))
            (skipped_pods desired (values s.sentinel_nodes)))).0
      ≡ false
unfolding operation_driver_report defer_stale_names
not_done s desired quorum rolling =
    let sns = values s.sentinel_nodes in
    elim (Bool-cases (any_unowned s desired sns)) [
      | inl d ↦ rw d (deferred_or_foreign rolling)
      | inr d ↦ elim (Bool-cases (has_living_master s)) [
        | inr f ↦ rw (d, f) refl
        | inl f ↦ elim (Bool-cases (any_failover sns || s.failover_reported)) [
          | inl g ↦ rw (d, f, g) refl
          | inr g ↦
              elim (Bool-cases (ltb (reachable_sentinels s) quorum || reachable_sentinels s == 0)) [
                | inl h ↦ rw (d, f, g, h) refl
                | inr h ↦
                    rw (d, f, g, h)
                      (pruned_reason (stale_entries desired sns) (skipped_pods desired sns))
              ]
        ]
      ]
    ]

-- The driver reports a rename as done exactly when the instance is not captured, the desired name is not
-- empty, and every master that a reachable Sentinel lists has the desired name.
pub driver_done_iff :
    (s : ReplicationState) (desired : String) (quorum : ℕ) (captured rolling : Bool)
    → ((operation_driver_report (plan_stale_master_names s desired quorum captured rolling)).0
        ≡ true)
      ↔ ((captured ≡ false) × (desired ≢ "") × All (IsScoped desired) (values s.sentinel_nodes))
unfolding plan_stale_master_names defer_stale_names operation_driver_report
driver_done_iff s desired quorum true rolling =
    (λ h. absurd (cc), λ h. absurd (ground (arith, h.0)))
driver_done_iff s desired quorum false rolling =
    let sns = values s.sentinel_nodes in
    elim (Bool-cases (desired == "")) [
      | inl b ↦ rw b (λ h. absurd (cc), λ h. absurd (h.1 ((eq_iff desired "").0 b)))
      | inr b ↦ elim (Bool-cases (any_stale desired sns)) [
        | inr c ↦
            rw (b, c)
              (
                λ _. (
                  refl,
                  λ p. ground (arith, (eq_iff desired "").1 p, b),
                  (any_stale_iff desired sns).0 c,
                ),
                λ _. refl,
              )
        | inl c ↦
            rw (b, c)
              (
                λ h. absurd (ground (arith, h, not_done s desired quorum rolling)),
                λ h. absurd (ground (arith, c, (any_stale_iff desired sns).1 h.2)),
              )
      ]
    ]

-- Where the driver of the operations is this one, planOperation acknowledges an operation that has a
-- record, on an instance that is not bootstrapping, only where the desired name is not empty and every
-- master that a reachable Sentinel lists has it.
pub rename_ack-IsScoped :
    (s : ReplicationState) (desired : String) (quorum : ℕ) (captured rolling : Bool)
    (inp : OperationInput) (c : Candidate)
    → inp.driver_done
      ≡ (operation_driver_report (plan_stale_master_names s desired quorum captured rolling)).0
    → inp.bootstrapping ≡ false
    → ¬ In c (unseeded_of inp)
    → In c (plan_operation inp).ack
    → (desired ≢ "") × All (IsScoped desired) (values s.sentinel_nodes)
rename_ack-IsScoped s desired quorum captured rolling inp c d b n m =
    elim (ack-Warranted inp c m).1 [
      | at_bootstrap x _ ↦ absurd (ground (arith, x, b))
      | never_recorded u ↦ absurd (n u)
      | completed k ↦
          let t = (driver_done_iff s desired quorum captured rolling).0 (sym d ∙ k.done) in
          (t.1, t.2)
    ]
