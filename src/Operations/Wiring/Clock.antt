-- ===== src/Operations/Wiring/Clock.antt =====
-- The clock of an operation over the passes that report it.
use littlered.Prelude.{
  ◌≡◌, ◌≢◌, refl, sym, ◌∙◌, subst, inl, inr, Bool, true, false, not, ◌&&◌, Option, none, some, List,
  [], ◌∷◌, String, ◌==◌, string_eq, if◌then◌else◌, arith, Bool-cases, All,
}
use text.Mathlib.TextEquality.{eq_iff}
use littlered.Prelude.Int.{ℤ, pos, ◌-ℤ◌, ltb_ℤ}
use littlered.Operations.Plan.{Candidate, OperationStatus, OperationPlan, operation_stalled}
use littlered.Operations.Wiring.{
  HeavyOperation, InstanceStatus, build_operation_input, clock_of, operation_status_for,
  operation_status_equal, is_unchanged, apply_operation_status,
}

-- The passes over an instance that nobody else writes, each with its plan and its time.
abbrev pub passes : InstanceStatus → List (OperationPlan × ℤ) → InstanceStatus
passes st [] = st
passes st ((plan, at) ∷ more) = passes (apply_operation_status st st plan at) more

-- The status reports an operation as running since a time.
pub record RunsSince (name : String) (since : ℤ) (st : InstanceStatus) : Type 0 where
  pub current : OperationStatus
  pub is_reported : st.operation ≡ some current
  pub is_named : current.name ≡ name
  pub is_clocked : current.started_at ≡ some since

-- The status reports no operation of this name.
abbrev pub Elsewhere : String → Option OperationStatus → Type 0
Elsewhere name none = Unit
Elsewhere name (some s) = (s.name == name) ≡ false

unequal :
    (name : String) (o : Option OperationStatus) (plan : OperationPlan) (at : ℤ)
    → Elsewhere name o
    → plan.report ≡ name
    → name ≢ ""
    → operation_status_equal o (operation_status_for plan o at) ≡ false
unfolding operation_status_equal operation_status_for
unequal name none plan at e r n = ground (arith, (eq_iff plan.report "").0, n, r)
unequal name (some s) plan at e r n = ground (arith, (eq_iff plan.report "").0, n, r, e)

first_clock :
    (name : String) (o : Option OperationStatus) (plan : OperationPlan) (at : ℤ)
    → Elsewhere name o
    → plan.report ≡ name
    → clock_of plan o at ≡ some at
unfolding clock_of
first_clock name none plan at e r = refl
first_clock name (some s) plan at e r = rw (r, e) refl

reported :
    (name : String) (o : Option OperationStatus) (plan : OperationPlan) (at since : ℤ)
    → plan.report ≡ name
    → name ≢ ""
    → clock_of plan o at ≡ some since
    → (s : OperationStatus) × (operation_status_for plan o at ≡ some s)
      × (s.name ≡ name)
      × (s.started_at ≡ some since)
unfolding operation_status_for
reported name o plan at since r n k = elim (Bool-cases (plan.report == "")) [
  | inl e ↦ absurd (n (sym r ∙ (eq_iff plan.report "").0 e))
  | inr e ↦ (
    record {
      name = plan.report;
      started_at = clock_of plan o at;
      reason = plan.reason;
      pending = plan.pending;
    },
    rw e refl,
    r,
    k,
  )
]

first_pass :
    (name : String) (st : InstanceStatus) (plan : OperationPlan) (at : ℤ)
    → Elsewhere name st.operation
    → plan.report ≡ name
    → name ≢ ""
    → RunsSince name at (apply_operation_status st st plan at)
unfolding apply_operation_status is_unchanged
first_pass name st plan at e r n =
    let t = reported name st.operation plan at at r n (first_clock name st.operation plan at e r) in
    record {
      current = t.0;
      is_reported = ground (arith, unequal name st.operation plan at e r n, t.1);
      is_named = t.2;
      is_clocked = t.3;
    }

kept_clock :
    (name : String) (o : OperationStatus) (plan : OperationPlan) (at since : ℤ)
    → plan.report ≡ name
    → o.name ≡ name
    → o.started_at ≡ some since
    → clock_of plan (some o) at ≡ some since
unfolding clock_of
kept_clock name o plan at since r e k = rw ((eq_iff o.name plan.report).1 (e ∙ sym r), k) refl

later_pass :
    (name : String) (since : ℤ) (st : InstanceStatus) (plan : OperationPlan) (at : ℤ)
    → plan.report ≡ name
    → name ≢ ""
    → RunsSince name since st
    → RunsSince name since (apply_operation_status st st plan at)
unfolding apply_operation_status
later_pass name since st plan at r n h = elim (Bool-cases (is_unchanged st plan at)) [
  | inl u ↦ rw u h
  | inr u ↦
      let k = kept_clock name h.current plan at since r h.is_named h.is_clocked in
      let t =
        reported name st.operation plan at since r n
          (subst (λ o. clock_of plan o at ≡ some since) (sym h.is_reported) k) in
      rw u (record { current = t.0; is_reported = t.1; is_named = t.2; is_clocked = t.3 })
]

later_passes :
    (name : String) (since : ℤ) (st : InstanceStatus) (more : List (OperationPlan × ℤ))
    → All (λ p. p.0.report ≡ name) more
    → name ≢ ""
    → RunsSince name since st
    → RunsSince name since (passes st more)
later_passes name since st [] r n h = h
later_passes name since st ((plan, at) ∷ more) r n h =
    later_passes name since (apply_operation_status st st plan at) more r.1 n
      (later_pass name since st plan at r.0 n h)

guarded : (p q : Bool) → (if not p then false else q) ≡ p && q
guarded true q = refl
guarded false q = refl

-- An operation that is reported by every pass from a first one on, which found it unreported, runs
-- since the time of that pass however many passes follow: it counts as stalled exactly when its
-- budget is positive and more than the budget has gone by since then.
pub stalled_since_first :
    {Spec : Type 0} (heavy : List (HeavyOperation Spec)) (lr : Spec) (st : InstanceStatus)
    (plan : OperationPlan) (at : ℤ) (more : List (OperationPlan × ℤ)) (settled : Bool) (now : ℤ)
    (c : Candidate)
    → Elsewhere c.name st.operation
    → c.name ≢ ""
    → All (λ p. p.0.report ≡ c.name) ((plan, at) ∷ more)
    → RunsSince c.name at (passes st ((plan, at) ∷ more))
      × (operation_stalled
            (build_operation_input heavy lr (passes st ((plan, at) ∷ more)) settled now)
            c
          ≡ ltb_ℤ (pos 0) c.stall_after && ltb_ℤ c.stall_after (now -ℤ at))
unfolding build_operation_input operation_stalled
stalled_since_first heavy lr st plan at more settled now c e n r =
    let h =
      later_passes c.name at (apply_operation_status st st plan at) more r.1 n
        (first_pass c.name st plan at e r.0 n) in
    (
      h,
      rw (h.is_reported, (eq_iff h.current.name c.name).1 h.is_named, h.is_clocked)
          (guarded (ltb_ℤ (pos 0) c.stall_after) (ltb_ℤ c.stall_after (now -ℤ at))),
    )
