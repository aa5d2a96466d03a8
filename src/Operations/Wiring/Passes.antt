-- ===== src/Operations/Wiring/Passes.antt =====
-- A pass over the operations and the one after it.
use littlered.Prelude.{
  ◌≡◌, refl, sym, ◌∙◌, ap, subst, inl, inr, Bool, true, false, some, List, [], ◌∷◌, String,
  string_eq, arith, Bool-cases, In, In-of_select,
}
use text.Mathlib.TextEquality.{eq_iff}
use littlered.Prelude.Int.{ℤ}
use littlered.Prelude.Sort.{by, In-of_sort_by}
use littlered.Replication.State.{lookup}
use littlered.Operations.Plan.{
  Candidate, OperationInput, OperationPlan, is_unseeded, is_changed, sorted_candidates, unseeded_of,
  pending_of, plan_operation,
}
use littlered.Operations.Acks.{Warranted, at_bootstrap, never_recorded, completed, ack-Warranted}
use littlered.Operations.Wiring.{
  HeavyOperation, OperationAck, InstanceStatus, operation_candidates, acks_onto,
  build_operation_input, with_report, has_acks, is_unchanged, upsert_operation_acks,
  apply_operation_status,
}
use littlered.Operations.Wiring.Acknowledged.{
  IsKeyed, newest, upsert_all-IsKeyed, recorded, newest_agreeing,
}

-- Candidates of one name declare one digest.
abbrev pub Agrees : List Candidate → Type 0
Agrees cands =
    (c d : Candidate) → In c cands → In d cands → d.name ≡ c.name → d.fingerprint ≡ c.fingerprint

-- What is acknowledged is one of the candidates.
ack-In :
    (inp : OperationInput) (c : Candidate) → In c (plan_operation inp).ack → In c inp.candidates
ack-In inp c m =
    In-of_sort_by (by (λ k. k.name)) c inp.candidates (source (ack-Warranted inp c m).1)
  where
    source :
        Warranted inp (sorted_candidates inp) (unseeded_of inp) (pending_of inp) c
        → In c (sorted_candidates inp)
    source (at_bootstrap b i) = i
    source (never_recorded i) = (In-of_select (is_unseeded inp.acks) c (sorted_candidates inp) i).0
    source (completed w) = (In-of_select (is_changed inp.acks) c (sorted_candidates inp) w.listed).0

no_rows :
    (rest : List OperationAck) (ack : List Candidate) (at : ℤ)
    → has_acks ack ≡ false
    → rest ≡ upsert_operation_acks rest ack at
unfolding upsert_operation_acks
no_rows rest [] at e = refl
no_rows rest (c ∷ ack) at e = absurd (cc)

quiet :
    (st : InstanceStatus) (plan : OperationPlan) (at : ℤ)
    → is_unchanged st plan at ≡ true
    → has_acks plan.ack ≡ false
unfolding is_unchanged
quiet st plan at u = ground (arith, u)

-- The rows after a pass.
written :
    (st : InstanceStatus) (plan : OperationPlan) (at : ℤ)
    → (apply_operation_status st st plan at).acknowledged_operations
      ≡ upsert_operation_acks st.acknowledged_operations plan.ack at
unfolding apply_operation_status
written st plan at = elim (Bool-cases (is_unchanged st plan at)) [
  | inl u ↦ rw u (no_rows st.acknowledged_operations plan.ack at (quiet st plan at u))
  | inr u ↦ rw u (elim (Bool-cases (has_acks plan.ack)) [
    | inl h ↦ rw h refl
    | inr h ↦ rw h (no_rows st.acknowledged_operations plan.ack at h)
  ])
]

-- A recorded digest that is the declared one.
up_to_date :
    (acks : List (String × String)) (c : Candidate)
    → lookup c.name acks ≡ some c.fingerprint
    → (is_unseeded acks c ≡ false) × (is_changed acks c ≡ false)
up_to_date acks c e = (rw e refl, rw (e, (eq_iff c.fingerprint c.fingerprint).1 refl) refl)

module _ {Spec : Type 0} (heavy : List (HeavyOperation Spec)) (lr : Spec) (st : InstanceStatus)
    (plan : OperationPlan) (at : ℤ) (settled : Bool) (now : ℤ) where
  -- The input of the pass after one that wrote this plan.
  abbrev pub next_input : OperationInput
  next_input = build_operation_input heavy lr (apply_operation_status st st plan at) settled now

  next_lookup :
      (n : String)
      → IsKeyed st.acknowledged_operations
      → lookup n next_input.acks
        ≡ newest n plan.ack (lookup n (acks_onto [] st.acknowledged_operations))
  unfolding build_operation_input
  next_lookup n h =
      ap (λ r. lookup n (acks_onto [] r)) (written st plan at)
      ∙ recorded n st.acknowledged_operations plan.ack at h

-- A candidate that a pass acknowledges is up to date in the next pass, neither to be seeded nor
-- pending, whatever that pass measures; the completion records still hold one row for a name, and
-- each name has the digest of the last candidate acknowledged under it, or else its record of
-- before. The records held one row for a name, and candidates of one name declare one digest.
pub acknowledged_once :
    {Spec : Type 0} (heavy : List (HeavyOperation Spec)) (lr : Spec) (st : InstanceStatus)
    (report : Bool × Bool) (settled settled' : Bool) (at now : ℤ) (c : Candidate)
    → IsKeyed st.acknowledged_operations
    → Agrees (operation_candidates lr heavy)
    → let inp = with_report (build_operation_input heavy lr st settled at) report in
      let plan = plan_operation inp in
      let next = next_input heavy lr st plan at settled' now in
      In c plan.ack
      → (is_unseeded next.acks c ≡ false)
        × (is_changed next.acks c ≡ false)
        × IsKeyed (apply_operation_status st st plan at).acknowledged_operations
        × ((n : String) → lookup n next.acks ≡ newest n plan.ack (lookup n inp.acks))
unfolding build_operation_input
acknowledged_once heavy lr st report settled settled' at now c keyed agrees m =
    let inp = with_report (build_operation_input heavy lr st settled at) report in
    let plan = plan_operation inp in
    let next = next_input heavy lr st plan at settled' now in
    let found = next_lookup heavy lr st plan at settled' now in
    let fresh = up_to_date next.acks c (
      found c.name keyed
      ∙ newest_agreeing c.name c.fingerprint plan.ack (lookup c.name inp.acks)
          (λ d i e. agrees c d (ack-In inp c m) (ack-In inp d i) e) (inr (c, m, refl))) in
    (
      fresh.0,
      fresh.1,
      subst IsKeyed (sym (written st plan at))
          (upsert_all-IsKeyed st.acknowledged_operations plan.ack at keyed),
      λ n. found n keyed,
    )
