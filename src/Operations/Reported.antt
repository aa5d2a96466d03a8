-- ===== src/Operations/Reported.antt =====
-- That `planOperation` says what it withholds: the report, the queue behind it and the
-- acknowledgments account for what is pending.
use littlered.Prelude.{
  ◌≡◌, refl, sym, subst, ◌⊎◌, inl, inr, true, false, not, ◌&&◌, List, [], ◌∷◌, String, ◌==◌,
  string_eq, arith, Bool-cases, In, In-of_select, In-select, In-map, In-of_map, All, All-of_In,
  All-In,
}
use text.Mathlib.TextEquality.{eq_iff}
use littlered.Operations.Plan.{
  Candidate, OperationInput, OperationPlan, is_changed, operation_names, operation_except,
  is_runnable, operation_runnable, row_quarantined, release, row_completed, row_running, pick_from,
  queue, rows, sorted_candidates, unseeded_of, pending_of, plan_operation,
}

-- Where a plan names an operation.
pub data Shown (plan : OperationPlan) (p : Candidate) : Type 0 where
  reported : plan.report ≡ p.name → Shown plan p
  queued : In p.name plan.pending → Shown plan p
  acknowledged : (a : Candidate) → In a plan.ack → a.name ≡ p.name → Shown plan p

-- The name of a pending operation.
abbrev pub IsName : List Candidate → String → Type 0
IsName pending n = (p : Candidate) × In p pending × (n ≡ p.name)

-- The plan names each pending operation, and reports and queues pending ones only.
pub record Accounted (pending : List Candidate) (plan : OperationPlan) : Type 0 where
  pub each : All (Shown plan) pending
  pub only_pending : All (IsName pending) plan.pending
  pub current : (plan.report ≡ "") ⊎ IsName pending plan.report

-- A list whose first operation is reported, and the rest queued.
names-lead :
    (plan : OperationPlan) (r : Candidate) (rs : List Candidate)
    → plan.report ≡ r.name
    → plan.pending ≡ operation_names rs
    → (p : Candidate) → In p (r ∷ rs)
    → Shown plan p
names-lead plan r rs e f p (inl s) = reported (rw s e)
names-lead plan r rs e f p (inr m) = queued (rw f (In-map (λ c. c.name) p rs m))

IsName-names :
    (pending rs : List Candidate)
    → ((p : Candidate) → In p rs → In p pending)
    → All (IsName pending) (operation_names rs)
IsName-names pending rs h =
    All-of_In (IsName pending) (operation_names rs)
      (λ n m. let (c, i, e) = In-of_map (λ k. k.name) n rs m in (c, h c i, e))

lead-Accounted :
    (plan : OperationPlan) (r : Candidate) (rs : List Candidate)
    → plan.report ≡ r.name
    → plan.pending ≡ operation_names rs
    → Accounted (r ∷ rs) plan
lead-Accounted plan r rs e f = record {
  each = All-of_In (Shown plan) (r ∷ rs) (names-lead plan r rs e f);
  only_pending = subst (All (IsName (r ∷ rs))) (sym f) (IsName-names (r ∷ rs) rs (λ p m. inr m));
  current = inr (r, inl refl, e);
}

In-of_except :
    (n : String) (p : Candidate) (ps : List Candidate) → In p (operation_except ps n) → In p ps
In-of_except n p ps m = (In-of_select (λ c. not (c.name == n)) p ps m).0

In-except :
    (n : String) (p : Candidate) (ps : List Candidate)
    → In p ps
    → (n ≡ p.name) ⊎ In p (operation_except ps n)
In-except n p ps m = elim (Bool-cases (p.name == n)) [
  | inl e ↦ inl (sym ((eq_iff p.name n).0 e))
  | inr e ↦ inr (In-select (λ c. not (c.name == n)) p ps m (rw e refl))
]

-- An operation is reported, and what is pending under other names is queued.
picked-Accounted :
    (plan : OperationPlan) (pending : List Candidate) (k : Candidate)
    → In k pending
    → plan.report ≡ k.name
    → plan.pending ≡ operation_names (operation_except pending k.name)
    → Accounted pending plan
picked-Accounted plan pending k m e f = record {
  each = All-of_In (Shown plan) pending (λ p i. elim (In-except k.name p pending i) [
    | inl s ↦ reported (rw e s)
    | inr o ↦ queued (rw f (In-map (λ c. c.name) p (operation_except pending k.name) o))
  ]);
  only_pending = subst (All (IsName pending)) (sym f) (
      IsName-names pending (operation_except pending k.name)
        (λ p i. In-of_except k.name p pending i));
  current = inr (k, m, e);
}

-- What an acknowledgment removes from the queue is named by it.
ack-Accounted :
    (plan : OperationPlan) (pending : List Candidate) (a : Candidate)
    → In a plan.ack
    → Accounted (operation_except pending a.name) plan
    → Accounted pending plan
ack-Accounted plan pending a m h = record {
  each = All-of_In (Shown plan) pending (λ p i. elim (In-except a.name p pending i) [
    | inl s ↦ acknowledged a m s
    | inr o ↦ All-In (Shown plan) (operation_except pending a.name) h.each o
  ]);
  only_pending = All-of_In (IsName pending) plan.pending (λ n i.
      widen n (All-In (IsName (operation_except pending a.name)) plan.pending h.only_pending i));
  current = elim (h.current) [ inl e ↦ inl e | inr c ↦ inr (widen plan.report c) ];
}
  where
    widen : (n : String) → IsName (operation_except pending a.name) n → IsName pending n
    widen n (c, i, e) = (c, In-of_except a.name c pending i, e)

release-Accounted :
    (plan : OperationPlan) (remaining next : List Candidate)
    → plan.report ≡ ""
    → plan.pending ≡ []
    → next ≡ operation_runnable remaining
    → Accounted remaining (release plan remaining next)
unfolding release operation_runnable
release-Accounted plan [] next e f h = record {
  each = tt;
  only_pending = subst (All (IsName [])) (sym f) tt;
  current = inl e;
}
release-Accounted plan (r ∷ rs) [] e f h = lead-Accounted _ r rs refl refl
release-Accounted plan (r ∷ rs) (n ∷ ns) e f h =
    picked-Accounted _ (r ∷ rs) n
      (In-of_select (is_runnable (r ∷ rs)) n (r ∷ rs) (subst (In n) h (inl refl))).0 refl refl

release_ack-In :
    (plan : OperationPlan) (a : Candidate) (remaining next : List Candidate)
    → In a plan.ack
    → In a (release plan remaining next).ack
unfolding release
release_ack-In plan a [] next m = m
release_ack-In plan a (r ∷ rs) [] m = m
release_ack-In plan a (r ∷ rs) (n ∷ ns) m = m

row_completed-Accounted :
    (pending : List Candidate) (pick : Candidate) → Accounted pending (row_completed pending pick)
unfolding row_completed
row_completed-Accounted pending pick =
    let remaining = operation_except pending pick.name in
    ack-Accounted _ pending pick
      (release_ack-In _ pick remaining (operation_runnable remaining) (inl refl))
      (release-Accounted _ remaining (operation_runnable remaining) refl refl refl)

row_running-Accounted :
    (inp : OperationInput) (pending : List Candidate) (pick : Candidate)
    → In pick pending
    → Accounted pending (row_running inp pending pick)
unfolding row_running
row_running-Accounted inp pending pick m =
    picked-Accounted (row_running inp pending pick) pending pick m (ground arith) (ground arith)

pick_from-Accounted :
    (inp : OperationInput) (pending runnable : List Candidate)
    → runnable ≡ operation_runnable pending
    → Accounted pending (pick_from inp pending runnable)
unfolding pick_from operation_runnable
pick_from-Accounted inp [] runnable e = record { each = tt; only_pending = tt; current = inl refl }
pick_from-Accounted inp (p ∷ ps) [] e = lead-Accounted _ p ps refl refl
pick_from-Accounted inp (p ∷ ps) (k ∷ ks) e = elim (Bool-cases (inp.driver_done && inp.settled)) [
  | inl y ↦ rw y (row_completed-Accounted (p ∷ ps) k)
  | inr y ↦ rw y (
      row_running-Accounted inp (p ∷ ps) k
        (In-of_select (is_runnable (p ∷ ps)) k (p ∷ ps) (subst (In k) e (inl refl))).0)
]

row_quarantined-Accounted : (pending : List Candidate) → Accounted pending (row_quarantined pending)
unfolding row_quarantined
row_quarantined-Accounted [] = record { each = tt; only_pending = tt; current = inl refl }
row_quarantined-Accounted (p ∷ ps) = lead-Accounted _ p ps refl refl

-- Seeding at bootstrap acknowledges every candidate.
seeded-Accounted :
    (plan : OperationPlan) (pending : List Candidate)
    → ((p : Candidate) → In p pending → In p plan.ack)
    → plan.pending ≡ []
    → plan.report ≡ ""
    → Accounted pending plan
seeded-Accounted plan pending h f e = record {
  each = All-of_In (Shown plan) pending (λ p i. acknowledged p (h p i) refl);
  only_pending = subst (All (IsName pending)) (sym f) tt;
  current = inl e;
}

module _ (inp : OperationInput) (pending : List Candidate) where
  seeded-rows :
      (cands : List Candidate)
      → ((p : Candidate) → In p pending → In p cands)
      → inp.quarantined ≡ false
      → Accounted pending (rows inp cands [] pending)
  unfolding rows queue
  seeded-rows [] h q =
      let same : pick_from inp pending (operation_runnable pending) ≡ rows inp [] [] pending =
        ground (arith, q) in
      subst (Accounted pending) same
        (pick_from-Accounted inp pending (operation_runnable pending) refl)
  seeded-rows (c ∷ cs) h q = elim (Bool-cases inp.bootstrapping) [
    | inl b ↦
        let every : c ∷ cs ≡ (rows inp (c ∷ cs) [] pending).ack = ground (arith, q, b) in
        seeded-Accounted (rows inp (c ∷ cs) [] pending) pending (λ p m. subst (In p) every (h p m))
          (ground (arith, q, b)) (ground (arith, q, b))
    | inr b ↦
        let same : pick_from inp pending (operation_runnable pending)
            ≡ rows inp (c ∷ cs) [] pending =
          ground (arith, q, b) in
        subst (Accounted pending) same
          (pick_from-Accounted inp pending (operation_runnable pending) refl)
  ]

  rows-Accounted :
      (cands unseeded : List Candidate)
      → ((p : Candidate) → In p pending → In p cands)
      → (inp.quarantined ≡ true) ⊎ (unseeded ≡ [])
      → Accounted pending (rows inp cands unseeded pending)
  unfolding rows
  rows-Accounted cands unseeded h why = elim (Bool-cases inp.quarantined) [
    | inl q ↦ rw q (row_quarantined-Accounted pending)
    | inr q ↦ elim why [
      | inl t ↦ absurd (cc)
      | inr u ↦
          subst (λ us. Accounted pending (rows inp cands us pending)) (sym u)
            (seeded-rows cands h q)
    ]
  ]

-- On a quarantined instance, and on any other once every candidate has a completion record, a pass
-- accounts for what is pending: each pending operation is the reported one, is queued behind it, or
-- has a name that the pass acknowledges; and what is reported or queued is pending.
pub plan_operation-Accounted :
    (inp : OperationInput)
    → (inp.quarantined ≡ true) ⊎ (unseeded_of inp ≡ [])
    → Accounted (pending_of inp) (plan_operation inp)
unfolding plan_operation
plan_operation-Accounted inp =
    rows-Accounted inp (pending_of inp) (sorted_candidates inp) (unseeded_of inp)
      (λ p m. (In-of_select (is_changed inp.acks) p (sorted_candidates inp) m).0)
