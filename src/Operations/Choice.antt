-- ===== src/Operations/Choice.antt =====
-- What `planOperation` runs, and when.
use littlered.Prelude.{
  ◌≡◌, refl, ◌≢◌, sym, ap, ◌∙◌, subst, ◌⊎◌, inl, inr, true, false, not, ◌&&◌, List, [], ◌∷◌, ◌==◌,
  string_eq, arith, Bool-cases, In, In-of_select, select,
}
use littlered.Operations.Plan.{
  Candidate, OperationInput, OperationPlan, operation_except, is_runnable, operation_runnable,
  row_quarantined, release, row_completed, row_running, pick_from, queue, rows, sorted_candidates,
  unseeded_of, pending_of, plan_operation,
}

-- What is left of the pending operations once some of them are acknowledged.
abbrev pub except_all : List Candidate → List Candidate → List Candidate
except_all pending [] = pending
except_all pending (a ∷ rest) = except_all (operation_except pending a.name) rest

-- The plan runs a pending operation, says so, and nothing that the operation requires is pending
-- when the plan's acknowledgments are written.
pub record Runs (pending : List Candidate) (plan : OperationPlan) : Type 0 where
  pub operation : Candidate
  pub listed : In operation pending
  pub named : plan.run ≡ operation.name
  pub reported : plan.report ≡ plan.run
  pub ready : is_runnable (except_all pending plan.ack) operation ≡ true

row_running-Runs :
    (inp : OperationInput) (pending : List Candidate) (pick : Candidate)
    → In pick (operation_runnable pending)
    → Runs pending (row_running inp pending pick)
unfolding row_running operation_runnable
row_running-Runs inp pending pick m =
    let (listed, ready) = In-of_select (is_runnable pending) pick pending m in
    record {
      operation = pick;
      listed = listed;
      named = ground arith;
      reported = ground arith;
      ready = ground (arith, ready);
    }

release-Runs :
    (pending : List Candidate) (plan : OperationPlan) (a : Candidate)
    (remaining next : List Candidate)
    → plan.run ≡ ""
    → plan.ack ≡ a ∷ []
    → remaining ≡ operation_except pending a.name
    → next ≡ operation_runnable remaining
    → ((release plan remaining next).run ≡ "") ⊎ Runs pending (release plan remaining next)
unfolding release operation_runnable
release-Runs pending plan a [] next e f g h = inl e
release-Runs pending plan a (r ∷ rs) [] e f g h = inl e
release-Runs pending plan a (r ∷ rs) (n ∷ ns) e f g h =
    let m : In n (select (is_runnable (r ∷ rs)) (r ∷ rs)) = subst (In n) h (inl refl) in
    let (left, ready) = In-of_select (is_runnable (r ∷ rs)) n (r ∷ rs) m in
    inr (record {
      operation = n;
      listed = (In-of_select (λ c. not (c.name == a.name)) n pending (subst (In n) g left)).0;
      named = refl;
      reported = refl;
      ready = rw (f, ← g) ready;
    })

pick_from-Runs :
    (inp : OperationInput) (pending runnable : List Candidate)
    → runnable ≡ operation_runnable pending
    → ((pick_from inp pending runnable).run ≡ "") ⊎ Runs pending (pick_from inp pending runnable)
unfolding pick_from row_completed
pick_from-Runs inp [] runnable e = inl refl
pick_from-Runs inp (p ∷ ps) [] e = inl refl
pick_from-Runs inp (p ∷ ps) (k ∷ ks) e = elim (Bool-cases (inp.driver_done && inp.settled)) [
  | inl y ↦ rw y (release-Runs (p ∷ ps) _ k _ _ refl refl refl refl)
  | inr y ↦ rw y (inr (row_running-Runs inp (p ∷ ps) k (subst (In k) e (inl refl))))
]

row_quarantined_run : (pending : List Candidate) → (row_quarantined pending).run ≡ ""
unfolding row_quarantined
row_quarantined_run [] = refl
row_quarantined_run (p ∷ ps) = refl

-- The conditions under which a pass may run anything.
pub record MayRun (inp : OperationInput) (cands unseeded : List Candidate) : Type 0 where
  pub active : inp.quarantined ≡ false
  pub started : (inp.bootstrapping ≡ false) ⊎ (cands ≡ [])
  pub known : unseeded ≡ []

rows-queue :
    (inp : OperationInput) (cands unseeded pending : List Candidate)
    → (rows inp cands unseeded pending).run ≢ ""
    → MayRun inp cands unseeded × (rows inp cands unseeded pending ≡ queue inp pending)
unfolding rows
rows-queue inp cands unseeded pending h = elim (Bool-cases inp.quarantined) [
  | inl q ↦ absurd (h (rw q (row_quarantined_run pending)))
  | inr q ↦ open_rows q cands unseeded h
]
  where
    open_rows :
        inp.quarantined ≡ false
        → (cands unseeded : List Candidate) → (rows inp cands unseeded pending).run ≢ ""
        → MayRun inp cands unseeded × (rows inp cands unseeded pending ≡ queue inp pending)
    open_rows q [] [] h =
        (record { active = q; started = inr refl; known = refl }, ground (arith, q))
    open_rows q (c ∷ cs) [] h = elim (Bool-cases inp.bootstrapping) [
      | inl b ↦ absurd (h (rw (q, b) refl))
      | inr b ↦ (record { active = q; started = inl b; known = refl }, rw (q, b) refl)
    ]
    open_rows q [] (u ∷ us) h = absurd (h (ground (arith, q)))
    open_rows q (c ∷ cs) (u ∷ us) h = elim (Bool-cases inp.bootstrapping) [
      | inl b ↦ absurd (h (rw (q, b) refl))
      | inr b ↦ absurd (h (rw (q, b) refl))
    ]

-- An operation runs only on an instance that is neither quarantined nor bootstrapping, once every
-- candidate has a completion record; it is a pending one, it is the one reported, and nothing that
-- it requires is still pending.
pub run-Runs :
    (inp : OperationInput)
    → (plan_operation inp).run ≢ ""
    → MayRun inp (sorted_candidates inp) (unseeded_of inp)
      × Runs (pending_of inp) (plan_operation inp)
unfolding plan_operation queue
run-Runs inp h =
    let (may, same) = rows-queue inp (sorted_candidates inp) (unseeded_of inp) (pending_of inp) h in
    (
      may,
      elim (pick_from-Runs inp (pending_of inp) (operation_runnable (pending_of inp)) refl) [
        | inl idle ↦ absurd (h (ap (λ p. p.run) same ∙ idle))
        | inr runs ↦ subst (Runs (pending_of inp)) (sym same) runs
      ],
    )
