-- ===== src/Operations/Acks.antt =====
-- What `planOperation` acknowledges.
use littlered.Prelude.{
  ◌≡◌, refl, sym, subst, inl, inr, true, false, ◌&&◌, List, [], ◌∷◌, string_eq, arith, Bool-cases,
  In, In-of_select, head?, ap, some,
}
use littlered.Operations.Plan.{
  Candidate, OperationInput, OperationPlan, operation_except, is_runnable, operation_runnable,
  row_quarantined, release, row_completed, row_running, pick_from, queue, rows, sorted_candidates,
  unseeded_of, pending_of, plan_operation,
}

-- The operation has been carried out: it is the picked one, the first of those that are pending and
-- require nothing pending; its driver is done, and the instance has settled.
pub record IsCompleted (inp : OperationInput) (pending : List Candidate) (c : Candidate)
    : Type 0 where
  pub listed : In c pending
  pub ready : is_runnable pending c ≡ true
  pub picked : head? (operation_runnable pending) ≡ some c
  pub done : inp.driver_done ≡ true
  pub settled : inp.settled ≡ true

-- Why a candidate is acknowledged.
pub data Warranted (inp : OperationInput) (cands unseeded pending : List Candidate) (c : Candidate)
    : Type 0 where
  at_bootstrap : inp.bootstrapping ≡ true → In c cands → Warranted inp cands unseeded pending c
  never_recorded : In c unseeded → Warranted inp cands unseeded pending c
  completed : IsCompleted inp pending c → Warranted inp cands unseeded pending c

release_ack :
    (plan : OperationPlan) (remaining next : List Candidate)
    → (release plan remaining next).ack ≡ plan.ack
unfolding release
release_ack plan [] next = refl
release_ack plan (r ∷ rs) [] = refl
release_ack plan (r ∷ rs) (n ∷ ns) = refl

row_running_ack :
    (inp : OperationInput) (pending : List Candidate) (pick : Candidate)
    → (row_running inp pending pick).ack ≡ []
unfolding row_running
row_running_ack inp pending pick = ground arith

row_completed_ack :
    (pending : List Candidate) (pick : Candidate) → (row_completed pending pick).ack ≡ pick ∷ []
unfolding row_completed release
row_completed_ack pending pick =
    release_ack _ (operation_except pending pick.name)
      (operation_runnable (operation_except pending pick.name))

pick_from-IsCompleted :
    (inp : OperationInput) (pending runnable : List Candidate) (c : Candidate)
    → runnable ≡ operation_runnable pending
    → In c (pick_from inp pending runnable).ack
    → IsCompleted inp pending c
unfolding pick_from operation_runnable
pick_from-IsCompleted inp [] runnable c e m = elim m [ ]
pick_from-IsCompleted inp (p ∷ ps) [] c e m = elim m [ ]
pick_from-IsCompleted inp (p ∷ ps) (k ∷ ks) c e m =
    elim (Bool-cases (inp.driver_done && inp.settled)) [
      | inl y ↦ done y (subst (In c) (row_completed_ack (p ∷ ps) k) (rw y at m))
      | inr y ↦ absurd (unacked (subst (In c) (row_running_ack inp (p ∷ ps) k) (rw y at m)))
    ]
  where
    unacked : In c [] → ⊥
    unacked i = elim i [ ]

    done : (inp.driver_done && inp.settled) ≡ true → In c (k ∷ []) → IsCompleted inp (p ∷ ps) c
    done y (inl same) =
        let (listed, ready) =
          In-of_select (is_runnable (p ∷ ps)) k (p ∷ ps) (subst (In k) e (inl refl)) in
        subst (IsCompleted inp (p ∷ ps)) (sym same) (record {
          listed = listed;
          ready = ready;
          picked = ap head? (sym e);
          done = ground arith;
          settled = ground arith;
        })
    done y (inr i) = elim i [ ]

row_quarantined_ack : (pending : List Candidate) → (row_quarantined pending).ack ≡ []
unfolding row_quarantined
row_quarantined_ack [] = refl
row_quarantined_ack (p ∷ ps) = refl

module _ (inp : OperationInput) (pending : List Candidate) (c : Candidate) where
  -- What a pass that is not quarantined acknowledges.
  rows_active :
      inp.quarantined ≡ false
      → (cands unseeded : List Candidate) → In c (rows inp cands unseeded pending).ack
      → Warranted inp cands unseeded pending c
  unfolding rows queue
  rows_active q [] [] m =
      completed (
        pick_from-IsCompleted inp pending (operation_runnable pending) c refl
          (ground (arith, q, m)))
  rows_active q (d ∷ ds) [] m = elim (Bool-cases inp.bootstrapping) [
    | inl b ↦ at_bootstrap b (ground (arith, q, b, m))
    | inr b ↦ completed (
        pick_from-IsCompleted inp pending (operation_runnable pending) c refl
          (ground (arith, q, b, m)))
  ]
  rows_active q [] (e ∷ es) m = never_recorded (ground (arith, q, m))
  rows_active q (d ∷ ds) (e ∷ es) m = elim (Bool-cases inp.bootstrapping) [
    | inl b ↦ at_bootstrap b (ground (arith, q, b, m))
    | inr b ↦ never_recorded (ground (arith, q, b, m))
  ]

  rows-Warranted :
      (cands unseeded : List Candidate)
      → In c (rows inp cands unseeded pending).ack
      → (inp.quarantined ≡ false) × Warranted inp cands unseeded pending c
  unfolding rows
  rows-Warranted cands unseeded m = elim (Bool-cases inp.quarantined) [
    | inl q ↦ absurd (held (subst (In c) (row_quarantined_ack pending) (rw q at m)))
    | inr q ↦ (q, rows_active q cands unseeded m)
  ]
    where
      held : In c [] → ⊥
      held i = elim i [ ]

-- A completion record is written only on an instance that is not quarantined, and only for a
-- candidate of an instance that is bootstrapping, for one that has no record yet, or for the picked
-- operation, the first of the pending ones that require nothing pending, where its driver is done
-- and the StatefulSets have settled.
pub ack-Warranted :
    (inp : OperationInput) (c : Candidate)
    → In c (plan_operation inp).ack
    → (inp.quarantined ≡ false)
      × Warranted inp (sorted_candidates inp) (unseeded_of inp) (pending_of inp) c
unfolding plan_operation
ack-Warranted inp c m =
    rows-Warranted inp (pending_of inp) c (sorted_candidates inp) (unseeded_of inp) m
