-- ===== src/Operations/Wiring/Acknowledged.antt =====
-- The completion records that a pass writes, as the next pass reads them.
use littlered.Prelude.{
  ◌≡◌, refl, sym, ◌∙◌, ◌⊎◌, ap, subst, inl, inr, true, false, Option, none, some, List, [], ◌∷◌,
  String, ◌==◌, string_eq, if◌then◌else◌, arith, Bool-cases, In, All,
}
use text.Mathlib.TextEquality.{eq_iff}
use littlered.Prelude.Int.{ℤ}
use littlered.Replication.State.{lookup}
use littlered.Operations.Plan.{Candidate}
use littlered.Operations.Wiring.{
  OperationAck, put, acks_onto, upsert_operation_ack, upsert_operation_acks,
}

-- No two rows have one name: the list is a map by name.
abbrev pub IsKeyed : List OperationAck → Type 0
IsKeyed [] = Unit
IsKeyed (a ∷ rest) = All (λ b. (b.name == a.name) ≡ false) rest × IsKeyed rest

-- The digest of the last candidate with a name, or what was recorded before.
abbrev pub newest : String → List Candidate → Option String → Option String
newest n [] before = before
newest n (c ∷ cs) before = newest n cs (if c.name == n then some c.fingerprint else before)

lookup-put :
    (n k v : String) (m : List (String × String))
    → lookup n (put k v m) ≡ (if k == n then some v else lookup n m)
unfolding lookup put
lookup-put n k v [] = refl
lookup-put n k v ((j, w) ∷ m) =
    ground (arith, lookup-put n k v m, eq_iff j k, eq_iff j n, eq_iff k n)

-- The value that the rows give a name, where none is `before`.
abbrev row_of : String → List OperationAck → Option String → Option String
row_of n [] before = before
row_of n (a ∷ rest) before = row_of n rest (if a.name == n then some a.fingerprint else before)

lookup-acks_onto :
    (n : String) (m : List (String × String)) (rest : List OperationAck)
    → lookup n (acks_onto m rest) ≡ row_of n rest (lookup n m)
unfolding acks_onto
lookup-acks_onto n m [] = refl
lookup-acks_onto n m (a ∷ rest) =
    lookup-acks_onto n (put a.name a.fingerprint m) rest
    ∙ ap (row_of n rest) (lookup-put n a.name a.fingerprint m)

row_of_absent :
    (n : String) (rest : List OperationAck) (before : Option String)
    → All (λ b. (b.name == n) ≡ false) rest
    → row_of n rest before ≡ before
row_of_absent n [] before h = refl
row_of_absent n (a ∷ rest) before h = rw (h.0) (row_of_absent n rest before h.1)

absent_upsert :
    (n : String) (rest : List OperationAck) (c : Candidate) (at : ℤ)
    → (c.name == n) ≡ false
    → All (λ b. (b.name == n) ≡ false) rest
    → All (λ b. (b.name == n) ≡ false) (upsert_operation_ack rest c at)
unfolding upsert_operation_ack
absent_upsert n [] c at e h = (e, tt)
absent_upsert n (a ∷ rest) c at e h = elim (Bool-cases (a.name == c.name)) [
  | inl s ↦ rw s (h.0, h.1)
  | inr s ↦ rw s (h.0, absent_upsert n rest c at e h.1)
]

-- A row that is updated keeps its place and its name.
pub upsert_one-IsKeyed :
    (rest : List OperationAck) (c : Candidate) (at : ℤ)
    → IsKeyed rest
    → IsKeyed (upsert_operation_ack rest c at)
unfolding upsert_operation_ack
upsert_one-IsKeyed [] c at h = (tt, tt)
upsert_one-IsKeyed (a ∷ rest) c at h = elim (Bool-cases (a.name == c.name)) [
  | inl s ↦ rw s (h.0, h.1)
  | inr s ↦ rw s (
    absent_upsert a.name rest c at (ground (arith, s, eq_iff a.name c.name, eq_iff c.name a.name))
        h.0,
    upsert_one-IsKeyed rest c at h.1,
  )
]

row_of-upsert :
    (n : String) (rest : List OperationAck) (c : Candidate) (at : ℤ) (before : Option String)
    → IsKeyed rest
    → row_of n (upsert_operation_ack rest c at) before
      ≡ (if c.name == n then some c.fingerprint else row_of n rest before)
unfolding upsert_operation_ack
row_of-upsert n [] c at before h = refl
row_of-upsert n (a ∷ rest) c at before h = elim (Bool-cases (a.name == c.name)) [
  | inl s ↦ rw s (updated s)
  | inr s ↦
      rw s (row_of-upsert n rest c at (if a.name == n then some a.fingerprint else before) h.1)
]
  where
    given : List OperationAck → Option String → Option String
    given r v = row_of n r (if a.name == n then v else before)

    updated :
        (a.name == c.name) ≡ true
        → given rest (some c.fingerprint)
          ≡ (if c.name == n then some c.fingerprint else given rest (some a.fingerprint))
    updated s = elim (Bool-cases (c.name == n)) [
      | inl e ↦
          let same : a.name ≡ n = (eq_iff a.name c.name).0 s ∙ (eq_iff c.name n).0 e in
          rw (e, (eq_iff a.name n).1 same)
            (row_of_absent n rest (some c.fingerprint)
              (subst (λ m. All (λ b. (b.name == m) ≡ false) rest) same h.0))
      | inr e ↦ rw (e, ap (λ m. m == n) ((eq_iff a.name c.name).0 s) ∙ e) refl
    ]

pub upsert_all-IsKeyed :
    (rest : List OperationAck) (ack : List Candidate) (at : ℤ)
    → IsKeyed rest
    → IsKeyed (upsert_operation_acks rest ack at)
unfolding upsert_operation_acks
upsert_all-IsKeyed rest [] at h = h
upsert_all-IsKeyed rest (c ∷ ack) at h =
    upsert_all-IsKeyed (upsert_operation_ack rest c at) ack at (upsert_one-IsKeyed rest c at h)

row_of-acks :
    (n : String) (rest : List OperationAck) (ack : List Candidate) (at : ℤ)
    → IsKeyed rest
    → row_of n (upsert_operation_acks rest ack at) none ≡ newest n ack (row_of n rest none)
unfolding upsert_operation_acks
row_of-acks n rest [] at h = refl
row_of-acks n rest (c ∷ ack) at h =
    row_of-acks n (upsert_operation_ack rest c at) ack at (upsert_one-IsKeyed rest c at h)
    ∙ ap (newest n ack) (row_of-upsert n rest c at none h)

-- Read back as a map, the rows that a pass writes hold the digest of each acknowledged candidate,
-- and of every other name what they held before.
pub recorded :
    (n : String) (rest : List OperationAck) (ack : List Candidate) (at : ℤ)
    → IsKeyed rest
    → lookup n (acks_onto [] (upsert_operation_acks rest ack at))
      ≡ newest n ack (lookup n (acks_onto [] rest))
unfolding lookup
recorded n rest ack at h =
    lookup-acks_onto n [] (upsert_operation_acks rest ack at)
    ∙ row_of-acks n rest ack at h
    ∙ ap (newest n ack) (sym (lookup-acks_onto n [] rest))

-- Candidates of one name that declare one digest.
pub newest_agreeing :
    (n : String) (fp : String) (ack : List Candidate) (before : Option String)
    → ((d : Candidate) → In d ack → d.name ≡ n → d.fingerprint ≡ fp)
    → (before ≡ some fp) ⊎ ((c : Candidate) × In c ack × (c.name ≡ n))
    → newest n ack before ≡ some fp
newest_agreeing n fp [] before agree (inl e) = e
newest_agreeing n fp [] before agree (inr m) = elim (m.1) [ ]
newest_agreeing n fp (d ∷ ack) before agree why = elim (Bool-cases (d.name == n)) [
  | inl e ↦ rw e (
      newest_agreeing n fp ack (some d.fingerprint) (λ k m. agree k (inr m))
        (inl (ap some (agree d (inl refl) ((eq_iff d.name n).0 e)))))
  | inr e ↦ rw e (newest_agreeing n fp ack before (λ k m. agree k (inr m)) (later why e))
]
  where
    later :
        (before ≡ some fp) ⊎ ((c : Candidate) × In c (d ∷ ack) × (c.name ≡ n))
        → (d.name == n) ≡ false
        → (before ≡ some fp) ⊎ ((c : Candidate) × In c ack × (c.name ≡ n))
    later (inl b) e = inl b
    later (inr (c, inr m, s)) e = inr (c, m, s)
    later (inr (c, inl p, s)) e =
        absurd (ground (arith, e, (eq_iff d.name n).1 (ap (λ k. k.name) (sym p) ∙ s)))
