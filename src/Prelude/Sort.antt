-- ===== src/Prelude/Sort.antt =====
-- Go's sort.Slice, sort.Strings and sort.Ints: insertion sort by a strict order, which keeps equal
-- elements in place.
use Prim.Native.Nat.{suc}
use mathlib.Core.Path.{◌≡◌, refl, ap, ◌∙◌}
use mathlib.Core.Bool.{Bool, true, false}
use mathlib.Core.Logic.{◌⊎◌, inl, inr}
use mathlib.Core.List.{List, [], ◌∷◌}
use native.Mathlib.Omega.{arith}
use Prim.Native.String.{String}
use littlered.Prelude.Tests.{if◌then◌else◌}
use littlered.Prelude.Lists.{In, length}
use littlered.Prelude.Text.{str_ltb}

-- The order of a name.
abbrev pub by {ℓ} : {A : Type ℓ} → (A → String) → A → A → Bool
by name a b = str_ltb (name a) (name b)

module _ {ℓ} {A : Type ℓ} (lt : A → A → Bool) where
  unfoldable pub insert_by : A → List A → List A
  insert_by x [] = x ∷ []
  insert_by x (y ∷ ys) = if lt y x then y ∷ insert_by x ys else x ∷ y ∷ ys

  unfoldable pub sort_by : List A → List A
  unfolding insert_by
  sort_by [] = []
  sort_by (x ∷ xs) = insert_by x (sort_by xs)

module _ {A : Type 0} (lt : A → A → Bool) where
  In-insert_by : (a x : A) (ys : List A) → In a (insert_by lt x ys) → (a ≡ x) ⊎ In a ys
  unfolding insert_by
  In-insert_by a x [] m = m
  In-insert_by a x (y ∷ ys) m = ground (arith, In-insert_by a x ys)

  In-insert_by_self : (x : A) (ys : List A) → In x (insert_by lt x ys)
  unfolding insert_by
  In-insert_by_self x [] = inl refl
  In-insert_by_self x (y ∷ ys) = ground (arith, In-insert_by_self x ys)

  In-insert_by_old : (a x : A) (ys : List A) → In a ys → In a (insert_by lt x ys)
  unfolding insert_by
  In-insert_by_old a x [] m = elim m [ ]
  In-insert_by_old a x (y ∷ ys) m = ground (arith, In-insert_by_old a x ys)

  pub In-of_sort_by : (a : A) (xs : List A) → In a (sort_by lt xs) → In a xs
  unfolding sort_by
  In-of_sort_by a [] m = m
  In-of_sort_by a (x ∷ xs) m = elim (In-insert_by a x (sort_by lt xs) m) [
    | inl e ↦ inl e
    | inr i ↦ inr (In-of_sort_by a xs i)
  ]

  pub In-sort_by : (a : A) (xs : List A) → In a xs → In a (sort_by lt xs)
  unfolding sort_by
  In-sort_by a [] m = m
  In-sort_by a (x ∷ xs) m = ground (
    arith,
    In-insert_by_self x (sort_by lt xs),
    In-insert_by_old a x (sort_by lt xs),
    In-sort_by a xs,
  )

  length-insert_by : (x : A) (ys : List A) → length (insert_by lt x ys) ≡ suc (length ys)
  unfolding insert_by
  length-insert_by x [] = refl
  length-insert_by x (y ∷ ys) = ground (arith, length-insert_by x ys)

  pub length-sort_by : (xs : List A) → length (sort_by lt xs) ≡ length xs
  unfolding sort_by
  length-sort_by [] = refl
  length-sort_by (x ∷ xs) = length-insert_by x (sort_by lt xs) ∙ ap suc (length-sort_by xs)

-- Neighbours in order: no element is before the one that it follows.
abbrev pub IsSorted {ℓ} : {A : Type ℓ} → (A → A → Bool) → List A → Type 0
IsSorted lt [] = Unit
IsSorted lt (x ∷ []) = Unit
IsSorted lt (x ∷ y ∷ ys) = (lt y x ≡ false) × IsSorted lt (y ∷ ys)

module _ {ℓ} {A : Type ℓ} (lt : A → A → Bool)
    (asym : (a b : A) → lt a b ≡ true → lt b a ≡ false) where
  insert_by-IsSorted : (x : A) (ys : List A) → IsSorted lt ys → IsSorted lt (insert_by lt x ys)
  unfolding insert_by
  insert_by-IsSorted x [] s = tt
  insert_by-IsSorted x (y ∷ []) s = ground (arith, asym y x)
  insert_by-IsSorted x (y ∷ z ∷ ys) s = ground (arith, asym y x, insert_by-IsSorted x (z ∷ ys))

  pub sort_by-IsSorted : (xs : List A) → IsSorted lt (sort_by lt xs)
  unfolding sort_by
  sort_by-IsSorted [] = tt
  sort_by-IsSorted (x ∷ xs) = insert_by-IsSorted x (sort_by lt xs) (sort_by-IsSorted xs)
