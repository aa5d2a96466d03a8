-- ===== src/Prelude/Lists.antt =====
-- Lists measured by native numbers, Boolean searches, and predicates by recursion.
use Prim.Native.Nat.{ℕ, zero, suc, ◌+◌, ◌≤◌}
use mathlib.Core.Path.{◌≡◌, refl, sym, subst, ap}
use mathlib.Core.Logic.{◌⊎◌, inl, inr}
use mathlib.Core.Bool.{Bool, true, false, ◌&&◌, ◌||◌}
use mathlib.Core.List.{List, [], ◌∷◌, ◌++◌, map}
use mathlib.Core.Option.{Option, none, some}
use native.Mathlib.Omega.{arith}
use mathlib.Core.Option.{some-injective}
use littlered.Prelude.Tests.{if◌then◌else◌, Bool-cases}

module _ {ℓ} {A : Type ℓ} where
  abbrev pub length : List A → ℕ
  length [] = 0
  length (x ∷ xs) = suc (length xs)

  abbrev pub get_elem? : List A → ℕ → Option A
  get_elem? [] i = none
  get_elem? (x ∷ xs) zero = some x
  get_elem? (x ∷ xs) (suc i) = get_elem? xs i

  abbrev pub head? : List A → Option A
  head? [] = none
  head? (x ∷ xs) = some x

  -- The elements that pass a test, in their order.
  abbrev pub select : (A → Bool) → List A → List A
  select p [] = []
  select p (x ∷ xs) = if p x then x ∷ select p xs else select p xs

  abbrev pub any : (A → Bool) → List A → Bool
  any p [] = false
  any p (x ∷ xs) = p x || any p xs

  abbrev pub all : (A → Bool) → List A → Bool
  all p [] = true
  all p (x ∷ xs) = p x && all p xs

  -- How many elements pass a test.
  abbrev pub count_if : (A → Bool) → List A → ℕ
  count_if p [] = 0
  count_if p (x ∷ xs) = if p x then suc (count_if p xs) else count_if p xs

  abbrev pub find_first : (A → Bool) → List A → Option A
  find_first p [] = none
  find_first p (x ∷ xs) = if p x then some x else find_first p xs

  -- Tests that exclude each other and imply a third one.
  pub count_if_disjoint :
      (p q r : A → Bool)
      → ((x : A) → p x ≡ true → q x ≡ true → ⊥)
      → ((x : A) → p x ≡ true → r x ≡ true)
      → ((x : A) → q x ≡ true → r x ≡ true)
      → (xs : List A) → count_if p xs + count_if q xs ≤ count_if r xs
  count_if_disjoint p q r d hp hq [] = ground arith
  count_if_disjoint p q r d hp hq (x ∷ xs) =
      ground (arith, count_if_disjoint p q r d hp hq xs, d x, hp x, hq x)

  abbrev pub All {κ} : (A → Type κ) → List A → Type κ
  All P [] = Unit
  All P (x ∷ xs) = P x × All P xs

module _ {A : Type 0} where
  -- Membership, with the place where the element stands.
  abbrev pub In : A → List A → Type 0
  In a [] = ⊥
  In a (x ∷ xs) = (a ≡ x) ⊎ In a xs

  pub All-In {κ} : (P : A → Type κ) (xs : List A) {x : A} → All P xs → In x xs → P x
  All-In P [] h m = elim m [ ]
  All-In P (x ∷ xs) h (inl e) = subst P (sym e) h.0
  All-In P (x ∷ xs) h (inr m) = All-In P xs h.1 m

  pub All-of_In {κ} : (P : A → Type κ) (xs : List A) → ((x : A) → In x xs → P x) → All P xs
  All-of_In P [] h = tt
  All-of_In P (x ∷ xs) h = (h x (inl refl), All-of_In P xs (λ y m. h y (inr m)))

  pub In-of_select :
      (p : A → Bool) (x : A) (xs : List A) → In x (select p xs) → In x xs × (p x ≡ true)
  In-of_select p x [] m = elim m [ ]
  In-of_select p x (y ∷ ys) m = ground (arith, In-of_select p x ys)

  pub find_first-In :
      (p : A → Bool) (xs : List A) (x : A) → find_first p xs ≡ some x → In x xs × (p x ≡ true)
  find_first-In p [] x e = absurd (cc)
  find_first-In p (y ∷ ys) x e = elim (Bool-cases (p y)) [
    | inl h ↦ (
      inl (sym (some-injective y x (rw h at e))),
      subst (λ z. p z ≡ true) (some-injective y x (rw h at e)) h,
    )
    | inr h ↦ let t = find_first-In p ys x (rw h at e) in (inr t.0, t.1)
  ]

  pub In-select : (p : A → Bool) (x : A) (xs : List A) → In x xs → p x ≡ true → In x (select p xs)
  In-select p x [] m e = m
  In-select p x (y ∷ ys) m e = ground (arith, In-select p x ys)

  pub In-of_append : (x : A) (xs ys : List A) → In x (xs ++ ys) → In x xs ⊎ In x ys
  In-of_append x [] ys m = inr m
  In-of_append x (y ∷ zs) ys (inl e) = inl (inl e)
  In-of_append x (y ∷ zs) ys (inr m) = elim (In-of_append x zs ys m) [
    | inl a ↦ inl (inr a)
    | inr b ↦ inr b
  ]

  pub In-append_left : (x : A) (xs ys : List A) → In x xs → In x (xs ++ ys)
  In-append_left x [] ys m = elim m [ ]
  In-append_left x (y ∷ zs) ys (inl e) = inl e
  In-append_left x (y ∷ zs) ys (inr m) = inr (In-append_left x zs ys m)

  pub In-append_right : (x : A) (xs ys : List A) → In x ys → In x (xs ++ ys)
  In-append_right x [] ys m = m
  In-append_right x (y ∷ zs) ys m = inr (In-append_right x zs ys m)

  pub any-In : (p : A → Bool) (xs : List A) (x : A) → any p xs ≡ false → In x xs → p x ≡ false
  any-In p [] x e m = elim m [ ]
  any-In p (y ∷ ys) x e (inl h) = ground (arith, e, h)
  any-In p (y ∷ ys) x e (inr m) = any-In p ys x (ground (arith, e)) m

pub In-map : {A B : Type 0} (f : A → B) (x : A) (xs : List A) → In x xs → In (f x) (map f xs)
In-map f x [] m = elim m [ ]
In-map f x (y ∷ ys) (inl e) = inl (ap f e)
In-map f x (y ∷ ys) (inr m) = inr (In-map f x ys m)

pub In-of_map :
    {A B : Type 0} (f : A → B) (y : B) (xs : List A)
    → In y (map f xs)
    → (x : A) × In x xs × (y ≡ f x)
In-of_map f y [] m = elim m [ ]
In-of_map f y (x ∷ xs) (inl e) = (x, inl refl, e)
In-of_map f y (x ∷ xs) (inr m) = let t = In-of_map f y xs m in (t.0, inr t.1, t.2)
