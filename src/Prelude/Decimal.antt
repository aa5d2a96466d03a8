-- ===== src/Prelude/Decimal.antt =====
-- strconv.Itoa and strconv.Atoi on numbers that are not negative.
use Prim.Native.Nat.{ℕ, zero, suc, ◌+◌, ◌-◌, ◌*◌, ◌/◌, ◌%◌, ◌<◌}
use Prim.Native.Char.{Char, code}
use Prim.Native.String.{String, ◌++◌}
use text.Mathlib.TextLemmas.{nil-append, cons-append}
use mathlib.Core.Path.{◌≡◌, refl, sym, ◌∙◌, ap}
use mathlib.Core.Bool.{Bool, true, false, ◌&&◌}
use mathlib.Core.Option.{Option, none, some}
use mathlib.Core.Logic.{inl, inr}
use native.Mathlib.Omega.{arith}
use mathlib.Core.List.{List, [], ◌∷◌}
use littlered.Prelude.Text.{split, split_from}
use littlered.Prelude.Tests.{ltb, leb, ◌==◌, nat_eq, if◌then◌else◌, Bool-cases}

-- The digit of a number below ten.
abbrev digit : ℕ → Char
digit zero = "0"
digit (suc zero) = "1"
digit (suc (suc zero)) = "2"
digit (suc (suc (suc zero))) = "3"
digit (suc (suc (suc (suc zero)))) = "4"
digit (suc (suc (suc (suc (suc zero))))) = "5"
digit (suc (suc (suc (suc (suc (suc zero)))))) = "6"
digit (suc (suc (suc (suc (suc (suc (suc zero))))))) = "7"
digit (suc (suc (suc (suc (suc (suc (suc (suc zero)))))))) = "8"
digit (suc (suc (suc (suc (suc (suc (suc (suc (suc n))))))))) = "9"

-- The digits of `n` in front of `rest`; the fuel is above `n`.
digits : ℕ → ℕ → String → String
digits zero n rest = rest
digits (suc f) n rest =
    let longer = digits f (n / 10) (String.◌∷◌ (digit (n % 10)) rest) in
    if ltb n 10 then String.◌∷◌ (digit n) rest else longer

unfoldable pub itoa : ℕ → String
unfolding digits
itoa n = digits (suc n) n String.[]

abbrev pub is_digit : ℕ → Bool
is_digit c = leb b'0' c && leb c b'9'

-- The value of a text of digits behind those read so far.
value_from : ℕ → String → Option ℕ
value_from acc String.[] = some acc
value_from acc (String.◌∷◌ c s) =
    let rest = value_from (acc * 10 + (code c - b'0')) s in if is_digit (code c) then rest else none

-- One digit at least, and a value that int64 holds.
in_range : Option ℕ → Option ℕ
in_range none = none
in_range (some n) = if ltb n 9223372036854775808 then some n else none

value : String → Option ℕ
value String.[] = none
value (String.◌∷◌ c s) = in_range (value_from 0 (String.◌∷◌ c s))

-- A text with no `-` in it: a sign `+` may stand in front.
unfoldable pub atoi : String → Option ℕ
unfolding value_from in_range value
atoi String.[] = none
atoi (String.◌∷◌ c s) = if code c == b'+' then value s else value (String.◌∷◌ c s)

itoa_test : itoa 16383 ≡ "16383"
unfolding itoa
itoa_test = refl

atoi_test : atoi "+5460" ≡ some 5460
unfolding atoi
atoi_test = refl

digit-code : (n : ℕ) → n < 10 → code (digit n) ≡ n + b'0'
digit-code zero h = refl
digit-code (suc zero) h = refl
digit-code (suc (suc zero)) h = refl
digit-code (suc (suc (suc zero))) h = refl
digit-code (suc (suc (suc (suc zero)))) h = refl
digit-code (suc (suc (suc (suc (suc zero))))) h = refl
digit-code (suc (suc (suc (suc (suc (suc zero)))))) h = refl
digit-code (suc (suc (suc (suc (suc (suc (suc zero))))))) h = refl
digit-code (suc (suc (suc (suc (suc (suc (suc (suc zero)))))))) h = refl
digit-code (suc (suc (suc (suc (suc (suc (suc (suc (suc zero))))))))) h = refl
digit-code (suc (suc (suc (suc (suc (suc (suc (suc (suc (suc n)))))))))) h = absurd (omega arith)

-- Reading a digit that was printed.
value_from-digit :
    (acc d : ℕ) (rest : String)
    → d < 10
    → value_from acc (String.◌∷◌ (digit d) rest) ≡ value_from (acc * 10 + d) rest
unfolding value_from
value_from-digit acc d rest h =
    let c = digit-code d h in
    let e : acc * 10 + (d + b'0' - b'0') ≡ acc * 10 + d = omega arith in
    rw (c, e) (go (is_digit (d + b'0')) (ground arith))
  where
    go :
        (b : Bool)
        → b ≡ true
        → (if b then value_from (acc * 10 + d) rest else none) ≡ value_from (acc * 10 + d) rest
    go true q = refl
    go false q = cc

digits-value :
    (f n : ℕ) (rest : String) → n < f → value_from 0 (digits f n rest) ≡ value_from n rest
unfolding digits
digits-value zero n rest h = elim h [ ]
digits-value (suc f) n rest h = elim (Bool-cases (ltb n 10)) [
  | inl small ↦
      rw small
        (value_from-digit 0 n rest (ground arith) ∙ ap (λ k. value_from k rest) (omega arith))
  | inr large ↦ rw large (
      digits-value f (n / 10) (String.◌∷◌ (digit (n % 10)) rest) (ground arith)
      ∙ value_from-digit (n / 10) (n % 10) rest (omega arith)
      ∙ ap (λ k. value_from k rest) (omega arith))
]

-- A printed number begins with a digit.
digits-head :
    (f n : ℕ) (rest : String)
    → n < f
    → (d : ℕ) × (s : String) × (d < 10) × (digits f n rest ≡ String.◌∷◌ (digit d) s)
unfolding digits
digits-head zero n rest h = elim h [ ]
digits-head (suc f) n rest h = elim (Bool-cases (ltb n 10)) [
  | inl small ↦ (n, rest, ground arith, rw small refl)
  | inr large ↦
      (let (d, s, below, e) =
          digits-head f (n / 10) (String.◌∷◌ (digit (n % 10)) rest) (ground arith) in
        (d, s, below, rw large e))
]

atoi-value :
    (d : ℕ) (s : String) (n : ℕ)
    → d < 10
    → n < 9223372036854775808
    → value_from 0 (String.◌∷◌ (digit d) s) ≡ some n
    → atoi (String.◌∷◌ (digit d) s) ≡ some n
unfolding atoi
atoi-value d s n h l e =
    let sign : (code (digit d) == b'+') ≡ false = ground (arith, digit-code d h) in
    let room : ltb n 9223372036854775808 ≡ true = ground arith in rw (sign, e, room) refl

-- A number that int64 holds is read back as it was printed.
pub atoi-itoa : (n : ℕ) → n < 9223372036854775808 → atoi (itoa n) ≡ some n
unfolding itoa value_from
atoi-itoa n l =
    let (d, s, below, e) = digits-head (suc n) n String.[] (omega arith) in
    rw e (
      atoi-value d s n below l
        (ap (value_from 0) (sym e) ∙ digits-value (suc n) n String.[] (omega arith)))

-- A separator that is no digit does not split a digit.
split_from-digit :
    (sep d : ℕ) (rest : String)
    → is_digit sep ≡ false
    → d < 10
    → split_from sep (String.◌∷◌ (digit d) rest)
      ≡ (String.◌∷◌ (digit d) (split_from sep rest).0, (split_from sep rest).1)
unfolding split_from
split_from-digit sep d rest h l =
    let other : (code (digit d) == sep) ≡ false = ground (arith, digit-code d l) in rw other refl

split_from-digits :
    (sep f n : ℕ) (rest : String)
    → is_digit sep ≡ false
    → n < f
    → split_from sep (digits f n rest)
      ≡ (digits f n (split_from sep rest).0, (split_from sep rest).1)
unfolding digits
split_from-digits sep zero n rest h l = elim l [ ]
split_from-digits sep (suc f) n rest h l = elim (Bool-cases (ltb n 10)) [
  | inl small ↦ rw small (split_from-digit sep n rest h (ground arith))
  | inr large ↦ rw large (
      split_from-digits sep f (n / 10) (String.◌∷◌ (digit (n % 10)) rest) h (ground arith)
      ∙ ap (λ (q : String × List String). (digits f (n / 10) q.0, q.1))
          (split_from-digit sep (n % 10) rest h (omega arith)))
]

digits-append : (f n : ℕ) (rest t : String) → digits f n rest ++ t ≡ digits f n (rest ++ t)
unfolding digits
digits-append zero n rest t = refl
digits-append (suc f) n rest t = elim (Bool-cases (ltb n 10)) [
  | inl small ↦ rw small (cons-append (digit n) rest t)
  | inr large ↦ rw large (
      digits-append f (n / 10) (String.◌∷◌ (digit (n % 10)) rest) t
      ∙ ap (digits f (n / 10)) (cons-append (digit (n % 10)) rest t))
]

-- A printed number alone is one piece.
pub split-itoa : (sep n : ℕ) → is_digit sep ≡ false → split sep (itoa n) ≡ itoa n ∷ []
unfolding split split_from itoa
split-itoa sep n h =
    ap (λ (q : String × List String). q.0 ∷ q.1)
      (split_from-digits sep (suc n) n String.[] h (omega arith))

dash : (x : String) → String.[] ++ ("-" ++ x) ≡ String.◌∷◌ "-" x
dash x = nil-append ("-" ++ x) ∙ cons-append "-" String.[] x ∙ ap (String.◌∷◌ "-") (nil-append x)

split_from-dash :
    (m : ℕ) → split_from b'-' (String.[] ++ ("-" ++ itoa m)) ≡ (String.[], itoa m ∷ [])
unfolding split_from itoa
split_from-dash m =
    ap (split_from b'-') (dash (itoa m))
    ∙ ap (λ (q : String × List String). (String.[], q.0 ∷ q.1))
        (split_from-digits b'-' (suc m) m String.[] refl (omega arith))

-- Two printed numbers with a dash between them are two pieces.
pub split-itoa_pair : (n m : ℕ) → split b'-' (itoa n ++ "-" ++ itoa m) ≡ itoa n ∷ itoa m ∷ []
unfolding split itoa
split-itoa_pair n m =
    ap (λ (q : String × List String). q.0 ∷ q.1)
      (ap (split_from b'-') (digits-append (suc n) n String.[] ("-" ++ itoa m))
        ∙ split_from-digits b'-' (suc n) n (String.[] ++ ("-" ++ itoa m)) refl (omega arith)
        ∙ ap (λ (q : String × List String). (digits (suc n) n q.0, q.1)) (split_from-dash m))
