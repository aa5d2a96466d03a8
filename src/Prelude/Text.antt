-- ===== src/Prelude/Text.antt =====
-- The order of Go strings. `compare` orders texts by code points, which for UTF-8 is the order of
-- their bytes.
use Prim.Native.Nat.{ℕ, Ordering, compare as compare_ℕ}
use Prim.Native.Char.{Char, code}
use Prim.Native.String.{String, compare, then as lex}
use Prim.Native.String.compare
use text.Mathlib.Text.{is_lt, find?}
use text.Mathlib.TextEquality.{path_by_compare}
use text.Mathlib.TextPositions.{compare_refl}
use mathlib.Core.Path.{◌≡◌, refl}
use mathlib.Core.Bool.{Bool, true, false, ◌&&◌, ◌||◌}
use mathlib.Core.List.{List, [], ◌∷◌}
use native.Mathlib.Omega.{arith}
use littlered.Prelude.Tests.{leb, ◌==◌, nat_eq, if◌then◌else◌, is_some}

abbrev pub str_ltb : String → String → Bool
str_ltb s t = is_lt (compare s t)

abbrev pub StrLt : String → String → Type 0
StrLt s t = str_ltb s t ≡ true

pub StrLt-irrefl : (s : String) → ¬ StrLt s s
StrLt-irrefl s h = ground (arith, compare_refl s)

then_lt_trans :
    (m n k : ℕ) (p q r : Ordering)
    → (is_lt p ≡ true → is_lt q ≡ true → is_lt r ≡ true)
    → is_lt (lex (compare_ℕ m n) p) ≡ true
    → is_lt (lex (compare_ℕ n k) q) ≡ true
    → is_lt (lex (compare_ℕ m k) r) ≡ true
then_lt_trans m n k p q r ih h h' = ground arith

then_connex :
    (m n : ℕ) (p q : Ordering)
    → (is_lt p ≡ false → is_lt q ≡ false → p ≡ Ordering.eq)
    → is_lt (lex (compare_ℕ m n) p) ≡ false
    → is_lt (lex (compare_ℕ n m) q) ≡ false
    → lex (compare_ℕ m n) p ≡ Ordering.eq
then_connex m n p q ih h h' = ground arith

pub StrLt-trans : (s t u : String) → StrLt s t → StrLt t u → StrLt s u
StrLt-trans String.[] String.[] String.[] h h' = h
StrLt-trans String.[] (String.◌∷◌ d t) String.[] h h' = ground (arith, compare.cons-nil d t)
StrLt-trans String.[] t (String.◌∷◌ e u) h h' = rw compare.nil-cons refl
StrLt-trans (String.◌∷◌ c s) String.[] u h h' = ground (arith, compare.cons-nil c s)
StrLt-trans (String.◌∷◌ c s) (String.◌∷◌ d t) String.[] h h' = ground (arith, compare.cons-nil d t)
StrLt-trans (String.◌∷◌ c s) (String.◌∷◌ d t) (String.◌∷◌ e u) h h' = rw compare.cons-cons (
    then_lt_trans (code c) (code d) (code e) (compare s t) (compare t u) (compare s u)
      (StrLt-trans s t u) (rw compare.cons-cons at h) (rw compare.cons-cons at h'))

compare_connex :
    (s t : String) → str_ltb s t ≡ false → str_ltb t s ≡ false → compare s t ≡ Ordering.eq
compare_connex String.[] String.[] h h' = compare.nil-nil
compare_connex String.[] (String.◌∷◌ d t) h h' = ground (arith, compare.nil-cons d t)
compare_connex (String.◌∷◌ c s) String.[] h h' = ground (arith, compare.nil-cons c s)
compare_connex (String.◌∷◌ c s) (String.◌∷◌ d t) h h' = rw compare.cons-cons (
    then_connex (code c) (code d) (compare s t) (compare t s) (compare_connex s t)
      (rw compare.cons-cons at h) (rw compare.cons-cons at h'))

pub StrLt-connex : (s t : String) → str_ltb s t ≡ false → str_ltb t s ≡ false → s ≡ t
StrLt-connex s t h h' = path_by_compare s t (compare_connex s t h h')

-- strings.Contains.
abbrev pub str_contains : String → String → Bool
str_contains s t = is_some (find? s t)

-- strings.Split at one ASCII separator: the first piece, and the pieces behind it.
unfoldable pub split_from : ℕ → String → String × List String
split_from sep String.[] = (String.[], [])
split_from sep (String.◌∷◌ c s) =
    let (piece, rest) = split_from sep s in
    if code c == sep then (String.[], piece ∷ rest) else (String.◌∷◌ c piece, rest)

unfoldable pub split : ℕ → String → List String
unfolding split_from
split sep s = let (piece, rest) = split_from sep s in piece ∷ rest

-- unicode.IsSpace.
abbrev is_space : ℕ → Bool
is_space c =
    (leb 9 c && leb c 13)
    || c == 32
    || c == 0x85
    || c == 0xa0
    || c == 0x1680
    || (leb 0x2000 c && leb c 0x200a)
    || c == 0x2028
    || c == 0x2029
    || c == 0x202f
    || c == 0x205f
    || c == 0x3000

trim_left : String → String
trim_left String.[] = String.[]
trim_left (String.◌∷◌ c s) =
    let rest = trim_left s in if is_space (code c) then rest else String.◌∷◌ c s

abbrev snoc_trimmed : Char → String → String
snoc_trimmed c String.[] = if is_space (code c) then String.[] else String.◌∷◌ c String.[]
snoc_trimmed c (String.◌∷◌ d s) = String.◌∷◌ c (String.◌∷◌ d s)

trim_right : String → String
trim_right String.[] = String.[]
trim_right (String.◌∷◌ c s) = snoc_trimmed c (trim_right s)

-- strings.TrimSpace.
unfoldable pub trim_space : String → String
unfolding trim_left trim_right
trim_space s = trim_right (trim_left s)

trim_space_test : trim_space "  a b\t\n" ≡ "a b"
unfolding trim_space
trim_space_test = refl

split_test : split b',' "master,s_down,," ≡ "master" ∷ "s_down" ∷ "" ∷ "" ∷ []
unfolding split
split_test = refl
