-- ===== src/Common/Text.antt =====
-- Texts as lists of bytes, and what the program uses of Go's `strconv` and `strings` on them.
use Prim.Native.String.{String}
use Prim.Native.Char.{code}
use tele_portal.Common.{
  Bool, List, Option, [], ap₂, arith, false, if◌then◌else◌, leb, ltb, map, none, refl, some, suc,
  true, zero, ℕ, ◌%◌, ◌&&◌, ◌*◌, ◌++◌, ◌+◌, ◌-◌, ◌/◌, ◌==◌, ◌∷◌, ◌≡◌,
}
use tele_portal.Common.Int.{negsuc, pos, ℤ}

abbrev pub Text : Type 0
Text = List ℕ

-- The bytes of an ASCII literal.
abbrev pub codes : String → Text
codes String.[] = []
codes (String.◌∷◌ c s) = code c ∷ codes s

-- `==` on strings.
unfoldable pub same_text : Text → Text → Bool
same_text [] [] = true
same_text [] (y ∷ ys) = false
same_text (x ∷ xs) [] = false
same_text (x ∷ xs) (y ∷ ys) = x == y && same_text xs ys

pub same_text_refl : (s : Text) → same_text s s ≡ true
unfolding same_text
same_text_refl [] = refl
same_text_refl (x ∷ xs) = ground (arith, same_text_refl xs)

pub same_text→eq : (s t : Text) → same_text s t ≡ true → s ≡ t
unfolding same_text
same_text→eq [] [] h = refl
same_text→eq [] (y ∷ ys) h = cc
same_text→eq (x ∷ xs) [] h = cc
same_text→eq (x ∷ xs) (y ∷ ys) h = ground (arith, same_text→eq xs ys)

==_comm : (x y : ℕ) → (x == y) ≡ (y == x)
==_comm x y = ground arith

pub same_text_sym : (s t : Text) → same_text s t ≡ same_text t s
unfolding same_text
same_text_sym [] [] = refl
same_text_sym [] (y ∷ ys) = refl
same_text_sym (x ∷ xs) [] = refl
same_text_sym (x ∷ xs) (y ∷ ys) = ap₂ ◌&&◌ (==_comm x y) (same_text_sym xs ys)

-- `strings.ToUpper` and `strings.ToLower` on an ASCII byte.
abbrev pub upper : ℕ → ℕ
upper c = if leb 97 c && leb c 122 then c - 32 else c

abbrev pub lower : ℕ → ℕ
lower c = if leb 65 c && leb c 90 then c + 32 else c

-- `strings.EqualFold` on ASCII.
unfoldable pub equal_fold : Text → Text → Bool
unfolding same_text
equal_fold s t = same_text (map lower s) (map lower t)

-- `strconv.Itoa` of a number that is not negative, the last digit first; the fuel bounds the
-- number of digits.
unfoldable pub digits_of : ℕ → ℕ → Text
digits_of zero n = []
digits_of (suc f) n =
    let rest = digits_of f (n / 10) in
    if ltb n 10 then (n + 48) ∷ [] else rest ++ (n % 10 + 48) ∷ []

unfoldable pub itoa : ℕ → Text
unfolding digits_of
itoa n = digits_of (suc n) n

-- `strings.Split` by one byte.
unfoldable pub split_from : ℕ → Text → Text → List Text
split_from sep word [] = word ∷ []
split_from sep word (c ∷ cs) = elim (c == sep) [
  | true ↦ word ∷ split_from sep [] cs
  | false ↦ split_from sep (word ++ c ∷ []) cs
]

unfoldable pub split : ℕ → Text → List Text
unfolding split_from
split sep s = split_from sep [] s

-- The digits of a decimal number, `none` at any other byte.
unfoldable pub decimal_from : ℕ → Text → Option ℕ
decimal_from acc [] = some acc
decimal_from acc (c ∷ cs) =
    let rest = decimal_from (acc * 10 + (c - 48)) cs in if leb 48 c && leb c 57 then rest else none

unfoldable pub decimal : Text → Option ℕ
unfolding decimal_from
decimal [] = none
decimal (c ∷ cs) = decimal_from 0 (c ∷ cs)

-- `strconv.Atoi` with a 64-bit int: a sign, then digits; `none` is an error.
abbrev pub in_range : ℕ → ℕ → (ℕ → ℤ) → Option ℕ → Option ℤ
in_range lo hi f none = none
in_range lo hi f (some n) = if leb lo n && leb n hi then some (f n) else none

abbrev pub negate : ℕ → ℤ
negate zero = pos 0
negate (suc n) = negsuc n

unfoldable pub atoi : Text → Option ℤ
unfolding decimal
atoi [] = none
atoi (c ∷ cs) =
    if c == 45
    then in_range 0 9223372036854775808 negate (decimal cs)
    else if c == 43
    then in_range 0 9223372036854775807 pos (decimal cs)
    else in_range 0 9223372036854775807 pos (decimal (c ∷ cs))
