-- ===== src/Common/Numerals.antt =====
-- Decimal numerals: `strconv.Atoi` reads back what `strconv.Itoa` prints, and the parts of a text
-- that is joined from parts without the separator.
use mathlib.Core.List.{append-nil, append_assoc}
use tele_portal.Common.{
  ==_iff, Bool, Bool-cases, Option, [], ap, arith, false, inl, inr, leb, none, not, refl, some,
  subst, suc, sym, true, zero, ℕ, ◌%◌, ◌&&◌, ◌*◌, ◌++◌, ◌+◌, ◌-◌, ◌/◌, ◌<◌, ◌==◌, ◌∙◌, ◌∷◌, ◌≡◌,
  ◌≤◌, ◌⊎◌,
}
use tele_portal.Common.Int.{pos, pos_part, ℤ}
use tele_portal.Common.Maps.{some-inj, some-none}
use tele_portal.Common.Text.{
  Text, atoi, decimal, decimal_from, digits_of, in_range, itoa, negate, split, split_from,
}

-- Only digits.
unfoldable pub AllDigits : Text → Type 0
AllDigits [] = Unit
AllDigits (c ∷ cs) = (48 ≤ c) × (c ≤ 57) × AllDigits cs

digits_append : (s : Text) (d : ℕ) → AllDigits s → 48 ≤ d → d ≤ 57 → AllDigits (s ++ d ∷ [])
unfolding AllDigits
digits_append [] d h lo hi = (lo, hi, record {})
digits_append (c ∷ cs) d h lo hi = (h.0, h.1, digits_append cs d (h.2) lo hi)

digits_of-step :
    (f n : ℕ)
    → ((n < 10) × (digits_of (suc f) n ≡ (n + 48) ∷ []))
      ⊎ ((10 ≤ n) × (digits_of (suc f) n ≡ digits_of f (n / 10) ++ (n % 10 + 48) ∷ []))
unfolding digits_of
digits_of-step f n = ground arith

digits_of-AllDigits : (f n : ℕ) → AllDigits (digits_of f n)
unfolding AllDigits digits_of
digits_of-AllDigits zero n = record {}
digits_of-AllDigits (suc f) n = elim (digits_of-step f n) [
  | inl (h, e) ↦ rw e (omega arith, omega arith, record {})
  | inr (h, e) ↦ rw e (
      digits_append (digits_of f (n / 10)) (n % 10 + 48) (digits_of-AllDigits f (n / 10))
        (omega arith) (omega arith))
]

digit_step :
    (acc c : ℕ) (cs : Text)
    → (leb 48 c && leb c 57) ≡ true
    → decimal_from acc (c ∷ cs) ≡ decimal_from (acc * 10 + (c - 48)) cs
unfolding decimal_from
digit_step acc c cs k = rw k refl

not_digit :
    (acc c : ℕ) (cs : Text) → (leb 48 c && leb c 57) ≡ false → decimal_from acc (c ∷ cs) ≡ none
unfolding decimal_from
not_digit acc c cs k = rw k refl

decimal_from-append :
    (acc m d : ℕ) (s : Text)
    → decimal_from acc s ≡ some m
    → d < 10
    → decimal_from acc (s ++ (d + 48) ∷ []) ≡ some (m * 10 + d)
unfolding decimal_from
decimal_from-append acc m d [] e h = ground (arith, some-inj e)
decimal_from-append acc m d (c ∷ cs) e h = elim (Bool-cases (leb 48 c && leb c 57)) [
  | inl k ↦
      rw k (decimal_from-append (acc * 10 + (c - 48)) m d cs (sym (digit_step acc c cs k) ∙ e) h)
  | inr k ↦ absurd (some-none (sym e ∙ not_digit acc c cs k))
]

one_digit : (n : ℕ) → n < 10 → decimal_from 0 ((n + 48) ∷ []) ≡ some n
unfolding decimal_from
one_digit n h = ground arith

decimal_from-digits_of : (f n : ℕ) → n < f → decimal_from 0 (digits_of f n) ≡ some n
decimal_from-digits_of zero n h = absurd (omega arith)
decimal_from-digits_of (suc f) n h = elim (digits_of-step f n) [
  | inl (k, e) ↦ rw e (one_digit n k)
  | inr (k, e) ↦ rw e (
      decimal_from-append 0 (n / 10) (n % 10) (digits_of f (n / 10))
        (decimal_from-digits_of f (n / 10) (omega arith)) (omega arith)
      ∙ ap some (omega arith))
]

-- A numeral starts with a digit, so it is read without a sign.
atoi-decimal :
    (s : Text) (n : ℕ)
    → AllDigits s
    → decimal_from 0 s ≡ some n
    → ¬ (s ≡ [])
    → n ≤ 9223372036854775807
    → atoi s ≡ some (pos n)
unfolding atoi decimal AllDigits
atoi-decimal [] n h e ne k = absurd (ne refl)
atoi-decimal (c ∷ cs) n h e ne k = ground (arith, e)

append_nonempty : (s : Text) (d : ℕ) → ¬ (s ++ d ∷ [] ≡ [])
append_nonempty [] d e = cc
append_nonempty (c ∷ cs) d e = cc

itoa_nonempty : (n : ℕ) → ¬ (digits_of (suc n) n ≡ [])
itoa_nonempty n e = elim (digits_of-step n n) [
  | inl (k, f) ↦ append_nonempty [] (n + 48) (sym f ∙ e)
  | inr (k, f) ↦ append_nonempty (digits_of n (n / 10)) (n % 10 + 48) (sym f ∙ e)
]

pub atoi-itoa : (n : ℕ) → n ≤ 9223372036854775807 → atoi (itoa n) ≡ some (pos n)
unfolding itoa
atoi-itoa n k =
    atoi-decimal (digits_of (suc n) n) n (digits_of-AllDigits (suc n) n)
      (decimal_from-digits_of (suc n) n (omega arith)) (itoa_nonempty n) k

-- No byte is the separator.
unfoldable pub Avoids : ℕ → Text → Type 0
Avoids sep [] = Unit
Avoids sep (c ∷ cs) = ((c == sep) ≡ false) × Avoids sep cs

digits-Avoids : (sep : ℕ) (s : Text) → sep < 48 → AllDigits s → Avoids sep s
unfolding Avoids AllDigits
digits-Avoids sep [] h k = record {}
digits-Avoids sep (c ∷ cs) h k = (ground arith, digits-Avoids sep cs h (k.2))

pub itoa-Avoids : (sep n : ℕ) → sep < 48 → Avoids sep (itoa n)
unfolding itoa
itoa-Avoids sep n h = digits-Avoids sep (digits_of (suc n) n) h (digits_of-AllDigits (suc n) n)

pub append-Avoids : (sep : ℕ) (s t : Text) → Avoids sep s → Avoids sep t → Avoids sep (s ++ t)
unfolding Avoids
append-Avoids sep [] t h k = k
append-Avoids sep (c ∷ cs) t h k = (h.0, append-Avoids sep cs t (h.1) k)

split_from-here :
    (sep c : ℕ) (word rest : Text)
    → (c == sep) ≡ true
    → split_from sep word (c ∷ rest) ≡ word ∷ split_from sep [] rest
unfolding split_from
split_from-here sep c word rest e = rw (split_from, e) refl

split_from-skip :
    (sep c : ℕ) (word rest : Text)
    → (c == sep) ≡ false
    → split_from sep word (c ∷ rest) ≡ split_from sep (word ++ c ∷ []) rest
unfolding split_from
split_from-skip sep c word rest e = rw (split_from, e) refl

split_from-part :
    (sep : ℕ) (word s rest : Text)
    → Avoids sep s
    → split_from sep word (s ++ sep ∷ rest) ≡ (word ++ s) ∷ split_from sep [] rest
unfolding Avoids
split_from-part sep word [] rest h =
    split_from-here sep sep word rest ((==_iff sep sep).1 refl) ∙ rw (append-nil word) refl
split_from-part sep word (c ∷ cs) rest h =
    split_from-skip sep c word (cs ++ sep ∷ rest) (h.0)
    ∙ split_from-part sep (word ++ c ∷ []) cs rest (h.1)
    ∙ ap (λ (t : Text). t ∷ split_from sep [] rest) (append_assoc word (c ∷ []) cs)

split_from-last :
    (sep : ℕ) (word s : Text) → Avoids sep s → split_from sep word s ≡ (word ++ s) ∷ []
unfolding Avoids split_from
split_from-last sep word [] h = rw (append-nil word) refl
split_from-last sep word (c ∷ cs) h =
    split_from-skip sep c word cs (h.0)
    ∙ split_from-last sep (word ++ c ∷ []) cs (h.1)
    ∙ ap (λ (t : Text). t ∷ []) (append_assoc word (c ∷ []) cs)

-- A part that has no separator, and what is behind the separator after it.
pub split-part :
    (sep : ℕ) (s rest : Text) → Avoids sep s → split sep (s ++ sep ∷ rest) ≡ s ∷ split sep rest
unfolding split
split-part sep s rest h = split_from-part sep [] s rest h

pub split-last : (sep : ℕ) (s : Text) → Avoids sep s → split sep s ≡ s ∷ []
unfolding split
split-last sep s h = split_from-last sep [] s h

pos-inj : (m n : ℕ) → pos m ≡ pos n → m ≡ n
pos-inj m n e = ap pos_part e

-- Different numbers have different numerals.
pub itoa-inj :
    (m n : ℕ) → m ≤ 9223372036854775807 → n ≤ 9223372036854775807 → itoa m ≡ itoa n → m ≡ n
itoa-inj m n h k e = pos-inj m n (some-inj (sym (atoi-itoa m h) ∙ ap atoi e ∙ atoi-itoa n k))

-- The same as a test, for texts that are known.
unfoldable pub avoids : ℕ → Text → Bool
avoids sep [] = true
avoids sep (c ∷ cs) = not (c == sep) && avoids sep cs

pub avoids-Avoids : (sep : ℕ) (s : Text) → avoids sep s ≡ true → Avoids sep s
unfolding Avoids avoids
avoids-Avoids sep [] h = record {}
avoids-Avoids sep (c ∷ cs) h = (ground (arith, h), avoids-Avoids sep cs (ground (arith, h)))

in_range-le :
    (hi : ℕ) (f : ℕ → ℤ) (o : Option ℕ) (z : ℤ)
    → in_range 0 hi f o ≡ some z
    → (m : ℕ) × (m ≤ hi) × (f m ≡ z)
in_range-le hi f none z e = absurd (some-none (sym e))
in_range-le hi f (some n) z e = elim (Bool-cases (leb 0 n && leb n hi)) [
  | inl k ↦ (n, ground (arith, k), some-inj (sym (rw k refl) ∙ e))
  | inr k ↦ absurd (some-none (sym (rw k at e)))
]

negate-zero : (m n : ℕ) → negate m ≡ pos n → n ≡ 0
negate-zero zero n e = sym (ap pos_part e)
negate-zero (suc m) n e = cc

pos-le :
    (o : Option ℕ) (n : ℕ)
    → in_range 0 9223372036854775807 pos o ≡ some (pos n)
    → n ≤ 9223372036854775807
pos-le o n e =
    let (m, le, f) = in_range-le 9223372036854775807 pos o (pos n) e in
    subst (λ x. x ≤ 9223372036854775807) (pos-inj m n f) le

negate-le :
    (o : Option ℕ) (n : ℕ)
    → in_range 0 9223372036854775808 negate o ≡ some (pos n)
    → n ≤ 9223372036854775807
negate-le o n e =
    let (m, le, f) = in_range-le 9223372036854775808 negate o (pos n) e in
    omega (arith, negate-zero m n f)

-- A number that `strconv.Atoi` gives fits an int.
pub atoi-le : (s : Text) (n : ℕ) → atoi s ≡ some (pos n) → n ≤ 9223372036854775807
unfolding atoi decimal
atoi-le [] n e = absurd (some-none (sym e))
atoi-le (c ∷ cs) n e = elim (Bool-cases (c == 45)) [
  | inl k ↦ negate-le (decimal cs) n (rw k at e)
  | inr k ↦ elim (Bool-cases (c == 43)) [
    | inl l ↦ pos-le (decimal cs) n (rw (k, l) at e)
    | inr l ↦ pos-le (decimal (c ∷ cs)) n (rw (k, l) at e)
  ]
]
