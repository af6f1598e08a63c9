-- ===== src/Audio/G711/Loss.antt =====
-- internal/audio/g711.go: how far a sample is moved by encoding and decoding it. The proof
-- evaluates both functions at every int16.
use tele_portal.Audio.G711.{a_law_to_linear, linear_to_a_law, linear_to_mu_law, mu_law_to_linear}
use tele_portal.Common.{
  Bool, arith, if◌then◌else◌, inl, inr, leb, ltb, max, min, refl, true, ℕ, ◌%◌, ◌&&◌, ◌*◌, ◌+◌, ◌-◌,
  ◌<◌, ◌≡◌, ◌≤◌, ◌⊎◌,
}
use tele_portal.Common.Table.{all_from, all_from_sound}
use tele_portal.Common.Words.{IsU16}

-- The distance of two int16 around the circle of 2 ^ 16 patterns.
abbrev pub distance16 : ℕ → ℕ → ℕ
distance16 x y = min ((x + 65536 - y) % 65536) ((y + 65536 - x) % 65536)

-- The absolute value of an int16.
abbrev pub abs16 : ℕ → ℕ
abs16 s = if ltb s 32768 then s else 65536 - s

abbrev pub mu_law_loss : ℕ → ℕ
mu_law_loss s = distance16 (mu_law_to_linear (linear_to_mu_law s)) s

abbrev pub a_law_loss : ℕ → ℕ
a_law_loss s = distance16 (a_law_to_linear (linear_to_a_law s)) s

abbrev small_loss : ℕ → Bool
small_loss s =
    leb (32 * mu_law_loss s) (abs16 s + 132) && leb (32 * a_law_loss s) (max (abs16 s) 256)

table_0 : all_from 0 16384 small_loss ≡ true
unfolding all_from mu_law_to_linear linear_to_mu_law a_law_to_linear linear_to_a_law
table_0 = refl

table_1 : all_from 16384 16384 small_loss ≡ true
unfolding all_from mu_law_to_linear linear_to_mu_law a_law_to_linear linear_to_a_law
table_1 = refl

table_2 : all_from 32768 16384 small_loss ≡ true
unfolding all_from mu_law_to_linear linear_to_mu_law a_law_to_linear linear_to_a_law
table_2 = refl

table_3 : all_from 49152 16384 small_loss ≡ true
unfolding all_from mu_law_to_linear linear_to_mu_law a_law_to_linear linear_to_a_law
table_3 = refl

quarter :
    (s : ℕ)
    → IsU16 s
    → ((s < 16384) ⊎ ((16384 ≤ s) × (s < 32768))) ⊎ (((32768 ≤ s) × (s < 49152)) ⊎ (49152 ≤ s))
quarter s h = grind arith

small_loss-all : (s : ℕ) → IsU16 s → small_loss s ≡ true
small_loss-all s h = elim (quarter s h) [
  | inl (inl a) ↦ all_from_sound 0 16384 s small_loss table_0 (omega arith) (omega arith)
  | inl (inr a) ↦ all_from_sound 16384 16384 s small_loss table_1 (omega arith) (omega arith)
  | inr (inl a) ↦ all_from_sound 32768 16384 s small_loss table_2 (omega arith) (omega arith)
  | inr (inr a) ↦ all_from_sound 49152 16384 s small_loss table_3 (omega arith) (omega arith)
]

both-leb : (a b c d : ℕ) → (leb a b && leb c d) ≡ true → (a ≤ b) × (c ≤ d)
both-leb a b c d e = ground arith

-- Companding moves no sample by more than a 32nd of its size: of the size plus the bias 132 for
-- μ-law, and of the size, or 256 for samples smaller than that, for A-law.
pub loss-le :
    (s : ℕ)
    → IsU16 s
    → (32 * mu_law_loss s ≤ abs16 s + 132) × (32 * a_law_loss s ≤ max (abs16 s) 256)
loss-le s h = both-leb _ _ _ _ (small_loss-all s h)
