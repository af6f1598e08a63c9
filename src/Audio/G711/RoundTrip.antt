-- ===== src/Audio/G711/RoundTrip.antt =====
-- internal/audio/g711.go: decoding a byte and encoding the sample gives the byte back.
use tele_portal.Audio.G711.{a_law_to_linear, linear_to_a_law, linear_to_mu_law, mu_law_to_linear}
use tele_portal.Common.{==_iff, arith, if◌then◌else◌, ltb, refl, true, ℕ, ◌&&◌, ◌<◌, ◌==◌, ◌≡◌}
use tele_portal.Common.Table.{all_from, all_from_sound}
use tele_portal.Common.Words.{IsByte, IsU16}

-- μ-law has two codes of the sample 0; the encoder gives 0xff.
abbrev pub canonical_mu_law : ℕ → ℕ
canonical_mu_law b = if b == 0x7f then 0xff else b

mu_law_table :
    all_from 0 256 (λ b. linear_to_mu_law (mu_law_to_linear b) == canonical_mu_law b) ≡ true
unfolding all_from mu_law_to_linear linear_to_mu_law
mu_law_table = refl

a_law_table : all_from 0 256 (λ b. linear_to_a_law (a_law_to_linear b) == b) ≡ true
unfolding all_from a_law_to_linear linear_to_a_law
a_law_table = refl

sample_table :
    all_from 0 256 (λ b. ltb (mu_law_to_linear b) 65536 && ltb (a_law_to_linear b) 65536) ≡ true
unfolding all_from mu_law_to_linear a_law_to_linear
sample_table = refl

-- Every μ-law byte survives decoding and encoding, but 0x7f (negative zero), which becomes 0xff.
pub linear_to_mu_law-mu_law_to_linear :
    (b : ℕ) → IsByte b → linear_to_mu_law (mu_law_to_linear b) ≡ canonical_mu_law b
linear_to_mu_law-mu_law_to_linear b h =
    (==_iff _ _).0 (all_from_sound 0 256 b _ mu_law_table (omega arith) h)

-- Every A-law byte survives decoding and encoding.
pub linear_to_a_law-a_law_to_linear : (b : ℕ) → IsByte b → linear_to_a_law (a_law_to_linear b) ≡ b
linear_to_a_law-a_law_to_linear b h =
    (==_iff _ b).0 (all_from_sound 0 256 b _ a_law_table (omega arith) h)

pub to_linear-IsU16 : (b : ℕ) → IsByte b → IsU16 (mu_law_to_linear b) × IsU16 (a_law_to_linear b)
to_linear-IsU16 b h = both _ _ (all_from_sound 0 256 b _ sample_table (omega arith) h)
  where
    both : (x y : ℕ) → (ltb x 65536 && ltb y 65536) ≡ true → (x < 65536) × (y < 65536)
    both x y e = ground arith
