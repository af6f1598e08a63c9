-- ===== src/Audio/G711/Polarity.antt =====
-- internal/audio/g711.go against the A-law of ITU-T G.711, where the set sign bit stands for a
-- positive sample.
use tele_portal.Audio.G711.{a_law_to_linear, neg16}
use tele_portal.Common.{
  ==_iff, arith, if◌then◌else◌, leb, refl, true, ℕ, ◌%◌, ◌*◌, ◌+◌, ◌-◌, ◌/◌, ◌==◌, ◌^◌, ◌≡◌,
}
use tele_portal.Common.Table.{all_from, all_from_sound}
use tele_portal.Common.Words.{IsByte, bit_xor}

-- The table of G.711: the even bits are inverted, then come sign, segment and step.
abbrev pub itu_a_law : ℕ → ℕ
itu_a_law b =
    let a = bit_xor b 0x55 in
    let segment = a / 16 % 8 in
    let step = a % 16 in
    let value = if segment == 0 then 16 * step + 8 else (16 * step + 264) * 2 ^ (segment - 1) in
    if leb 128 a then value else neg16 value

polarity_table : all_from 0 256 (λ b. a_law_to_linear b == neg16 (itu_a_law b)) ≡ true
unfolding all_from a_law_to_linear
polarity_table = refl

-- On every byte the decoder gives the negative of the sample that G.711 assigns to the byte.
pub a_law_to_linear-neg16 : (b : ℕ) → IsByte b → a_law_to_linear b ≡ neg16 (itu_a_law b)
a_law_to_linear-neg16 b h = (==_iff _ _).0 (all_from_sound 0 256 b _ polarity_table (omega arith) h)
