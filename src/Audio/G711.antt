-- ===== src/Audio/G711.antt =====
-- internal/audio/g711.go: the G.711 companding functions. An int16 is its bit pattern, a number
-- below 2 ^ 16, and an int32 its bit pattern below 2 ^ 32.
pub mod Tables
pub mod RoundTrip
pub mod Loss
pub mod Polarity
use tele_portal.Common.{
  Bool, if◌then◌else◌, leb, ltb, not, suc, zero, ℕ, ◌%◌, ◌*◌, ◌+◌, ◌-◌, ◌/◌, ◌==◌, ◌^◌,
}
use tele_portal.Common.Words.{bit_and, bit_not8, bit_or, bit_xor, u16, u32, u8}

-- `-x` on an int16 and on an int32.
abbrev pub neg16 : ℕ → ℕ
neg16 x = (65536 - x) % 65536

abbrev neg32 : ℕ → ℕ
neg32 x = (4294967296 - x) % 4294967296

-- `int32(pcm)`: the sign is extended.
abbrev sign_extend : ℕ → ℕ
sign_extend pcm = if ltb pcm 32768 then pcm else pcm + 4294901760

-- `p < 0` on an int32.
abbrev is_negative32 : ℕ → Bool
is_negative32 p = leb 2147483648 p

unfoldable pub mu_law_to_linear : ℕ → ℕ
mu_law_to_linear b =
    let mu = bit_not8 b in
    let sign = not (bit_and mu 0x80 == 0) in
    let exponent = bit_and (mu / 16) 0x07 in
    let mantissa = bit_and mu 0x0f in
    let base = u8 (u8 (mantissa * 8) + 132) in
    let shifted = u16 (base * 2 ^ exponent) in
    let sample = u16 (shifted + 65536 - 132) in if sign then neg16 sample else sample

-- The search of the highest set bit, `for i := range uint8(7)`: `left` rounds remain, and round
-- `i` tests the bit 0x4000 >> i.
unfoldable pub find_exponent : ℕ → ℕ → ℕ → ℕ
find_exponent zero i p = 7
find_exponent (suc left) i p =
    let rest = find_exponent left (suc i) p in
    if not (bit_and p (0x4000 / 2 ^ i) == 0) then 7 - i else if i == 6 then 0 else rest

-- `if p < 0 { p = -p }`
abbrev magnitude : ℕ → ℕ
magnitude p = if is_negative32 p then neg32 p else p

-- `if p > 32767 { p = 32767 }`, on an int32 that is not negative.
abbrev clip : ℕ → ℕ
clip p = if ltb 32767 p then 32767 else p

-- `(p >> 8) & 0x80`: of the bits that an arithmetic shift brings in, the mask keeps none.
abbrev sign_bit : ℕ → ℕ
sign_bit p = bit_and (p / 256) 0x80

unfoldable pub linear_to_mu_law : ℕ → ℕ
unfolding find_exponent
linear_to_mu_law pcm =
    let p = sign_extend pcm in
    let q = clip (u32 (magnitude p + 132)) in
    let exponent = find_exponent 7 0 q in
    let mantissa = bit_and (q / 2 ^ (exponent + 3)) 0x0f in
    bit_not8 (bit_or (bit_or (u8 (sign_bit p)) (u8 (exponent * 16))) (u8 mantissa))

unfoldable pub a_law_to_linear : ℕ → ℕ
a_law_to_linear b =
    let a = bit_xor b 0x55 in
    let sign = not (bit_and a 0x80 == 0) in
    let exponent = bit_and (a / 16) 0x07 in
    let mantissa = bit_and a 0x0f in
    let sample =
      if exponent == 0
      then u8 (u8 (mantissa * 16) + 8)
      else u16 (u16 (u16 (mantissa * 16) + 264) * 2 ^ (exponent - 1)) in
    if sign then neg16 sample else sample

unfoldable pub linear_to_a_law : ℕ → ℕ
unfolding find_exponent
linear_to_a_law pcm =
    let p = sign_extend pcm in
    let q = clip (magnitude p) in
    let exponent = find_exponent 7 0 q in
    let mantissa =
      if exponent == 0
      then bit_and (u8 (q / 16)) 0x0f
      else bit_and (u8 (q / 2 ^ (exponent + 3))) 0x0f in
    bit_xor (bit_or (bit_or (u8 (sign_bit p)) (u8 (exponent * 16))) mantissa) 0x55
