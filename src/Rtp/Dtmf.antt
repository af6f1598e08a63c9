-- ===== src/Rtp/Dtmf.antt =====
-- internal/rtp/dtmf.go and dtmf_generator.go: DTMF events of RFC 4733.
pub mod Ramp
pub mod RoundTrip
use mathlib.Core.Option
use tele_portal.Common.{
  Bool, List, Option, [], get_elem?, if◌then◌else◌, leb, length, ltb, map, min, none, not,
  replicate, some, suc, zero, ℕ, ◌&&◌, ◌*◌, ◌++◌, ◌+◌, ◌-◌, ◌/◌, ◌==◌, ◌∷◌,
}
use tele_portal.Common.Int.{negsuc, pos, ℤ}
use tele_portal.Common.Result.{Result, err, ok}
use tele_portal.Common.Text.{Text, codes, itoa, upper}
use tele_portal.Common.Words.{bit_and, u16, u8}

-- The digit of each event number, `eventToDigit`.
abbrev pub event_to_digit : List Text
event_to_digit =
    codes "0"
    ∷ codes "1"
    ∷ codes "2"
    ∷ codes "3"
    ∷ codes "4"
    ∷ codes "5"
    ∷ codes "6"
    ∷ codes "7"
    ∷ codes "8"
    ∷ codes "9"
    ∷ codes "*"
    ∷ codes "#"
    ∷ codes "A"
    ∷ codes "B"
    ∷ codes "C"
    ∷ codes "D"
    ∷ []

pub record DtmfEvent : Type 0 where
  pub digit : Text
  pub duration : ℕ
  pub end : Bool

-- The error is the length that was found.
unfoldable pub parse_dtmf_payload : List ℕ → Result ℕ DtmfEvent
parse_dtmf_payload (event ∷ flags ∷ high ∷ low ∷ rest) = ok (record {
  digit = elim (get_elem? event_to_digit event) [ some digit ↦ digit | none ↦ itoa event ];
  duration = high * 256 + low;
  end = not (bit_and flags 0x80 == 0);
})
parse_dtmf_payload payload = err (length payload)

pub record DtmfGenerator : Type 0 where
  pub sample_rate : ℕ
  pub ptime : ℕ

unfoldable pub new_dtmf_generator : ℕ → ℕ → DtmfGenerator
new_dtmf_generator sample_rate ptime = record {
  sample_rate = sample_rate;
  ptime = if ptime == 0 then 20 else ptime;
}

-- `digitToEvent`: the first byte of the digit in upper case.
abbrev pub event_of_byte : ℕ → ℕ
event_of_byte c =
    if leb b'0' c && leb c b'9'
    then c - b'0'
    else if c == b'*'
    then 10
    else if c == b'#'
    then 11
    else if leb b'A' c && leb c b'D'
    then 12 + (c - b'A')
    else 0

unfoldable pub digit_to_event : Text → ℕ
digit_to_event [] = 0
digit_to_event (c ∷ cs) = event_of_byte (upper c)

-- `uint16((sampleRate * ms) / 1000)`: Go's division drops the fraction, also of a negative number.
unfoldable pub to_samples : ℕ → ℤ → ℕ
to_samples sample_rate (pos ms) = u16 (sample_rate * ms / 1000)
to_samples sample_rate (negsuc n) = u16 (65536 - u16 (sample_rate * suc n / 1000))

-- `min(durationMs, g.ptime)`
abbrev pub interval : ℤ → ℕ → ℤ
interval (pos ms) ptime = pos (min ms ptime)
interval (negsuc n) ptime = negsuc n

-- A payload: event, flags and volume, and the duration with the high byte first.
abbrev pub payload : ℕ → ℕ → ℕ → List ℕ
payload event flags duration = event ∷ flags ∷ u8 (duration / 256) ∷ u8 duration ∷ []

-- The loop of the packets with a growing duration. `none`: the fuel did not suffice.
unfoldable pub ramp_loop : ℕ → ℕ → ℕ → ℕ → ℕ → Option (List (List ℕ))
ramp_loop zero event step_samples total_samples current = none
ramp_loop (suc fuel) event step_samples total_samples current =
    let next = u16 (current + step_samples) in
    let capped = if ltb total_samples next then total_samples else next in
    let rest = ramp_loop fuel event step_samples total_samples capped in
    if ltb current total_samples
    then (if capped == total_samples
        then some (payload event 0x0a capped ∷ [])
        else Option.map (◌∷◌ (payload event 0x0a capped)) rest)
    else some []

unfoldable pub generate : ℕ → DtmfGenerator → Text → ℤ → Option (List (List ℕ))
unfolding ramp_loop
generate fuel g digit duration_ms =
    let event = digit_to_event digit in
    let total_samples = to_samples g.sample_rate duration_ms in
    let ptime_samples = to_samples g.sample_rate (interval duration_ms g.ptime) in
    Option.map (λ packets. packets ++ replicate 3 (payload event 0x8a total_samples))
      (ramp_loop fuel event ptime_samples total_samples 0)
