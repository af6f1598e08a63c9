-- ===== src/Rtp/Dtmf/RoundTrip.antt =====
-- internal/rtp/dtmf.go and dtmf_generator.go, and pkg/client/client.go: the digits that a client
-- sends, through the generator and back through the parser.
use mathlib.Core.Option
use mathlib.Core.List.{map-append}
use tele_portal.Client.{
  SendError, WsDtmfRequest, bad_duration, invalid_digit, invalid_duration, is_one_of, send_dtmf,
  sent, valid_dtmf_digits,
}
use tele_portal.Common.{
  ==_iff, Bool, Bool-cases, [], ap, ap₂, arith, false, get_elem?, if◌then◌else◌, inl, inr, map, min,
  none, not, refl, replicate, some, suc, true, zero, ℕ, ◌&&◌, ◌*◌, ◌++◌, ◌+◌, ◌-◌, ◌/◌, ◌<◌, ◌==◌,
  ◌∙◌, ◌∷◌, ◌≡◌,
}
use tele_portal.Common.Int.{negsuc, pos, ℤ}
use tele_portal.Common.Result.{Result, err, ok}
use tele_portal.Common.Slices.{tabulate}
use tele_portal.Common.Text.{Text, itoa, same_text, same_text→eq, upper}
use tele_portal.Common.Words.{bit_and, u8}
use tele_portal.Rtp.Dtmf.{
  DtmfEvent, DtmfGenerator, digit_to_event, event_of_byte, event_to_digit, generate, interval,
  parse_dtmf_payload, payload, to_samples,
}
use tele_portal.Rtp.Dtmf.Ramp.{generate-ramp, ramp}

every : (ℕ → Bool) → Text → Bool
every p [] = true
every p (v ∷ vs) = p v && every p vs

is_one_of-every :
    (p : ℕ → Bool) (c : ℕ) (vs : Text) → every p vs ≡ true → is_one_of c vs ≡ true → p c ≡ true
unfolding every is_one_of
is_one_of-every p c [] all_hold found = cc
is_one_of-every p c (v ∷ vs) all_hold found = elim (Bool-cases (c == v)) [
  | inl here ↦ rw ((==_iff c v).0 here) (ground arith)
  | inr there ↦ is_one_of-every p c vs (ground arith) (ground arith)
]

abbrev event_name : ℕ → Text
event_name event = elim (get_elem? event_to_digit event) [ some digit ↦ digit | none ↦ itoa event ]

digits_table :
    every (λ c. same_text (event_name (event_of_byte (upper c))) (upper c ∷ [])) valid_dtmf_digits
    ≡ true
unfolding every same_text
digits_table = refl

event_name-digit :
    (c : ℕ)
    → is_one_of c valid_dtmf_digits ≡ true
    → event_name (event_of_byte (upper c)) ≡ upper c ∷ []
event_name-digit c h = same_text→eq _ _ (
    is_one_of-every (λ d. same_text (event_name (event_of_byte (upper d))) (upper d ∷ [])) c
      valid_dtmf_digits digits_table h)

upper-upper : (c : ℕ) → upper (upper c) ≡ upper c
upper-upper c = ground arith

abbrev pub heard : Text → Bool → ℕ → Result ℕ DtmfEvent
heard digit end duration = ok (record { digit = digit; duration = duration; end = end })

parse_dtmf_payload-payload :
    (event flags duration : ℕ) (digit : Text) (end : Bool)
    → duration < 65536
    → event_name event ≡ digit
    → not (bit_and flags 0x80 == 0) ≡ end
    → parse_dtmf_payload (payload event flags duration) ≡ heard digit end duration
unfolding parse_dtmf_payload
parse_dtmf_payload-payload event flags duration digit end h named marked =
    λ i. ok (record { digit = named i; duration = join i; end = marked i })
  where
    join : u8 (duration / 256) * 256 + u8 duration ≡ duration
    join = omega arith

to_samples-lt : (rate : ℕ) (ms : ℤ) → to_samples rate ms < 65536
unfolding to_samples
to_samples-lt rate (pos n) = omega arith
to_samples-lt rate (negsuc n) = omega arith

parse-map :
    (n total event flags : ℕ) (digit : Text) (end : Bool) (f : ℕ → ℕ)
    → total < 65536
    → event_name event ≡ digit
    → not (bit_and flags 0x80 == 0) ≡ end
    → map parse_dtmf_payload (map (payload event flags) (tabulate n (λ i. min (f i) total)))
      ≡ map (heard digit end) (tabulate n (λ i. min (f i) total))
unfolding tabulate
parse-map zero total event flags digit end f h named marked = refl
parse-map (suc n) total event flags digit end f h named marked =
    ap₂ ◌∷◌
      (parse_dtmf_payload-payload event flags (min (f 0) total) digit end (omega arith) named
        marked)
      (parse-map n total event flags digit end (λ i. f (suc i)) h named marked)

-- What a request that is sent says of the arguments.
send_dtmf-ok :
    (c : ℕ) (ms : ℤ) (request : WsDtmfRequest)
    → send_dtmf true (c ∷ []) ms sent ≡ ok request
    → (is_one_of c valid_dtmf_digits ≡ true)
      × (request ≡ record { digit = upper c ∷ []; duration = ms })
unfolding send_dtmf
send_dtmf-ok c ms request e = elim (Bool-cases (is_one_of c valid_dtmf_digits)) [
  | inl valid ↦ (valid, last (bad_duration ms) (rw valid at e))
  | inr invalid ↦ absurd (refused (rw invalid at e))
]
  where
    refused : ◌≡◌ {A = Result SendError WsDtmfRequest} (err invalid_digit) (ok request) → ⊥
    refused q = cc

    last :
        (b : Bool)
        → (if b then err invalid_duration else ok (record { digit = upper c ∷ []; duration = ms }))
          ≡ ok request
        → request ≡ record { digit = upper c ∷ []; duration = ms }
    last true q = cc
    last false q = cc

parsed :
    (g : DtmfGenerator) (c : ℕ) (ms : ℤ)
    → is_one_of c valid_dtmf_digits ≡ true
    → 0 < to_samples g.sample_rate (interval ms g.ptime)
    → to_samples g.sample_rate ms + to_samples g.sample_rate (interval ms g.ptime) < 65536
    → Option.map
        (map parse_dtmf_payload)
        (generate (suc (to_samples g.sample_rate ms)) g (upper c ∷ []) ms)
      ≡ some (
          map
            (heard (upper c ∷ []) false)
            (ramp (to_samples g.sample_rate (interval ms g.ptime)) (to_samples g.sample_rate ms))
          ++ replicate 3 (heard (upper c ∷ []) true (to_samples g.sample_rate ms)))
unfolding digit_to_event
parsed g c ms valid moves narrow =
    let total = to_samples g.sample_rate ms in
    let step = to_samples g.sample_rate (interval ms g.ptime) in
    let event = event_of_byte (upper (upper c)) in
    let named : event_name event ≡ upper c ∷ [] =
      ap (λ (u : ℕ). event_name (event_of_byte u)) (upper-upper c) ∙ event_name-digit c valid in
    ap (Option.map (map parse_dtmf_payload))
      (generate-ramp (suc total) g (upper c ∷ []) ms moves narrow (omega arith))
    ∙ ap some (
        map-append parse_dtmf_payload (map (payload event 0x0a) (ramp step total)) _
        ∙ ap₂ ◌++◌
            (parse-map ((total + step - 1) / step) total event 0x0a (upper c ∷ []) false
              (λ i. suc i * step) (to_samples-lt g.sample_rate ms) named refl)
            (ap (replicate 3) (
              parse_dtmf_payload-payload event 0x8a total (upper c ∷ []) true
                (to_samples-lt g.sample_rate ms) named refl)))

-- The parser reads the packets of a digit that the client library has sent as that digit, with the
-- durations of the ramp and then three times the end with the whole duration, if the packet
-- interval is not empty and the sum of duration and interval fits 16 bits.
pub parse-generate-send_dtmf :
    (g : DtmfGenerator) (c : ℕ) (ms : ℤ) (request : WsDtmfRequest)
    → send_dtmf true (c ∷ []) ms sent ≡ ok request
    → 0 < to_samples g.sample_rate (interval ms g.ptime)
    → to_samples g.sample_rate ms + to_samples g.sample_rate (interval ms g.ptime) < 65536
    → Option.map
        (map parse_dtmf_payload)
        (generate (suc (to_samples g.sample_rate ms)) g request.digit request.duration)
      ≡ some (
          map
            (heard (upper c ∷ []) false)
            (ramp (to_samples g.sample_rate (interval ms g.ptime)) (to_samples g.sample_rate ms))
          ++ replicate 3 (heard (upper c ∷ []) true (to_samples g.sample_rate ms)))
parse-generate-send_dtmf g c ms request e moves narrow =
    let inv = send_dtmf-ok c ms request e in
    ap
      (λ (r : WsDtmfRequest).
        Option.map (map parse_dtmf_payload)
          (generate (suc (to_samples g.sample_rate ms)) g r.digit r.duration))
      inv.1
    ∙ parsed g c ms inv.0 moves narrow
