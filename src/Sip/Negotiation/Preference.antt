-- ===== src/Sip/Negotiation/Preference.antt =====
-- internal/sip/sip_handler.go: which codec is preferred, and when an offer is rejected.
use tele_portal.Audio.Codec.{
  Codec, CodecError, CodecName, Stream, l16, new_codec_g711_a_law, new_codec_g711_mu_law, opus,
  pass, pcma, pcmu, unnamed,
}
use tele_portal.Common.{
  Bool-cases, List, Option, Option-cases, [], ap, false, if◌then◌else◌, inl, inr, none, refl, some,
  true, ◌∙◌, ◌∷◌, ◌≡◌,
}
use tele_portal.Common.Result.{Result, Result-cases, err, ok}
use tele_portal.Common.Text.{Text, codes, itoa, same_text}
use tele_portal.Sip.Negotiation.{
  Choice, NegotiationError, choose, codec_failed, conclude, dtmf_type, l16_codec, l16_pass,
  l16_strict, negotiate_stream, no_supported_codec, nothing_yet, take_l16, try_l16, try_static,
}
use tele_portal.Sip.Negotiation.Answer.{suits}
use tele_portal.Sip.Offer.{
  DynamicType, MediaDescription, SessionDescription, audio_media, get_dynamic_pt, has_format,
  ptime_of,
}

-- The L16 of the offer, where its payload type is also among the formats: the codec or the reason
-- why there is none.
unfoldable pub offered_l16 : MediaDescription → Option (Result CodecError Codec)
offered_l16 m = elim (get_dynamic_pt (codes "L16") m.attributes) [
  | some d ↦ if has_format d.payload_type m.formats then some (l16_codec d) else none
  | none ↦ none
]

-- The codec with a static payload type: PCMU before PCMA.
unfoldable pub offered_g711 : MediaDescription → Option Codec
offered_g711 m =
    if has_format 0 m.formats
    then some new_codec_g711_mu_law
    else if has_format 8 m.formats
    then some new_codec_g711_a_law
    else none

unfoldable pub with_codec : MediaDescription → Codec → Stream
with_codec m codec = record {
  codec = codec;
  ptime = ptime_of m.attributes;
  dtmf_payload_type = dtmf_type m;
}

-- The answer as a table: L16 first, then PCMU, then PCMA; an L16 that is listed and invalid turns
-- every answer into its error.
unfoldable pub preferred :
    Option (Result CodecError Codec)
    → Option Codec
    → MediaDescription
    → Result NegotiationError Stream
unfolding with_codec
preferred (some (ok codec)) g m = ok (with_codec m codec)
preferred (some (err e)) none m = err no_supported_codec
preferred (some (err e)) (some codec) m = err (codec_failed e)
preferred none none m = err no_supported_codec
preferred none (some codec) m = ok (with_codec m codec)

-- What the loops over the formats leave behind.
abbrev after : Option (Result CodecError Codec) → Choice
after (some r) = take_l16 r nothing_yet
after none = nothing_yet

abbrev listed : DynamicType → List Text → Option (Result CodecError Codec)
listed d fs = if has_format d.payload_type fs then some (l16_codec d) else none

l16_strict-after :
    (d : DynamicType) → (fs : List Text) → l16_strict d fs nothing_yet ≡ after (listed d fs)
unfolding l16_strict has_format
l16_strict-after d [] = refl
l16_strict-after d (f ∷ fs) = elim (Bool-cases (same_text f (itoa d.payload_type))) [
  | inl e ↦ rw e refl
  | inr e ↦ rw e (l16_strict-after d fs)
]

-- After a failure the other loop fails again, to the same effect.
l16_pass-failed :
    (d : DynamicType)
    → (e : CodecError) → l16_codec d ≡ err e
    → (fs : List Text) → l16_pass d fs (take_l16 (err e) nothing_yet) ≡ take_l16 (err e) nothing_yet
unfolding l16_pass nothing_yet
l16_pass-failed d e v [] = refl
l16_pass-failed d e v (f ∷ fs) = elim (Bool-cases (same_text f (itoa d.payload_type))) [
  | inl g ↦ rw (g, v) (l16_pass-failed d e v fs)
  | inr g ↦ rw g (l16_pass-failed d e v fs)
]

l16_pass-after :
    (d : DynamicType) → (fs : List Text) → l16_pass d fs nothing_yet ≡ after (listed d fs)
unfolding l16_pass has_format nothing_yet
l16_pass-after d [] = refl
l16_pass-after d (f ∷ fs) = elim (Bool-cases (same_text f (itoa d.payload_type))) [
  | inr e ↦ rw e (l16_pass-after d fs)
  | inl e ↦ elim (Result-cases (l16_codec d)) [
    | inl (codec, v) ↦ rw (e, v) refl
    | inr (x, v) ↦ rw (e, v) (l16_pass-failed d x v fs)
  ]
]

abbrev ladder : MediaDescription → Choice → Choice
ladder m c = try_static new_codec_g711_a_law m (try_static new_codec_g711_mu_law m c)

-- The ladder from a choice that has found nothing yet, given which formats there are.
ladder_at : Choice → Option Codec → Choice
ladder_at c none = c
ladder_at c (some codec) = record c { codec = codec; found = true }

ladder-offered :
    (m : MediaDescription)
    → (c : Choice) → c.found ≡ false
    → ladder m c ≡ ladder_at c (offered_g711 m)
unfolding ladder_at offered_g711 new_codec_g711_mu_law new_codec_g711_a_law
ladder-offered m c f = elim (Bool-cases (has_format 0 m.formats)) [
  | inl g ↦ rw (f, g) refl
  | inr g ↦ elim (Bool-cases (has_format 8 m.formats)) [
    | inl h ↦ rw (f, g, h) refl
    | inr h ↦ rw (f, g, h) refl
  ]
]

conclude-after :
    (m : MediaDescription)
    → (r : Option (Result CodecError Codec)) → (g : Option Codec) → (after r).found ≡ false
    → conclude m (ladder_at (after r) g) ≡ preferred r g m
unfolding ladder_at preferred with_codec nothing_yet
conclude-after m (some (ok codec)) g f = absurd cc
conclude-after m (some (err e)) none f = refl
conclude-after m (some (err e)) (some codec) f = refl
conclude-after m none none f = refl
conclude-after m none (some codec) f = refl

conclude-ladder :
    (m : MediaDescription)
    → (o : Option (Result CodecError Codec))
    → conclude m (ladder m (after o)) ≡ preferred o (offered_g711 m) m
unfolding nothing_yet preferred with_codec
conclude-ladder m (some (ok codec)) = refl
conclude-ladder m (some (err e)) =
    ap (conclude m) (ladder-offered m (after (some (err e))) refl)
    ∙ conclude-after m (some (err e)) (offered_g711 m) refl
conclude-ladder m none =
    ap (conclude m) (ladder-offered m (after none) refl)
    ∙ conclude-after m none (offered_g711 m) refl

try_l16-after :
    (loop : DynamicType → List Text → Choice → Choice)
    → ((d : DynamicType) → (fs : List Text) → loop d fs nothing_yet ≡ after (listed d fs))
    → (m : MediaDescription) → try_l16 loop m nothing_yet ≡ after (offered_l16 m)
unfolding offered_l16
try_l16-after loop h m = elim (Option-cases (get_dynamic_pt (codes "L16") m.attributes)) [
  | inl e ↦ rw (e, try_l16, offered_l16) refl
  | inr (d, e) ↦ rw (e, try_l16, offered_l16) (h d m.formats)
]

choose-ladder :
    (ws : CodecName)
    → (m : MediaDescription) → suits ws l16 ≡ true
    → choose ws m ≡ ladder m (after (offered_l16 m))
unfolding choose suits
choose-ladder pass m fits = ap (ladder m) (try_l16-after l16_pass l16_pass-after m)
choose-ladder l16 m fits = ap (ladder m) (try_l16-after l16_strict l16_strict-after m)
choose-ladder pcmu m fits = absurd cc
choose-ladder pcma m fits = absurd cc
choose-ladder opus m fits = absurd cc
choose-ladder unnamed m fits = absurd cc

-- With pass or L16 as the configured codec, the loops, flags and the error variable of
-- `negotiateStream` compute the table `preferred`: a valid L16 wins, then PCMU, then PCMA; an offer
-- without any is rejected, and so is every offer whose listed L16 is invalid, even where PCMU or
-- PCMA was found after it, with the error that L16 left.
pub negotiate_stream-preferred :
    (ws : CodecName)
    → (offer : SessionDescription) → (m : MediaDescription) → suits ws l16 ≡ true
    → audio_media offer.media_descriptions ≡ some m
    → negotiate_stream ws offer ≡ preferred (offered_l16 m) (offered_g711 m) m
unfolding negotiate_stream
negotiate_stream-preferred ws offer m fits here =
    rw (here, negotiate_stream)
      (ap (conclude m) (choose-ladder ws m fits) ∙ conclude-ladder m (offered_l16 m))
