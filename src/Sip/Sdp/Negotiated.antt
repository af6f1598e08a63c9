-- ===== src/Sip/Sdp/Negotiated.antt =====
-- internal/sdp/sdp.go and internal/sip/sip_handler.go: every stream that is negotiated is one that
-- an answer tells in full.
use tele_portal.Audio.Codec.{
  Codec, CodecName, Stream, l16, new_codec_g711_a_law, new_codec_g711_mu_law, new_codec_l16, opus,
  pass, pcma, pcmu, unnamed,
}
use tele_portal.Call.Processor.Delivery.{offer}
use tele_portal.Common.{
  Bool-cases, List, Option-cases, [], arith, false, inl, inr, refl, subst, sym, true, ℕ, ◌<◌, ◌∙◌,
  ◌∷◌, ◌≡◌, ◌⊎◌,
}
use tele_portal.Common.Maps.{true-false}
use tele_portal.Common.Result.{Result-cases, err-ok, ok, ok-inj}
use tele_portal.Common.Text.{Text, codes, itoa, same_text}
use tele_portal.Sip.Negotiation.{
  Choice, choose, clamp, conclude, l16_codec, l16_pass, l16_strict, negotiate_stream, nothing_yet,
  stream_of, take_l16, try_l16, try_static,
}
use tele_portal.Sip.Negotiation.Answer.{ptime_of-pos}
use tele_portal.Sip.Offer.{
  DynamicType, MediaDescription, SessionDescription, audio_media, get_dynamic_pt,
  get_remote_rtp_addr, has_format,
}
use tele_portal.Sip.Sdp.{generate_answer}
use tele_portal.Sip.Sdp.Reading.{IsNegotiated, read_answer}
use tele_portal.Sip.Sdp.RoundTrip.{
  get_remote_rtp_addr-generate_answer, negotiate_stream-generate_answer,
}
use tele_portal.Sip.Sdp.Widths.{dtmf_type-bound, found_bound, ptime_of-le}

-- A codec that a constructor made, with a payload type of a byte.
record IsMade (c : Codec) : Type 0 where
  pub constructed :
      (c ≡ new_codec_g711_mu_law)
      ⊎ (c ≡ new_codec_g711_a_law)
      ⊎ (new_codec_l16 c.payload_type c.sample_rate c.channels true true ≡ ok c)
  pub byte_type : c.payload_type < 256

abbrev FoundMade : Choice → Type 0
FoundMade c = c.found ≡ true → IsMade c.codec

new_codec_l16-again :
    (pt rate channels : ℕ) (c : Codec)
    → new_codec_l16 pt rate channels true true ≡ ok c
    → (c.payload_type ≡ pt) × (c.sample_rate ≡ rate) × (c.channels ≡ channels)
unfolding new_codec_l16
new_codec_l16-again pt rate channels c e = ground arith

same_fields :
    (pt rate channels pt' rate' channels' : ℕ)
    → pt ≡ pt'
    → rate ≡ rate'
    → channels ≡ channels'
    → new_codec_l16 pt rate channels true true ≡ new_codec_l16 pt' rate' channels' true true
same_fields pt rate channels pt' rate' channels' p r k = rw (p, r, k) refl

l16_codec-IsMade :
    (d : DynamicType) (c : Codec) → d.payload_type < 256 → l16_codec d ≡ ok c → IsMade c
l16_codec-IsMade d c h e =
    let (p, r, k) = new_codec_l16-again d.payload_type (clamp d.rate) (clamp d.channels) c e in
    record {
      constructed = inr (
          inr (
            same_fields c.payload_type c.sample_rate c.channels d.payload_type (clamp d.rate)
              (clamp d.channels) p r k
            ∙ e));
      byte_type = omega (arith, p, h);
    }

take_l16-made :
    (d : DynamicType) (c : Choice)
    → d.payload_type < 256
    → c.found ≡ false
    → FoundMade (take_l16 (l16_codec d) c)
take_l16-made d c h none_yet = elim (Result-cases (l16_codec d)) [
  | inl (codec, e) ↦ rw e λ _. l16_codec-IsMade d codec h e
  | inr (x, e) ↦ rw e λ k. absurd (true-false (sym k ∙ none_yet))
]

l16_strict-made :
    (d : DynamicType)
    → d.payload_type < 256
    → (fs : List Text) → (c : Choice) → c.found ≡ false
    → FoundMade (l16_strict d fs c)
unfolding l16_strict
l16_strict-made d h [] c none_yet = λ k. absurd (true-false (sym k ∙ none_yet))
l16_strict-made d h (f ∷ fs) c none_yet = elim (Bool-cases (same_text f (itoa d.payload_type))) [
  | inl e ↦ rw e (take_l16-made d c h none_yet)
  | inr e ↦ rw e (l16_strict-made d h fs c none_yet)
]

l16_pass-made :
    (d : DynamicType)
    → d.payload_type < 256
    → (fs : List Text) → (c : Choice) → c.found ≡ false
    → FoundMade (l16_pass d fs c)
unfolding l16_pass
l16_pass-made d h [] c none_yet = λ k. absurd (true-false (sym k ∙ none_yet))
l16_pass-made d h (f ∷ fs) c none_yet = elim (Bool-cases (same_text f (itoa d.payload_type))) [
  | inl e ↦ elim (Bool-cases (take_l16 (l16_codec d) c).found) [
    | inl g ↦ rw (e, g) (take_l16-made d c h none_yet)
    | inr g ↦ rw (e, g) (l16_pass-made d h fs (take_l16 (l16_codec d) c) g)
  ]
  | inr e ↦ rw e (l16_pass-made d h fs c none_yet)
]

none_made : FoundMade nothing_yet
unfolding nothing_yet
none_made k = absurd (true-false (sym k))

try_l16-made :
    (m : MediaDescription) (loop : DynamicType → List Text → Choice → Choice)
    → ((d : DynamicType) → d.payload_type < 256 → FoundMade (loop d m.formats nothing_yet))
    → FoundMade (try_l16 loop m nothing_yet)
try_l16-made m loop h = elim (Option-cases (get_dynamic_pt (codes "L16") m.attributes)) [
  | inr (d, e) ↦ rw (e, try_l16) (h d (found_bound (codes "L16") m.attributes d e))
  | inl e ↦ rw (e, try_l16) none_made
]

try_static-made :
    (m : MediaDescription) (codec : Codec) (c : Choice)
    → IsMade codec
    → FoundMade c
    → FoundMade (try_static codec m c)
try_static-made m codec c made h = elim (Bool-cases c.found) [
  | inl e ↦ rw e λ _. h e
  | inr e ↦ rw e elim (Bool-cases (has_format codec.payload_type m.formats)) [
    | inl g ↦ rw g λ _. made
    | inr g ↦ rw g λ k. absurd (true-false (sym k))
  ]
]

mu_law-IsMade : IsMade new_codec_g711_mu_law
unfolding new_codec_g711_mu_law
mu_law-IsMade = record { constructed = inl refl; byte_type = omega arith }

a_law-IsMade : IsMade new_codec_g711_a_law
unfolding new_codec_g711_a_law
a_law-IsMade = record { constructed = inr (inl refl); byte_type = omega arith }

both-made :
    (m : MediaDescription) (c : Choice)
    → FoundMade c
    → FoundMade (try_static new_codec_g711_a_law m (try_static new_codec_g711_mu_law m c))
both-made m c h =
    try_static-made m new_codec_g711_a_law (try_static new_codec_g711_mu_law m c) a_law-IsMade
      (try_static-made m new_codec_g711_mu_law c mu_law-IsMade h)

choose-made : (ws : CodecName) (m : MediaDescription) → FoundMade (choose ws m)
unfolding choose nothing_yet
choose-made pass m =
    both-made m (try_l16 l16_pass m nothing_yet)
      (try_l16-made m l16_pass (λ d h. l16_pass-made d h m.formats nothing_yet refl))
choose-made l16 m =
    both-made m (try_l16 l16_strict m nothing_yet)
      (try_l16-made m l16_strict (λ d h. l16_strict-made d h m.formats nothing_yet refl))
choose-made pcmu m = try_static-made m new_codec_g711_mu_law nothing_yet mu_law-IsMade none_made
choose-made pcma m = try_static-made m new_codec_g711_a_law nothing_yet a_law-IsMade none_made
choose-made opus m = none_made
choose-made unnamed m = none_made

stream_of-IsNegotiated :
    (m : MediaDescription) (c : Choice)
    → FoundMade c
    → c.found ≡ true
    → IsNegotiated (stream_of m c)
stream_of-IsNegotiated m c h e = record {
  codec_offered = (h e).constructed;
  payload_bound = (h e).byte_type;
  dtmf_bound = dtmf_type-bound m;
  ptime_positive = ptime_of-pos m.attributes;
  ptime_bound = ptime_of-le m.attributes;
}

conclude-IsNegotiated :
    (m : MediaDescription) (c : Choice) (s : Stream)
    → FoundMade c
    → conclude m c ≡ ok s
    → IsNegotiated s
conclude-IsNegotiated m c s h e = elim (Bool-cases c.found) [
  | inr f ↦ absurd (err-ok (rw f at e))
  | inl f ↦ elim (Option-cases c.error) [
    | inl none_left ↦
        subst IsNegotiated (ok-inj (rw (f, none_left) at e)) (stream_of-IsNegotiated m c h f)
    | inr (x, g) ↦ absurd (err-ok (rw (f, g) at e))
  ]
]

pub negotiate_stream-IsNegotiated :
    (ws : CodecName) (offer : SessionDescription) (s : Stream)
    → negotiate_stream ws offer ≡ ok s
    → IsNegotiated s
unfolding negotiate_stream
negotiate_stream-IsNegotiated ws offer s e =
    elim (Option-cases (audio_media offer.media_descriptions)) [
      | inl g ↦ absurd (err-ok (rw (g, negotiate_stream) at e))
      | inr (m, g) ↦
          conclude-IsNegotiated m (choose ws m) s (choose-made ws m) (rw (g, negotiate_stream) at e)
    ]

-- For every configured codec, every offer and every stream that is negotiated from it: a peer that
-- reads the answer for that stream by the same functions, in pass-through mode, gets the stream,
-- with codec, packet time and DTMF payload type, and the address and the port of the answer. The
-- address is a text that is not empty and the port is not 0; what the library prints is what it
-- reads.
pub negotiate_stream-answered :
    (ws : CodecName) (offer : SessionDescription) (s : Stream) (session_id port c : ℕ) (cs : Text)
    → negotiate_stream ws offer ≡ ok s
    → 0 < port
    → let reply = read_answer (generate_answer session_id (c ∷ cs) port s) in
      (negotiate_stream pass reply ≡ ok s) × (get_remote_rtp_addr reply ≡ ok (c ∷ cs, port))
negotiate_stream-answered ws offer s session_id port c cs e h = (
  negotiate_stream-generate_answer session_id (c ∷ cs) port s
      (negotiate_stream-IsNegotiated ws offer s e),
  get_remote_rtp_addr-generate_answer session_id port c cs s h,
)
