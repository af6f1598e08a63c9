-- ===== src/Sip/Negotiation/Answer.antt =====
-- internal/sip/sip_handler.go: a negotiated stream is one the offer contains.
use tele_portal.Audio.Codec.{
  Codec, CodecName, Stream, l16, new_codec_g711_a_law, new_codec_g711_mu_law, new_codec_l16, opus,
  pass, pcma, pcmu, same_name, unnamed,
}
use tele_portal.Call.Processor.Delivery.{offer}
use tele_portal.Common.{
  Bool, Bool-cases, List, Option, Option-cases, [], arith, false, inl, inr, none, refl, some, subst,
  suc, true, zero, ℕ, ◌||◌, ◌∙◌, ◌∷◌, ◌≡◌, ◌≤◌, ◌⊎◌,
}
use tele_portal.Common.Int.{negsuc, pos, ℤ}
use tele_portal.Common.Result.{Result-cases, err-ok, ok, ok-inj}
use tele_portal.Common.Text.{Text, atoi, codes, itoa, same_text}
use tele_portal.Sip.Negotiation.{
  Choice, choose, clamp, conclude, dtmf_type, l16_codec, l16_pass, l16_strict, negotiate_stream,
  nothing_yet, stream_of, take_l16, try_l16, try_static,
}
use tele_portal.Sip.Offer.{
  Attribute, DynamicType, MediaDescription, SessionDescription, audio_media, get_dynamic_pt,
  has_format, ptime_of, ptime_value,
}

-- The codecs a configured codec of the WebSocket accepts on the SIP side.
unfoldable pub suits : CodecName → CodecName → Bool
suits pass name = same_name name l16 || (same_name name pcmu || same_name name pcma)
suits l16 name = same_name name l16 || (same_name name pcmu || same_name name pcma)
suits pcmu name = same_name name pcmu
suits pcma name = same_name name pcma
suits _ name = false

-- What a loop over the formats leaves behind: a codec that was found is acceptable and listed.
abbrev IsListed : CodecName → MediaDescription → Choice → Type 0
IsListed ws m c =
    c.found ≡ true
    → (has_format c.codec.payload_type m.formats ≡ true) × (suits ws c.codec.name ≡ true)

nothing_yet-IsListed : (ws : CodecName) → (m : MediaDescription) → IsListed ws m nothing_yet
unfolding nothing_yet
nothing_yet-IsListed ws m = ground arith

new_codec_l16-ok :
    (pt rate channels : ℕ)
    → (big signed : Bool) → (c : Codec) → new_codec_l16 pt rate channels big signed ≡ ok c
    → (c.payload_type ≡ pt) × (c.name ≡ l16)
unfolding new_codec_l16
new_codec_l16-ok pt rate channels big signed c = ground arith

try_static-IsListed :
    (ws : CodecName)
    → (m : MediaDescription) → (codec : Codec) → (c : Choice) → suits ws codec.name ≡ true
    → IsListed ws m c
    → IsListed ws m (try_static codec m c)
try_static-IsListed ws m codec c fits h = elim (Bool-cases c.found) [
  | inl e ↦ rw e λ _. h e
  | inr e ↦ rw e elim (Bool-cases (has_format codec.payload_type m.formats)) [
    | inl g ↦ rw g λ _. (g, fits)
    | inr g ↦ rw g λ i. h (e ∙ i)
  ]
]

take_l16-IsListed :
    (ws : CodecName)
    → (m : MediaDescription) → (d : DynamicType) → (c : Choice) → suits ws l16 ≡ true
    → has_format d.payload_type m.formats ≡ true
    → c.found ≡ false
    → IsListed ws m (take_l16 (l16_codec d) c)
take_l16-IsListed ws m d c fits listed none_yet = elim (Result-cases (l16_codec d)) [
  | inl (codec, e) ↦
      let (pt, name) =
        new_codec_l16-ok d.payload_type (clamp d.rate) (clamp d.channels) true true codec e in
      rw e λ _. (rw pt listed, rw name fits)
  | inr (x, e) ↦ rw e ground arith
]

l16_strict-IsListed :
    (ws : CodecName)
    → (m : MediaDescription) → (d : DynamicType) → suits ws l16 ≡ true
    → (fs : List Text) → (c : Choice) → c.found ≡ false
    → (has_format d.payload_type fs ≡ true → has_format d.payload_type m.formats ≡ true)
    → IsListed ws m (l16_strict d fs c)
unfolding l16_strict has_format
l16_strict-IsListed ws m d fits [] c none_yet sub = ground arith
l16_strict-IsListed ws m d fits (f ∷ fs) c none_yet sub =
    elim (Bool-cases (same_text f (itoa d.payload_type))) [
      | inl e ↦ rw e (take_l16-IsListed ws m d c fits (sub (rw e refl)) none_yet)
      | inr e ↦ rw e (l16_strict-IsListed ws m d fits fs c none_yet (λ g. sub (rw e g)))
    ]

l16_pass-IsListed :
    (ws : CodecName)
    → (m : MediaDescription) → (d : DynamicType) → suits ws l16 ≡ true
    → (fs : List Text) → (c : Choice) → c.found ≡ false
    → (has_format d.payload_type fs ≡ true → has_format d.payload_type m.formats ≡ true)
    → IsListed ws m (l16_pass d fs c)
unfolding l16_pass has_format
l16_pass-IsListed ws m d fits [] c none_yet sub = ground arith
l16_pass-IsListed ws m d fits (f ∷ fs) c none_yet sub =
    elim (Bool-cases (same_text f (itoa d.payload_type))) [
      | inl e ↦ elim (Bool-cases (take_l16 (l16_codec d) c).found) [
        | inl g ↦ rw (e, g) (take_l16-IsListed ws m d c fits (sub (rw e refl)) none_yet)
        | inr g ↦
            rw (e, g)
              (l16_pass-IsListed ws m d fits fs (take_l16 (l16_codec d) c) g (λ i. sub (rw e refl)))
      ]
      | inr e ↦ rw e (l16_pass-IsListed ws m d fits fs c none_yet (λ g. sub (rw e g)))
    ]

try_l16-IsListed :
    (ws : CodecName)
    → (m : MediaDescription) → (loop : DynamicType → List Text → Choice → Choice)
    → ((d : DynamicType) → IsListed ws m (loop d m.formats nothing_yet))
    → IsListed ws m (try_l16 loop m nothing_yet)
try_l16-IsListed ws m loop h = elim (Option-cases (get_dynamic_pt (codes "L16") m.attributes)) [
  | inr (d, e) ↦ rw (e, try_l16) (h d)
  | inl e ↦ rw (e, try_l16) (nothing_yet-IsListed ws m)
]

both-IsListed :
    (ws : CodecName)
    → (m : MediaDescription) → (c : Choice) → suits ws pcmu ≡ true
    → suits ws pcma ≡ true
    → IsListed ws m c
    → IsListed ws m (try_static new_codec_g711_a_law m (try_static new_codec_g711_mu_law m c))
unfolding new_codec_g711_a_law new_codec_g711_mu_law
both-IsListed ws m c mu a h =
    try_static-IsListed ws m new_codec_g711_a_law (try_static new_codec_g711_mu_law m c) a
      (try_static-IsListed ws m new_codec_g711_mu_law c mu h)

choose-IsListed : (ws : CodecName) → (m : MediaDescription) → IsListed ws m (choose ws m)
unfolding choose suits new_codec_g711_a_law new_codec_g711_mu_law nothing_yet
choose-IsListed pass m = both-IsListed pass m (try_l16 l16_pass m nothing_yet) refl refl (
    try_l16-IsListed pass m l16_pass
      (λ d. l16_pass-IsListed pass m d refl m.formats nothing_yet refl (λ g. g)))
choose-IsListed l16 m = both-IsListed l16 m (try_l16 l16_strict m nothing_yet) refl refl (
    try_l16-IsListed l16 m l16_strict
      (λ d. l16_strict-IsListed l16 m d refl m.formats nothing_yet refl (λ g. g)))
choose-IsListed pcmu m =
    try_static-IsListed pcmu m new_codec_g711_mu_law nothing_yet refl (nothing_yet-IsListed pcmu m)
choose-IsListed pcma m =
    try_static-IsListed pcma m new_codec_g711_a_law nothing_yet refl (nothing_yet-IsListed pcma m)
choose-IsListed opus m = nothing_yet-IsListed opus m
choose-IsListed unnamed m = nothing_yet-IsListed unnamed m

ptime_value-pos : (o : Option ℤ) → 1 ≤ ptime_value o
ptime_value-pos none = omega arith
ptime_value-pos (some (negsuc n)) = omega arith
ptime_value-pos (some (pos zero)) = omega arith
ptime_value-pos (some (pos (suc n))) = omega arith

pub ptime_of-pos : (as' : List Attribute) → 1 ≤ ptime_of as'
unfolding ptime_of
ptime_of-pos [] = omega arith
ptime_of-pos (a ∷ as') = elim (Bool-cases (same_text a.key (codes "ptime"))) [
  | inl e ↦ rw e (ptime_value-pos (atoi a.value))
  | inr e ↦ rw e (ptime_of-pos as')
]

dtmf_type-listed :
    (m : MediaDescription) → (dtmf_type m ≡ 0) ⊎ (has_format (dtmf_type m) m.formats ≡ true)
unfolding dtmf_type
dtmf_type-listed m = elim (Option-cases (get_dynamic_pt (codes "telephone-event") m.attributes)) [
  | inl e ↦ rw (e, dtmf_type) (inl refl)
  | inr (d, e) ↦
      rw (e, dtmf_type)
        (elim (Bool-cases (has_format d.payload_type m.formats)) [
          | inl g ↦ rw g (inr g)
          | inr g ↦ rw g (inl refl)
        ])
]

-- What a caller of `negotiateStream` relies on.
pub record IsAnswer (ws : CodecName) (m : MediaDescription) (s : Stream) : Type 0 where
  pub codec_listed : has_format s.codec.payload_type m.formats ≡ true
  pub codec_suits : suits ws s.codec.name ≡ true
  pub ptime_positive : 1 ≤ s.ptime
  pub dtmf_listed : (s.dtmf_payload_type ≡ 0) ⊎ (has_format s.dtmf_payload_type m.formats ≡ true)

answer :
    (ws : CodecName)
    → (m : MediaDescription) → (c : Choice) → IsListed ws m c
    → c.found ≡ true
    → IsAnswer ws m (stream_of m c)
answer ws m c h e = record {
  codec_listed = (h e).0;
  codec_suits = (h e).1;
  ptime_positive = ptime_of-pos m.attributes;
  dtmf_listed = dtmf_type-listed m;
}

conclude-IsAnswer :
    (ws : CodecName)
    → (m : MediaDescription) → (c : Choice) → IsListed ws m c
    → (s : Stream) → conclude m c ≡ ok s
    → IsAnswer ws m s
conclude-IsAnswer ws m c h s e = elim (Bool-cases c.found) [
  | inr f ↦ absurd (err-ok (rw f at e))
  | inl f ↦ elim (Option-cases c.error) [
    | inl none_left ↦
        subst (λ x. IsAnswer ws m x) (ok-inj (rw (f, none_left) at e)) (answer ws m c h f)
    | inr (x, g) ↦ absurd (err-ok (rw (f, g) at e))
  ]
]

-- For every configured codec and every offer, with or without audio: a stream that is negotiated
-- is an answer to the first audio media. Its payload type is among the formats that are offered,
-- its codec can serve the configured one, its packet time is at least 1, and its telephone-event
-- type is 0 or among the formats as well.
pub negotiate_stream-IsAnswer :
    (ws : CodecName)
    → (offer : SessionDescription) → (s : Stream) → negotiate_stream ws offer ≡ ok s
    → (m : MediaDescription) × (audio_media offer.media_descriptions ≡ some m) × IsAnswer ws m s
unfolding negotiate_stream
negotiate_stream-IsAnswer ws offer s e =
    elim (Option-cases (audio_media offer.media_descriptions)) [
      | inl g ↦ absurd (err-ok (rw (g, negotiate_stream) at e))
      | inr (m, g) ↦ (
        m,
        g,
        conclude-IsAnswer ws m (choose ws m) (choose-IsListed ws m) s
            (rw (g, negotiate_stream) at e),
      )
    ]
