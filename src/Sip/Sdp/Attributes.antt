-- ===== src/Sip/Sdp/Attributes.antt =====
-- internal/sdp/sdp.go: what the attributes of an answer say to the functions of the negotiation.
use tele_portal.Audio.Codec.{Codec, CodecName, Stream, l16, pcma, pcmu}
use tele_portal.Common.{
  Bool-cases, List, [], ap, arith, false, if◌then◌else◌, inl, inr, none, refl, some, true, ℕ, ◌++◌,
  ◌<◌, ◌==◌, ◌∙◌, ◌∷◌, ◌≡◌, ◌⊎◌,
}
use tele_portal.Common.Numerals.{
  Avoids, append-Avoids, avoids, avoids-Avoids, itoa-Avoids, split-part,
}
use tele_portal.Common.Text.{Text, codes, equal_fold, itoa, same_text, same_text_refl, split}
use tele_portal.Sip.Negotiation.{dtmf_type}
use tele_portal.Sip.Offer.{
  Attribute, DynamicType, MediaDescription, encoding_of, get_dynamic_pt, has_format, rtpmap_of,
}
use tele_portal.Sip.Sdp.{answer_attributes, answer_formats, name_text, rtpmap_value}
use tele_portal.Sip.Sdp.Reading.{rate_part, rate_part-Avoids, rtpmap-other, rtpmap_of-value}

pub get_dynamic_pt-next :
    (name : Text) (a : Attribute) (as' : List Attribute)
    → rtpmap_of name a ≡ none
    → get_dynamic_pt name (a ∷ as') ≡ get_dynamic_pt name as'
unfolding get_dynamic_pt
get_dynamic_pt-next name a as' e = rw (get_dynamic_pt, e) refl

pub get_dynamic_pt-found :
    (name : Text) (a : Attribute) (as' : List Attribute) (d : DynamicType)
    → rtpmap_of name a ≡ some d
    → get_dynamic_pt name (a ∷ as') ≡ some d
unfolding get_dynamic_pt
get_dynamic_pt-found name a as' d e = rw (get_dynamic_pt, e) refl

-- The attribute of the codec, and those of DTMF.
abbrev pub codec_attribute : Codec → Attribute
unfolding rtpmap_value
codec_attribute c = record { key = codes "rtpmap"; value = rtpmap_value c }

abbrev pub dtmf_attributes : Stream → List Attribute
dtmf_attributes s =
    if s.dtmf_payload_type == 0
    then []
    else record {
      key = codes "rtpmap";
      value = itoa s.dtmf_payload_type ++ (codes " telephone-event/" ++ itoa s.codec.sample_rate);
    }
      ∷ record { key = codes "fmtp"; value = itoa s.dtmf_payload_type ++ codes " 0-16" }
      ∷ []

abbrev pub IsVoice : CodecName → Type 0
IsVoice name = (name ≡ pcmu) ⊎ (name ≡ pcma) ⊎ (name ≡ l16)

name_text-Avoids :
    (name : CodecName) → IsVoice name → Avoids b' ' (name_text name) × Avoids b'/' (name_text name)
unfolding avoids name_text
name_text-Avoids name (inl e) =
    rw e (avoids-Avoids _ (name_text pcmu) refl, avoids-Avoids _ (name_text pcmu) refl)
name_text-Avoids name (inr (inl e)) =
    rw e (avoids-Avoids _ (name_text pcma) refl, avoids-Avoids _ (name_text pcma) refl)
name_text-Avoids name (inr (inr e)) =
    rw e (avoids-Avoids _ (name_text l16) refl, avoids-Avoids _ (name_text l16) refl)

pub codec_attribute-other :
    (name : Text) (c : Codec)
    → IsVoice c.name
    → c.payload_type < 256
    → equal_fold (name_text c.name) name ≡ false
    → rtpmap_of name (codec_attribute c) ≡ none
unfolding rtpmap_value codec_attribute Avoids
codec_attribute-other name c v h e =
    let a = name_text-Avoids c.name v in
    rtpmap-other name (name_text c.name) (rate_part c.sample_rate c.channels) c.payload_type h
      (append-Avoids b' ' (name_text c.name) (b'/' ∷ rate_part c.sample_rate c.channels) (a.0)
        (refl, rate_part-Avoids c.sample_rate c.channels))
      (a.1) e

pub passed_over :
    (name t : Text)
    → (rtpmap_of name (record { key = codes "ptime"; value = t }) ≡ none)
      × (rtpmap_of name (record { key = codes "sendrecv"; value = t }) ≡ none)
      × (rtpmap_of name (record { key = codes "fmtp"; value = t }) ≡ none)
unfolding rtpmap_of same_text
passed_over name t = (refl, refl, refl)

event_rtpmap : ℕ → ℕ → Attribute
event_rtpmap pt rate = record {
  key = codes "rtpmap";
  value = itoa pt ++ (codes " telephone-event/" ++ itoa rate);
}

event_rtpmap-other :
    (pt rate : ℕ) → pt < 256 → rtpmap_of (codes "L16") (event_rtpmap pt rate) ≡ none
unfolding event_rtpmap avoids equal_fold same_text
event_rtpmap-other pt rate h =
    rtpmap-other (codes "L16") (codes "telephone-event") (itoa rate) pt h
      (append-Avoids b' ' (codes "telephone-event/") (itoa rate)
        (avoids-Avoids b' ' (codes "telephone-event/") refl) (itoa-Avoids b' ' rate (omega arith)))
      (avoids-Avoids b'/' (codes "telephone-event") refl) refl

event_parts :
    (pt : ℕ) (parts : List Text)
    → (d : DynamicType) × (encoding_of
          (codes "telephone-event")
          pt
          (codes "telephone-event" ∷ parts)
        ≡ some d)
      × (d.payload_type ≡ pt)
unfolding encoding_of equal_fold same_text
event_parts pt parts = (_, refl, refl)

event_rtpmap-event :
    (pt rate : ℕ)
    → pt < 256
    → (d : DynamicType) × (rtpmap_of (codes "telephone-event") (event_rtpmap pt rate) ≡ some d)
      × (d.payload_type ≡ pt)
unfolding event_rtpmap avoids
event_rtpmap-event pt rate h =
    let read = event_parts pt (split b'/' (itoa rate)) in
    let value = codes "telephone-event/" ++ itoa rate in
    (
      read.0,
      rtpmap_of-value (codes "telephone-event") value pt h (
            append-Avoids b' ' (codes "telephone-event/") (itoa rate)
              (avoids-Avoids b' ' (codes "telephone-event/") refl)
              (itoa-Avoids b' ' rate (omega arith)))
          ∙ ap (encoding_of (codes "telephone-event") pt) (
              split-part b'/' (codes "telephone-event") (itoa rate)
                (avoids-Avoids b'/' (codes "telephone-event") refl))
          ∙ read.1,
      read.2,
    )

-- The attributes behind the one of the codec, for the encoding names that are looked for.
abbrev pub tail_attributes : Stream → List Attribute
tail_attributes s =
    record { key = codes "ptime"; value = itoa s.ptime }
    ∷ record { key = codes "sendrecv"; value = [] }
    ∷ dtmf_attributes s

tail-next :
    (name : Text) (s : Stream)
    → get_dynamic_pt name (tail_attributes s) ≡ get_dynamic_pt name (dtmf_attributes s)
tail-next name s =
    let rest = dtmf_attributes s in
    let sendrecv : Attribute = record { key = codes "sendrecv"; value = [] } in
    get_dynamic_pt-next name (record { key = codes "ptime"; value = itoa s.ptime })
      (sendrecv ∷ rest) (passed_over name (itoa s.ptime)).0
    ∙ get_dynamic_pt-next name sendrecv rest (passed_over name []).1

with_dtmf :
    (s : Stream)
    → (s.dtmf_payload_type == 0) ≡ false
    → dtmf_attributes s
      ≡ event_rtpmap s.dtmf_payload_type s.codec.sample_rate
        ∷ record { key = codes "fmtp"; value = itoa s.dtmf_payload_type ++ codes " 0-16" }
        ∷ []
unfolding event_rtpmap
with_dtmf s e = rw e refl

without_dtmf : (s : Stream) → (s.dtmf_payload_type == 0) ≡ true → dtmf_attributes s ≡ []
without_dtmf s e = rw e refl

pub tail-l16 :
    (s : Stream)
    → s.dtmf_payload_type < 256
    → get_dynamic_pt (codes "L16") (tail_attributes s) ≡ none
unfolding get_dynamic_pt
tail-l16 s h = tail-next (codes "L16") s ∙ elim (Bool-cases (s.dtmf_payload_type == 0)) [
  | inl e ↦ rw (without_dtmf s e) refl
  | inr e ↦
      let fmtp : Attribute = record {
        key = codes "fmtp";
        value = itoa s.dtmf_payload_type ++ codes " 0-16";
      } in
      ap (get_dynamic_pt (codes "L16")) (with_dtmf s e)
      ∙ get_dynamic_pt-next (codes "L16") (event_rtpmap s.dtmf_payload_type s.codec.sample_rate)
          (fmtp ∷ []) (event_rtpmap-other s.dtmf_payload_type s.codec.sample_rate h)
      ∙ get_dynamic_pt-next (codes "L16") fmtp []
          (passed_over (codes "L16") (itoa s.dtmf_payload_type ++ codes " 0-16")).2
]

pub has_format-head : (pt : ℕ) (fs : List Text) → has_format pt (itoa pt ∷ fs) ≡ true
unfolding has_format
has_format-head pt fs = rw (same_text_refl (itoa pt)) refl

has_format-second : (pt : ℕ) (f : Text) → has_format pt (f ∷ itoa pt ∷ []) ≡ true
unfolding has_format
has_format-second pt f = ground (arith, same_text_refl (itoa pt))

no_dtmf :
    (s : Stream) (m : MediaDescription)
    → (s.dtmf_payload_type == 0) ≡ true
    → get_dynamic_pt (codes "telephone-event") m.attributes ≡ none
    → dtmf_type m ≡ s.dtmf_payload_type
unfolding dtmf_type
no_dtmf s m e f = rw (dtmf_type, f) (ground (arith, e))

some_dtmf :
    (s : Stream) (m : MediaDescription) (d : DynamicType)
    → d.payload_type ≡ s.dtmf_payload_type
    → (s.dtmf_payload_type == 0) ≡ false
    → m.formats ≡ answer_formats s
    → get_dynamic_pt (codes "telephone-event") m.attributes ≡ some d
    → dtmf_type m ≡ s.dtmf_payload_type
unfolding dtmf_type answer_formats
some_dtmf s m d p e f g =
    rw (dtmf_type, g, p, f, e, has_format-second s.dtmf_payload_type (itoa s.codec.payload_type))
      refl

-- The DTMF payload type is read back.
pub dtmf_type-answer :
    (s : Stream) (m : MediaDescription)
    → IsVoice s.codec.name
    → s.codec.payload_type < 256
    → s.dtmf_payload_type < 256
    → equal_fold (name_text s.codec.name) (codes "telephone-event") ≡ false
    → m.formats ≡ answer_formats s
    → m.attributes ≡ answer_attributes s
    → dtmf_type m ≡ s.dtmf_payload_type
unfolding answer_attributes answer_formats get_dynamic_pt
dtmf_type-answer s m v h k other f a =
    let name = codes "telephone-event" in
    let read : get_dynamic_pt name m.attributes ≡ get_dynamic_pt name (dtmf_attributes s) =
      ap (get_dynamic_pt name) a
      ∙ get_dynamic_pt-next name (codec_attribute s.codec) (tail_attributes s)
          (codec_attribute-other name s.codec v h other)
      ∙ tail-next name s in
    elim (Bool-cases (s.dtmf_payload_type == 0)) [
      | inl e ↦ no_dtmf s m e (read ∙ ap (get_dynamic_pt name) (without_dtmf s e))
      | inr e ↦
          let fmtp : Attribute = record {
            key = codes "fmtp";
            value = itoa s.dtmf_payload_type ++ codes " 0-16";
          } in
          let event = event_rtpmap-event s.dtmf_payload_type s.codec.sample_rate k in
          some_dtmf s m (event.0) (event.2) e f (
            read
            ∙ ap (get_dynamic_pt name) (with_dtmf s e)
            ∙ get_dynamic_pt-found name (event_rtpmap s.dtmf_payload_type s.codec.sample_rate)
                (fmtp ∷ []) (event.0) (event.1))
    ]
