-- ===== src/Sip/Sdp/RoundTrip.antt =====
-- internal/sdp/sdp.go: the negotiation reads the stream of an answer back.
use tele_portal.Audio.Codec.{
  Codec, CodecName, Stream, is_valid_channels, is_valid_sample_rate, l16, new_codec_g711_a_law,
  new_codec_g711_mu_law, new_codec_l16, pass, pcma, pcmu,
}
use tele_portal.Common.{
  Bool-cases, List, [], ap, arith, false, if◌then◌else◌, inl, inr, lt→ltb, none, refl, some, suc,
  sym, true, zero, ℕ, ◌++◌, ◌<◌, ◌==◌, ◌∙◌, ◌∷◌, ◌≡◌, ◌≤◌, ◌⊎◌,
}
use tele_portal.Common.Int.{pos}
use tele_portal.Common.Numerals.{
  append-Avoids, atoi-itoa, avoids, avoids-Avoids, itoa-inj, split-part,
}
use tele_portal.Common.Result.{Result, ok}
use tele_portal.Common.Text.{Text, codes, equal_fold, itoa, same_text, same_text_refl, same_text→eq}
use tele_portal.Sip.Negotiation.{
  Choice, NegotiationError, choose, conclude, dtmf_type, l16_codec, l16_pass, negotiate_stream,
  nothing_yet, try_l16, try_static,
}
use tele_portal.Sip.Offer.{
  DynamicType, MediaDescription, audio_media, encoding_of, find_address, get_dynamic_pt,
  get_remote_rtp_addr, has_format, ptime_of, ptime_value, rtpmap_of,
}
use tele_portal.Sip.Sdp.{
  answer_attributes, answer_formats, generate_answer, name_text, rtpmap_value,
}
use tele_portal.Sip.Sdp.Attributes.{
  IsVoice, codec_attribute, codec_attribute-other, dtmf_type-answer, get_dynamic_pt-found,
  get_dynamic_pt-next, has_format-head, tail-l16, tail_attributes,
}
use tele_portal.Sip.Sdp.Reading.{
  IsNegotiated, encoding_of-l16, rate_part, rate_part-Avoids, read_answer, rtpmap_of-value,
}

try_l16-some :
    (m : MediaDescription) (d : DynamicType)
    → get_dynamic_pt (codes "L16") m.attributes ≡ some d
    → try_l16 l16_pass m nothing_yet ≡ l16_pass d m.formats nothing_yet
try_l16-some m d e = rw (try_l16, e) refl

try_l16-none :
    (m : MediaDescription)
    → get_dynamic_pt (codes "L16") m.attributes ≡ none
    → try_l16 l16_pass m nothing_yet ≡ nothing_yet
try_l16-none m e = rw (try_l16, e) refl

l16_pass-first :
    (d : DynamicType) (fs : List Text) (codec : Codec)
    → l16_codec d ≡ ok codec
    → l16_pass d (itoa d.payload_type ∷ fs) nothing_yet
      ≡ record { codec = codec; error = none; found = true }
unfolding l16_pass nothing_yet
l16_pass-first d fs codec g = rw (l16_pass, same_text_refl (itoa d.payload_type), g) refl

-- The two static codecs, after what the search for L16 has left.
abbrev static_codecs : MediaDescription → Choice → Choice
static_codecs m c = try_static new_codec_g711_a_law m (try_static new_codec_g711_mu_law m c)

choose-l16 :
    (m : MediaDescription) (d : DynamicType) (fs : List Text) (codec : Codec)
    → get_dynamic_pt (codes "L16") m.attributes ≡ some d
    → m.formats ≡ itoa d.payload_type ∷ fs
    → l16_codec d ≡ ok codec
    → choose pass m ≡ record { codec = codec; error = none; found = true }
unfolding choose l16_pass nothing_yet
choose-l16 m d fs codec e f g = ap (static_codecs m) (
    try_l16-some m d e
    ∙ ap (λ (t : List Text). l16_pass d t nothing_yet) f
    ∙ l16_pass-first d fs codec g)

choose-mu_law :
    (m : MediaDescription)
    → get_dynamic_pt (codes "L16") m.attributes ≡ none
    → has_format 0 m.formats ≡ true
    → choose pass m ≡ record { codec = new_codec_g711_mu_law; error = none; found = true }
unfolding choose nothing_yet new_codec_g711_mu_law
choose-mu_law m e f = ap (static_codecs m) (try_l16-none m e) ∙ rw f refl

choose-a_law :
    (m : MediaDescription)
    → get_dynamic_pt (codes "L16") m.attributes ≡ none
    → has_format 0 m.formats ≡ false
    → has_format 8 m.formats ≡ true
    → choose pass m ≡ record { codec = new_codec_g711_a_law; error = none; found = true }
unfolding choose nothing_yet new_codec_g711_a_law new_codec_g711_mu_law
choose-a_law m e f g = ap (static_codecs m) (try_l16-none m e) ∙ rw (f, g) refl

-- The media description of an answer, as it is read.
unfoldable media_of : Text → ℕ → Stream → MediaDescription
media_of ip port s = record {
  media = codes "audio";
  port = port;
  formats = answer_formats s;
  connection = some ip;
  attributes = answer_attributes s;
}

ptime_read : (n : ℕ) → 0 < n → ptime_value (some (pos n)) ≡ n
ptime_read zero h = absurd (omega arith)
ptime_read (suc n) h = refl

ptime_of-answer :
    (s : Stream)
    → 0 < s.ptime
    → s.ptime ≤ 9223372036854775807
    → ptime_of (answer_attributes s) ≡ s.ptime
unfolding ptime_of answer_attributes same_text
ptime_of-answer s h k = rw (atoi-itoa s.ptime k) (ptime_read s.ptime h)

conclude-chosen :
    (m : MediaDescription) (codec : Codec)
    → choose pass m ≡ record { codec = codec; error = none; found = true }
    → conclude m (choose pass m)
      ≡ ok
          (record { codec = codec; ptime = ptime_of m.attributes; dtmf_payload_type = dtmf_type m })
conclude-chosen m codec e = ap (conclude m) e

new_codec_l16-fields :
    (pt rate channels : ℕ) (c : Codec)
    → new_codec_l16 pt rate channels true true ≡ ok c
    → (rate < 65536) × ((channels ≡ 1) ⊎ (channels ≡ 2)) × (c.name ≡ l16)
unfolding new_codec_l16 is_valid_sample_rate is_valid_channels
new_codec_l16-fields pt rate channels c e = ground arith

codec_attribute-l16 :
    (c : Codec)
    → c.name ≡ l16
    → c.payload_type < 256
    → c.sample_rate < 65536
    → (c.channels ≡ 1) ⊎ (c.channels ≡ 2)
    → rtpmap_of (codes "L16") (codec_attribute c)
      ≡ some (record {
        payload_type = c.payload_type;
        rate = pos c.sample_rate;
        channels = pos c.channels;
      })
unfolding rtpmap_value name_text avoids
codec_attribute-l16 c e h r k =
    let part = rate_part c.sample_rate c.channels in
    rw e (
      rtpmap_of-value (codes "L16") (codes "L16/" ++ part) c.payload_type h (
        append-Avoids b' ' (codes "L16/") part (avoids-Avoids b' ' (codes "L16/") refl)
          (rate_part-Avoids c.sample_rate c.channels))
      ∙ ap (encoding_of (codes "L16") c.payload_type)
          (split-part b'/' (codes "L16") part (avoids-Avoids b'/' (codes "L16") refl))
      ∙ encoding_of-l16 c.payload_type c.sample_rate c.channels r k)

static-IsVoice : (name : CodecName) → (name ≡ pcmu) ⊎ (name ≡ pcma) → IsVoice name
static-IsVoice name (inl e) = inl e
static-IsVoice name (inr e) = inr (inl e)

static_other :
    (name : CodecName)
    → (name ≡ pcmu) ⊎ (name ≡ pcma)
    → equal_fold (name_text name) (codes "L16") ≡ false
unfolding equal_fold same_text name_text
static_other name (inl e) = rw e refl
static_other name (inr e) = rw e refl

no_l16 :
    (s : Stream)
    → (s.codec.name ≡ pcmu) ⊎ (s.codec.name ≡ pcma)
    → s.codec.payload_type < 256
    → s.dtmf_payload_type < 256
    → get_dynamic_pt (codes "L16") (answer_attributes s) ≡ none
unfolding answer_attributes
no_l16 s v h k =
    get_dynamic_pt-next (codes "L16") (codec_attribute s.codec) (tail_attributes s) (
      codec_attribute-other (codes "L16") s.codec (static-IsVoice s.codec.name v) h
        (static_other s.codec.name v))
    ∙ tail-l16 s k

positive : (n : ℕ) → (n == 0) ≡ false → ¬ (n ≡ 0)
positive n e f = ground (arith, e, f)

not_zero : (n : ℕ) → n < 256 → (n == 0) ≡ false → same_text (itoa n) (itoa 0) ≡ false
not_zero n h e = elim (Bool-cases (same_text (itoa n) (itoa 0))) [
  | inl f ↦
      absurd
        (positive n e (itoa-inj n 0 (omega arith) (omega arith) (same_text→eq (itoa n) (itoa 0) f)))
  | inr f ↦ f
]

no_format_0 :
    (s : Stream)
    → s.codec.payload_type ≡ 8
    → s.dtmf_payload_type < 256
    → has_format 0 (answer_formats s) ≡ false
unfolding has_format answer_formats same_text
no_format_0 s e h = elim (Bool-cases (s.dtmf_payload_type == 0)) [
  | inl f ↦ rw (e, f) (not_zero 8 (omega arith) refl)
  | inr f ↦ rw (e, f, not_zero 8 (omega arith) refl, not_zero s.dtmf_payload_type h f) refl
]

format_payload :
    (s : Stream) (n : ℕ) → s.codec.payload_type ≡ n → has_format n (answer_formats s) ≡ true
unfolding answer_formats
format_payload s n e =
    rw e
      (has_format-head n (if s.dtmf_payload_type == 0 then [] else itoa s.dtmf_payload_type ∷ []))

-- The name, the payload type and the fields that the answer does not tell.
static_fields :
    (c : Codec)
    → ((c ≡ new_codec_g711_mu_law) → (c.name ≡ pcmu) × (c.payload_type ≡ 0))
      × ((c ≡ new_codec_g711_a_law) → (c.name ≡ pcma) × (c.payload_type ≡ 8))
unfolding new_codec_g711_mu_law new_codec_g711_a_law
static_fields c = (
  λ e. (ap (λ (x : Codec). x.name) e, ap (λ (x : Codec). x.payload_type) e),
  λ e. (ap (λ (x : Codec). x.name) e, ap (λ (x : Codec). x.payload_type) e),
)

abbrev choice_of : Codec → Choice
choice_of c = record { codec = c; error = none; found = true }

-- The codec of an answer is the one that is chosen, in each of the three cases.
chosen_codec :
    (ip : Text) (port : ℕ) (s : Stream)
    → IsNegotiated s
    → choose pass (media_of ip port s) ≡ choice_of s.codec
unfolding media_of answer_formats answer_attributes
chosen_codec ip port s v = elim (v.codec_offered) [
  | inl e ↦
      let f = (static_fields s.codec).0 e in
      choose-mu_law (media_of ip port s) (no_l16 s (inl (f.0)) v.payload_bound v.dtmf_bound)
        (format_payload s 0 (f.1))
      ∙ ap choice_of (sym e)
  | inr (inl e) ↦
      let f = (static_fields s.codec).1 e in
      choose-a_law (media_of ip port s) (no_l16 s (inr (f.0)) v.payload_bound v.dtmf_bound)
        (no_format_0 s (f.1) v.dtmf_bound) (format_payload s 8 (f.1))
      ∙ ap choice_of (sym e)
  | inr (inr e) ↦
      let c = s.codec in
      let f = new_codec_l16-fields c.payload_type c.sample_rate c.channels c e in
      let d : DynamicType = record {
        payload_type = c.payload_type;
        rate = pos c.sample_rate;
        channels = pos c.channels;
      } in
      choose-l16 (media_of ip port s) d
        (if s.dtmf_payload_type == 0 then [] else itoa s.dtmf_payload_type ∷ []) c
        (get_dynamic_pt-found (codes "L16") (codec_attribute c) (tail_attributes s) d
          (codec_attribute-l16 c (f.2) v.payload_bound (f.0) (f.1)))
        refl e
]

name-IsVoice : (s : Stream) → IsNegotiated s → IsVoice s.codec.name
name-IsVoice s v = elim (v.codec_offered) [
  | inl e ↦ inl ((static_fields s.codec).0 e).0
  | inr (inl e) ↦ inr (inl ((static_fields s.codec).1 e).0)
  | inr (inr e) ↦ inr (
      inr
        (new_codec_l16-fields s.codec.payload_type s.codec.sample_rate s.codec.channels s.codec
          e).2)
]

no_event :
    (name : CodecName)
    → IsVoice name
    → equal_fold (name_text name) (codes "telephone-event") ≡ false
unfolding equal_fold same_text name_text
no_event name (inl e) = rw e refl
no_event name (inr (inl e)) = rw e refl
no_event name (inr (inr e)) = rw e refl

whole :
    (s : Stream) (p d : ℕ)
    → p ≡ s.ptime
    → d ≡ s.dtmf_payload_type
    → Path
        (Result NegotiationError Stream)
        (ok (record { codec = s.codec; ptime = p; dtmf_payload_type = d }))
        (ok s)
whole s p d e f = rw (e, f) refl

-- The negotiation in pass-through mode, applied to the answer for a stream that it can end with,
-- ends with that stream: the codec, the packet time and the DTMF payload type are what they were.
-- The packet time is a positive 64-bit int. What the library prints is what it reads.
pub negotiate_stream-generate_answer :
    (session_id : ℕ) (ip : Text) (port : ℕ) (s : Stream)
    → IsNegotiated s
    → negotiate_stream pass (read_answer (generate_answer session_id ip port s)) ≡ ok s
unfolding negotiate_stream read_answer generate_answer audio_media same_text media_of
negotiate_stream-generate_answer session_id ip port s v =
    let m = media_of ip port s in
    let voice = name-IsVoice s v in
    conclude-chosen m s.codec (chosen_codec ip port s v)
    ∙ whole s (ptime_of m.attributes) (dtmf_type m)
        (ptime_of-answer s v.ptime_positive v.ptime_bound)
        (dtmf_type-answer s m voice v.payload_bound v.dtmf_bound (no_event s.codec.name voice) refl
          refl)

-- The media of an answer gives the address and the port that the answer was made for.
pub get_remote_rtp_addr-generate_answer :
    (session_id port c : ℕ) (cs : Text) (s : Stream)
    → 0 < port
    → get_remote_rtp_addr (read_answer (generate_answer session_id (c ∷ cs) port s))
      ≡ ok (c ∷ cs, port)
unfolding get_remote_rtp_addr find_address read_answer generate_answer same_text
get_remote_rtp_addr-generate_answer session_id port c cs s h = rw (lt→ltb 0 port h) refl
