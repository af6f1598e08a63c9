-- ===== src/Sip/Negotiation.antt =====
-- internal/sip/sip_handler.go: `negotiateStream`, which picks codec, packet time and DTMF payload
-- type out of an offer.
pub mod Answer
pub mod Preference
use tele_portal.Audio.Codec.{
  Codec, CodecError, CodecName, Stream, l16, new_codec_g711_a_law, new_codec_g711_mu_law,
  new_codec_l16, pass, pcma, pcmu, unnamed,
}
use tele_portal.Common.{
  Bool, List, Option, [], false, if◌then◌else◌, none, not, some, true, ℕ, ◌&&◌, ◌∷◌,
}
use tele_portal.Common.Int.{negsuc, pos, ℤ}
use tele_portal.Common.Result.{Result, err, ok}
use tele_portal.Common.Text.{Text, codes, itoa, same_text}
use tele_portal.Sip.Offer.{
  DynamicType, MediaDescription, SessionDescription, audio_media, get_dynamic_pt, has_format,
  ptime_of,
}

pub data NegotiationError : Type 0 where
  no_audio_media no_supported_codec : NegotiationError
  codec_failed : CodecError → NegotiationError

-- The variables `codec`, `err` and `found`.
pub record Choice : Type 0 where
  pub codec : Codec
  pub error : Option CodecError
  pub found : Bool

-- The zero value `audio.Codec{}`.
unfoldable pub zero_codec : Codec
zero_codec = record {
  name = unnamed;
  bytes_per_sample = 0;
  sample_rate = 0;
  channels = 0;
  payload_type = 0;
  is_big_endian = false;
  is_signed = false;
}

unfoldable pub nothing_yet : Choice
nothing_yet = record { codec = zero_codec; error = none; found = false }

-- A rate or a channel count below 0 is as invalid as 0.
abbrev pub clamp : ℤ → ℕ
clamp (pos n) = n
clamp (negsuc n) = 0

abbrev pub l16_codec : DynamicType → Result CodecError Codec
l16_codec d = new_codec_l16 d.payload_type (clamp d.rate) (clamp d.channels) true true

-- `codec, err = audio.NewCodecL16(…)`, and `found = true` without an error.
abbrev pub take_l16 : Result CodecError Codec → Choice → Choice
take_l16 (ok codec) c = record { codec = codec; error = none; found = true }
take_l16 (err e) c = record { codec = zero_codec; error = some e; found = c.found }

-- The loop over the formats in pass-through mode: it goes on after an error.
unfoldable pub l16_pass : DynamicType → List Text → Choice → Choice
l16_pass d [] c = c
l16_pass d (f ∷ fs) c =
    let tried = take_l16 (l16_codec d) c in
    let rest = l16_pass d fs (if same_text f (itoa d.payload_type) then tried else c) in
    if same_text f (itoa d.payload_type) && tried.found then tried else rest

-- The loop for a configured L16: it ends at the first match.
unfoldable pub l16_strict : DynamicType → List Text → Choice → Choice
l16_strict d [] c = c
l16_strict d (f ∷ fs) c =
    let rest = l16_strict d fs c in
    if same_text f (itoa d.payload_type) then take_l16 (l16_codec d) c else rest

abbrev pub try_l16 :
    (DynamicType → List Text → Choice → Choice) → MediaDescription → Choice → Choice
try_l16 loop m c = elim (get_dynamic_pt (codes "L16") m.attributes) [
  | some d ↦ loop d m.formats c
  | none ↦ c
]

-- A codec with a static payload type; `err` keeps its value.
abbrev pub try_static : Codec → MediaDescription → Choice → Choice
try_static codec m c =
    if c.found
    then c
    else if has_format codec.payload_type m.formats
    then record c { codec = codec; found = true }
    else c

-- The codec for the configured codec of the WebSocket.
unfoldable pub choose : CodecName → MediaDescription → Choice
choose pass m =
    try_static new_codec_g711_a_law m
      (try_static new_codec_g711_mu_law m (try_l16 l16_pass m nothing_yet))
choose l16 m =
    try_static new_codec_g711_a_law m
      (try_static new_codec_g711_mu_law m (try_l16 l16_strict m nothing_yet))
choose pcmu m = try_static new_codec_g711_mu_law m nothing_yet
choose pcma m = try_static new_codec_g711_a_law m nothing_yet
choose _ m = nothing_yet

-- The telephone-event payload type, 0 without one among the formats.
unfoldable pub dtmf_type : MediaDescription → ℕ
dtmf_type m = elim (get_dynamic_pt (codes "telephone-event") m.attributes) [
  | some d ↦ if has_format d.payload_type m.formats then d.payload_type else 0
  | none ↦ 0
]

abbrev pub stream_of : MediaDescription → Choice → Stream
stream_of m c = record {
  codec = c.codec;
  ptime = ptime_of m.attributes;
  dtmf_payload_type = dtmf_type m;
}

abbrev pub conclude : MediaDescription → Choice → Result NegotiationError Stream
conclude m c =
    if not c.found
    then err no_supported_codec
    else elim c.error [ some e ↦ err (codec_failed e) | none ↦ ok (stream_of m c) ]

unfoldable pub negotiate_stream : CodecName → SessionDescription → Result NegotiationError Stream
negotiate_stream ws_codec offer = elim (audio_media offer.media_descriptions) [
  | none ↦ err no_audio_media
  | some m ↦ conclude m (choose ws_codec m)
]
