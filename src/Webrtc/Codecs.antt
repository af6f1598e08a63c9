-- ===== src/Webrtc/Codecs.antt =====
-- internal/webrtc/manager.go and codec.go: the codecs of a call, and what its client gets.
use tele_portal.Audio.Codec.{decode_l16be_to_l16le, l16, opus, unnamed}
use tele_portal.Audio.G711.Tables.{Tables}
use tele_portal.Call.Processor.{
  Media, QueuedMessage, RtpPacket, decode, is_dtmf_packet, is_recording, process_packet, put_buffer,
  transcoding_required,
}
use tele_portal.Call.Processor.Client.{process_all-take}
use tele_portal.Call.Processor.Delivery.{decoded_message, process_all, wanted, wanted_all}
use tele_portal.Common.{
  Bool, Bool-cases, List, Option, [], ap, ap₂, arith, false, if◌then◌else◌, inl, inr, none, refl,
  some, take, true, ℕ, ◌++◌, ◌==◌, ◌||◌, ◌∙◌, ◌∷◌, ◌≡◌, ◌⊎◌,
}
use tele_portal.Common.Text.{Text, codes, same_text}
use tele_portal.Webrtc.{
  CodecParameters, bridge_media, contains, format_of, new_media_engine, payload_type_of,
  stream_info,
}

unfoldable pub registered : ℕ → List CodecParameters → Option CodecParameters
registered n [] = none
registered n (c ∷ cs) =
    let rest = registered n cs in if c.registered_type == n then some c else rest

-- For every offer, the payload type of the packets to the peer is registered with the media
-- engine, with the clock rate and the MIME type that the local track is made with.
pub payload_type_of-registered :
    (sdp : Text)
    → (c : CodecParameters) × (registered (payload_type_of (format_of sdp)) new_media_engine
        ≡ some c)
      × (c.clock_rate ≡ (format_of sdp).rate)
      × (c.mime_type ≡ (format_of sdp).mime)
unfolding registered payload_type_of format_of same_text
payload_type_of-registered sdp = elim (Bool-cases (contains (codes "L16/16000") sdp)) [
  | inl e ↦ rw e (_, refl, refl, refl)
  | inr e ↦ elim (Bool-cases (contains (codes "L16/8000") sdp)) [
    | inl f ↦ rw (e, f) (_, refl, refl, refl)
    | inr f ↦ rw (e, f) (_, refl, refl, refl)
  ]
]

-- A bridge for Opus with no codec of the WebSocket and no recorder.
record IsSilent (m : Media) : Type 0 where
  pub is_opus : m.stream.codec.name ≡ opus
  pub no_ws_codec : m.ws_codec ≡ unnamed
  pub no_dtmf : m.stream.dtmf_payload_type ≡ 0
  pub no_recorder : m.recorder ≡ none

process_packet-silent :
    (t : Tables) (listening : Bool) (p : RtpPacket) (m : Media)
    → IsSilent m
    → process_packet t listening p m ≡ put_buffer m
unfolding process_packet is_dtmf_packet transcoding_required decode
process_packet-silent t true p m v = simp (
  v.is_opus, v.no_ws_codec, v.no_dtmf, v.no_recorder, process_packet, is_dtmf_packet,
  transcoding_required, decode,
)
process_packet-silent t false p m v = simp (
  v.is_opus, v.no_ws_codec, v.no_dtmf, v.no_recorder, process_packet, is_dtmf_packet,
  transcoding_required, decode,
)

process_all-silent :
    (t : Tables) (ps : List (Bool × RtpPacket)) (m : Media)
    → IsSilent m
    → (process_all t ps m).send ≡ m.send
unfolding process_all
process_all-silent t [] m v = refl
process_all-silent t ((listening, p) ∷ ps) m v =
    ap (λ (x : Media). (process_all t ps x).send) (process_packet-silent t listening p m v)
    ∙ process_all-silent t ps (put_buffer m) (record {
      is_opus = v.is_opus;
      no_ws_codec = v.no_ws_codec;
      no_dtmf = v.no_dtmf;
      no_recorder = v.no_recorder;
    })

-- The text message that `AddClient` puts into the channel of a new client; its bytes are the JSON of
-- `Call.Bridge.metadata`, which the library encoding/json makes.
abbrev pub metadata_message : List ℕ → QueuedMessage
metadata_message json = record { is_binary = false; payload = json }

-- The bridge once a client has joined: the metadata are in its channel.
abbrev pub joined : List ℕ → Text → Media
joined json sdp = record (bridge_media sdp) { has_client = true; send = metadata_message json ∷ [] }

-- The messages of big-endian L16 packets, in their order: those that are heard and can be decoded.
unfoldable pub l16_messages : List (Bool × RtpPacket) → List QueuedMessage
unfolding decode_l16be_to_l16le
l16_messages [] = []
l16_messages ((listening, p) ∷ ps) =
    (if listening then decoded_message true p (decode_l16be_to_l16le p.payload) else [])
    ++ l16_messages ps

or_true : (b : Bool) → (b || true) ≡ true
or_true true = refl
or_true false = refl

wanted-l16 :
    (t : Tables) (listening : Bool) (p : RtpPacket) (m : Media)
    → m.stream.codec.name ≡ l16
    → m.ws_codec ≡ unnamed
    → m.stream.dtmf_payload_type ≡ 0
    → wanted t listening p m
      ≡ (if listening then decoded_message true p (decode_l16be_to_l16le p.payload) else [])
unfolding wanted is_dtmf_packet transcoding_required decode
wanted-l16 t true p m c w d =
    simp (c, w, d, wanted, is_dtmf_packet, transcoding_required, decode, or_true (is_recording m))
wanted-l16 t false p m c w d = simp (c, w, d, wanted, is_dtmf_packet, transcoding_required, decode)

wanted_all-l16 :
    (t : Tables) (ps : List (Bool × RtpPacket)) (m : Media)
    → m.stream.codec.name ≡ l16
    → m.ws_codec ≡ unnamed
    → m.stream.dtmf_payload_type ≡ 0
    → wanted_all t ps m ≡ l16_messages ps
unfolding wanted_all l16_messages
wanted_all-l16 t [] m c w d = refl
wanted_all-l16 t ((listening, p) ∷ ps) m c w d =
    ap₂ ◌++◌ (wanted-l16 t listening p m c w d) (wanted_all-l16 t ps m c w d)

-- Whether the offer names one of the two rates of L16.
unfoldable pub names_l16 : Text → Bool
unfolding contains
names_l16 sdp = contains (codes "L16/16000") sdp || contains (codes "L16/8000") sdp

codec-joined :
    (json : List ℕ) (sdp : Text)
    → ((names_l16 sdp ≡ true) × ((joined json sdp).stream.codec.name ≡ l16))
      ⊎ ((names_l16 sdp ≡ false) × ((joined json sdp).stream.codec.name ≡ opus))
unfolding names_l16 bridge_media stream_info format_of same_text
codec-joined json sdp = elim (Bool-cases (contains (codes "L16/16000") sdp)) [
  | inl e ↦ inl (rw e (refl, refl))
  | inr e ↦ elim (Bool-cases (contains (codes "L16/8000") sdp)) [
    | inl f ↦ inl (rw (e, f) (refl, refl))
    | inr f ↦ inr (rw (e, f) (refl, refl))
  ]
]

-- While the client of a WebRTC call takes no message, its channel has the following, the metadata
-- message that it got when it joined first. If the offer names L16/16000 or L16/8000: the packets
-- that were heard, decoded to little-endian samples, in their order, up to 200 messages with the
-- metadata. Otherwise only the metadata, whatever packets arrive.
pub bridge_media-heard :
    (t : Tables) (ps : List (Bool × RtpPacket)) (json : List ℕ) (sdp : Text)
    → ((names_l16 sdp ≡ true)
        × ((process_all t ps (joined json sdp)).send
            ≡ take 200 (metadata_message json ∷ l16_messages ps)))
      ⊎ ((names_l16 sdp ≡ false)
          × ((process_all t ps (joined json sdp)).send ≡ metadata_message json ∷ []))
unfolding bridge_media stream_info
bridge_media-heard t ps json sdp = elim (codec-joined json sdp) [
  | inl (e, c) ↦ inl (
    e,
    process_all-take t ps (joined json sdp) refl (omega arith)
        ∙ ap (λ ms. take 200 (metadata_message json ∷ ms))
            (wanted_all-l16 t ps (joined json sdp) c refl refl),
  )
  | inr (e, c) ↦ inr (
    e,
    process_all-silent t ps (joined json sdp)
        (record { is_opus = c; no_ws_codec = refl; no_dtmf = refl; no_recorder = refl }),
  )
]
