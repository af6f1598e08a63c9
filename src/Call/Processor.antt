-- ===== src/Call/Processor.antt =====
-- internal/call/audio_bridge.go: the media of a call between the jitter buffer, the recorder, the
-- client and the SIP side, with the buffers that are taken from the pool and put back. A packet is
-- handled as one step; whether it had a client is what `HasListeners` said before.
pub mod Buffers
pub mod Conservation
pub mod Delivery
pub mod Order
pub mod Client
pub mod Talk
use tele_portal.Audio.Codec.{
  CodecError, CodecName, Stream, decode_l16be_to_l16le, decode_pcma_to_l16, decode_pcmu_to_l16, l16,
  not_implemented, opus, pass, pcma, pcmu, same_name, unnamed, unsupported,
}
use tele_portal.Audio.G711.Tables.{Tables}
use tele_portal.Common.{
  Bool, List, Option, [], false, if◌then◌else◌, leb, length, none, not, some, suc, true, ℕ, ◌&&◌,
  ◌++◌, ◌==◌, ◌||◌, ◌∷◌,
}
use tele_portal.Common.Result.{Result, err, ok}

-- A message in the channel of the client.
pub record QueuedMessage : Type 0 where
  pub is_binary : Bool
  pub payload : List ℕ

-- The channels of the recorder; `stops` is whether a `select` of a push takes `ctx.Done()`.
pub record RecorderChannels : Type 0 where
  pub left_ch : List (List ℕ)
  pub right_ch : List (List ℕ)
  pub stops : Bool

-- `send` is the channel of the client, `output` that of `SetAudioOutput`; `taken` and `returned`
-- count the calls of `GetBuffer` and `PutBuffer`.
pub record Media : Type 0 where
  pub ws_codec : CodecName
  pub stream : Stream
  pub has_client : Bool
  pub send : List QueuedMessage
  pub recorder : Option RecorderChannels
  pub output : Option (List (List ℕ))
  pub taken : ℕ
  pub returned : ℕ

-- An `RTPPacket`: the payload, nil or not, and the type of the raw packet, if it is there.
pub record RtpPacket : Type 0 where
  pub payload : Option (List ℕ)
  pub payload_type : Option ℕ

abbrev pub bytes_of : Option (List ℕ) → List ℕ
bytes_of none = []
bytes_of (some payload) = payload

abbrev pub get_buffer : Media → Media
get_buffer m = record m { taken = suc m.taken }

abbrev pub put_buffer : Media → Media
put_buffer m = record m { returned = suc m.returned }

abbrev pub put_left : List ℕ → RecorderChannels → RecorderChannels
put_left samples r = record r { left_ch = r.left_ch ++ samples ∷ [] }

abbrev pub put_right : List ℕ → RecorderChannels → RecorderChannels
put_right samples r = record r { right_ch = r.right_ch ++ samples ∷ [] }

-- `PushLeft`: a copy goes into the channel, or back to the pool.
unfoldable pub push_left : List ℕ → Media → Media
push_left samples m = elim m.recorder [
  | none ↦ m
  | some r ↦
      if length samples == 0
      then m
      else if r.stops || leb 100 (length r.left_ch)
      then put_buffer (get_buffer m)
      else record (get_buffer m) { recorder = some (put_left samples r) }
]

unfoldable pub push_right : List ℕ → Media → Media
push_right samples m = elim m.recorder [
  | none ↦ m
  | some r ↦
      if length samples == 0
      then m
      else if r.stops || leb 100 (length r.right_ch)
      then put_buffer (get_buffer m)
      else record (get_buffer m) { recorder = some (put_right samples r) }
]

-- `broadcast`: the payload of a binary message that is not sent goes back to the pool.
unfoldable pub broadcast : Bool → List ℕ → Media → Media
broadcast is_binary payload m =
    if not m.has_client || leb 200 (length m.send)
    then (if is_binary then put_buffer m else m)
    else record m { send = m.send ++ record { is_binary = is_binary; payload = payload } ∷ [] }

unfoldable pub transcoding_required : Media → Bool
transcoding_required m =
    not (same_name m.ws_codec pass) && not (same_name m.ws_codec m.stream.codec.name)

-- The `switch` that decodes to little-endian samples.
unfoldable pub decode : Tables → CodecName → Option (List ℕ) → Result CodecError (List ℕ)
unfolding decode_l16be_to_l16le decode_pcmu_to_l16 decode_pcma_to_l16
decode t l16 payload = decode_l16be_to_l16le payload
decode t pcmu payload = decode_pcmu_to_l16 t payload
decode t pcma payload = decode_pcma_to_l16 t payload
decode t opus payload = err not_implemented
decode t pass payload = err unsupported
decode t unnamed payload = err unsupported

unfoldable pub is_dtmf_packet : Media → RtpPacket → Bool
is_dtmf_packet m p =
    not (m.stream.dtmf_payload_type == 0)
    && elim p.payload_type [ none ↦ false | some n ↦ n == m.stream.dtmf_payload_type ]

abbrev pub is_present : Option RecorderChannels → Bool
is_present none = false
is_present (some r) = true

abbrev pub is_recording : Media → Bool
is_recording m = is_present m.recorder

-- What is sent to the client, if `HasListeners` said that there is one.
unfoldable pub send_audio : Bool → Option (List ℕ) → RtpPacket → Media → Media
unfolding broadcast transcoding_required
send_audio listening decoded p m =
    let transcoding = transcoding_required m in
    if listening
    then (if transcoding
        then broadcast true (bytes_of decoded) m
        else broadcast true (bytes_of p.payload) (get_buffer m))
    else elim decoded [ none ↦ m | some samples ↦ if transcoding then put_buffer m else m ]

-- From the decoded samples, if any, to the end of the round of the loop.
unfoldable pub deliver : Bool → Option (List ℕ) → RtpPacket → Media → Media
unfolding push_left send_audio
deliver listening decoded p m = put_buffer (
    send_audio listening decoded p (elim decoded [ none ↦ m | some samples ↦ push_left samples m ]))

-- A round of the loop of `runAudioProcessor`, for a packet.
unfoldable pub process_packet : Tables → Bool → RtpPacket → Media → Media
unfolding is_dtmf_packet transcoding_required decode deliver
process_packet t listening p m =
    if is_dtmf_packet m p
    then put_buffer m
    else if not listening && not (is_recording m)
    then put_buffer m
    else if is_recording m || transcoding_required m
    then elim (decode t m.stream.codec.name p.payload) [
      | err e ↦ put_buffer m
      | ok samples ↦ deliver listening (some samples) p (get_buffer m)
    ]
    else deliver listening none p m

-- The codec that the client sends.
abbrev pub client_codec : Media → CodecName
client_codec m = if same_name m.ws_codec pass then m.stream.codec.name else m.ws_codec

-- What `ReadPump` does with a decoded copy for the recorder: it pushes it and puts it back, unless it
-- is empty.
unfoldable pub push_copy : Result CodecError (List ℕ) → Media → Media
unfolding push_right
push_copy (err e) m = m
push_copy (ok samples) m =
    if length samples == 0 then get_buffer m else put_buffer (push_right samples (get_buffer m))

-- What goes to the recorder of a message of the client, by the codec that it sends.
unfoldable pub record_as : CodecName → Tables → List ℕ → Media → Media
unfolding push_copy push_right decode_pcmu_to_l16 decode_pcma_to_l16 decode_l16be_to_l16le
record_as pcmu t payload m = push_copy (decode_pcmu_to_l16 t (some payload)) m
record_as pcma t payload m = push_copy (decode_pcma_to_l16 t (some payload)) m
record_as l16 t payload m =
    if same_name m.ws_codec pass && m.stream.codec.is_big_endian
    then push_copy (decode_l16be_to_l16le (some payload)) m
    else push_right payload m
record_as opus t payload m = push_right payload m
record_as pass t payload m = push_right payload m
record_as unnamed t payload m = push_right payload m

-- The message goes to the SIP side, or its buffer back to the pool.
unfoldable pub forward : List ℕ → Media → Media
forward payload m = elim m.output [
  | none ↦ put_buffer m
  | some queue ↦
      if leb 100 (length queue)
      then put_buffer m
      else record m { output = some (queue ++ payload ∷ []) }
]

-- A binary message of the client, in a buffer of the pool: the recorder, then the SIP side.
unfoldable pub on_binary : Tables → List ℕ → Media → Media
unfolding record_as forward
on_binary t payload m =
    forward payload
      (if is_recording m then record_as (client_codec m) t payload (get_buffer m) else get_buffer m)
