-- ===== src/Rtp/Writer.antt =====
-- internal/rtp/rtp_handler.go: `StartWriter`, the loop that sends audio and DTMF packets. A round
-- of the loop is a step on its variables. Writing to the network is listed in `sent`, latest first;
-- its errors are only logged. The first sequence number, timestamp and SSRC are random in the
-- source, and parameters here.
pub mod Sequence
pub mod Runs
pub mod Tick
use mathlib.Core.Option
use tele_portal.Audio.Codec.{
  Codec, CodecError, CodecName, Stream, decode_l16le_to_l16be, encode_l16_to_pcma,
  encode_l16_to_pcmu, l16, not_implemented, opus, pass, pcma, pcmu, same_name, samples_per_packet,
  unnamed, unsupported,
}
use tele_portal.Audio.G711.Tables.{Tables}
use tele_portal.Audio.Packetizer.{start}
use tele_portal.Audio.Packetizer.Buffer.{Ring, accepted, capacity, empty_ring, read, write}
use tele_portal.Client.Session.{bytes_per_tick}
use tele_portal.Common.{
  Bool, List, Option, [], if◌then◌else◌, leb, ltb, map, min, none, not, replicate, some, ℕ, ◌&&◌,
  ◌*◌, ◌++◌, ◌+◌, ◌-◌, ◌/◌, ◌==◌, ◌||◌, ◌∷◌,
}
use tele_portal.Common.Int.{ℤ}
use tele_portal.Common.Result.{Result, err, ok}
use tele_portal.Common.Text.{Text}
use tele_portal.Common.Words.{u16, u32, u8}
use tele_portal.Rtp.Dtmf.{generate, new_dtmf_generator}

-- A packet, by the fields of its header that vary.
pub record Packet : Type 0 where
  pub payload_type : ℕ
  pub sequence : ℕ
  pub timestamp : ℕ
  pub payload : List ℕ

-- The bytes of a packet: version 2, no marker, and the numbers with the high byte first.
unfoldable pub wire : ℕ → Packet → List ℕ
wire ssrc p =
    128
    ∷ p.payload_type
    ∷ u8 (p.sequence / 256)
    ∷ u8 p.sequence
    ∷ u8 (p.timestamp / 16777216)
    ∷ u8 (p.timestamp / 65536)
    ∷ u8 (p.timestamp / 256)
    ∷ u8 p.timestamp
    ∷ u8 (ssrc / 16777216)
    ∷ u8 (ssrc / 65536)
    ∷ u8 (ssrc / 256)
    ∷ u8 ssrc
    ∷ p.payload

-- The switch at the end of `encodeOutboundPayload`.
abbrev pub transcode : Tables → List ℕ → Codec → Result CodecError (List ℕ)
transcode t payload codec = elim codec.name [
  | pcmu ↦ encode_l16_to_pcmu t payload
  | pcma ↦ encode_l16_to_pcma t payload
  | l16 ↦ if codec.is_big_endian then decode_l16le_to_l16be (some payload) else ok payload
  | opus ↦ err not_implemented
  | pass ↦ err unsupported
  | unnamed ↦ err unsupported
]

unfoldable pub encode_outbound_payload :
    Tables → List ℕ → CodecName → CodecName → Stream → Result CodecError (List ℕ)
encode_outbound_payload t payload actual ws_codec info =
    if same_name actual info.codec.name
    then (if same_name info.codec.name l16
          && not (same_name ws_codec pass)
          && info.codec.is_big_endian
        then decode_l16le_to_l16be (some payload)
        else ok payload)
    else transcode t payload info.codec

-- The values that `StartWriter` computes before its loop.
pub record WriterConfig : Type 0 where
  pub info : Stream
  pub ws_codec : CodecName
  pub tables : Tables

unfoldable pub actual_ws_codec : WriterConfig → CodecName
actual_ws_codec cfg = if same_name cfg.ws_codec pass then cfg.info.codec.name else cfg.ws_codec

unfoldable pub bytes_per_sample : CodecName → ℕ
bytes_per_sample actual = if same_name actual pcmu || same_name actual pcma then 1 else 2

-- A zero stands for the default.
abbrev pub or_else : ℕ → ℕ → ℕ
or_else n default = if n == 0 then default else n

-- The product is that of ℕ: an `int` of 64 bits would wrap for a packet time near 2^63.
unfoldable pub bytes_per_tick_of : WriterConfig → ℕ
unfolding actual_ws_codec bytes_per_sample
bytes_per_tick_of cfg =
    let width = bytes_per_sample (actual_ws_codec cfg) in
    let rate = or_else cfg.info.codec.sample_rate 8000 in
    let bytes =
      rate * or_else cfg.info.ptime 20 / 1000 * width * or_else cfg.info.codec.channels 1 in
    if bytes == 0 then samples_per_packet cfg.info * width else bytes

-- The variables of the loop.
pub record Writer : Type 0 where
  pub ring : Ring
  pub sequence : ℕ
  pub timestamp : ℕ
  pub pending_dtmf : List (List ℕ)
  pub dtmf_timestamp : ℕ
  pub sent : List Packet

unfoldable pub start_writer : WriterConfig → ℕ → ℕ → Writer
start_writer cfg sequence timestamp = record {
  ring = empty_ring (bytes_per_tick_of cfg * 10);
  sequence = sequence;
  timestamp = timestamp;
  pending_dtmf = [];
  dtmf_timestamp = 0;
  sent = [];
}

abbrev pub advance : WriterConfig → ℕ → ℕ
advance cfg timestamp = u32 (timestamp + samples_per_packet cfg.info)

pub record DtmfRequest : Type 0 where
  pub digit : Text
  pub duration : ℤ

-- A request replaces what is pending. `none`: the generator does not end within the fuel.
unfoldable pub on_dtmf : ℕ → WriterConfig → DtmfRequest → Writer → Option Writer
on_dtmf fuel cfg req w =
    if cfg.info.dtmf_payload_type == 0
    then some w
    else Option.map
        (λ payloads. record w {
          pending_dtmf = payloads;
          timestamp = advance cfg w.timestamp;
          dtmf_timestamp = advance cfg w.timestamp;
        })
        (generate fuel (new_dtmf_generator cfg.info.codec.sample_rate cfg.info.ptime) req.digit
          req.duration)

-- A tick with a DTMF packet pending sends it, and drops a tick of audio if there is one.
unfoldable pub send_dtmf_packet : ℕ → WriterConfig → List ℕ → List (List ℕ) → Writer → Writer
send_dtmf_packet bytes_per_tick cfg p more w = record w {
  sequence = u16 (w.sequence + 1);
  timestamp = advance cfg w.timestamp;
  pending_dtmf = more;
  ring = if leb bytes_per_tick w.ring.count then (read bytes_per_tick w.ring).1 else w.ring;
  sent =
      record {
        payload_type = cfg.info.dtmf_payload_type;
        sequence = u16 (w.sequence + 1);
        timestamp = w.dtmf_timestamp;
        payload = p;
      }
      ∷ w.sent;
}

-- The audio of a tick: what the ring has of it, and zeros for the rest.
abbrev pub tick_payload : ℕ → Writer → List ℕ
tick_payload bytes_per_tick w =
    (read (min bytes_per_tick w.ring.count) w.ring).0 ++ replicate (bytes_per_tick - w.ring.count) 0

abbrev pub after_audio : ℕ → Writer → Writer
after_audio bytes_per_tick w = record w { ring = (read (min bytes_per_tick w.ring.count) w.ring).1 }

-- A tick without DTMF: a payload that cannot be encoded is dropped.
unfoldable pub send_audio_packet : ℕ → WriterConfig → Writer → Writer
send_audio_packet bytes_per_tick cfg w =
    let next = after_audio bytes_per_tick w in
    elim (encode_outbound_payload cfg.tables (tick_payload bytes_per_tick w) (actual_ws_codec cfg)
      cfg.ws_codec cfg.info) [
        | err e ↦ next
        | ok payload ↦ record next {
          sequence = u16 (w.sequence + 1);
          timestamp = advance cfg w.timestamp;
          sent =
              record {
                payload_type = cfg.info.codec.payload_type;
                sequence = u16 (w.sequence + 1);
                timestamp = advance cfg w.timestamp;
                payload = payload;
              }
              ∷ w.sent;
        }
      ]

unfoldable pub writer_tick : ℕ → WriterConfig → Writer → Writer
writer_tick bytes_per_tick cfg w = elim w.pending_dtmf [
  | p ∷ more ↦ send_dtmf_packet bytes_per_tick cfg p more w
  | [] ↦ if w.ring.count == 0 then w else send_audio_packet bytes_per_tick cfg w
]

-- What one `select` of the loop finds ready; a closed channel is taken out of the `select`.
pub data WriterEvent : Type 0 where
  requested : DtmfRequest → WriterEvent
  audio : List ℕ → WriterEvent
  ticked source_closed : WriterEvent

-- What panics in Go where `n` bytes are copied into a ring or out of it, from the index `start` on:
-- a slice `[start:start+part]` or `[0:n-part]` that ends after the ring, or a remainder by 0.
unfoldable pub copy_panics : ℕ → ℕ → Ring → Bool
copy_panics n start r =
    ltb (capacity r) start || (ltb (capacity r) (n - min (capacity r - start) n) || capacity r == 0)

unfoldable pub write_panics : List ℕ → Ring → Bool
unfolding copy_panics
write_panics bytes r = ltb 0 (accepted bytes r) && copy_panics (accepted bytes r) r.tail r

-- A DTMF packet drops a tick of audio without a copy.
unfoldable pub tick_panics : ℕ → Writer → Bool
unfolding copy_panics
tick_panics bytes_per_tick w = elim w.pending_dtmf [
  | p ∷ more ↦ leb bytes_per_tick w.ring.count && capacity w.ring == 0
  | [] ↦ not (w.ring.count == 0) && copy_panics (min bytes_per_tick w.ring.count) w.ring.head w.ring
]

-- `none`: the round panics, or the generator of a request does not end within the fuel.
unfoldable pub writer_step : ℕ → WriterConfig → WriterEvent → Writer → Option Writer
writer_step fuel cfg (requested req) w = on_dtmf fuel cfg req w
writer_step fuel cfg (audio bytes) w =
    if write_panics bytes w.ring then none else some (record w { ring = write bytes w.ring })
writer_step fuel cfg ticked w =
    if tick_panics (bytes_per_tick_of cfg) w
    then none
    else some (writer_tick (bytes_per_tick_of cfg) cfg w)
writer_step fuel cfg source_closed w = some w

unfoldable pub writer_run : ℕ → WriterConfig → List WriterEvent → Writer → Option Writer
writer_run fuel cfg [] w = some w
writer_run fuel cfg (e ∷ es) w = elim (writer_step fuel cfg e w) [
  | none ↦ none
  | some next ↦ writer_run fuel cfg es next
]
