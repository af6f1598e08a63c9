-- ===== src/Audio/Codec.antt =====
-- internal/audio/codec.go and encoder.go: codecs and the conversions between payloads. A slice is
-- an option of its bytes, `none` for nil.
pub mod RoundTrip
use tele_portal.Audio.G711.Tables.{Tables}
use tele_portal.Common.{
  Bool, List, Option, [], false, if◌then◌else◌, length, none, not, some, true, ℕ, ◌%◌, ◌*◌, ◌/◌,
  ◌==◌, ◌||◌, ◌∷◌,
}
use tele_portal.Common.Result.{Result, err, ok}
use tele_portal.Common.Words.{bit_or, u16, u32}

-- `CodecName`, and the names that the configuration accepts; `unnamed` is the empty string, the
-- name in a zero `Codec`.
pub data CodecName : Type 0 where
  pcmu pcma l16 opus pass unnamed : CodecName

pub CodecName-discrete : Discrete CodecName
CodecName-discrete = hlevel

-- `==` on names.
abbrev pub same_name : CodecName → CodecName → Bool
same_name pcmu pcmu = true
same_name pcma pcma = true
same_name l16 l16 = true
same_name opus opus = true
same_name pass pass = true
same_name unnamed unnamed = true
same_name _ _ = false

pub record Codec : Type 0 where
  pub name : CodecName
  pub bytes_per_sample : ℕ
  pub sample_rate : ℕ
  pub channels : ℕ
  pub payload_type : ℕ
  pub is_big_endian : Bool
  pub is_signed : Bool

pub record Stream : Type 0 where
  pub codec : Codec
  pub ptime : ℕ
  pub dtmf_payload_type : ℕ

unfoldable pub packet_time_in_bytes : Stream → ℕ
packet_time_in_bytes s =
    let total_samples = s.codec.sample_rate * s.ptime / 1000 in
    total_samples * s.codec.bytes_per_sample * s.codec.channels

unfoldable pub samples_per_packet : Stream → ℕ
samples_per_packet s = u32 (s.codec.sample_rate * s.ptime / 1000)

pub data CodecError : Type 0 where
  invalid_sample_rate invalid_channels nil_slice odd_length not_implemented unsupported : CodecError

unfoldable pub is_valid_sample_rate : ℕ → Bool
is_valid_sample_rate rate =
    rate == 8000
    || rate == 16000
    || rate == 24000
    || rate == 32000
    || rate == 44100
    || rate == 48000

unfoldable pub is_valid_channels : ℕ → Bool
is_valid_channels channels = channels == 1 || channels == 2

unfoldable pub new_codec_g711_mu_law : Codec
new_codec_g711_mu_law = record {
  name = pcmu;
  bytes_per_sample = 1;
  sample_rate = 8000;
  channels = 1;
  payload_type = 0;
  is_big_endian = false;
  is_signed = false;
}

unfoldable pub new_codec_g711_a_law : Codec
new_codec_g711_a_law = record {
  name = pcma;
  bytes_per_sample = 1;
  sample_rate = 8000;
  channels = 1;
  payload_type = 8;
  is_big_endian = false;
  is_signed = false;
}

unfoldable pub new_codec_l16 : ℕ → ℕ → ℕ → Bool → Bool → Result CodecError Codec
unfolding is_valid_sample_rate is_valid_channels
new_codec_l16 payload_type sample_rate channels is_big_endian is_signed =
    if not (is_valid_sample_rate sample_rate)
    then err invalid_sample_rate
    else if not (is_valid_channels channels)
    then err invalid_channels
    else ok (record {
      name = l16;
      bytes_per_sample = 2;
      sample_rate = sample_rate;
      channels = channels;
      payload_type = payload_type;
      is_big_endian = is_big_endian;
      is_signed = is_signed;
    })

unfoldable pub new_codec_opus : ℕ → ℕ → ℕ → Result CodecError Codec
unfolding is_valid_sample_rate is_valid_channels
new_codec_opus payload_type sample_rate channels =
    if not (is_valid_sample_rate sample_rate)
    then err invalid_sample_rate
    else if not (is_valid_channels channels)
    then err invalid_channels
    else ok (record {
      name = opus;
      bytes_per_sample = 2;
      sample_rate = sample_rate;
      channels = channels;
      payload_type = payload_type;
      is_big_endian = false;
      is_signed = true;
    })

-- The loop of a decoder: one sample of two bytes, low byte first, for each byte.
unfoldable pub decode_loop : (ℕ → ℕ) → List ℕ → List ℕ
decode_loop table [] = []
decode_loop table (b ∷ bs) = table b % 256 ∷ table b / 256 % 256 ∷ decode_loop table bs

unfoldable pub decode_pcmu_to_l16 : Tables → Option (List ℕ) → Result CodecError (List ℕ)
unfolding decode_loop
decode_pcmu_to_l16 t none = err nil_slice
decode_pcmu_to_l16 t (some payload) = ok (decode_loop t.mu_law_to_pcm payload)

unfoldable pub decode_pcma_to_l16 : Tables → Option (List ℕ) → Result CodecError (List ℕ)
unfolding decode_loop
decode_pcma_to_l16 t none = err nil_slice
decode_pcma_to_l16 t (some payload) = ok (decode_loop t.a_law_to_pcm payload)

-- The loop of an encoder over pairs of bytes; `int16(lo) | int16(hi)<<8` is the pattern
-- `lo | hi * 256`. A last single byte is not reached: the length is even.
unfoldable pub encode_loop : (ℕ → ℕ) → List ℕ → List ℕ
encode_loop table [] = []
encode_loop table (lo ∷ []) = []
encode_loop table (lo ∷ hi ∷ bs) = table (bit_or lo (u16 (hi * 256))) ∷ encode_loop table bs

unfoldable pub encode_l16_to_pcmu : Tables → List ℕ → Result CodecError (List ℕ)
unfolding encode_loop
encode_l16_to_pcmu t payload =
    if not (length payload % 2 == 0)
    then err odd_length
    else ok (encode_loop t.pcm_to_mu_law payload)

unfoldable pub encode_l16_to_pcma : Tables → List ℕ → Result CodecError (List ℕ)
unfolding encode_loop
encode_l16_to_pcma t payload =
    if not (length payload % 2 == 0)
    then err odd_length
    else ok (encode_loop t.pcm_to_a_law payload)

-- The loop that swaps the two bytes of each sample.
unfoldable pub swap_loop : List ℕ → List ℕ
swap_loop [] = []
swap_loop (b ∷ []) = []
swap_loop (hi ∷ lo ∷ bs) = lo ∷ hi ∷ swap_loop bs

unfoldable pub decode_l16be_to_l16le : Option (List ℕ) → Result CodecError (List ℕ)
unfolding swap_loop
decode_l16be_to_l16le none = err nil_slice
decode_l16be_to_l16le (some input) =
    if not (length input % 2 == 0) then err odd_length else ok (swap_loop input)

unfoldable pub decode_l16le_to_l16be : Option (List ℕ) → Result CodecError (List ℕ)
unfolding decode_l16be_to_l16le
decode_l16le_to_l16be input = decode_l16be_to_l16le input
