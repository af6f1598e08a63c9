-- ===== src/Audio/Wav.antt =====
-- internal/audio/wav_fast.go: the file of a recording. The file takes all that is written; what the
-- buffer holds counts as written, since `Close` flushes it before it seeks.
use tele_portal.Common.{
  List, [], arith, length, length-append, refl, ℕ, ◌%◌, ◌*◌, ◌++◌, ◌+◌, ◌/◌, ◌∷◌, ◌≡◌,
}
use tele_portal.Common.Slices.{blit}
use tele_portal.Common.Words.{u32}

abbrev pub le16 : ℕ → List ℕ
le16 n = n % 256 ∷ n / 256 % 256 ∷ []

abbrev pub le32 : ℕ → List ℕ
le32 n = n % 256 ∷ n / 256 % 256 ∷ n / 65536 % 256 ∷ n / 16777216 % 256 ∷ []

-- `writeWavHeader`: the 44 bytes, with "RIFF", "WAVE", "fmt " and "data" as their codes.
unfoldable pub wav_header : ℕ → ℕ → ℕ → List ℕ
wav_header sample_rate channels total_data_bytes =
    (82 ∷ 73 ∷ 70 ∷ 70 ∷ [])
    ++ le32 (36 + total_data_bytes)
    ++ (87 ∷ 65 ∷ 86 ∷ 69 ∷ [])
    ++ (102 ∷ 109 ∷ 116 ∷ 32 ∷ [])
    ++ le32 16
    ++ le16 1
    ++ le16 channels
    ++ le32 sample_rate
    ++ le32 (sample_rate * channels * 2)
    ++ le16 (channels * 2)
    ++ le16 16
    ++ (100 ∷ 97 ∷ 116 ∷ 97 ∷ [])
    ++ le32 total_data_bytes

-- `samples` is what was written after the header.
pub record FastWavWriter : Type 0 where
  pub header : List ℕ
  pub samples : List ℕ
  pub data_bytes : ℕ

unfoldable pub new_wav_writer : ℕ → FastWavWriter
unfolding wav_header
new_wav_writer sample_rate = record {
  header = wav_header sample_rate 2 0;
  samples = [];
  data_bytes = 0;
}

unfoldable pub write : List ℕ → FastWavWriter → FastWavWriter
write p w = record w { samples = w.samples ++ p; data_bytes = u32 (w.data_bytes + length p) }

-- `Close`: the bytes of the file after it.
unfoldable pub close : FastWavWriter → List ℕ
unfolding blit
close w =
    let file = w.header ++ w.samples in
    let sized = blit 4 (le32 (u32 (36 + w.data_bytes))) file in blit 40 (le32 w.data_bytes) sized

unfoldable pub write_all : List (List ℕ) → FastWavWriter → FastWavWriter
unfolding write
write_all [] w = w
write_all (p ∷ ps) w = write_all ps (write p w)

-- A writer of a sample rate, with what it has been given.
pub record IsWriter (sample_rate : ℕ) (w : FastWavWriter) : Type 0 where
  pub same_header : w.header ≡ wav_header sample_rate 2 0
  pub counted : w.data_bytes ≡ u32 (length w.samples)

pub new_wav_writer-IsWriter : (rate : ℕ) → IsWriter rate (new_wav_writer rate)
unfolding new_wav_writer
new_wav_writer-IsWriter rate = record { same_header = refl; counted = refl }

added_count : (a n m k : ℕ) → a ≡ u32 n → k ≡ n + m → u32 (a + m) ≡ u32 k
added_count a n m k e f = omega arith

pub write-IsWriter :
    (rate : ℕ) (p : List ℕ) (w : FastWavWriter) → IsWriter rate w → IsWriter rate (write p w)
unfolding write
write-IsWriter rate p w v = record {
  same_header = v.same_header;
  counted =
      added_count w.data_bytes (length w.samples) (length p) (length (w.samples ++ p)) v.counted
        (length-append w.samples p);
}

le32_cong :
    (m n : ℕ)
    → m % 4294967296 ≡ n % 4294967296
    → (m % 256 ≡ n % 256)
      × (m / 256 % 256 ≡ n / 256 % 256)
      × (m / 65536 % 256 ≡ n / 65536 % 256)
      × (m / 16777216 % 256 ≡ n / 16777216 % 256)
le32_cong m n e = omega arith

-- The file that `Close` leaves has the header that `writeWavHeader` would write for the number of
-- bytes of its data, and then the data; a number of 2^32 or more is taken modulo 2^32.
pub close-wav_header :
    (rate : ℕ) (w : FastWavWriter)
    → IsWriter rate w
    → close w ≡ wav_header rate 2 (length w.samples) ++ w.samples
unfolding close wav_header blit
close-wav_header rate w v =
    let total = length w.samples in
    let chunk = le32_cong (u32 (36 + w.data_bytes)) (36 + total) (omega (arith, v.counted)) in
    let last = le32_cong w.data_bytes total (omega (arith, v.counted)) in
    rw (v.same_header)
      (rw (chunk.0, chunk.1, chunk.2, chunk.3, last.0, last.1, last.2, last.3) refl)
