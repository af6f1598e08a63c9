-- ===== src/Audio/Ogg.antt =====
-- internal/audio/ogg_writer.go: Opus packets in an Ogg stream, one packet on a page.
pub mod Reader
pub mod Pages
pub mod RoundTrip
pub mod Failure
use tele_portal.Common.{
  Bool, List, Option, [], false, if◌then◌else◌, leb, length, none, some, suc, take, true, zero, ℕ,
  ◌%◌, ◌++◌, ◌+◌, ◌-◌, ◌/◌, ◌∷◌,
}
use tele_portal.Common.Slices.{blit}
use tele_portal.Common.Words.{u32, u64, u8}

-- `PutUint16`, `PutUint32` and `PutUint64` for 2, 4 and 8 bytes.
unfoldable pub le_bytes : ℕ → ℕ → List ℕ
le_bytes zero n = []
le_bytes (suc k) n = n % 256 ∷ le_bytes k (n / 256)

-- The fields that the functions use; `output` is what the destination has stop_at so far.
pub record OggWriter : Type 0 where
  pub output : List ℕ
  pub granule_pos : ℕ
  pub packet_count : ℕ
  pub serial : ℕ
  pub page_sequence : ℕ
  pub header_written : Bool

-- A random serial number is an argument.
unfoldable pub new_ogg_writer : ℕ → OggWriter
new_ogg_writer serial = record {
  output = [];
  granule_pos = 0;
  packet_count = 0;
  serial = u32 serial;
  page_sequence = 0;
  header_written = false;
}

-- The segments of a packet of `l` bytes; the first number bounds the rounds of the loop.
unfoldable pub lacing : ℕ → ℕ → List ℕ
lacing zero l = u8 l ∷ []
lacing (suc fuel) l =
    let rest = lacing fuel (l - 255) in if leb 255 l then 255 ∷ rest else u8 l ∷ []

unfoldable pub segment_table : List (List ℕ) → List ℕ
unfolding lacing
segment_table [] = []
segment_table (p ∷ ps) = lacing (length p) (length p) ++ segment_table ps

unfoldable pub concat_packets : List (List ℕ) → List ℕ
concat_packets [] = []
concat_packets (p ∷ ps) = p ++ concat_packets ps

-- The header of a page before its checksum is known: "OggS", then the fields.
unfoldable pub page_header : OggWriter → ℕ → List ℕ → List ℕ
unfolding le_bytes
page_header w header_type segments =
    (79 ∷ 103 ∷ 103 ∷ 83 ∷ 0 ∷ header_type ∷ [])
    ++ le_bytes 8 w.granule_pos
    ++ le_bytes 4 w.serial
    ++ le_bytes 4 w.page_sequence
    ++ le_bytes 4 0
    ++ (u8 (length segments) ∷ segments)

abbrev pub first_flag : List ℕ → ℕ
first_flag [] = 0
first_flag (f ∷ fs) = f

-- The 19 bytes of "OpusHead".
unfoldable pub id_header : ℕ → ℕ → List ℕ
unfolding le_bytes
id_header sample_rate channels =
    (79 ∷ 112 ∷ 117 ∷ 115 ∷ 72 ∷ 101 ∷ 97 ∷ 100 ∷ 1 ∷ u8 channels ∷ [])
    ++ le_bytes 2 3840
    ++ le_bytes 4 (u32 sample_rate)
    ++ le_bytes 2 0
    ++ (0 ∷ [])

-- The bytes of "OpusTags", with the vendor "ConvoIntel".
unfoldable pub comment_header : List ℕ
unfolding le_bytes
comment_header =
    (79 ∷ 112 ∷ 117 ∷ 115 ∷ 84 ∷ 97 ∷ 103 ∷ 115 ∷ [])
    ++ le_bytes 4 10
    ++ (67 ∷ 111 ∷ 110 ∷ 118 ∷ 111 ∷ 73 ∷ 110 ∷ 116 ∷ 101 ∷ 108 ∷ [])
    ++ le_bytes 4 0

-- `checksum` is `Sum32` of the table of hash/crc32 for the bytes written to it. `stop_at` is the
-- destination: `none` when it takes all bytes, else how many it takes before it reports an error.
module _ (checksum : List ℕ → ℕ) (stop_at : List ℕ → List ℕ → Option ℕ) where
  abbrev pub place : List ℕ → List ℕ → Option ℕ → List ℕ × Bool
  place out p none = (out ++ p, true)
  place out p (some n) = (out ++ take n p, false)

  -- `w.output.Write(p)`: the output after it, and whether there was no error.
  unfoldable pub put : List ℕ → List ℕ → List ℕ × Bool
  put out p = place out p (stop_at out p)

  unfoldable pub put_all : List (List ℕ) → List ℕ × Bool → List ℕ × Bool
  unfolding put
  put_all [] s = s
  put_all (p ∷ ps) (out, true) = put_all ps (put out p)
  put_all (p ∷ ps) (out, false) = (out, false)

  unfoldable pub sealed_header : OggWriter → List ℕ → List (List ℕ) → List ℕ
  unfolding page_header segment_table le_bytes blit concat_packets
  sealed_header w flags packets =
      let header = page_header w (first_flag flags) (segment_table packets) in
      let sum = checksum (header ++ concat_packets packets) in blit 22 (le_bytes 4 (u32 sum)) header

  abbrev pub finish_page : OggWriter → List ℕ × Bool → OggWriter × Bool
  finish_page w (out, true) =
      (record w { output = out; page_sequence = u32 (w.page_sequence + 1) }, true)
  finish_page w (out, false) = (record w { output = out }, false)

  -- The writer after it, and whether it returned no error.
  unfoldable pub write_page : List ℕ → List (List ℕ) → OggWriter → OggWriter × Bool
  unfolding put_all sealed_header
  write_page flags packets w =
      finish_page w (put_all (sealed_header w flags packets ∷ packets) (w.output, true))

  unfoldable pub write_packet : List ℕ → ℕ → OggWriter → OggWriter × Bool
  unfolding write_page
  write_packet p samples w = write_page [] (p ∷ []) (record w {
    granule_pos = u64 (w.granule_pos + samples);
    packet_count = u64 (w.packet_count + 1);
  })

  abbrev pub mark_written : OggWriter × Bool → OggWriter × Bool
  mark_written (w, true) = (record w { header_written = true }, true)
  mark_written (w, false) = (w, false)

  abbrev pub write_comments : OggWriter × Bool → OggWriter × Bool
  unfolding write_page
  write_comments (w, true) = mark_written (write_page [] (comment_header ∷ []) w)
  write_comments (w, false) = (w, false)

  unfoldable pub write_opus_header : ℕ → ℕ → OggWriter → OggWriter × Bool
  unfolding write_page
  write_opus_header sample_rate channels w =
      if w.header_written
      then (w, true)
      else write_comments (write_page (2 ∷ []) (id_header sample_rate channels ∷ []) w)

  -- Packets with their numbers of samples, up to the first error.
  unfoldable pub write_stream : List (List ℕ × ℕ) → OggWriter × Bool → OggWriter × Bool
  unfolding write_packet
  write_stream [] s = s
  write_stream ((p, n) ∷ ps) (w, true) = write_stream ps (write_packet p n w)
  write_stream ((p, n) ∷ ps) (w, false) = (w, false)
