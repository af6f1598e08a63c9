-- ===== src/Audio/Ogg/Reader.antt =====
-- A reader of Ogg pages of one packet each, after RFC 3533: what a stream of the writer means. The
-- checksum is the one of the writer.
use tele_portal.Audio.Ogg.{le_bytes}
use tele_portal.Common.{
  List, Option, [], drop, if◌then◌else◌, leb, length, ltb, none, some, suc, take, zero, ℕ, ◌&&◌,
  ◌*◌, ◌++◌, ◌+◌, ◌==◌, ◌∷◌,
}
use tele_portal.Common.Slices.{blit, slice}
use tele_portal.Common.Text.{same_text}
use tele_portal.Common.Words.{u32}

unfoldable pub of_le : List ℕ → ℕ
of_le [] = 0
of_le (b ∷ bs) = b + 256 * of_le bs

pub record OggPage : Type 0 where
  pub header_type : ℕ
  pub granule : ℕ
  pub stream_serial : ℕ
  pub sequence : ℕ
  pub payload : List ℕ

unfoldable pub prepend_length : Option ℕ → Option ℕ
prepend_length none = none
prepend_length (some n) = some (255 + n)

-- The length of the one packet of a segment table: every segment but the last is full.
unfoldable pub packet_length : List ℕ → Option ℕ
unfolding prepend_length
packet_length [] = none
packet_length (x ∷ []) = if ltb x 255 then some x else none
packet_length (x ∷ y ∷ ys) =
    let rest = packet_length (y ∷ ys) in if x == 255 then prepend_length rest else none

abbrev pub field : ℕ → ℕ → List ℕ → ℕ
unfolding of_le
field i n bs = of_le (slice i n bs)

unfoldable pub read_body :
    (List ℕ → ℕ) → List ℕ → List ℕ → List ℕ → Option ℕ → Option (OggPage × List ℕ)
unfolding same_text blit le_bytes of_le
read_body checksum bs table after none = none
read_body checksum bs table after (some total) =
    let payload = take total after in
    let header = blit 22 (le_bytes 4 0) (take 27 bs ++ table) in
    if same_text (take 5 bs) (79 ∷ 103 ∷ 103 ∷ 83 ∷ 0 ∷ [])
      && leb total (length after)
      && (u32 (checksum (header ++ payload)) == field 22 4 bs)
    then some (
      record {
        header_type = field 5 1 bs;
        granule = field 6 8 bs;
        stream_serial = field 14 4 bs;
        sequence = field 18 4 bs;
        payload = payload;
      },
      drop total after,
    )
    else none

-- A page off the front of the bytes, and the bytes after it.
unfoldable pub read_page : (List ℕ → ℕ) → List ℕ → Option (OggPage × List ℕ)
unfolding read_body packet_length of_le
read_page checksum bs =
    let count = field 26 1 bs in
    let table = take count (drop 27 bs) in
    read_body checksum bs table (drop count (drop 27 bs)) (packet_length table)

unfoldable pub prepend_page : OggPage → Option (List OggPage) → Option (List OggPage)
prepend_page p none = none
prepend_page p (some ps) = some (p ∷ ps)

-- All pages; the number bounds how many.
unfoldable pub read_stream : (List ℕ → ℕ) → ℕ → List ℕ → Option (List OggPage)
unfolding prepend_page read_page
read_stream checksum n [] = some []
read_stream checksum zero (b ∷ bs) = none
read_stream checksum (suc n) (b ∷ bs) = elim (read_page checksum (b ∷ bs)) [
  | none ↦ none
  | some (p, rest) ↦ prepend_page p (read_stream checksum n rest)
]
