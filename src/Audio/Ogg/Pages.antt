-- ===== src/Audio/Ogg/Pages.antt =====
-- internal/audio/ogg_writer.go: the segments and the bytes of one page, and reading them back.
use mathlib.Core.List.{append-nil}
use tele_portal.Audio.Ogg.{
  OggWriter, concat_packets, first_flag, lacing, le_bytes, page_header, sealed_header,
  segment_table,
}
use tele_portal.Audio.Ogg.Reader.{
  OggPage, field, of_le, packet_length, prepend_length, read_body, read_page,
}
use tele_portal.Common.{
  ==_iff, List, Option, [], ap, arith, drop, inl, inr, le-or-lt, leb, length, length-append, refl,
  some, suc, sym, take, true, zero, ℕ, ◌++◌, ◌+◌, ◌-◌, ◌/◌, ◌<◌, ◌==◌, ◌^◌, ◌∙◌, ◌∷◌, ◌≡◌, ◌≤◌,
}
use tele_portal.Common.Maps.{some-none}
use tele_portal.Common.Slices.{blit}
use tele_portal.Common.Text.{same_text}
use tele_portal.Common.Words.{u32, u64, u8}

module _ {ℓ} {A : Type ℓ} where
  take-append_exact : (xs ys : List A) → take (length xs) (xs ++ ys) ≡ xs
  take-append_exact [] ys = refl
  take-append_exact (x ∷ xs) ys = ap (◌∷◌ x) (take-append_exact xs ys)

  drop-append_exact : (xs ys : List A) → drop (length xs) (xs ++ ys) ≡ ys
  drop-append_exact [] ys = refl
  drop-append_exact (x ∷ xs) ys = drop-append_exact xs ys

pub of_le-le_bytes : (k n : ℕ) → n < 256 ^ k → of_le (le_bytes k n) ≡ n
unfolding of_le le_bytes
of_le-le_bytes zero n h = omega arith
of_le-le_bytes (suc k) n h = omega (arith, of_le-le_bytes k (n / 256) (omega arith))

packet_length-full :
    (xs : List ℕ) (m : ℕ) → packet_length xs ≡ some m → packet_length (255 ∷ xs) ≡ some (255 + m)
unfolding packet_length prepend_length
packet_length-full [] m e = absurd (some-none (sym e))
packet_length-full (x ∷ xs) m e = rw e refl

last_segment : (l : ℕ) → l < 255 → packet_length (u8 l ∷ []) ≡ some l
unfolding packet_length
last_segment l h = ground arith

full_segment : (n l : ℕ) → 255 ≤ l → lacing (suc n) l ≡ 255 ∷ lacing n (l - 255)
unfolding lacing
full_segment n l h = ground arith

short_segment : (n l : ℕ) → l < 255 → lacing (suc n) l ≡ u8 l ∷ []
unfolding lacing
short_segment n l h = ground arith

pub packet_length-lacing : (n l : ℕ) → l ≤ n → packet_length (lacing n l) ≡ some l
unfolding lacing
packet_length-lacing zero l h = last_segment l (omega arith)
packet_length-lacing (suc n) l h = elim (le-or-lt 255 l) [
  | inl p ↦ rw (full_segment n l p) (
      packet_length-full (lacing n (l - 255)) (l - 255)
        (packet_length-lacing n (l - 255) (omega arith))
      ∙ ap some (omega arith))
  | inr q ↦ rw (short_segment n l q) (last_segment l q)
]

pub length-lacing : (n l : ℕ) → l ≤ n → length (lacing n l) ≡ suc (l / 255)
unfolding lacing
length-lacing zero l h = omega arith
length-lacing (suc n) l h = elim (le-or-lt 255 l) [
  | inl p ↦ rw (full_segment n l p) (omega (arith, length-lacing n (l - 255) (omega arith)))
  | inr q ↦ rw (short_segment n l q) (omega arith)
]

-- The header with its segment table and its checksum in place.
unfoldable pub header_with : OggWriter → ℕ → ℕ → List ℕ → List ℕ
unfolding le_bytes
header_with w header_type sum table =
    (79 ∷ 103 ∷ 103 ∷ 83 ∷ 0 ∷ header_type ∷ [])
    ++ le_bytes 8 w.granule_pos
    ++ le_bytes 4 w.serial
    ++ le_bytes 4 w.page_sequence
    ++ le_bytes 4 sum
    ++ (u8 (length table) ∷ table)

abbrev pub table_of : List ℕ → List ℕ
unfolding lacing
table_of p = lacing (length p) (length p)

-- The checksum of a page of one packet.
unfoldable pub page_sum : (List ℕ → ℕ) → OggWriter → ℕ → List ℕ → ℕ
unfolding header_with lacing
page_sum checksum w header_type p = u32 (checksum (header_with w header_type 0 (table_of p) ++ p))

abbrev pub page_of : OggWriter → ℕ → List ℕ → OggPage
page_of w header_type p = record {
  header_type = header_type;
  granule = w.granule_pos;
  stream_serial = w.serial;
  sequence = w.page_sequence;
  payload = p;
}

pub record IsOggWriter (w : OggWriter) : Type 0 where
  pub granule_bound : w.granule_pos < 18446744073709551616
  pub serial_bound : w.serial < 4294967296
  pub sequence_bound : w.page_sequence < 4294967296

pub sealed_header-header_with :
    (checksum : List ℕ → ℕ) (stop_at : List ℕ → List ℕ → Option ℕ) (w : OggWriter)
    (flags p : List ℕ)
    → sealed_header checksum stop_at w flags (p ∷ [])
      ≡ header_with w (first_flag flags) (page_sum checksum w (first_flag flags) p) (table_of p)
unfolding sealed_header header_with page_sum page_header segment_table concat_packets le_bytes blit
sealed_header-header_with checksum stop_at w flags p =
    rw (append-nil (lacing (length p) (length p)), append-nil p) refl

read_page-split :
    (checksum : List ℕ → ℕ) (bs table after : List ℕ)
    → field 26 1 bs ≡ length table
    → drop 27 bs ≡ table ++ after
    → read_page checksum bs ≡ read_body checksum bs table after (packet_length table)
unfolding read_page
read_page-split checksum bs table after e f =
    rw (e, f, take-append_exact table after, drop-append_exact table after) refl

leb_append : (p rest : List ℕ) → leb (length p) (length (p ++ rest)) ≡ true
leb_append p rest = ground (arith, length-append p rest)

==_refl : (n : ℕ) → (n == n) ≡ true
==_refl n = (==_iff n n).1 refl

read_body-ok :
    (checksum : List ℕ → ℕ) (bs table p rest : List ℕ)
    → take 5 bs ≡ 79 ∷ 103 ∷ 103 ∷ 83 ∷ 0 ∷ []
    → u32 (checksum (blit 22 (le_bytes 4 0) (take 27 bs ++ table) ++ p)) ≡ field 22 4 bs
    → read_body checksum bs table (p ++ rest) (some (length p))
      ≡ some (
        record {
          header_type = field 5 1 bs;
          granule = field 6 8 bs;
          stream_serial = field 14 4 bs;
          sequence = field 18 4 bs;
          payload = p;
        },
        rest,
      )
unfolding read_body same_text
read_body-ok checksum bs table p rest e f =
    rw
      (
        e,
        take-append_exact p rest,
        drop-append_exact p rest,
        f,
        leb_append p rest,
        ==_refl (field 22 4 bs),
      )
      refl

length-table_of : (p : List ℕ) → length p < 65025 → length (table_of p) < 256
unfolding table_of
length-table_of p h = omega (arith, length-lacing (length p) (length p) (omega arith))

page_sum_bound :
    (checksum : List ℕ → ℕ) (w : OggWriter) (t : ℕ) (p : List ℕ)
    → page_sum checksum w t p < 4294967296
unfolding page_sum
page_sum_bound checksum w t p = omega arith

of_le_one : (b : ℕ) → of_le (b ∷ []) ≡ b
unfolding of_le
of_le_one b = omega arith

page_eq :
    (a b c d e f g h : ℕ) (p rest : List ℕ)
    → a ≡ e
    → b ≡ f
    → c ≡ g
    → d ≡ h
    → Path
        (Option (OggPage × List ℕ))
        (some (
          record { header_type = a; granule = b; stream_serial = c; sequence = d; payload = p },
          rest,
        ))
        (some (
          record { header_type = e; granule = f; stream_serial = g; sequence = h; payload = p },
          rest,
        ))
page_eq a b c d e f g h p rest i j k l = rw (i, j, k, l) refl

-- A page of a packet below 65025 bytes is read back off the front of any bytes.
pub read_page-page :
    (checksum : List ℕ → ℕ) (w : OggWriter) (t : ℕ) (p rest : List ℕ)
    → IsOggWriter w
    → length p < 65025
    → read_page checksum (header_with w t (page_sum checksum w t p) (table_of p) ++ (p ++ rest))
      ≡ some (page_of w t p, rest)
unfolding header_with le_bytes page_sum blit of_le
read_page-page checksum w t p rest v h =
    let table = table_of p in
    let sum = page_sum checksum w t p in
    let small_count : u8 (length table) ≡ length table = omega (arith, length-table_of p h) in
    let bs = header_with w t sum table ++ (p ++ rest) in
    read_page-split checksum bs table (p ++ rest) (of_le_one (u8 (length table)) ∙ small_count) refl
    ∙ ap (read_body checksum bs table (p ++ rest))
        (packet_length-lacing (length p) (length p) (omega arith))
    ∙ read_body-ok checksum bs table p rest refl
        (sym (of_le-le_bytes 4 sum (page_sum_bound checksum w t p)))
    ∙ page_eq (field 5 1 bs) (field 6 8 bs) (field 14 4 bs) (field 18 4 bs) t w.granule_pos w.serial
        w.page_sequence p rest (of_le_one t) (of_le-le_bytes 8 w.granule_pos (v.granule_bound))
        (of_le-le_bytes 4 w.serial (v.serial_bound))
        (of_le-le_bytes 4 w.page_sequence (v.sequence_bound))

-- The writer when it numbers a packet of so many samples.
unfoldable pub advanced : OggWriter → ℕ → OggWriter
advanced w samples = record w {
  granule_pos = u64 (w.granule_pos + samples);
  packet_count = u64 (w.packet_count + 1);
}
