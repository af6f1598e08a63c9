-- ===== src/Audio/Ogg/RoundTrip.antt =====
-- internal/audio/ogg_writer.go: what a whole stream says to a reader.
use mathlib.Core.List.{append_assoc, append-nil}
use tele_portal.Audio.Ogg.{
  OggWriter, comment_header, first_flag, id_header, le_bytes, mark_written, new_ogg_writer, put,
  put_all, write_comments, write_opus_header, write_packet, write_page, write_stream,
}
use tele_portal.Audio.Ogg.Pages.{
  IsOggWriter, advanced, header_with, page_of, page_sum, read_page-page, sealed_header-header_with,
  table_of,
}
use tele_portal.Audio.Ogg.Reader.{OggPage, prepend_page, read_page, read_stream}
use tele_portal.Common.{
  List, Option, [], ap, arith, drop, length, none, refl, some, suc, sym, true, ℕ, ◌++◌, ◌+◌, ◌<◌,
  ◌∙◌, ◌∷◌, ◌≡◌,
}
use tele_portal.Common.Words.{u32, u64}

abbrev pub takes_all : List ℕ → List ℕ → Option ℕ
takes_all out p = none

-- The pages of packets from a page number and a granule position on.
unfoldable numbered_pages : ℕ → ℕ → ℕ → List (List ℕ × ℕ) → List OggPage
numbered_pages serial number granule [] = []
numbered_pages serial number granule ((p, samples) ∷ ps) =
    record {
      header_type = 0;
      granule = u64 (granule + samples);
      stream_serial = serial;
      sequence = number;
      payload = p;
    }
    ∷ numbered_pages serial (u32 (number + 1)) (u64 (granule + samples)) ps

-- The pages of a stream: the two headers with granule position 0, then the packets.
unfoldable pub stream_pages : ℕ → ℕ → ℕ → List (List ℕ × ℕ) → List OggPage
unfolding numbered_pages
stream_pages rate channels serial ps =
    record {
      header_type = 2;
      granule = 0;
      stream_serial = serial;
      sequence = 0;
      payload = id_header rate channels;
    }
    ∷ record {
      header_type = 0;
      granule = 0;
      stream_serial = serial;
      sequence = 1;
      payload = comment_header;
    }
    ∷ numbered_pages serial 2 0 ps

unfoldable pub IsSmall : List (List ℕ × ℕ) → Type 0
IsSmall [] = Unit
IsSmall ((p, samples) ∷ ps) = (length p < 65025) × IsSmall ps

header_lengths :
    (rate channels : ℕ)
    → (length (id_header rate channels) < 65025) × (length comment_header < 65025)
unfolding id_header comment_header
header_lengths rate channels = (omega arith, omega arith)

start-IsOggWriter :
    (w : OggWriter) (serial : ℕ)
    → w.granule_pos ≡ 0
    → w.serial ≡ serial
    → serial < 4294967296
    → w.page_sequence < 4294967296
    → IsOggWriter w
start-IsOggWriter w serial e f h k = record {
  granule_bound = omega (arith, e);
  serial_bound = omega (arith, f, h);
  sequence_bound = k;
}

module _ (checksum : List ℕ → ℕ) where
  unfoldable page_bytes : OggWriter → ℕ → List ℕ → List ℕ
  unfolding header_with page_sum
  page_bytes w t p = header_with w t (page_sum checksum w t p) (table_of p) ++ p

  -- The writer after a page of one packet.
  write_page-bytes :
      (flags p : List ℕ) (w : OggWriter)
      → write_page checksum takes_all flags (p ∷ []) w ≡ (
        record w {
          output = w.output ++ page_bytes w (first_flag flags) p;
          page_sequence = u32 (w.page_sequence + 1);
        },
        true,
      )
  unfolding write_page put_all put page_bytes
  write_page-bytes flags p w =
      rw
        (
          sealed_header-header_with checksum takes_all w flags p,
          append_assoc w.output
              (header_with w (first_flag flags) (page_sum checksum w (first_flag flags) p)
                (table_of p))
              p,
        )
        refl

  read_stream-next :
      (n b : ℕ) (bs rest : List ℕ) (p : OggPage)
      → read_page checksum (b ∷ bs) ≡ some (p, rest)
      → read_stream checksum (suc n) (b ∷ bs) ≡ prepend_page p (read_stream checksum n rest)
  unfolding read_stream
  read_stream-next n b bs rest p e = rw (read_stream, e) refl

  -- What a reader finds after a page.
  read_stream-page :
      (w : OggWriter) (n t : ℕ) (p rest : List ℕ)
      → IsOggWriter w
      → length p < 65025
      → read_stream checksum (suc n) (page_bytes w t p ++ rest)
        ≡ prepend_page (page_of w t p) (read_stream checksum n rest)
  unfolding page_bytes header_with le_bytes
  read_stream-page w n t p rest v h =
      read_stream-next n 79 (drop 1 (page_bytes w t p ++ rest)) rest (page_of w t p) (
        ap (λ (bs : List ℕ). read_page checksum bs)
          (append_assoc (header_with w t (page_sum checksum w t p) (table_of p)) p rest)
        ∙ read_page-page checksum w t p rest v h)

  unfoldable after_page : OggWriter → List ℕ → OggWriter
  unfolding page_bytes
  after_page w p = record w {
    output = w.output ++ page_bytes w 0 p;
    page_sequence = u32 (w.page_sequence + 1);
  }

  -- The bytes that packets add.
  unfoldable stream_bytes : OggWriter → List (List ℕ × ℕ) → List ℕ
  unfolding advanced page_bytes after_page
  stream_bytes w [] = []
  stream_bytes w ((p, samples) ∷ ps) =
      let v = advanced w samples in page_bytes v 0 p ++ stream_bytes (after_page v p) ps

  read_stream-stream_bytes :
      (ps : List (List ℕ × ℕ)) (w : OggWriter)
      → IsOggWriter w
      → IsSmall ps
      → read_stream checksum (length ps) (stream_bytes w ps)
        ≡ some (numbered_pages w.serial w.page_sequence w.granule_pos ps)
  unfolding stream_bytes numbered_pages IsSmall read_stream advanced after_page
  read_stream-stream_bytes [] w v h = refl
  read_stream-stream_bytes ((p, samples) ∷ ps) w v h =
      let u = advanced w samples in
      let z = after_page u p in
      read_stream-page u (length ps) 0 p (stream_bytes z ps)
        (record {
          granule_bound = omega arith;
          serial_bound = v.serial_bound;
          sequence_bound = v.sequence_bound;
        })
        (h.0)
      ∙ ap (prepend_page (page_of u 0 p)) (
          read_stream-stream_bytes ps z
            (record {
              granule_bound = omega arith;
              serial_bound = v.serial_bound;
              sequence_bound = omega arith;
            })
            (h.1))

  write_stream-stream_bytes :
      (ps : List (List ℕ × ℕ)) (w : OggWriter)
      → ((write_stream checksum takes_all ps (w, true)).1 ≡ true)
        × ((write_stream checksum takes_all ps (w, true)).0.output ≡ w.output ++ stream_bytes w ps)
  unfolding write_stream write_packet stream_bytes after_page advanced
  write_stream-stream_bytes [] w = (refl, sym (append-nil w.output))
  write_stream-stream_bytes ((p, samples) ∷ ps) w =
      let u = advanced w samples in
      let z = after_page u p in
      let rest = write_stream-stream_bytes ps z in
      rw (write_stream, write_page-bytes [] p u)
        (rest.0, rest.1 ∙ append_assoc w.output (page_bytes u 0 p) (stream_bytes z ps))

  unfoldable header_bytes : ℕ → ℕ → OggWriter → List ℕ
  unfolding page_bytes
  header_bytes rate channels w =
      page_bytes w 2 (id_header rate channels)
      ++ page_bytes (record w { page_sequence = 1 }) 0 comment_header

  unfoldable opened : ℕ → ℕ → ℕ → OggWriter
  unfolding new_ogg_writer header_bytes
  opened rate channels serial =
      let w = new_ogg_writer serial in
      record w { output = header_bytes rate channels w; page_sequence = 2; header_written = true }

  write_opus_header-opened :
      (rate channels serial : ℕ)
      → write_opus_header checksum takes_all rate channels (new_ogg_writer serial)
        ≡ (opened rate channels serial, true)
  unfolding write_opus_header opened new_ogg_writer header_bytes
  write_opus_header-opened rate channels serial =
      let w = new_ogg_writer serial in
      let p = id_header rate channels in
      ap (write_comments checksum takes_all) (write_page-bytes (2 ∷ []) p w)
      ∙ ap (mark_written checksum takes_all) (
          write_page-bytes [] comment_header
            (record w { output = page_bytes w 2 p; page_sequence = 1 }))

  -- To a destination that takes all bytes, `WriteOpusHeader` of a new writer and `WritePacket` of
  -- packets below 65025 bytes report no error, and a reader of Ogg pages finds in the output a page
  -- for each header and for each packet, with its bytes, and nothing else: the pages are numbered
  -- from 0 modulo 2^32, and the granule position of a packet is the number of samples up to and
  -- with it modulo 2^64.
  pub write_stream-read_stream :
      (rate channels serial : ℕ) (ps : List (List ℕ × ℕ))
      → IsSmall ps
      → let end =
          write_stream checksum takes_all ps
            (write_opus_header checksum takes_all rate channels (new_ogg_writer serial)) in
        (end.1 ≡ true)
        × (read_stream checksum (suc (suc (length ps))) (end.0).output
            ≡ some (stream_pages rate channels (u32 serial) ps))
  unfolding stream_pages opened prepend_page header_bytes new_ogg_writer
  write_stream-read_stream rate channels serial ps small =
      let w = opened rate channels serial in
      let v : IsOggWriter w =
        start-IsOggWriter w (u32 serial) refl refl (omega arith) (omega arith) in
      let written = write_stream-stream_bytes ps w in
      let bytes = stream_bytes w ps in
      let first = new_ogg_writer serial in
      let second = record first { page_sequence = 1 } in
      rw (write_opus_header-opened rate channels serial) (
        written.0,
        ap (read_stream checksum (suc (suc (length ps)))) (
              written.1
              ∙ append_assoc (page_bytes first 2 (id_header rate channels))
                  (page_bytes second 0 comment_header) bytes)
            ∙ read_stream-page first (suc (length ps)) 2 (id_header rate channels)
                (page_bytes second 0 comment_header ++ bytes)
                (start-IsOggWriter first (u32 serial) refl refl (omega arith) (omega arith))
                (header_lengths rate channels).0
            ∙ ap (prepend_page (page_of first 2 (id_header rate channels))) (
                read_stream-page second (length ps) 0 comment_header bytes
                  (start-IsOggWriter second (u32 serial) refl refl (omega arith) (omega arith))
                  (header_lengths rate channels).1
                ∙ ap (prepend_page (page_of second 0 comment_header))
                    (read_stream-stream_bytes ps w v small)),
      )
