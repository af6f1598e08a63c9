-- ===== src/Tests/Formats.antt =====
-- The theorems on Ogg streams, SDP answers and buffer pools at concrete inputs.

-- A checksum that is the sum of the bytes.
use tele_portal.Audio.Codec.{Stream, l16, new_codec_l16, pass}
use tele_portal.Audio.Ogg.{
  OggWriter, new_ogg_writer, sealed_header, write_opus_header, write_packet, write_stream,
}
use tele_portal.Audio.Ogg.Failure.{write_packet-output}
use tele_portal.Audio.Ogg.Pages.{advanced}
use tele_portal.Audio.Ogg.Reader.{read_stream}
use tele_portal.Audio.Ogg.RoundTrip.{IsSmall, stream_pages, takes_all, write_stream-read_stream}
use tele_portal.Audio.Pool.{class_for, get_buffer, new_size, pick, pool_of}
use tele_portal.Audio.Pool.Classes.{empty_pools, put_event, run_pools, run_pools-get_buffer}
use tele_portal.Common.{
  List, Option, [], arith, false, if◌then◌else◌, length, ltb, none, refl, some, true, ℕ, ◌++◌, ◌+◌,
  ◌∷◌, ◌≡◌, ◌≤◌, ◌⊎◌,
}
use tele_portal.Common.Result.{ok}
use tele_portal.Common.Slices.{IsBeginning}
use tele_portal.Common.Text.{atoi, codes, equal_fold, itoa, same_text, split}
use tele_portal.Common.Words.{u32}
use tele_portal.Sip.Negotiation.{choose, dtmf_type, l16_pass, negotiate_stream}
use tele_portal.Sip.Offer.{
  SessionDescription, audio_media, get_dynamic_pt, get_remote_rtp_addr, has_format, ptime_of,
  rtpmap_of,
}
use tele_portal.Sip.Sdp.{generate_answer}
use tele_portal.Sip.Sdp.Negotiated.{negotiate_stream-answered}
use tele_portal.Sip.Sdp.Reading.{read_answer}

abbrev byte_sum : List ℕ → ℕ
byte_sum [] = 0
byte_sum (b ∷ bs) = b + byte_sum bs

abbrev packets : List (List ℕ × ℕ)
packets = (1 ∷ 2 ∷ 3 ∷ [], 960) ∷ ([], 960) ∷ []

write_stream-read_stream_example :
    let end =
      write_stream byte_sum takes_all packets
        (write_opus_header byte_sum takes_all 48000 2 (new_ogg_writer 7)) in
    (end.1 ≡ true) × (read_stream byte_sum 4 (end.0).output ≡ some (stream_pages 48000 2 7 packets))
write_stream-read_stream_example =
    write_stream-read_stream byte_sum 48000 2 7 packets
      (unfold IsSmall in (omega arith, (omega arith, tt)))

-- A destination that takes ten bytes more once it has a hundred.
abbrev stops_late : List ℕ → List ℕ → Option ℕ
stops_late out p = if ltb (length out) 100 then none else some 10

abbrev one_page : OggWriter
one_page = record {
  output = 1 ∷ 2 ∷ [];
  granule_pos = 960;
  packet_count = 1;
  serial = 7;
  page_sequence = 4294967295;
  header_written = true;
}

write_packet-output_example :
    let v = advanced one_page 960 in
    let page = sealed_header byte_sum stops_late v [] ((5 ∷ 6 ∷ []) ∷ []) ++ (5 ∷ 6 ∷ []) in
    (write_packet byte_sum stops_late (5 ∷ 6 ∷ []) 960 one_page ≡ (
      record v {
        output = one_page.output ++ page;
        page_sequence = u32 (one_page.page_sequence + 1);
      },
      true,
    ))
    ⊎ ((q : List ℕ) × IsBeginning q page
        × (write_packet byte_sum stops_late (5 ∷ 6 ∷ []) 960 one_page
            ≡ (record v { output = one_page.output ++ q }, false)))
write_packet-output_example = write_packet-output byte_sum stops_late (5 ∷ 6 ∷ []) 960 one_page

-- A buffer of 1900 bytes comes back and is asked for again.
run_pools-get_buffer_example :
    let p = run_pools (put_event (record { len = 5; cap = 1900 }) ∷ []) empty_pools in
    let c = class_for 900 in
    let given = (pick (some 0) (new_size c) (pool_of c p)).0 in
    (900 ≤ given) × ((get_buffer (some 0) 900 p).0 ≡ record { len = 900; cap = given })
run_pools-get_buffer_example =
    run_pools-get_buffer (put_event (record { len = 5; cap = 1900 }) ∷ []) (some 0) 900
      (omega arith) (omega arith)

same_buffer :
    (get_buffer
      (some 0)
      900
      (run_pools (put_event (record { len = 5; cap = 1900 }) ∷ []) empty_pools)).0.cap
    ≡ 1900
unfolding get_buffer run_pools
same_buffer = refl

abbrev offered : SessionDescription
offered = record {
  connection = some (codes "192.0.2.1");
  media_descriptions =
      record {
        media = codes "audio";
        port = 4000;
        formats = codes "97" ∷ codes "101" ∷ [];
        connection = none;
        attributes =
            record { key = codes "rtpmap"; value = codes "97 l16/16000/2" }
            ∷ record { key = codes "rtpmap"; value = codes "101 telephone-event/16000" }
            ∷ record { key = codes "ptime"; value = codes "30" }
            ∷ [];
      }
      ∷ [];
}

abbrev chosen : Stream
chosen = record {
  codec = record {
    name = l16;
    bytes_per_sample = 2;
    sample_rate = 16000;
    channels = 2;
    payload_type = 97;
    is_big_endian = true;
    is_signed = true;
  };
  ptime = 30;
  dtmf_payload_type = 101;
}

offered-chosen : negotiate_stream pass offered ≡ ok chosen
unfolding negotiate_stream audio_media same_text choose get_dynamic_pt rtpmap_of split atoi
    equal_fold l16_pass itoa new_codec_l16 ptime_of dtmf_type has_format
offered-chosen = refl

negotiate_stream-answered_example :
    let reply = read_answer (generate_answer 5 (codes "192.0.2.9") 20000 chosen) in
    (negotiate_stream pass reply ≡ ok chosen)
    × (get_remote_rtp_addr reply ≡ ok (codes "192.0.2.9", 20000))
negotiate_stream-answered_example =
    negotiate_stream-answered pass offered chosen 5 20000 b'1' (codes "92.0.2.9") offered-chosen
      (omega arith)
