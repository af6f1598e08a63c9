-- ===== src/Tests/Calls.antt =====
-- The theorems on ports, DTMF, offers, calls and clients at concrete inputs.
use mathlib.Core.Option
use tele_portal.Audio.Codec.{
  Stream, invalid_sample_rate, new_codec_g711_a_law, new_codec_g711_mu_law, new_codec_l16, pass,
  pcmu,
}
use tele_portal.Client.{is_one_of, send_dtmf, sent}
use tele_portal.Common.{
  List, [], arith, false, map, none, refl, replicate, some, true, ℕ, ◌++◌, ◌==◌, ◌∷◌, ◌≡◌,
}
use tele_portal.Common.Int.{pos}
use tele_portal.Common.Result.{err, ok}
use tele_portal.Common.Text.{atoi, codes, equal_fold, itoa, same_text, split}
use tele_portal.Rtp.Dtmf.{
  DtmfGenerator, digit_to_event, generate, parse_dtmf_payload, payload, to_samples,
}
use tele_portal.Rtp.Dtmf.Ramp.{generate-none, generate-ramp, ramp}
use tele_portal.Rtp.Dtmf.RoundTrip.{heard, parse-generate-send_dtmf}
use tele_portal.Rtp.Ports.{RtpManager, create_listener, in_use, new_rtp_manager, search_loop}
use tele_portal.Rtp.Ports.Allocate.{IsManager, create_listener-total}
use tele_portal.Rtp.Ports.Histories.{Call, IsSound, create, release, run, run-IsSound}
use tele_portal.Rtp.Reader.{new_reader, read_all, received}
use tele_portal.Rtp.Reader.Digits.{arrivals, digit_report, frame_of}
use tele_portal.Rtp.Reader.Sent.{read_all-send_dtmf}
use tele_portal.Sip.Negotiation.{
  choose, codec_failed, dtmf_type, l16_pass, negotiate_stream, nothing_yet,
}
use tele_portal.Sip.Negotiation.Answer.{suits}
use tele_portal.Sip.Negotiation.Preference.{
  negotiate_stream-preferred, offered_g711, offered_l16, preferred,
}
use tele_portal.Sip.Offer.{
  MediaDescription, SessionDescription, audio_media, encoding_of, get_dynamic_pt, has_format,
  ptime_of, rtpmap_of,
}

abbrev small_manager : RtpManager
small_manager = record { ports = []; port_min = 10000; port_max = 10005; next_port = 10000 }

small_manager-IsManager : IsManager small_manager
small_manager-IsManager = record {
  low = omega arith;
  ordered = omega arith;
  high = omega arith;
  next_even_port = refl;
  next_lo = omega arith;
  next_hi = omega arith;
}

abbrev one_port : RtpManager
one_port = record small_manager { ports = 10000 ∷ []; next_port = 10002 }

first_call : create_listener (λ p. true) small_manager ≡ (one_port, ok 10000)
unfolding create_listener search_loop in_use
first_call = refl

create_listener-total_example :
    (m' : RtpManager) × (p : ℕ) × (create_listener (λ p. p == 10004) small_manager ≡ (m', ok p))
create_listener-total_example =
    create_listener-total (λ p. p == 10004) small_manager 10004 small_manager-IsManager
      (record { even = refl; from_min = omega arith; to_max = omega arith }) (unfold in_use in refl)
      refl

new_manager : new_rtp_manager 10000 10005 ≡ ok small_manager
unfolding new_rtp_manager
new_manager = refl

abbrev two_calls : List Call
two_calls = create (λ p. true) ∷ create (λ p. true) ∷ release (some 10000) ∷ []

run-IsSound_example : IsSound 10000 10005 (run small_manager two_calls)
run-IsSound_example = run-IsSound 10000 10005 small_manager two_calls (omega arith) new_manager

abbrev generator : DtmfGenerator
generator = record { sample_rate = 8000; ptime = 20 }

abbrev long_packets : DtmfGenerator
long_packets = record { sample_rate = 8000; ptime = 8192 }

generate-none_example : generate 1000 long_packets (codes "5") (pos 8193) ≡ none
unfolding to_samples
generate-none_example = generate-none 1000 long_packets (codes "5") (pos 8193) refl (omega arith)

sent_digit :
    send_dtmf true (codes "a") (pos 40) sent ≡ ok (record { digit = codes "A"; duration = pos 40 })
unfolding send_dtmf is_one_of
sent_digit = refl

parse-generate-send_dtmf_example :
    Option.map (map parse_dtmf_payload) (generate 321 generator (codes "A") (pos 40))
    ≡ some
        (map (heard (codes "A") false) (ramp 160 320) ++ replicate 3 (heard (codes "A") true 320))
unfolding to_samples
parse-generate-send_dtmf_example =
    parse-generate-send_dtmf generator b'a' (pos 40)
      (record { digit = codes "A"; duration = pos 40 }) sent_digit (omega arith) (omega arith)

abbrev digit_packets : List (List ℕ)
digit_packets =
    map (payload (digit_to_event (codes "A")) 0x0a) (ramp 160 320)
    ++ replicate 3 (payload (digit_to_event (codes "A")) 0x8a 320)

digit_packets-made : generate 321 generator (codes "A") (pos 40) ≡ some digit_packets
unfolding to_samples
digit_packets-made =
    generate-ramp 321 generator (codes "A") (pos 40) (omega arith) (omega arith) (omega arith)

read_all-send_dtmf_example :
    (read_all 101 (arrivals 101 5000 9 digit_packets) (new_reader 0)).reported
    ≡ []
      ++ (map (digit_report (codes "A") false) (ramp 160 320)
          ++ digit_report (codes "A") true 320 ∷ [])
unfolding to_samples
read_all-send_dtmf_example =
    read_all-send_dtmf generator b'a' (pos 40) (record { digit = codes "A"; duration = pos 40 })
      digit_packets 101 5000 9 (new_reader 0) sent_digit (omega arith) (omega arith)
      digit_packets-made refl refl refl

-- The end of a digit with the timestamp 0, as the first one, is not reported.
timestamp_zero :
    (read_all 101
      (received 9 (frame_of 101 0 (payload (digit_to_event (codes "A")) 0x8a 320)) ∷ [])
      (new_reader 0)).reported
    ≡ []
unfolding read_all
timestamp_zero = refl

-- An offer with PCMU and an L16 whose rate is not supported.
abbrev media : MediaDescription
media = record {
  media = codes "audio";
  port = 4000;
  formats = codes "0" ∷ codes "96" ∷ codes "101" ∷ [];
  connection = none;
  attributes =
      record { key = codes "rtpmap"; value = codes "96 L16/11025/1" }
      ∷ record { key = codes "rtpmap"; value = codes "101 telephone-event/8000" }
      ∷ [];
}

abbrev offer : SessionDescription
offer = record { connection = some (codes "192.0.2.1"); media_descriptions = media ∷ [] }

audio_media-offer : audio_media offer.media_descriptions ≡ some media
unfolding audio_media same_text
audio_media-offer = refl

negotiate_stream-preferred_example :
    negotiate_stream pass offer ≡ preferred (offered_l16 media) (offered_g711 media) media
negotiate_stream-preferred_example =
    negotiate_stream-preferred pass offer media (unfold suits in refl) audio_media-offer

-- The PCMU of the offer is found, and the offer is rejected with the error of L16.
stale_error : negotiate_stream pass offer ≡ err (codec_failed invalid_sample_rate)
unfolding negotiate_stream audio_media same_text choose get_dynamic_pt rtpmap_of encoding_of
    equal_fold split atoi l16_pass has_format nothing_yet new_codec_g711_mu_law new_codec_g711_a_law
    new_codec_l16 itoa
stale_error = refl

abbrev answer : Stream
answer = record { codec = new_codec_g711_mu_law; ptime = 20; dtmf_payload_type = 101 }

answered : negotiate_stream pcmu offer ≡ ok answer
unfolding negotiate_stream audio_media same_text choose get_dynamic_pt rtpmap_of encoding_of
    equal_fold split atoi has_format nothing_yet new_codec_g711_mu_law itoa ptime_of dtmf_type
answered = refl
