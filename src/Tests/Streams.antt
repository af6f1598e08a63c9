-- ===== src/Tests/Streams.antt =====
-- The theorems on the RTP writer at concrete inputs.
use tele_portal.Audio.Codec.{new_codec_g711_mu_law, pcmu, samples_per_packet}
use tele_portal.Audio.G711.Tables.{zeroed}
use tele_portal.Audio.Packetizer.Buffer.{Ring, read, write}
use tele_portal.Audio.Packetizer.Queue.{IsRing, contents}
use tele_portal.Common.{List, [], arith, drop, refl, some, ◌<◌, ◌∷◌, ◌≡◌}
use tele_portal.Common.Int.{pos}
use tele_portal.Common.Slices.{blit}
use tele_portal.Common.Text.{codes}
use tele_portal.Rtp.Dtmf.{new_dtmf_generator, to_samples}
use tele_portal.Rtp.Writer.{
  Writer, WriterConfig, WriterEvent, actual_ws_codec, audio, bytes_per_sample, bytes_per_tick_of,
  copy_panics, encode_outbound_payload, requested, send_audio_packet, start_writer, tick_panics,
  ticked, write_panics, writer_run, writer_step, writer_tick,
}
use tele_portal.Rtp.Writer.Runs.{AllEndInTime, EndsInTime, writer_run-some}
use tele_portal.Rtp.Writer.Sequence.{AreConsecutive, IsNumbered, writer_run-IsNumbered}
use tele_portal.Rtp.Writer.Tick.{numbers_after, padded, sent_after, writer_tick-audio}

abbrev config : WriterConfig
config = record {
  info = record { codec = new_codec_g711_mu_law; ptime = 20; dtmf_payload_type = 101 };
  ws_codec = pcmu;
  tables = zeroed;
}

abbrev small_ring : Ring
small_ring = record { cells = 5 ∷ 6 ∷ 7 ∷ 8 ∷ []; head = 3; tail = 1; count = 2 }

small_ring-IsRing : IsRing small_ring
small_ring-IsRing = record {
  nonempty = omega arith;
  head_in = omega arith;
  fits = omega arith;
  tail_at = refl;
}

abbrev writer : Writer
writer = record {
  ring = small_ring;
  sequence = 65535;
  timestamp = 1000;
  pending_dtmf = [];
  dtmf_timestamp = 0;
  sent = [];
}

writer_tick-audio_example :
    (contents (writer_tick 3 config writer).ring ≡ drop 3 (contents small_ring))
    × ((writer_tick 3 config writer).sent
        ≡ sent_after config writer (
            encode_outbound_payload zeroed
              (padded 3 (contents small_ring))
              (actual_ws_codec config)
              pcmu
              config.info))
    × (((writer_tick 3 config writer).sequence, (writer_tick 3 config writer).timestamp)
        ≡ numbers_after config writer (
            encode_outbound_payload zeroed
              (padded 3 (contents small_ring))
              (actual_ws_codec config)
              pcmu
              config.info))
    × ((writer_tick 3 config writer).pending_dtmf ≡ [])
writer_tick-audio_example = writer_tick-audio 3 config writer small_ring-IsRing refl refl

writer-IsNumbered : IsNumbered 65535 writer
unfolding AreConsecutive
writer-IsNumbered = record { last = refl; consecutive = tt }

abbrev ticks : List WriterEvent
ticks = ticked ∷ audio (1 ∷ []) ∷ ticked ∷ []

abbrev after_ticks : Writer
after_ticks =
    writer_tick (bytes_per_tick_of config) config
      (record (writer_tick (bytes_per_tick_of config) config writer) {
        ring = write (1 ∷ []) (writer_tick (bytes_per_tick_of config) config writer).ring;
      })

ticked_twice : writer_run 0 config ticks writer ≡ some after_ticks
unfolding writer_run writer_step tick_panics write_panics copy_panics writer_tick send_audio_packet
    encode_outbound_payload actual_ws_codec bytes_per_tick_of bytes_per_sample samples_per_packet
    new_codec_g711_mu_law write read blit
ticked_twice = refl

writer_run-IsNumbered_example : IsNumbered 65535 after_ticks
writer_run-IsNumbered_example =
    writer_run-IsNumbered 65535 0 config ticks writer after_ticks writer-IsNumbered ticked_twice

abbrev requests : List WriterEvent
requests =
    audio (1 ∷ 2 ∷ []) ∷ requested (record { digit = codes "5"; duration = pos 40 }) ∷ ticked ∷ []

requests-AllEndInTime : AllEndInTime 321 config requests
unfolding AllEndInTime EndsInTime new_dtmf_generator to_samples new_codec_g711_mu_law
requests-AllEndInTime = (tt, ((omega arith, omega arith, omega arith), (tt, tt)))

config-ticks : 0 < bytes_per_tick_of config
unfolding bytes_per_tick_of actual_ws_codec bytes_per_sample samples_per_packet
    new_codec_g711_mu_law
config-ticks = omega arith

writer_run-some_example :
    (last : Writer) × (writer_run 321 config requests (start_writer config 65535 7) ≡ some last)
    × IsRing last.ring
writer_run-some_example =
    writer_run-some 321 65535 7 config requests config-ticks requests-AllEndInTime
