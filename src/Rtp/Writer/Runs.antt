-- ===== src/Rtp/Writer/Runs.antt =====
-- internal/rtp/rtp_handler.go: when the loop of `StartWriter` gets through its events.

use tele_portal.Audio.Packetizer.{start}
use tele_portal.Audio.Packetizer.Buffer.{Ring, accepted, capacity, write}
use tele_portal.Audio.Packetizer.Queue.{IsRing, accepted_bounds, empty_ring-IsRing, tail_in}
use tele_portal.Audio.Packetizer.Refine.{read-IsRing, write-IsRing}
use tele_portal.Common.{
  Bool, Bool-cases, List, Option-cases, [], arith, false, inl, inr, leb, leb→le, ltb, min, not,
  refl, some, sym, true, ℕ, ◌&&◌, ◌*◌, ◌+◌, ◌<◌, ◌==◌, ◌∙◌, ◌∷◌, ◌≡◌, ◌≤◌,
}
use tele_portal.Common.Maps.{some-none}
use tele_portal.Common.Result.{Result-cases}
use tele_portal.Rtp.Dtmf.{generate, new_dtmf_generator}
use tele_portal.Rtp.Dtmf.Ramp.{generate-ramp, step_of, total_of}
use tele_portal.Rtp.Writer.{
  Writer, WriterConfig, WriterEvent, actual_ws_codec, advance, audio, bytes_per_tick_of,
  copy_panics, encode_outbound_payload, on_dtmf, requested, send_audio_packet, send_dtmf_packet,
  source_closed, start_writer, tick_panics, tick_payload, ticked, write_panics, writer_run,
  writer_step, writer_tick,
}
use tele_portal.Rtp.Writer.Sequence.{list-cases}

-- A request for which the generator ends: its packet interval is not empty, and the sum of duration
-- and interval fits 16 bits.
unfoldable pub EndsInTime : ℕ → WriterConfig → WriterEvent → Type 0
EndsInTime fuel cfg (requested req) =
    (0
      < step_of fuel (new_dtmf_generator cfg.info.codec.sample_rate cfg.info.ptime) req.digit
          req.duration)
    × (total_of fuel (new_dtmf_generator cfg.info.codec.sample_rate cfg.info.ptime) req.digit
            req.duration
          + step_of fuel (new_dtmf_generator cfg.info.codec.sample_rate cfg.info.ptime) req.digit
              req.duration
        < 65536)
    × (total_of fuel (new_dtmf_generator cfg.info.codec.sample_rate cfg.info.ptime) req.digit
          req.duration
        < fuel)
EndsInTime fuel cfg (audio bytes) = Unit
EndsInTime fuel cfg ticked = Unit
EndsInTime fuel cfg source_closed = Unit

unfoldable pub AllEndInTime : ℕ → WriterConfig → List WriterEvent → Type 0
AllEndInTime fuel cfg [] = Unit
AllEndInTime fuel cfg (e ∷ es) = EndsInTime fuel cfg e × AllEndInTime fuel cfg es

-- A copy of no more than a whole ring stays within it.
copy_within :
    (n start : ℕ) → (r : Ring) → start < capacity r → n ≤ capacity r → copy_panics n start r ≡ false
unfolding copy_panics
copy_within n start r h k = ground arith

write_within : (bytes : List ℕ) → (r : Ring) → IsRing r → write_panics bytes r ≡ false
unfolding write_panics
write_within bytes r v =
    let bounds = accepted_bounds bytes r v in
    let within =
      copy_within (accepted bytes r) r.tail r
        (tail_in r v bytes (accepted bytes r) bounds.0 bounds.1) (omega (arith, v.fits, bounds)) in
    elim (Bool-cases (ltb 0 (accepted bytes r))) [
      | inl e ↦ rw (e, write_panics) within
      | inr e ↦ rw (e, write_panics) refl
    ]

tick_within : (b : ℕ) → (w : Writer) → IsRing w.ring → tick_panics b w ≡ false
unfolding tick_panics
tick_within b w v = elim (list-cases w.pending_dtmf) [
  | inr (p, more, e) ↦ rw (e, tick_panics) (no_remainder (leb b w.ring.count) _ v.nonempty)
  | inl e ↦
      rw (e, tick_panics)
        (or_empty (w.ring.count == 0) _
          (copy_within (min b w.ring.count) w.ring.head w.ring v.head_in (omega (arith, v.fits))))
]
  where
    no_remainder : (full : Bool) → (c : ℕ) → 0 < c → (full && c == 0) ≡ false
    no_remainder true c h = ground arith
    no_remainder false c h = refl

    or_empty : (empty fails : Bool) → fails ≡ false → (not empty && fails) ≡ false
    or_empty true fails h = refl
    or_empty false fails h = h

writer_tick-IsRing :
    (b : ℕ)
    → (cfg : WriterConfig) → (w : Writer) → IsRing w.ring
    → IsRing (writer_tick b cfg w).ring
unfolding writer_tick send_dtmf_packet send_audio_packet
writer_tick-IsRing b cfg w v = elim (list-cases w.pending_dtmf) [
  | inr (p, more, e) ↦ elim (Bool-cases (leb b w.ring.count)) [
    | inl f ↦
        rw (e, f, writer_tick, send_dtmf_packet)
          (read-IsRing b w.ring v (leb→le b w.ring.count f)).0
    | inr f ↦ rw (e, f, writer_tick, send_dtmf_packet) v
  ]
  | inl e ↦ elim (Bool-cases (w.ring.count == 0)) [
    | inl f ↦ rw (e, f, writer_tick) v
    | inr f ↦
        let read_out = (read-IsRing (min b w.ring.count) w.ring v (omega arith)).0 in
        elim (Result-cases (
          encode_outbound_payload cfg.tables (tick_payload b w) (actual_ws_codec cfg) cfg.ws_codec
            cfg.info)) [
              | inl (bytes, g) ↦ rw (e, f, g, writer_tick, send_audio_packet) read_out
              | inr (x, g) ↦ rw (e, f, g, writer_tick, send_audio_packet) read_out
            ]
  ]
]

writer_step-some :
    (fuel : ℕ)
    → (cfg : WriterConfig) → (e : WriterEvent) → (w : Writer) → IsRing w.ring
    → EndsInTime fuel cfg e
    → (next : Writer) × (writer_step fuel cfg e w ≡ some next) × IsRing next.ring
unfolding writer_step on_dtmf EndsInTime
writer_step-some fuel cfg (audio bytes) w v t = (
  record w { ring = write bytes w.ring },
  rw (write_within bytes w.ring v, writer_step) refl,
  (write-IsRing bytes w.ring v).0,
)
writer_step-some fuel cfg source_closed w v t = (w, refl, v)
writer_step-some fuel cfg ticked w v t = (
  writer_tick (bytes_per_tick_of cfg) cfg w,
  rw (tick_within (bytes_per_tick_of cfg) w v, writer_step) refl,
  writer_tick-IsRing (bytes_per_tick_of cfg) cfg w v,
)
writer_step-some fuel cfg (requested req) w v t =
    elim (Bool-cases (cfg.info.dtmf_payload_type == 0)) [
      | inl g ↦ (w, rw (g, writer_step, on_dtmf) refl, v)
      | inr g ↦
          elim (Option-cases (
            generate fuel (new_dtmf_generator cfg.info.codec.sample_rate cfg.info.ptime) req.digit
              req.duration)) [
                | inr (packets, k) ↦ (
                  record w {
                    pending_dtmf = packets;
                    timestamp = advance cfg w.timestamp;
                    dtmf_timestamp = advance cfg w.timestamp;
                  },
                  rw (g, k, writer_step, on_dtmf) refl,
                  v,
                )
                | inl k ↦ absurd (
                    some-none (
                      sym (
                        generate-ramp fuel
                          (new_dtmf_generator cfg.info.codec.sample_rate cfg.info.ptime) req.digit
                          req.duration t.0 t.1 t.2)
                      ∙ k))
              ]
    ]

run_from :
    (fuel : ℕ)
    → (cfg : WriterConfig) → (es : List WriterEvent) → (w : Writer) → IsRing w.ring
    → AllEndInTime fuel cfg es
    → (last : Writer) × (writer_run fuel cfg es w ≡ some last) × IsRing last.ring
unfolding writer_run AllEndInTime
run_from fuel cfg [] w v t = (w, refl, v)
run_from fuel cfg (e ∷ es) w v t =
    let (next, s, kept) = writer_step-some fuel cfg e w v t.0 in
    let (last, r, end) = run_from fuel cfg es next kept t.1 in (last, rw (s, writer_run) r, end)

-- With a tick of at least one byte, and enough fuel for the requests, each with a packet interval
-- of at least one sample and a duration that fits 16 bits together with the interval: a new writer
-- gets through every list of events. No slice of the ring buffer is out of its bounds, no remainder
-- is by 0, and the ring is well-formed at the end.
pub writer_run-some :
    (fuel sequence timestamp : ℕ)
    → (cfg : WriterConfig) → (es : List WriterEvent) → 0 < bytes_per_tick_of cfg
    → AllEndInTime fuel cfg es
    → (last : Writer) × (writer_run fuel cfg es (start_writer cfg sequence timestamp) ≡ some last)
      × IsRing last.ring
unfolding start_writer
writer_run-some fuel sequence timestamp cfg es h t =
    run_from fuel cfg es (start_writer cfg sequence timestamp)
      (empty_ring-IsRing (bytes_per_tick_of cfg * 10) (omega arith)) t
