-- ===== src/Rtp/Writer/Tick.antt =====
-- internal/rtp/rtp_handler.go: the audio of a tick, as a queue of bytes.
use tele_portal.Audio.Codec.{CodecError}
use tele_portal.Audio.Packetizer.Queue.{IsRing, contents}
use tele_portal.Audio.Packetizer.Refine.{contents-read}
use tele_portal.Audio.Packetizer.Shaper.{length-contents}
use tele_portal.Client.Session.{bytes_per_tick, queue}
use tele_portal.Common.{
  List, [], ap, ap₂, arith, drop, false, inl, inr, le-or-lt, length, min, refl, replicate, suc, sym,
  take, zero, ℕ, ◌++◌, ◌+◌, ◌-◌, ◌==◌, ◌∙◌, ◌∷◌, ◌≡◌, ◌≤◌,
}
use tele_portal.Common.Result.{Result, Result-cases, err, ok}
use tele_portal.Common.Slices.{take-all}
use tele_portal.Common.Words.{u16}
use tele_portal.Rtp.Dtmf.{payload}
use tele_portal.Rtp.Writer.{
  Packet, Writer, WriterConfig, actual_ws_codec, advance, after_audio, encode_outbound_payload,
  send_audio_packet, tick_payload, writer_tick,
}

-- The tick's bytes of the queue, with zeros for what is missing.
unfoldable pub padded : ℕ → List ℕ → List ℕ
padded bytes_per_tick queue =
    take bytes_per_tick queue ++ replicate (bytes_per_tick - length queue) 0

-- What a tick adds to the packets sent.
unfoldable pub sent_after : WriterConfig → Writer → Result CodecError (List ℕ) → List Packet
sent_after cfg w (err e) = w.sent
sent_after cfg w (ok payload) =
    record {
      payload_type = cfg.info.codec.payload_type;
      sequence = u16 (w.sequence + 1);
      timestamp = advance cfg w.timestamp;
      payload = payload;
    }
    ∷ w.sent

-- The number and the timestamp of the last packet after a tick.
unfoldable pub numbers_after : WriterConfig → Writer → Result CodecError (List ℕ) → ℕ × ℕ
numbers_after cfg w (err e) = (w.sequence, w.timestamp)
numbers_after cfg w (ok payload) = (u16 (w.sequence + 1), advance cfg w.timestamp)

drop-all : (n : ℕ) → (xs : List ℕ) → length xs ≤ n → drop n xs ≡ []
drop-all zero [] h = refl
drop-all zero (x ∷ xs) h = absurd (omega arith)
drop-all (suc n) [] h = refl
drop-all (suc n) (x ∷ xs) h = drop-all n xs (omega arith)

module _ (b : ℕ) (xs : List ℕ) where
  take-min : take (min b (length xs)) xs ≡ take b xs
  take-min = elim (le-or-lt b (length xs)) [
    | inl h ↦ ap (λ (k : ℕ). take k xs) {x = min b (length xs)} {y = b} (omega arith)
    | inr h ↦
        ap (λ (k : ℕ). take k xs) {x = min b (length xs)} {y = length xs} (omega arith)
        ∙ take-all (length xs) xs (omega arith)
        ∙ sym (take-all b xs (omega arith))
  ]

  drop-min : drop (min b (length xs)) xs ≡ drop b xs
  drop-min = elim (le-or-lt b (length xs)) [
    | inl h ↦ ap (λ (k : ℕ). drop k xs) {x = min b (length xs)} {y = b} (omega arith)
    | inr h ↦
        ap (λ (k : ℕ). drop k xs) {x = min b (length xs)} {y = length xs} (omega arith)
        ∙ drop-all (length xs) xs (omega arith)
        ∙ sym (drop-all b xs (omega arith))
  ]

module _ (b : ℕ) (w : Writer) (v : IsRing w.ring) where
  counted_bytes : min b w.ring.count ≡ min b (length (contents w.ring))
  counted_bytes = ap (min b) (sym (length-contents w.ring))

  tick_payload-padded : tick_payload b w ≡ padded b (contents w.ring)
  unfolding padded
  tick_payload-padded =
      ap₂ ◌++◌
        ((contents-read (min b w.ring.count) w.ring v (omega arith)).0
          ∙ ap (λ (k : ℕ). take k (contents w.ring)) counted_bytes
          ∙ take-min b (contents w.ring))
        (ap (λ (n : ℕ). replicate (b - n) 0) (sym (length-contents w.ring)))

  after_audio-drop : contents (after_audio b w).ring ≡ drop b (contents w.ring)
  after_audio-drop =
      (contents-read (min b w.ring.count) w.ring v (omega arith)).1
      ∙ ap (λ (k : ℕ). drop k (contents w.ring)) counted_bytes
      ∙ drop-min b (contents w.ring)

-- A tick with audio and no DTMF pending, on a well-formed ring, takes the next bytes off the front
-- of the queue, fills them up with zeros, and sends the encoded payload with the next number and
-- timestamp, which the writer keeps; a payload that cannot be encoded is dropped, and neither number
-- nor timestamp moves. No DTMF is pending after it, either.
pub writer_tick-audio :
    (b : ℕ)
    → (cfg : WriterConfig) → (w : Writer) → IsRing w.ring
    → w.pending_dtmf ≡ []
    → (w.ring.count == 0) ≡ false
    → (contents (writer_tick b cfg w).ring ≡ drop b (contents w.ring))
      × ((writer_tick b cfg w).sent
          ≡ sent_after cfg w (
              encode_outbound_payload cfg.tables
                (padded b (contents w.ring))
                (actual_ws_codec cfg)
                cfg.ws_codec
                cfg.info))
      × (((writer_tick b cfg w).sequence, (writer_tick b cfg w).timestamp)
          ≡ numbers_after cfg w (
              encode_outbound_payload cfg.tables
                (padded b (contents w.ring))
                (actual_ws_codec cfg)
                cfg.ws_codec
                cfg.info))
      × ((writer_tick b cfg w).pending_dtmf ≡ [])
unfolding writer_tick send_audio_packet sent_after numbers_after
writer_tick-audio b cfg w v idle some_bytes =
    elim (Result-cases (
      encode_outbound_payload cfg.tables (padded b (contents w.ring)) (actual_ws_codec cfg)
        cfg.ws_codec cfg.info)) [
          | inl (payload, e) ↦
              rw (idle, some_bytes, tick_payload-padded b w v, e, writer_tick, send_audio_packet)
                (after_audio-drop b w v, refl, refl, idle)
          | inr (x, e) ↦
              rw (idle, some_bytes, tick_payload-padded b w v, e, writer_tick, send_audio_packet)
                (after_audio-drop b w v, refl, refl, idle)
        ]
