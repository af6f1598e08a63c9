-- ===== src/Rtp/Writer/Sequence.antt =====
-- internal/rtp/rtp_handler.go: the numbers of the packets that are sent.
use tele_portal.Common.{
  Bool-cases, List, Option-cases, [], arith, inl, inr, length, refl, some, subst, suc, sym, ℕ, ◌+◌,
  ◌==◌, ◌∷◌, ◌≡◌, ◌⊎◌,
}
use tele_portal.Common.Maps.{some-inj, some-none}
use tele_portal.Common.Result.{Result-cases}
use tele_portal.Common.Words.{u16}
use tele_portal.Rtp.Dtmf.{generate, new_dtmf_generator, payload}
use tele_portal.Rtp.Writer.{
  Packet, Writer, WriterConfig, WriterEvent, actual_ws_codec, audio, bytes_per_tick_of,
  encode_outbound_payload, on_dtmf, requested, send_audio_packet, send_dtmf_packet, source_closed,
  tick_panics, tick_payload, ticked, write_panics, writer_run, writer_step, writer_tick,
}

-- Each packet has the number after that of the packet before it, on 16 bits.
unfoldable pub AreConsecutive : ℕ → List Packet → Type 0
AreConsecutive first [] = Unit
AreConsecutive first (p ∷ ps) =
    (p.sequence ≡ u16 (first + suc (length ps))) × AreConsecutive first ps

pub record IsNumbered (first : ℕ) (w : Writer) : Type 0 where
  pub last : w.sequence ≡ u16 (first + length w.sent)
  pub consecutive : AreConsecutive first w.sent

following : (first s n : ℕ) → s ≡ u16 (first + n) → u16 (s + 1) ≡ u16 (first + suc n)
following first s n e = omega arith

send_dtmf_packet-IsNumbered :
    (first b : ℕ)
    → (cfg : WriterConfig) → (p : List ℕ) → (more : List (List ℕ)) → (w : Writer)
    → IsNumbered first w
    → IsNumbered first (send_dtmf_packet b cfg p more w)
unfolding send_dtmf_packet AreConsecutive
send_dtmf_packet-IsNumbered first b cfg p more w v =
    let next = following first w.sequence (length w.sent) v.last in
    record { last = next; consecutive = (next, v.consecutive) }

send_audio_packet-IsNumbered :
    (first b : ℕ)
    → (cfg : WriterConfig) → (w : Writer) → IsNumbered first w
    → IsNumbered first (send_audio_packet b cfg w)
unfolding send_audio_packet AreConsecutive
send_audio_packet-IsNumbered first b cfg w v =
    let next = following first w.sequence (length w.sent) v.last in
    elim (Result-cases (
      encode_outbound_payload cfg.tables (tick_payload b w) (actual_ws_codec cfg) cfg.ws_codec
        cfg.info)) [
          | inl (payload, e) ↦
              rw (e, send_audio_packet)
                (record { last = next; consecutive = (next, v.consecutive) })
          | inr (x, e) ↦
              rw (e, send_audio_packet) (record { last = v.last; consecutive = v.consecutive })
        ]

pub list-cases :
    (ps : List (List ℕ)) → (ps ≡ []) ⊎ ((p : List ℕ) × (more : List (List ℕ)) × (ps ≡ p ∷ more))
list-cases [] = inl refl
list-cases (p ∷ more) = inr (p, more, refl)

writer_tick-IsNumbered :
    (first b : ℕ)
    → (cfg : WriterConfig) → (w : Writer) → IsNumbered first w
    → IsNumbered first (writer_tick b cfg w)
unfolding writer_tick
writer_tick-IsNumbered first b cfg w v = elim (list-cases w.pending_dtmf) [
  | inr (p, more, e) ↦ rw (e, writer_tick) (send_dtmf_packet-IsNumbered first b cfg p more w v)
  | inl e ↦ elim (Bool-cases (w.ring.count == 0)) [
    | inl g ↦ rw (e, g, writer_tick) v
    | inr g ↦ rw (e, g, writer_tick) (send_audio_packet-IsNumbered first b cfg w v)
  ]
]

writer_step-IsNumbered :
    (first fuel : ℕ)
    → (cfg : WriterConfig) → (e : WriterEvent) → (w w' : Writer) → IsNumbered first w
    → writer_step fuel cfg e w ≡ some w'
    → IsNumbered first w'
unfolding writer_step on_dtmf
writer_step-IsNumbered first fuel cfg (audio bytes) w w' v g =
    elim (Bool-cases (write_panics bytes w.ring)) [
      | inl h ↦ absurd (some-none (sym (rw (h, writer_step) at g)))
      | inr h ↦
          subst (IsNumbered first) (some-inj (rw (h, writer_step) at g))
            (record { last = v.last; consecutive = v.consecutive })
    ]
writer_step-IsNumbered first fuel cfg source_closed w w' v g =
    subst (IsNumbered first) (some-inj g) v
writer_step-IsNumbered first fuel cfg ticked w w' v g =
    elim (Bool-cases (tick_panics (bytes_per_tick_of cfg) w)) [
      | inl h ↦ absurd (some-none (sym (rw (h, writer_step) at g)))
      | inr h ↦
          subst (IsNumbered first) (some-inj (rw (h, writer_step) at g))
            (writer_tick-IsNumbered first (bytes_per_tick_of cfg) cfg w v)
    ]
writer_step-IsNumbered first fuel cfg (requested req) w w' v g =
    elim (Bool-cases (cfg.info.dtmf_payload_type == 0)) [
      | inl h ↦ subst (IsNumbered first) (some-inj (rw (h, writer_step, on_dtmf) at g)) v
      | inr h ↦
          elim (Option-cases (
            generate fuel (new_dtmf_generator cfg.info.codec.sample_rate cfg.info.ptime) req.digit
              req.duration)) [
                | inl k ↦ absurd (some-none (sym (rw (h, k, writer_step, on_dtmf) at g)))
                | inr (ps, k) ↦
                    subst (IsNumbered first) (some-inj (rw (h, k, writer_step, on_dtmf) at g))
                      (record { last = v.last; consecutive = v.consecutive })
              ]
    ]

-- In every run of the writer that does not panic, over audio, DTMF requests and ticks in any order,
-- the packets are numbered without a gap or a repetition from the first number on, modulo 2^16,
-- whether they carry audio or DTMF.
pub writer_run-IsNumbered :
    (first fuel : ℕ)
    → (cfg : WriterConfig) → (es : List WriterEvent) → (w w' : Writer) → IsNumbered first w
    → writer_run fuel cfg es w ≡ some w'
    → IsNumbered first w'
unfolding writer_run
writer_run-IsNumbered first fuel cfg [] w w' v g = subst (IsNumbered first) (some-inj g) v
writer_run-IsNumbered first fuel cfg (e ∷ es) w w' v g =
    elim (Option-cases (writer_step fuel cfg e w)) [
      | inl h ↦ absurd (some-none (sym (rw (h, writer_run) at g)))
      | inr (next, h) ↦
          writer_run-IsNumbered first fuel cfg es next w'
            (writer_step-IsNumbered first fuel cfg e w next v h) (rw (h, writer_run) at g)
    ]
