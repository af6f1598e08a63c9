-- ===== src/Call/Processor/Conservation.antt =====
-- internal/call/audio_bridge.go: what the audio processor owes to the pool.
use tele_portal.Audio.G711.Tables.{Tables}
use tele_portal.Call.Processor.{
  Media, RtpPacket, decode, deliver, get_buffer, is_dtmf_packet, is_recording, process_packet,
  push_left, put_buffer, send_audio, transcoding_required,
}
use tele_portal.Call.Processor.Buffers.{
  Moves, push_left-Moves, push_left-transcoding, put_buffer-Moves, send_audio-Moves,
  send_audio-plain,
}
use tele_portal.Common.{
  Bool, Bool-cases, List, arith, false, if◌then◌else◌, inl, inr, none, not, some, subst, sym, true,
  ℕ, ◌&&◌, ◌∙◌, ◌≡◌, ◌⊎◌,
}
use tele_portal.Common.Result.{Result-cases, err, ok}

-- The decoded copy that is not put back: the one made for the recorder alone while the client gets
-- the bytes of the packet.
unfoldable pub lost : Tables → RtpPacket → Media → ℕ
unfolding is_dtmf_packet transcoding_required decode
lost t p m =
    if is_dtmf_packet m p
    then 0
    else if is_recording m && not (transcoding_required m)
    then elim (decode t m.stream.codec.name p.payload) [ ok samples ↦ 1 | err e ↦ 0 ]
    else 0

deliver-transcoded :
    (listening : Bool) (samples : List ℕ) (p : RtpPacket) (m : Media)
    → transcoding_required m ≡ true
    → Moves 0 1 m (deliver listening (some samples) p (get_buffer m))
unfolding deliver transcoding_required
deliver-transcoded listening samples p m e =
    let l = get_buffer m in
    let n = push_left samples l in
    let o = send_audio listening (some samples) p n in
    let sent = send_audio-Moves listening samples p n (push_left-transcoding samples l ∙ e) in
    omega (arith, push_left-Moves samples l, sent)

send_audio-raw :
    (listening : Bool) (samples : List ℕ) (p : RtpPacket) (m : Media)
    → transcoding_required m ≡ false
    → send_audio listening (some samples) p m ≡ send_audio listening none p m
unfolding send_audio
send_audio-raw true samples p m e = simp (e, send_audio)
send_audio-raw false samples p m e = simp (e, send_audio)

deliver-recorded :
    (listening : Bool) (samples : List ℕ) (p : RtpPacket) (m : Media)
    → transcoding_required m ≡ false
    → Moves 1 1 m (deliver listening (some samples) p (get_buffer m))
unfolding deliver transcoding_required
deliver-recorded listening samples p m e =
    let l = get_buffer m in
    let n = push_left samples l in
    let same = push_left-transcoding samples l ∙ e in
    let sent : Moves 0 0 n (send_audio listening (some samples) p n) =
      subst (Moves 0 0 n) (sym (send_audio-raw listening samples p n same))
        (send_audio-plain listening p n same) in
    omega (arith, push_left-Moves samples l, sent)

deliver-raw :
    (listening : Bool) (p : RtpPacket) (m : Media)
    → transcoding_required m ≡ false
    → Moves 0 1 m (deliver listening none p m)
unfolding deliver
deliver-raw listening p m e = let sent = send_audio-plain listening p m e in omega (arith, sent)

-- The rounds of the loop, with the cases of its guards.
module _ (t : Tables) (listening : Bool) (p : RtpPacket) (m : Media) where
  abbrev Conserves : Type 0
  Conserves = Moves (lost t p m) 1 m (process_packet t listening p m)

  conserves_by :
      (k : ℕ) (n : Media)
      → process_packet t listening p m ≡ n
      → lost t p m ≡ k
      → Moves k 1 m n
      → Conserves
  conserves_by k n e f g = rw (e, f) g

  conserves_recorded : is_dtmf_packet m p ≡ false → is_recording m ≡ true → Conserves
  unfolding lost process_packet
  conserves_recorded d r = elim (Result-cases (decode t m.stream.codec.name p.payload)) [
    | inr (x, e) ↦
        conserves_by 0 (put_buffer m) (ground (arith, d, r, e)) (ground (arith, d, r, e))
          (put_buffer-Moves m)
    | inl (samples, e) ↦
        let n = deliver listening (some samples) p (get_buffer m) in
        elim (Bool-cases (transcoding_required m)) [
          | inl c ↦
              conserves_by 0 n (ground (arith, d, r, e, c)) (ground (arith, d, r, e, c))
                (deliver-transcoded listening samples p m c)
          | inr c ↦
              conserves_by 1 n (ground (arith, d, r, e, c)) (ground (arith, d, r, e, c))
                (deliver-recorded listening samples p m c)
        ]
  ]

  conserves_unrecorded :
      is_dtmf_packet m p ≡ false → is_recording m ≡ false → listening ≡ true → Conserves
  unfolding lost process_packet
  conserves_unrecorded d r h = elim (Bool-cases (transcoding_required m)) [
    | inr c ↦
        conserves_by 0 (deliver listening none p m) (ground (arith, d, r, c, h))
          (ground (arith, d, r, c)) (deliver-raw listening p m c)
    | inl c ↦ elim (Result-cases (decode t m.stream.codec.name p.payload)) [
      | inr (x, e) ↦
          conserves_by 0 (put_buffer m) (ground (arith, d, r, c, e, h)) (ground (arith, d, r, c, e))
            (put_buffer-Moves m)
      | inl (samples, e) ↦
          conserves_by 0 (deliver listening (some samples) p (get_buffer m))
            (ground (arith, d, r, c, e, h)) (ground (arith, d, r, c, e))
            (deliver-transcoded listening samples p m c)
    ]
  ]

  conserves_ignored :
      (is_dtmf_packet m p ≡ true)
        ⊎ ((is_dtmf_packet m p ≡ false) × (listening ≡ false) × (is_recording m ≡ false))
      → Conserves
  unfolding lost process_packet
  conserves_ignored (inl d) =
      conserves_by 0 (put_buffer m) (ground (arith, d)) (ground (arith, d)) (put_buffer-Moves m)
  conserves_ignored (inr (d, h, r)) =
      conserves_by 0 (put_buffer m) (ground (arith, d, h, r)) (ground (arith, d, h, r))
        (put_buffer-Moves m)

-- The counts of a round of the loop: what comes to be in a channel and what is given back to the
-- pool are as many as the packet's buffer and those taken from the pool, less the copy that was
-- decoded for the recorder alone. Which buffer is given back is not said.
process_packet-Moves :
    (t : Tables) (listening : Bool) (p : RtpPacket) (m : Media)
    → Moves (lost t p m) 1 m (process_packet t listening p m)
process_packet-Moves t listening p m = elim (Bool-cases (is_dtmf_packet m p)) [
  | inl d ↦ conserves_ignored t listening p m (inl d)
  | inr d ↦ elim (Bool-cases (is_recording m)) [
    | inl r ↦ conserves_recorded t listening p m d r
    | inr r ↦ elim (Bool-cases listening) [
      | inl h ↦ conserves_unrecorded t listening p m d r h
      | inr h ↦ conserves_ignored t listening p m (inr (d, h, r))
    ]
  ]
]
