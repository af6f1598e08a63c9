-- ===== src/Call/Processor/Client.antt =====
-- internal/call/audio_bridge.go: what the client of a call gets of all the packets.
use mathlib.Core.List.{append-nil, append_assoc}
use tele_portal.Audio.Codec.{pass, same_name}
use tele_portal.Audio.G711.Tables.{Tables}
use tele_portal.Call.Processor.{
  Media, QueuedMessage, RtpPacket, bytes_of, decode, deliver, get_buffer, is_dtmf_packet,
  is_recording, process_packet, put_buffer, transcoding_required,
}
use tele_portal.Call.Processor.Delivery.{
  audio_message, decoded_message, offer, process_all, setup, take-again, take-roomy, wanted,
  wanted_all,
}
use tele_portal.Call.Processor.Order.{
  IsRound, deliver-false, deliver-true, quiet-IsRound, sent_bytes,
}
use tele_portal.Common.{
  Bool, Bool-cases, List, [], ap, ap₂, arith, false, if◌then◌else◌, inl, inr, length, length-take,
  none, not, refl, some, subst, sym, take, true, ℕ, ◌&&◌, ◌++◌, ◌==◌, ◌||◌, ◌∙◌, ◌∷◌, ◌≡◌, ◌≤◌,
}
use tele_portal.Common.Result.{Result-cases, ok}

module _ (t : Tables) (listening : Bool) (p : RtpPacket) (m : Media) (client : m.has_client ≡ true)
    (room : length m.send ≤ 200) where
  abbrev Rounds : Type 0
  Rounds = IsRound (wanted t listening p m) m (process_packet t listening p m)

  round_by :
      (ws : List QueuedMessage) (n : Media)
      → process_packet t listening p m ≡ n
      → wanted t listening p m ≡ ws
      → IsRound ws m n
      → Rounds
  round_by ws n e f g = rw (e, f) g

  from_taken : {ws : List QueuedMessage} {n : Media} → IsRound ws (get_buffer m) n → IsRound ws m n
  from_taken r = record { same = r.same; sent = r.sent }

  -- The buffer goes back, and nothing else happens.
  round_ignored :
      process_packet t listening p m ≡ put_buffer m → wanted t listening p m ≡ [] → Rounds
  round_ignored e f = round_by [] (put_buffer m) e f (quiet-IsRound m (put_buffer m) refl refl room)

  round_decoded :
      (samples : List ℕ)
      → is_dtmf_packet m p ≡ false
      → (is_recording m || transcoding_required m) ≡ true
      → (not listening && not (is_recording m)) ≡ false
      → decode t m.stream.codec.name p.payload ≡ ok samples
      → Rounds
  unfolding process_packet wanted
  round_decoded samples d r l e = elim (Bool-cases listening) [
    | inl h ↦
        round_by (audio_message (sent_bytes (some samples) p m))
          (deliver true (some samples) p (get_buffer m)) (ground (arith, d, r, l, e, h))
          (ground (arith, d, r, l, e, h))
          (from_taken (deliver-true (some samples) p (get_buffer m) client room))
    | inr h ↦
        round_by [] (deliver false (some samples) p (get_buffer m)) (ground (arith, d, r, l, e, h))
          (ground (arith, d, r, l, e, h))
          (from_taken (deliver-false (some samples) p (get_buffer m) room))
  ]

  round_raw :
      is_dtmf_packet m p ≡ false
      → is_recording m ≡ false
      → transcoding_required m ≡ false
      → listening ≡ true
      → Rounds
  unfolding process_packet wanted
  round_raw d r c h =
      round_by (audio_message (bytes_of p.payload)) (deliver true none p m)
        (ground (arith, d, r, c, h)) (ground (arith, d, r, c, h))
        (subst (λ b. IsRound (audio_message b) m (deliver true none p m)) (simp c)
          (deliver-true none p m client room))

  round_silent :
      is_dtmf_packet m p ≡ false → (not listening && not (is_recording m)) ≡ true → Rounds
  unfolding process_packet wanted
  round_silent d l = round_ignored (ground (arith, d, l)) (ground (arith, d, l))

  round_coded :
      is_dtmf_packet m p ≡ false
      → (is_recording m || transcoding_required m) ≡ true
      → (not listening && not (is_recording m)) ≡ false
      → Rounds
  unfolding process_packet wanted
  round_coded d r l = elim (Result-cases (decode t m.stream.codec.name p.payload)) [
    | inl (samples, e) ↦ round_decoded samples d r l e
    | inr (x, e) ↦ round_ignored (ground (arith, d, r, l, e)) (ground (arith, d, r, l, e))
  ]

  round_dtmf : is_dtmf_packet m p ≡ true → Rounds
  unfolding process_packet wanted
  round_dtmf d = round_ignored (ground (arith, d)) (ground (arith, d))

  -- The message of a packet is offered to the client.
  pub process_packet-IsRound : Rounds
  process_packet-IsRound = elim (Bool-cases (is_dtmf_packet m p)) [
    | inl d ↦ round_dtmf d
    | inr d ↦ elim (Bool-cases (not listening && not (is_recording m))) [
      | inl l ↦ round_silent d l
      | inr l ↦ elim (Bool-cases (is_recording m || transcoding_required m)) [
        | inl r ↦ round_coded d r l
        | inr r ↦ round_raw d (ground (arith, r)) (ground (arith, r)) (ground (arith, r, l))
      ]
    ]
  ]

transcoding_required-setup :
    (m n : Media) → setup n ≡ setup m → transcoding_required n ≡ transcoding_required m
unfolding transcoding_required
transcoding_required-setup m n e =
    ap (λ s. not (same_name s.0 pass) && not (same_name s.0 s.1.codec.name)) e

is_dtmf_packet-setup :
    (p : RtpPacket) (m n : Media) → setup n ≡ setup m → is_dtmf_packet n p ≡ is_dtmf_packet m p
unfolding is_dtmf_packet
is_dtmf_packet-setup p m n e =
    ap
      (λ s.
        not (s.1.dtmf_payload_type == 0)
        && elim p.payload_type [ none ↦ false | some k ↦ k == s.1.dtmf_payload_type ])
      e

wanted-setup :
    (t : Tables) (listening : Bool) (p : RtpPacket) (m n : Media)
    → setup n ≡ setup m
    → wanted t listening p n ≡ wanted t listening p m
unfolding wanted
wanted-setup t listening p m n e =
    rw (is_dtmf_packet-setup p m n e, transcoding_required-setup m n e)
      (ap
        (λ s.
          if is_dtmf_packet m p || not listening
          then []
          else if s.3 || transcoding_required m
          then decoded_message (transcoding_required m) p (decode t s.1.codec.name p.payload)
          else audio_message (bytes_of p.payload))
        e)

wanted_all-setup :
    (t : Tables) (ps : List (Bool × RtpPacket)) (m n : Media)
    → setup n ≡ setup m
    → wanted_all t ps n ≡ wanted_all t ps m
unfolding wanted_all
wanted_all-setup t [] m n e = refl
wanted_all-setup t ((listening, p) ∷ ps) m n e =
    ap₂ ◌++◌ (wanted-setup t listening p m n e) (wanted_all-setup t ps m n e)

length-offer : (qs ws : List QueuedMessage) → length (offer qs ws) ≤ 200
length-offer qs ws = omega (arith, length-take 200 (qs ++ ws))

-- While a client that takes no message is there, its channel has the first 200 of the messages that
-- waited and the messages of the packets, in their order.
pub process_all-take :
    (t : Tables) (ps : List (Bool × RtpPacket)) (m : Media)
    → m.has_client ≡ true
    → length m.send ≤ 200
    → (process_all t ps m).send ≡ take 200 (m.send ++ wanted_all t ps m)
unfolding process_all wanted_all
process_all-take t [] m c h = sym (ap (take 200) (append-nil m.send) ∙ take-roomy 200 m.send h)
process_all-take t ((listening, p) ∷ ps) m c h =
    let r = process_packet-IsRound t listening p m c h in
    let n = process_packet t listening p m in
    let w = wanted t listening p m in
    process_all-take t ps n (ap (λ s. s.2) r.same ∙ c)
      (subst (λ q. length q ≤ 200) (sym r.sent) (length-offer m.send w))
    ∙ ap₂ (λ q v. take 200 (q ++ v)) r.sent (wanted_all-setup t ps m n r.same)
    ∙ take-again 200 (m.send ++ w) (wanted_all t ps m)
    ∙ ap (take 200) (append_assoc m.send w (wanted_all t ps m))
