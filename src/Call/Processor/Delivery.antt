-- ===== src/Call/Processor/Delivery.antt =====
-- internal/call/audio_bridge.go: what the client gets of the packets.
use tele_portal.Audio.Codec.{CodecError, CodecName, Stream}
use tele_portal.Audio.G711.Tables.{Tables}
use tele_portal.Call.Processor.{
  Media, QueuedMessage, RtpPacket, broadcast, bytes_of, decode, is_dtmf_packet, is_present,
  is_recording, process_packet, push_left, transcoding_required,
}
use tele_portal.Call.Processor.Buffers.{push_left-cases}
use tele_portal.Common.{
  Bool, Bool-cases, List, [], ap, arith, if◌then◌else◌, inl, inr, leb, length, length-append, not,
  refl, suc, sym, take, true, zero, ℕ, ◌++◌, ◌||◌, ◌∷◌, ◌≡◌, ◌≤◌,
}
use tele_portal.Common.Result.{Result, err, ok}
use tele_portal.Rtp.Dtmf.{payload}

abbrev pub audio_message : List ℕ → List QueuedMessage
audio_message samples = record { is_binary = true; payload = samples } ∷ []

abbrev pub decoded_message : Bool → RtpPacket → Result CodecError (List ℕ) → List QueuedMessage
decoded_message transcoding p (err e) = []
decoded_message transcoding p (ok samples) =
    audio_message (if transcoding then samples else bytes_of p.payload)

-- The message that a packet makes, if the client is there and has room.
unfoldable pub wanted : Tables → Bool → RtpPacket → Media → List QueuedMessage
unfolding is_dtmf_packet transcoding_required decode
wanted t listening p m =
    let transcoding = transcoding_required m in
    if is_dtmf_packet m p || not listening
    then []
    else if is_recording m || transcoding
    then decoded_message transcoding p (decode t m.stream.codec.name p.payload)
    else audio_message (bytes_of p.payload)

-- Messages for the channel: what has no room is left out.
abbrev pub offer : List QueuedMessage → List QueuedMessage → List QueuedMessage
offer qs ws = take 200 (qs ++ ws)

unfoldable pub process_all : Tables → List (Bool × RtpPacket) → Media → Media
unfolding process_packet
process_all t [] m = m
process_all t ((listening, p) ∷ ps) m = process_all t ps (process_packet t listening p m)

unfoldable pub wanted_all : Tables → List (Bool × RtpPacket) → Media → List QueuedMessage
unfolding wanted
wanted_all t [] m = []
wanted_all t ((listening, p) ∷ ps) m = wanted t listening p m ++ wanted_all t ps m

-- What a round of the loop does not change.
abbrev pub setup : Media → CodecName × Stream × Bool × Bool
setup m = (m.ws_codec, m.stream, m.has_client, is_recording m)

pub push_left-setup : (samples : List ℕ) (m : Media) → setup (push_left samples m) ≡ setup m
push_left-setup samples m = elim (push_left-cases samples m) [
  | inl e ↦ rw e refl
  | inr (inl e) ↦ rw e refl
  | inr (inr (r, e, f)) ↦
      rw f (ap (λ b. (m.ws_codec, m.stream, m.has_client, b)) (sym (ap is_present e)))
]

pub push_left-send : (samples : List ℕ) (m : Media) → (push_left samples m).send ≡ m.send
push_left-send samples m = elim (push_left-cases samples m) [
  | inl e ↦ rw e refl
  | inr (inl e) ↦ rw e refl
  | inr (inr (r, e, f)) ↦ rw f refl
]

pub broadcast-setup : (payload : List ℕ) (m : Media) → setup (broadcast true payload m) ≡ setup m
unfolding broadcast
broadcast-setup payload m = elim (Bool-cases (not m.has_client || leb 200 (length m.send))) [
  | inl e ↦ rw (e, broadcast) refl
  | inr e ↦ rw (e, broadcast) refl
]

take-full : (n : ℕ) (qs ws : List QueuedMessage) → n ≡ length qs → take n (qs ++ ws) ≡ qs
take-full zero [] ws e = refl
take-full (suc n) [] ws e = absurd (omega arith)
take-full zero (q ∷ qs) ws e = absurd (omega arith)
take-full (suc n) (q ∷ qs) ws e = ap (λ l. q ∷ l) (take-full n qs ws (omega arith))

pub take-roomy : (n : ℕ) (qs : List QueuedMessage) → length qs ≤ n → take n qs ≡ qs
take-roomy zero [] e = refl
take-roomy (suc n) [] e = refl
take-roomy zero (q ∷ qs) e = absurd (omega arith)
take-roomy (suc n) (q ∷ qs) e = ap (λ l. q ∷ l) (take-roomy n qs (omega arith))

pub take-again : (n : ℕ) (qs ws : List QueuedMessage) → take n (take n qs ++ ws) ≡ take n (qs ++ ws)
take-again zero qs ws = refl
take-again (suc n) [] ws = refl
take-again (suc n) (q ∷ qs) ws = ap (λ l. q ∷ l) (take-again n qs ws)

pub broadcast-send :
    (payload : List ℕ) (m : Media)
    → m.has_client ≡ true
    → length m.send ≤ 200
    → (broadcast true payload m).send ≡ offer m.send (audio_message payload)
unfolding broadcast
broadcast-send payload m c h = elim (Bool-cases (leb 200 (length m.send))) [
  | inl e ↦ simp (c, e, take-full 200 m.send (audio_message payload) (ground (arith, e, h)))
  | inr e ↦ simp (
    c,
    e,
    take-roomy 200 (m.send ++ audio_message payload)
        (ground (arith, e, length-append m.send (audio_message payload))),
  )
]
