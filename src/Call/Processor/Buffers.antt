-- ===== src/Call/Processor/Buffers.antt =====
-- internal/call/audio_bridge.go: where the buffers of the pool are.
-- The binary messages in the channel of the client.
use tele_portal.Call.Processor.{
  Media, QueuedMessage, RecorderChannels, RtpPacket, broadcast, bytes_of, get_buffer, push_left,
  push_right, put_buffer, put_left, put_right, send_audio, transcoding_required,
}
use tele_portal.Common.{
  Bool, Bool-cases, List, Option, Option-cases, [], ap, arith, false, if◌then◌else◌, inl, inr, leb,
  length, length-append, none, not, refl, some, subst, suc, sym, true, ℕ, ◌++◌, ◌+◌, ◌==◌, ◌||◌,
  ◌∷◌, ◌≡◌, ◌⊎◌,
}
use tele_portal.Rtp.Dtmf.{payload}

abbrev pub binaries : List QueuedMessage → ℕ
binaries [] = 0
binaries (q ∷ qs) = if q.is_binary then suc (binaries qs) else binaries qs

abbrev pub in_recorder : Option RecorderChannels → ℕ
in_recorder none = 0
in_recorder (some r) = length r.left_ch + length r.right_ch

abbrev pub in_output : Option (List (List ℕ)) → ℕ
in_output none = 0
in_output (some queue) = length queue

-- The buffers in the channels and those that went back.
abbrev pub settled : Media → ℕ
settled m = m.returned + binaries m.send + in_recorder m.recorder + in_output m.output

-- A step that takes `a` buffers into its own hands and lets `b` of those in its hands go.
abbrev pub Moves : ℕ → ℕ → Media → Media → Type 0
Moves a b m n = settled n + m.taken + a ≡ settled m + n.taken + b

binaries-append :
    (qs : List QueuedMessage) (b : Bool) (payload : List ℕ)
    → binaries (qs ++ record { is_binary = b; payload = payload } ∷ [])
      ≡ (if b then suc (binaries qs) else binaries qs)
binaries-append [] b payload = refl
binaries-append (q ∷ qs) b payload = ground (arith, binaries-append qs b payload)

pub put_buffer-Moves : (m : Media) → Moves 0 1 m (put_buffer m)
put_buffer-Moves m = omega arith

pub get_buffer-Moves : (m : Media) → Moves 1 0 m (get_buffer m)
get_buffer-Moves m = omega arith

broadcast-Moves : (payload : List ℕ) (m : Media) → Moves 0 1 m (broadcast true payload m)
unfolding broadcast
broadcast-Moves payload m = elim (Bool-cases (not m.has_client || leb 200 (length m.send))) [
  | inl e ↦ rw (e, broadcast) (omega arith)
  | inr e ↦ rw (e, broadcast) (omega (arith, binaries-append m.send true payload))
]

pub push_left-cases :
    (samples : List ℕ) (m : Media)
    → (push_left samples m ≡ m)
      ⊎ ((push_left samples m ≡ put_buffer (get_buffer m))
          ⊎ ((r : RecorderChannels) × (m.recorder ≡ some r)
              × (push_left samples m
                  ≡ record (get_buffer m) { recorder = some (put_left samples r) })))
unfolding push_left
push_left-cases samples m = elim (Option-cases m.recorder) [
  | inl e ↦ inl (simp (e, push_left))
  | inr (r, e) ↦ elim (Bool-cases (length samples == 0)) [
    | inl z ↦ inl (simp (e, z, push_left))
    | inr z ↦ elim (Bool-cases (r.stops || leb 100 (length r.left_ch))) [
      | inl f ↦ inr (inl (simp (e, z, f, push_left)))
      | inr f ↦ inr (inr (r, e, simp (e, z, f, push_left)))
    ]
  ]
]

push_right-cases :
    (samples : List ℕ) (m : Media)
    → (push_right samples m ≡ m)
      ⊎ ((push_right samples m ≡ put_buffer (get_buffer m))
          ⊎ ((r : RecorderChannels) × (m.recorder ≡ some r)
              × (push_right samples m
                  ≡ record (get_buffer m) { recorder = some (put_right samples r) })))
unfolding push_right
push_right-cases samples m = elim (Option-cases m.recorder) [
  | inl e ↦ inl (simp (e, push_right))
  | inr (r, e) ↦ elim (Bool-cases (length samples == 0)) [
    | inl z ↦ inl (simp (e, z, push_right))
    | inr z ↦ elim (Bool-cases (r.stops || leb 100 (length r.right_ch))) [
      | inl f ↦ inr (inl (simp (e, z, f, push_right)))
      | inr f ↦ inr (inr (r, e, simp (e, z, f, push_right)))
    ]
  ]
]

length-snoc : (xs : List (List ℕ)) (x : List ℕ) → length (xs ++ x ∷ []) ≡ suc (length xs)
length-snoc xs x = omega (arith, length-append xs (x ∷ []))

pub push_left-Moves : (samples : List ℕ) (m : Media) → Moves 0 0 m (push_left samples m)
push_left-Moves samples m = elim (push_left-cases samples m) [
  | inl e ↦ subst (Moves 0 0 m) (sym e) refl
  | inr (inl e) ↦ subst (Moves 0 0 m) (sym e) (omega arith)
  | inr (inr (r, e, f)) ↦
      subst (Moves 0 0 m) (sym f) (omega (arith, ap in_recorder e, length-snoc r.left_ch samples))
]

pub push_right-Moves : (samples : List ℕ) (m : Media) → Moves 0 0 m (push_right samples m)
push_right-Moves samples m = elim (push_right-cases samples m) [
  | inl e ↦ subst (Moves 0 0 m) (sym e) refl
  | inr (inl e) ↦ subst (Moves 0 0 m) (sym e) (omega arith)
  | inr (inr (r, e, f)) ↦
      subst (Moves 0 0 m) (sym f) (omega (arith, ap in_recorder e, length-snoc r.right_ch samples))
]

-- A step on a packet whose decoded copy, if there is one, has been taken.
pub send_audio-Moves :
    (listening : Bool) (samples : List ℕ) (p : RtpPacket) (m : Media)
    → transcoding_required m ≡ true
    → Moves 0 1 m (send_audio listening (some samples) p m)
unfolding send_audio
send_audio-Moves true samples p m e = rw (e, send_audio) (broadcast-Moves samples m)
send_audio-Moves false samples p m e = rw (e, send_audio) (put_buffer-Moves m)

pub send_audio-plain :
    (listening : Bool) (p : RtpPacket) (m : Media)
    → transcoding_required m ≡ false
    → Moves 0 0 m (send_audio listening none p m)
unfolding send_audio
send_audio-plain true p m e =
    rw (e, send_audio) (omega (arith, broadcast-Moves (bytes_of p.payload) (get_buffer m)))
send_audio-plain false p m e = refl

-- The pushes leave the codecs.
pub push_left-transcoding :
    (samples : List ℕ) (m : Media)
    → transcoding_required (push_left samples m) ≡ transcoding_required m
unfolding transcoding_required
push_left-transcoding samples m = elim (push_left-cases samples m) [
  | inl e ↦ rw e refl
  | inr (inl e) ↦ rw e refl
  | inr (inr (r, e, f)) ↦ rw f refl
]
