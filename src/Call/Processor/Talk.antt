-- ===== src/Call/Processor/Talk.antt =====
-- internal/call/audio_bridge.go: the buffers of the messages that a client sends.
use tele_portal.Audio.Codec.{
  CodecError, CodecName, decode_l16be_to_l16le, decode_loop, decode_pcma_to_l16, decode_pcmu_to_l16,
  l16, opus, pass, pcma, pcmu, same_name, swap_loop, unnamed,
}
use tele_portal.Audio.G711.Tables.{Tables}
use tele_portal.Call.Processor.{
  Media, client_codec, forward, get_buffer, is_recording, on_binary, push_copy, put_buffer,
  record_as,
}
use tele_portal.Call.Processor.Buffers.{Moves, in_output, push_right-Moves, put_buffer-Moves}
use tele_portal.Common.{
  Bool-cases, List, Option-cases, [], ap, arith, false, inl, inr, leb, length, length-append, not,
  refl, some, subst, sym, ℕ, ◌%◌, ◌&&◌, ◌++◌, ◌<◌, ◌==◌, ◌∷◌, ◌≡◌, ◌⊎◌,
}
use tele_portal.Common.Result.{Result, err, ok}
use tele_portal.Rtp.Dtmf.{payload}

-- The decoders give something for something.
abbrev SomeSamples : Result CodecError (List ℕ) → Type 0
SomeSamples (err e) = Unit {0}
SomeSamples (ok samples) = (length samples == 0) ≡ false

decode_pcmu-some :
    (t : Tables) (payload : List ℕ)
    → 0 < length payload
    → SomeSamples (decode_pcmu_to_l16 t (some payload))
unfolding decode_pcmu_to_l16 decode_loop
decode_pcmu-some t [] h = absurd (omega arith)
decode_pcmu-some t (b ∷ bs) h = ground arith

decode_pcma-some :
    (t : Tables) (payload : List ℕ)
    → 0 < length payload
    → SomeSamples (decode_pcma_to_l16 t (some payload))
unfolding decode_pcma_to_l16 decode_loop
decode_pcma-some t [] h = absurd (omega arith)
decode_pcma-some t (b ∷ bs) h = ground arith

decode_l16be-some :
    (payload : List ℕ) → 0 < length payload → SomeSamples (decode_l16be_to_l16le (some payload))
unfolding decode_l16be_to_l16le swap_loop
decode_l16be-some [] h = absurd (omega arith)
decode_l16be-some (b ∷ []) h = tt
decode_l16be-some (a ∷ b ∷ bs) h = elim (Bool-cases (not (length (a ∷ b ∷ bs) % 2 == 0))) [
  | inl e ↦ rw e tt
  | inr e ↦ rw e (ground arith)
]

push_copy-Moves :
    (r : Result CodecError (List ℕ)) (m : Media) → SomeSamples r → Moves 0 0 m (push_copy r m)
unfolding push_copy
push_copy-Moves (err e) m s = refl
push_copy-Moves (ok samples) m s = rw s (omega (arith, push_right-Moves samples (get_buffer m)))

record_as-Moves :
    (c : CodecName) (t : Tables) (payload : List ℕ) (m : Media)
    → 0 < length payload
    → Moves 0 0 m (record_as c t payload m)
unfolding record_as
record_as-Moves pcmu t payload m h =
    push_copy-Moves (decode_pcmu_to_l16 t (some payload)) m (decode_pcmu-some t payload h)
record_as-Moves pcma t payload m h =
    push_copy-Moves (decode_pcma_to_l16 t (some payload)) m (decode_pcma-some t payload h)
record_as-Moves l16 t payload m h =
    elim (Bool-cases (same_name m.ws_codec pass && m.stream.codec.is_big_endian)) [
      | inl e ↦
          rw (e, record_as)
            (push_copy-Moves (decode_l16be_to_l16le (some payload)) m (decode_l16be-some payload h))
      | inr e ↦ rw (e, record_as) (push_right-Moves payload m)
    ]
record_as-Moves opus t payload m h = push_right-Moves payload m
record_as-Moves pass t payload m h = push_right-Moves payload m
record_as-Moves unnamed t payload m h = push_right-Moves payload m

forward-cases :
    (payload : List ℕ) (m : Media)
    → (forward payload m ≡ put_buffer m)
      ⊎ ((queue : List (List ℕ)) × (m.output ≡ some queue)
          × (forward payload m ≡ record m { output = some (queue ++ payload ∷ []) }))
unfolding forward
forward-cases payload m = elim (Option-cases m.output) [
  | inl e ↦ inl (simp (e, forward))
  | inr (queue, e) ↦ elim (Bool-cases (leb 100 (length queue))) [
    | inl f ↦ inl (simp (e, f, forward))
    | inr f ↦ inr (queue, e, simp (e, f, forward))
  ]
]

forward-Moves : (payload : List ℕ) (m : Media) → Moves 0 1 m (forward payload m)
forward-Moves payload m = elim (forward-cases payload m) [
  | inl e ↦ subst (Moves 0 1 m) (sym e) (put_buffer-Moves m)
  | inr (queue, e, f) ↦
      subst (Moves 0 1 m) (sym f)
        (omega (arith, ap in_output e, length-append queue (payload ∷ [])))
]

forwarded : (payload : List ℕ) (m n : Media) → Moves 1 0 m n → Moves 0 0 m (forward payload n)
forwarded payload m n g = omega (arith, g, forward-Moves payload n)

-- A binary message of the client that is not empty leaves no buffer behind: each that was taken for
-- it is in a channel or back in the pool, exactly once.
pub on_binary-Moves :
    (t : Tables) (payload : List ℕ) (m : Media)
    → 0 < length payload
    → Moves 0 0 m (on_binary t payload m)
unfolding on_binary
on_binary-Moves t payload m h = elim (Bool-cases (is_recording m)) [
  | inl e ↦
      let n = record_as (client_codec m) t payload (get_buffer m) in
      rw (e, on_binary)
        (forwarded payload m n
          (omega (arith, record_as-Moves (client_codec m) t payload (get_buffer m) h)))
  | inr e ↦ rw (e, on_binary) (forwarded payload m (get_buffer m) (omega arith))
]
