-- ===== src/Audio/Jitter/Ownership.antt =====
-- internal/audio/pion_jitter_buffer.go: where the pooled buffers are.
use tele_portal.Audio.Codec.{CodecName, opus, same_name}
use tele_portal.Audio.Jitter.{
  Emitted, Incoming, JitterBuffer, Popped, RawBufferEntry, clean_entries, clean_up, displaced,
  emit_silence, emptied, entry_at, invalid_operation, is_stale, left_buffers, no_entry, or_payload,
  other_error, packet, push, put_buffer, raw_buffer_win_size, received, release_packet,
  release_tick, silent, stale_buffers, stop, take_buffer, underflow, underrun, while_buffering,
}
use tele_portal.Common.{
  Bool, Bool-cases, List, Option, Option-cases, [], arith, false, get_or, if◌then◌else◌, inl, inr,
  length, none, refl, set, some, suc, true, zero, ℕ, ◌%◌, ◌++◌, ◌+◌, ◌<◌, ◌==◌, ◌∷◌, ◌≡◌,
}
use tele_portal.Common.Maps.{size}
use tele_portal.Rtp.Dtmf.{payload}

-- How often a buffer stands in an optional place, in the entries, in a list and in the output.
unfoldable pub in_place : ℕ → Option ℕ → ℕ
in_place b none = 0
in_place b (some c) = if b == c then 1 else 0

unfoldable pub held : ℕ → List RawBufferEntry → ℕ
unfolding in_place
held b [] = 0
held b (e ∷ es) = in_place b e.buf + held b es

unfoldable pub count_of : ℕ → List ℕ → ℕ
unfolding in_place
count_of b [] = 0
count_of b (c ∷ cs) = in_place b (some c) + count_of b cs

unfoldable pub delivered : ℕ → List Emitted → ℕ
unfolding in_place
delivered b [] = 0
delivered b (received seq ts raw ∷ es) = in_place b raw + delivered b es
delivered b (silent seq ts payload ∷ es) = delivered b es

-- All the places where a buffer of the jitter buffer can be.
unfoldable pub owned : ℕ → JitterBuffer → ℕ
unfolding held count_of delivered
owned b j = held b j.raw_buffers + count_of b j.returned + delivered b j.output

held-set :
    (b i : ℕ)
    → (e : RawBufferEntry) → (es : List RawBufferEntry) → i < length es
    → held b (set es i e) + in_place b (get_or es i no_entry).buf ≡ held b es + in_place b e.buf
unfolding held
held-set b i e [] h = absurd (omega arith)
held-set b zero e (x ∷ es) h = omega arith
held-set b (suc i) e (x ∷ es) h = omega (arith, held-set b i e es (omega arith))

count_of-put_buffer :
    (b : ℕ)
    → (o : Option ℕ) → (cs : List ℕ) → count_of b (put_buffer o cs) ≡ in_place b o + count_of b cs
unfolding count_of in_place
count_of-put_buffer b none cs = omega arith
count_of-put_buffer b (some c) cs = refl

count_of-append : (b : ℕ) → (cs ds : List ℕ) → count_of b (cs ++ ds) ≡ count_of b cs + count_of b ds
unfolding count_of
count_of-append b [] ds = omega arith
count_of-append b (c ∷ cs) ds = omega (arith, count_of-append b cs ds)

clean-held :
    (b seq : ℕ)
    → (es : List RawBufferEntry)
    → held b (clean_entries seq es) + count_of b (stale_buffers seq es) ≡ held b es
unfolding held clean_entries stale_buffers count_of in_place
clean-held b seq [] = refl
clean-held b seq (e ∷ es) = elim (Bool-cases (is_stale seq e)) [
  | inl g ↦
      rw g (omega (arith, clean-held b seq es, count_of-put_buffer b e.buf (stale_buffers seq es)))
  | inr g ↦ rw g (omega (arith, clean-held b seq es))
]

left-held :
    (b : ℕ)
    → (es : List RawBufferEntry) → held b (emptied es) + count_of b (left_buffers es) ≡ held b es
unfolding held emptied left_buffers in_place count_of
left-held b [] = refl
left-held b (e ∷ es) = omega (arith, left-held b es, count_of-put_buffer b e.buf (left_buffers es))

-- The buffer that a packet hands over, and the one that is overwritten without being returned: that
-- of an entry with the packet's own number.
unfoldable pub handed : Incoming → Option ℕ
handed p = if p.has_raw then p.raw_buffer else or_payload p.raw_buffer p.payload

unfoldable pub overwritten : Incoming → JitterBuffer → Option ℕ
overwritten p j =
    if p.has_raw
    then (if (entry_at p.sequence j).seq == p.sequence then (entry_at p.sequence j).buf else none)
    else none

displaced-entry :
    (b seq : ℕ)
    → (e : RawBufferEntry)
    → in_place b (displaced seq e) + in_place b (if e.seq == seq then e.buf else none)
      ≡ in_place b e.buf
unfolding in_place
displaced-entry b seq e = elim (Bool-cases (e.seq == seq)) [
  | inl g ↦ rw g (omega arith)
  | inr g ↦ rw g (omega arith)
]

-- No buffer is lost or duplicated by `Push`: each buffer is afterwards in as many places (entries,
-- pool, output) as before, and once more if the packet handed it over, and once less if it was the
-- buffer of an entry with the packet's own number, which is overwritten.
pub push-owned :
    (b : ℕ)
    → (p : Incoming) → (j : JitterBuffer) → length j.raw_buffers ≡ raw_buffer_win_size
    → owned b (push p j) + in_place b (overwritten p j) ≡ owned b j + in_place b (handed p)
unfolding owned push overwritten handed in_place
push-owned b p j size = elim (Bool-cases p.has_raw) [
  | inr g ↦
      rw (g, push, overwritten, handed)
        (omega (arith, count_of-put_buffer b (or_payload p.raw_buffer p.payload) j.returned))
  | inl g ↦
      rw (g, push, overwritten, handed)
        (omega (
          arith,
          held-set b (p.sequence % 1024) (record { buf = p.raw_buffer; seq = p.sequence })
              j.raw_buffers (omega arith),
          count_of-put_buffer b (displaced p.sequence (entry_at p.sequence j)) j.returned,
          displaced-entry b p.sequence (entry_at p.sequence j),
        ))
]

take_buffer-owned :
    (b seq : ℕ)
    → (j : JitterBuffer) → length j.raw_buffers ≡ raw_buffer_win_size
    → owned b (take_buffer seq j).0 + in_place b (take_buffer seq j).1 ≡ owned b j
unfolding owned take_buffer in_place
take_buffer-owned b seq j size = elim (Bool-cases ((entry_at seq j).seq == seq)) [
  | inr g ↦ rw (g, take_buffer) (omega arith)
  | inl g ↦
      rw (g, take_buffer)
        (omega (
          arith,
          held-set b (seq % 1024) (record (entry_at seq j) { buf = none }) j.raw_buffers
              (omega arith),
        ))
]

clean_up-owned : (b seq : ℕ) → (j : JitterBuffer) → owned b (clean_up seq j) ≡ owned b j
unfolding owned clean_up
clean_up-owned b seq j = omega (
  arith,
  clean-held b seq j.raw_buffers,
  count_of-append b (stale_buffers seq j.raw_buffers) j.returned,
)

emit_silence-owned : (b : ℕ) → (j : JitterBuffer) → owned b (emit_silence j) ≡ owned b j
unfolding owned emit_silence delivered
emit_silence-owned b j = elim (Option-cases j.silence_payload) [
  | inl e ↦ rw (e, emit_silence) refl
  | inr (payload, e) ↦ elim (Bool-cases j.has_last) [
    | inl g ↦ rw (e, g, emit_silence) refl
    | inr g ↦ rw (e, g, emit_silence) refl
  ]
]

underflow-owned :
    (b : ℕ) → (codec : CodecName) → (j : JitterBuffer) → owned b (underflow codec j) ≡ owned b j
unfolding owned
underflow-owned b codec j = elim (Bool-cases (same_name codec opus)) [
  | inl g ↦ rw g refl
  | inr g ↦ rw g (emit_silence-owned b (record j { underflows = suc j.underflows }))
]

release_packet-owned :
    (b seq ts : ℕ)
    → (j : JitterBuffer) → length j.raw_buffers ≡ raw_buffer_win_size
    → owned b (release_packet seq ts j) ≡ owned b j
unfolding owned release_packet delivered
release_packet-owned b seq ts j size =
    let noted = record j { last_seq = seq; last_ts = ts; has_last = true } in
    let kept = (take_buffer seq noted).0 in
    elim (Bool-cases (seq % 32 == 0)) [
      | inl g ↦
          rw (g, release_packet)
            (omega (arith, take_buffer-owned b seq noted size, clean_up-owned b seq kept))
      | inr g ↦ rw (g, release_packet) (omega (arith, take_buffer-owned b seq noted size))
    ]

-- A round of the release loop, whatever pion's `Pop` returns, leaves every buffer in exactly as many
-- places as before: those of the clean-up move to the pool, that of the packet to the output.
pub release_tick-owned :
    (b : ℕ)
    → (codec : CodecName) → (is_buffering : Bool) → (popped : Popped) → (j : JitterBuffer)
    → length j.raw_buffers ≡ raw_buffer_win_size
    → owned b (release_tick codec is_buffering popped j) ≡ owned b j
unfolding release_tick
release_tick-owned b codec is_buffering (packet seq ts) j size =
    release_packet-owned b seq ts j size
release_tick-owned b codec is_buffering while_buffering j size = refl
release_tick-owned b codec true invalid_operation j size = refl
release_tick-owned b codec false invalid_operation j size = underflow-owned b codec j
release_tick-owned b codec is_buffering underrun j size = underflow-owned b codec j
release_tick-owned b codec is_buffering other_error j size = refl

emptied-held : (b : ℕ) → (es : List RawBufferEntry) → held b (emptied es) ≡ 0
unfolding held emptied in_place
emptied-held b [] = refl
emptied-held b (e ∷ es) = omega (arith, emptied-held b es)

-- `Stop` leaves no buffer in the entries, and loses none: all of them are in the pool.
pub stop-owned :
    (b : ℕ)
    → (j : JitterBuffer) → (held b (stop j).raw_buffers ≡ 0) × (owned b (stop j) ≡ owned b j)
unfolding owned stop
stop-owned b j = (
  emptied-held b j.raw_buffers,
  omega
      (arith, left-held b j.raw_buffers, count_of-append b (left_buffers j.raw_buffers) j.returned),
)
