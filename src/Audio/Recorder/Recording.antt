-- ===== src/Audio/Recorder/Recording.antt =====
-- internal/audio/recorder.go: every event does to the tapes what it should, and the file of a
-- recording holds them.
use mathlib.Core.List.{append_assoc}
use tele_portal.Audio.Recorder.{
  RecorderEvent, StereoRecorder, even_part, from_left, from_right, handle_silence, process,
  record_all, record_event, tick, write_interleaved,
}
use tele_portal.Audio.Recorder.Channels.{left_of, left_of-even, length-right_of, right_of}
use tele_portal.Audio.Recorder.Tapes.{
  IsRecorder, Tapes, same_tapes, tape_all, tape_event, tapes, write_interleaved-IsRecorder,
  write_interleaved-tapes,
}
use tele_portal.Common.{
  Bool, Bool-cases, List, [], ap, arith, false, inl, inr, length, length-append, ltb, min, refl,
  replicate, subst, sym, true, ℕ, ◌%◌, ◌++◌, ◌+◌, ◌-◌, ◌==◌, ◌∙◌, ◌∷◌, ◌≡◌, ◌≤◌, ◌⊎◌,
}

process-cases :
    (r : StereoRecorder)
    → (process r ≡ r)
      ⊎ ((n : ℕ) × (n % 2 ≡ 0)
          × (n ≤ length r.left_buf)
          × (n ≤ length r.right_buf)
          × (process r ≡ write_interleaved n r))
unfolding process
process-cases r =
    let n = even_part (min (length r.right_buf) (length r.left_buf)) in
    elim (Bool-cases (n == 0)) [
      | inl e ↦ inl (simp (e, process))
      | inr e ↦ inr (n, omega arith, omega arith, omega arith, simp (e, process))
    ]

-- What a step of the recorder has to do.
record Keeps (rate : ℕ) (t : Tapes) (r : StereoRecorder) : Type 0 where
  recorder : IsRecorder rate r
  kept : tapes r ≡ t

process-Keeps :
    (rate : ℕ) (r : StereoRecorder) → IsRecorder rate r → Keeps rate (tapes r) (process r)
process-Keeps rate r v = elim (process-cases r) [
  | inl e ↦ subst (Keeps rate (tapes r)) (sym e) (record { recorder = v; kept = refl })
  | inr (n, even, hl, hr, e) ↦ subst (Keeps rate (tapes r)) (sym e) (record {
    recorder = write_interleaved-IsRecorder rate n r v even hl hr;
    kept = write_interleaved-tapes rate n r v even hl hr;
  })
]

abbrev with_left : List ℕ → StereoRecorder → StereoRecorder
with_left buf r = record r { left_buf = r.left_buf ++ buf }

abbrev with_right : List ℕ → StereoRecorder → StereoRecorder
with_right buf r = record r { right_buf = r.right_buf ++ buf }

left-IsRecorder :
    (rate : ℕ) (buf : List ℕ) (r : StereoRecorder)
    → IsRecorder rate r
    → IsRecorder rate (with_left buf r)
left-IsRecorder rate buf r v = record {
  same_rate = v.same_rate;
  frames = v.frames;
  writer_ok = v.writer_ok;
}

right-IsRecorder :
    (rate : ℕ) (buf : List ℕ) (r : StereoRecorder)
    → IsRecorder rate r
    → IsRecorder rate (with_right buf r)
right-IsRecorder rate buf r v = record {
  same_rate = v.same_rate;
  frames = v.frames;
  writer_ok = v.writer_ok;
}

left-tapes :
    (buf : List ℕ) (r : StereoRecorder)
    → tapes (with_left buf r) ≡ record (tapes r) { left = (tapes r).left ++ buf }
left-tapes buf r = same_tapes (sym (append_assoc (left_of r.writer.samples) r.left_buf buf)) refl

right-tapes :
    (buf : List ℕ) (r : StereoRecorder)
    → tapes (with_right buf r) ≡ record (tapes r) { right = (tapes r).right ++ buf }
right-tapes buf r = same_tapes refl (sym (append_assoc (right_of r.writer.samples) r.right_buf buf))

process-left :
    (rate : ℕ) (buf : List ℕ) (r : StereoRecorder)
    → IsRecorder rate r
    → Keeps rate (record (tapes r) { left = (tapes r).left ++ buf }) (process (with_left buf r))
process-left rate buf r v =
    subst (λ t. Keeps rate t (process (with_left buf r))) (left-tapes buf r)
      (process-Keeps rate (with_left buf r) (left-IsRecorder rate buf r v))

process-right :
    (rate : ℕ) (buf : List ℕ) (r : StereoRecorder)
    → IsRecorder rate r
    → Keeps rate (record (tapes r) { right = (tapes r).right ++ buf }) (process (with_right buf r))
process-right rate buf r v =
    subst (λ t. Keeps rate t (process (with_right buf r))) (right-tapes buf r)
      (process-Keeps rate (with_right buf r) (right-IsRecorder rate buf r v))

-- The written bytes are as many on both sides.
pub tape_lengths :
    (rate : ℕ) (r : StereoRecorder)
    → IsRecorder rate r
    → (k : ℕ) × (length (tapes r).left ≡ k + length r.left_buf)
      × (length (tapes r).right ≡ k + length r.right_buf)
      × (k % 2 ≡ 0)
      × (k ≡ length (left_of r.writer.samples))
tape_lengths rate r v = (
  length (left_of r.writer.samples),
  length-append (left_of r.writer.samples) r.left_buf,
  length-append (right_of r.writer.samples) r.right_buf
      ∙ ap (λ k. k + length r.right_buf) (length-right_of v.frames),
  left_of-even v.frames,
  refl,
)

shifted_test : (k a b rate x y : ℕ) → x ≡ k + a → y ≡ k + b → ltb (y + rate) x ≡ ltb (b + rate) a
shifted_test k a b rate x y e f = rw (e, f) (ground arith)

shifted_gap : (k a b x y : ℕ) → x ≡ k + a → y ≡ k + b → x - y ≡ a - b
shifted_gap k a b x y e f = omega arith

-- What the ticker does, for each outcome of its two tests.
module _ (r : StereoRecorder) where
  abbrev left_ahead : Bool
  left_ahead = ltb (length r.right_buf + r.sample_rate) (length r.left_buf)

  abbrev right_ahead : Bool
  right_ahead = ltb (length r.left_buf + r.sample_rate) (length r.right_buf)

  silence-right :
      left_ahead ≡ true
      → handle_silence r
        ≡ process (with_right (replicate (even_part (length r.left_buf - length r.right_buf)) 0) r)
  unfolding handle_silence
  silence-right e = simp (e, handle_silence)

  silence-left :
      left_ahead ≡ false
      → right_ahead ≡ true
      → handle_silence r
        ≡ process (with_left (replicate (even_part (length r.right_buf - length r.left_buf)) 0) r)
  unfolding handle_silence
  silence-left e f = simp (e, f, handle_silence)

  silence-none : left_ahead ≡ false → right_ahead ≡ false → handle_silence r ≡ r
  unfolding handle_silence
  silence-none e f = simp (e, f, handle_silence)

handle_silence-Keeps :
    (rate : ℕ) (r : StereoRecorder)
    → IsRecorder rate r
    → Keeps rate (tape_event rate tick (tapes r)) (handle_silence r)
unfolding tape_event
handle_silence-Keeps rate r v =
    let (k, el, er, even, same) = tape_lengths rate r v in
    let a = length r.left_buf in
    let b = length r.right_buf in
    let x = length (tapes r).left in
    let y = length (tapes r).right in
    let ahead_left : ltb (y + rate) x ≡ left_ahead r =
      shifted_test k a b rate x y el er ∙ ap (λ n. ltb (b + n) a) (sym v.same_rate) in
    let ahead_right : ltb (x + rate) y ≡ right_ahead r =
      shifted_test k b a rate y x er el ∙ ap (λ n. ltb (a + n) b) (sym v.same_rate) in
    elim (Bool-cases (left_ahead r)) [
      | inl e ↦ rw (silence-right r e) (
          simp (ahead_left, e, shifted_gap k a b x y el er)
            (process-right rate (replicate (even_part (a - b)) 0) r v))
      | inr e ↦ elim (Bool-cases (right_ahead r)) [
        | inl f ↦ rw (silence-left r e f) (
            simp (ahead_left, ahead_right, e, f, shifted_gap k b a y x er el)
              (process-left rate (replicate (even_part (b - a)) 0) r v))
        | inr f ↦
            rw (silence-none r e f)
              (simp (ahead_left, ahead_right, e, f) (record { recorder = v; kept = refl }))
      ]
    ]

record_event-Keeps :
    (rate : ℕ) (e : RecorderEvent) (r : StereoRecorder)
    → IsRecorder rate r
    → Keeps rate (tape_event rate e (tapes r)) (record_event e r)
unfolding record_event tape_event
record_event-Keeps rate (from_left buf) r v = process-left rate buf r v
record_event-Keeps rate (from_right buf) r v = process-right rate buf r v
record_event-Keeps rate tick r v = handle_silence-Keeps rate r v

-- The recorder is a correct form of the tapes: after any events what was written and what is left in
-- the buffers are the tapes of these events, and only whole samples of both sides were written.
pub record_all-tape_all :
    (rate : ℕ) (es : List RecorderEvent) (r : StereoRecorder)
    → IsRecorder rate r
    → IsRecorder rate (record_all es r) × (tapes (record_all es r) ≡ tape_all rate es (tapes r))
unfolding record_all tape_all
record_all-tape_all rate [] r v = (v, refl)
record_all-tape_all rate (e ∷ es) r v =
    let step = record_event-Keeps rate e r v in
    let rest = record_all-tape_all rate es (record_event e r) step.recorder in
    (rest.0, rest.1 ∙ ap (tape_all rate es) step.kept)
