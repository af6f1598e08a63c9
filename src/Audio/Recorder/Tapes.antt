-- ===== src/Audio/Recorder/Tapes.antt =====
-- internal/audio/recorder.go: the recording as two tapes that only grow, and that the file holds
-- both of them.
use mathlib.Core.List.{append_assoc}
use tele_portal.Audio.Recorder.{
  RecorderEvent, StereoRecorder, even_part, from_left, from_right, interleave_loop, pad, tick,
  write_interleaved,
}
use tele_portal.Audio.Recorder.Channels.{
  IsFrames, append-IsFrames, interleave_loop-IsInterleaved, left_of, right_of, write-left,
  write-right,
}
use tele_portal.Audio.Wav.{IsWriter, write, write-IsWriter}
use tele_portal.Common.{
  List, [], ap, arith, drop, if◌then◌else◌, length, ltb, subst, take, take-append-drop, ℕ, ◌%◌, ◌*◌,
  ◌++◌, ◌+◌, ◌-◌, ◌/◌, ◌∙◌, ◌∷◌, ◌≡◌, ◌≤◌,
}

-- All that a side has brought, with the silence that was put in.
pub record Tapes : Type 0 where
  pub left : List ℕ
  pub right : List ℕ

-- The tapes of an event: bytes are put at the end of their tape; on a tick a tape that is more than
-- `sample_rate` bytes behind gets zeros, up to the other's length or one byte less.
unfoldable pub tape_event : ℕ → RecorderEvent → Tapes → Tapes
tape_event rate (from_left buf) t = record t { left = t.left ++ buf }
tape_event rate (from_right buf) t = record t { right = t.right ++ buf }
tape_event rate tick t =
    if ltb (length t.right + rate) (length t.left)
    then record t { right = pad (even_part (length t.left - length t.right)) t.right }
    else if ltb (length t.left + rate) (length t.right)
    then record t { left = pad (even_part (length t.right - length t.left)) t.left }
    else t

unfoldable pub tape_all : ℕ → List RecorderEvent → Tapes → Tapes
tape_all rate [] t = t
tape_all rate (e ∷ es) t = tape_all rate es (tape_event rate e t)

-- What was written and what is left in the buffers.
abbrev pub tapes : StereoRecorder → Tapes
tapes r = record {
  left = left_of r.writer.samples ++ r.left_buf;
  right = right_of r.writer.samples ++ r.right_buf;
}

-- The file has whole samples, and its writer is in order.
pub record IsRecorder (rate : ℕ) (r : StereoRecorder) : Type 0 where
  pub same_rate : r.sample_rate ≡ rate
  pub frames : IsFrames r.writer.samples
  pub writer_ok : IsWriter rate r.writer

half : (n : ℕ) → n % 2 ≡ 0 → n / 2 * 2 ≡ n
half n e = omega arith

moved : (n : ℕ) (xs buf : List ℕ) → (xs ++ take n buf) ++ drop n buf ≡ xs ++ buf
moved n xs buf =
    append_assoc xs (take n buf) (drop n buf) ∙ ap (λ l. xs ++ l) (take-append-drop n buf)

pub same_tapes :
    {l l' r r' : List ℕ}
    → l ≡ l'
    → r ≡ r'
    → ◌≡◌ {A = Tapes} (record { left = l; right = r }) (record { left = l'; right = r' })
same_tapes e f = cc

-- Writing keeps the tapes.
module _ (rate n : ℕ) (r : StereoRecorder) (v : IsRecorder rate r) (even : n % 2 ≡ 0)
    (hl : n ≤ length r.left_buf) (hr : n ≤ length r.right_buf) where
  pub written-left :
      left_of (write_interleaved n r).writer.samples ≡ left_of r.writer.samples ++ take n r.left_buf
  unfolding write_interleaved write
  written-left =
      subst
        (λ k.
          left_of (write_interleaved n r).writer.samples
          ≡ left_of r.writer.samples ++ take k r.left_buf)
        (half n even)
        (write-left (n / 2) r.left_buf r.right_buf r.writer.samples v.frames
          (omega (arith, half n even)) (omega (arith, half n even)))

  pub written-right :
      right_of (write_interleaved n r).writer.samples
      ≡ right_of r.writer.samples ++ take n r.right_buf
  unfolding write_interleaved write
  written-right =
      subst
        (λ k.
          right_of (write_interleaved n r).writer.samples
          ≡ right_of r.writer.samples ++ take k r.right_buf)
        (half n even)
        (write-right (n / 2) r.left_buf r.right_buf r.writer.samples v.frames
          (omega (arith, half n even)) (omega (arith, half n even)))

  pub write_interleaved-IsRecorder : IsRecorder rate (write_interleaved n r)
  unfolding write_interleaved write
  write_interleaved-IsRecorder = record {
    same_rate = v.same_rate;
    frames =
        append-IsFrames v.frames
          (interleave_loop-IsInterleaved (n / 2) r.left_buf r.right_buf (omega (arith, half n even))
            (omega (arith, half n even))).frames;
    writer_ok =
        write-IsWriter rate (interleave_loop (n / 2) r.left_buf r.right_buf) r.writer v.writer_ok;
  }

  pub write_interleaved-tapes : tapes (write_interleaved n r) ≡ tapes r
  unfolding write_interleaved
  write_interleaved-tapes =
      same_tapes
        (ap (λ l. l ++ drop n r.left_buf) written-left
          ∙ moved n (left_of r.writer.samples) r.left_buf)
        (ap (λ l. l ++ drop n r.right_buf) written-right
          ∙ moved n (right_of r.writer.samples) r.right_buf)
