-- ===== src/Audio/Recorder/Files.antt =====
-- internal/audio/recorder.go: the end of a recording, and its file.
use mathlib.Core.List.{append-nil}
use native.Mathlib.Nat.{zero-add, suc-add}
use tele_portal.Audio.Recorder.{
  RecorderEvent, StereoRecorder, even_part, flush, new_recorder, pad_to, record_all, recording,
  write_interleaved,
}
use tele_portal.Audio.Recorder.Channels.{IsFrames, left_of, length-right_of, no_frames, right_of}
use tele_portal.Audio.Recorder.Recording.{record_all-tape_all, tape_lengths}
use tele_portal.Audio.Recorder.Tapes.{
  IsRecorder, Tapes, tape_all, tapes, write_interleaved-IsRecorder, written-left, written-right,
}
use tele_portal.Audio.Wav.{
  close, close-wav_header, new_wav_writer, new_wav_writer-IsWriter, wav_header,
}
use tele_portal.Common.{
  Bool-cases, List, [], ap, arith, inl, inr, length, length-append, length-replicate, ltb, ltb→lt,
  max, refl, replicate, subst, suc, sym, take, ℕ, ◌%◌, ◌++◌, ◌+◌, ◌-◌, ◌==◌, ◌∙◌, ◌∷◌, ◌≡◌, ◌≤◌,
  ◌⊎◌,
}

-- The first `size` bytes of a tape, with zeros if it is shorter.
abbrev pub channel : ℕ → List ℕ → List ℕ
channel size tape = take size (pad_to size tape)

channel-cons : (size x : ℕ) (xs : List ℕ) → channel (suc size) (x ∷ xs) ≡ x ∷ channel size xs
channel-cons size x xs = elim (Bool-cases (ltb (length xs) size)) [
  | inl e ↦ ground (arith, e)
  | inr e ↦ ground (arith, e)
]

channel-append :
    (xs : List ℕ) (size : ℕ) (buf : List ℕ)
    → channel (length xs + size) (xs ++ buf) ≡ xs ++ channel size buf
channel-append [] size buf = ap (λ n. channel n buf) (zero-add size)
channel-append (x ∷ xs) size buf =
    ap (λ n. channel n (x ∷ xs ++ buf)) (suc-add (length xs) size)
    ∙ channel-cons (length xs + size) x (xs ++ buf)
    ∙ ap (λ l. x ∷ l) (channel-append xs size buf)

length-pad_to : (size : ℕ) (buf : List ℕ) → size ≤ length (pad_to size buf)
length-pad_to size buf = elim (Bool-cases (ltb (length buf) size)) [
  | inl e ↦ rw e (
      omega (
        arith,
        ltb→lt (length buf) size e,
        length-append buf (replicate (size - length buf) 0),
        length-replicate {A = ℕ} (size - length buf) 0,
      ))
  | inr e ↦ rw e (ground (arith, e))
]

abbrev padded : ℕ → StereoRecorder → StereoRecorder
padded size r = record r { left_buf = pad_to size r.left_buf; right_buf = pad_to size r.right_buf }

abbrev rest_size : StereoRecorder → ℕ
rest_size r = even_part (max (length r.right_buf) (length r.left_buf))

flush-cases :
    (r : StereoRecorder)
    → ((rest_size r ≡ 0) × (flush r ≡ r))
      ⊎ (flush r ≡ write_interleaved (rest_size r) (padded (rest_size r) r))
unfolding flush
flush-cases r = elim (Bool-cases (rest_size r == 0)) [
  | inl e ↦ inl (ground (arith, e), simp (e, flush))
  | inr e ↦ inr (simp (e, flush))
]

padded-IsRecorder :
    (rate size : ℕ) (r : StereoRecorder) → IsRecorder rate r → IsRecorder rate (padded size r)
padded-IsRecorder rate size r v = record {
  same_rate = v.same_rate;
  frames = v.frames;
  writer_ok = v.writer_ok;
}

record IsFlushed (rate : ℕ) (r s : StereoRecorder) : Type 0 where
  recorder : IsRecorder rate s
  left : left_of s.writer.samples ≡ left_of r.writer.samples ++ channel (rest_size r) r.left_buf
  right : right_of s.writer.samples ≡ right_of r.writer.samples ++ channel (rest_size r) r.right_buf

flush-IsFlushed : (rate : ℕ) (r : StereoRecorder) → IsRecorder rate r → IsFlushed rate r (flush r)
flush-IsFlushed rate r v = elim (flush-cases r) [
  | inl (z, e) ↦ subst (IsFlushed rate r) (sym e) (record {
    recorder = v;
    left = sym (
        ap (λ n. left_of r.writer.samples ++ channel n r.left_buf) z
        ∙ append-nil (left_of r.writer.samples));
    right = sym (
        ap (λ n. right_of r.writer.samples ++ channel n r.right_buf) z
        ∙ append-nil (right_of r.writer.samples));
  })
  | inr e ↦
      let n = rest_size r in
      let w = padded-IsRecorder rate n r v in
      let hl = length-pad_to n r.left_buf in
      let hr = length-pad_to n r.right_buf in
      subst (IsFlushed rate r) (sym e) (record {
        recorder = write_interleaved-IsRecorder rate n (padded n r) w (omega arith) hl hr;
        left = written-left rate n (padded n r) w (omega arith) hl hr;
        right = written-right rate n (padded n r) w (omega arith) hl hr;
      })
]

abbrev tape_size : Tapes → ℕ
tape_size t = even_part (max (length t.right) (length t.left))

same_size :
    (k a b x y : ℕ)
    → k % 2 ≡ 0
    → x ≡ k + a
    → y ≡ k + b
    → even_part (max y x) ≡ k + even_part (max b a)
same_size k a b x y even e f = omega arith

-- The file of both tapes: a header for the data, and data whose channels are the tapes, the shorter
-- one with zeros at its end, both to the even part of the longer one's length.
pub record IsFile (rate : ℕ) (t : Tapes) (file : List ℕ) : Type 0 where
  pub samples : List ℕ
  pub same_file : file ≡ wav_header rate 2 (length samples) ++ samples
  pub frames : IsFrames samples
  pub left : left_of samples ≡ channel (tape_size t) t.left
  pub right : right_of samples ≡ channel (tape_size t) t.right

flushed-IsFile :
    (rate : ℕ) (r : StereoRecorder)
    → IsRecorder rate r
    → IsFile rate (tapes r) (close (flush r).writer)
flushed-IsFile rate r v =
    let f = flush-IsFlushed rate r v in
    let (k, el, er, even, same) = tape_lengths rate r v in
    let size : tape_size (tapes r) ≡ k + rest_size r =
      same_size k (length r.left_buf) (length r.right_buf) (length (tapes r).left)
        (length (tapes r).right) even el er in
    record {
      samples = (flush r).writer.samples;
      same_file = close-wav_header rate (flush r).writer f.recorder.writer_ok;
      frames = f.recorder.frames;
      left =
          f.left
          ∙ sym (channel-append (left_of r.writer.samples) (rest_size r) r.left_buf)
          ∙ ap (λ n. channel n (tapes r).left) (sym (size ∙ ap (λ j. j + rest_size r) same));
      right =
          f.right
          ∙ sym (channel-append (right_of r.writer.samples) (rest_size r) r.right_buf)
          ∙ ap (λ n. channel n (tapes r).right)
              (ap (λ j. j + rest_size r) (length-right_of v.frames ∙ sym same) ∙ sym size);
    }

new_recorder-IsRecorder : (rate : ℕ) → IsRecorder rate (new_recorder rate)
unfolding new_recorder new_wav_writer
new_recorder-IsRecorder rate = record {
  same_rate = refl;
  frames = no_frames;
  writer_ok = new_wav_writer-IsWriter rate;
}

abbrev pub empty_tapes : Tapes
empty_tapes = record { left = []; right = [] }

new_recorder-tapes : (rate : ℕ) → tapes (new_recorder rate) ≡ empty_tapes
unfolding new_recorder new_wav_writer
new_recorder-tapes rate = refl

-- The file of a recording is the file of its tapes, whatever arrived in which order.
pub recording-IsFile :
    (rate : ℕ) (es : List RecorderEvent)
    → IsFile rate (tape_all rate es empty_tapes) (recording rate es)
unfolding recording
recording-IsFile rate es =
    let (v, same) =
      record_all-tape_all rate es (new_recorder rate) (new_recorder-IsRecorder rate) in
    subst (λ t. IsFile rate t (recording rate es))
      (same ∙ ap (tape_all rate es) (new_recorder-tapes rate))
      (flushed-IsFile rate (record_all es (new_recorder rate)) v)
