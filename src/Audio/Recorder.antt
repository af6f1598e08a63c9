-- ===== src/Audio/Recorder.antt =====
-- internal/audio/recorder.go: the recording of a call in two channels. Bytes of samples arrive from
-- either side; what both sides have is interleaved and written.
pub mod Channels
pub mod Tapes
pub mod Recording
pub mod Files
use tele_portal.Audio.Wav.{FastWavWriter, close, new_wav_writer, write}
use tele_portal.Common.{
  List, [], drop, if◌then◌else◌, length, ltb, max, min, replicate, suc, ℕ, ◌%◌, ◌++◌, ◌+◌, ◌-◌, ◌/◌,
  ◌==◌, ◌∷◌,
}
use tele_portal.Common.Maps.{size}

-- The fields that change, and the sample rate.
pub record StereoRecorder : Type 0 where
  pub sample_rate : ℕ
  pub left_buf : List ℕ
  pub right_buf : List ℕ
  pub writer : FastWavWriter

unfoldable pub new_recorder : ℕ → StereoRecorder
unfolding new_wav_writer
new_recorder sample_rate = record {
  sample_rate = sample_rate;
  left_buf = [];
  right_buf = [];
  writer = new_wav_writer sample_rate;
}

-- The loop of `writeInterleaved` over the samples, two bytes of each side in turn.
unfoldable pub interleave_loop : ℕ → List ℕ → List ℕ → List ℕ
interleave_loop (suc n) (a ∷ b ∷ l) (c ∷ d ∷ r) = a ∷ b ∷ c ∷ d ∷ interleave_loop n l r
interleave_loop _ _ _ = []

unfoldable pub write_interleaved : ℕ → StereoRecorder → StereoRecorder
unfolding write
write_interleaved byte_count r = record r {
  writer = write (interleave_loop (byte_count / 2) r.left_buf r.right_buf) r.writer;
  left_buf = drop byte_count r.left_buf;
  right_buf = drop byte_count r.right_buf;
}

abbrev pub even_part : ℕ → ℕ
even_part n = n - n % 2

unfoldable pub process : StereoRecorder → StereoRecorder
unfolding write_interleaved
process r =
    let min_bytes = even_part (min (length r.right_buf) (length r.left_buf)) in
    if min_bytes == 0 then r else write_interleaved min_bytes r

-- `append` of a cleared buffer.
abbrev pub pad : ℕ → List ℕ → List ℕ
pad count buf = buf ++ replicate count 0

unfoldable pub handle_silence : StereoRecorder → StereoRecorder
unfolding process
handle_silence r =
    let left = length r.left_buf in
    let right = length r.right_buf in
    if ltb (right + r.sample_rate) left
    then process (record r { right_buf = pad (even_part (left - right)) r.right_buf })
    else if ltb (left + r.sample_rate) right
    then process (record r { left_buf = pad (even_part (right - left)) r.left_buf })
    else r

-- The padding up to a length.
abbrev pub pad_to : ℕ → List ℕ → List ℕ
pad_to size buf = if ltb (length buf) size then pad (size - length buf) buf else buf

unfoldable pub flush : StereoRecorder → StereoRecorder
unfolding write_interleaved
flush r =
    let max_bytes = even_part (max (length r.right_buf) (length r.left_buf)) in
    if max_bytes == 0
    then r
    else write_interleaved max_bytes (record r {
      left_buf = pad_to max_bytes r.left_buf;
      right_buf = pad_to max_bytes r.right_buf;
    })

-- What the loop of `run` takes: a buffer of a channel, or the ticker.
pub data RecorderEvent : Type 0 where
  from_left from_right : List ℕ → RecorderEvent
  tick : RecorderEvent

unfoldable pub record_event : RecorderEvent → StereoRecorder → StereoRecorder
unfolding process handle_silence
record_event (from_left buf) r = process (record r { left_buf = r.left_buf ++ buf })
record_event (from_right buf) r = process (record r { right_buf = r.right_buf ++ buf })
record_event tick r = handle_silence r

-- The loop, with the one that drains the channels at its end.
unfoldable pub record_all : List RecorderEvent → StereoRecorder → StereoRecorder
unfolding record_event
record_all [] r = r
record_all (e ∷ es) r = record_all es (record_event e r)

-- `run`: the file of the recording.
unfoldable pub recording : ℕ → List RecorderEvent → List ℕ
unfolding new_recorder record_all flush close
recording sample_rate es = close (flush (record_all es (new_recorder sample_rate))).writer
