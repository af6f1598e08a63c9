-- ===== src/Audio/Packetizer.antt =====
-- internal/audio/packetizer.go: fixed-size chunks out of a byte stream, through a ring buffer. One
-- round of the loop of `Run` is a step on the loop's variables.
pub mod Buffer
pub mod Queue
pub mod Refine
pub mod Shaper
use tele_portal.Audio.Packetizer.Buffer.{Ring, empty_ring, read, write}
use tele_portal.Common.{
  List, Option, [], drop, if◌then◌else◌, leb, length, ltb, none, replicate, some, ℕ, ◌*◌, ◌++◌, ◌/◌,
  ◌==◌, ◌∷◌,
}

pub record Packetizer : Type 0 where
  pub ptime : ℕ
  pub sample_rate : ℕ
  pub bytes_per_tick : ℕ

unfoldable pub new_packetizer : ℕ → ℕ → ℕ → ℕ → Packetizer
new_packetizer ptime sample_rate bytes_per_sample channels = record {
  ptime = ptime;
  sample_rate = sample_rate;
  bytes_per_tick = sample_rate * ptime / 1000 * bytes_per_sample * channels;
}

-- The variables of the loop: the ring with its positions, and the chunks in the output channel,
-- oldest first.
pub record Loop : Type 0 where
  pub ring : Ring
  pub output : List (List ℕ)

-- The channels hold 100 buffers.
abbrev pub channel_size : ℕ
channel_size = 100

-- What one `select` of the loop finds ready. `closed` is a closed input channel, `done` the end of
-- the context, `taken` the consumer's receive from the output.
pub data Event : Type 0 where
  input : List ℕ → Event
  tick : Event
  taken : Event
  closed : Event
  done : Event

-- `Run` allocates ten ticks of data.
unfoldable pub start : Packetizer → Loop
start p = record { ring = empty_ring (p.bytes_per_tick * 10); output = [] }

-- `select { case p.output <- chunk: default: }`: a full channel drops the chunk.
abbrev pub send : List ℕ → List (List ℕ) → List (List ℕ)
send chunk output = if ltb (length output) channel_size then output ++ chunk ∷ [] else output

-- A tick takes a chunk out of the ring, or makes one of silence. The modulus by an empty ring
-- panics in Go: `none`.
unfoldable pub on_tick : Packetizer → Loop → Option Loop
on_tick p l =
    if leb p.bytes_per_tick l.ring.count
    then (if length l.ring.cells == 0
        then none
        else some (record {
          ring = (read p.bytes_per_tick l.ring).1;
          output = send (read p.bytes_per_tick l.ring).0 l.output;
        }))
    else some (record l { output = send (replicate p.bytes_per_tick 0) l.output })

-- A round of the loop goes on, returns from `Run`, or panics.
pub data Outcome (S : Type 0) : Type 0 where
  running : S → Outcome S
  returned : S → Outcome S
  panicked : Outcome S

unfoldable pub step : Packetizer → Loop → Event → Outcome Loop
step p l (input bytes) = running (record l { ring = write bytes l.ring })
step p l tick = elim (on_tick p l) [ none ↦ panicked | some m ↦ running m ]
step p l taken = running (record l { output = drop 1 l.output })
step p l closed = returned l
step p l done = returned l

-- The loop over the events that it meets.
unfoldable pub run : Packetizer → Outcome Loop → List Event → Outcome Loop
run p (running l) (e ∷ es) = run p (step p l e) es
run p o _ = o
