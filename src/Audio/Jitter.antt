-- ===== src/Audio/Jitter.antt =====
-- internal/audio/pion_jitter_buffer.go: the wrapper around pion's jitter buffer, which keeps the
-- pooled buffer of each packet until the packet is released. A buffer is a number. What pion's
-- `Pop` returns is a parameter of a round of the release loop.
pub mod Ownership
pub mod Serial
use tele_portal.Audio.Codec.{CodecName, l16, opus, pcma, pcmu, same_name}
use tele_portal.Call.Manager.Counting.{counted}
use tele_portal.Common.{
  Bool, List, Option, [], false, get_or, if◌then◌else◌, length, ltb, none, not, replicate, set,
  some, suc, true, ℕ, ◌%◌, ◌&&◌, ◌*◌, ◌++◌, ◌+◌, ◌-◌, ◌/◌, ◌==◌, ◌∷◌,
}
use tele_portal.Common.Words.{u16, u32}

-- An entry of `rawBuffers`; `none` is a nil buffer.
pub record RawBufferEntry : Type 0 where
  pub buf : Option ℕ
  pub seq : ℕ

-- A packet in the output channel: one that was received, with its buffer, or silence.
pub data Emitted : Type 0 where
  received : ℕ → ℕ → Option ℕ → Emitted
  silent : ℕ → ℕ → List ℕ → Emitted

-- `returned` lists the buffers that were put back into the pool.
pub record JitterBuffer : Type 0 where
  pub raw_buffers : List RawBufferEntry
  pub returned : List ℕ
  pub output : List Emitted
  pub silence_payload : Option (List ℕ)
  pub samples : ℕ
  pub last_seq : ℕ
  pub last_ts : ℕ
  pub has_last : Bool
  pub underflows : ℕ
  pub silence : ℕ
  pub dropped : ℕ

abbrev pub no_entry : RawBufferEntry
no_entry = record { buf = none; seq = 0 }

abbrev pub raw_buffer_win_size : ℕ
raw_buffer_win_size = 1024

-- `generateSilence`, where the number of samples per packet is not negative.
unfoldable pub generate_silence : CodecName → ℕ → ℕ → Option (List ℕ)
generate_silence codec sample_rate ptime =
    let samples = sample_rate * ptime / 1000 in
    if samples == 0 then none else elim codec [
      | pcmu ↦ some (replicate samples 0xff)
      | pcma ↦ some (replicate samples 0x55)
      | l16 ↦ some (replicate (samples * 2) 0)
      | _ ↦ none
    ]

unfoldable pub new_jitter_buffer : CodecName → ℕ → ℕ → JitterBuffer
new_jitter_buffer codec sample_rate ptime =
    let ms = if ptime == 0 then 20 else ptime in
    record {
      raw_buffers = replicate raw_buffer_win_size no_entry;
      returned = [];
      output = [];
      silence_payload = generate_silence codec sample_rate ms;
      samples = u32 (sample_rate * ms / 1000);
      last_seq = 0;
      last_ts = 0;
      has_last = false;
      underflows = 0;
      silence = 0;
      dropped = 0;
    }

-- `PutBuffer` of a buffer, if there is one.
abbrev pub put_buffer : Option ℕ → List ℕ → List ℕ
put_buffer none returned = returned
put_buffer (some b) returned = b ∷ returned

-- What `Push` reads of a packet: whether the parsed packet is there, and the buffers.
pub record Incoming : Type 0 where
  pub has_raw : Bool
  pub sequence : ℕ
  pub raw_buffer : Option ℕ
  pub payload : Option ℕ

abbrev pub or_payload : Option ℕ → Option ℕ → Option ℕ
or_payload (some b) payload = some b
or_payload none payload = payload

abbrev pub entry_at : ℕ → JitterBuffer → RawBufferEntry
entry_at seq j = get_or j.raw_buffers (seq % raw_buffer_win_size) no_entry

-- What is returned of the entry that a packet replaces: nothing if it has the packet's number.
abbrev pub displaced : ℕ → RawBufferEntry → Option ℕ
displaced seq entry = if entry.seq == seq then none else entry.buf

unfoldable pub push : Incoming → JitterBuffer → JitterBuffer
push p j =
    if p.has_raw
    then record j {
      raw_buffers =
          set j.raw_buffers (p.sequence % raw_buffer_win_size)
            (record { buf = p.raw_buffer; seq = p.sequence });
      returned = put_buffer (displaced p.sequence (entry_at p.sequence j)) j.returned;
    }
    else record j { returned = put_buffer (or_payload p.raw_buffer p.payload) j.returned }

-- `b-a < 32768 && a != b` on 16 bits.
unfoldable pub is_earlier : ℕ → ℕ → Bool
is_earlier a b = ltb (u16 (b + 65536 - a)) 32768 && not (a == b)

-- `emitSilence`.
unfoldable pub emit_silence : JitterBuffer → JitterBuffer
emit_silence j = elim j.silence_payload [
  | none ↦ j
  | some payload ↦
      if j.has_last
      then record j {
        silence = suc j.silence;
        last_seq = u16 (j.last_seq + 1);
        last_ts = u32 (j.last_ts + j.samples);
        output = silent (u16 (j.last_seq + 1)) (u32 (j.last_ts + j.samples)) payload ∷ j.output;
      }
      else j
]

-- The buffer of a packet that is released, and the entry without it.
unfoldable pub take_buffer : ℕ → JitterBuffer → JitterBuffer × Option ℕ
take_buffer seq j =
    let entry = entry_at seq j in
    if entry.seq == seq
    then (
      record j {
        raw_buffers = set j.raw_buffers (seq % raw_buffer_win_size) (record entry { buf = none });
      },
      entry.buf,
    )
    else (j, none)

-- The clean-up after every 32nd number: the buffers of earlier packets are returned.
abbrev pub is_stale : ℕ → RawBufferEntry → Bool
is_stale seq entry = elim entry.buf [ some b ↦ is_earlier entry.seq seq | none ↦ false ]

unfoldable pub clean_entries : ℕ → List RawBufferEntry → List RawBufferEntry
clean_entries seq [] = []
clean_entries seq (e ∷ es) =
    (if is_stale seq e then record e { buf = none } else e) ∷ clean_entries seq es

unfoldable pub stale_buffers : ℕ → List RawBufferEntry → List ℕ
stale_buffers seq [] = []
stale_buffers seq (e ∷ es) =
    let rest = stale_buffers seq es in if is_stale seq e then put_buffer e.buf rest else rest

unfoldable pub clean_up : ℕ → JitterBuffer → JitterBuffer
unfolding clean_entries stale_buffers
clean_up seq j = record j {
  raw_buffers = clean_entries seq j.raw_buffers;
  returned = stale_buffers seq j.raw_buffers ++ j.returned;
  dropped = j.dropped + length (stale_buffers seq j.raw_buffers);
}

-- What pion's `Pop` returns: a packet, or one of the errors that the loop tells apart.
pub data Popped : Type 0 where
  packet : ℕ → ℕ → Popped
  while_buffering invalid_operation underrun other_error : Popped

abbrev pub underflow : CodecName → JitterBuffer → JitterBuffer
underflow codec j =
    let counted = record j { underflows = suc j.underflows } in
    if same_name codec opus then counted else emit_silence counted

unfoldable pub release_packet : ℕ → ℕ → JitterBuffer → JitterBuffer
unfolding take_buffer clean_up
release_packet seq ts j =
    let noted = record j { last_seq = seq; last_ts = ts; has_last = true } in
    let (kept, raw) = take_buffer seq noted in
    let cleaned = if seq % 32 == 0 then clean_up seq kept else kept in
    record cleaned { output = received seq ts raw ∷ cleaned.output }

-- A round of the release loop, given whether the buffer was filling up before the `Pop`.
unfoldable pub release_tick : CodecName → Bool → Popped → JitterBuffer → JitterBuffer
unfolding release_packet
release_tick codec is_buffering (packet seq ts) j = release_packet seq ts j
release_tick codec is_buffering while_buffering j = j
release_tick codec is_buffering invalid_operation j = if is_buffering then j else underflow codec j
release_tick codec is_buffering underrun j = underflow codec j
release_tick codec is_buffering other_error j = j

-- `Stop`: the buffers that are left go back to the pool.
unfoldable pub left_buffers : List RawBufferEntry → List ℕ
left_buffers [] = []
left_buffers (e ∷ es) = put_buffer e.buf (left_buffers es)

unfoldable pub emptied : List RawBufferEntry → List RawBufferEntry
emptied [] = []
emptied (e ∷ es) = record e { buf = none } ∷ emptied es

unfoldable pub stop : JitterBuffer → JitterBuffer
unfolding left_buffers emptied
stop j = record j {
  raw_buffers = emptied j.raw_buffers;
  returned = left_buffers j.raw_buffers ++ j.returned;
}
