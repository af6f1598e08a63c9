-- ===== src/Tests/Jitter.antt =====
-- The theorems on the jitter buffer at concrete inputs.
use tele_portal.Audio.Codec.{pcmu}
use tele_portal.Audio.Jitter.{
  Incoming, JitterBuffer, new_jitter_buffer, no_entry, packet, push, raw_buffer_win_size,
  release_tick,
}
use tele_portal.Audio.Jitter.Ownership.{
  handed, in_place, overwritten, owned, push-owned, release_tick-owned,
}
use tele_portal.Common.{false, length, none, refl, replicate, set, some, true, ◌+◌, ◌≡◌}

-- A packet whose number is stored already, in a small state.
abbrev buffer : JitterBuffer
buffer = record (new_jitter_buffer pcmu 8000 20) {
  raw_buffers = set (replicate 1024 no_entry) 5 (record { buf = some 70; seq = 5 });
}

abbrev duplicate : Incoming
duplicate = record { has_raw = true; sequence = 5; raw_buffer = some 71; payload = none }

sized : length buffer.raw_buffers ≡ raw_buffer_win_size
sized = refl

push-owned_example :
    owned 70 (push duplicate buffer) + in_place 70 (overwritten duplicate buffer)
    ≡ owned 70 buffer + in_place 70 (handed duplicate)
push-owned_example = push-owned 70 duplicate buffer sized

release_tick-owned_example :
    owned 70 (release_tick pcmu false (packet 32 640) buffer) ≡ owned 70 buffer
release_tick-owned_example = release_tick-owned 70 pcmu false (packet 32 640) buffer sized
