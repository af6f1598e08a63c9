-- ===== src/Audio/Jitter/Serial.antt =====
-- internal/audio/pion_jitter_buffer.go: the order of sequence numbers.
use tele_portal.Audio.Jitter.{is_earlier}
use tele_portal.Common.{arith, false, ltb, refl, true, ℕ, ◌+◌, ◌-◌, ◌<◌, ◌==◌, ◌≡◌}
use tele_portal.Common.Words.{u16}

ahead : (a d : ℕ) → a < 65536 → d < 32768 → u16 (u16 (a + d) + 65536 - a) ≡ d
ahead a d h hi = omega arith

behind : (a d : ℕ) → a < 65536 → 0 < d → d < 32768 → u16 (a + 65536 - u16 (a + d)) ≡ 65536 - d
behind a d h lo hi = omega arith

other : (a d : ℕ) → a < 65536 → 0 < d → d < 32768 → (a == u16 (a + d)) ≡ false
other a d h lo hi = ground arith

near : (d : ℕ) → d < 32768 → (ltb d 32768 ≡ true) × (ltb (65536 - d) 32768 ≡ false)
near d hi = (ground arith, ground arith)

-- Within a window of half the numbers the order is the one of time, also where the numbers wrap
-- around: a packet is earlier than one that comes 1 to 32767 after it, and that one is not
-- earlier than the packet.
pub is_earlier-forward :
    (a d : ℕ)
    → a < 65536
    → 0 < d
    → d < 32768
    → (is_earlier a (u16 (a + d)) ≡ true) × (is_earlier (u16 (a + d)) a ≡ false)
unfolding is_earlier
is_earlier-forward a d h lo hi = (
  rw (ahead a d h hi, other a d h lo hi, (near d hi).0) refl,
  rw (behind a d h lo hi, (near d hi).1) refl,
)
