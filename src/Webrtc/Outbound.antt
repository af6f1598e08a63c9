-- ===== src/Webrtc/Outbound.antt =====
-- internal/webrtc/manager.go: `HandleOutboundAudio`, the numbering of the packets to the peer, and
-- `HandleWebRTCTrack`, which hands on those of the peer.
use tele_portal.Common.{
  Bool, List, [], ap₂, arith, false, if◌then◌else◌, refl, suc, true, ℕ, ◌*◌, ◌+◌, ◌/◌, ◌∙◌, ◌∷◌,
  ◌≡◌,
}
use tele_portal.Common.Words.{u16, u32}
use tele_portal.Rtp.Writer.{Packet}

-- The numbers that the loop starts with; the first sequence number and timestamp are random.
pub record Track : Type 0 where
  pub track_type : ℕ
  pub track_clock : ℕ

unfoldable pub samples_of : Track → ℕ
samples_of k = u32 (k.track_clock / 50)

-- The packets that the track takes, for the payloads with whether `WriteRTP` takes their packet: an
-- error ends the loop.
unfoldable pub outbound_loop : Track → ℕ → ℕ → List (List ℕ × Bool) → List Packet
unfolding samples_of
outbound_loop k sequence timestamp [] = []
outbound_loop k sequence timestamp ((p, written) ∷ rest) =
    let more = outbound_loop k (u16 (sequence + 1)) (u32 (timestamp + samples_of k)) rest in
    if written
    then record {
      payload_type = k.track_type;
      sequence = sequence;
      timestamp = timestamp;
      payload = p;
    }
      ∷ more
    else []

unfoldable pub handle_outbound_audio : Track → ℕ → ℕ → List (List ℕ × Bool) → List Packet
unfolding outbound_loop
handle_outbound_audio k random_sequence random_timestamp payloads =
    outbound_loop k (u16 random_sequence) (u32 random_timestamp) payloads

-- The payloads before the first that is not taken.
unfoldable pub accepted_payloads : List (List ℕ × Bool) → List (List ℕ)
accepted_payloads [] = []
accepted_payloads ((p, written) ∷ rest) =
    let more = accepted_payloads rest in if written then p ∷ more else []

-- The packet of each payload by its place `i`, counted from the first.
unfoldable pub numbered : Track → ℕ → ℕ → ℕ → List (List ℕ) → List Packet
unfolding samples_of
numbered k sequence timestamp i [] = []
numbered k sequence timestamp i (p ∷ rest) =
    record {
      payload_type = k.track_type;
      sequence = u16 (sequence + i);
      timestamp = u32 (timestamp + i * samples_of k);
      payload = p;
    }
    ∷ numbered k sequence timestamp (suc i) rest

next_sequence : (s i : ℕ) → u16 (u16 (s + i) + 1) ≡ u16 (s + suc i)
next_sequence s i = omega arith

next_timestamp : (t i n : ℕ) → u32 (u32 (t + i * n) + n) ≡ u32 (t + suc i * n)
next_timestamp t i n = grind arith

outbound_loop-numbered :
    (k : Track) (s t i : ℕ) (payloads : List (List ℕ × Bool))
    → outbound_loop k (u16 (s + i)) (u32 (t + i * samples_of k)) payloads
      ≡ numbered k s t i (accepted_payloads payloads)
unfolding outbound_loop numbered accepted_payloads
outbound_loop-numbered k s t i [] = refl
outbound_loop-numbered k s t i ((p, false) ∷ rest) = refl
outbound_loop-numbered k s t i ((p, true) ∷ rest) =
    let more : outbound_loop k (u16 (u16 (s + i) + 1))
          (u32 (u32 (t + i * samples_of k) + samples_of k)) rest
        ≡ numbered k s t (suc i) (accepted_payloads rest) =
      rw (next_sequence s i, next_timestamp t i (samples_of k))
        (outbound_loop-numbered k s t (suc i) rest) in
    rw more refl

-- The packets to the peer are those of the payloads up to the first that the track refuses, in
-- their order: the packet at place `i` has the first sequence number plus `i`, modulo 2^16, and the
-- first timestamp plus `i` times a fiftieth of the clock rate, modulo 2^32.
pub handle_outbound_audio-numbered :
    (k : Track) (s t : ℕ) (payloads : List (List ℕ × Bool))
    → handle_outbound_audio k s t payloads ≡ numbered k s t 0 (accepted_payloads payloads)
unfolding handle_outbound_audio
handle_outbound_audio-numbered k s t payloads =
    ap₂ (λ (a : ℕ) (b : ℕ). outbound_loop k a b payloads) (omega arith) (omega arith)
    ∙ outbound_loop-numbered k s t 0 payloads
