-- ===== src/Tests/Media.antt =====
-- The theorems on codecs, the packetizer, DTMF and ports at concrete inputs.
use tele_portal.Audio.Codec.{
  decode_pcma_to_l16, decode_pcmu_to_l16, encode_l16_to_pcma, encode_l16_to_pcmu,
}
use tele_portal.Audio.Codec.RoundTrip.{encode_l16-decode_g711}
use tele_portal.Audio.G711.{a_law_to_linear, linear_to_mu_law, mu_law_to_linear, neg16}
use tele_portal.Audio.G711.Loss.{a_law_loss, abs16, loss-le, mu_law_loss}
use tele_portal.Audio.G711.Polarity.{a_law_to_linear-neg16, itu_a_law}
use tele_portal.Audio.G711.RoundTrip.{canonical_mu_law, linear_to_mu_law-mu_law_to_linear}
use tele_portal.Audio.G711.Tables.{initialize, zeroed}
use tele_portal.Audio.Packetizer.{Event, Packetizer, input, run, running, start, taken, tick}
use tele_portal.Audio.Packetizer.Buffer.{Ring}
use tele_portal.Audio.Packetizer.Queue.{IsRing}
use tele_portal.Audio.Packetizer.Shaper.{run-start, shape_all, view_outcome}
use tele_portal.Common.{List, [], arith, map, max, refl, some, ℕ, ◌*◌, ◌+◌, ◌∷◌, ◌≡◌, ◌≤◌}
use tele_portal.Common.Result.{ok, ◌>>=◌}

-- A ring that has wrapped around.
abbrev wrapped : Ring
wrapped = record { cells = 5 ∷ 6 ∷ 7 ∷ 8 ∷ []; head = 3; tail = 1; count = 2 }

wrapped-IsRing : IsRing wrapped
wrapped-IsRing = record {
  nonempty = omega arith;
  head_in = omega arith;
  fits = omega arith;
  tail_at = refl;
}

abbrev two_bytes : Packetizer
two_bytes = record { ptime = 20; sample_rate = 8000; bytes_per_tick = 2 }

abbrev events : List Event
events = input (1 ∷ 2 ∷ 3 ∷ []) ∷ tick ∷ tick ∷ taken ∷ []

run-start_example :
    view_outcome (run two_bytes (running (start two_bytes)) events)
    ≡ shape_all 2 (running (record { waiting = []; chunks = [] })) events
run-start_example = run-start two_bytes events (omega arith)

abbrev no_bytes : Packetizer
no_bytes = record { ptime = 20; sample_rate = 0; bytes_per_tick = 0 }

linear_to_mu_law-mu_law_to_linear_example :
    linear_to_mu_law (mu_law_to_linear 0x7f) ≡ canonical_mu_law 0x7f
linear_to_mu_law-mu_law_to_linear_example = linear_to_mu_law-mu_law_to_linear 0x7f (omega arith)

loss-le_example :
    (32 * mu_law_loss 40000 ≤ abs16 40000 + 132) × (32 * a_law_loss 40000 ≤ max (abs16 40000) 256)
loss-le_example = loss-le 40000 (omega arith)

a_law_to_linear-neg16_example : a_law_to_linear 0xd5 ≡ neg16 (itu_a_law 0xd5)
a_law_to_linear-neg16_example = a_law_to_linear-neg16 0xd5 (omega arith)

encode_l16-decode_g711_example :
    ((decode_pcmu_to_l16 (initialize zeroed) (some (0x7f ∷ []))
        >>= encode_l16_to_pcmu (initialize zeroed))
      ≡ ok (map canonical_mu_law (0x7f ∷ [])))
    × ((decode_pcma_to_l16 (initialize zeroed) (some (0x7f ∷ []))
          >>= encode_l16_to_pcma (initialize zeroed))
        ≡ ok (0x7f ∷ []))
encode_l16-decode_g711_example = encode_l16-decode_g711 (0x7f ∷ []) (omega arith, tt)

abbrev odd_payload : List ℕ
odd_payload = 1 ∷ 2 ∷ 3 ∷ []
