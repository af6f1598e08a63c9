-- ===== src/Audio/Codec/RoundTrip.antt =====
-- internal/audio/codec.go and encoder.go: whole payloads there and back.
use tele_portal.Audio.Codec.{
  decode_l16be_to_l16le, decode_l16le_to_l16be, decode_loop, decode_pcma_to_l16, decode_pcmu_to_l16,
  encode_l16_to_pcma, encode_l16_to_pcmu, encode_loop, odd_length, swap_loop,
}
use tele_portal.Audio.G711.{a_law_to_linear, mu_law_to_linear}
use tele_portal.Audio.G711.RoundTrip.{
  canonical_mu_law, linear_to_a_law-a_law_to_linear, linear_to_mu_law-mu_law_to_linear,
  to_linear-IsU16,
}
use tele_portal.Audio.G711.Tables.{Tables, initialize, initialize-zeroed, zeroed}
use tele_portal.Common.{
  ==_iff, Bool-cases, List, [], ap, ap₂, arith, if◌then◌else◌, inl, inr, length, map, refl, some,
  true, ℕ, ◌%◌, ◌*◌, ◌/◌, ◌==◌, ◌∙◌, ◌∷◌, ◌≡◌,
}
use tele_portal.Common.Result.{err, ok, ◌>>=◌}
use tele_portal.Common.Table.{all_from, all_from_sound}
use tele_portal.Common.Words.{IsByte, IsU16, bit_or, u16}

abbrev pub AllBytes : List ℕ → Type 0
AllBytes [] = Unit {0}
AllBytes (b ∷ bs) = IsByte b × AllBytes bs

join_table : all_from 0 65536 (λ s. bit_or (s % 256) (u16 (s / 256 % 256 * 256)) == s) ≡ true
unfolding all_from
join_table = refl

-- A sample is put together from the two bytes that it was taken apart into.
join_bytes : (s : ℕ) → IsU16 s → bit_or (s % 256) (u16 (s / 256 % 256 * 256)) ≡ s
join_bytes s h = (==_iff _ s).0 (all_from_sound 0 65536 s _ join_table (omega arith) h)

pub length-decode_loop :
    (table : ℕ → ℕ) (bs : List ℕ) → length (decode_loop table bs) ≡ 2 * length bs
unfolding decode_loop
length-decode_loop table [] = refl
length-decode_loop table (b ∷ bs) = omega (arith, length-decode_loop table bs)

encode_loop-decode_loop :
    (dec enc f : ℕ → ℕ)
    → ((b : ℕ) → IsByte b → IsU16 (dec b))
    → ((b : ℕ) → IsByte b → enc (dec b) ≡ f b)
    → (bs : List ℕ) → AllBytes bs
    → encode_loop enc (decode_loop dec bs) ≡ map f bs
unfolding encode_loop decode_loop
encode_loop-decode_loop dec enc f range back [] h = refl
encode_loop-decode_loop dec enc f range back (b ∷ bs) (hb, hbs) =
    ap₂ ◌∷◌ (ap enc (join_bytes (dec b) (range b hb)) ∙ back b hb)
      (encode_loop-decode_loop dec enc f range back bs hbs)

even-length-decode_loop :
    (table : ℕ → ℕ) (bs : List ℕ) → (length (decode_loop table bs) % 2 == 0) ≡ true
even-length-decode_loop table bs = ground (arith, length-decode_loop table bs)

map-id : (bs : List ℕ) → map (λ b. b) bs ≡ bs
map-id [] = refl
map-id (b ∷ bs) = ap (◌∷◌ b) (map-id bs)

abbrev tables : Tables
tables = initialize zeroed

mu_law_loops :
    (bs : List ℕ)
    → AllBytes bs
    → encode_loop tables.pcm_to_mu_law (decode_loop tables.mu_law_to_pcm bs)
      ≡ map canonical_mu_law bs
mu_law_loops =
    encode_loop-decode_loop tables.mu_law_to_pcm tables.pcm_to_mu_law canonical_mu_law
      (λ b h. rw ((initialize-zeroed b 0 h (omega arith)).0) (to_linear-IsU16 b h).0)
      λ b h.
        ap tables.pcm_to_mu_law ((initialize-zeroed b 0 h (omega arith)).0)
        ∙ (initialize-zeroed 0 (mu_law_to_linear b) (omega arith) (to_linear-IsU16 b h).0).2
        ∙ linear_to_mu_law-mu_law_to_linear b h

a_law_loops :
    (bs : List ℕ)
    → AllBytes bs
    → encode_loop tables.pcm_to_a_law (decode_loop tables.a_law_to_pcm bs) ≡ bs
a_law_loops bs hs =
    encode_loop-decode_loop tables.a_law_to_pcm tables.pcm_to_a_law (λ b. b)
      (λ b h. rw ((initialize-zeroed b 0 h (omega arith)).1) (to_linear-IsU16 b h).1)
      (λ b h.
        ap tables.pcm_to_a_law ((initialize-zeroed b 0 h (omega arith)).1)
        ∙ (initialize-zeroed 0 (a_law_to_linear b) (omega arith) (to_linear-IsU16 b h).1).3
        ∙ linear_to_a_law-a_law_to_linear b h)
      bs hs
    ∙ map-id bs

-- With the tables of `Initialize`, a G.711 payload that is decoded to L16 and encoded again comes
-- back: an A-law payload unchanged, a μ-law payload with each byte 0x7f as 0xff.
pub encode_l16-decode_g711 :
    (bs : List ℕ)
    → AllBytes bs
    → ((decode_pcmu_to_l16 (initialize zeroed) (some bs) >>= encode_l16_to_pcmu (initialize zeroed))
        ≡ ok (map canonical_mu_law bs))
      × ((decode_pcma_to_l16 (initialize zeroed) (some bs)
            >>= encode_l16_to_pcma (initialize zeroed))
          ≡ ok bs)
unfolding decode_pcmu_to_l16 encode_l16_to_pcmu decode_pcma_to_l16 encode_l16_to_pcma
encode_l16-decode_g711 bs h = (
  rw (even-length-decode_loop tables.mu_law_to_pcm bs) (ap ok (mu_law_loops bs h)),
  rw (even-length-decode_loop tables.a_law_to_pcm bs) (ap ok (a_law_loops bs h)),
)

swap_loop-swap_loop : (bs : List ℕ) → length bs % 2 ≡ 0 → swap_loop (swap_loop bs) ≡ bs
unfolding swap_loop
swap_loop-swap_loop [] h = refl
swap_loop-swap_loop (b ∷ []) h = absurd (omega arith)
swap_loop-swap_loop (a ∷ b ∷ bs) h =
    ap (λ (t : List ℕ). a ∷ b ∷ t) (swap_loop-swap_loop bs (omega arith))

length-swap_loop : (bs : List ℕ) → length bs % 2 ≡ 0 → length (swap_loop bs) ≡ length bs
unfolding swap_loop
length-swap_loop [] h = refl
length-swap_loop (b ∷ []) h = absurd (omega arith)
length-swap_loop (a ∷ b ∷ bs) h = omega (arith, length-swap_loop bs (omega arith))

-- Swapping to little-endian and back to big-endian gives the payload back when its length is
-- even, and is refused when it is odd.
pub decode_l16le_to_l16be-decode_l16be_to_l16le :
    (bs : List ℕ)
    → (decode_l16be_to_l16le (some bs) >>= λ le. decode_l16le_to_l16be (some le))
      ≡ (if length bs % 2 == 0 then ok bs else err odd_length)
unfolding decode_l16le_to_l16be decode_l16be_to_l16le
decode_l16le_to_l16be-decode_l16be_to_l16le bs = elim (Bool-cases (length bs % 2 == 0)) [
  | inl even ↦
      let e : length bs % 2 ≡ 0 = (==_iff _ _).0 even in
      rw even (rw (length-swap_loop bs e) (rw even (ap ok (swap_loop-swap_loop bs e))))
  | inr odd ↦ rw odd refl
]
