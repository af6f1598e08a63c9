-- ===== src/Rtp/Dtmf/Ramp.antt =====
-- internal/rtp/dtmf_generator.go: which packets a digit gives, and when the loop ends.
use mathlib.Core.Option
use tele_portal.Common.{
  ==_iff, List, [], ap, ap₂, arith, false, if◌then◌else◌, ltb, lt→ltb, map, min, none, refl,
  replicate, some, suc, sym, zero, ℕ, ◌*◌, ◌++◌, ◌+◌, ◌-◌, ◌/◌, ◌<◌, ◌==◌, ◌∙◌, ◌∷◌, ◌≡◌, ◌≤◌,
}
use tele_portal.Common.Int.{ℤ}
use tele_portal.Common.Slices.{tabulate, tabulate_ext}
use tele_portal.Common.Text.{Text}
use tele_portal.Common.Words.{u16}
use tele_portal.Rtp.Dtmf.{
  DtmfGenerator, digit_to_event, generate, interval, payload, ramp_loop, to_samples,
}

-- The durations that the growing packets should have: a multiple of the interval each, and the
-- whole duration last.
abbrev pub ramp : ℕ → ℕ → List ℕ
ramp step_samples total_samples =
    tabulate ((total_samples + step_samples - 1) / step_samples)
      (λ i. min (suc i * step_samples) total_samples)

module _ (event p total : ℕ) (moves : 0 < p) (narrow : total + p < 65536) where
  capped_last :
      (c : ℕ)
      → c < total
      → total ≤ c + p
      → (if ltb total (u16 (c + p)) then total else u16 (c + p)) ≡ total
  capped_last c lt hi = ground arith

  capped_more :
      (c : ℕ) → c + p < total → (if ltb total (u16 (c + p)) then total else u16 (c + p)) ≡ c + p
  capped_more c lt = ground arith

  ramp_loop-last :
      (c fuel : ℕ)
      → c < total
      → total ≤ c + p
      → ramp_loop (suc fuel) event p total c ≡ some (payload event 0x0a total ∷ [])
  unfolding ramp_loop
  ramp_loop-last c fuel lt hi =
      rw (capped_last c lt hi) (rw (lt→ltb c total lt, (==_iff total total).1 refl) refl)

  ramp_loop-more :
      (c fuel : ℕ)
      → c + p < total
      → ramp_loop (suc fuel) event p total c
        ≡ Option.map (◌∷◌ (payload event 0x0a (c + p))) (ramp_loop fuel event p total (c + p))
  unfolding ramp_loop
  ramp_loop-more c fuel lt = rw (capped_more c lt) (rw (lt→ltb c total (omega arith), differ) refl)
    where
      differ : ((c + p) == total) ≡ false
      differ = ground arith

  ramp_loop-tabulate :
      (k c fuel : ℕ)
      → k < fuel
      → c + k * p < total
      → total ≤ c + suc k * p
      → ramp_loop fuel event p total c
        ≡ some (map (payload event 0x0a) (tabulate (suc k) (λ i. min (c + suc i * p) total)))
  ramp_loop-tabulate k c zero hf lo hi = elim hf [ ]
  ramp_loop-tabulate zero c (suc fuel) hf lo hi =
      ramp_loop-last c fuel (omega arith) (omega arith)
      ∙ ap (λ (d : ℕ). some (payload event 0x0a d ∷ [])) {x = total} {y = min (c + 1 * p) total}
          (omega arith)
      ∙ unfold tabulate in refl
  ramp_loop-tabulate (suc k) c (suc fuel) hf lo hi =
      ramp_loop-more c fuel (grind arith)
      ∙ ap (Option.map (◌∷◌ (payload event 0x0a (c + p))))
          (ramp_loop-tabulate k (c + p) fuel (omega arith) (omega arith) (omega arith))
      ∙ ap₂ (λ (d : ℕ) (ds : List ℕ). some (payload event 0x0a d ∷ map (payload event 0x0a) ds))
          {x = c + p} {y = min (c + 1 * p) total} (grind arith)
          (tabulate_ext (suc k) (λ i. min (c + p + suc i * p) total)
            (λ i. min (c + suc (suc i) * p) total) (λ i h. omega arith))
      ∙ unfold tabulate in refl

rounds : (p total : ℕ) → 0 < p → 0 < total → (total + p - 1) / p ≡ suc ((total - 1) / p)
rounds p total hp ht = grind arith

rounds_bounds :
    (p total : ℕ)
    → 0 < p
    → 0 < total
    → ((total - 1) / p * p < total) × (total ≤ suc ((total - 1) / p) * p)
rounds_bounds p total hp ht = grind arith

rounds-le : (p total : ℕ) → 0 < p → 0 < total → (total - 1) / p < total
rounds-le p total hp ht = grind arith

none_left : (p : ℕ) → 0 < p → (0 + p - 1) / p ≡ 0
none_left p h = grind arith

ramp_loop-ramp :
    (event p total fuel : ℕ)
    → 0 < p
    → total + p < 65536
    → total < fuel
    → ramp_loop fuel event p total 0 ≡ some (map (payload event 0x0a) (ramp p total))
unfolding ramp_loop tabulate
ramp_loop-ramp event p zero zero hp hn hf = elim hf [ ]
ramp_loop-ramp event p zero (suc fuel) hp hn hf =
    ap (λ (n : ℕ). some (map (payload event 0x0a) (tabulate n (λ i. min (suc i * p) 0))))
      (sym (none_left p hp))
ramp_loop-ramp event p (suc t) fuel hp hn hf =
    ramp_loop-tabulate event p (suc t) hp hn ((suc t - 1) / p) 0 fuel
      (omega (arith, rounds-le p (suc t) hp (omega arith)))
      (omega (arith, rounds_bounds p (suc t) hp (omega arith)))
      (omega (arith, rounds_bounds p (suc t) hp (omega arith)))
    ∙ ap (λ (ds : List ℕ). some (map (payload event 0x0a) ds))
        (ap (λ (n : ℕ). tabulate n (λ i. min (0 + suc i * p) (suc t)))
            (sym (rounds p (suc t) hp (omega arith)))
          ∙ tabulate_ext _ _ _ (λ i h. omega arith))

module _ (fuel : ℕ) (g : DtmfGenerator) (digit : Text) (duration_ms : ℤ) where
  abbrev pub total_of : ℕ
  total_of = to_samples g.sample_rate duration_ms

  abbrev pub step_of : ℕ
  step_of = to_samples g.sample_rate (interval duration_ms g.ptime)

  -- Where the packet interval is not empty and the sum of duration and interval fits 16 bits, the
  -- generator ends, and gives the packets of the ramp and three end packets with the whole
  -- duration; as many rounds as there are samples are enough.
  pub generate-ramp :
      0 < step_of
      → total_of + step_of < 65536
      → total_of < fuel
      → generate fuel g digit duration_ms
        ≡ some (
            map (payload (digit_to_event digit) 0x0a) (ramp step_of total_of)
            ++ replicate 3 (payload (digit_to_event digit) 0x8a total_of))
  unfolding generate
  generate-ramp moves narrow enough =
      ap
        (Option.map
          (λ packets. packets ++ replicate 3 (payload (digit_to_event digit) 0x8a total_of)))
        (ramp_loop-ramp (digit_to_event digit) step_of total_of fuel moves narrow enough)

ramp_loop_stays : (fuel event total : ℕ) → 0 < total → ramp_loop fuel event 0 total 0 ≡ none
unfolding ramp_loop
ramp_loop_stays zero event total h = refl
ramp_loop_stays (suc fuel) event total h =
    rw (lt→ltb 0 total h, not_over, not_there) (rw (ramp_loop_stays fuel event total h) refl)
  where
    not_over : ltb total 0 ≡ false
    not_over = ground arith

    not_there : (0 == total) ≡ false
    not_there = ground arith

-- Where the packet interval comes to 0 samples in 16 bits and the duration does not, the loop never
-- ends: no number of rounds is enough.
pub generate-none :
    (fuel : ℕ) (g : DtmfGenerator) (digit : Text) (duration_ms : ℤ)
    → step_of fuel g digit duration_ms ≡ 0
    → 0 < total_of fuel g digit duration_ms
    → generate fuel g digit duration_ms ≡ none
unfolding generate
generate-none fuel g digit duration_ms still some_left = rw still (
    rw
      (ramp_loop_stays fuel (digit_to_event digit) (to_samples g.sample_rate duration_ms) some_left)
      refl)
