-- ===== src/Audio/G711/Tables.antt =====
-- internal/audio/g711.go: the four lookup tables and `Initialize`, which fills them once.
use tele_portal.Audio.G711.{a_law_to_linear, linear_to_a_law, linear_to_mu_law, mu_law_to_linear}
use tele_portal.Common.{Bool, arith, false, if◌then◌else◌, suc, true, zero, ℕ, ◌<◌, ◌==◌, ◌≡◌}

-- The package's variables: the arrays as functions of the index, and whether `initOnce` has run.
pub record Tables : Type 0 where
  pub initialized : Bool
  pub mu_law_to_pcm : ℕ → ℕ
  pub a_law_to_pcm : ℕ → ℕ
  pub pcm_to_mu_law : ℕ → ℕ
  pub pcm_to_a_law : ℕ → ℕ

-- As the program starts, every entry is 0.
unfoldable pub zeroed : Tables
zeroed = record {
  initialized = false;
  mu_law_to_pcm = λ i. 0;
  a_law_to_pcm = λ i. 0;
  pcm_to_mu_law = λ i. 0;
  pcm_to_a_law = λ i. 0;
}

abbrev write : (ℕ → ℕ) → ℕ → ℕ → ℕ → ℕ
write table i v j = if j == i then v else table j

-- `for i := range n { table[i] = f(i) }`
unfoldable pub fill : ℕ → (ℕ → ℕ) → (ℕ → ℕ) → ℕ → ℕ
fill zero f table = table
fill (suc n) f table = write (fill n f table) n (f n)

unfoldable pub initialize : Tables → Tables
initialize t = if t.initialized then t else record {
  initialized = true;
  mu_law_to_pcm = fill 256 mu_law_to_linear t.mu_law_to_pcm;
  a_law_to_pcm = fill 256 a_law_to_linear t.a_law_to_pcm;
  pcm_to_mu_law = fill 65536 linear_to_mu_law t.pcm_to_mu_law;
  pcm_to_a_law = fill 65536 linear_to_a_law t.pcm_to_a_law;
}

pub fill-lt : (n i : ℕ) (f table : ℕ → ℕ) → i < n → fill n f table i ≡ f i
unfolding fill
fill-lt zero i f table h = elim h [ ]
fill-lt (suc n) i f table h = ground (arith, fill-lt n i f table)

-- After `Initialize` at start-up the tables hold the companding functions.
pub initialize-zeroed :
    (i : ℕ) (sample : ℕ)
    → i < 256
    → sample < 65536
    → ((initialize zeroed).mu_law_to_pcm i ≡ mu_law_to_linear i)
      × ((initialize zeroed).a_law_to_pcm i ≡ a_law_to_linear i)
      × ((initialize zeroed).pcm_to_mu_law sample ≡ linear_to_mu_law sample)
      × ((initialize zeroed).pcm_to_a_law sample ≡ linear_to_a_law sample)
unfolding initialize zeroed
initialize-zeroed i sample h g = (
  fill-lt 256 i mu_law_to_linear _ h,
  fill-lt 256 i a_law_to_linear _ h,
  fill-lt 65536 sample linear_to_mu_law _ g,
  fill-lt 65536 sample linear_to_a_law _ g,
)
