-- ===== src/Common/Slices.antt =====
-- Go's slice expressions and `copy`, and lists given by their elements.
use native.Mathlib.Nat.{zero-add, suc-add}
use tele_portal.Common.{
  List, [], ap, ap₂, arith, drop, get_or, inr, length, length-drop, length-take, refl, suc, sym,
  take, zero, ℕ, ◌++◌, ◌+◌, ◌-◌, ◌<◌, ◌∙◌, ◌∷◌, ◌≡◌, ◌≤◌, ◌⊎◌,
}

-- `xs[i:i+n]`.
abbrev pub slice {ℓ} : {A : Type ℓ} → ℕ → ℕ → List A → List A
slice i n xs = take n (drop i xs)

-- `q` is a beginning of `xs`.
abbrev pub IsBeginning {ℓ} : {A : Type ℓ} → List A → List A → Type ℓ
IsBeginning {A = A} q xs = (rest : List A) × (q ++ rest ≡ xs)

-- `copy(dst[i:], src)`: what does not fit into `dst` is left out.
unfoldable pub blit {ℓ} : {A : Type ℓ} → ℕ → List A → List A → List A
blit zero [] dst = dst
blit zero (x ∷ xs) [] = []
blit zero (x ∷ xs) (d ∷ ds) = x ∷ blit zero xs ds
blit (suc i) src [] = []
blit (suc i) src (d ∷ ds) = d ∷ blit i src ds

-- The list of `f 0`, `f 1`, …, `f (n - 1)`.
unfoldable pub tabulate {ℓ} : {A : Type ℓ} → ℕ → (ℕ → A) → List A
tabulate zero f = []
tabulate (suc n) f = f 0 ∷ tabulate n (λ i. f (suc i))

module _ {ℓ} {A : Type ℓ} where
  pub length-tabulate : (n : ℕ) (f : ℕ → A) → length (tabulate n f) ≡ n
  unfolding tabulate
  length-tabulate zero f = refl
  length-tabulate (suc n) f = ap suc (length-tabulate n (λ i. f (suc i)))

  pub tabulate_ext :
      (n : ℕ) (f g : ℕ → A) → ((i : ℕ) → i < n → f i ≡ g i) → tabulate n f ≡ tabulate n g
  unfolding tabulate
  tabulate_ext zero f g h = refl
  tabulate_ext (suc n) f g h =
      ap₂ ◌∷◌ (h 0 (omega arith))
        (tabulate_ext n (λ i. f (suc i)) (λ i. g (suc i)) (λ i p. h (suc i) (omega arith)))

  pub tabulate-append :
      (m n : ℕ) (f : ℕ → A) → tabulate (m + n) f ≡ tabulate m f ++ tabulate n (λ i. f (m + i))
  unfolding tabulate
  tabulate-append zero n f =
      ap (λ (k : ℕ). tabulate k f) (zero-add n)
      ∙ tabulate_ext n f (λ i. f (0 + i)) (λ i p. ap f (omega arith))
  tabulate-append (suc m) n f =
      ap (λ (k : ℕ). tabulate k f) (suc-add m n)
      ∙ ap (◌∷◌ (f 0)) (
          tabulate-append m n (λ i. f (suc i))
          ∙ ap (λ (t : List A). tabulate m (λ i. f (suc i)) ++ t)
              (tabulate_ext n (λ i. f (suc (m + i))) (λ i. f (suc m + i))
                (λ i p. ap f (omega arith))))

  pub take-tabulate : (k n : ℕ) (f : ℕ → A) → k ≤ n → take k (tabulate n f) ≡ tabulate k f
  unfolding tabulate
  take-tabulate zero n f h = refl
  take-tabulate (suc k) zero f h = elim h [ ]
  take-tabulate (suc k) (suc n) f h =
      ap (◌∷◌ (f 0)) (take-tabulate k n (λ i. f (suc i)) (omega arith))

  pub drop-tabulate :
      (k n : ℕ) (f : ℕ → A) → drop k (tabulate (k + n) f) ≡ tabulate n (λ i. f (k + i))
  unfolding tabulate
  drop-tabulate zero n f =
      ap (λ (m : ℕ). tabulate m f) (zero-add n)
      ∙ tabulate_ext n f (λ i. f (0 + i)) (λ i p. ap f (omega arith))
  drop-tabulate (suc k) n f =
      ap (λ (m : ℕ). drop (suc k) (tabulate m f)) (suc-add k n)
      ∙ drop-tabulate k n (λ i. f (suc i))
      ∙ tabulate_ext n (λ i. f (suc (k + i))) (λ i. f (suc k + i)) (λ i p. ap f (omega arith))

  pub slice-tabulate :
      (d : A) (i n : ℕ) (xs : List A)
      → i + n ≤ length xs
      → slice i n xs ≡ tabulate n (λ j. get_or xs (i + j) d)
  unfolding tabulate
  slice-tabulate d zero zero xs h = refl
  slice-tabulate d zero (suc n) [] h = absurd (omega arith)
  slice-tabulate d zero (suc n) (x ∷ xs) h = ap (◌∷◌ x) (
      slice-tabulate d 0 n xs (omega arith)
      ∙ tabulate_ext n (λ j. get_or xs (0 + j) d) (λ j. get_or (x ∷ xs) (0 + suc j) d)
          (λ j p.
            ap (λ (k : ℕ). get_or (x ∷ xs) k d) {x = suc (0 + j)} {y = 0 + suc j} (omega arith)))
  slice-tabulate d (suc i) zero [] h = refl
  slice-tabulate d (suc i) (suc n) [] h = absurd (omega arith)
  slice-tabulate d (suc i) n (x ∷ xs) h =
      slice-tabulate d i n xs (omega arith)
      ∙ tabulate_ext n (λ j. get_or xs (i + j) d) (λ j. get_or (x ∷ xs) (suc i + j) d)
          (λ j p. ap (λ (k : ℕ). get_or (x ∷ xs) k d) (sym (suc-add i j)))

  pub get_or-eq : (xs : List A) (d : A) (i j : ℕ) → i ≡ j → get_or xs i d ≡ get_or xs j d
  get_or-eq xs d i j e = ap (λ (k : ℕ). get_or xs k d) e

  -- Where `copy` writes, and where it does not.
  pub get_or-blit_in :
      (d : A) (i j : ℕ) (src dst : List A)
      → i + length src ≤ length dst
      → i ≤ j
      → j < i + length src
      → get_or (blit i src dst) j d ≡ get_or src (j - i) d
  unfolding blit
  get_or-blit_in d zero j [] dst h lo hi = absurd (omega arith)
  get_or-blit_in d zero j (x ∷ xs) [] h lo hi = absurd (omega arith)
  get_or-blit_in d zero zero (x ∷ xs) (y ∷ ys) h lo hi =
      get_or-eq (x ∷ xs) d 0 (0 - 0) (omega arith)
  get_or-blit_in d zero (suc j) (x ∷ xs) (y ∷ ys) h lo hi =
      get_or-blit_in d zero j xs ys (omega arith) (omega arith) (omega arith)
      ∙ get_or-eq (x ∷ xs) d (suc (j - 0)) (suc j - 0) (omega arith)
  get_or-blit_in d (suc i) j src [] h lo hi = absurd (omega arith)
  get_or-blit_in d (suc i) zero src (y ∷ ys) h lo hi = absurd (omega arith)
  get_or-blit_in d (suc i) (suc j) src (y ∷ ys) h lo hi =
      get_or-blit_in d i j src ys (omega arith) (omega arith) (omega arith)
      ∙ get_or-eq src d (j - i) (suc j - suc i) (omega arith)

  pub get_or-blit_out :
      (d : A) (i j : ℕ) (src dst : List A)
      → (j < i) ⊎ (i + length src ≤ j)
      → get_or (blit i src dst) j d ≡ get_or dst j d
  unfolding blit
  get_or-blit_out d zero j [] dst h = refl
  get_or-blit_out d zero j (x ∷ xs) [] h = refl
  get_or-blit_out d zero zero (x ∷ xs) (y ∷ ys) h = absurd (omega arith)
  get_or-blit_out d zero (suc j) (x ∷ xs) (y ∷ ys) h =
      get_or-blit_out d zero j xs ys (inr (omega arith))
  get_or-blit_out d (suc i) j src [] h = refl
  get_or-blit_out d (suc i) zero src (y ∷ ys) h = refl
  get_or-blit_out d (suc i) (suc j) src (y ∷ ys) h = get_or-blit_out d i j src ys (omega arith)

  pub length-blit : (i : ℕ) (src dst : List A) → length (blit i src dst) ≡ length dst
  unfolding blit
  length-blit zero [] dst = refl
  length-blit zero (x ∷ xs) [] = refl
  length-blit zero (x ∷ xs) (y ∷ ys) = ap suc (length-blit zero xs ys)
  length-blit (suc i) src [] = refl
  length-blit (suc i) src (y ∷ ys) = ap suc (length-blit i src ys)

  pub get_or-tabulate : (d : A) (n i : ℕ) (f : ℕ → A) → i < n → get_or (tabulate n f) i d ≡ f i
  unfolding tabulate
  get_or-tabulate d zero i f h = elim h [ ]
  get_or-tabulate d (suc n) zero f h = refl
  get_or-tabulate d (suc n) (suc i) f h = get_or-tabulate d n i (λ j. f (suc j)) (omega arith)

  pub length-slice : (i n : ℕ) (xs : List A) → i + n ≤ length xs → length (slice i n xs) ≡ n
  length-slice i n xs h = omega (arith, length-take n (drop i xs), length-drop i xs)

  pub get_or-slice :
      (d : A) (i n j : ℕ) (xs : List A)
      → i + n ≤ length xs
      → j < n
      → get_or (slice i n xs) j d ≡ get_or xs (i + j) d
  get_or-slice d i n j xs h k =
      ap (λ (t : List A). get_or t j d) (slice-tabulate d i n xs h)
      ∙ get_or-tabulate d n j (λ m. get_or xs (i + m) d) k

  pub take-all : (n : ℕ) (xs : List A) → length xs ≤ n → take n xs ≡ xs
  take-all zero [] h = refl
  take-all zero (x ∷ xs) h = absurd (omega arith)
  take-all (suc n) [] h = refl
  take-all (suc n) (x ∷ xs) h = ap (◌∷◌ x) (take-all n xs (omega arith))
