-- ===== src/Audio/Recorder/Channels.antt =====
-- internal/audio/recorder.go: the two channels of what is written.
-- The bytes of the left and of the right samples.
use tele_portal.Audio.Recorder.{interleave_loop}
use tele_portal.Common.{
  List, [], ap, arith, length, refl, suc, take, zero, ℕ, ◌%◌, ◌*◌, ◌++◌, ◌∙◌, ◌∷◌, ◌≡◌, ◌≤◌,
}

abbrev pub left_of : List ℕ → List ℕ
left_of (a ∷ b ∷ c ∷ d ∷ xs) = a ∷ b ∷ left_of xs
left_of _ = []

abbrev pub right_of : List ℕ → List ℕ
right_of (a ∷ b ∷ c ∷ d ∷ xs) = c ∷ d ∷ right_of xs
right_of _ = []

-- Whole samples of both sides.
pub data IsFrames : List ℕ → Type 0 where
  no_frames : IsFrames []
  frame : {a b c d : ℕ} {xs : List ℕ} → IsFrames xs → IsFrames (a ∷ b ∷ c ∷ d ∷ xs)

pub append-IsFrames : {xs ys : List ℕ} → IsFrames xs → IsFrames ys → IsFrames (xs ++ ys)
append-IsFrames no_frames g = g
append-IsFrames (frame f) g = frame (append-IsFrames f g)

pub left_of-append :
    {xs : List ℕ} (ys : List ℕ) → IsFrames xs → left_of (xs ++ ys) ≡ left_of xs ++ left_of ys
left_of-append ys no_frames = refl
left_of-append ys (frame {a = a} {b = b} f) = ap (λ l. a ∷ b ∷ l) (left_of-append ys f)

pub right_of-append :
    {xs : List ℕ} (ys : List ℕ) → IsFrames xs → right_of (xs ++ ys) ≡ right_of xs ++ right_of ys
right_of-append ys no_frames = refl
right_of-append ys (frame {c = c} {d = d} f) = ap (λ l. c ∷ d ∷ l) (right_of-append ys f)

pub length-right_of : {xs : List ℕ} → IsFrames xs → length (right_of xs) ≡ length (left_of xs)
length-right_of no_frames = refl
length-right_of (frame f) = ap (λ n. suc (suc n)) (length-right_of f)

pub left_of-even : {xs : List ℕ} → IsFrames xs → length (left_of xs) % 2 ≡ 0
left_of-even no_frames = refl
left_of-even (frame f) = omega (arith, left_of-even f)

-- What the loop gives for `n` samples that both buffers have.
pub record IsInterleaved (n : ℕ) (l r xs : List ℕ) : Type 0 where
  pub frames : IsFrames xs
  pub left : left_of xs ≡ take (n * 2) l
  pub right : right_of xs ≡ take (n * 2) r

twice : (n : ℕ) → suc n * 2 ≡ suc (suc (n * 2))
twice n = omega arith

pub interleave_loop-IsInterleaved :
    (n : ℕ) (l r : List ℕ)
    → n * 2 ≤ length l
    → n * 2 ≤ length r
    → IsInterleaved n l r (interleave_loop n l r)
unfolding interleave_loop
interleave_loop-IsInterleaved zero l r hl hr = record {
  frames = no_frames;
  left = refl;
  right = refl;
}
interleave_loop-IsInterleaved (suc n) [] r hl hr = absurd (omega arith)
interleave_loop-IsInterleaved (suc n) (a ∷ []) r hl hr = absurd (omega arith)
interleave_loop-IsInterleaved (suc n) (a ∷ b ∷ l) [] hl hr = absurd (omega arith)
interleave_loop-IsInterleaved (suc n) (a ∷ b ∷ l) (c ∷ []) hl hr = absurd (omega arith)
interleave_loop-IsInterleaved (suc n) (a ∷ b ∷ l) (c ∷ d ∷ r) hl hr =
    let rest = interleave_loop-IsInterleaved n l r (omega arith) (omega arith) in
    record {
      frames = frame rest.frames;
      left = rw (twice n) (ap (λ x. a ∷ b ∷ x) rest.left);
      right = rw (twice n) (ap (λ x. c ∷ d ∷ x) rest.right);
    }

-- The interleaving keeps both sides: what was written before, then what each buffer gives.
pub write-left :
    (n : ℕ) (l r xs : List ℕ)
    → IsFrames xs
    → n * 2 ≤ length l
    → n * 2 ≤ length r
    → left_of (xs ++ interleave_loop n l r) ≡ left_of xs ++ take (n * 2) l
write-left n l r xs f hl hr =
    left_of-append (interleave_loop n l r) f
    ∙ ap (λ x. left_of xs ++ x) (interleave_loop-IsInterleaved n l r hl hr).left

pub write-right :
    (n : ℕ) (l r xs : List ℕ)
    → IsFrames xs
    → n * 2 ≤ length l
    → n * 2 ≤ length r
    → right_of (xs ++ interleave_loop n l r) ≡ right_of xs ++ take (n * 2) r
write-right n l r xs f hl hr =
    right_of-append (interleave_loop n l r) f
    ∙ ap (λ x. right_of xs ++ x) (interleave_loop-IsInterleaved n l r hl hr).right
