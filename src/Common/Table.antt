-- ===== src/Common/Table.antt =====
-- Tables over a small range of numbers, checked by evaluation.
use Prim.Native.Nat.{ℕ, zero, suc, ◌+◌, ◌<◌, ◌≤◌}
use mathlib.Core.Path.{◌≡◌}
use mathlib.Core.Bool.{Bool, true, ◌&&◌}
use native.Mathlib.Omega.{arith}

-- Whether `p` holds of the `n` numbers from `from` on.
unfoldable pub all_from : ℕ → ℕ → (ℕ → Bool) → Bool
all_from from zero p = true
all_from from (suc n) p = p (from + n) && all_from from n p

all_from-last : (from n x : ℕ) (p : ℕ → Bool) → p (from + n) ≡ true → x ≡ from + n → p x ≡ true
all_from-last from n x p h e = ground arith

pub all_from_sound :
    (from n x : ℕ) (p : ℕ → Bool) → all_from from n p ≡ true → from ≤ x → x < from + n → p x ≡ true
unfolding all_from
all_from_sound from zero x p h lo hi = absurd (omega arith)
all_from_sound from (suc n) x p h lo hi =
    ground (arith, all_from-last from n x p, all_from_sound from n x p)
