-- ===== src/Common/Mod.antt =====
-- The remainder of a number below twice the modulus, for `omega`.
use tele_portal.Common.{arith, inl, inr, le-or-lt, ℕ, ◌%◌, ◌+◌, ◌-◌, ◌<◌, ◌≡◌, ◌≤◌, ◌⊎◌}

pub mod_wrap : (x n : ℕ) → x < n + n → n ≤ x → x % n ≡ x - n
mod_wrap x n h k = grind arith

pub mod_low : (x n : ℕ) → x < n → x % n ≡ x
mod_low x n h = grind arith

pub mod_cases : (x n : ℕ) → x < n + n → ((x < n) × (x % n ≡ x)) ⊎ ((n ≤ x) × (x % n ≡ x - n))
mod_cases x n h = elim (le-or-lt n x) [
  | inl k ↦ inr (k, mod_wrap x n h k)
  | inr k ↦ inl (k, mod_low x n k)
]
