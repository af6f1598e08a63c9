-- ===== src/Common/Words.antt =====
-- Go's fixed-width integers as native numbers below the modulus, and the bit operations that the
-- program uses on them.
use Prim.Native.Nat.{ℕ, ◌%◌, ◌<◌, bit_and, bit_or, bit_xor}
pub use Prim.Native.Nat.{bit_and, bit_or, bit_xor}

-- The conversions `byte(n)`, `uint16(n)`, `uint32(n)` and `uint64(n)` of a number that is not
-- negative.
abbrev pub u8 : ℕ → ℕ
u8 n = n % 256

abbrev pub u16 : ℕ → ℕ
u16 n = n % 65536

abbrev pub u32 : ℕ → ℕ
u32 n = n % 4294967296

abbrev pub u64 : ℕ → ℕ
u64 n = n % 18446744073709551616

-- `^b` on a byte.
abbrev pub bit_not8 : ℕ → ℕ
bit_not8 b = bit_xor b 0xff

abbrev pub IsByte : ℕ → Type 0
IsByte b = b < 256

abbrev pub IsU16 : ℕ → Type 0
IsU16 n = n < 65536

abbrev pub IsU32 : ℕ → Type 0
IsU32 n = n < 4294967296
