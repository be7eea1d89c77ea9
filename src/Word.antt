-- ===== src/Word.antt =====
-- The fixed-width unsigned integers of the C++ code: values are natural numbers with their range
-- kept in invariants, and each operation that can leave the range writes its wrap-around out.
mod Step
pub mod Bits
pub mod Fields
pub mod Shift
use soc_validation_framework.Prelude.{ℕ, zero, suc, ◌-◌, ◌*◌, ◌%◌, ◌/◌, ◌^◌}

abbrev pub u32 : ℕ → ℕ
u32 n = n % 2 ^ 32

abbrev pub u64 : ℕ → ℕ
u64 n = n % 2 ^ 64

-- `~x` on a `uint32_t`.
abbrev pub not32 : ℕ → ℕ
not32 x = 2 ^ 32 - 1 - x

-- `x << k` on a `uint32_t`, and `x >> k`.
abbrev pub shl32 : ℕ → ℕ → ℕ
shl32 x k = u32 (x * 2 ^ k)

abbrev pub shr : ℕ → ℕ → ℕ
shr x k = x / 2 ^ k

-- The digit of weight `2 ^ i`, 0 or 1.
unfoldable pub bit : ℕ → ℕ → ℕ
bit zero x = x % 2
bit (suc i) x = bit i (x / 2)
