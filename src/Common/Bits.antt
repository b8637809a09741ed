-- ===== src/Common/Bits.antt =====
-- Machine integers: wrap-around, and single bits of a word.
use Prim.Native.Nat.{ℕ, ◌+◌, ◌/◌, ◌%◌}
use mathlib.Core.Bool.{Bool}
use libosdp.Common.Tests.{◌==◌, if◌then◌else◌}

-- A cast to `uint8_t`, `uint16_t`, `uint32_t`.
abbrev pub u8 : ℕ → ℕ
u8 n = n % 256

abbrev pub u16 : ℕ → ℕ
u16 n = n % 65536

abbrev pub u32 : ℕ → ℕ
u32 n = n % 4294967296

-- `x & m`, tested, for a mask `m` that is a power of two.
abbrev pub has_bit : ℕ → ℕ → Bool
has_bit m x = x / m % 2 == 1

-- `x | m`, for a mask `m` that is a power of two.
abbrev pub set_bit : ℕ → ℕ → ℕ
set_bit m x = if has_bit m x then x else x + m
