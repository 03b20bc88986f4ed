-- ===== src/Base/Word.antt =====
-- C integers of fixed width. An unsigned value is its number, reduced by `%` where C reduces it;
-- a signed one is an integer, reduced to its two's complement.
use Prim.Native.Nat.{ℕ, ◌-◌, ◌%◌, ◌^◌}
use mathlib.Core.Path.{◌≡◌}
use native.Mathlib.Omega.{arith}
use remame.Base.Tests.{ltb, if◌then◌else◌}
use remame.Base.Int.{ℤ, pos, negsuc, ◌≤ℤ◌}

abbrev pub u32 : ℕ → ℕ
u32 n = n % 2 ^ 32

abbrev pub u64 : ℕ → ℕ
u64 n = n % 2 ^ 64

-- The conversions of a signed value to an unsigned type.
abbrev pub u32_of : ℤ → ℕ
u32_of (pos n) = n % 2 ^ 32
u32_of (negsuc n) = 2 ^ 32 - 1 - n % 2 ^ 32

abbrev pub u64_of : ℤ → ℕ
u64_of (pos n) = n % 2 ^ 64
u64_of (negsuc n) = 2 ^ 64 - 1 - n % 2 ^ 64

-- The signed value of a bit pattern.
abbrev pub signed32 : ℕ → ℤ
signed32 w = if ltb w (2 ^ 31) then pos w else negsuc (2 ^ 32 - 1 - w)

abbrev pub signed64 : ℕ → ℤ
signed64 w = if ltb w (2 ^ 63) then pos w else negsuc (2 ^ 64 - 1 - w)

-- The conversions to a signed type.
unfoldable pub s32 : ℤ → ℤ
s32 z = signed32 (u32_of z)

unfoldable pub s64 : ℤ → ℤ
s64 z = signed64 (u64_of z)

-- A value that fits is kept.
pub s32_fits : (z : ℤ) → negsuc (2 ^ 31 - 1) ≤ℤ z → z ≤ℤ pos (2 ^ 31 - 1) → s32 z ≡ z
unfolding s32
s32_fits z lo hi = ground arith

pub s64_fits : (z : ℤ) → negsuc (2 ^ 63 - 1) ≤ℤ z → z ≤ℤ pos (2 ^ 63 - 1) → s64 z ≡ z
unfolding s64
s64_fits z lo hi = ground arith
