-- ===== src/Attotime/Words.antt =====
-- The operations of source/core/fastmath.h where their results fit.
use remame.Base.{ℕ, ◌+◌, ◌*◌, ◌/◌, ◌%◌, ◌^◌, ◌≤◌, ◌<◌, ◌≡◌, arith, refl, ap}
use mathlib.Core.Path.{ap₂}
use native.Mathlib.Nat.{div-eq_of_lt-le, div-add-mod', div-add-mod, mod-lt, mod-eq_of_lt}
use remame.Base.Int.{pos, ◌+ℤ◌, ◌*ℤ◌}
use remame.Base.Word.{s32, s64, u64}
use remame.Attotime.{divu_64x32_rem, mulu_32x32, mul_32x32}

pub mul_mono : (x c f : ℕ) → x ≤ c → x * f ≤ c * f
mul_mono x c f h = grind arith

pub mulu_32x32_fits : (a b : ℕ) → a * b < 2 ^ 64 → mulu_32x32 a b ≡ a * b
unfolding mulu_32x32
mulu_32x32_fits a b h = mod-eq_of_lt h

pub divu_64x32_rem_fits :
    (a b : ℕ)
    → a < 2 ^ 64
    → 0 < b
    → b < 2 ^ 32
    → a / b < 2 ^ 32
    → divu_64x32_rem a b ≡ (a / b, a % b)
unfolding divu_64x32_rem
divu_64x32_rem_fits a b ha pb hb hq =
    rw (mod-eq_of_lt hq)
      (ap₂ (λ (q r : ℕ). (q, r)) refl (omega (arith, div-add-mod a b, mod-lt a pb)))

pub join_halves :
    (hi lo : ℕ)
    → hi < 1_000_000_000
    → lo < 1_000_000_000
    → s64 (pos lo +ℤ mul_32x32 (s32 (pos hi)) (pos 1_000_000_000)) ≡ pos (hi * 1_000_000_000 + lo)
unfolding mul_32x32 s32 s64 ◌+ℤ◌ ◌*ℤ◌
join_halves hi lo hh hl = ground arith

pub div_unique : (v f q r : ℕ) → r < f → v ≡ q * f + r → v / f ≡ q
div_unique v f q r h e = div-eq_of_lt-le f (omega arith) (omega arith)

pub mod_unique : (v f q r : ℕ) → r < f → v ≡ q * f + r → v % f ≡ r
mod_unique v f q r h e =
    omega (arith, div-add-mod' v f, ap (λ (t : ℕ). t * f) (div_unique v f q r h e))

pub s64-u64_fits : (n : ℕ) → n < 2 ^ 63 → s64 (pos (u64 n)) ≡ pos n
unfolding s64
s64-u64_fits n h = ground arith
