-- ===== src/Attotime/Product.antt =====
-- `operator*=` of source/core/attotime.cpp against the exact product.
use remame.Base.{
  suc, zero, leb, if◌then◌else◌, ne→==, ℕ, ◌+◌, ◌*◌, ◌/◌, ◌%◌, ◌^◌, ◌<◌, ◌≡◌, arith, ap,
}
use native.Mathlib.Nat.{mod-eq_of_lt, div-add-mod, mul-zero}
use remame.Base.Int.{pos, ◌+ℤ◌}
use remame.Base.Word.{s32, s64, s32_fits}
use remame.Attotime.{never, attotime, mul_32x32, attoseconds_per_second, attotime_max_seconds, mul}
use remame.Attotime.Value.{at, is_never-at, of_attos}
use remame.Attotime.Words.{divu_64x32_rem_fits, join_halves, mul_mono, mulu_32x32_fits}

-- The last steps: the two halves of the attoseconds, or never.
cut-of_attos :
    (secs hi lo : ℕ)
    → hi < 1_000_000_000
    → lo < 1_000_000_000
    → (if leb attotime_max_seconds secs
        then never
        else attotime
            (s32 (pos secs))
            (s64 (pos lo +ℤ mul_32x32 (s32 (pos hi)) (pos 1_000_000_000))))
      ≡ of_attos (secs * attoseconds_per_second + (hi * 1_000_000_000 + lo))
unfolding of_attos
cut-of_attos secs hi lo hh hl = ground (arith, join_halves hi lo, s32_fits (pos secs))

module _ (s a factor : ℕ) (hs : s < attotime_max_seconds) (ha : a < attoseconds_per_second)
    (hf : factor < 2 ^ 32) where
  mul_steps :
      0 < factor → mul (at s a) factor ≡ of_attos ((s * attoseconds_per_second + a) * factor)
  unfolding mul
  mul_steps pf =
      let lo = mul_mono (a % 1_000_000_000) 999_999_999 factor (omega arith) in
      let hi = mul_mono (a / 1_000_000_000) 999_999_999 factor (omega arith) in
      let top = mul_mono s 999_999_999 factor (omega arith) in
      let lower = a % 1_000_000_000 * factor in
      let upper = lower / 1_000_000_000 + a / 1_000_000_000 * factor in
      let secs = upper / 1_000_000_000 + s * factor in
      let value : (s * attoseconds_per_second + a) * factor
          ≡ secs * attoseconds_per_second
            + (upper % 1_000_000_000 * 1_000_000_000 + lower % 1_000_000_000) =
        omega (arith, ap (λ (t : ℕ). t * factor) (div-add-mod a 1_000_000_000)) in
      rw
        (
          mod-eq_of_lt {n = a} {m = 2 ^ 64} (omega arith),
          divu_64x32_rem_fits a 1_000_000_000 (omega arith) (omega arith) (omega arith)
              (omega arith),
          mulu_32x32_fits (a % 1_000_000_000) factor (omega arith),
          divu_64x32_rem_fits lower 1_000_000_000 (omega arith) (omega arith) (omega arith)
              (omega arith),
          mulu_32x32_fits (a / 1_000_000_000) factor (omega arith),
          mod-eq_of_lt {n = upper} {m = 2 ^ 64} (omega arith),
          divu_64x32_rem_fits upper 1_000_000_000 (omega arith) (omega arith) (omega arith)
              (omega arith),
          mod-eq_of_lt {n = s} {m = 2 ^ 32} (omega arith),
          mulu_32x32_fits s factor (omega arith),
          mod-eq_of_lt {n = secs} {m = 2 ^ 64} (omega arith),
          is_never-at s a hs,
          ne→== factor 0 (omega arith),
          value,
        )
        (cut-of_attos secs (upper % 1_000_000_000) (lower % 1_000_000_000) (omega arith)
          (omega arith))

mul_by_zero : (s a : ℕ) → s < attotime_max_seconds → mul (at s a) 0 ≡ of_attos 0
unfolding mul of_attos
mul_by_zero s a hs = rw (is_never-at s a hs)

-- For a time from zero to before never, with attoseconds below a second, and a 32-bit factor,
-- `operator*=` gives the time of the exact product of the value: never, where its seconds reach
-- the largest number.
pub mul-of_attos :
    (s a factor : ℕ)
    → s < attotime_max_seconds
    → a < attoseconds_per_second
    → factor < 2 ^ 32
    → mul (at s a) factor ≡ of_attos ((s * attoseconds_per_second + a) * factor)
mul-of_attos s a zero hs ha hf = rw mul-zero (mul_by_zero s a hs)
mul-of_attos s a (suc f) hs ha hf = mul_steps s a (suc f) hs ha hf (omega arith)
