-- ===== src/Attotime/Quotient.antt =====
-- `operator/=` of source/core/attotime.cpp against the exact quotient.
use native.Mathlib.Nat.{mod-eq_of_lt, div-add-mod, mod-lt, div-lt_iff_lt-mul}
use remame.Base.{leb, if◌then◌else◌, ne→==, ℕ, ◌+◌, ◌*◌, ◌/◌, ◌%◌, ◌^◌, ◌<◌, ◌≡◌, arith}
use remame.Base.Int.{pos, ◌+ℤ◌, leb_ℤ}
use remame.Base.Word.{s32, s64, u64}
use remame.Attotime.{attotime, attoseconds_per_second, attotime_max_seconds, div}
use remame.Attotime.Value.{at, is_never-at, of_attos}
use remame.Attotime.Words.{div_unique, mod_unique, divu_64x32_rem_fits, mulu_32x32_fits}

-- One unit of rounding: up from a remainder of half the divisor, rounded down.
abbrev pub rounding : ℕ → ℕ → ℕ
rounding factor remainder = if leb (factor / 2) remainder then 1 else 0

-- The last steps: the two halves of the attoseconds, and the rounding with its carry.
round-of_attos :
    (secs hi lo factor remainder : ℕ)
    → secs < attotime_max_seconds
    → hi < 1_000_000_000
    → lo < 1_000_000_000
    → (let attos = s64 (pos (u64 (lo + hi * 1_000_000_000))) in
        if leb (factor / 2) remainder
        then (let bumped = s64 (attos +ℤ pos 1) in
            if leb_ℤ (pos attoseconds_per_second) bumped
            then attotime (s32 (s32 (pos secs) +ℤ pos 1)) (pos 0)
            else attotime (s32 (pos secs)) bumped)
        else attotime (s32 (pos secs)) attos)
      ≡ of_attos
          (secs * attoseconds_per_second + (hi * 1_000_000_000 + lo) + rounding factor remainder)
unfolding of_attos s32 s64 ◌+ℤ◌
round-of_attos secs hi lo factor remainder hs hh hl = ground arith

module _ (s a factor : ℕ) (hs : s < attotime_max_seconds) (ha : a < attoseconds_per_second)
    (pf : 0 < factor) (hf : factor < 2 ^ 32) where
  -- For a time from zero to before never, with attoseconds below a second, and a 32-bit factor
  -- above 0, `operator/=` gives the time of the quotient of the value rounded down, plus one
  -- attosecond where the remainder is at least half the factor, that half rounded down; so a
  -- division by 1 adds an attosecond.
  pub div-of_attos :
      div (at s a) factor
      ≡ of_attos (
          (s * attoseconds_per_second + a) / factor
          + rounding factor ((s * attoseconds_per_second + a) % factor))
  unfolding div
  div-of_attos =
      let r1 = s % factor in
      let upper = a / 1_000_000_000 + r1 * 1_000_000_000 in
      let r2 = upper % factor in
      let lower = a % 1_000_000_000 + r2 * 1_000_000_000 in
      let b1 = mod-lt s pf in
      let b2 = mod-lt upper pf in
      let qh : upper / factor < 1_000_000_000 = (div-lt_iff_lt-mul pf).1 (omega arith) in
      let ql : lower / factor < 1_000_000_000 = (div-lt_iff_lt-mul pf).1 (omega arith) in
      let b3 = mod-lt lower pf in
      let quotient =
        s / factor * attoseconds_per_second + (upper / factor * 1_000_000_000 + lower / factor) in
      let value : s * attoseconds_per_second + a ≡ quotient * factor + lower % factor =
        omega (arith, div-add-mod s factor, div-add-mod upper factor, div-add-mod lower factor) in
      rw
        (
          is_never-at s a hs,
          ne→== factor 0 (omega arith),
          mod-eq_of_lt {n = a} {m = 2 ^ 64} (omega arith),
          divu_64x32_rem_fits a 1_000_000_000 (omega arith) (omega arith) (omega arith)
              (omega arith),
          mod-eq_of_lt {n = s} {m = 2 ^ 64} (omega arith),
          divu_64x32_rem_fits s factor (omega arith) pf hf (omega arith),
          mulu_32x32_fits r1 1_000_000_000 (omega arith),
          mod-eq_of_lt {n = upper} {m = 2 ^ 64} (omega arith),
          divu_64x32_rem_fits upper factor (omega arith) pf hf (omega arith),
          mulu_32x32_fits r2 1_000_000_000 (omega arith),
          mod-eq_of_lt {n = lower} {m = 2 ^ 64} (omega arith),
          divu_64x32_rem_fits lower factor (omega arith) pf hf (omega arith),
          mulu_32x32_fits (upper / factor) 1_000_000_000 (omega arith),
          div_unique (s * attoseconds_per_second + a) factor quotient (lower % factor) b3 value,
          mod_unique (s * attoseconds_per_second + a) factor quotient (lower % factor) b3 value,
        )
        (round-of_attos (s / factor) (upper / factor) (lower / factor) factor (lower % factor)
          (omega arith) qh ql)
