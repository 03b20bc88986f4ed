-- ===== src/Attotime/Ticks.antt =====
-- `as_ticks` and `from_ticks` of source/core/attotime.h.
use Prim.Native.Nat.{min}
use native.Mathlib.Nat.{
  div-add-mod, div-add-mod', mod-lt, mod-eq_of_lt, div-eq_of_lt, le_of_lt, le-div_iff_mul-le,
}
use remame.Base.{
  ℕ, zero, suc, ◌+◌, ◌-◌, ◌*◌, ◌/◌, ◌%◌, ◌^◌, ◌<◌, ◌≤◌, ◌≡◌, ◌||◌, arith, ap, ◌==◌, ltb, inl, inr,
  Bool-cases, ltb→lt, if◌then◌else◌,
}
use mathlib.Core.Path.{ap₂}
use remame.Base.Int.{pos}
use remame.Base.Word.{u32_of, s32_fits}
use remame.Attotime.{attotime, attoseconds_per_second, attotime_max_seconds, as_ticks, from_ticks}
use remame.Attotime.Value.{at, of_attos}
use remame.Attotime.Words.{s64-u64_fits, divu_64x32_rem_fits, mulu_32x32_fits, mul_mono, div_unique}
use remame.Attotime.Product.{mul-of_attos}

of_attos-seconds :
    (v : ℕ) → u32_of (of_attos v).seconds ≡ min attotime_max_seconds (v / attoseconds_per_second)
unfolding of_attos
of_attos-seconds v = ground arith

-- For a time from zero to before never, with attoseconds below a second, and a 32-bit
-- frequency, `as_ticks` is the ticks of the seconds plus the whole ticks of the attoseconds, of
-- which it counts a thousand million at most.
pub as_ticks_lem :
    (s a frequency : ℕ)
    → s < attotime_max_seconds
    → a < attoseconds_per_second
    → frequency < 2 ^ 32
    → as_ticks (at s a) frequency
      ≡ s * frequency + min attotime_max_seconds (a * frequency / attoseconds_per_second)
unfolding as_ticks
as_ticks_lem s a frequency hs ha hf =
    let top = mul_mono s 999_999_999 frequency (omega arith) in
    let frac = mul_mono a 999_999_999_999_999_999 frequency (omega arith) in
    rw
      (
        mul-of_attos 0 a frequency (omega arith) ha hf,
        of_attos-seconds ((0 * attoseconds_per_second + a) * frequency),
        mod-eq_of_lt {n = s} {m = 2 ^ 32} (omega arith),
        mulu_32x32_fits s frequency (omega arith),
      )
      (omega arith)

-- For a 64-bit count of ticks, a 32-bit frequency above 0 and fewer than 2 ^ 31 seconds,
-- `from_ticks` is the whole seconds and, for each tick left, a second's attoseconds over the
-- frequency, rounded down: nothing overflows.
pub from_ticks_lem :
    (ticks frequency : ℕ)
    → 0 < frequency
    → frequency < 2 ^ 32
    → ticks < 2 ^ 64
    → ticks / frequency < 2 ^ 31
    → from_ticks ticks frequency
      ≡ at (ticks / frequency) (ticks % frequency * (attoseconds_per_second / frequency))
unfolding from_ticks
from_ticks_lem ticks frequency pf hf ht hs =
    let r = ticks % frequency in
    let small = mod-lt ticks pf in
    let span = mul_mono r frequency (attoseconds_per_second / frequency) (omega arith) in
    let whole = div-add-mod attoseconds_per_second frequency in
    rw (divu_64x32_rem_fits ticks frequency ht pf hf (omega arith))
      (elim (Bool-cases (ltb ticks frequency)) [
        | inl below ↦
            rw (below, div-eq_of_lt (ltb→lt _ _ below), mod-eq_of_lt (ltb→lt _ _ below))
              (ap (attotime (pos 0)) (
                s64-u64_fits _ (
                  omega (
                    arith,
                    mul_mono ticks frequency (attoseconds_per_second / frequency)
                        (le_of_lt (ltb→lt _ _ below)),
                  ))))
        | inr above ↦
            rw above
              (ap₂ attotime (s32_fits _ (omega arith) (omega arith)) (s64-u64_fits _ (omega arith)))
      ])

-- `r` ticks of `q` attoseconds, where a second is `f * q + m`.
lost :
    (f q m r : ℕ)
    → f ≤ attotime_max_seconds
    → r < f
    → m < f
    → f * q + m ≡ attoseconds_per_second
    → r * q * f / attoseconds_per_second ≡ r - (if r == 0 || m == 0 then 0 else 1)
lost f q m zero hf hr hm e = omega arith
lost f q zero (suc r) hf hr hm e = ground (
  arith,
  div_unique (suc r * q * f) attoseconds_per_second (suc r) 0,
  ap (λ (t : ℕ). suc r * t) e,
)
lost f q (suc m) (suc r) hf hr hm e = ground (
  arith,
  product,
  div_unique (suc r * q * f) attoseconds_per_second r (attoseconds_per_second - suc r * suc m),
  ap (λ (t : ℕ). suc r * t) e,
)
  where
    product : suc r * suc m ≤ attoseconds_per_second
    product = omega (arith, mul_mono (suc r) attotime_max_seconds (suc m) (omega arith))

-- For a 64-bit count of ticks, a frequency from 1 to a thousand million and fewer seconds than
-- the largest number, turning ticks into a time and back gives the ticks, if they are whole
-- seconds or the frequency divides a second's attoseconds, and one tick less if not.
pub as_ticks-from_ticks :
    (ticks frequency : ℕ)
    → 0 < frequency
    → frequency ≤ attotime_max_seconds
    → ticks < 2 ^ 64
    → ticks / frequency < attotime_max_seconds
    → as_ticks (from_ticks ticks frequency) frequency
      ≡ ticks - (if ticks % frequency == 0 || attoseconds_per_second % frequency == 0 then 0 else 1)
as_ticks-from_ticks ticks f pf hf ht hs =
    let small = mod-lt ticks pf in
    let q = attoseconds_per_second / f in
    let r = ticks % f in
    let m = attoseconds_per_second % f in
    let whole = div-add-mod attoseconds_per_second f in
    let rest = mod-lt attoseconds_per_second pf in
    let span = mul_mono (r + 1) f q (omega arith) in
    let some : 1 ≤ q = (le-div_iff_mul-le pf).1 (omega arith) in
    rw
      (
        from_ticks_lem ticks f pf (omega arith) ht (omega arith),
        as_ticks_lem (ticks / f) (r * q) f hs (omega arith) (omega arith),
        lost f q m r hf small rest whole,
      )
      (ground (arith, div-add-mod' ticks f))
