-- ===== src/Attotime/Units.antt =====
-- `from_msec`, `from_usec` and `from_nsec` of source/core/attotime.h.
use native.Mathlib.Nat.{div-add-mod', mod-lt}
use remame.Base.{ℕ, suc, ◌+◌, ◌*◌, ◌/◌, ◌%◌, ◌^◌, ◌<◌, ◌≤◌, ◌≡◌, arith, ap}
use remame.Base.Int.{
  ℤ, pos, negsuc, pos_part, neg_part, sub_ℕ, ◌+ℤ◌, ◌*ℕ◌, ◌*ℤ◌, trunc_div, trunc_mod,
}
use remame.Base.Word.{s32, s64, s32_fits, s64_fits}
use remame.Attotime.{attoseconds_per_second, from_units}
use remame.Attotime.Value.{total}
use remame.Attotime.Words.{div_unique, mul_mono}

pos-mul : (a b : ℕ) → pos a *ℤ pos b ≡ pos (a * b)
unfolding ◌*ℤ◌
pos-mul a b = ground arith

neg-mul : (a b : ℕ) → sub_ℕ 0 a *ℤ pos b ≡ sub_ℕ 0 (a * b)
unfolding ◌*ℤ◌
neg-mul a b = ground arith

s32_neg : (n : ℕ) → n < 2 ^ 31 → s32 (sub_ℕ 0 n) ≡ sub_ℕ 0 n
s32_neg n h = ground (arith, s32_fits (sub_ℕ 0 n))

s64_neg : (n : ℕ) → n ≤ attoseconds_per_second → s64 (sub_ℕ 0 n) ≡ sub_ℕ 0 n
s64_neg n h = ground (arith, s64_fits (sub_ℕ 0 n))

module _ (u k : ℕ) (unit : u * k ≡ attoseconds_per_second) (pu : 0 < u) where
  -- The quotient and the remainder of a size, joined again.
  rejoin : (n : ℕ) → n / u * attoseconds_per_second + n % u * k ≡ n * k
  rejoin n = omega (arith, ap (λ (t : ℕ). t * k) (div-add-mod' n u), ap (λ (t : ℕ). n / u * t) unit)

  rest-lt : (n : ℕ) → n % u * k ≤ attoseconds_per_second
  rest-lt n = omega (arith, unit, mul_mono (n % u) u k (omega (arith, mod-lt n pu)))

  from_units-pos : (n : ℕ) → n / u < 2 ^ 31 → total (from_units u (pos n)) ≡ pos (n * k)
  unfolding from_units trunc_div trunc_mod total ◌+ℤ◌ ◌*ℕ◌
  from_units-pos n h =
      rw
        (
          div_unique attoseconds_per_second u k 0 pu (omega (arith, unit)),
          pos-mul (n % u) k,
          s32_fits (pos (n / u)) (omega arith) (omega arith),
          s64_fits (pos (n % u * k)) (omega (arith, rest-lt n)) (omega (arith, rest-lt n)),
        )
        (ground (arith, rejoin n))

  from_units-neg :
      (n : ℕ) → suc n / u < 2 ^ 31 → total (from_units u (negsuc n)) ≡ sub_ℕ 0 (suc n * k)
  unfolding from_units trunc_div trunc_mod total ◌+ℤ◌ ◌*ℕ◌
  from_units-neg n h =
      rw
        (
          div_unique attoseconds_per_second u k 0 pu (omega (arith, unit)),
          neg-mul (suc n % u) k,
          s32_neg (suc n / u) h,
          s64_neg (suc n % u * k) (rest-lt (suc n)),
        )
        (ground (arith, rejoin (suc n)))

  -- For a unit of which `u` make a second, `k` attoseconds each, the time of `n` units
  -- (`from_msec`, `from_usec`, `from_nsec`) has the value `n` times `k` exactly, whatever the
  -- sign of `n`, if the seconds are fewer than 2 ^ 31.
  pub total-from_units :
      (n : ℤ) → pos_part n / u < 2 ^ 31 → neg_part n / u < 2 ^ 31 → total (from_units u n) ≡ n *ℕ k
  unfolding ◌*ℕ◌
  total-from_units (pos n) hp hn = rw (from_units-pos n hp) (ground arith)
  total-from_units (negsuc n) hp hn = rw (from_units-neg n hn) (ground arith)
