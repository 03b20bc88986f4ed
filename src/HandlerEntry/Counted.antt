-- ===== src/HandlerEntry/Counted.antt =====
-- How `configure_subunits` counts the units of a mask, and the multiplier that it finds.
use native.Mathlib.Nat.{
  div-one, suc-mul, add_comm, div-div-eq-div-mul, zero-div, zero-mod, mul-le-mul_left,
  div-lt_iff_lt-mul, two-pow-succ, one-le-pow, pow-le-pow_right,
}
use remame.Base.{
  ℕ, zero, suc, ◌+◌, ◌-◌, ◌*◌, ◌/◌, ◌^◌, ◌≤◌, ◌<◌, ◌≡◌, refl, sym, ◌∙◌, arith, true, ap, ◌==◌,
  if◌then◌else◌, inl, inr, Bool-cases,
}
use remame.Base.Result.{ok}
use remame.Base.Bits.{bit_and_low}
use remame.Base.HasBit.{two_pow-add}
use remame.HandlerEntry.Places.{place_of, is_set, units_before}
use remame.HandlerEntry.Subunits.{is_selected, count_units, power_above, unit_fuel}

-- Fewer bits are left after each round.
shifted_down : (s f b : ℕ) → s < 2 ^ suc f → 0 < b → s / 2 ^ b < 2 ^ f
shifted_down s f b h pos_b =
    let more : 2 ^ f * 2 ≤ 2 ^ f * 2 ^ b =
      mul-le-mul_left (2 ^ f) (pow-le-pow_right {n = 2} (omega arith) pos_b) in
    (div-lt_iff_lt-mul (one-le-pow b 2 (omega arith))).1 (omega (arith, more, two-pow-succ f))

-- The units of a mask, from the lowest place on: the first, and those of the mask shifted down.
units_shifted :
    (mask bits m n : ℕ)
    → units_before mask bits true m (suc n)
      ≡ (if is_selected mask (2 ^ bits - 1) then 1 else 0)
        + units_before (mask / 2 ^ bits) bits true m n
unfolding units_before place_of is_set
units_shifted mask bits m zero =
    let none : 0 * bits ≡ 0 = omega arith in
    let whole : mask / 2 ^ (0 * bits) ≡ mask = ap (λ (x : ℕ). mask / 2 ^ x) none ∙ div-one mask in
    rw (whole, bit_and_low bits mask) (omega arith)
units_shifted mask bits m (suc n) =
    let down : mask / 2 ^ (suc n * bits) ≡ mask / 2 ^ bits / 2 ^ (n * bits) =
      ap (λ (x : ℕ). mask / 2 ^ x) (suc-mul n bits ∙ add_comm (n * bits) bits)
      ∙ ap (λ (x : ℕ). mask / x) (two_pow-add bits (n * bits))
      ∙ sym (div-div-eq-div-mul mask (2 ^ bits) (2 ^ (n * bits))) in
    rw down (omega (arith, units_shifted mask bits m n))

units_of_zero : (bits m n : ℕ) → units_before 0 bits true m n ≡ 0
unfolding units_before place_of is_set
units_of_zero bits m zero = refl
units_of_zero bits m (suc n) =
    rw (zero-div (2 ^ (n * bits)), zero-mod (2 ^ bits)) (omega (arith, units_of_zero bits m n))

-- The walk counts the units of the mask.
pub count_units-units_before :
    (f scanmask bits count m : ℕ)
    → scanmask < 2 ^ f
    → 0 < bits
    → count_units (suc f) scanmask (2 ^ bits - 1) bits count
      ≡ ok (count + units_before scanmask bits true m f)
unfolding count_units
count_units-units_before zero scanmask bits count m h some_bits =
    let done : scanmask ≡ 0 = omega (arith, h) in
    rw (done, units_of_zero bits m 0) (ap ok (omega arith))
count_units-units_before (suc f) scanmask bits count m h some_bits =
    elim (Bool-cases (scanmask == 0)) [
      | inl done ↦
          let same : scanmask ≡ 0 = ground (arith, done) in
          rw same (rw (units_of_zero bits m (suc f)) (ap ok (omega arith)))
      | inr more ↦ rw more (
          count_units-units_before f (scanmask / 2 ^ bits) bits
            (if is_selected scanmask (2 ^ bits - 1) then count + 1 else count) m
            (shifted_down scanmask f bits h some_bits) some_bits
          ∙ ap ok (ground (arith, units_shifted scanmask bits m f)))
    ]

-- The least power of 2 from a count on.
pub record IsPower (count multiplier : ℕ) : Type 0 where
  pub enough : count ≤ multiplier
  pub least : multiplier < 2 * count
  pub exponent : ℕ
  pub is_power : multiplier ≡ 2 ^ exponent

pub power_above-IsPower :
    (count : ℕ)
    → 0 < count
    → count ≤ 8
    → (m : ℕ) × IsPower count m × (power_above unit_fuel count ≡ ok m)
unfolding power_above
power_above-IsPower zero some_unit h = absurd (omega arith)
power_above-IsPower (suc zero) some_unit h =
    (1, record { enough = omega arith; least = omega arith; exponent = 0; is_power = refl }, refl)
power_above-IsPower (suc (suc zero)) some_unit h =
    (2, record { enough = omega arith; least = omega arith; exponent = 1; is_power = refl }, refl)
power_above-IsPower (suc (suc (suc zero))) some_unit h =
    (4, record { enough = omega arith; least = omega arith; exponent = 2; is_power = refl }, refl)
power_above-IsPower (suc (suc (suc (suc zero)))) some_unit h =
    (4, record { enough = omega arith; least = omega arith; exponent = 2; is_power = refl }, refl)
power_above-IsPower (suc (suc (suc (suc (suc zero))))) some_unit h =
    (8, record { enough = omega arith; least = omega arith; exponent = 3; is_power = refl }, refl)
power_above-IsPower (suc (suc (suc (suc (suc (suc zero)))))) some_unit h =
    (8, record { enough = omega arith; least = omega arith; exponent = 3; is_power = refl }, refl)
power_above-IsPower (suc (suc (suc (suc (suc (suc (suc zero))))))) some_unit h =
    (8, record { enough = omega arith; least = omega arith; exponent = 3; is_power = refl }, refl)
power_above-IsPower (suc (suc (suc (suc (suc (suc (suc (suc zero)))))))) some_unit h =
    (8, record { enough = omega arith; least = omega arith; exponent = 3; is_power = refl }, refl)
power_above-IsPower (suc (suc (suc (suc (suc (suc (suc (suc (suc n))))))))) some_unit h =
    absurd (omega arith)
