-- ===== src/Attotime/Examples.antt =====
-- The theorems on `attotime` at times with a carry, a borrow and a remainder.
use remame.Base.{◌≡◌, ◌/◌, ◌*◌, ◌+◌, ◌%◌, ◌-◌, ◌↔◌, ◌≢◌, arith, true, if◌then◌else◌, ◌||◌, ◌==◌}
use remame.Base.Int.{pos, ◌+ℤ◌, ◌-ℤ◌, ◌≤ℤ◌, ◌<ℤ◌, ◌*ℕ◌}
use remame.Attotime.{
  Attotime, attotime, never, add, sub, mul, div, eq, ne, lt, le, gt, ge, as_ticks, from_ticks,
  attoseconds_per_second,
}
use remame.Attotime.Value.{total, IsNormal, IsTime, Before, of_attos, at}
use remame.Attotime.Sum.{total-add, add-never, total-sub, sub-add}
use remame.Attotime.Product.{mul-of_attos}
use remame.Attotime.Quotient.{rounding, div-of_attos}
use remame.Attotime.Order.{comparisons_iff}
use remame.Attotime.Ticks.{as_ticks-from_ticks}

-- 1.6 seconds, and 0.7.
abbrev longer : Attotime
longer = attotime (pos 1) (pos 600_000_000_000_000_000)

abbrev shorter : Attotime
shorter = attotime (pos 0) (pos 700_000_000_000_000_000)

-- A second before never.
abbrev late : Attotime
late = attotime (pos 999_999_999) (pos 0)

longer-IsTime : IsTime longer
longer-IsTime = record {
  attos_nonneg = ground arith;
  attos_small = ground arith;
  above = ground arith;
  below = ground arith;
}

shorter-IsTime : IsTime shorter
shorter-IsTime = record {
  attos_nonneg = ground arith;
  attos_small = ground arith;
  above = ground arith;
  below = ground arith;
}

late-IsTime : IsTime late
late-IsTime = record {
  attos_nonneg = ground arith;
  attos_small = ground arith;
  above = ground arith;
  below = ground arith;
}

fits : total longer +ℤ total shorter <ℤ total never
unfolding total ◌+ℤ◌ ◌*ℕ◌
fits = omega arith

too_late : total never ≤ℤ total late +ℤ total longer
unfolding total ◌+ℤ◌ ◌*ℕ◌
too_late = omega arith

shorter_nonneg : pos 0 ≤ℤ total shorter
unfolding total ◌+ℤ◌ ◌*ℕ◌
shorter_nonneg = omega arith

total-add_example :
    (total (add longer shorter) ≡ total longer +ℤ total shorter)
    × IsNormal (add longer shorter)
    × Before (add longer shorter)
total-add_example =
    total-add longer shorter longer-IsTime shorter-IsTime (ground arith) (ground arith) fits

add-never_example : add late longer ≡ never
add-never_example = add-never late longer late-IsTime longer-IsTime too_late

total-sub_example :
    (total (sub longer shorter) ≡ total longer -ℤ total shorter) × IsNormal (sub longer shorter)
total-sub_example = total-sub longer shorter longer-IsTime shorter-IsTime (ground arith)

sub-add_example : sub (add longer shorter) shorter ≡ longer
sub-add_example =
    sub-add longer shorter longer-IsTime shorter-IsTime (ground arith) (ground arith) shorter_nonneg
      fits

mul-of_attos_example :
    mul (at 1 600_000_000_000_000_000) 3
    ≡ of_attos ((1 * attoseconds_per_second + 600_000_000_000_000_000) * 3)
mul-of_attos_example =
    mul-of_attos 1 600_000_000_000_000_000 3 (omega arith) (omega arith) (omega arith)

div-of_attos_example :
    div (at 1 600_000_000_000_000_000) 3
    ≡ of_attos (
        (1 * attoseconds_per_second + 600_000_000_000_000_000) / 3
        + rounding 3 ((1 * attoseconds_per_second + 600_000_000_000_000_000) % 3))
div-of_attos_example =
    div-of_attos 1 600_000_000_000_000_000 3 (omega arith) (omega arith) (omega arith) (omega arith)

comparisons_iff_example :
    ((eq longer shorter ≡ true) ↔ (total longer ≡ total shorter))
    × ((ne longer shorter ≡ true) ↔ (total longer ≢ total shorter))
    × ((lt longer shorter ≡ true) ↔ (total longer <ℤ total shorter))
    × ((le longer shorter ≡ true) ↔ (total longer ≤ℤ total shorter))
    × ((gt longer shorter ≡ true) ↔ (total shorter <ℤ total longer))
    × ((ge longer shorter ≡ true) ↔ (total shorter ≤ℤ total longer))
comparisons_iff_example =
    comparisons_iff longer shorter (ground arith, ground arith) (ground arith, ground arith)

as_ticks-from_ticks_example :
    as_ticks (from_ticks 5 3) 3
    ≡ 5 - (if 5 % 3 == 0 || attoseconds_per_second % 3 == 0 then 0 else 1)
as_ticks-from_ticks_example =
    as_ticks-from_ticks 5 3 (omega arith) (omega arith) (omega arith) (omega arith)
