-- ===== src/Attotime/Order.antt =====
-- The comparisons and `as_attoseconds` of source/core/attotime.h against the value of a time.
use remame.Base.{◌≡◌, ◌↔◌, ◌≢◌, true, arith, if◌then◌else◌}
use remame.Base.Int.{ℤ, pos, sub_ℕ, ltb_ℤ, ◌<ℤ◌, ◌≤ℤ◌, -ℤ_parts}
use remame.Attotime.{Attotime, attoseconds_per_second, eq, ne, lt, le, gt, ge, as_attoseconds}
use remame.Attotime.Value.{total, total_parts, IsNormal}

module _ (s t : Attotime) (s_normal : IsNormal s) (t_normal : IsNormal t) where
  eq_iff : (eq s t ≡ true) ↔ (total s ≡ total t)
  unfolding eq
  eq_iff = ground (arith, total_parts s, total_parts t)

  ne_iff : (ne s t ≡ true) ↔ (total s ≢ total t)
  unfolding ne
  ne_iff = ground (arith, total_parts s, total_parts t)

  lt_iff : (lt s t ≡ true) ↔ (total s <ℤ total t)
  unfolding lt
  lt_iff = ground (arith, total_parts s, total_parts t)

  le_iff : (le s t ≡ true) ↔ (total s ≤ℤ total t)
  unfolding le
  le_iff = ground (arith, total_parts s, total_parts t)

  gt_iff : (gt s t ≡ true) ↔ (total t <ℤ total s)
  unfolding gt
  gt_iff = ground (arith, total_parts s, total_parts t)

  ge_iff : (ge s t ≡ true) ↔ (total t ≤ℤ total s)
  unfolding ge
  ge_iff = ground (arith, total_parts s, total_parts t)

  -- On times with attoseconds from nothing to below a second each of the six comparisons is
  -- true exactly if the values in attoseconds compare so.
  pub comparisons_iff :
      ((eq s t ≡ true) ↔ (total s ≡ total t))
      × ((ne s t ≡ true) ↔ (total s ≢ total t))
      × ((lt s t ≡ true) ↔ (total s <ℤ total t))
      × ((le s t ≡ true) ↔ (total s ≤ℤ total t))
      × ((gt s t ≡ true) ↔ (total t <ℤ total s))
      × ((ge s t ≡ true) ↔ (total t ≤ℤ total s))
  comparisons_iff = (eq_iff, ne_iff, lt_iff, le_iff, gt_iff, ge_iff)

-- A value held to a second either way.
abbrev pub clamp_second : ℤ → ℤ
clamp_second z =
    if ltb_ℤ (pos attoseconds_per_second) z
    then pos attoseconds_per_second
    else if ltb_ℤ z (sub_ℕ 0 attoseconds_per_second)
    then sub_ℕ 0 attoseconds_per_second
    else z

-- `as_attoseconds` of a time with attoseconds from nothing to below a second is its value,
-- clamped to a second either way.
pub as_attoseconds-clamp_second :
    (t : Attotime) → IsNormal t → as_attoseconds t ≡ clamp_second (total t)
unfolding as_attoseconds
as_attoseconds-clamp_second t normal =
    ground (arith, total_parts t, -ℤ_parts t.attoseconds (pos attoseconds_per_second))
