-- ===== src/Attotime/Sum.antt =====
-- `operator+` and `operator-` of source/core/attotime.h against exact sums and differences.
use remame.Base.{◌≡◌, ap, arith, inl, inr}
use remame.Base.Int.{
  pos, pos_part, neg_part, ◌+ℤ◌, ◌-ℤ◌, ◌≤ℤ◌, ◌<ℤ◌, +ℤ_parts, -ℤ_parts, eq_of_parts, int_laws,
  le_or_lt,
}
use remame.Base.Word.{s32_fits, s64_fits}
use remame.Attotime.{
  Attotime, attotime, attoseconds_per_second, attotime_max_seconds, never, add, sub,
}
use remame.Attotime.Value.{total, total_parts, IsTime, IsNormal, Before, total_injective}

module _ (l r : Attotime) (left_time : IsTime l) (right_time : IsTime r) where
  -- No carry out of the attoseconds.
  add_plain :
      Before l
      → Before r
      → l.attoseconds +ℤ r.attoseconds <ℤ pos attoseconds_per_second
      → l.seconds +ℤ r.seconds <ℤ pos attotime_max_seconds
      → add l r ≡ attotime (l.seconds +ℤ r.seconds) (l.attoseconds +ℤ r.attoseconds)
  unfolding add
  add_plain bl br small fits = ground (
    arith,
    s64_fits (l.attoseconds +ℤ r.attoseconds),
    s32_fits (l.seconds +ℤ r.seconds),
    +ℤ_parts l.seconds r.seconds,
    +ℤ_parts l.attoseconds r.attoseconds,
  )

  -- A carry out of the attoseconds.
  add_carry :
      Before l
      → Before r
      → pos attoseconds_per_second ≤ℤ l.attoseconds +ℤ r.attoseconds
      → l.seconds +ℤ r.seconds +ℤ pos 1 <ℤ pos attotime_max_seconds
      → add l r
        ≡ attotime
            (l.seconds +ℤ r.seconds +ℤ pos 1)
            (l.attoseconds +ℤ r.attoseconds -ℤ pos attoseconds_per_second)
  unfolding add
  add_carry bl br big fits = ground (
    arith,
    s64_fits (l.attoseconds +ℤ r.attoseconds),
    s64_fits (l.attoseconds +ℤ r.attoseconds -ℤ pos attoseconds_per_second),
    s32_fits (l.seconds +ℤ r.seconds),
    s32_fits (l.seconds +ℤ r.seconds +ℤ pos 1),
    +ℤ_parts l.seconds r.seconds,
    +ℤ_parts (l.seconds +ℤ r.seconds) (pos 1),
    +ℤ_parts l.attoseconds r.attoseconds,
    -ℤ_parts (l.attoseconds +ℤ r.attoseconds) (pos attoseconds_per_second),
  )

  -- Of two times before never, both with attoseconds from nothing to below a second and seconds
  -- from minus the largest up, the sum is exact if it comes before never; its attoseconds are
  -- again below a second and its seconds below the largest.
  pub total-add :
      Before l
      → Before r
      → total l +ℤ total r <ℤ total never
      → (total (add l r) ≡ total l +ℤ total r) × IsNormal (add l r) × Before (add l r)
  total-add bl br fits =
      elim (le_or_lt (pos attoseconds_per_second) (l.attoseconds +ℤ r.attoseconds)) [
        | inl big ↦
            rw (add_carry bl br big (omega (int_laws, total_parts)))
              (omega (int_laws, total_parts), omega int_laws, omega (int_laws, total_parts))
        | inr small ↦
            rw (add_plain bl br small (omega (int_laws, total_parts)))
              (omega (int_laws, total_parts), omega int_laws, omega (int_laws, total_parts))
      ]

  -- Of two times, never among them or not, with attoseconds from nothing to below a second and
  -- seconds from minus the largest to the largest, the sum is never if the values add up to at
  -- least never.
  pub add-never : (total never ≤ℤ total l +ℤ total r) → add l r ≡ never
  unfolding add
  add-never big = ground (
    arith,
    s64_fits (l.attoseconds +ℤ r.attoseconds),
    s64_fits (l.attoseconds +ℤ r.attoseconds -ℤ pos attoseconds_per_second),
    s32_fits (l.seconds +ℤ r.seconds),
    s32_fits (l.seconds +ℤ r.seconds +ℤ pos 1),
    +ℤ_parts l.seconds r.seconds,
    +ℤ_parts (l.seconds +ℤ r.seconds) (pos 1),
    +ℤ_parts l.attoseconds r.attoseconds,
    -ℤ_parts (l.attoseconds +ℤ r.attoseconds) (pos attoseconds_per_second),
    total_parts l,
    total_parts r,
    total_parts never,
    +ℤ_parts (total l) (total r),
  )

  -- No borrow into the attoseconds.
  sub_plain :
      Before l
      → r.attoseconds ≤ℤ l.attoseconds
      → sub l r ≡ attotime (l.seconds -ℤ r.seconds) (l.attoseconds -ℤ r.attoseconds)
  unfolding sub
  sub_plain bl no_borrow = ground (
    arith,
    s64_fits (l.attoseconds -ℤ r.attoseconds),
    s32_fits (l.seconds -ℤ r.seconds),
    -ℤ_parts l.seconds r.seconds,
    -ℤ_parts l.attoseconds r.attoseconds,
  )

  sub_borrow :
      Before l
      → l.attoseconds <ℤ r.attoseconds
      → sub l r
        ≡ attotime
            (l.seconds -ℤ r.seconds -ℤ pos 1)
            (l.attoseconds -ℤ r.attoseconds +ℤ pos attoseconds_per_second)
  unfolding sub
  sub_borrow bl borrow = ground (
    arith,
    s64_fits (l.attoseconds -ℤ r.attoseconds),
    s64_fits (l.attoseconds -ℤ r.attoseconds +ℤ pos attoseconds_per_second),
    s32_fits (l.seconds -ℤ r.seconds),
    s32_fits (l.seconds -ℤ r.seconds -ℤ pos 1),
    -ℤ_parts l.seconds r.seconds,
    -ℤ_parts (l.seconds -ℤ r.seconds) (pos 1),
    -ℤ_parts l.attoseconds r.attoseconds,
    +ℤ_parts (l.attoseconds -ℤ r.attoseconds) (pos attoseconds_per_second),
  )

  -- Of two times with attoseconds from nothing to below a second and seconds from minus the
  -- largest to the largest, the left one before never, the difference is exact, also where it
  -- is negative, and its attoseconds are again from nothing to below a second.
  pub total-sub : Before l → (total (sub l r) ≡ total l -ℤ total r) × IsNormal (sub l r)
  total-sub bl = elim (le_or_lt r.attoseconds l.attoseconds) [
    | inl fine ↦ rw (sub_plain bl fine) (omega (int_laws, total_parts), omega int_laws)
    | inr borrow ↦ rw (sub_borrow bl borrow) (omega (int_laws, total_parts), omega int_laws)
  ]

-- Adding a time that is not negative to another and taking it off again gives the other back,
-- if both and their sum come before never, their attoseconds are from nothing to below a
-- second, and their seconds from minus the largest up.
pub sub-add :
    (l r : Attotime)
    → IsTime l
    → IsTime r
    → Before l
    → Before r
    → pos 0 ≤ℤ total r
    → total l +ℤ total r <ℤ total never
    → sub (add l r) r ≡ l
sub-add l r left_time right_time bl br nonneg fits =
    let sum = total-add l r left_time right_time bl br fits in
    let is_time : IsTime (add l r) = omega (
      int_laws,
      total_parts l,
      total_parts r,
      total_parts (add l r),
      ap pos_part sum.0,
      ap neg_part sum.0,
    ) in
    let diff = total-sub (add l r) r is_time right_time sum.2 in
    total_injective (sub (add l r) r) l diff.1 (left_time.attos_nonneg, left_time.attos_small)
      (eq_of_parts (total (sub (add l r) r)) (total l) (
        omega
          (int_laws, ap pos_part sum.0, ap neg_part sum.0, ap pos_part diff.0, ap neg_part diff.0)))
