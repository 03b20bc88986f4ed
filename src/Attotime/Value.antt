-- ===== src/Attotime/Value.antt =====
-- The number of attoseconds that an `attotime` stands for, and the times that the operations of
-- source/core/attotime.h are meant for.
use remame.Base.{ℕ, ◌<◌, ◌/◌, ◌%◌, ltb, false, if◌then◌else◌, ◌+◌, ◌-◌, ◌*◌, ◌≡◌, arith}
use remame.Base.Int.{
  ℤ, pos, negsuc, ◌+ℤ◌, ◌*ℕ◌, ◌≤ℤ◌, ◌<ℤ◌, pos_part, neg_part, *ℕ_parts, +ℤ_parts, eq_of_parts,
}
use mathlib.Core.Path.{ap₂}
use remame.Attotime.{
  is_never, never, Attotime, attotime, attoseconds_per_second, attotime_max_seconds,
}

-- The value in attoseconds.
unfoldable pub total : Attotime → ℤ
total t = t.seconds *ℕ attoseconds_per_second +ℤ t.attoseconds

-- Attoseconds from nothing to below a second.
abbrev pub IsNormal : Attotime → Type 0
IsNormal t = (pos 0 ≤ℤ t.attoseconds) × (t.attoseconds <ℤ pos attoseconds_per_second)

-- Attoseconds below a second; seconds from minus the largest to the largest, which means never.
pub record IsTime (t : Attotime) : Type 0 where
  pub attos_nonneg : pos 0 ≤ℤ t.attoseconds
  pub attos_small : t.attoseconds <ℤ pos attoseconds_per_second
  pub above : negsuc (attotime_max_seconds - 1) ≤ℤ t.seconds
  pub below : t.seconds ≤ℤ pos attotime_max_seconds

-- A time before never.
abbrev pub Before : Attotime → Type 0
Before t = t.seconds <ℤ pos attotime_max_seconds

pub total_parts :
    (t : Attotime)
    → pos_part (total t) + neg_part t.seconds * attoseconds_per_second + neg_part t.attoseconds
      ≡ neg_part (total t) + pos_part t.seconds * attoseconds_per_second + pos_part t.attoseconds
unfolding total
total_parts t = omega (
  arith,
  *ℕ_parts t.seconds attoseconds_per_second,
  +ℤ_parts (t.seconds *ℕ attoseconds_per_second) t.attoseconds,
)

-- Normal times with one value are equal.
pub total_injective : (s t : Attotime) → IsNormal s → IsNormal t → total s ≡ total t → s ≡ t
total_injective s t ns nt e =
    ap₂ attotime (eq_of_parts s.seconds t.seconds (ground (arith, total_parts s, total_parts t)))
      (eq_of_parts s.attoseconds t.attoseconds (ground (arith, total_parts s, total_parts t)))

-- The time that a count of attoseconds stands for: never, from the largest number of seconds on.
unfoldable pub of_attos : ℕ → Attotime
of_attos v =
    if ltb v (attotime_max_seconds * attoseconds_per_second)
    then attotime (pos (v / attoseconds_per_second)) (pos (v % attoseconds_per_second))
    else never

-- A time that is not negative, from its seconds and attoseconds.
abbrev pub at : ℕ → ℕ → Attotime
at s a = attotime (pos s) (pos a)

pub of_attos_digits :
    (s a : ℕ)
    → s < attotime_max_seconds
    → a < attoseconds_per_second
    → of_attos (s * attoseconds_per_second + a) ≡ at s a
unfolding of_attos
of_attos_digits s a hs ha = ground arith

pub is_never-at : (s a : ℕ) → s < attotime_max_seconds → is_never (at s a) ≡ false
unfolding is_never
is_never-at s a h = ground arith
