-- ===== src/AddressMap/Window.antt =====
-- Where the entries of a submap come to lie: in the window of the entry that refers to it.
use native.Mathlib.Nat.{
  div-add-mod', mul-le-mul_left, mul-le-mul_right, lt_of_mul-lt-mul_right, suc-mul,
}
use remame.Base.{
  ℕ, zero, suc, ◌+◌, ◌-◌, ◌*◌, ◌/◌, ◌%◌, ◌^◌, ◌≤◌, ◌<◌, ◌≡◌, ap, ◌∙◌, arith, true, false, ltb,
  if◌then◌else◌, List, ◌++◌,
}
use remame.Base.Lists.{All}
use remame.Base.Word.{u32}
use remame.Base.Result
use remame.Base.Result.{Result, ok, Returns}
use remame.AddressMap.{AddressMapEntry}
use remame.AddressMap.Import.{
  is_plain, ratio_of, clipped, place_plain, place_scaled, window_end, scaled_end, merge,
}
use remame.AddressMap.Merged.{
  Placed, placed_plain, placed_scaled, All-Merged, SubmapError, merge_lem,
}

-- An entry of addresses in order, which a mask divides into a whole number of units.
pub record IsWindow (entry : AddressMapEntry) (data_width : ℕ) : Type 0 where
  pub ordered : entry.addrstart ≤ entry.addrend
  pub bounded : entry.addrend < 2 ^ 32
  pub whole :
      (ratio : ℕ)
      → is_plain entry data_width ≡ false
      → ratio_of entry.mask data_width ≡ ok ratio
      → ((entry.addrend - entry.addrstart + 1) % ratio ≡ 0)
        × (entry.addrend - entry.addrstart + 1 < 2 ^ 32)

-- An entry of a submap whose start comes to lie at an address of 32 bits.
pub record Lands (entry : AddressMapEntry) (data_width : ℕ) (subentry : AddressMapEntry)
    : Type 0 where
  pub ordered : subentry.addrstart ≤ subentry.addrend
  pub plain : is_plain entry data_width ≡ true → subentry.addrstart + entry.addrstart < 2 ^ 32
  pub scaled :
      (ratio : ℕ)
      → is_plain entry data_width ≡ false
      → ratio_of entry.mask data_width ≡ ok ratio
      → subentry.addrstart * ratio + entry.addrstart < 2 ^ 32

pub record IsWithin (entry placed : AddressMapEntry) : Type 0 where
  pub after : entry.addrstart ≤ placed.addrstart
  pub ordered : placed.addrstart ≤ placed.addrend
  pub before : placed.addrend ≤ entry.addrend

plain_bounds :
    (s t b e : ℕ)
    → s ≤ t
    → b ≤ e
    → e < 2 ^ 32
    → s + b < 2 ^ 32
    → ltb e (u32 (s + b)) ≡ false
    → (b ≤ u32 (s + b))
      × (u32 (s + b)
          ≤ u32 ((if ltb (u32 (e + (2 ^ 32 - b))) t then u32 (e + (2 ^ 32 - b)) else t) + b))
      × (u32 ((if ltb (u32 (e + (2 ^ 32 - b))) t then u32 (e + (2 ^ 32 - b)) else t) + b) ≤ e)
plain_bounds s t b e h h' bounded lands early = ground arith

-- A product above 0 and its factors.
factors_pos : (q ratio len : ℕ) → q * ratio ≡ len → 0 < len → (0 < q) × (0 < ratio) × (q ≤ len)
factors_pos zero ratio len e h = absurd (omega arith)
factors_pos (suc q) zero len e h = absurd (omega arith)
factors_pos (suc q) (suc r) len e h =
    let below = mul-le-mul_left {m = 1} {n = suc r} (suc q) (omega arith) in
    (omega arith, omega arith, omega (arith, below))

-- The last unit of an entry, counted from 0.
scaled_end_lem :
    (entry : AddressMapEntry) (ratio : ℕ)
    → entry.addrstart ≤ entry.addrend
    → entry.addrend < 2 ^ 32
    → entry.addrend - entry.addrstart + 1 < 2 ^ 32
    → (entry.addrend - entry.addrstart + 1) % ratio ≡ 0
    → ((scaled_end entry ratio + 1) * ratio ≡ entry.addrend - entry.addrstart + 1) × (0 < ratio)
unfolding scaled_end window_end
scaled_end_lem entry ratio h bounded small whole =
    let len = entry.addrend - entry.addrstart + 1 in
    let inner : u32 (u32 (entry.addrend + (2 ^ 32 - entry.addrstart)) + 1) ≡ len = omega arith in
    let split : len / ratio * ratio ≡ len = omega (arith, div-add-mod' len ratio) in
    let (q_pos, ratio_pos, q_le) = factors_pos (len / ratio) ratio len split (omega arith) in
    let last : u32 (len / ratio + (2 ^ 32 - 1)) + 1 ≡ len / ratio = omega arith in
    (
      ap (λ (l : ℕ). (u32 (l / ratio + (2 ^ 32 - 1)) + 1) * ratio) inner
          ∙ ap (λ (q : ℕ). q * ratio) last
          ∙ split,
      ratio_pos,
    )

-- What starts at a unit before the end is clipped to units not after it.
clipped_bounds :
    (s t m len ratio : ℕ)
    → s ≤ t
    → (m + 1) * ratio ≡ len
    → s * ratio < len
    → ((if ltb m t then m else t) + 1) * ratio ≤ len
      × (s * ratio + ratio ≤ ((if ltb m t then m else t) + 1) * ratio)
clipped_bounds s t m len ratio h e early =
    let below : s < m + 1 = lt_of_mul-lt-mul_right ratio (omega (arith, e, early)) in
    (
      omega (
        arith,
        e,
        mul-le-mul_right {m = (if ltb m t then m else t) + 1} {n = m + 1} ratio (ground arith),
      ),
      omega (
        arith,
        suc-mul s ratio,
        mul-le-mul_right {m = suc s} {n = (if ltb m t then m else t) + 1} ratio (ground arith),
      ),
    )

scaled_bounds :
    (start stop b e ratio : ℕ)
    → b ≤ e
    → e < 2 ^ 32
    → e - b + 1 < 2 ^ 32
    → start + b < 2 ^ 32
    → 0 < ratio
    → (start < e - b + 1 → (stop ≤ e - b + 1) × (start + ratio ≤ stop))
    → ltb e (u32 (start + b)) ≡ false
    → (b ≤ u32 (start + b))
      × (u32 (start + b) ≤ u32 (stop + (2 ^ 32 - 1) + b))
      × (u32 (stop + (2 ^ 32 - 1) + b) ≤ e)
scaled_bounds start stop b e ratio h bounded small lands pos_ratio fit early =
    let (below, above) = fit (ground arith) in (ground arith, ground arith, ground arith)

Placed-IsWithin :
    {entry : AddressMapEntry} {data_width : ℕ}
    → IsWindow entry data_width
    → (subentry placed : AddressMapEntry) → Placed entry data_width subentry placed
    → ltb entry.addrend placed.addrstart ≡ false
    → Lands entry data_width subentry
    → IsWithin entry placed
unfolding place_plain place_scaled window_end
Placed-IsWithin {entry} w subentry placed (placed_plain plain) early l =
    let (after, ordered, before) =
      plain_bounds subentry.addrstart subentry.addrend entry.addrstart entry.addrend l.ordered
        w.ordered w.bounded (l.plain plain) early in
    record { after = after; ordered = ordered; before = before }
Placed-IsWithin {entry} w subentry placed (placed_scaled {ratio} scaled e fits) early l =
    let (whole, small) = w.whole ratio scaled e in
    let (units, ratio_pos) = scaled_end_lem entry ratio w.ordered w.bounded small whole in
    let (after, ordered, before) =
      scaled_bounds (subentry.addrstart * ratio)
        ((clipped (scaled_end entry ratio) subentry + 1) * ratio) entry.addrstart entry.addrend
        ratio w.ordered w.bounded small (l.scaled ratio scaled e) ratio_pos
        (clipped_bounds subentry.addrstart subentry.addrend (scaled_end entry ratio)
          (entry.addrend - entry.addrstart + 1) ratio l.ordered units)
        early in
    record { after = after; ordered = ordered; before = before }

-- For an entry with its addresses of 32 bits in order, that a unit mask divides into whole
-- units and which then is not the whole space, and entries of a submap, in order, whose starts
-- stay below 2^32 where they are placed, `merge` ends in the entries before followed by entries
-- that start and end in the window of the entry and are in order; or it ends in an error.
pub merge-IsWithin :
    (entry : AddressMapEntry) (data_width : ℕ) (before subentries : List AddressMapEntry)
    → IsWindow entry data_width
    → All (Lands entry data_width) subentries
    → Returns
        (λ entries.
          (placed : List AddressMapEntry) × (entries ≡ before ++ placed)
          × All (IsWithin entry) placed)
        SubmapError
        (merge entry data_width before subentries)
merge-IsWithin entry data_width before subentries w lands =
    Result.weaken (merge_lem entry data_width before subentries)
      (λ entries to. (to.placed, to.added, All-Merged (Placed-IsWithin w) to.merged lands))
