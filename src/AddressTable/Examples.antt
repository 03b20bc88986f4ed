-- ===== src/AddressTable/Examples.antt =====
-- The theorems on `address_table` at a new table, with ranges that leave edges in two subtables.
use remame.Base.{[], ◌∷◌, ◌≡◌, ◌≤◌, ◌<◌, ◌-◌, ◌+◌, List, arith, leb, ◌&&◌, if◌then◌else◌, true}
use remame.Base.Result.{Returns, Flawless}
use remame.AddressTable.{AddressTable, new_table, lookup_live_nowp, subtable_base, subtable_count}
use remame.AddressTable.Subtable.{subtable_alloc, alloc_fuel, subtable_merge, subtable_open}
use remame.AddressTable.Populate.{populate_range}
use remame.AddressTable.Core.{core, used, IsSound}
use remame.AddressTable.Uses.{Exhausted}
use remame.AddressTable.Merge.{nowhere}
use remame.AddressTable.MergeLoop.{Freed}
use remame.AddressTable.New.{new_table-IsSound}
use remame.AddressTable.Lookups.{
  subtable_merge-lookup, subtable_alloc-lookup, subtable_open-lookup, populate_range-lookup,
}
use remame.AddressTable.History.{
  Mapping, AreValid, none_left, one_more, populate_ranges, served, populate_ranges-served,
}

abbrev fresh : AddressTable
fresh = new_table true

subtable_merge-lookup_example :
    Returns
      (λ r.
        IsSound nowhere (core r.0)
        × (lookup_live_nowp r.0 0x4010 ≡ lookup_live_nowp fresh 0x4010)
        × Freed r.1 (core r.0))
      Flawless
      (subtable_merge fresh)
subtable_merge-lookup_example = subtable_merge-lookup fresh new_table-IsSound.0 0x4010 (omega arith)

subtable_alloc-lookup_example :
    Returns
      (λ r.
        (subtable_base ≤ r.1)
        × (r.1 < subtable_base + subtable_count)
        × IsSound (r.1 - subtable_base) (core r.0)
        × (used (core r.0) (r.1 - subtable_base) ≡ 1)
        × (lookup_live_nowp r.0 0x4010 ≡ lookup_live_nowp fresh 0x4010))
      Exhausted
      (subtable_alloc alloc_fuel fresh)
subtable_alloc-lookup_example = subtable_alloc-lookup fresh new_table-IsSound.0 0x4010 (omega arith)

subtable_open-lookup_example :
    Returns
      (λ r.
        IsSound nowhere (core r.0)
        × (subtable_base ≤ r.1)
        × (r.0.table 1 ≡ r.1)
        × (used (core r.0) (r.1 - subtable_base) ≡ 1)
        × (lookup_live_nowp r.0 0x4010 ≡ lookup_live_nowp fresh 0x4010))
      Exhausted
      (subtable_open 1 fresh)
subtable_open-lookup_example =
    subtable_open-lookup fresh new_table-IsSound.0 0x4010 (omega arith) 1 (omega arith)

populate_range-lookup_example :
    Returns
      (λ t'.
        IsSound nowhere (core t')
        × (lookup_live_nowp t' 0x8000 ≡ (
            if leb 0x4010 0x8000 && leb 0x8000 0xc00f then 300 else lookup_live_nowp fresh 0x8000)))
      Exhausted
      (populate_range 0x4010 0xc00f 300 fresh)
populate_range-lookup_example =
    populate_range-lookup fresh new_table-IsSound.0 0x8000 (omega arith) 0x4010 0xc00f 300
      (omega arith) (omega arith)

-- A bank over a part of a handler's range.
abbrev two_maps : List Mapping
two_maps =
    record { addrstart = 0x4010; addrend = 0xc00f; handler = 300 }
    ∷ record { addrstart = 0x7ff0; addrend = 0x800f; handler = 1 }
    ∷ []

two_maps-AreValid : AreValid two_maps
two_maps-AreValid =
    one_more (omega arith) (omega arith) (one_more (omega arith) (omega arith) none_left)

populate_ranges-served_example :
    Returns
      (λ t'.
        IsSound nowhere (core t')
        × (lookup_live_nowp t' 0x8000 ≡ served two_maps (lookup_live_nowp fresh 0x8000) 0x8000))
      Exhausted
      (populate_ranges two_maps fresh)
populate_ranges-served_example =
    populate_ranges-served two_maps fresh 0x8000 two_maps-AreValid new_table-IsSound.0 (omega arith)
