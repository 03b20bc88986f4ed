-- ===== src/AddressTable/Lookups.antt =====
-- What the operations of `address_table` promise its readers, who see handlers through
-- `lookup_live_nowp`.
use remame.Base.{
  ℕ, ◌+◌, ◌-◌, ◌*◌, ◌/◌, ◌%◌, ◌^◌, ◌≤◌, ◌<◌, ◌≡◌, true, ◌∙◌, sym, arith, leb, ◌&&◌, if◌then◌else◌,
}
use remame.Base.Result
use remame.Base.Result.{Returns, Flawless}
use remame.AddressTable.{
  AddressTable, subtable_base, subtable_count, level1_index, level2_index, lookup_live_large_nowp,
  lookup_live_nowp,
}
use remame.AddressTable.Subtable.{subtable_merge, subtable_alloc, alloc_fuel, subtable_open}
use remame.AddressTable.Populate.{populate_range}
use remame.AddressTable.Core.{core, used, l1_size, l2_size, cell, IsSound, SameCells}
use remame.AddressTable.Uses.{Exhausted}
use remame.AddressTable.Merge.{nowhere}
use remame.AddressTable.MergeLoop.{Freed, subtable_merge-MergedFreed}
use remame.AddressTable.Alloc.{subtable_alloc-Allocated}
use remame.AddressTable.Open.{subtable_open-Opened}
use remame.AddressTable.Given.{Given}
use remame.AddressTable.Range.{populate_range-Given}

-- A lookup in a large table is that of a cell.
pub lookup-cell :
    (t : AddressTable) (address : ℕ)
    → t.large ≡ true
    → lookup_live_nowp t address ≡ cell (core t) (address / l2_size) (address % l2_size)
unfolding lookup_live_nowp lookup_live_large_nowp level1_index level2_index cell
lookup-cell t address large = rw large (ground arith)

same_lookup :
    (t t' : AddressTable) (address : ℕ)
    → t.large ≡ true
    → t'.large ≡ true
    → address < 2 ^ 32
    → SameCells (core t) (core t')
    → lookup_live_nowp t' address ≡ lookup_live_nowp t address
same_lookup t t' address large large' h same =
    rw (lookup-cell t address large, lookup-cell t' address large')
      (same (address / l2_size) (address % l2_size) (omega arith) (omega arith))

pub lookup-Given :
    (t t' : AddressTable)
    → IsSound nowhere (core t)
    → (addrstart addrend handler : ℕ) → Given (core t) addrstart (addrend + 1) handler (core t')
    → (address : ℕ) → address < 2 ^ 32
    → lookup_live_nowp t' address ≡ (
        if leb addrstart address && leb address addrend
        then handler
        else lookup_live_nowp t address)
lookup-Given t t' s addrstart addrend handler g address h =
    let found = g.cells (address / l2_size) (address % l2_size) (omega arith) (omega arith) in
    let whole : address / l2_size * l2_size + address % l2_size ≡ address = omega arith in
    lookup-cell t' address g.sound.is_large
    ∙ ground (arith, rw whole at found, lookup-cell t address s.is_large)

module _ (t : AddressTable) (s : IsSound nowhere (core t)) (address : ℕ)
    (h : address < 2 ^ 32) where
  -- On a large table in order `subtable_merge` ends without an error in a table in order whose
  -- lookup of any 32-bit address is as before; and either it merged nothing or a subtable is
  -- out of use.
  pub subtable_merge-lookup :
      Returns
        (λ r.
          IsSound nowhere (core r.0)
          × (lookup_live_nowp r.0 address ≡ lookup_live_nowp t address)
          × Freed r.1 (core r.0))
        Flawless
        (subtable_merge t)
  subtable_merge-lookup =
      Result.weaken (subtable_merge-MergedFreed t s)
        λ r p. (p.0.sound, same_lookup t r.0 address s.is_large p.0.sound.is_large h p.0.cells, p.1)

  -- On a large table in order the loop of `subtable_alloc` ends within two rounds: with the
  -- entry of one of the 64 subtables, used once, every lookup of a 32-bit address as before,
  -- and the table in order but for the level 1 link that the subtable still lacks; or in the
  -- error "Ran out of subtables!".
  pub subtable_alloc-lookup :
      Returns
        (λ r.
          (subtable_base ≤ r.1)
          × (r.1 < subtable_base + subtable_count)
          × IsSound (r.1 - subtable_base) (core r.0)
          × (used (core r.0) (r.1 - subtable_base) ≡ 1)
          × (lookup_live_nowp r.0 address ≡ lookup_live_nowp t address))
        Exhausted
        (subtable_alloc alloc_fuel t)
  subtable_alloc-lookup = Result.weaken (subtable_alloc-Allocated t s) λ r p.
      let same : r.1 - subtable_base ≡ p.slot = ground (arith, p.entry) in
      (
        ground (arith, p.entry),
        ground (arith, p.entry, p.in_range),
        rw same p.sound,
        rw same p.one,
        same_lookup t r.0 address s.is_large p.sound.is_large h p.cells,
      )

  -- On a large table in order, for a level 1 index in range, `subtable_open` ends in a table in
  -- order whose lookup of any 32-bit address is as before, with the level 1 entry pointing to
  -- the subtable returned and that subtable used once; or in the error "Ran out of subtables!".
  pub subtable_open-lookup :
      (l1index : ℕ)
      → l1index < l1_size
      → Returns
          (λ r.
            IsSound nowhere (core r.0)
            × (subtable_base ≤ r.1)
            × (r.0.table l1index ≡ r.1)
            × (used (core r.0) (r.1 - subtable_base) ≡ 1)
            × (lookup_live_nowp r.0 address ≡ lookup_live_nowp t address))
          Exhausted
          (subtable_open l1index t)
  subtable_open-lookup l1index hi = Result.weaken (subtable_open-Opened l1index t hi s) λ r p.
      let same : r.1 - subtable_base ≡ p.slot = ground (arith, p.entry) in
      (
        p.sound,
        ground (arith, p.entry),
        p.linked ∙ sym p.entry,
        rw same p.one,
        same_lookup t r.0 address s.is_large p.sound.is_large h p.cells,
      )

  -- On a large table in order, for a last address of 32 bits and a handler below the subtables,
  -- `populate_range` ends in a table in order whose lookup of any 32-bit address is the
  -- handler, if the address is in the range, and the old lookup if not; or it ends in the error
  -- "Ran out of subtables!".
  pub populate_range-lookup :
      (addrstart addrend handler : ℕ)
      → addrend < 2 ^ 32
      → handler < subtable_base
      → Returns
          (λ t'.
            IsSound nowhere (core t')
            × (lookup_live_nowp t' address ≡ (
                if leb addrstart address && leb address addrend
                then handler
                else lookup_live_nowp t address)))
          Exhausted
          (populate_range addrstart addrend handler t)
  populate_range-lookup addrstart addrend handler hend plain =
      Result.weaken (populate_range-Given addrstart addrend handler t s hend plain)
        λ t' g. (g.sound, lookup-Given t t' s addrstart addrend handler g address h)
