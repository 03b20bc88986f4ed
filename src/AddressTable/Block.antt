-- ===== src/AddressTable/Block.antt =====
-- A round of `derive_range` in its block of level 1, on a large table in order.
use remame.Base.{
  ℕ, ◌+◌, ◌-◌, ◌/◌, ◌%◌, ◌^◌, ◌<◌, ◌≡◌, ◌∙◌, ap, sym, refl, inl, inr, arith, true, false, leb, ◌==◌,
  Bool-cases,
}
use remame.AddressTable.{
  AddressTable, subtable_base, level1_index, level2_index, lookup_live_large_nowp, lookup_live_nowp,
}
use remame.AddressTable.Core.{core, used, l1_size, l2_size, sub_at, cell, count_pos, IsSound}
use remame.AddressTable.Merge.{nowhere}
use remame.AddressTable.Lookups.{lookup-cell}
use remame.AddressTable.Derive.{entry_of, block_down, block_up}
use remame.AddressTable.Scan.{
  ScannedDown, ScannedUp, single, scan_down-ScannedDown, scan_up-ScannedUp,
}

cell_plain :
    (t : AddressTable)
    → IsSound nowhere (core t)
    → (i k : ℕ) → i < l1_size
    → k < l2_size
    → cell (core t) i k < subtable_base
unfolding cell
cell_plain t s i k hi hk = elim (Bool-cases (leb subtable_base (t.table i))) [
  | inr handler ↦ ground arith
  | inl subtable ↦
      let j = t.table i - subtable_base in
      let below = s.top i hi in
      let busy : 0 < used (core t) j = ground (
        arith,
        s.counted j (ground arith),
        count_pos l1_size (j + subtable_base) t.table i hi (ground arith),
      ) in
      rw subtable (s.plain j k (ground arith) hk (ground arith) busy)
]

module _ (t : AddressTable) (s : IsSound nowhere (core t)) where
  abbrev pub look : ℕ → ℕ
  look = lookup_live_nowp t

  abbrev pub l1_of : ℕ → ℕ
  l1_of address = t.table (level1_index t.large address)

  pub lookup_plain : (address : ℕ) → address < 2 ^ 32 → look address < subtable_base
  lookup_plain address h =
      rw (lookup-cell t address s.is_large)
        (cell_plain t s (address / l2_size) (address % l2_size) (omega arith) (omega arith))

  pub entry_of_lem : (address : ℕ) → entry_of t (l1_of address) address ≡ look address
  unfolding entry_of lookup_live_nowp lookup_live_large_nowp
  entry_of_lem address = rw s.is_large refl

  -- Lookups in the block of an address.
  l1_of_lem : (address : ℕ) → l1_of address ≡ t.table (address / l2_size)
  unfolding level1_index
  l1_of_lem address = rw s.is_large refl

  look_in :
      (address x : ℕ) → x / l2_size ≡ address / l2_size → look x ≡ entry_of t (l1_of address) x
  unfolding level1_index
  look_in address x e =
      sym (entry_of_lem x) ∙ ap (λ (l1 : ℕ). entry_of t l1 x) (rw s.is_large (ap t.table e))

  -- Subtable `l1 - subtable_base` as an array, its first and its last entry.
  level2_lem : (l1 x : ℕ) → level2_index t.large l1 x ≡ sub_at (l1 - subtable_base) (x % l2_size)
  unfolding level2_index
  level2_lem l1 x = rw s.is_large refl

  module _ (address : ℕ) (h : address < 2 ^ 32) where
    l1 : ℕ
    l1 = l1_of address

    low : ℕ
    low = address - address % l2_size

    first : ℕ
    first = level2_index t.large l1 0

    last : ℕ
    last = level2_index t.large l1 (2 ^ 32 - 1)

    in_handler :
        leb subtable_base l1 ≡ false → (x : ℕ) → x / l2_size ≡ address / l2_size → look x ≡ l1
    unfolding entry_of l1
    in_handler handler x e = look_in address x e ∙ rw handler refl

    in_subtable :
        leb subtable_base l1 ≡ true
        → (x : ℕ) → x / l2_size ≡ address / l2_size
        → look x ≡ t.table (sub_at (l1 - subtable_base) (x % l2_size))
    unfolding entry_of l1
    in_subtable subtable x e = look_in address x e ∙ rw subtable (ap t.table (level2_lem l1 x))

    module _ (entry : ℕ) (e : look address ≡ entry) where
      apart : leb subtable_base l1 ≡ true → (entry == l1) ≡ false
      apart subtable = ground (arith, lookup_plain address h)

      equal : leb subtable_base l1 ≡ false → (entry == l1) ≡ true
      equal handler = ground (arith, in_handler handler address refl)

      pub block_down-ScannedDown :
          ScannedDown look entry
            (address - address % l2_size)
            address
            (block_down entry entry (l1_of address) address t)
      unfolding block_down first l1 low
      block_down-ScannedDown = elim (Bool-cases (leb subtable_base l1)) [
        | inl subtable ↦
            let n : level2_index t.large l1 address - first ≡ address % l2_size =
              omega (arith, level2_lem l1 address, level2_lem l1 0) in
            rw (apart subtable, n)
              (scan_down-ScannedDown look entry (address % l2_size) t.table first low address
                (omega arith)
                (λ m hm.
                  let start : first + m ≡ sub_at (l1 - subtable_base) ((low + m) % l2_size) =
                    omega (arith, level2_lem l1 0) in
                  ap t.table start ∙ sym (in_subtable subtable (low + m) (omega arith)))
                e)
        | inr handler ↦ rw (equal handler) (record {
          lowest = omega arith;
          highest = omega arith;
          same = single look entry address e;
          whole = λ yes' x a b.
              in_handler handler x (omega arith) ∙ sym (in_handler handler address refl) ∙ e;
          stopped = λ no'. cc;
        })
      ]

      pub block_up-ScannedUp :
          ScannedUp look entry
            (address - address % l2_size + (l2_size - 1))
            address
            (block_up entry entry (l1_of address) address t)
      unfolding block_up last l1 low
      block_up-ScannedUp = elim (Bool-cases (leb subtable_base l1)) [
        | inl subtable ↦
            let n : last - level2_index t.large l1 address ≡ l2_size - 1 - address % l2_size =
              omega (arith, level2_lem l1 address, level2_lem l1 (2 ^ 32 - 1)) in
            let high = address - address % l2_size + (l2_size - 1) in
            rw (apart subtable, n)
              (scan_up-ScannedUp look entry (l2_size - 1 - address % l2_size) t.table last high
                address (omega arith)
                (λ m hm.
                  let start : last - m ≡ sub_at (l1 - subtable_base) ((high - m) % l2_size) =
                    omega (arith, level2_lem l1 (2 ^ 32 - 1)) in
                  ap t.table start ∙ sym (in_subtable subtable (high - m) (omega arith)))
                e)
        | inr handler ↦ rw (equal handler) (record {
          lowest = omega arith;
          highest = omega arith;
          same = single look entry address e;
          whole = λ yes' x a b.
              in_handler handler x (omega arith) ∙ sym (in_handler handler address refl) ∙ e;
          stopped = λ no'. cc;
        })
      ]
