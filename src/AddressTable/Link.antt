-- ===== src/AddressTable/Link.antt =====
-- A subtable of its own for a level 1 entry: the links and the lookups after `subtable_open`.
use remame.Base.{
  ℕ, ◌+◌, ◌-◌, ◌≤◌, ◌<◌, ◌≡◌, ◌≢◌, ◌⊎◌, inl, inr, ap, ◌∙◌, sym, arith, leb, ◌==◌, if◌then◌else◌,
  Bool-cases,
}
use remame.AddressTable.{update, subtable_base, subtable_count}
use remame.AddressTable.Core.{
  Core, used, l1_size, l2_size, sub_at, cell, count_ext, count_pos, IsSound, SameCells,
}
use remame.AddressTable.Frame.{with_table}
use remame.AddressTable.Sound.{update_at, IsSound-relink}
use remame.AddressTable.Merge.{nowhere}

-- Subtable `slot`, taken into use and not yet linked, gets the entries of `m` there.
module _ (c : Core) (slot : ℕ) (s : IsSound slot c) (hs : slot < subtable_count)
    (one : used c slot ≡ 1) where
  -- No level 1 entry points to it.
  pub unlinked : (l : ℕ) → l < l1_size → c.table l ≢ slot + subtable_base
  unlinked l hl e =
      absurd
        (ground (arith, s.counted slot hs, count_pos l1_size (slot + subtable_base) c.table l hl e))

  pub linked_used :
      (l j : ℕ) → l < l1_size → j < subtable_count → c.table l ≡ j + subtable_base → 0 < used c j
  linked_used l j hl hj e =
      ground (arith, s.counted j hj, count_pos l1_size (j + subtable_base) c.table l hl e)

  cell_plain : (l k : ℕ) → l < l1_size → k < l2_size → cell c l k < subtable_base
  unfolding cell
  cell_plain l k hl hk = elim (Bool-cases (leb subtable_base (c.table l))) [
    | inr handler ↦ ground arith
    | inl subtable ↦
        let below = s.top l hl in
        let apart = unlinked l hl in
        let busy = linked_used l (c.table l - subtable_base) hl (ground arith) (ground arith) in
        rw subtable (s.plain (c.table l - subtable_base) k (ground arith) hk (ground arith) busy)
  ]

  module _ (m : ℕ → ℕ)
      (outside : (p : ℕ) → (p < sub_at slot 0) ⊎ (sub_at slot l2_size ≤ p) → m p ≡ c.table p) where
    other_entry : (j k : ℕ) → k < l2_size → j ≢ slot → m (sub_at j k) ≡ c.table (sub_at j k)
    other_entry j k hk apart = elim (Bool-cases (leb slot j)) [
      | inl above ↦ outside (sub_at j k) (inr (ground arith))
      | inr below ↦ outside (sub_at j k) (inl (ground arith))
    ]

    filled-IsSound : IsSound slot (with_table c m)
    filled-IsSound = record {
      is_large = s.is_large;
      counted = λ j hj.
          s.counted j hj
          ∙ ap (λ (n : ℕ). n + (if j == slot then 1 else 0))
              (sym (
                count_ext l1_size (j + subtable_base) c.table m
                  (λ l hl. outside l (inl (omega arith)))));
      top = λ l hl. ground (arith, outside l (inl (omega arith)), s.top l hl);
      plain = λ j k hj hk nj pos. ground (arith, other_entry j k hk nj, s.plain j k hj hk nj pos);
      room = s.room;
      stepped = s.stepped;
      within = s.within;
      sized = s.sized;
    }

    -- Level 1 entry `i`, whose lookups `m` keeps, is linked to the subtable.
    module _ (i : ℕ) (hi : i < l1_size) (c' : Core)
        (contents : (k : ℕ) → k < l2_size → m (sub_at slot k) ≡ cell c i k)
        (written : c'.table ≡ update m i (slot + subtable_base))
        (fixed : (c'.alloc ≡ c.alloc) × (c'.size ≡ c.size) × (c'.large ≡ c.large))
        (released : (j : ℕ)
          → j < subtable_count
          → used c' j + (if c.table i == j + subtable_base then 1 else 0) ≡ used c j) where
      new_entry : (p : ℕ) → c'.table p ≡ (if p == i then slot + subtable_base else m p)
      new_entry p = ap (λ (f : ℕ → ℕ). f p) written ∙ update_at m i (slot + subtable_base) p

      top_entry : m i ≡ c.table i
      top_entry = outside i (inl (omega arith))

      pub linked-IsSound : IsSound nowhere c'
      linked-IsSound =
          IsSound-relink (with_table c m) c' filled-IsSound i (slot + subtable_base) hi
            (omega arith) written fixed (λ j hj. ground (arith, released j hj, top_entry))
            (λ j hj pos. ground (arith, released j hj))
            (λ k hk h apart. ground (arith, contents k hk, cell_plain i k hi hk))

      pub linked_entry : c'.table i ≡ slot + subtable_base
      linked_entry = ground (arith, new_entry i)

      pub linked_one : used c' slot ≡ 1
      linked_one = ground (arith, released slot hs, unlinked i hi)

      pub linked-SameCells : SameCells c c'
      unfolding cell
      linked-SameCells l k hl hk = elim (Bool-cases (l == i)) [
        | inl here ↦ ground (arith, new_entry l, new_entry (sub_at slot k), contents k hk)
        | inr there ↦ ground (
          arith,
          new_entry l,
          outside l (inl (omega arith)),
          unlinked l hl,
          new_entry (sub_at (c.table l - subtable_base) k),
          other_entry (c.table l - subtable_base) k hk,
        )
      ]
