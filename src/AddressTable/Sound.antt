-- ===== src/AddressTable/Sound.antt =====
-- The changes that `address_table` makes to its core keep it in order.
use remame.Base.{
  ℕ, ◌+◌, ◌<◌, ◌≡◌, ◌≢◌, refl, ap, Bool, true, false, ◌==◌, if◌then◌else◌, arith, inl, inr,
  Bool-cases, ◌∙◌,
}
use remame.AddressTable.{SubtableData, update, subtable_base, subtable_count}
use remame.AddressTable.Core.{
  Core, used, l1_size, l2_size, sub_at, count_entries, count_update, IsSound,
}

abbrev pub with_subtable : ℕ → SubtableData → Core → Core
with_subtable j d c = record c { subtables = update c.subtables j d }

pub update_at :
    {A : Type 0} (f : ℕ → A) (i : ℕ) (v : A) (j : ℕ) → update f i v j ≡ (if j == i then v else f j)
unfolding update
update_at f i v j = refl

-- `c'` is `c` but for what is kept of subtable `j`, whose uses are now `n`.
pub record Retagged (j n : ℕ) (c c' : Core) : Type 0 where
  pub tag : SubtableData
  pub uses : tag.usecount ≡ n
  pub result : c' ≡ with_subtable j tag c

usecount_if :
    (b : Bool) (d e : SubtableData)
    → (if b then d else e).usecount ≡ (if b then d.usecount else e.usecount)
usecount_if true d e = refl
usecount_if false d e = refl

-- The uses after a retagging.
pub used-retag :
    (c : Core) (j : ℕ) (d : SubtableData) (l : ℕ)
    → used (with_subtable j d c) l ≡ (if l == j then d.usecount else used c l)
used-retag c j d l =
    ap (λ (e : SubtableData). e.usecount) (update_at c.subtables j d l)
    ∙ usecount_if (l == j) d (c.subtables l)

-- A table with the same uses is in order again.
pub IsSound-retag :
    {x : ℕ} {c : Core} (j : ℕ) (d : SubtableData)
    → IsSound x c
    → d.usecount ≡ used c j
    → IsSound x (with_subtable j d c)
IsSound-retag {x} {c} j d s e = record {
  is_large = s.is_large;
  counted = λ l h. ground (arith, used-retag c j d l, s.counted l);
  top = s.top;
  plain = λ l k hl hk nl pos. s.plain l k hl hk nl (ground (arith, used-retag c j d l));
  room = λ l h a. ground (arith, used-retag c j d l, s.room l);
  stepped = s.stepped;
  within = s.within;
  sized = s.sized;
}

-- Level 1 entry `i` is set to `v`, and the uses change with it.
module _ {x y : ℕ} (c c' : Core) (s : IsSound x c) (i v : ℕ) (hi : i < l1_size)
    (hv : v < subtable_base + subtable_count) (written : c'.table ≡ update c.table i v)
    (fixed : (c'.alloc ≡ c.alloc) × (c'.size ≡ c.size) × (c'.large ≡ c.large))
    (moved : (j : ℕ)
      → j < subtable_count
      → used c' j + (if c.table i == j + subtable_base then 1 else 0) + (if j == x then 1 else 0)
        ≡ used c j + (if v == j + subtable_base then 1 else 0) + (if j == y then 1 else 0))
    (taken : (j : ℕ) → j < subtable_count → 0 < used c' j → 0 < used c j)
    (plain_x : (k : ℕ)
      → k < l2_size
      → x < subtable_count
      → x ≢ y
      → c.table (sub_at x k) < subtable_base) where
  entry : (j : ℕ) → c'.table j ≡ (if j == i then v else c.table j)
  entry j = ap (λ (m : ℕ → ℕ). m j) written ∙ update_at c.table i v j

  beyond : (j k : ℕ) → c'.table (sub_at j k) ≡ c.table (sub_at j k)
  beyond j k = ground (arith, entry (sub_at j k))

  pub IsSound-relink : IsSound y c'
  IsSound-relink = record {
    is_large = fixed.2 ∙ s.is_large;
    counted = λ j h. ground (
      arith,
      count_update l1_size (j + subtable_base) c.table i v hi,
      s.counted j,
      moved j,
      ap (λ (m : ℕ → ℕ). count_entries l1_size (j + subtable_base) m) written,
    );
    top = λ j h. ground (arith, s.top j, entry j);
    plain = λ j k hj hk nj pos. elim (Bool-cases (j == x)) [
      | inl e ↦ ground (arith, beyond j k, plain_x k)
      | inr e ↦ ground (arith, beyond j k, s.plain j k hj hk, taken j)
    ];
    room = λ j h a. ground (arith, taken j, s.room j);
    stepped = rw (fixed.0) s.stepped;
    within = rw (fixed.0) s.within;
    sized = rw (fixed.0, fixed.1) s.sized;
  }
