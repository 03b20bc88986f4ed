-- ===== src/AddressTable/Core.antt =====
-- What the lookups of `address_table` depend on, apart from the reference counts of the handlers,
-- and when it is in order.
use remame.Base.{
  ℕ, zero, suc, ◌+◌, ◌-◌, ◌*◌, ◌%◌, ◌^◌, ◌≤◌, ◌<◌, ◌≡◌, ◌≢◌, refl, Bool, true, leb, ◌==◌,
  if◌then◌else◌, arith, ap, ◌∙◌, inl, inr, Bool-cases,
}
use remame.AddressTable.{
  AddressTable, SubtableData, update, level1_bits, level2_bits_large, subtable_base, subtable_count,
  level2_index, level2_bits,
}

pub record Core : Type 0 where
  pub table : ℕ → ℕ
  pub subtables : ℕ → SubtableData
  pub alloc : ℕ
  pub size : ℕ
  pub large : Bool

abbrev pub core : AddressTable → Core
core t = record {
  table = t.table;
  subtables = t.subtables;
  alloc = t.subtable_alloc;
  size = t.size;
  large = t.large;
}

abbrev pub used : Core → ℕ → ℕ
used c j = (c.subtables j).usecount

-- The number of level 1 entries, and of entries of a subtable.
abbrev pub l1_size : ℕ
l1_size = 2 ^ level1_bits

abbrev pub l2_size : ℕ
l2_size = 2 ^ level2_bits_large

-- Entry `k` of subtable `j`.
abbrev pub sub_at : ℕ → ℕ → ℕ
sub_at j k = l1_size + j * l2_size + k

-- How many of the first `n` entries are `v`.
unfoldable pub count_entries : ℕ → ℕ → (ℕ → ℕ) → ℕ
count_entries zero v m = 0
count_entries (suc n) v m = (if m n == v then 1 else 0) + count_entries n v m

-- The handler behind entry `k` of level 1 entry `i`.
unfoldable pub cell : Core → ℕ → ℕ → ℕ
cell c i k =
    if leb subtable_base (c.table i)
    then c.table (sub_at (c.table i - subtable_base) k)
    else c.table i

-- A large table in order: each use of a subtable is counted, but for subtable `x`, which is counted
-- once more (no subtable, if `x` is 64); the entries of a subtable in use are handlers; what is in
-- use is allocated.
pub record IsSound (x : ℕ) (c : Core) : Type 0 where
  pub is_large : c.large ≡ true
  pub counted :
      (j : ℕ)
      → j < subtable_count
      → used c j ≡ count_entries l1_size (j + subtable_base) c.table + (if j == x then 1 else 0)
  pub top : (i : ℕ) → i < l1_size → c.table i < subtable_base + subtable_count
  pub plain :
      (j k : ℕ)
      → j < subtable_count
      → k < l2_size
      → j ≢ x
      → 0 < used c j
      → c.table (sub_at j k) < subtable_base
  pub room : (j : ℕ) → j < subtable_count → c.alloc ≤ j → used c j ≡ 0
  pub stepped : c.alloc % 8 ≡ 0
  pub within : c.alloc ≤ subtable_count
  pub sized : c.size ≡ l1_size + c.alloc * l2_size

abbrev pub SameCells : Core → Core → Type 0
SameCells c c' = (i k : ℕ) → i < l1_size → k < l2_size → cell c' i k ≡ cell c i k

-- Handlers in level 1 stay, and subtables stay subtables.
abbrev pub SameKind : Core → Core → Type 0
SameKind c c' =
    (i : ℕ)
    → i < l1_size
    → (c.table i < subtable_base → c'.table i ≡ c.table i)
      × (subtable_base ≤ c.table i → subtable_base ≤ c'.table i)

pub count_ext :
    (n v : ℕ) (m m' : ℕ → ℕ)
    → ((i : ℕ) → i < n → m' i ≡ m i)
    → count_entries n v m' ≡ count_entries n v m
unfolding count_entries
count_ext zero v m m' h = refl
count_ext (suc n) v m m' h =
    ground (arith, h n (omega arith), count_ext n v m m' (λ i p. h i (omega arith)))

pub count_update :
    (n v : ℕ) (m : ℕ → ℕ) (i w : ℕ)
    → i < n
    → count_entries n v (update m i w) + (if m i == v then 1 else 0)
      ≡ count_entries n v m + (if w == v then 1 else 0)
unfolding count_entries update
count_update zero v m i w h = elim h [ ]
count_update (suc n) v m i w h = elim (Bool-cases (i == n)) [
  | inl last ↦ ground (arith, count_ext n v m (update m i w) (λ l p. ground arith))
  | inr other ↦ ground (arith, count_update n v m i w)
]

pub count_pos : (n v : ℕ) (m : ℕ → ℕ) (i : ℕ) → i < n → m i ≡ v → 1 ≤ count_entries n v m
unfolding count_entries
count_pos zero v m i h e = elim h [ ]
count_pos (suc n) v m i h e = elim (Bool-cases (i == n)) [
  | inl last ↦ ground arith
  | inr other ↦ ground (arith, count_pos n v m i)
]

-- A value that is counted once stands in one place.
pub count_unique :
    (n v : ℕ) (m : ℕ → ℕ) (i j : ℕ)
    → count_entries n v m ≡ 1
    → i < n
    → j < n
    → m i ≡ v
    → m j ≡ v
    → i ≡ j
unfolding update
count_unique n v m i j once hi hj ei ej = elim (Bool-cases (j == i)) [
  | inl same ↦ ground arith
  | inr other ↦ ground (arith, count_update n v m i (v + 1), count_pos n v (update m i (v + 1)) j)
]

pub count_none : (n v : ℕ) (m : ℕ → ℕ) → ((i : ℕ) → i < n → m i ≢ v) → count_entries n v m ≡ 0
unfolding count_entries
count_none zero v m h = refl
count_none (suc n) v m h =
    ground (arith, h n (omega arith), count_none n v m (λ i p. h i (omega arith)))

pub size_large : (large : Bool) → large ≡ true → 2 ^ level2_bits large ≡ l2_size
unfolding level2_bits
size_large large e = rw e

-- Where a subtable begins, by its entry and by its number.
pub ptr_large :
    (large : Bool) (e k : ℕ)
    → large ≡ true
    → k < l2_size
    → level2_index large e k ≡ sub_at (e - subtable_base) k
unfolding level2_index
ptr_large large e k is hk = rw is (omega arith)

pub ptr_of :
    (large : Bool) (j : ℕ) → large ≡ true → level2_index large (j + subtable_base) 0 ≡ sub_at j 0
ptr_of large j is =
    ptr_large large (j + subtable_base) 0 is (omega arith)
    ∙ ap (λ (x : ℕ). sub_at x 0) (omega arith)
