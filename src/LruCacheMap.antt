-- ===== src/LruCacheMap.antt =====
-- `lru_cache_map` of source/core/coretmpl.h: a map of limited size that forgets what was least
-- recently used. `m_elements` is a list from the least to the most recently used element. An iterator
-- in it is the key of its element, as no two elements share one, so `m_mapping`, a set of iterators
-- ordered by key, is an ordered list of keys. `Compare` is an instance argument with its laws.
pub mod Set
mod Order
mod Elements
mod Valid
mod Spec
mod Used
mod Refines
mod Examples
use mathlib.Core.Path.{◌≡◌}
use remame.Base.{
  ℕ, zero, suc, ◌+◌, ◌-◌, Bool, true, false, ◌&&◌, not, leb, ◌==◌, if◌then◌else◌, List, [], ◌∷◌,
  ◌++◌, Option, none, some,
}
use remame.Base.Result.{Fatal, Result, ok, fatal}
use remame.LruCacheMap.Set.{
  Comparison, same, lower_bound, set_find, set_erase, set_next, set_insert, insert_hint, is_found,
  or_key,
}

pub record LruCacheMap {ℓ κ} (K : Type ℓ) (V : Type κ) : Type (ℓ ⊔ κ) where
  pub max_size : ℕ
  pub size : ℕ
  pub elements : List (K × V)
  pub mapping : List K

module _ {ℓ κ} {K : Type ℓ} {V : Type κ} where
  unfoldable pub new_lru_cache_map : ℕ → LruCacheMap K V
  new_lru_cache_map max_size = record { max_size = max_size; size = 0; elements = []; mapping = [] }

  unfoldable pub is_empty : LruCacheMap K V → Bool
  is_empty c = c.size == 0

  unfoldable pub clear : LruCacheMap K V → LruCacheMap K V
  clear c = record c { size = 0; elements = []; mapping = [] }

  unfoldable pub swap : LruCacheMap K V → LruCacheMap K V → LruCacheMap K V × LruCacheMap K V
  swap c that = (
    record {
      max_size = that.max_size;
      size = that.size;
      elements = that.elements;
      mapping = that.mapping;
    },
    record { max_size = c.max_size; size = c.size; elements = c.elements; mapping = c.mapping },
  )

module _ {ℓ κ} {K : Type ℓ} {V : Type κ} ⦃o : Comparison K⦄ where
  -- The value behind an iterator, and `m_elements.erase`.
  unfoldable pub value_at : K → List (K × V) → Option V
  value_at key [] = none
  value_at key ((k, v) ∷ xs) = if same k key then some v else value_at key xs

  unfoldable pub erase_at : K → List (K × V) → List (K × V)
  erase_at key [] = []
  erase_at key ((k, v) ∷ xs) = if same k key then xs else (k, v) ∷ erase_at key xs

  -- A write through a reference to a value.
  unfoldable pub write_at : K → V → List (K × V) → List (K × V)
  write_at key w [] = []
  write_at key w ((k, v) ∷ xs) = if same k key then (k, w) ∷ xs else (k, v) ∷ write_at key w xs

  -- `splice` of an element to the end.
  unfoldable pub splice : K → List (K × V) → List (K × V)
  splice key xs = elim (value_at key xs) [ none ↦ xs | some v ↦ erase_at key xs ++ ((key, v) ∷ []) ]

  unfoldable pub freshen : K → LruCacheMap K V → LruCacheMap K V
  freshen key c = record c { elements = splice key c.elements }

  -- Whether an iterator is `m_elements.begin()`.
  unfoldable pub is_first : K → List (K × V) → Bool
  is_first key [] = false
  is_first key ((k, v) ∷ xs) = same k key

  -- A round of `make_space`, on the cache and `existing`.
  unfoldable pub erase_mapped : List (K × V) → Option K → List K → Option K × List K
  erase_mapped [] existing mapping = (existing, mapping)
  erase_mapped ((first, v) ∷ xs) none mapping = (none, set_erase first mapping)
  erase_mapped ((first, v) ∷ xs) (some e) mapping =
      if is_first e ((first, v) ∷ xs)
      then (set_next e mapping, set_erase e mapping)
      else (some e, set_erase first mapping)

  abbrev pub without_first : List (K × V) → List (K × V)
  without_first [] = []
  without_first (x ∷ xs) = xs

  unfoldable pub drop_first : LruCacheMap K V × Option K → LruCacheMap K V × Option K
  drop_first (c, existing) =
      let (existing', mapping') = erase_mapped c.elements existing c.mapping in
      (
        record c { elements = without_first c.elements; mapping = mapping'; size = c.size - 1 },
        existing',
      )

  -- The loop of `make_space`, which counts `m_size` down.
  unfoldable pub make_space_from : ℕ → LruCacheMap K V × Option K → LruCacheMap K V × Option K
  make_space_from zero s = s
  make_space_from (suc n) s =
      let rest = make_space_from n (drop_first s) in if leb s.0.max_size (suc n) then rest else s

  unfoldable pub make_space : LruCacheMap K V → Option K → LruCacheMap K V × Option K
  make_space c existing = make_space_from c.size (c, existing)

  -- What `operator[]` and `insert` do with a key that is not there.
  unfoldable pub append_new : K → V → LruCacheMap K V × Option K → LruCacheMap K V
  append_new key v (c, existing) = record c {
    elements = c.elements ++ ((key, v) ∷ []);
    mapping = insert_hint existing key c.mapping;
    size = c.size + 1;
  }

  -- `insert`, with the iterator as a key.
  unfoldable pub insert : K → V → LruCacheMap K V → LruCacheMap K V × K × Bool
  insert key v c =
      let existing = lower_bound key c.mapping in
      if is_found key existing
      then (freshen (or_key key existing) c, or_key key existing, false)
      else (append_new key v (make_space c existing), key, true)

  -- `operator[]`, with the key of the value referred to. `initial` is a new value.
  unfoldable pub index : V → K → LruCacheMap K V → LruCacheMap K V × K
  index initial key c =
      let existing = lower_bound key c.mapping in
      if is_found key existing
      then (freshen (or_key key existing) c, or_key key existing)
      else (append_new key initial (make_space c existing), key)

  -- `cache[key] = v`.
  unfoldable pub assign : V → K → V → LruCacheMap K V → LruCacheMap K V
  assign initial key v c =
      let (c', k) = index initial key c in record c' { elements = write_at k v c'.elements }

  unfoldable pub find : K → LruCacheMap K V → LruCacheMap K V × Option K
  find key c = elim (set_find key c.mapping) [ none ↦ (c, none) | some e ↦ (freshen e c, some e) ]

  unfoldable pub at : K → LruCacheMap K V → Result (LruCacheMap K V × K)
  at key c = elim (set_find key c.mapping) [
    | none ↦ fatal Fatal.out_of_range
    | some e ↦ ok (freshen e c, e)
  ]

  unfoldable pub count : K → LruCacheMap K V → ℕ
  count key c = elim (set_find key c.mapping) [ none ↦ 0 | some e ↦ 1 ]

  -- `erase` of a key, and of an iterator.
  unfoldable pub erase : K → LruCacheMap K V → LruCacheMap K V × ℕ
  erase key c = elim (set_find key c.mapping) [
    | none ↦ (c, 0)
    | some e ↦ (
      record c {
        elements = erase_at e c.elements;
        mapping = set_erase e c.mapping;
        size = c.size - 1;
      },
      1,
    )
  ]

  unfoldable pub erase_iterator : K → LruCacheMap K V → LruCacheMap K V
  erase_iterator pos c = record c {
    mapping = set_erase pos c.mapping;
    elements = erase_at pos c.elements;
    size = c.size - 1;
  }

  -- `erase` of a range, given the iterators in it.
  unfoldable pub erase_range : List K → LruCacheMap K V → LruCacheMap K V
  erase_range [] c = c
  erase_range (pos ∷ rest) c = erase_range rest (erase_iterator pos c)

  -- `insert` of a range or of a list.
  unfoldable pub insert_range : List (K × V) → LruCacheMap K V → LruCacheMap K V
  insert_range [] c = c
  insert_range ((key, v) ∷ rest) c = insert_range rest (insert key v c).0

  -- The loop of the copy constructor and of `operator=`.
  unfoldable pub map_all : List (K × V) → List K → List K
  map_all [] mapping = mapping
  map_all ((key, v) ∷ xs) mapping = map_all xs (set_insert key mapping)

  unfoldable pub copy : LruCacheMap K V → LruCacheMap K V
  copy that = record {
    max_size = that.max_size;
    size = that.size;
    elements = that.elements;
    mapping = map_all that.elements [];
  }
