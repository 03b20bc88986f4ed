-- ===== src/LruCacheMap/Spec.antt =====
-- What an `lru_cache_map` promises: a list that remembers what was used last.
use mathlib.Core.Path.{◌≡◌}
use remame.Base.{
  ℕ, suc, Bool, true, false, not, leb, ◌==◌, if◌then◌else◌, List, [], ◌∷◌, ◌++◌, none, some,
}
use remame.Base.Lists.{length}
use remame.Base.Result.{Result, ok, fatal, out_of_fuel}
use remame.LruCacheMap.Set.{Comparison}
use remame.LruCacheMap.Elements.{has_key, is_some}
use remame.LruCacheMap.Valid.{IsValid}
use remame.LruCacheMap.{
  LruCacheMap, value_at, erase_at, write_at, clear, insert, index, assign, find, at, count, erase,
}

-- The calls, with the value that a new element of `operator[]` begins with.
pub data Command {ℓ κ} (K : Type ℓ) (V : Type κ) : Type (ℓ ⊔ κ) where
  do_insert : K → V → Command K V
  do_index : V → K → Command K V
  do_assign : V → K → V → Command K V
  do_find : K → Command K V
  do_at : K → Command K V
  do_count : K → Command K V
  do_erase : K → Command K V
  do_clear : Command K V

module _ {ℓ κ} {K : Type ℓ} {V : Type κ} ⦃o : Comparison K⦄ where
  -- The last `n` elements.
  unfoldable pub last : ℕ → List (K × V) → List (K × V)
  last n [] = []
  last n (x ∷ xs) = if leb (suc (length xs)) n then x ∷ xs else last n xs

  -- The use of a key: its element, or a new one, comes last, and of all elements `max` are remembered.
  unfoldable pub used : ℕ → K → V → List (K × V) → List (K × V)
  used max key initial xs = elim (value_at key xs) [
    | none ↦ last max (xs ++ ((key, initial) ∷ []))
    | some v ↦ last max (erase_at key xs ++ ((key, v) ∷ []))
  ]

  -- A use that makes no element.
  unfoldable pub touched : K → List (K × V) → List (K × V)
  touched key xs = elim (value_at key xs) [
    | none ↦ xs
    | some v ↦ erase_at key xs ++ ((key, v) ∷ [])
  ]

  -- The list after a call.
  unfoldable pub remember : ℕ → Command K V → List (K × V) → List (K × V)
  remember max (do_insert key v) xs = used max key v xs
  remember max (do_index initial key) xs = used max key initial xs
  remember max (do_assign initial key v) xs = write_at key v (used max key initial xs)
  remember max (do_find key) xs = touched key xs
  remember max (do_at key) xs = touched key xs
  remember max (do_count key) xs = xs
  remember max (do_erase key) xs = erase_at key xs
  remember max do_clear xs = []

  -- What a call answers besides: whether the key was there before.
  unfoldable pub expected : Command K V → List (K × V) → Bool
  expected (do_insert key v) xs = not (has_key key xs)
  expected (do_index initial key) xs = true
  expected (do_assign initial key v) xs = true
  expected (do_find key) xs = has_key key xs
  expected (do_at key) xs = has_key key xs
  expected (do_count key) xs = has_key key xs
  expected (do_erase key) xs = has_key key xs
  expected do_clear xs = true

  -- The call on the cache, with its answer: insertion done, iterator not the end, no exception,
  -- count not 0.
  abbrev pub answered : LruCacheMap K V → Result (LruCacheMap K V × K) → LruCacheMap K V × Bool
  answered c (ok s) = (s.0, true)
  answered c (fatal e) = (c, false)
  answered c out_of_fuel = (c, false)

  unfoldable pub call : Command K V → LruCacheMap K V → LruCacheMap K V × Bool
  call (do_insert key v) c = let r = insert key v c in (r.0, r.2)
  call (do_index initial key) c = ((index initial key c).0, true)
  call (do_assign initial key v) c = (assign initial key v c, true)
  call (do_find key) c = let r = find key c in (r.0, is_some r.1)
  call (do_at key) c = answered c (at key c)
  call (do_count key) c = (c, not (count key c == 0))
  call (do_erase key) c = let r = erase key c in (r.0, not (r.1 == 0))
  call do_clear c = (clear c, true)

  -- After a call the cache is valid, its elements are those remembered, and so is the answer.
  pub record Refined (max : ℕ) (xs : List (K × V)) (r : LruCacheMap K V × Bool) (answer : Bool)
      : Type (ℓ ⊔ κ) where
    pub valid : IsValid r.0
    pub elements : r.0.elements ≡ xs
    pub same_max : r.0.max_size ≡ max
    pub same_answer : r.1 ≡ answer
