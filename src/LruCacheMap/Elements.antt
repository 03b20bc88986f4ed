-- ===== src/LruCacheMap/Elements.antt =====
-- The list of elements of an `lru_cache_map`.
use mathlib.Core.Path.{◌≡◌, refl}
use remame.Base.{
  ◌+◌, Bool, true, false, ◌&&◌, ◌||◌, not, List, [], ◌∷◌, ◌++◌, Option, none, some, arith,
}
use remame.Base.Lists.{length}
use remame.LruCacheMap.Set.{Comparison, same, same_refl, same→≡}
use remame.LruCacheMap.{value_at, erase_at, write_at}

abbrev pub is_some {ℓ} : {A : Type ℓ} → Option A → Bool
is_some none = false
is_some (some a) = true

module _ {ℓ κ} {K : Type ℓ} {V : Type κ} ⦃o : Comparison K⦄ where
  -- Whether an element has a key.
  abbrev pub has_key : K → List (K × V) → Bool
  has_key key xs = is_some (value_at key xs)

  -- No two elements share a key.
  unfoldable pub is_distinct : List (K × V) → Bool
  is_distinct [] = true
  is_distinct ((k, v) ∷ xs) = not (has_key k xs) && is_distinct xs

  pub has_key-append :
      (q key : K) (v : V) (xs : List (K × V))
      → has_key q (xs ++ ((key, v) ∷ [])) ≡ (same key q || has_key q xs)
  unfolding value_at
  has_key-append q key v [] = ground arith
  has_key-append q key v ((k, w) ∷ xs) = ground (arith, has_key-append q key v xs)

  pub is_distinct-append :
      (key : K) (v : V) (xs : List (K × V))
      → is_distinct xs ≡ true
      → has_key key xs ≡ false
      → is_distinct (xs ++ ((key, v) ∷ [])) ≡ true
  unfolding is_distinct value_at
  is_distinct-append key v [] h new = refl
  is_distinct-append key v ((k, w) ∷ xs) h new = ground (
    arith,
    is_distinct-append key v xs,
    has_key-append k key v xs,
    same→≡ k key,
    same→≡ key k,
    same_refl k,
  )

  pub has_key-erase_at :
      (q key : K) (xs : List (K × V))
      → is_distinct xs ≡ true
      → has_key q (erase_at key xs) ≡ (not (same key q) && has_key q xs)
  unfolding is_distinct value_at erase_at
  has_key-erase_at q key [] h = ground arith
  has_key-erase_at q key ((k, w) ∷ xs) h =
      ground (arith, has_key-erase_at q key xs, same→≡ k key, same→≡ k q, same→≡ key q)

  pub is_distinct-erase_at :
      (key : K) (xs : List (K × V)) → is_distinct xs ≡ true → is_distinct (erase_at key xs) ≡ true
  unfolding is_distinct erase_at
  is_distinct-erase_at key [] h = refl
  is_distinct-erase_at key ((k, w) ∷ xs) h =
      ground (arith, is_distinct-erase_at key xs, has_key-erase_at k key xs)

  pub length-erase_at :
      (key : K) (xs : List (K × V))
      → has_key key xs ≡ true
      → length (erase_at key xs) + 1 ≡ length xs
  unfolding value_at erase_at
  length-erase_at key [] h = cc
  length-erase_at key ((k, w) ∷ xs) h = ground (arith, length-erase_at key xs)

  pub value_at-append :
      (key : K) (v : V) (xs : List (K × V))
      → has_key key xs ≡ false
      → value_at key (xs ++ ((key, v) ∷ [])) ≡ some v
  unfolding value_at
  value_at-append key v [] h = ground (arith, same_refl key)
  value_at-append key v ((k, w) ∷ xs) h = ground (arith, value_at-append key v xs)

  pub has_key-write_at :
      (q key : K) (w : V) (xs : List (K × V)) → has_key q (write_at key w xs) ≡ has_key q xs
  unfolding value_at write_at
  has_key-write_at q key w [] = refl
  has_key-write_at q key w ((k, v) ∷ xs) = ground (arith, has_key-write_at q key w xs)

  pub is_distinct-write_at :
      (key : K) (w : V) (xs : List (K × V)) → is_distinct (write_at key w xs) ≡ is_distinct xs
  unfolding is_distinct write_at
  is_distinct-write_at key w [] = refl
  is_distinct-write_at key w ((k, v) ∷ xs) =
      ground (arith, is_distinct-write_at key w xs, has_key-write_at k key w xs)

  pub length-write_at :
      (key : K) (w : V) (xs : List (K × V)) → length (write_at key w xs) ≡ length xs
  unfolding write_at
  length-write_at key w [] = refl
  length-write_at key w ((k, v) ∷ xs) = ground (arith, length-write_at key w xs)
