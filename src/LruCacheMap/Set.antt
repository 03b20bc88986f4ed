-- ===== src/LruCacheMap/Set.antt =====
-- `std::set` as an ordered list, in what `lru_cache_map` uses of it: a position is the key at it, none
-- for the end. `Compare` is a strict total order.
use mathlib.Core.Path.{◌≡◌, refl}
use remame.Base.{
  Bool, true, false, ◌&&◌, ◌||◌, not, if◌then◌else◌, List, [], ◌∷◌, Option, none, some, arith,
}

pub record Comparison {ℓ} (K : Type ℓ) : Type ℓ where
  pub less : K → K → Bool
  pub less_irreflexive : (a : K) → less a a ≡ false
  pub less_trans : (a b c : K) → less a b ≡ true → less b c ≡ true → less a c ≡ true
  pub less_connected : (a b : K) → less a b ≡ false → less b a ≡ false → a ≡ b

module _ {ℓ} {K : Type ℓ} ⦃o : Comparison K⦄ where
  abbrev pub same : K → K → Bool
  same a b = not (o.less a b) && not (o.less b a)

  unfoldable pub lower_bound : K → List K → Option K
  lower_bound key [] = none
  lower_bound key (k ∷ ks) = if o.less k key then lower_bound key ks else some k

  unfoldable pub set_find : K → List K → Option K
  set_find key [] = none
  set_find key (k ∷ ks) = if same k key then some k else set_find key ks

  unfoldable pub set_erase : K → List K → List K
  set_erase key [] = []
  set_erase key (k ∷ ks) = if same k key then ks else k ∷ set_erase key ks

  abbrev pub first_of : List K → Option K
  first_of [] = none
  first_of (k ∷ ks) = some k

  -- The position after a key.
  unfoldable pub set_next : K → List K → Option K
  set_next key [] = none
  set_next key (k ∷ ks) = if same k key then first_of ks else set_next key ks

  unfoldable pub set_insert : K → List K → List K
  set_insert key [] = key ∷ []
  set_insert key (k ∷ ks) =
      if o.less k key then k ∷ set_insert key ks else if o.less key k then key ∷ k ∷ ks else k ∷ ks

  -- A hint does not change what is inserted.
  abbrev pub insert_hint : Option K → K → List K → List K
  insert_hint hint key ks = set_insert key ks

  -- The test of `insert` and `operator[]` on what `lower_bound` gave.
  unfoldable pub is_found : K → Option K → Bool
  is_found key none = false
  is_found key (some e) = not (o.less key e)

  abbrev pub or_key : K → Option K → K
  or_key key none = key
  or_key key (some e) = e

  -- Whether a key is in a set.
  unfoldable pub has : K → List K → Bool
  has key [] = false
  has key (k ∷ ks) = same k key || has key ks

  -- All keys come after one.
  unfoldable pub all_after : K → List K → Bool
  all_after key [] = true
  all_after key (k ∷ ks) = o.less key k && all_after key ks

  unfoldable pub is_sorted : List K → Bool
  is_sorted [] = true
  is_sorted (k ∷ ks) = all_after k ks && is_sorted ks

  pub same_refl : (a : K) → same a a ≡ true
  same_refl a = rw (o.less_irreflexive a) refl

  pub same→≡ : (a b : K) → same a b ≡ true → a ≡ b
  same→≡ a b h = o.less_connected a b (ground (arith, h)) (ground (arith, h))
