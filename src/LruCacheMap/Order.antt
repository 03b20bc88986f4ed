-- ===== src/LruCacheMap/Order.antt =====
-- The ordered lists behind `m_mapping`.
use mathlib.Core.Path.{◌≡◌, refl}
use remame.Base.{
  true, false, ◌&&◌, ◌||◌, not, if◌then◌else◌, Bool-cases, inl, inr, List, [], ◌∷◌, none, some,
  arith,
}
use remame.LruCacheMap.Set.{
  Comparison, same, lower_bound, set_find, set_erase, set_insert, is_found, or_key, has, all_after,
  is_sorted, same→≡,
}

module _ {ℓ} {K : Type ℓ} ⦃o : Comparison K⦄ where
  pub has-set_insert :
      (q key : K) (ks : List K) → has q (set_insert key ks) ≡ (same key q || has q ks)
  unfolding has set_insert
  has-set_insert q key [] = refl
  has-set_insert q key (k ∷ ks) = ground (arith, has-set_insert q key ks, o.less_connected k key)

  all_after-set_insert :
      (a key : K) (ks : List K)
      → o.less a key ≡ true
      → all_after a ks ≡ true
      → all_after a (set_insert key ks) ≡ true
  unfolding all_after set_insert
  all_after-set_insert a key [] h all = ground arith
  all_after-set_insert a key (k ∷ ks) h all = ground (arith, all_after-set_insert a key ks)

  all_after_trans :
      (a b : K) (ks : List K) → o.less a b ≡ true → all_after b ks ≡ true → all_after a ks ≡ true
  unfolding all_after
  all_after_trans a b [] h all = refl
  all_after_trans a b (k ∷ ks) h all = ground (arith, all_after_trans a b ks, o.less_trans a b k)

  pub is_sorted-set_insert :
      (key : K) (ks : List K) → is_sorted ks ≡ true → is_sorted (set_insert key ks) ≡ true
  unfolding is_sorted set_insert all_after
  is_sorted-set_insert key [] h = refl
  is_sorted-set_insert key (k ∷ ks) h =
      ground (
        arith,
        is_sorted-set_insert key ks,
        all_after-set_insert k key ks,
        all_after_trans key k ks,
      )

  -- A key before all others is not among them.
  has_after : (a : K) (ks : List K) → all_after a ks ≡ true → has a ks ≡ false
  unfolding has all_after
  has_after a [] h = refl
  has_after a (k ∷ ks) h = ground (arith, has_after a ks)

  pub has-set_erase :
      (q key : K) (ks : List K)
      → is_sorted ks ≡ true
      → has q (set_erase key ks) ≡ (not (same key q) && has q ks)
  unfolding has set_erase is_sorted
  has-set_erase q key [] h = ground arith
  has-set_erase q key (k ∷ ks) h =
      ground (arith, has-set_erase q key ks, has_after k ks, same→≡ k key, same→≡ k q, same→≡ key q)

  all_after-set_erase :
      (a key : K) (ks : List K) → all_after a ks ≡ true → all_after a (set_erase key ks) ≡ true
  unfolding all_after set_erase
  all_after-set_erase a key [] h = refl
  all_after-set_erase a key (k ∷ ks) h = ground (arith, all_after-set_erase a key ks)

  pub is_sorted-set_erase :
      (key : K) (ks : List K) → is_sorted ks ≡ true → is_sorted (set_erase key ks) ≡ true
  unfolding is_sorted set_erase
  is_sorted-set_erase key [] h = refl
  is_sorted-set_erase key (k ∷ ks) h =
      ground (arith, is_sorted-set_erase key ks, all_after-set_erase k key ks)

  -- What `lower_bound` finds is the key itself, if the set has it.
  pub is_found-lower_bound :
      (key : K) (ks : List K) → is_sorted ks ≡ true → is_found key (lower_bound key ks) ≡ has key ks
  unfolding is_found lower_bound has is_sorted
  is_found-lower_bound key [] h = refl
  is_found-lower_bound key (k ∷ ks) h =
      ground (arith, is_found-lower_bound key ks, all_after_trans key k ks, has_after key ks)

  pub or_key_found :
      (key : K) (ks : List K)
      → is_found key (lower_bound key ks) ≡ true
      → or_key key (lower_bound key ks) ≡ key
  unfolding is_found lower_bound
  or_key_found key [] h = refl
  or_key_found key (k ∷ ks) h = elim (Bool-cases (o.less k key)) [
    | inl before ↦ rw before (or_key_found key ks (rw before at h))
    | inr after ↦ rw after (o.less_connected k key after (ground (arith, rw after at h)))
  ]

  pub set_find_lem :
      (key : K) (ks : List K) → set_find key ks ≡ (if has key ks then some key else none)
  unfolding set_find has
  set_find_lem key [] = refl
  set_find_lem key (k ∷ ks) = ground (arith, set_find_lem key ks, same→≡ k key)
