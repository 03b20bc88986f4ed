-- ===== src/LruCacheMap/Used.antt =====
-- What `insert` and `operator[]` make of an `lru_cache_map`.
use mathlib.Core.Path.{◌≡◌, refl, sym, ap, ◌∙◌}
use remame.Base.{
  ℕ, suc, ◌≤◌, ◌<◌, true, false, not, leb, ◌==◌, Bool-cases, inl, inr, List, [], ◌∷◌, ◌++◌, Option,
  none, some, arith,
}
use remame.Base.Lists.{length, length-append}
use remame.LruCacheMap.Set.{Comparison, lower_bound, is_found}
use remame.LruCacheMap.Order.{is_found-lower_bound, or_key_found}
use remame.LruCacheMap.Elements.{has_key, is_some, length-erase_at}
use remame.LruCacheMap.Valid.{
  IsLinked, IsValid, Roomy, splice_found, freshen-IsLinked, append_new-IsLinked, make_space-Roomy,
}
use remame.LruCacheMap.{
  LruCacheMap, value_at, erase_at, freshen, without_first, make_space, append_new, insert, index,
}
use remame.LruCacheMap.Spec.{last, used}

module _ {ℓ κ} {K : Type ℓ} {V : Type κ} ⦃o : Comparison K⦄ where
  length-last : (n : ℕ) (xs : List (K × V)) → length xs ≤ n → last n xs ≡ xs
  unfolding last
  length-last n [] h = refl
  length-last n (x ∷ xs) h = ground arith

  last-append_full :
      (n : ℕ) (xs : List (K × V)) (x : K × V)
      → length xs ≡ n
      → 0 < n
      → last n (xs ++ (x ∷ [])) ≡ without_first xs ++ (x ∷ [])
  unfolding last
  last-append_full n [] x h pos_n = absurd (omega arith)
  last-append_full n (y ∷ xs) x h pos_n =
      let size = length-append xs (x ∷ []) in
      let over : leb (suc (length (xs ++ (x ∷ [])))) n ≡ false = ground (arith, size) in
      rw over (length-last n (xs ++ (x ∷ [])) (omega (arith, size)))

  some_value :
      (key : K) (xs : List (K × V)) → has_key key xs ≡ true → (v : V) × (value_at key xs ≡ some v)
  some_value key xs h = by_value (value_at key xs) h
    where
      by_value : (w : Option V) → is_some w ≡ true → (v : V) × (w ≡ some v)
      by_value none h = absurd (ground (arith, h))
      by_value (some v) h = (v, refl)

  pub no_value : (key : K) (xs : List (K × V)) → has_key key xs ≡ false → value_at key xs ≡ none
  no_value key xs h = by_value (value_at key xs) h
    where
      by_value : (w : Option V) → is_some w ≡ false → w ≡ none
      by_value none h = refl
      by_value (some v) h = absurd (ground (arith, h))

  has_key-without_first :
      (key : K) (xs : List (K × V))
      → has_key key xs ≡ false
      → has_key key (without_first xs) ≡ false
  unfolding value_at
  has_key-without_first key [] h = h
  has_key-without_first key ((k, v) ∷ xs) h = ground arith

  used_found :
      (max : ℕ) (key : K) (v w : V) (xs : List (K × V))
      → value_at key xs ≡ some w
      → length xs ≤ max
      → used max key v xs ≡ erase_at key xs ++ ((key, w) ∷ [])
  unfolding used
  used_found max key v w xs e h =
      rw (e, used)
        (length-last max (erase_at key xs ++ ((key, w) ∷ [])) (
          ground (
            arith,
            length-append (erase_at key xs) ((key, w) ∷ []),
            length-erase_at key xs (ap is_some e),
          )))

  -- What the use of a key gives.
  pub record Used (key : K) (v : V) (c c' : LruCacheMap K V) : Type (ℓ ⊔ κ) where
    pub valid : IsValid c'
    pub elements : c'.elements ≡ used c.max_size key v c.elements
    pub same_max : c'.max_size ≡ c.max_size

  freshen-Used :
      (key : K) (v : V) (c : LruCacheMap K V)
      → IsValid c
      → has_key key c.elements ≡ true
      → Used key v c (freshen key c)
  unfolding freshen
  freshen-Used key v c w there =
      let (x, e) = some_value key c.elements there in
      record {
        valid = record {
          linked = freshen-IsLinked key c w.linked there;
          bounded = w.bounded;
          positive = w.positive;
        };
        elements =
            splice_found key c.elements x e
            ∙ sym (
                used_found c.max_size key v x c.elements e
                  (omega (arith, w.bounded, w.linked.sized)));
        same_max = refl;
      }

  used_new :
      (max : ℕ) (key : K) (v : V) (xs : List (K × V))
      → has_key key xs ≡ false
      → used max key v xs ≡ last max (xs ++ ((key, v) ∷ []))
  unfolding used
  used_new max key v xs h = rw (no_value key xs h, used) refl

  added-Used :
      (key : K) (v : V) (c r : LruCacheMap K V) (existing : Option K) (els : List (K × V))
      → IsValid c
      → Roomy c r
      → r.elements ≡ els
      → has_key key els ≡ false
      → els ++ ((key, v) ∷ []) ≡ used c.max_size key v c.elements
      → Used key v c (append_new key v (r, existing))
  unfolding append_new
  added-Used key v c r existing els w room kept new e = record {
    valid = record {
      linked = append_new-IsLinked key v r existing room.linked (ap (has_key key) kept ∙ new);
      bounded = omega (arith, room.room);
      positive = omega (arith, room.room);
    };
    elements = ap (λ (l : List (K × V)). l ++ ((key, v) ∷ [])) kept ∙ e;
    same_max = room.same_max;
  }

  append_new-Used :
      (key : K) (v : V) (c : LruCacheMap K V) (r : LruCacheMap K V × Option K)
      → IsValid c
      → has_key key c.elements ≡ false
      → Roomy c r.0
      → Used key v c (append_new key v r)
  append_new-Used key v c (r, existing) w new room = elim (Bool-cases (c.size == c.max_size)) [
    | inl full ↦
        let at_max : length c.elements ≡ c.max_size = ground (arith, w.linked.sized) in
        added-Used key v c r existing (without_first c.elements) w room (room.kept ∙ rw full refl)
          (has_key-without_first key c.elements new)
          (sym (
            used_new c.max_size key v c.elements new
            ∙ last-append_full c.max_size c.elements (key, v) at_max w.positive))
    | inr less ↦
        let size = length-append c.elements ((key, v) ∷ []) in
        let fits : length (c.elements ++ ((key, v) ∷ [])) ≤ c.max_size =
          ground (arith, w.linked.sized, w.bounded, size) in
        added-Used key v c r existing c.elements w room (room.kept ∙ rw less refl) new (
          sym (
            used_new c.max_size key v c.elements new
            ∙ length-last c.max_size (c.elements ++ ((key, v) ∷ [])) fits))
  ]

  is_found_lem :
      (key : K) (c : LruCacheMap K V)
      → IsLinked c
      → is_found key (lower_bound key c.mapping) ≡ has_key key c.elements
  is_found_lem key c l = is_found-lower_bound key c.mapping l.sorted ∙ l.agree key

  pub index-Used :
      (key : K) (v : V) (c : LruCacheMap K V)
      → IsValid c
      → Used key v c (index v key c).0 × ((index v key c).1 ≡ key)
  unfolding index
  index-Used key v c w = elim (Bool-cases (is_found key (lower_bound key c.mapping))) [
    | inl there ↦
        rw (there, or_key_found key c.mapping there)
          (freshen-Used key v c w (sym (is_found_lem key c w.linked) ∙ there), refl)
    | inr new ↦ rw new (
      append_new-Used key v c (make_space c (lower_bound key c.mapping)) w
          (sym (is_found_lem key c w.linked) ∙ new)
          (make_space-Roomy c (lower_bound key c.mapping) w),
      refl,
    )
  ]

  pub insert-Used :
      (key : K) (v : V) (c : LruCacheMap K V)
      → IsValid c
      → Used key v c (insert key v c).0 × ((insert key v c).2 ≡ not (has_key key c.elements))
  unfolding insert
  insert-Used key v c w = elim (Bool-cases (is_found key (lower_bound key c.mapping))) [
    | inl there ↦
        let has = sym (is_found_lem key c w.linked) ∙ there in
        rw (there, or_key_found key c.mapping there) (freshen-Used key v c w has, rw has refl)
    | inr new ↦
        let lacks = sym (is_found_lem key c w.linked) ∙ new in
        rw new (
          append_new-Used key v c (make_space c (lower_bound key c.mapping)) w lacks
              (make_space-Roomy c (lower_bound key c.mapping) w),
          rw lacks refl,
        )
  ]
