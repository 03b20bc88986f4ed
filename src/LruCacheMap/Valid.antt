-- ===== src/LruCacheMap/Valid.antt =====
-- What keeps the parts of an `lru_cache_map` together, and the room that `make_space` makes.
use mathlib.Core.Path.{subst, ◌≡◌, refl, sym, ap, ◌∙◌}
use remame.Base.{
  ℕ, zero, suc, ◌≤◌, ◌<◌, true, false, leb, ◌==◌, if◌then◌else◌, Bool-cases, ==→≡, inl, inr, List,
  [], ◌∷◌, ◌++◌, Option, none, some, arith,
}
use remame.Base.Lists.{length, length-append}
use remame.LruCacheMap.Set.{Comparison, set_erase, has, is_sorted, same_refl, same→≡}
use remame.LruCacheMap.Order.{
  has-set_insert, is_sorted-set_insert, has-set_erase, is_sorted-set_erase,
}
use remame.LruCacheMap.Elements.{
  has_key, is_distinct, has_key-append, is_distinct-append, has_key-erase_at, is_distinct-erase_at,
  length-erase_at,
}
use remame.LruCacheMap.{
  LruCacheMap, value_at, erase_at, splice, freshen, is_first, erase_mapped, without_first,
  drop_first, make_space_from, make_space, append_new,
}

module _ {ℓ κ} {K : Type ℓ} {V : Type κ} ⦃o : Comparison K⦄ where
  -- The set has the keys of the elements, each of which stands once, and their number is the size.
  pub record IsLinked (c : LruCacheMap K V) : Type ℓ where
    pub sorted : is_sorted c.mapping ≡ true
    pub agree : (q : K) → has q c.mapping ≡ has_key q c.elements
    pub distinct : is_distinct c.elements ≡ true
    pub sized : c.size ≡ length c.elements

  pub record IsValid (c : LruCacheMap K V) : Type ℓ where
    pub linked : IsLinked c
    pub bounded : c.size ≤ c.max_size
    pub positive : 0 < c.max_size

  -- An element moved to the end.
  pub splice_found :
      (key : K) (xs : List (K × V)) (v : V)
      → value_at key xs ≡ some v
      → splice key xs ≡ erase_at key xs ++ ((key, v) ∷ [])
  unfolding splice
  splice_found key xs v e = rw (e, splice) refl

  moved :
      (key : K) (v : V) (c : LruCacheMap K V)
      → IsLinked c
      → has_key key c.elements ≡ true
      → IsLinked (record c { elements = erase_at key c.elements ++ ((key, v) ∷ []) })
  moved key v c l there = record {
    sorted = l.sorted;
    agree = λ q. ground (
      arith,
      l.agree q,
      has_key-append q key v (erase_at key c.elements),
      has_key-erase_at q key c.elements l.distinct,
      same→≡ key q,
    );
    distinct =
        is_distinct-append key v (erase_at key c.elements)
          (is_distinct-erase_at key c.elements l.distinct)
          (ground (arith, has_key-erase_at key key c.elements l.distinct, same_refl key));
    sized = ground (
      arith,
      l.sized,
      length-append (erase_at key c.elements) ((key, v) ∷ []),
      length-erase_at key c.elements there,
    );
  }

  pub freshen-IsLinked :
      (key : K) (c : LruCacheMap K V)
      → IsLinked c
      → has_key key c.elements ≡ true
      → IsLinked (freshen key c)
  unfolding freshen
  freshen-IsLinked key c l there = by_value (value_at key c.elements) refl
    where
      by_value :
          (w : Option V)
          → value_at key c.elements ≡ w
          → IsLinked (record c { elements = splice key c.elements })
      by_value none e = absurd (ground (arith, there, e))
      by_value (some v) e = rw (splice_found key c.elements v e) (moved key v c l there)

  -- `append_new` on a cache that has room.
  pub append_new-IsLinked :
      (key : K) (v : V) (c : LruCacheMap K V) (existing : Option K)
      → IsLinked c
      → has_key key c.elements ≡ false
      → IsLinked (append_new key v (c, existing))
  unfolding append_new
  append_new-IsLinked key v c existing l new = record {
    sorted = is_sorted-set_insert key c.mapping l.sorted;
    agree = λ q.
        ground
          (arith, l.agree q, has-set_insert q key c.mapping, has_key-append q key v c.elements);
    distinct = is_distinct-append key v c.elements l.distinct new;
    sized = ground (arith, l.sized, length-append c.elements ((key, v) ∷ []));
  }

  -- Either way of erasing the first element from the set erases its key.
  erase_mapped_lem :
      (first : K) (v : V) (xs : List (K × V)) (existing : Option K) (mapping : List K)
      → (erase_mapped ((first, v) ∷ xs) existing mapping).1 ≡ set_erase first mapping
  unfolding erase_mapped is_first
  erase_mapped_lem first v xs none mapping = refl
  erase_mapped_lem first v xs (some e) mapping = ground (arith, same→≡ first e)

  drop_first-IsLinked :
      (c : LruCacheMap K V) (existing : Option K) (first : K) (v : V) (xs : List (K × V))
      → IsLinked c
      → c.elements ≡ (first, v) ∷ xs
      → IsLinked (drop_first (c, existing)).0
  unfolding drop_first is_distinct value_at
  drop_first-IsLinked c existing first v xs l e =
      let mapping : (erase_mapped c.elements existing c.mapping).1 ≡ set_erase first c.mapping =
        ap (λ (els : List (K × V)). (erase_mapped els existing c.mapping).1) e
        ∙ erase_mapped_lem first v xs existing c.mapping in
      let rest : without_first c.elements ≡ xs = ap without_first e in
      let apart : is_distinct ((first, v) ∷ xs) ≡ true = sym (ap is_distinct e) ∙ l.distinct in
      let size : c.size ≡ suc (length xs) = l.sized ∙ ap length e in
      rw (mapping, rest)
        (record {
          sorted = is_sorted-set_erase first c.mapping l.sorted;
          agree = λ q. ground (
            arith,
            has-set_erase q first c.mapping l.sorted,
            l.agree q,
            ap (has_key q) e,
            same→≡ first q,
          );
          distinct = ground arith;
          sized = omega arith;
        })

  pub record Roomy (c r : LruCacheMap K V) : Type (ℓ ⊔ κ) where
    pub linked : IsLinked r
    pub same_max : r.max_size ≡ c.max_size
    pub room : r.size < r.max_size
    pub kept : r.elements ≡ (if c.size == c.max_size then without_first c.elements else c.elements)

  -- With a size below the largest the loop stops at once.
  make_space_from_room :
      (n : ℕ) (s : LruCacheMap K V × Option K) → n < s.0.max_size → make_space_from n s ≡ s
  unfolding make_space_from
  make_space_from_room zero s h = refl
  make_space_from_room (suc n) s h =
      let stop : leb s.0.max_size (suc n) ≡ false = ground arith in rw stop refl

  make_space_from_full :
      (n : ℕ) (s : LruCacheMap K V × Option K)
      → suc n ≡ s.0.max_size
      → make_space_from (suc n) s ≡ drop_first s
  unfolding make_space_from drop_first
  make_space_from_full n s h =
      let round : leb s.0.max_size (suc n) ≡ true = ground arith in
      rw round (make_space_from_room n (drop_first s) (omega arith))

  -- A size that is not 0 counts an element.
  nonempty :
      (n : ℕ) (xs : List (K × V))
      → suc n ≡ length xs
      → (first : K) × (v : V) × (rest : List (K × V)) × (xs ≡ (first, v) ∷ rest)
  nonempty n [] h = absurd (omega arith)
  nonempty n ((first, v) ∷ rest) h = (first, v, rest, refl)

  drop_first-Roomy :
      (n : ℕ) (c : LruCacheMap K V) (existing : Option K)
      → IsValid c
      → c.size ≡ suc n
      → c.size ≡ c.max_size
      → Roomy c (drop_first (c, existing)).0
  unfolding drop_first
  drop_first-Roomy n c existing w size full =
      let (first, v, rest, e) = nonempty n c.elements (sym size ∙ w.linked.sized) in
      let at_max : (c.size == c.max_size) ≡ true = ground arith in
      record {
        linked = drop_first-IsLinked c existing first v rest w.linked e;
        same_max = refl;
        room = omega arith;
        kept = rw at_max refl;
      }

  full-Roomy :
      (n : ℕ) (c : LruCacheMap K V) (existing : Option K)
      → IsValid c
      → c.size ≡ n
      → c.size ≡ c.max_size
      → Roomy c (make_space_from c.size (c, existing)).0
  full-Roomy zero c existing w size full = absurd (omega (arith, w.positive))
  full-Roomy (suc n) c existing w size full =
      let round =
        ap (λ (m : ℕ). make_space_from m (c, existing)) size
        ∙ make_space_from_full n (c, existing) (omega arith) in
      subst (λ (r : LruCacheMap K V × Option K). Roomy c r.0) (sym round)
        (drop_first-Roomy n c existing w size full)

  pub make_space-Roomy :
      (c : LruCacheMap K V) (existing : Option K) → IsValid c → Roomy c (make_space c existing).0
  unfolding make_space
  make_space-Roomy c existing w = elim (Bool-cases (c.size == c.max_size)) [
    | inr less ↦
        let same = make_space_from_room c.size (c, existing) (ground (arith, w.bounded)) in
        rw same (record {
          linked = w.linked;
          same_max = refl;
          room = ground (arith, w.bounded);
          kept = rw less refl;
        })
    | inl full ↦ full-Roomy c.size c existing w refl (==→≡ c.size c.max_size full)
  ]
