-- ===== src/LruCacheMap/Refines.antt =====
-- An `lru_cache_map` under any sequence of calls.
use mathlib.Core.Path.{◌≡◌, refl, sym, ap, ◌∙◌}
use mathlib.Core.Logic.{◌⊎◌}
use remame.Base.{
  ℕ, ◌-◌, ◌<◌, Bool, true, false, not, ◌==◌, Bool-cases, inl, inr, List, [], ◌∷◌, none, some, arith,
}
use remame.LruCacheMap.Set.{Comparison, set_find, set_erase, has, is_sorted}
use remame.LruCacheMap.Order.{has-set_erase, is_sorted-set_erase, set_find_lem}
use remame.LruCacheMap.Elements.{
  has_key, is_some, is_distinct, has_key-erase_at, is_distinct-erase_at, length-erase_at,
  has_key-write_at, is_distinct-write_at, length-write_at,
}
use remame.LruCacheMap.Valid.{IsValid, freshen-IsLinked}
use remame.LruCacheMap.{
  LruCacheMap, value_at, erase_at, write_at, splice, freshen, new_lru_cache_map, clear, insert,
  index, assign, find, at, count, erase,
}
use remame.LruCacheMap.Spec.{
  Command, do_insert, do_index, do_assign, do_find, do_at, do_count, do_erase, do_clear, used,
  touched, remember, expected, answered, call, Refined,
}
use remame.LruCacheMap.Used.{Used, no_value, index-Used, insert-Used}

module _ {ℓ κ} {K : Type ℓ} {V : Type κ} ⦃o : Comparison K⦄ where
  used-Refined :
      (key : K) (v : V) (c c' : LruCacheMap K V) (answer expected : Bool)
      → Used key v c c'
      → answer ≡ expected
      → Refined c.max_size (used c.max_size key v c.elements) (c', answer) expected
  used-Refined key v c c' answer expected u e = record {
    valid = u.valid;
    elements = u.elements;
    same_max = u.same_max;
    same_answer = e;
  }

  -- Where `m_mapping.find` ends.
  set_find-cases :
      (key : K) (c : LruCacheMap K V)
      → IsValid c
      → ((set_find key c.mapping ≡ some key) × (has_key key c.elements ≡ true))
        ⊎ ((set_find key c.mapping ≡ none) × (has_key key c.elements ≡ false))
  set_find-cases key c w = elim (Bool-cases (has_key key c.elements)) [
    | inl there ↦ inl (set_find_lem key c.mapping ∙ rw (w.linked.agree key, there) refl, there)
    | inr lacks ↦ inr (set_find_lem key c.mapping ∙ rw (w.linked.agree key, lacks) refl, lacks)
  ]

  touched_found :
      (key : K) (c : LruCacheMap K V)
      → IsValid c
      → has_key key c.elements ≡ true
      → Refined c.max_size (touched key c.elements) (freshen key c, true) true
  unfolding freshen splice touched
  touched_found key c w there = record {
    valid = record {
      linked = freshen-IsLinked key c w.linked there;
      bounded = w.bounded;
      positive = w.positive;
    };
    elements = refl;
    same_max = refl;
    same_answer = refl;
  }

  unchanged :
      (c : LruCacheMap K V) (xs : List (K × V))
      → IsValid c
      → c.elements ≡ xs
      → Refined c.max_size xs (c, false) false
  unchanged c xs w e = record { valid = w; elements = e; same_max = refl; same_answer = refl }

  touched_lacks : (key : K) (xs : List (K × V)) → has_key key xs ≡ false → touched key xs ≡ xs
  unfolding touched
  touched_lacks key xs h = rw (no_value key xs h, touched) refl

  erase_at_lacks : (key : K) (xs : List (K × V)) → has_key key xs ≡ false → erase_at key xs ≡ xs
  unfolding erase_at value_at
  erase_at_lacks key [] h = refl
  erase_at_lacks key ((k, v) ∷ xs) h = ground (arith, erase_at_lacks key xs)

  find-Refined :
      (key : K) (c : LruCacheMap K V)
      → IsValid c
      → Refined c.max_size
          (touched key c.elements)
          ((find key c).0, is_some (find key c).1)
          (has_key key c.elements)
  unfolding find
  find-Refined key c w = elim (set_find-cases key c w) [
    | inl (found, there) ↦ rw (found, find, there) (touched_found key c w there)
    | inr (missing, lacks) ↦
        rw (missing, find, lacks)
          (unchanged c (touched key c.elements) w (sym (touched_lacks key c.elements lacks)))
  ]

  at-Refined :
      (key : K) (c : LruCacheMap K V)
      → IsValid c
      → Refined c.max_size (touched key c.elements) (answered c (at key c)) (has_key key c.elements)
  unfolding at
  at-Refined key c w = elim (set_find-cases key c w) [
    | inl (found, there) ↦ rw (found, at, there) (touched_found key c w there)
    | inr (missing, lacks) ↦
        rw (missing, at, lacks)
          (unchanged c (touched key c.elements) w (sym (touched_lacks key c.elements lacks)))
  ]

  count-Refined :
      (key : K) (c : LruCacheMap K V)
      → IsValid c
      → Refined c.max_size c.elements (c, not (count key c == 0)) (has_key key c.elements)
  unfolding count
  count-Refined key c w = elim (set_find-cases key c w) [
    | inl (found, there) ↦
        rw (found, count, there)
          (record { valid = w; elements = refl; same_max = refl; same_answer = refl })
    | inr (missing, lacks) ↦ rw (missing, count, lacks) (unchanged c c.elements w refl)
  ]

  erased :
      (key : K) (c : LruCacheMap K V)
      → IsValid c
      → has_key key c.elements ≡ true
      → IsValid (record c {
        elements = erase_at key c.elements;
        mapping = set_erase key c.mapping;
        size = c.size - 1;
      })
  erased key c w there = record {
    linked = record {
      sorted = is_sorted-set_erase key c.mapping w.linked.sorted;
      agree = λ q. ground (
        arith,
        has-set_erase q key c.mapping w.linked.sorted,
        has_key-erase_at q key c.elements w.linked.distinct,
        w.linked.agree q,
      );
      distinct = is_distinct-erase_at key c.elements w.linked.distinct;
      sized = omega (arith, w.linked.sized, length-erase_at key c.elements there);
    };
    bounded = omega (arith, w.bounded);
    positive = w.positive;
  }

  erase-Refined :
      (key : K) (c : LruCacheMap K V)
      → IsValid c
      → Refined c.max_size
          (erase_at key c.elements)
          ((erase key c).0, not ((erase key c).1 == 0))
          (has_key key c.elements)
  unfolding erase
  erase-Refined key c w = elim (set_find-cases key c w) [
    | inl (found, there) ↦
        rw (found, erase, there)
          (record {
            valid = erased key c w there;
            elements = refl;
            same_max = refl;
            same_answer = refl;
          })
    | inr (missing, lacks) ↦
        rw (missing, erase, lacks)
          (unchanged c (erase_at key c.elements) w (sym (erase_at_lacks key c.elements lacks)))
  ]

  -- A write through the reference that `operator[]` returns.
  written :
      (key : K) (v : V) (c : LruCacheMap K V)
      → IsValid c
      → IsValid (record c { elements = write_at key v c.elements })
  written key v c w = record {
    linked = record {
      sorted = w.linked.sorted;
      agree = λ q. w.linked.agree q ∙ sym (has_key-write_at q key v c.elements);
      distinct = is_distinct-write_at key v c.elements ∙ w.linked.distinct;
      sized = w.linked.sized ∙ sym (length-write_at key v c.elements);
    };
    bounded = w.bounded;
    positive = w.positive;
  }

  assign-Refined :
      (initial : V) (key : K) (v : V) (c : LruCacheMap K V)
      → IsValid c
      → Refined c.max_size
          (write_at key v (used c.max_size key initial c.elements))
          (assign initial key v c, true)
          true
  unfolding assign
  assign-Refined initial key v c w =
      let (u, is_key) = index-Used key initial c w in
      rw is_key (record {
        valid = written key v (index initial key c).0 u.valid;
        elements = ap (write_at key v) u.elements;
        same_max = u.same_max;
        same_answer = refl;
      })

  pub call-Refined :
      (command : Command K V) (c : LruCacheMap K V)
      → IsValid c
      → Refined c.max_size
          (remember c.max_size command c.elements)
          (call command c)
          (expected command c.elements)
  unfolding call remember expected clear is_sorted has value_at is_distinct
  call-Refined (do_insert key v) c w =
      let (u, e) = insert-Used key v c w in used-Refined key v c (insert key v c).0 _ _ u e
  call-Refined (do_index initial key) c w =
      used-Refined key initial c (index initial key c).0 true true (index-Used key initial c w).0
        refl
  call-Refined (do_assign initial key v) c w = assign-Refined initial key v c w
  call-Refined (do_find key) c w = find-Refined key c w
  call-Refined (do_at key) c w = at-Refined key c w
  call-Refined (do_count key) c w = count-Refined key c w
  call-Refined (do_erase key) c w = erase-Refined key c w
  call-Refined do_clear c w = record {
    valid = record {
      linked = record { sorted = refl; agree = λ q. refl; distinct = refl; sized = refl };
      bounded = omega arith;
      positive = w.positive;
    };
    elements = refl;
    same_max = refl;
    same_answer = refl;
  }

  unfoldable pub run : List (Command K V) → LruCacheMap K V → LruCacheMap K V × List Bool
  run [] c = (c, [])
  run (command ∷ rest) c =
      let r = call command c in let (c', answers) = run rest r.0 in (c', r.1 ∷ answers)

  -- The same calls on the list.
  unfoldable pub replay : ℕ → List (Command K V) → List (K × V) → List (K × V) × List Bool
  replay max [] xs = (xs, [])
  replay max (command ∷ rest) xs =
      let (xs', answers) = replay max rest (remember max command xs) in
      (xs', expected command xs ∷ answers)

  run-replay-IsValid :
      (commands : List (Command K V)) (c : LruCacheMap K V)
      → IsValid c
      → IsValid (run commands c).0
        × ((run commands c).0.elements ≡ (replay c.max_size commands c.elements).0)
        × ((run commands c).1 ≡ (replay c.max_size commands c.elements).1)
  unfolding run replay
  run-replay-IsValid [] c w = (w, refl, refl)
  run-replay-IsValid (command ∷ rest) c w =
      let r = call-Refined command c w in
      let (valid, elements, answers) = run-replay-IsValid rest (call command c).0 r.valid in
      let same =
        ap (λ (max : ℕ). replay max rest (call command c).0.elements) r.same_max
        ∙ ap (replay c.max_size rest) r.elements in
      (
        valid,
        elements ∙ ap (λ (s : List (K × V) × List Bool). s.0) same,
        ap (λ (b : Bool). b ∷ (run rest (call command c).0).1) r.same_answer
            ∙ ap (λ (bs : List Bool). expected command c.elements ∷ bs)
                (answers ∙ ap (λ (s : List (K × V) × List Bool). s.1) same),
      )

  -- After any calls on a new cache of a largest size above 0, the set of the cache holds
  -- exactly the keys of its elements, which are distinct, and their number is the size, which
  -- is at most the largest. The elements are those of a list that remembers what was used last,
  -- the least recently used first, and each call answers whether its key was in that list (of
  -- insert: was not).
  pub run-replay :
      (max_size : ℕ) (commands : List (Command K V))
      → 0 < max_size
      → IsValid (run commands (new_lru_cache_map max_size)).0
        × ((run commands (new_lru_cache_map max_size)).0.elements ≡ (replay max_size commands []).0)
        × ((run commands (new_lru_cache_map max_size)).1 ≡ (replay max_size commands []).1)
  unfolding new_lru_cache_map is_sorted has value_at is_distinct
  run-replay max_size commands positive =
      run-replay-IsValid commands (new_lru_cache_map max_size) (record {
        linked = record { sorted = refl; agree = λ q. refl; distinct = refl; sized = refl };
        bounded = omega arith;
        positive = positive;
      })
