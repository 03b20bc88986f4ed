-- ===== src/AddressTable/Alloc.antt =====
-- `subtable_alloc`: two rounds of its loop are enough, and no lookup changes.
use remame.Base.{
  ℕ, zero, suc, ◌+◌, ◌-◌, ◌≤◌, ◌<◌, ◌≡◌, inl, inr, refl, ap, ◌∙◌, sym, arith, leb, ltb, ◌==◌,
  if◌then◌else◌, Bool-cases, none, some, Option-cases,
}
use remame.Base.Result
use remame.Base.Result.{Fatal, Result, ok, fatal, Returns, returns, fails, ◌>>=◌}
use remame.AddressTable.{AddressTable, subtable_base, subtable_count}
use remame.AddressTable.Subtable.{
  usecount, find_unused, grow, make_room, take_unused, subtable_alloc, alloc_fuel,
}
use remame.AddressTable.Core.{
  Core, core, used, cell, count_ext, l1_size, l2_size, sub_at, size_large, IsSound, SameCells,
  SameKind,
}
use remame.AddressTable.Sound.{used-retag}
use remame.AddressTable.Uses.{Exhausted}
use remame.AddressTable.Merge.{points_used, nowhere, Merged, Merged-refl}
use remame.AddressTable.MergeLoop.{MergedFreed, subtable_merge-MergedFreed}

-- A subtable is taken into use, and the table is in order but for its missing link.
pub record Allocated (c : Core) (r : AddressTable × ℕ) : Type 0 where
  pub slot : ℕ
  pub entry : r.1 ≡ slot + subtable_base
  pub in_range : slot < subtable_count
  pub sound : IsSound slot (core r.0)
  pub one : used (core r.0) slot ≡ 1
  pub cells : SameCells c (core r.0)
  pub kind : SameKind c (core r.0)

find_unused-none :
    (n j : ℕ) (t : AddressTable)
    → find_unused n j t ≡ none
    → (l : ℕ) → j ≤ l
    → l < j + n
    → 0 < used (core t) l
unfolding find_unused
find_unused-none zero j t e l lo hi = absurd (omega arith)
find_unused-none (suc n) j t e l lo hi =
    ground (arith, find_unused-none n (j + 1) t (ground arith) l)

find_unused-some :
    (n j : ℕ) (t : AddressTable) (r : ℕ)
    → find_unused n j t ≡ some r
    → (r < j + n) × (used (core t) r ≡ 0) × ((l : ℕ) → j ≤ l → l < r → 0 < used (core t) l)
unfolding find_unused
find_unused-some zero j t r e = cc
find_unused-some (suc n) j t r e = elim (Bool-cases (usecount t j == 0)) [
  | inl idle ↦ (ground arith, ground arith, λ l lo hi. ground arith)
  | inr busy ↦
      let rest = find_unused-some n (j + 1) t r (ground arith) in
      (omega arith, rest.1, λ l lo hi. ground (arith, rest.2 l))
]

grow_below : (t : AddressTable) (p : ℕ) → p < t.size → (grow t).table p ≡ t.table p
unfolding grow
grow_below t p h = ground arith

grow-Merged :
    (t : AddressTable)
    → IsSound nowhere (core t)
    → t.subtable_alloc < subtable_count
    → Merged (core t) (core (grow t))
unfolding grow cell
grow-Merged t s room = record {
  sound = record {
    is_large = s.is_large;
    counted = λ j hj.
        s.counted j hj
        ∙ ap (λ (n : ℕ). n + (if j == nowhere then 1 else 0))
            (sym
              (count_ext l1_size (j + subtable_base) t.table (grow t).table (λ i hi. level1 i hi)));
    top = λ i hi. ground (arith, level1 i hi, s.top i hi);
    plain = λ j k hj hk nj pos. ground (arith, below j k hj hk pos, s.plain j k hj hk nj pos);
    room = λ j hj h. s.room j hj (omega arith);
    stepped = omega (arith, s.stepped);
    within = omega (arith, s.stepped);
    sized = rw (size_large t.large s.is_large);
  };
  cells = λ i k hi hk. ground (
    arith,
    level1 i hi,
    below (t.table i - subtable_base) k,
    s.top i hi,
    points_used (core t) s (t.table i - subtable_base) i,
  );
  kind = λ i hi. ground (arith, level1 i hi);
  unused = λ j hj e. e;
}
  where
    level1 : (i : ℕ) → i < l1_size → (grow t).table i ≡ t.table i
    level1 i hi = grow_below t i (omega (arith, s.sized))

    below :
        (j k : ℕ)
        → j < subtable_count
        → k < l2_size
        → 0 < used (core t) j
        → (grow t).table (sub_at j k) ≡ t.table (sub_at j k)
    below j k hj hk pos = grow_below t (sub_at j k) (ground (arith, s.sized, s.room j hj))

module _ (t : AddressTable) (j : ℕ) (s : IsSound nowhere (core t)) (hj : j < subtable_count)
    (idle : used (core t) j ≡ 0) (before : (l : ℕ) → l < j → 0 < used (core t) l) where
  -- The first subtable out of use is at most one past those allocated.
  first_le : j ≤ t.subtable_alloc
  first_le = elim (Bool-cases (ltb t.subtable_alloc j)) [
    | inl past ↦ ground (arith, before t.subtable_alloc, s.room t.subtable_alloc)
    | inr fine ↦ ground arith
  ]

  make_room-Merged :
      Merged (core t) (core (make_room j t))
      × (j < (make_room j t).subtable_alloc)
      × (used (core (make_room j t)) j ≡ 0)
  unfolding make_room grow
  make_room-Merged = elim (Bool-cases (leb t.subtable_alloc j)) [
    | inl full ↦ rw full (grow-Merged t s (ground arith), omega (arith, first_le), idle)
    | inr fine ↦ rw fine (Merged-refl (core t) s, ground arith, idle)
  ]

  take_unused-Allocated : Allocated (core t) (take_unused j t, j + subtable_base)
  unfolding take_unused cell
  take_unused-Allocated =
      let (m, inside, zero_uses) = make_room-Merged in
      let c = core (make_room j t) in
      let d = record (c.subtables j) { usecount = used c j + 1 } in
      record {
        slot = j;
        entry = refl;
        in_range = hj;
        sound = record {
          is_large = m.sound.is_large;
          counted = λ l hl. ground (arith, used-retag c j d l, m.sound.counted l);
          top = m.sound.top;
          plain = λ l k hl hk nl pos.
              m.sound.plain l k hl hk (omega arith) (ground (arith, used-retag c j d l));
          room = λ l hl a. ground (arith, used-retag c j d l, m.sound.room l);
          stepped = m.sound.stepped;
          within = m.sound.within;
          sized = m.sound.sized;
        };
        one = ground (arith, used-retag c j d j);
        cells = m.cells;
        kind = m.kind;
      }

subtable_alloc-found :
    (fuel : ℕ) (t : AddressTable) (j : ℕ)
    → IsSound nowhere (core t)
    → find_unused subtable_count 0 t ≡ some j
    → Returns (Allocated (core t)) Exhausted (subtable_alloc (suc fuel) t)
unfolding subtable_alloc
subtable_alloc-found fuel t j s e =
    let (hj, idle, before) = find_unused-some subtable_count 0 t j e in
    rw (e, subtable_alloc)
      (returns (take_unused-Allocated t j s hj idle (λ l. before l (omega arith))))

-- With a subtable out of use one round of the loop finds one.
subtable_alloc-free :
    (fuel : ℕ) (t : AddressTable) (j : ℕ)
    → IsSound nowhere (core t)
    → j < subtable_count
    → used (core t) j ≡ 0
    → Returns (Allocated (core t)) Exhausted (subtable_alloc (suc fuel) t)
subtable_alloc-free fuel t j s hj idle = elim (Option-cases (find_unused subtable_count 0 t)) [
  | inl e ↦ absurd (omega (arith, find_unused-none subtable_count 0 t e j))
  | inr (r, e) ↦ subtable_alloc-found fuel t r s e
]

Allocated-after : {a c : Core} (r : AddressTable × ℕ) → Merged a c → Allocated c r → Allocated a r
Allocated-after r m p = record {
  slot = p.slot;
  entry = p.entry;
  in_range = p.in_range;
  sound = p.sound;
  one = p.one;
  cells = λ i k hi hk. p.cells i k hi hk ∙ m.cells i k hi hk;
  kind = λ i hi. (
    λ h. ground (arith, (m.kind i hi).0 h, (p.kind i hi).0),
    λ h. (p.kind i hi).1 ((m.kind i hi).1 h),
  );
}

-- On a table in order the loop ends within two rounds, with a subtable of its own for the caller
-- and every lookup kept, or because no two of the 64 subtables are equal.
pub subtable_alloc-Allocated :
    (t : AddressTable)
    → IsSound nowhere (core t)
    → Returns (Allocated (core t)) Exhausted (subtable_alloc alloc_fuel t)
unfolding subtable_alloc
subtable_alloc-Allocated t s = elim (Option-cases (find_unused subtable_count 0 t)) [
  | inr (j, e) ↦ subtable_alloc-found 1 t j s e
  | inl e ↦
      rw (e, subtable_alloc)
        (Result.bind (Result.tolerate (subtable_merge-MergedFreed t s)) λ r done. after r done)
]
  where
    after :
        (r : AddressTable × ℕ)
        → MergedFreed (core t) r
        → Returns
            (Allocated (core t))
            Exhausted
            (if r.1 == 0 then fatal Fatal.out_of_subtables else subtable_alloc 1 r.0)
    after r (m, inl e) = rw e (fails refl)
    after r (m, inr (j, hj, idle)) = elim (Bool-cases (r.1 == 0)) [
      | inl nothing ↦ rw nothing (fails refl)
      | inr some_merged ↦
          rw some_merged
            (Result.weaken (subtable_alloc-free 0 r.0 j m.sound hj idle) λ q. Allocated-after q m)
    ]
