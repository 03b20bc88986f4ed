-- ===== src/AddressTable/Open.antt =====
-- `subtable_open`: the level 1 entry gets a subtable that no other entry shares, and no lookup
-- changes.
use remame.Base.{
  ℕ, ◌+◌, ◌-◌, ◌*◌, ◌/◌, ◌^◌, ◌≤◌, ◌<◌, ◌≡◌, ◌⊎◌, inl, inr, refl, ap, ◌∙◌, sym, arith, ltb, ◌==◌,
  if◌then◌else◌, Bool-cases, true, false,
}
use remame.Base.Word.{u32}
use remame.Base.Result
use remame.Base.Result.{Result, ok, Returns, returns, ◌>>=◌}
use remame.AddressTable.{AddressTable, update, subtable_base, subtable_count}
use remame.AddressTable.Subtable.{
  usecount, subtable_release, fill_value, copy_entries, link_new, copy_shared, link_copy,
  open_entry, mark_dirty, subtable_open,
}
use remame.AddressTable.Core.{
  Core, core, used, l1_size, l2_size, sub_at, cell, size_large, ptr_of, ptr_large, IsSound,
  SameCells,
}
use remame.AddressTable.Frame.{with_table, core-handler_ref, core-ref_loop}
use remame.AddressTable.Sound.{Retagged, with_subtable, used-retag, IsSound-retag}
use remame.AddressTable.Uses.{Exhausted, subtable_release-Retagged}
use remame.AddressTable.Merge.{nowhere, points_used}
use remame.AddressTable.Alloc.{Allocated, subtable_alloc-Allocated}
use remame.AddressTable.Link.{
  linked-IsSound, linked_entry, linked_one, linked-SameCells, unlinked, linked_used,
}

-- Level 1 entry `i` has a subtable of its own, with every lookup as it was in `c`.
pub record Opened (c : Core) (i : ℕ) (r : AddressTable × ℕ) : Type 0 where
  pub slot : ℕ
  pub entry : r.1 ≡ slot + subtable_base
  pub in_range : slot < subtable_count
  pub linked : r.0.table i ≡ slot + subtable_base
  pub one : used (core r.0) slot ≡ 1
  pub sound : IsSound nowhere (core r.0)
  pub cells : SameCells c (core r.0)

-- What is written at the subtable, and nowhere else.
fill_value_outside :
    (p v : ℕ) (m : ℕ → ℕ) (q : ℕ) → (q < p) ⊎ (p + l2_size ≤ q) → fill_value l2_size p v m q ≡ m q
unfolding fill_value
fill_value_outside p v m q h = ground arith

fill_value_inside :
    (p v : ℕ) (m : ℕ → ℕ) (k : ℕ) → k < l2_size → fill_value l2_size p v m (p + k) ≡ v
unfolding fill_value
fill_value_inside p v m k h = ground arith

copy_entries_outside :
    (p src : ℕ) (m : ℕ → ℕ) (q : ℕ)
    → (q < p) ⊎ (p + l2_size ≤ q)
    → copy_entries l2_size p src m q ≡ m q
unfolding copy_entries
copy_entries_outside p src m q h = ground arith

copy_entries_inside :
    (p src : ℕ) (m : ℕ → ℕ) (k : ℕ)
    → k < l2_size
    → copy_entries l2_size p src m (p + k) ≡ m (src + k)
unfolding copy_entries
copy_entries_inside p src m k h = let e : p + k - p ≡ k = omega arith in ground (arith, e)

-- The checksum that `link_new` notes.
abbrev filled_checksum : ℕ → ℕ
filled_checksum v = u32 (u32 (v + v * 2 ^ 8 + v * 2 ^ 16 + v * 2 ^ 24) * (l2_size / 4))

-- The core after `link_new`.
core-link_new :
    (i v slot : ℕ) (t : AddressTable)
    → t.large ≡ true
    → Retagged slot
        (used (core t) slot)
        (with_table
          (core t)
          (update (fill_value l2_size (sub_at slot 0) v t.table) i (slot + subtable_base)))
        (core (link_new i v (slot + subtable_base) t))
unfolding link_new
core-link_new i v slot t large = record {
  tag = record (t.subtables slot) { checksum = filled_checksum v };
  uses = refl;
  result =
      rw (size_large t.large large, ptr_of t.large slot large, same_slot)
        (ap linked_core (core-handler_ref v (l2_size - 1) t));
}
  where
    same_slot : slot + subtable_base - subtable_base ≡ slot
    same_slot = omega arith

    linked_core : Core → Core
    linked_core d =
        with_subtable slot (record (d.subtables slot) { checksum = filled_checksum v })
          (with_table d
            (update (fill_value l2_size (sub_at slot 0) v d.table) i (slot + subtable_base)))

sub_at_0 : (j k : ℕ) → sub_at j 0 + k ≡ sub_at j k
sub_at_0 j k = omega arith

-- The core after `copy_shared`.
core-copy_shared :
    (e slot : ℕ) (t : AddressTable)
    → t.large ≡ true
    → core (copy_shared e (slot + subtable_base) t)
      ≡ with_table
          (core t)
          (copy_entries l2_size (sub_at slot 0) (sub_at (e - subtable_base) 0) t.table)
unfolding copy_shared
core-copy_shared e slot t large =
    rw
      (
        size_large t.large large,
        ptr_of t.large slot large,
        ptr_large t.large e 0 large (omega arith),
      )
      (ap copied_core (core-ref_loop l2_size (sub_at (e - subtable_base) 0) t))
  where
    copied_core : Core → Core
    copied_core d =
        with_table d (copy_entries l2_size (sub_at slot 0) (sub_at (e - subtable_base) 0) d.table)

-- The core after `link_copy`.
core-link_copy :
    (i e slot : ℕ) (t : AddressTable)
    → Retagged slot
        (used (core t) slot)
        (with_table (core t) (update t.table i (slot + subtable_base)))
        (core (link_copy i e (slot + subtable_base) t))
unfolding link_copy
core-link_copy i e slot t = record {
  tag = record (t.subtables slot) { checksum = (t.subtables (e - subtable_base)).checksum };
  uses = refl;
  result = rw same_slot refl;
}
  where
    same_slot : slot + subtable_base - subtable_base ≡ slot
    same_slot = omega arith

-- A new link, from what `Link` shows of it.
module _ (c : Core) (i slot : ℕ) (hi : i < l1_size) (hs : slot < subtable_count) (t : AddressTable)
    (before : SameCells c (core t)) (s : IsSound slot (core t)) (one : used (core t) slot ≡ 1) where
  linked-Opened :
      (m : ℕ → ℕ) (t' : AddressTable)
      → ((p : ℕ) → (p < sub_at slot 0) ⊎ (sub_at slot 0 + l2_size ≤ p) → m p ≡ t.table p)
      → ((k : ℕ) → k < l2_size → m (sub_at slot 0 + k) ≡ cell (core t) i k)
      → t'.table ≡ update m i (slot + subtable_base)
      → (t'.subtable_alloc ≡ t.subtable_alloc) × (t'.size ≡ t.size) × (t'.large ≡ t.large)
      → ((j : ℕ)
          → j < subtable_count
          → used (core t') j + (if t.table i == j + subtable_base then 1 else 0) ≡ used (core t) j)
      → Opened c i (t', slot + subtable_base)
  linked-Opened m t' outside contents written fixed released =
      let out : (p : ℕ) → (p < sub_at slot 0) ⊎ (sub_at slot l2_size ≤ p) → m p ≡ t.table p =
        λ p h. outside p (ground arith) in
      let inside : (k : ℕ) → k < l2_size → m (sub_at slot k) ≡ cell (core t) i k =
        λ k hk. rw (sub_at_0 slot k) at (contents k hk) in
      record {
        slot = slot;
        entry = refl;
        in_range = hs;
        linked =
            linked_entry (core t) slot s hs one m out i hi (core t') inside written fixed released;
        one = linked_one (core t) slot s hs one m out i hi (core t') inside written fixed released;
        sound =
            linked-IsSound (core t) slot s hs one m out i hi (core t') inside written fixed
              released;
        cells = λ l k hl hk.
            linked-SameCells (core t) slot s hs one m out i hi (core t') inside written fixed
              released l k hl hk
            ∙ before l k hl hk;
      }

  -- An entry without a subtable gets a new one.
  link_new-Opened :
      t.table i < subtable_base
      → Opened c i (link_new i (t.table i) (slot + subtable_base) t, slot + subtable_base)
  unfolding cell
  link_new-Opened handler =
      let r = core-link_new i (t.table i) slot t s.is_large in
      linked-Opened (fill_value l2_size (sub_at slot 0) (t.table i) t.table)
        (link_new i (t.table i) (slot + subtable_base) t)
        (fill_value_outside (sub_at slot 0) (t.table i) t.table)
        (λ k hk. ground (arith, fill_value_inside (sub_at slot 0) (t.table i) t.table k hk))
        (ap (λ (d : Core). d.table) r.result)
        (
          ap (λ (d : Core). d.alloc) r.result,
          ap (λ (d : Core). d.size) r.result,
          ap (λ (d : Core). d.large) r.result,
        )
        λ j hj.
          ground
            (arith, ap (λ (d : Core). used d j) r.result, used-retag (core t) slot r.tag j, r.uses)

  -- The lookups through the entry that is copied.
  copied : ℕ → ℕ
  copied = copy_entries l2_size (sub_at slot 0) (sub_at (t.table i - subtable_base) 0) t.table

  link_copy-Opened :
      (released : AddressTable)
      → subtable_base ≤ t.table i
      → Retagged
          (t.table i - subtable_base)
          (used (core t) (t.table i - subtable_base) - 1)
          (with_table (core t) copied)
          (core released)
      → Opened c i (link_copy i (t.table i) (slot + subtable_base) released, slot + subtable_base)
  unfolding cell copied
  link_copy-Opened released subtable q =
      let r = core-link_copy i (t.table i) slot released in
      linked-Opened copied (link_copy i (t.table i) (slot + subtable_base) released)
        (copy_entries_outside (sub_at slot 0) (sub_at (t.table i - subtable_base) 0) t.table)
        (λ k hk. ground (
          arith,
          copy_entries_inside (sub_at slot 0) (sub_at (t.table i - subtable_base) 0) t.table k hk,
          ap t.table (sub_at_0 (t.table i - subtable_base) k),
        ))
        (ap (λ (d : Core). d.table) r.result
          ∙ ap (λ (d : Core). update d.table i (slot + subtable_base)) q.result)
        (
          ap (λ (d : Core). d.alloc) r.result ∙ ap (λ (d : Core). d.alloc) q.result,
          ap (λ (d : Core). d.size) r.result ∙ ap (λ (d : Core). d.size) q.result,
          ap (λ (d : Core). d.large) r.result ∙ ap (λ (d : Core). d.large) q.result,
        )
        λ j hj. ground (
          arith,
          ap (λ (d : Core). used d j) r.result,
          used-retag (core released) slot r.tag j,
          r.uses,
          ap (λ (d : Core). used d j) q.result,
          ap (λ (d : Core). used d slot) q.result,
          used-retag (core t) (t.table i - subtable_base) q.tag j,
          used-retag (core t) (t.table i - subtable_base) q.tag slot,
          q.uses,
          unlinked (core t) slot s hs one i hi,
          linked_used (core t) slot s hs one i j hi hj,
        )

  -- The copy, the release of the old subtable and the new link.
  copy-Opened :
      subtable_base ≤ t.table i
      → Returns (Opened c i) Exhausted (
          subtable_release (t.table i) (copy_shared (t.table i) (slot + subtable_base) t)
          >>= λ released.
              ok (link_copy i (t.table i) (slot + subtable_base) released, slot + subtable_base))
  unfolding copied
  copy-Opened subtable =
      let e = core-copy_shared (t.table i) slot t s.is_large in
      let busy =
        linked_used (core t) slot s hs one i (t.table i - subtable_base) hi
          (ground (arith, s.top i hi)) (omega arith) in
      let tc = copy_shared (t.table i) (slot + subtable_base) t in
      let same = ap (λ (d : Core). used d (t.table i - subtable_base)) e in
      Result.bind (Result.tolerate (subtable_release-Retagged (t.table i) tc (rw same busy)))
        λ released q. returns (link_copy-Opened released subtable (rw (same, e) at q))

open_new :
    (i : ℕ) (t : AddressTable)
    → i < l1_size
    → t.table i < subtable_base
    → (r : AddressTable × ℕ) → Allocated (core t) r
    → Opened (core t) i (link_new i (t.table i) r.1 r.0, r.1)
open_new i t hi handler r p =
    let kept = (p.kind i hi).0 handler in
    rw (p.entry, sym kept)
      (link_new-Opened (core t) i p.slot hi p.in_range r.0 p.cells p.sound p.one (rw kept handler))

open_entry-Opened :
    (i : ℕ) (t : AddressTable)
    → i < l1_size
    → IsSound nowhere (core t)
    → Returns (Opened (core t) i) Exhausted (open_entry i t)
unfolding open_entry
open_entry-Opened i t hi s = elim (Bool-cases (ltb (t.table i) subtable_base)) [
  | inl handler ↦ rw handler (
      Result.bind (subtable_alloc-Allocated t s)
        λ r p. returns (open_new i t hi (ground arith) r p))
  | inr subtable ↦ elim (Bool-cases (ltb 1 (usecount t (t.table i - subtable_base)))) [
    | inl shared ↦
        rw (subtable, shared)
          (Result.bind (subtable_alloc-Allocated t s) λ r p. rw p.entry (
            copy-Opened (core t) i p.slot hi p.in_range r.0 p.cells p.sound p.one
              ((p.kind i hi).1 (ground arith))))
    | inr own ↦
        let busy =
          points_used (core t) s (t.table i - subtable_base) i (ground (arith, s.top i hi)) hi
            (ground arith) in
        rw (subtable, own)
          (returns (record {
            slot = t.table i - subtable_base;
            entry = ground arith;
            in_range = ground (arith, s.top i hi);
            linked = ground arith;
            one = ground arith;
            sound = s;
            cells = λ l k hl hk. refl;
          }))
  ]
]

mark_dirty-Opened :
    (c : Core) (i : ℕ) (r : AddressTable × ℕ) → Opened c i r → Opened c i (mark_dirty r.1 r.0, r.1)
unfolding mark_dirty cell
mark_dirty-Opened c i r p =
    let j = r.1 - subtable_base in
    let d = record (r.0.subtables j) { checksum_valid = false } in
    record {
      slot = p.slot;
      entry = p.entry;
      in_range = p.in_range;
      linked = p.linked;
      one = ground (arith, used-retag (core r.0) j d p.slot, p.one);
      sound = IsSound-retag j d p.sound refl;
      cells = p.cells;
    }

-- On a table in order `subtable_open` gives level 1 entry `i` a subtable that is used once, and
-- the table is in order again with every lookup as before; or no two of the 64 subtables are equal.
pub subtable_open-Opened :
    (i : ℕ) (t : AddressTable)
    → i < l1_size
    → IsSound nowhere (core t)
    → Returns (Opened (core t) i) Exhausted (subtable_open i t)
unfolding subtable_open
subtable_open-Opened i t hi s =
    Result.bind (open_entry-Opened i t hi s) λ r p. returns (mark_dirty-Opened (core t) i r p)
