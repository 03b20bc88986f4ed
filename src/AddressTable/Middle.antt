-- ===== src/AddressTable/Middle.antt =====
-- The middle of `populate_range`: whole level 1 entries are given to a handler.
use remame.Base.{
  ℕ, zero, suc, ◌+◌, ◌-◌, ◌*◌, ◌≤◌, ◌<◌, ◌≡◌, inl, inr, ap, ◌∙◌, arith, leb, ◌==◌, if◌then◌else◌,
  Bool-cases,
}
use remame.Base.Result
use remame.Base.Result.{Returns, returns, ◌>>=◌}
use remame.AddressTable.{
  AddressTable, update, write, handler_ref, handler_unref, subtable_base, subtable_count,
}
use remame.AddressTable.Subtable.{subtable_release}
use remame.AddressTable.Populate.{fill_middle, populate_middle}
use remame.AddressTable.Core.{Core, core, used, l1_size, l2_size, sub_at, cell, IsSound}
use remame.AddressTable.Frame.{core-handler_ref, core-handler_unref}
use remame.AddressTable.Sound.{update_at, used-retag, IsSound-relink}
use remame.AddressTable.Uses.{Exhausted, subtable_release-Retagged}
use remame.AddressTable.Merge.{nowhere, points_used}
use remame.AddressTable.Given.{Given, Given-none, Given-next}

-- Level 1 entry `i` is set to a handler, after one use less of the subtable that it had.
module _ (c : Core) (s : IsSound nowhere c) (i handler : ℕ) (hi : i < l1_size)
    (plain : handler < subtable_base) (c' : Core) (written : c'.table ≡ update c.table i handler)
    (fixed : (c'.alloc ≡ c.alloc) × (c'.size ≡ c.size) × (c'.large ≡ c.large))
    (released : (j : ℕ)
      → j < subtable_count
      → used c' j + (if c.table i == j + subtable_base then 1 else 0) ≡ used c j) where
  entry : (p : ℕ) → c'.table p ≡ (if p == i then handler else c.table p)
  entry p = ap (λ (f : ℕ → ℕ). f p) written ∙ update_at c.table i handler p

  entry_sub : (j k : ℕ) → c'.table (sub_at j k) ≡ c.table (sub_at j k)
  entry_sub j k = ground (arith, entry (sub_at j k))

  replaced-Given : Given c (i * l2_size) ((i + 1) * l2_size) handler c'
  unfolding cell
  replaced-Given = record {
    sound =
        IsSound-relink c c' s i handler hi (omega arith) written fixed
          (λ j hj. ground (arith, released j hj)) (λ j hj pos. ground (arith, released j hj))
          (λ k hk h. absurd (omega arith));
    cells = λ l k hl hk. elim (Bool-cases (l == i)) [
      | inl here ↦ ground (arith, entry l)
      | inr there ↦ ground (arith, entry l, entry_sub (c.table l - subtable_base) k)
    ];
  }

-- One round of the loop.
step-Given :
    (i handler : ℕ) (t : AddressTable)
    → IsSound nowhere (core t)
    → i < l1_size
    → handler < subtable_base
    → Returns
        (λ t'. Given (core t) (i * l2_size) ((i + 1) * l2_size) handler (core (write i handler t')))
        Exhausted
        (if leb subtable_base (t.table i)
          then subtable_release (t.table i) t
          else Result.ok (handler_unref (t.table i) t))
step-Given i handler t s hi plain = elim (Bool-cases (leb subtable_base (t.table i))) [
  | inr other ↦ rw other (
      let e = core-handler_unref (t.table i) t in
      returns (
        replaced-Given (core t) s i handler hi plain
          (core (write i handler (handler_unref (t.table i) t)))
          (ap (λ (d : Core). update d.table i handler) e)
          (ap (λ (d : Core). d.alloc) e, ap (λ (d : Core). d.size) e, ap (λ (d : Core). d.large) e)
          λ j hj. ground (arith, ap (λ (d : Core). used d j) e)))
  | inl subtable ↦
      let j0 = t.table i - subtable_base in
      let busy = points_used (core t) s j0 i (ground (arith, s.top i hi)) hi (ground arith) in
      rw subtable (
        Result.weaken (Result.tolerate (subtable_release-Retagged (t.table i) t busy)) λ t' q.
          replaced-Given (core t) s i handler hi plain (core (write i handler t'))
            (ap (λ (d : Core). update d.table i handler) q.result)
            (
              ap (λ (d : Core). d.alloc) q.result,
              ap (λ (d : Core). d.size) q.result,
              ap (λ (d : Core). d.large) q.result,
            )
            λ j hj. ground (
              arith,
              ap (λ (d : Core). used d j) q.result,
              used-retag (core t) j0 q.tag j,
              q.uses,
              busy,
            ))
]

fill_middle-Given :
    (n i handler : ℕ) (t : AddressTable)
    → IsSound nowhere (core t)
    → i + n ≤ l1_size
    → handler < subtable_base
    → Returns
        (λ t'. Given (core t) (i * l2_size) ((i + n) * l2_size) handler (core t'))
        Exhausted
        (fill_middle n i handler t)
unfolding fill_middle
fill_middle-Given zero i handler t s fits plain =
    returns (Given-none (core t) (i * l2_size) ((i + 0) * l2_size) handler (omega arith) s)
fill_middle-Given (suc n) i handler t s fits plain =
    Result.bind (step-Given i handler t s (omega arith) plain) λ t1 g1.
      Result.weaken
        (fill_middle-Given n (i + 1) handler (write i handler t1) g1.sound (omega arith) plain)
        λ t2 g2.
          let ends : i + suc n ≡ i + 1 + n = omega arith in
          rw ends (
            Given-next (i * l2_size) ((i + 1) * l2_size) ((i + 1 + n) * l2_size) handler
              (omega arith) (omega arith) g1 g2)

-- Level 1 entries `first` to `last` are given to the handler.
pub populate_middle-Given :
    (first last handler : ℕ) (t : AddressTable)
    → IsSound nowhere (core t)
    → first ≤ last
    → last < l1_size
    → handler < subtable_base
    → Returns
        (λ t'. Given (core t) (first * l2_size) ((last + 1) * l2_size) handler (core t'))
        Exhausted
        (populate_middle first last handler t)
unfolding populate_middle
populate_middle-Given first last handler t s order fits plain =
    let n = last - first + 1 in
    let e = core-handler_ref handler n t in
    let ends : first + n ≡ last + 1 = omega arith in
    rw (e, ends) at
      (fill_middle-Given n first handler (handler_ref handler n t) (rw e s) (omega arith) plain)
