-- ===== src/AddressTable/Fill.antt =====
-- The edges of `populate_range`: entries of an open subtable are given to a handler.
use remame.Base.{
  ℕ, ◌+◌, ◌-◌, ◌*◌, ◌≤◌, ◌<◌, ◌≡◌, inl, inr, refl, ap, ◌∙◌, sym, arith, ltb, leb, ◌==◌, ◌&&◌,
  if◌then◌else◌, Bool-cases,
}
use remame.Base.Result
use remame.Base.Result.{Returns, returns, ◌>>=◌}
use remame.AddressTable.{AddressTable, handler_ref, subtable_base, subtable_count}
use remame.AddressTable.Subtable.{fill_value}
use remame.AddressTable.Populate.{fill_open}
use remame.AddressTable.Core.{
  Core, core, used, l1_size, l2_size, sub_at, cell, count_ext, count_unique, ptr_of, IsSound,
}
use remame.AddressTable.Frame.{with_table, core-handler_ref, core-fill}
use remame.AddressTable.Uses.{Exhausted}
use remame.AddressTable.Merge.{nowhere}
use remame.AddressTable.Open.{subtable_open-Opened}
use remame.AddressTable.Given.{Given}

-- `n` entries from `from` on of the subtable that only level 1 entry `i` uses.
module _ (c : Core) (s : IsSound nowhere c) (slot i from n handler : ℕ) (hs : slot < subtable_count)
    (hi : i < l1_size) (linked : c.table i ≡ slot + subtable_base) (one : used c slot ≡ 1)
    (fits : from + n ≤ l2_size) (plain : handler < subtable_base) where
  filled : ℕ → ℕ
  filled = fill_value n (sub_at slot from) handler c.table

  entry :
      (p : ℕ)
      → filled p
        ≡ (if leb (sub_at slot from) p && ltb p (sub_at slot from + n) then handler else c.table p)
  unfolding filled fill_value
  entry p = refl

  filled-IsSound : IsSound nowhere (with_table c filled)
  filled-IsSound = record {
    is_large = s.is_large;
    counted = λ j hj.
        s.counted j hj
        ∙ ap (λ (u : ℕ). u + (if j == nowhere then 1 else 0))
            (sym (
              count_ext l1_size (j + subtable_base) c.table filled
                (λ l hl. ground (arith, entry l))));
    top = λ l hl. ground (arith, entry l, s.top l hl);
    plain = λ j k hj hk nj pos. ground (arith, entry (sub_at j k), s.plain j k hj hk nj pos);
    room = s.room;
    stepped = s.stepped;
    within = s.within;
    sized = s.sized;
  }

  -- No other level 1 entry uses the subtable.
  only : (l : ℕ) → l < l1_size → c.table l ≡ slot + subtable_base → l ≡ i
  only l hl e =
      count_unique l1_size (slot + subtable_base) c.table l i (ground (arith, s.counted slot hs)) hl
        hi e linked

  filled-Given : Given c (i * l2_size + from) (i * l2_size + from + n) handler (with_table c filled)
  unfolding cell
  filled-Given = record {
    sound = filled-IsSound;
    cells = λ l k hl hk. elim (Bool-cases (l == i)) [
      | inl here ↦ ground (arith, entry l, entry (sub_at slot k))
      | inr there ↦ elim (Bool-cases (c.table l == slot + subtable_base)) [
        | inl same ↦ absurd (ground (arith, only l hl))
        | inr apart ↦ ground (arith, entry l, entry (sub_at (c.table l - subtable_base) k))
      ]
    ];
  }

sub_at-add : (slot from : ℕ) → sub_at slot 0 + from ≡ sub_at slot from
sub_at-add slot from = omega arith

Given-from :
    {a c c' : Core} {from to handler : ℕ}
    → ((i k : ℕ) → i < l1_size → k < l2_size → cell c i k ≡ cell a i k)
    → Given c from to handler c'
    → Given a from to handler c'
Given-from {a} {c} same g = record {
  sound = g.sound;
  cells = λ i k hi hk. ground (arith, g.cells i k hi hk, same i k hi hk);
}

-- The entries `from` to `to` of level 1 entry `i` are given to the handler, and no other lookup
-- changes; or no two of the 64 subtables are equal.
pub fill_open-Given :
    (i from to handler : ℕ) (t : AddressTable)
    → IsSound nowhere (core t)
    → i < l1_size
    → from ≤ to
    → to < l2_size
    → handler < subtable_base
    → Returns
        (λ t'. Given (core t) (i * l2_size + from) (i * l2_size + to + 1) handler (core t'))
        Exhausted
        (fill_open i from to handler t)
unfolding fill_open filled
fill_open-Given i from to handler t s hi order fits plain =
    Result.bind (subtable_open-Opened i t hi s) λ r p.
      let n = to - from + 1 in
      let e = core-handler_ref handler n r.0 in
      let large = ap (λ (d : Core). d.large) e ∙ p.sound.is_large in
      let g = Given-from p.cells (
        filled-Given (core r.0) p.sound p.slot i from n handler p.in_range hi p.linked p.one
          (omega arith) plain) in
      let ends : i * l2_size + from + n ≡ i * l2_size + to + 1 = omega arith in
      let step =
        core-fill n (sub_at p.slot from) handler (handler_ref handler n r.0)
        ∙ ap (λ (d : Core). with_table d (fill_value n (sub_at p.slot from) handler d.table)) e in
      rw (p.entry, ptr_of (handler_ref handler n r.0).large p.slot large, sub_at-add p.slot from)
        (returns (rw (step, sym ends) g))
