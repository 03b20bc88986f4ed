-- ===== src/AddressTable/Range.antt =====
-- `populate_range` against its contract: the addresses of the range are served by the handler, and
-- every other address as before.
use remame.Base.{
  ℕ, ◌+◌, ◌-◌, ◌*◌, ◌/◌, ◌%◌, ◌^◌, ◌≤◌, ◌<◌, ◌≡◌, inl, inr, arith, ltb, ◌==◌, false, Bool-cases,
}
use native.Mathlib.Nat.{mod-lt}
use remame.Base.Result
use remame.Base.Result.{Returns, returns, ◌>>=◌}
use remame.AddressTable.{AddressTable, subtable_base}
use remame.AddressTable.Populate.{populate_rest, populate_range}
use remame.AddressTable.Core.{core, l1_size, l2_size, size_large, IsSound}
use remame.AddressTable.Uses.{Exhausted}
use remame.AddressTable.Merge.{nowhere}
use remame.AddressTable.Given.{Given, Given-none, Given-next, Given-previous}
use remame.AddressTable.Fill.{fill_open-Given}
use remame.AddressTable.Middle.{populate_middle-Given}

-- What is left from level 1 entry `first` on, up to entry `l2stop` of `l1stop`.
populate_rest-Given :
    (first l1stop l2stop handler : ℕ) (t : AddressTable)
    → IsSound nowhere (core t)
    → first ≤ l1stop
    → l1stop < l1_size
    → l2stop < l2_size
    → handler < subtable_base
    → Returns
        (λ t'. Given (core t) (first * l2_size) (l1stop * l2_size + l2stop + 1) handler (core t'))
        Exhausted
        (populate_rest first l1stop l2stop handler t)
unfolding populate_rest
populate_rest-Given first l1stop l2stop handler t s order h1 h2 plain =
    rw (size_large t.large s.is_large) (elim (Bool-cases (l2stop == l2_size - 1)) [
      | inl whole ↦
          let ends : l1stop * l2_size + l2stop + 1 ≡ (l1stop + 1) * l2_size = ground arith in
          rw (whole, ends) (populate_middle-Given first l1stop handler t s order h1 plain)
      | inr edge ↦ rw edge (
          Result.bind (fill_open-Given l1stop 0 l2stop handler t s h1 (omega arith) h2 plain)
            λ t1 g1. elim (Bool-cases (first == l1stop)) [
              | inl same ↦
                  let starts : first * l2_size ≡ l1stop * l2_size + 0 = ground arith in
                  rw (same, starts) (returns g1)
              | inr before ↦
                  let some_left : (l1stop == 0) ≡ false = ground arith in
                  rw (before, some_left)
                    (Result.weaken
                      (populate_middle-Given first (l1stop - 1) handler t1 g1.sound (ground arith)
                        (omega arith) plain)
                      λ t2 g2.
                        let mid : (l1stop - 1 + 1) * l2_size ≡ l1stop * l2_size + 0 =
                          ground arith in
                        Given-previous (first * l2_size) (l1stop * l2_size + 0)
                          (l1stop * l2_size + l2stop + 1) handler (omega arith) (omega arith) g1
                          (rw mid at g2))
            ])
    ])

pub populate_range-Given :
    (addrstart addrend handler : ℕ) (t : AddressTable)
    → IsSound nowhere (core t)
    → addrend < 2 ^ 32
    → handler < subtable_base
    → Returns
        (λ t'. Given (core t) addrstart (addrend + 1) handler (core t'))
        Exhausted
        (populate_range addrstart addrend handler t)
unfolding populate_range
populate_range-Given s e handler t sound h plain =
    let l1start = s / l2_size in
    let l2start = s % l2_size in
    let l1stop = e / l2_size in
    let l2stop = e % l2_size in
    let small1 : l2start < l2_size = mod-lt s (omega arith) in
    let small2 : l2stop < l2_size = mod-lt e (omega arith) in
    let start : l1start * l2_size + l2start ≡ s = omega arith in
    let stop : l1stop * l2_size + l2stop + 1 ≡ e + 1 = omega arith in
    rw (size_large t.large sound.is_large) (elim (Bool-cases (ltb e s)) [
      | inl empty ↦ rw empty (returns (Given-none (core t) s (e + 1) handler (ground arith) sound))
      | inr order ↦ elim (Bool-cases (l2start == 0)) [
        | inl aligned ↦
            let starts : l1start * l2_size ≡ s = ground arith in
            rw (order, aligned)
              (rw (starts, stop) at
                (populate_rest-Given l1start l1stop l2stop handler t sound (ground arith)
                  (omega arith) small2 plain))
        | inr leading ↦ elim (Bool-cases (l1start == l1stop)) [
          | inl single ↦
              let ends : l1start * l2_size + l2stop + 1 ≡ e + 1 = ground arith in
              rw (order, leading, single)
                (rw (start, ends) at
                  (fill_open-Given l1start l2start l2stop handler t sound (ground arith)
                    (ground arith) small2 plain))
          | inr several ↦
              let no_wrap : (l1start == 2 ^ 32 - 1) ≡ false = ground arith in
              rw (order, leading, several, no_wrap)
                (Result.bind
                  (fill_open-Given l1start l2start (l2_size - 1) handler t sound (ground arith)
                    (omega arith) (omega arith) plain)
                  λ t1 g1.
                    Result.weaken
                      (populate_rest-Given (l1start + 1) l1stop l2stop handler t1 g1.sound
                        (ground arith) (omega arith) small2 plain)
                      λ t2 g2.
                        let mid : l1start * l2_size + (l2_size - 1) + 1 ≡ (l1start + 1) * l2_size =
                          omega arith in
                        Given-next s ((l1start + 1) * l2_size) (e + 1) handler (omega arith)
                          (ground arith) (rw (start, mid) at g1) (rw stop at g2))
        ]
      ]
    ])
