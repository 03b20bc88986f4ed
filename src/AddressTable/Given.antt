-- ===== src/AddressTable/Given.antt =====
-- What `populate_range` promises of its steps: a range of addresses is given to one handler.
use remame.Base.{ℕ, ◌+◌, ◌*◌, ◌≤◌, ◌<◌, ◌≡◌, arith, leb, ltb, ◌&&◌, if◌then◌else◌}
use remame.AddressTable.Core.{Core, l1_size, l2_size, cell, IsSound}
use remame.AddressTable.Merge.{nowhere}

-- `c'` is in order, and serves the addresses from `from` to before `to` by `handler`, the others
-- as `c` does.
pub record Given (c : Core) (from to handler : ℕ) (c' : Core) : Type 0 where
  pub sound : IsSound nowhere c'
  pub cells :
      (i k : ℕ)
      → i < l1_size
      → k < l2_size
      → cell c' i k
        ≡ (if leb from (i * l2_size + k) && ltb (i * l2_size + k) to then handler else cell c i k)

-- Nothing is given.
pub Given-none :
    (c : Core) (from to handler : ℕ) → to ≤ from → IsSound nowhere c → Given c from to handler c
Given-none c from to handler none_left s = record { sound = s; cells = λ i k hi hk. ground arith }

-- A range and then the next one.
pub Given-next :
    {c c' c'' : Core} (from mid to handler : ℕ)
    → from ≤ mid
    → mid ≤ to
    → Given c from mid handler c'
    → Given c' mid to handler c''
    → Given c from to handler c''
Given-next from mid to handler low high p q = record {
  sound = q.sound;
  cells = λ i k hi hk. ground (arith, p.cells i k hi hk, q.cells i k hi hk);
}

-- A range and then the one before it.
pub Given-previous :
    {c c' c'' : Core} (from mid to handler : ℕ)
    → from ≤ mid
    → mid ≤ to
    → Given c mid to handler c'
    → Given c' from mid handler c''
    → Given c from to handler c''
Given-previous from mid to handler low high p q = record {
  sound = q.sound;
  cells = λ i k hi hk. ground (arith, p.cells i k hi hk, q.cells i k hi hk);
}
