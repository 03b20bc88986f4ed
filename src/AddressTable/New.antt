-- ===== src/AddressTable/New.antt =====
-- The constructor of `address_table` leaves a table in order.
use remame.Base.{ℕ, ◌≡◌, true, refl, arith, ◌+◌}
use remame.AddressTable.{new_table, subtable_base, static_unmap}
use remame.AddressTable.Core.{core, IsSound, l1_size, count_none, cell}
use remame.AddressTable.Merge.{nowhere}

-- A new large table is in order, and every cell of it is unmapped.
pub new_table-IsSound :
    IsSound nowhere (core (new_table true))
    × ((i k : ℕ) → cell (core (new_table true)) i k ≡ static_unmap)
unfolding new_table cell
new_table-IsSound = (
  record {
    is_large = refl;
    counted = λ j hj.
        ground (
          arith,
          count_none l1_size (j + subtable_base) (λ i. static_unmap) (λ i hi. ground arith),
        );
    top = λ i hi. omega arith;
    plain = λ j k hj hk nj pos. omega arith;
    room = λ j hj h. refl;
    stepped = refl;
    within = omega arith;
    sized = refl;
  },
  λ i k. refl,
)
