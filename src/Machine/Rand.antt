-- ===== src/Machine/Rand.antt =====
-- `rand` of source/core/machine.cpp.
use remame.Base.{ℕ, ◌+◌, ◌*◌, ◌-◌, ◌/◌, ◌%◌, ◌^◌, ◌<◌, ◌≡◌, arith}
use remame.Base.Word.{u32}
use remame.Machine.{Machine, rand}

-- The halves of an output swapped back, and the step of the generator undone: the inverse of
-- 1664525 by 2 ^ 32 is 4276115653.
unfoldable pub seed_before : ℕ → ℕ
seed_before out =
    let seed = out / 2 ^ 16 + out % 2 ^ 16 * 2 ^ 16 in
    (seed + (2 ^ 32 - 1013904223)) * 4276115653 % 2 ^ 32

swap-swap :
    (x : ℕ)
    → x < 2 ^ 32
    → (x / 2 ^ 16 + u32 (x * 2 ^ 16)) / 2 ^ 16 + (x / 2 ^ 16 + u32 (x * 2 ^ 16)) % 2 ^ 16 * 2 ^ 16
      ≡ x
swap-swap x h = omega arith

swap_lt : (x : ℕ) → x < 2 ^ 32 → x / 2 ^ 16 + u32 (x * 2 ^ 16) < 2 ^ 32
swap_lt x h = omega arith

step_back :
    (s : ℕ)
    → s < 2 ^ 32
    → (u32 (1664525 * s + 1013904223) + (2 ^ 32 - 1013904223)) * 4276115653 % 2 ^ 32 ≡ s
step_back s h = omega arith

-- From a 32-bit seed `rand` returns a 32-bit number that determines that seed: swapping its
-- halves and undoing the step gives the seed back, so no two seeds give one number. The new
-- seed has 32 bits.
pub seed_before-rand :
    (m : Machine)
    → m.rand_seed < 2 ^ 32
    → (seed_before (rand m).1 ≡ m.rand_seed)
      × ((rand m).1 < 2 ^ 32)
      × ((rand m).0.rand_seed < 2 ^ 32)
unfolding rand seed_before
seed_before-rand m h =
    let y = u32 (1664525 * m.rand_seed + 1013904223) in
    (rw (swap-swap y (omega arith)) (step_back m.rand_seed h), swap_lt y (omega arith), omega arith)
