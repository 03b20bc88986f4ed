-- ===== src/Base/HasBit.antt =====
-- The bits of a number, by their place, and what the operations of C do to them.
use Prim.Native.Nat.{max, min, digits, bit_or, bit_or-bitwise, bit_and, bit_and-bitwise}
use native.Mathlib.Nat.{
  two-pow-succ, zero-div, div-one, mul-add, div-div-eq-div-mul, pow-le-pow_right, div-eq_of_lt,
  add-mul-div_left, one-le-pow, mod-lt, mul_left_comm, div-add-mod',
}
use native.Mathlib.Omega.{arith}
use mathlib.Core.Path.{◌≡◌, refl, sym, ap, ◌∙◌}
use mathlib.Core.Bool.{Bool, true, false, ◌&&◌, ◌||◌}
use mathlib.Core.Logic.{inl, inr}
use Prim.Native.Nat.{ℕ, zero, suc, ◌+◌, ◌-◌, ◌*◌, ◌/◌, ◌%◌, ◌^◌, ◌≤◌, ◌<◌}
use remame.Base.Tests.{ltb, leb, ◌==◌, Bool-cases, ltb→lt}

abbrev pub has_bit : ℕ → ℕ → Bool
has_bit mask i = (mask / 2 ^ i) % 2 == 1

pub has_bit-suc : (a j : ℕ) → has_bit a (suc j) ≡ has_bit (a / 2) j
has_bit-suc a j =
    let split : 2 ^ suc j ≡ 2 * 2 ^ j = omega (arith, two-pow-succ j) in
    rw (split, sym (div-div-eq-div-mul a 2 (2 ^ j))) refl

max_bits : (d x y : ℕ) → x < 2 → y < 2 → ((d * 2 + max x y) % 2 == 1) ≡ ((x == 1) || (y == 1))
max_bits d zero y h h' = ground arith
max_bits d (suc zero) zero h h' = ground arith
max_bits d (suc zero) (suc zero) h h' = ground arith
max_bits d (suc zero) (suc (suc y)) h h' = absurd (omega arith)
max_bits d (suc (suc x)) y h h' = absurd (omega arith)

max_small : (x y : ℕ) → x < 2 → y < 2 → max x y < 2
max_small zero y h h' = omega (arith, h')
max_small (suc zero) zero h h' = omega arith
max_small (suc zero) (suc zero) h h' = omega arith
max_small (suc zero) (suc (suc y)) h h' = absurd (omega arith)
max_small (suc (suc x)) y h h' = absurd (omega arith)

has_bit-digits :
    (j n a b : ℕ) → a ≤ n → has_bit (digits (λ b. b) max n a b) j ≡ (has_bit a j || has_bit b j)
has_bit-digits j zero a b h = let e : a ≡ 0 = omega arith in rw (e, zero-div (2 ^ j)) refl
has_bit-digits j (suc n) zero b h = rw (zero-div (2 ^ j)) refl
has_bit-digits zero (suc n) (suc a) b h =
    let d = digits (λ b. b) max n (suc a / 2) (b / 2) in
    rw (div-one (d * 2 + max (suc a % 2) (b % 2)), div-one (suc a), div-one b)
      (max_bits d (suc a % 2) (b % 2) (omega arith) (omega arith))
has_bit-digits (suc j) (suc n) (suc a) b h =
    let d = digits (λ b. b) max n (suc a / 2) (b / 2) in
    let half : (d * 2 + max (suc a % 2) (b % 2)) / 2 ≡ d =
      omega (arith, max_small (suc a % 2) (b % 2) (omega arith) (omega arith)) in
    has_bit-suc (d * 2 + max (suc a % 2) (b % 2)) j
    ∙ ap (λ (m : ℕ). has_bit m j) half
    ∙ has_bit-digits j n (suc a / 2) (b / 2) (omega arith)
    ∙ cc (has_bit-suc (suc a) j, has_bit-suc b j)

-- A bit of two numbers together.
pub has_bit-bit_or : (a b j : ℕ) → has_bit (bit_or a b) j ≡ (has_bit a j || has_bit b j)
has_bit-bit_or a b j = rw (bit_or-bitwise a b) (has_bit-digits j a a b (omega arith))

doubled : (k m : ℕ) → m * 2 ^ suc k ≡ m * 2 ^ k + m * 2 ^ k
doubled k m = ap (λ (n : ℕ). m * n) (two-pow-succ k) ∙ mul-add m (2 ^ k) (2 ^ k)

pub has_bit-shift : (k m j : ℕ) → has_bit (m * 2 ^ k) j ≡ (leb k j && has_bit m (j - k))
has_bit-shift zero m j =
    let whole : m * 2 ^ 0 ≡ m = omega arith in
    let start : j - 0 ≡ j = omega arith in
    let all : leb 0 j ≡ true = ground arith in rw (whole, start, all) refl
has_bit-shift (suc k) m zero =
    let even : m * 2 ^ suc k / 1 % 2 ≡ 0 = omega (arith, doubled k m) in
    let late : leb (suc k) 0 ≡ false = ground arith in rw (even, late) refl
has_bit-shift (suc k) m (suc j) =
    let half : m * 2 ^ suc k / 2 ≡ m * 2 ^ k = omega (arith, doubled k m) in
    let start : suc j - suc k ≡ j - k = omega arith in
    let later : leb (suc k) (suc j) ≡ leb k j = ground arith in
    has_bit-suc (m * 2 ^ suc k) j
    ∙ ap (λ (n : ℕ). has_bit n j) half
    ∙ has_bit-shift k m j
    ∙ rw (start, later) refl

pub has_bit-small : (w m j : ℕ) → m < 2 ^ w → w ≤ j → has_bit m j ≡ false
has_bit-small w m j h h' =
    let above = pow-le-pow_right {n = 2} (omega arith) {i = w} {j = j} h' in
    rw (div-eq_of_lt {n = m} {m = 2 ^ j} (omega (arith, above))) refl

pub two_pow-add : (j k : ℕ) → 2 ^ (j + k) ≡ 2 ^ j * 2 ^ k
two_pow-add j zero = let e : j + 0 ≡ j = omega arith in rw e (omega arith)
two_pow-add j (suc k) =
    let e : 2 ^ (j + suc k) ≡ 2 ^ suc (j + k) = ap (λ (n : ℕ). 2 ^ n) (omega arith) in
    e
    ∙ two-pow-succ (j + k)
    ∙ ap (λ (n : ℕ). n + n) (two_pow-add j k)
    ∙ sym (mul-add (2 ^ j) (2 ^ k) (2 ^ k))
    ∙ ap (λ (n : ℕ). 2 ^ j * n) (sym (two-pow-succ k))

-- A sum of a number and of what lies above a bit.
has_bit-plus : (j d m q : ℕ) → has_bit (m + q * 2 ^ (j + suc d)) j ≡ has_bit m j
has_bit-plus j d m q =
    let split : q * 2 ^ (j + suc d) ≡ 2 ^ j * (q * 2 ^ suc d) =
      ap (λ (n : ℕ). q * n) (two_pow-add j (suc d)) ∙ mul_left_comm q (2 ^ j) (2 ^ suc d) in
    let whole = add-mul-div_left m (q * 2 ^ suc d) {y = 2 ^ j} (one-le-pow j 2 (omega arith)) in
    let even : (m / 2 ^ j + q * 2 ^ suc d) % 2 ≡ m / 2 ^ j % 2 = omega (arith, doubled d q) in
    rw (split, whole, even) refl

pub has_bit-mod : (w m i : ℕ) → has_bit (m % 2 ^ w) i ≡ (ltb i w && has_bit m i)
has_bit-mod w m i = elim (Bool-cases (ltb i w)) [
  | inl below ↦
      let place : i + suc (w - i - 1) ≡ w = omega (arith, ltb→lt i w below) in
      let split : m % 2 ^ w + m / 2 ^ w * 2 ^ w ≡ m = omega (arith, div-add-mod' m (2 ^ w)) in
      rw below (
        sym (has_bit-plus i (w - i - 1) (m % 2 ^ w) (m / 2 ^ w))
        ∙ ap (λ (k : ℕ). has_bit (m % 2 ^ w + m / 2 ^ w * 2 ^ k) i) place
        ∙ ap (λ (n : ℕ). has_bit n i) split)
  | inr above ↦ rw above (
      has_bit-small w (m % 2 ^ w) i (mod-lt m (one-le-pow w 2 (omega arith)))
        (ground (arith, above)))
]

pub has_bit-div : (k m i : ℕ) → has_bit (m / 2 ^ k) i ≡ has_bit m (k + i)
has_bit-div k m i = rw (div-div-eq-div-mul m (2 ^ k) (2 ^ i), sym (two_pow-add k i)) refl

min_bits : (d x y : ℕ) → x < 2 → y < 2 → ((d * 2 + min x y) % 2 == 1) ≡ ((x == 1) && (y == 1))
min_bits d zero y h h' = ground arith
min_bits d (suc zero) zero h h' = ground arith
min_bits d (suc zero) (suc zero) h h' = ground arith
min_bits d (suc zero) (suc (suc y)) h h' = absurd (omega arith)
min_bits d (suc (suc x)) y h h' = absurd (omega arith)

min_small : (x y : ℕ) → x < 2 → min x y < 2
min_small zero y h = omega arith
min_small (suc zero) zero h = omega arith
min_small (suc zero) (suc y) h = ground arith
min_small (suc (suc x)) y h = absurd (omega arith)

has_bit-digits_and :
    (j n a b : ℕ) → a ≤ n → has_bit (digits (λ b. zero) min n a b) j ≡ (has_bit a j && has_bit b j)
has_bit-digits_and j zero a b h = let e : a ≡ 0 = omega arith in rw (e, zero-div (2 ^ j)) refl
has_bit-digits_and j (suc n) zero b h = rw (zero-div (2 ^ j)) refl
has_bit-digits_and zero (suc n) (suc a) b h =
    let d = digits (λ b. zero) min n (suc a / 2) (b / 2) in
    rw (div-one (d * 2 + min (suc a % 2) (b % 2)), div-one (suc a), div-one b)
      (min_bits d (suc a % 2) (b % 2) (omega arith) (omega arith))
has_bit-digits_and (suc j) (suc n) (suc a) b h =
    let d = digits (λ b. zero) min n (suc a / 2) (b / 2) in
    let half : (d * 2 + min (suc a % 2) (b % 2)) / 2 ≡ d =
      omega (arith, min_small (suc a % 2) (b % 2) (omega arith)) in
    has_bit-suc (d * 2 + min (suc a % 2) (b % 2)) j
    ∙ ap (λ (m : ℕ). has_bit m j) half
    ∙ has_bit-digits_and j n (suc a / 2) (b / 2) (omega arith)
    ∙ cc (has_bit-suc (suc a) j, has_bit-suc b j)

-- A bit that two numbers have in common.
pub has_bit-bit_and : (a b j : ℕ) → has_bit (bit_and a b) j ≡ (has_bit a j && has_bit b j)
has_bit-bit_and a b j = rw (bit_and-bitwise a b) (has_bit-digits_and j a a b (omega arith))

-- A number put at a place in another, within so many bits.
pub has_bit-left :
    (result value bits offsbits i : ℕ)
    → has_bit (bit_or result ((value * 2 ^ offsbits) % 2 ^ bits)) i
      ≡ (has_bit result i || (ltb i bits && (leb offsbits i && has_bit value (i - offsbits))))
has_bit-left result value bits offsbits i =
    has_bit-bit_or result ((value * 2 ^ offsbits) % 2 ^ bits) i
    ∙ ap (λ (b : Bool). has_bit result i || b)
        (has_bit-mod bits (value * 2 ^ offsbits) i
          ∙ ap (λ (b : Bool). ltb i bits && b) (has_bit-shift offsbits value i))
