-- ===== src/Base/Bits.antt =====
-- The binary digits of native numbers.
use Prim.Native.Nat.{
  ℕ, zero, suc, ◌+◌, ◌-◌, ◌*◌, ◌/◌, ◌%◌, ◌^◌, ◌≤◌, ◌<◌, min, digits, bit_and, bit_and-bitwise,
  bit_or, bit_or-bitwise,
}
use mathlib.Core.Path.{◌≡◌, refl, sym, ap, ◌∙◌}
use native.Mathlib.Nat.{
  two-pow-succ, one-le-pow, mod-add-div, add-mul, mod-lt, add-mul-mod_self_left, mod-eq_of_lt,
  zero-mod,
}
use native.Mathlib.Omega.{arith}

digits_le : (n a b : ℕ) → digits (λ b. zero) min n a b ≤ b
digits_le zero a b = omega arith
digits_le (suc n) zero b = omega arith
digits_le (suc n) (suc a) b = let half = digits_le n (suc a / 2) (b / 2) in omega (arith, half)

-- A number masked is no more than the mask.
pub bit_and_le : (a b : ℕ) → bit_and a b ≤ b
bit_and_le a b = rw (bit_and-bitwise a b) (digits_le a a b)

digits_split :
    (w n a b c : ℕ)
    → a ≤ n
    → a < 2 ^ w
    → b + c + 1 ≡ 2 ^ w
    → digits (λ b. zero) min n a b + digits (λ b. zero) min n a c ≡ a
digits_split w zero a b c fuel h e = omega arith
digits_split w (suc n) zero b c fuel h e = refl
digits_split zero (suc n) (suc a) b c fuel h e = absurd (omega arith)
digits_split (suc w) (suc n) (suc a) b c fuel h e =
    let twice = two-pow-succ w in
    let rest =
      digits_split w n (suc a / 2) (b / 2) (c / 2) (omega arith) (omega (arith, twice))
        (omega (arith, twice)) in
    omega (arith, rest, twice)

-- The bits in a mask and those out of it make up a number.
pub bit_and_complement :
    (a b c : ℕ) → a < 2 ^ 32 → b + c + 1 ≡ 2 ^ 32 → bit_and a b + bit_and a c ≡ a
bit_and_complement a b c h e =
    rw (bit_and-bitwise a b, bit_and-bitwise a c) (digits_split 32 a a b c (omega arith) h e)

pub bit_or_zero : (b : ℕ) → bit_or 0 b ≡ b
bit_or_zero b = rw (bit_or-bitwise 0 b) refl

-- A remainder by twice a number, from half the dividend.
mod_double : (a p : ℕ) → 0 < p → a % (p + p) ≡ (a / 2) % p * 2 + a % 2
mod_double a p h =
    let r = (a / 2) % p in
    let q = a / 2 / p in
    let split : r + p * q ≡ a / 2 = mod-add-div (a / 2) p in
    let twice : (p + p) * q ≡ p * q + p * q = add-mul p p q in
    let whole : a ≡ r * 2 + a % 2 + (p + p) * q = omega (arith, split, twice) in
    let small : r * 2 + a % 2 < p + p = omega (arith, mod-lt (a / 2) h) in
    ap (λ (n : ℕ). n % (p + p)) whole
    ∙ add-mul-mod_self_left (r * 2 + a % 2) (p + p) q
    ∙ mod-eq_of_lt small

min_one : (x : ℕ) → x < 2 → min x 1 ≡ x
min_one zero h = refl
min_one (suc zero) h = refl
min_one (suc (suc x)) h = absurd (omega arith)

digits_low : (k n a : ℕ) → a ≤ n → digits (λ b. zero) min n a (2 ^ k - 1) ≡ a % 2 ^ k
digits_low k zero a h = let e : a ≡ 0 = omega arith in rw e (sym (zero-mod (2 ^ k)))
digits_low k (suc n) zero h = sym (zero-mod (2 ^ k))
digits_low zero (suc n) (suc a) h = omega (arith, digits_le (suc n) (suc a) 0)
digits_low (suc k) (suc n) (suc a) h =
    let pos = one-le-pow k 2 (omega arith) in
    let half : (2 ^ suc k - 1) / 2 ≡ 2 ^ k - 1 = omega (arith, two-pow-succ k, pos) in
    let odd : (2 ^ suc k - 1) % 2 ≡ 1 = omega (arith, two-pow-succ k, pos) in
    rw
      (
        half,
        odd,
        digits_low k n (suc a / 2) (omega arith),
        two-pow-succ k,
        mod_double (suc a) (2 ^ k) pos,
      )
      (omega (arith, min_one (suc a % 2) (omega arith)))

-- The lower bits of a number.
pub bit_and_low : (k a : ℕ) → bit_and a (2 ^ k - 1) ≡ a % 2 ^ k
bit_and_low k a = rw (bit_and-bitwise a (2 ^ k - 1)) (digits_low k a a (omega arith))

digits_between :
    (j k n a : ℕ)
    → a ≤ n
    → j ≤ k
    → a % 2 ^ j ≡ 0
    → digits (λ b. zero) min n a (2 ^ k - 2 ^ j) ≡ a % 2 ^ k
digits_between zero k n a h below e = digits_low k n a h
digits_between (suc j) k zero a h below e =
    let e : a ≡ 0 = omega arith in rw e (sym (zero-mod (2 ^ k)))
digits_between (suc j) k (suc n) zero h below e = sym (zero-mod (2 ^ k))
digits_between (suc j) zero (suc n) (suc a) h below e = absurd (omega arith)
digits_between (suc j) (suc k) (suc n) (suc a) h below e =
    let pos = one-le-pow k 2 (omega arith) in
    let parts = mod_double (suc a) (2 ^ j) (one-le-pow j 2 (omega arith)) in
    let e' : suc a % (2 ^ j + 2 ^ j) ≡ 0 = ap (λ (m : ℕ). suc a % m) (sym (two-pow-succ j)) ∙ e in
    let above : suc a / 2 % 2 ^ j ≡ 0 = omega (arith, parts, e') in
    let last : suc a % 2 ≡ 0 = omega (arith, parts, e') in
    let half : (2 ^ suc k - 2 ^ suc j) / 2 ≡ 2 ^ k - 2 ^ j =
      omega (arith, two-pow-succ k, two-pow-succ j) in
    let even : (2 ^ suc k - 2 ^ suc j) % 2 ≡ 0 = omega (arith, two-pow-succ k, two-pow-succ j) in
    rw
      (
        half,
        even,
        digits_between j k n (suc a / 2) (omega arith) (omega arith) above,
        two-pow-succ k,
        mod_double (suc a) (2 ^ k) pos,
      )
      (rw last refl)

-- The bits from one to another, of a number without lower ones.
pub bit_and_between : (j k a : ℕ) → j ≤ k → a % 2 ^ j ≡ 0 → bit_and a (2 ^ k - 2 ^ j) ≡ a % 2 ^ k
bit_and_between j k a below e =
    rw (bit_and-bitwise a (2 ^ k - 2 ^ j)) (digits_between j k a a (omega arith) below e)

-- The number without its lower bits.
pub bit_and_high :
    (k a : ℕ) → a < 2 ^ 32 → 2 ^ k ≤ 2 ^ 32 → bit_and a (2 ^ 32 - 1 - (2 ^ k - 1)) ≡ a - a % 2 ^ k
bit_and_high k a h small =
    let pos = one-le-pow k 2 (omega arith) in
    omega (
      arith,
      bit_and_low k a,
      bit_and_complement a (2 ^ k - 1) (2 ^ 32 - 1 - (2 ^ k - 1)) h (omega (arith, pos, small)),
    )
