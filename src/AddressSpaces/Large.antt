-- ===== src/AddressSpaces/Large.antt =====
-- Which address spaces get a large table.
use native.Mathlib.Nat.{
  div-eq_of_lt-le, le-div_iff_mul-le, mod-eq_of_lt, pow-le-pow_right, two-pow-succ, suc-mul,
}
use remame.Base.{
  ℕ, zero, suc, ◌+◌, ◌-◌, ◌*◌, ◌/◌, ◌%◌, ◌^◌, ◌≤◌, ◌<◌, ◌≡◌, ◌↔◌, ◌⊎◌, inl, inr, ◌∙◌, ap, sym, refl,
  arith, ltb, leb,
}
use remame.Base.Int.{ℤ, -ℤ_parts, pos, negsuc, ◌-ℤ◌, ◌≤ℤ◌, ltb_ℤ}
use remame.AddressSpaces.{AddressSpaceConfig, addr2byte_end, is_large}
use remame.AddressSpaces.Units.{power_pos}

power_add : (a b : ℕ) → 2 ^ (a + b) ≡ 2 ^ a * 2 ^ b
power_add zero b = let same : 0 + b ≡ b = omega arith in rw same (omega arith)
power_add (suc a) b =
    let shifted : suc a + b ≡ suc (a + b) = omega arith in
    ap (λ (n : ℕ). 2 ^ n) shifted
    ∙ omega (arith, two-pow-succ (a + b), power_add a b, ap (λ (p : ℕ). p * 2 ^ b) (two-pow-succ a))

power_split : (a b c : ℕ) → a + b ≡ c → 2 ^ a * 2 ^ b ≡ 2 ^ c
power_split a b c e = sym (power_add a b) ∙ ap (λ (n : ℕ). 2 ^ n) e

lt_or_le : (a b : ℕ) → (a < b) ⊎ (b ≤ a)
lt_or_le a b = omega arith

-- Powers of two are in order.
power_lt_iff : (a b : ℕ) → (2 ^ a < 2 ^ b) ↔ (a < b)
power_lt_iff a b = (to, from)
  where
    monotone : (i j : ℕ) → i ≤ j → 2 ^ i ≤ 2 ^ j
    monotone i j h = pow-le-pow_right (omega arith) h

    to : 2 ^ a < 2 ^ b → a < b
    to h = elim (lt_or_le a b) [ inl lt ↦ lt | inr le ↦ absurd (omega (arith, monotone b a le)) ]

    from : a < b → 2 ^ a < 2 ^ b
    from h = omega (arith, monotone (suc a) b h, two-pow-succ a, power_pos a)

-- `0xffffffffUL >> (32 - addr_width)`.
shifted_mask : (p d : ℕ) → 0 < p → 0 < d → p * d ≡ 2 ^ 32 → 0xffffffff / d ≡ p - 1
shifted_mask zero d h pos_d e = absurd (omega arith)
shifted_mask (suc q) d h pos_d e =
    let less_one : suc q - 1 ≡ q = omega arith in
    let whole : q * d + d ≡ 2 ^ 32 = omega (arith, suc-mul q d) in
    rw less_one (div-eq_of_lt-le d (omega arith) (omega (arith, suc-mul q d)))

mask : (w : ℕ) → w ≤ 32 → 0xffffffff / 2 ^ (32 - w) ≡ 2 ^ w - 1
mask w h =
    shifted_mask (2 ^ w) (2 ^ (32 - w)) (power_pos w) (power_pos (32 - w))
      (power_split w (32 - w) 32 (omega arith))

-- The largest byte address of 2 ^ w addresses of 2 ^ k bytes, and of so many in a byte.
end_wide :
    (p d q : ℕ) → 0 < p → 0 < d → q ≤ 2 ^ 32 → p * d ≡ q → (p - 1) * d % 2 ^ 32 + (d - 1) ≡ q - 1
end_wide zero d q pos_p pos_d h e = absurd (omega arith)
end_wide (suc p) d q pos_p pos_d h e =
    let less_one : suc p - 1 ≡ p = omega arith in
    let whole : p * d + d ≡ q = omega (arith, suc-mul p d) in
    let uncut : p * d % 2 ^ 32 ≡ p * d = mod-eq_of_lt (omega arith) in
    rw less_one (omega (arith, uncut))

large_wide :
    (w k : ℕ)
    → w + suc k ≤ 32
    → leb (2 ^ 18) (addr2byte_end (negsuc k) (2 ^ w - 1)) ≡ ltb 18 (w + suc k)
unfolding addr2byte_end
large_wide w k h =
    let q = 2 ^ (w + suc k) in
    let small_enough = pow-le-pow_right {n = 2} (omega arith) h in
    let same =
      end_wide (2 ^ w) (2 ^ suc k) q (power_pos w) (power_pos (suc k)) small_enough
        (power_split w (suc k) (w + suc k) refl) in
    ground (arith, same, power_lt_iff 18 (w + suc k))

large_narrow : (w k : ℕ) → leb (2 ^ 18) (addr2byte_end (pos k) (2 ^ w - 1)) ≡ ltb (18 + k) w
unfolding addr2byte_end
large_narrow w k =
    let by_division = le-div_iff_mul-le {k = 2 ^ k} {x = 2 ^ 18} {y = 2 ^ w - 1} (power_pos k) in
    ground (arith, by_division, power_split 18 k (18 + k) (omega arith), power_lt_iff (18 + k) w)

-- If a configuration has at most 32 bits of address, and at most 32 too when the shift is taken
-- off, its space is large exactly if these, the bits of a byte address, are more than 18.
pub is_large_lem :
    (c : AddressSpaceConfig)
    → c.addr_width ≤ 32
    → pos c.addr_width -ℤ c.addr_shift ≤ℤ pos 32
    → is_large c ≡ ltb_ℤ (pos 18) (pos c.addr_width -ℤ c.addr_shift)
unfolding is_large
is_large_lem c h bits = rw (mask c.addr_width h) (by_shift c.addr_width c.addr_shift bits)
  where
    by_shift :
        (w : ℕ) (shift : ℤ)
        → pos w -ℤ shift ≤ℤ pos 32
        → leb (2 ^ 18) (addr2byte_end shift (2 ^ w - 1)) ≡ ltb_ℤ (pos 18) (pos w -ℤ shift)
    by_shift w (pos k) bits = large_narrow w k ∙ ground (arith, -ℤ_parts (pos w) (pos k))
    by_shift w (negsuc k) bits =
        large_wide w k (omega (arith, -ℤ_parts (pos w) (negsuc k)))
        ∙ ground (arith, -ℤ_parts (pos w) (negsuc k))
