-- ===== src/AddressMap/Lanes.antt =====
-- The unit mask that `import_submaps` makes of two.
use Prim.Native.Nat.{max, digits, bit_or, bit_or-bitwise}
use native.Mathlib.Nat.{two-pow-succ, one-le-pow, max-zero, add-mul-div_left, div-eq_of_lt}
use remame.Base.{
  ℕ, zero, suc, ◌+◌, ◌-◌, ◌*◌, ◌/◌, ◌%◌, ◌^◌, ◌≤◌, ◌<◌, ◌≡◌, ◌∙◌, ap, refl, arith, Bool, true,
  false, ◌&&◌, ◌==◌, if◌then◌else◌, Bool-cases, ==→≡, inl, inr,
}
use remame.Base.HasBit.{has_bit, has_bit-small, two_pow-add}
use remame.AddressMap.Import.{count_bits, merged_mask}

digits_above : (i n m : ℕ) → m ≤ n → m < 2 ^ i → digits (λ b. b) max n m (2 ^ i) ≡ m + 2 ^ i
digits_above i zero m h h' = omega arith
digits_above i (suc n) zero h h' = omega arith
digits_above zero (suc n) (suc a) h h' = absurd (omega arith)
digits_above (suc i) (suc n) (suc a) h h' =
    let twice = two-pow-succ i in
    let half : 2 ^ suc i / 2 ≡ 2 ^ i = omega (arith, twice) in
    let even : 2 ^ suc i % 2 ≡ 0 = omega (arith, twice) in
    let rest = digits_above i n (suc a / 2) (omega arith) (omega (arith, twice)) in
    rw (half, even, rest) (omega (arith, max-zero (suc a % 2), twice))

-- A bit above a number.
bit_or_above : (i m : ℕ) → m < 2 ^ i → bit_or m (2 ^ i) ≡ m + 2 ^ i
bit_or_above i m h = rw (bit_or-bitwise m (2 ^ i)) (digits_above i m m (omega arith) h)

has_bit-above : (i m : ℕ) → m < 2 ^ i → has_bit (m + 2 ^ i) i ≡ true
has_bit-above i m h =
    let whole : (m + 2 ^ i * 1) / 2 ^ i ≡ 1 =
      add-mul-div_left m 1 {y = 2 ^ i} (omega (arith, h))
      ∙ ap (λ (q : ℕ). q + 1) (div-eq_of_lt h) in
    let one : (m + 2 ^ i) / 2 ^ i ≡ 1 = ap (λ (n : ℕ). (m + n) / 2 ^ i) (omega arith) ∙ whole in
    rw one refl

has_bit-below : (j d m : ℕ) → has_bit (m + 2 ^ (j + suc d)) j ≡ has_bit m j
has_bit-below j d m =
    let twice = two-pow-succ d in
    let split : 2 ^ (j + suc d) ≡ 2 ^ j * 2 ^ suc d = two_pow-add j (suc d) in
    let whole = add-mul-div_left m (2 ^ suc d) {y = 2 ^ j} (one-le-pow j 2 (omega arith)) in
    let even : (m / 2 ^ j + 2 ^ suc d) % 2 ≡ m / 2 ^ j % 2 = omega (arith, twice) in
    rw (split, whole, even) refl

-- The rounds so far: the bits of a mask of `w` bits.
pub record IsMergedMask (outer inner w : ℕ) (s : ℕ × ℕ) : Type 0 where
  pub rank : s.1 ≡ count_bits outer w
  pub bounded : s.0 < 2 ^ w
  pub bits :
      (j : ℕ) → j < w → has_bit s.0 j ≡ (has_bit outer j && has_bit inner (count_bits outer j))

bits-step :
    (outer inner w newmask bit newmask' : ℕ)
    → IsMergedMask outer inner w (newmask, bit)
    → ((j : ℕ) → j < w → has_bit newmask' j ≡ has_bit newmask j)
    → has_bit newmask' w ≡ (has_bit outer w && has_bit inner bit)
    → (j : ℕ) → j < suc w
    → has_bit newmask' j ≡ (has_bit outer j && has_bit inner (count_bits outer j))
bits-step outer inner w newmask bit newmask' m below here j h = elim (Bool-cases (j == w)) [
  | inl same ↦ rw (==→≡ j w same) (here ∙ ap (λ (b : ℕ). has_bit outer w && has_bit inner b) m.rank)
  | inr other ↦ below j (ground arith) ∙ m.bits j (ground arith)
]

has_bit-sum :
    (w newmask j : ℕ) → newmask < 2 ^ w → j < w → has_bit (newmask + 2 ^ w) j ≡ has_bit newmask j
has_bit-sum w newmask j h below =
    ap (λ (n : ℕ). has_bit (newmask + 2 ^ n) j) (omega arith) ∙ has_bit-below j (w - j - 1) newmask

-- One round, by the two bits that it reads.
IsMergedMask-step :
    (outer inner w newmask bit : ℕ)
    → IsMergedMask outer inner w (newmask, bit)
    → (o i : Bool) → has_bit outer w ≡ o
    → has_bit inner bit ≡ i
    → IsMergedMask outer inner
        (suc w)
        (if o then (if i then bit_or newmask (2 ^ w) else newmask, bit + 1) else (newmask, bit))
unfolding count_bits
IsMergedMask-step outer inner w newmask bit m true true e e' =
    rw (bit_or_above w newmask m.bounded) (record {
      rank = rw e (ap (λ (n : ℕ). n + 1) m.rank);
      bounded = omega (arith, two-pow-succ w, m.bounded);
      bits =
          bits-step outer inner w newmask bit (newmask + 2 ^ w) m
            (λ j h. has_bit-sum w newmask j m.bounded h)
            (rw (e, e') (has_bit-above w newmask m.bounded));
    })
IsMergedMask-step outer inner w newmask bit m true false e e' = record {
  rank = rw e (ap (λ (n : ℕ). n + 1) m.rank);
  bounded = omega (arith, two-pow-succ w, m.bounded);
  bits =
      bits-step outer inner w newmask bit newmask m (λ j h. refl)
        (rw (e, e') (has_bit-small w newmask w m.bounded (omega arith)));
}
IsMergedMask-step outer inner w newmask bit m false i e e' = record {
  rank = rw e m.rank;
  bounded = omega (arith, two-pow-succ w, m.bounded);
  bits =
      bits-step outer inner w newmask bit newmask m (λ j h. refl)
        (rw e (has_bit-small w newmask w m.bounded (omega arith)));
}

-- The mask that `import_submaps` makes of two has `w` bits at most; its bit `j` is set exactly
-- if that of the outer mask is and the inner mask has the bit whose number is the count of bits
-- of the outer mask below `j`; and the rounds count the bits of the outer mask.
pub merged_mask_lem : (outer inner w : ℕ) → IsMergedMask outer inner w (merged_mask outer inner w)
unfolding merged_mask count_bits
merged_mask_lem outer inner zero = record {
  rank = refl;
  bounded = omega arith;
  bits = λ j h. absurd (omega arith);
}
merged_mask_lem outer inner (suc w) =
    let s = merged_mask outer inner w in
    IsMergedMask-step outer inner w s.0 s.1 (merged_mask_lem outer inner w) (has_bit outer w)
      (has_bit inner s.1) refl refl
