-- ===== src/SpaceAccess/Partial.antt =====
-- A result of `read_direct` as it grows from its lowest bit, for little-endian spaces.
use Prim.Native.Nat.{bit_or}
use mathlib.Core.Bool.{true≢false}
use remame.Base.{
  ℕ, ◌+◌, ◌-◌, ◌*◌, ◌/◌, ◌%◌, ◌^◌, ◌≤◌, ◌<◌, ◌≡◌, ◌∙◌, sym, ap, refl, arith, Bool, true, false,
  ◌&&◌, ◌||◌, ltb, leb, ◌==◌, Bool-cases, ==→≡, lt→ltb, ltb→lt, inl, inr,
}
use remame.Base.HasBit.{
  has_bit-left, has_bit, has_bit-bit_or, has_bit-small, has_bit-mod, has_bit-div,
}
use remame.SpaceAccess.{read_left, read_right}

-- The native words from `lo` to before `hi`, as they are in a state: bit `i` of the word at an address
-- is bit `8 * address + i`. A read gives the bits that its mask asks for, and the state is kept.
pub record IsLittleMemory {ℓ} {S : Type ℓ} (read_native : ℕ → ℕ → S → ℕ × S) (bits lo hi : ℕ)
    (before : S) (cell : ℕ → Bool) : Type ℓ where
  pub narrow :
      (address mask : ℕ)
      → lo ≤ address
      → address < hi
      → (i : ℕ) → bits ≤ i
      → has_bit (read_native address mask before).0 i ≡ false
  pub given :
      (address mask : ℕ)
      → lo ≤ address
      → address < hi
      → (i : ℕ) → i < bits
      → has_bit mask i ≡ true
      → has_bit (read_native address mask before).0 i ≡ cell (8 * address + i)
  pub stays :
      (address mask : ℕ)
      → lo ≤ address
      → address < hi
      → (read_native address mask before).1 ≡ before

-- The bits below `n` are read where the mask asks for them, none is above, and the state is as before.
pub record IsPartial {ℓ} {S : Type ℓ} (before : S) (cell : ℕ → Bool) (base target_bits mask n : ℕ)
    (r : ℕ × S) : Type ℓ where
  pub below :
      (i : ℕ) → i < n → i < target_bits → has_bit mask i ≡ true → has_bit r.0 i ≡ cell (base + i)
  pub above : (i : ℕ) → n ≤ i → has_bit r.0 i ≡ false
  pub same : r.1 ≡ before

has_bit-zero : (n i : ℕ) → (n == 0) ≡ true → has_bit n i ≡ true → ⊥
has_bit-zero n i zero there = true≢false (
    sym there
    ∙ ap (λ (m : ℕ). has_bit m i) (==→≡ n 0 zero)
    ∙ has_bit-small 0 0 i (omega arith) (omega arith))

-- Bits put above, and bits taken from above.
has_bit-right :
    (result value bits offsbits i : ℕ)
    → has_bit (bit_or result ((value / 2 ^ offsbits) % 2 ^ bits)) i
      ≡ (has_bit result i || (ltb i bits && has_bit value (offsbits + i)))
has_bit-right result value bits offsbits i =
    has_bit-bit_or result ((value / 2 ^ offsbits) % 2 ^ bits) i
    ∙ ap (λ (b : Bool). has_bit result i || b)
        (has_bit-mod bits (value / 2 ^ offsbits) i
          ∙ ap (λ (b : Bool). ltb i bits && b) (has_bit-div offsbits value i))

low_or : (r t l v c : Bool) → l ≡ false → r ≡ c → (r || (t && (l && v))) ≡ c
low_or false false l v c e h = h
low_or true t l v c e h = h
low_or false true l v c e h = rw e h

high_or : (r t l v c : Bool) → r ≡ false → t ≡ true → l ≡ true → v ≡ c → (r || (t && (l && v))) ≡ c
high_or r t l v c e e' e'' h = rw (e, e', e'') h

nothing_or : (r t l v : Bool) → r ≡ false → v ≡ false → (r || (t && (l && v))) ≡ false
nothing_or r false l v e e' = rw e refl
nothing_or r true false v e e' = rw e refl
nothing_or r true true v e e' = rw (e, e') refl

module _ {ℓ} {S : Type ℓ} (read_native : ℕ → ℕ → S → ℕ × S) (bits lo hi : ℕ) (before : S)
    (cell : ℕ → Bool) (memory : IsLittleMemory read_native bits lo hi before cell)
    (base target_bits mask : ℕ) where
  -- The next bits, from the word after those read.
  pub read_left-IsPartial :
      (address curmask n result : ℕ)
      → lo ≤ address
      → address < hi
      → 8 * address ≡ base + n
      → ((i : ℕ) → i < bits → n + i < target_bits → has_bit curmask i ≡ has_bit mask (n + i))
      → IsPartial before cell base target_bits mask n (result, before)
      → IsPartial before cell base target_bits mask
          (n + bits)
          (read_left read_native target_bits address curmask n (result, before))
  unfolding read_left
  read_left-IsPartial address curmask n result from until place masks p =
      elim (Bool-cases (curmask == 0)) [
        | inl zero ↦ rw zero (record {
          below = λ i h h' asked. elim (Bool-cases (ltb i n)) [
            | inl low ↦ p.below i (ltb→lt i n low) h' asked
            | inr high ↦
                absurd
                  (has_bit-zero curmask (i - n) zero (asks i (ground (arith, high)) h h' asked))
          ];
          above = λ i h. p.above i (omega arith);
          same = refl;
        })
        | inr some ↦ rw some (record {
          below = below;
          above = above;
          same = memory.stays address curmask from until;
        })
      ]
    where
      asks :
          (i : ℕ)
          → n ≤ i
          → i < n + bits
          → i < target_bits
          → has_bit mask i ≡ true
          → has_bit curmask (i - n) ≡ true
      asks i high h h' asked =
          let back : n + (i - n) ≡ i = omega arith in
          masks (i - n) (omega arith) (omega arith) ∙ ap (has_bit mask) back ∙ asked

      below :
          (i : ℕ)
          → i < n + bits
          → i < target_bits
          → has_bit mask i ≡ true
          → has_bit
              (bit_or result (((read_native address curmask before).0 * 2 ^ n) % 2 ^ target_bits))
              i
            ≡ cell (base + i)
      below i h h' asked =
          has_bit-left result (read_native address curmask before).0 target_bits n i
          ∙ elim (Bool-cases (ltb i n)) [
            | inl low ↦
                low_or (has_bit result i) (ltb i target_bits) (leb n i)
                  (has_bit (read_native address curmask before).0 (i - n)) (cell (base + i))
                  (ground (arith, low)) (p.below i (ltb→lt i n low) h' asked)
            | inr high ↦
                let there : n ≤ i = ground (arith, high) in
                let back : 8 * address + (i - n) ≡ base + i = omega (arith, place, there) in
                high_or (has_bit result i) (ltb i target_bits) (leb n i)
                  (has_bit (read_native address curmask before).0 (i - n)) (cell (base + i))
                  (p.above i there) (lt→ltb i target_bits h') (ground (arith, there))
                  (memory.given address curmask from until (i - n) (omega (arith, there))
                      (asks i there h h' asked)
                    ∙ ap cell back)
          ]

      above :
          (i : ℕ)
          → n + bits ≤ i
          → has_bit
              (bit_or result (((read_native address curmask before).0 * 2 ^ n) % 2 ^ target_bits))
              i
            ≡ false
      above i h =
          has_bit-left result (read_native address curmask before).0 target_bits n i
          ∙ nothing_or (has_bit result i) (ltb i target_bits) (leb n i)
              (has_bit (read_native address curmask before).0 (i - n)) (p.above i (omega arith))
              (memory.narrow address curmask from until (i - n) (omega arith))

  -- The first bits, from the word with the first address.
  pub read_right-IsPartial :
      (address curmask offsbits : ℕ)
      → lo ≤ address
      → address < hi
      → 8 * address + offsbits ≡ base
      → ((i : ℕ)
          → offsbits + i < bits
          → i < target_bits
          → has_bit curmask (offsbits + i) ≡ has_bit mask i)
      → IsPartial before cell base target_bits mask
          (bits - offsbits)
          (read_right read_native target_bits address curmask offsbits (0, before))
  unfolding read_right
  read_right-IsPartial address curmask offsbits from until place masks =
      elim (Bool-cases (curmask == 0)) [
        | inl zero ↦ rw zero (record {
          below = λ i h h' asked.
              absurd (has_bit-zero curmask (offsbits + i) zero (masks i (omega arith) h' ∙ asked));
          above = λ i h. has_bit-small 0 0 i (omega arith) (omega arith);
          same = refl;
        })
        | inr some ↦ rw some (record {
          below = below;
          above = above;
          same = memory.stays address curmask from until;
        })
      ]
    where
      below :
          (i : ℕ)
          → i < bits - offsbits
          → i < target_bits
          → has_bit mask i ≡ true
          → has_bit
              (bit_or 0 (((read_native address curmask before).0 / 2 ^ offsbits) % 2 ^ target_bits))
              i
            ≡ cell (base + i)
      below i h h' asked =
          let back : 8 * address + (offsbits + i) ≡ base + i = omega (arith, place) in
          has_bit-right 0 (read_native address curmask before).0 target_bits offsbits i
          ∙ high_or (has_bit 0 i) (ltb i target_bits) true
              (has_bit (read_native address curmask before).0 (offsbits + i)) (cell (base + i))
              (has_bit-small 0 0 i (omega arith) (omega arith)) (lt→ltb i target_bits h') refl
              (memory.given address curmask from until (offsbits + i) (omega arith)
                  (masks i (omega arith) h' ∙ asked)
                ∙ ap cell back)

      above :
          (i : ℕ)
          → bits - offsbits ≤ i
          → has_bit
              (bit_or 0 (((read_native address curmask before).0 / 2 ^ offsbits) % 2 ^ target_bits))
              i
            ≡ false
      above i h =
          has_bit-right 0 (read_native address curmask before).0 target_bits offsbits i
          ∙ nothing_or (has_bit 0 i) (ltb i target_bits) true
              (has_bit (read_native address curmask before).0 (offsbits + i))
              (has_bit-small 0 0 i (omega arith) (omega arith))
              (memory.narrow address curmask from until (offsbits + i) (omega arith))
