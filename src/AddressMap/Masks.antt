-- ===== src/AddressMap/Masks.antt =====
-- The unit masks that `umask16` and `umask32` repeat over the 64 bits.
use Prim.Native.Nat.{bit_or}
use remame.Base.{
  ℕ, ◌-◌, ◌*◌, ◌%◌, ◌^◌, ◌≤◌, ◌<◌, ◌≡◌, refl, arith, Bool, false, ◌&&◌, ◌||◌, leb, Bool-cases,
  leb→le, inl, inr,
}
use remame.AddressMap.{AddressMapEntry}
use remame.Base.HasBit.{has_bit, has_bit-bit_or, has_bit-shift, has_bit-small}
use remame.AddressMap.Setters.{umask16, umask32}

-- Of the shifted copies of `w` bits, the one that has a place sets its bit.
lanes_16 :
    (bit : ℕ → Bool) (j : ℕ)
    → ((i : ℕ) → 16 ≤ i → bit i ≡ false)
    → j < 64
    → (((leb 48 j && bit (j - 48)) || (leb 32 j && bit (j - 32)))
        || (leb 16 j && bit (j - 16))
        || bit j)
      ≡ bit (j % 16)
lanes_16 bit j small h = elim (Bool-cases (leb 48 j)) [
  | inl last ↦
      let e : j % 16 ≡ j - 48 = ground arith in
      rw
        (
          e,
          last,
          small j (ground arith),
          small (j - 16) (ground arith),
          small (j - 32) (ground arith),
        )
        (ground arith)
  | inr below ↦ elim (Bool-cases (leb 32 j)) [
    | inl third ↦
        let e : j % 16 ≡ j - 32 = ground arith in
        rw (e, below, third, small j (ground arith), small (j - 16) (ground arith)) (ground arith)
    | inr below' ↦ elim (Bool-cases (leb 16 j)) [
      | inl second ↦
          let e : j % 16 ≡ j - 16 = ground arith in
          rw (e, below, below', second, small j (ground arith)) (ground arith)
      | inr first ↦ let e : j % 16 ≡ j = ground arith in rw (e, below, below', first) refl
    ]
  ]
]

lanes_32 :
    (bit : ℕ → Bool) (j : ℕ)
    → ((i : ℕ) → 32 ≤ i → bit i ≡ false)
    → j < 64
    → ((leb 32 j && bit (j - 32)) || bit j) ≡ bit (j % 32)
lanes_32 bit j small h = elim (Bool-cases (leb 32 j)) [
  | inl high ↦
      let e : j % 32 ≡ j - 32 = omega (arith, leb→le 32 j high) in
      rw (high, e, small j (leb→le 32 j high)) (ground arith)
  | inr low ↦ let e : j % 32 ≡ j = ground arith in rw (low, e) refl
]

-- For a mask of 16 bits, bit `j` of 64 of what `umask16` sets is bit `j % 16` of the mask, and
-- for one of 32 bits bit `j` of what `umask32` sets is its bit `j % 32`.
pub umask_lem :
    (m n : ℕ) (e : AddressMapEntry) (j : ℕ)
    → m < 2 ^ 16
    → n < 2 ^ 32
    → j < 64
    → (has_bit (umask16 m e).mask j ≡ has_bit m (j % 16))
      × (has_bit (umask32 n e).mask j ≡ has_bit n (j % 32))
unfolding umask16 umask32
umask_lem m n e j h h' below = (
  cc (
    has_bit-bit_or (bit_or (bit_or (m * 2 ^ 48) (m * 2 ^ 32)) (m * 2 ^ 16)) m j,
    has_bit-bit_or (bit_or (m * 2 ^ 48) (m * 2 ^ 32)) (m * 2 ^ 16) j,
    has_bit-bit_or (m * 2 ^ 48) (m * 2 ^ 32) j,
    has_bit-shift 48 m j,
    has_bit-shift 32 m j,
    has_bit-shift 16 m j,
    lanes_16 (has_bit m) j (λ i above. has_bit-small 16 m i h above) below,
  ),
  cc (
    has_bit-bit_or (n * 2 ^ 32) n j,
    has_bit-shift 32 n j,
    lanes_32 (has_bit n) j (λ i above. has_bit-small 32 n i h' above) below,
  ),
)
