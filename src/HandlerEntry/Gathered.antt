-- ===== src/HandlerEntry/Gathered.antt =====
-- What a stub reads, bit by bit.
use Prim.Native.Nat.{bit_and}
use mathlib.Core.Bool.{true≢false}
use remame.Base.{
  ℕ, zero, suc, ◌+◌, ◌-◌, ◌/◌, ◌%◌, ◌^◌, ◌≤◌, ◌<◌, ◌≡◌, ◌≢◌, ◌∙◌, sym, ap, refl, arith, Bool, true,
  false, ◌&&◌, ◌||◌, ltb, leb, ◌==◌, Bool-cases, ==→≡, lt→ltb, inl, inr,
}
use remame.Base.HasBit.{
  has_bit, has_bit-left, has_bit-small, has_bit-mod, has_bit-div, has_bit-bit_and,
}
use remame.HandlerEntry.{SubunitInfo, HandlerEntry}
use remame.HandlerEntry.Stubs.{subunit_address, read_unit, read_units, read_stub}

-- The bits of a wide access that belong to a unit.
abbrev pub in_lane : SubunitInfo → ℕ → Bool
in_lane info b = leb info.shift b && ltb b (info.shift + info.size)

-- Delegates whose values fit the size of their units, and have the bits that are asked for, whatever the
-- state: bit `j` at an address of subunit `index` is `cell index address j`.
pub record IsSource {ℓ} {S : Type ℓ} (read : ℕ → ℕ → ℕ → S → ℕ × S) (infos : ℕ → SubunitInfo)
    (cell : ℕ → ℕ → ℕ → Bool) : Type ℓ where
  pub narrow :
      (index address mask : ℕ) (s : S) → (read index address mask s).0 < 2 ^ (infos index).size
  pub given :
      (index address mask : ℕ) (s : S) (j : ℕ)
      → has_bit mask j ≡ true
      → has_bit (read index address mask s).0 j ≡ cell index address j

and_none : (b : Bool) → (b && false) ≡ false
and_none true = refl
and_none false = refl

no_lane_or : (r t l v : Bool) → (l && v) ≡ false → (r || (t && (l && v))) ≡ r
no_lane_or true t l v e = refl
no_lane_or false false l v e = refl
no_lane_or false true l v e = e

lane_or : (r t l v c : Bool) → r ≡ false → t ≡ true → l ≡ true → v ≡ c → (r || (t && (l && v))) ≡ c
lane_or r t l v c e e' e'' h = rw (e, e', e'') h

module _ {ℓ} {S : Type ℓ} (read : ℕ → ℕ → ℕ → S → ℕ × S) (infos : ℕ → SubunitInfo)
    (cell : ℕ → ℕ → ℕ → Bool) (source : IsSource read infos cell) (bits offset mask b : ℕ) where
  -- A unit without the bit does not change it.
  read_unit_elsewhere :
      (index : ℕ) (r : ℕ × S)
      → in_lane (infos index) b ≡ false
      → has_bit (read_unit read bits offset mask index (infos index) r).0 b ≡ has_bit r.0 b
  unfolding read_unit
  read_unit_elsewhere index r out =
      let info = infos index in
      let value =
        (read index (subunit_address info offset) ((mask / 2 ^ info.shift) % 2 ^ info.size)
          r.1).0 in
      elim (Bool-cases (bit_and mask info.csmask == 0)) [
        | inl skipped ↦ rw skipped refl
        | inr taken ↦ rw taken (
            has_bit-left r.0 value bits info.shift b
            ∙ no_lane_or (has_bit r.0 b) (ltb b bits) (leb info.shift b)
                (has_bit value (b - info.shift))
                (elim (Bool-cases (leb info.shift b)) [
                  | inr before ↦ rw before refl
                  | inl from ↦ rw from (
                      has_bit-small info.size value (b - info.shift) (source.narrow index _ _ r.1)
                        (ground (arith, out, from)))
                ]))
      ]

  -- The unit with the bit gives it.
  read_unit_here :
      (index : ℕ) (r : ℕ × S)
      → in_lane (infos index) b ≡ true
      → b < bits
      → has_bit mask b ≡ true
      → has_bit (infos index).csmask b ≡ true
      → has_bit r.0 b ≡ false
      → has_bit (read_unit read bits offset mask index (infos index) r).0 b
        ≡ cell index (subunit_address (infos index) offset) (b - (infos index).shift)
  unfolding read_unit
  read_unit_here index r in_it below asked selected clear =
      let info = infos index in
      let unit_mask = (mask / 2 ^ info.shift) % 2 ^ info.size in
      let value = (read index (subunit_address info offset) unit_mask r.1).0 in
      let from : leb info.shift b ≡ true = ground (arith, in_it) in
      let within : b - info.shift < info.size = ground (arith, in_it) in
      let place : info.shift + (b - info.shift) ≡ b = ground (arith, from) in
      let asks : has_bit unit_mask (b - info.shift) ≡ true =
        has_bit-mod info.size (mask / 2 ^ info.shift) (b - info.shift)
        ∙ rw (lt→ltb (b - info.shift) info.size within)
            (has_bit-div info.shift mask (b - info.shift) ∙ ap (has_bit mask) place ∙ asked) in
      elim (Bool-cases (bit_and mask info.csmask == 0)) [
        | inl skipped ↦ absurd (
            true≢false (
              sym (has_bit-bit_and mask info.csmask b ∙ rw (asked, selected) refl)
              ∙ ap (λ (n : ℕ). has_bit n b) (==→≡ (bit_and mask info.csmask) 0 skipped)
              ∙ has_bit-small 0 0 b (omega arith) (omega arith)))
        | inr taken ↦ rw taken (
            has_bit-left r.0 value bits info.shift b
            ∙ lane_or (has_bit r.0 b) (ltb b bits) (leb info.shift b)
                (has_bit value (b - info.shift))
                (cell index (subunit_address info offset) (b - info.shift)) clear
                (lt→ltb b bits below) from
                (source.given index (subunit_address info offset) unit_mask r.1 (b - info.shift)
                  asks))
      ]

  read_units_elsewhere :
      (n index : ℕ) (r : ℕ × S)
      → ((i : ℕ) → index ≤ i → i < index + n → in_lane (infos i) b ≡ false)
      → has_bit (read_units read bits offset mask index n infos r).0 b ≡ has_bit r.0 b
  unfolding read_units
  read_units_elsewhere zero index r out = refl
  read_units_elsewhere (suc n) index r out =
      read_units_elsewhere n (index + 1) _ (λ i from until. out i (omega arith) (omega arith))
      ∙ read_unit_elsewhere index r (out index (omega arith) (omega arith))

  read_units_here :
      (n index i : ℕ) (r : ℕ × S)
      → index ≤ i
      → i < index + n
      → ((i' : ℕ) → i' < index + n → i' ≢ i → in_lane (infos i') b ≡ false)
      → in_lane (infos i) b ≡ true
      → b < bits
      → has_bit mask b ≡ true
      → has_bit (infos i).csmask b ≡ true
      → has_bit r.0 b ≡ false
      → has_bit (read_units read bits offset mask index n infos r).0 b
        ≡ cell i (subunit_address (infos i) offset) (b - (infos i).shift)
  unfolding read_units
  read_units_here zero index i r from until alone in_it below asked selected clear =
      absurd (omega arith)
  read_units_here (suc n) index i r from until alone in_it below asked selected clear =
      elim (Bool-cases (i == index)) [
        | inl now ↦
            let e = ==→≡ i index now in
            read_units_elsewhere n (index + 1) _
              (λ i' from' until'. alone i' (omega arith) (λ e'. omega (arith, e, e', from')))
            ∙ rw (sym e) (read_unit_here i r in_it below asked selected clear)
        | inr later ↦
            read_units_here n (index + 1) i _ (ground (arith, later, from)) (omega (arith, until))
              (λ i' h. alone i' (omega (arith, h))) in_it below asked selected
              (read_unit_elsewhere index r
                  (alone index (omega arith) (λ e'. ground (arith, later, e')))
                ∙ clear)
      ]

-- If the values of the delegates fit the sizes of their subunits and have the bits that are
-- asked for, whatever the state, then a read through `read_stub` of `bits` bits gives, of each
-- bit that the mask asks for, that is in the lane of one subunit only, in its chip select mask
-- and not in the inverse mask, what the delegate of that subunit has at its address, in its
-- place.
pub read_stub_lem {ℓ} :
    {S : Type ℓ} (read : ℕ → ℕ → ℕ → S → ℕ × S) (cell : ℕ → ℕ → ℕ → Bool) (h : HandlerEntry)
    → IsSource read h.subunit_infos cell
    → (bits unmap offset mask i b : ℕ) (s : S) → i < h.subunits
    → in_lane (h.subunit_infos i) b ≡ true
    → ((i' : ℕ) → i' < h.subunits → i' ≢ i → in_lane (h.subunit_infos i') b ≡ false)
    → b < bits
    → has_bit mask b ≡ true
    → has_bit (h.subunit_infos i).csmask b ≡ true
    → has_bit h.invsubmask b ≡ false
    → has_bit (read_stub read bits unmap h offset mask s).0 b
      ≡ cell i (subunit_address (h.subunit_infos i) offset) (b - (h.subunit_infos i).shift)
unfolding read_stub
read_stub_lem read cell h source bits unmap offset mask i b s there in_it alone below asked selected
      inverse =
    read_units_here read h.subunit_infos cell source bits offset mask b h.subunits 0 i _
      (omega arith) (omega (arith, there)) (λ i' h'. alone i' (omega (arith, h'))) in_it below asked
      selected
      (has_bit-mod bits (bit_and unmap h.invsubmask) b
        ∙ rw (lt→ltb b bits below)
            (has_bit-bit_and unmap h.invsubmask b ∙ rw inverse (and_none (has_bit unmap b))))
