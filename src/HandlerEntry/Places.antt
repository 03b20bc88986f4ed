-- ===== src/HandlerEntry/Places.antt =====
-- Where the units of a mask are, and the subunit for one: what `unit_info` makes.
use native.Mathlib.Nat.{
  mul-div_cancel, mul-div-mul_right, mod-add-div, mul_comm, mul_assoc, two-pow-succ, one-le-pow,
  pow-le-pow_right,
}
use Prim.Native.Nat.{bit_and, bit_xor}
use mathlib.Core.Path.{subst}
use remame.Base.{
  ℕ, zero, suc, ◌+◌, ◌-◌, ◌*◌, ◌/◌, ◌^◌, ◌≤◌, ◌<◌, ◌≡◌, refl, sym, ◌∙◌, arith, true, false, ap, ◌%◌,
  leb, not, Bool, ◌&&◌, ltb, ◌==◌, if◌then◌else◌, inl, inr, Bool-cases,
}
use remame.HandlerEntry.{SubunitInfo, HandlerEntry}
use remame.AddressTable.Derive.{complement}
use remame.Base.Int.{pos}
use remame.Base.Bits.{bit_and_low, bit_and_high}
use remame.Base.HasBit.{has_bit, has_bit-suc, has_bit-mod, has_bit-shift, has_bit-small}
use remame.HandlerEntry.Subunits.{shift_of, Layout, has_unit, unit_info, layout}

xor_zero : (u : ℕ) → u < 8 → bit_xor u 0 ≡ u
xor_zero zero h = refl
xor_zero (suc zero) h = refl
xor_zero (suc (suc zero)) h = refl
xor_zero (suc (suc (suc zero))) h = refl
xor_zero (suc (suc (suc (suc zero)))) h = refl
xor_zero (suc (suc (suc (suc (suc zero))))) h = refl
xor_zero (suc (suc (suc (suc (suc (suc zero)))))) h = refl
xor_zero (suc (suc (suc (suc (suc (suc (suc zero))))))) h = refl
xor_zero (suc (suc (suc (suc (suc (suc (suc (suc n)))))))) h = absurd (omega arith)

xor_ones : (e u : ℕ) → e ≤ 3 → u < 2 ^ e → bit_xor u (2 ^ e - 1) ≡ 2 ^ e - 1 - u
xor_ones zero zero h h' = refl
xor_ones zero (suc u) h h' = absurd (omega arith)
xor_ones (suc zero) zero h h' = refl
xor_ones (suc zero) (suc zero) h h' = refl
xor_ones (suc zero) (suc (suc u)) h h' = absurd (omega arith)
xor_ones (suc (suc zero)) zero h h' = refl
xor_ones (suc (suc zero)) (suc zero) h h' = refl
xor_ones (suc (suc zero)) (suc (suc zero)) h h' = refl
xor_ones (suc (suc zero)) (suc (suc (suc zero))) h h' = refl
xor_ones (suc (suc zero)) (suc (suc (suc (suc u)))) h h' = absurd (omega arith)
xor_ones (suc (suc (suc zero))) zero h h' = refl
xor_ones (suc (suc (suc zero))) (suc zero) h h' = refl
xor_ones (suc (suc (suc zero))) (suc (suc zero)) h h' = refl
xor_ones (suc (suc (suc zero))) (suc (suc (suc zero))) h h' = refl
xor_ones (suc (suc (suc zero))) (suc (suc (suc (suc zero)))) h h' = refl
xor_ones (suc (suc (suc zero))) (suc (suc (suc (suc (suc zero))))) h h' = refl
xor_ones (suc (suc (suc zero))) (suc (suc (suc (suc (suc (suc zero)))))) h h' = refl
xor_ones (suc (suc (suc zero))) (suc (suc (suc (suc (suc (suc (suc zero))))))) h h' = refl
xor_ones (suc (suc (suc zero))) (suc (suc (suc (suc (suc (suc (suc (suc u)))))))) h h' =
    absurd (omega arith)
xor_ones (suc (suc (suc (suc e)))) u h h' = absurd (omega arith)

-- The place of a unit among `m` places of the data.
unfoldable pub place_of : Bool → ℕ → ℕ → ℕ
place_of is_little m unitnum = if is_little then unitnum else m - 1 - unitnum

-- Whether the mask has a bit of a place.
unfoldable pub is_set : ℕ → ℕ → ℕ → Bool
is_set handlermask handlerbits place =
    not ((handlermask / 2 ^ (place * handlerbits)) % 2 ^ handlerbits == 0)

-- How many units before one are in the mask.
unfoldable pub units_before : ℕ → ℕ → Bool → ℕ → ℕ → ℕ
units_before handlermask handlerbits is_little m zero = 0
units_before handlermask handlerbits is_little m (suc unitnum) =
    units_before handlermask handlerbits is_little m unitnum
    + (if is_set handlermask handlerbits (place_of is_little m unitnum) then 1 else 0)

-- The bits from `from` to before `until` of 64.
abbrev pub HasBits : ℕ → ℕ → ℕ → Type 0
HasBits mask from until =
    (b : ℕ) → has_bit mask b ≡ (ltb b 64 && (leb from b && ltb (b - from) (until - from)))

-- The subunit for the unit in the mask that comes after `k` others.
pub record IsSlot (handlermask handlerbits cswidth : ℕ) (is_little : Bool)
    (m bytemask multiplier k : ℕ) (info : SubunitInfo) : Type 0 where
  pub unitnum : ℕ
  pub in_range : unitnum < m
  pub is_in_mask : is_set handlermask handlerbits (place_of is_little m unitnum) ≡ true
  pub is_next : units_before handlermask handlerbits is_little m unitnum ≡ k
  pub is_shift : info.shift ≡ place_of is_little m unitnum * handlerbits
  pub is_size : info.size ≡ handlerbits
  pub is_offset : info.offset ≡ pos k
  pub is_multiplier : info.multiplier ≡ multiplier
  pub is_addrmask : info.addrmask ≡ bytemask / (m / multiplier)
  pub is_datamask : HasBits info.datamask info.shift (info.shift + handlerbits)
  -- The bits of the units that are selected together.
  pub is_csmask :
      let first = info.shift / cswidth * cswidth in HasBits info.csmask first (first + cswidth)

has_bit-ones : (w j : ℕ) → has_bit (2 ^ w - 1) j ≡ ltb j w
has_bit-ones zero j =
    let none : ltb j 0 ≡ false = ground arith in
    has_bit-small 0 (2 ^ 0 - 1) j (omega arith) (omega arith) ∙ sym none
has_bit-ones (suc w) zero = ground (arith, two-pow-succ w, one-le-pow w 2 (omega arith))
has_bit-ones (suc w) (suc j) =
    let half : (2 ^ suc w - 1) / 2 ≡ 2 ^ w - 1 = omega (arith, two-pow-succ w) in
    has_bit-suc (2 ^ suc w - 1) j
    ∙ ap (λ (n : ℕ). has_bit n j) half
    ∙ has_bit-ones w j
    ∙ ground arith

ones-HasBits : (w from : ℕ) → HasBits ((2 ^ w - 1) * 2 ^ from % 2 ^ 64) from (from + w)
ones-HasBits w from b =
    let size : from + w - from ≡ w = omega arith in
    has_bit-mod 64 ((2 ^ w - 1) * 2 ^ from) b
    ∙ rw (has_bit-shift from (2 ^ w - 1) b, has_bit-ones w (b - from), size) refl

module _ (handlermask handlerbits cswidth multiplier e g : ℕ) (h : HandlerEntry)
    (some_bits : 0 < handlerbits) (few : e ≤ 3) (selected : g ≤ 3)
    (is_width : h.datawidth ≡ 2 ^ e * handlerbits)
    (is_cswidth : cswidth ≡ 2 ^ g * handlerbits) where
  abbrev l : Layout
  l = layout handlermask handlerbits cswidth multiplier h

  abbrev m : ℕ
  m = 2 ^ e

  pub maxunits_lem : h.datawidth / handlerbits ≡ m
  maxunits_lem = ap (λ (n : ℕ). n / handlerbits) is_width ∙ mul-div_cancel m some_bits

  granularity_lem : cswidth / handlerbits ≡ 2 ^ g
  granularity_lem = ap (λ (n : ℕ). n / handlerbits) is_cswidth ∙ mul-div_cancel (2 ^ g) some_bits

  pub wide : m ≤ 8
  wide = pow-le-pow_right {n = 2} (omega arith) {i = e} {j = 3} few

  place_lem :
      (u : ℕ) → u < m → bit_xor u (if h.is_little then 0 else m - 1) ≡ place_of h.is_little m u
  unfolding place_of
  place_lem u below = elim (Bool-cases h.is_little) [
    | inl low_first ↦ rw low_first (xor_zero u (omega (arith, below, wide)))
    | inr high_first ↦ rw high_first (xor_ones e u few below)
  ]

  place_fits : (u : ℕ) → u < m → place_of h.is_little m u < m
  unfolding place_of
  place_fits u below = ground (arith, below)

  shift_lem : (u : ℕ) → u < m → shift_of l u ≡ place_of h.is_little m u * handlerbits
  shift_lem u below = rw maxunits_lem (ap (λ (n : ℕ). n * handlerbits) (place_lem u below))

  pub has_unit-is_set :
      (u : ℕ) → u < m → has_unit l u ≡ is_set handlermask handlerbits (place_of h.is_little m u)
  unfolding has_unit is_set
  has_unit-is_set u below =
      rw
        (
          shift_lem u below,
          bit_and_low handlerbits (handlermask / 2 ^ (place_of h.is_little m u * handlerbits)),
        )
        refl

  -- The first unit of those that are selected together.
  group_lem :
      (p : ℕ)
      → p < m
      → bit_and p (complement (2 ^ g - 1)) * handlerbits ≡ p * handlerbits / cswidth * cswidth
  group_lem p below =
      let small : 2 ^ g ≤ 8 = pow-le-pow_right {n = 2} (omega arith) {i = g} {j = 3} selected in
      let some_group = one-le-pow g 2 (omega arith) in
      let mask : complement (2 ^ g - 1) ≡ 2 ^ 32 - 1 - (2 ^ g - 1) = omega (arith, small) in
      let cut = bit_and_high g p (omega (arith, below, wide)) (omega (arith, small)) in
      let quotient : p * handlerbits / (2 ^ g * handlerbits) ≡ p / 2 ^ g =
        mul-div-mul_right p (2 ^ g) some_bits in
      let multiple : p / 2 ^ g * 2 ^ g ≡ p - p % 2 ^ g =
        omega (arith, mod-add-div p (2 ^ g), mul_comm (2 ^ g) (p / 2 ^ g)) in
      rw (mask, cut, is_cswidth, quotient)
        (ap (λ (n : ℕ). n * handlerbits) (sym multiple) ∙ mul_assoc (p / 2 ^ g) (2 ^ g) handlerbits)

  pub unit_info-IsSlot :
      (u k : ℕ)
      → u < m
      → has_unit l u ≡ true
      → units_before handlermask handlerbits h.is_little m u ≡ k
      → IsSlot handlermask handlerbits cswidth h.is_little m h.bytemask multiplier k
          (unit_info l h.bytemask u k)
  unfolding unit_info
  unit_info-IsSlot u k below there next =
      let place = place_of h.is_little m u in
      let first = place * handlerbits / cswidth * cswidth in
      let group =
        ap (λ (c : ℕ). bit_and (bit_xor u l.shift_xor_mask) (complement (c - 1)) * handlerbits)
          granularity_lem
        ∙ ap
            (λ (x : ℕ).
              bit_and (bit_xor u (if h.is_little then 0 else x - 1)) (complement (2 ^ g - 1))
              * handlerbits)
            maxunits_lem
        ∙ ap (λ (x : ℕ). bit_and x (complement (2 ^ g - 1)) * handlerbits) (place_lem u below)
        ∙ group_lem place (place_fits u below) in
      record {
        unitnum = u;
        in_range = below;
        is_in_mask = sym (has_unit-is_set u below) ∙ there;
        is_next = next;
        is_shift = shift_lem u below;
        is_size = refl;
        is_offset = refl;
        is_multiplier = refl;
        is_addrmask = ap (λ (n : ℕ). h.bytemask / (n / multiplier)) maxunits_lem;
        is_datamask = ones-HasBits handlerbits (shift_of l u);
        is_csmask =
            subst
              (λ (f : ℕ).
                HasBits ((2 ^ cswidth - 1) * 2 ^ f % 2 ^ 64) (shift_of l u / cswidth * cswidth)
                  (shift_of l u / cswidth * cswidth + cswidth))
              (sym (group ∙ ap (λ (n : ℕ). n / cswidth * cswidth) (sym (shift_lem u below))))
              (ones-HasBits cswidth (shift_of l u / cswidth * cswidth));
      }
