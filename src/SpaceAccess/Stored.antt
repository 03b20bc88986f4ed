-- ===== src/SpaceAccess/Stored.antt =====
-- A little-endian memory as bits, and what writes under masks make of it.
use mathlib.Core.Path.{subst}
use remame.Base.{
  ℕ, ◌+◌, ◌-◌, ◌*◌, ◌/◌, ◌^◌, ◌≤◌, ◌<◌, ◌≡◌, ◌∙◌, ◌⊎◌, sym, ap, refl, arith, Bool, true, false,
  ◌&&◌, ltb, leb, ◌==◌, if◌then◌else◌, Bool-cases, ==→≡, lt→ltb, inl, inr,
}
use remame.Base.HasBit.{has_bit, has_bit-shift, has_bit-small, has_bit-mod, has_bit-div}
use remame.SpaceAccess.Write.{turned_left, turned_right, write_masked}

-- A native write under a mask of a word from `lo` to before `hi`, whatever the state: the bits of memory
-- that the mask has become those of the data, and no other changes.
pub record IsLittleStore {ℓ} {S : Type ℓ} (write_native : ℕ → ℕ → ℕ → S → S) (bits lo hi : ℕ)
    (bit : S → ℕ → Bool) : Type ℓ where
  pub written :
      (address value mask : ℕ) (s : S)
      → lo ≤ address
      → address < hi
      → (i : ℕ) → i < bits
      → has_bit mask i ≡ true
      → bit (write_native address value mask s) (8 * address + i) ≡ has_bit value i
  pub kept :
      (address value mask : ℕ) (s : S) (p : ℕ)
      → lo ≤ address
      → address < hi
      → ((i : ℕ) → i < bits → p ≡ 8 * address + i → has_bit mask i ≡ false)
      → bit (write_native address value mask s) p ≡ bit s p

-- The bits that a mask asks for of the first `n` from a place on.
unfoldable pub asked : ℕ → ℕ → ℕ → ℕ → Bool
asked base mask n p = leb base p && (ltb p (base + n) && has_bit mask (p - base))

has_bit-turned_left :
    (bits n offsbits i : ℕ)
    → i < bits
    → has_bit (turned_left bits n offsbits) i ≡ (leb offsbits i && has_bit n (i - offsbits))
has_bit-turned_left bits n offsbits i h =
    has_bit-mod bits (n * 2 ^ offsbits) i ∙ rw (lt→ltb i bits h) (has_bit-shift offsbits n i)

has_bit-turned_right :
    (bits n offsbits i : ℕ)
    → i < bits
    → has_bit (turned_right bits n offsbits) i ≡ has_bit n (offsbits + i)
has_bit-turned_right bits n offsbits i h =
    has_bit-mod bits (n / 2 ^ offsbits) i ∙ rw (lt→ltb i bits h) (has_bit-div offsbits n i)

rest_false : (a b c : Bool) → c ≡ false → (a && (b && c)) ≡ false
rest_false false b c e = refl
rest_false true false c e = refl
rest_false true true c e = e

left_true : (a b : Bool) → (a && b) ≡ true → a ≡ true
left_true true b h = refl
left_true false b h = h

and_false : (a b c : Bool) → b ≡ false → (a && (b && c)) ≡ false
and_false false b c e = refl
and_false true b c e = rw e refl

-- The bits wanted are those of the value, the others as before.
unfoldable pub IsStored {ℓ} : {S : Type ℓ} → (S → ℕ → Bool) → ℕ → ℕ → S → (ℕ → Bool) → S → Type 0
IsStored bit base value before wanted s =
    (p : ℕ) → bit s p ≡ (if wanted p then has_bit value (p - base) else bit before p)

-- A word and its mask fit to what is wanted before and after.
pub record Fits (bits base value : ℕ) (wanted wanted' : ℕ → Bool) (address word curmask : ℕ)
    : Type 0 where
  pub new : (i : ℕ) → i < bits → wanted' (8 * address + i) ≡ has_bit curmask i
  pub unset : (i : ℕ) → i < bits → wanted (8 * address + i) ≡ false
  pub right :
      (i : ℕ)
      → i < bits
      → has_bit curmask i ≡ true
      → has_bit word i ≡ has_bit value (8 * address + i - base)
  pub same : (p : ℕ) → (p < 8 * address) ⊎ (8 * address + bits ≤ p) → wanted' p ≡ wanted p

module _ {ℓ} {S : Type ℓ} (write_native : ℕ → ℕ → ℕ → S → S) (bits lo hi : ℕ) (bit : S → ℕ → Bool)
    (store : IsLittleStore write_native bits lo hi bit) (base value : ℕ) (before : S) where
  in_word_or_not :
      (address p : ℕ)
      → ((i : ℕ) × (i < bits) × (8 * address + i ≡ p))
        ⊎ ((p < 8 * address) ⊎ (8 * address + bits ≤ p))
  in_word_or_not address p = elim (Bool-cases (ltb p (8 * address))) [
    | inl low ↦ inr (inl (ground (arith, low)))
    | inr high ↦ elim (Bool-cases (ltb p (8 * address + bits))) [
      | inl inside ↦ inl (p - 8 * address, ground (arith, inside, high), ground (arith, high))
      | inr above ↦ inr (inr (ground (arith, above)))
    ]
  ]

  pub write_native-IsStored :
      (wanted wanted' : ℕ → Bool) (address word curmask : ℕ) (s : S)
      → lo ≤ address
      → address < hi
      → Fits bits base value wanted wanted' address word curmask
      → IsStored bit base value before wanted s
      → IsStored bit base value before wanted' (write_native address word curmask s)
  unfolding IsStored
  write_native-IsStored wanted wanted' address word curmask s from until f w p =
      let s' = write_native address word curmask s in
      elim (in_word_or_not address p) [
        | inl (i, below, place) ↦
            subst
              (λ (q : ℕ). bit s' q ≡ (if wanted' q then has_bit value (q - base) else bit before q))
              place
              (elim (Bool-cases (has_bit curmask i)) [
                | inl set ↦
                    rw (f.new i below, set)
                      (store.written address word curmask s from until i below set
                        ∙ f.right i below set)
                | inr clear ↦
                    let there =
                      store.kept address word curmask s (8 * address + i) from until (λ i' h e.
                        let same : i' ≡ i = omega (arith, e) in
                        ap (has_bit curmask) same ∙ clear) in
                    let was = w (8 * address + i) in
                    rw (f.new i below, clear) (there ∙ was ∙ rw (f.unset i below) refl)
              ])
        | inr outside ↦
            let there = store.kept address word curmask s p from until (λ i h e. elim outside [
              | inl low ↦ absurd (omega (arith, low, e))
              | inr high ↦ absurd (omega (arith, high, e, h))
            ]) in
            rw (f.same p outside) (there ∙ w p)
      ]

  not_written :
      (wanted wanted' : ℕ → Bool) (address word curmask : ℕ) (s : S)
      → (curmask == 0) ≡ true
      → Fits bits base value wanted wanted' address word curmask
      → IsStored bit base value before wanted s
      → IsStored bit base value before wanted' s
  unfolding IsStored
  not_written wanted wanted' address word curmask s zero f w p = elim (in_word_or_not address p) [
    | inl (i, below, place) ↦
        let none_set : has_bit curmask i ≡ false =
          ap (λ (m : ℕ). has_bit m i) (==→≡ curmask 0 zero)
          ∙ has_bit-small 0 0 i (omega arith) (omega arith) in
        let same : wanted' p ≡ wanted p =
          ap wanted' (sym place)
          ∙ f.new i below
          ∙ none_set
          ∙ sym (f.unset i below)
          ∙ ap wanted place in
        rw same (w p)
    | inr outside ↦ rw (f.same p outside) (w p)
  ]

  -- Without a write, if the mask is 0.
  pub write_masked-IsStored :
      (wanted wanted' : ℕ → Bool) (address word curmask : ℕ) (s : S)
      → lo ≤ address
      → address < hi
      → Fits bits base value wanted wanted' address word curmask
      → IsStored bit base value before wanted s
      → IsStored bit base value before wanted' (write_masked write_native address word curmask s)
  unfolding write_masked
  write_masked-IsStored wanted wanted' address word curmask s from until f w =
      elim (Bool-cases (curmask == 0)) [
        | inl zero ↦ rw zero (not_written wanted wanted' address word curmask s zero f w)
        | inr some ↦
            rw some (write_native-IsStored wanted wanted' address word curmask s from until f w)
      ]

-- The first word, in which the value begins at `offsbits`.
pub Fits-first :
    (bits base value mask offsbits address : ℕ)
    → 8 * address + offsbits ≡ base
    → offsbits ≤ bits
    → Fits bits base value
        (λ p. false)
        (asked base mask (bits - offsbits))
        address
        (turned_left bits value offsbits)
        (turned_left bits mask offsbits)
unfolding asked
Fits-first bits base value mask offsbits address place h = record {
  new = λ i below.
      let from : leb base (8 * address + i) ≡ leb offsbits i = ground (arith, place) in
      let until : ltb (8 * address + i) (base + (bits - offsbits)) ≡ true =
        ground (arith, place, h, below) in
      let at : 8 * address + i - base ≡ i - offsbits = omega (arith, place) in
      rw (from, until, at) (sym (has_bit-turned_left bits mask offsbits i below));
  unset = λ i below. refl;
  right = λ i below set.
      let from : leb offsbits i ≡ true =
        left_true (leb offsbits i) (has_bit mask (i - offsbits))
          (sym (has_bit-turned_left bits mask offsbits i below) ∙ set) in
      let at : 8 * address + i - base ≡ i - offsbits = omega (arith, place) in
      has_bit-turned_left bits value offsbits i below ∙ rw (from, at) refl;
  same = λ p outside. elim outside [
    | inl low ↦ let before : leb base p ≡ false = ground (arith, place, low) in rw before refl
    | inr high ↦
        and_false (leb base p) (ltb p (base + (bits - offsbits))) (has_bit mask (p - base))
          (ground (arith, place, high, h))
  ];
}

-- The next word after `n` bits.
pub Fits-next :
    (bits base value mask n address : ℕ)
    → 8 * address ≡ base + n
    → Fits bits base value
        (asked base mask n)
        (asked base mask (n + bits))
        address
        (turned_right bits value n)
        (turned_right bits mask n)
unfolding asked
Fits-next bits base value mask n address place = record {
  new = λ i below.
      let from : leb base (8 * address + i) ≡ true = ground (arith, place) in
      let until : ltb (8 * address + i) (base + (n + bits)) ≡ true = ground (arith, place, below) in
      let at : 8 * address + i - base ≡ n + i = omega (arith, place) in
      rw (from, until, at) (sym (has_bit-turned_right bits mask n i below));
  unset = λ i below.
      and_false (leb base (8 * address + i)) (ltb (8 * address + i) (base + n))
        (has_bit mask (8 * address + i - base)) (ground (arith, place));
  right = λ i below set.
      let at : 8 * address + i - base ≡ n + i = omega (arith, place) in
      has_bit-turned_right bits value n i below ∙ rw at refl;
  same = λ p outside.
      let end : ltb p (base + (n + bits)) ≡ ltb p (base + n) = elim outside [
        | inl low ↦ ground (arith, place, low)
        | inr high ↦ ground (arith, place, high)
      ] in
      rw end refl;
}

-- Beyond the bits of a mask nothing is asked for.
pub asked_all :
    (base mask w n p : ℕ) → mask < 2 ^ w → w ≤ n → asked base mask n p ≡ asked base mask w p
unfolding asked
asked_all base mask w n p h more = elim (Bool-cases (ltb p (base + w))) [
  | inl low ↦ let low' : ltb p (base + n) ≡ true = ground (arith, low, more) in rw (low, low') refl
  | inr high ↦
      let clear = has_bit-small w mask (p - base) h (ground (arith, high)) in
      rest_false (leb base p) (ltb p (base + n)) (has_bit mask (p - base)) clear
      ∙ sym (rest_false (leb base p) (ltb p (base + w)) (has_bit mask (p - base)) clear)
]

-- A word that the value fills.
pub Fits-whole :
    (bits base value mask address : ℕ)
    → 8 * address ≡ base
    → Fits bits base value (λ p. false) (asked base mask bits) address value mask
unfolding asked
Fits-whole bits base value mask address place = record {
  new = λ i below.
      let from : leb base (8 * address + i) ≡ true = ground (arith, place) in
      let until : ltb (8 * address + i) (base + bits) ≡ true = ground (arith, place, below) in
      let at : 8 * address + i - base ≡ i = omega (arith, place) in rw (from, until, at) refl;
  unset = λ i below. refl;
  right = λ i below set. let at : 8 * address + i - base ≡ i = omega (arith, place) in rw at refl;
  same = λ p outside. elim outside [
    | inl low ↦ let before : leb base p ≡ false = ground (arith, place, low) in rw before refl
    | inr high ↦
        and_false (leb base p) (ltb p (base + bits)) (has_bit mask (p - base))
          (ground (arith, place, high))
  ];
}

-- What is stored of the bits asked for, all of them.
pub IsStored-all {ℓ} :
    {S : Type ℓ} (bit : S → ℕ → Bool) (base value mask w n : ℕ) (before s : S)
    → mask < 2 ^ w
    → w ≤ n
    → IsStored bit base value before (asked base mask n) s
    → IsStored bit base value before (asked base mask w) s
unfolding IsStored
IsStored-all bit base value mask w n before s h more stored p =
    rw (sym (asked_all base mask w n p h more)) (stored p)
