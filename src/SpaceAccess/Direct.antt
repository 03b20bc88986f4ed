-- ===== src/SpaceAccess/Direct.antt =====
-- `read_direct` in a little-endian space of byte addresses, whichever way it takes.
use Prim.Native.Nat.{bit_and}
use native.Mathlib.Nat.{
  div-one, one-le-pow, pow-le-pow_right, mod-add-div, mul_assoc, mul_comm, add-mul-mod_self_left,
  zero-mod, mod-le,
}
use remame.Base.{
  ℕ, suc, ◌+◌, ◌-◌, ◌*◌, ◌/◌, ◌%◌, ◌^◌, ◌≤◌, ◌<◌, ◌≡◌, ◌∙◌, sym, ap, refl, arith, Bool, true, false,
  ◌&&◌, ◌||◌, ltb, leb, ◌==◌, if◌then◌else◌, Bool-cases, ==→≡, ltb→lt, leb→le, inl, inr,
}
use remame.Base.Bits.{bit_and_low, bit_and_between, bit_and_le}
use remame.Base.HasBit.{two_pow-add}
use remame.SpaceAccess.{
  native_mask, native_step, native_address, offset_to_byte, read_two_little, read_many_little,
  read_one, read_direct,
}
use remame.SpaceAccess.Native.{NativeSpace, NativeState, read_native}
use remame.SpaceAccess.Ram.{IsMapped, ram_bit, read_native-IsLittleMemory}
use remame.SpaceAccess.Partial.{IsLittleMemory}
use remame.SpaceAccess.Little.{
  little, native_step_lem, native_address_lem, IsRead, in_word, in_two_words, in_many_words,
}

pub exponent_lt : (j k : ℕ) → 2 ^ j < 2 ^ k → j < k
exponent_lt j k h = elim (Bool-cases (ltb j k)) [
  | inl below ↦ ltb→lt j k below
  | inr above ↦
      let le : k ≤ j = ground (arith, above) in
      absurd (omega (arith, h, pow-le-pow_right {n = 2} (omega arith) {i = k} {j = j} le))
]

-- A multiple of a product.
pub mod_factor : (a e m : ℕ) → a % (e * m) ≡ 0 → a % m ≡ 0
mod_factor a e m h =
    let q = a / (e * m) in
    let whole : a ≡ 0 + m * (e * q) =
      omega (arith, mod-add-div a (e * m), h)
      ∙ ap (λ (n : ℕ). n * q) (mul_comm e m)
      ∙ mul_assoc m e q
      ∙ omega arith in
    ap (λ (n : ℕ). n % m) whole ∙ add-mul-mod_self_left 0 m (e * q) ∙ zero-mod m

-- A wider target by how many native words it is.
pub words : (j k : ℕ) → 2 ^ k < 2 ^ j → (d : ℕ) × (2 ^ j ≡ suc d * 2 ^ k)
words j k h =
    let below = exponent_lt k j h in
    let place : j ≡ (j - k) + k = omega (arith, below) in
    let some : suc (2 ^ (j - k) - 1) ≡ 2 ^ (j - k) =
      omega (arith, one-le-pow (j - k) 2 (omega arith)) in
    (
      2 ^ (j - k) - 1,
      ap (λ (n : ℕ). 2 ^ n) place ∙ two_pow-add (j - k) k ∙ ap (λ (n : ℕ). n * 2 ^ k) (sym some),
    )

pub word_address :
    (j k address : ℕ) (aligned : Bool) (n : ℕ)
    → 2 ^ k ≡ 2 ^ j
    → n ≡ address % 2 ^ k
    → (aligned ≡ true → address % 2 ^ j ≡ 0)
    → (aligned || (n == 0)) ≡ true
    → address % 2 ^ k ≡ 0
word_address j k address true n same e straight h = ap (λ (m : ℕ). address % m) same ∙ straight refl
word_address j k address false n same e straight h = sym e ∙ ==→≡ n 0 h

abbrev pub inside : ℕ → ℕ → ℕ → Bool → ℕ
inside j k address aligned = bit_and address (2 ^ k - (if aligned then 2 ^ j else 1))

-- The place in a word, by the mask of an aligned access or of any.
pub inside_lem :
    (j k address : ℕ) (aligned : Bool)
    → j ≤ k
    → (aligned ≡ true → address % 2 ^ j ≡ 0)
    → inside j k address aligned ≡ address % 2 ^ k
inside_lem j k address true h straight = bit_and_between j k address h (straight refl)
inside_lem j k address false h straight = bit_and_low k address

pub inside_fits :
    (j k address : ℕ) (aligned : Bool)
    → 2 ^ j ≤ 2 ^ k
    → (aligned || leb (8 * inside j k address aligned + 8 * 2 ^ j) (8 * 2 ^ k)) ≡ true
    → 8 * inside j k address aligned + 8 * 2 ^ j ≤ 8 * 2 ^ k
inside_fits j k address true h e = omega (arith, h, bit_and_le address (2 ^ k - 2 ^ j))
inside_fits j k address false h e = leb→le _ _ e

module _ {ℓ} {S : Type ℓ} (read_native : ℕ → ℕ → S → ℕ × S) (k j address : ℕ) (before : S)
    (cell : ℕ → Bool)
    (memory : IsLittleMemory read_native
      (8 * 2 ^ k)
      (address - address % 2 ^ k)
      (address + 2 ^ k + 2 ^ j)
      before
      cell) where
  abbrev lo : ℕ
  lo = address - address % 2 ^ k

  abbrev hi : ℕ
  hi = address + 2 ^ k + 2 ^ j

  some_byte : 0 < 2 ^ j
  some_byte = one-le-pow j 2 (omega arith)

  begins : lo + address % 2 ^ k ≤ address
  begins = omega (arith, mod-le address (2 ^ k))

  -- A read of one native word at its address.
  pass_through :
      (mask : ℕ)
      → hi < 2 ^ 32
      → 2 ^ k ≡ 2 ^ j
      → address % 2 ^ k ≡ 0
      → IsRead before cell
          (8 * 2 ^ j)
          address
          mask
          (read_native (native_address (little k) address) mask before)
  pass_through mask h same e =
      let at = native_address (little k) address in
      let at_lem = native_address_lem k address (omega (arith, h)) (omega (arith, h)) in
      let from : lo ≤ at = omega (arith, at_lem) in
      let until : at < hi = omega (arith, at_lem, some_byte) in
      record {
        bits = λ i below asked.
            let here : 8 * at + i ≡ 8 * address + i = omega (arith, at_lem, e) in
            memory.given at mask from until i (omega (arith, same, below)) asked ∙ ap cell here;
        same = memory.stays at mask from until;
      }

  -- A target that is in two native words or is wider than one.
  two_or_many :
      (aligned : Bool) (mask : ℕ)
      → hi < 2 ^ 32
      → (aligned ≡ true → address % 2 ^ j ≡ 0)
      → IsRead before cell (8 * 2 ^ j) address mask (
          if leb (2 ^ j) (2 ^ k)
          then read_two_little read_native
              (little k)
              (8 * 2 ^ j)
              (native_address (little k) address)
              (8 * bit_and address (2 ^ k - 1))
              mask
              before
          else read_many_little read_native
              (little k)
              aligned
              (2 ^ j)
              (native_address (little k) address)
              (8 * bit_and address (2 ^ k - 1))
              mask
              before)
  two_or_many aligned mask h straight =
      let x = bit_and address (2 ^ k - 1) in
      let low : x ≡ address % 2 ^ k = bit_and_low k address in
      let some_word = one-le-pow k 2 (omega arith) in
      elim (Bool-cases (leb (2 ^ j) (2 ^ k))) [
        | inl two ↦ rw two (
            in_two_words read_native k lo hi before cell memory (8 * 2 ^ j) address x mask
              (omega (arith, h)) begins (omega (arith, some_byte)) low
              (omega (arith, leb→le (2 ^ j) (2 ^ k) two)))
        | inr wide ↦
            let (d, times) = words j k (ground (arith, wide)) in
            let whole : address % (suc d * 2 ^ k) ≡ address % 2 ^ j =
              ap (λ (n : ℕ). address % n) (sym times) in
            rw wide (
              in_many_words read_native k lo hi before cell memory aligned (2 ^ j) d address x mask
                h begins (omega (arith, some_word)) low times
                (λ all. low ∙ mod_factor address (suc d) (2 ^ k) (whole ∙ straight all)))
      ]

  -- A target that one native word has, among others.
  in_one :
      (aligned : Bool) (mask : ℕ)
      → hi < 2 ^ 32
      → (aligned ≡ true → address % 2 ^ j ≡ 0)
      → (ltb (2 ^ j) (2 ^ k)
          && (aligned || leb (8 * inside j k address aligned + 8 * 2 ^ j) (8 * 2 ^ k)))
        ≡ true
      → IsRead before cell (8 * 2 ^ j) address mask (
          read_one read_native
            (little k)
            (8 * 2 ^ j)
            address
            (8 * inside j k address aligned)
            mask
            before)
  in_one aligned mask h straight one =
      let narrow : 2 ^ j < 2 ^ k = ground (arith, one) in
      let below : j ≤ k = omega (arith, exponent_lt j k narrow) in
      in_word read_native k lo hi before cell memory (8 * 2 ^ j) address
        (inside j k address aligned) mask (omega (arith, h)) (omega (arith, h)) begins
        (omega (arith, some_byte)) (inside_lem j k address aligned below straight)
        (inside_fits j k address aligned (omega (arith, narrow)) (ground (arith, one)))

  -- With whatever native reads are those of memory.
  read_direct_lem :
      (aligned : Bool) (mask : ℕ)
      → hi < 2 ^ 32
      → (aligned ≡ true → address % 2 ^ j ≡ 0)
      → IsRead before cell
          (8 * 2 ^ j)
          address
          mask
          (read_direct read_native (little k) aligned (2 ^ j) address mask before)
  unfolding read_direct offset_to_byte native_mask
  read_direct_lem aligned mask h straight =
      let step = native_step_lem k (omega (arith, h)) in
      let low = ap (bit_and address) (ap (λ (n : ℕ). n - 1) step) ∙ bit_and_low k address in
      let at_word = bit_and address (native_step (little k) - 1) == 0 in
      let fits = leb (8 * inside j k address aligned + 8 * 2 ^ j) (8 * 2 ^ k) in
      rw (div-one address) (elim (Bool-cases ((2 ^ k == 2 ^ j) && (aligned || at_word))) [
        | inl same ↦
            let equal : 2 ^ k ≡ 2 ^ j = ground (arith, same) in
            rw same (
              pass_through mask h equal
                (word_address j k address aligned _ equal low straight (ground (arith, same))))
        | inr other ↦ rw other (elim (Bool-cases (ltb (2 ^ j) (2 ^ k) && (aligned || fits))) [
          | inl one ↦ rw one (in_one aligned mask h straight one)
          | inr more ↦ rw more (two_or_many aligned mask h straight)
        ])
      ])

-- In a little-endian space with byte addresses and native words of `2 ^ k` bytes, `read_direct`
-- by `read_native` of `2 ^ j` bytes, narrower or wider than a word or as wide, aligned or not,
-- at an address not at the end of the space, gives every bit that its mask asks for as it is in
-- the memory of the host, in its place, and leaves the state as it was, whatever the delegates
-- are. The addresses from the native word of the first to one word after the last have entries
-- of memory, at consecutive pointers; an aligned read needs an aligned address.
pub read_direct-IsRead {ℓ} :
    {D : Type ℓ} (delegate : ℕ → ℕ → ℕ → NativeState D → ℕ × NativeState D) (space : NativeSpace)
    (k j origin address mask : ℕ) (aligned : Bool) (s : NativeState D)
    → IsMapped (little k) space origin (address - address % 2 ^ k) (address + 2 ^ k + 2 ^ j)
    → address + 2 ^ k + 2 ^ j < 2 ^ 32
    → (aligned ≡ true → address % 2 ^ j ≡ 0)
    → IsRead s (ram_bit origin s.ram) (8 * 2 ^ j) address mask (
        read_direct
          (read_native delegate (little k) space)
          (little k)
          aligned
          (2 ^ j)
          address
          mask
          s)
read_direct-IsRead delegate space k j origin address mask aligned s mapped =
    read_direct_lem (read_native delegate (little k) space) k j address s (ram_bit origin s.ram)
      (read_native-IsLittleMemory delegate space k origin _ _ s mapped) aligned mask
