-- ===== src/SpaceAccess/Written.antt =====
-- `write_direct` in a little-endian space of byte addresses, whichever way it takes.
use Prim.Native.Nat.{bit_and}
use native.Mathlib.Nat.{div-one, mod-le, one-le-pow}
use remame.Base.{
  ℕ, suc, ◌+◌, ◌-◌, ◌*◌, ◌%◌, ◌^◌, ◌≤◌, ◌<◌, ◌≡◌, ◌∙◌, sym, ap, refl, arith, Bool, true, false,
  ◌&&◌, ◌||◌, ltb, leb, ◌==◌, if◌then◌else◌, Bool-cases, leb→le, inl, inr,
}
use remame.Base.Bits.{bit_and_low}
use remame.SpaceAccess.{native_mask, native_step, native_address, offset_to_byte}
use remame.SpaceAccess.Little.{little, native_step_lem, native_address_lem}
use remame.SpaceAccess.Direct.{
  exponent_lt, mod_factor, words, word_address, inside, inside_lem, inside_fits,
}
use remame.SpaceAccess.Write.{write_two_little, write_many_little, write_one, write_direct}
use remame.SpaceAccess.Stored.{
  IsLittleStore, IsStored, asked, Fits-whole, write_native-IsStored, IsStored-all,
}
use remame.SpaceAccess.Native.{NativeSpace, NativeState, write_native}
use remame.SpaceAccess.Ram.{IsMapped, ram_bit, write_native-IsLittleStore}
use remame.SpaceAccess.Put.{one_word, two_words, many_words}

module _ {ℓ} {S : Type ℓ} (write_native : ℕ → ℕ → ℕ → S → S) (k j address : ℕ) (bit : S → ℕ → Bool)
    (store : IsLittleStore write_native
      (8 * 2 ^ k)
      (address - address % 2 ^ k)
      (address + 2 ^ k + 2 ^ j)
      bit) where
  abbrev lo : ℕ
  lo = address - address % 2 ^ k

  abbrev hi : ℕ
  hi = address + 2 ^ k + 2 ^ j

  some_byte : 0 < 2 ^ j
  some_byte = one-le-pow j 2 (omega arith)

  some_word : 0 < 2 ^ k
  some_word = one-le-pow k 2 (omega arith)

  begins : lo + address % 2 ^ k ≤ address
  begins = omega (arith, mod-le address (2 ^ k))

  whole_word :
      (value mask : ℕ) (s : S)
      → hi < 2 ^ 32
      → 2 ^ k ≡ 2 ^ j
      → address % 2 ^ k ≡ 0
      → mask < 2 ^ (8 * 2 ^ j)
      → IsStored bit
          (8 * address)
          value
          s
          (asked (8 * address) mask (8 * 2 ^ j))
          (write_native (native_address (little k) address) value mask s)
  unfolding IsStored
  whole_word value mask s h same e narrow =
      let at = native_address (little k) address in
      let at_lem = native_address_lem k address (omega (arith, h)) (omega (arith, h)) in
      IsStored-all bit (8 * address) value mask (8 * 2 ^ j) (8 * 2 ^ k) s _ narrow
        (omega (arith, same))
        (write_native-IsStored write_native (8 * 2 ^ k) lo hi bit store (8 * address) value s
          (λ p. false) (asked (8 * address) mask (8 * 2 ^ k)) at value mask s
          (omega (arith, at_lem)) (omega (arith, at_lem, some_byte))
          (Fits-whole (8 * 2 ^ k) (8 * address) value mask at (omega (arith, at_lem, e)))
          (λ p. refl))

  two_or_many :
      (aligned : Bool) (value mask : ℕ) (s : S)
      → hi < 2 ^ 32
      → (aligned ≡ true → address % 2 ^ j ≡ 0)
      → mask < 2 ^ (8 * 2 ^ j)
      → IsStored bit (8 * address) value s (asked (8 * address) mask (8 * 2 ^ j)) (
          if leb (2 ^ j) (2 ^ k)
          then write_two_little write_native
              (little k)
              (native_address (little k) address)
              (8 * bit_and address (2 ^ k - 1))
              value
              mask
              s
          else write_many_little write_native
              (little k)
              aligned
              (2 ^ j)
              (native_address (little k) address)
              (8 * bit_and address (2 ^ k - 1))
              value
              mask
              s)
  two_or_many aligned value mask s h straight narrow =
      let x = bit_and address (2 ^ k - 1) in
      let low : x ≡ address % 2 ^ k = bit_and_low k address in
      elim (Bool-cases (leb (2 ^ j) (2 ^ k))) [
        | inl two ↦ rw two (
            two_words write_native k lo hi bit store address value mask s (8 * 2 ^ j) x
              (omega (arith, h)) begins (omega (arith, some_byte)) low
              (omega (arith, leb→le (2 ^ j) (2 ^ k) two)) narrow)
        | inr wide ↦
            let (d, times) = words j k (ground (arith, wide)) in
            let whole : address % (suc d * 2 ^ k) ≡ address % 2 ^ j =
              ap (λ (n : ℕ). address % n) (sym times) in
            rw wide (
              many_words write_native k lo hi bit store address value mask s aligned (2 ^ j) d x h
                begins (omega (arith, some_word)) low times
                (λ all. low ∙ mod_factor address (suc d) (2 ^ k) (whole ∙ straight all)) narrow)
      ]

  in_one :
      (aligned : Bool) (value mask : ℕ) (s : S)
      → hi < 2 ^ 32
      → (aligned ≡ true → address % 2 ^ j ≡ 0)
      → mask < 2 ^ (8 * 2 ^ j)
      → (ltb (2 ^ j) (2 ^ k)
          && (aligned || leb (8 * inside j k address aligned + 8 * 2 ^ j) (8 * 2 ^ k)))
        ≡ true
      → IsStored bit (8 * address) value s (asked (8 * address) mask (8 * 2 ^ j)) (
          write_one write_native
            (little k)
            (8 * 2 ^ j)
            address
            (8 * inside j k address aligned)
            value
            mask
            s)
  in_one aligned value mask s h straight narrow one =
      let below : 2 ^ j < 2 ^ k = ground (arith, one) in
      let below' : j ≤ k = omega (arith, exponent_lt j k below) in
      one_word write_native k lo hi bit store address value mask s (8 * 2 ^ j)
        (inside j k address aligned) (omega (arith, h)) (omega (arith, h)) begins
        (omega (arith, some_byte)) (inside_lem j k address aligned below' straight)
        (inside_fits j k address aligned (omega (arith, below)) (ground (arith, one))) narrow

  -- With whatever native writes are those of memory.
  write_direct_lem :
      (aligned : Bool) (value mask : ℕ) (s : S)
      → hi < 2 ^ 32
      → (aligned ≡ true → address % 2 ^ j ≡ 0)
      → mask < 2 ^ (8 * 2 ^ j)
      → IsStored bit
          (8 * address)
          value
          s
          (asked (8 * address) mask (8 * 2 ^ j))
          (write_direct write_native (little k) aligned (2 ^ j) address value mask s)
  unfolding write_direct offset_to_byte native_mask
  write_direct_lem aligned value mask s h straight narrow =
      let step = native_step_lem k (omega (arith, h)) in
      let low = ap (bit_and address) (ap (λ (n : ℕ). n - 1) step) ∙ bit_and_low k address in
      let at_word = bit_and address (native_step (little k) - 1) == 0 in
      let fits = leb (8 * inside j k address aligned + 8 * 2 ^ j) (8 * 2 ^ k) in
      rw (div-one address) (elim (Bool-cases ((2 ^ k == 2 ^ j) && (aligned || at_word))) [
        | inl same ↦
            let equal : 2 ^ k ≡ 2 ^ j = ground (arith, same) in
            rw same (
              whole_word value mask s h equal
                (word_address j k address aligned _ equal low straight (ground (arith, same)))
                narrow)
        | inr other ↦ rw other (elim (Bool-cases (ltb (2 ^ j) (2 ^ k) && (aligned || fits))) [
          | inl one ↦ rw one (in_one aligned value mask s h straight narrow one)
          | inr more ↦ rw more (two_or_many aligned value mask s h straight narrow)
        ])
      ])

-- In a little-endian space with byte addresses and native words of `2 ^ k` bytes,
-- `write_direct` by `write_native` of `2 ^ j` bytes, narrower or wider than a word or as wide,
-- aligned or not, at an address not at the end of the space and with a mask of that width,
-- makes every bit of the memory of the host that the mask asks for that of the value in its
-- place, and keeps every other bit from the origin of the mapping on, whatever the delegates
-- are. The addresses from the native word of the first to one word after the last have entries
-- of memory, at consecutive pointers; an aligned write needs an aligned address.
pub write_direct-IsStored {ℓ} :
    {D : Type ℓ} (delegate : ℕ → ℕ → ℕ → ℕ → NativeState D → NativeState D) (space : NativeSpace)
    (k j origin address value mask : ℕ) (aligned : Bool) (s : NativeState D)
    → IsMapped (little k) space origin (address - address % 2 ^ k) (address + 2 ^ k + 2 ^ j)
    → address + 2 ^ k + 2 ^ j < 2 ^ 32
    → (aligned ≡ true → address % 2 ^ j ≡ 0)
    → mask < 2 ^ (8 * 2 ^ j)
    → IsStored
        (λ s. ram_bit origin s.ram)
        (8 * address)
        value
        s
        (asked (8 * address) mask (8 * 2 ^ j))
        (write_direct
          (write_native delegate (little k) space)
          (little k)
          aligned
          (2 ^ j)
          address
          value
          mask
          s)
write_direct-IsStored delegate space k j origin address value mask aligned s mapped =
    write_direct_lem (write_native delegate (little k) space) k j address
      (λ s. ram_bit origin s.ram) (write_native-IsLittleStore delegate space k origin _ _ mapped)
      aligned value mask s
