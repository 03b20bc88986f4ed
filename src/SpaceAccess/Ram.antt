-- ===== src/SpaceAccess/Ram.antt =====
-- Native accesses of addresses that are memory.
use native.Mathlib.Nat.{one-le-pow, two-pow-succ, mod-lt}
use mathlib.Core.Path.{subst}
use Prim.Native.Nat.{bit_and, bit_or}
use remame.Base.{
  ℕ, zero, suc, ◌+◌, ◌-◌, ◌*◌, ◌/◌, ◌%◌, ◌^◌, ◌≤◌, ◌<◌, ◌≡◌, ◌∙◌, sym, ap, refl, arith, Bool, true,
  false, not, ◌&&◌, ◌||◌, ltb, leb, if◌then◌else◌, Bool-cases, lt→ltb, inl, inr,
}
use remame.Base.HasBit.{
  has_bit, has_bit-suc, has_bit-bit_or, has_bit-bit_and, has_bit-mod, has_bit-shift, has_bit-div,
  has_bit-small,
}
use remame.AddressTable.{static_bankmax}
use remame.SpaceAccess.{SpaceTraits}
use remame.SpaceAccess.Native.{
  NativeSpace, NativeState, native_entry, native_pointer, load_native, store_native, read_native,
  write_native,
}
use remame.SpaceAccess.Partial.{IsLittleMemory}
use remame.SpaceAccess.Little.{little}
use remame.SpaceAccess.Stored.{IsLittleStore}

-- The addresses from `lo` to before `hi` are memory, that of an address `a` at the pointer `origin + a`.
pub record IsMapped (t : SpaceTraits) (space : NativeSpace) (origin lo hi : ℕ) : Type 0 where
  pub is_memory :
      (address : ℕ) → lo ≤ address → address < hi → native_entry space address ≤ static_bankmax
  pub contiguous :
      (address : ℕ)
      → lo ≤ address
      → address < hi
      → native_pointer t space address ≡ origin + address

-- The bits of the bytes from `origin` on.
abbrev pub ram_bit : ℕ → (ℕ → ℕ) → ℕ → Bool
ram_bit origin ram p = has_bit (ram (origin + p / 8)) (p % 8)

-- The bits that a number of `w` bits has not.
has_bit-complement :
    (w m j : ℕ) → m < 2 ^ w → has_bit (2 ^ w - 1 - m) j ≡ (ltb j w && not (has_bit m j))
has_bit-complement zero m j h =
    let none : ltb j 0 ≡ false = ground arith in
    has_bit-small 0 (2 ^ 0 - 1 - m) j (omega arith) (omega arith) ∙ rw none refl
has_bit-complement (suc w) m zero h = ground (arith, two-pow-succ w, one-le-pow w 2 (omega arith))
has_bit-complement (suc w) m (suc j) h =
    let half : (2 ^ suc w - 1 - m) / 2 ≡ 2 ^ w - 1 - m / 2 = omega (arith, two-pow-succ w, h) in
    has_bit-suc (2 ^ suc w - 1 - m) j
    ∙ ap (λ (n : ℕ). has_bit n j) half
    ∙ has_bit-complement w (m / 2) j (omega (arith, two-pow-succ w, h))
    ∙ rw (has_bit-suc m j) (ground arith)

chosen : (m v d : Bool) → ((d && not m) || (v && m)) ≡ (if m then v else d)
chosen true true true = refl
chosen true true false = refl
chosen true false true = refl
chosen true false false = refl
chosen false true true = refl
chosen false true false = refl
chosen false false true = refl
chosen false false false = refl

or_false : (b : Bool) → (b || false) ≡ b
or_false true = refl
or_false false = refl

has_bit-load_native :
    (n pointer : ℕ) (ram : ℕ → ℕ) (i : ℕ)
    → has_bit (load_native n pointer ram) i ≡ (ltb i (8 * n) && ram_bit pointer ram i)
unfolding load_native
has_bit-load_native zero pointer ram i =
    let none : ltb i (8 * 0) ≡ false = ground arith in
    has_bit-small 0 0 i (omega arith) (omega arith) ∙ rw none refl
has_bit-load_native (suc n) pointer ram i =
    has_bit-bit_or (ram pointer % 2 ^ 8) (load_native n (pointer + 1) ram * 2 ^ 8) i
    ∙ rw
        (
          has_bit-mod 8 (ram pointer) i,
          has_bit-shift 8 (load_native n (pointer + 1) ram) i,
          has_bit-load_native n (pointer + 1) ram (i - 8),
        )
        (elim (Bool-cases (ltb i 8)) [
          | inl first ↦
              let low : leb 8 i ≡ false = ground (arith, first) in
              let all : ltb i (8 * suc n) ≡ true = ground (arith, first) in
              let byte : pointer + i / 8 ≡ pointer = ground (arith, first) in
              let place : i % 8 ≡ i = ground (arith, first) in
              rw (first, low, all, byte, place) (or_false (has_bit (ram pointer) i))
          | inr later ↦
              let high : leb 8 i ≡ true = ground (arith, later) in
              let until : ltb i (8 * suc n) ≡ ltb (i - 8) (8 * n) = ground (arith, later) in
              let byte : pointer + i / 8 ≡ pointer + 1 + (i - 8) / 8 = ground (arith, later) in
              let place : i % 8 ≡ (i - 8) % 8 = ground (arith, later) in
              rw (later, high, until, byte, place) refl
        ])

has_bit-store_native :
    (n pointer word : ℕ) (ram : ℕ → ℕ) (q j : ℕ)
    → q < n
    → j < 8
    → has_bit (store_native n pointer word ram (pointer + q)) j ≡ has_bit word (8 * q + j)
unfolding store_native
has_bit-store_native n pointer word ram q j inside small =
    let from : leb pointer (pointer + q) ≡ true = ground arith in
    let until : ltb (pointer + q) (pointer + n) ≡ true = ground (arith, inside) in
    let at : pointer + q - pointer ≡ q = omega arith in
    rw (from, until, at)
      (has_bit-mod 8 (word / 2 ^ (8 * q)) j ∙ rw (lt→ltb j 8 small) (has_bit-div (8 * q) word j))

module _ {ℓ} {D : Type ℓ} (delegate : ℕ → ℕ → ℕ → NativeState D → ℕ × NativeState D)
    (space : NativeSpace) (k origin lo hi : ℕ) (s : NativeState D)
    (mapped : IsMapped (little k) space origin lo hi) where
  read_memory :
      (address mask : ℕ)
      → lo ≤ address
      → address < hi
      → read_native delegate (little k) space address mask s
        ≡ (load_native (2 ^ k) (origin + address) s.ram, s)
  unfolding read_native
  read_memory address mask from until =
      let there : leb (native_entry space address) static_bankmax ≡ true =
        ground (arith, mapped.is_memory address from until) in
      rw (there, mapped.contiguous address from until) refl

  pub read_native-IsLittleMemory :
      IsLittleMemory
        (read_native delegate (little k) space)
        (8 * 2 ^ k)
        lo
        hi
        s
        (ram_bit origin s.ram)
  read_native-IsLittleMemory = record {
    narrow = λ address mask from until i above.
        let past : ltb i (8 * 2 ^ k) ≡ false = ground (arith, above) in
        rw
          (
            read_memory address mask from until,
            has_bit-load_native (2 ^ k) (origin + address) s.ram i,
          )
          (rw past refl);
    given = λ address mask from until i below asked.
        let within : ltb i (8 * 2 ^ k) ≡ true = ground (arith, below) in
        let byte : origin + address + i / 8 ≡ origin + (8 * address + i) / 8 = omega arith in
        let place : i % 8 ≡ (8 * address + i) % 8 = omega arith in
        rw
          (
            read_memory address mask from until,
            has_bit-load_native (2 ^ k) (origin + address) s.ram i,
          )
          (rw (within, byte, place) refl);
    stays = λ address mask from until.
        ap (λ (r : ℕ × NativeState D). r.1) (read_memory address mask from until);
  }

module _ {ℓ} {D : Type ℓ} (delegate : ℕ → ℕ → ℕ → ℕ → NativeState D → NativeState D)
    (space : NativeSpace) (k origin lo hi : ℕ)
    (mapped : IsMapped (little k) space origin lo hi) where
  -- The word that a write leaves.
  merged : ℕ → ℕ → ℕ → NativeState D → ℕ
  merged address value mask s =
      bit_or
        (bit_and (load_native (2 ^ k) (origin + address) s.ram)
          (2 ^ (8 * 2 ^ k) - 1 - mask % 2 ^ (8 * 2 ^ k)))
        (bit_and value mask)

  has_bit-merged :
      (address value mask : ℕ) (s : NativeState D) (i : ℕ)
      → i < 8 * 2 ^ k
      → has_bit (merged address value mask s) i
        ≡ (if has_bit mask i then has_bit value i else ram_bit origin s.ram (8 * address + i))
  unfolding merged
  has_bit-merged address value mask s i below =
      let bits = 8 * 2 ^ k in
      let dest = load_native (2 ^ k) (origin + address) s.ram in
      let rest = 2 ^ bits - 1 - mask % 2 ^ bits in
      let within : ltb i bits ≡ true = ground (arith, below) in
      let byte : origin + address + i / 8 ≡ origin + (8 * address + i) / 8 = omega arith in
      let place : i % 8 ≡ (8 * address + i) % 8 = omega arith in
      has_bit-bit_or (bit_and dest rest) (bit_and value mask) i
      ∙ rw
          (
            has_bit-bit_and dest rest i,
            has_bit-bit_and value mask i,
            has_bit-load_native (2 ^ k) (origin + address) s.ram i,
            has_bit-complement bits (mask % 2 ^ bits) i
                (mod-lt mask (one-le-pow bits 2 (omega arith))),
            has_bit-mod bits mask i,
            within,
            byte,
            place,
          )
          (chosen (has_bit mask i) (has_bit value i) (ram_bit origin s.ram (8 * address + i)))

  write_memory :
      (address value mask : ℕ) (s : NativeState D)
      → lo ≤ address
      → address < hi
      → (write_native delegate (little k) space address value mask s).ram
        ≡ store_native (2 ^ k) (origin + address) (merged address value mask s) s.ram
  unfolding write_native merged
  write_memory address value mask s from until =
      let there : leb (native_entry space address) static_bankmax ≡ true =
        ground (arith, mapped.is_memory address from until) in
      rw (there, mapped.contiguous address from until) refl

  -- A bit of a word after a write.
  bit_in_word :
      (address value mask : ℕ) (s : NativeState D) (i : ℕ)
      → lo ≤ address
      → address < hi
      → i < 8 * 2 ^ k
      → ram_bit origin
          (write_native delegate (little k) space address value mask s).ram
          (8 * address + i)
        ≡ (if has_bit mask i then has_bit value i else ram_bit origin s.ram (8 * address + i))
  bit_in_word address value mask s i from until below =
      let byte : origin + (8 * address + i) / 8 ≡ origin + address + i / 8 = omega arith in
      let place : (8 * address + i) % 8 ≡ i % 8 = omega arith in
      let whole : 8 * (i / 8) + i % 8 ≡ i = omega arith in
      let word = merged address value mask s in
      ap (λ (ram : ℕ → ℕ). ram_bit origin ram (8 * address + i))
        (write_memory address value mask s from until)
      ∙ ap
          (λ (q : ℕ).
            has_bit (store_native (2 ^ k) (origin + address) word s.ram q) ((8 * address + i) % 8))
          byte
      ∙ ap (has_bit (store_native (2 ^ k) (origin + address) word s.ram (origin + address + i / 8)))
          place
      ∙ has_bit-store_native (2 ^ k) (origin + address) word s.ram (i / 8) (i % 8)
          (omega (arith, below)) (omega arith)
      ∙ ap (has_bit word) whole
      ∙ has_bit-merged address value mask s i below

  pub write_native-IsLittleStore :
      IsLittleStore
        (write_native delegate (little k) space)
        (8 * 2 ^ k)
        lo
        hi
        (λ s. ram_bit origin s.ram)
  unfolding store_native
  write_native-IsLittleStore = record {
    written = λ address value mask s from until i below asked.
        bit_in_word address value mask s i from until below ∙ rw asked refl;
    kept = λ address value mask s p from until clear.
        elim (Bool-cases (leb (8 * address) p && ltb p (8 * address + 8 * 2 ^ k))) [
          | inl inside ↦
              let back : 8 * address + (p - 8 * address) ≡ p = ground (arith, inside) in
              let below : p - 8 * address < 8 * 2 ^ k = ground (arith, inside) in
              subst
                (λ (q : ℕ).
                  ram_bit origin (write_native delegate (little k) space address value mask s).ram q
                  ≡ ram_bit origin s.ram q)
                back
                (bit_in_word address value mask s (p - 8 * address) from until below
                  ∙ rw (clear (p - 8 * address) below (sym back)) refl)
          | inr outside ↦
              let other : (leb (origin + address) (origin + p / 8)
                    && ltb (origin + p / 8) (origin + address + 2 ^ k))
                  ≡ false =
                ground (arith, outside) in
              ap (λ (ram : ℕ → ℕ). ram_bit origin ram p)
                (write_memory address value mask s from until)
              ∙ rw other refl
        ];
  }
