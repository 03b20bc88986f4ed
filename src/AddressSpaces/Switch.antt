-- ===== src/AddressSpaces/Switch.antt =====
-- The type that the `switch` of `memory_manager::allocate` picks for a configuration.
use remame.Base.{
  ℕ, zero, suc, ◌/◌, ◌^◌, ◌<◌, ◌≡◌, ◌∙◌, ap, sym, refl, arith, Bool, true, false, ◌&&◌, ◌||◌, ltb,
  leb, ◌==◌, if◌then◌else◌, Bool-cases, inl, inr, Option, none, some,
}
use remame.Base.Int.{ℤ, pos, negsuc, ltb_ℤ, eqb_ℤ, eq_of_parts}
use native.Mathlib.Nat.{div-eq_of_lt, one-le-pow}
use remame.Base.Result
use remame.Base.Result.{Fatal, Result, ok, fatal, Returns, returns, fails, Flawless, ◌>>=◌}
use remame.AddressSpaces.{
  Endianness, little, big, AddressSpaceConfig, SpaceType, alignment, is_large, of_shift, allocate_8,
  allocate_16, allocate_32, allocate_64, space_type,
}

abbrev pub is_known_width : AddressSpaceConfig → Bool
is_known_width c =
    c.data_width == 8 || c.data_width == 16 || c.data_width == 32 || c.data_width == 64

-- Of a space without a configuration nothing is asked.
abbrev pub is_known : Option AddressSpaceConfig → Bool
is_known none = true
is_known (some c) = is_known_width c

-- Bytes may have any shift; words a shift to units of at least a byte, or of a bit for 16 bits.
unfoldable pub is_known_shift : AddressSpaceConfig → Bool
unfolding alignment
is_known_shift c =
    c.data_width == 8
    || (ltb_ℤ c.addr_shift (pos 1) && leb 1 (alignment c))
    || (c.data_width == 16 && eqb_ℤ c.addr_shift (pos 3))

-- The type that a configuration asks for.
abbrev pub asked_for : AddressSpaceConfig → SpaceType
asked_for c = record {
  width = c.data_width;
  order = c.endianness;
  shift = if c.data_width == 8 then pos 0 else c.addr_shift;
  large = is_large c;
}

unfoldable pub expected : Option AddressSpaceConfig → Option SpaceType
expected none = none
expected (some c) = if is_known_shift c then some (asked_for c) else none

of_shift_lem :
    (width : ℕ) (shift : ℤ) (endian : Endianness) (large : Bool)
    → of_shift width shift endian large
      ≡ record { width = width; order = endian; shift = shift; large = large }
of_shift_lem width shift little true = refl
of_shift_lem width shift little false = refl
of_shift_lem width shift big true = refl
of_shift_lem width shift big false = refl

abbrev config : ℕ → Endianness → ℕ → ℤ → AddressSpaceConfig
config data_width endian addr_width shift = record {
  endianness = endian;
  data_width = data_width;
  addr_width = addr_width;
  addr_shift = shift;
}

-- 16 bytes or more per address leave no byte of a word of up to 8.
too_wide : (n k : ℕ) → n < 16 → n / 2 ^ suc (suc (suc (suc k))) ≡ 0
too_wide n k h = div-eq_of_lt (omega (arith, one-le-pow k 2 (omega arith)))

bytes_16 : (k : ℕ) → leb 1 (16 / 8 / 2 ^ suc k) ≡ ltb k 1
bytes_16 zero = refl
bytes_16 (suc zero) = refl
bytes_16 (suc (suc zero)) = refl
bytes_16 (suc (suc (suc k))) = ground (arith, too_wide 2 k (omega arith))

bytes_32 : (k : ℕ) → leb 1 (32 / 8 / 2 ^ suc k) ≡ ltb k 2
bytes_32 zero = refl
bytes_32 (suc zero) = refl
bytes_32 (suc (suc zero)) = refl
bytes_32 (suc (suc (suc k))) = ground (arith, too_wide 4 k (omega arith))

bytes_64 : (k : ℕ) → leb 1 (64 / 8 / 2 ^ suc k) ≡ ltb k 3
bytes_64 zero = refl
bytes_64 (suc zero) = refl
bytes_64 (suc (suc zero)) = refl
bytes_64 (suc (suc (suc k))) = ground (arith, too_wide 8 k (omega arith))

module _ (endian : Endianness) (w : ℕ) where
  unknown_16 :
      (shift : ℤ)
      → eqb_ℤ shift (pos 3) ≡ false
      → eqb_ℤ shift (pos 0) ≡ false
      → eqb_ℤ shift (negsuc 0) ≡ false
      → is_known_shift (config 16 endian w shift) ≡ false
  unfolding is_known_shift
  unknown_16 (pos k) a b c = ground arith
  unknown_16 (negsuc k) a b c = ground (arith, bytes_16 k)

  unknown_32 :
      (shift : ℤ)
      → eqb_ℤ shift (pos 0) ≡ false
      → eqb_ℤ shift (negsuc 0) ≡ false
      → eqb_ℤ shift (negsuc 1) ≡ false
      → is_known_shift (config 32 endian w shift) ≡ false
  unfolding is_known_shift
  unknown_32 (pos k) a b c = ground arith
  unknown_32 (negsuc k) a b c = ground (arith, bytes_32 k)

  unknown_64 :
      (shift : ℤ)
      → eqb_ℤ shift (pos 0) ≡ false
      → eqb_ℤ shift (negsuc 0) ≡ false
      → eqb_ℤ shift (negsuc 1) ≡ false
      → eqb_ℤ shift (negsuc 2) ≡ false
      → is_known_shift (config 64 endian w shift) ≡ false
  unfolding is_known_shift
  unknown_64 (pos k) a b c d = ground arith
  unknown_64 (negsuc k) a b c d = ground (arith, bytes_64 k)

  unknown : (c : AddressSpaceConfig) → is_known_shift c ≡ false → none ≡ expected (some c)
  unfolding expected
  unknown c h = rw h refl

  known :
      (n : ℕ) (shift : ℤ)
      → (n == 8) ≡ false
      → is_known_shift (config n endian w shift) ≡ true
      → some (of_shift n shift endian (is_large (config n endian w shift)))
        ≡ expected (some (config n endian w shift))
  unfolding expected
  known n shift word h = rw (h, word) (ap some (of_shift_lem n shift endian _))

  allocate_8_lem :
      (shift : ℤ) → allocate_8 (config 8 endian w shift) ≡ expected (some (config 8 endian w shift))
  unfolding allocate_8 is_known_shift expected
  allocate_8_lem shift = ap some (of_shift_lem 8 (pos 0) endian _)

  -- One case of a `switch` on the shift, and the cases after it.
  switch_case :
      (n : ℕ) (shift s : ℤ) (after : Option SpaceType)
      → (n == 8) ≡ false
      → is_known_shift (config n endian w s) ≡ true
      → (eqb_ℤ shift s ≡ false → after ≡ expected (some (config n endian w shift)))
      → (if eqb_ℤ shift s
          then some (of_shift n s endian (is_large (config n endian w shift)))
          else after)
        ≡ expected (some (config n endian w shift))
  switch_case n shift s after word fits later = elim (Bool-cases (eqb_ℤ shift s)) [
    | inl taken ↦ rw (taken, eq_of_parts shift s (ground arith)) (known n s word fits)
    | inr passed ↦ rw passed (later passed)
  ]

  allocate_16_lem :
      (shift : ℤ)
      → allocate_16 (config 16 endian w shift) ≡ expected (some (config 16 endian w shift))
  unfolding allocate_16 is_known_shift
  allocate_16_lem shift = switch_case 16 shift (pos 3) _ refl refl λ a.
      switch_case 16 shift (pos 0) _ refl refl λ b.
        switch_case 16 shift (negsuc 0) _ refl refl
          λ c. unknown (config 16 endian w shift) (unknown_16 shift a b c)

  allocate_32_lem :
      (shift : ℤ)
      → allocate_32 (config 32 endian w shift) ≡ expected (some (config 32 endian w shift))
  unfolding allocate_32 is_known_shift
  allocate_32_lem shift = switch_case 32 shift (pos 0) _ refl refl λ a.
      switch_case 32 shift (negsuc 0) _ refl refl λ b.
        switch_case 32 shift (negsuc 1) _ refl refl
          λ c. unknown (config 32 endian w shift) (unknown_32 shift a b c)

  allocate_64_lem :
      (shift : ℤ)
      → allocate_64 (config 64 endian w shift) ≡ expected (some (config 64 endian w shift))
  unfolding allocate_64 is_known_shift
  allocate_64_lem shift = switch_case 64 shift (pos 0) _ refl refl λ a.
      switch_case 64 shift (negsuc 0) _ refl refl λ b.
        switch_case 64 shift (negsuc 1) _ refl refl λ c.
          switch_case 64 shift (negsuc 2) _ refl refl
            λ d. unknown (config 64 endian w shift) (unknown_64 shift a b c d)

at_width :
    (n : ℕ) (f : AddressSpaceConfig → Option SpaceType) (c : AddressSpaceConfig)
    → ((endian : Endianness) (w : ℕ) (shift : ℤ)
        → f (config n endian w shift) ≡ expected (some (config n endian w shift)))
    → c.data_width ≡ n
    → f c ≡ expected (some c)
at_width n f c h e =
    let same = ap (λ (m : ℕ). record c { data_width = m }) e in
    ap f same
    ∙ h c.endianness c.addr_width c.addr_shift
    ∙ sym (ap (λ (d : AddressSpaceConfig). expected (some d)) same)

pub space_type_lem :
    (c : AddressSpaceConfig)
    → Returns
        (λ found. (found ≡ expected (some c)) × (is_known_width c ≡ true))
        (λ e. (e ≡ Fatal.invalid_width) × (is_known_width c ≡ false))
        (space_type c)
unfolding space_type
space_type_lem c =
    Result.branch (c.data_width == 8) _ _
      (λ h. returns (at_width 8 allocate_8 c allocate_8_lem (ground arith), ground arith))
      λ a.
        Result.branch (c.data_width == 16) _ _
          (λ h. returns (at_width 16 allocate_16 c allocate_16_lem (ground arith), ground arith))
          λ b.
            Result.branch (c.data_width == 32) _ _
              (λ h.
                returns (at_width 32 allocate_32 c allocate_32_lem (ground arith), ground arith))
              λ d.
                Result.branch (c.data_width == 64) _ _
                  (λ h.
                    returns
                      (at_width 64 allocate_64 c allocate_64_lem (ground arith), ground arith))
                  λ e. fails (refl, ground arith)
