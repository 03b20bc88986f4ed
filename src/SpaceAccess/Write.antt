-- ===== src/SpaceAccess/Write.antt =====
-- `write_direct` of `address_space_specific`, by writes of native words under masks. The functions
-- take `write_native`, which SpaceAccess/Native has: it takes an address, the data and a mask, and changes
-- a state.
use Prim.Native.Nat.{bit_and}
use remame.Base.{
  ℕ, zero, suc, ◌+◌, ◌-◌, ◌*◌, ◌/◌, ◌%◌, ◌^◌, Bool, ◌&&◌, ◌||◌, not, ltb, leb, ◌==◌, if◌then◌else◌,
}
use remame.Base.Word.{u32}
use remame.SpaceAccess.{
  SpaceTraits, native_bits, native_step, native_mask, native_address, offset_to_byte,
}

-- Data or a mask turned to the left and to the right for a native word.
abbrev pub turned_left : ℕ → ℕ → ℕ → ℕ
turned_left bits n offsbits = (n * 2 ^ offsbits) % 2 ^ bits

abbrev pub turned_right : ℕ → ℕ → ℕ → ℕ
turned_right bits n offsbits = (n / 2 ^ offsbits) % 2 ^ bits

module _ {ℓ} {S : Type ℓ} (write_native : ℕ → ℕ → ℕ → S → S) where
  unfoldable pub write_masked : ℕ → ℕ → ℕ → S → S
  write_masked address value curmask s =
      if curmask == 0 then s else write_native address value curmask s

  abbrev pub write_left : SpaceTraits → ℕ → ℕ → ℕ → ℕ → S → S
  write_left t address value mask offsbits s =
      write_masked address (turned_left (native_bits t) value offsbits)
        (turned_left (native_bits t) mask offsbits) s

  abbrev pub write_right : SpaceTraits → ℕ → ℕ → ℕ → ℕ → S → S
  write_right t address value mask offsbits s =
      write_masked address (turned_right (native_bits t) value offsbits)
        (turned_right (native_bits t) mask offsbits) s

  unfoldable pub write_two_little : SpaceTraits → ℕ → ℕ → ℕ → ℕ → S → S
  write_two_little t address offsbits value mask s =
      write_right t (u32 (address + native_step t)) value mask (native_bits t - offsbits)
        (write_left t address value mask offsbits s)

  unfoldable pub write_two_big : SpaceTraits → ℕ → ℕ → ℕ → ℕ → ℕ → S → S
  write_two_big t target_bits address offsbits value mask s =
      let justify = native_bits t - target_bits in
      let ljdata = turned_left (native_bits t) value justify in
      let ljmask = turned_left (native_bits t) mask justify in
      write_left t (u32 (address + native_step t)) ljdata ljmask (native_bits t - offsbits)
        (write_right t address ljdata ljmask offsbits s)

  -- The middle writes, with the offset and the address after them.
  unfoldable pub write_middle_little : SpaceTraits → ℕ → ℕ → ℕ → ℕ → ℕ → S → S × ℕ × ℕ
  write_middle_little t value mask zero address offsbits s = (s, offsbits, address)
  write_middle_little t value mask (suc n) address offsbits s =
      let address' = u32 (address + native_step t) in
      write_middle_little t value mask n address' (offsbits + native_bits t)
        (write_right t address' value mask offsbits s)

  unfoldable pub write_last_little : SpaceTraits → Bool → ℕ → ℕ → ℕ → S × ℕ × ℕ → S
  write_last_little t aligned target_bits value mask (s, offsbits, address) =
      if not aligned && ltb offsbits target_bits
      then write_right t (u32 (address + native_step t)) value mask offsbits s
      else s

  unfoldable pub write_many_little : SpaceTraits → Bool → ℕ → ℕ → ℕ → ℕ → ℕ → S → S
  write_many_little t aligned target_bytes address offsbits value mask s =
      write_last_little t aligned (8 * target_bytes) value mask (
        write_middle_little t value mask (target_bytes / t.native_bytes - 1) address
          (native_bits t - offsbits) (write_left t address value mask offsbits s))

  unfoldable pub write_middle_big : SpaceTraits → ℕ → ℕ → ℕ → ℕ → ℕ → S → S × ℕ × ℕ
  write_middle_big t value mask zero address offsbits s = (s, offsbits, address)
  write_middle_big t value mask (suc n) address offsbits s =
      let address' = u32 (address + native_step t) in
      let offsbits' = offsbits - native_bits t in
      write_middle_big t value mask n address' offsbits'
        (write_right t address' value mask offsbits' s)

  unfoldable pub write_last_big : SpaceTraits → Bool → ℕ → ℕ → S × ℕ × ℕ → S
  write_last_big t aligned value mask (s, offsbits, address) =
      if not aligned && not (offsbits == 0)
      then write_left t (u32 (address + native_step t)) value mask (native_bits t - offsbits) s
      else s

  unfoldable pub write_many_big : SpaceTraits → Bool → ℕ → ℕ → ℕ → ℕ → ℕ → S → S
  write_many_big t aligned target_bytes address offsbits value mask s =
      let offsbits' = 8 * target_bytes - (native_bits t - offsbits) in
      write_last_big t aligned value mask (
        write_middle_big t value mask (target_bytes / t.native_bytes - 1) address offsbits'
          (write_right t address value mask offsbits' s))

  -- One write into a wider native word, with whatever mask.
  unfoldable pub write_one : SpaceTraits → ℕ → ℕ → ℕ → ℕ → ℕ → S → S
  write_one t target_bits address offsbits value mask s =
      let o = if t.is_little then offsbits else native_bits t - target_bits - offsbits in
      write_native (native_address t address) (turned_left (native_bits t) value o)
        (turned_left (native_bits t) mask o) s

  unfoldable pub write_direct : SpaceTraits → Bool → ℕ → ℕ → ℕ → ℕ → S → S
  write_direct t aligned target_bytes address value mask s =
      let target_bits = 8 * target_bytes in
      let inside =
        8
        * bit_and (offset_to_byte t address)
            (t.native_bytes - (if aligned then target_bytes else 1)) in
      let offsbits = 8 * bit_and (offset_to_byte t address) (t.native_bytes - 1) in
      let native = native_address t address in
      if (t.native_bytes == target_bytes) && (aligned || (bit_and address (native_mask t) == 0))
      then write_native native value mask s
      else if ltb target_bytes t.native_bytes
          && (aligned || leb (inside + target_bits) (native_bits t))
      then write_one t target_bits address inside value mask s
      else if leb target_bytes t.native_bytes
      then (if t.is_little
          then write_two_little t native offsbits value mask s
          else write_two_big t target_bits native offsbits value mask s)
      else if t.is_little
      then write_many_little t aligned target_bytes native offsbits value mask s
      else write_many_big t aligned target_bytes native offsbits value mask s
