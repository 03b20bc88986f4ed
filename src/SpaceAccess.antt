-- ===== src/SpaceAccess.antt =====
-- `address_space_specific` of source/emucore/memory/address_space_specific.h: how a read of 8 to 64 bits
-- at any address becomes reads of native words. The functions take `read_native`, which SpaceAccess/Native
-- has: it takes an address and a mask, and changes a state. The template's arguments are in a record. Casts to a type of `n` bits are `% 2 ^ n`.
mod Partial
mod Little
mod Direct
pub mod Write
pub mod Native
mod Ram
mod Stored
mod Put
mod Written
mod Examples
use Prim.Native.Nat.{bit_and, bit_or}
use remame.Base.{
  ℕ, zero, suc, ◌+◌, ◌-◌, ◌*◌, ◌/◌, ◌%◌, ◌^◌, Bool, ◌&&◌, ◌||◌, not, ltb, leb, ◌==◌, if◌then◌else◌,
}
use remame.Base.Int.{ℤ, pos, negsuc}
use remame.Base.Word.{u32}

pub record SpaceTraits : Type 0 where
  pub native_bytes : ℕ
  pub is_little : Bool
  pub addr_shift : ℤ

abbrev pub native_bits : SpaceTraits → ℕ
native_bits t = 8 * t.native_bytes

-- A shift to the left for one sign of `AddrShift`, to the right for the other.
abbrev pub shift_left : ℤ → ℕ → ℕ
shift_left (pos n) a = u32 (a * 2 ^ n)
shift_left (negsuc n) a = a / 2 ^ (n + 1)

abbrev pub shift_right : ℤ → ℕ → ℕ
shift_right (pos n) a = a / 2 ^ n
shift_right (negsuc n) a = u32 (a * 2 ^ (n + 1))

unfoldable pub native_step : SpaceTraits → ℕ
native_step t = shift_left t.addr_shift t.native_bytes

unfoldable pub native_mask : SpaceTraits → ℕ
native_mask t = native_step t - 1

unfoldable pub offset_to_byte : SpaceTraits → ℕ → ℕ
offset_to_byte t offset = shift_right t.addr_shift offset

-- `address & ~NATIVE_MASK`.
unfoldable pub native_address : SpaceTraits → ℕ → ℕ
native_address t address = bit_and address (2 ^ 32 - 1 - native_mask t)

module _ {ℓ} {S : Type ℓ} (read_native : ℕ → ℕ → S → ℕ × S) where
  -- A read under a mask that is not 0, whose bits are put at `offsbits` of a result of `bits`, or are
  -- taken from there. In the first read of each kind the result is 0 before.
  unfoldable pub read_left : ℕ → ℕ → ℕ → ℕ → ℕ × S → ℕ × S
  read_left bits address curmask offsbits (result, s) =
      if curmask == 0
      then (result, s)
      else let (value, s') = read_native address curmask s in
        (bit_or result ((value * 2 ^ offsbits) % 2 ^ bits), s')

  unfoldable pub read_right : ℕ → ℕ → ℕ → ℕ → ℕ × S → ℕ × S
  read_right bits address curmask offsbits (result, s) =
      if curmask == 0
      then (result, s)
      else let (value, s') = read_native address curmask s in
        (bit_or result ((value / 2 ^ offsbits) % 2 ^ bits), s')

  -- The two reads of a target no wider than a native word, that is in two of them.
  unfoldable pub read_two_little : SpaceTraits → ℕ → ℕ → ℕ → ℕ → S → ℕ × S
  read_two_little t target_bits address offsbits mask s =
      let low =
        read_right target_bits address ((mask * 2 ^ offsbits) % 2 ^ native_bits t) offsbits
          (0, s) in
      read_left target_bits (u32 (address + native_step t)) (mask / 2 ^ (native_bits t - offsbits))
        (native_bits t - offsbits) low

  unfoldable pub read_two_big : SpaceTraits → ℕ → ℕ → ℕ → ℕ → S → ℕ × S
  read_two_big t target_bits address offsbits mask s =
      let bits = native_bits t in
      let justify = bits - target_bits in
      let ljmask = (mask * 2 ^ justify) % 2 ^ bits in
      let high = read_left bits address (ljmask / 2 ^ offsbits) offsbits (0, s) in
      let (result, s') =
        read_right bits (u32 (address + native_step t))
          ((ljmask * 2 ^ (bits - offsbits)) % 2 ^ bits) (bits - offsbits) high in
      ((result / 2 ^ justify) % 2 ^ target_bits, s')

  -- The middle reads of a wider target, so many; and all of them. The state has the result, and with it
  -- `offsbits` and the address.
  unfoldable pub middle_little : SpaceTraits → ℕ → ℕ → ℕ → ℕ → ℕ → ℕ × S → (ℕ × S) × ℕ × ℕ
  middle_little t target_bits mask zero address offsbits r = (r, offsbits, address)
  middle_little t target_bits mask (suc n) address offsbits r =
      let address' = u32 (address + native_step t) in
      middle_little t target_bits mask n address' (offsbits + native_bits t)
        (read_left target_bits address' ((mask / 2 ^ offsbits) % 2 ^ native_bits t) offsbits r)

  unfoldable pub last_little : SpaceTraits → Bool → ℕ → ℕ → (ℕ × S) × ℕ × ℕ → ℕ × S
  last_little t aligned target_bits mask (r, offsbits, address) =
      if not aligned && ltb offsbits target_bits
      then read_left target_bits (u32 (address + native_step t))
          ((mask / 2 ^ offsbits) % 2 ^ native_bits t) offsbits r
      else r

  unfoldable pub read_many_little : SpaceTraits → Bool → ℕ → ℕ → ℕ → ℕ → S → ℕ × S
  read_many_little t aligned target_bytes address offsbits mask s =
      let target_bits = 8 * target_bytes in
      let first =
        read_right target_bits address ((mask * 2 ^ offsbits) % 2 ^ native_bits t) offsbits
          (0, s) in
      last_little t aligned target_bits mask (
        middle_little t target_bits mask (target_bytes / t.native_bytes - 1) address
          (native_bits t - offsbits) first)

  unfoldable pub middle_big : SpaceTraits → ℕ → ℕ → ℕ → ℕ → ℕ → ℕ × S → (ℕ × S) × ℕ × ℕ
  middle_big t target_bits mask zero address offsbits r = (r, offsbits, address)
  middle_big t target_bits mask (suc n) address offsbits r =
      let address' = u32 (address + native_step t) in
      let offsbits' = offsbits - native_bits t in
      middle_big t target_bits mask n address' offsbits'
        (read_left target_bits address' ((mask / 2 ^ offsbits') % 2 ^ native_bits t) offsbits' r)

  unfoldable pub last_big : SpaceTraits → Bool → ℕ → ℕ → (ℕ × S) × ℕ × ℕ → ℕ × S
  last_big t aligned target_bits mask (r, offsbits, address) =
      let offsbits' = native_bits t - offsbits in
      if not aligned && not (offsbits == 0)
      then read_right target_bits (u32 (address + native_step t))
          ((mask * 2 ^ offsbits') % 2 ^ native_bits t) offsbits' r
      else r

  unfoldable pub read_many_big : SpaceTraits → Bool → ℕ → ℕ → ℕ → ℕ → S → ℕ × S
  read_many_big t aligned target_bytes address offsbits mask s =
      let target_bits = 8 * target_bytes in
      let offsbits' = target_bits - (native_bits t - offsbits) in
      let first =
        read_left target_bits address ((mask / 2 ^ offsbits') % 2 ^ native_bits t) offsbits'
          (0, s) in
      last_big t aligned target_bits mask
        (middle_big t target_bits mask (target_bytes / t.native_bytes - 1) address offsbits' first)

  -- One read of a wider native word.
  unfoldable pub read_one : SpaceTraits → ℕ → ℕ → ℕ → ℕ → S → ℕ × S
  read_one t target_bits address offsbits mask s =
      let o = if t.is_little then offsbits else native_bits t - target_bits - offsbits in
      let (value, s') =
        read_native (native_address t address) ((mask * 2 ^ o) % 2 ^ native_bits t) s in
      ((value / 2 ^ o) % 2 ^ target_bits, s')

  unfoldable pub read_direct : SpaceTraits → Bool → ℕ → ℕ → ℕ → S → ℕ × S
  read_direct t aligned target_bytes address mask s =
      let target_bits = 8 * target_bytes in
      let inside =
        8
        * bit_and (offset_to_byte t address)
            (t.native_bytes - (if aligned then target_bytes else 1)) in
      let offsbits = 8 * bit_and (offset_to_byte t address) (t.native_bytes - 1) in
      let native = native_address t address in
      if (t.native_bytes == target_bytes) && (aligned || (bit_and address (native_mask t) == 0))
      then read_native native mask s
      else if ltb target_bytes t.native_bytes
          && (aligned || leb (inside + target_bits) (native_bits t))
      then read_one t target_bits address inside mask s
      else if leb target_bytes t.native_bytes
      then (if t.is_little
          then read_two_little t target_bits native offsbits mask s
          else read_two_big t target_bits native offsbits mask s)
      else if t.is_little
      then read_many_little t aligned target_bytes native offsbits mask s
      else read_many_big t aligned target_bytes native offsbits mask s
