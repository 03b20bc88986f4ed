-- ===== src/SpaceAccess/Native.antt =====
-- `read_native` and `write_native` of `address_space_specific`
-- (source/emucore/memory/address_space_specific.h), with `offset` and `ramptr` of `handler_entry`
-- (source/emucore/memory/emumem.cpp): the accesses of a native word under a mask. The memory behind the
-- pointers is a function to bytes, and the host is little-endian. What a delegate does is a parameter.
use Prim.Native.Nat.{bit_and, bit_or}
use remame.Base.{ℕ, zero, suc, ◌+◌, ◌-◌, ◌*◌, ◌/◌, ◌%◌, ◌^◌, ◌&&◌, ltb, leb, if◌then◌else◌}
use remame.Base.Int.{pos, ◌-ℤ◌}
use remame.Base.Word.{u32_of}
use remame.AddressTable.{AddressTable, lookup_live_nowp, static_bankmax, static_watchpoint}
use remame.AddressTable.Derive.{HandlerRange}
use remame.SpaceAccess.{SpaceTraits, native_bits, offset_to_byte}

-- One direction of an address space: its table, its handlers, and the base pointers of those that are
-- memory, as the banks are set during an access.
pub record NativeSpace : Type 0 where
  pub addrmask : ℕ
  pub table : AddressTable
  pub handler : ℕ → HandlerRange
  pub rambase : ℕ → ℕ

-- The memory of the host, and all else.
pub record NativeState {ℓ} (D : Type ℓ) : Type ℓ where
  pub ram : ℕ → ℕ
  pub device : D

-- `lookup_live_large` and `lookup_live_small`.
unfoldable pub lookup_live : AddressTable → ℕ → ℕ
lookup_live t address = if t.watchpoints then static_watchpoint else lookup_live_nowp t address

-- `handler_entry::offset`.
unfoldable pub handler_offset : HandlerRange → ℕ → ℕ
handler_offset h address = bit_and (u32_of (pos address -ℤ pos h.addrstart)) h.addrmask

unfoldable pub native_entry : NativeSpace → ℕ → ℕ
native_entry space address = lookup_live space.table (bit_and address space.addrmask)

-- The offset of an address in the bytes of its handler.
unfoldable pub byte_offset : SpaceTraits → NativeSpace → ℕ → ℕ
byte_offset t space address =
    let masked = bit_and address space.addrmask in
    offset_to_byte t (handler_offset (space.handler (lookup_live space.table masked)) masked)

-- `ramptr` at this offset.
unfoldable pub native_pointer : SpaceTraits → NativeSpace → ℕ → ℕ
native_pointer t space address =
    space.rambase (native_entry space address) + byte_offset t space address

-- A native word of `n` bytes at a pointer.
unfoldable pub load_native : ℕ → ℕ → (ℕ → ℕ) → ℕ
load_native zero pointer ram = 0
load_native (suc n) pointer ram =
    bit_or (ram pointer % 2 ^ 8) (load_native n (pointer + 1) ram * 2 ^ 8)

unfoldable pub store_native : ℕ → ℕ → ℕ → (ℕ → ℕ) → ℕ → ℕ
store_native n pointer word ram p =
    if leb pointer p && ltb p (pointer + n) then (word / 2 ^ (8 * (p - pointer))) % 2 ^ 8 else ram p

module _ {ℓ} {D : Type ℓ} where
  -- A delegate takes the entry, an offset in native words and the mask.
  unfoldable pub read_native :
      (ℕ → ℕ → ℕ → NativeState D → ℕ × NativeState D)
      → SpaceTraits
      → NativeSpace
      → ℕ
      → ℕ
      → NativeState D
      → ℕ × NativeState D
  read_native delegate t space address mask s =
      let entry = native_entry space address in
      if leb entry static_bankmax
      then (load_native t.native_bytes (native_pointer t space address) s.ram, s)
      else (let (value, s') =
            delegate entry (byte_offset t space address / t.native_bytes) mask s in
          (value % 2 ^ native_bits t, s'))

  unfoldable pub write_native :
      (ℕ → ℕ → ℕ → ℕ → NativeState D → NativeState D)
      → SpaceTraits
      → NativeSpace
      → ℕ
      → ℕ
      → ℕ
      → NativeState D
      → NativeState D
  write_native delegate t space address value mask s =
      let entry = native_entry space address in
      let pointer = native_pointer t space address in
      let dest = load_native t.native_bytes pointer s.ram in
      let word =
        bit_or (bit_and dest (2 ^ native_bits t - 1 - mask % 2 ^ native_bits t))
          (bit_and value mask) in
      if leb entry static_bankmax
      then record s { ram = store_native t.native_bytes pointer word s.ram }
      else delegate entry (byte_offset t space address / t.native_bytes) value mask s
