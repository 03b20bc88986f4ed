-- ===== src/AddressSpaces.antt =====
-- The address spaces of a device: their configuration `address_space_config`
-- (source/emucore/memory/address_space_config.h), the list of a `device_memory_interface` (dimemory.h),
-- and `memory_manager::allocate` (memory_manager.cpp), which picks one of the types of
-- address_space_specific.h for each. An address space is here no more than its type.
mod Switch
mod Allocate
mod Units
mod Large
mod Examples
use remame.Base.{
  ℕ, zero, suc, ◌+◌, ◌-◌, ◌*◌, ◌/◌, ◌%◌, ◌^◌, Bool, true, false, ltb, leb, ◌==◌, if◌then◌else◌,
  List, [], ◌∷◌, ◌++◌, Option, none, some,
}
use remame.Base.Lists.{length, set, get_or, repeat}
use remame.Base.Int.{ℤ, pos, negsuc, eqb_ℤ}
use remame.Base.Result.{Fatal, Result, ok, fatal, ◌>>=◌}

pub data Endianness : Type 0 where
  little : Endianness
  big : Endianness

abbrev pub is_little : Endianness → Bool
is_little little = true
is_little big = false

pub record AddressSpaceConfig : Type 0 where
  pub endianness : Endianness
  pub data_width : ℕ
  pub addr_width : ℕ
  pub addr_shift : ℤ

-- The arguments of the template `address_space_specific`.
pub record SpaceType : Type 0 where
  pub width : ℕ
  pub order : Endianness
  pub shift : ℤ
  pub large : Bool

unfoldable pub alignment : AddressSpaceConfig → ℕ
alignment c = elim c.addr_shift [
  | pos k ↦ c.data_width / 8 * 2 ^ k
  | negsuc k ↦ c.data_width / 8 / 2 ^ suc k
]

-- The shifts of addresses, which have 32 bits. The low bits of an address shifted left are 0, so to
-- set them is to add.
unfoldable pub addr2byte : ℤ → ℕ → ℕ
addr2byte (pos k) address = address / 2 ^ k
addr2byte (negsuc k) address = address * 2 ^ suc k % 2 ^ 32

unfoldable pub byte2addr : ℤ → ℕ → ℕ
byte2addr (pos zero) address = address / 2 ^ 0
byte2addr (pos (suc k)) address = address * 2 ^ suc k % 2 ^ 32
byte2addr (negsuc k) address = address / 2 ^ suc k

unfoldable pub addr2byte_end : ℤ → ℕ → ℕ
addr2byte_end (pos k) address = address / 2 ^ k
addr2byte_end (negsuc k) address = address * 2 ^ suc k % 2 ^ 32 + (2 ^ suc k - 1)

unfoldable pub byte2addr_end : ℤ → ℕ → ℕ
byte2addr_end (pos zero) address = address / 2 ^ 0
byte2addr_end (pos (suc k)) address = address * 2 ^ suc k % 2 ^ 32 + (2 ^ suc k - 1)
byte2addr_end (negsuc k) address = address / 2 ^ suc k

unfoldable pub is_large : AddressSpaceConfig → Bool
is_large c = leb (2 ^ 18) (addr2byte_end c.addr_shift (0xffffffff / 2 ^ (32 - c.addr_width)))

-- The four types of a width and a shift, named after little and big endian, large and small.
abbrev pub of_shift : ℕ → ℤ → Endianness → Bool → SpaceType
of_shift width shift endian large =
    if is_little endian
    then if large
      then record { width = width; order = little; shift = shift; large = true }
      else record { width = width; order = little; shift = shift; large = false }
    else if large
    then record { width = width; order = big; shift = shift; large = true }
    else record { width = width; order = big; shift = shift; large = false }

-- The cases of the `switch`.
unfoldable pub allocate_8 : AddressSpaceConfig → Option SpaceType
allocate_8 c = some (of_shift 8 (pos 0) c.endianness (is_large c))

unfoldable pub allocate_16 : AddressSpaceConfig → Option SpaceType
allocate_16 c =
    if eqb_ℤ c.addr_shift (pos 3)
    then some (of_shift 16 (pos 3) c.endianness (is_large c))
    else if eqb_ℤ c.addr_shift (pos 0)
    then some (of_shift 16 (pos 0) c.endianness (is_large c))
    else if eqb_ℤ c.addr_shift (negsuc 0)
    then some (of_shift 16 (negsuc 0) c.endianness (is_large c))
    else none

unfoldable pub allocate_32 : AddressSpaceConfig → Option SpaceType
allocate_32 c =
    if eqb_ℤ c.addr_shift (pos 0)
    then some (of_shift 32 (pos 0) c.endianness (is_large c))
    else if eqb_ℤ c.addr_shift (negsuc 0)
    then some (of_shift 32 (negsuc 0) c.endianness (is_large c))
    else if eqb_ℤ c.addr_shift (negsuc 1)
    then some (of_shift 32 (negsuc 1) c.endianness (is_large c))
    else none

unfoldable pub allocate_64 : AddressSpaceConfig → Option SpaceType
allocate_64 c =
    if eqb_ℤ c.addr_shift (pos 0)
    then some (of_shift 64 (pos 0) c.endianness (is_large c))
    else if eqb_ℤ c.addr_shift (negsuc 0)
    then some (of_shift 64 (negsuc 0) c.endianness (is_large c))
    else if eqb_ℤ c.addr_shift (negsuc 1)
    then some (of_shift 64 (negsuc 1) c.endianness (is_large c))
    else if eqb_ℤ c.addr_shift (negsuc 2)
    then some (of_shift 64 (negsuc 2) c.endianness (is_large c))
    else none

-- The type to allocate; none where a `switch` on the shift has no case.
unfoldable pub space_type : AddressSpaceConfig → Result (Option SpaceType)
space_type c =
    if c.data_width == 8
    then ok (allocate_8 c)
    else if c.data_width == 16
    then ok (allocate_16 c)
    else if c.data_width == 32
    then ok (allocate_32 c)
    else if c.data_width == 64
    then ok (allocate_64 c)
    else fatal Fatal.invalid_width

-- `space_config`: null where the device has none of that number.
abbrev pub space_config : List (Option AddressSpaceConfig) → ℕ → Option AddressSpaceConfig
space_config configs spacenum = get_or none configs spacenum

-- The space of a number: what `has_space` tests and `space` returns.
abbrev pub space : List (Option SpaceType) → ℕ → Option SpaceType
space spaces index = get_or none spaces index

-- `m_addrspace.resize`.
unfoldable pub resize : ℕ → List (Option SpaceType) → List (Option SpaceType)
resize spacenum spaces = spaces ++ repeat (spacenum + 1 - length spaces) none

-- `device_memory_interface::allocate`.
unfoldable pub allocate_space :
    ℕ → Option SpaceType → List (Option SpaceType) → List (Option SpaceType)
allocate_space spacenum none spaces = spaces
allocate_space spacenum (some t) spaces = set (resize spacenum spaces) spacenum (some t)

-- The loop of `memory_manager::allocate` over the configurations from `spacenum` on.
unfoldable pub allocate_from :
    ℕ
    → List (Option AddressSpaceConfig)
    → List (Option SpaceType)
    → Result (List (Option SpaceType))
allocate_from spacenum [] spaces = ok spaces
allocate_from spacenum (none ∷ configs) spaces = allocate_from (suc spacenum) configs spaces
allocate_from spacenum (some c ∷ configs) spaces = do
  found ← space_type c
  allocate_from (suc spacenum) configs (allocate_space spacenum found spaces)

-- `memory_manager::allocate` for a device without address spaces.
unfoldable pub allocate : List (Option AddressSpaceConfig) → Result (List (Option SpaceType))
allocate configs = allocate_from 0 configs []
