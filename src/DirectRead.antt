-- ===== src/DirectRead.antt =====
-- `direct_read_data` (source/emucore/memory/direct_read_data.h and emumem.cpp), which lets a processor
-- read its program from a memory bank without a lookup for every access, and the functions of
-- `address_space` that drop what it knows. The template's `AddrShift` is an argument; pointers are
-- 64-bit numbers, and what is loaded through one, or read by the address space, is a function.
mod Ranges
mod Window
mod Reads
mod Examples
use Prim.Native.Nat.{bit_and, bit_or, bit_xor}
use remame.Base.{
  ℕ, zero, suc, ◌+◌, ◌-◌, ◌*◌, ◌/◌, ◌%◌, ◌^◌, Bool, true, false, ◌&&◌, ◌||◌, ltb, leb, ◌==◌,
  if◌then◌else◌, List, [], ◌∷◌, Option, none, some,
}
use remame.Base.Int.{ℤ, pos, negsuc, leb_ℤ, eqb_ℤ}
use remame.Base.Result.{Fatal, Result, ok, fatal, ◌>>=◌}
use remame.AddressTable.{
  AddressTable, lookup_live_nowp, static_bank1, static_bankmax, static_unmap, update,
}
use remame.AddressTable.Derive
use remame.AddressTable.Derive.{HandlerRange, complement, derive_range, derive_fuel}

pub record DirectRange : Type 0 where
  pub addrstart : ℕ
  pub addrend : ℕ

pub record DirectReadData : Type 0 where
  pub ptr : ℕ
  pub addrmask : ℕ
  pub addrstart : ℕ
  pub addrend : ℕ
  pub entry : ℕ
  pub rangelist : ℕ → List DirectRange

-- What it asks its address space, the memory manager's base pointers among it.
pub record AddressSpace : Type 0 where
  pub addrmask : ℕ
  pub read : AddressTable
  pub handler_read : ℕ → HandlerRange
  pub bank_pointer : ℕ → ℕ

-- The memory behind a pointer, and reads by the address space, of so many bytes.
pub record MemoryAccess : Type 0 where
  pub load : ℕ → ℕ → ℕ
  pub read : ℕ → ℕ → ℕ

unfoldable pub new_direct_read_data : AddressSpace → DirectReadData
new_direct_read_data space = record {
  ptr = 0;
  addrmask = space.addrmask;
  addrstart = 1;
  addrend = 0;
  entry = static_unmap;
  rangelist = λ i. [];
}

-- The loop of `find_range`.
unfoldable pub find_in : ℕ → List DirectRange → Option DirectRange
find_in address [] = none
find_in address (r ∷ rs) =
    if leb r.addrstart address && leb address r.addrend then some r else find_in address rs

-- A range for an entry: the one found, or a new one at the front.
unfoldable pub keep_range :
    ℕ
    → ℕ
    → AddressSpace
    → DirectReadData
    → Option DirectRange
    → Result (DirectReadData × DirectRange)
keep_range address entry space d (some r) = ok (d, r)
keep_range address entry space d none = do
  derived ← derive_range derive_fuel space.handler_read address space.read
  let range : DirectRange = record { addrstart = derived.addrstart; addrend = derived.addrend }
  ok (record d { rangelist = update d.rangelist entry (range ∷ d.rangelist entry) }, range)

-- The entry goes to `m_entry`, as in the call.
unfoldable pub find_range :
    ℕ → AddressSpace → DirectReadData → Result (DirectReadData × DirectRange)
find_range address space d =
    let masked = bit_and address space.addrmask in
    let entry = lookup_live_nowp space.read masked in
    keep_range masked entry space (record d { entry = entry }) (find_in masked (d.rangelist entry))

unfoldable pub offset_to_byte : ℤ → ℕ → ℕ
offset_to_byte (pos k) offset = offset / 2 ^ k
offset_to_byte (negsuc k) offset = offset * 2 ^ suc k % 2 ^ 32

-- No address is in bounds.
unfoldable pub force_update : DirectReadData → DirectReadData
force_update d = record d { addrstart = 1; addrend = 0 }

unfoldable pub force_update_if : ℕ → DirectReadData → DirectReadData
force_update_if if_match d = if d.entry == if_match then force_update d else d

-- The second half of `set_direct_region`. Its shift of `delta` is that of `offset_to_byte`.
unfoldable pub set_window :
    ℤ → ℕ → AddressSpace → DirectReadData → DirectRange → DirectReadData × Bool
set_window shift address space d range =
    if ltb d.entry static_bank1 || ltb static_bankmax d.entry
    then (record d { addrstart = 1; addrend = 0 }, false)
    else let maskedbits = bit_and address (complement space.addrmask) in
      let handler = space.handler_read d.entry in
      let delta = offset_to_byte shift (bit_and handler.addrstart handler.addrmask) in
      (
        record d {
          addrmask = handler.addrmask;
          ptr = (space.bank_pointer d.entry + 2 ^ 64 - delta) % 2 ^ 64;
          addrstart = bit_or maskedbits range.addrstart;
          addrend = bit_or maskedbits range.addrend;
        },
        true,
      )

unfoldable pub set_direct_region :
    ℤ → ℕ → AddressSpace → DirectReadData → Result (DirectReadData × Bool)
set_direct_region shift address space d = do
  (d', range) ← find_range address space d
  ok (set_window shift address space d' range)

unfoldable pub address_is_valid :
    ℤ → ℕ → AddressSpace → DirectReadData → Result (DirectReadData × Bool)
address_is_valid shift address space d =
    if leb d.addrstart address && leb address d.addrend
    then ok (d, true)
    else set_direct_region shift address space d

-- The pointer to an address in bounds.
unfoldable pub pointer_of : ℤ → ℕ → ℕ → DirectReadData → ℕ
pointer_of shift address directxor d =
    (d.ptr + offset_to_byte shift (bit_and (bit_xor address directxor) d.addrmask)) % 2 ^ 64

unfoldable pub read_ptr :
    ℤ → ℕ → ℕ → AddressSpace → DirectReadData → Result (DirectReadData × Option ℕ)
read_ptr shift address directxor space d = do
  (d', valid) ← address_is_valid shift address space d
  ok (d', if valid then some (pointer_of shift address directxor d') else none)

-- What `read_byte` and the others do after their test of the shift.
unfoldable pub read_bytes :
    ℕ → ℤ → ℕ → ℕ → MemoryAccess → AddressSpace → DirectReadData → Result (DirectReadData × ℕ)
read_bytes size shift address directxor reads space d = do
  (d', valid) ← address_is_valid shift address space d
  ok (
    d',
    if valid
        then reads.load size (pointer_of shift address directxor d')
        else reads.read size address,
  )

unfoldable pub read_byte :
    ℤ → ℕ → ℕ → MemoryAccess → AddressSpace → DirectReadData → Result (DirectReadData × ℕ)
read_byte shift address directxor reads space d =
    if leb_ℤ shift (negsuc 0)
    then fatal Fatal.address_shift
    else read_bytes 1 shift address directxor reads space d

unfoldable pub read_word :
    ℤ → ℕ → ℕ → MemoryAccess → AddressSpace → DirectReadData → Result (DirectReadData × ℕ)
read_word shift address directxor reads space d =
    if leb_ℤ shift (negsuc 1)
    then fatal Fatal.address_shift
    else read_bytes 2 shift address directxor reads space d

unfoldable pub read_dword :
    ℤ → ℕ → ℕ → MemoryAccess → AddressSpace → DirectReadData → Result (DirectReadData × ℕ)
read_dword shift address directxor reads space d =
    if leb_ℤ shift (negsuc 2)
    then fatal Fatal.address_shift
    else read_bytes 4 shift address directxor reads space d

unfoldable pub read_qword :
    ℤ → ℕ → ℕ → MemoryAccess → AddressSpace → DirectReadData → Result (DirectReadData × ℕ)
read_qword shift address directxor reads space d =
    read_bytes 8 shift address directxor reads space d

-- The ranges of one entry without those that intersect.
unfoldable pub remove_from : ℕ → ℕ → List DirectRange → List DirectRange
remove_from addrstart addrend [] = []
remove_from addrstart addrend (r ∷ rs) =
    if leb addrstart r.addrend && leb r.addrstart addrend
    then remove_from addrstart addrend rs
    else r ∷ remove_from addrstart addrend rs

unfoldable pub remove_intersecting_ranges : ℕ → ℕ → DirectReadData → DirectReadData
remove_intersecting_ranges addrstart addrend d = record d {
  rangelist = λ entry. remove_from addrstart addrend (d.rangelist entry);
}

-- The switch of the three `invalidate_read_caches`.
abbrev pub is_address_shift : ℤ → Bool
is_address_shift shift =
    eqb_ℤ shift (pos 3)
    || eqb_ℤ shift (pos 0)
    || eqb_ℤ shift (negsuc 0)
    || eqb_ℤ shift (negsuc 1)
    || eqb_ℤ shift (negsuc 2)

unfoldable pub invalidate_read_caches : ℤ → DirectReadData → DirectReadData
invalidate_read_caches shift d = if is_address_shift shift then force_update d else d

unfoldable pub invalidate_entry : ℤ → ℕ → DirectReadData → DirectReadData
invalidate_entry shift entry d = if is_address_shift shift then force_update_if entry d else d

unfoldable pub invalidate_range : ℤ → ℕ → ℕ → DirectReadData → DirectReadData
invalidate_range shift start end d =
    if is_address_shift shift then remove_intersecting_ranges start end d else d
