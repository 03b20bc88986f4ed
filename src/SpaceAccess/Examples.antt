-- ===== src/SpaceAccess/Examples.antt =====
-- The theorems on `read_direct` and `write_direct` at 4 bytes from an odd address of a bank of 16-bit
-- words.
use Prim.Native.Nat.{bit_and}
use mathlib.Core.Bool.{false≢true}
use remame.Base.{ℕ, ◌+◌, ◌%◌, ◌^◌, ◌<◌, ◌≡◌, ◌∙◌, refl, arith, false}
use remame.Base.Int.{pos, ◌-ℤ◌}
use remame.Base.Word.{u32_of}
use remame.Base.Bits.{bit_and_low}
use remame.AddressTable.{AddressTable, lookup_live_nowp, lookup_live_small_nowp, new_table}
use remame.SpaceAccess.{read_direct, offset_to_byte}
use remame.SpaceAccess.Write.{write_direct}
use remame.SpaceAccess.Native.{
  NativeSpace, NativeState, lookup_live, handler_offset, native_entry, byte_offset, native_pointer,
  read_native, write_native,
}
use remame.SpaceAccess.Ram.{IsMapped, ram_bit}
use remame.SpaceAccess.Stored.{IsStored, asked}
use remame.SpaceAccess.Written.{write_direct-IsStored}
use remame.SpaceAccess.Little.{little, IsRead}
use remame.SpaceAccess.Direct.{read_direct-IsRead}

-- Every address is in the first bank.
abbrev bank_table : AddressTable
bank_table = record (new_table false) { table = λ address. 1 }

abbrev space : NativeSpace
space = record {
  addrmask = 0xffff;
  table = bank_table;
  handler = λ entry. record { addrstart = 0; addrend = 0xffff; addrmask = 0xffff };
  rambase = λ entry. 0x10_0000;
}

-- The device counts the accesses.
abbrev state : NativeState ℕ
state = record { ram = λ pointer. pointer % 2 ^ 8; device = 0 }

abbrev read_count : ℕ → ℕ → ℕ → NativeState ℕ → ℕ × NativeState ℕ
read_count entry offset mask s = (0, record s { device = s.device + 1 })

abbrev write_count : ℕ → ℕ → ℕ → ℕ → NativeState ℕ → NativeState ℕ
write_count entry offset value mask s = record s { device = s.device + 1 }

native_entry_lem : (address : ℕ) → native_entry space address ≡ 1
unfolding native_entry lookup_live lookup_live_nowp lookup_live_small_nowp new_table
native_entry_lem address = refl

offset_in_space :
    (address : ℕ) → address < 0x1_0000 → byte_offset (little 1) space address ≡ address
unfolding byte_offset offset_to_byte handler_offset ◌-ℤ◌
offset_in_space address below =
    let masked : bit_and address 0xffff ≡ address = bit_and_low 16 address ∙ omega (arith, below) in
    let kept : u32_of (pos address -ℤ pos 0) ≡ address = ground (arith, below) in
    rw (masked, kept, masked) (omega arith)

space-IsMapped : IsMapped (little 1) space 0x10_0000 2 9
unfolding native_pointer
space-IsMapped = record {
  is_memory = λ address from until. omega (arith, native_entry_lem address);
  contiguous = λ address from until. omega (arith, offset_in_space address (omega (arith, until)));
}

read_direct-IsRead_example :
    IsRead state
      (ram_bit 0x10_0000 state.ram)
      32
      3
      0xffffffff
      (read_direct (read_native read_count (little 1) space) (little 1) false 4 3 0xffffffff state)
read_direct-IsRead_example =
    read_direct-IsRead read_count space 1 2 0x10_0000 3 0xffffffff false state space-IsMapped
      (omega arith) (λ all. absurd (false≢true all))

write_direct-IsStored_example :
    IsStored
      (λ (s : NativeState ℕ). ram_bit 0x10_0000 s.ram)
      24
      0xdeadbeef
      state
      (asked 24 0xffffff00 32)
      (write_direct
        (write_native write_count (little 1) space)
        (little 1)
        false
        4
        3
        0xdeadbeef
        0xffffff00
        state)
write_direct-IsStored_example =
    write_direct-IsStored write_count space 1 2 0x10_0000 3 0xdeadbeef 0xffffff00 false state
      space-IsMapped (omega arith) (λ all. absurd (false≢true all)) (omega arith)
