-- ===== src/DirectRead/Examples.antt =====
-- The theorems on direct reads in a space of 16 bits whose every address is of bank 1.
use Prim.Native.Nat.{bit_and}
use remame.Base.{
  ◌+◌, ◌≡◌, refl, arith, true, ◌==◌, if◌then◌else◌, Bool-cases, ==→≡, inl, inr, [], ◌∷◌,
}
use remame.Base.Lists.{no_more, and_more}
use remame.Base.Int.{negsuc}
use remame.Base.Result.{Returns, Flawless}
use remame.AddressTable.{
  AddressTable, new_table, lookup_live_nowp, lookup_live_large_nowp, subtable_base,
}
use remame.AddressTable.Core.{core, IsSound, l1_size, count_none}
use remame.AddressTable.Merge.{nowhere}
use remame.AddressTable.Uses.{Exhausted}
use remame.AddressTable.Populate.{populate_range}
use remame.AddressTable.Derive.{mirrored_start_end, derive_range, derive_fuel}
use remame.AddressTable.Derived.{Start, End, derive_range-lookup}
use remame.DirectRead.{
  DirectReadData, AddressSpace, new_direct_read_data, find_range, remove_intersecting_ranges,
  read_ptr, MemoryAccess, read_byte, read_word, read_dword, read_qword,
}
use remame.DirectRead.Ranges.{
  IsCoherent, FoundRange, find_range-FoundRange, populate_range-IsCoherent,
}
use remame.DirectRead.Window.{IsLive, direct_pointer, read_ptr-direct_pointer}
use remame.DirectRead.Reads.{IsRead, ReadsAbove, reads-direct_pointer}

abbrev banked : AddressTable
banked = record (new_table true) { table = λ i. 1 }

banked-IsSound : IsSound nowhere (core banked)
unfolding new_table
banked-IsSound = record {
  is_large = refl;
  counted = λ j hj.
      ground (arith, count_none l1_size (j + subtable_base) (λ i. 1) (λ i hi. ground arith));
  top = λ i hi. omega arith;
  plain = λ j k hj hk nj pos. omega arith;
  room = λ j hj h. refl;
  stepped = refl;
  within = omega arith;
  sized = refl;
}

abbrev space : AddressSpace
space = record {
  addrmask = 0xffff;
  read = banked;
  handler_read = λ entry. record { addrstart = 0; addrend = 0xffff; addrmask = 0xffff };
  bank_pointer = λ entry. 0x10_0000;
}

abbrev fresh : DirectReadData
fresh = new_direct_read_data space

fresh-IsCoherent : IsCoherent (lookup_live_nowp banked) fresh
unfolding new_direct_read_data
fresh-IsCoherent entry = no_more

fresh-IsLive : IsLive (negsuc 0) space fresh
unfolding new_direct_read_data
fresh-IsLive = record {
  looks = λ x a b. absurd (omega arith);
  bank = λ h. absurd (omega arith);
  origin_there = λ h. absurd (omega arith);
  mask_there = λ h. absurd (omega arith);
}

-- A range that was found before.
abbrev cached : DirectReadData
cached = record fresh {
  rangelist =
      λ entry. if entry == 1 then record { addrstart = 0x100; addrend = 0x1ff } ∷ [] else [];
}

cached-IsCoherent : IsCoherent (lookup_live_nowp banked) cached
unfolding lookup_live_nowp lookup_live_large_nowp new_table
cached-IsCoherent entry = elim (Bool-cases (entry == 1)) [
  | inl bank ↦
      rw (bank, ==→≡ entry 1 bank)
        (and_more (record { in_space = omega arith; same = λ x a b. refl }) no_more)
  | inr other ↦ rw other no_more
]

derive_range-lookup_example :
    Returns
      (λ d.
        (d.entry ≡ lookup_live_nowp banked 0x4010)
        × Start
            (lookup_live_nowp banked)
            (mirrored_start_end (space.handler_read d.entry) 0x4010).0
            d.entry
            0x4010
            d.addrstart
        × End
            (lookup_live_nowp banked)
            (mirrored_start_end (space.handler_read d.entry) 0x4010).1
            d.entry
            0x4010
            d.addrend)
      Flawless
      (derive_range derive_fuel space.handler_read 0x4010 banked)
derive_range-lookup_example =
    derive_range-lookup banked banked-IsSound space.handler_read 0x4010 (omega arith)

find_range-FoundRange_example :
    Returns
      (FoundRange (lookup_live_nowp banked) (bit_and 0x14010 0xffff) cached)
      Flawless
      (find_range 0x14010 space cached)
find_range-FoundRange_example =
    find_range-FoundRange space banked-IsSound 0x14010 cached (omega arith) cached-IsCoherent

populate_range-IsCoherent_example :
    Returns
      (λ t'. IsCoherent (lookup_live_nowp t') (remove_intersecting_ranges 0x180 0x27f cached))
      Exhausted
      (populate_range 0x180 0x27f 7 banked)
populate_range-IsCoherent_example =
    populate_range-IsCoherent banked 0x180 0x27f 7 cached banked-IsSound (omega arith) (omega arith)
      cached-IsCoherent

read_ptr-direct_pointer_example :
    Returns
      (λ r.
        (r.1 ≡ direct_pointer (negsuc 0) space 0x4010 1)
        × IsCoherent (lookup_live_nowp banked) r.0
        × IsLive (negsuc 0) space r.0)
      Flawless
      (read_ptr (negsuc 0) 0x4010 1 space fresh)
read_ptr-direct_pointer_example =
    read_ptr-direct_pointer (negsuc 0) space banked-IsSound (omega arith) 0x4010 (omega arith) refl
      1 fresh fresh-IsCoherent fresh-IsLive

abbrev access : MemoryAccess
access = record { load = λ size pointer. pointer; read = λ size address. 0xff }

reads-direct_pointer_example :
    ReadsAbove
      (negsuc 0)
      space
      0x4010
      1
      access
      (negsuc 0)
      1
      (read_byte (negsuc 0) 0x4010 1 access space fresh)
    × ReadsAbove
        (negsuc 0)
        space
        0x4010
        1
        access
        (negsuc 1)
        2
        (read_word (negsuc 0) 0x4010 1 access space fresh)
    × ReadsAbove
        (negsuc 0)
        space
        0x4010
        1
        access
        (negsuc 2)
        4
        (read_dword (negsuc 0) 0x4010 1 access space fresh)
    × Returns
        (IsRead (negsuc 0) space 0x4010 1 access 8)
        Flawless
        (read_qword (negsuc 0) 0x4010 1 access space fresh)
reads-direct_pointer_example =
    reads-direct_pointer (negsuc 0) space 0x4010 1 access banked-IsSound (omega arith) (omega arith)
      refl fresh fresh-IsCoherent fresh-IsLive
