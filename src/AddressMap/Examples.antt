-- ===== src/AddressMap/Examples.antt =====
-- The theorems on address maps, at a map of 16 bits with a submap of 8 on its lower lane.
use mathlib.Core.Path.{subst}
use mathlib.Core.Bool.{true≢false}
use remame.Base.{
  ℕ, ◌≡◌, ◌++◌, arith, sym, ap, refl, true, List, [], ◌∷◌, Option, none, some, zero, suc, ◌%◌,
}
use remame.Base.Lists.{All, no_more, and_more}
use remame.Base.Result.{Result, ok, fatal, out_of_fuel, Returns}
use remame.AddressMap.{null_delegate, AddressMapEntry, AddressMap, new_entry}
use remame.Base.HasBit.{has_bit}
use remame.AddressMap.Import.{
  Devices, count_bits, merged_mask, merge, submap_of, import_submaps, ratio_of,
}
use remame.AddressMap.Setters.{
  ram, umask16, umask32, umask64, m_tag, add_entry, SpaceMaps, MapDevice, new_address_map,
}
use remame.AddressMap.Merged.{SubmapError}
use remame.AddressMap.Flat.{Imported, IsShallow, import_submaps_lem}
use remame.AddressMap.Window.{IsWindow, Lands, IsWithin, merge-IsWithin}
use remame.AddressMap.Lanes.{IsMergedMask, merged_mask_lem}
use remame.AddressMap.Masks.{umask_lem}
use remame.AddressMap.Made.{
  AddsIf, no_map, a_map, Adds-add_entry, entries_of, MapError, new_address_map_lem,
}

-- Device 7 has a map with RAM at 0 to 3.
unfoldable ram_entry : AddressMapEntry
unfolding new_entry
ram_entry = ram (new_entry 7 0 3)

abbrev devices : Devices
devices = record { find_device = λ owner tag. some 7; fill = λ func device. add_entry 0 3 ram }

-- It is mapped at 0x100 to 0x107 of device 1, in the lower byte of each word.
abbrev through : AddressMapEntry
through = umask64 0x00ff (m_tag (some 5) null_delegate (new_entry 1 0x100 0x107))

abbrev program : AddressMap
program = record {
  spacenum = 0;
  device = 1;
  unmapval = 0;
  globalmask = 0;
  entrylist = through ∷ ram_entry ∷ [];
}

program-IsShallow : IsShallow devices 2 1 program
unfolding IsShallow submap_of add_entry ram_entry umask64 m_tag ram new_entry
program-IsShallow =
    and_more
      (λ refers device found.
        and_more (λ refers' device' found'. absurd (true≢false (sym refers'))) no_more)
      (and_more (λ refers device found. absurd (true≢false (sym refers))) no_more)

import_submaps_lem_example :
    Returns (Imported devices 16 1 program) SubmapError (import_submaps 2 devices 1 16 program)
import_submaps_lem_example = import_submaps_lem 2 devices 1 16 program program-IsShallow

abbrev value_or_zero : Result ℕ → ℕ
value_or_zero (ok n) = n
value_or_zero (fatal e) = 0
value_or_zero out_of_fuel = 0

through-ratio : (ratio : ℕ) → ratio_of through.mask 16 ≡ ok ratio → ratio ≡ 2
unfolding umask64 ratio_of count_bits
through-ratio ratio e = sym (ap value_or_zero e)

through-IsWindow : IsWindow through 16
unfolding umask64 m_tag new_entry
through-IsWindow = record {
  ordered = omega arith;
  bounded = omega arith;
  whole = λ ratio scaled e. let two = through-ratio ratio e in rw two (refl, omega arith);
}

ram_entry-Lands : Lands through 16 ram_entry
unfolding umask64 m_tag new_entry ram ram_entry
ram_entry-Lands = record {
  ordered = omega arith;
  plain = λ plain. omega arith;
  scaled = λ ratio scaled e. let two = through-ratio ratio e in rw two (omega arith);
}

merge-IsWithin_example :
    Returns
      (λ entries.
        (placed : List AddressMapEntry) × (entries ≡ [] ++ placed) × All (IsWithin through) placed)
      SubmapError
      (merge through 16 [] (ram_entry ∷ []))
merge-IsWithin_example =
    merge-IsWithin through 16 [] (ram_entry ∷ []) through-IsWindow
      (and_more ram_entry-Lands no_more)

-- The upper lane of a mask of two lanes, of which the submap uses the lower half.
merged_mask_lem_example : IsMergedMask 0xff00 0x000f 16 (merged_mask 0xff00 0x000f 16)
merged_mask_lem_example = merged_mask_lem 0xff00 0x000f 16

umask_lem_example :
    (has_bit (umask16 0x00ff ram_entry).mask 37 ≡ has_bit 0x00ff (37 % 16))
    × (has_bit (umask32 0xff0000 ram_entry).mask 37 ≡ has_bit 0xff0000 (37 % 32))
umask_lem_example = umask_lem 0x00ff 0xff0000 ram_entry 37 (omega arith) (omega arith) (omega arith)

-- Device 7 with RAM that its owner, device 1, maps at 0, and at 4 by itself.
abbrev spaces : ℕ → Option SpaceMaps
spaces zero = some (record { default_map = none; internal_map = some (add_entry 4 7 ram) })
spaces (suc n) = none

abbrev processor : MapDevice
processor = record {
  device = 7;
  owner = 1;
  has_memory = true;
  space_maps = spaces;
  addrmap = λ spacenum. some (add_entry 0 3 ram);
}

abbrev owners : ℕ → List AddressMapEntry
owners device = ram (new_entry device 0 3) ∷ []

abbrev internals : ℕ → List AddressMapEntry
internals device = ram (new_entry device 4 7) ∷ []

abbrev or_none : Option SpaceMaps → Option (AddressMap → AddressMap)
or_none none = none
or_none (some s) = s.default_map

abbrev or_internal : Option SpaceMaps → Option (AddressMap → AddressMap)
or_internal none = none
or_internal (some s) = s.internal_map

processor_maps :
    (s : SpaceMaps)
    → processor.space_maps 0 ≡ some s
    → AddsIf s.default_map (λ device. []) × AddsIf s.internal_map internals
processor_maps s e =
    let default : none ≡ s.default_map = ap or_none e in
    let internal : some (add_entry 4 7 ram) ≡ s.internal_map = ap or_internal e in
    (
      subst (λ (o : Option (AddressMap → AddressMap)). AddsIf o (λ device. [])) default no_map,
      subst (λ (o : Option (AddressMap → AddressMap)). AddsIf o internals) internal
          (a_map (Adds-add_entry 4 7 ram)),
    )

new_address_map_lem_example :
    Returns
      (λ map.
        (map.entrylist ≡ entries_of processor 0 owners (λ device. []) internals) × (map.device ≡ 7))
      (MapError processor 0)
      (new_address_map processor 0)
new_address_map_lem_example =
    new_address_map_lem processor 0 owners (λ device. []) internals (a_map (Adds-add_entry 0 3 ram))
      processor_maps
