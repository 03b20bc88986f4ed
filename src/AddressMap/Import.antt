-- ===== src/AddressMap/Import.antt =====
-- `address_map::import_submaps`: an entry that refers to the map of another device gives way to the
-- entries of that map. The list of entries is in two parts: `before` ends with `prev`, and `entry` is
-- the first of the rest. The drivers' maps and the search for a device are parameters.
use Prim.Native.Nat.{bit_and, bit_or}
use remame.Base.{
  ℕ, zero, suc, ◌+◌, ◌-◌, ◌*◌, ◌/◌, ◌^◌, Bool, true, false, ◌&&◌, ◌||◌, not, ltb, ◌==◌,
  if◌then◌else◌, List, [], ◌∷◌, ◌++◌, Option, none, some,
}
use remame.Base.Int.{ℤ, ltb_ℤ}
use remame.Base.HasBit.{has_bit}
use remame.Base.Word.{u32}
use remame.Base.Result.{Fatal, Result, ok, fatal, out_of_fuel, ◌>>=◌}
use remame.AddressMap.{MapHandlerType, amh_device_submap, Delegate, AddressMapEntry, AddressMap}

-- `machine.device(owner.subtag(tag))`, and the call of a delegate bound to a device on a map.
pub record Devices : Type 0 where
  pub find_device : ℕ → Option ℕ → Option ℕ
  pub fill : Delegate → ℕ → AddressMap → AddressMap

abbrev pub is_submap_type : MapHandlerType → Bool
is_submap_type amh_device_submap = true
is_submap_type _ = false

abbrev pub is_submap : AddressMapEntry → Bool
is_submap entry = is_submap_type entry.read.type

unfoldable pub map_device : Devices → ℕ → AddressMapEntry → Result ℕ
map_device devices owner entry = elim entry.submap_device [
  | some device ↦ ok device
  | none ↦ elim (devices.find_device owner entry.read.tag) [
    | none ↦ fatal Fatal.no_submap_device
    | some device ↦ ok device
  ]
]

-- The constructor of `address_map` for a submap.
unfoldable pub submap_of : Devices → ℕ → AddressMapEntry → AddressMap
submap_of devices device entry =
    devices.fill entry.submap_delegate device
      (record { spacenum = 0; device = device; unmapval = 0; globalmask = 0; entrylist = [] })

unfoldable pub base_unitmask : ℕ → ℕ
base_unitmask data_width = (2 ^ 64 - 1) / 2 ^ (64 - data_width)

-- The loops that count bits and make a new mask, after `i` rounds.
unfoldable pub count_bits : ℕ → ℕ → ℕ
count_bits mask zero = 0
count_bits mask (suc i) = let n = count_bits mask i in if has_bit mask i then n + 1 else n

unfoldable pub merged_mask : ℕ → ℕ → ℕ → ℕ × ℕ
merged_mask outer inner zero = (0, 0)
merged_mask outer inner (suc i) =
    let (newmask, bit_in_subentry) = merged_mask outer inner i in
    if has_bit outer i
    then (
      if has_bit inner bit_in_subentry then bit_or newmask (2 ^ i) else newmask,
      bit_in_subentry + 1,
    )
    else (newmask, bit_in_subentry)

abbrev pub clipped : ℕ → AddressMapEntry → ℕ
clipped max_end subentry = if ltb max_end subentry.addrend then max_end else subentry.addrend

unfoldable pub place_plain : AddressMapEntry → ℕ → AddressMapEntry → AddressMapEntry
place_plain entry max_end subentry = record subentry {
  addrstart = u32 (subentry.addrstart + entry.addrstart);
  addrend = u32 (clipped max_end subentry + entry.addrstart);
  addrmirror = bit_or subentry.addrmirror entry.addrmirror;
  addrmask = bit_or subentry.addrmask entry.addrmask;
  addrselect = bit_or subentry.addrselect entry.addrselect;
}

-- Deleted if it starts after the end of the entry, else inserted after `prev`.
unfoldable pub insert_entry :
    AddressMapEntry → List AddressMapEntry → AddressMapEntry → List AddressMapEntry
insert_entry entry before placed =
    if ltb entry.addrend placed.addrstart then before else before ++ (placed ∷ [])

unfoldable pub merge_plain :
    AddressMapEntry → ℕ → List AddressMapEntry → List AddressMapEntry → List AddressMapEntry
merge_plain entry max_end before [] = before
merge_plain entry max_end before (subentry ∷ rest) =
    merge_plain entry max_end (insert_entry entry before (place_plain entry max_end subentry)) rest

-- The quotient of `int`s, which traps on 0.
unfoldable pub ratio_of : ℕ → ℕ → Result ℕ
ratio_of mask data_width =
    let n = count_bits mask data_width in
    if n == 0 then fatal Fatal.division_by_zero else ok (data_width / n)

unfoldable pub remask : AddressMapEntry → ℕ → ℕ → AddressMapEntry → Result ℕ
remask entry data_width ratio subentry =
    if not (subentry.mask == 0) && not (subentry.mask == 2 ^ 64 - 1)
    then ratio_of subentry.mask data_width >>= (λ subentry_ratio.
      if ltb (data_width / 8) (ratio * subentry_ratio)
      then fatal Fatal.mask_does_not_fit
      else ok (merged_mask entry.mask subentry.mask data_width).0)
    else ok entry.mask

abbrev pub max_ℤ : ℤ → ℤ → ℤ
max_ℤ a b = if ltb_ℤ a b then b else a

unfoldable pub place_scaled : AddressMapEntry → ℕ → ℕ → ℕ → AddressMapEntry → AddressMapEntry
place_scaled entry ratio max_end newmask subentry = record subentry {
  mask = newmask;
  cswidth = max_ℤ subentry.cswidth entry.cswidth;
  addrstart = u32 (subentry.addrstart * ratio + entry.addrstart);
  addrend = u32 ((clipped max_end subentry + 1) * ratio + (2 ^ 32 - 1) + entry.addrstart);
  addrmirror = bit_or (subentry.addrmirror / ratio) entry.addrmirror;
  addrmask = bit_or (subentry.addrmask / ratio) entry.addrmask;
  addrselect = bit_or (subentry.addrselect / ratio) entry.addrselect;
}

unfoldable pub merge_scaled :
    AddressMapEntry
    → ℕ
    → ℕ
    → ℕ
    → List AddressMapEntry
    → List AddressMapEntry
    → Result (List AddressMapEntry)
merge_scaled entry data_width ratio max_end before [] = ok before
merge_scaled entry data_width ratio max_end before (subentry ∷ rest) =
    remask entry data_width ratio subentry >>= (λ newmask.
      merge_scaled entry data_width ratio max_end
        (insert_entry entry before (place_scaled entry ratio max_end newmask subentry)) rest)

-- `max_end` of the entry, and in units of its mask.
unfoldable pub window_end : AddressMapEntry → ℕ
window_end entry = u32 (entry.addrend + (2 ^ 32 - entry.addrstart))

unfoldable pub scaled_end : AddressMapEntry → ℕ → ℕ
scaled_end entry ratio = u32 (u32 (window_end entry + 1) / ratio + (2 ^ 32 - 1))

unfoldable pub is_plain : AddressMapEntry → ℕ → Bool
is_plain entry data_width =
    entry.mask == 0 || (bit_and entry.mask (base_unitmask data_width) == base_unitmask data_width)

unfoldable pub merge :
    AddressMapEntry
    → ℕ
    → List AddressMapEntry
    → List AddressMapEntry
    → Result (List AddressMapEntry)
merge entry data_width before subentries =
    if is_plain entry data_width
    then ok (merge_plain entry (window_end entry) before subentries)
    else ratio_of entry.mask data_width
      >>= (λ ratio. merge_scaled entry data_width ratio (scaled_end entry ratio) before subentries)

-- A round of the loop, with the import into a submap.
unfoldable pub import_entry :
    (ℕ → AddressMap → Result AddressMap)
    → Devices
    → ℕ
    → ℕ
    → List AddressMapEntry
    → AddressMapEntry
    → Result (List AddressMapEntry)
import_entry import_into devices owner data_width before entry =
    if is_submap entry
    then map_device devices owner entry >>= (λ device.
      import_into device (submap_of devices device entry)
      >>= (λ submap. merge entry data_width before submap.entrylist))
    else ok (before ++ (entry ∷ []))

unfoldable pub import_from :
    (ℕ → AddressMap → Result AddressMap)
    → Devices
    → ℕ
    → ℕ
    → List AddressMapEntry
    → List AddressMapEntry
    → Result (List AddressMapEntry)
import_from import_into devices owner data_width before [] = ok before
import_from import_into devices owner data_width before (entry ∷ rest) =
    import_entry import_into devices owner data_width before entry
    >>= (λ before'. import_from import_into devices owner data_width before' rest)

-- The fuel is the depth to which maps may refer to maps.
unfoldable pub import_submaps : ℕ → Devices → ℕ → ℕ → AddressMap → Result AddressMap
import_submaps zero devices owner data_width map = out_of_fuel
import_submaps (suc n) devices owner data_width map =
    import_from (λ device submap. import_submaps n devices device data_width submap) devices owner
      data_width [] map.entrylist
    >>= (λ entries. ok (record map { entrylist = entries }))
