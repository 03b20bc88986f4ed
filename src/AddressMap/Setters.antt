-- ===== src/AddressMap/Setters.antt =====
-- The functions by which a driver describes an entry of its map, and the constructors of a map. A
-- driver's map is a function on maps, a parameter.
use Prim.Native.Nat.{bit_and, bit_or}
use remame.Base.{
  ℕ, ◌*◌, ◌%◌, ◌^◌, Bool, not, ◌==◌, if◌then◌else◌, [], ◌∷◌, ◌++◌, Option, none, some,
}
use remame.Base.Int.{ℤ}
use remame.Base.Result.{Fatal, Result, ok, fatal}
use remame.AddressMap.{
  MapHandlerType, amh_ram, amh_rom, amh_nop, amh_unmap, amh_device_delegate, amh_port, amh_bank,
  amh_device_submap, MapHandlerData, Delegate, AddressMapEntry, AddressMap, new_entry,
}

abbrev pub typed : MapHandlerType → MapHandlerData → MapHandlerData
typed type d = record d { type = type }

abbrev pub tagged : MapHandlerType → Option ℕ → MapHandlerData → MapHandlerData
tagged type tag d = record d { type = type; tag = tag }

abbrev pub delegated : ℕ → Delegate → MapHandlerData → MapHandlerData
delegated bits func d = record d { type = amh_device_delegate; bits = bits; name = func.name }

unfoldable pub set_read_type : MapHandlerType → AddressMapEntry → AddressMapEntry
set_read_type type e = record e { read = typed type e.read }

unfoldable pub set_write_type : MapHandlerType → AddressMapEntry → AddressMapEntry
set_write_type type e = record e { write = typed type e.write }

unfoldable pub mirror : ℕ → AddressMapEntry → AddressMapEntry
mirror addrmirror e = record e { addrmirror = addrmirror }

unfoldable pub select : ℕ → AddressMapEntry → AddressMapEntry
select addrselect e = record e { addrselect = addrselect }

unfoldable pub region : Option ℕ → ℕ → AddressMapEntry → AddressMapEntry
region tag offset e = record e { region = tag; rgnoffs = offset }

unfoldable pub share : Option ℕ → AddressMapEntry → AddressMapEntry
share tag e = record e { share = tag }

unfoldable pub cswidth : ℤ → AddressMapEntry → AddressMapEntry
cswidth width e = record e { cswidth = width }

unfoldable pub rom : AddressMapEntry → AddressMapEntry
rom e = record e { read = typed amh_rom e.read }

unfoldable pub ram : AddressMapEntry → AddressMapEntry
ram e = record e { read = typed amh_ram e.read; write = typed amh_ram e.write }

unfoldable pub readonly : AddressMapEntry → AddressMapEntry
readonly e = record e { read = typed amh_ram e.read }

unfoldable pub writeonly : AddressMapEntry → AddressMapEntry
writeonly e = record e { write = typed amh_ram e.write }

unfoldable pub unmaprw : AddressMapEntry → AddressMapEntry
unmaprw e = record e { read = typed amh_unmap e.read; write = typed amh_unmap e.write }

unfoldable pub unmapr : AddressMapEntry → AddressMapEntry
unmapr e = record e { read = typed amh_unmap e.read }

unfoldable pub unmapw : AddressMapEntry → AddressMapEntry
unmapw e = record e { write = typed amh_unmap e.write }

unfoldable pub noprw : AddressMapEntry → AddressMapEntry
noprw e = record e { read = typed amh_nop e.read; write = typed amh_nop e.write }

unfoldable pub nopr : AddressMapEntry → AddressMapEntry
nopr e = record e { read = typed amh_nop e.read }

unfoldable pub nopw : AddressMapEntry → AddressMapEntry
nopw e = record e { write = typed amh_nop e.write }

unfoldable pub portr : Option ℕ → AddressMapEntry → AddressMapEntry
portr tag e = record e { read = tagged amh_port tag e.read }

unfoldable pub portw : Option ℕ → AddressMapEntry → AddressMapEntry
portw tag e = record e { write = tagged amh_port tag e.write }

unfoldable pub portrw : Option ℕ → AddressMapEntry → AddressMapEntry
portrw tag e = portw tag (portr tag e)

unfoldable pub bankr : Option ℕ → AddressMapEntry → AddressMapEntry
bankr tag e = record e { read = tagged amh_bank tag e.read }

unfoldable pub bankw : Option ℕ → AddressMapEntry → AddressMapEntry
bankw tag e = record e { write = tagged amh_bank tag e.write }

unfoldable pub bankrw : Option ℕ → AddressMapEntry → AddressMapEntry
bankrw tag e = bankw tag (bankr tag e)

-- `mask`, with `m_globalmask` of the map.
unfoldable pub set_mask : ℕ → ℕ → AddressMapEntry → AddressMapEntry
set_mask globalmask mask e = record e {
  addrmask = if globalmask == 0 then mask else bit_and mask globalmask;
}

-- A shift to the left is a product; none of these goes beyond 64 bits.
unfoldable pub umask16 : ℕ → AddressMapEntry → AddressMapEntry
umask16 m e = record e { mask = bit_or (bit_or (bit_or (m * 2 ^ 48) (m * 2 ^ 32)) (m * 2 ^ 16)) m }

unfoldable pub umask32 : ℕ → AddressMapEntry → AddressMapEntry
umask32 m e = record e { mask = bit_or (m * 2 ^ 32) m }

unfoldable pub umask64 : ℕ → AddressMapEntry → AddressMapEntry
umask64 m e = record e { mask = m }

-- `m`, by a tag and by a device.
unfoldable pub m_tag : Option ℕ → Delegate → AddressMapEntry → AddressMapEntry
m_tag tag func e = record e {
  read = tagged amh_device_submap tag e.read;
  write = tagged amh_device_submap tag e.write;
  submap_device = none;
  submap_delegate = func;
}

unfoldable pub m_device : Option ℕ → Delegate → AddressMapEntry → AddressMapEntry
m_device device func e = record e {
  read = tagged amh_device_submap none e.read;
  write = tagged amh_device_submap none e.write;
  submap_device = device;
  submap_delegate = func;
}

-- `r`, `w` and `rw`, by the width of the delegates.
unfoldable pub r8 : Delegate → AddressMapEntry → AddressMapEntry
r8 func e = record e { read = delegated 8 func e.read; rproto8 = func }

unfoldable pub w8 : Delegate → AddressMapEntry → AddressMapEntry
w8 func e = record e { write = delegated 8 func e.write; wproto8 = func }

unfoldable pub rw8 : Delegate → Delegate → AddressMapEntry → AddressMapEntry
rw8 rfunc wfunc e = w8 wfunc (r8 rfunc e)

unfoldable pub r16 : Delegate → AddressMapEntry → AddressMapEntry
r16 func e = record e { read = delegated 16 func e.read; rproto16 = func }

unfoldable pub w16 : Delegate → AddressMapEntry → AddressMapEntry
w16 func e = record e { write = delegated 16 func e.write; wproto16 = func }

unfoldable pub rw16 : Delegate → Delegate → AddressMapEntry → AddressMapEntry
rw16 rfunc wfunc e = w16 wfunc (r16 rfunc e)

unfoldable pub r32 : Delegate → AddressMapEntry → AddressMapEntry
r32 func e = record e { read = delegated 32 func e.read; rproto32 = func }

unfoldable pub w32 : Delegate → AddressMapEntry → AddressMapEntry
w32 func e = record e { write = delegated 32 func e.write; wproto32 = func }

unfoldable pub rw32 : Delegate → Delegate → AddressMapEntry → AddressMapEntry
rw32 rfunc wfunc e = w32 wfunc (r32 rfunc e)

unfoldable pub r64 : Delegate → AddressMapEntry → AddressMapEntry
r64 func e = record e { read = delegated 64 func e.read; rproto64 = func }

unfoldable pub w64 : Delegate → AddressMapEntry → AddressMapEntry
w64 func e = record e { write = delegated 64 func e.write; wproto64 = func }

unfoldable pub rw64 : Delegate → Delegate → AddressMapEntry → AddressMapEntry
rw64 rfunc wfunc e = w64 wfunc (r64 rfunc e)

unfoldable pub setoffset : Delegate → AddressMapEntry → AddressMapEntry
setoffset func e = record e { setoffsethd = delegated 0 func e.setoffsethd; soproto = func }

unfoldable pub global_mask : ℕ → AddressMap → AddressMap
global_mask mask map = record map { globalmask = mask }

unfoldable pub unmap_value_low : AddressMap → AddressMap
unmap_value_low map = record map { unmapval = 0 }

-- `~0`, in a `u8`.
unfoldable pub unmap_value_high : AddressMap → AddressMap
unmap_value_high map = record map { unmapval = 255 }

unfoldable pub unmap_value : ℕ → AddressMap → AddressMap
unmap_value value map = record map { unmapval = value }

-- `operator()`, with what the driver does to the entry returned.
unfoldable pub add_entry : ℕ → ℕ → (AddressMapEntry → AddressMapEntry) → AddressMap → AddressMap
add_entry start end describe map = record map {
  entrylist = map.entrylist ++ (describe (new_entry map.device start end) ∷ []);
}

-- `m_default_map` and `m_internal_map` of a space's configuration.
pub record SpaceMaps : Type 0 where
  pub default_map : Option (AddressMap → AddressMap)
  pub internal_map : Option (AddressMap → AddressMap)

-- What the constructor asks of a device: its owner, and of its memory interface the configuration of a
-- space and the map that the owner gave.
pub record MapDevice : Type 0 where
  pub device : ℕ
  pub owner : ℕ
  pub has_memory : Bool
  pub space_maps : ℕ → Option SpaceMaps
  pub addrmap : ℕ → Option (AddressMap → AddressMap)

unfoldable pub call_map : Option (AddressMap → AddressMap) → AddressMap → AddressMap
call_map none map = map
call_map (some f) map = f map

abbrev pub set_device : ℕ → AddressMap → AddressMap
set_device device map = record map { device = device }

unfoldable pub own_map : MapDevice → ℕ → SpaceMaps → AddressMap → AddressMap
own_map d spacenum spaceconfig map = elim (d.addrmap spacenum) [
  | some f ↦ set_device d.device (f (set_device d.owner map))
  | none ↦ call_map spaceconfig.default_map map
]

unfoldable pub new_address_map : MapDevice → ℕ → Result AddressMap
new_address_map d spacenum =
    if not d.has_memory then fatal Fatal.no_memory_interface else elim (d.space_maps spacenum) [
      | none ↦ fatal Fatal.no_space_config
      | some spaceconfig ↦ ok (
          call_map spaceconfig.internal_map (
            own_map d spacenum spaceconfig (record {
              spacenum = spacenum;
              device = d.device;
              unmapval = 0;
              globalmask = 0;
              entrylist = [];
            })))
    ]

-- The constructor for a device mapped while the machine runs. `DEVICE_SELF` is the empty tag.
unfoldable pub new_dynamic_map : ℕ → ℕ → ℕ → ℕ → ℕ → ℕ → ℤ → ℕ → ℕ → Delegate → AddressMap
new_dynamic_map spacenum unmap addrmask start end unitmask width device self submap_delegate =
    add_entry start end
      (λ e. cswidth width (umask64 unitmask (m_tag (some self) submap_delegate e)))
      (record {
        spacenum = spacenum;
        device = device;
        unmapval = unmap % 256;
        globalmask = addrmask;
        entrylist = [];
      })
