-- ===== src/AddressMap.antt =====
-- `address_map` and `address_map_entry` of source/emucore/memory/address_map.h and address_map.cpp.
-- A tag, a name and a device are numbers, a null pointer is none. The list of entries, which the
-- source links by pointers, is a list. Assertions are not modelled.
pub mod Import
mod Merged
mod Flat
mod Window
mod Lanes
mod Masks
mod Made
mod Examples
pub mod Setters
use Prim.Native.Nat.{bit_and, bit_or}
use remame.Base.{
  ℕ, ◌-◌, ◌*◌, ◌^◌, Bool, true, false, not, ◌==◌, if◌then◌else◌, List, [], ◌∷◌, ◌++◌, Option, none,
  some,
}
use remame.Base.Int.{ℤ, pos}
use remame.Base.Result.{Fatal, Result, ok, fatal}

pub data MapHandlerType : Type 0 where
  amh_none : MapHandlerType
  amh_ram : MapHandlerType
  amh_rom : MapHandlerType
  amh_nop : MapHandlerType
  amh_unmap : MapHandlerType
  amh_device_delegate : MapHandlerType
  amh_port : MapHandlerType
  amh_bank : MapHandlerType
  amh_device_submap : MapHandlerType

pub record MapHandlerData : Type 0 where
  pub type : MapHandlerType
  pub bits : ℕ
  pub mask : ℕ
  pub name : Option ℕ
  pub tag : Option ℕ

abbrev pub new_handler_data : MapHandlerData
new_handler_data = record { type = amh_none; bits = 0; mask = 0; name = none; tag = none }

-- A delegate with its name.
pub record Delegate : Type 0 where
  pub name : Option ℕ
  pub function : Option ℕ

abbrev pub null_delegate : Delegate
null_delegate = record { name = none; function = none }

pub record AddressMapEntry : Type 0 where
  -- `m_globalmask` of `m_map` when `mask` is called comes as an argument there.
  pub devbase : ℕ
  pub addrstart : ℕ
  pub addrend : ℕ
  pub addrmirror : ℕ
  pub addrmask : ℕ
  pub addrselect : ℕ
  pub mask : ℕ
  pub cswidth : ℤ
  pub read : MapHandlerData
  pub write : MapHandlerData
  pub setoffsethd : MapHandlerData
  pub share : Option ℕ
  pub region : Option ℕ
  pub rgnoffs : ℕ
  pub rproto8 : Delegate
  pub rproto16 : Delegate
  pub rproto32 : Delegate
  pub rproto64 : Delegate
  pub wproto8 : Delegate
  pub wproto16 : Delegate
  pub wproto32 : Delegate
  pub wproto64 : Delegate
  pub soproto : Delegate
  pub submap_device : Option ℕ
  pub submap_delegate : Delegate
  pub memory : Option ℕ

pub record AddressMap : Type 0 where
  pub spacenum : ℕ
  pub device : ℕ
  pub unmapval : ℕ
  pub globalmask : ℕ
  pub entrylist : List AddressMapEntry

unfoldable pub new_entry : ℕ → ℕ → ℕ → AddressMapEntry
new_entry device start end = record {
  devbase = device;
  addrstart = start;
  addrend = end;
  addrmirror = 0;
  addrmask = 0;
  addrselect = 0;
  mask = 0;
  cswidth = pos 0;
  read = new_handler_data;
  write = new_handler_data;
  setoffsethd = new_handler_data;
  share = none;
  region = none;
  rgnoffs = 0;
  rproto8 = null_delegate;
  rproto16 = null_delegate;
  rproto32 = null_delegate;
  rproto64 = null_delegate;
  wproto8 = null_delegate;
  wproto16 = null_delegate;
  wproto32 = null_delegate;
  wproto64 = null_delegate;
  soproto = null_delegate;
  submap_device = none;
  submap_delegate = null_delegate;
  memory = none;
}
