-- ===== src/MemoryRegion.antt =====
-- `memory_region` (source/emucore/memory/memory_region.h) and the regions of a `memory_manager`
-- (memory_manager.cpp). The unordered map of regions is a list in the order of its iteration; where
-- the map puts a new region in it, and where its buffer is allocated, are arguments. Names and
-- pointers are numbers.
mod Containing
mod Examples
use remame.Base.{
  ℕ, zero, suc, ◌+◌, ◌*◌, Bool, ◌&&◌, ltb, leb, ◌==◌, if◌then◌else◌, List, [], ◌∷◌, Option, none,
  some,
}
use remame.Base.Result.{Fatal, Result, ok, fatal}

pub record MemoryRegion : Type 0 where
  pub name : ℕ
  pub buffer : ℕ
  pub bytes : ℕ
  pub bitwidth : ℕ
  pub bytewidth : ℕ

unfoldable pub new_region : ℕ → ℕ → ℕ → ℕ → MemoryRegion
new_region name length width buffer = record {
  name = name;
  buffer = buffer;
  bytes = length;
  bitwidth = width * 8;
  bytewidth = width;
}

unfoldable pub region_base : MemoryRegion → ℕ
region_base r = if ltb 0 r.bytes then r.buffer else 0

unfoldable pub region_end : MemoryRegion → ℕ
region_end r = region_base r + r.bytes

-- `m_regionlist.find`.
unfoldable pub find_region : ℕ → List MemoryRegion → Option MemoryRegion
find_region name [] = none
find_region name (r ∷ rs) = if r.name == name then some r else find_region name rs

-- A new region at a place in the order.
unfoldable pub emplace : ℕ → MemoryRegion → List MemoryRegion → List MemoryRegion
emplace zero r rs = r ∷ rs
emplace (suc place) r [] = r ∷ []
emplace (suc place) r (x ∷ xs) = x ∷ emplace place r xs

unfoldable pub region_alloc :
    ℕ → ℕ → ℕ → ℕ → ℕ → List MemoryRegion → Result (List MemoryRegion × MemoryRegion)
region_alloc name length width buffer place rs =
    let r = new_region name length width buffer in
    elim (find_region name rs) [
      | none ↦ ok (emplace place r rs, r)
      | some found ↦ fatal Fatal.duplicate_region
    ]

unfoldable pub region_free : ℕ → List MemoryRegion → List MemoryRegion
region_free name [] = []
region_free name (r ∷ rs) = if r.name == name then rs else r ∷ region_free name rs

unfoldable pub region_containing : ℕ → ℕ → List MemoryRegion → Option MemoryRegion
region_containing address bytes [] = none
region_containing address bytes (r ∷ rs) =
    if leb (region_base r) address && ltb (address + bytes) (region_end r)
    then some r
    else region_containing address bytes rs
