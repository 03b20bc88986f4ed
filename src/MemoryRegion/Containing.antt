-- ===== src/MemoryRegion/Containing.antt =====
-- Which region contains a block of memory.
use remame.Base.{
  ℕ, zero, suc, ◌+◌, ◌≤◌, ◌<◌, ◌≡◌, ◌⊎◌, refl, arith, false, ◌&&◌, ltb, leb, if◌then◌else◌, List,
  [], ◌∷◌, Option, none, some,
}
use remame.Base.Lists.{All, and_more}
use remame.Base.Result.{Fatal, ok, fatal, Returns, returns, fails}
use remame.MemoryRegion.{
  MemoryRegion, new_region, region_base, region_end, find_region, emplace, region_alloc,
  region_containing,
}

-- Regions without a byte in common.
abbrev pub Apart : MemoryRegion → MemoryRegion → Type 0
Apart r s = (region_end r ≤ region_base s) ⊎ (region_end s ≤ region_base r)

-- A block that begins outside all of the regions is in none.
pub region_containing-Apart :
    (address bytes : ℕ) (r : MemoryRegion) (rs : List MemoryRegion)
    → All (Apart r) rs
    → region_base r ≤ address
    → address < region_end r
    → region_containing address bytes rs ≡ none
unfolding region_containing
region_containing-Apart address bytes r [] all lo hi = refl
region_containing-Apart address bytes r (x ∷ xs) (and_more apart all) lo hi =
    let outside : (leb (region_base x) address && ltb (address + bytes) (region_end x)) ≡ false =
      ground (arith, apart) in
    rw outside (region_containing-Apart address bytes r xs all lo hi)

-- The regions that a new one at some place is apart from.
region_containing-emplace :
    (place address bytes : ℕ) (r : MemoryRegion) (rs : List MemoryRegion)
    → All (Apart r) rs
    → region_base r ≤ address
    → address < region_end r
    → region_containing address bytes (emplace place r rs)
      ≡ (if ltb (address + bytes) (region_end r) then some r else none)
unfolding region_containing emplace
region_containing-emplace zero address bytes r rs all lo hi =
    ground (arith, region_containing-Apart address bytes r rs all lo hi)
region_containing-emplace (suc place) address bytes r [] all lo hi = ground arith
region_containing-emplace (suc place) address bytes r (x ∷ xs) (and_more apart all) lo hi =
    let outside : (leb (region_base x) address && ltb (address + bytes) (region_end x)) ≡ false =
      ground (arith, apart) in
    rw outside (region_containing-emplace place address bytes r xs all lo hi)

-- The name is in use.
pub record Duplicate (name : ℕ) (rs : List MemoryRegion) (e : Fatal) : Type 0 where
  pub is_duplicate : e ≡ Fatal.duplicate_region
  pub found : MemoryRegion
  pub is_found : find_region name rs ≡ some found

-- The new region, and whether it is found for a block.
pub record Allocated (r : MemoryRegion) (address bytes : ℕ) (rs : List MemoryRegion)
    (s : List MemoryRegion × MemoryRegion) : Type 0 where
  pub is_new : s.1 ≡ r
  pub unused : find_region r.name rs ≡ none
  pub containing :
      region_containing address bytes s.0
      ≡ (if ltb (address + bytes) (region_end r) then some r else none)

allocated :
    (o : Option MemoryRegion) (r : MemoryRegion) (place address bytes : ℕ) (rs : List MemoryRegion)
    → find_region r.name rs ≡ o
    → All (Apart r) rs
    → region_base r ≤ address
    → address < region_end r
    → Returns
        (Allocated r address bytes rs)
        (Duplicate r.name rs)
        (elim o [ none ↦ ok (emplace place r rs, r) | some found ↦ fatal Fatal.duplicate_region ])
allocated none r place address bytes rs e all lo hi = returns (record {
  is_new = refl;
  unused = e;
  containing = region_containing-emplace place address bytes r rs all lo hi;
})
allocated (some found) r place address bytes rs e all lo hi =
    fails (record { is_duplicate = refl; found = found; is_found = e })

-- If no byte of a new region belongs to a region there, `region_alloc` makes it, the name not
-- being in use before, and then `region_containing` of a block that begins in it gives the
-- region if the block ends before the end of the region, and none if it ends at it or after,
-- wherever the map keeps the region; or it ends in the error of a duplicate name, which some
-- region has.
pub region_containing-region_alloc :
    (name length width buffer place address bytes : ℕ) (rs : List MemoryRegion)
    → All (Apart (new_region name length width buffer)) rs
    → region_base (new_region name length width buffer) ≤ address
    → address < region_end (new_region name length width buffer)
    → Returns
        (Allocated (new_region name length width buffer) address bytes rs)
        (Duplicate name rs)
        (region_alloc name length width buffer place rs)
unfolding region_alloc new_region
region_containing-region_alloc name length width buffer place address bytes rs all lo hi =
    allocated (find_region name rs) (new_region name length width buffer) place address bytes rs
      refl all lo hi
