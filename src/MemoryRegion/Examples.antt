-- ===== src/MemoryRegion/Examples.antt =====
-- The theorem on regions at one more region after another.
use remame.Base.{inr, arith, List, [], ◌∷◌}
use remame.Base.Lists.{and_more, no_more}
use remame.Base.Result.{Returns}
use remame.MemoryRegion.{MemoryRegion, new_region, region_base, region_end, region_alloc}
use remame.MemoryRegion.Containing.{Allocated, Duplicate, region_containing-region_alloc}

abbrev regions : List MemoryRegion
regions = record { name = 1; buffer = 0x1000; bytes = 0x800; bitwidth = 8; bytewidth = 1 } ∷ []

-- A block in the new region that ends before its last byte does.
region_containing-region_alloc_example :
    Returns
      (Allocated (new_region 2 0x400 1 0x1800) 0x1900 0x200 regions)
      (Duplicate 2 regions)
      (region_alloc 2 0x400 1 0x1800 0 regions)
unfolding new_region region_base region_end
region_containing-region_alloc_example =
    region_containing-region_alloc 2 0x400 1 0x1800 0 0x1900 0x200 regions
      (and_more (inr (omega arith)) no_more) (omega arith) (omega arith)
