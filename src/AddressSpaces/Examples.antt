-- ===== src/AddressSpaces/Examples.antt =====
-- The theorems on address spaces at a processor with 16 bits of data and 24 of addresses.
use remame.Base.{List, [], ◌∷◌, Option, none, some}
use remame.Base.Int.{pos, negsuc}
use remame.Base.Result.{Returns}
use remame.AddressSpaces.{big, little, AddressSpaceConfig, allocate}
use remame.AddressSpaces.Allocate.{Allocated, UnknownWidth, allocate_lem}

abbrev program : AddressSpaceConfig
program = record { endianness = big; data_width = 16; addr_width = 24; addr_shift = negsuc 0 }

abbrev io : AddressSpaceConfig
io = record { endianness = little; data_width = 8; addr_width = 8; addr_shift = pos 0 }

abbrev configs : List (Option AddressSpaceConfig)
configs = some program ∷ none ∷ some io ∷ []

allocate_lem_example : Returns (Allocated configs) (UnknownWidth configs) (allocate configs)
allocate_lem_example = allocate_lem configs
