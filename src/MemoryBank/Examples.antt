-- ===== src/MemoryBank/Examples.antt =====
-- The theorems on `memory_bank` at a bank with two spaces that refer to it.
use mathlib.Core.Logic.{◌↔◌}
use remame.Base.{List, true, ◌≡◌, false, [], ◌∷◌}
use remame.Base.Int.{pos}
use remame.Base.Result.{Returns}
use remame.MemoryBank.{
  MemoryBank, Memory, Reference, new_bank, reading, writing, reading_writing, null,
  references_space, set_entry,
}
use remame.MemoryBank.References.{
  add_references, WasAdded, NoneTwice, references_space-add_references_new,
}
use remame.MemoryBank.Entries.{Selected, Failure, set_entry_lem}

abbrev bank : MemoryBank
bank = record {
  index = 3;
  anonymous = false;
  addrstart = 0x4000;
  addrend = 0x7fff;
  curentry = pos 0;
  entries = 0x9000 ∷ null ∷ [];
  references = record { space = 1; access = reading } ∷ record { space = 2; access = writing } ∷ [];
}

abbrev memory : Memory
memory = record { bank_ptr = λ i. null; invalidated = [] }

-- Space 1 reads, and then asks for both accesses, which is skipped; space 2 writes.
abbrev calls : List Reference
calls =
    record { space = 1; access = reading }
    ∷ record { space = 1; access = reading_writing }
    ∷ record { space = 2; access = writing }
    ∷ []

references_space-add_references_new_example :
    let b = add_references calls (new_bank 3 0x4000 0x7fff false) in
    ((references_space 1 reading_writing b ≡ true) ↔ WasAdded 1 reading_writing calls)
    × NoneTwice b.references
references_space-add_references_new_example =
    references_space-add_references_new 3 0x4000 0x7fff 1 false reading_writing calls

set_entry_lem_example :
    Returns (Selected (pos 1) bank memory) (Failure (pos 1) bank) (set_entry (pos 1) bank memory)
set_entry_lem_example = set_entry_lem (pos 1) bank memory
