-- ===== src/AddressTable.antt =====
-- `address_table` of source/emucore/memory/emumem.cpp: the two-level table that takes an address
-- to the number of its handler. `m_table` is a function from an index to a 16-bit entry, with the
-- vector's size beside it; a pointer into it is an index. The virtual `handler` is the array
-- `handlers`, of which the table changes what `deconfigure` changes.
pub mod Subtable
pub mod Populate
pub mod Core
pub mod Frame
pub mod Sound
pub mod Uses
pub mod Merge
pub mod MergeLoop
pub mod Alloc
pub mod Link
pub mod Open
pub mod Given
pub mod Fill
pub mod Middle
pub mod Range
pub mod Lookups
pub mod History
pub mod New
pub mod Derive
pub mod Scan
pub mod Block
pub mod Derived
mod Examples
use remame.Base.{ℕ, ◌+◌, ◌-◌, ◌*◌, ◌/◌, ◌%◌, ◌^◌, Bool, true, false, ltb, leb, ◌==◌, if◌then◌else◌}
use remame.Base.Int.{ℤ, pos, ◌+ℤ◌, ◌-ℤ◌, eqb_ℤ}

abbrev pub total_memory_banks : ℕ
total_memory_banks = 512

-- The static entries of source/emucore/memory/mem_defs.h.
abbrev pub static_invalid : ℕ
static_invalid = 0

abbrev pub static_bank1 : ℕ
static_bank1 = 1

abbrev pub static_bankmax : ℕ
static_bankmax = 0xfb

abbrev pub static_unmap : ℕ
static_unmap = 0xfd

abbrev pub static_watchpoint : ℕ
static_watchpoint = 0xfe

abbrev pub static_count : ℕ
static_count = 0xff

abbrev pub level1_bits : ℕ
level1_bits = 18

abbrev pub level2_bits_large : ℕ
level2_bits_large = 14

abbrev pub subtable_count : ℕ
subtable_count = 64

abbrev pub subtable_base : ℕ
subtable_base = 448

abbrev pub subtable_alloc_step : ℕ
subtable_alloc_step = 8

-- What is kept of a subtable.
pub record SubtableData : Type 0 where
  pub checksum_valid : Bool
  pub checksum : ℕ
  pub usecount : ℕ

-- The part of a handler entry that `deconfigure` clears.
pub record Handler : Type 0 where
  pub populated : Bool
  pub subunits : ℕ

pub record AddressTable : Type 0 where
  pub table : ℕ → ℕ
  pub size : ℕ
  -- Whether `m_live_lookup` is the table of watchpoints.
  pub watchpoints : Bool
  pub large : Bool
  pub subtables : ℕ → SubtableData
  pub subtable_alloc : ℕ
  pub handlers : ℕ → Handler
  pub handler_refcount : ℕ → ℤ
  pub handler_next_free : ℕ → ℕ
  pub handler_free : ℕ

-- A write to an array.
unfoldable pub update {ℓ} : {A : Type ℓ} → (ℕ → A) → ℕ → A → ℕ → A
update f i v j = if j == i then v else f j

abbrev pub write : ℕ → ℕ → AddressTable → AddressTable
write i v t = record t { table = update t.table i v }

abbrev pub set_subtable : ℕ → SubtableData → AddressTable → AddressTable
set_subtable j d t = record t { subtables = update t.subtables j d }

unfoldable pub level2_bits : Bool → ℕ
level2_bits large = if large then level2_bits_large else 0

-- The number of entries of a subtable.
abbrev pub subtable_size : AddressTable → ℕ
subtable_size t = 2 ^ level2_bits t.large

unfoldable pub level1_index : Bool → ℕ → ℕ
level1_index large address = if large then address / 2 ^ level2_bits_large else address

unfoldable pub level2_index : Bool → ℕ → ℕ → ℕ
level2_index large l1entry address =
    if large
    then 2 ^ level1_bits
      + (l1entry - subtable_base) * 2 ^ level2_bits_large
      + address % 2 ^ level2_bits_large
    else 0

-- `lookup_live_small_nowp` and `lookup_live_large_nowp`, past any watchpoints.
unfoldable pub lookup_live_small_nowp : AddressTable → ℕ → ℕ
lookup_live_small_nowp t address = t.table address

unfoldable pub lookup_live_large_nowp : AddressTable → ℕ → ℕ
unfolding level1_index level2_index
lookup_live_large_nowp t address =
    let entry = t.table (level1_index true address) in
    if leb subtable_base entry then t.table (level2_index true entry address) else entry

unfoldable pub lookup_live_nowp : AddressTable → ℕ → ℕ
unfolding lookup_live_small_nowp lookup_live_large_nowp
lookup_live_nowp t address =
    if t.large then lookup_live_large_nowp t address else lookup_live_small_nowp t address

-- `m_live_lookup[index]`.
unfoldable pub live : AddressTable → ℕ → ℕ
live t index = if t.watchpoints then static_watchpoint else t.table index

-- `lookup`.
unfoldable pub lookup : AddressTable → ℕ → ℕ
unfolding live level1_index level2_index
lookup t address =
    let entry = live t (level1_index t.large address) in
    if leb subtable_base entry then live t (level2_index t.large entry address) else entry

unfoldable pub enable_watchpoints : Bool → AddressTable → AddressTable
enable_watchpoints enable t = record t { watchpoints = enable }

-- The constructor.
unfoldable pub new_table : Bool → AddressTable
new_table large = record {
  table = λ i. static_unmap;
  size = 2 ^ level1_bits;
  watchpoints = false;
  large = large;
  subtables = λ j. record { checksum_valid = false; checksum = 0; usecount = 0 };
  subtable_alloc = 0;
  handlers = λ e. record { populated = false; subunits = 0 };
  handler_refcount = λ i. pos 0;
  handler_next_free =
      λ i. if i == subtable_base - static_count - 1 then static_invalid else i + static_count + 1;
  handler_free = static_count;
}

unfoldable pub handler_ref : ℕ → ℕ → AddressTable → AddressTable
unfolding update
handler_ref entry count t =
    if ltb entry static_count
    then t
    else (let i = entry - static_count in
        record t {
          handler_refcount = update t.handler_refcount i (t.handler_refcount i +ℤ pos count);
        })

unfoldable pub deconfigure : Handler → Handler
deconfigure h = record h { populated = false; subunits = 0 }

unfoldable pub handler_unref : ℕ → AddressTable → AddressTable
unfolding update deconfigure
handler_unref entry t =
    if ltb entry static_count
    then t
    else (let i = entry - static_count in
        let left = t.handler_refcount i -ℤ pos 1 in
        let counted = record t { handler_refcount = update t.handler_refcount i left } in
        if eqb_ℤ left (pos 0)
        then record counted {
          handlers = update t.handlers entry (deconfigure (t.handlers entry));
          handler_next_free = update t.handler_next_free i t.handler_free;
          handler_free = entry;
        }
        else counted)
