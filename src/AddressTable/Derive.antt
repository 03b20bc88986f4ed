-- ===== src/AddressTable/Derive.antt =====
-- `derive_range` of `address_table` (source/emucore/memory/emumem.cpp): from an address it goes down
-- and up through the table as far as the handler stays the same. Each of its loops over the blocks of
-- level 1 takes fuel.
use Prim.Native.Nat.{bit_and, bit_or}
use remame.Base.{ℕ, zero, suc, ◌+◌, ◌-◌, ◌%◌, ◌^◌, Bool, true, false, leb, ◌==◌, not, if◌then◌else◌}
use remame.Base.Result.{Result, ok, out_of_fuel, ◌>>=◌}
use remame.AddressTable.{AddressTable, subtable_base, subtable_size, level1_index, level2_index}

-- The range of a handler entry.
pub record HandlerRange : Type 0 where
  pub addrstart : ℕ
  pub addrend : ℕ
  pub addrmask : ℕ

-- `~` on 32 bits.
abbrev pub complement : ℕ → ℕ
complement mask = 2 ^ 32 - 1 - mask % 2 ^ 32

-- The start and the end.
unfoldable pub mirrored_start_end : HandlerRange → ℕ → ℕ × ℕ
mirrored_start_end h address =
    let mirrorbits = bit_and ((address + 2 ^ 32 - h.addrstart) % 2 ^ 32) (complement h.addrmask) in
    (bit_or h.addrstart mirrorbits % 2 ^ 32, bit_or h.addrend mirrorbits % 2 ^ 32)

-- The entry of an address, by its level 1 entry.
unfoldable pub entry_of : AddressTable → ℕ → ℕ → ℕ
entry_of t l1entry address =
    if leb subtable_base l1entry then t.table (level2_index t.large l1entry address) else l1entry

-- The loops over a subtable, with as many entries left to its first or last one; whether they broke
-- off at an entry that does not match.
unfoldable pub scan_down : ℕ → ℕ → (ℕ → ℕ) → ℕ → ℕ → ℕ × Bool
scan_down zero entry table minindex addrstart = (addrstart, false)
scan_down (suc n) entry table minindex addrstart =
    if table (minindex + n) == entry
    then scan_down n entry table minindex (addrstart - 1)
    else (addrstart, true)

unfoldable pub scan_up : ℕ → ℕ → (ℕ → ℕ) → ℕ → ℕ → ℕ × Bool
scan_up zero entry table maxindex addrend = (addrend, false)
scan_up (suc n) entry table maxindex addrend =
    if table (maxindex - n) == entry
    then scan_up n entry table maxindex (addrend + 1)
    else (addrend, true)

-- What a round scans of the block of level 1.
unfoldable pub block_down : ℕ → ℕ → ℕ → ℕ → AddressTable → ℕ × Bool
block_down entry curentry curl1entry addrstart t =
    let minindex = level2_index t.large curl1entry 0 in
    if not (curentry == curl1entry)
    then scan_down (level2_index t.large curl1entry addrstart - minindex) entry t.table minindex
        addrstart
    else (addrstart, false)

unfoldable pub block_up : ℕ → ℕ → ℕ → ℕ → AddressTable → ℕ × Bool
block_up entry curentry curl1entry addrend t =
    let maxindex = level2_index t.large curl1entry (2 ^ 32 - 1) in
    if not (curentry == curl1entry)
    then scan_up (maxindex - level2_index t.large curl1entry addrend) entry t.table maxindex addrend
    else (addrend, false)

-- `addrstart &= ~((1 << level2_bits()) - 1)` and `addrend |= (1 << level2_bits()) - 1`.
abbrev pub block_start : AddressTable → ℕ → ℕ
block_start t address = address - address % subtable_size t

abbrev pub block_end : AddressTable → ℕ → ℕ
block_end t address = address - address % subtable_size t + (subtable_size t - 1)

unfoldable pub find_start : ℕ → ℕ → ℕ → ℕ → ℕ → ℕ → AddressTable → Result ℕ
find_start zero minscan entry curentry curl1entry addrstart t = out_of_fuel
find_start (suc fuel) minscan entry curentry curl1entry addrstart t =
    let (scanned, stopped) = block_down entry curentry curl1entry addrstart t in
    let start = block_start t scanned in
    let l1entry = t.table (level1_index t.large (start - 1)) in
    let found = entry_of t l1entry (start - 1) in
    let rest = find_start fuel minscan entry found l1entry (start - 1) t in
    if stopped
    then ok scanned
    else if leb start minscan
    then ok start
    else if found == entry
    then rest
    else ok start

unfoldable pub find_end : ℕ → ℕ → ℕ → ℕ → ℕ → ℕ → AddressTable → Result ℕ
find_end zero maxscan entry curentry curl1entry addrend t = out_of_fuel
find_end (suc fuel) maxscan entry curentry curl1entry addrend t =
    let (scanned, stopped) = block_up entry curentry curl1entry addrend t in
    let last = block_end t scanned in
    let l1entry = t.table (level1_index t.large (last + 1)) in
    let found = entry_of t l1entry (last + 1) in
    let rest = find_end fuel maxscan entry found l1entry (last + 1) t in
    if stopped
    then ok scanned
    else if leb maxscan last
    then ok last
    else if found == entry
    then rest
    else ok last

pub record Derived : Type 0 where
  pub entry : ℕ
  pub addrstart : ℕ
  pub addrend : ℕ

unfoldable pub derive_range : ℕ → (ℕ → HandlerRange) → ℕ → AddressTable → Result Derived
derive_range fuel handler address t = do
  let l1entry = t.table (level1_index t.large address)
  let entry = entry_of t l1entry address
  let (minscan, maxscan) = mirrored_start_end (handler entry) address
  addrstart ← find_start fuel minscan entry entry l1entry address t
  addrend ← find_end fuel maxscan entry entry l1entry address t
  ok (record { entry = entry; addrstart = addrstart; addrend = addrend })

-- As many rounds as level 1 has entries.
abbrev pub derive_fuel : ℕ
derive_fuel = 2 ^ 18
