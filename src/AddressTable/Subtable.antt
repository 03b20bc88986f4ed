-- ===== src/AddressTable/Subtable.antt =====
-- The subtables of `address_table`: `subtable_alloc`, `subtable_realloc`, `subtable_merge`,
-- `subtable_release` and `subtable_open` of source/emucore/memory/emumem.cpp.
use remame.Base.{
  ℕ, zero, suc, ◌+◌, ◌-◌, ◌*◌, ◌/◌, ◌^◌, Bool, true, false, not, ◌&&◌, Option, none, some, ltb, leb,
  ◌==◌, if◌then◌else◌,
}
use remame.Base.Word.{u32}
use remame.Base.Result.{Result, ok, fatal, out_of_fuel, ◌>>=◌}
use remame.Base.Result.{Fatal}
use remame.AddressTable.{
  AddressTable, write, set_subtable, level2_bits, subtable_size, level2_index, handler_ref,
  handler_unref, level1_bits, level2_bits_large, subtable_count, subtable_base, subtable_alloc_step,
}

abbrev pub usecount : AddressTable → ℕ → ℕ
usecount t j = (t.subtables j).usecount

-- `subtable_ptr`: the index of a subtable's first entry.
abbrev pub subtable_ptr : AddressTable → ℕ → ℕ
subtable_ptr t entry = level2_index t.large entry 0

unfoldable pub subtable_realloc : ℕ → AddressTable → Result AddressTable
subtable_realloc subentry t =
    let j = subentry - subtable_base in
    let d = t.subtables j in
    if d.usecount == 0
    then fatal Fatal.realloc_unused
    else ok (set_subtable j (record d { usecount = d.usecount + 1 }) t)

-- `for (i = 0; i < n; i++) handler_unref(subtable[i])`, from `p` on.
unfoldable pub unref_loop : ℕ → ℕ → AddressTable → AddressTable
unref_loop zero p t = t
unref_loop (suc n) p t = unref_loop n (p + 1) (handler_unref (t.table p) t)

unfoldable pub subtable_release : ℕ → AddressTable → Result AddressTable
unfolding unref_loop
subtable_release subentry t =
    let j = subentry - subtable_base in
    let d = t.subtables j in
    if d.usecount == 0
    then fatal Fatal.release_unused
    else (let left = d.usecount - 1 in
        ok (
          if left == 0
          then unref_loop (2 ^ level2_bits_large) (subtable_ptr t subentry)
              (set_subtable j (record d { usecount = left; checksum = 0 }) t)
          else set_subtable j (record d { usecount = left }) t))

-- The sum of `n` 32-bit words from `p` on, two entries to a word, low half first.
unfoldable pub sum_words : ℕ → ℕ → (ℕ → ℕ) → ℕ → ℕ
sum_words zero p m sum = sum
sum_words (suc n) p m sum = sum_words n (p + 2) m (u32 (sum + (m p + m (p + 1) * 2 ^ 16)))

-- A round of the first loop of `subtable_merge`.
unfoldable pub update_checksum : ℕ → AddressTable → AddressTable
unfolding sum_words
update_checksum j t =
    let d = t.subtables j in
    if not d.checksum_valid && not (d.usecount == 0)
    then set_subtable j
        (record d {
          checksum = sum_words (subtable_size t / 4) (subtable_ptr t (j + subtable_base)) t.table 0;
          checksum_valid = true;
        })
        t
    else t

-- The first loop, `n` subtables from `j` on.
unfoldable pub update_checksums : ℕ → ℕ → AddressTable → AddressTable
update_checksums zero j t = t
update_checksums (suc n) j t = update_checksums n (j + 1) (update_checksum j t)

-- `memcmp` of `n` entries.
unfoldable pub same_entries : ℕ → ℕ → ℕ → (ℕ → ℕ) → Bool
same_entries zero p q m = true
same_entries (suc n) p q m = m p == m q && same_entries n (p + 1) (q + 1) m

-- The innermost loop of `subtable_merge`, `n` level 1 entries from `i` on: those that point to
-- subtable `sum` are pointed to `sub`. The count of merged entries comes back with the table.
unfoldable pub redirect : ℕ → ℕ → ℕ → ℕ → AddressTable → ℕ → Result (AddressTable × ℕ)
redirect zero i sub sum t merged = ok (t, merged)
redirect (suc n) i sub sum t merged =
    let rest = redirect n (i + 1) sub sum in
    if t.table i == sum + subtable_base
    then (do
      released ← subtable_release (sum + subtable_base) t
      reused ← subtable_realloc (sub + subtable_base) released
      rest (write i (sub + subtable_base) reused) (merged + 1))
    else rest t merged

-- Whether subtable `sum` is in use and equal to subtable `sub`.
unfoldable pub duplicate : ℕ → ℕ → ℕ → AddressTable → Bool
unfolding same_entries
duplicate checksum sub sum t =
    not (usecount t sum == 0)
    && (t.subtables sum).checksum == checksum
    && same_entries (subtable_size t) (subtable_ptr t (sub + subtable_base))
        (subtable_ptr t (sum + subtable_base)) t.table

-- The loop over the later subtables, `n` of them from `sum` on.
unfoldable pub merge_into : ℕ → ℕ → ℕ → ℕ → AddressTable → ℕ → Result (AddressTable × ℕ)
merge_into zero checksum sub sum t merged = ok (t, merged)
merge_into (suc n) checksum sub sum t merged = do
  (t', merged') ←
      (if duplicate checksum sub sum t
        then redirect (2 ^ 32 / subtable_size t) 0 sub sum t merged
        else ok (t, merged))
  merge_into n checksum sub (sum + 1) t' merged'

-- The second loop, `n` subtables from `sub` on.
unfoldable pub merge_all : ℕ → ℕ → AddressTable → ℕ → Result (AddressTable × ℕ)
merge_all zero sub t merged = ok (t, merged)
merge_all (suc n) sub t merged = do
  (t', merged') ←
      (if usecount t sub == 0
        then ok (t, merged)
        else merge_into n (t.subtables sub).checksum sub (sub + 1) t merged)
  merge_all n (sub + 1) t' merged'

unfoldable pub subtable_merge : AddressTable → Result (AddressTable × ℕ)
subtable_merge t = merge_all subtable_count 0 (update_checksums subtable_count 0 t) 0

-- The first subtable that is not in use, of `n` from `j` on.
unfoldable pub find_unused : ℕ → ℕ → AddressTable → Option ℕ
find_unused zero j t = none
find_unused (suc n) j t = if usecount t j == 0 then some j else find_unused n (j + 1) t

-- Room for eight more subtables, cleared.
unfoldable pub grow : AddressTable → AddressTable
unfolding level2_bits
grow t =
    let alloc = t.subtable_alloc + subtable_alloc_step in
    let newsize = 2 ^ level1_bits + alloc * subtable_size t in
    record t {
      subtable_alloc = alloc;
      size = newsize;
      table = λ i. if leb t.size i && ltb i newsize then 0 else t.table i;
    }

-- Past the allocation budget, some more is allocated.
unfoldable pub make_room : ℕ → AddressTable → AddressTable
make_room j t = if leb t.subtable_alloc j then grow t else t

-- Subtable `j` taken into use.
unfoldable pub take_unused : ℕ → AddressTable → AddressTable
take_unused j t =
    let roomy = make_room j t in
    let d = roomy.subtables j in set_subtable j (record d { usecount = d.usecount + 1 }) roomy

-- The `while (1)` of `subtable_alloc` on fuel.
unfoldable pub subtable_alloc : ℕ → AddressTable → Result (AddressTable × ℕ)
subtable_alloc zero t = out_of_fuel
subtable_alloc (suc fuel) t = elim (find_unused subtable_count 0 t) [
  | some j ↦ ok (take_unused j t, j + subtable_base)
  | none ↦ do
    (t', merged) ← subtable_merge t
    let again = subtable_alloc fuel t'
    if merged == 0 then fatal Fatal.out_of_subtables else again
]

-- `n` entries from `p` on are set to one value, `subptr[i] = subentry`.
unfoldable pub fill_value : ℕ → ℕ → ℕ → (ℕ → ℕ) → ℕ → ℕ
fill_value n p v m i = if leb p i && ltb i (p + n) then v else m i

-- `memcpy` of `n` entries from `src` to `dst`.
unfoldable pub copy_entries : ℕ → ℕ → ℕ → (ℕ → ℕ) → ℕ → ℕ
copy_entries n dst src m i = if leb dst i && ltb i (dst + n) then m (src + (i - dst)) else m i

-- `for (i = 0; i != n; i++) handler_ref(src[i], 1)`, from `p` on.
unfoldable pub ref_loop : ℕ → ℕ → AddressTable → AddressTable
ref_loop zero p t = t
ref_loop (suc n) p t = ref_loop n (p + 1) (handler_ref (t.table p) 1 t)

-- One round of allocation, one of merging and one of allocation again.
abbrev pub alloc_fuel : ℕ
alloc_fuel = 2

-- A level 1 entry that is no subtable gets one of its own, filled with the entry.
unfoldable pub link_new : ℕ → ℕ → ℕ → AddressTable → AddressTable
unfolding fill_value
link_new l1index subentry newentry t =
    let size = subtable_size t in
    let referred = handler_ref subentry (size - 1) t in
    let filled = record referred {
      table = fill_value size (subtable_ptr t newentry) subentry referred.table;
    } in
    let linked = write l1index newentry filled in
    let j = newentry - subtable_base in
    let subkey = u32 (subentry + subentry * 2 ^ 8 + subentry * 2 ^ 16 + subentry * 2 ^ 24) in
    set_subtable j (record (linked.subtables j) { checksum = u32 (subkey * (size / 4)) }) linked

-- A subtable in shared use is copied, here up to the release of the old one.
unfoldable pub copy_shared : ℕ → ℕ → AddressTable → AddressTable
unfolding copy_entries
copy_shared subentry newentry t =
    let size = subtable_size t in
    let src = subtable_ptr t subentry in
    let referred = ref_loop size src t in
    record referred { table = copy_entries size (subtable_ptr t newentry) src referred.table }

-- After the release.
unfoldable pub link_copy : ℕ → ℕ → ℕ → AddressTable → AddressTable
link_copy l1index subentry newentry t =
    let linked = write l1index newentry t in
    let j = newentry - subtable_base in
    let checksum = (linked.subtables (subentry - subtable_base)).checksum in
    set_subtable j (record (linked.subtables j) { checksum = checksum }) linked

-- The entry that `subtable_open` opens, its own from now on.
unfoldable pub open_entry : ℕ → AddressTable → Result (AddressTable × ℕ)
open_entry l1index t =
    if ltb (t.table l1index) subtable_base
    then (do
      (t', newentry) ← subtable_alloc alloc_fuel t
      ok (link_new l1index (t.table l1index) newentry t', newentry))
    else if ltb 1 (usecount t (t.table l1index - subtable_base))
    then (do
      (t', newentry) ← subtable_alloc alloc_fuel t
      released ← subtable_release (t'.table l1index) (copy_shared (t'.table l1index) newentry t')
      ok (link_copy l1index (t'.table l1index) newentry released, newentry))
    else ok (t, t.table l1index)

-- `m_checksum_valid = false`.
unfoldable pub mark_dirty : ℕ → AddressTable → AddressTable
mark_dirty entry t =
    let j = entry - subtable_base in
    set_subtable j (record (t.subtables j) { checksum_valid = false }) t

-- `subtable_open`: the pointer that it returns is `subtable_ptr` of the entry that comes back.
unfoldable pub subtable_open : ℕ → AddressTable → Result (AddressTable × ℕ)
subtable_open l1index t = do (t', entry) ← open_entry l1index t; ok (mark_dirty entry t', entry)
