-- ===== src/AddressTable/Populate.antt =====
-- `populate_range` of source/emucore/memory/emumem.cpp. Addresses are values of `offs_t`, which
-- has 32 bits.
use remame.Base.{ℕ, zero, suc, ◌+◌, ◌-◌, ◌/◌, ◌%◌, ◌^◌, ltb, leb, ◌==◌, if◌then◌else◌}
use remame.Base.Result.{Result, ok, ◌>>=◌}
use remame.AddressTable.{
  AddressTable, write, subtable_size, handler_ref, handler_unref, subtable_base,
}
use remame.AddressTable.Subtable.{subtable_ptr, subtable_release, subtable_open}

-- The loops over an open subtable: `n` entries from `p` on are given to a handler.
unfoldable pub fill : ℕ → ℕ → ℕ → AddressTable → AddressTable
fill zero p handler t = t
fill (suc n) p handler t = fill n (p + 1) handler (write p handler (handler_unref (t.table p) t))

-- The entries `from` to `to` of the subtable behind a level 1 entry are given to a handler.
unfoldable pub fill_open : ℕ → ℕ → ℕ → ℕ → AddressTable → Result AddressTable
unfolding fill
fill_open l1index from to handler t = do
  (t', entry) ← subtable_open l1index t
  let referred = handler_ref handler (to - from + 1) t'
  ok (fill (to - from + 1) (subtable_ptr referred entry + from) handler referred)

-- The loop over the middle tables, `n` level 1 entries from `i` on.
unfoldable pub fill_middle : ℕ → ℕ → ℕ → AddressTable → Result AddressTable
fill_middle zero i handler t = ok t
fill_middle (suc n) i handler t = do
  t' ←
      (if leb subtable_base (t.table i)
        then subtable_release (t.table i) t
        else ok (handler_unref (t.table i) t))
  fill_middle n (i + 1) handler (write i handler t')

-- The middle, from level 1 entry `l1start` to `l1stop`.
unfoldable pub populate_middle : ℕ → ℕ → ℕ → AddressTable → Result AddressTable
populate_middle l1start l1stop handler t =
    fill_middle (l1stop - l1start + 1) l1start handler
      (handler_ref handler (l1stop - l1start + 1) t)

-- The trailing edge and the middle.
unfoldable pub populate_rest : ℕ → ℕ → ℕ → ℕ → AddressTable → Result AddressTable
populate_rest l1start l1stop l2stop handler t =
    if l2stop == subtable_size t - 1 then populate_middle l1start l1stop handler t else (do
      t' ← fill_open l1stop 0 l2stop handler t
      if l1start == l1stop
          then ok t'
          else populate_middle l1start (if l1stop == 0 then l1stop else l1stop - 1) handler t')

-- `populate_range`.
unfoldable pub populate_range : ℕ → ℕ → ℕ → AddressTable → Result AddressTable
populate_range addrstart addrend handler t =
    let size = subtable_size t in
    let l1start = addrstart / size in
    let l2start = addrstart % size in
    let l1stop = addrend / size in
    let l2stop = addrend % size in
    if ltb addrend addrstart
    then ok t
    else if l2start == 0
    then populate_rest l1start l1stop l2stop handler t
    else if l1start == l1stop
    then fill_open l1start l2start l2stop handler t
    else (do
      t' ← fill_open l1start l2start (size - 1) handler t
      let next = if l1start == 2 ^ 32 - 1 then l1start else l1start + 1
      populate_rest next l1stop l2stop handler t')
