-- ===== src/MemoryBank.antt =====
-- `memory_bank` of source/emucore/memory/memory_bank.h and emumem.cpp. A pointer is an address, 0 for
-- `nullptr`; an address space is a number. The bank's base pointer stands in the array of the
-- `memory_manager`; what the spaces are told is kept in `invalidated`, the last first. Tags and
-- names are left out.
mod References
mod Entries
mod Examples
use remame.Base.{
  ℕ, zero, suc, ◌+◌, ◌-◌, ◌*◌, Bool, true, false, ◌&&◌, ◌||◌, not, ltb, leb, ◌==◌, if◌then◌else◌,
  List, [], ◌∷◌, ◌++◌, Option, none, some,
}
use remame.Base.Lists.{length, set, get_or, repeat}
use remame.Base.Int.{ℤ, pos, negsuc, pos_part, ◌+ℤ◌, ◌-ℤ◌, ltb_ℤ}
use remame.Base.Word.{u32, s32}
use remame.Base.Result.{Fatal, Result, ok, fatal, ◌>>=◌}

pub data ReadOrWrite : Type 0 where
  reading : ReadOrWrite
  writing : ReadOrWrite
  reading_writing : ReadOrWrite

abbrev pub same_access : ReadOrWrite → ReadOrWrite → Bool
same_access reading reading = true
same_access writing writing = true
same_access reading_writing reading_writing = true
same_access _ _ = false

pub record Reference : Type 0 where
  pub space : ℕ
  pub access : ReadOrWrite

pub record MemoryBank : Type 0 where
  pub index : ℕ
  pub anonymous : Bool
  pub addrstart : ℕ
  pub addrend : ℕ
  pub curentry : ℤ
  pub entries : List ℕ
  pub references : List Reference

-- `m_bank_ptr` of the memory manager, and the spaces whose read caches were dropped.
pub record Memory : Type 0 where
  pub bank_ptr : ℕ → ℕ
  pub invalidated : List ℕ

abbrev pub State : Type 0
State = MemoryBank × Memory

abbrev pub null : ℕ
null = 0

abbrev pub entry_unspecified : ℤ
entry_unspecified = negsuc 0

-- The constructor.
unfoldable pub new_bank : ℕ → ℕ → ℕ → Bool → MemoryBank
new_bank index addrstart addrend anonymous = record {
  index = index;
  anonymous = anonymous;
  addrstart = addrstart;
  addrend = addrend;
  curentry = entry_unspecified;
  entries = [];
  references = [];
}

abbrev pub base : MemoryBank → Memory → ℕ
base b mem = mem.bank_ptr b.index

-- `*m_baseptr = pointer`.
unfoldable pub put_base : ℕ → MemoryBank → Memory → Memory
put_base pointer b mem = record mem {
  bank_ptr = λ i. if i == b.index then pointer else mem.bank_ptr i;
}

unfoldable pub matches_exactly : ℕ → ℕ → MemoryBank → Bool
matches_exactly addrstart addrend b = b.addrstart == addrstart && b.addrend == addrend

unfoldable pub fully_covers : ℕ → ℕ → MemoryBank → Bool
fully_covers addrstart addrend b = leb b.addrstart addrstart && leb addrend b.addrend

unfoldable pub is_covered_by : ℕ → ℕ → MemoryBank → Bool
is_covered_by addrstart addrend b = leb addrstart b.addrstart && leb b.addrend addrend

unfoldable pub straddles : ℕ → ℕ → MemoryBank → Bool
straddles addrstart addrend b = ltb b.addrstart addrend && ltb addrstart b.addrend

-- `bank_reference::matches`.
unfoldable pub matches : ℕ → ReadOrWrite → Reference → Bool
matches space access r =
    space == r.space && (same_access access reading_writing || same_access access r.access)

unfoldable pub some_match : ℕ → ReadOrWrite → List Reference → Bool
unfolding matches
some_match space access [] = false
some_match space access (r ∷ rs) = matches space access r || some_match space access rs

unfoldable pub references_space : ℕ → ReadOrWrite → MemoryBank → Bool
references_space space access b = some_match space access b.references

unfoldable pub add_reference : ℕ → ReadOrWrite → MemoryBank → MemoryBank
add_reference space access b =
    if references_space space access b
    then b
    else record b { references = b.references ++ (record { space = space; access = access } ∷ []) }

-- The loop of `invalidate_references`.
unfoldable pub invalidate_all : List Reference → Memory → Memory
invalidate_all [] mem = mem
invalidate_all (r ∷ rs) mem =
    invalidate_all rs (record mem { invalidated = r.space ∷ mem.invalidated })

unfoldable pub set_base : ℕ → MemoryBank → Memory → Result Memory
set_base pointer b mem =
    if pointer == null
    then fatal Fatal.null_base
    else ok (invalidate_all b.references (put_base pointer b mem))

-- The pointer of an entry that is there.
abbrev pub pointer_at : List ℕ → ℕ → ℕ
pointer_at ps i = get_or null ps i

unfoldable pub set_entry : ℤ → MemoryBank → Memory → Result State
set_entry (negsuc n) b mem =
    if b.anonymous then fatal Fatal.anonymous_bank else fatal Fatal.entry_out_of_range
set_entry (pos n) b mem =
    if b.anonymous
    then fatal Fatal.anonymous_bank
    else if leb (length b.entries) n
    then fatal Fatal.entry_out_of_range
    else if pointer_at b.entries n == null
    then fatal Fatal.invalid_bank_entry
    else ok (
      record b { curentry = pos n },
      invalidate_all b.references (put_base (pointer_at b.entries n) b mem),
    )

-- `n` null entries.
abbrev pub nulls : ℕ → List ℕ
nulls n = repeat n null

unfoldable pub expand_entries : ℕ → MemoryBank → MemoryBank
expand_entries entrynum b = record b {
  entries = b.entries ++ nulls (entrynum + 1 - length b.entries);
}

-- If not this many entries are allocated yet, the array is expanded.
unfoldable pub make_room : ℕ → MemoryBank → MemoryBank
make_room n b = if leb (length b.entries) n then expand_entries n b else b

unfoldable pub configure_entry : ℤ → ℕ → MemoryBank → Memory → Result State
configure_entry (negsuc n) pointer b mem = fatal Fatal.entry_out_of_range
configure_entry (pos n) pointer b mem =
    let roomy = make_room n b in
    let b' = record roomy { entries = set roomy.entries n pointer } in
    if base b mem == null && n == 0 then ok (b', put_base pointer b mem) else ok (b', mem)

-- The loop of `configure_entries`, backwards, with `n` rounds left. The product of an `int` and an
-- `offs_t` has 32 bits.
unfoldable pub configure_from : ℕ → ℤ → ℕ → ℕ → MemoryBank → Memory → Result State
configure_from zero startentry pointer stride b mem = ok (b, mem)
configure_from (suc n) startentry pointer stride b mem = do
  (b', mem') ← configure_entry (startentry +ℤ pos n) (pointer + u32 (n * stride)) b mem
  configure_from n startentry pointer stride b' mem'

-- The numbers from `first` to `last`.
unfoldable pub rounds : ℤ → ℤ → ℕ
rounds first last = pos_part (last -ℤ first +ℤ pos 1)

-- The last number is an `int`.
unfoldable pub configure_entries : ℤ → ℤ → ℕ → ℕ → MemoryBank → Memory → Result State
configure_entries startentry numentries pointer stride b mem =
    let last = s32 (startentry +ℤ numentries -ℤ pos 1) in
    configure_from (rounds startentry last) startentry pointer stride b mem
