-- ===== src/MemoryBank/Entries.antt =====
-- The entries of a `memory_bank`: what `set_entry` finds of what `configure_entries` left.
use remame.Base.{
  ℕ, ◌+◌, ◌-◌, ◌*◌, ◌≤◌, ◌<◌, ◌≡◌, ◌≢◌, ◌∙◌, ap, refl, sym, arith, true, false, ◌&&◌, ltb, leb,
  ◌==◌, if◌then◌else◌,
}
use remame.Base.Lists.{length, set}
use remame.Base.Int.{ℤ, pos, negsuc, ◌≤ℤ◌, ◌<ℤ◌}
use remame.Base.Word.{u32}
use remame.Base.Result
use remame.Base.Result.{Fatal, Result, ok, fatal, Returns, returns, fails}
use remame.MemoryBank.{
  MemoryBank, Memory, State, null, base, put_base, pointer_at, invalidate_all, set_entry, make_room,
}
use remame.MemoryBank.References.{told, invalidate_all-told}

-- The entries from `start` to before `start + n` are those of a block, the others as before.
record Configured (start n pointer stride : ℕ) (b : MemoryBank) (s : State) : Type 0 where
  pointers :
      (i : ℕ)
      → pointer_at s.0.entries i ≡ (
          if leb start i && ltb i (start + n)
          then pointer + u32 ((i - start) * stride)
          else pointer_at b.entries i)
  long_enough : (i : ℕ) → start ≤ i → i < start + n → i < length s.0.entries
  grown : length b.entries ≤ length s.0.entries
  same_index : s.0.index ≡ b.index
  same_kind : s.0.anonymous ≡ b.anonymous
  same_references : s.0.references ≡ b.references

module _ (n pointer stride : ℕ) (b : MemoryBank) where
  -- The bank after `configure_entry`.
  entered : MemoryBank
  entered = record (make_room n b) { entries = set (make_room n b).entries n pointer }

-- What becomes of a request for an entry, and why.
pub data Failure (e : ℤ) (b : MemoryBank) : Fatal → Type 0 where
  no_entries : b.anonymous ≡ true → Failure e b Fatal.anonymous_bank
  below : b.anonymous ≡ false → e <ℤ pos 0 → Failure e b Fatal.entry_out_of_range
  above : b.anonymous ≡ false → pos (length b.entries) ≤ℤ e → Failure e b Fatal.entry_out_of_range
  unset :
      {n : ℕ}
      → e ≡ pos n
      → n < length b.entries
      → pointer_at b.entries n ≡ null
      → Failure e b Fatal.invalid_bank_entry

pub record Selected (e : ℤ) (b : MemoryBank) (mem : Memory) (s : State) : Type 0 where
  pub entry : ℕ
  pub is_entry : e ≡ pos entry
  pub inside : entry < length b.entries
  pub current : s.0 ≡ record b { curentry = e }
  pub not_null : base b s.1 ≢ null
  pub pointer : base b s.1 ≡ pointer_at b.entries entry
  pub invalidated : s.1.invalidated ≡ told b.references mem.invalidated

put_base_same :
    (pointer : ℕ) (b : MemoryBank) (mem : Memory) → base b (put_base pointer b mem) ≡ pointer
unfolding put_base
put_base_same pointer b mem = ground arith

told-put_base :
    (pointer : ℕ) (b : MemoryBank) (mem : Memory)
    → told b.references (put_base pointer b mem).invalidated ≡ told b.references mem.invalidated
unfolding put_base
told-put_base pointer b mem = refl

selected :
    (n : ℕ) (b : MemoryBank) (mem : Memory)
    → n < length b.entries
    → pointer_at b.entries n ≢ null
    → Selected (pos n) b mem (
      record b { curentry = pos n },
      invalidate_all b.references (put_base (pointer_at b.entries n) b mem),
    )
selected n b mem inside not_null =
    let pointer = pointer_at b.entries n in
    let (kept, heard) = invalidate_all-told b.references (put_base pointer b mem) in
    let found = ap (λ (m : ℕ → ℕ). m b.index) kept ∙ put_base_same pointer b mem in
    record {
      entry = n;
      is_entry = refl;
      inside = inside;
      current = refl;
      not_null = λ e. not_null (sym found ∙ e);
      pointer = found;
      invalidated = heard ∙ told-put_base pointer b mem;
    }

-- `set_entry` ends with the entry current, the bank otherwise as it was, the base the pointer
-- of the entry, which is not null, and the spaces of all the references told; or in a fatal
-- error: the bank is anonymous; or it is not, and the number is negative or not below that of
-- the entries; or the entry of that number is null.
pub set_entry_lem :
    (e : ℤ) (b : MemoryBank) (mem : Memory)
    → Returns (Selected e b mem) (Failure e b) (set_entry e b mem)
unfolding set_entry
set_entry_lem (negsuc n) b mem =
    Result.branch b.anonymous _ _ (λ anon. fails (no_entries anon))
      λ named. fails (below named (omega arith))
set_entry_lem (pos n) b mem =
    Result.branch b.anonymous _ _ (λ anon. fails (no_entries anon))
      λ named.
        Result.branch (leb (length b.entries) n) _ _ (λ past. fails (above named (ground arith)))
          λ inside.
            Result.branch (pointer_at b.entries n == null) _ _
              (λ missing. fails (unset refl (ground arith) (ground arith)))
              λ there. returns (selected n b mem (ground arith) (ground arith))
