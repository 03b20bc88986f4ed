-- ===== src/DirectRead/Reads.antt =====
-- The reads of each size through `direct_read_data`.
use Prim.Native.Nat.{bit_and}
use remame.Base.{
  ℕ, ◌^◌, ◌<◌, ◌≡◌, refl, ap, arith, Bool, true, false, if◌then◌else◌, Option, none, some,
}
use remame.Base.Int.{ℤ, negsuc, ◌≤ℤ◌, ◌<ℤ◌, leb_ℤ}
use remame.Base.Result
use remame.Base.Result.{Fatal, Result, ok, fatal, Returns, returns, fails, Flawless, ◌>>=◌}
use remame.AddressTable.{lookup_live_nowp}
use remame.AddressTable.Core.{core, IsSound}
use remame.AddressTable.Merge.{nowhere}
use remame.AddressTable.Derive.{complement}
use remame.DirectRead.{
  DirectReadData, AddressSpace, MemoryAccess, pointer_of, read_bytes, read_byte, read_word,
  read_dword, read_qword,
}
use remame.DirectRead.Ranges.{IsCoherent}
use remame.DirectRead.Window.{direct_pointer, IsLive, address_is_valid_lem, same_pointer}

-- What is loaded from a direct pointer, or else read by the address space.
abbrev pub loaded : MemoryAccess → ℕ → ℕ → Option ℕ → ℕ
loaded reads size address (some pointer) = reads.load size pointer
loaded reads size address none = reads.read size address

module _ (shift : ℤ) (space : AddressSpace) (address directxor : ℕ) (reads : MemoryAccess) where
  -- The value read, with the caches still true.
  abbrev pub IsRead : ℕ → DirectReadData × ℕ → Type 0
  IsRead size r =
      (r.1 ≡ loaded reads size address (direct_pointer shift space address directxor))
      × IsCoherent (lookup_live_nowp space.read) r.0
      × IsLive shift space r.0

  -- A read that is refused for shifts up to a limit, and for no others.
  abbrev pub ReadsAbove : ℤ → ℕ → Result (DirectReadData × ℕ) → Type 0
  ReadsAbove limit size result =
      Returns (λ r. IsRead size r × (limit <ℤ shift))
        (λ e. (e ≡ Fatal.address_shift) × (shift ≤ℤ limit)) result

  loaded_if :
      (valid : Bool) (size pointer : ℕ) (o : Option ℕ)
      → (if valid then some pointer else none) ≡ o
      → (if valid then reads.load size pointer else reads.read size address)
        ≡ loaded reads size address o
  loaded_if true size pointer o e = ap (loaded reads size address) e
  loaded_if false size pointer o e = ap (loaded reads size address) e

  module _ (s : IsSound nowhere (core space.read)) (mask : space.addrmask < 2 ^ 32)
      (h : address < 2 ^ 32) (in_space : bit_and address (complement space.addrmask) ≡ 0)
      (d : DirectReadData) (coherent : IsCoherent (lookup_live_nowp space.read) d)
      (live : IsLive shift space d) where
    read_bytes-IsRead :
        (size : ℕ)
        → Returns (IsRead size) Flawless (read_bytes size shift address directxor reads space d)
    unfolding read_bytes
    read_bytes-IsRead size =
        Result.bind (address_is_valid_lem shift space s mask address h in_space d coherent live)
          λ r v. returns (
            loaded_if r.1 size (pointer_of shift address directxor r.0) _
                (same_pointer shift space s mask address h in_space directxor r v),
            v.coherent,
            v.live,
          )

    guarded :
        (limit : ℤ) (size : ℕ)
        → ReadsAbove limit size (
            if leb_ℤ shift limit
            then fatal Fatal.address_shift
            else read_bytes size shift address directxor reads space d)
    guarded limit size =
        Result.branch (leb_ℤ shift limit) _ _ (λ low. fails (refl, ground arith))
          λ high. Result.tolerate (Result.weaken (read_bytes-IsRead size) λ r p. (p, ground arith))

    -- In a space with a large table in order and an address mask of 32 bits, for a 32-bit
    -- address without bits outside the mask, with every cached range true and the window of one
    -- bank: `read_byte`, `read_word` and `read_dword` fail for shifts of at most -1, -2 and -3
    -- and no others, `read_qword` never; else each returns what is loaded, of its size, from
    -- the pointer that the table and the bank give, or what the address space reads if the
    -- address is in no bank, and the caches stay true.
    pub reads-direct_pointer :
        ReadsAbove (negsuc 0) 1 (read_byte shift address directxor reads space d)
        × ReadsAbove (negsuc 1) 2 (read_word shift address directxor reads space d)
        × ReadsAbove (negsuc 2) 4 (read_dword shift address directxor reads space d)
        × Returns (IsRead 8) Flawless (read_qword shift address directxor reads space d)
    unfolding read_byte read_word read_dword read_qword
    reads-direct_pointer =
        (guarded (negsuc 0) 1, guarded (negsuc 1) 2, guarded (negsuc 2) 4, read_bytes-IsRead 8)
