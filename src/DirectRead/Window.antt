-- ===== src/DirectRead/Window.antt =====
-- The window of `direct_read_data`, within which it reads without asking the table.
use Prim.Native.Nat.{bit_and, bit_xor}
use remame.Base.{
  ℕ, ◌+◌, ◌-◌, ◌^◌, ◌%◌, ◌≤◌, ◌<◌, ◌≡◌, inl, inr, ◌∙◌, ap, sym, refl, arith, Bool, true, ◌&&◌, ◌||◌,
  ltb, leb, if◌then◌else◌, Bool-cases, Option, none, some,
}
use remame.Base.Bits.{bit_and_complement, bit_or_zero}
use remame.Base.Int.{ℤ}
use remame.Base.Result
use remame.Base.Result.{Result, ok, Returns, returns, Flawless, ◌>>=◌}
use remame.AddressTable.{lookup_live_nowp, static_bank1, static_bankmax}
use remame.AddressTable.Core.{core, IsSound}
use remame.AddressTable.Merge.{nowhere}
use remame.AddressTable.Derive.{complement}
use remame.DirectRead.{
  DirectRange, DirectReadData, AddressSpace, offset_to_byte, set_window, set_direct_region,
  address_is_valid, pointer_of, read_ptr,
}
use remame.DirectRead.Ranges.{IsTrue, Contains, IsCoherent, find_range-FoundRange}

abbrev pub is_bank : ℕ → Bool
is_bank entry = leb static_bank1 entry && leb entry static_bankmax

module _ (shift : ℤ) (space : AddressSpace) where
  -- Where the handler of an entry would have address 0.
  abbrev pub origin : ℕ → ℕ
  origin entry =
      let handler = space.handler_read entry in
      (space.bank_pointer entry
        + 2 ^ 64
        - offset_to_byte shift (bit_and handler.addrstart handler.addrmask))
      % 2 ^ 64

  -- What a read without any cache would do: the pointer to an address in a bank.
  abbrev pub direct_pointer : ℕ → ℕ → Option ℕ
  direct_pointer address directxor =
      let entry = lookup_live_nowp space.read address in
      if is_bank entry
      then some (
          (origin entry
            + offset_to_byte shift
                (bit_and (bit_xor address directxor) (space.handler_read entry).addrmask))
          % 2 ^ 64)
      else none

  -- Each address in the window is the entry's, which is a bank that `ptr` and `addrmask` are of.
  pub record IsLive (d : DirectReadData) : Type 0 where
    pub looks : (x : ℕ) → d.addrstart ≤ x → x ≤ d.addrend → lookup_live_nowp space.read x ≡ d.entry
    pub bank : d.addrstart ≤ d.addrend → is_bank d.entry ≡ true
    pub origin_there : d.addrstart ≤ d.addrend → d.ptr ≡ origin d.entry
    pub mask_there : d.addrstart ≤ d.addrend → d.addrmask ≡ (space.handler_read d.entry).addrmask

  -- After a request for an address, with whether it may be read directly.
  pub record Valid (address : ℕ) (r : DirectReadData × Bool) : Type 0 where
    pub coherent : IsCoherent (lookup_live_nowp space.read) r.0
    pub live : IsLive r.0
    pub right : r.1 ≡ is_bank (lookup_live_nowp space.read address)
    pub inside : r.1 ≡ true → (r.0.addrstart ≤ address) × (address ≤ r.0.addrend)

  module _ (s : IsSound nowhere (core space.read)) (mask : space.addrmask < 2 ^ 32) (address : ℕ)
      (h : address < 2 ^ 32) (in_space : bit_and address (complement space.addrmask) ≡ 0) where
    unmasked : bit_and address space.addrmask ≡ address
    unmasked = omega (
      arith,
      in_space,
      bit_and_complement address space.addrmask (complement space.addrmask) h (omega arith),
    )

    set_window-Valid :
        (d : DirectReadData) (range : DirectRange)
        → d.entry ≡ lookup_live_nowp space.read address
        → Contains address range
        → IsTrue (lookup_live_nowp space.read) d.entry range
        → IsCoherent (lookup_live_nowp space.read) d
        → Valid address (set_window shift address space d range)
    unfolding set_window
    set_window-Valid d range right contains truth coherent =
        elim (Bool-cases (ltb d.entry static_bank1 || ltb static_bankmax d.entry)) [
          | inl other ↦ rw other (record {
            coherent = coherent;
            live = record {
              looks = λ x a b. absurd (omega arith);
              bank = λ some'. absurd (omega arith);
              origin_there = λ some'. absurd (omega arith);
              mask_there = λ some'. absurd (omega arith);
            };
            right = ground (arith, right);
            inside = λ yes'. cc;
          })
          | inr banked ↦
              rw (banked, in_space, bit_or_zero range.addrstart, bit_or_zero range.addrend)
                (record {
                  coherent = coherent;
                  live = record {
                    looks = λ x a b. truth.same x a b;
                    bank = λ some'. ground arith;
                    origin_there = λ some'. refl;
                    mask_there = λ some'. refl;
                  };
                  right = ground (arith, right);
                  inside = λ yes'. (contains.after, contains.before);
                })
        ]

    pub address_is_valid_lem :
        (d : DirectReadData)
        → IsCoherent (lookup_live_nowp space.read) d
        → IsLive d
        → Returns (Valid address) Flawless (address_is_valid shift address space d)
    unfolding address_is_valid set_direct_region
    address_is_valid_lem d coherent live =
        Result.branch (leb d.addrstart address && leb address d.addrend) _ _
          (λ hit. returns (record {
            coherent = coherent;
            live = live;
            right = sym (
                ap is_bank (live.looks address (ground arith) (ground arith))
                ∙ live.bank (ground arith));
            inside = λ yes'. (ground arith, ground arith);
          }))
          λ miss. Result.bind (find_range-FoundRange space s address d mask coherent) λ r f.
            returns (
              set_window-Valid r.0 r.1 (f.right_entry ∙ ap (lookup_live_nowp space.read) unmasked)
                (record {
                  after = omega (arith, unmasked, f.contains.after);
                  before = omega (arith, unmasked, f.contains.before);
                })
                f.truth f.coherent)

    pub same_pointer :
        (directxor : ℕ) (r : DirectReadData × Bool)
        → Valid address r
        → (if r.1 then some (pointer_of shift address directxor r.0) else none)
          ≡ direct_pointer address directxor
    unfolding pointer_of
    same_pointer directxor r v = elim (Bool-cases r.1) [
      | inl direct ↦
          let (lo, hi) = v.inside direct in
          let window : r.0.addrstart ≤ r.0.addrend = omega (arith, lo, hi) in
          rw
            (
              direct,
              v.live.looks address lo hi,
              v.live.bank window,
              v.live.origin_there window,
              v.live.mask_there window,
            )
            refl
      | inr refused ↦ rw (refused, sym v.right ∙ refused) refl
    ]

    -- In a space with a large table in order and an address mask of 32 bits, for a 32-bit
    -- address without bits outside the mask: if every cached range is true and the window is of
    -- one bank, `read_ptr` succeeds, gives the pointer that the table, the handler and the bank
    -- of the address give, or none if the address is in no bank, and keeps the ranges true and
    -- the window of one bank.
    pub read_ptr-direct_pointer :
        (directxor : ℕ) (d : DirectReadData)
        → IsCoherent (lookup_live_nowp space.read) d
        → IsLive d
        → Returns
            (λ r.
              (r.1 ≡ direct_pointer address directxor)
              × IsCoherent (lookup_live_nowp space.read) r.0
              × IsLive r.0)
            Flawless
            (read_ptr shift address directxor space d)
    unfolding read_ptr pointer_of
    read_ptr-direct_pointer directxor d coherent live =
        Result.bind (address_is_valid_lem d coherent live)
          λ r v. returns (same_pointer directxor r v, v.coherent, v.live)
