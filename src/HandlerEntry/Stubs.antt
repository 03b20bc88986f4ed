-- ===== src/HandlerEntry/Stubs.antt =====
-- The stubs that compose a wide access from the accesses of subunits. A delegate, by its place among the
-- subunits, takes an address and a mask and changes a state. Its size is one that the source has a case for.
use Prim.Native.Nat.{bit_and, bit_or}
use remame.Base.{ℕ, zero, suc, ◌+◌, ◌*◌, ◌/◌, ◌%◌, ◌^◌, ◌==◌, if◌then◌else◌}
use remame.Base.Int.{pos, ◌+ℤ◌}
use remame.Base.Word.{u32_of}
use remame.HandlerEntry.{SubunitInfo, HandlerEntry}

-- `aoffset & si.m_addrmask`. The multiplier is an `int`, the sum is reduced to an `offs_t`.
unfoldable pub subunit_address : SubunitInfo → ℕ → ℕ
subunit_address info offset =
    bit_and (u32_of (pos (offset * info.multiplier) +ℤ info.offset)) info.addrmask

module _ {ℓ} {S : Type ℓ} (read : ℕ → ℕ → ℕ → S → ℕ × S) where
  -- A round of `read_stub_16`, `read_stub_32` and `read_stub_64`, and the loop from subunit `index` on. A
  -- mask is given to a delegate in as many bits as the unit has.
  unfoldable pub read_unit : ℕ → ℕ → ℕ → ℕ → SubunitInfo → ℕ × S → ℕ × S
  read_unit bits offset mask index info (result, s) =
      if bit_and mask info.csmask == 0
      then (result, s)
      else let (val, s') =
          read index (subunit_address info offset) ((mask / 2 ^ info.shift) % 2 ^ info.size) s in
        (bit_or result ((val * 2 ^ info.shift) % 2 ^ bits), s')

  unfoldable pub read_units : ℕ → ℕ → ℕ → ℕ → ℕ → (ℕ → SubunitInfo) → ℕ × S → ℕ × S
  read_units bits offset mask index zero infos r = r
  read_units bits offset mask index (suc n) infos r =
      read_units bits offset mask (index + 1) n infos
        (read_unit bits offset mask index (infos index) r)

  unfoldable pub read_stub : ℕ → ℕ → HandlerEntry → ℕ → ℕ → S → ℕ × S
  read_stub bits unmap h offset mask s =
      read_units bits offset mask 0 h.subunits h.subunit_infos
        (bit_and unmap h.invsubmask % 2 ^ bits, s)

module _ {ℓ} {S : Type ℓ} (write : ℕ → ℕ → ℕ → ℕ → S → S) where
  -- The same for `write_stub_16`, `write_stub_32` and `write_stub_64`.
  unfoldable pub write_unit : ℕ → ℕ → ℕ → ℕ → SubunitInfo → S → S
  write_unit offset value mask index info s =
      if bit_and mask info.csmask == 0
      then s
      else write index (subunit_address info offset) ((value / 2 ^ info.shift) % 2 ^ info.size)
          ((mask / 2 ^ info.shift) % 2 ^ info.size) s

  unfoldable pub write_units : ℕ → ℕ → ℕ → ℕ → ℕ → (ℕ → SubunitInfo) → S → S
  write_units offset value mask index zero infos s = s
  write_units offset value mask index (suc n) infos s =
      write_units offset value mask (index + 1) n infos
        (write_unit offset value mask index (infos index) s)

  unfoldable pub write_stub : HandlerEntry → ℕ → ℕ → ℕ → S → S
  write_stub h offset value mask s = write_units offset value mask 0 h.subunits h.subunit_infos s
