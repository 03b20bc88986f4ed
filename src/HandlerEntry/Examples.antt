-- ===== src/HandlerEntry/Examples.antt =====
-- The theorems on handler entries at a 32-bit handler with two 8-bit subunits.
use native.Mathlib.Nat.{mod-lt, one-le-pow}
use remame.Base.{
  ℕ, zero, suc, ◌+◌, ◌%◌, ◌^◌, ◌<◌, ◌≡◌, ◌≢◌, refl, Bool, true, false, arith, ◌==◌, if◌then◌else◌,
  Bool-cases, inl, inr,
}
use remame.Base.HasBit.{has_bit}
use remame.Base.Int.{pos}
use remame.HandlerEntry.{SubunitInfo, HandlerEntry, clear_conflicting_subunits, overriden_by_mask}
use remame.HandlerEntry.Conflicts.{all_slots, kept_by, is_empty, clear_conflicting_subunits-kept_by}
use remame.HandlerEntry.Stubs.{subunit_address, read_stub}
use remame.HandlerEntry.Gathered.{in_lane, IsSource, read_stub_lem}

abbrev byte_at : ℕ → ℕ → SubunitInfo
byte_at shift datamask = record {
  addrmask = 0xff;
  datamask = datamask;
  csmask = datamask;
  offset = pos 0;
  multiplier = 2;
  size = 8;
  shift = shift;
}

abbrev entry : HandlerEntry
entry = record {
  populated = true;
  datawidth = 32;
  is_little = true;
  addrstart = 0;
  addrend = 0xff;
  addrmask = 0xff;
  bytemask = 0xff;
  subunits = 2;
  subunit_infos = λ i. if i == 0 then byte_at 0 0xff else byte_at 16 0xff_0000;
  subaccess = λ i. i;
  invsubmask = 0xffff_ffff_ff00_ff00;
}

-- A mask that takes the first byte away.
clear_conflicting_subunits-kept_by_example :
    (all_slots (clear_conflicting_subunits 0xffff entry) ≡ kept_by 0xffff (all_slots entry))
    × (overriden_by_mask 0xffff entry ≡ is_empty (kept_by 0xffff (all_slots entry)))
clear_conflicting_subunits-kept_by_example = clear_conflicting_subunits-kept_by 0xffff entry

-- Delegates that give 0x5a and 0x5b; the state counts the reads.
abbrev read_pattern : ℕ → ℕ → ℕ → ℕ → ℕ × ℕ
read_pattern index address mask reads = ((0x5a + index) % 2 ^ 8, reads + 1)

abbrev byte_bit : ℕ → ℕ → ℕ → Bool
byte_bit index address = has_bit ((0x5a + index) % 2 ^ 8)

sizes : (index : ℕ) → (entry.subunit_infos index).size ≡ 8
sizes index = elim (Bool-cases (index == 0)) [
  | inl first ↦ rw first refl
  | inr second ↦ rw second refl
]

source : IsSource read_pattern entry.subunit_infos byte_bit
source = record {
  narrow = λ index address mask reads.
      rw (sizes index) (mod-lt (0x5a + index) (one-le-pow 8 2 (omega arith)));
  given = λ index address mask reads j asked. refl;
}

other_lane : (i : ℕ) → i < 2 → i ≢ 1 → in_lane (entry.subunit_infos i) 18 ≡ false
other_lane zero h other = refl
other_lane (suc zero) h other = absurd (other refl)
other_lane (suc (suc i)) h other = absurd (omega arith)

read_stub_lem_example :
    has_bit (read_stub read_pattern 32 0xffff_ffff entry 3 0xffff_ffff 0).0 18
    ≡ byte_bit 1 (subunit_address (entry.subunit_infos 1) 3) 2
read_stub_lem_example =
    read_stub_lem read_pattern byte_bit entry source 32 0xffff_ffff 3 0xffff_ffff 1 18 0
      (omega arith) refl other_lane (omega arith) refl refl refl
