-- ===== src/HandlerEntry/Subunits.antt =====
-- `configure_subunits` of `handler_entry`: the subunits for the bits of a mask.
use Prim.Native.Nat.{bit_and, bit_or, bit_xor}
use remame.Base.{
  ℕ, zero, suc, ◌+◌, ◌-◌, ◌*◌, ◌/◌, ◌%◌, ◌^◌, Bool, not, ◌||◌, ltb, ◌==◌, if◌then◌else◌,
}
use remame.Base.Int.{pos}
use remame.Base.Result.{Fatal, Result, ok, fatal, out_of_fuel, ◌>>=◌}
use remame.AddressTable.{update}
use remame.AddressTable.Derive.{complement}
use remame.HandlerEntry.{SubunitInfo, HandlerEntry, complement_64}

-- Whether the lowest unit of a mask is in it.
abbrev pub is_selected : ℕ → ℕ → Bool
is_selected mask unitmask = not (bit_and mask unitmask == 0)

-- The walk over the mask that counts units, `scanmask >>= handlerbits` each time.
unfoldable pub count_units : ℕ → ℕ → ℕ → ℕ → ℕ → Result ℕ
count_units zero scanmask unitmask handlerbits count = out_of_fuel
count_units (suc fuel) scanmask unitmask handlerbits count =
    let rest =
      count_units fuel (scanmask / 2 ^ handlerbits) unitmask handlerbits
        (if is_selected scanmask unitmask then count + 1 else count) in
    if scanmask == 0 then ok count else rest

-- The loop that makes the multiplier a power of 2.
unfoldable pub power_above : ℕ → ℕ → Result ℕ
power_above zero multiplier = out_of_fuel
power_above (suc fuel) multiplier =
    let rest = power_above fuel (multiplier + 1) in
    if bit_and multiplier (multiplier - 1) == 0 then ok multiplier else rest

-- What the loop over the units does not change.
pub record Layout : Type 0 where
  pub handlermask : ℕ
  pub handlerbits : ℕ
  pub unitmask : ℕ
  pub selectmask : ℕ
  pub maxunits : ℕ
  pub granularity : ℕ
  pub shift_xor_mask : ℕ
  pub multiplier : ℕ

abbrev pub shift_of : Layout → ℕ → ℕ
shift_of l unitnum = bit_xor unitnum l.shift_xor_mask * l.handlerbits

-- Whether the mask has a unit.
unfoldable pub has_unit : Layout → ℕ → Bool
has_unit l unitnum = is_selected (l.handlermask / 2 ^ shift_of l unitnum) l.unitmask

unfoldable pub unit_info : Layout → ℕ → ℕ → ℕ → SubunitInfo
unit_info l bytemask unitnum cur_offset = record {
  addrmask = bytemask / (l.maxunits / l.multiplier);
  datamask = l.unitmask * 2 ^ shift_of l unitnum % 2 ^ 64;
  csmask =
      l.selectmask
      * 2
        ^ (bit_and (bit_xor unitnum l.shift_xor_mask) (complement (l.granularity - 1))
            * l.handlerbits)
      % 2 ^ 64;
  offset = pos cur_offset;
  multiplier = l.multiplier;
  size = l.handlerbits;
  shift = shift_of l unitnum;
}

-- The loop over the units from `unitnum` on, with `n` to go. The count is a `u8`; the array ends after 8
-- slots, and a write past it is undefined.
unfoldable pub add_units : Layout → ℕ → ℕ → ℕ → HandlerEntry → HandlerEntry
add_units l zero unitnum cur_offset h = h
add_units l (suc n) unitnum cur_offset h =
    if has_unit l unitnum
    then add_units l n (unitnum + 1) (cur_offset + 1) (record h {
      subunit_infos = update h.subunit_infos h.subunits (unit_info l h.bytemask unitnum cur_offset);
      subunits = (h.subunits + 1) % 2 ^ 8;
    })
    else add_units l n (unitnum + 1) cur_offset h

-- The bits of the first `n` subunits, each of the unit mask of this call.
unfoldable pub shifted_masks : ℕ → ℕ → (ℕ → SubunitInfo) → ℕ
shifted_masks unitmask zero infos = 0
shifted_masks unitmask (suc n) infos =
    bit_or (shifted_masks unitmask n infos) (unitmask * 2 ^ (infos n).shift % 2 ^ 64)

-- A mask has 64 bits, and the multiplier is at most 7 below a power of 2.
abbrev pub unit_fuel : ℕ
unit_fuel = 65

abbrev pub layout : ℕ → ℕ → ℕ → ℕ → HandlerEntry → Layout
layout handlermask handlerbits cswidth multiplier h =
    let maxunits = h.datawidth / handlerbits in
    record {
      handlermask = handlermask;
      handlerbits = handlerbits;
      unitmask = 2 ^ handlerbits - 1;
      selectmask = 2 ^ cswidth - 1;
      maxunits = maxunits;
      granularity = cswidth / handlerbits;
      shift_xor_mask = if h.is_little then 0 else maxunits - 1;
      multiplier = multiplier;
    }

-- The slots for a layout, and the inverse mask.
unfoldable pub fill_slots : Layout → HandlerEntry → HandlerEntry × ℕ × ℕ
fill_slots l h =
    let h' = add_units l l.maxunits 0 0 h in
    (
      record h' {
        invsubmask = complement_64 (shifted_masks l.unitmask h'.subunits h'.subunit_infos);
      },
      h.subunits,
      h'.subunits,
    )

-- With `start_slot` and `end_slot`.
unfoldable pub configure_subunits : ℕ → ℕ → ℕ → HandlerEntry → Result (HandlerEntry × ℕ × ℕ)
configure_subunits handlermask handlerbits cswidth h =
    count_units unit_fuel handlermask (2 ^ handlerbits - 1) handlerbits 0 >>= λ count.
    if count == 0 || ltb (h.datawidth / handlerbits) count
    then fatal Fatal.invalid_subunit_mask
    else power_above unit_fuel count >>= λ multiplier.
        ok (fill_slots (layout handlermask handlerbits cswidth multiplier h) h)
