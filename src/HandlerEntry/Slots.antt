-- ===== src/HandlerEntry/Slots.antt =====
-- The slots that `configure_subunits` adds.
use remame.Base.{ℕ, ◌+◌, ◌*◌, ◌^◌, ◌≤◌, ◌<◌, ◌≡◌, ◌⊎◌, true, ◌%◌}
use remame.Base.Result
use remame.Base.Result.{Fatal, Result, fatal, Flawless, ◌>>=◌}
use remame.AddressTable.{update}
use remame.HandlerEntry.{HandlerEntry}
use remame.HandlerEntry.Counted.{IsPower}
use remame.HandlerEntry.Places.{units_before, IsSlot}
use remame.HandlerEntry.Subunits.{Layout, unit_info}

-- `h'` has the slots of `h`, and one for each unit from `unitnum` on to before `unitnum + n`.
record Added (handlermask handlerbits cswidth m multiplier n unitnum : ℕ) (h h' : HandlerEntry)
    : Type 0 where
  counted :
      h'.subunits + units_before handlermask handlerbits h.is_little m unitnum
      ≡ h.subunits + units_before handlermask handlerbits h.is_little m (unitnum + n)
  earlier : (i : ℕ) → i < h.subunits → h'.subunit_infos i ≡ h.subunit_infos i
  units :
      (k : ℕ)
      → h.subunits + k < h'.subunits
      → IsSlot handlermask handlerbits cswidth h.is_little m h.bytemask multiplier
          (units_before handlermask handlerbits h.is_little m unitnum + k)
          (h'.subunit_infos (h.subunits + k))

-- The handler with one more slot.
with_unit : Layout → ℕ → ℕ → HandlerEntry → HandlerEntry
with_unit l unitnum cur_offset h = record h {
  subunit_infos = update h.subunit_infos h.subunits (unit_info l h.bytemask unitnum cur_offset);
  subunits = (h.subunits + 1) % 2 ^ 8;
}

module _ (handlermask handlerbits cswidth multiplier e g : ℕ) (some_bits : 0 < handlerbits)
    (few : e ≤ 3) (selected : g ≤ 3) (is_cswidth : cswidth ≡ 2 ^ g * handlerbits) where
  abbrev before : HandlerEntry → ℕ → ℕ
  before h u = units_before handlermask handlerbits h.is_little (2 ^ e) u

-- How many places of a mask of 64 bits have a bit.
abbrev pub units_of : ℕ → ℕ → ℕ
units_of handlermask handlerbits = units_before handlermask handlerbits true 0 64

module _ (handlermask handlerbits cswidth e : ℕ) (h : HandlerEntry) where
  abbrev pub in_data : ℕ
  in_data = units_before handlermask handlerbits h.is_little (2 ^ e) (2 ^ e)

  pub record Configured (r : HandlerEntry × ℕ × ℕ) : Type 0 where
    pub multiplier : ℕ
    pub is_power : IsPower (units_of handlermask handlerbits) multiplier
    pub starts : r.1 ≡ h.subunits
    pub ends : r.2 ≡ r.0.subunits
    pub counted : r.0.subunits ≡ h.subunits + in_data
    pub earlier : (i : ℕ) → i < h.subunits → r.0.subunit_infos i ≡ h.subunit_infos i
    pub units :
        (k : ℕ)
        → k < in_data
        → IsSlot handlermask handlerbits cswidth h.is_little
            (2 ^ e)
            h.bytemask
            multiplier
            k
            (r.0.subunit_infos (h.subunits + k))

  pub record Invalid (error : Fatal) : Type 0 where
    pub is_mask : error ≡ Fatal.invalid_subunit_mask
    pub reason : (units_of handlermask handlerbits ≡ 0) ⊎ (2 ^ e < units_of handlermask handlerbits)
