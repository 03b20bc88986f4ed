-- ===== src/HandlerEntry.antt =====
-- `handler_entry` of source/emucore/memory/emumem.cpp, in what `handler_entry_read` and
-- `handler_entry_write` share: the range of a handler, and the subunits by which a wide access is
-- split among narrow handlers. A delegate is a number; the arrays are functions.
mod Conflicts
mod Subunits
mod Places
mod Counted
mod Slots
pub mod Stubs
mod Gathered
mod Examples
use Prim.Native.Nat.{bit_and, bit_or, bit_xor}
use remame.Base.{
  ℕ, zero, suc, ◌+◌, ◌-◌, ◌*◌, ◌/◌, ◌%◌, ◌^◌, Bool, true, false, ◌&&◌, ◌||◌, not, ltb, leb, ◌==◌,
  if◌then◌else◌,
}
use remame.Base.Int.{ℤ, pos, ◌+ℤ◌, ◌-ℤ◌, trunc_div}
use remame.Base.Word.{s32}
use remame.Base.Result.{Fatal, Result, ok, fatal, out_of_fuel, ◌>>=◌}

pub record SubunitInfo : Type 0 where
  pub addrmask : ℕ
  pub datamask : ℕ
  pub csmask : ℕ
  pub offset : ℤ
  pub multiplier : ℕ
  pub size : ℕ
  pub shift : ℕ

pub record HandlerEntry : Type 0 where
  pub populated : Bool
  pub datawidth : ℕ
  pub is_little : Bool
  pub addrstart : ℕ
  pub addrend : ℕ
  pub addrmask : ℕ
  pub bytemask : ℕ
  pub subunits : ℕ
  pub subunit_infos : ℕ → SubunitInfo
  -- `m_subread` or `m_subwrite`.
  pub subaccess : ℕ → ℕ
  pub invsubmask : ℕ

abbrev pub complement_64 : ℕ → ℕ
complement_64 mask = 2 ^ 64 - 1 - mask % 2 ^ 64

-- The constructor. The arrays begin as they are.
unfoldable pub new_handler_entry : ℕ → Bool → (ℕ → SubunitInfo) → (ℕ → ℕ) → HandlerEntry
new_handler_entry width is_little subunit_infos subaccess = record {
  populated = false;
  datawidth = width;
  is_little = is_little;
  addrstart = 0;
  addrend = 0;
  addrmask = 2 ^ 32 - 1;
  bytemask = 2 ^ 32 - 1;
  subunits = 0;
  subunit_infos = subunit_infos;
  subaccess = subaccess;
  invsubmask = 0;
}

-- The first `m_subunits` elements are copied, the others stay.
abbrev pub copy_first {ℓ} : {A : Type ℓ} → ℕ → (ℕ → A) → (ℕ → A) → ℕ → A
copy_first n from to i = if ltb i n then from i else to i

unfoldable pub copy : HandlerEntry → HandlerEntry → HandlerEntry
copy entry h = record {
  populated = true;
  datawidth = entry.datawidth;
  is_little = entry.is_little;
  addrstart = entry.addrstart;
  addrend = entry.addrend;
  addrmask = entry.addrmask;
  bytemask = entry.bytemask;
  subunits = entry.subunits;
  subunit_infos = copy_first entry.subunits entry.subunit_infos h.subunit_infos;
  subaccess = copy_first entry.subunits entry.subaccess h.subaccess;
  invsubmask = entry.invsubmask;
}

unfoldable pub reconfigure_subunits : ℕ → HandlerEntry → HandlerEntry
reconfigure_subunits addrstart h =
    let delta = s32 (pos addrstart -ℤ pos h.addrstart) in
    record h {
      subunit_infos = λ i.
          let info = h.subunit_infos i in
          if ltb i h.subunits
          then record info { offset = s32 (info.offset +ℤ trunc_div delta (info.size / 8)) }
          else info;
    }

unfoldable pub configure : ℕ → ℕ → ℕ → ℕ → HandlerEntry → HandlerEntry
configure addrstart addrend addrmask bytemask h =
    let h' = if h.populated && not (h.subunits == 0) then reconfigure_subunits addrstart h else h in
    record h' {
      populated = true;
      addrstart = addrstart;
      addrend = addrend;
      addrmask = addrmask;
      bytemask = bytemask;
    }

-- `memmove` of the elements after one to its place.
abbrev pub move_up {ℓ} : {A : Type ℓ} → ℕ → ℕ → (ℕ → A) → ℕ → A
move_up entry n f i = if leb entry i && ltb (i + 1) n then f (i + 1) else f i

unfoldable pub remove_subunit : ℕ → HandlerEntry → HandlerEntry
remove_subunit entry h = record h {
  subaccess = move_up entry h.subunits h.subaccess;
  subunits = h.subunits - 1;
}

-- The body of the loop of `clear_conflicting_subunits`.
unfoldable pub clear_one : ℕ → ℕ → HandlerEntry → HandlerEntry
clear_one handlermask i h =
    if not (bit_and handlermask (h.subunit_infos i).datamask == 0)
    then remove_subunit i (record h { subunit_infos = move_up i h.subunits h.subunit_infos })
    else h

-- The loop, from subunit `i - 1` down to 0.
unfoldable pub clear_from : ℕ → ℕ → HandlerEntry → HandlerEntry
clear_from handlermask zero h = h
clear_from handlermask (suc i) h = clear_from handlermask i (clear_one handlermask i h)

-- The bits of the first `n` subunits.
unfoldable pub all_masks : ℕ → (ℕ → SubunitInfo) → ℕ
all_masks zero infos = 0
all_masks (suc n) infos = bit_or (all_masks n infos) (infos n).datamask

unfoldable pub clear_conflicting_subunits : ℕ → HandlerEntry → HandlerEntry
clear_conflicting_subunits handlermask h =
    if handlermask == 0
    then record h { subunits = 0 }
    else let h' = clear_from handlermask h.subunits h in
      record h' { invsubmask = complement_64 (all_masks h'.subunits h'.subunit_infos) }

-- The loop of `overriden_by_mask` from subunit `i` on, with `n` to go.
unfoldable pub none_left : ℕ → ℕ → ℕ → (ℕ → SubunitInfo) → Bool
none_left handlermask zero i infos = true
none_left handlermask (suc n) i infos =
    if bit_and handlermask (infos i).datamask == 0
    then false
    else none_left handlermask n (i + 1) infos

unfoldable pub overriden_by_mask : ℕ → HandlerEntry → Bool
overriden_by_mask handlermask h =
    if handlermask == 0
    then true
    else if h.subunits == 0
    then true
    else none_left handlermask h.subunits 0 h.subunit_infos
