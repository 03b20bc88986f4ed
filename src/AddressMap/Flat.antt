-- ===== src/AddressMap/Flat.antt =====
-- `import_submaps` as the flattening of a tree of maps.
use mathlib.Core.Path.{subst}
use mathlib.Core.List.{append_assoc, append-nil}
use remame.Base.{
  ℕ, zero, suc, ◌≡◌, ◌∙◌, sym, ap, refl, true, false, List, [], ◌∷◌, ◌++◌, Option-cases, inl, inr,
}
use remame.Base.Lists.{All, no_more, and_more}
use remame.Base.Result
use remame.Base.Result.{Fatal, Result, ok, fatal, Returns, returns, fails, ◌>>=◌}
use remame.AddressMap.{AddressMapEntry, AddressMap}
use remame.AddressMap.Import.{
  Devices, is_submap, map_device, submap_of, place_plain, place_scaled, import_entry, import_from,
  import_submaps,
}
use remame.AddressMap.Merged.{
  Placed, placed_plain, placed_scaled, Merged, MergedTo, All-Merged, SubmapError, no_device,
  merge_lem,
}

-- The entries that a map comes to: each entry that refers to no submap stands for itself, each other one
-- for what the submap of its device comes to, merged.
pub data Flattened (devices : Devices) (data_width : ℕ)
    : ℕ → List AddressMapEntry → List AddressMapEntry → Type 0 where
  flat_none : {owner : ℕ} → Flattened devices data_width owner [] []
  flat_entry :
      {owner : ℕ} {entry : AddressMapEntry} {entries flat : List AddressMapEntry}
      → is_submap entry ≡ false
      → Flattened devices data_width owner entries flat
      → Flattened devices data_width owner (entry ∷ entries) (entry ∷ flat)
  flat_submap :
      {owner device : ℕ} {entry : AddressMapEntry}
      {entries subentries placed flat : List AddressMapEntry}
      → is_submap entry ≡ true
      → map_device devices owner entry ≡ ok device
      → Flattened devices data_width device (submap_of devices device entry).entrylist subentries
      → Merged entry data_width subentries placed
      → Flattened devices data_width owner entries flat
      → Flattened devices data_width owner (entry ∷ entries) (placed ++ flat)

-- Maps refer to maps less than `n` deep.
unfoldable pub IsShallow : Devices → ℕ → ℕ → AddressMap → Type 0
IsShallow devices zero owner map = ⊥
IsShallow devices (suc n) owner map =
    All
      (λ entry.
        is_submap entry ≡ true
        → (device : ℕ) → map_device devices owner entry ≡ ok device
        → IsShallow devices n device (submap_of devices device entry))
      map.entrylist

abbrev IsSubmapFree : List AddressMapEntry → Type 0
IsSubmapFree entries = All (λ entry. is_submap entry ≡ false) entries

All-append :
    {P : AddressMapEntry → Type 0} {xs ys : List AddressMapEntry}
    → All P xs
    → All P ys
    → All P (xs ++ ys)
All-append no_more b = b
All-append (and_more h a) b = and_more h (All-append a b)

-- What an entry is imported from, it refers to as well.
is_submap-Placed :
    {entry : AddressMapEntry} {data_width : ℕ} (subentry placed : AddressMapEntry)
    → Placed entry data_width subentry placed
    → is_submap subentry ≡ false
    → is_submap placed ≡ false
unfolding place_plain place_scaled
is_submap-Placed subentry placed (placed_plain plain) h = h
is_submap-Placed subentry placed (placed_scaled plain e fits) h = h

-- The part of the result that a part of the entries comes to.
record FlatTo (devices : Devices) (data_width owner : ℕ)
    (entries before result : List AddressMapEntry) : Type 0 where
  flat : List AddressMapEntry
  added : result ≡ before ++ flat
  flattened : Flattened devices data_width owner entries flat
  free : IsSubmapFree flat

-- A map imported: it has the entries of the flattened one, none of which refers to a submap.
pub record Imported (devices : Devices) (data_width owner : ℕ) (map map' : AddressMap)
    : Type 0 where
  pub flattened : Flattened devices data_width owner map.entrylist map'.entrylist
  pub free : All (λ entry. is_submap entry ≡ false) map'.entrylist
  pub others : map' ≡ record map { entrylist = map'.entrylist }

map_device_lem :
    (devices : Devices) (owner : ℕ) (entry : AddressMapEntry)
    → Returns
        (λ device. map_device devices owner entry ≡ ok device)
        SubmapError
        (map_device devices owner entry)
unfolding map_device
map_device_lem devices owner entry =
    Result.known {P = λ device. device ≡ device} (elim (Option-cases entry.submap_device) [
      | inr (device, here) ↦ rw (here, map_device) (returns refl)
      | inl absent ↦ elim (Option-cases (devices.find_device owner entry.read.tag)) [
        | inl unknown ↦ rw (absent, unknown, map_device) (fails no_device)
        | inr (device, there) ↦ rw (absent, there, map_device) (returns refl)
      ]
    ])

FlatTo-entry :
    (devices : Devices) (data_width owner : ℕ) (entry : AddressMapEntry)
    (entries before result : List AddressMapEntry)
    → is_submap entry ≡ false
    → FlatTo devices data_width owner entries (before ++ (entry ∷ [])) result
    → FlatTo devices data_width owner (entry ∷ entries) before result
FlatTo-entry devices data_width owner entry entries before result plain rest = record {
  flat = entry ∷ rest.flat;
  added = rest.added ∙ append_assoc before (entry ∷ []) rest.flat;
  flattened = flat_entry plain rest.flattened;
  free = and_more plain rest.free;
}

FlatTo-submap :
    (devices : Devices) (data_width owner device : ℕ) (entry : AddressMapEntry)
    (submap : AddressMap) (entries before before' result : List AddressMapEntry)
    → is_submap entry ≡ true
    → map_device devices owner entry ≡ ok device
    → Imported devices data_width device (submap_of devices device entry) submap
    → MergedTo entry data_width submap.entrylist before before'
    → FlatTo devices data_width owner entries before' result
    → FlatTo devices data_width owner (entry ∷ entries) before result
FlatTo-submap devices data_width owner device entry submap entries before before' result refers
      found imported to rest =
    record {
      flat = to.placed ++ rest.flat;
      added =
          rest.added
          ∙ ap (λ (es : List AddressMapEntry). es ++ rest.flat) to.added
          ∙ append_assoc before to.placed rest.flat;
      flattened = flat_submap refers found imported.flattened to.merged rest.flattened;
      free =
          All-append
            (All-Merged (λ s p placed early h. is_submap-Placed s p placed h) to.merged
              imported.free)
            rest.free;
    }

module _ (devices : Devices) (data_width : ℕ) (n : ℕ)
    (import_lem : (owner : ℕ) (map : AddressMap)
      → IsShallow devices n owner map
      → Returns
          (Imported devices data_width owner map)
          SubmapError
          (import_submaps n devices owner data_width map)) where
  import_from_lem :
      (owner : ℕ) (before entries : List AddressMapEntry)
      → All
          (λ entry.
            is_submap entry ≡ true
            → (device : ℕ) → map_device devices owner entry ≡ ok device
            → IsShallow devices n device (submap_of devices device entry))
          entries
      → Returns (FlatTo devices data_width owner entries before) SubmapError (
          import_from
            (λ device submap. import_submaps n devices device data_width submap)
            devices
            owner
            data_width
            before
            entries)
  unfolding import_from import_entry
  import_from_lem owner before [] no_more =
      returns (record {
        flat = [];
        added = sym (append-nil before);
        flattened = flat_none;
        free = no_more;
      })
  import_from_lem owner before (entry ∷ rest) (and_more shallow below) =
      Result.bind
        {P = λ before'.
          (result : List AddressMapEntry)
          → FlatTo devices data_width owner rest before' result
          → FlatTo devices data_width owner (entry ∷ rest) before result}
        (Result.branch (is_submap entry) _ _
          (λ refers. Result.bind (map_device_lem devices owner entry) (λ device found.
            Result.bind
              (import_lem device (submap_of devices device entry) (shallow refers device found))
              (λ submap imported.
                Result.weaken (merge_lem entry data_width before submap.entrylist)
                  (λ before' to result.
                    FlatTo-submap devices data_width owner device entry submap rest before before'
                      result refers found imported to))))
          (λ plain.
            returns
              (λ result. FlatTo-entry devices data_width owner entry rest before result plain)))
        (λ before' step.
          Result.weaken (import_from_lem owner before' rest below) (λ result to. step result to))

-- If maps refer to maps less than `n` deep, `import_submaps` with fuel `n` ends. Either in the
-- same map but for its entries: in their order, each that refers to no submap, and in place of
-- each that does, what the submap of its device comes to in the same way, each entry placed by
-- the rules of merging or left out because it starts after the end; no entry refers to a submap
-- any more. Or in an error: no such device, a mask that does not fit, or one without a bit.
pub import_submaps_lem :
    (n : ℕ) (devices : Devices) (owner data_width : ℕ) (map : AddressMap)
    → IsShallow devices n owner map
    → Returns
        (Imported devices data_width owner map)
        SubmapError
        (import_submaps n devices owner data_width map)
unfolding import_submaps IsShallow
import_submaps_lem zero devices owner data_width map shallow = absurd shallow
import_submaps_lem (suc n) devices owner data_width map shallow =
    Result.bind
      (import_from_lem devices data_width n
        (λ owner map. import_submaps_lem n devices owner data_width map) owner [] map.entrylist
        shallow)
      (λ entries to. returns (record {
        flattened =
            subst (Flattened devices data_width owner map.entrylist) (sym to.added) to.flattened;
        free = subst IsSubmapFree (sym to.added) to.free;
        others = refl;
      }))
