-- ===== src/AddressMap/Made.antt =====
-- The constructors of `address_map`: whose entries come first.
use mathlib.Core.Path.{subst}
use mathlib.Core.List.{append-nil}
use remame.Base.{
  ℕ, ◌≡◌, ◌∙◌, sym, ap, refl, arith, false, not, List, [], ◌∷◌, ◌++◌, Option, none, some,
  Option-cases, inl, inr,
}
use remame.Base.Result
use remame.Base.Result.{Fatal, Result, ok, fatal, Returns, returns, fails}
use remame.AddressMap.{AddressMapEntry, AddressMap, new_entry}
use remame.AddressMap.Setters.{
  add_entry, SpaceMaps, MapDevice, call_map, set_device, own_map, new_address_map,
}

-- A driver's map adds entries to the end, which depend on the device of the map, and keeps the device.
pub record Adds (f : AddressMap → AddressMap) (entries : ℕ → List AddressMapEntry) : Type 0 where
  pub adds : (map : AddressMap) → (f map).entrylist ≡ map.entrylist ++ entries map.device
  pub keeps : (map : AddressMap) → (f map).device ≡ map.device

-- What calls of `operator()` in a driver's map do.
pub Adds-add_entry :
    (start end : ℕ) (describe : AddressMapEntry → AddressMapEntry)
    → Adds (add_entry start end describe) (λ device. describe (new_entry device start end) ∷ [])
unfolding add_entry
Adds-add_entry start end describe = record { adds = λ map. refl; keeps = λ map. refl }

-- A map that may be missing adds nothing then.
pub data AddsIf : Option (AddressMap → AddressMap) → (ℕ → List AddressMapEntry) → Type 0 where
  no_map : AddsIf none (λ device. [])
  a_map :
      {f : AddressMap → AddressMap} {entries : ℕ → List AddressMapEntry}
      → Adds f entries
      → AddsIf (some f) entries

-- The entries of the owner's map if there is one, else of the default map, before the internal ones.
pub entries_of :
    MapDevice
    → ℕ
    → (ℕ → List AddressMapEntry)
    → (ℕ → List AddressMapEntry)
    → (ℕ → List AddressMapEntry)
    → List AddressMapEntry
entries_of d spacenum owners defaults internals = elim (d.addrmap spacenum) [
  | some f ↦ owners d.owner ++ internals d.device
  | none ↦ defaults d.device ++ internals d.device
]

pub data MapError (d : MapDevice) (spacenum : ℕ) : Fatal → Type 0 where
  no_interface : d.has_memory ≡ false → MapError d spacenum Fatal.no_memory_interface
  no_config : d.space_maps spacenum ≡ none → MapError d spacenum Fatal.no_space_config

call_map_lem :
    (o : Option (AddressMap → AddressMap)) (entries : ℕ → List AddressMapEntry) (map : AddressMap)
    → AddsIf o entries
    → ((call_map o map).entrylist ≡ map.entrylist ++ entries map.device)
      × ((call_map o map).device ≡ map.device)
unfolding call_map
call_map_lem none entries map no_map = (sym (append-nil map.entrylist), refl)
call_map_lem (some f) entries map (a_map a) = (a.adds map, a.keeps map)

Adds-some :
    (f : AddressMap → AddressMap) (entries : ℕ → List AddressMapEntry)
    → AddsIf (some f) entries
    → Adds f entries
Adds-some f entries (a_map a) = a

empty_map : MapDevice → ℕ → AddressMap
empty_map d spacenum = record {
  spacenum = spacenum;
  device = d.device;
  unmapval = 0;
  globalmask = 0;
  entrylist = [];
}

own_map_lem :
    (d : MapDevice) (spacenum : ℕ) (s : SpaceMaps)
    (owners defaults internals : ℕ → List AddressMapEntry)
    → AddsIf (d.addrmap spacenum) owners
    → AddsIf s.default_map defaults
    → ((own_map d spacenum s (empty_map d spacenum)).entrylist ++ internals d.device
        ≡ entries_of d spacenum owners defaults internals)
      × ((own_map d spacenum s (empty_map d spacenum)).device ≡ d.device)
unfolding own_map entries_of empty_map
own_map_lem d spacenum s owners defaults internals given default =
    elim (Option-cases (d.addrmap spacenum)) [
      | inl absent ↦
          let (adds, keeps) = call_map_lem s.default_map defaults (empty_map d spacenum) default in
          rw (absent, own_map, entries_of)
            (ap (λ (es : List AddressMapEntry). es ++ internals d.device) adds, keeps)
      | inr (f, there) ↦
          let a =
            Adds-some f owners
              (subst (λ (o : Option (AddressMap → AddressMap)). AddsIf o owners) there given) in
          rw (there, own_map, entries_of)
            (
              ap (λ (es : List AddressMapEntry). es ++ internals d.device)
                  (a.adds (set_device d.owner (empty_map d spacenum))),
              refl,
            )
    ]

-- If the maps of drivers add entries, which depend on the device of the map, to its end and
-- keep its device, the constructor of a map ends with the entries of the map that the owner
-- gave, made for the owner, or without one those of the default map, made for the device, and
-- after them those of the internal map; the device of the map is the device. Or it ends in an
-- error, because there is no memory interface or no configuration of the space.
pub new_address_map_lem :
    (d : MapDevice) (spacenum : ℕ) (owners defaults internals : ℕ → List AddressMapEntry)
    → AddsIf (d.addrmap spacenum) owners
    → ((s : SpaceMaps)
        → d.space_maps spacenum ≡ some s
        → AddsIf s.default_map defaults × AddsIf s.internal_map internals)
    → Returns
        (λ map.
          (map.entrylist ≡ entries_of d spacenum owners defaults internals)
          × (map.device ≡ d.device))
        (MapError d spacenum)
        (new_address_map d spacenum)
unfolding new_address_map empty_map
new_address_map_lem d spacenum owners defaults internals given configured =
    Result.branch (not d.has_memory) _ _
      (λ none_there. fails (no_interface (ground (arith, none_there))))
      (λ there. elim (Option-cases (d.space_maps spacenum)) [
        | inl missing ↦ rw missing (fails (no_config missing))
        | inr (s, config) ↦
            let (default, internal) = configured s config in
            let (own, own_device) =
              own_map_lem d spacenum s owners defaults internals given default in
            let (adds, keeps) =
              call_map_lem s.internal_map internals (own_map d spacenum s (empty_map d spacenum))
                internal in
            rw config (
              returns (
                adds
                    ∙ ap
                        (λ (device : ℕ).
                          (own_map d spacenum s (empty_map d spacenum)).entrylist
                          ++ internals device)
                        own_device
                    ∙ own,
                keeps ∙ own_device,
              ))
      ])
