-- ===== src/AddressTable/History.antt =====
-- A memory map set up by `populate_range` calls in sequence, as `address_space` does.
use remame.Base.{ℕ, ◌^◌, ◌<◌, ◌≡◌, ◌∙◌, List, [], ◌∷◌, refl, ap, leb, ◌&&◌, if◌then◌else◌}
use remame.Base.Result
use remame.Base.Result.{Result, ok, Returns, returns, ◌>>=◌}
use remame.AddressTable.{AddressTable, subtable_base, lookup_live_nowp}
use remame.AddressTable.Populate.{populate_range}
use remame.AddressTable.Core.{core, IsSound}
use remame.AddressTable.Uses.{Exhausted}
use remame.AddressTable.Merge.{nowhere}
use remame.AddressTable.Lookups.{populate_range-lookup}

-- One call of `populate_range`.
pub record Mapping : Type 0 where
  pub addrstart : ℕ
  pub addrend : ℕ
  pub handler : ℕ

-- The arguments that the callers pass: 32-bit addresses, and no subtable for a handler.
pub data AreValid : List Mapping → Type 0 where
  none_left : AreValid []
  one_more :
      {m : Mapping} {ms : List Mapping}
      → m.addrend < 2 ^ 32
      → m.handler < subtable_base
      → AreValid ms
      → AreValid (m ∷ ms)

unfoldable pub populate_ranges : List Mapping → AddressTable → Result AddressTable
populate_ranges [] t = ok t
populate_ranges (m ∷ ms) t = populate_range m.addrstart m.addrend m.handler t >>= populate_ranges ms

-- The handler of an address when every call is a plain overwrite of its range.
unfoldable pub served : List Mapping → ℕ → ℕ → ℕ
served [] before address = before
served (m ∷ ms) before address =
    served ms (if leb m.addrstart address && leb address m.addrend then m.handler else before)
      address

-- Calls of `populate_range` in sequence, each with a last address of 32 bits and a handler
-- below the subtables, on a large table in order end in a table in order whose lookup of any
-- 32-bit address is what overwriting the ranges one after the other gives; or one of them ends
-- in the error "Ran out of subtables!".
pub populate_ranges-served :
    (ms : List Mapping) (t : AddressTable) (address : ℕ)
    → AreValid ms
    → IsSound nowhere (core t)
    → address < 2 ^ 32
    → Returns
        (λ t'.
          IsSound nowhere (core t')
          × (lookup_live_nowp t' address ≡ served ms (lookup_live_nowp t address) address))
        Exhausted
        (populate_ranges ms t)
unfolding populate_ranges served
populate_ranges-served [] t address valid s h = returns (s, refl)
populate_ranges-served (m ∷ ms) t address (one_more hend plain valid) s h =
    Result.bind (populate_range-lookup t s address h m.addrstart m.addrend m.handler hend plain)
      λ t1 p1.
        Result.weaken (populate_ranges-served ms t1 address valid p1.0 h)
          λ t2 p2. (p2.0, p2.1 ∙ ap (λ (before : ℕ). served ms before address) p1.1)
