-- ===== src/DirectRead/Ranges.antt =====
-- The cached ranges of `direct_read_data` tell the truth about the table.
use Prim.Native.Nat.{bit_and}
use remame.Base.{
  ℕ, ◌^◌, ◌≤◌, ◌<◌, ◌≡◌, ◌⊎◌, inl, inr, ◌∙◌, refl, arith, ◌&&◌, leb, ◌==◌, Bool-cases, ==→≡, List,
  [], ◌∷◌, none, some,
}
use remame.Base.Lists.{All, no_more, and_more}
use remame.Base.Bits.{bit_and_le}
use remame.Base.Result
use remame.Base.Result.{Result, ok, Returns, returns, Flawless, ◌>>=◌}
use remame.AddressTable.{AddressTable, lookup_live_nowp, subtable_base, update}
use remame.AddressTable.Core.{core, IsSound}
use remame.AddressTable.Merge.{nowhere}
use remame.AddressTable.Uses.{Exhausted}
use remame.AddressTable.Populate.{populate_range}
use remame.AddressTable.Range.{populate_range-Given}
use remame.AddressTable.Lookups.{lookup-Given}
use remame.AddressTable.Scan.{AllSame}
use remame.AddressTable.Derived.{derive_range-lookup}
use remame.DirectRead.{
  DirectRange, DirectReadData, AddressSpace, find_in, keep_range, find_range, remove_from,
  remove_intersecting_ranges,
}

-- A range of addresses that all look up to the entry.
pub record IsTrue (look : ℕ → ℕ) (entry : ℕ) (r : DirectRange) : Type 0 where
  pub in_space : r.addrend < 2 ^ 32
  pub same : AllSame look entry r.addrstart r.addrend

pub record Contains (address : ℕ) (r : DirectRange) : Type 0 where
  pub after : r.addrstart ≤ address
  pub before : address ≤ r.addrend

abbrev pub IsCoherent : (ℕ → ℕ) → DirectReadData → Type 0
IsCoherent look d = (entry : ℕ) → All (IsTrue look entry) (d.rangelist entry)

find_in-cases :
    {P : DirectRange → Type 0} (address : ℕ) (rs : List DirectRange)
    → All P rs
    → (find_in address rs ≡ none)
      ⊎ ((r : DirectRange) × (find_in address rs ≡ some r) × P r × Contains address r)
unfolding find_in
find_in-cases address [] all = inl refl
find_in-cases address (r ∷ rs) (and_more p all) =
    elim (Bool-cases (leb r.addrstart address && leb address r.addrend)) [
      | inl inside ↦
          inr (r, rw inside refl, p, record { after = ground arith; before = ground arith })
      | inr outside ↦ rw outside (find_in-cases address rs all)
    ]

-- What `find_range` answers for a masked address.
pub record FoundRange (look : ℕ → ℕ) (address : ℕ) (d : DirectReadData)
    (s : DirectReadData × DirectRange) : Type 0 where
  pub right_entry : s.0.entry ≡ look address
  pub contains : Contains address s.1
  pub truth : IsTrue look s.0.entry s.1
  pub coherent : IsCoherent look s.0
  pub same_window : (s.0.addrstart ≡ d.addrstart) × (s.0.addrend ≡ d.addrend)

module _ (space : AddressSpace) (s : IsSound nowhere (core space.read)) where
  look : ℕ → ℕ
  look = lookup_live_nowp space.read

  pushed :
      (d : DirectReadData) (entry : ℕ) (range : DirectRange)
      → IsTrue look entry range
      → IsCoherent look d
      → IsCoherent look
          (record d { rangelist = update d.rangelist entry (range ∷ d.rangelist entry) })
  unfolding update
  pushed d entry range true_range coherent e = elim (Bool-cases (e == entry)) [
    | inl here ↦ rw (here, ==→≡ e entry here) (and_more true_range (coherent entry))
    | inr there ↦ rw there (coherent e)
  ]

  -- In a space with a large table in order and an address mask of 32 bits, if every cached
  -- range looks up to the entry it is cached for, `find_range` succeeds with the entry of the
  -- masked address and a range that contains it and looks up to the entry, every cached range
  -- is true again, and the window is unchanged.
  pub find_range-FoundRange :
      (address : ℕ) (d : DirectReadData)
      → space.addrmask < 2 ^ 32
      → IsCoherent (lookup_live_nowp space.read) d
      → Returns
          (FoundRange (lookup_live_nowp space.read) (bit_and address space.addrmask) d)
          Flawless
          (find_range address space d)
  unfolding find_range keep_range look
  find_range-FoundRange address d mask coherent =
      let masked = bit_and address space.addrmask in
      let entry = lookup_live_nowp space.read masked in
      elim (find_in-cases masked (d.rangelist entry) (coherent entry)) [
        | inr (r, found, true_range, inside) ↦ rw found (
            returns (record {
              right_entry = refl;
              contains = inside;
              truth = true_range;
              coherent = coherent;
              same_window = (refl, refl);
            }))
        | inl missing ↦ rw missing (
            Result.bind
              (derive_range-lookup space.read s space.handler_read masked
                (omega (arith, bit_and_le address space.addrmask)))
              λ derived (is_entry, first, last).
                let range : DirectRange = record {
                  addrstart = derived.addrstart;
                  addrend = derived.addrend;
                } in
                let truth : IsTrue look entry range = record {
                  in_space = last.in_space;
                  same = λ x a b. elim (Bool-cases (leb x masked)) [
                    | inl low ↦ first.same x a (ground arith) ∙ is_entry
                    | inr high ↦ last.same x (ground arith) b ∙ is_entry
                  ];
                } in
                returns (record {
                  right_entry = refl;
                  contains = record { after = first.before; before = last.after };
                  truth = truth;
                  coherent = pushed (record d { entry = entry }) entry range truth coherent;
                  same_window = (refl, refl);
                }))
      ]

remove_from-IsTrue :
    (addrstart addrend : ℕ) (look look' : ℕ → ℕ) (entry : ℕ) (rs : List DirectRange)
    → ((x : ℕ) → x < 2 ^ 32 → (x < addrstart) ⊎ (addrend < x) → look' x ≡ look x)
    → All (IsTrue look entry) rs
    → All (IsTrue look' entry) (remove_from addrstart addrend rs)
unfolding remove_from
remove_from-IsTrue addrstart addrend look look' entry [] agree all = no_more
remove_from-IsTrue addrstart addrend look look' entry (r ∷ rs) agree (and_more p all) =
    let rest = remove_from-IsTrue addrstart addrend look look' entry rs agree all in
    elim (Bool-cases (leb addrstart r.addrend && leb r.addrstart addrend)) [
      | inl meets ↦ rw meets rest
      | inr apart ↦ rw apart (
          and_more
            (record {
              in_space = p.in_space;
              same = λ x a b. agree x (omega (arith, p.in_space)) (ground arith) ∙ p.same x a b;
            })
            rest)
    ]

-- On a large table in order, for a last address of 32 bits and a handler below the subtables:
-- if every cached range looks up to the entry it is cached for, then after `populate_range` and
-- `remove_intersecting_ranges` of the same addresses every range still cached does so in the
-- new table; or `populate_range` ends in the error "Ran out of subtables!".
pub populate_range-IsCoherent :
    (t : AddressTable) (addrstart addrend handler : ℕ) (d : DirectReadData)
    → IsSound nowhere (core t)
    → addrend < 2 ^ 32
    → handler < subtable_base
    → IsCoherent (lookup_live_nowp t) d
    → Returns
        (λ t'. IsCoherent (lookup_live_nowp t') (remove_intersecting_ranges addrstart addrend d))
        Exhausted
        (populate_range addrstart addrend handler t)
unfolding remove_intersecting_ranges
populate_range-IsCoherent t addrstart addrend handler d s h plain coherent =
    Result.weaken (populate_range-Given addrstart addrend handler t s h plain) λ t' g entry.
      let told = lookup-Given t t' s addrstart addrend handler g in
      remove_from-IsTrue addrstart addrend (lookup_live_nowp t) (lookup_live_nowp t') entry
        (d.rangelist entry) (λ x hx apart. ground (arith, told x hx, apart)) (coherent entry)
