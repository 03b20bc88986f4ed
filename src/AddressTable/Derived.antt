-- ===== src/AddressTable/Derived.antt =====
-- What `derive_range` finds on a large table in order.
use remame.Base.{
  ℕ, zero, suc, ◌+◌, ◌-◌, ◌/◌, ◌%◌, ◌^◌, ◌≤◌, ◌<◌, ◌≡◌, ◌≢◌, ◌⊎◌, ◌∙◌, ap, sym, inl, inr, arith,
  leb, ◌==◌, Bool-cases, ==→≡,
}
use remame.Base.Result
use remame.Base.Result.{Result, ok, Returns, returns, Flawless, ◌>>=◌}
use remame.AddressTable.{AddressTable, lookup_live_nowp}
use remame.AddressTable.Core.{core, l2_size, size_large, IsSound}
use remame.AddressTable.Merge.{nowhere}
use remame.AddressTable.Derive.{
  HandlerRange, mirrored_start_end, entry_of, block_down, block_up, block_start, block_end,
  find_start, find_end, derive_range, derive_fuel,
}
use remame.AddressTable.Scan.{AllSame}
use remame.AddressTable.Block.{
  look, l1_of, entry_of_lem, block_down-ScannedDown, block_up-ScannedUp,
}

-- A range may end where the handler's own range ends, or where the next address has another handler.
pub record Start (look : ℕ → ℕ) (minscan entry address : ℕ) (r : ℕ) : Type 0 where
  pub before : r ≤ address
  pub same : AllSame look entry r address
  pub stop : (r ≤ minscan) ⊎ (look (r - 1) ≢ entry)

pub record End (look : ℕ → ℕ) (maxscan entry address : ℕ) (r : ℕ) : Type 0 where
  pub after : address ≤ r
  pub in_space : r < 2 ^ 32
  pub same : AllSame look entry address r
  pub stop : (maxscan ≤ r) ⊎ (look (r + 1) ≢ entry)

AllSame-join :
    (f : ℕ → ℕ) (entry lo middle hi : ℕ)
    → AllSame f entry lo middle
    → AllSame f entry (middle + 1) hi
    → AllSame f entry lo hi
AllSame-join f entry lo middle hi below above x a b = elim (Bool-cases (leb x middle)) [
  | inl under ↦ below x a (ground arith)
  | inr over ↦ above x (ground arith) b
]

module _ (t : AddressTable) (s : IsSound nowhere (core t)) where
  find_start_lem :
      (fuel minscan entry address : ℕ)
      → address / l2_size < fuel
      → address < 2 ^ 32
      → look t s address ≡ entry
      → Returns
          (Start (lookup_live_nowp t) minscan entry address)
          Flawless
          (find_start fuel minscan entry entry (l1_of t s address) address t)
  unfolding find_start
  find_start_lem zero minscan entry address enough h e = absurd (omega arith)
  find_start_lem (suc fuel) minscan entry address enough h e =
      let b = block_down entry entry (l1_of t s address) address t in
      let scan = block_down-ScannedDown t s address h entry e in
      let start = block_start t b.0 in
      let size = ap (λ (n : ℕ). b.0 % n) (size_large t.large s.is_large) in
      let is_start : start ≡ address - address % l2_size =
        omega (arith, size, scan.lowest, scan.highest) in
      Result.branch b.1 _ _
        (λ stopped.
          returns (record {
            before = scan.highest;
            same = scan.same;
            stop = inr (scan.stopped stopped).1;
          }))
        λ whole.
          let all : AllSame (lookup_live_nowp t) entry start address =
            λ x lo hi. scan.whole whole x (omega (arith, is_start)) hi in
          Result.branch (leb start minscan) _ _
            (λ low.
              returns (record {
                before = omega (arith, is_start);
                same = all;
                stop = inl (ground arith);
              }))
            λ high.
              let found = entry_of_lem t s (start - 1) in
              Result.branch (entry_of t (l1_of t s (start - 1)) (start - 1) == entry) _ _
                (λ again.
                  let next = ==→≡ _ entry again in
                  rw next (
                    Result.weaken
                      (find_start_lem fuel minscan entry (start - 1) (ground (arith, is_start))
                        (omega (arith, is_start)) (sym found ∙ next))
                      λ r p. record {
                        before = ground (arith, p.before, is_start);
                        same =
                            AllSame-join (lookup_live_nowp t) entry r (start - 1) address p.same
                              (λ x lo hi. all x (ground arith) hi);
                        stop = p.stop;
                      }))
                λ other. returns (record {
                  before = omega (arith, is_start);
                  same = all;
                  stop = inr (λ e'. ground (arith, found, e'));
                })

  find_end_lem :
      (fuel maxscan entry address : ℕ)
      → maxscan / l2_size - address / l2_size < fuel
      → maxscan < 2 ^ 32
      → address < 2 ^ 32
      → look t s address ≡ entry
      → Returns
          (End (lookup_live_nowp t) maxscan entry address)
          Flawless
          (find_end fuel maxscan entry entry (l1_of t s address) address t)
  unfolding find_end
  find_end_lem zero maxscan entry address enough hm h e = absurd (omega arith)
  find_end_lem (suc fuel) maxscan entry address enough hm h e =
      let b = block_up entry entry (l1_of t s address) address t in
      let scan = block_up-ScannedUp t s address h entry e in
      let last = block_end t b.0 in
      let size = ap (λ (n : ℕ). b.0 % n) (size_large t.large s.is_large) in
      let is_last : last ≡ address - address % l2_size + (l2_size - 1) =
        omega (arith, size, size_large t.large s.is_large, scan.lowest, scan.highest) in
      Result.branch b.1 _ _
        (λ stopped. returns (record {
          after = scan.lowest;
          in_space = omega (arith, scan.highest);
          same = scan.same;
          stop = inr (scan.stopped stopped);
        }))
        λ whole.
          let all : AllSame (lookup_live_nowp t) entry address last =
            λ x lo hi. scan.whole whole x lo (omega (arith, is_last)) in
          Result.branch (leb maxscan last) _ _
            (λ far. returns (record {
              after = omega (arith, is_last);
              in_space = omega (arith, is_last);
              same = all;
              stop = inl (ground arith);
            }))
            λ near.
              let found = entry_of_lem t s (last + 1) in
              Result.branch (entry_of t (l1_of t s (last + 1)) (last + 1) == entry) _ _
                (λ again.
                  let next = ==→≡ _ entry again in
                  rw next (
                    Result.weaken
                      (find_end_lem fuel maxscan entry (last + 1) (ground (arith, is_last)) hm
                        (ground (arith, is_last)) (sym found ∙ next))
                      λ r p. record {
                        after = omega (arith, p.after, is_last);
                        in_space = p.in_space;
                        same = AllSame-join (lookup_live_nowp t) entry address last r all p.same;
                        stop = p.stop;
                      }))
                λ other. returns (record {
                  after = omega (arith, is_last);
                  in_space = omega (arith, is_last);
                  same = all;
                  stop = inr (λ e'. ground (arith, found, e'));
                })

  -- On a large table in order, for a 32-bit address, `derive_range` ends within 2^18 rounds of
  -- each loop with the entry that the address looks up to and a range around it, within 32
  -- bits, of addresses that all look up to it; below, the range ends at or under the start of
  -- the handler, mirrored, or where the address before has another entry, and above, at or over
  -- its end or where the next address has another entry.
  pub derive_range-lookup :
      (handler : ℕ → HandlerRange) (address : ℕ)
      → address < 2 ^ 32
      → Returns
          (λ d.
            (d.entry ≡ lookup_live_nowp t address)
            × Start
                (lookup_live_nowp t)
                (mirrored_start_end (handler d.entry) address).0
                d.entry
                address
                d.addrstart
            × End
                (lookup_live_nowp t)
                (mirrored_start_end (handler d.entry) address).1
                d.entry
                address
                d.addrend)
          Flawless
          (derive_range derive_fuel handler address t)
  unfolding derive_range mirrored_start_end
  derive_range-lookup handler address h =
      let entry = entry_of t (l1_of t s address) address in
      let bounds = mirrored_start_end (handler entry) address in
      let e = sym (entry_of_lem t s address) in
      Result.bind (find_start_lem derive_fuel bounds.0 entry address (omega arith) h e) λ lo first.
        Result.bind
          (find_end_lem derive_fuel bounds.1 entry address (omega arith) (omega arith) h e)
          λ hi last. returns (sym e, first, last)
