-- ===== src/AddressTable/Scan.antt =====
-- The loops of `derive_range` within one block of level 1.
use remame.Base.{
  ℕ, zero, suc, ◌+◌, ◌-◌, ◌≤◌, ◌<◌, ◌≡◌, ◌≢◌, ◌∙◌, ap, sym, inl, inr, arith, Bool, true, false,
  ◌==◌, Bool-cases,
}
use remame.AddressTable.Derive.{scan_down, scan_up}

-- All from `lo` to `hi` look up to `entry`.
abbrev pub AllSame : (ℕ → ℕ) → ℕ → ℕ → ℕ → Type 0
AllSame look entry lo hi = (x : ℕ) → lo ≤ x → x ≤ hi → look x ≡ entry

-- A scan from `address` down to no less than `lo`.
pub record ScannedDown (look : ℕ → ℕ) (entry lo address : ℕ) (r : ℕ × Bool) : Type 0 where
  pub lowest : lo ≤ r.0
  pub highest : r.0 ≤ address
  pub same : AllSame look entry r.0 address
  pub whole : r.1 ≡ false → AllSame look entry lo address
  pub stopped : r.1 ≡ true → (0 < r.0) × (look (r.0 - 1) ≢ entry)

-- A scan from `address` up to no more than `hi`.
pub record ScannedUp (look : ℕ → ℕ) (entry hi address : ℕ) (r : ℕ × Bool) : Type 0 where
  pub lowest : address ≤ r.0
  pub highest : r.0 ≤ hi
  pub same : AllSame look entry address r.0
  pub whole : r.1 ≡ false → AllSame look entry address hi
  pub stopped : r.1 ≡ true → look (r.0 + 1) ≢ entry

module _ (look : ℕ → ℕ) (entry : ℕ) where
  pub at_once : (x y : ℕ) → x ≡ y → look y ≡ entry → look x ≡ entry
  at_once x y e h = ap look e ∙ h

  pub single : (address : ℕ) → look address ≡ entry → AllSame look entry address address
  single address h x lo hi = at_once x address (omega arith) h

  one_above :
      (lo hi next : ℕ)
      → next ≡ suc hi
      → look next ≡ entry
      → AllSame look entry lo hi
      → AllSame look entry lo next
  one_above lo hi next is h below x a b = elim (Bool-cases (x == next)) [
    | inl last ↦ at_once x next (ground arith) h
    | inr other ↦ below x a (ground arith)
  ]

  one_below :
      (lo hi next : ℕ)
      → lo ≡ suc next
      → look next ≡ entry
      → AllSame look entry lo hi
      → AllSame look entry next hi
  one_below lo hi next is h above x a b = elim (Bool-cases (x == next)) [
    | inl first ↦ at_once x next (ground arith) h
    | inr other ↦ above x (ground arith) b
  ]

  pub scan_down-ScannedDown :
      (n : ℕ) (table : ℕ → ℕ) (minindex lo address : ℕ)
      → lo + n ≡ address
      → ((m : ℕ) → m < n → table (minindex + m) ≡ look (lo + m))
      → look address ≡ entry
      → ScannedDown look entry lo address (scan_down n entry table minindex address)
  unfolding scan_down
  scan_down-ScannedDown zero table minindex lo address at agree h = record {
    lowest = omega arith;
    highest = omega arith;
    same = single address h;
    whole = λ e x a b. at_once x address (omega arith) h;
    stopped = λ e. cc;
  }
  scan_down-ScannedDown (suc n) table minindex lo address at agree h =
      elim (Bool-cases (table (minindex + n) == entry)) [
        | inl more ↦
            let before : lo + n ≡ address - 1 = omega arith in
            let here : look (address - 1) ≡ entry =
              ap look (sym before) ∙ ground (arith, agree n (omega arith)) in
            let rest =
              scan_down-ScannedDown n table minindex lo (address - 1) before
                (λ m hm. agree m (omega arith)) here in
            rw more (record {
              lowest = rest.lowest;
              highest = omega (arith, rest.highest);
              same = one_above _ (address - 1) address (omega arith) h rest.same;
              whole = λ e. one_above lo (address - 1) address (omega arith) h (rest.whole e);
              stopped = rest.stopped;
            })
        | inr differs ↦
            let before : lo + n ≡ address - 1 = omega arith in
            let there : look (address - 1) ≢ entry =
              λ e. ground (arith, agree n (omega arith), ap look before, e) in
            rw differs (record {
              lowest = omega arith;
              highest = omega arith;
              same = single address h;
              whole = λ e. cc;
              stopped = λ e. (omega arith, there);
            })
      ]

  pub scan_up-ScannedUp :
      (n : ℕ) (table : ℕ → ℕ) (maxindex hi address : ℕ)
      → address + n ≡ hi
      → ((m : ℕ) → m < n → table (maxindex - m) ≡ look (hi - m))
      → look address ≡ entry
      → ScannedUp look entry hi address (scan_up n entry table maxindex address)
  unfolding scan_up
  scan_up-ScannedUp zero table maxindex hi address at agree h = record {
    lowest = omega arith;
    highest = omega arith;
    same = single address h;
    whole = λ e x a b. at_once x address (omega arith) h;
    stopped = λ e. cc;
  }
  scan_up-ScannedUp (suc n) table maxindex hi address at agree h =
      elim (Bool-cases (table (maxindex - n) == entry)) [
        | inl more ↦
            let after : hi - n ≡ address + 1 = omega arith in
            let here : look (address + 1) ≡ entry =
              ap look (sym after) ∙ ground (arith, agree n (omega arith)) in
            let rest =
              scan_up-ScannedUp n table maxindex hi (address + 1) (omega arith)
                (λ m hm. agree m (omega arith)) here in
            rw more (record {
              lowest = omega (arith, rest.lowest);
              highest = rest.highest;
              same = one_below (address + 1) _ address (omega arith) h rest.same;
              whole = λ e. one_below (address + 1) hi address (omega arith) h (rest.whole e);
              stopped = rest.stopped;
            })
        | inr differs ↦
            let after : hi - n ≡ address + 1 = omega arith in
            let there : look (address + 1) ≢ entry =
              λ e. ground (arith, agree n (omega arith), ap look after, e) in
            rw differs (record {
              lowest = omega arith;
              highest = omega arith;
              same = single address h;
              whole = λ e. cc;
              stopped = λ e. there;
            })
      ]
