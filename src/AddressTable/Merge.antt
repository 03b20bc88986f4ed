-- ===== src/AddressTable/Merge.antt =====
-- `subtable_merge`: what it changes leaves every lookup alone, and if it merged anything a subtable
-- is out of use.
use remame.Base.{
  ℕ, zero, suc, ◌+◌, ◌-◌, ◌<◌, ◌≡◌, ◌≢◌, inl, inr, refl, ◌∙◌, arith, true, not, ◌&&◌, ◌==◌,
  if◌then◌else◌, Bool-cases,
}
use native.Mathlib.Nat.{add-zero}
use remame.AddressTable.{AddressTable, SubtableData, update, subtable_base, subtable_count}
use remame.AddressTable.Subtable.{usecount, update_checksum, update_checksums, same_entries}
use remame.AddressTable.Core.{
  Core, core, used, l1_size, l2_size, sub_at, cell, count_pos, IsSound, SameCells, SameKind,
}
use remame.AddressTable.Frame.{with_table}
use remame.AddressTable.Sound.{with_subtable, used-retag, update_at, IsSound-retag, IsSound-relink}

-- No subtable stands out: the tables of this module have every use linked.
abbrev pub nowhere : ℕ
nowhere = 64

-- `c'` serves every lookup as `c` does, with the same subtables out of use.
pub record Merged (c c' : Core) : Type 0 where
  pub sound : IsSound nowhere c'
  pub cells : SameCells c c'
  pub kind : SameKind c c'
  pub unused : (j : ℕ) → j < subtable_count → used c j ≡ 0 → used c' j ≡ 0

pub Merged-refl : (c : Core) → IsSound nowhere c → Merged c c
Merged-refl c s = record {
  sound = s;
  cells = λ i k hi hk. refl;
  kind = λ i hi. (λ h. refl, λ h. h);
  unused = λ j hj e. e;
}

pub Merged-trans : {a b c : Core} → Merged a b → Merged b c → Merged a c
Merged-trans p q = record {
  sound = q.sound;
  cells = λ i k hi hk. q.cells i k hi hk ∙ p.cells i k hi hk;
  kind = λ i hi. (
    λ h. ground (arith, (p.kind i hi).0 h, (q.kind i hi).0),
    λ h. (q.kind i hi).1 ((p.kind i hi).1 h),
  );
  unused = λ j hj e. q.unused j hj (p.unused j hj e);
}

-- A change of the checksum alone.
Merged-retag :
    (c : Core) (j : ℕ) (d : SubtableData)
    → IsSound nowhere c
    → d.usecount ≡ used c j
    → Merged c (with_subtable j d c)
unfolding cell
Merged-retag c j d s e = record {
  sound = IsSound-retag j d s e;
  cells = λ i k hi hk. refl;
  kind = λ i hi. (λ h. refl, λ h. h);
  unused = λ l hl u. ground (arith, used-retag c j d l);
}

update_checksum-Merged :
    (j : ℕ) (t : AddressTable)
    → IsSound nowhere (core t)
    → Merged (core t) (core (update_checksum j t))
unfolding update_checksum
update_checksum-Merged j t s =
    elim (Bool-cases (not (t.subtables j).checksum_valid && not (usecount t j == 0))) [
      | inl stale ↦ rw stale (Merged-retag (core t) j _ s refl)
      | inr fine ↦ rw fine (Merged-refl (core t) s)
    ]

pub update_checksums-Merged :
    (n j : ℕ) (t : AddressTable)
    → IsSound nowhere (core t)
    → Merged (core t) (core (update_checksums n j t))
unfolding update_checksums
update_checksums-Merged zero j t s = Merged-refl (core t) s
update_checksums-Merged (suc n) j t s =
    let step = update_checksum-Merged j t s in
    Merged-trans step (update_checksums-Merged n (j + 1) (update_checksum j t) step.sound)

pub same_entries_sound :
    (n p q : ℕ) (m : ℕ → ℕ) (k : ℕ) → same_entries n p q m ≡ true → k < n → m (p + k) ≡ m (q + k)
unfolding same_entries
same_entries_sound zero p q m k e h = elim h [ ]
same_entries_sound (suc n) p q m zero e h = simp add-zero (ground arith)
same_entries_sound (suc n) p q m (suc k) e h =
    let rest = same_entries_sound n (p + 1) (q + 1) m k (ground arith) (omega arith) in
    rw (shift p k, shift q k) rest
  where
    shift : (a b : ℕ) → a + suc b ≡ a + 1 + b
    shift a b = omega arith

-- Two subtables with the same entries.
abbrev pub SameSub : Core → ℕ → ℕ → Type 0
SameSub c sub sum = (k : ℕ) → k < l2_size → c.table (sub_at sub k) ≡ c.table (sub_at sum k)

-- `c'` is `c` with level 1 entry `i` taken over by subtable `sub`.
pub record Taken (c : Core) (sub sum i : ℕ) (c' : Core) : Type 0 where
  pub merged : Merged c c'
  pub in_use : 0 < used c' sub
  pub same : SameSub c' sub sum
  pub entry : (l : ℕ) → c'.table l ≡ (if l == i then sub + subtable_base else c.table l)

-- A subtable that an entry points to is in use.
pub points_used :
    (c : Core)
    → IsSound nowhere c
    → (sum i : ℕ) → sum < subtable_count
    → i < l1_size
    → c.table i ≡ sum + subtable_base
    → 0 < used c sum
points_used c s sum i hsum hi points =
    ground (arith, s.counted sum hsum, count_pos l1_size (sum + subtable_base) c.table i hi points)

-- One level 1 entry is taken over.
module _ (c : Core) (s : IsSound nowhere c) (sub sum i : ℕ) (d1 d2 : SubtableData)
    (hsub : sub < subtable_count) (hsum : sum < subtable_count) (apart : sub ≢ sum)
    (in_use : 0 < used c sub) (equal : SameSub c sub sum) (hi : i < l1_size)
    (points : c.table i ≡ sum + subtable_base) (released : d1.usecount ≡ used c sum - 1)
    (reused : d2.usecount ≡ used c sub + 1) where
  abbrev pub redirected : Core
  redirected =
      with_table (with_subtable sub d2 (with_subtable sum d1 c))
        (update c.table i (sub + subtable_base))

  uses :
      (j : ℕ)
      → used redirected j
        ≡ (if j == sub then used c sub + 1 else if j == sum then used c sum - 1 else used c j)
  uses j = ground (arith, used-retag c sum d1 j, used-retag (with_subtable sum d1 c) sub d2 j)

  Merged-redirect : Merged c redirected
  unfolding cell
  Merged-redirect = record {
    sound =
        IsSound-relink c redirected s i (sub + subtable_base) hi (omega arith) refl
          (refl, refl, refl) (λ j hj. ground (arith, uses j, points_used c s sum i hsum hi points))
          (λ j hj pos. ground (arith, uses j, points_used c s sum i hsum hi points))
          (λ k hk h. absurd (omega arith));
    cells = λ l k hl hk. ground (
      arith,
      update_at c.table i (sub + subtable_base) l,
      update_at c.table i (sub + subtable_base) (sub_at (redirected.table l - subtable_base) k),
      equal k,
    );
    kind = λ l hl. ground (arith, update_at c.table i (sub + subtable_base) l);
    unused = λ j hj e. ground (arith, uses j, points_used c s sum i hsum hi points);
  }

  -- What the loop carries on from this entry to the next.
  pub redirected-Taken : Taken c sub sum i redirected
  redirected-Taken = record {
    merged = Merged-redirect;
    in_use = ground (arith, uses sub);
    same = λ k hk. ground (
      arith,
      update_at c.table i (sub + subtable_base) (sub_at sub k),
      update_at c.table i (sub + subtable_base) (sub_at sum k),
      equal k,
    );
    entry = λ l. update_at c.table i (sub + subtable_base) l;
  }
