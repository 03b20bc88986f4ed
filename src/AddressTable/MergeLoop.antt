-- ===== src/AddressTable/MergeLoop.antt =====
-- The loops of `subtable_merge`: no lookup changes, and if anything was merged a subtable is out of
-- use.
use remame.Base.{
  ℕ, zero, suc, ◌+◌, ◌-◌, ◌/◌, ◌^◌, ◌<◌, ◌≡◌, ◌≢◌, ◌⊎◌, inl, inr, refl, ap, ◌∙◌, sym, arith, true,
  ◌==◌, Bool-cases, ==_iff,
}
use mathlib.Core.Path.{subst}
use native.Mathlib.Nat.{add-zero}
use remame.Base.Result
use remame.Base.Result.{Result, ok, Flawless, Returns, returns, ◌>>=◌}
use remame.AddressTable.{AddressTable, update, write, subtable_base, subtable_count, subtable_size}
use remame.AddressTable.Subtable.{
  usecount, subtable_ptr, subtable_realloc, subtable_release, update_checksums, redirect, duplicate,
  merge_into, merge_all, subtable_merge, same_entries,
}
use remame.AddressTable.Core.{
  Core, core, used, l1_size, l2_size, sub_at, count_none, size_large, ptr_of, IsSound,
}
use remame.AddressTable.Frame.{with_table}
use remame.AddressTable.Sound.{Retagged, with_subtable, used-retag}
use remame.AddressTable.Uses.{subtable_realloc-Retagged, subtable_release-Retagged}
use remame.AddressTable.Merge.{
  points_used, Merged, Merged-refl, Merged-trans, nowhere, SameSub, Taken, redirected-Taken,
  same_entries_sound, update_checksums-Merged,
}

-- `subtable_release` and `subtable_realloc` of a subtable by its number.
release_at :
    (j : ℕ) (t : AddressTable)
    → 0 < used (core t) j
    → Returns
        (λ t'. Retagged j (used (core t) j - 1) (core t) (core t'))
        Flawless
        (subtable_release (j + subtable_base) t)
release_at j t pos =
    let e : j + subtable_base - subtable_base ≡ j = omega arith in
    rw e at (subtable_release-Retagged (j + subtable_base) t (rw e pos))

realloc_at :
    (j : ℕ) (t : AddressTable)
    → 0 < used (core t) j
    → Returns
        (λ t'. Retagged j (used (core t) j + 1) (core t) (core t'))
        Flawless
        (subtable_realloc (j + subtable_base) t)
realloc_at j t pos =
    let e : j + subtable_base - subtable_base ≡ j = omega arith in
    rw e at (subtable_realloc-Retagged (j + subtable_base) t (rw e pos))

-- The entries before `i` that are done with subtable `sum`.
abbrev Clear : ℕ → ℕ → Core → Type 0
Clear i sum c = (l : ℕ) → l < i → c.table l ≢ sum + subtable_base

abbrev Redirected : Core → ℕ → ℕ → AddressTable × ℕ → Type 0
Redirected c sub sum r =
    Merged c (core r.0) × (0 < used (core r.0) sub) × Clear l1_size sum (core r.0)

module _ (sub sum : ℕ) (hsub : sub < subtable_count) (hsum : sum < subtable_count)
    (apart : sub ≢ sum) where
  take_entry :
      {Q : AddressTable × ℕ → Type 0} (i : ℕ) (t : AddressTable)
      (k : AddressTable → Result (AddressTable × ℕ))
      → IsSound nowhere (core t)
      → 0 < used (core t) sub
      → SameSub (core t) sub sum
      → i < l1_size
      → t.table i ≡ sum + subtable_base
      → ((t' : AddressTable)
          → Taken (core t) sub sum i (core (write i (sub + subtable_base) t'))
          → Returns Q Flawless (k t'))
      → Returns Q Flawless (
          subtable_release (sum + subtable_base) t >>= λ released.
          subtable_realloc (sub + subtable_base) released >>= k)
  take_entry i t k s pos same hi points next =
      Result.bind (release_at sum t (points_used (core t) s sum i hsum hi points)) λ t1 r1.
        let kept : used (core t1) sub ≡ used (core t) sub =
          ap (λ (c : Core). used c sub) r1.result
          ∙ ground (arith, used-retag (core t) sum r1.tag sub) in
        Result.bind (realloc_at sub t1 (rw kept pos)) λ t2 r2. next t2 (
          subst (Taken (core t) sub sum i) (sym (path t1 t2 r1 r2)) (
            redirected-Taken (core t) s sub sum i r1.tag r2.tag hsub hsum apart pos same hi points
              r1.uses (r2.uses ∙ ap (λ (u : ℕ). u + 1) kept)))
    where
      path :
          (t1 t2 : AddressTable)
          → (r1 : Retagged sum (used (core t) sum - 1) (core t) (core t1))
          → (r2 : Retagged sub (used (core t1) sub + 1) (core t1) (core t2))
          → core (write i (sub + subtable_base) t2)
            ≡ with_table
                (with_subtable sub r2.tag (with_subtable sum r1.tag (core t)))
                (update t.table i (sub + subtable_base))
      path t1 t2 r1 r2 =
          ap (λ (c : Core). with_table c (update c.table i (sub + subtable_base)))
            (r2.result ∙ ap (with_subtable sub r2.tag) r1.result)

  redirect-Redirected :
      (n i : ℕ) (t : AddressTable) (merged : ℕ)
      → i + n ≡ l1_size
      → IsSound nowhere (core t)
      → 0 < used (core t) sub
      → SameSub (core t) sub sum
      → Clear i sum (core t)
      → Returns (Redirected (core t) sub sum) Flawless (redirect n i sub sum t merged)
  unfolding redirect
  redirect-Redirected zero i t merged e s pos same clear =
      returns (Merged-refl (core t) s, pos, λ l hl. clear l (omega arith))
  redirect-Redirected (suc n) i t merged e s pos same clear =
      elim (Bool-cases (t.table i == sum + subtable_base)) [
        | inl hit ↦ rw hit (
            take_entry i t _ s pos same (omega arith) ((==_iff _ _).0 hit) λ t' step.
              Result.weaken
                (redirect-Redirected n (i + 1) (write i (sub + subtable_base) t') (merged + 1)
                  (omega arith) step.merged.sound step.in_use step.same
                  (λ l hl. ground (arith, step.entry l, clear l)))
                λ r done. (Merged-trans step.merged done.0, done.1, done.2))
        | inr miss ↦ rw miss (
            redirect-Redirected n (i + 1) t merged (omega arith) s pos same
              (λ l hl. ground (arith, clear l)))
      ]

-- Either nothing was merged, or a subtable is out of use.
abbrev pub Freed : ℕ → Core → Type 0
Freed merged c = (merged ≡ 0) ⊎ ((j : ℕ) × (j < subtable_count) × (used c j ≡ 0))

Freed-keep : {m : ℕ} {c c' : Core} → Merged c c' → Freed m c → Freed m c'
Freed-keep p (inl e) = inl e
Freed-keep p (inr (j, hj, u)) = inr (j, hj, p.unused j hj u)

abbrev pub MergedFreed : Core → AddressTable × ℕ → Type 0
MergedFreed c r = Merged c (core r.0) × Freed r.1 (core r.0)

MergedFreed-trans :
    {a : Core} (r q : AddressTable × ℕ)
    → Merged a (core r.0)
    → MergedFreed (core r.0) q
    → MergedFreed a q
MergedFreed-trans r q p f = (Merged-trans p f.0, f.1)

equal_subs :
    (sub sum : ℕ) (t : AddressTable)
    → t.large ≡ true
    → same_entries
        (subtable_size t)
        (subtable_ptr t (sub + subtable_base))
        (subtable_ptr t (sum + subtable_base))
        t.table
      ≡ true
    → SameSub (core t) sub sum
equal_subs sub sum t large e k hk =
    let found =
      same_entries_sound l2_size (sub_at sub 0) (sub_at sum 0) t.table k
        (rw (size_large t.large large, ptr_of t.large sub large, ptr_of t.large sum large) at e)
        hk in
    simp add-zero at found

duplicate_sound :
    (checksum sub sum : ℕ) (t : AddressTable)
    → t.large ≡ true
    → duplicate checksum sub sum t ≡ true
    → (0 < used (core t) sum) × SameSub (core t) sub sum
unfolding duplicate
duplicate_sound checksum sub sum t large e =
    (ground arith, equal_subs sub sum t large (ground arith))

-- One later subtable, merged if it is a duplicate.
merge_one :
    (sub sum : ℕ) (t : AddressTable) (merged : ℕ)
    → sub < sum
    → sum < subtable_count
    → IsSound nowhere (core t)
    → 0 < used (core t) sub
    → SameSub (core t) sub sum
    → Returns
        (λ r. MergedFreed (core t) r × (0 < used (core r.0) sub))
        Flawless
        (redirect (2 ^ 32 / subtable_size t) 0 sub sum t merged)
merge_one sub sum t merged below in_range s pos same = rw (size_large t.large s.is_large) (
    Result.weaken
      (redirect-Redirected sub sum (omega arith) in_range (omega arith) l1_size 0 t merged refl s
        pos same (λ l hl. absurd (omega arith)))
      λ r (m, p, clear). ((m, inr (sum, in_range, gone (core r.0) m.sound clear)), p))
  where
    gone : (c : Core) → IsSound nowhere c → Clear l1_size sum c → used c sum ≡ 0
    gone c sound clear =
        ground (
          arith,
          sound.counted sum in_range,
          count_none l1_size (sum + subtable_base) c.table clear,
        )

merge_into-MergedFreed :
    (n checksum sub sum : ℕ) (t : AddressTable) (merged : ℕ)
    → sub < sum
    → sum + n ≡ subtable_count
    → IsSound nowhere (core t)
    → 0 < used (core t) sub
    → Freed merged (core t)
    → Returns (MergedFreed (core t)) Flawless (merge_into n checksum sub sum t merged)
unfolding merge_into
merge_into-MergedFreed zero checksum sub sum t merged below e s pos f =
    returns (Merged-refl (core t) s, f)
merge_into-MergedFreed (suc n) checksum sub sum t merged below e s pos f =
    elim (Bool-cases (duplicate checksum sub sum t)) [
      | inl twin ↦ rw twin (
          Result.bind
            (merge_one sub sum t merged below (omega arith) s pos
              (duplicate_sound checksum sub sum t s.is_large twin).1)
            λ r step.
              Result.weaken
                (merge_into-MergedFreed n checksum sub (sum + 1) r.0 r.1 (omega arith) (omega arith)
                  step.0.0.sound step.1 step.0.1)
                λ q done. MergedFreed-trans r q step.0.0 done)
      | inr other ↦ rw other (
          merge_into-MergedFreed n checksum sub (sum + 1) t merged (omega arith) (omega arith) s pos
            f)
    ]

merge_all-MergedFreed :
    (n sub : ℕ) (t : AddressTable) (merged : ℕ)
    → sub + n ≡ subtable_count
    → IsSound nowhere (core t)
    → Freed merged (core t)
    → Returns (MergedFreed (core t)) Flawless (merge_all n sub t merged)
unfolding merge_all
merge_all-MergedFreed zero sub t merged e s f = returns (Merged-refl (core t) s, f)
merge_all-MergedFreed (suc n) sub t merged e s f = elim (Bool-cases (usecount t sub == 0)) [
  | inl idle ↦ rw idle (merge_all-MergedFreed n (sub + 1) t merged (omega arith) s f)
  | inr busy ↦ rw busy (
      Result.bind
        (merge_into-MergedFreed n (t.subtables sub).checksum sub (sub + 1) t merged (omega arith)
          (omega arith) s (ground arith) f)
        λ r step.
          Result.weaken
            (merge_all-MergedFreed n (sub + 1) r.0 r.1 (omega arith) step.0.sound step.1)
            λ q done. MergedFreed-trans r q step.0 done)
]

-- A table in order is in order again after merging, with every lookup kept; if
-- anything was merged, a subtable is out of use.
pub subtable_merge-MergedFreed :
    (t : AddressTable)
    → IsSound nowhere (core t)
    → Returns (MergedFreed (core t)) Flawless (subtable_merge t)
unfolding subtable_merge
subtable_merge-MergedFreed t s =
    let first = update_checksums-Merged subtable_count 0 t s in
    Result.weaken
      (merge_all-MergedFreed subtable_count 0 (update_checksums subtable_count 0 t) 0 refl
        first.sound (inl refl))
      λ q done. (Merged-trans first done.0, done.1)
