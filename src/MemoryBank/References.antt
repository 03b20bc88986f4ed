-- ===== src/MemoryBank/References.antt =====
-- The spaces that refer to a `memory_bank`.
use mathlib.Core.Path.{subst}
use mathlib.Core.Bool.{true≢false, false≢true}
use mathlib.Core.Logic.{◌↔◌}
use remame.Base.{
  ℕ, Bool, sym, ◌≡◌, refl, arith, ◌||◌, inl, inr, ap, ◌∙◌, true, ◌==◌, ==→≡, Bool-cases, List, [],
  ◌∷◌, ◌++◌,
}
use remame.MemoryBank.{
  ReadOrWrite, reading, writing, reading_writing, same_access, Reference, MemoryBank, Memory,
  new_bank, matches, some_match, references_space, add_reference, invalidate_all,
}

some_match-append :
    (space : ℕ) (access : ReadOrWrite) (rs : List Reference) (r : Reference)
    → some_match space access (rs ++ (r ∷ []))
      ≡ (some_match space access rs || matches space access r)
unfolding some_match
some_match-append space access [] r = ground arith
some_match-append space access (x ∷ rs) r = ground (arith, some_match-append space access rs r)

-- What is asked of a space about one access holds for READWRITE.
some_match-wider :
    (space : ℕ) (access : ReadOrWrite) (rs : List Reference)
    → some_match space access rs ≡ true
    → some_match space reading_writing rs ≡ true
unfolding some_match matches
some_match-wider space access [] h = h
some_match-wider space access (x ∷ rs) h = elim (Bool-cases (space == x.space)) [
  | inl here ↦ rw here refl
  | inr other ↦ rw other (some_match-wider space access rs (ground (arith, other, h)))
]

module _ (space space' : ℕ) (rs : List Reference) where
  -- A reference to a space that has one is matched by none that is not matched already.
  known_for :
      (access : ReadOrWrite)
      → some_match space access rs ≡ true
      → some_match space' access rs ≡ (some_match space' access rs || (space' == space))
  known_for access known = elim (Bool-cases (space' == space)) [
    | inl same ↦
        let there = ap (λ (p : ℕ). some_match p access rs) (==→≡ space' space same) ∙ known in
        rw there refl
    | inr other ↦ rw other (ground arith)
  ]

  known_already :
      (access access' : ReadOrWrite)
      → some_match space access rs ≡ true
      → some_match space' access' rs ≡ (
          some_match space' access' rs
          || matches space' access' (record { space = space; access = access }))
  unfolding matches
  known_already access reading_writing known =
      ground (arith, known_for reading_writing (some_match-wider space access rs known))
  known_already reading reading known = ground (arith, known_for reading known)
  known_already writing writing known = ground (arith, known_for writing known)
  known_already writing reading known = ground arith
  known_already reading writing known = ground arith
  known_already reading_writing reading known = ground arith
  known_already reading_writing writing known = ground arith

-- After `add_reference` of a space and an access a bank has the references that it had, and
-- those that the new reference matches unless the bank had one that matched the space and the
-- access before: with READWRITE any reference of the space.
references_space-add_reference :
    (space space' : ℕ) (access access' : ReadOrWrite) (b : MemoryBank)
    → references_space space' access' (add_reference space access b) ≡ (
        references_space space' access' b
        || matches space' access' (record { space = space; access = access }))
unfolding add_reference references_space
references_space-add_reference space space' access access' b =
    elim (Bool-cases (some_match space access b.references)) [
      | inl known ↦ rw known (known_already space space' b.references access access' known)
      | inr unknown ↦ rw unknown (
          some_match-append space' access' b.references (record { space = space; access = access }))
    ]

-- Calls of `add_reference`, the first first.
unfoldable pub add_references : List Reference → MemoryBank → MemoryBank
add_references [] b = b
add_references (r ∷ rs) b = add_references rs (add_reference r.space r.access b)

references_space-add_references :
    (space : ℕ) (access : ReadOrWrite) (rs : List Reference) (b : MemoryBank)
    → references_space space access (add_references rs b)
      ≡ (references_space space access b || some_match space access rs)
unfolding add_references some_match
references_space-add_references space access [] b = ground arith
references_space-add_references space access (r ∷ rs) b = ground (
  arith,
  references_space-add_references space access rs (add_reference r.space r.access b),
  references_space-add_reference r.space space r.access access b,
)

-- A space was asked about with this access, or with any if the access is READWRITE.
pub data WasAdded (space : ℕ) : ReadOrWrite → List Reference → Type 0 where
  exactly :
      {access : ReadOrWrite} {rs : List Reference}
      → WasAdded space access (record { space = space; access = access } ∷ rs)
  any_access :
      {access : ReadOrWrite} {rs : List Reference}
      → WasAdded space reading_writing (record { space = space; access = access } ∷ rs)
  later :
      {access : ReadOrWrite} {r : Reference} {rs : List Reference}
      → WasAdded space access rs
      → WasAdded space access (r ∷ rs)

matches-WasAdded :
    (space : ℕ) (access access' : ReadOrWrite) (rs : List Reference)
    → (same_access access reading_writing || same_access access access') ≡ true
    → WasAdded space access (record { space = space; access = access' } ∷ rs)
matches-WasAdded space reading_writing access' rs h = any_access
matches-WasAdded space reading reading rs h = exactly
matches-WasAdded space writing writing rs h = exactly
matches-WasAdded space reading writing rs h = absurd (false≢true h)
matches-WasAdded space writing reading rs h = absurd (false≢true h)
matches-WasAdded space reading reading_writing rs h = absurd (false≢true h)
matches-WasAdded space writing reading_writing rs h = absurd (false≢true h)

some_match-WasAdded :
    (space : ℕ) (access : ReadOrWrite) (rs : List Reference)
    → some_match space access rs ≡ true
    → WasAdded space access rs
unfolding some_match matches
some_match-WasAdded space access [] h = absurd (false≢true h)
some_match-WasAdded space access (r ∷ rs) h = elim (Bool-cases (matches space access r)) [
  | inl here ↦
      subst (λ (p : ℕ). WasAdded space access (record { space = p; access = r.access } ∷ rs))
        (==→≡ space r.space (ground (arith, here)))
        (matches-WasAdded space access r.access rs (ground (arith, here)))
  | inr other ↦ later (some_match-WasAdded space access rs (ground (arith, other)))
]

same_access_refl : (access : ReadOrWrite) → same_access access access ≡ true
same_access_refl reading = refl
same_access_refl writing = refl
same_access_refl reading_writing = refl

WasAdded-some_match :
    (space : ℕ) (access : ReadOrWrite) (rs : List Reference)
    → WasAdded space access rs
    → some_match space access rs ≡ true
unfolding some_match matches
WasAdded-some_match space access _ exactly = ground (arith, same_access_refl access)
WasAdded-some_match space _ _ any_access = ground arith
WasAdded-some_match space access (r ∷ rs) (later w) =
    ground (arith, WasAdded-some_match space access rs w)

-- No reference is twice in a list that grows at its end.
pub data NoneTwice : List Reference → Type 0 where
  no_reference : NoneTwice []
  one_more :
      {rs : List Reference} {space : ℕ} {access : ReadOrWrite}
      → ¬ WasAdded space access rs
      → NoneTwice rs
      → NoneTwice (rs ++ (record { space = space; access = access } ∷ []))

add_reference-NoneTwice :
    (space : ℕ) (access : ReadOrWrite) (b : MemoryBank)
    → NoneTwice b.references
    → NoneTwice (add_reference space access b).references
unfolding add_reference references_space
add_reference-NoneTwice space access b w =
    elim (Bool-cases (some_match space access b.references)) [
      | inl known ↦ rw known w
      | inr unknown ↦ rw unknown (
          one_more
            (λ was. true≢false (sym (WasAdded-some_match space access b.references was) ∙ unknown))
            w)
    ]

add_references-NoneTwice :
    (calls : List Reference) (b : MemoryBank)
    → NoneTwice b.references
    → NoneTwice (add_references calls b).references
unfolding add_references
add_references-NoneTwice [] b w = w
add_references-NoneTwice (r ∷ rs) b w =
    add_references-NoneTwice rs (add_reference r.space r.access b)
      (add_reference-NoneTwice r.space r.access b w)

-- After any calls of `add_reference` on a new bank, `references_space` of a space and an access
-- holds exactly if one of the calls was for the space and the access, or for the space if the
-- access is READWRITE, although calls are skipped; and no reference of the bank is one that
-- `references_space` would have found among those before it.
pub references_space-add_references_new :
    (index addrstart addrend space : ℕ) (anonymous : Bool) (access : ReadOrWrite)
    (calls : List Reference)
    → let b = add_references calls (new_bank index addrstart addrend anonymous) in
      ((references_space space access b ≡ true) ↔ WasAdded space access calls)
      × NoneTwice b.references
unfolding new_bank references_space some_match
references_space-add_references_new index addrstart addrend space anonymous access calls =
    let bank = new_bank index addrstart addrend anonymous in
    let found = references_space-add_references space access calls bank in
    (
      (
        λ h. some_match-WasAdded space access calls (sym found ∙ h),
        λ w. found ∙ WasAdded-some_match space access calls w,
      ),
      add_references-NoneTwice calls bank no_reference,
    )

-- The spaces of the references, the last first, before others.
abbrev pub told : List Reference → List ℕ → List ℕ
told [] before = before
told (r ∷ rs) before = told rs (r.space ∷ before)

pub invalidate_all-told :
    (rs : List Reference) (mem : Memory)
    → ((invalidate_all rs mem).bank_ptr ≡ mem.bank_ptr)
      × ((invalidate_all rs mem).invalidated ≡ told rs mem.invalidated)
unfolding invalidate_all
invalidate_all-told [] mem = (refl, refl)
invalidate_all-told (r ∷ rs) mem =
    invalidate_all-told rs (record mem { invalidated = r.space ∷ mem.invalidated })
