-- ===== src/HandlerEntry/Conflicts.antt =====
-- Which subunits of a handler remain where another handler takes over some of the data bits.
use Prim.Native.Nat.{bit_and}
use mathlib.Core.List.{append-nil, append_assoc}
use remame.Base.{
  ℕ, zero, suc, ◌+◌, ◌≤◌, ◌<◌, ◌≡◌, refl, sym, ap, ◌∙◌, arith, Bool, true, false, ◌&&◌, leb, ltb,
  ◌==◌, if◌then◌else◌, inl, inr, Bool-cases, ==→≡, List, [], ◌∷◌, ◌++◌,
}
use remame.HandlerEntry.{
  SubunitInfo, HandlerEntry, complement_64, move_up, remove_subunit, clear_one, clear_from,
  all_masks, clear_conflicting_subunits, none_left, overriden_by_mask,
}

-- A subunit and its delegate.
abbrev pub Slot : Type 0
Slot = SubunitInfo × ℕ

-- `n` slots from `i` on.
unfoldable pub slots : ℕ → ℕ → HandlerEntry → List Slot
slots zero i h = []
slots (suc n) i h = (h.subunit_infos i, h.subaccess i) ∷ slots n (suc i) h

abbrev pub all_slots : HandlerEntry → List Slot
all_slots h = slots h.subunits 0 h

abbrev pub is_apart : ℕ → Slot → Bool
is_apart handlermask slot = bit_and handlermask slot.0.datamask == 0

-- Those that do not meet the mask, in their order.
unfoldable pub kept : ℕ → List Slot → List Slot
kept handlermask [] = []
kept handlermask (s ∷ ss) =
    if is_apart handlermask s then s ∷ kept handlermask ss else kept handlermask ss

slots-last :
    (n i : ℕ) (h : HandlerEntry)
    → slots (suc n) i h ≡ slots n i h ++ ((h.subunit_infos (i + n), h.subaccess (i + n)) ∷ [])
unfolding slots
slots-last zero i h =
    let same : i ≡ i + 0 = omega arith in
    ap (λ (j : ℕ). (h.subunit_infos j, h.subaccess j) ∷ []) same
slots-last (suc n) i h =
    let same : suc i + n ≡ i + suc n = omega arith in
    ap (λ (ss : List Slot). (h.subunit_infos i, h.subaccess i) ∷ ss)
      (slots-last n (suc i) h
        ∙ ap (λ (j : ℕ). slots n (suc i) h ++ ((h.subunit_infos j, h.subaccess j) ∷ [])) same)

-- Slots that are the same, `d` places further.
slots-moved :
    (n i d : ℕ) (h h' : HandlerEntry)
    → ((j : ℕ)
        → i ≤ j
        → j < i + n
        → (h'.subunit_infos j ≡ h.subunit_infos (j + d)) × (h'.subaccess j ≡ h.subaccess (j + d)))
    → slots n i h' ≡ slots n (i + d) h
unfolding slots
slots-moved zero i d h h' same = refl
slots-moved (suc n) i d h h' same =
    let here = same i (omega arith) (omega arith) in
    let next : suc i + d ≡ suc (i + d) = omega arith in
    rw (here.0, here.1)
      (ap (λ (ss : List Slot). (h.subunit_infos (i + d), h.subaccess (i + d)) ∷ ss)
        (slots-moved n (suc i) d h h' (λ j lo hi. same j (omega arith) (omega arith))
          ∙ ap (λ (k : ℕ). slots n k h) next))

kept-append : (m : ℕ) (xs ys : List Slot) → kept m (xs ++ ys) ≡ kept m xs ++ kept m ys
unfolding kept
kept-append m [] ys = refl
kept-append m (x ∷ xs) ys = elim (Bool-cases (is_apart m x)) [
  | inl apart ↦ rw apart (ap (λ (ss : List Slot). x ∷ ss) (kept-append m xs ys))
  | inr meets ↦ rw meets (kept-append m xs ys)
]

abbrev slot_at : HandlerEntry → ℕ → Slot
slot_at h i = (h.subunit_infos i, h.subaccess i)

kept-front :
    (m i : ℕ) (h : HandlerEntry)
    → kept m (slots (suc i) 0 h) ≡ kept m (slots i 0 h) ++ kept m (slot_at h i ∷ [])
kept-front m i h =
    let same : 0 + i ≡ i = omega arith in
    ap (kept m) (slots-last i 0 h ∙ ap (λ (j : ℕ). slots i 0 h ++ (slot_at h j ∷ [])) same)
    ∙ kept-append m (slots i 0 h) (slot_at h i ∷ [])

move_up_before : {A : Type 0} (e n j : ℕ) (f : ℕ → A) → j < e → move_up e n f j ≡ f (j + 0)
move_up_before e n j f h =
    let same : j ≡ j + 0 = omega arith in
    let early : (leb e j && ltb (j + 1) n) ≡ false = ground arith in rw early (ap f same)

move_up_after :
    {A : Type 0} (e n j : ℕ) (f : ℕ → A) → e ≤ j → j + 1 < n → move_up e n f j ≡ f (j + 1)
move_up_after e n j f lo hi =
    let late : (leb e j && ltb (j + 1) n) ≡ true = ground arith in rw late refl

module _ (m i k : ℕ) (h : HandlerEntry) (count : h.subunits ≡ suc i + k) where
  removed : HandlerEntry
  unfolding remove_subunit
  removed = remove_subunit i (record h { subunit_infos = move_up i h.subunits h.subunit_infos })

  slots_before : slots i 0 removed ≡ slots i 0 h
  unfolding removed remove_subunit
  slots_before = slots-moved i 0 0 h removed λ j lo hi. (
    move_up_before i h.subunits j h.subunit_infos (omega arith),
    move_up_before i h.subunits j h.subaccess (omega arith),
  )

  slots_after : slots k i removed ≡ slots k (suc i) h
  unfolding removed remove_subunit
  slots_after =
      let next : i + 1 ≡ suc i = omega arith in
      slots-moved k i 1 h removed (λ j lo hi. (
        move_up_after i h.subunits j h.subunit_infos lo (omega arith),
        move_up_after i h.subunits j h.subaccess lo (omega arith),
      ))
      ∙ ap (λ (j : ℕ). slots k j h) next

  removed_count : removed.subunits ≡ i + k
  unfolding removed remove_subunit
  removed_count = omega arith

clear_one_apart :
    (m i : ℕ) (h : HandlerEntry)
    → (bit_and m (h.subunit_infos i).datamask == 0) ≡ true
    → clear_one m i h ≡ h
unfolding clear_one
clear_one_apart m i h apart = rw apart refl

clear_one_meets :
    (m i k : ℕ) (h : HandlerEntry) (count : h.subunits ≡ suc i + k)
    → (bit_and m (h.subunit_infos i).datamask == 0) ≡ false
    → clear_one m i h ≡ removed m i k h count
unfolding clear_one removed
clear_one_meets m i k h count meets = rw meets refl

clear_from-kept :
    (m i k : ℕ) (h : HandlerEntry)
    → h.subunits ≡ i + k
    → all_slots (clear_from m i h) ≡ kept m (slots i 0 h) ++ slots k i h
unfolding clear_from slots kept
clear_from-kept m zero k h count =
    let all : h.subunits ≡ k = omega (arith, count) in ap (λ (n : ℕ). slots n 0 h) all
clear_from-kept m (suc i) k h count =
    elim (Bool-cases (bit_and m (h.subunit_infos i).datamask == 0)) [
      | inl apart ↦
          let alone : kept m (slot_at h i ∷ []) ≡ slot_at h i ∷ [] = rw apart refl in
          ap (λ (g : HandlerEntry). all_slots (clear_from m i g)) (clear_one_apart m i h apart)
          ∙ clear_from-kept m i (suc k) h (omega arith)
          ∙ sym (
              ap (λ (ss : List Slot). ss ++ slots k (suc i) h)
                (kept-front m i h ∙ ap (λ (ss : List Slot). kept m (slots i 0 h) ++ ss) alone)
              ∙ append_assoc (kept m (slots i 0 h)) (slot_at h i ∷ []) (slots k (suc i) h))
      | inr meets ↦
          let gone : kept m (slot_at h i ∷ []) ≡ [] = rw meets refl in
          let g = removed m i k h count in
          ap (λ (g : HandlerEntry). all_slots (clear_from m i g))
            (clear_one_meets m i k h count meets)
          ∙ clear_from-kept m i k g (removed_count m i k h count)
          ∙ ap (λ (ss : List Slot). kept m ss ++ slots k i g) (slots_before m i k h count)
          ∙ ap (λ (ss : List Slot). kept m (slots i 0 h) ++ ss) (slots_after m i k h count)
          ∙ sym (
              ap (λ (ss : List Slot). ss ++ slots k (suc i) h)
                (kept-front m i h
                  ∙ ap (λ (ss : List Slot). kept m (slots i 0 h) ++ ss) gone
                  ∙ append-nil (kept m (slots i 0 h))))
    ]

-- No slot is left.
abbrev pub is_empty : List Slot → Bool
is_empty [] = true
is_empty (s ∷ ss) = false

none_left-kept :
    (m n i : ℕ) (h : HandlerEntry)
    → none_left m n i h.subunit_infos ≡ is_empty (kept m (slots n i h))
unfolding none_left kept slots
none_left-kept m zero i h = refl
none_left-kept m (suc n) i h = elim (Bool-cases (bit_and m (h.subunit_infos i).datamask == 0)) [
  | inl apart ↦ rw apart refl
  | inr meets ↦
      rw meets (ap (λ (j : ℕ). none_left m n j h.subunit_infos) next ∙ none_left-kept m n (suc i) h)
]
  where
    next : i + 1 ≡ suc i
    next = omega arith

-- A mask of 0 stands for all bits.
abbrev pub kept_by : ℕ → List Slot → List Slot
kept_by handlermask ss = if handlermask == 0 then [] else kept handlermask ss

slots-masked :
    (n i mask : ℕ) (h : HandlerEntry) → slots n i (record h { invsubmask = mask }) ≡ slots n i h
unfolding slots
slots-masked zero i mask h = refl
slots-masked (suc n) i mask h =
    ap (λ (ss : List Slot). slot_at h i ∷ ss) (slots-masked n (suc i) mask h)

-- After `clear_conflicting_subunits` a handler has exactly the subunits, each with its delegate
-- and in their order, that have no data bit in common with the mask, and none for a mask of 0;
-- and `overriden_by_mask` is true of it before exactly if none is left after.
pub clear_conflicting_subunits-kept_by :
    (handlermask : ℕ) (h : HandlerEntry)
    → (all_slots (clear_conflicting_subunits handlermask h) ≡ kept_by handlermask (all_slots h))
      × (overriden_by_mask handlermask h ≡ is_empty (kept_by handlermask (all_slots h)))
unfolding clear_conflicting_subunits overriden_by_mask slots kept
clear_conflicting_subunits-kept_by handlermask h = elim (Bool-cases (handlermask == 0)) [
  | inl all ↦ rw all (refl, refl)
  | inr some' ↦ rw some' (cleared, overriden)
]
  where
    cleared :
        let h' = clear_from handlermask h.subunits h in
        all_slots
          (record h' { invsubmask = complement_64 (all_masks h'.subunits h'.subunit_infos) })
        ≡ kept handlermask (all_slots h)
    cleared =
        let h' = clear_from handlermask h.subunits h in
        slots-masked h'.subunits 0 (complement_64 (all_masks h'.subunits h'.subunit_infos)) h'
        ∙ clear_from-kept handlermask h.subunits 0 h (omega arith)
        ∙ append-nil (kept handlermask (all_slots h))

    nothing : is_empty (kept handlermask (slots 0 0 h)) ≡ true
    nothing = refl

    overriden :
        (if h.subunits == 0 then true else none_left handlermask h.subunits 0 h.subunit_infos)
        ≡ is_empty (kept handlermask (all_slots h))
    overriden = elim (Bool-cases (h.subunits == 0)) [
      | inl no_slot ↦ rw no_slot (
          sym (
            ap (λ (n : ℕ). is_empty (kept handlermask (slots n 0 h))) (==→≡ h.subunits 0 no_slot)
            ∙ nothing))
      | inr more ↦ rw more (none_left-kept handlermask h.subunits 0 h)
    ]
