-- ===== src/AddressMap/Merged.antt =====
-- What `merge` of an entry and the entries of its submap makes of each of them.
use mathlib.Core.List.{append_assoc, append-nil}
use remame.Base.{
  ℕ, ◌-◌, ◌*◌, ◌/◌, ◌^◌, ◌&&◌, not, ◌≡◌, ◌∙◌, sym, ap, refl, true, false, ltb, ◌==◌, if◌then◌else◌,
  Bool-cases, inl, inr, List, [], ◌∷◌, ◌++◌,
}
use remame.Base.Lists.{All, no_more, and_more}
use remame.Base.Result
use remame.Base.Result.{Fatal, Result, ok, fatal, Returns, returns, fails, ◌>>=◌}
use remame.AddressMap.{AddressMapEntry}
use remame.AddressMap.Import.{
  is_plain, count_bits, ratio_of, remask, place_plain, place_scaled, insert_entry, merge_plain,
  merge_scaled, window_end, scaled_end, merge,
}

-- The entry that one of the submap becomes, by the two cases of `merge`.
pub data Placed (entry : AddressMapEntry) (data_width : ℕ) (subentry : AddressMapEntry)
    : AddressMapEntry → Type 0 where
  placed_plain :
      is_plain entry data_width ≡ true
      → Placed entry data_width subentry (place_plain entry (window_end entry) subentry)
  placed_scaled :
      {ratio newmask : ℕ}
      → is_plain entry data_width ≡ false
      → ratio_of entry.mask data_width ≡ ok ratio
      → remask entry data_width ratio subentry ≡ ok newmask
      → Placed entry data_width subentry
          (place_scaled entry ratio (scaled_end entry ratio) newmask subentry)

-- An entry is kept if it does not start after the end.
abbrev pub kept : AddressMapEntry → AddressMapEntry → List AddressMapEntry
kept entry placed = if ltb entry.addrend placed.addrstart then [] else placed ∷ []

-- All entries of a submap, in their order.
pub data Merged (entry : AddressMapEntry) (data_width : ℕ)
    : List AddressMapEntry → List AddressMapEntry → Type 0 where
  merged_none : Merged entry data_width [] []
  merged_more :
      {subentry placed : AddressMapEntry} {subentries rest : List AddressMapEntry}
      → Placed entry data_width subentry placed
      → Merged entry data_width subentries rest
      → Merged entry data_width (subentry ∷ subentries) (kept entry placed ++ rest)

-- What holds of each placed entry holds of all.
pub All-Merged :
    {P Q : AddressMapEntry → Type 0} {entry : AddressMapEntry} {data_width : ℕ}
    {subentries entries : List AddressMapEntry}
    → ((subentry placed : AddressMapEntry)
        → Placed entry data_width subentry placed
        → ltb entry.addrend placed.addrstart ≡ false
        → P subentry
        → Q placed)
    → Merged entry data_width subentries entries
    → All P subentries
    → All Q entries
All-Merged each merged_none no_more = no_more
All-Merged {P} {Q} {entry} each (merged_more {subentry} {placed} {subentries} {rest} p merged)
      (and_more h hs) =
    let after = All-Merged each merged hs in
    elim (Bool-cases (ltb entry.addrend placed.addrstart)) [
      | inl late ↦ rw late after
      | inr early ↦ rw early (and_more (each subentry placed p early h) after)
    ]

insert_entry-kept :
    (entry placed : AddressMapEntry) (before : List AddressMapEntry)
    → insert_entry entry before placed ≡ before ++ kept entry placed
unfolding insert_entry
insert_entry-kept entry placed before = elim (Bool-cases (ltb entry.addrend placed.addrstart)) [
  | inl late ↦ rw late (sym (append-nil before))
  | inr early ↦ rw early refl
]

-- What `merge` adds to the entries before, and that it adds all.
pub record MergedTo (entry : AddressMapEntry) (data_width : ℕ)
    (subentries before entries : List AddressMapEntry) : Type 0 where
  pub placed : List AddressMapEntry
  pub added : entries ≡ before ++ placed
  pub merged : Merged entry data_width subentries placed

MergedTo-none :
    (entry : AddressMapEntry) (data_width : ℕ) (before : List AddressMapEntry)
    → MergedTo entry data_width [] before before
MergedTo-none entry data_width before = record {
  placed = [];
  added = sym (append-nil before);
  merged = merged_none;
}

MergedTo-more :
    (entry : AddressMapEntry) (data_width : ℕ) (subentry p : AddressMapEntry)
    (subentries before entries : List AddressMapEntry)
    → Placed entry data_width subentry p
    → MergedTo entry data_width subentries (insert_entry entry before p) entries
    → MergedTo entry data_width (subentry ∷ subentries) before entries
MergedTo-more entry data_width subentry p subentries before entries here rest = record {
  placed = kept entry p ++ rest.placed;
  added =
      rest.added
      ∙ ap (λ (es : List AddressMapEntry). es ++ rest.placed) (insert_entry-kept entry p before)
      ∙ append_assoc before (kept entry p) rest.placed;
  merged = merged_more here rest.merged;
}

merge_plain_lem :
    (entry : AddressMapEntry) (data_width : ℕ) (before subentries : List AddressMapEntry)
    → is_plain entry data_width ≡ true
    → MergedTo entry data_width subentries before
        (merge_plain entry (window_end entry) before subentries)
unfolding merge_plain
merge_plain_lem entry data_width before [] plain = MergedTo-none entry data_width before
merge_plain_lem entry data_width before (subentry ∷ rest) plain =
    let p = place_plain entry (window_end entry) subentry in
    MergedTo-more entry data_width subentry p rest before _ (placed_plain plain)
      (merge_plain_lem entry data_width (insert_entry entry before p) rest plain)

-- The errors of an import.
pub data SubmapError : Fatal → Type 0 where
  no_device : SubmapError Fatal.no_submap_device
  no_fit : SubmapError Fatal.mask_does_not_fit
  no_bits : SubmapError Fatal.division_by_zero

ratio_of_lem :
    (mask data_width : ℕ)
    → Returns (λ ratio. ratio_of mask data_width ≡ ok ratio) SubmapError (ratio_of mask data_width)
unfolding ratio_of
ratio_of_lem mask data_width = Result.known (
    Result.branch {P = λ ratio. ratio ≡ ratio} (count_bits mask data_width == 0) _ _
      (λ empty. fails no_bits) (λ some_bits. returns refl))

remask_lem :
    (entry : AddressMapEntry) (data_width ratio : ℕ) (subentry : AddressMapEntry)
    → Returns
        (λ newmask. remask entry data_width ratio subentry ≡ ok newmask)
        SubmapError
        (remask entry data_width ratio subentry)
unfolding remask
remask_lem entry data_width ratio subentry = Result.known (
    Result.branch {P = λ newmask. newmask ≡ newmask}
      (not (subentry.mask == 0) && not (subentry.mask == 2 ^ 64 - 1)) _ _
      (λ masked. Result.bind (ratio_of_lem subentry.mask data_width) (λ subentry_ratio e.
        Result.branch (ltb (data_width / 8) (ratio * subentry_ratio)) _ _ (λ wide. fails no_fit)
          (λ fits. returns refl)))
      (λ whole. returns refl))

merge_scaled_lem :
    (entry : AddressMapEntry) (data_width ratio : ℕ) (before subentries : List AddressMapEntry)
    → is_plain entry data_width ≡ false
    → ratio_of entry.mask data_width ≡ ok ratio
    → Returns
        (MergedTo entry data_width subentries before)
        SubmapError
        (merge_scaled entry data_width ratio (scaled_end entry ratio) before subentries)
unfolding merge_scaled
merge_scaled_lem entry data_width ratio before [] scaled e =
    returns (MergedTo-none entry data_width before)
merge_scaled_lem entry data_width ratio before (subentry ∷ rest) scaled e =
    Result.bind (remask_lem entry data_width ratio subentry) (λ newmask fits.
      let p = place_scaled entry ratio (scaled_end entry ratio) newmask subentry in
      Result.weaken
        (merge_scaled_lem entry data_width ratio (insert_entry entry before p) rest scaled e)
        (λ entries to.
          MergedTo-more entry data_width subentry p rest before entries
            (placed_scaled scaled e fits) to))

pub merge_lem :
    (entry : AddressMapEntry) (data_width : ℕ) (before subentries : List AddressMapEntry)
    → Returns
        (MergedTo entry data_width subentries before)
        SubmapError
        (merge entry data_width before subentries)
unfolding merge
merge_lem entry data_width before subentries =
    Result.branch (is_plain entry data_width) _ _
      (λ plain. returns (merge_plain_lem entry data_width before subentries plain))
      (λ scaled.
        Result.bind (ratio_of_lem entry.mask data_width)
          (λ ratio e. merge_scaled_lem entry data_width ratio before subentries scaled e))
