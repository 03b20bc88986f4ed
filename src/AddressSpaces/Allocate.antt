-- ===== src/AddressSpaces/Allocate.antt =====
-- Which address spaces `memory_manager::allocate` makes.
use remame.Base.{
  ℕ, zero, suc, ◌+◌, ◌-◌, ◌≤◌, ◌<◌, ◌≡◌, ◌∙◌, ap, refl, arith, true, false, ◌==◌, if◌then◌else◌,
  Bool-cases, ==→≡, inl, inr, List, [], ◌∷◌, ◌++◌, Option, none, some,
}
use remame.Base.Lists.{
  length, repeat, length-append, length-repeat, get_or-set, get_or-append_repeat,
}
use remame.Base.Result
use remame.Base.Result.{Fatal, Result, ok, fatal, Returns, returns, fails, Flawless, ◌>>=◌}
use remame.AddressSpaces.{
  AddressSpaceConfig, SpaceType, space_config, space, resize, allocate_space, allocate_from,
  allocate,
}
use remame.AddressSpaces.Switch.{is_known, expected, space_type_lem}

abbrev absent : Option SpaceType
absent = none

space-allocate_space :
    (k : ℕ) (found : Option SpaceType) (spaces : List (Option SpaceType)) (n : ℕ)
    → space spaces k ≡ none
    → space (allocate_space k found spaces) n ≡ (if n == k then found else space spaces n)
unfolding allocate_space resize
space-allocate_space k none spaces n free = elim (Bool-cases (n == k)) [
  | inl here ↦ rw (here, ==→≡ n k here) free
  | inr there ↦ rw there refl
]
space-allocate_space k (some t) spaces n free = ground (
  arith,
  length-append spaces (repeat (k + 1 - length spaces) none),
  length-repeat (k + 1 - length spaces) absent,
  get_or-set none (spaces ++ repeat (k + 1 - length spaces) none) k (some t) n,
  get_or-append_repeat none spaces (k + 1 - length spaces) n,
)

-- The spaces that `allocate_from` leaves, for the configurations from `k` on.
record IsAllocated (k : ℕ) (configs : List (Option AddressSpaceConfig))
    (before : List (Option SpaceType)) (spaces : List (Option SpaceType)) : Type 0 where
  made : (i : ℕ) → space spaces (k + i) ≡ expected (space_config configs i)
  kept : (n : ℕ) → n < k → space spaces n ≡ space before n
  all_known : (i : ℕ) → is_known (space_config configs i) ≡ true

-- One more configuration at the front.
IsAllocated-front :
    (k : ℕ) (o : Option AddressSpaceConfig) (configs : List (Option AddressSpaceConfig))
    (before middle spaces : List (Option SpaceType))
    → is_known o ≡ true
    → space middle k ≡ expected o
    → ((n : ℕ) → n < k → space middle n ≡ space before n)
    → IsAllocated (suc k) configs middle spaces
    → IsAllocated k (o ∷ configs) before spaces
IsAllocated-front k o configs before middle spaces front here there a = record {
  made = made;
  kept = kept;
  all_known = all_known;
}
  where
    made : (i : ℕ) → space spaces (k + i) ≡ expected (space_config (o ∷ configs) i)
    made zero = ap (space spaces) (omega arith) ∙ a.kept k (omega arith) ∙ here
    made (suc i) = ap (space spaces) (omega arith) ∙ a.made i

    kept : (n : ℕ) → n < k → space spaces n ≡ space before n
    kept n h = a.kept n (omega arith) ∙ there n h

    all_known : (i : ℕ) → is_known (space_config (o ∷ configs) i) ≡ true
    all_known zero = front
    all_known (suc i) = a.all_known i

-- The error, and a configuration to blame for it.
pub record UnknownWidth (configs : List (Option AddressSpaceConfig)) (e : Fatal) : Type 0 where
  pub is_width : e ≡ Fatal.invalid_width
  pub index : ℕ
  pub unknown_there : is_known (space_config configs index) ≡ false

UnknownWidth-front :
    (o : Option AddressSpaceConfig) (configs : List (Option AddressSpaceConfig)) (e : Fatal)
    → UnknownWidth configs e
    → UnknownWidth (o ∷ configs) e
UnknownWidth-front o configs e u = record {
  is_width = u.is_width;
  index = suc u.index;
  unknown_there = u.unknown_there;
}

allocate_from_lem :
    (k : ℕ) (configs : List (Option AddressSpaceConfig)) (spaces : List (Option SpaceType))
    → ((n : ℕ) → k ≤ n → space spaces n ≡ none)
    → Returns (IsAllocated k configs spaces) (UnknownWidth configs) (allocate_from k configs spaces)
unfolding allocate_from expected
allocate_from_lem k [] spaces free =
    returns
      (record { made = λ i. free (k + i) (omega arith); kept = λ n h. refl; all_known = λ i. refl })
allocate_from_lem k (none ∷ configs) spaces free =
    Result.transfer (allocate_from_lem (suc k) configs spaces λ n h. free n (omega arith))
      (λ s a.
        IsAllocated-front k none configs spaces spaces s refl (free k (omega arith)) (λ n h. refl)
          a)
      (UnknownWidth-front none configs)
allocate_from_lem k (some c ∷ configs) spaces free =
    Result.bind
      (Result.transfer (space_type_lem c) (λ o h. h)
        (λ e h. record { is_width = h.0; index = zero; unknown_there = h.1 }))
      λ found h.
        let seen = λ (n : ℕ). space-allocate_space k found spaces n (free k (omega arith)) in
        let later : (n : ℕ) → suc k ≤ n → (if n == k then found else space spaces n) ≡ none =
          λ n lo. ground (arith, free n (omega arith)) in
        Result.transfer
          (allocate_from_lem (suc k) configs (allocate_space k found spaces)
            λ n lo. seen n ∙ later n lo)
          (λ s a.
            IsAllocated-front k (some c) configs spaces (allocate_space k found spaces) s h.1
              (ground (arith, seen k, h.0)) (λ n lo. ground (arith, seen n)) a)
          (UnknownWidth-front (some c) configs)

pub record Allocated (configs : List (Option AddressSpaceConfig)) (spaces : List (Option SpaceType))
    : Type 0 where
  pub made : (n : ℕ) → space spaces n ≡ expected (space_config configs n)
  pub all_known : (n : ℕ) → is_known (space_config configs n) ≡ true

-- `allocate` ends with spaces such that every number has a space exactly if it has a
-- configuration of a known shift, and then the type of the space has the width, the order of
-- bytes and the shift of the configuration, with 8 bits of data the shift 0, and the size of
-- `is_large`; then all the widths are 8, 16, 32 or 64. Or it ends in the error "Invalid width",
-- and some configuration has another width. A shift is known if the data has 8 bits, or if the
-- shift is not positive and the alignment is at least a byte, or if it is 3 and the data has 16
-- bits.
pub allocate_lem :
    (configs : List (Option AddressSpaceConfig))
    → Returns (Allocated configs) (UnknownWidth configs) (allocate configs)
unfolding allocate
allocate_lem configs =
    Result.weaken (allocate_from_lem zero configs [] λ n h. refl)
      λ s a. record { made = λ n. ap (space s) (omega arith) ∙ a.made n; all_known = a.all_known }
