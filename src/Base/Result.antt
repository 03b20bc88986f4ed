-- ===== src/Base/Result.antt =====
-- What a call ends in: a value, one of the emulator's fatal errors, or a loop cut off by its fuel.
use mathlib.Core.Bool.{Bool, true, false}
use mathlib.Core.Path.{◌≡◌, refl}
use remame.Base.Tests.{if◌then◌else◌}

pub data Fatal : Type 0 where
  -- "Ran out of subtables!"
  out_of_subtables : Fatal
  -- "Called subtable_realloc on a table with a usecount of 0"
  realloc_unused : Fatal
  -- "Called subtable_release on a table with a usecount of 0"
  release_unused : Fatal
  -- "Out of handler entries in address table"
  out_of_handlers : Fatal
  -- "memory_bank::set_base called nullptr base"
  null_base : Fatal
  -- "memory_bank::set_entry called for anonymous bank"
  anonymous_bank : Fatal
  -- "memory_bank::set_entry called with out-of-range entry", and that of configure_entry
  entry_out_of_range : Fatal
  -- "memory_bank::set_entry called for bank with invalid bank entry"
  invalid_bank_entry : Fatal
  -- "Invalid width specified for address_space::allocate"
  invalid_width : Fatal
  -- "Cannot direct_read_data::read_byte on a memory space with address shift", and the like
  address_shift : Fatal
  -- "Invalid subunit mask"
  invalid_subunit_mask : Fatal
  -- "region_alloc called with duplicate region name"
  duplicate_region : Fatal
  -- std::out_of_range of "lru_cache_map::at"
  out_of_range : Fatal
  -- "Attempted to submap a non-existent device"
  no_submap_device : Fatal
  -- "the import unitmask combined with an entry unitmask does not fit"
  mask_does_not_fit : Fatal
  -- The trap of a division by 0.
  division_by_zero : Fatal
  -- "No memory interface defined for device"
  no_memory_interface : Fatal
  -- "No memory address space configuration found for device"
  no_space_config : Fatal

pub data Result {ℓ} (A : Type ℓ) : Type ℓ where
  ok : A → Result A
  fatal : Fatal → Result A
  out_of_fuel : Result A

infixl 5 ◌>>=◌
abbrev pub ◌>>=◌ {ℓ κ} : {A : Type ℓ} {B : Type κ} → Result A → (A → Result B) → Result B
ok a >>= f = f a
fatal e >>= f = fatal e
out_of_fuel >>= f = out_of_fuel

-- A result that is a value with a property, or the one fatal error that `E` allows.
pub data Returns {A : Type 0} (P : A → Type 0) (E : Fatal → Type 0) : Result A → Type 0 where
  returns : {a : A} → P a → Returns P E (ok a)
  fails : {e : Fatal} → E e → Returns P E (fatal e)

-- No error is allowed.
abbrev pub Flawless : Fatal → Type 0
Flawless e = ⊥

module _ {A : Type 0} {P : A → Type 0} {E : Fatal → Type 0} where
  pub bind :
      {B : Type 0} {Q : B → Type 0} {r : Result A} {k : A → Result B}
      → Returns P E r
      → ((a : A) → P a → Returns Q E (k a))
      → Returns Q E (r >>= k)
  bind (returns p) next = next _ p
  bind (fails e) next = fails e

  -- Without an error whatever errors are allowed.
  pub tolerate : {r : Result A} → Returns P Flawless r → Returns P E r
  tolerate (returns p) = returns p
  tolerate (fails e) = absurd e

  pub weaken :
      {Q : A → Type 0} {r : Result A} → Returns P E r → ((a : A) → P a → Q a) → Returns Q E r
  weaken (returns p) f = returns (f _ p)
  weaken (fails e) f = fails e

  -- The value is the one that the call returns.
  pub known : {r : Result A} → Returns P E r → Returns (λ a. r ≡ ok a) E r
  known (returns p) = returns refl
  known (fails e) = fails e

  pub transfer :
      {Q : A → Type 0} {F : Fatal → Type 0} {r : Result A}
      → Returns P E r
      → ((a : A) → P a → Q a)
      → ((e : Fatal) → E e → F e)
      → Returns Q F r
  transfer (returns p) f g = returns (f _ p)
  transfer (fails e) f g = fails (g _ e)

  -- A branch on a test.
  pub branch :
      (c : Bool) (x y : Result A)
      → (c ≡ true → Returns P E x)
      → (c ≡ false → Returns P E y)
      → Returns P E (if c then x else y)
  branch true x y yes_case no_case = yes_case refl
  branch false x y yes_case no_case = no_case refl
