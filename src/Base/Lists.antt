-- ===== src/Base/Lists.antt =====
-- Lists measured and indexed by native numbers, under the library's names.
use Prim.Native.Nat.{ℕ, zero, suc, ◌+◌, ◌<◌}
use mathlib.Core.Path.{◌≡◌, refl}
use mathlib.Core.List.{List, [], ◌∷◌, ◌++◌}
use mathlib.Core.Option.{Option, none, some}
use native.Mathlib.Omega.{arith}
use remame.Base.Tests.{◌==◌, if◌then◌else◌}

module _ {ℓ} {A : Type ℓ} where
  abbrev pub length : List A → ℕ
  length [] = 0
  length (x ∷ xs) = suc (length xs)

  abbrev pub get_elem? : List A → ℕ → Option A
  get_elem? [] i = none
  get_elem? (x ∷ xs) zero = some x
  get_elem? (x ∷ xs) (suc i) = get_elem? xs i

  -- A write out of bounds changes nothing.
  abbrev pub set : List A → ℕ → A → List A
  set [] i v = []
  set (x ∷ xs) zero v = v ∷ xs
  set (x ∷ xs) (suc i) v = x ∷ set xs i v

  pub length-append : (xs ys : List A) → length (xs ++ ys) ≡ length xs + length ys
  length-append [] ys = omega arith
  length-append (x ∷ xs) ys = omega (arith, length-append xs ys)

  pub length-set : (xs : List A) (n : ℕ) (v : A) → length (set xs n v) ≡ length xs
  length-set [] n v = refl
  length-set (x ∷ xs) zero v = refl
  length-set (x ∷ xs) (suc n) v = omega (arith, length-set xs n v)

  -- The element at an index, out of range a default.
  abbrev pub get_or : A → List A → ℕ → A
  get_or d [] i = d
  get_or d (x ∷ xs) zero = x
  get_or d (x ∷ xs) (suc i) = get_or d xs i

  abbrev pub repeat : ℕ → A → List A
  repeat zero d = []
  repeat (suc n) d = d ∷ repeat n d

  pub length-repeat : (n : ℕ) (d : A) → length (repeat n d) ≡ n
  length-repeat zero d = refl
  length-repeat (suc n) d = omega (arith, length-repeat n d)

  pub get_or-set :
      (d : A) (xs : List A) (n : ℕ) (v : A) (i : ℕ)
      → n < length xs
      → get_or d (set xs n v) i ≡ (if i == n then v else get_or d xs i)
  get_or-set d [] n v i h = absurd (omega arith)
  get_or-set d (x ∷ xs) zero v zero h = refl
  get_or-set d (x ∷ xs) zero v (suc i) h = ground arith
  get_or-set d (x ∷ xs) (suc n) v zero h = ground arith
  get_or-set d (x ∷ xs) (suc n) v (suc i) h = ground (arith, get_or-set d xs n v i)

  get_or-repeat : (d : A) (k i : ℕ) → get_or d (repeat k d) i ≡ d
  get_or-repeat d zero i = refl
  get_or-repeat d (suc k) zero = refl
  get_or-repeat d (suc k) (suc i) = get_or-repeat d k i

  -- Defaults at the end are not seen.
  pub get_or-append_repeat :
      (d : A) (xs : List A) (k i : ℕ) → get_or d (xs ++ repeat k d) i ≡ get_or d xs i
  get_or-append_repeat d [] k i = get_or-repeat d k i
  get_or-append_repeat d (x ∷ xs) k zero = refl
  get_or-append_repeat d (x ∷ xs) k (suc i) = get_or-append_repeat d xs k i

-- A property of every element.
pub data All {A : Type 0} (P : A → Type 0) : List A → Type 0 where
  no_more : All P []
  and_more : {x : A} {xs : List A} → P x → All P xs → All P (x ∷ xs)
