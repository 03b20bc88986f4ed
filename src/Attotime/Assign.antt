-- ===== src/Attotime/Assign.antt =====
-- `operator+=` and `operator-=` of source/core/attotime.h against `operator+` and `operator-`.
use remame.Base.{◌≡◌, refl, ◌||◌, Bool-cases, inl, inr}
use remame.Base.Int.{pos, ◌+ℤ◌, ◌-ℤ◌, leb_ℤ, ltb_ℤ}
use remame.Base.Word.{s64}
use remame.Attotime.{Attotime, is_never, add, sub, add_assign, sub_assign, attoseconds_per_second}

-- On any two times, whatever their fields, the assignment operators leave in the left operand
-- what `operator+` and `operator-` return.
pub assign_lem :
    (left right : Attotime)
    → (add_assign left right ≡ add left right) × (sub_assign left right ≡ sub left right)
unfolding add_assign add sub_assign sub
assign_lem left right = (
  elim (Bool-cases (is_never left || is_never right)) [
    | inl e ↦ rw e refl
    | inr e ↦
        elim (Bool-cases
          (leb_ℤ (pos attoseconds_per_second) (s64 (left.attoseconds +ℤ right.attoseconds)))) [
            | inl c ↦ rw (e, c) refl
            | inr c ↦ rw (e, c) refl
          ]
  ],
  elim (Bool-cases (is_never left)) [
    | inl e ↦ rw e refl
    | inr e ↦ elim (Bool-cases (ltb_ℤ (s64 (left.attoseconds -ℤ right.attoseconds)) (pos 0))) [
      | inl c ↦ rw (e, c) refl
      | inr c ↦ rw (e, c) refl
    ]
  ],
)
