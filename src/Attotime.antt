-- ===== src/Attotime.antt =====
-- `attotime` of source/core/attotime.h and attotime.cpp: a 32-bit count of seconds and a 64-bit
-- count of attoseconds, with the operations of source/core/fastmath.h that it uses (the portable
-- versions). Each width is cut where the C++ cuts it; signed overflow is taken as two's complement.
pub mod Value
pub mod Sum
mod Words
pub mod Product
pub mod Quotient
pub mod Order
pub mod Ticks
pub mod Units
mod Assign
mod Examples
use remame.Base.{
  ℕ, ◌+◌, ◌-◌, ◌*◌, ◌/◌, ◌%◌, ◌^◌, Bool, not, ◌&&◌, ◌||◌, ltb, leb, ◌==◌, if◌then◌else◌,
}
use remame.Base.Int.{
  ℤ, pos, negsuc, sub_ℕ, ◌+ℤ◌, ◌-ℤ◌, ◌*ℤ◌, trunc_div, trunc_mod, ltb_ℤ, leb_ℤ, eqb_ℤ,
}
use remame.Base.Word.{u32, u64, u32_of, u64_of, s32, s64}

abbrev pub attoseconds_per_second_sqrt : ℕ
attoseconds_per_second_sqrt = 1_000_000_000

abbrev pub attoseconds_per_second : ℕ
attoseconds_per_second = attoseconds_per_second_sqrt * attoseconds_per_second_sqrt

abbrev pub attotime_max_seconds : ℕ
attotime_max_seconds = 1_000_000_000

pub record Attotime : Type 0 where
  pub seconds : ℤ
  pub attoseconds : ℤ

abbrev pub attotime : ℤ → ℤ → Attotime
attotime secs attos = record { seconds = secs; attoseconds = attos }

abbrev pub zero_time : Attotime
zero_time = attotime (pos 0) (pos 0)

abbrev pub never : Attotime
never = attotime (pos attotime_max_seconds) (pos 0)

unfoldable pub is_zero : Attotime → Bool
is_zero t = eqb_ℤ t.seconds (pos 0) && eqb_ℤ t.attoseconds (pos 0)

unfoldable pub is_never : Attotime → Bool
is_never t = leb_ℤ (pos attotime_max_seconds) t.seconds

-- fastmath.h: the arguments are values of the C types named.
unfoldable pub mulu_32x32 : ℕ → ℕ → ℕ
mulu_32x32 a b = u64 (a * b)

unfoldable pub mul_32x32 : ℤ → ℤ → ℤ
mul_32x32 a b = s64 (a *ℤ b)

unfoldable pub divu_64x32 : ℕ → ℕ → ℕ
divu_64x32 a b = u32 (a / b)

-- The quotient and the remainder.
unfoldable pub divu_64x32_rem : ℕ → ℕ → ℕ × ℕ
unfolding divu_64x32
divu_64x32_rem a b = let res = divu_64x32 a b in (res, u32 ((a + 2 ^ 64 - u64 (b * res)) % 2 ^ 64))

-- `operator+`.
unfoldable pub add : Attotime → Attotime → Attotime
unfolding is_never
add left right =
    if is_never left || is_never right
    then never
    else (let attos = s64 (left.attoseconds +ℤ right.attoseconds) in
        let secs = s32 (left.seconds +ℤ right.seconds) in
        let carry = leb_ℤ (pos attoseconds_per_second) attos in
        let attos' = if carry then s64 (attos -ℤ pos attoseconds_per_second) else attos in
        let secs' = if carry then s32 (secs +ℤ pos 1) else secs in
        let result = attotime secs' attos' in if is_never result then never else result)

-- `operator-`.
unfoldable pub sub : Attotime → Attotime → Attotime
unfolding is_never
sub left right =
    if is_never left
    then never
    else (let attos = s64 (left.attoseconds -ℤ right.attoseconds) in
        let secs = s32 (left.seconds -ℤ right.seconds) in
        let borrow = ltb_ℤ attos (pos 0) in
        attotime (if borrow then s32 (secs -ℤ pos 1) else secs)
          (if borrow then s64 (attos +ℤ pos attoseconds_per_second) else attos))

-- `operator+=` and `operator-=`: the same steps on the fields of the left operand.
unfoldable pub add_assign : Attotime → Attotime → Attotime
unfolding is_never
add_assign this right =
    if is_never this || is_never right
    then never
    else (let summed =
          attotime (s32 (this.seconds +ℤ right.seconds))
            (s64 (this.attoseconds +ℤ right.attoseconds)) in
        let normal =
          if leb_ℤ (pos attoseconds_per_second) summed.attoseconds
          then attotime (s32 (summed.seconds +ℤ pos 1))
              (s64 (summed.attoseconds -ℤ pos attoseconds_per_second))
          else summed in
        if is_never normal then never else normal)

unfoldable pub sub_assign : Attotime → Attotime → Attotime
unfolding is_never
sub_assign this right =
    if is_never this
    then never
    else (let differs =
          attotime (s32 (this.seconds -ℤ right.seconds))
            (s64 (this.attoseconds -ℤ right.attoseconds)) in
        if ltb_ℤ differs.attoseconds (pos 0)
        then attotime (s32 (differs.seconds -ℤ pos 1))
            (s64 (differs.attoseconds +ℤ pos attoseconds_per_second))
        else differs)

-- `operator*=` by an unsigned 32-bit factor.
unfoldable pub mul : Attotime → ℕ → Attotime
mul t factor =
    if is_never t
    then never
    else if factor == 0
    then zero_time
    else (let (attohi, attolo) =
          divu_64x32_rem (u64_of t.attoseconds) attoseconds_per_second_sqrt in
        let lower = mulu_32x32 attolo factor in
        let (lower', reslo) = divu_64x32_rem lower attoseconds_per_second_sqrt in
        let upper = u64 (lower' + mulu_32x32 attohi factor) in
        let (upper', reshi) = divu_64x32_rem upper attoseconds_per_second_sqrt in
        let secs = u64 (upper' + mulu_32x32 (u32_of t.seconds) factor) in
        if leb attotime_max_seconds secs
        then never
        else attotime (s32 (pos secs))
            (s64 (pos reslo +ℤ mul_32x32 (s32 (pos reshi)) (pos attoseconds_per_second_sqrt))))

-- `operator/=` by an unsigned 32-bit factor.
unfoldable pub div : Attotime → ℕ → Attotime
div t factor =
    if is_never t
    then never
    else if factor == 0
    then t
    else (let (attohi, attolo) =
          divu_64x32_rem (u64_of t.attoseconds) attoseconds_per_second_sqrt in
        let (secs, rem1) = divu_64x32_rem (u64_of t.seconds) factor in
        let upper = u64 (attohi + mulu_32x32 rem1 attoseconds_per_second_sqrt) in
        let (reshi, rem2) = divu_64x32_rem upper factor in
        let lower = u64 (attolo + mulu_32x32 rem2 attoseconds_per_second_sqrt) in
        let (reslo, rem3) = divu_64x32_rem lower factor in
        let attos = s64 (pos (u64 (reslo + mulu_32x32 reshi attoseconds_per_second_sqrt))) in
        if leb (factor / 2) rem3
        then (let bumped = s64 (attos +ℤ pos 1) in
            if leb_ℤ (pos attoseconds_per_second) bumped
            then attotime (s32 (s32 (pos secs) +ℤ pos 1)) (pos 0)
            else attotime (s32 (pos secs)) bumped)
        else attotime (s32 (pos secs)) attos)

-- The comparisons.
unfoldable pub eq : Attotime → Attotime → Bool
eq left right = eqb_ℤ left.seconds right.seconds && eqb_ℤ left.attoseconds right.attoseconds

unfoldable pub ne : Attotime → Attotime → Bool
ne left right =
    not (eqb_ℤ left.seconds right.seconds) || not (eqb_ℤ left.attoseconds right.attoseconds)

unfoldable pub lt : Attotime → Attotime → Bool
lt left right =
    ltb_ℤ left.seconds right.seconds
    || (eqb_ℤ left.seconds right.seconds && ltb_ℤ left.attoseconds right.attoseconds)

unfoldable pub le : Attotime → Attotime → Bool
le left right =
    ltb_ℤ left.seconds right.seconds
    || (eqb_ℤ left.seconds right.seconds && leb_ℤ left.attoseconds right.attoseconds)

unfoldable pub gt : Attotime → Attotime → Bool
gt left right =
    ltb_ℤ right.seconds left.seconds
    || (eqb_ℤ left.seconds right.seconds && ltb_ℤ right.attoseconds left.attoseconds)

unfoldable pub ge : Attotime → Attotime → Bool
ge left right =
    ltb_ℤ right.seconds left.seconds
    || (eqb_ℤ left.seconds right.seconds && leb_ℤ right.attoseconds left.attoseconds)

-- `as_attoseconds`, clamped to a second either way.
unfoldable pub as_attoseconds : Attotime → ℤ
as_attoseconds t =
    if eqb_ℤ t.seconds (pos 0)
    then t.attoseconds
    else if eqb_ℤ t.seconds (negsuc 0)
    then t.attoseconds -ℤ pos attoseconds_per_second
    else if ltb_ℤ (pos 0) t.seconds
    then pos attoseconds_per_second
    else sub_ℕ 0 attoseconds_per_second

-- `as_ticks` at an unsigned 32-bit frequency.
unfoldable pub as_ticks : Attotime → ℕ → ℕ
as_ticks t frequency =
    let fracticks = u32_of (mul (attotime (pos 0) t.attoseconds) frequency).seconds in
    u64 (mulu_32x32 (u32_of t.seconds) frequency + fracticks)

-- `from_ticks` of an unsigned 64-bit count at an unsigned 32-bit frequency. At frequency 0 the
-- C++ divides by zero; here the quotient is then 0.
unfoldable pub from_ticks : ℕ → ℕ → Attotime
from_ticks ticks frequency =
    let attos_per_tick = attoseconds_per_second / frequency in
    if ltb ticks frequency
    then attotime (pos 0) (s64 (pos (u64 (ticks * attos_per_tick))))
    else (let (secs, remainder) = divu_64x32_rem ticks frequency in
        attotime (s32 (pos secs)) (s64 (pos (u64 (remainder * attos_per_tick)))))

unfoldable pub from_seconds : ℤ → Attotime
from_seconds secs = attotime secs (pos 0)

-- `from_msec`, `from_usec` and `from_nsec` are this at 1000, 1000000 and 1000000000 units a second.
unfoldable pub from_units : ℕ → ℤ → Attotime
from_units per_second n =
    attotime (s32 (trunc_div n per_second))
      (s64 (trunc_mod n per_second *ℤ pos (attoseconds_per_second / per_second)))

unfoldable pub from_msec : ℤ → Attotime
unfolding from_units
from_msec msec = from_units 1_000 msec

unfoldable pub from_usec : ℤ → Attotime
unfolding from_units
from_usec usec = from_units 1_000_000 usec

unfoldable pub from_nsec : ℤ → Attotime
unfolding from_units
from_nsec nsec = from_units 1_000_000_000 nsec
