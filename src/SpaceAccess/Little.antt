-- ===== src/SpaceAccess/Little.antt =====
-- What `read_direct` gives in a little-endian space of byte addresses.
use native.Mathlib.Nat.{suc-mul, mul-div_cancel, one-le-pow, mod-le, mod-lt}
use mathlib.Core.Path.{subst}
use remame.Base.{
  sym, ℕ, zero, suc, ◌+◌, ◌-◌, ◌*◌, ◌/◌, ◌%◌, ◌^◌, ◌≤◌, ◌<◌, ◌≡◌, ◌∙◌, ap, refl, arith, Bool, true,
  ◌&&◌, not, ltb, leb, Bool-cases, lt→ltb, inl, inr,
}
use remame.Base.Int.{pos}
use remame.Base.Word.{u32}
use remame.Base.Bits.{bit_and_high}
use remame.Base.HasBit.{has_bit, has_bit-shift, has_bit-mod, has_bit-div}
use remame.SpaceAccess.{
  SpaceTraits, native_step, native_mask, native_address, read_left, read_right, read_two_little,
  middle_little, last_little, read_many_little, read_one,
}
use remame.SpaceAccess.Partial.{
  IsLittleMemory, IsPartial, read_left-IsPartial, read_right-IsPartial,
}

-- Words of `2 ^ k` bytes.
abbrev pub little : ℕ → SpaceTraits
little k = record { native_bytes = 2 ^ k; is_little = true; addr_shift = pos 0 }

pub native_step_lem : (k : ℕ) → 2 ^ k < 2 ^ 32 → native_step (little k) ≡ 2 ^ k
unfolding native_step
native_step_lem k h = omega (arith, h)

pub native_address_lem :
    (k a : ℕ) → a < 2 ^ 32 → 2 ^ k < 2 ^ 32 → native_address (little k) a ≡ a - a % 2 ^ k
unfolding native_address native_mask
native_address_lem k a h small =
    rw (native_step_lem k small) (bit_and_high k a h (omega (arith, small)))

has_bit-masked :
    (w mask k i : ℕ) → k + i < w → has_bit ((mask * 2 ^ k) % 2 ^ w) (k + i) ≡ has_bit mask i
has_bit-masked w mask k i h =
    let place : k + i - k ≡ i = omega arith in
    let all : leb k (k + i) ≡ true = ground arith in
    has_bit-mod w (mask * 2 ^ k) (k + i)
    ∙ rw (lt→ltb (k + i) w h) (has_bit-shift k mask (k + i) ∙ rw (all, place) refl)

has_bit-taken : (w mask k i : ℕ) → i < w → has_bit ((mask / 2 ^ k) % 2 ^ w) i ≡ has_bit mask (k + i)
has_bit-taken w mask k i h =
    has_bit-mod w (mask / 2 ^ k) i ∙ rw (lt→ltb i w h) (has_bit-div k mask i)

-- What is read of a target of so many bits: those of memory, and the state as before.
pub record IsRead {ℓ} {S : Type ℓ} (before : S) (cell : ℕ → Bool) (target_bits address mask : ℕ)
    (r : ℕ × S) : Type ℓ where
  pub bits :
      (i : ℕ) → i < target_bits → has_bit mask i ≡ true → has_bit r.0 i ≡ cell (8 * address + i)
  pub same : r.1 ≡ before

module _ {ℓ} {S : Type ℓ} (read_native : ℕ → ℕ → S → ℕ × S) (k lo hi : ℕ) (before : S)
    (cell : ℕ → Bool) (memory : IsLittleMemory read_native (8 * 2 ^ k) lo hi before cell) where
  pub in_word :
      (target_bits address x mask : ℕ)
      → address < 2 ^ 32
      → 2 ^ k < 2 ^ 32
      → lo + address % 2 ^ k ≤ address
      → address < hi
      → x ≡ address % 2 ^ k
      → 8 * x + target_bits ≤ 8 * 2 ^ k
      → IsRead before cell target_bits address mask
          (read_one read_native (little k) target_bits address (8 * x) mask before)
  unfolding read_one
  in_word target_bits address x mask h small from until e fits =
      let bits = 8 * 2 ^ k in
      let curmask = (mask * 2 ^ (8 * x)) % 2 ^ bits in
      let at = native_address (little k) address in
      let at_lem = native_address_lem k address h small in
      let lowest : lo ≤ at = omega (arith, at_lem, from) in
      let highest : at < hi = omega (arith, at_lem, until) in
      record {
        bits = λ i below asked.
            let place : 8 * at + (8 * x + i) ≡ 8 * address + i =
              omega (arith, at_lem, e, mod-le address (2 ^ k)) in
            has_bit-mod target_bits ((read_native at curmask before).0 / 2 ^ (8 * x)) i
            ∙ rw (lt→ltb i target_bits below) (
                has_bit-div (8 * x) (read_native at curmask before).0 i
                ∙ memory.given at curmask lowest highest (8 * x + i) (omega arith)
                    (has_bit-masked bits mask (8 * x) i (omega arith) ∙ asked)
                ∙ ap cell place);
        same = memory.stays at curmask lowest highest;
      }

  -- The part of the first word.
  first_part :
      (target_bits address x mask : ℕ)
      → address < 2 ^ 32
      → 2 ^ k < 2 ^ 32
      → lo + address % 2 ^ k ≤ address
      → address < hi
      → x ≡ address % 2 ^ k
      → IsPartial before cell (8 * address) target_bits mask (8 * 2 ^ k - 8 * x) (
          read_right read_native target_bits
            (native_address (little k) address)
            ((mask * 2 ^ (8 * x)) % 2 ^ (8 * 2 ^ k))
            (8 * x)
            (0, before))
  first_part target_bits address x mask h small from until e =
      let bits = 8 * 2 ^ k in
      let at = native_address (little k) address in
      let at_lem = native_address_lem k address h small in
      read_right-IsPartial read_native bits lo hi before cell memory (8 * address) target_bits mask
        at ((mask * 2 ^ (8 * x)) % 2 ^ bits) (8 * x) (omega (arith, at_lem, from))
        (omega (arith, at_lem, until)) (omega (arith, at_lem, e, mod-le address (2 ^ k)))
        (λ i h h'. has_bit-masked bits mask (8 * x) i h)

  -- The part of a later word.
  next_part :
      (target_bits address mask n at curmask : ℕ) (r : ℕ × S)
      → lo ≤ at
      → at < hi
      → 8 * at ≡ 8 * address + n
      → ((i : ℕ) → i < 8 * 2 ^ k → n + i < target_bits → has_bit curmask i ≡ has_bit mask (n + i))
      → IsPartial before cell (8 * address) target_bits mask n r
      → IsPartial before cell
          (8 * address)
          target_bits
          mask
          (n + 8 * 2 ^ k)
          (read_left read_native target_bits at curmask n r)
  next_part target_bits address mask n at curmask (result, s) from until place masks p =
      let q =
        subst (λ (z : S). IsPartial before cell (8 * address) target_bits mask n (result, z)) p.same
          p in
      subst
        (λ (z : S).
          IsPartial before cell (8 * address) target_bits mask (n + 8 * 2 ^ k)
            (read_left read_native target_bits at curmask n (result, z)))
        (sym p.same)
        (read_left-IsPartial read_native (8 * 2 ^ k) lo hi before cell memory (8 * address)
          target_bits mask at curmask n result from until place masks q)

  whole :
      (target_bits address mask n : ℕ) (r : ℕ × S)
      → target_bits ≤ n
      → IsPartial before cell (8 * address) target_bits mask n r
      → IsRead before cell target_bits address mask r
  whole target_bits address mask n r enough p = record {
    bits = λ i below asked. p.below i (omega (arith, enough, below)) below asked;
    same = p.same;
  }

  pub in_two_words :
      (target_bits address x mask : ℕ)
      → address + 2 ^ k < 2 ^ 32
      → lo + address % 2 ^ k ≤ address
      → address + 2 ^ k < hi
      → x ≡ address % 2 ^ k
      → target_bits ≤ 8 * 2 ^ k
      → IsRead before cell target_bits address mask (
          read_two_little read_native
            (little k)
            target_bits
            (native_address (little k) address)
            (8 * x)
            mask
            before)
  unfolding read_two_little
  in_two_words target_bits address x mask h from until e fits =
      let bits = 8 * 2 ^ k in
      let at = native_address (little k) address in
      let inside = mod-lt address (one-le-pow k 2 (omega arith)) in
      let at_lem = native_address_lem k address (omega arith) (omega arith) in
      let step = native_step_lem k (omega arith) in
      let second : u32 (at + native_step (little k)) ≡ at + 2 ^ k =
        omega (arith, at_lem, step, h) in
      whole target_bits address mask (bits - 8 * x + bits) _ (omega (arith, inside, e, fits)) (
        next_part target_bits address mask (bits - 8 * x) (u32 (at + native_step (little k)))
          (mask / 2 ^ (bits - 8 * x)) _ (omega (arith, second, at_lem, from))
          (omega (arith, second, at_lem, until))
          (omega (arith, second, at_lem, e, inside, mod-le address (2 ^ k)))
          (λ i h h'. has_bit-div (bits - 8 * x) mask i)
          (first_part target_bits address x mask (omega arith) (omega arith) from (omega arith) e))

  -- What the middle reads leave: a result with its number of bits, and the word of its last bits.
  record IsMiddle (address target_bits mask next : ℕ) (m : (ℕ × S) × ℕ × ℕ) : Type ℓ where
    count : m.1 ≡ next
    partly : IsPartial before cell (8 * address) target_bits mask m.1 m.0
    place : 8 * m.2 + 8 * 2 ^ k ≡ 8 * address + m.1
    from : lo ≤ m.2

  middle_little-IsMiddle :
      (target_bits address mask n at offsbits : ℕ) (r : ℕ × S)
      → 8 * at + 8 * 2 ^ k ≡ 8 * address + offsbits
      → at + n * 2 ^ k < 2 ^ 32
      → 2 ^ k < 2 ^ 32
      → lo ≤ at
      → at + n * 2 ^ k < hi
      → IsPartial before cell (8 * address) target_bits mask offsbits r
      → IsMiddle address target_bits mask
          (offsbits + n * (8 * 2 ^ k))
          (middle_little read_native (little k) target_bits mask n at offsbits r)
  unfolding middle_little
  middle_little-IsMiddle target_bits address mask zero at offsbits r place room small from until p =
      record { count = omega arith; partly = p; place = place; from = from }
  middle_little-IsMiddle target_bits address mask (suc n) at offsbits r place room small from until
        p =
      let bits = 8 * 2 ^ k in
      let step = native_step_lem k small in
      let more = suc-mul n (2 ^ k) in
      let more' = suc-mul n bits in
      let at' = u32 (at + native_step (little k)) in
      let next : at' ≡ at + 2 ^ k = omega (arith, step, more, room) in
      let rest =
        middle_little-IsMiddle target_bits address mask n at' (offsbits + bits)
          (read_left read_native target_bits at' ((mask / 2 ^ offsbits) % 2 ^ bits) offsbits r)
          (omega (arith, next, place)) (omega (arith, next, more, room)) small
          (omega (arith, next, from)) (omega (arith, next, more, until))
          (next_part target_bits address mask offsbits at' ((mask / 2 ^ offsbits) % 2 ^ bits) r
            (omega (arith, next, from)) (omega (arith, next, more, until))
            (omega (arith, next, place)) (λ i h h'. has_bit-taken bits mask offsbits i h) p) in
      record {
        count = rest.count ∙ omega (arith, more');
        partly = rest.partly;
        place = rest.place;
        from = rest.from;
      }

  in_last_word :
      (aligned : Bool) (target_bits address mask next : ℕ) (m : (ℕ × S) × ℕ × ℕ)
      → IsMiddle address target_bits mask next m
      → 8 * address + next < 8 * 2 ^ 32
      → 8 * address + next < 8 * hi
      → (aligned ≡ true → target_bits ≤ next)
      → target_bits ≤ next + 8 * 2 ^ k
      → IsRead before cell target_bits address mask
          (last_little read_native (little k) aligned target_bits mask m)
  unfolding last_little
  in_last_word aligned target_bits address mask next m w room until all most =
      elim (Bool-cases (not aligned && ltb m.1 target_bits)) [
        | inl more ↦
            let bits = 8 * 2 ^ k in
            let step = native_step_lem k (omega (arith, w.place, w.count, room)) in
            let last : u32 (m.2 + native_step (little k)) ≡ m.2 + 2 ^ k =
              omega (arith, step, w.place, w.count, room) in
            rw more (
              whole target_bits address mask (m.1 + bits) _ (omega (arith, most, w.count)) (
                next_part target_bits address mask m.1 (u32 (m.2 + native_step (little k)))
                  ((mask / 2 ^ m.1) % 2 ^ bits) m.0 (omega (arith, last, w.from))
                  (omega (arith, last, w.place, w.count, until)) (omega (arith, last, w.place))
                  (λ i h h'. has_bit-taken bits mask m.1 i h) w.partly))
        | inr done ↦
            rw done
              (whole target_bits address mask m.1 m.0 (ground (arith, done, all, w.count)) w.partly)
      ]

  -- `d` is how many times as wide the target is.
  pub in_many_words :
      (aligned : Bool) (target_bytes d address x mask : ℕ)
      → address + 2 ^ k + target_bytes < 2 ^ 32
      → lo + address % 2 ^ k ≤ address
      → address + target_bytes < hi
      → x ≡ address % 2 ^ k
      → target_bytes ≡ suc d * 2 ^ k
      → (aligned ≡ true → x ≡ 0)
      → IsRead before cell (8 * target_bytes) address mask (
          read_many_little read_native
            (little k)
            aligned
            target_bytes
            (native_address (little k) address)
            (8 * x)
            mask
            before)
  unfolding read_many_little last_little
  in_many_words aligned target_bytes d address x mask h from until e wide straight =
      let bits = 8 * 2 ^ k in
      let target_bits = 8 * target_bytes in
      let at = native_address (little k) address in
      let positive = one-le-pow k 2 (omega arith) in
      let inside = mod-lt address positive in
      let at_lem = native_address_lem k address (omega arith) (omega arith) in
      let times = suc-mul d (2 ^ k) in
      let rounds : target_bytes / 2 ^ k - 1 ≡ d =
        ap (λ (n : ℕ). n / 2 ^ k - 1) wide
        ∙ ap (λ (n : ℕ). n - 1) (mul-div_cancel (suc d) positive)
        ∙ omega arith in
      let middle =
        middle_little-IsMiddle target_bits address mask d at (bits - 8 * x)
          (read_right read_native target_bits at ((mask * 2 ^ (8 * x)) % 2 ^ bits) (8 * x)
            (0, before))
          (omega (arith, at_lem, e, inside, mod-le address (2 ^ k)))
          (omega (arith, at_lem, times, wide)) (omega arith) (omega (arith, at_lem, from))
          (omega (arith, at_lem, times, wide, until))
          (first_part target_bits address x mask (omega arith) (omega arith) from (omega arith)
            e) in
      rw rounds (
        in_last_word aligned target_bits address mask (bits - 8 * x + d * bits) _ middle
          (omega (arith, times, wide, inside, h)) (omega (arith, times, wide, inside, until))
          (λ all. omega (arith, times, wide, straight all)) (omega (arith, times, wide, inside, e)))
