-- ===== src/SpaceAccess/Put.antt =====
-- What `write_direct` makes of the memory of a little-endian space of byte addresses.
use native.Mathlib.Nat.{suc-mul, mul-div_cancel, one-le-pow, mod-le, mod-lt}
use remame.Base.{
  ℕ, zero, suc, ◌+◌, ◌-◌, ◌*◌, ◌/◌, ◌%◌, ◌^◌, ◌≤◌, ◌<◌, ◌≡◌, ◌∙◌, ap, refl, arith, Bool, true,
  false, ◌&&◌, not, ltb, Bool-cases, inl, inr,
}
use remame.Base.Word.{u32}
use remame.SpaceAccess.{native_step, native_address}
use remame.SpaceAccess.Little.{little, native_step_lem, native_address_lem}
use remame.SpaceAccess.Write.{
  turned_left, turned_right, write_left, write_right, write_two_little, write_middle_little,
  write_last_little, write_many_little, write_one,
}
use remame.SpaceAccess.Stored.{
  IsLittleStore, IsStored, asked, Fits-first, Fits-next, write_native-IsStored,
  write_masked-IsStored, IsStored-all,
}

module _ {ℓ} {S : Type ℓ} (write_native : ℕ → ℕ → ℕ → S → S) (k lo hi : ℕ) (bit : S → ℕ → Bool)
    (store : IsLittleStore write_native (8 * 2 ^ k) lo hi bit) (address value mask : ℕ)
    (before : S) where
  abbrev pub Holds : ℕ → S → Type 0
  Holds n s = IsStored bit (8 * address) value before (asked (8 * address) mask n) s

  first_word :
      (x : ℕ)
      → address < 2 ^ 32
      → 2 ^ k < 2 ^ 32
      → lo + address % 2 ^ k ≤ address
      → address < hi
      → x ≡ address % 2 ^ k
      → Holds (8 * 2 ^ k - 8 * x) (
          write_left write_native
            (little k)
            (native_address (little k) address)
            value
            mask
            (8 * x)
            before)
  unfolding IsStored
  first_word x h small from until e =
      let bits = 8 * 2 ^ k in
      let at = native_address (little k) address in
      let inside = mod-lt address (one-le-pow k 2 (omega arith)) in
      write_masked-IsStored write_native bits lo hi bit store (8 * address) value before
        (λ p. false) (asked (8 * address) mask (bits - 8 * x)) at (turned_left bits value (8 * x))
        (turned_left bits mask (8 * x)) before
        (omega (arith, native_address_lem k address h small, from))
        (omega (arith, native_address_lem k address h small, until))
        (Fits-first bits (8 * address) value mask (8 * x) at
          (omega (arith, native_address_lem k address h small, e, mod-le address (2 ^ k)))
          (omega (arith, e, inside)))
        (λ p. refl)

  next_word :
      (n at : ℕ) (s : S)
      → lo ≤ at
      → at < hi
      → 8 * at ≡ 8 * address + n
      → Holds n s
      → Holds (n + 8 * 2 ^ k) (write_right write_native (little k) at value mask n s)
  next_word n at s from until place stored =
      let bits = 8 * 2 ^ k in
      write_masked-IsStored write_native bits lo hi bit store (8 * address) value before
        (asked (8 * address) mask n) (asked (8 * address) mask (n + bits)) at
        (turned_right bits value n) (turned_right bits mask n) s from until
        (Fits-next bits (8 * address) value mask n at place) stored

  pub one_word :
      (target_bits x : ℕ)
      → address < 2 ^ 32
      → 2 ^ k < 2 ^ 32
      → lo + address % 2 ^ k ≤ address
      → address < hi
      → x ≡ address % 2 ^ k
      → 8 * x + target_bits ≤ 8 * 2 ^ k
      → mask < 2 ^ target_bits
      → Holds target_bits
          (write_one write_native (little k) target_bits address (8 * x) value mask before)
  unfolding write_one IsStored
  one_word target_bits x h small from until e fits narrow =
      let bits = 8 * 2 ^ k in
      let at = native_address (little k) address in
      IsStored-all bit (8 * address) value mask target_bits (bits - 8 * x) before _ narrow
        (omega (arith, fits))
        (write_native-IsStored write_native bits lo hi bit store (8 * address) value before
          (λ p. false) (asked (8 * address) mask (bits - 8 * x)) at (turned_left bits value (8 * x))
          (turned_left bits mask (8 * x)) before
          (omega (arith, native_address_lem k address h small, from))
          (omega (arith, native_address_lem k address h small, until))
          (Fits-first bits (8 * address) value mask (8 * x) at
            (omega (arith, native_address_lem k address h small, e, mod-le address (2 ^ k)))
            (omega (arith, fits)))
          (λ p. refl))

  pub two_words :
      (target_bits x : ℕ)
      → address + 2 ^ k < 2 ^ 32
      → lo + address % 2 ^ k ≤ address
      → address + 2 ^ k < hi
      → x ≡ address % 2 ^ k
      → target_bits ≤ 8 * 2 ^ k
      → mask < 2 ^ target_bits
      → Holds target_bits (
          write_two_little write_native
            (little k)
            (native_address (little k) address)
            (8 * x)
            value
            mask
            before)
  unfolding write_two_little
  two_words target_bits x h from until e fits narrow =
      let bits = 8 * 2 ^ k in
      let at_lem = native_address_lem k address (omega (arith, h)) (omega (arith, h)) in
      let step = native_step_lem k (omega (arith, h)) in
      let inside = mod-lt address (one-le-pow k 2 (omega arith)) in
      IsStored-all bit (8 * address) value mask target_bits (bits - 8 * x + bits) before _ narrow
        (omega (arith, fits))
        (next_word (bits - 8 * x) _ _ (omega (arith, at_lem, step, h, from))
          (omega (arith, at_lem, step, h, until))
          (omega (arith, at_lem, e, step, inside, mod-le address (2 ^ k), h))
          (first_word x (omega (arith, h)) (omega (arith, h)) from (omega (arith, until)) e))

  record IsMiddle (next : ℕ) (m : S × ℕ × ℕ) : Type 0 where
    count : m.1 ≡ next
    partly : Holds m.1 m.0
    place : 8 * m.2 + 8 * 2 ^ k ≡ 8 * address + m.1
    from : lo ≤ m.2

  between_words :
      (n at offsbits : ℕ) (s : S)
      → 8 * at + 8 * 2 ^ k ≡ 8 * address + offsbits
      → at + n * 2 ^ k < 2 ^ 32
      → 2 ^ k < 2 ^ 32
      → lo ≤ at
      → at + n * 2 ^ k < hi
      → Holds offsbits s
      → IsMiddle
          (offsbits + n * (8 * 2 ^ k))
          (write_middle_little write_native (little k) value mask n at offsbits s)
  unfolding write_middle_little
  between_words zero at offsbits s place room small from until p = record {
    count = omega arith;
    partly = p;
    place = place;
    from = from;
  }
  between_words (suc n) at offsbits s place room small from until p =
      let bits = 8 * 2 ^ k in
      let step = native_step_lem k small in
      let more = suc-mul n (2 ^ k) in
      let at' = u32 (at + native_step (little k)) in
      let next : at' ≡ at + 2 ^ k = omega (arith, step, more, room) in
      let rest =
        between_words n at' (offsbits + bits) _ (omega (arith, next, place))
          (omega (arith, next, more, room)) small (omega (arith, next, from))
          (omega (arith, next, more, until))
          (next_word offsbits at' s (omega (arith, next, from)) (omega (arith, next, more, until))
            (omega (arith, next, place)) p) in
      record {
        count = rest.count ∙ omega (arith, suc-mul n bits);
        partly = rest.partly;
        place = rest.place;
        from = rest.from;
      }

  last_word :
      (aligned : Bool) (target_bits next : ℕ) (m : S × ℕ × ℕ)
      → IsMiddle next m
      → 8 * address + next < 8 * 2 ^ 32
      → 8 * address + next < 8 * hi
      → (aligned ≡ true → target_bits ≤ next)
      → target_bits ≤ next + 8 * 2 ^ k
      → mask < 2 ^ target_bits
      → Holds target_bits
          (write_last_little write_native (little k) aligned target_bits value mask m)
  unfolding write_last_little
  last_word aligned target_bits next m w room until all most narrow =
      elim (Bool-cases (not aligned && ltb m.1 target_bits)) [
        | inl more ↦
            let step = native_step_lem k (omega (arith, w.place, w.count, room)) in
            rw more (
              IsStored-all bit (8 * address) value mask target_bits (m.1 + 8 * 2 ^ k) before _
                narrow (omega (arith, most, w.count))
                (next_word m.1 _ m.0 (omega (arith, step, w.place, w.count, room, w.from))
                  (omega (arith, step, w.place, w.count, room, until))
                  (omega (arith, step, w.place, w.count, room)) w.partly))
        | inr done ↦ rw done (
            IsStored-all bit (8 * address) value mask target_bits m.1 before _ narrow
              (ground (arith, done, all, w.count)) w.partly)
      ]

  -- `d + 1` is how many times as wide the target is.
  pub many_words :
      (aligned : Bool) (target_bytes d x : ℕ)
      → address + 2 ^ k + target_bytes < 2 ^ 32
      → lo + address % 2 ^ k ≤ address
      → address + target_bytes < hi
      → x ≡ address % 2 ^ k
      → target_bytes ≡ suc d * 2 ^ k
      → (aligned ≡ true → x ≡ 0)
      → mask < 2 ^ (8 * target_bytes)
      → Holds (8 * target_bytes) (
          write_many_little write_native
            (little k)
            aligned
            target_bytes
            (native_address (little k) address)
            (8 * x)
            value
            mask
            before)
  unfolding write_many_little
  many_words aligned target_bytes d x h from until e wide straight narrow =
      let bits = 8 * 2 ^ k in
      let positive = one-le-pow k 2 (omega arith) in
      let inside = mod-lt address positive in
      let at_lem = native_address_lem k address (omega (arith, h)) (omega (arith, h)) in
      let times = suc-mul d (2 ^ k) in
      let rounds : target_bytes / 2 ^ k - 1 ≡ d =
        ap (λ (n : ℕ). n / 2 ^ k - 1) wide
        ∙ ap (λ (n : ℕ). n - 1) (mul-div_cancel (suc d) positive)
        ∙ omega arith in
      rw rounds (
        last_word aligned (8 * target_bytes) (bits - 8 * x + d * bits) _
          (between_words d (native_address (little k) address) (bits - 8 * x) _
            (omega (arith, at_lem, e, inside, mod-le address (2 ^ k)))
            (omega (arith, at_lem, times, wide, h)) (omega (arith, h)) (omega (arith, at_lem, from))
            (omega (arith, at_lem, times, wide, until))
            (first_word x (omega (arith, h)) (omega (arith, h)) from (omega (arith, until)) e))
          (omega (arith, times, wide, inside, h)) (omega (arith, times, wide, inside, until))
          (λ all. omega (arith, times, wide, straight all)) (omega (arith, times, wide, inside, e))
          narrow)
