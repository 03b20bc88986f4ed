-- ===== src/AddressTable/Frame.antt =====
-- The loops of `address_table` seen on the core: counting references changes nothing there, and a
-- loop of writes is a fill.
use mathlib.Core.Path.{fun_ext}
use remame.Base.{ℕ, zero, suc, ◌+◌, ◌-◌, ◌≡◌, refl, ap, ◌∙◌, ltb, arith, Bool-cases, inl, inr}
use remame.Base.Int.{pos, ◌-ℤ◌, eqb_ℤ}
use remame.AddressTable.{AddressTable, update, write, handler_ref, handler_unref, static_count}
use remame.AddressTable.Subtable.{ref_loop, unref_loop, fill_value}
use remame.AddressTable.Populate.{fill}
use remame.AddressTable.Core.{Core, core}

abbrev pub with_table : Core → (ℕ → ℕ) → Core
with_table c m = record c { table = m }

pub core-handler_ref : (e n : ℕ) (t : AddressTable) → core (handler_ref e n t) ≡ core t
unfolding handler_ref
core-handler_ref e n t = elim (Bool-cases (ltb e static_count)) [
  | inl static ↦ rw static
  | inr counted ↦ rw counted
]

pub core-handler_unref : (e : ℕ) (t : AddressTable) → core (handler_unref e t) ≡ core t
unfolding handler_unref
core-handler_unref e t = elim (Bool-cases (ltb e static_count)) [
  | inl static ↦ rw static
  | inr counted ↦
      elim (Bool-cases (eqb_ℤ (t.handler_refcount (e - static_count) -ℤ pos 1) (pos 0))) [
        | inl last ↦ rw (counted, last)
        | inr more ↦ rw (counted, more)
      ]
]

pub core-unref_loop : (n p : ℕ) (t : AddressTable) → core (unref_loop n p t) ≡ core t
unfolding unref_loop
core-unref_loop zero p t = refl
core-unref_loop (suc n) p t =
    core-unref_loop n (p + 1) (handler_unref (t.table p) t) ∙ core-handler_unref (t.table p) t

pub core-ref_loop : (n p : ℕ) (t : AddressTable) → core (ref_loop n p t) ≡ core t
unfolding ref_loop
core-ref_loop zero p t = refl
core-ref_loop (suc n) p t =
    core-ref_loop n (p + 1) (handler_ref (t.table p) 1 t) ∙ core-handler_ref (t.table p) 1 t

fill_value-zero : (p v : ℕ) (m : ℕ → ℕ) → fill_value 0 p v m ≡ m
unfolding fill_value
fill_value-zero p v m = fun_ext (λ i. ground arith)

fill_value-suc :
    (n p v : ℕ) (m : ℕ → ℕ) → fill_value n (p + 1) v (update m p v) ≡ fill_value (suc n) p v m
unfolding fill_value update
fill_value-suc n p v m = fun_ext (λ i. ground arith)

-- The loop that fills an open subtable.
pub core-fill :
    (n p h : ℕ) (t : AddressTable)
    → core (fill n p h t) ≡ with_table (core t) (fill_value n p h t.table)
unfolding fill
core-fill zero p h t = rw fill_value-zero
core-fill (suc n) p h t =
    core-fill n (p + 1) h (write p h (handler_unref (t.table p) t))
    ∙ ap (λ (c : Core). with_table c (fill_value n (p + 1) h (update c.table p h)))
        (core-handler_unref (t.table p) t)
    ∙ ap (with_table (core t)) (fill_value-suc n p h t.table)
