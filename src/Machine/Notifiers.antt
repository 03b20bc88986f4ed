-- ===== src/Machine/Notifiers.antt =====
-- `add_notifier` of source/core/machine.cpp: the order in which callbacks run.
use remame.Base.{
  ℕ, ◌≡◌, ◌∙◌, ap, sym, refl, arith, true, false, Bool, List, [], ◌∷◌, ◌++◌, Option, none, some,
  if◌then◌else◌,
}
use remame.Machine.{Machine, Phase, Notification, is_exit, is_init, set_notifiers, add_notifier}

infixl 5 ◌>>=◌
abbrev ◌>>=◌ : Option Machine → (Machine → Option Machine) → Option Machine
none >>= f = none
some m >>= f = f m

-- Callbacks added to the tail of the list of an event, or to its head, one after the other.
unfoldable pub add_notifiers : Notification → List ℕ → Machine → Option Machine
add_notifiers event [] m = some m
add_notifiers event (callback ∷ callbacks) m =
    add_notifier event callback false m >>= add_notifiers event callbacks

-- A list turned around in front of another.
unfoldable pub reverse_onto : List ℕ → List ℕ → List ℕ
reverse_onto [] before = before
reverse_onto (callback ∷ callbacks) before = reverse_onto callbacks (callback ∷ before)

-- The order in which the callbacks are called.
unfoldable pub call_order : Bool → List ℕ → List ℕ → List ℕ
call_order backwards callbacks before =
    if backwards then reverse_onto callbacks before else before ++ callbacks

set_notifiers_same :
    (event : Notification) (cbs : List ℕ) (f : Notification → List ℕ)
    → set_notifiers event cbs f event ≡ cbs
unfolding set_notifiers
set_notifiers_same event cbs f = ground arith

add_notifier-init :
    (event : Notification) (callback : ℕ) (m : Machine)
    → m.current_phase ≡ Phase.init
    → add_notifier event callback false m
      ≡ some (record m {
        notifiers =
            set_notifiers event
              (if is_exit event
                then callback ∷ m.notifiers event
                else m.notifiers event ++ (callback ∷ []))
              m.notifiers;
      })
unfolding add_notifier
add_notifier-init event callback m e =
    ap
      (λ (b : Bool).
        if b
        then some (record m {
          notifiers =
              set_notifiers event
                (if is_exit event
                  then callback ∷ m.notifiers event
                  else m.notifiers event ++ (callback ∷ []))
                m.notifiers;
        })
        else none)
      (ap is_init e)

append_assoc :
    (before : List ℕ) (callback : ℕ) (callbacks : List ℕ)
    → (before ++ (callback ∷ [])) ++ callbacks ≡ before ++ (callback ∷ callbacks)
append_assoc [] callback callbacks = refl
append_assoc (x ∷ before) callback callbacks =
    ap (λ (xs : List ℕ). x ∷ xs) (append_assoc before callback callbacks)

append_nil : (before : List ℕ) → before ++ [] ≡ before
append_nil [] = refl
append_nil (x ∷ before) = ap (λ (xs : List ℕ). x ∷ xs) (append_nil before)

call_order-nil : (backwards : Bool) (before : List ℕ) → before ≡ call_order backwards [] before
unfolding call_order reverse_onto
call_order-nil true before = refl
call_order-nil false before = sym (append_nil before)

call_order-step :
    (backwards : Bool) (callback : ℕ) (callbacks before : List ℕ)
    → call_order backwards callbacks
        (if backwards then callback ∷ before else before ++ (callback ∷ []))
      ≡ call_order backwards (callback ∷ callbacks) before
unfolding call_order reverse_onto
call_order-step true callback callbacks before = refl
call_order-step false callback callbacks before = append_assoc before callback callbacks

-- In the initialisation phase callbacks added one after the other to the tail of an event are
-- called in that order after those there before, and exit callbacks in the reverse order before
-- them.
pub add_notifiers-call_order :
    (event : Notification) (callbacks : List ℕ) (m : Machine)
    → m.current_phase ≡ Phase.init
    → (m' : Machine) × (add_notifiers event callbacks m ≡ some m')
      × (m'.notifiers event ≡ call_order (is_exit event) callbacks (m.notifiers event))
unfolding add_notifiers
add_notifiers-call_order event [] m e =
    (m, refl, call_order-nil (is_exit event) (m.notifiers event))
add_notifiers-call_order event (callback ∷ callbacks) m e =
    let before = m.notifiers event in
    let next = if is_exit event then callback ∷ before else before ++ (callback ∷ []) in
    let (m', added, order) =
      add_notifiers-call_order event callbacks
        (record m { notifiers = set_notifiers event next m.notifiers }) e in
    (
      m',
      ap (λ (o : Option Machine). o >>= add_notifiers event callbacks)
            (add_notifier-init event callback m e)
          ∙ added,
      order
          ∙ ap (call_order (is_exit event) callbacks) (set_notifiers_same event next m.notifiers)
          ∙ call_order-step (is_exit event) callback callbacks before,
    )
