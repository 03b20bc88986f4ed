-- ===== src/Fifo.antt =====
-- `util::fifo` of source/core/coretmpl.h: a ring of `n` elements. The array is a function from an
-- index to an element, the iterators `m_head` and `m_tail` are indices, and the template's
-- `WriteWrap` and `ReadWrap` are arguments. Copies between fifos are left out.
pub mod Contents
mod Examples
use remame.Base.{ℕ, suc, ◌+◌, Bool, true, false, not, ◌&&◌, ◌||◌, ◌==◌, if◌then◌else◌}

pub record Fifo {ℓ} (A : Type ℓ) : Type ℓ where
  pub elements : ℕ → A
  pub head : ℕ
  pub tail : ℕ
  pub is_empty : Bool

-- The constructor, with the value of a default element.
unfoldable pub new_fifo {ℓ} : {A : Type ℓ} → A → Fifo A
new_fifo initial = record { elements = λ i. initial; head = 0; tail = 0; is_empty = true }

-- `if (this->end() == ++p) p = this->begin()`.
unfoldable pub advance : ℕ → ℕ → ℕ
advance n p = if p + 1 == n then 0 else p + 1

unfoldable pub full {ℓ} : {A : Type ℓ} → Fifo A → Bool
full q = not q.is_empty && q.head == q.tail

-- `*p = v`.
unfoldable pub put {ℓ} : {A : Type ℓ} → ℕ → A → (ℕ → A) → ℕ → A
put p v m i = if i == p then v else m i

unfoldable pub enqueue {ℓ} : {A : Type ℓ} → ℕ → Bool → A → Fifo A → Fifo A
unfolding put
enqueue n write_wrap v q =
    if write_wrap || q.is_empty || not (q.head == q.tail)
    then record q { elements = put q.tail v q.elements; tail = advance n q.tail; is_empty = false }
    else q

-- The element read comes back with the fifo.
unfoldable pub dequeue {ℓ} : {A : Type ℓ} → ℕ → Bool → Fifo A → Fifo A × A
dequeue n read_wrap q = (
  if read_wrap || not q.is_empty
      then record q { head = advance n q.head; is_empty = advance n q.head == q.tail }
      else q,
  q.elements q.head,
)

unfoldable pub poke {ℓ} : {A : Type ℓ} → A → Fifo A → Fifo A
unfolding put
poke v q = record q { elements = put q.tail v q.elements }

unfoldable pub peek {ℓ} : {A : Type ℓ} → Fifo A → A
peek q = q.elements q.head

unfoldable pub clear {ℓ} : {A : Type ℓ} → Fifo A → Fifo A
clear q = record q { head = 0; tail = 0; is_empty = true }
