-- ===== src/Fifo/Examples.antt =====
-- The theorems on `util::fifo` at a fifo of three, with its tail wrapped around.
use remame.Base.{ℕ, ◌≡◌, refl, arith, true, false, ◌==◌, [], ◌∷◌, ◌++◌, if◌then◌else◌}
use remame.Fifo.{Fifo, full, enqueue, dequeue}
use remame.Fifo.Contents.{IsFifo, contents, contents-enqueue, contents-dequeue}

-- 7 at the head, then 8; one place left.
abbrev two_left : Fifo ℕ
two_left = record { elements = λ i. if i == 2 then 7 else 8; head = 2; tail = 1; is_empty = false }

abbrev full_fifo : Fifo ℕ
full_fifo = record { elements = λ i. i; head = 2; tail = 2; is_empty = false }

two_left-IsFifo : IsFifo 3 two_left
two_left-IsFifo = record { head_in = omega arith; tail_in = omega arith; met = λ e. cc }

full_fifo-IsFifo : IsFifo 3 full_fifo
full_fifo-IsFifo = record { head_in = omega arith; tail_in = omega arith; met = λ e. cc }

full_fifo-full : full full_fifo ≡ true
unfolding full
full_fifo-full = refl

contents-enqueue_example :
    IsFifo 3 (enqueue 3 false 9 two_left)
    × (contents 3 (enqueue 3 false 9 two_left)
        ≡ (if full two_left then contents 3 two_left else contents 3 two_left ++ (9 ∷ [])))
contents-enqueue_example = contents-enqueue 3 two_left two_left-IsFifo 9

contents-dequeue_example :
    IsFifo 3 (dequeue 3 false two_left).0
    × (contents 3 two_left ≡ (dequeue 3 false two_left).1 ∷ contents 3 (dequeue 3 false two_left).0)
contents-dequeue_example = contents-dequeue 3 two_left two_left-IsFifo refl
