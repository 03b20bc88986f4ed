-- ===== src/Fifo/Contents.antt =====
-- A `util::fifo` as the list of its elements, oldest first.
use remame.Base.{
  ℕ, zero, suc, ◌+◌, ◌-◌, ◌<◌, ◌≤◌, ◌≡◌, ◌≢◌, refl, ap, ◌∙◌, sym, arith, inl, inr, true, false, not,
  ltb, ◌==◌, ◌||◌, if◌then◌else◌, Bool-cases, ==_iff, List, [], ◌∷◌, ◌++◌,
}
use remame.Fifo.{Fifo, advance, full, put, enqueue, dequeue}

pub record IsFifo {A : Type 0} (n : ℕ) (q : Fifo A) : Type 0 where
  pub head_in : q.head < n
  pub tail_in : q.tail < n
  pub met : q.is_empty ≡ true → q.head ≡ q.tail

-- The place `k` steps on from `p`.
unfoldable pub at : ℕ → ℕ → ℕ → ℕ
at n p k = if ltb (p + k) n then p + k else p + k - n

-- The `k` elements from `p` on.
unfoldable pub segment : {A : Type 0} → ℕ → ℕ → ℕ → (ℕ → A) → List A
segment n zero p m = []
segment n (suc k) p m = segment n k p m ++ (m (at n p k) ∷ [])

-- The number of elements.
unfoldable pub count : {A : Type 0} → ℕ → Fifo A → ℕ
count n q =
    if q.is_empty then 0 else if ltb q.head q.tail then q.tail - q.head else n + q.tail - q.head

unfoldable pub contents : {A : Type 0} → ℕ → Fifo A → List A
contents n q = segment n (count n q) q.head q.elements

at-advance : (n p k : ℕ) → p < n → suc k < n + 1 → at n p (suc k) ≡ at n (advance n p) k
unfolding at advance
at-advance n p k hp hk = ground arith

at_zero : (n p : ℕ) → p < n → at n p 0 ≡ p
unfolding at
at_zero n p hp = ground arith

segment-advance :
    {A : Type 0} (n k p : ℕ) (m : ℕ → A)
    → p < n
    → k < n
    → segment n (suc k) p m ≡ m p ∷ segment n k (advance n p) m
unfolding segment
segment-advance n zero p m hp hk = ap (λ (x : ℕ). m x ∷ []) (at_zero n p hp)
segment-advance n (suc k) p m hp hk =
    ap (λ (xs : List _). xs ++ (m (at n p (suc k)) ∷ [])) (segment-advance n k p m hp (omega arith))
    ∙ ap (λ (x : ℕ). m p ∷ (segment n k (advance n p) m ++ (m x ∷ [])))
        (at-advance n p k hp (omega arith))

put_same : {A : Type 0} (p : ℕ) (v : A) (m : ℕ → A) → put p v m p ≡ v
unfolding put
put_same p v m = ground arith

put_other : {A : Type 0} (p : ℕ) (v : A) (m : ℕ → A) (i : ℕ) → i ≢ p → put p v m i ≡ m i
unfolding put
put_other p v m i apart = ground arith

at_apart : (n p k j : ℕ) → p < n → j < k → k < n → at n p j ≢ at n p k
unfolding at
at_apart n p k j hp hj hk = ground arith

-- What is written past the segment does not change it.
segment-put :
    {A : Type 0} (n k l p : ℕ) (v : A) (m : ℕ → A)
    → p < n
    → k ≤ l
    → l < n
    → segment n k p (put (at n p l) v m) ≡ segment n k p m
unfolding segment
segment-put n zero l p v m hp hk hl = refl
segment-put n (suc k) l p v m hp hk hl =
    rw
      (
        segment-put n k l p v m hp (omega arith) hl,
        put_other (at n p l) v m (at n p k) (at_apart n p l k hp hk hl),
      )
      refl

segment-snoc :
    {A : Type 0} (n k p : ℕ) (v : A) (m : ℕ → A)
    → p < n
    → k < n
    → segment n (suc k) p (put (at n p k) v m) ≡ segment n k p m ++ (v ∷ [])
unfolding segment
segment-snoc n k p v m hp hk =
    rw (segment-put n k k p v m hp (omega arith) hk, put_same (at n p k) v m) refl

advance_lt : (n p : ℕ) → p < n → advance n p < n
unfolding advance
advance_lt n p h = ground arith

module _ {A : Type 0} (n : ℕ) (q : Fifo A) (s : IsFifo n q) where
  count_le : count n q ≤ n
  unfolding count
  count_le = ground (arith, s.head_in, s.tail_in)

  tail_at : full q ≡ false → (count n q < n) × (at n q.head (count n q) ≡ q.tail)
  unfolding count full at
  tail_at room = ground (arith, s.head_in, s.tail_in, s.met)

  -- What `enqueue` leaves when there is room.
  abbrev enqueued : A → Fifo A
  enqueued v = record q {
    elements = put q.tail v q.elements;
    tail = advance n q.tail;
    is_empty = false;
  }

  count-enqueued : (v : A) → full q ≡ false → count n (enqueued v) ≡ suc (count n q)
  unfolding count full advance
  count-enqueued v room = ground (arith, s.head_in, s.tail_in, s.met)

  enqueued-IsFifo : (v : A) → IsFifo n (enqueued v)
  enqueued-IsFifo v = record {
    head_in = s.head_in;
    tail_in = advance_lt n q.tail s.tail_in;
    met = λ e. cc;
  }

  enqueue_guard : (q.is_empty || not (q.head == q.tail)) ≡ not (full q)
  unfolding full
  enqueue_guard = ground arith

  -- On a fifo in order that does not wrap on writes, `enqueue` puts the element behind the
  -- others if the fifo is not full, and keeps the contents if it is; the fifo is in order
  -- again.
  pub contents-enqueue :
      (v : A)
      → IsFifo n (enqueue n false v q)
        × (contents n (enqueue n false v q)
            ≡ (if full q then contents n q else contents n q ++ (v ∷ [])))
  unfolding contents enqueue
  contents-enqueue v = elim (Bool-cases (full q)) [
    | inl e ↦ rw (enqueue_guard, e) (s, refl)
    | inr e ↦
        let (fits, place) = tail_at e in
        rw (enqueue_guard, e)
          (
            enqueued-IsFifo v,
            ap (λ (i : ℕ). segment n (count n (enqueued v)) q.head (put i v q.elements)) (sym place)
                ∙ ap (λ (k : ℕ). segment n k q.head (put (at n q.head (count n q)) v q.elements))
                    (count-enqueued v e)
                ∙ segment-snoc n (count n q) q.head v q.elements s.head_in fits,
          )
  ]

  -- What `dequeue` leaves when there is an element.
  abbrev dequeued : Fifo A
  dequeued = record q { head = advance n q.head; is_empty = advance n q.head == q.tail }

  count-dequeued : q.is_empty ≡ false → count n q ≡ suc (count n dequeued)
  unfolding count advance
  count-dequeued some_left = ground (arith, s.head_in, s.tail_in)

  -- On a fifo in order that does not wrap on reads and is not empty, `dequeue` reads the oldest
  -- element and leaves the others in their order; the fifo is in order again.
  pub contents-dequeue :
      q.is_empty ≡ false
      → IsFifo n (dequeue n false q).0
        × (contents n q ≡ (dequeue n false q).1 ∷ contents n (dequeue n false q).0)
  unfolding contents dequeue
  contents-dequeue some_left =
      let size = count-dequeued some_left in
      rw (ap not some_left) (
        record {
          head_in = advance_lt n q.head s.head_in;
          tail_in = s.tail_in;
          met = λ e. (==_iff _ _).0 e;
        },
        ap (λ (k : ℕ). segment n k q.head q.elements) size
            ∙ segment-advance n (count n dequeued) q.head q.elements s.head_in
                (omega (arith, size, count_le)),
      )

  overwritten : Fifo A → A → Fifo A
  overwritten r v = record r {
    elements = put r.tail v r.elements;
    tail = advance n r.tail;
    is_empty = false;
  }

  count-overwritten : (v : A) → full q ≡ true → count n (overwritten q v) ≡ 1
  unfolding count full advance overwritten
  count-overwritten v e = ground (arith, s.head_in, s.tail_in)

  -- On a full fifo in order that wraps on writes, `enqueue` leaves the new element alone in the
  -- fifo: the head stays where it is, and all the others are lost.
  pub contents-enqueue-full : (v : A) → full q ≡ true → contents n (enqueue n true v q) ≡ v ∷ []
  unfolding contents enqueue full segment overwritten
  contents-enqueue-full v e =
      ap (λ (k : ℕ). segment n k q.head (put q.tail v q.elements)) (count-overwritten v e)
      ∙ ap (λ x. x ∷ [])
          (ap (put q.tail v q.elements) (at_zero n q.head s.head_in ∙ ground arith)
            ∙ put_same q.tail v q.elements)
