-- ===== src/SimpleList/Chain.antt =====
-- A `simple_list` as the list of its objects: `reset` and `find` against it.
use remame.Base.{
  ℕ, suc, ◌≡◌, ◌≢◌, ◌∙◌, ap, sym, refl, arith, ◌==◌, ne→==, ==_refl, if◌then◌else◌, List, [], ◌∷◌,
}
use mathlib.Core.Path.{subst}
use remame.Base.Lists.{length}
use remame.Base.Int.{pos, ◌-ℤ◌}
use remame.Base.Result.{ok}
use remame.SimpleList.{SimpleList, Objects, State, null, find_previous, detach, remove, reset}

-- The objects from `p` on, to the null pointer.
pub data Chain (next : ℕ → ℕ) : ℕ → List ℕ → Type 0 where
  ends : Chain next null []
  step : {p : ℕ} {xs : List ℕ} → p ≢ null → Chain next (next p) xs → Chain next p (p ∷ xs)

-- The objects freed one after the other, the last first.
unfoldable pub freed_all : List ℕ → List ℕ → List ℕ
freed_all [] before = before
freed_all (x ∷ xs) before = freed_all xs (x ∷ before)

Chain-ends : {next : ℕ → ℕ} (p : ℕ) → Chain next p [] → p ≡ null
Chain-ends p ends = refl

Chain-step :
    {next : ℕ → ℕ} (p x : ℕ) (xs : List ℕ)
    → Chain next p (x ∷ xs)
    → (p ≡ x) × (p ≢ null) × Chain next (next p) xs
Chain-step p x xs (step some_object c) = (refl, some_object, c)

-- The last object, or `d` if there is none.
unfoldable pub last_or : ℕ → List ℕ → ℕ
last_or d [] = d
last_or d (x ∷ xs) = last_or x xs

-- A list with these objects: the chain of the `m_next` fields, the tail and the count.
pub record IsListOf (h : Objects) (l : SimpleList) (xs : List ℕ) : Type 0 where
  pub chain : Chain h.next l.head xs
  pub is_tail : l.tail ≡ last_or null xs
  pub is_count : l.count ≡ pos (length xs)

-- Nothing follows the last object.
Chain-last :
    {next : ℕ → ℕ} (d : ℕ) (xs : List ℕ) → Chain next (next d) xs → next (last_or d xs) ≡ null
unfolding last_or
Chain-last d [] c = Chain-ends _ c
Chain-last {next} d (x ∷ xs) c =
    let (same, some_object, rest) = Chain-step _ x xs c in
    Chain-last x xs (subst (λ (q : ℕ). Chain next (next q) xs) same rest)

-- The head of a list after the object before it.
removed_list : Objects → SimpleList → SimpleList
removed_list h l = record {
  head = h.next l.head;
  tail = if l.tail == l.head then null else l.tail;
  count = l.count -ℤ pos 1;
}

remove_head :
    (h : Objects) (l : SimpleList)
    → l.head ≢ null
    → remove 1 l.head h l ≡ ok (record h { freed = l.head ∷ h.freed }, removed_list h l)
unfolding remove detach find_previous removed_list
remove_head h l some_head = rw (ne→== l.head null some_head, ==_refl l.head) refl

-- The tail is taken back with the last object only.
removed_tail :
    (h : Objects) (l : SimpleList) (x : ℕ) (xs : List ℕ)
    → l.head ≡ x
    → Chain h.next (h.next x) xs
    → l.tail ≡ last_or x xs
    → (if l.tail == l.head then null else l.tail) ≡ last_or null xs
unfolding last_or
removed_tail h l x [] same c e = ground (arith, same, e)
removed_tail h l x (y ∷ ys) same c e =
    let (next_one, some_object, rest) = Chain-step _ y ys c in
    let end : h.next (last_or y ys) ≡ null =
      Chain-last y ys (subst (λ (q : ℕ). Chain h.next (h.next q) ys) next_one rest) in
    let other : l.tail ≢ l.head = λ t. some_object (ap h.next (sym same ∙ sym t ∙ e) ∙ end) in
    rw (ne→== l.tail l.head other) e

removed-IsListOf :
    (h : Objects) (l : SimpleList) (x : ℕ) (xs : List ℕ)
    → IsListOf h l (x ∷ xs)
    → IsListOf (record h { freed = l.head ∷ h.freed }) (removed_list h l) xs
unfolding removed_list last_or ◌-ℤ◌
removed-IsListOf h l x xs w =
    let (same, some_head, rest) = Chain-step l.head x xs w.chain in
    record {
      chain = rest;
      is_tail =
          removed_tail h l x xs same (subst (λ (q : ℕ). Chain h.next (h.next q) xs) same rest)
            w.is_tail;
      is_count = ground (arith, w.is_count);
    }

-- On a list of some objects, its `m_next` fields leading from the head through them to the null
-- pointer, its tail the last of them and its count their number, the loop of `reset` ends
-- within one round more than there are objects: every object of the list is freed, in the order
-- of the list, and the list is empty, its head and tail null and its count 0.
pub reset-freed_all :
    (xs : List ℕ) (h : Objects) (l : SimpleList)
    → IsListOf h l xs
    → (s : State) × (reset (suc (length xs)) h l ≡ ok s)
      × (s.0.freed ≡ freed_all xs h.freed)
      × (s.1.head ≡ null)
      × (s.1.tail ≡ null)
      × (s.1.count ≡ pos 0)
unfolding reset freed_all last_or
reset-freed_all [] h l w =
    let no_head = Chain-ends l.head w.chain in
    ((h, l), rw no_head refl, refl, no_head, w.is_tail, w.is_count)
reset-freed_all (x ∷ xs) h l w =
    let (same, some_head, rest) = Chain-step l.head x xs w.chain in
    let (s, done, freed, emptied, no_tail, none_left) =
      reset-freed_all xs (record h { freed = l.head ∷ h.freed }) (removed_list h l)
        (removed-IsListOf h l x xs w) in
    (
      s,
      rw (ne→== l.head null some_head, remove_head h l some_head) done,
      freed ∙ ap (λ (p : ℕ). freed_all xs (p ∷ h.freed)) same,
      emptied,
      no_tail,
      none_left,
    )
