-- ===== src/SimpleList.antt =====
-- `simple_list` and `fixed_allocator` of source/core/coretmpl.h. An object is its address, above 0 for
-- `nullptr`; the `m_next` fields of all objects are a function, which lists share. Loops over a
-- list take fuel, and what is freed is kept in `freed`, the last first.
mod Chain
mod Examples
use remame.Base.{ℕ, zero, suc, ◌+◌, ◌-◌, Bool, true, false, not, ◌==◌, if◌then◌else◌, List, [], ◌∷◌}
use remame.Base.Int.{ℤ, pos, negsuc, ◌+ℤ◌, ◌-ℤ◌, eqb_ℤ}
use remame.Base.Result.{Result, ok, out_of_fuel, ◌>>=◌}

abbrev pub null : ℕ
null = 0

pub record SimpleList : Type 0 where
  pub head : ℕ
  pub tail : ℕ
  pub count : ℤ

-- The `m_next` fields and the freed objects.
pub record Objects : Type 0 where
  pub next : ℕ → ℕ
  pub freed : List ℕ

abbrev pub State : Type 0
State = Objects × SimpleList

abbrev pub new_list : SimpleList
new_list = record { head = null; tail = null; count = pos 0 }

-- `object.m_next = to`.
unfoldable pub link : ℕ → ℕ → Objects → Objects
link object to h = record h { next = λ p. if p == object then to else h.next p }

unfoldable pub prepend : ℕ → Objects → SimpleList → State
prepend object h l = (
  link object l.head h,
  record {
    head = object;
    tail = if l.tail == null then object else l.tail;
    count = l.count +ℤ pos 1;
  },
)

unfoldable pub append : ℕ → Objects → SimpleList → State
append object h l =
    let ended = link object null h in
    if not (l.tail == null)
    then (link l.tail object ended, record l { tail = object; count = l.count +ℤ pos 1 })
    else (ended, record { head = object; tail = object; count = l.count +ℤ pos 1 })

-- The list that is moved is empty afterwards; it comes last.
unfoldable pub prepend_list : SimpleList → Objects → SimpleList → State × SimpleList
prepend_list list h l = if eqb_ℤ list.count (pos 0) then ((h, l), list) else (
  (
    link list.tail l.head h,
    record {
      head = list.head;
      tail = if l.tail == null then list.tail else l.tail;
      count = l.count +ℤ list.count;
    },
  ),
  new_list,
)

unfoldable pub append_list : SimpleList → Objects → SimpleList → State × SimpleList
append_list list h l = if eqb_ℤ list.count (pos 0) then ((h, l), list) else (
  if not (l.tail == null)
      then (link l.tail list.head h, record l { tail = list.tail; count = l.count +ℤ list.count })
      else (h, record { head = list.head; tail = list.tail; count = l.count +ℤ list.count }),
  new_list,
)

unfoldable pub insert_after : ℕ → ℕ → Objects → SimpleList → State
insert_after object after h l = if after == null then prepend object h l else (
  link after object (link object (h.next after) h),
  record l { tail = if l.tail == after then object else l.tail; count = l.count +ℤ pos 1 },
)

-- The object before `target`, from `cur` on, with `prev` before that; none, if the list ends.
unfoldable pub find_previous : ℕ → ℕ → ℕ → ℕ → Objects → Result (Bool × ℕ)
find_previous zero target prev cur h = out_of_fuel
find_previous (suc fuel) target prev cur h =
    let rest = find_previous fuel target cur (h.next cur) h in
    if cur == null then ok (false, null) else if cur == target then ok (true, prev) else rest

unfoldable pub insert_before : ℕ → ℕ → ℕ → Objects → SimpleList → Result State
insert_before fuel object before h l = if before == null then ok (append object h l) else (do
  (found, prev) ← find_previous fuel before null l.head h
  let linked = link object before h
  let counted = record l { count = l.count +ℤ pos 1 }
  if not found
      then ok (h, l)
      else if prev == null
      then ok (linked, record counted { head = object })
      else ok (link prev object linked, counted))

unfoldable pub replace_and_remove : ℕ → ℕ → ℕ → Objects → SimpleList → Result State
replace_and_remove fuel object toreplace h l = do
  (found, prev) ← find_previous fuel toreplace null l.head h
  let placed = if prev == null then h else link prev object h
  let linked = link object (placed.next toreplace) placed
  if not found
      then ok (append object h l)
      else ok (
        record linked { freed = toreplace ∷ linked.freed },
        record l {
          head = if prev == null then object else l.head;
          tail = if l.tail == toreplace then object else l.tail;
        },
      )

-- The object, `nullptr` on an empty list, comes last.
unfoldable pub detach_head : Objects → SimpleList → SimpleList × ℕ
detach_head h l =
    if l.head == null
    then (l, null)
    else (let rest = h.next l.head in
        (
          record {
            head = rest;
            tail = if rest == null then null else l.tail;
            count = l.count -ℤ pos 1;
          },
          l.head,
        ))

unfoldable pub detach : ℕ → ℕ → Objects → SimpleList → Result State
detach fuel object h l = do
  (found, prev) ← find_previous fuel object null l.head h
  if not found
      then ok (h, l)
      else ok (
        if prev == null then h else link prev (h.next object) h,
        record {
          head = if prev == null then h.next object else l.head;
          tail = if l.tail == object then prev else l.tail;
          count = l.count -ℤ pos 1;
        },
      )

unfoldable pub detach_all : SimpleList → SimpleList × ℕ
detach_all l = (new_list, l.head)

unfoldable pub remove : ℕ → ℕ → Objects → SimpleList → Result State
remove fuel object h l = do
  (h', l') ← detach fuel object h l
  ok (record h' { freed = object ∷ h'.freed }, l')

-- The loop of `reset` on fuel.
unfoldable pub reset : ℕ → Objects → SimpleList → Result State
reset zero h l = out_of_fuel
reset (suc fuel) h l =
    if l.head == null then ok (h, l) else (remove 1 l.head h l >>= λ s. reset fuel s.0 s.1)

unfoldable pub find_from : ℕ → ℤ → ℕ → Objects → Result ℕ
find_from zero index cur h = out_of_fuel
find_from (suc fuel) index cur h =
    let rest = find_from fuel (index -ℤ pos 1) (h.next cur) h in
    if cur == null then ok null else if eqb_ℤ index (pos 0) then ok cur else rest

unfoldable pub find : ℕ → ℤ → Objects → SimpleList → Result ℕ
find fuel index h l = find_from fuel index l.head h

unfoldable pub indexof_from : ℕ → ℕ → ℕ → ℕ → Objects → Result ℤ
indexof_from zero object index cur h = out_of_fuel
indexof_from (suc fuel) object index cur h =
    let rest = indexof_from fuel object (index + 1) (h.next cur) h in
    if cur == null then ok (negsuc 0) else if cur == object then ok (pos index) else rest

unfoldable pub indexof : ℕ → ℕ → Objects → SimpleList → Result ℤ
indexof fuel object h l = indexof_from fuel object 0 l.head h

-- `fixed_allocator`: an object from the free list, or else the new one.
unfoldable pub alloc : ℕ → Objects → SimpleList → SimpleList × ℕ
alloc fresh h freelist =
    let (rest, result) = detach_head h freelist in
    if result == null then (rest, fresh) else (rest, result)

unfoldable pub reclaim : ℕ → Objects → SimpleList → State
reclaim item h freelist = if item == null then (h, freelist) else append item h freelist

unfoldable pub reclaim_all : SimpleList → Objects → SimpleList → State × SimpleList
reclaim_all list h freelist = append_list list h freelist
