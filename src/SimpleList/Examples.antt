-- ===== src/SimpleList/Examples.antt =====
-- The theorems on `simple_list` at a list of two objects.
use remame.Base.{ℕ, suc, List, ◌≡◌, refl, arith, [], ◌∷◌, ◌==◌, if◌then◌else◌}
use remame.Base.Lists.{length}
use remame.Base.Int.{pos}
use remame.Base.Result.{ok}
use remame.SimpleList.{SimpleList, Objects, State, null, reset}
use remame.SimpleList.Chain.{Chain, ends, step, freed_all, last_or, IsListOf, reset-freed_all}

abbrev two_objects : Objects
two_objects = record { next = λ p. if p == 5 then 8 else null; freed = [] }

abbrev two_list : SimpleList
two_list = record { head = 5; tail = 8; count = pos 2 }

abbrev two_addresses : List ℕ
two_addresses = 5 ∷ 8 ∷ []

two_list-Chain : Chain two_objects.next 5 two_addresses
two_list-Chain = step (omega arith) (step (omega arith) ends)

two_list-IsListOf : IsListOf two_objects two_list two_addresses
unfolding last_or
two_list-IsListOf = record { chain = two_list-Chain; is_tail = refl; is_count = refl }

reset-freed_all_example :
    (s : State) × (reset (suc (length two_addresses)) two_objects two_list ≡ ok s)
    × (s.0.freed ≡ freed_all two_addresses [])
    × (s.1.head ≡ null)
    × (s.1.tail ≡ null)
    × (s.1.count ≡ pos 0)
reset-freed_all_example = reset-freed_all two_addresses two_objects two_list two_list-IsListOf
