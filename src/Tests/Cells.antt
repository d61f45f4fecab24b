-- ===== src/Tests/Cells.antt =====
-- Lists in a store that has the empty list at the address 0.
use clojure_rt.Base.{ℕ, ◌+◌, ◌≡◌, refl, false, none, some, [], ◌∷◌, arith, pos, Outcome, ok}
use clojure_rt.Value.{RtValue, box_nil, box_null, is_null}
use clojure_rt.PersistentList.Ops.{Store, count_of, first_of, next, from_array, create_many}
use clojure_rt.PersistentList.Holds.{Holds, end, link, Extends, from_array-Extends}
use clojure_rt.PersistentList.Reverse.{create_many-returns_empty}

abbrev empty_store : Store
empty_store = record { first = box_null; rest = none; count = pos 0; metadata = box_nil } ∷ []

empty_store-Holds : Holds empty_store 0 0 []
empty_store-Holds = end box_nil refl

real_five : is_null 5 ≡ false
unfolding is_null
real_five = refl

real_six : is_null 6 ≡ false
unfolding is_null
real_six = refl

-- (5)
abbrev one_element : Store
one_element =
    record { first = box_null; rest = none; count = pos 0; metadata = box_nil }
    ∷ (record { first = 5; rest = some 0; count = pos 1; metadata = box_nil } ∷ [])

one_element-Holds : Holds one_element 0 1 (5 ∷ [])
one_element-Holds = link 1 0 5 [] box_nil refl real_five (omega arith) (end box_nil refl)

from_array-Extends_example :
    Extends empty_store 0 (from_array 0 empty_store (5 ∷ (6 ∷ []))) (5 ∷ (6 ∷ []))
from_array-Extends_example =
    from_array-Extends (5 ∷ (6 ∷ [])) empty_store-Holds (real_five, (real_six, tt)) (omega arith)

abbrev add_to : ℕ → RtValue → Outcome ℕ
add_to acc x = ok (acc + x)

create_many-returns_empty_example :
    (s' : Store) × (create_many 0 empty_store (5 ∷ (6 ∷ [])) ≡ ok (s', some 0))
    × (count_of s' 0 ≡ ok (pos 0))
    × (first_of s' 0 ≡ ok box_null)
    × ((b : ℕ) × (next s' 0 ≡ ok (some b)))
create_many-returns_empty_example =
    create_many-returns_empty (5 ∷ (6 ∷ [])) empty_store-Holds (real_five, (real_six, tt))
      (omega arith) (omega arith)
