-- ===== src/PersistentList/Ops.antt =====
-- The operations of backend/runtime/PersistentList.c on a store of cells.
--
-- The address of a cell is its index in the store, and an allocation takes the next one. Cells are
-- not freed; `sole` answers for `Ptr_isReusable`. `empty` is the address in EMPTY_LIST. A loop that
-- follows the `rest` pointers runs on fuel, and is `undefined` where the fuel ends, as it is where a
-- pointer leads out of the store.
use clojure_rt.Base.{
  ℕ, zero, suc, ◌+◌, ◌^◌, Bool, true, false, Option, none, some, List, [], ◌∷◌, ◌++◌, length, set,
  get_elem?, if◌then◌else◌, ◌==◌, not, ◌&&◌, ◌||◌, add_word, ℤ, pos, negsuc, to_int32, ltb, Outcome,
  ok, undefined, ◌>>=◌, unchecked,
}
use clojure_rt.Value.{RtValue, box_nil, box_null, is_null}
use clojure_rt.Functions.Ops.{Method, Function, method_for}

pub record Cell : Type 0 where
  pub first : RtValue
  pub rest : Option ℕ
  pub count : ℤ
  pub metadata : RtValue

abbrev pub Store : Type 0
Store = List Cell

-- A pointer that is followed.
abbrev pub cell : Store → ℕ → Outcome Cell
cell s a = unchecked (get_elem? s a)

-- `rest ? rest->count : 0`
abbrev pub rest_count : Store → Option ℕ → Outcome ℤ
rest_count s none = ok (pos 0)
rest_count s (some a) = do c ← cell s a; ok c.count

-- One more, on an `int32_t`; beyond the largest it is undefined.
abbrev pub add_one : ℤ → Outcome ℤ
add_one (pos n) = if ltb (n + 1) (2 ^ 31) then ok (pos (n + 1)) else undefined
add_one (negsuc zero) = ok (pos 0)
add_one (negsuc (suc n)) = ok (negsuc n)

abbrev pub same_int : ℤ → ℤ → Bool
same_int (pos m) (pos n) = m == n
same_int (negsuc m) (negsuc n) = m == n
same_int (pos m) (negsuc n) = false
same_int (negsuc m) (pos n) = false

-- `PersistentList_create`
unfoldable pub create : Store → RtValue → Option ℕ → Outcome (Store × ℕ)
create s first rest = do
  n ← rest_count s rest
  count ← (if is_null first then ok n else add_one n)
  let new : Cell = record { first = first; rest = rest; count = count; metadata = box_nil }
  ok (s ++ (new ∷ []), length s)

-- `PersistentList_initialise`, where there is no empty list yet.
unfoldable pub initialise : Store → Outcome (Store × ℕ)
unfolding create
initialise s = create s box_null none

-- `PersistentList_conj`
unfoldable pub conj : Store → ℕ → RtValue → Outcome (Store × ℕ)
unfolding create
conj s self other = create s other (some self)

-- `PersistentList_count`
unfoldable pub count_of : Store → ℕ → Outcome ℤ
count_of s self = do c ← cell s self; ok c.count

-- `PersistentList_first`
unfoldable pub first_of : Store → ℕ → Outcome RtValue
first_of s self = do c ← cell s self; ok c.first

-- `PersistentList_next`: the address that is boxed, or `none` for nil.
unfoldable pub next : Store → ℕ → Outcome (Option ℕ)
next s self = do c ← cell s self; ok c.rest

-- `PersistentList_pop`
unfoldable pub pop : (empty : ℕ) → Store → ℕ → Outcome ℕ
pop empty s self = do c ← cell s self; ok (elim c.rest [ none ↦ empty | some next ↦ next ])

-- `PersistentList_withMeta`
unfoldable pub with_meta : (sole : ℕ → Bool) → Store → ℕ → RtValue → Outcome (Store × ℕ)
with_meta sole s self meta = do
  c ← cell s self
  (if sole self
      then ok (set s self (record c { metadata = meta }), self)
      else ok (s ++ (record c { metadata = meta } ∷ []), length s))

-- `PersistentList_fromArray`: from the last argument to the first.
unfoldable pub from_array : (empty : ℕ) → Store → List RtValue → Outcome (Store × ℕ)
unfolding conj
from_array empty s [] = ok (s, empty)
from_array empty s (x ∷ xs) = do (s', a) ← from_array empty s xs; conj s' a x

-- The first loop of `reverse`: it turns the pointers round, and ends at the last cell.
unfoldable pub turn_round :
    (fuel : ℕ) → Store → (prev current : Option ℕ) → Outcome (Store × Option ℕ)
turn_round zero s prev current = undefined
turn_round (suc fuel) s prev none = ok (s, prev)
turn_round (suc fuel) s prev (some a) = do
  c ← cell s a
  turn_round fuel (set s a (record c { rest = prev })) (some a) c.rest

-- The second loop of `reverse`, which numbers the cells.
unfoldable pub number : (fuel : ℕ) → Store → Option ℕ → ℕ → Outcome Store
number zero s temp running_count = undefined
number (suc fuel) s none running_count = ok s
number (suc fuel) s (some a) running_count = do
  c ← cell s a
  number fuel (set s a (record c { count = to_int32 running_count })) c.rest
      (add_word running_count 1)

-- `reverse`; a chain without a cycle has no more cells than the store.
unfoldable pub reverse : Store → ℕ → Outcome (Store × Option ℕ)
unfolding turn_round number
reverse s self = do
  (s', prev) ← turn_round (suc (length s)) s none (some self)
  s'' ← number (suc (length s)) s' prev 0
  ok (s'', prev)

-- The loop of `createMany` over its arguments.
unfoldable pub conj_arguments : Store → ℕ → List RtValue → Outcome (Store × ℕ)
unfolding conj
conj_arguments s a [] = ok (s, a)
conj_arguments s a (x ∷ xs) = do (s', b) ← conj s a x; conj_arguments s' b xs

-- `PersistentList_createMany`
unfoldable pub create_many : (empty : ℕ) → Store → List RtValue → Outcome (Store × Option ℕ)
unfolding conj_arguments reverse
create_many empty s xs = do (s', a) ← conj_arguments s empty xs; reverse s' a

-- The loop of `PersistentList_reduce`, with the call of the function as `invoke`.
module _ {A : Type 0} (invoke : A → RtValue → Outcome A) where
  unfoldable pub reduce_from : (fuel : ℕ) → Store → Option ℕ → A → Outcome A
  reduce_from zero s current acc = undefined
  reduce_from (suc fuel) s none acc = ok acc
  reduce_from (suc fuel) s (some a) acc = do
    c ← cell s a
    if is_null c.first then ok acc else (invoke acc c.first >>= reduce_from fuel s c.rest)

-- `PersistentList_reduce`, with the function that a value is, if it is one, and the call of a method of it.
module _ {A : Type 0} (function_at : RtValue → Option Function)
    (invoke : RtValue → Method → A → RtValue → Outcome A) where
  unfoldable pub reduce : Store → ℕ → RtValue → A → Outcome A
  reduce s self f start = do
    method ← method_for (function_at f) 2
    reduce_from (invoke f method) (suc (length s)) s (some self) start

-- The loop of `PersistentList_equals`, with `equals` (Object.h) of two values.
module _ (equals : RtValue → RtValue → Bool) where
  unfoldable pub cells_equal : (fuel : ℕ) → Store → (self other : Option ℕ) → Outcome Bool
  cells_equal zero s self other = undefined
  cells_equal (suc fuel) s none other = ok true
  cells_equal (suc fuel) s (some a) none = undefined
  cells_equal (suc fuel) s (some a) (some b) = do
    c ← cell s a
    d ← cell s b
    (if (c.first == d.first) || (not (c.first == 0) && not (d.first == 0) && equals c.first d.first)
        then cells_equal fuel s c.rest d.rest
        else ok false)

  -- `PersistentList_equals`
  unfoldable pub list_equals : Store → ℕ → ℕ → Outcome Bool
  unfolding cells_equal
  list_equals s self other = do
    c ← cell s self
    d ← cell s other
    (if same_int c.count d.count
        then cells_equal (suc (length s)) s (some self) (some other)
        else ok false)
