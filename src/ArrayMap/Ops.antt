-- ===== src/ArrayMap/Ops.antt =====
-- The operations of backend/runtime/PersistentArrayMap.c.
--
-- The two arrays list the `count` slots that are in use. Addresses and `sole` are those of
-- `Vector.Node`: an object that is allocated has the address 0.
use clojure_rt.Base.{
  ℕ, zero, suc, ◌-◌, Bool, true, false, Option, none, some, List, [], ◌∷◌, ◌++◌, length, set, init,
  leb, ltb, ◌==◌, if◌then◌else◌, add_word, Outcome, ok, throw, illegal_argument,
  unsupported_operation,
}
use Prim.Native.Nat.{bit_xor}
use clojure_rt.Value.{
  RtValue, box_nil, box_null, is_null, unbox_ptr, ObjectType, heap_type, get_type,
}
use clojure_rt.Vector.Node.{fresh, placed}

-- `HASHTABLE_THRESHOLD`
abbrev pub hashtable_threshold : ℕ
hashtable_threshold = 128

pub record ArrayMap : Type 0 where
  pub address : ℕ
  pub keys : List RtValue
  pub values : List RtValue
  pub metadata : RtValue

-- `self->count`
abbrev pub count : ArrayMap → ℕ
count m = length m.keys

-- `PersistentArrayMap_create`
unfoldable pub create : ArrayMap
create = record { address = fresh; keys = []; values = []; metadata = box_nil }

-- `PersistentArrayMap_copy`
unfoldable pub copy : ArrayMap → ArrayMap
copy other = record other { address = fresh }

-- `PersistentArrayMap_withMeta`
unfoldable pub with_meta : (sole : ℕ → Bool) → ArrayMap → RtValue → ArrayMap
unfolding copy
with_meta sole m meta =
    if sole m.address then record m { metadata = meta } else record (copy m) { metadata = meta }

abbrev pub too_large : Outcome ArrayMap
too_large = throw (unsupported_operation "Maps of size > 128 not supported yet")

-- The loop of `createMany` over its arguments, which come in pairs.
unfoldable pub fill : ArrayMap → List (RtValue × RtValue) → ArrayMap
fill m [] = m
fill m ((k, v) ∷ pairs) =
    fill (record m { keys = m.keys ++ (k ∷ []); values = m.values ++ (v ∷ []) }) pairs

-- `PersistentArrayMap_createMany`
unfoldable pub create_many : List (RtValue × RtValue) → Outcome ArrayMap
unfolding create fill
create_many pairs =
    if ltb hashtable_threshold (length pairs) then too_large else ok (fill create pairs)

abbrev pub next : Option ℕ → Option ℕ
next none = none
next (some i) = some (suc i)

-- `for (i = found; i < count - 1; i++) array[i] = array[i + 1]`, by the number of turns that are left.
unfoldable pub shift_down : ℕ → ℕ → List RtValue → List RtValue
shift_down zero i xs = xs
shift_down (suc turns) i [] = []
shift_down (suc turns) zero (x ∷ []) = x ∷ []
shift_down (suc turns) zero (x ∷ (y ∷ xs)) = y ∷ shift_down turns zero (y ∷ xs)
shift_down (suc turns) (suc i) (x ∷ xs) = x ∷ shift_down (suc turns) i xs

-- The two ends of `assoc`: the key is new, or it stands at an index.
unfoldable pub assoc_at :
    (reusable : Bool) → ArrayMap → RtValue → RtValue → Option ℕ → Outcome ArrayMap
assoc_at reusable m key value none =
    if leb hashtable_threshold (count m)
    then too_large
    else ok (record m {
      address = placed reusable m.address;
      keys = m.keys ++ (key ∷ []);
      values = m.values ++ (value ∷ []);
    })
assoc_at reusable m key value (some found) =
    ok (record m { address = placed reusable m.address; values = set m.values found value })

-- The two ends of `dissoc`.
unfoldable pub dissoc_at : (reusable : Bool) → ArrayMap → Option ℕ → ArrayMap
unfolding shift_down
dissoc_at reusable m none = m
dissoc_at reusable m (some found) = record m {
  address = placed reusable m.address;
  keys = init (shift_down (count m - 1 - found) found m.keys);
  values = init (shift_down (count m - 1 - found) found m.values);
}

-- `type == persistentArrayMapType`
abbrev pub is_array_map : ObjectType → Bool
is_array_map (heap_type n) = n == 18
is_array_map t = false

-- `equals` (Object.h) on two values.
module _ (equals : RtValue → RtValue → Bool) where
  -- The loop of `PersistentArrayMap_indexOf` over the keys; `none` is the -1 of the code.
  unfoldable pub index_in : List RtValue → RtValue → Option ℕ
  index_in [] key = none
  index_in (k ∷ ks) key = if equals key k then some 0 else next (index_in ks key)

  -- `PersistentArrayMap_indexOf`
  unfoldable pub index_of : ArrayMap → RtValue → Option ℕ
  unfolding index_in
  index_of m key = index_in m.keys key

  -- The loop of `PersistentArrayMap_get`, which leaves null where no key is equal.
  unfoldable pub get_in : List RtValue → List RtValue → RtValue → RtValue
  get_in [] vs key = box_null
  get_in (k ∷ ks) [] key = box_null
  get_in (k ∷ ks) (v ∷ vs) key = if equals key k then v else get_in ks vs key

  -- `PersistentArrayMap_get`
  unfoldable pub get : ArrayMap → RtValue → RtValue
  unfolding get_in
  get m key = let found = get_in m.keys m.values key in if is_null found then box_nil else found

  -- `PersistentArrayMap_dynamic_get`, where `heap` gives the type of an object and `object` the map there.
  unfoldable pub dynamic_get :
      (heap : ℕ → ObjectType) (object : ℕ → ArrayMap) → RtValue → RtValue → Outcome RtValue
  unfolding get
  dynamic_get heap object self key =
      if is_array_map (get_type heap self)
      then ok (get (object (unbox_ptr self)) key)
      else throw (illegal_argument "Argument must be a PersistentArrayMap")

  -- `PersistentArrayMap_assoc`
  unfoldable pub assoc : (sole : ℕ → Bool) → ArrayMap → RtValue → RtValue → Outcome ArrayMap
  unfolding index_of assoc_at
  assoc sole m key value = assoc_at (sole m.address) m key value (index_of m key)

  -- `PersistentArrayMap_dissoc`
  unfoldable pub dissoc : (sole : ℕ → Bool) → ArrayMap → RtValue → ArrayMap
  unfolding index_of dissoc_at
  dissoc sole m key = dissoc_at (sole m.address) m (index_of m key)

  -- The loop of `PersistentArrayMap_equals` over the entries of `self`.
  unfoldable pub entries_equal : List RtValue → List RtValue → ArrayMap → Bool
  unfolding get
  entries_equal [] vs other = true
  entries_equal (k ∷ ks) [] other = true
  entries_equal (k ∷ ks) (v ∷ vs) other =
      if equals (get other k) v then entries_equal ks vs other else false

  -- `PersistentArrayMap_equals`
  unfoldable pub array_map_equals : ArrayMap → ArrayMap → Bool
  unfolding entries_equal
  array_map_equals m other =
      if count m == count other then entries_equal m.keys m.values other else false

-- `PersistentArrayMap_hash`, with `hash` (Object.h) of a value.
module _ (hash : RtValue → ℕ) where
  unfoldable pub hash_entries : List RtValue → List RtValue → ℕ → ℕ
  hash_entries [] vs h = h
  hash_entries (k ∷ ks) [] h = h
  hash_entries (k ∷ ks) (v ∷ vs) h = hash_entries ks vs (add_word h (bit_xor (hash k) (hash v)))

  unfoldable pub array_map_hash : ArrayMap → ℕ
  unfolding hash_entries
  array_map_hash m = hash_entries m.keys m.values 5381
