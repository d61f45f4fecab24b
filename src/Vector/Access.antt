-- ===== src/Vector/Access.antt =====
-- The reads of backend/runtime/PersistentVector.c that are made of `nth`, with keys that are RTValues.
use clojure_rt.Base.{
  ℕ, ◌-◌, Bool, false, ◌&&◌, not, Option, none, some, ltb, leb, ◌==◌, if◌then◌else◌, Outcome, ok,
  throw, ◌>>=◌, unchecked, illegal_argument, ℤ, is_negative, to_word,
}
use clojure_rt.Value.{RtValue, box_nil, is_int32, unbox_int32}
use clojure_rt.Vector.Node.{Node, leaf}
use clojure_rt.Vector.Walk.{find_leaf}
use clojure_rt.Vector.Ops.{Vector, tail_offset, read_at, nth, assoc}

-- `PersistentVector_nth_default`
unfoldable pub nth_default : Vector → ℕ → RtValue → Outcome RtValue
nth_default v index not_found = if leb v.count index then ok not_found else read_at v index

-- `PersistentVector_nthBlock`: the tail, the leaf that the descent finds, or NULL.
unfoldable pub nth_block : Vector → ℕ → Outcome (Option Node)
nth_block v index =
    if leb v.count index
    then ok none
    else if leb (tail_offset v) index
    then ok (some (leaf v.tail))
    else (do
      root ← unchecked v.root
      node ← unchecked (find_leaf root v.shift index)
      ok (some node))

-- `idx >= 0 && (uword_t)idx < self->count`
abbrev pub index_within : Vector → ℤ → Bool
index_within v idx = not (is_negative idx) && ltb (to_word idx) v.count

-- `PersistentVector_valAt`
unfoldable pub val_at : Vector → RtValue → Outcome RtValue
val_at v key =
    if is_int32 key && index_within v (unbox_int32 key)
    then nth v (to_word (unbox_int32 key))
    else ok box_nil

-- `PersistentVector_valAt_default`
unfoldable pub val_at_default : Vector → RtValue → RtValue → Outcome RtValue
val_at_default v key not_found =
    if is_int32 key && index_within v (unbox_int32 key)
    then nth v (to_word (unbox_int32 key))
    else ok not_found

-- `PersistentVector_containsKey`
unfoldable pub contains_key : Vector → RtValue → Bool
contains_key v key = if is_int32 key then index_within v (unbox_int32 key) else false

-- `PersistentVector_entryAt`: the key and the value, in the place of nil if there is no entry.
unfoldable pub entry_at : Vector → RtValue → Outcome (Option (RtValue × RtValue))
entry_at v key =
    if is_int32 key && index_within v (unbox_int32 key)
    then (do val ← nth v (to_word (unbox_int32 key)); ok (some (key, val)))
    else ok none

-- `PersistentVector_assoc_dynamic`; the cast of the index to a word extends its sign.
unfoldable pub assoc_dynamic : (sole : ℕ → Bool) → Vector → RtValue → RtValue → Outcome Vector
assoc_dynamic sole v key val =
    if is_int32 key
    then assoc sole v (to_word (unbox_int32 key)) val
    else throw (illegal_argument "Vector key must be an integer")

-- `PersistentVector_dynamic_nth`
unfoldable pub dynamic_nth : Vector → RtValue → Outcome RtValue
dynamic_nth v index_object =
    if is_int32 index_object
    then nth v (to_word (unbox_int32 index_object))
    else throw (illegal_argument "Index must be an integer")

-- `PersistentVector_peek`
unfoldable pub peek : Vector → Outcome RtValue
peek v = if v.count == 0 then ok box_nil else nth v (v.count - 1)
