-- ===== src/Vector/Keys.antt =====
-- Reads by key against the list of elements (backend/runtime/PersistentVector.c).
use clojure_rt.Base.{
  ℕ, ◌-◌, ◌<◌, ◌^◌, ◌≡◌, refl, ◌∙◌, Bool, true, false, Option, none, some, List, get_elem?,
  get_elem?-lt, get_elem?-ge, ok, throw, index_out_of_bounds, ltb, leb, ◌==◌, if◌then◌else◌, ℤ, pos,
  negsuc, to_word, word_mod, arith, Bool-cases, inl, inr, IsInt32,
}
use mathlib.Core.Path.{subst}
use clojure_rt.Value.Boxing.{unbox_int32-IsInt32}
use clojure_rt.Value.{RtValue, box_nil, is_int32, unbox_int32}
use clojure_rt.Vector.Ops.{Vector, nth, assoc}
use clojure_rt.Vector.Access.{
  nth_default, val_at, val_at_default, contains_key, assoc_dynamic, dynamic_nth, peek, index_within,
}
use clojure_rt.Vector.Refine.{nth-checked, read_at-get_elem?}
use clojure_rt.Vector.Valid.{elements, IsValid}

-- The element of a list at an integer, and at a key, which must be a boxed integer.
abbrev pub at_int : List RtValue → ℤ → Option RtValue
at_int xs (pos n) = get_elem? xs n
at_int xs (negsuc n) = none

abbrev pub at_key : List RtValue → RtValue → Option RtValue
at_key xs key = if is_int32 key then at_int xs (unbox_int32 key) else none

abbrev pub value_or : Option RtValue → RtValue → RtValue
value_or none d = d
value_or (some x) d = x

abbrev pub is_found : Option RtValue → Bool
is_found none = false
is_found (some x) = true

index_within-is_found :
    {v : Vector} (i : ℤ) → IsValid v → index_within v i ≡ is_found (at_int (elements v) i)
index_within-is_found {v} (pos n) valid = elim (Bool-cases (ltb n v.count)) [
  | inl e ↦
      let (x, found) = get_elem?-lt (elements v) n (ground (arith, valid.counted)) in rw (e, found)
  | inr e ↦ rw (e, get_elem?-ge (elements v) n (ground (arith, valid.counted)))
]
index_within-is_found (negsuc n) valid = refl

-- The checked read of `valAt` and `valAt_default`.
read_or :
    {v : Vector} (i : ℤ) (d : RtValue)
    → IsValid v
    → (if index_within v i then nth v (to_word i) else ok d)
      ≡ ok (value_or (at_int (elements v) i) d)
read_or {v} (pos n) d valid = elim (Bool-cases (ltb n v.count)) [
  | inl e ↦
      let (x, found) = get_elem?-lt (elements v) n (ground (arith, valid.counted)) in
      rw (e, found) (nth-checked n valid ∙ rw found)
  | inr e ↦ rw (e, get_elem?-ge (elements v) n (ground (arith, valid.counted)))
]
read_or (negsuc n) d valid = refl

-- For a valid vector and any key, `valAt` returns the element that the key names or nil,
-- `valAt_default` the element or the default, and `containsKey` says whether there is an element.
pub val_at-at_key :
    {v : Vector} (key default : RtValue)
    → IsValid v
    → (val_at v key ≡ ok (value_or (at_key (elements v) key) box_nil))
      × (val_at_default v key default ≡ ok (value_or (at_key (elements v) key) default))
      × (contains_key v key ≡ is_found (at_key (elements v) key))
unfolding val_at val_at_default contains_key
val_at-at_key {v} key default i = elim (Bool-cases (is_int32 key)) [
  | inl e ↦ rw e (
    read_or (unbox_int32 key) box_nil i,
    read_or (unbox_int32 key) default i,
    index_within-is_found (unbox_int32 key) i,
  )
  | inr e ↦ rw e (refl, refl, refl)
]

-- For a valid vector and any index, `nth_default` returns the element or the default, and so never fails.
pub nth_default-value_or :
    {v : Vector} (index : ℕ) (default : RtValue)
    → IsValid v
    → nth_default v index default ≡ ok (value_or (get_elem? (elements v) index) default)
unfolding nth_default
nth_default-value_or {v} index default i = elim (Bool-cases (leb v.count index)) [
  | inl out ↦ rw (out, get_elem?-ge (elements v) index (ground (arith, i.counted)))
  | inr within ↦
      let small : index < v.count = ground arith in
      let (x, found) = get_elem?-lt (elements v) index (omega (arith, i.counted)) in
      rw (within, read_at-get_elem? index i small, found)
]

-- For a valid vector of fewer than 2 ^ 63 elements and a key that is a negative boxed integer: the cast to
-- a word extends the sign, so `dynamic_nth` and `assoc_dynamic` throw the bounds exception.
pub negative_key-throw :
    (sole : ℕ → Bool) {v : Vector} (key val : RtValue) (n : ℕ)
    → IsValid v
    → v.count < 2 ^ 63
    → is_int32 key ≡ true
    → unbox_int32 key ≡ negsuc n
    → (dynamic_nth v key ≡ throw (index_out_of_bounds (word_mod - 1 - n) v.count))
      × (assoc_dynamic sole v key val ≡ throw (index_out_of_bounds (word_mod - 1 - n) v.count))
unfolding dynamic_nth assoc_dynamic nth assoc
negative_key-throw sole {v} key val n i small e neg =
    let bound : n < 2 ^ 31 = subst IsInt32 neg (unbox_int32-IsInt32 key) in
    let out : leb v.count (word_mod - 1 - n) ≡ true = ground arith in
    let above : ltb v.count (word_mod - 1 - n) ≡ true = ground arith in
    rw (e, neg, out, above) (refl, refl)

-- For a valid vector, `peek` returns its last element, or nil if it is empty.
pub peek-value_or :
    {v : Vector} → IsValid v → peek v ≡ ok (value_or (get_elem? (elements v) (v.count - 1)) box_nil)
unfolding peek
peek-value_or {v} i = elim (Bool-cases (v.count == 0)) [
  | inl e ↦ rw (e, get_elem?-ge (elements v) (v.count - 1) (ground (arith, i.counted)))
  | inr e ↦
      let (x, found) = get_elem?-lt (elements v) (v.count - 1) (ground (arith, i.counted)) in
      rw (e, found) (nth-checked (v.count - 1) i ∙ rw found)
]
