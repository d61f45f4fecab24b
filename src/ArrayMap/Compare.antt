-- ===== src/ArrayMap/Compare.antt =====
-- Maps from argument lists, and the comparison of maps.
use clojure_rt.Base.{
  suc, ◌≤◌, ◌≡◌, refl, sym, ap, ◌∙◌, Bool, true, false, Option, none, some, List, [], ◌∷◌, ◌++◌,
  length, append_assoc, append-nil, if◌then◌else◌, arith, ltb, ok, ==_self,
}
use clojure_rt.Value.{RtValue, box_nil}
use clojure_rt.ArrayMap.Ops.{
  ArrayMap, count, create, create_many, fill, array_map_equals, entries_equal,
}
use clojure_rt.ArrayMap.Lookup.{lookup, has_key, Distinct, lookup-absent}
use clojure_rt.ArrayMap.Refine.{IsValid, value_of, get-or_nil}

abbrev pub keys_of : List (RtValue × RtValue) → List RtValue
keys_of [] = []
keys_of ((k, v) ∷ pairs) = k ∷ keys_of pairs

abbrev pub values_of : List (RtValue × RtValue) → List RtValue
values_of [] = []
values_of ((k, v) ∷ pairs) = v ∷ values_of pairs

length-keys_of : (pairs : List (RtValue × RtValue)) → length (keys_of pairs) ≡ length pairs
length-keys_of [] = refl
length-keys_of ((k, v) ∷ pairs) = ap suc (length-keys_of pairs)

length-values_of : (pairs : List (RtValue × RtValue)) → length (values_of pairs) ≡ length pairs
length-values_of [] = refl
length-values_of ((k, v) ∷ pairs) = ap suc (length-values_of pairs)

fill-append :
    (m : ArrayMap) (pairs : List (RtValue × RtValue))
    → fill m pairs
      ≡ record m { keys = m.keys ++ keys_of pairs; values = m.values ++ values_of pairs }
unfolding fill
fill-append m [] = rw (append-nil m.keys, append-nil m.values) refl
fill-append m ((k, v) ∷ pairs) =
    let m' = record m { keys = m.keys ++ (k ∷ []); values = m.values ++ (v ∷ []) } in
    fill-append m' pairs
    ∙ rw
        (
          append_assoc m.keys (k ∷ []) (keys_of pairs),
          append_assoc m.values (v ∷ []) (values_of pairs),
        )
        refl

module _ (equals : RtValue → RtValue → Bool) where
  -- The value of the first pair whose key is equal.
  abbrev pub first_value : List (RtValue × RtValue) → RtValue → Option RtValue
  first_value [] key = none
  first_value ((k, v) ∷ pairs) key = if equals key k then some v else first_value pairs key

  lookup-first_value :
      (pairs : List (RtValue × RtValue)) (key : RtValue)
      → lookup equals (keys_of pairs) (values_of pairs) key ≡ first_value pairs key
  lookup-first_value [] key = refl
  lookup-first_value ((k, v) ∷ pairs) key = rw (lookup-first_value pairs key) refl

  -- For at most 128 pairs whose keys are all different: `create_many` returns a valid map, in which a
  -- key has the value of its pair.
  pub create_many-first_value :
      (pairs : List (RtValue × RtValue))
      → length pairs ≤ 128
      → Distinct equals (keys_of pairs)
      → (w : ArrayMap) × (create_many pairs ≡ ok w)
        × IsValid equals w
        × ((key : RtValue) → value_of equals w key ≡ first_value pairs key)
  unfolding create_many create
  create_many-first_value pairs short distinct =
      let fits : ltb 128 (length pairs) ≡ false = ground arith in
      let ks = length-keys_of pairs in
      let vs = length-values_of pairs in
      (
        record create { keys = keys_of pairs; values = values_of pairs },
        rw (fits, fill-append create pairs) refl,
        record { paired = ks ∙ sym vs; bounded = omega (arith, short); distinct = distinct },
        lookup-first_value pairs,
      )

  -- For two pairs whose keys are equal: `create_many` returns a map of two entries, which is not valid.
  pub create_many-duplicate :
      (k k' v v' : RtValue)
      → equals k k' ≡ true
      → (w : ArrayMap) × (create_many ((k, v) ∷ ((k', v') ∷ [])) ≡ ok w)
        × (count w ≡ 2)
        × ¬ IsValid equals w
  unfolding create_many create fill
  create_many-duplicate k k' v v' e = (
    record create { keys = k ∷ (k' ∷ []); values = v ∷ (v' ∷ []) },
    refl,
    refl,
    λ i. let d = i.distinct.0 in ground arith,
  )

  abbrev pub AllNil : List RtValue → Type 0
  AllNil [] = Unit {0}
  AllNil (v ∷ vs) = (v ≡ box_nil) × AllNil vs

  -- No key of the one list is equal to a key of the other.
  abbrev pub Disjoint : List RtValue → List RtValue → Type 0
  Disjoint [] ls = Unit {0}
  Disjoint (k ∷ ks) ls = (has_key equals k ls ≡ false) × Disjoint ks ls

  entries_equal-nil :
      (ks vs : List RtValue) (n : ArrayMap)
      → equals box_nil box_nil ≡ true
      → AllNil vs
      → Disjoint ks n.keys
      → entries_equal equals ks vs n ≡ true
  unfolding entries_equal
  entries_equal-nil [] vs n same nils apart = refl
  entries_equal-nil (k ∷ ks) [] n same nils apart = refl
  entries_equal-nil (k ∷ ks) (v ∷ vs) n same nils apart =
      rw (get-or_nil equals n k, lookup-absent equals n.keys n.values k apart.0, nils.0, same)
        (entries_equal-nil ks vs n same nils.1 apart.1)

  -- Where nil is equal to itself: two maps of the same number of entries, the one with nil alone for
  -- its values, are equal for `PersistentArrayMap_equals` even if they have no key in common.
  pub array_map_equals-Disjoint :
      (m n : ArrayMap)
      → equals box_nil box_nil ≡ true
      → count m ≡ count n
      → AllNil m.values
      → Disjoint m.keys n.keys
      → array_map_equals equals m n ≡ true
  unfolding array_map_equals
  array_map_equals-Disjoint m n same counts nils apart =
      rw (counts, ==_self (count n)) (entries_equal-nil m.keys m.values n same nils apart)
