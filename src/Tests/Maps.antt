-- ===== src/Tests/Maps.antt =====
-- Maps whose keys are compared by their bits.
use clojure_rt.Base.{
  ℕ, zero, suc, ◌<◌, ◌≡◌, refl, Bool, true, false, none, some, List, [], ◌∷◌, inl, ◌==◌,
  if◌then◌else◌, arith, ok,
}
use clojure_rt.Value.{RtValue, box_nil}
use clojure_rt.ArrayMap.Ops.{ArrayMap, assoc, dissoc, array_map_equals}
use clojure_rt.ArrayMap.Lookup.{Equality, has_key, Distinct}
use clojure_rt.ArrayMap.Refine.{IsValid, value_of, assoc-value_of, dissoc-value_of}
use clojure_rt.ArrayMap.Compare.{array_map_equals-Disjoint}

abbrev same_bits : RtValue → RtValue → Bool
same_bits a b = a == b

same_bits-Equality : Equality same_bits
same_bits-Equality = record {
  same = λ a. ground arith;
  swap = λ a b e. ground arith;
  chain = λ a b c e f. ground arith;
}

abbrev never : ℕ → Bool
never a = false

-- {7 70, 8 80}
abbrev two_entries : ArrayMap
two_entries = record {
  address = 1;
  keys = 7 ∷ (8 ∷ []);
  values = 70 ∷ (80 ∷ []);
  metadata = box_nil;
}

two_entries-IsValid : IsValid same_bits two_entries
two_entries-IsValid = record { paired = refl; bounded = omega arith; distinct = (refl, (refl, tt)) }

assoc-value_of_example :
    (w : ArrayMap) × (assoc same_bits never two_entries 8 81 ≡ ok w)
    × IsValid same_bits w
    × (w.metadata ≡ box_nil)
    × ((key' : RtValue)
        → value_of same_bits w key'
          ≡ (if same_bits key' 8 then some 81 else value_of same_bits two_entries key'))
assoc-value_of_example =
    assoc-value_of same_bits same_bits-Equality never 8 81 two_entries-IsValid (inl refl)

abbrev numbers : ℕ → ℕ → List RtValue
numbers zero x = []
numbers (suc n) x = x ∷ numbers n (suc x)

-- A map of 128 entries, each number to itself.
abbrev full_map : ArrayMap
full_map = record two_entries { keys = numbers 128 0; values = numbers 128 0 }

numbers-absent : (n x a : ℕ) → a < x → has_key same_bits a (numbers n x) ≡ false
numbers-absent zero x a h = refl
numbers-absent (suc n) x a h =
    let e : (a == x) ≡ false = ground arith in rw e (numbers-absent n (suc x) a (omega (arith, h)))

numbers-Distinct : (n x : ℕ) → Distinct same_bits (numbers n x)
numbers-Distinct zero x = tt
numbers-Distinct (suc n) x = (numbers-absent n (suc x) x (omega arith), numbers-Distinct n (suc x))

full_map-IsValid : IsValid same_bits full_map
full_map-IsValid = record {
  paired = refl;
  bounded = omega arith;
  distinct = numbers-Distinct 128 0;
}

dissoc-value_of_example :
    IsValid same_bits (dissoc same_bits never two_entries 7)
    × ((key' : RtValue)
        → value_of same_bits (dissoc same_bits never two_entries 7) key'
          ≡ (if same_bits key' 7 then none else value_of same_bits two_entries key'))
dissoc-value_of_example = dissoc-value_of same_bits same_bits-Equality never 7 two_entries-IsValid

abbrev pairs : List (RtValue × RtValue)
pairs = (7, 70) ∷ ((8, 80) ∷ [])

-- {7 nil} and {8 80}
array_map_equals-Disjoint_example :
    array_map_equals same_bits
      (record two_entries { keys = 7 ∷ []; values = box_nil ∷ [] })
      (record two_entries { keys = 8 ∷ []; values = 80 ∷ [] })
    ≡ true
array_map_equals-Disjoint_example =
    array_map_equals-Disjoint same_bits
      (record two_entries { keys = 7 ∷ []; values = box_nil ∷ [] })
      (record two_entries { keys = 8 ∷ []; values = 80 ∷ [] }) refl refl (refl, tt) (refl, tt)
