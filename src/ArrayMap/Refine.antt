-- ===== src/ArrayMap/Refine.antt =====
-- The operations of backend/runtime/PersistentArrayMap.c against partial functions.
use clojure_rt.Base.{
  ℕ, suc, ◌+◌, ◌-◌, ◌<◌, ◌≤◌, ◌≡◌, ◌⊎◌, refl, sym, ◌∙◌, Bool, true, false, Option, none, some, [],
  ◌∷◌, ◌++◌, length, set, length-set, length-append, if◌then◌else◌, arith, Bool-cases, Option-cases,
  inl, inr, leb, ok,
}
use clojure_rt.Value.{RtValue, box_nil, is_null}
use clojure_rt.Vector.Node.{placed}
use clojure_rt.ArrayMap.Ops.{
  ArrayMap, count, too_large, index_of, index_in, get, assoc, assoc_at, dissoc, dissoc_at,
}
use clojure_rt.ArrayMap.Lookup.{
  Equality, lookup, has_key, Distinct, lookup-absent, lookup-append_one, get_in-lookup,
  index_in-some, index_in-none, shift_down-erase, has_key_congr, not_both,
}
use clojure_rt.ArrayMap.Entries.{
  length-erase, Distinct-erase, Distinct-append_one, lookup-set, lookup-erase,
}

-- What `get` makes of the value of a key, or of its absence.
abbrev pub or_nil : Option RtValue → RtValue
or_nil none = box_nil
or_nil (some v) = if is_null v then box_nil else v

module _ (equals : RtValue → RtValue → Bool) where
  -- The arrays have one length, which the space allows, and no two keys are equal.
  pub record IsValid (m : ArrayMap) : Type 0 where
    pub paired : length m.keys ≡ length m.values
    pub bounded : count m ≤ 128
    pub distinct : Distinct equals m.keys

  -- The partial function that a map stands for.
  abbrev pub value_of : ArrayMap → RtValue → Option RtValue
  value_of m key = lookup equals m.keys m.values key

  -- For any map and key, `get` returns the value of the key, and nil where the key has no value or the
  -- value is null.
  pub get-or_nil : (m : ArrayMap) (key : RtValue) → get equals m key ≡ or_nil (value_of m key)
  unfolding get is_null
  get-or_nil m key = elim (Option-cases (value_of m key)) [
    | inl e ↦ rw (get_in-lookup equals m.keys m.values key, e) refl
    | inr (v, e) ↦ rw (get_in-lookup equals m.keys m.values key, e) refl
  ]

  module _ (law : Equality equals) (sole : ℕ → Bool) where
    absent_value :
        (m : ArrayMap) (key : RtValue)
        → has_key equals key m.keys ≡ false
        → (key' : RtValue) → value_of m key' ≡ (if equals key' key then none else value_of m key')
    absent_value m key absent key' = elim (Bool-cases (equals key' key)) [
      | inl e ↦ rw e (
          lookup-absent equals m.keys m.values key'
            (has_key_congr equals law key' key m.keys e ∙ absent))
      | inr e ↦ rw e refl
    ]

    -- For a valid map that has the key or room for one more, and an `equals` that is an equivalence:
    -- `assoc` returns a valid map with the same metadata, in which the keys equal to the key have the new
    -- value and all other keys the value they had.
    pub assoc-value_of :
        {m : ArrayMap} (key v : RtValue)
        → IsValid m
        → (has_key equals key m.keys ≡ true) ⊎ (count m < 128)
        → (w : ArrayMap) × (assoc equals sole m key v ≡ ok w)
          × IsValid w
          × (w.metadata ≡ m.metadata)
          × ((key' : RtValue)
              → value_of w key' ≡ (if equals key' key then some v else value_of m key'))
    unfolding assoc index_of assoc_at
    assoc-value_of {m} key v i room = elim (Option-cases (index_in equals m.keys key)) [
      | inl n ↦
          let absent = index_in-none equals m.keys key n in
          let space : leb 128 (count m) ≡ false = ground arith in
          let one = length-append m.keys (key ∷ []) in
          let one_value = length-append m.values (v ∷ []) in
          (
            record m {
              address = placed (sole m.address) m.address;
              keys = m.keys ++ (key ∷ []);
              values = m.values ++ (v ∷ []);
            },
            rw (n, space) refl,
            record {
              paired = omega (arith, i.paired);
              bounded = ground arith;
              distinct = Distinct-append_one equals law m.keys key i.distinct absent;
            },
            refl,
            λ key'.
                lookup-append_one equals m.keys m.values key v key' i.paired absent
                  (λ e. has_key_congr equals law key' key m.keys e ∙ absent),
          )
      | inr (j, f) ↦ (
        record m { address = placed (sole m.address) m.address; values = set m.values j v },
        rw f refl,
        record {
          paired = i.paired ∙ sym (length-set m.values j v);
          bounded = i.bounded;
          distinct = i.distinct;
        },
        refl,
        λ key'. lookup-set equals law m.keys m.values key j v key' i.paired f,
      )
    ]

    -- For a valid map of 128 entries without the key, `assoc` throws.
    pub assoc-too_large :
        {m : ArrayMap} (key v : RtValue)
        → IsValid m
        → has_key equals key m.keys ≡ false
        → count m ≡ 128
        → assoc equals sole m key v ≡ too_large
    unfolding assoc index_of assoc_at
    assoc-too_large {m} key v i absent full = elim (Option-cases (index_in equals m.keys key)) [
      | inl n ↦ rw (n, full) refl
      | inr (j, f) ↦ absurd (not_both absent (index_in-some equals m.keys key j f).1)
    ]

    -- For a valid map and an `equals` that is an equivalence: `dissoc` returns a valid map in which the
    -- keys equal to the key have no value and all other keys the value they had.
    pub dissoc-value_of :
        {m : ArrayMap} (key : RtValue)
        → IsValid m
        → IsValid (dissoc equals sole m key)
          × ((key' : RtValue)
              → value_of (dissoc equals sole m key) key'
                ≡ (if equals key' key then none else value_of m key'))
    unfolding dissoc index_of dissoc_at
    dissoc-value_of {m} key i = elim (Option-cases (index_in equals m.keys key)) [
      | inl n ↦ rw n (i, absent_value m key (index_in-none equals m.keys key n))
      | inr (j, f) ↦
          let inside = (index_in-some equals m.keys key j f).0 in
          let inside' : j < length m.values = omega (arith, inside, i.paired) in
          let turns : count m - 1 - j + suc j ≡ length m.keys = omega arith in
          let turns' : count m - 1 - j + suc j ≡ length m.values = omega (arith, i.paired) in
          let ks = length-erase m.keys j inside in
          let vs = length-erase m.values j inside' in
          rw
            (
              f,
              shift_down-erase (count m - 1 - j) j m.keys turns,
              shift_down-erase (count m - 1 - j) j m.values turns',
            )
            (
              record {
                paired = omega (arith, i.paired);
                bounded = omega (arith, i.bounded);
                distinct = Distinct-erase equals m.keys j i.distinct;
              },
              λ key'. lookup-erase equals law m.keys m.values key j key' i.paired i.distinct f,
            )
    ]
