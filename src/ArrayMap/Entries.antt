-- ===== src/ArrayMap/Entries.antt =====
-- What the writes of `assoc` and `dissoc` to the arrays change: the value of one key.
use clojure_rt.Base.{
  ℕ, zero, suc, ◌-◌, ◌<◌, ◌≡◌, refl, ◌∙◌, Bool, true, false, none, some, List, [], ◌∷◌, ◌++◌,
  length, set, if◌then◌else◌, arith, Bool-cases, Option-cases, inl, inr,
}
use clojure_rt.Value.{RtValue}
use clojure_rt.ArrayMap.Ops.{index_in}
use clojure_rt.ArrayMap.Lookup.{
  Equality, equals_congr_right, has_key_congr, erase, lookup, has_key, Distinct, lookup-absent,
  not_both, or_right,
}

pub length-erase : (xs : List RtValue) (i : ℕ) → i < length xs → length (erase xs i) ≡ length xs - 1
length-erase [] i h = absurd (omega arith)
length-erase (x ∷ xs) zero h = omega arith
length-erase (x ∷ xs) (suc i) h = omega (arith, length-erase xs i (omega arith))

module _ (equals : RtValue → RtValue → Bool) where
  -- The two cases of a search that has found a key at the front or behind it.
  data Place (k : RtValue) (ks : List RtValue) (key : RtValue) (i : ℕ) : Type 0 where
    here : equals key k ≡ true → i ≡ 0 → Place k ks key i
    there :
        equals key k ≡ false
        → (j : ℕ) → i ≡ suc j
        → index_in equals ks key ≡ some j
        → Place k ks key i

  place :
      (k : RtValue) (ks : List RtValue) (key : RtValue) (i : ℕ)
      → index_in equals (k ∷ ks) key ≡ some i
      → Place k ks key i
  unfolding index_in
  place k ks key i h = elim (Bool-cases (equals key k)) [
    | inl e ↦ here e (ground arith)
    | inr e ↦ elim (Option-cases (index_in equals ks key)) [
      | inl n ↦ ground arith
      | inr (j, f) ↦ there e j (ground arith) f
    ]
  ]

  has_key-append_one :
      (ks : List RtValue) (k key : RtValue)
      → has_key equals k ks ≡ false
      → equals k key ≡ false
      → has_key equals k (ks ++ (key ∷ [])) ≡ false
  has_key-append_one [] k key h e = rw e refl
  has_key-append_one (j ∷ ks) k key h e = elim (Bool-cases (equals k j)) [
    | inl f ↦ ground arith
    | inr f ↦ rw f (has_key-append_one ks k key (or_right _ h) e)
  ]

  has_key-erase :
      (ks : List RtValue) (key : RtValue) (i : ℕ)
      → has_key equals key ks ≡ false
      → has_key equals key (erase ks i) ≡ false
  has_key-erase [] key i h = refl
  has_key-erase (k ∷ ks) key zero h = or_right _ h
  has_key-erase (k ∷ ks) key (suc i) h = elim (Bool-cases (equals key k)) [
    | inl f ↦ ground arith
    | inr f ↦ rw f (has_key-erase ks key i (or_right _ h))
  ]

  pub Distinct-erase :
      (ks : List RtValue) (i : ℕ) → Distinct equals ks → Distinct equals (erase ks i)
  Distinct-erase [] i d = d
  Distinct-erase (k ∷ ks) zero d = d.1
  Distinct-erase (k ∷ ks) (suc i) d = (has_key-erase ks k i d.0, Distinct-erase ks i d.1)

  module _ (law : Equality equals) where
    equals_swap_false : (a b : RtValue) → equals a b ≡ false → equals b a ≡ false
    equals_swap_false a b h = elim (Bool-cases (equals b a)) [
      | inl e ↦ absurd (not_both h (law.swap b a e))
      | inr e ↦ e
    ]

    pub Distinct-append_one :
        (ks : List RtValue) (key : RtValue)
        → Distinct equals ks
        → has_key equals key ks ≡ false
        → Distinct equals (ks ++ (key ∷ []))
    Distinct-append_one [] key d h = (refl, tt)
    Distinct-append_one (k ∷ ks) key d h = (
      has_key-append_one ks k key d.0 (equals_swap_false key k (ground arith)),
      Distinct-append_one ks key d.1 (or_right _ h),
    )

    -- A key that is equal to `k` is not equal to a key that is not.
    apart :
        (k key key' : RtValue)
        → equals key k ≡ false
        → equals key' k ≡ true
        → equals key' key ≡ false
    apart k key key' e p = elim (Bool-cases (equals key' key)) [
      | inl q ↦ absurd (not_both e (law.chain key key' k (law.swap key' key q) p))
      | inr q ↦ q
    ]

    -- `assoc` on a key that is there.
    pub lookup-set :
        (ks vs : List RtValue) (key : RtValue) (i : ℕ) (v key' : RtValue)
        → length ks ≡ length vs
        → index_in equals ks key ≡ some i
        → lookup equals ks (set vs i v) key'
          ≡ (if equals key' key then some v else lookup equals ks vs key')
    unfolding index_in
    lookup-set [] vs key i v key' n h = cc
    lookup-set (k ∷ ks) [] key i v key' n h = absurd (omega arith)
    lookup-set (k ∷ ks) (w ∷ vs) key i v key' n h = elim (place k ks key i h) [
      | here e z ↦ elim (Bool-cases (equals key' k)) [
        | inl p ↦ rw (z, equals_congr_right equals law key k key' e, p) refl
        | inr p ↦ rw (z, equals_congr_right equals law key k key' e, p) refl
      ]
      | there e j z f ↦ elim (Bool-cases (equals key' k)) [
        | inl p ↦ rw (z, apart k key key' e p, p) refl
        | inr p ↦ rw (z, p) (lookup-set ks vs key j v key' (omega arith) f)
      ]
    ]

    -- `dissoc` of a key that is there.
    pub lookup-erase :
        (ks vs : List RtValue) (key : RtValue) (i : ℕ) (key' : RtValue)
        → length ks ≡ length vs
        → Distinct equals ks
        → index_in equals ks key ≡ some i
        → lookup equals (erase ks i) (erase vs i) key'
          ≡ (if equals key' key then none else lookup equals ks vs key')
    unfolding index_in
    lookup-erase [] vs key i key' n d h = cc
    lookup-erase (k ∷ ks) [] key i key' n d h = absurd (omega arith)
    lookup-erase (k ∷ ks) (w ∷ vs) key i key' n d h = elim (place k ks key i h) [
      | here e z ↦ elim (Bool-cases (equals key' k)) [
        | inl p ↦
            let absent = has_key_congr equals law key' k ks p ∙ d.0 in
            rw (z, equals_congr_right equals law key k key' e, p)
              (lookup-absent equals ks vs key' absent)
        | inr p ↦ rw (z, equals_congr_right equals law key k key' e, p) refl
      ]
      | there e j z f ↦ elim (Bool-cases (equals key' k)) [
        | inl p ↦ rw (z, apart k key key' e p, p) refl
        | inr p ↦ rw (z, p) (lookup-erase ks vs key j key' (omega arith) d.1 f)
      ]
    ]
