-- ===== src/Hash/Dispatch.antt =====
-- `hash` and `equals` of values, and their switch on the type of an object (backend/runtime/Object.h).
use clojure_rt.Base.{
  ◌⊎◌, ◌≤◌, ℕ, ◌≡◌, ◌≢◌, refl, arith, Bool, true, false, ◌==◌, if◌then◌else◌, not, ◌||◌, ◌&&◌,
  Outcome, ok, undefined, ◌>>=◌, to_word, Bool-cases, inl, inr, ltb, ap, throw,
}
use clojure_rt.Value.{
  RtValue, ObjectType, double_type, null_type, symbol_type, keyword_type, nil_type, boolean_type,
  integer_type, heap_type, get_type, is_ptr, unbox_ptr, unbox_int32, unbox_bool, unbox_keyword,
  unbox_double,
}
use clojure_rt.Hash.Mix.{avalanche}

-- The value of a type in the enumeration.
abbrev pub type_number : ObjectType → ℕ
type_number double_type = 2
type_number null_type = 9
type_number symbol_type = 10
type_number keyword_type = 11
type_number nil_type = 12
type_number boolean_type = 13
type_number integer_type = 15
type_number (heap_type n) = n

-- The cases of the switches of `Object_hash` and `Object_equals`.
unfoldable pub has_case : ℕ → Bool
has_case n =
    ((ltb 0 n && ltb n 9) && not (n == 2))
    || (n == 10)
    || ((ltb 15 n && ltb n 20))
    || ((ltb 20 n && ltb n 25))
    || (n == 29)

-- The `hash` and `equals` functions of the types, at addresses of objects.
pub record Methods : Type 0 where
  pub hash_of : ℕ → ℕ → ℕ
  pub equals_of : ℕ → ℕ → ℕ → Bool

-- The switch of `hash`, with the result of its default case.
unfoldable pub hash_by_type : Methods → RtValue → Outcome ℕ → ObjectType → Outcome ℕ
hash_by_type m v other integer_type = ok (avalanche (to_word (unbox_int32 v)))
hash_by_type m v other boolean_type = ok (avalanche (if unbox_bool v then 1 else 0))
hash_by_type m v other nil_type = ok 0xDEADBEEF
hash_by_type m v other keyword_type = ok (avalanche (unbox_keyword v))
hash_by_type m v other symbol_type = ok (m.hash_of 10 (unbox_ptr v))
hash_by_type m v other double_type = ok (avalanche (unbox_double v))
hash_by_type m v other _ = other

module _ (m : Methods) (heap : ℕ → ObjectType) where
  -- Without a case, an assertion fails.
  unfoldable pub object_hash : ℕ → Outcome ℕ
  object_hash a =
      let n = type_number (heap a) in if has_case n then ok (m.hash_of n a) else undefined

  unfoldable pub object_equals : ℕ → ℕ → Outcome Bool
  object_equals a b = do
    g ← object_hash a
    h ← object_hash b
    let n = type_number (heap a)
    if not (g == h) then ok false else if has_case n then ok (m.equals_of n a b) else undefined

  unfoldable pub hash : RtValue → Outcome ℕ
  hash v =
      hash_by_type m v (if is_ptr v then object_hash (unbox_ptr v) else undefined) (get_type heap v)

  unfoldable pub equals : RtValue → RtValue → Outcome Bool
  equals v w =
      if v == w
      then ok true
      else if not (is_ptr v) || not (is_ptr w)
      then ok false
      else if not (type_number (get_type heap v) == type_number (get_type heap w))
      then ok false
      else object_equals (unbox_ptr v) (unbox_ptr w)

-- The types of objects that a pointer can lead to.
abbrev pub IsHeapType : ℕ → Type 0
IsHeapType n = ((1 ≤ n) × (n ≤ 8) × (n ≢ 2)) ⊎ ((16 ≤ n) × (n ≤ 29))

-- The root object, and a chunk, a reverse sequence, an execution context or a node of a concurrent map.
abbrev pub HasNoHash : ℕ → Type 0
HasNoHash n = (n ≡ 20) ⊎ ((25 ≤ n) × (n ≤ 28))

get_type-heap :
    (heap : ℕ → ObjectType) (v : RtValue) → is_ptr v ≡ true → get_type heap v ≡ heap (unbox_ptr v)
unfolding get_type is_ptr unbox_ptr
get_type-heap heap v p = ground arith

-- A switch on a type that has a case in `Object_hash`.
hash_by_type-has_case :
    (m : Methods) (v : RtValue) (t : ObjectType)
    → has_case (type_number t) ≡ true
    → hash_by_type m v (ok (m.hash_of (type_number t) (unbox_ptr v))) t
      ≡ ok (m.hash_of (type_number t) (unbox_ptr v))
unfolding hash_by_type has_case
hash_by_type-has_case m v symbol_type c = refl
hash_by_type-has_case m v (heap_type n) c = refl
hash_by_type-has_case m v null_type c = refl
hash_by_type-has_case m v _ c = absurd (cc)

-- The test of the hashes of `Object_equals`.
same_hash :
    (x y : Outcome ℕ) (r : Outcome Bool)
    → (x >>= λ g. y >>= λ h. if not (g == h) then ok false else r) ≡ ok true
    → (x ≡ y) × (r ≡ ok true)
same_hash (ok g) (ok h) r q = elim (Bool-cases (g == h)) [
  | inl e ↦ let same : g ≡ h = ground arith in (ap ok same, rw e at q)
  | inr n ↦ absurd (let no : ok false ≡ ok true = rw n at q in cc)
]
same_hash (ok g) (throw e) r q = absurd (cc)
same_hash (ok g) undefined r q = absurd (cc)
same_hash (throw e) y r q = absurd (cc)
same_hash undefined y r q = absurd (cc)

module _ (m : Methods) (heap : ℕ → ObjectType) where
  -- What it takes for `object_equals` to answer true.
  object_equals-true :
      (a b : ℕ)
      → object_equals m heap a b ≡ ok true
      → (has_case (type_number (heap a)) ≡ true) × (object_hash m heap a ≡ object_hash m heap b)
  unfolding object_equals
  object_equals-true a b h =
      let (same, r) = same_hash (object_hash m heap a) (object_hash m heap b) _ h in
      elim (Bool-cases (has_case (type_number (heap a)))) [
        | inr n ↦ absurd (let q : undefined ≡ ok true = rw n at r in cc)
        | inl c ↦ (c, same)
      ]

  -- The hash of a pointer is that of its object, where the switch has a case for the type.
  hash-object_hash :
      (v : RtValue)
      → is_ptr v ≡ true
      → has_case (type_number (heap (unbox_ptr v))) ≡ true
      → hash m heap v ≡ object_hash m heap (unbox_ptr v)
  unfolding hash object_hash
  hash-object_hash v p c =
      rw (get_type-heap heap v p, p, c) (hash_by_type-has_case m v (heap (unbox_ptr v)) c)

  -- What it takes for `equals` to answer true on two values.
  equals-true :
      (v w : RtValue)
      → v ≢ w
      → equals m heap v w ≡ ok true
      → (is_ptr v ≡ true)
        × (is_ptr w ≡ true)
        × (type_number (get_type heap v) ≡ type_number (get_type heap w))
        × (object_equals m heap (unbox_ptr v) (unbox_ptr w) ≡ ok true)
  unfolding equals
  equals-true v w ne h =
      let other : (v == w) ≡ false = ground (arith, ne) in
      passes (is_ptr v) (is_ptr w) (type_number (get_type heap v)) (type_number (get_type heap w)) _
        (rw other at h)
    where
      passes :
          (p q : Bool) (t u : ℕ) (r : Outcome Bool)
          → (if not p || not q then ok false else if not (t == u) then ok false else r) ≡ ok true
          → (p ≡ true) × (q ≡ true) × (t ≡ u) × (r ≡ ok true)
      passes true true t u r h = elim (Bool-cases (t == u)) [
        | inl e ↦ (refl, refl, ground arith, rw e at h)
        | inr n ↦ absurd (let no : ok false ≡ ok true = rw n at h in cc)
      ]
      passes true false t u r h = absurd (cc)
      passes false q t u r h = absurd (cc)

  -- Where `equals` answers true, the two values have the same hash.
  pub equals-hash : (v w : RtValue) → equals m heap v w ≡ ok true → hash m heap v ≡ hash m heap w
  equals-hash v w h = elim (Bool-cases (v == w)) [
    | inl e ↦ let same : v ≡ w = ground arith in rw same refl
    | inr n ↦
        let (p, q, t, r) = equals-true v w (ground (arith, n)) h in
        let (c, same) = object_equals-true (unbox_ptr v) (unbox_ptr w) r in
        let u : type_number (heap (unbox_ptr v)) ≡ type_number (heap (unbox_ptr w)) =
          rw (get_type-heap heap v p, get_type-heap heap w q) at t in
        rw (hash-object_hash v p c, hash-object_hash w q (rw u at c)) same
  ]
