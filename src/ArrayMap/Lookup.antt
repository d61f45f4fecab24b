-- ===== src/ArrayMap/Lookup.antt =====
-- Searching the keys of a map: the laws of `equals`, and what the loops over the arrays find.
use clojure_rt.Base.{
  ℕ, zero, suc, ◌+◌, ◌<◌, ◌≡◌, refl, sym, ap, ◌∙◌, Bool, true, false, ◌||◌, Option, none, some,
  List, [], ◌∷◌, ◌++◌, length, init, if◌then◌else◌, arith, Bool-cases, Option-cases, inl, inr,
}
use clojure_rt.Value.{RtValue, box_null}
use clojure_rt.ArrayMap.Ops.{shift_down, index_in, get_in}

-- What the maps rely on: `equals` is an equivalence.
pub record Equality (equals : RtValue → RtValue → Bool) : Type 0 where
  pub same : (a : RtValue) → equals a a ≡ true
  pub swap : (a b : RtValue) → equals a b ≡ true → equals b a ≡ true
  pub chain : (a b c : RtValue) → equals a b ≡ true → equals b c ≡ true → equals a c ≡ true

-- An array without the element at an index.
abbrev pub erase : List RtValue → ℕ → List RtValue
erase [] i = []
erase (x ∷ xs) zero = xs
erase (x ∷ xs) (suc i) = x ∷ erase xs i

init-cons : (x : RtValue) (xs : List RtValue) → 0 < length xs → init (x ∷ xs) ≡ x ∷ init xs
init-cons x [] h = absurd (omega arith)
init-cons x (y ∷ xs) h = refl

init-erase : (xs : List RtValue) (i : ℕ) → length xs ≡ suc i → init xs ≡ erase xs i
init-erase [] i h = absurd (omega arith)
init-erase (x ∷ []) zero h = refl
init-erase (x ∷ []) (suc i) h = absurd (omega arith)
init-erase (x ∷ (y ∷ xs)) zero h = absurd (omega arith)
init-erase (x ∷ (y ∷ xs)) (suc i) h = ap (◌∷◌ x) (init-erase (y ∷ xs) i (omega arith))

length-shift_down : (turns i : ℕ) (xs : List RtValue) → length (shift_down turns i xs) ≡ length xs
unfolding shift_down
length-shift_down zero i xs = refl
length-shift_down (suc turns) i [] = refl
length-shift_down (suc turns) zero (x ∷ []) = refl
length-shift_down (suc turns) zero (x ∷ (y ∷ xs)) = ap suc (length-shift_down turns zero (y ∷ xs))
length-shift_down (suc turns) (suc i) (x ∷ xs) = ap suc (length-shift_down (suc turns) i xs)

-- The loop of `dissoc` and the smaller count take the element out of the array.
pub shift_down-erase :
    (turns i : ℕ) (xs : List RtValue)
    → turns + suc i ≡ length xs
    → init (shift_down turns i xs) ≡ erase xs i
unfolding shift_down
shift_down-erase zero i xs h = init-erase xs i (omega arith)
shift_down-erase (suc turns) i [] h = absurd (omega arith)
shift_down-erase (suc turns) zero (x ∷ []) h = absurd (omega arith)
shift_down-erase (suc turns) zero (x ∷ (y ∷ xs)) h =
    let n = length-shift_down turns zero (y ∷ xs) in
    init-cons y (shift_down turns zero (y ∷ xs)) (omega arith)
    ∙ ap (◌∷◌ y) (shift_down-erase turns zero (y ∷ xs) (omega arith))
shift_down-erase (suc turns) (suc i) (x ∷ xs) h =
    let n = length-shift_down (suc turns) i xs in
    init-cons x (shift_down (suc turns) i xs) (omega arith)
    ∙ ap (◌∷◌ x) (shift_down-erase (suc turns) i xs (omega arith))

pub not_both : {b : Bool} → b ≡ false → b ≡ true → ⊥
not_both p q = cc

pub or_right : (a : Bool) {b : Bool} → (a || b) ≡ false → b ≡ false
or_right a {b} h = ground arith

module _ (equals : RtValue → RtValue → Bool) where
  -- The value of a key.
  abbrev pub lookup : List RtValue → List RtValue → RtValue → Option RtValue
  lookup [] vs key = none
  lookup (k ∷ ks) [] key = none
  lookup (k ∷ ks) (v ∷ vs) key = if equals key k then some v else lookup ks vs key

  abbrev pub has_key : RtValue → List RtValue → Bool
  has_key key [] = false
  has_key key (k ∷ ks) = equals key k || has_key key ks

  -- No two keys are equal.
  abbrev pub Distinct : List RtValue → Type 0
  Distinct [] = Unit {0}
  Distinct (k ∷ ks) = (has_key k ks ≡ false) × Distinct ks

  -- The loop of `get` finds the value of the key, or leaves null.
  pub get_in-lookup :
      (ks vs : List RtValue) (key : RtValue)
      → get_in equals ks vs key ≡ elim (lookup ks vs key) [ none ↦ box_null | some v ↦ v ]
  unfolding get_in
  get_in-lookup [] vs key = refl
  get_in-lookup (k ∷ ks) [] key = refl
  get_in-lookup (k ∷ ks) (v ∷ vs) key = elim (Bool-cases (equals key k)) [
    | inl e ↦ rw e refl
    | inr e ↦ rw e (get_in-lookup ks vs key)
  ]

  -- `index_in` finds an index below the length, or no key is equal.
  pub index_in-some :
      (ks : List RtValue) (key : RtValue) (i : ℕ)
      → index_in equals ks key ≡ some i
      → (i < length ks) × (has_key key ks ≡ true)
  unfolding index_in
  index_in-some [] key i h = cc
  index_in-some (k ∷ ks) key i h = elim (Bool-cases (equals key k)) [
    | inl e ↦ ground (arith, Option-cases (index_in equals ks key))
    | inr e ↦ elim (Option-cases (index_in equals ks key)) [
      | inl n ↦ ground arith
      | inr (j, f) ↦ let r = index_in-some ks key j f in ground arith
    ]
  ]

  pub index_in-none :
      (ks : List RtValue) (key : RtValue) → index_in equals ks key ≡ none → has_key key ks ≡ false
  unfolding index_in
  index_in-none [] key h = refl
  index_in-none (k ∷ ks) key h = elim (Bool-cases (equals key k)) [
    | inl e ↦ ground arith
    | inr e ↦ elim (Option-cases (index_in equals ks key)) [
      | inl n ↦ rw (e, index_in-none ks key n) refl
      | inr (j, f) ↦ ground arith
    ]
  ]

  -- Where no key is equal there is no value.
  pub lookup-absent :
      (ks vs : List RtValue) (key : RtValue) → has_key key ks ≡ false → lookup ks vs key ≡ none
  lookup-absent [] vs key h = refl
  lookup-absent (k ∷ ks) [] key h = refl
  lookup-absent (k ∷ ks) (v ∷ vs) key h = elim (Bool-cases (equals key k)) [
    | inl e ↦ cc
    | inr e ↦ rw e (lookup-absent ks vs key cc)
  ]

  -- A new key at the end.
  pub lookup-append_one :
      (ks vs : List RtValue) (k v key : RtValue)
      → length ks ≡ length vs
      → has_key k ks ≡ false
      → (equals key k ≡ true → has_key key ks ≡ false)
      → lookup (ks ++ (k ∷ [])) (vs ++ (v ∷ [])) key
        ≡ (if equals key k then some v else lookup ks vs key)
  lookup-append_one [] [] k v key n h c = refl
  lookup-append_one [] (w ∷ vs) k v key n h c = absurd (omega arith)
  lookup-append_one (j ∷ ks) [] k v key n h c = absurd (omega arith)
  lookup-append_one (j ∷ ks) (w ∷ vs) k v key n h c = elim (Bool-cases (equals key j)) [
    | inl e ↦ elim (Bool-cases (equals key k)) [
      | inl f ↦ absurd (not_both (c f) (rw e refl))
      | inr f ↦ rw (e, f) refl
    ]
    | inr e ↦
        rw (e)
          (lookup-append_one ks vs k v key (omega arith) (or_right _ h) (λ f. or_right _ (c f)))
  ]

  module _ (law : Equality equals) where
    -- Equal keys are equal to the same keys.
    pub equals_congr : (a b k : RtValue) → equals a b ≡ true → equals a k ≡ equals b k
    equals_congr a b k e = elim (Bool-cases (equals a k)) [
      | inl p ↦ p ∙ sym (law.chain b a k (law.swap a b e) p)
      | inr p ↦ elim (Bool-cases (equals b k)) [
        | inl q ↦ absurd (not_both p (law.chain a b k e q))
        | inr q ↦ p ∙ sym q
      ]
    ]

    pub equals_congr_right : (a b k : RtValue) → equals a b ≡ true → equals k a ≡ equals k b
    equals_congr_right a b k e = elim (Bool-cases (equals k a)) [
      | inl p ↦ p ∙ sym (law.chain k a b p e)
      | inr p ↦ elim (Bool-cases (equals k b)) [
        | inl q ↦ absurd (not_both p (law.chain k b a q (law.swap a b e)))
        | inr q ↦ p ∙ sym q
      ]
    ]

    pub has_key_congr :
        (a b : RtValue) (ks : List RtValue) → equals a b ≡ true → has_key a ks ≡ has_key b ks
    has_key_congr a b [] e = refl
    has_key_congr a b (k ∷ ks) e = rw (equals_congr a b k e, has_key_congr a b ks e) refl
