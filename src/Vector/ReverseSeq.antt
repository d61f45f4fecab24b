-- ===== src/Vector/ReverseSeq.antt =====
-- Sequences from the end of a vector to its start (backend/runtime/PersistentVectorReverseSeq.c, and
-- `rseq` of PersistentVector.c).
use clojure_rt.Base.{
  ℕ, zero, suc, ◌+◌, ◌-◌, ◌≤◌, ◌<◌, ◌^◌, ◌≡◌, refl, sym, ap, ◌∙◌, Bool, true, false, Option, none,
  some, List, [], ◌∷◌, ◌++◌, length, take, get_elem?, get_elem?-lt, if◌then◌else◌, ◌==◌, arith, ℤ,
  pos, negsuc, is_negative, to_word, to_int32, sub_word, Outcome, ok, undefined, ◌>>=◌, Bool-cases,
  inl, inr,
}
use clojure_rt.Value.{RtValue}
use clojure_rt.Vector.Node.{fresh}
use clojure_rt.Vector.Ops.{Vector, nth}
use clojure_rt.Vector.Valid.{elements, IsValid}
use clojure_rt.Vector.Refine.{nth-checked}

pub record ReverseSeq : Type 0 where
  pub address : ℕ
  pub vector : Vector
  pub index : ℤ

-- `PersistentVectorReverseSeq_create`: nil where the index is negative.
unfoldable pub create : Vector → ℤ → Option ReverseSeq
create v index =
    if is_negative index then none else some (record { address = fresh; vector = v; index = index })

-- `PersistentVectorReverseSeq_first`
unfoldable pub first : ReverseSeq → Outcome RtValue
first s = nth s.vector (to_word s.index)

-- `index <= 0` and `index - 1` on an `int32_t` that is not the smallest.
abbrev pub at_start : ℤ → Bool
at_start (pos n) = n == 0
at_start (negsuc n) = true

abbrev pub before : ℤ → ℤ
before (pos zero) = negsuc 0
before (pos (suc n)) = pos n
before (negsuc n) = negsuc (suc n)

-- `PersistentVectorReverseSeq_next`
unfoldable pub next : (sole : ℕ → Bool) → ReverseSeq → Option ReverseSeq
unfolding create
next sole s =
    if at_start s.index
    then none
    else if sole s.address
    then some (record s { index = before s.index })
    else create s.vector (before s.index)

-- `PersistentVectorReverseSeq_count`
unfoldable pub count_left : ReverseSeq → ℤ
count_left s = elim s.index [
  | pos n ↦ pos (n + 1)
  | negsuc zero ↦ pos 0
  | negsuc (suc n) ↦ negsuc n
]

-- `PersistentVector_rseq`
unfoldable pub rseq : Vector → Option ReverseSeq
unfolding create
rseq v = if v.count == 0 then none else create v (to_int32 (sub_word v.count 1))

-- What a consumer sees that takes `first` and goes on with `next` until nil; `undefined` where the
-- number of steps is not enough.
unfoldable pub collect : (sole : ℕ → Bool) (steps : ℕ) → Option ReverseSeq → Outcome (List RtValue)
unfolding first next
collect sole zero s = undefined
collect sole (suc steps) none = ok []
collect sole (suc steps) (some s) =
    first s >>= λ x. collect sole steps (next sole s) >>= λ xs. ok (x ∷ xs)

abbrev pub reversed : List RtValue → List RtValue
reversed [] = []
reversed (x ∷ xs) = reversed xs ++ (x ∷ [])

reversed-append_one :
    (xs : List RtValue) (x : RtValue) → reversed (xs ++ (x ∷ [])) ≡ x ∷ reversed xs
reversed-append_one [] x = refl
reversed-append_one (y ∷ xs) x = ap (λ ys. ys ++ (y ∷ [])) (reversed-append_one xs x)

take-suc :
    (xs : List RtValue) (n : ℕ) (x : RtValue)
    → get_elem? xs n ≡ some x
    → take (suc n) xs ≡ take n xs ++ (x ∷ [])
take-suc [] n x e = cc
take-suc (y ∷ xs) zero x e = ap (λ o. elim o [ none ↦ [] | some z ↦ z ∷ [] ]) e
take-suc (y ∷ xs) (suc n) x e = ap (◌∷◌ y) (take-suc xs n x e)

take-length : (xs : List RtValue) → take (length xs) xs ≡ xs
take-length [] = refl
take-length (x ∷ xs) = ap (◌∷◌ x) (take-length xs)

pub no_elements : (xs : List RtValue) → length xs ≡ 0 → xs ≡ []
no_elements [] e = refl
no_elements (x ∷ xs) e = absurd (omega (arith, e))

module _ (sole : ℕ → Bool) where
  collect-take :
      (n steps : ℕ) {v : Vector} (a : ℕ)
      → IsValid v
      → n < v.count
      → n + 1 < steps
      → collect sole steps (some (record { address = a; vector = v; index = pos n }))
        ≡ ok (reversed (take (suc n) (elements v)))
  unfolding collect first next create
  collect-take n zero a i inside enough = absurd (omega (arith, enough))
  collect-take n (suc zero) a i inside enough = absurd (omega (arith, enough))
  collect-take zero (suc (suc steps)) {v} a i inside enough =
      let (x, e) = get_elem?-lt (elements v) 0 (omega (arith, inside, i.counted)) in
      rw (nth-checked 0 i, e, take-suc (elements v) 0 x e) refl
  collect-take (suc n) (suc (suc steps)) {v} a i inside enough =
      let (x, e) = get_elem?-lt (elements v) (suc n) (omega (arith, inside, i.counted)) in
      let later : suc n == 0 ≡ false = ground arith in
      elim (Bool-cases (sole a)) [
        | inl s ↦
            let rest =
              collect-take n (suc steps) a i (omega (arith, inside)) (omega (arith, enough)) in
            rw (nth-checked (suc n) i, e, later, s, rest, take-suc (elements v) (suc n) x e)
              (ap ok (sym (reversed-append_one (take (suc n) (elements v)) x)))
        | inr s ↦
            let rest =
              collect-take n (suc steps) fresh i (omega (arith, inside)) (omega (arith, enough)) in
            rw (nth-checked (suc n) i, e, later, s, rest, take-suc (elements v) (suc n) x e)
              (ap ok (sym (reversed-append_one (take (suc n) (elements v)) x)))
      ]

  -- For a valid vector of at most 2 ^ 31 elements and any answers of `Ptr_isReusable`: a consumer of `rseq`
  -- that takes one step more than there are elements sees the elements from the last to the first.
  pub collect-rseq :
      {v : Vector}
      → IsValid v
      → v.count ≤ 2 ^ 31
      → collect sole (v.count + 1) (rseq v) ≡ ok (reversed (elements v))
  unfolding collect rseq create
  collect-rseq {v} i small = elim (Bool-cases (v.count == 0)) [
    | inl e ↦
        let none_there : length (elements v) ≡ 0 = ground (arith, i.counted) in
        let steps : v.count + 1 ≡ suc v.count = omega arith in
        rw (e, steps) (ap (λ xs. ok (reversed xs)) (sym (no_elements (elements v) none_there)))
    | inr e ↦
        let index : to_int32 (sub_word v.count 1) ≡ pos (v.count - 1) = ground arith in
        let all : suc (v.count - 1) ≡ length (elements v) = ground (arith, i.counted) in
        rw (e, index)
          (collect-take (v.count - 1) (v.count + 1) fresh i (ground arith) (ground arith)
            ∙ rw (all, take-length (elements v)) refl)
  ]
