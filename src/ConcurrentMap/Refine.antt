-- ===== src/ConcurrentMap/Refine.antt =====
-- `assoc` and `putIfAbsent` of backend/runtime/ConcurrentHashMap.c as operations on the values of the keys.
use mathlib.Core.Path.{subst}
use clojure_rt.Base.{
  ℕ, ◌≡◌, refl, ◌⊎◌, inl, inr, Bool, false, none, some, Bool-cases, Option-cases, if◌then◌else◌,
  Outcome, ok, throw, illegal_state,
}
use clojure_rt.Value.{RtValue, is_null}
use clojure_rt.ConcurrentMap.Ops.{
  Node, hash_of_key, store_new, store_value, assoc, assoc_result, insert_or_find, InsertResult,
  already_found, inserted_new, overflow,
}
use clojure_rt.ConcurrentMap.Search.{some-inj}
use clojure_rt.ConcurrentMap.Valid.{IsValid, KeyLaws, Grown-IsValid}
use clojure_rt.ConcurrentMap.Insert.{
  Inserted, at_match, at_new, at_overflow, insert_or_find-Inserted,
}
use clojure_rt.ConcurrentMap.Writes.{Grown-new, Grown-none, Grown-store_value}
use clojure_rt.ConcurrentMap.Read.{Answers, Reading-Answers}
use clojure_rt.ConcurrentMap.Values.{
  Answers-Reading, Reading-new_other, Reading-new_self, Reading-none, Reading-store_other,
  Reading-store_self,
}

-- The value of a key q after a store of v under a key.
abbrev pub stored_for : (RtValue → RtValue → Bool) → (key v q r : RtValue) → RtValue
stored_for equals key v q r = if equals key q then v else r

-- What `assoc` of a value under a key leaves for a key q that had the value r.
abbrev pub AfterAssoc :
    (equals : RtValue → RtValue → Bool) (hash : RtValue → ℕ) (key v q r : RtValue)
    → Outcome (Unit {0}) × Node
    → Type 0
AfterAssoc equals hash key v q r (o, u) =
    IsValid equals hash u
    × (((o ≡ ok tt) × Answers equals hash u q (stored_for equals key v q r))
        ⊎ ((o
              ≡ throw (
                  illegal_state
                    "ConcurrentHashMap_assoc - overcrowded - resizing not yet supported"))
            × Answers equals hash u q r))

module _ (equals : RtValue → RtValue → Bool) (hash : RtValue → ℕ) (laws : KeyLaws equals hash)
    {t : Node} (valid : IsValid equals hash t) (key v : RtValue) (some_key : is_null key ≡ false)
    (some_value : is_null v ≡ false) where
  -- The stores of an operation that has inserted or found the key.
  pub new-Answers :
      (i : ℕ) {u : Node}
      → Inserted equals hash key t (inserted_new i) u
      → (q r : RtValue) → Answers equals hash t q r
      → IsValid equals hash (store_new i key v u)
        × Answers equals hash (store_new i key v u) q (stored_for equals key v q r)
  new-Answers i {u} (at_new _ none_has e) q r a =
      let valid' =
        Grown-IsValid equals hash laws some_key valid (Grown-new equals hash key i v none_has e) in
      (
        valid',
        Reading-Answers equals hash laws valid' q (stored_for equals key v q r)
            (elim (Bool-cases (equals key q)) [
              | inl same ↦
                  rw same (Reading-new_self equals hash laws valid key q i v same some_value e)
              | inr other ↦ rw other (
                  Reading-new_other equals hash laws valid key q i v r other e
                    (Answers-Reading equals hash laws valid q r a))
            ]),
      )

  pub found-Answers :
      (i : ℕ) {u : Node}
      → Inserted equals hash key t (already_found i) u
      → (q r : RtValue) → Answers equals hash t q r
      → IsValid equals hash (store_value i v u)
        × Answers equals hash (store_value i v u) q (stored_for equals key v q r)
  found-Answers i (at_match _ m) q r a =
      let valid' =
        Grown-IsValid equals hash laws some_key valid
          (Grown-store_value equals hash key valid i v) in
      (
        valid',
        Reading-Answers equals hash laws valid' q (stored_for equals key v q r)
            (elim (Bool-cases (equals key q)) [
              | inl same ↦
                  rw same (Reading-store_self equals hash laws valid key q i m v same some_value)
              | inr other ↦ rw other (
                  Reading-store_other equals hash laws valid key q i m v r other
                    (Answers-Reading equals hash laws valid q r a))
            ]),
      )

  pub overflow-Answers :
      (i : ℕ) {u : Node}
      → Inserted equals hash key t (overflow i) u
      → (q r : RtValue) → Answers equals hash t q r
      → IsValid equals hash u × Answers equals hash u q r
  overflow-Answers i {u} (at_overflow _ none_has e) q r a =
      let valid' = Grown-IsValid equals hash laws some_key valid (Grown-none equals hash key e) in
      (
        valid',
        Reading-Answers equals hash laws valid' q r (
            Reading-none equals hash laws valid key q r e
              (Answers-Reading equals hash laws valid q r a)),
      )

  assoc_result-Answers :
      (res : InsertResult) (u : Node)
      → Inserted equals hash key t res u
      → (q r : RtValue) → Answers equals hash t q r
      → AfterAssoc equals hash key v q r (assoc_result key v (res, u))
  unfolding assoc_result
  assoc_result-Answers (already_found i) u ins q r a =
      let (valid', a') = found-Answers i ins q r a in (valid', inl (refl, a'))
  assoc_result-Answers (inserted_new i) u ins q r a =
      let (valid', a') = new-Answers i ins q r a in (valid', inl (refl, a'))
  assoc_result-Answers (overflow i) u ins q r a =
      let (valid', a') = overflow-Answers i ins q r a in (valid', inr (refl, a'))

  -- For a valid table, laws of the keys, and a key and a value that are not null: an `assoc` that returns leaves a valid
  -- table. Where it does not throw, `get` of a key that is equal to the one stored returns the value, and of any other key what it
  -- returned before. Where it throws that the table is overcrowded, `get` of every key returns what it returned before.
  pub assoc-Answers :
      (fuel : ℕ) (result : Outcome (Unit {0}) × Node)
      → assoc equals hash fuel t key v ≡ some result
      → (q r : RtValue) → Answers equals hash t q r
      → AfterAssoc equals hash key v q r result
  unfolding assoc
  assoc-Answers fuel result run q r a =
      elim (Option-cases (insert_or_find equals fuel (hash_of_key hash key) key t)) [
        | inl n ↦ absurd (let no : none ≡ some result = rw n at run in cc)
        | inr ((res, u), e) ↦
            let same : assoc_result key v (res, u) ≡ result = some-inj (rw e at run) in
            subst (AfterAssoc equals hash key v q r) same (
              assoc_result-Answers res u
                (insert_or_find-Inserted equals hash key laws valid fuel res u e) q r a)
      ]
