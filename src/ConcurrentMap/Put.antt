-- ===== src/ConcurrentMap/Put.antt =====
-- `putIfAbsent` and `getOrCreate` of backend/runtime/ConcurrentHashMap.c.
use mathlib.Core.Path.{subst}
use clojure_rt.Base.{
  ℕ, ◌≡◌, refl, ◌⊎◌, inl, inr, Bool, true, false, none, some, Bool-cases, Option-cases, Outcome, ok,
  throw, illegal_state,
}
use clojure_rt.Value.{RtValue, is_null, is_nil, box_nil}
use clojure_rt.ConcurrentMap.Ops.{
  Node, slot, hash_of_key, insert_or_find, InsertResult, already_found, inserted_new, overflow,
  put_if_absent, put_result, get_or_create, created,
}
use clojure_rt.ConcurrentMap.Search.{some-inj, Matches}
use clojure_rt.ConcurrentMap.Valid.{IsValid, KeyLaws, equal-Matches}
use clojure_rt.ConcurrentMap.Insert.{
  Inserted, at_match, at_new, at_overflow, insert_or_find-Inserted, hash_of_key-lt, Absent,
}
use clojure_rt.ConcurrentMap.Writes.{value_at}
use clojure_rt.ConcurrentMap.Read.{
  Answers, Answers-unique, Reading, present, absent, Reading-Answers, one_cell,
}
use clojure_rt.ConcurrentMap.Refine.{stored_for, new-Answers, found-Answers, overflow-Answers}

is_nil-box_nil : is_nil box_nil ≡ true
unfolding is_nil
is_nil-box_nil = refl

-- What `getOrCreate` of a value under a key that had the value `old` leaves for a key q that had the value r.
pub data AfterCreate (equals : RtValue → RtValue → Bool) (hash : RtValue → ℕ)
    (key v old q r : RtValue) : Outcome RtValue × Node → Type 0 where
  kept_old :
      {u : Node}
      → IsValid equals hash u
      → is_nil old ≡ false
      → Answers equals hash u q r
      → AfterCreate equals hash key v old q r (ok old, u)
  stored :
      {u : Node}
      → IsValid equals hash u
      → old ≡ box_nil
      → Answers equals hash u q (stored_for equals key v q r)
      → AfterCreate equals hash key v old q r (ok v, u)
  overcrowded :
      {u : Node}
      → IsValid equals hash u
      → old ≡ box_nil
      → Answers equals hash u q r
      → AfterCreate equals hash key v old q r (
        throw (
            illegal_state
              "ConcurrentHashMap_putIfAbsent - overcrowded - resizing not yet supported"),
        u,
      )

module _ (equals : RtValue → RtValue → Bool) (hash : RtValue → ℕ) (laws : KeyLaws equals hash)
    {t : Node} (valid : IsValid equals hash t) (key : RtValue) where
  -- The value of a key with a cell, and of a key without one.
  value_of_match :
      (s : ℕ) (old : RtValue)
      → Matches equals t (hash_of_key hash key) key s
      → Answers equals hash t key old
      → ((is_null (value_at t s) ≡ true) × (old ≡ box_nil))
        ⊎ ((is_null (value_at t s) ≡ false) × (old ≡ value_at t s))
  value_of_match s old m a =
      let reads = λ (r : RtValue) (x : Reading equals hash t key r).
        Answers-unique equals hash t key old r a (Reading-Answers equals hash laws valid key r x) in
      elim (Bool-cases (is_null (value_at t s))) [
        | inr n ↦ inr (
          n,
          reads (value_at t s)
              (present s (rw (m.0) ((hash_of_key-lt equals hash key laws).0)) (m.1) refl n),
        )
        | inl n ↦ inl (
          n,
          reads box_nil (
              absent
                (λ i p e.
                  rw
                    (one_cell equals hash laws valid key s i m
                      (equal-Matches equals hash laws valid i p e))
                    n)
                refl),
        )
      ]

  value_of_Absent :
      (old : RtValue) → Absent equals hash key t → Answers equals hash t key old → old ≡ box_nil
  value_of_Absent old none_has a = Answers-unique equals hash t key old box_nil a (
      Reading-Answers equals hash laws valid key box_nil
        (absent (λ s p e. absurd (none_has s (equal-Matches equals hash laws valid s p e))) refl))

  module _ (v old q r : RtValue) (some_key : is_null key ≡ false) (some_value : is_null v ≡ false)
      (no_nil : (s : ℕ) → is_nil (value_at t s) ≡ false) (a : Answers equals hash t key old)
      (b : Answers equals hash t q r) where
    created-After :
        (res : InsertResult) (u : Node)
        → Inserted equals hash key t res u
        → AfterCreate equals hash key v old q r (created v (put_result key v (res, u)))
    unfolding created put_result
    created-After (already_found i) u (at_match _ m) = elim (value_of_match (slot t i) old m a) [
      | inl (n, e) ↦
          let (valid', a') =
            found-Answers equals hash laws valid key v some_key some_value i (at_match i m) q r b in
          rw (n, is_nil-box_nil) (stored valid' e a')
      | inr (n, e) ↦
          let no_nil' : is_nil old ≡ false = rw e (no_nil (slot t i)) in
          rw (n, ← e, no_nil') (kept_old valid no_nil' b)
    ]
    created-After (inserted_new i) u (at_new _ none_has e) =
        let (valid', a') =
          new-Answers equals hash laws valid key v some_key some_value i (at_new i none_has e) q r
            b in
        rw is_nil-box_nil (stored valid' (value_of_Absent old none_has a) a')
    created-After (overflow i) u (at_overflow _ none_has e) =
        let (valid', a') =
          overflow-Answers equals hash laws valid key v some_key some_value i
            (at_overflow i none_has e) q r b in
        overcrowded valid' (value_of_Absent old none_has a) a'

    -- For a valid table in which no cell has the value nil, laws of the keys, and a key and a value that are not null: where
    -- `getOrCreate` returns, the table is valid, and one of three holds. The key had a value, which is the result, and `get` of
    -- every key returns what it returned before. Or the key had none, the new value is the result, and `get` of an equal key
    -- returns it, and of any other key what it returned before. Or the key had none, the result is the exception
    -- that the table is overcrowded, and `get` of every key returns what it returned before.
    pub get_or_create-After :
        (fuel : ℕ) (result : Outcome RtValue × Node)
        → get_or_create equals hash fuel t key v ≡ some result
        → AfterCreate equals hash key v old q r result
    unfolding get_or_create put_if_absent
    get_or_create-After fuel result run =
        elim (Option-cases (insert_or_find equals fuel (hash_of_key hash key) key t)) [
          | inl n ↦ absurd (let no : none ≡ some result = rw n at run in cc)
          | inr ((res, u), e) ↦
              subst (AfterCreate equals hash key v old q r) (some-inj (rw e at run)) (
                created-After res u
                  (insert_or_find-Inserted equals hash key laws valid fuel res u e))
        ]
