-- ===== src/Keywords/Again.antt =====
-- Interning a string twice.
use mathlib.Core.Path.{subst}
use clojure_rt.Base.{
  ℕ, ◌+◌, ◌%◌, ◌^◌, ◌<◌, ◌≡◌, refl, Bool, true, false, none, some, Outcome, ok, throw, undefined,
  Bool-cases, Option-cases, ==_iff, ◌==◌, inl, inr,
}
use clojure_rt.Value.{
  RtValue, is_nil, is_null, box_nil, box_keyword, is_keyword, tag_nil, tag_null, nil_type,
}
use clojure_rt.Value.Boxing.{unbox_keyword-box_keyword}
use clojure_rt.ConcurrentMap.Ops.{Node, assoc, dissoc, put_if_absent, get_or_create, created}
use clojure_rt.ConcurrentMap.Search.{some-inj}
use clojure_rt.ConcurrentMap.Valid.{IsValid, KeyLaws}
use clojure_rt.ConcurrentMap.Writes.{value_at}
use clojure_rt.ConcurrentMap.Read.{Answers, Reading, present, absent, Reading-Answers, get-ends}
use clojure_rt.ConcurrentMap.Values.{Answers-Reading}
use clojure_rt.ConcurrentMap.Put.{AfterCreate, kept_old, stored, get_or_create-After}
use clojure_rt.Keywords.Ops.{Interned, create_keyword, intern_new, keyword_result}

-- A keyword is neither nil nor null.
keyword_value :
    (n : ℕ) → n < 2 ^ 32 → (is_nil (box_keyword n) ≡ false) × (is_null (box_keyword n) ≡ false)
unfolding is_nil is_null is_keyword
keyword_value n small =
    let kind = (unbox_keyword-box_keyword (λ a. nil_type) n small).1.keyword in
    (
      elim (Bool-cases (box_keyword n == tag_nil)) [
        | inr z ↦ z
        | inl z ↦ absurd (
            let e = (==_iff (box_keyword n) tag_nil).0 z in
            let no : false ≡ true = rw e at kind in cc)
      ],
      elim (Bool-cases (box_keyword n == tag_null)) [
        | inr z ↦ z
        | inl z ↦ absurd (
            let e = (==_iff (box_keyword n) tag_null).0 z in
            let no : false ≡ true = rw e at kind in cc)
      ],
    )

module _ (equals : RtValue → RtValue → Bool) (hash : RtValue → ℕ) (laws : KeyLaws equals hash) where
  -- Equal keys have the same value.
  Answers_congr :
      {t : Node}
      → IsValid equals hash t
      → (key key' r : RtValue) → equals key key' ≡ true
      → Answers equals hash t key r
      → Answers equals hash t key' r
  Answers_congr {t} valid key key' r same a =
      Reading-Answers equals hash laws valid key' r
        (moved (Answers-Reading equals hash laws valid key r a))
    where
      moved : Reading equals hash t key r → Reading equals hash t key' r
      moved (present s p e v n) = present s p (laws.law.chain (t.entries s).key key key' e same) v n
      moved (absent none_has e) =
          absent
            (λ s p e'.
              none_has s p
                (laws.law.chain (t.entries s).key key' key e' (laws.law.swap key key' same)))
            e

  -- What the new tables hold for a key that is equal to the string.
  abbrev Holds : RtValue → Outcome RtValue × Interned → Type 0
  Holds string' (ok v, k) =
      IsValid equals hash k.keywords × Answers equals hash k.keywords string' v × (is_nil v ≡ false)
  Holds string' (throw e, k) = Unit {0}
  Holds string' (undefined, k) = Unit {0}

  module _ (string string' new : RtValue) (same : equals string string' ≡ true)
      (new_value : is_nil new ≡ false) where
    after_ok :
        {r w : RtValue} {u : Node}
        → AfterCreate equals hash string new box_nil string' r (ok w, u)
        → IsValid equals hash u × Answers equals hash u string' w × (is_nil w ≡ false)
    unfolding is_nil
    after_ok (kept_old valid n a) = absurd (cc)
    after_ok (stored valid e a) = (valid, rw same at a, new_value)

    keyword_result-Holds :
        (fuel : ℕ) (k : Interned) (r : RtValue) (o : Outcome RtValue) (u : Node)
        (result : Outcome RtValue × Interned)
        → AfterCreate equals hash string new box_nil string' r (created new (o, u))
        → keyword_result equals hash fuel k new (o, u) ≡ some result
        → Holds string' result
    unfolding created keyword_result
    keyword_result-Holds fuel k r (ok existing) u result after run =
        elim (Bool-cases (is_nil existing)) [
          | inl z ↦ subst (Holds string') (some-inj (rw z at run)) (after_ok (rw z at after))
          | inr z ↦ elim (Option-cases (dissoc equals hash fuel k.keywords_inverted new)) [
            | inl n ↦ absurd (let no : none ≡ some result = rw (z, n) at run in cc)
            | inr (i, e) ↦
                subst (Holds string') (some-inj (rw (z, e) at run)) (after_ok (rw z at after))
          ]
        ]
    keyword_result-Holds fuel k r (throw e) u result after run =
        subst (Holds string') (some-inj run) tt
    keyword_result-Holds fuel k r undefined u result after run =
        subst (Holds string') (some-inj run) tt

    intern_new-Holds :
        (fuel : ℕ) (k : Interned) (o : Outcome (Unit {0})) (i : Node)
        (result : Outcome RtValue × Interned)
        → IsValid equals hash k.keywords
        → ((s : ℕ) → is_nil (value_at k.keywords s) ≡ false)
        → is_null string ≡ false
        → is_null new ≡ false
        → Answers equals hash k.keywords string box_nil
        → intern_new equals hash fuel k string new (o, i) ≡ some result
        → Holds string' result
    unfolding intern_new get_or_create
    intern_new-Holds fuel k (throw e) i result valid no_nil not_null not_null' a run =
        subst (Holds string') (some-inj run) tt
    intern_new-Holds fuel k undefined i result valid no_nil not_null not_null' a run =
        subst (Holds string') (some-inj run) tt
    intern_new-Holds fuel k (ok done) i result valid no_nil not_null not_null' a run =
        elim (Option-cases (put_if_absent equals hash fuel k.keywords string new)) [
          | inl n ↦ absurd (let no : none ≡ some result = rw n at run in cc)
          | inr ((o, u), e) ↦
              let (r, reading, b) = get-ends equals hash laws valid string' in
              keyword_result-Holds fuel (record k { keywords_inverted = i }) r o u result
                (get_or_create-After equals hash laws valid string new box_nil string' r not_null
                  not_null' no_nil a b fuel (created new (o, u)) (rw e refl))
                (rw e at run)
        ]

  create_keyword-Holds :
      (k : Interned) (string string' old : RtValue) (fuel : ℕ) (result : Outcome RtValue × Interned)
      → IsValid equals hash k.keywords
      → ((s : ℕ) → is_nil (value_at k.keywords s) ≡ false)
      → is_null string ≡ false
      → k.min_unused_keyword < 2 ^ 32
      → equals string string' ≡ true
      → (a : Answers equals hash k.keywords string old)
      → create_keyword equals hash (a.0 + fuel) k string ≡ some result
      → Holds string' result
  unfolding create_keyword is_nil
  create_keyword-Holds k string string' old fuel result valid no_nil not_null small same a run =
      let found = a.1 fuel in
      elim (Bool-cases (is_nil old)) [
        | inr z ↦
            subst (Holds string') (some-inj (rw (found, z) at run))
              (valid, Answers_congr valid string string' old same a, z)
        | inl z ↦
            let nil_found : old ≡ box_nil = (==_iff old box_nil).0 z in
            let new = box_keyword k.min_unused_keyword in
            let (not_nil, not_null') = keyword_value k.min_unused_keyword small in
            elim (Option-cases (assoc equals hash (a.0 + fuel) k.keywords_inverted new string)) [
              | inl n ↦ absurd (let no : none ≡ some result = rw (found, z, n) at run in cc)
              | inr ((o, i), e) ↦
                  intern_new-Holds string string' new same not_nil (a.0 + fuel)
                    (record k { min_unused_keyword = (k.min_unused_keyword + 1) % 2 ^ 32 }) o i
                    result valid no_nil not_null not_null'
                    (subst (Answers equals hash k.keywords string) nil_found a)
                    (rw (found, z, e) at run)
            ]
      ]

  -- For a valid table of keywords in which no cell has the value nil, laws of the keys, a string that is not null, and a number that is
  -- a `uint32_t`: with enough fuel to look the string up, if `Keyword_create` of the string returns a keyword, then
  -- for every equal string a `Keyword_create` returns the same keyword with enough fuel, and changes nothing.
  pub create_keyword-again :
      (k : Interned) (string string' old : RtValue) (fuel : ℕ) (v : RtValue) (k' : Interned)
      → IsValid equals hash k.keywords
      → ((s : ℕ) → is_nil (value_at k.keywords s) ≡ false)
      → is_null string ≡ false
      → k.min_unused_keyword < 2 ^ 32
      → equals string string' ≡ true
      → (a : Answers equals hash k.keywords string old)
      → create_keyword equals hash (a.0 + fuel) k string ≡ some (ok v, k')
      → (n : ℕ) × ((fuel' : ℕ)
          → create_keyword equals hash (n + fuel') k' string' ≡ some (ok v, k'))
  unfolding create_keyword
  create_keyword-again k string string' old fuel v k' valid no_nil not_null small same a run =
      let (valid', (n, b), not_nil) = first in (n, λ fuel'. rw (b fuel', not_nil) refl)
    where
      first : Holds string' (ok v, k')
      first =
          create_keyword-Holds k string string' old fuel (ok v, k') valid no_nil not_null small same
            a run
