-- ===== src/ConcurrentMap/Values.antt =====
-- What the stores to a table change in the values of the keys.
use clojure_rt.Base.{
  ℕ, ◌<◌, ◌≡◌, refl, sym, ◌∙◌, arith, ◌⊎◌, inl, inr, Bool, true, false, none, some, Bool-cases,
  ==_self,
}
use clojure_rt.Value.{RtValue, is_null, box_nil, box_null}
use clojure_rt.ConcurrentMap.Ops.{Node, slot, hash_of_key, store_new, store_value}
use clojure_rt.ConcurrentMap.Links.{hash_at}
use clojure_rt.ConcurrentMap.Search.{Matches, some-inj}
use clojure_rt.ConcurrentMap.Valid.{key_at, IsValid, KeyLaws, equal-Matches}
use clojure_rt.ConcurrentMap.Insert.{Absent, Extended, hash_of_key-lt}
use clojure_rt.ConcurrentMap.Writes.{value_at, store_new-Stored, store_value-Stored, store_new-key}
use clojure_rt.ConcurrentMap.Read.{
  one_cell, is_null-box_null, Reading, present, absent, Answers, Answers-unique, Reading-Answers,
  Reading-exists,
}

not_both : {b : Bool} → b ≡ false → b ≡ true → ⊥
not_both p q = cc

module _ (equals : RtValue → RtValue → Bool) (hash : RtValue → ℕ) where
  -- Tables that differ only in cells that do not have the key.
  SameOn : RtValue → Node → Node → Type 0
  SameOn q t u =
      (s : ℕ)
      → ((hash_at u s ≡ hash_at t s) × (key_at u s ≡ key_at t s) × (value_at u s ≡ value_at t s))
        ⊎ ((0 < hash_at t s → equals (key_at t s) q ≡ false)
            × (0 < hash_at u s → equals (key_at u s) q ≡ false))

  Reading-SameOn :
      (q r : RtValue) (t u : Node)
      → SameOn q t u
      → Reading equals hash t q r
      → Reading equals hash u q r
  unfolding SameOn
  Reading-SameOn q r t u same (present s p e v n) = elim (same s) [
    | inl (h, k, w) ↦ present s (rw h p) (rw k e) (w ∙ v) n
    | inr (f, g) ↦ absurd (not_both (f p) e)
  ]
  Reading-SameOn q r t u same (absent none_has e) =
      absent
        (λ s p' e'. elim (same s) [
          | inl (h, k, w) ↦ rw w (none_has s (rw h at p') (rw k at e'))
          | inr (f, g) ↦ absurd (not_both (g p') e')
        ])
        e

  module _ (laws : KeyLaws equals hash) {t : Node} (valid : IsValid equals hash t)
      (key q : RtValue) where
    -- The store to a new cell, for another key.
    pub Reading-new_other :
        (i : ℕ) {u : Node} (v r : RtValue)
        → equals key q ≡ false
        → Extended equals hash key t (some (slot t i)) u
        → Reading equals hash t q r
        → Reading equals hash (store_new i key v u) q r
    unfolding SameOn
    Reading-new_other i {u} v r other e =
        let here : slot u i ≡ slot t i = rw e.frame.size refl in
        Reading-SameOn q r t (store_new i key v u) (λ s.
          let (h, l, cell) = store_new-Stored i key v u s in
          elim cell [
            | inl (k, w) ↦ elim (e.frame.hashes s) [
              | inl h' ↦ inl (h ∙ h', k ∙ e.frame.keys s, w ∙ e.frame.values s)
              | inr (z, n, at_c) ↦
                  let at_i = sym (some-inj at_c) ∙ sym here in
                  inr (
                    (λ p. absurd (omega arith)),
                    λ p. rw ((store_new-key i key v u s at_i).0) other,
                  )
            ]
            | inr (at_i, k, w) ↦
                let (z, n) = e.fresh s (rw (at_i, here) refl) in
                inr ((λ p. absurd (omega arith)), λ p. rw k other)
          ])

    pub Reading-new_self :
        (i : ℕ) {u : Node} (v : RtValue)
        → equals key q ≡ true
        → is_null v ≡ false
        → Extended equals hash key t (some (slot t i)) u
        → Reading equals hash (store_new i key v u) q v
    Reading-new_self i {u} v same some_value e =
        let here : slot u i ≡ slot t i = rw e.frame.size refl in
        let (k, w) = store_new-key i key v u (slot u i) refl in
        let (z, n) = e.fresh (slot u i) (rw here refl) in
        let h = (store_new-Stored i key v u (slot u i)).0 in
        present (slot u i) (rw (h, n) ((hash_of_key-lt equals hash key laws).0)) (rw k same) w
          some_value

    -- Links alone do not change values.
    pub Reading-none :
        {u : Node} (r : RtValue)
        → Extended equals hash key t none u
        → Reading equals hash t q r
        → Reading equals hash u q r
    unfolding SameOn
    Reading-none {u} r e = Reading-SameOn q r t u (λ s. elim (e.frame.hashes s) [
      | inl h ↦ inl (h, e.frame.keys s, e.frame.values s)
      | inr (z, n, at_c) ↦ absurd (cc)
    ])

    -- The store of the value that a cell has.
    pub Reading-store_same :
        (i : ℕ) (r : RtValue)
        → Reading equals hash t q r
        → Reading equals hash (store_value i (value_at t (slot t i)) t) q r
    unfolding SameOn
    Reading-store_same i r = Reading-SameOn q r t (store_value i (value_at t (slot t i)) t) (λ s.
        let (h, l, cell) = store_value-Stored i key (value_at t (slot t i)) t s in
        elim cell [
          | inl (k, x) ↦ inl (h, k, x)
          | inr (at_i, k, x) ↦ inl (h, k ∙ rw at_i refl, x ∙ rw at_i refl)
        ])

    -- A key that is equal to one without a cell has no value.
    pub Answers-Absent :
        (r : RtValue)
        → equals key q ≡ true
        → Absent equals hash key t
        → Answers equals hash t q r
        → r ≡ box_nil
    Answers-Absent r same none_has a = Answers-unique equals hash t q r box_nil a (
        Reading-Answers equals hash laws valid q box_nil (
          absent
            (λ s p e. absurd (
              none_has s (
                equal-Matches equals hash laws valid s p
                  (laws.law.chain (key_at t s) q key e (laws.law.swap key q same)))))
            refl))

    module _ (i : ℕ) (m : Matches equals t (hash_of_key hash key) key (slot t i)) where
      -- The store to the value of the key's cell, for another key.
      pub Reading-store_other :
          (w r : RtValue)
          → equals key q ≡ false
          → Reading equals hash t q r
          → Reading equals hash (store_value i w t) q r
      unfolding SameOn
      Reading-store_other w r other = Reading-SameOn q r t (store_value i w t) (λ s.
          let (h, l, cell) = store_value-Stored i key w t s in
          elim cell [
            | inl (k, x) ↦ inl (h, k, x)
            | inr (at_i, k, x) ↦
                let differs : equals (key_at t (slot t i)) q ≡ false =
                  elim (Bool-cases (equals (key_at t (slot t i)) q)) [
                    | inr n ↦ n
                    | inl e ↦ absurd (
                        not_both other (
                          laws.law.chain key (key_at t (slot t i)) q
                            (laws.law.swap (key_at t (slot t i)) key m.1) e))
                  ] in
                inr ((λ p. rw at_i differs), λ p. rw k differs)
          ])

      key_stored : (w : RtValue) (s : ℕ) → key_at (store_value i w t) s ≡ key_at t s
      key_stored w s = elim ((store_value-Stored i key w t s).2) [
        | inl (k, x) ↦ k
        | inr (at_i, k, x) ↦ k ∙ rw at_i refl
      ]

      value_stored : (w : RtValue) → value_at (store_value i w t) (slot t i) ≡ w
      unfolding store_value
      value_stored w = rw (==_self (slot t i), value_at) refl

      hash_stored : (w : RtValue) (s : ℕ) → hash_at (store_value i w t) s ≡ hash_at t s
      hash_stored w s = (store_value-Stored i key w t s).0

      pub Reading-store_self :
          (w : RtValue)
          → equals key q ≡ true
          → is_null w ≡ false
          → Reading equals hash (store_value i w t) q w
      Reading-store_self w same some_value =
          present (slot t i)
            (rw (hash_stored w (slot t i), m.0) ((hash_of_key-lt equals hash key laws).0))
            (rw (key_stored w (slot t i)) (laws.law.chain (key_at t (slot t i)) key q m.1 same))
            (value_stored w) some_value

      pub Reading-store_null :
          equals key q ≡ true → Reading equals hash (store_value i box_null t) q box_nil
      Reading-store_null same =
          absent
            (λ s p e.
              let e' = rw (key_stored box_null s) at e in
              let to_key = laws.law.chain (key_at t s) q key e' (laws.law.swap key q same) in
              let at_i = one_cell equals hash laws valid key (slot t i) s m (
                equal-Matches equals hash laws valid s (rw (hash_stored box_null s) at p) to_key) in
              rw (at_i, value_stored box_null) is_null-box_null)
            refl

  module _ (laws : KeyLaws equals hash) {t : Node} (valid : IsValid equals hash t) where
    pub Answers-Reading : (q r : RtValue) → Answers equals hash t q r → Reading equals hash t q r
    Answers-Reading q r a =
        let (r', reading) = Reading-exists equals hash laws valid q in
        let same =
          Answers-unique equals hash t q r' r (Reading-Answers equals hash laws valid q r' reading)
            a in
        rw (← same) reading
