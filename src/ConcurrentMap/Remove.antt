-- ===== src/ConcurrentMap/Remove.antt =====
-- `dissoc` of backend/runtime/ConcurrentHashMap.c.
use native.Mathlib.Nat.{mod-mod}
use clojure_rt.Base.{
  ℕ, zero, suc, ◌+◌, ◌<◌, ◌≡◌, refl, arith, ◌⊎◌, inl, inr, Bool, true, false, some, List, [], ◌∷◌,
  Bool-cases, ◌==◌, ==_iff, if◌then◌else◌, length,
}
use clojure_rt.Value.{RtValue, is_null, box_nil, box_null}
use clojure_rt.ConcurrentMap.Ops.{
  ◌>>=◌, Node, slot, hash_of_key, store_value, try_deleting, dissoc, dissoc_from,
}
use clojure_rt.ConcurrentMap.Links.{hash_at, link, InBucket, Owner, Walk, end, step}
use clojure_rt.ConcurrentMap.Turn.{Among}
use clojure_rt.ConcurrentMap.Search.{Matches}
use clojure_rt.ConcurrentMap.Valid.{key_at, IsValid, KeyLaws, Grown-IsValid}
use clojure_rt.ConcurrentMap.Insert.{Absent, Absent-chain, Absent-empty}
use clojure_rt.ConcurrentMap.Writes.{value_at, Grown-store_value}
use clojure_rt.ConcurrentMap.Read.{Answers, Reading, Reading-Answers}
use clojure_rt.ConcurrentMap.Values.{
  Answers-Reading, Reading-store_other, Reading-store_null, Reading-store_same, Answers-Absent,
}
use clojure_rt.ConcurrentMap.Refine.{stored_for}

module _ (equals : RtValue → RtValue → Bool) (hash : RtValue → ℕ) (laws : KeyLaws equals hash)
    {t : Node} (valid : IsValid equals hash t) (key : RtValue) where
  abbrev h : ℕ
  h = hash_of_key hash key

  abbrev Here : ℕ → Type 0
  Here s = Matches equals t h key s

  -- What a cell of a chain gives.
  try_deleting-cases :
      (s : ℕ)
      → 0 < hash_at t s
      → (Here s × (try_deleting equals (t.entries s) key h ≡ some (true, box_null)))
        ⊎ ((Here s → ⊥) × (try_deleting equals (t.entries s) key h ≡ some (false, value_at t s)))
  unfolding try_deleting
  try_deleting-cases s p =
      let full : (hash_at t s == 0) ≡ false = ground arith in
      elim (Bool-cases (hash_at t s == h)) [
        | inr z ↦
            inr ((λ m. absurd (let q = (==_iff (hash_at t s) h).1 m.0 in cc)), rw (full, z) refl)
        | inl z ↦
            let same = (==_iff (hash_at t s) h).0 z in
            let some_key = (valid.keyed s p).0 in
            elim (Bool-cases (equals (key_at t s) key)) [
              | inl e ↦ inl ((same, e), rw (full, z, some_key, e) refl)
              | inr e ↦ inr ((λ m. absurd (let q = m.1 in cc)), rw (full, z, some_key, e) refl)
            ]
      ]

  empty_cell :
      (s : ℕ)
      → (hash_at t s == 0) ≡ true
      → try_deleting equals (t.entries s) key h ≡ some (true, value_at t s)
  unfolding try_deleting
  empty_cell s z = rw z refl

  dissoc_from_step :
      (fuel s jump : ℕ)
      → 0 < jump
      → dissoc_from equals (suc fuel) t h key s jump ≡ (
          try_deleting equals (t.entries (slot t (s + jump))) key h >>= λ r.
          if r.0
          then some (store_value (slot t (s + jump)) r.1 t)
          else dissoc_from equals fuel t h key
              (slot t (s + jump))
              (link t true (slot t (s + jump))))
  unfolding dissoc_from
  dissoc_from_step fuel s zero p = absurd (omega arith)
  dissoc_from_step fuel s (suc j) p = refl

  -- The loop: it removes the value of a cell with the key, or meets none.
  dissoc_from-Walk :
      (short : Bool) (s : ℕ) (path : List ℕ)
      → Owner t (slot t h) short s
      → Walk t short s path
      → ((i : ℕ) × Among i path
          × Here i
          × ((fuel : ℕ)
              → dissoc_from equals (suc (length path) + fuel) t h key s (link t short s)
                ≡ some (store_value i box_null t)))
        ⊎ (((i : ℕ) → Among i path → Here i → ⊥)
            × ((fuel : ℕ)
                → dissoc_from equals (suc (length path) + fuel) t h key s (link t short s)
                  ≡ some t))
  unfolding dissoc_from
  dissoc_from-Walk short s [] own (end z) =
      inr ((λ i a. absurd a), λ fuel. let e : 1 + fuel ≡ suc fuel = omega arith in rw (e, z) refl)
  dissoc_from-Walk short s (j ∷ path) own (step p e w) =
      let own' : InBucket t (slot t h) j = rw e (valid.links.owned (slot t h) short s own p) in
      let more : (fuel : ℕ) → suc (length (j ∷ path)) + fuel ≡ suc (suc (length path) + fuel) =
        λ fuel. omega arith in
      elim (try_deleting-cases j own'.0) [
        | inl (m, g) ↦ inl (
          j,
          inl refl,
          m,
          λ fuel.
              rw
                (
                  more fuel,
                  dissoc_from_step (suc (length path) + fuel) s (link t short s) p,
                  ← e,
                  g,
                )
                refl,
        )
        | inr (n, g) ↦ elim (dissoc_from-Walk true j path own' w) [
          | inl (i, a, m, run) ↦ inl (
            i,
            inr a,
            m,
            λ fuel.
                rw
                  (
                    more fuel,
                    dissoc_from_step (suc (length path) + fuel) s (link t short s) p,
                    ← e,
                    g,
                  )
                  (run fuel),
          )
          | inr (none_here, run) ↦ inr (
            (λ i a m. elim a [ inl at_j ↦ n (rw at_j at m) | inr a' ↦ none_here i a' m ]),
            λ fuel.
                rw
                  (
                    more fuel,
                    dissoc_from_step (suc (length path) + fuel) s (link t short s) p,
                    ← e,
                    g,
                  )
                  (run fuel),
          )
        ]
      ]

  -- What `dissoc` leaves.
  data Dissociated : Node → Type 0 where
    removed : (i : ℕ) → Here (slot t i) → Dissociated (store_value i box_null t)
    skipped :
        (i : ℕ) {v : RtValue}
        → Absent equals hash key t
        → v ≡ value_at t (slot t i)
        → Dissociated (store_value i v t)
    untouched : Absent equals hash key t → Dissociated t

  dissoc-Dissociated :
      (n : ℕ) × (u : Node) × ((fuel : ℕ) → dissoc equals hash (n + fuel) t key ≡ some u)
      × Dissociated u
  unfolding dissoc
  dissoc-Dissociated =
      let home = slot t h in
      let chain = valid.chain home in
      let same_slot : slot t home ≡ home = mod-mod h t.size in
      elim (Bool-cases (hash_at t home == 0)) [
        | inl z ↦ (
          0,
          store_value home (value_at t home) t,
          λ fuel. rw (empty_cell home z) refl,
          skipped home (Absent-empty equals hash key laws valid ((==_iff (hash_at t home) 0).0 z))
              (rw same_slot refl),
        )
        | inr z ↦ elim (try_deleting-cases home (ground arith)) [
          | inl (m, g) ↦
              (0, store_value home box_null t, λ fuel. rw g refl, removed home (rw same_slot m))
          | inr (n, g) ↦ elim (dissoc_from-Walk false home chain.path refl chain.walk) [
            | inl (i, a, m, run) ↦ (
              suc (length chain.path),
              store_value i box_null t,
              λ fuel. rw g (run fuel),
              removed i (rw (in_range chain.path false home chain.walk i a) m),
            )
            | inr (none_here, run) ↦ (
              suc (length chain.path),
              t,
              λ fuel. rw g (run fuel),
              untouched (Absent-chain equals hash key laws valid n none_here),
            )
          ]
        ]
      ]
    where
      in_range :
          (path : List ℕ) (short : Bool) (s : ℕ)
          → Walk t short s path
          → (i : ℕ) → Among i path
          → slot t i ≡ i
      in_range [] short s w i a = absurd a
      in_range (j ∷ path) short s (step p e w) i (inl at_j) =
          rw (at_j, e) (mod-mod (s + link t short s) t.size)
      in_range (j ∷ path) short s (step p e w) i (inr a) = in_range path true j w i a

  -- For a valid table, laws of the keys, and a key that is not null: `dissoc` returns with enough fuel, and leaves a valid table. `get` of
  -- a key that is equal to the one removed returns nil, and of any other key what it returned before.
  pub dissoc-Answers :
      is_null key ≡ false
      → (q r : RtValue) → Answers equals hash t q r
      → (n : ℕ) × (u : Node) × ((fuel : ℕ) → dissoc equals hash (n + fuel) t key ≡ some u)
        × IsValid equals hash u
        × Answers equals hash u q (stored_for equals key box_nil q r)
  dissoc-Answers some_key q r a =
      let (n, u, run, d) = dissoc-Dissociated in
      let (valid', reading) = after u d in
      (n, u, run, valid', Reading-Answers equals hash laws valid' q _ reading)
    where
      old : Reading equals hash t q r
      old = Answers-Reading equals hash laws valid q r a

      nothing :
          (u : Node)
          → Absent equals hash key t
          → Reading equals hash u q r
          → Reading equals hash u q (stored_for equals key box_nil q r)
      nothing u none_has x = elim (Bool-cases (equals key q)) [
        | inr other ↦ rw other x
        | inl same ↦ rw (same, ← Answers-Absent equals hash laws valid key q r same none_has a) x
      ]

      after :
          (u : Node)
          → Dissociated u
          → IsValid equals hash u × Reading equals hash u q (stored_for equals key box_nil q r)
      after u (removed i m) = (
        Grown-IsValid equals hash laws some_key valid
            (Grown-store_value equals hash key valid i box_null),
        elim (Bool-cases (equals key q)) [
          | inl same ↦ rw same (Reading-store_null equals hash laws valid key q i m same)
          | inr other ↦
              rw other (Reading-store_other equals hash laws valid key q i m box_null r other old)
        ],
      )
      after u (skipped i none_has e) = (
        Grown-IsValid equals hash laws some_key valid (Grown-store_value equals hash key valid i _),
        nothing _ none_has (rw e (Reading-store_same equals hash laws valid key q i r old)),
      )
      after u (untouched none_has) = (valid, nothing t none_has old)
