-- ===== src/ConcurrentMap/Read.antt =====
-- `get` of backend/runtime/ConcurrentHashMap.c, and the value that a table has for a key.
use mathlib.Core.Path.{subst}
use clojure_rt.Base.{
  ℕ, zero, suc, ◌+◌, ◌<◌, ◌≡◌, refl, sym, ap, ◌∙◌, arith, ◌⊎◌, inl, inr, Bool, true, false, Option,
  some, List, [], ◌∷◌, Bool-cases, ◌==◌, ==_iff, length, if◌then◌else◌,
}
use clojure_rt.Value.{RtValue, is_null, box_nil, box_null}
use clojure_rt.ConcurrentMap.Ops.{◌>>=◌, Node, slot, hash_of_key, try_getting, get, get_from}
use clojure_rt.ConcurrentMap.Links.{hash_at, link, Walk, end, step}
use clojure_rt.ConcurrentMap.Turn.{Among}
use clojure_rt.ConcurrentMap.Search.{Matches, some-inj}
use clojure_rt.ConcurrentMap.Valid.{key_at, IsValid, KeyLaws, equal-Matches}
use clojure_rt.ConcurrentMap.Insert.{hash_of_key-lt, find_key}
use clojure_rt.ConcurrentMap.Writes.{value_at}

pub is_null-box_null : is_null box_null ≡ true
unfolding is_null
is_null-box_null = refl

module _ (equals : RtValue → RtValue → Bool) (hash : RtValue → ℕ) where
  -- With enough fuel, `get` of a key returns the value.
  abbrev pub Answers : Node → RtValue → RtValue → Type 0
  Answers t key r = (n : ℕ) × ((fuel : ℕ) → get equals hash (n + fuel) t key ≡ some r)

  pub Answers-unique : (t : Node) (key r r' : RtValue) → Answers t key r → Answers t key r' → r ≡ r'
  Answers-unique t key r r' (n, a) (m, b) =
      let swap : m + n ≡ n + m = omega arith in
      some-inj (sym (a m) ∙ subst (λ x. get equals hash x t key ≡ some r') swap (b n))

  -- The value of a key: that of a cell with the key, or nil where no such cell has one.
  pub data Reading (t : Node) (key r : RtValue) : Type 0 where
    present :
        (s : ℕ)
        → 0 < hash_at t s
        → equals (key_at t s) key ≡ true
        → value_at t s ≡ r
        → is_null r ≡ false
        → Reading t key r
    absent :
        ((s : ℕ) → 0 < hash_at t s → equals (key_at t s) key ≡ true → is_null (value_at t s) ≡ true)
        → r ≡ box_nil
        → Reading t key r

  module _ (laws : KeyLaws equals hash) {t : Node} (valid : IsValid equals hash t)
      (key : RtValue) where
    abbrev h : ℕ
    h = hash_of_key hash key

    abbrev Here : ℕ → Type 0
    Here s = Matches equals t h key s

    -- What a cell gives.
    try_getting-cases :
        (s : ℕ)
        → (Here s × (try_getting equals (t.entries s) key h ≡ some (value_at t s)))
          ⊎ ((Here s → ⊥) × (try_getting equals (t.entries s) key h ≡ some box_null))
    unfolding try_getting
    try_getting-cases s = elim (Bool-cases (hash_at t s == h)) [
      | inr z ↦ inr ((λ m. absurd (let q = (==_iff (hash_at t s) h).1 m.0 in cc)), rw z refl)
      | inl z ↦
          let same = (==_iff (hash_at t s) h).0 z in
          let some_key = (valid.keyed s (rw same ((hash_of_key-lt equals hash key laws).0))).0 in
          elim (Bool-cases (equals (key_at t s) key)) [
            | inl e ↦ inl ((same, e), rw (z, some_key, e) refl)
            | inr e ↦ inr ((λ m. absurd (let q = m.1 in cc)), rw (z, some_key, e) refl)
          ]
    ]

    get_from_step :
        (fuel s jump : ℕ)
        → 0 < jump
        → get_from equals (suc fuel) t h key s jump ≡ (
            try_getting equals (t.entries (slot t (s + jump))) key h >>= λ v.
            if is_null v
            then get_from equals fuel t h key (slot t (s + jump)) (link t true (slot t (s + jump)))
            else some v)
    unfolding get_from
    get_from_step fuel s zero p = absurd (omega arith)
    get_from_step fuel s (suc j) p = refl

    -- A cell with a value for the key is the result, and another is passed.
    cell_result :
        (s : ℕ) (r : RtValue) (rest : Option RtValue)
        → (Here s → is_null (value_at t s) ≡ true)
          ⊎ ((value_at t s ≡ r) × (is_null r ≡ false) × Here s)
        → ((Here s → is_null (value_at t s) ≡ true) → rest ≡ some r)
        → (try_getting equals (t.entries s) key h >>= λ v. if is_null v then rest else some v)
          ≡ some r
    cell_result s r rest c k = elim (try_getting-cases s) [
      | inl (m, g) ↦ elim c [ inl n ↦ rw (g, n m) (k n) | inr (e, n, m') ↦ rw (g, e, n) refl ]
      | inr (n, g) ↦ rw (g, is_null-box_null) (k (λ m. absurd (n m)))
    ]

    -- The loop, on a chain in which every cell with the key has no value or the value r, and one has it if r is not nil.
    get_from-Walk :
        (fuel : ℕ) (short : Bool) (s : ℕ) (path : List ℕ) (r : RtValue)
        → Walk t short s path
        → ((i : ℕ)
            → Among i path
            → (Here i → is_null (value_at t i) ≡ true)
              ⊎ ((value_at t i ≡ r) × (is_null r ≡ false) × Here i))
        → (r ≡ box_nil)
          ⊎ ((i : ℕ) × Among i path × Here i × (value_at t i ≡ r) × (is_null r ≡ false))
        → get_from equals (suc (length path) + fuel) t h key s (link t short s) ≡ some r
    unfolding get_from
    get_from-Walk fuel short s [] r (end z) all found =
        let e : 1 + fuel ≡ suc fuel = omega arith in
        rw (e, z) (elim found [ inl n ↦ ap some (sym n) | inr (i, a, m, v, x) ↦ absurd a ])
    get_from-Walk fuel short s (j ∷ path) r (step p e w) all found =
        let more : suc (length (j ∷ path)) + fuel ≡ suc (suc (length path) + fuel) = omega arith in
        rw (more, get_from_step (suc (length path) + fuel) s (link t short s) p, ← e)
          (cell_result j r _ (all j (inl refl)) (λ n.
            get_from-Walk fuel true j path r w (λ i a. all i (inr a))
              (elim found [
                | inl x ↦ inl x
                | inr (i, inl at_j, m, v, x) ↦
                    absurd (
                      let q = n (rw at_j at m) in let y = rw (at_j) at v in let z = rw y at q in cc)
                | inr (i, inr a, m, v, x) ↦ inr (i, a, m, v, x)
              ])))

    -- A cell of a key that another cell has is that cell.
    pub one_cell : (s i : ℕ) → Here s → Here i → i ≡ s
    one_cell s i (p, e) (p', e') =
        let pos = (hash_of_key-lt equals hash key laws).0 in
        valid.once i s (rw p' pos) (rw p pos)
          (laws.law.chain (key_at t i) key (key_at t s) e' (laws.law.swap (key_at t s) key e))

    -- For a valid table: `get` of a key returns its value, with a fuel of one more than the length of the chain of
    -- its bucket, or more.
    pub Reading-Answers : (r : RtValue) → Reading t key r → Answers t key r
    unfolding get
    Reading-Answers r reading =
        let home = slot t h in
        let chain = valid.chain home in
        let every = cells r reading in
        (
          suc (length chain.path),
          λ fuel. cell_result home r _ (every.0 home) (λ n.
              get_from-Walk fuel false home chain.path r chain.walk (λ i a. every.0 i)
                (elim every.1 [
                  | inl x ↦ inl x
                  | inr (s, m, v, x) ↦ elim (chain.all s (taken s m, rw (m.0) refl)) [
                    | inl at_home ↦
                        absurd
                          (let q = rw (← at_home) at n in let z = q m in let y = rw v at z in cc)
                    | inr a ↦ inr (s, a, m, v, x)
                  ]
                ])),
        )
      where
        taken : (s : ℕ) → Here s → 0 < hash_at t s
        taken s m = rw (m.0) ((hash_of_key-lt equals hash key laws).0)

        cells :
            (r : RtValue)
            → Reading t key r
            → ((i : ℕ)
                → (Here i → is_null (value_at t i) ≡ true)
                  ⊎ ((value_at t i ≡ r) × (is_null r ≡ false) × Here i))
              × ((r ≡ box_nil) ⊎ ((s : ℕ) × Here s × (value_at t s ≡ r) × (is_null r ≡ false)))
        cells r (absent none_has e) = (λ i. inl (λ m. none_has i (taken i m) (m.1)), inl e)
        cells r (present s p e v n) =
            let m = equal-Matches equals hash laws valid s p e in
            (
              λ i. elim (try_getting-cases i) [
                | inr (none_here, g) ↦ inl (λ m'. absurd (none_here m'))
                | inl (m', g) ↦ inr (rw (one_cell s i m m') v, n, m')
              ],
              inr (s, m, v, n),
            )

    -- For a valid table, a key has a value.
    pub Reading-exists : (r : RtValue) × Reading t key r
    Reading-exists = elim (find_key equals hash key laws valid) [
      | inr none_has ↦ (
        box_nil,
        absent (λ s p e. absurd (none_has s (equal-Matches equals hash laws valid s p e))) refl,
      )
      | inl (s, (p, e)) ↦ elim (Bool-cases (is_null (value_at t s))) [
        | inr n ↦
            (value_at t s, present s (rw p ((hash_of_key-lt equals hash key laws).0)) e refl n)
        | inl n ↦ (
          box_nil,
          absent
              (λ i p' e'. rw (one_cell s i (p, e) (equal-Matches equals hash laws valid i p' e')) n)
              refl,
        )
      ]
    ]

    -- For a valid table and laws of the keys: a key has a value, that of its only cell or else nil, and `get` returns it with
    -- enough fuel.
    pub get-ends : (r : RtValue) × Reading t key r × Answers t key r
    get-ends = let (r, reading) = Reading-exists in (r, reading, Reading-Answers r reading)
