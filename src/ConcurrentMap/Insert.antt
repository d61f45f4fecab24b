-- ===== src/ConcurrentMap/Insert.antt =====
-- What `insertOrFind` of backend/runtime/ConcurrentHashMap.c finds, and what it leaves.
use mathlib.Core.Path.{subst}
use clojure_rt.Base.{
  ℕ, ◌^◌, ◌<◌, ◌≡◌, refl, sym, ◌∙◌, arith, ◌⊎◌, inl, inr, Bool, false, Option, none, some, List, [],
  ◌∷◌, Bool-cases, ◌==◌, ==_iff,
}
use clojure_rt.Value.{RtValue}
use clojure_rt.ConcurrentMap.Ops.{
  Node, slot, hash_of_key, entry_at, follow, already_found, inserted_new, overflow, InsertResult,
  insert_or_find, claim,
}
use clojure_rt.ConcurrentMap.Links.{hash_at, Links, Walk, end, step, Frame}
use clojure_rt.ConcurrentMap.Stores.{Frame-claim, Links-claim, claim-link, claim_self}
use clojure_rt.ConcurrentMap.Search.{Matches, some-inj}
use clojure_rt.ConcurrentMap.Turn.{Among, Followed}
use clojure_rt.ConcurrentMap.Follow.{follow-Followed}
use clojure_rt.ConcurrentMap.Chains.{follow-match, is_match-cases}
use clojure_rt.ConcurrentMap.Valid.{key_at, IsValid, KeyLaws}

module _ (equals : RtValue → RtValue → Bool) (hash : RtValue → ℕ) (key : RtValue) where
  abbrev pub key_hash : ℕ
  key_hash = hash_of_key hash key

  pub hash_of_key-lt : KeyLaws equals hash → (0 < key_hash) × (key_hash < 2 ^ 64)
  unfolding hash_of_key
  hash_of_key-lt laws = let p = laws.words key in ground arith

  -- The cell c, if any, that is new at the end of a chain.
  pub record Extended (t : Node) (c : Option ℕ) (u : Node) : Type 0 where
    pub frame : Frame (slot t key_hash) key_hash c t u
    pub links : Links u
    pub path : List ℕ
    pub walk : Walk u false (slot t key_hash) path
    pub fresh : (s : ℕ) → c ≡ some s → (hash_at t s ≡ 0) × (hash_at u s ≡ key_hash)
    pub place : (s : ℕ) → c ≡ some s → (s ≡ slot t key_hash) ⊎ Among s path

  abbrev pub Absent : Node → Type 0
  Absent t = (s : ℕ) → Matches equals t key_hash key s → ⊥

  pub data Inserted (t : Node) : InsertResult → Node → Type 0 where
    at_match : (i : ℕ) → Matches equals t key_hash key (slot t i) → Inserted t (already_found i) t
    at_new :
        (i : ℕ) {u : Node}
        → Absent t
        → Extended t (some (slot t i)) u
        → Inserted t (inserted_new i) u
    at_overflow : (i : ℕ) {u : Node} → Absent t → Extended t none u → Inserted t (overflow i) u

  -- A cell of a chain that matches, or none.
  pub search :
      (t : Node) (path : List ℕ)
      → ((s : ℕ) × Among s path × Matches equals t key_hash key s)
        ⊎ ((s : ℕ) → Among s path → Matches equals t key_hash key s → ⊥)
  search t [] = inr (λ s a m. a)
  search t (j ∷ path) = elim (search t path) [
    | inl (s, a, m) ↦ inl (s, inr a, m)
    | inr n ↦ elim (Bool-cases (hash_at t j == key_hash)) [
      | inr z ↦ inr (λ s a m. elim a [
        | inl e ↦ absurd (let q = (==_iff (hash_at t j) key_hash).1 (rw e at (m.0)) in cc)
        | inr a' ↦ n s a' m
      ])
      | inl z ↦ elim (Bool-cases (equals (key_at t j) key)) [
        | inl x ↦ inl (j, inl refl, ((==_iff (hash_at t j) key_hash).0 z, x))
        | inr x ↦
            inr
              (λ s a m. elim a [ inl e ↦ absurd (let q = rw e at (m.1) in cc) | inr a' ↦ n s a' m ])
      ]
    ]
  ]

  module _ (laws : KeyLaws equals hash) {t : Node} (valid : IsValid equals hash t) where
    abbrev home : ℕ
    home = slot t key_hash

    -- The cells that match are at home or on the chain.
    pub Absent-chain :
        (Matches equals t key_hash key home → ⊥)
        → ((s : ℕ) → Among s ((valid.chain home).path) → Matches equals t key_hash key s → ⊥)
        → Absent t
    Absent-chain at_home none_match s m =
        let taken : 0 < hash_at t s = rw (m.0) ((hash_of_key-lt laws).0) in
        elim ((valid.chain home).all s (taken, rw (m.0) refl)) [
          | inl e ↦ at_home (rw e at m)
          | inr a ↦ none_match s a m
        ]

    -- A valid table has a cell of the key, or none.
    pub find_key : ((s : ℕ) × Matches equals t key_hash key s) ⊎ Absent t
    find_key =
        let chain = valid.chain home in
        elim (search t (home ∷ chain.path)) [
          | inl (s, a, m) ↦ inl (s, m)
          | inr none_match ↦
              inr (Absent-chain (none_match home (inl refl)) (λ s a. none_match s (inr a)))
        ]

    -- No cell has a key whose home cell is empty.
    pub Absent-empty : hash_at t home ≡ 0 → Absent t
    Absent-empty z =
        let chain = valid.chain home in
        Absent-chain (λ m. absurd (let p = (hash_of_key-lt laws).0 in let q = m.0 in omega arith))
          (λ s a m. empty_path chain.path chain.walk s a)
      where
        empty_path : (path : List ℕ) → Walk t false home path → (s : ℕ) → Among s path → ⊥
        empty_path [] w s a = a
        empty_path (j ∷ path) (step p e w) s a =
            absurd (let q = valid.links.blank false home z in omega arith)

    Inserted-home :
        hash_at t home ≡ 0 → Inserted t (inserted_new key_hash) (claim key_hash key_hash t)
    unfolding claim
    Inserted-home z = at_new key_hash (Absent-empty z) (record {
      frame = Frame-claim key_hash key_hash t z home;
      links = Links-claim key_hash key_hash t z valid.links;
      path = [];
      walk = end (claim-link key_hash key_hash t false home ∙ valid.links.blank false home z);
      place = λ s e. inl (sym (some-inj e));
      fresh = λ s e. rw (← some-inj e) (z, claim_self key_hash key_hash t);
    })

    Followed-Inserted :
        (r : InsertResult) (u : Node)
        → Absent t
        → Followed equals key_hash key false home t r u
        → Inserted t r u
    Followed-Inserted (already_found i) u absent m = absurd (absent (slot t i) m)
    Followed-Inserted (inserted_new i) u absent e = at_new i absent (record {
      frame = e.frame;
      links = e.links;
      path = e.path;
      walk = e.walk;
      place = λ s q. inr (e.reaches s q);
      fresh = e.fresh;
    })
    Followed-Inserted (overflow i) u absent e = at_overflow i absent (record {
      frame = e.frame;
      links = e.links;
      path = e.path;
      walk = e.walk;
      place = λ s q. absurd (cc);
      fresh = λ s q. absurd (cc);
    })

    -- For a valid table and laws of the keys: where `insertOrFind` ends, it has found the only cell with the key and
    -- changed nothing; or no cell has the key, and it has claimed an empty cell at the end of the chain; or no cell has the
    -- key, and it has claimed none.
    pub insert_or_find-Inserted :
        (fuel : ℕ) (r : InsertResult) (u : Node)
        → insert_or_find equals fuel key_hash key t ≡ some (r, u)
        → Inserted t r u
    unfolding insert_or_find
    insert_or_find-Inserted fuel r u q = elim (Bool-cases (hash_at t home == 0)) [
      | inl z ↦ finished (rw z at q) (Inserted-home ((==_iff (hash_at t home) 0).0 z))
      | inr z ↦
          let taken : 0 < hash_at t home = ground arith in
          let chain = valid.chain home in
          elim (is_match-cases equals key_hash key (entry_at t key_hash)
            ((valid.keyed home taken).0)) [
              | inl (w, m, n) ↦ finished (rw (z, w) at q) (at_match key_hash (m, n))
              | inr (w, no_match) ↦
                  let q' : follow equals fuel false key_hash key key_hash t ≡ some (r, u) =
                    rw (z, w) at q in
                  elim (search t chain.path) [
                    | inl (s, a, m) ↦
                        elim (follow-match equals key_hash key t valid.fits valid.links
                          (λ s p. (valid.keyed s p).0) fuel false key_hash chain.path s refl
                          chain.walk a m) [
                            | inl (none_yet, lt) ↦ absurd (let no = sym none_yet ∙ q' in cc)
                            | inr (i, found, m') ↦ finished (sym found ∙ q') (at_match i m')
                          ]
                    | inr none_match ↦ Followed-Inserted r u (Absent-chain no_match none_match) (
                        follow-Followed equals key_hash key fuel false key_hash t r u valid.fits
                          valid.links ((hash_of_key-lt laws).0) refl taken ((hash_of_key-lt laws).1)
                          q')
                  ]
            ]
    ]
      where
        finished :
            {r' : InsertResult} {u' : Node}
            → ◌≡◌ {A = Option (InsertResult × Node)} (some (r', u')) (some (r, u))
            → Inserted t r' u'
            → Inserted t r u
        finished e i = subst (λ x. Inserted t x.0 x.1) (some-inj e) i
