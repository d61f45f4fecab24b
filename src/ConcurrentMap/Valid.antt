-- ===== src/ConcurrentMap/Valid.antt =====
-- The tables that runs of the operations reach, and the changes that keep them so.
use mathlib.Core.Path.{subst}
use clojure_rt.Base.{
  ℕ, ◌^◌, ◌<◌, ◌≡◌, ◌≢◌, refl, sym, ◌∙◌, arith, ◌⊎◌, inl, inr, Bool, true, false, Option, some,
  List, [], ◌∷◌, Bool-cases, ◌==◌, ==_iff,
}
use clojure_rt.Value.{RtValue, is_null}
use clojure_rt.ArrayMap.Lookup.{Equality}
use clojure_rt.ConcurrentMap.Ops.{Node, slot, hash_of_key}
use clojure_rt.ConcurrentMap.Links.{hash_at, link, InBucket, Owner, Fits, Links, Walk, end, step}
use clojure_rt.ConcurrentMap.Search.{Matches, some-inj}
use clojure_rt.ConcurrentMap.Turn.{Among}

-- What the tables rely on: `equals` is an equivalence, and equal keys have the same hash, which is a word.
pub record KeyLaws (equals : RtValue → RtValue → Bool) (hash : RtValue → ℕ) : Type 0 where
  pub law : Equality equals
  pub hashes : (a b : RtValue) → equals a b ≡ true → hash a ≡ hash b
  pub words : (a : RtValue) → hash a < 2 ^ 64

abbrev pub key_at : Node → ℕ → RtValue
key_at t s = (t.entries s).key

-- The chain of a bucket, which leads to all cells that are in the bucket and not at home.
pub record Chain (t : Node) (b : ℕ) : Type 0 where
  pub path : List ℕ
  pub walk : Walk t false b path
  pub all : (s : ℕ) → InBucket t b s → (s ≡ b) ⊎ Among s path

pub record IsValid (equals : RtValue → RtValue → Bool) (hash : RtValue → ℕ) (t : Node)
    : Type 0 where
  pub fits : Fits t
  pub links : Links t
  pub keyed :
      (s : ℕ)
      → 0 < hash_at t s
      → (is_null (key_at t s) ≡ false) × (hash_at t s ≡ hash_of_key hash (key_at t s))
  pub chain : (b : ℕ) → Chain t b
  pub once :
      (s s' : ℕ)
      → 0 < hash_at t s
      → 0 < hash_at t s'
      → equals (key_at t s) (key_at t s') ≡ true
      → s ≡ s'

-- A walk after one in which some links of 0 have been set passes all its cells.
Among-kept :
    (t u : Node) (short : Bool) (s : ℕ) (path path' : List ℕ)
    → u.size ≡ t.size
    → ((short : Bool) (s : ℕ) → 0 < link t short s → link u short s ≡ link t short s)
    → Walk t short s path
    → Walk u short s path'
    → (i : ℕ) → Among i path
    → Among i path'
Among-kept t u short s [] path' size kept w w' i a = absurd a
Among-kept t u short s (j ∷ path) [] size kept (step p e w) (end z) i a =
    absurd (let k = kept short s p in omega arith)
Among-kept t u short s (j ∷ path) (j' ∷ path') size kept (step p e w) (step p' e' w') i (inl a) =
    let same : j' ≡ j = e' ∙ rw (size, kept short s p) refl ∙ sym e in inl (a ∙ sym same)
Among-kept t u short s (j ∷ path) (j' ∷ path') size kept (step p e w) (step p' e' w') i (inr a) =
    let same : j' ≡ j = e' ∙ rw (size, kept short s p) refl ∙ sym e in
    inr
      (Among-kept t u true j path path' size kept w (subst (λ n. Walk u true n path') same w') i a)

-- A walk in another bucket than the one that has been changed.
Walk-others :
    (t u : Node) (b : ℕ) (short : Bool) (s : ℕ) (path : List ℕ)
    → u.size ≡ t.size
    → Links t
    → ((short : Bool) (s : ℕ) → Owner t b short s → link u short s ≡ link t short s)
    → Owner t b short s
    → Walk t short s path
    → Walk u short s path
Walk-others t u b short s [] size l same o (end z) = end (same short s o ∙ z)
Walk-others t u b short s (i ∷ path) size l same o (step p e w) =
    let o' : InBucket t b i = rw e (l.owned b short s o p) in
    step (rw (same short s o) p) (e ∙ rw (size, same short s o) refl)
      (Walk-others t u b true i path size l same o' w)

module _ (equals : RtValue → RtValue → Bool) (hash : RtValue → ℕ) where
  -- What an operation with a key may change in a table, but for the values: links of the key's bucket
  -- that were 0, and an empty cell c, which then holds the key.
  pub record Grown (key : RtValue) (c : Option ℕ) (t u : Node) : Type 0 where
    pub size : u.size ≡ t.size
    pub limit : u.resizing_threshold ≡ t.resizing_threshold
    pub links : Links u
    pub kept : (short : Bool) (s : ℕ) → 0 < link t short s → link u short s ≡ link t short s
    pub others :
        (b : ℕ) (short : Bool) (s : ℕ)
        → b ≢ slot t (hash_of_key hash key)
        → Owner t b short s
        → link u short s ≡ link t short s
    pub path : List ℕ
    pub walk : Walk u false (slot t (hash_of_key hash key)) path
    pub cells :
        (s : ℕ)
        → ((hash_at u s ≡ hash_at t s) × (key_at u s ≡ key_at t s))
          ⊎ ((c ≡ some s)
              × (hash_at u s ≡ hash_of_key hash key)
              × (key_at u s ≡ key)
              × ((s ≡ slot t (hash_of_key hash key)) ⊎ Among s path)
              × ((s' : ℕ) → Matches equals t (hash_of_key hash key) key s' → ⊥))

  hash_of_key_congr :
      KeyLaws equals hash
      → (a b : RtValue) → equals a b ≡ true
      → hash_of_key hash a ≡ hash_of_key hash b
  unfolding hash_of_key
  hash_of_key_congr laws a b e = rw (laws.hashes a b e) refl

  -- A cell of an equal key matches.
  pub equal-Matches :
      KeyLaws equals hash
      → {t : Node} {key : RtValue} → IsValid equals hash t
      → (s : ℕ) → 0 < hash_at t s
      → equals (key_at t s) key ≡ true
      → Matches equals t (hash_of_key hash key) key s
  equal-Matches laws {t} {key} valid s p e =
      ((valid.keyed s p).1 ∙ hash_of_key_congr laws (key_at t s) key e, e)

  module _ (laws : KeyLaws equals hash) {key : RtValue} {c : Option ℕ} {t u : Node}
      (some_key : is_null key ≡ false) (valid : IsValid equals hash t) (g : Grown key c t u) where
    abbrev home : ℕ
    home = slot t (hash_of_key hash key)

    Chain-Grown : (b : ℕ) → Chain u b
    Chain-Grown b = elim (Bool-cases (b == home)) [
      | inl e ↦
          let here : b ≡ home = (==_iff b home).0 e in
          let old = valid.chain home in
          rw here (record {
            path = g.path;
            walk = g.walk;
            all = λ s o. elim (g.cells s) [
              | inl (p, q) ↦ elim (old.all s (rw (p, g.size) at o)) [
                | inl at_home ↦ inl at_home
                | inr among ↦ inr (
                    Among-kept t u false home old.path g.path g.size g.kept old.walk g.walk s among)
              ]
              | inr (p, q, r, place, absent) ↦ place
            ];
          })
      | inr n ↦
          let apart : b ≢ home = λ e. absurd (let q = (==_iff b home).1 e in cc) in
          let old = valid.chain b in
          record {
            path = old.path;
            walk =
                Walk-others t u b false b old.path g.size valid.links
                  (λ short s o. g.others b short s apart o) refl old.walk;
            all = λ s o. elim (g.cells s) [
              | inl (p, q) ↦ old.all s (rw (p, g.size) at o)
              | inr (p, q, r, place, absent) ↦ absurd (apart (sym (rw (q, g.size) at (o.1))))
            ];
          }
    ]

    once-Grown :
        (s s' : ℕ)
        → 0 < hash_at u s
        → 0 < hash_at u s'
        → equals (key_at u s) (key_at u s') ≡ true
        → s ≡ s'
    once-Grown s s' p p' e = elim (g.cells s) [
      | inl (h, k) ↦ elim (g.cells s') [
        | inl (h', k') ↦ valid.once s s' (rw h at p) (rw h' at p') (rw (k, k') at e)
        | inr (f', h', k', place, absent) ↦
            absurd (absent s (equal-Matches laws valid s (rw h at p) (rw (k, k') at e)))
      ]
      | inr (f, h, k, place, absent) ↦ elim (g.cells s') [
        | inl (h', k') ↦
            let e' = laws.law.swap key (key_at t s') (rw (k, k') at e) in
            absurd (absent s' (equal-Matches laws valid s' (rw h' at p') e'))
        | inr (f', h', k', place', absent') ↦ some-inj (sym f ∙ f')
      ]
    ]

    pub Grown-IsValid : IsValid equals hash u
    Grown-IsValid = record {
      fits = record {
        bits = valid.fits.bits;
        size = g.size ∙ valid.fits.size;
        word = valid.fits.word;
        limit = rw g.limit valid.fits.limit;
      };
      links = g.links;
      keyed = λ s p. elim (g.cells s) [
        | inl (h, k) ↦ rw (h, k) (valid.keyed s (rw h at p))
        | inr (f, h, k, place, absent) ↦ rw (h, k) (some_key, refl)
      ];
      chain = Chain-Grown;
      once = once-Grown;
    }
