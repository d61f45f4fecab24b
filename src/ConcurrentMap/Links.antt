-- ===== src/ConcurrentMap/Links.antt =====
-- The links of the buckets' chains, and what the stores to a link and to a hash change.
use clojure_rt.Base.{
  ℕ, ◌+◌, ◌^◌, ◌≤◌, ◌<◌, ◌≡◌, ◌≢◌, refl, ◌∙◌, arith, ◌⊎◌, inl, inr, Bool, true, false, Option, none,
  some, List, [], ◌∷◌,
}
use clojure_rt.ConcurrentMap.Ops.{Node, slot, leap}

module _ (t : Node) where
  abbrev pub hash_at : ℕ → ℕ
  hash_at s = (t.entries s).key_hash

  abbrev pub link : Bool → ℕ → ℕ
  link use_short_leap s = leap use_short_leap (t.entries s)

  -- The slot that a link of a cell leads to.
  abbrev pub next : Bool → ℕ → ℕ
  next use_short_leap s = slot t (s + link use_short_leap s)

  abbrev pub InBucket : ℕ → ℕ → Type 0
  InBucket b s = (0 < hash_at s) × (slot t (hash_at s) ≡ b)

  -- The long link of a bucket's home cell, and the short links of the cells in the bucket.
  abbrev pub Owner : ℕ → Bool → ℕ → Type 0
  Owner b true s = InBucket b s
  Owner b false s = s ≡ b

  -- The cells that the links lead to.
  pub data Walk : Bool → ℕ → List ℕ → Type 0 where
    end : {short : Bool} {s : ℕ} → link short s ≡ 0 → Walk short s []
    step :
        {short : Bool} {s i : ℕ} {is : List ℕ}
        → 0 < link short s
        → i ≡ next short s
        → Walk true i is
        → Walk short s (i ∷ is)

-- The size is a power of two, and a search is at most 128 cells long.
pub record Fits (t : Node) : Type 0 where
  pub bits : ℕ
  pub size : t.size ≡ 2 ^ bits
  pub word : bits ≤ 64
  pub limit : t.resizing_threshold ≤ 128

-- An empty cell has no links, and a chain stays in its bucket.
pub record Links (t : Node) : Type 0 where
  pub blank : (short : Bool) (s : ℕ) → hash_at t s ≡ 0 → link t short s ≡ 0
  pub owned :
      (b : ℕ) (short : Bool) (s : ℕ)
      → Owner t b short s
      → 0 < link t short s
      → InBucket t b (next t short s)

-- What a search for a hash h of bucket b may change: links of the bucket that were 0, and the hash
-- of an empty cell c.
pub record Frame (b h : ℕ) (c : Option ℕ) (t t' : Node) : Type 0 where
  pub size : t'.size ≡ t.size
  pub limit : t'.resizing_threshold ≡ t.resizing_threshold
  pub keys : (s : ℕ) → (t'.entries s).key ≡ (t.entries s).key
  pub values : (s : ℕ) → (t'.entries s).value ≡ (t.entries s).value
  pub hashes :
      (s : ℕ)
      → (hash_at t' s ≡ hash_at t s) ⊎ ((hash_at t s ≡ 0) × (hash_at t' s ≡ h) × (c ≡ some s))
  pub kept : (short : Bool) (s : ℕ) → 0 < link t short s → link t' short s ≡ link t short s
  pub others :
      (b' : ℕ) (short : Bool) (s : ℕ)
      → b' ≢ b
      → Owner t b' short s
      → link t' short s ≡ link t short s

pub Frame-refl : (b h : ℕ) (t : Node) → Frame b h none t t
Frame-refl b h t = record {
  size = refl;
  limit = refl;
  keys = λ s. refl;
  values = λ s. refl;
  hashes = λ s. inl refl;
  kept = λ short s p. refl;
  others = λ b' short s n o. refl;
}

module _ {b h : ℕ} {c : Option ℕ} {t t' : Node} (f : Frame b h c t t') where
  pub hash_kept : (s : ℕ) → 0 < hash_at t s → hash_at t' s ≡ hash_at t s
  hash_kept s p = elim (f.hashes s) [ inl e ↦ e | inr e ↦ absurd (let q = e.0 in omega arith) ]

  pub InBucket-Frame : (b' s : ℕ) → InBucket t b' s → InBucket t' b' s
  InBucket-Frame b' s (p, q) = rw (hash_kept s p, f.size) (p, q)

  pub Owner-Frame : (b' : ℕ) (short : Bool) (s : ℕ) → Owner t b' short s → Owner t' b' short s
  Owner-Frame b' true s o = InBucket-Frame b' s o
  Owner-Frame b' false s o = o

-- The changes of two steps, of which one at most claims a cell.
pub Frame-trans_left :
    {b h : ℕ} {c : Option ℕ} {t u v : Node} → Frame b h none t u → Frame b h c u v → Frame b h c t v
Frame-trans_left f g = record {
  size = g.size ∙ f.size;
  limit = g.limit ∙ f.limit;
  keys = λ s. g.keys s ∙ f.keys s;
  values = λ s. g.values s ∙ f.values s;
  hashes =
      λ s. elim (f.hashes s) [ inl e ↦ rw (← e) (g.hashes s) | inr e ↦ absurd (let q = e.2 in cc) ];
  kept = λ short s p. g.kept short s (rw (f.kept short s p) p) ∙ f.kept short s p;
  others = λ b' short s n o.
      g.others b' short s n (Owner-Frame f b' short s o) ∙ f.others b' short s n o;
}

pub Frame-trans_right :
    {b h : ℕ} {c : Option ℕ} {t u v : Node} → Frame b h c t u → Frame b h none u v → Frame b h c t v
Frame-trans_right f g = record {
  size = g.size ∙ f.size;
  limit = g.limit ∙ f.limit;
  keys = λ s. g.keys s ∙ f.keys s;
  values = λ s. g.values s ∙ f.values s;
  hashes =
      λ s. elim (g.hashes s) [ inl e ↦ rw e (f.hashes s) | inr e ↦ absurd (let q = e.2 in cc) ];
  kept = λ short s p. g.kept short s (rw (f.kept short s p) p) ∙ f.kept short s p;
  others = λ b' short s n o.
      g.others b' short s n (Owner-Frame f b' short s o) ∙ f.others b' short s n o;
}
