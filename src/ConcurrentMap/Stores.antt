-- ===== src/ConcurrentMap/Stores.antt =====
-- What the stores to the link and to the hash of a cell leave of the chains.
use clojure_rt.Base.{
  ℕ, ==_self, ◌+◌, ◌%◌, ◌<◌, ◌≡◌, refl, sym, ◌∙◌, arith, ◌⊎◌, inl, inr, Bool, true, false, none,
  some, update-all,
}
use clojure_rt.ConcurrentMap.Ops.{Entry, Node, slot, leap, entry_at, store_link, claim, set_leap}
use clojure_rt.ConcurrentMap.Links.{
  hash_at, link, next, InBucket, Owner, Links, Frame, InBucket-Frame,
}

module _ (short : Bool) (idx d : ℕ) (t : Node) where
  abbrev stored : Node
  stored = store_link short idx d t

  -- The cell but for its links.
  abbrev pub SameKey : Entry → Entry → Type 0
  SameKey e e' = (e'.key ≡ e.key) × (e'.value ≡ e.value) × (e'.key_hash ≡ e.key_hash)

  set_leap-SameKey : (x : Bool) (n : ℕ) (e : Entry) → SameKey e (set_leap x n e)
  set_leap-SameKey true n e = (refl, refl, refl)
  set_leap-SameKey false n e = (refl, refl, refl)

  pub store_link-SameKey : (s : ℕ) → SameKey (t.entries s) (stored.entries s)
  unfolding store_link
  store_link-SameKey =
      update-all (λ s e. SameKey (t.entries s) e) t.entries (slot t idx) _
        (set_leap-SameKey short (d % 256) (entry_at t idx)) (λ s. (refl, refl, refl))

  leap-set_leap :
      (x y : Bool) (n : ℕ) (e : Entry)
      → (leap y (set_leap x n e) ≡ leap y e) ⊎ ((y ≡ x) × (leap y (set_leap x n e) ≡ n))
  leap-set_leap true true n e = inr (refl, refl)
  leap-set_leap true false n e = inl refl
  leap-set_leap false true n e = inl refl
  leap-set_leap false false n e = inr (refl, refl)

  pub store_link-link :
      (y : Bool) (s : ℕ)
      → (link stored y s ≡ link t y s)
        ⊎ ((y ≡ short) × (s ≡ slot t idx) × (link stored y s ≡ d % 256))
  unfolding store_link
  store_link-link y =
      update-all
        (λ s e. (leap y e ≡ link t y s) ⊎ ((y ≡ short) × (s ≡ slot t idx) × (leap y e ≡ d % 256)))
        t.entries (slot t idx) _
        (elim (leap-set_leap short y (d % 256) (entry_at t idx)) [
          | inl e ↦ inl e
          | inr (p, q) ↦ inr (p, refl, q)
        ])
        (λ s. inl refl)

  Owner-stored : (b' : ℕ) (y : Bool) (s : ℕ) → Owner stored b' y s → Owner t b' y s
  unfolding store_link
  Owner-stored b' true s o = rw (store_link-SameKey s).2 at o
  Owner-stored b' false s o = o

  InBucket-stored : (b' s : ℕ) → InBucket t b' s → InBucket stored b' s
  unfolding store_link
  InBucket-stored b' s o = rw (store_link-SameKey s).2 o

Owner-unique :
    (t : Node) (b b' : ℕ) (short : Bool) (s : ℕ) → Owner t b short s → Owner t b' short s → b ≡ b'
Owner-unique t b b' true s (p, q) (p', q') = sym q ∙ q'
Owner-unique t b b' false s q q' = sym q ∙ q'

-- A store to a link of 0 that the bucket owns.
module _ (short : Bool) (idx d : ℕ) (t : Node) {b : ℕ} (own : Owner t b short (slot t idx)) where
  pub Frame-store_link :
      (h : ℕ) → link t short (slot t idx) ≡ 0 → Frame b h none t (store_link short idx d t)
  unfolding store_link
  Frame-store_link h z = record {
    size = refl;
    limit = refl;
    keys = λ s. (store_link-SameKey short idx d t s).0;
    values = λ s. (store_link-SameKey short idx d t s).1;
    hashes = λ s. inl (store_link-SameKey short idx d t s).2;
    kept = λ y s p. elim (store_link-link short idx d t y s) [
      | inl e ↦ e
      | inr (e, q, r) ↦ absurd (let p' = rw (e, q) at p in omega arith)
    ];
    others = λ b' y s n o. elim (store_link-link short idx d t y s) [
      | inl e ↦ e
      | inr (e, q, r) ↦ absurd (n (Owner-unique t b' b short (slot t idx) (rw (e, q) at o) own))
    ];
  }

  pub Links-store_link :
      Links t
      → 0 < hash_at t (slot t idx)
      → InBucket t b (slot t (slot t idx + d % 256))
      → Links (store_link short idx d t)
  unfolding store_link
  Links-store_link l taken goal = record {
    blank = λ y s z.
        let z' : hash_at t s ≡ 0 = sym (store_link-SameKey short idx d t s).2 ∙ z in
        elim (store_link-link short idx d t y s) [
          | inl e ↦ e ∙ l.blank y s z'
          | inr (e, q, r) ↦ absurd (let z'' = rw q at z' in omega arith)
        ];
    owned = λ b' y s o p.
        let o' = Owner-stored short idx d t b' y s o in
        elim (store_link-link short idx d t y s) [
          | inl e ↦ InBucket-stored short idx d t b' _ (rw e (l.owned b' y s o' (rw e at p)))
          | inr (e, q, r) ↦
              let same = Owner-unique t b b' short (slot t idx) own (rw (e, q) at o') in
              InBucket-stored short idx d t b' _ (rw (r, q, ← same) goal)
        ];
  }

module _ (h idx : ℕ) (t : Node) where
  claim-entries :
      (s : ℕ)
      → let e = t.entries s in
        let e' = (claim h idx t).entries s in
        (e'.key ≡ e.key)
        × (e'.value ≡ e.value)
        × ((y : Bool) → leap y e' ≡ leap y e)
        × ((e'.key_hash ≡ e.key_hash) ⊎ ((s ≡ slot t idx) × (e'.key_hash ≡ h)))
  unfolding claim
  claim-entries =
      update-all
        (λ s e'.
          let e = t.entries s in
          (e'.key ≡ e.key)
          × (e'.value ≡ e.value)
          × ((y : Bool) → leap y e' ≡ leap y e)
          × ((e'.key_hash ≡ e.key_hash) ⊎ ((s ≡ slot t idx) × (e'.key_hash ≡ h))))
        t.entries (slot t idx) _ (refl, refl, same_leap, inr (refl, refl))
        (λ s. (refl, refl, λ y. refl, inl refl))
    where
      same_leap :
          (y : Bool) → leap y (record (entry_at t idx) { key_hash = h }) ≡ leap y (entry_at t idx)
      same_leap true = refl
      same_leap false = refl

  module _ (empty : hash_at t (slot t idx) ≡ 0) where
    pub Frame-claim : (b : ℕ) → Frame b h (some (slot t idx)) t (claim h idx t)
    unfolding claim
    Frame-claim b = record {
      size = refl;
      limit = refl;
      keys = λ s. (claim-entries s).0;
      values = λ s. (claim-entries s).1;
      hashes = λ s. elim ((claim-entries s).3) [
        | inl e ↦ inl e
        | inr (q, e) ↦ inr (rw q empty, e, rw q refl)
      ];
      kept = λ y s p. (claim-entries s).2 y;
      others = λ b' y s n o. (claim-entries s).2 y;
    }

    pub Links-claim : Links t → Links (claim h idx t)
    unfolding claim
    Links-claim l = record {
      blank = λ y s z. (claim-entries s).2 y ∙ elim ((claim-entries s).3) [
        | inl e ↦ l.blank y s (sym e ∙ z)
        | inr (q, e) ↦ l.blank y s (rw q empty)
      ];
      owned = λ b' y s o p.
          let leap_eq = (claim-entries s).2 y in
          let p' : 0 < link t y s = rw leap_eq at p in
          rw leap_eq (
            InBucket-Frame (Frame-claim b') b' (next t y s)
              (l.owned b' y s (unclaimed b' y s l p' o) p'));
    }
      where
        unclaimed :
            (b' : ℕ) (y : Bool) (s : ℕ)
            → Links t
            → 0 < link t y s
            → Owner (claim h idx t) b' y s
            → Owner t b' y s
        unclaimed b' false s l p o = o
        unclaimed b' true s l p o = elim ((claim-entries s).3) [
          | inl e ↦ rw e at o
          | inr (q, e) ↦ absurd (let z = l.blank true s (rw q empty) in omega arith)
        ]

pub store_link_self :
    (short : Bool) (idx d : ℕ) (t : Node)
    → link (store_link short idx d t) short (slot t idx) ≡ d % 256
unfolding store_link
store_link_self short idx d t =
    rw (==_self (slot t idx)) (leap_self short (d % 256) (entry_at t idx))
  where
    leap_self : (x : Bool) (n : ℕ) (e : Entry) → leap x (set_leap x n e) ≡ n
    leap_self true n e = refl
    leap_self false n e = refl

pub claim-link : (h idx : ℕ) (t : Node) (y : Bool) (s : ℕ) → link (claim h idx t) y s ≡ link t y s
claim-link h idx t y s = (claim-entries h idx t s).2 y

pub claim_self : (h idx : ℕ) (t : Node) → hash_at (claim h idx t) (slot t idx) ≡ h
unfolding claim
claim_self h idx t = rw (==_self (slot t idx), hash_at) refl
