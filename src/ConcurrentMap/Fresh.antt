-- ===== src/ConcurrentMap/Fresh.antt =====
-- A new table of backend/runtime/ConcurrentHashMap.c, and a table that is full of keys of one bucket.
use Prim.Native.Nat.{bit_xor}
use clojure_rt.Base.{
  ℕ, zero, suc, ◌%◌, ◌≤◌, ◌<◌, ◌≡◌, refl, arith, inl, inr, Bool, true, false, none, some, [],
  Bool-cases, ◌==◌, ==_iff, add_word, sub_word, ltb,
}
use clojure_rt.Value.{RtValue, is_null, box_nil}
use clojure_rt.ConcurrentMap.Ops.{
  Node, slot, entry_at, probe, at_bucket, turn, follow, create, after_probe, is_same_key, is_match,
  insert_or_find, go_on, store_link,
}
use clojure_rt.ConcurrentMap.Links.{hash_at, link, end}
use clojure_rt.ConcurrentMap.Stores.{store_link-SameKey}
use clojure_rt.ConcurrentMap.Valid.{key_at, IsValid, KeyLaws}
use clojure_rt.ConcurrentMap.Read.{Answers, Reading-Answers, absent}

module _ (equals : RtValue → RtValue → Bool) (hash : RtValue → ℕ) where
  create-IsValid :
      (rounded_power : ℕ → ℕ) (exponent : ℕ)
      → exponent ≤ 64
      → IsValid equals hash (create rounded_power exponent)
  unfolding create
  create-IsValid rounded_power exponent le = record {
    fits = record { bits = exponent; size = refl; word = le; limit = omega arith };
    links = record {
      blank = λ short s z. no_link short;
      owned = λ b short s o p. absurd (let z = no_link short in omega arith);
    };
    keyed = λ s p. absurd (omega arith);
    chain = λ b. record {
      path = [];
      walk = end refl;
      all = λ s o. absurd (let p = o.0 in omega arith);
    };
    once = λ s s' p q e. absurd (omega arith);
  }
    where
      no_link : (short : Bool) → link (create rounded_power exponent) short 0 ≡ 0
      no_link true = refl
      no_link false = refl

  -- For a size of at most 2 ^ 64: a new table is valid, and `get` of every key returns nil.
  pub create-Answers :
      (laws : KeyLaws equals hash) (rounded_power : ℕ → ℕ) (exponent : ℕ)
      → exponent ≤ 64
      → (key : RtValue)
      → IsValid equals hash (create rounded_power exponent)
        × Answers equals hash (create rounded_power exponent) key box_nil
  unfolding create
  create-Answers laws rounded_power exponent le key =
      let valid = create-IsValid rounded_power exponent le in
      (
        valid,
        Reading-Answers equals hash laws valid key box_nil
            (absent (λ s p e. absurd (omega arith)) refl),
      )

module _ (equals : RtValue → RtValue → Bool) (h : ℕ) (key : RtValue) where
  -- Every cell has another key, of the same bucket.
  pub record IsStuck (t : Node) : Type 0 where
    pub some_limit : 0 < t.resizing_threshold
    pub full : (idx : ℕ) → 0 < hash_at t (slot t idx)
    pub bucket : (idx : ℕ) → bit_xor (hash_at t (slot t idx)) h % t.size ≡ 0
    pub some_key : (idx : ℕ) → is_null (key_at t (slot t idx)) ≡ false
    pub other : (idx : ℕ) → equals (key_at t (slot t idx)) key ≡ false

  IsStuck-store_link :
      (short : Bool) (idx d : ℕ) (t : Node) → IsStuck t → IsStuck (store_link short idx d t)
  unfolding store_link
  IsStuck-store_link short idx d t stuck = record {
    some_limit = stuck.some_limit;
    full = λ i. rw (store_link-SameKey short idx d t (slot t i)).2 (stuck.full i);
    bucket = λ i. rw (store_link-SameKey short idx d t (slot t i)).2 (stuck.bucket i);
    some_key = λ i. rw (store_link-SameKey short idx d t (slot t i)).0 (stuck.some_key i);
    other = λ i. rw (store_link-SameKey short idx d t (slot t i)).0 (stuck.other i);
  }

  module _ (t : Node) (stuck : IsStuck t) where
    is_full : (idx : ℕ) → (hash_at t (slot t idx) == 0) ≡ false
    is_full idx = let q = stuck.full idx in ground arith

    is_match-IsStuck : (idx : ℕ) → is_match equals (entry_at t idx) h key ≡ some false
    unfolding is_match is_same_key
    is_match-IsStuck idx = elim (Bool-cases (hash_at t (slot t idx) == h)) [
      | inl z ↦ rw (z, stuck.some_key idx, stuck.other idx) refl
      | inr z ↦ rw z refl
    ]

    probe-IsStuck :
        (limit idx : ℕ)
        → 0 < limit
        → probe equals t h key limit idx ≡ some (at_bucket (add_word idx 1))
    unfolding probe is_same_key
    probe-IsStuck zero idx p = absurd (omega arith)
    probe-IsStuck (suc n) idx p =
        let i = add_word idx 1 in
        let x = bit_xor (hash_at t (slot t i)) h in
        let same : (x % t.size == 0) ≡ true = (==_iff (x % t.size) 0).1 (stuck.bucket i) in
        elim (Bool-cases (x == 0)) [
          | inl z ↦ rw (is_full i, z, stuck.some_key i, stuck.other i, same) refl
          | inr z ↦ rw (is_full i, z, same) refl
        ]

    turn-IsStuck :
        (short : Bool) (idx : ℕ)
        → (i : ℕ) × (u : Node) × (turn equals short h key idx t ≡ some (go_on i u)) × IsStuck u
    unfolding turn after_probe
    turn-IsStuck short idx =
        let d = link t short (slot t idx) in
        elim (Bool-cases (ltb 0 d)) [
          | inl p ↦ (
            add_word idx d,
            t,
            rw (p, is_full (add_word idx d), is_match-IsStuck (add_word idx d)) refl,
            stuck,
          )
          | inr p ↦ (
            add_word idx 1,
            store_link short idx (sub_word (add_word idx 1) idx) t,
            rw (p, probe-IsStuck t.resizing_threshold idx stuck.some_limit) refl,
            IsStuck-store_link short idx (sub_word (add_word idx 1) idx) t stuck,
          )
        ]

  follow-IsStuck :
      (fuel : ℕ) (short : Bool) (idx : ℕ) (t : Node)
      → IsStuck t
      → follow equals fuel short h key idx t ≡ none
  unfolding follow
  follow-IsStuck zero short idx t stuck = refl
  follow-IsStuck (suc fuel) short idx t stuck =
      let (i, u, q, stuck') = turn-IsStuck t stuck short idx in
      rw q (follow-IsStuck fuel true i u stuck')

  -- For a search limit of 1 or more and a table all of whose cells have other keys of the bucket: `insertOrFind` does not return,
  -- whatever the fuel.
  pub insert_or_find-IsStuck :
      (fuel : ℕ) (t : Node) → IsStuck t → insert_or_find equals fuel h key t ≡ none
  unfolding insert_or_find
  insert_or_find-IsStuck fuel t stuck =
      rw (is_full t stuck h, is_match-IsStuck t stuck h) (follow-IsStuck fuel false h t stuck)
