-- ===== src/ConcurrentMap/Ends.antt =====
-- When `insertOrFind` and `assoc` of backend/runtime/ConcurrentHashMap.c end.
use Prim.Native.Nat.{bit_xor}
use clojure_rt.Base.{
  ℕ, zero, suc, ◌+◌, ◌%◌, ◌^◌, ◌≤◌, ◌<◌, ◌≡◌, refl, ◌∙◌, arith, inl, inr, Bool, false, Option, some,
  List, Bool-cases, ◌==◌, length, add_word, sub_word, ltb, Outcome,
}
use clojure_rt.Value.{RtValue, is_null}
use clojure_rt.ConcurrentMap.Ops.{
  ◌>>=◌, Entry, Node, slot, entry_at, hash_of_key, probe, Probe, turn, follow, after_probe,
  is_same_key, insert_or_find, InsertResult, assoc, assoc_result, done, already_found, inserted_new,
  overflow, store_link, claim,
}
use clojure_rt.ConcurrentMap.Links.{hash_at, link, InBucket, Walk, Fits}
use clojure_rt.ConcurrentMap.Search.{slot-next, same_slot}
use clojure_rt.ConcurrentMap.Chains.{last, follow-match, follow-last, is_match-cases}
use clojure_rt.ConcurrentMap.Valid.{key_at, IsValid, KeyLaws}
use clojure_rt.ConcurrentMap.Insert.{search, hash_of_key-lt}

module _ (equals : RtValue → RtValue → Bool) (h : ℕ) (key : RtValue) (t : Node) (fits : Fits t)
    (keyed : (s : ℕ) → 0 < hash_at t s → is_null (key_at t s) ≡ false) where
  is_same_key-ends :
      (e : Entry) → is_null e.key ≡ false → is_same_key equals e key ≡ some (equals e.key key)
  unfolding is_same_key
  is_same_key-ends e n = rw n refl

  -- A search that meets no cell of the bucket ends the loop.
  abbrev Stops : Option Probe → Type 0
  Stops r =
      (short : Bool) (idx : ℕ)
      → (x : InsertResult × Node) × ((r >>= λ p. some (after_probe short h idx t p))
          ≡ some (done x.0 x.1))

  probe-Stops-suc :
      (n idx i : ℕ)
      → add_word idx 1 ≡ i
      → (InBucket t (slot t h) (slot t i) → ⊥)
      → Stops (probe equals t h key n i)
      → Stops (probe equals t h key (suc n) idx)
  unfolding probe after_probe
  probe-Stops-suc n idx i ahead clear rest short k =
      let e = entry_at t i in
      elim (Bool-cases (e.key_hash == 0)) [
        | inl z ↦
            ((inserted_new i, store_link short k (sub_word i k) (claim h i t)), rw (ahead, z) refl)
        | inr z ↦
            let taken : 0 < e.key_hash = ground arith in
            let other : (bit_xor e.key_hash h % t.size == 0) ≡ false =
              elim (Bool-cases (bit_xor e.key_hash h % t.size == 0)) [
                | inr y ↦ y
                | inl y ↦ absurd (clear (taken, same_slot fits e.key_hash h y))
              ] in
            let same_key = is_same_key-ends e (keyed (slot t i) taken) in
            elim (Bool-cases (bit_xor e.key_hash h == 0)) [
              | inr x ↦ ((rest short k).0, rw (ahead, z, x, other) ((rest short k).1))
              | inl x ↦ elim (Bool-cases (equals e.key key)) [
                | inl y ↦ ((already_found i, t), rw (ahead, z, x, same_key, y) refl)
                | inr y ↦
                    ((rest short k).0, rw (ahead, z, x, same_key, y, other) ((rest short k).1))
              ]
            ]
      ]

  probe-Stops :
      (limit n j idx : ℕ)
      → j + n ≤ limit
      → ((d : ℕ) → 0 < d → d ≤ limit → InBucket t (slot t h) (slot t (slot t idx + d)) → ⊥)
      → Stops (probe equals t h key n (add_word idx j))
  unfolding probe after_probe
  probe-Stops limit zero j idx le clear =
      λ short i. ((overflow (add_word (add_word idx j) 1), t), refl)
  probe-Stops limit (suc n) j idx le clear =
      probe-Stops-suc n (add_word idx j) (add_word idx (suc j)) (omega arith)
        (λ o. clear (suc j) (omega arith) (omega arith) (rw (← slot-next fits idx (suc j)) o))
        (probe-Stops limit n (suc j) idx (omega arith) clear)

  -- At the end of a chain, where the search meets no cell of the bucket, one turn ends the loop.
  turn-Stops :
      (short : Bool) (idx fuel : ℕ)
      → idx < 2 ^ 64
      → link t short (slot t idx) ≡ 0
      → ((d : ℕ)
          → 0 < d
          → d ≤ t.resizing_threshold
          → InBucket t (slot t h) (slot t (slot t idx + d))
          → ⊥)
      → (x : InsertResult × Node) × (follow equals (suc fuel) short h key idx t ≡ some x)
  unfolding follow turn
  turn-Stops short idx fuel word z clear =
      let no_link : ltb 0 (link t short (slot t idx)) ≡ false = ground arith in
      let start : add_word idx 0 ≡ idx = omega arith in
      let stops =
        probe-Stops t.resizing_threshold t.resizing_threshold 0 idx (omega arith) clear short idx in
      let run = rw start at (stops.1) in (stops.0, rw (no_link, run) refl)

module _ (equals : RtValue → RtValue → Bool) (hash : RtValue → ℕ) (laws : KeyLaws equals hash)
    {t : Node} (valid : IsValid equals hash t) (key : RtValue) (path : List ℕ)
    (walk : Walk t false (slot t (hash_of_key hash key)) path)
    (clear : (d : ℕ)
      → 0 < d
      → d ≤ t.resizing_threshold
      → InBucket t
          (slot t (hash_of_key hash key))
          (slot t (last (slot t (hash_of_key hash key)) path + d))
      → ⊥) where
  abbrev h : ℕ
  h = hash_of_key hash key

  follow-ends :
      (fuel : ℕ)
      → (x : InsertResult × Node) × (follow equals (length path + suc fuel) false h key h t
          ≡ some x)
  follow-ends fuel =
      let some_keys = λ (s : ℕ) (p : 0 < hash_at t s). (valid.keyed s p).0 in
      elim (search equals hash key t path) [
        | inl (s, a, m) ↦
            elim (follow-match equals h key t valid.fits valid.links some_keys
              (length path + suc fuel) false h path s refl walk a m) [
                | inl (none_yet, lt) ↦ absurd (omega arith)
                | inr (i, found, m') ↦ ((already_found i, t), found)
              ]
        | inr none_match ↦
            let (short, i, run, at_last, z, word) =
              follow-last equals h key t valid.fits valid.links some_keys (suc fuel) false h path
                refl ((hash_of_key-lt equals hash key laws).1) walk none_match in
            let (x, stop) =
              turn-Stops equals h key t valid.fits some_keys short i fuel word z
                (λ d p q o. clear d p q (rw at_last at o)) in
            (x, run ∙ stop)
      ]

  -- For a valid table, laws of the keys, the chain of the key's bucket, and no cell of that bucket within the search limit behind the
  -- end of the chain: with a fuel of one more than the length of the chain, or more, `assoc` returns.
  pub assoc-ends :
      (v : RtValue) (fuel : ℕ)
      → (result : Outcome (Unit {0}) × Node) × (assoc equals hash (length path + suc fuel) t key v
          ≡ some result)
  unfolding assoc insert_or_find
  assoc-ends v fuel = elim (Bool-cases (hash_at t (slot t h) == 0)) [
    | inl z ↦ (assoc_result key v (inserted_new h, claim h h t), rw z refl)
    | inr z ↦
        let taken : 0 < hash_at t (slot t h) = ground arith in
        elim (is_match-cases equals h key (entry_at t h) ((valid.keyed (slot t h) taken).0)) [
          | inl (w, m, n) ↦ (assoc_result key v (already_found h, t), rw (z, w) refl)
          | inr (w, n) ↦
              let (x, run) = follow-ends fuel in (assoc_result key v x, rw (z, w, run) refl)
        ]
  ]
