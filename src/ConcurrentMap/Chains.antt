-- ===== src/ConcurrentMap/Chains.antt =====
-- The loop of `insertOrFind` along the chain of a bucket, before it writes.
use clojure_rt.Base.{
  ℕ, zero, suc, ◌+◌, ◌^◌, ◌<◌, ◌≡◌, refl, sym, ◌∙◌, arith, ◌⊎◌, inl, inr, Bool, true, false, none,
  some, List, [], ◌∷◌, Bool-cases, ◌==◌, ==_iff, ltb, add_word, length,
}
use clojure_rt.Value.{RtValue, is_null}
use clojure_rt.ConcurrentMap.Ops.{
  Entry, Node, slot, entry_at, is_match, is_same_key, turn, follow, done, go_on, already_found,
}
use clojure_rt.ConcurrentMap.Links.{hash_at, link, InBucket, Owner, Fits, Links, Walk, end, step}
use clojure_rt.ConcurrentMap.Search.{Matches, slot-next}
use clojure_rt.ConcurrentMap.Turn.{Among}
use clojure_rt.ConcurrentMap.Valid.{key_at}

-- The last cell of a chain.
abbrev pub last : ℕ → List ℕ → ℕ
last s [] = s
last s (i ∷ is) = last i is

module _ (equals : RtValue → RtValue → Bool) (h : ℕ) (key : RtValue) where
  -- The test of a cell whose key is there does not wait.
  pub is_match-cases :
      (e : Entry)
      → is_null e.key ≡ false
      → ((is_match equals e h key ≡ some true) × (e.key_hash ≡ h) × (equals e.key key ≡ true))
        ⊎ ((is_match equals e h key ≡ some false)
            × ((e.key_hash ≡ h) × (equals e.key key ≡ true) → ⊥))
  unfolding is_match is_same_key
  is_match-cases e n = elim (Bool-cases (e.key_hash == h)) [
    | inr z ↦ inr (rw z refl, λ m. absurd (let q = (==_iff e.key_hash h).1 m.0 in cc))
    | inl z ↦ elim (Bool-cases (equals e.key key)) [
      | inl x ↦ inl (rw (z, n, x) refl, (==_iff e.key_hash h).0 z, x)
      | inr x ↦ inr (rw (z, n, x) refl, λ m. absurd (let q = m.1 in cc))
    ]
  ]

  module _ (t : Node) (fits : Fits t) (links : Links t)
      (keyed : (s : ℕ) → 0 < hash_at t s → is_null (key_at t s) ≡ false) where
    abbrev MatchAt : ℕ → Type 0
    MatchAt s = Matches equals t h key s

    -- A turn along a link.
    turn_cases :
        (short : Bool) (idx : ℕ)
        → Owner t (slot t h) short (slot t idx)
        → 0 < link t short (slot t idx)
        → let i = add_word idx (link t short (slot t idx)) in
          ((turn equals short h key idx t ≡ some (done (already_found i) t)) × MatchAt (slot t i))
          ⊎ ((turn equals short h key idx t ≡ some (go_on i t)) × (MatchAt (slot t i) → ⊥))
    unfolding turn
    turn_cases short idx own p =
        let d = link t short (slot t idx) in
        let i = add_word idx d in
        let own' : InBucket t (slot t h) (slot t i) =
          rw (slot-next fits idx d) (links.owned (slot t h) short (slot t idx) own p) in
        let some_link : ltb 0 d ≡ true = ground arith in
        let full : (hash_at t (slot t i) == 0) ≡ false = let p = own'.0 in ground arith in
        elim (is_match-cases (entry_at t i) (keyed (slot t i) own'.0)) [
          | inl (w, m, n) ↦ inl (rw (some_link, full, w) refl, (m, n))
          | inr (w, m) ↦ inr (rw (some_link, full, w) refl, m)
        ]

    -- The loop, on a chain with a cell that matches: it stops at such a cell with the node unchanged, or runs out of
    -- fuel, which it does only on less than the length of the chain.
    pub follow-match :
        (fuel : ℕ) (short : Bool) (idx : ℕ) (path : List ℕ) (s : ℕ)
        → Owner t (slot t h) short (slot t idx)
        → Walk t short (slot t idx) path
        → Among s path
        → MatchAt s
        → ((follow equals fuel short h key idx t ≡ none) × (fuel < length path))
          ⊎ ((i : ℕ) × (follow equals fuel short h key idx t ≡ some (already_found i, t))
              × MatchAt (slot t i))
    unfolding follow
    follow-match fuel short idx [] s own w a m = absurd a
    follow-match zero short idx (j ∷ path) s own w a m = inl (refl, omega arith)
    follow-match (suc fuel) short idx (j ∷ path) s own (step p e w) a m =
        let d = link t short (slot t idx) in
        let i = add_word idx d in
        let here : j ≡ slot t i = e ∙ sym (slot-next fits idx d) in
        elim (turn_cases short idx own p) [
          | inl (q, m') ↦ inr (i, rw q refl, m')
          | inr (q, n) ↦ elim a [
            | inl at_j ↦ absurd (n (rw (at_j ∙ here) at m))
            | inr a' ↦
                let own' : InBucket t (slot t h) (slot t i) =
                  rw (slot-next fits idx d) (links.owned (slot t h) short (slot t idx) own p) in
                elim (follow-match fuel true i path s own' (rw here at w) a' m) [
                  | inl (r, lt) ↦ inl (rw q r, omega arith)
                  | inr (k, r, m') ↦ inr (k, rw q r, m')
                ]
          ]
        ]

    -- The loop, on a chain without a cell that matches: it comes to its last cell with the node unchanged.
    pub follow-last :
        (fuel : ℕ) (short : Bool) (idx : ℕ) (path : List ℕ)
        → Owner t (slot t h) short (slot t idx)
        → idx < 2 ^ 64
        → Walk t short (slot t idx) path
        → ((s : ℕ) → Among s path → MatchAt s → ⊥)
        → (short' : Bool) × (i : ℕ) × (follow equals (length path + fuel) short h key idx t
            ≡ follow equals fuel short' h key i t)
          × (slot t i ≡ last (slot t idx) path)
          × (link t short' (slot t i) ≡ 0)
          × (i < 2 ^ 64)
    unfolding follow
    follow-last fuel short idx [] own word (end z) none_match =
        let e : 0 + fuel ≡ fuel = omega arith in (short, idx, rw e refl, refl, z, word)
    follow-last fuel short idx (j ∷ path) own word (step p e w) none_match =
        let d = link t short (slot t idx) in
        let i = add_word idx d in
        let here : j ≡ slot t i = e ∙ sym (slot-next fits idx d) in
        let more : length (j ∷ path) + fuel ≡ suc (length path + fuel) = omega arith in
        elim (turn_cases short idx own p) [
          | inl (q, m') ↦ absurd (none_match j (inl refl) (rw here m'))
          | inr (q, n) ↦
              let own' : InBucket t (slot t h) (slot t i) =
                rw (slot-next fits idx d) (links.owned (slot t h) short (slot t idx) own p) in
              let (short', k, run, at_last, z, word') =
                follow-last fuel true i path own' (omega arith) (rw here at w)
                  (λ s a. none_match s (inr a)) in
              (short', k, rw (more, q) run, rw here at_last, z, word')
        ]
