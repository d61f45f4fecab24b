-- ===== src/ConcurrentMap/Turn.antt =====
-- One turn of the loop of `insertOrFind` over the links of a bucket.
use mathlib.Core.Path.{subst}
use clojure_rt.Base.{
  ℕ, ◌+◌, ◌%◌, ◌^◌, ◌≤◌, ◌<◌, ◌≡◌, refl, sym, ◌∙◌, arith, ◌⊎◌, inl, inr, Bool, true, false, Option,
  none, some, List, [], ◌∷◌, Bool-cases, Option-cases, ◌==◌, ==_iff, add_word, ltb,
}
use clojure_rt.Value.{RtValue}
use clojure_rt.ConcurrentMap.Ops.{
  Entry, Node, slot, entry_at, Probe, at_key, at_empty, at_bucket, at_limit, is_match, probe,
  InsertResult, already_found, inserted_new, overflow, store_link, claim, turn, after_probe, Turn,
  done, go_on,
}
use clojure_rt.ConcurrentMap.Slots.{sub_word-add_word}
use clojure_rt.ConcurrentMap.Links.{
  hash_at, link, next, InBucket, Owner, Fits, Links, Walk, end, step, Frame, Frame-refl,
  Frame-trans_right, Owner-Frame, InBucket-Frame, hash_kept,
}
use clojure_rt.ConcurrentMap.Stores.{
  Frame-store_link, Links-store_link, Frame-claim, Links-claim, store_link-link, store_link_self,
  claim-link, claim_self,
}
use clojure_rt.ConcurrentMap.Search.{
  slot-next, some-inj, Matches, is_same_key-equals, Probed, is_key, is_empty, is_bucket, is_limit,
  probe-Probed,
}

abbrev pub Among : ℕ → List ℕ → Type 0
Among s [] = ⊥
Among s (i ∷ is) = (s ≡ i) ⊎ Among s is

-- The cell that a search has claimed.
abbrev pub claimed : Node → InsertResult → Option ℕ
claimed t (already_found i) = none
claimed t (inserted_new i) = some (slot t i)
claimed t (overflow i) = none

pub Fits-Frame : {b h : ℕ} {c : Option ℕ} {t t' : Node} → Frame b h c t t' → Fits t → Fits t'
Fits-Frame f fits = record {
  bits = fits.bits;
  size = f.size ∙ fits.size;
  word = fits.word;
  limit = rw f.limit fits.limit;
}

-- The nodes before and after a search from a link, that has not found the key.
pub record Ended (h : ℕ) (r : InsertResult) (short : Bool) (s : ℕ) (t t' : Node) : Type 0 where
  pub frame : Frame (slot t h) h (claimed t r) t t'
  pub links : Links t'
  pub path : List ℕ
  pub walk : Walk t' short s path
  pub reaches : (i : ℕ) → claimed t r ≡ some i → Among i path
  pub fresh : (i : ℕ) → claimed t r ≡ some i → (hash_at t i ≡ 0) × (hash_at t' i ≡ h)

module _ (equals : RtValue → RtValue → Bool) (h : ℕ) (key : RtValue) where
  pub is_match-true :
      (e : Entry)
      → is_match equals e h key ≡ some true
      → (e.key_hash ≡ h) × (equals e.key key ≡ true)
  unfolding is_match
  is_match-true e q = elim (Bool-cases (e.key_hash == h)) [
    | inl z ↦ ((==_iff e.key_hash h).0 z, is_same_key-equals equals e key true (rw z at q))
    | inr z ↦ absurd (let no : some false ≡ some true = rw z at q in cc)
  ]

  abbrev pub Followed : Bool → ℕ → Node → InsertResult → Node → Type 0
  Followed short s t (already_found i) t' = Matches equals t h key (slot t i)
  Followed short s t (inserted_new i) t' = Ended h (inserted_new i) short s t t'
  Followed short s t (overflow i) t' = Ended h (overflow i) short s t t'

  -- A turn that goes on at the next cell of the chain.
  pub record Moved (short : Bool) (idx : ℕ) (t : Node) (i : ℕ) (t' : Node) : Type 0 where
    pub frame : Frame (slot t h) h none t t'
    pub links : Links t'
    pub own : InBucket t' (slot t h) (slot t i)
    pub linked : 0 < link t' short (slot t idx)
    pub there : slot t i ≡ next t' short (slot t idx)
    pub word : i < 2 ^ 64

  pub data Turned (short : Bool) (idx : ℕ) (t : Node) : Turn → Type 0 where
    over :
        {r : InsertResult} {t' : Node}
        → Followed short (slot t idx) t r t'
        → Turned short idx t (done r t')
    moved : {i : ℕ} {t' : Node} → Moved short idx t i t' → Turned short idx t (go_on i t')

  module _ (short : Bool) (idx : ℕ) (t : Node) (fits : Fits t) (links : Links t) (positive : 0 < h)
      (own : Owner t (slot t h) short (slot t idx)) (taken : 0 < hash_at t (slot t idx))
      (word : idx < 2 ^ 64) where
    -- The turn that follows a link.
    turn_linked :
        (s : Turn)
        → 0 < link t short (slot t idx)
        → turn equals short h key idx t ≡ some s
        → Turned short idx t s
    unfolding turn
    turn_linked s p q =
        let d = link t short (slot t idx) in
        let i = add_word idx d in
        let there : slot t i ≡ next t short (slot t idx) = slot-next fits idx d in
        let own' : InBucket t (slot t h) (slot t i) =
          rw there (links.owned (slot t h) short (slot t idx) own p) in
        let some_link : ltb 0 d ≡ true = ground arith in
        let full : (hash_at t (slot t i) == 0) ≡ false = let p = own'.0 in ground arith in
        let q' = rw (some_link, full) at q in
        elim (Option-cases (is_match equals (entry_at t i) h key)) [
          | inl w ↦ absurd (let no : none ≡ some s = rw w at q' in cc)
          | inr (true, w) ↦
              subst (Turned short idx t) (some-inj (rw w at q'))
                (over (is_match-true (entry_at t i) w))
          | inr (false, w) ↦ subst (Turned short idx t) (some-inj (rw w at q')) (
              moved (record {
                frame = Frame-refl (slot t h) h t;
                links = links;
                own = own';
                linked = p;
                there = there;
                word = omega arith;
              }))
        ]

    next_eq :
        {b : ℕ} {c : Option ℕ} {t' : Node} {d : ℕ}
        → Frame b h c t t'
        → link t' short (slot t idx) ≡ d
        → next t' short (slot t idx) ≡ slot t (slot t idx + d)
    next_eq frame e = rw (frame.size, e) refl

    -- The search that ends in an empty cell, which it claims and links.
    Ended-new :
        (d : ℕ)
        → link t short (slot t idx) ≡ 0
        → 0 < d
        → d ≤ 128
        → hash_at t (slot t (add_word idx d)) ≡ 0
        → Ended h
            (inserted_new (add_word idx d))
            short
            (slot t idx)
            t
            (store_link short idx d (claim h (add_word idx d) t))
    unfolding claim
    Ended-new d z pos le zero_hash =
        let i = add_word idx d in
        let u = claim h i t in
        let fc = Frame-claim h i t zero_hash (slot t h) in
        let own' = Owner-Frame fc (slot t h) short (slot t idx) own in
        let fs = Frame-store_link short idx d u own' h (claim-link h i t short (slot t idx) ∙ z) in
        let frame = Frame-trans_right fc fs in
        let byte : d % 256 ≡ d = omega arith in
        let there = slot-next fits idx d in
        let self = store_link_self short idx d u ∙ byte in
        let taken' : 0 < hash_at u (slot t idx) = rw (hash_kept fc (slot t idx) taken) taken in
        let new_hash : hash_at u (slot t i) ≡ h = claim_self h i t in
        let target : InBucket u (slot t h) (slot t i) = (rw new_hash positive, rw new_hash refl) in
        record {
          frame = frame;
          links =
              Links-store_link short idx d u own' (Links-claim h i t zero_hash links) taken'
                (rw (byte, ← there) target);
          path = slot t i ∷ [];
          walk = step (rw self pos) (there ∙ sym (next_eq frame self)) (
              end (elim (store_link-link short idx d u true (slot t i)) [
                | inl e ↦
                    e ∙ claim-link h i t true (slot t i) ∙ links.blank true (slot t i) zero_hash
                | inr (x, q, y) ↦ absurd (let n = rw q at zero_hash in omega arith)
              ]));
          reaches = λ j e. inl (sym (some-inj e));
          fresh = λ j e.
              rw (← some-inj e)
                (zero_hash, hash_kept fs (slot t i) (rw new_hash positive) ∙ new_hash);
        }

    after_probe-Turned :
        (p : Probe)
        → link t short (slot t idx) ≡ 0
        → Probed equals t h key idx p
        → Turned short idx t (after_probe short h idx t p)
    unfolding after_probe
    after_probe-Turned (at_key i) z (is_key m) = over m
    after_probe-Turned (at_limit i) z is_limit = over (record {
      frame = Frame-refl (slot t h) h t;
      links = links;
      path = [];
      walk = end z;
      reaches = λ i e. absurd (cc);
      fresh = λ i e. absurd (cc);
    })
    after_probe-Turned (at_bucket i) z (is_bucket d pos le own') =
        let dist = sub_word-add_word idx d word (omega arith) in
        let byte : d % 256 ≡ d = omega arith in
        let there = slot-next fits idx d in
        let frame = Frame-store_link short idx d t own h z in
        let self = store_link_self short idx d t ∙ byte in
        rw dist (
          moved (record {
            frame = frame;
            links = Links-store_link short idx d t own links taken (rw (byte, ← there) own');
            own = InBucket-Frame frame (slot t h) _ own';
            linked = rw self pos;
            there = there ∙ sym (next_eq frame self);
            word = omega arith;
          }))
    after_probe-Turned (at_empty i) z (is_empty d pos le zero_hash) =
        let dist = sub_word-add_word idx d word (omega arith) in
        rw dist (over (Ended-new d z pos le zero_hash))

    pub turn-Turned : (s : Turn) → turn equals short h key idx t ≡ some s → Turned short idx t s
    unfolding turn
    turn-Turned s q = elim (Bool-cases (ltb 0 (link t short (slot t idx)))) [
      | inl p ↦ turn_linked s (ground arith) q
      | inr p ↦
          let z : link t short (slot t idx) ≡ 0 = ground arith in
          let q' = rw p at q in
          let same_word : add_word idx 0 ≡ idx = omega arith in
          let ended = probe-Probed equals fits h key idx t.resizing_threshold 0 in
          elim (Option-cases (probe equals t h key t.resizing_threshold idx)) [
            | inl w ↦ absurd (let no : none ≡ some s = rw w at q' in cc)
            | inr (x, w) ↦
                subst (Turned short idx t) (some-inj (rw w at q'))
                  (after_probe-Turned x z (ended x (omega (arith, fits.limit)) (rw same_word w)))
          ]
    ]
