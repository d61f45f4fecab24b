-- ===== src/ConcurrentMap/Search.antt =====
-- What the linear search of `insertOrFind` finds, and the test of a cell's key.
use Prim.Native.Nat.{bit_xor}
use mathlib.Core.Path.{subst}
use clojure_rt.Base.{
  ℕ, zero, suc, ◌+◌, ◌%◌, ◌≤◌, ◌<◌, ◌≡◌, arith, inl, inr, Bool, true, false, none, some, Bool-cases,
  Option-cases, ◌==◌, ==_iff, add_word, if◌then◌else◌,
}
use clojure_rt.Value.{RtValue, is_null}
use clojure_rt.ConcurrentMap.Ops.{
  Entry, Node, slot, entry_at, Probe, at_key, at_empty, at_bucket, at_limit, is_same_key, probe,
}
use clojure_rt.ConcurrentMap.Slots.{bit_xor-low, bit_xor-same, add_word-mod}
use clojure_rt.ConcurrentMap.Links.{hash_at, InBucket, Fits}

pub slot-next :
    {t : Node} → Fits t → (idx d : ℕ) → slot t (add_word idx d) ≡ slot t (slot t idx + d)
slot-next f idx d = rw f.size (add_word-mod f.bits idx d f.word)

pub same_slot :
    {t : Node} → Fits t → (a b : ℕ) → (bit_xor a b % t.size == 0) ≡ true → slot t a ≡ slot t b
same_slot f a b h =
    let z = (==_iff (bit_xor a b % _) 0).0 h in rw f.size (bit_xor-low f.bits a b (rw f.size at z))

same_hash : (a b : ℕ) → (bit_xor a b == 0) ≡ true → a ≡ b
same_hash a b h =
    bit_xor-same (a + b) a b (omega arith) (omega arith) ((==_iff (bit_xor a b) 0).0 h)

pub some-inj {ℓ} : {A : Type ℓ} {x y : A} → some x ≡ some y → x ≡ y
some-inj e = cc

module _ (equals : RtValue → RtValue → Bool) where
  abbrev pub Matches : Node → ℕ → RtValue → ℕ → Type 0
  Matches t h key s = (hash_at t s ≡ h) × (equals (t.entries s).key key ≡ true)

  -- A test that does not wait for another thread compares the keys.
  pub is_same_key-equals :
      (e : Entry) (key : RtValue) (same : Bool)
      → is_same_key equals e key ≡ some same
      → equals e.key key ≡ same
  unfolding is_same_key
  is_same_key-equals e key same h = elim (Bool-cases (is_null e.key)) [
    | inl n ↦ absurd (let q : none ≡ some same = rw n at h in cc)
    | inr n ↦ some-inj (rw n at h)
  ]

  -- What the end of a search from the index `idx` says.
  pub data Probed (t : Node) (h : ℕ) (key : RtValue) (idx : ℕ) : Probe → Type 0 where
    is_key : {i : ℕ} → Matches t h key (slot t i) → Probed t h key idx (at_key i)
    is_empty :
        (d : ℕ)
        → 0 < d
        → d ≤ 128
        → hash_at t (slot t (add_word idx d)) ≡ 0
        → Probed t h key idx (at_empty (add_word idx d))
    is_bucket :
        (d : ℕ)
        → 0 < d
        → d ≤ 128
        → InBucket t (slot t h) (slot t (add_word idx d))
        → Probed t h key idx (at_bucket (add_word idx d))
    is_limit : {i : ℕ} → Probed t h key idx (at_limit i)

  module _ {t : Node} (fits : Fits t) (h : ℕ) (key : RtValue) (idx : ℕ) where
    -- The search from `idx`, of which `j` turns are over.
    pub probe-Probed :
        (n j : ℕ) (p : Probe)
        → j + n ≤ 128
        → probe equals t h key n (add_word idx j) ≡ some p
        → Probed t h key idx p
    unfolding probe
    probe-Probed zero j p le q = subst (Probed t h key idx) (some-inj q) is_limit
    probe-Probed (suc n) j p le q =
        let ahead : add_word (add_word idx j) 1 ≡ add_word idx (suc j) = omega arith in
        let i = add_word idx (suc j) in
        let e = entry_at t i in
        let q' = rw ahead at q in
        let onward : (if bit_xor e.key_hash h % t.size == 0
                then some (at_bucket i)
                else probe equals t h key n i)
              ≡ some p
            → 0 < e.key_hash
            → Probed t h key idx p =
          λ r taken. elim (Bool-cases (bit_xor e.key_hash h % t.size == 0)) [
            | inl z ↦ subst (Probed t h key idx) (some-inj (rw z at r)) (
                is_bucket (suc j) (omega arith) (omega arith)
                  (taken, same_slot fits e.key_hash h z))
            | inr z ↦ probe-Probed n (suc j) p (omega arith) (rw z at r)
          ] in
        elim (Bool-cases (e.key_hash == 0)) [
          | inl z ↦
              subst (Probed t h key idx) (some-inj (rw z at q'))
                (is_empty (suc j) (omega arith) (omega arith) (ground arith))
          | inr z ↦
              let taken : 0 < e.key_hash = ground arith in
              elim (Bool-cases (bit_xor e.key_hash h == 0)) [
                | inr x ↦ onward (rw (z, x) at q') taken
                | inl x ↦ elim (Option-cases (is_same_key equals e key)) [
                  | inl w ↦ absurd (let no : none ≡ some p = rw (z, x, w) at q' in cc)
                  | inr (true, w) ↦
                      subst (Probed t h key idx) (some-inj (rw (z, x, w) at q'))
                        (is_key (same_hash e.key_hash h x, is_same_key-equals e key true w))
                  | inr (false, w) ↦ onward (rw (z, x, w) at q') taken
                ]
              ]
        ]
