-- ===== src/ConcurrentMap/Writes.antt =====
-- The stores to the cell that `insertOrFind` has found or claimed, and the values that a table holds.
use mathlib.Core.Path.{subst}
use clojure_rt.Base.{
  ℕ, ◌≡◌, refl, sym, ◌∙◌, ◌⊎◌, inl, inr, Bool, true, false, Option, none, some, List, [], ◌∷◌,
  ==_self, update-all,
}
use clojure_rt.Value.{RtValue}
use clojure_rt.ConcurrentMap.Ops.{
  Entry, Node, slot, leap, hash_of_key, entry_at, store_new, store_value,
}
use clojure_rt.ConcurrentMap.Links.{
  hash_at, link, next, InBucket, Owner, Links, Walk, end, step, Frame-refl,
}
use clojure_rt.ConcurrentMap.Search.{some-inj}
use clojure_rt.ConcurrentMap.Valid.{key_at, IsValid, Grown}
use clojure_rt.ConcurrentMap.Insert.{Extended, Absent}

abbrev pub value_at : Node → ℕ → RtValue
value_at t s = (t.entries s).value

-- Tables with the same hashes and links.
pub record SameShape (t u : Node) : Type 0 where
  pub size : u.size ≡ t.size
  pub limit : u.resizing_threshold ≡ t.resizing_threshold
  pub hashes : (s : ℕ) → hash_at u s ≡ hash_at t s
  pub links : (short : Bool) (s : ℕ) → link u short s ≡ link t short s

SameShape-refl : (t : Node) → SameShape t t
SameShape-refl t = record { size = refl; limit = refl; hashes = λ s. refl; links = λ short s. refl }

module _ {t u : Node} (same : SameShape t u) where
  Walk-SameShape :
      (short : Bool) (s : ℕ) (path : List ℕ) → Walk t short s path → Walk u short s path
  Walk-SameShape short s [] (end z) = end (same.links short s ∙ z)
  Walk-SameShape short s (i ∷ path) (step p e w) =
      step (rw (same.links short s) p) (e ∙ rw (same.size, same.links short s) refl)
        (Walk-SameShape true i path w)

  InBucket-SameShape : (b s : ℕ) → InBucket t b s → InBucket u b s
  InBucket-SameShape b s o = rw (same.hashes s, same.size) o

  Owner-SameShape : (b : ℕ) (short : Bool) (s : ℕ) → Owner u b short s → Owner t b short s
  Owner-SameShape b true s o = rw (same.hashes s, same.size) at o
  Owner-SameShape b false s o = o

  Links-SameShape : Links t → Links u
  Links-SameShape l = record {
    blank = λ short s z. same.links short s ∙ l.blank short s (sym (same.hashes s) ∙ z);
    owned = λ b short s o p.
        let there : next t short s ≡ next u short s = rw (same.size, same.links short s) refl in
        subst (InBucket u b) there (
          InBucket-SameShape b (next t short s)
            (l.owned b short s (Owner-SameShape b short s o) (rw (same.links short s) at p)));
  }

module _ (i : ℕ) (key v : RtValue) (t : Node) where
  abbrev Stored : (key : RtValue) → ℕ → Entry → Type 0
  Stored k s e =
      (e.key_hash ≡ hash_at t s)
      × ((short : Bool) → leap short e ≡ link t short s)
      × (((e.key ≡ key_at t s) × (e.value ≡ value_at t s))
          ⊎ ((s ≡ slot t i) × (e.key ≡ k) × (e.value ≡ v)))

  same_leap :
      (k : RtValue) (short : Bool)
      → leap short (record (entry_at t i) { key = k; value = v }) ≡ link t short (slot t i)
  same_leap k true = refl
  same_leap k false = refl

  pub store_new-Stored : (s : ℕ) → Stored key s ((store_new i key v t).entries s)
  unfolding store_new
  store_new-Stored =
      update-all (Stored key) t.entries (slot t i) _ (refl, same_leap key, inr (refl, refl, refl))
        (λ s. (refl, λ short. refl, inl (refl, refl)))

  pub store_value-Stored : (s : ℕ) → Stored (key_at t (slot t i)) s ((store_value i v t).entries s)
  unfolding store_value
  store_value-Stored =
      update-all (Stored (key_at t (slot t i))) t.entries (slot t i) _
        (refl, same_leap (key_at t (slot t i)), inr (refl, refl, refl))
        (λ s. (refl, λ short. refl, inl (refl, refl)))

  pub store_new-key :
      (s : ℕ)
      → s ≡ slot t i
      → (key_at (store_new i key v t) s ≡ key) × (value_at (store_new i key v t) s ≡ v)
  unfolding store_new
  store_new-key s e = rw (e, ==_self (slot t i), key_at, value_at) (refl, refl)

  SameShape-store_new : SameShape t (store_new i key v t)
  unfolding store_new
  SameShape-store_new = record {
    size = refl;
    limit = refl;
    hashes = λ s. (store_new-Stored s).0;
    links = λ short s. (store_new-Stored s).1 short;
  }

  SameShape-store_value : SameShape t (store_value i v t)
  unfolding store_value
  SameShape-store_value = record {
    size = refl;
    limit = refl;
    hashes = λ s. (store_value-Stored s).0;
    links = λ short s. (store_value-Stored s).1 short;
  }

module _ (equals : RtValue → RtValue → Bool) (hash : RtValue → ℕ) (key : RtValue) where
  Grown-Extended :
      {c : Option ℕ} {t u w : Node}
      → Extended equals hash key t c u
      → SameShape u w
      → ((s : ℕ) → (key_at w s ≡ key_at u s) ⊎ (c ≡ some s))
      → ((s : ℕ) → c ≡ some s → (key_at w s ≡ key) × Absent equals hash key t)
      → Grown equals hash key c t w
  Grown-Extended {c} {t} {u} {w} e same others new = record {
    size = same.size ∙ e.frame.size;
    limit = same.limit ∙ e.frame.limit;
    links = Links-SameShape same e.links;
    kept = λ short s p. same.links short s ∙ e.frame.kept short s p;
    others = λ b short s n o. same.links short s ∙ e.frame.others b short s n o;
    path = e.path;
    walk = Walk-SameShape same false _ e.path e.walk;
    cells = λ s.
        let which : (c ≡ some s) ⊎ ((hash_at u s ≡ hash_at t s) × (key_at w s ≡ key_at u s)) =
          elim (others s) [
            | inr q ↦ inl q
            | inl k ↦ elim (e.frame.hashes s) [ inl h ↦ inr (h, k) | inr (z, n, q) ↦ inl q ]
          ] in
        elim which [
          | inr (h, k) ↦ inl (same.hashes s ∙ h, k ∙ e.frame.keys s)
          | inl q ↦
              let (z, n) = e.fresh s q in
              let (k, absent) = new s q in inr (q, same.hashes s ∙ n, k, e.place s q, absent)
        ];
  }

  module _ {t : Node} where
    -- The store to a new cell.
    pub Grown-new :
        (i : ℕ) {u : Node} (v : RtValue)
        → Absent equals hash key t
        → Extended equals hash key t (some (slot t i)) u
        → Grown equals hash key (some (slot t i)) t (store_new i key v u)
    Grown-new i {u} v absent e =
        let here : slot u i ≡ slot t i = rw e.frame.size refl in
        Grown-Extended e (SameShape-store_new i key v u)
          (λ s. elim ((store_new-Stored i key v u s).2) [
            | inl (k, x) ↦ inl k
            | inr (at_i, k, x) ↦ inr (rw (at_i, here) refl)
          ])
          (λ s q. ((store_new-key i key v u s (sym (some-inj q) ∙ sym here)).0, absent))

    pub Grown-none : {u : Node} → Extended equals hash key t none u → Grown equals hash key none t u
    Grown-none {u} e = Grown-Extended e (SameShape-refl u) (λ s. inl refl) (λ s q. absurd (cc))

    -- The store to the value of a cell.
    pub Grown-store_value :
        IsValid equals hash t
        → (i : ℕ) (v : RtValue) → Grown equals hash key none t (store_value i v t)
    Grown-store_value valid i v =
        let chain = valid.chain (slot t (hash_of_key hash key)) in
        Grown-Extended
          (record {
            frame = Frame-refl (slot t (hash_of_key hash key)) (hash_of_key hash key) t;
            links = valid.links;
            path = chain.path;
            walk = chain.walk;
            place = λ s q. absurd (cc);
            fresh = λ s q. absurd (cc);
          })
          (SameShape-store_value i key v t)
          (λ s. elim ((store_value-Stored i key v t s).2) [
            | inl (k, x) ↦ inl k
            | inr (at_i, k, x) ↦ inl (k ∙ rw at_i refl)
          ])
          (λ s q. absurd (cc))
