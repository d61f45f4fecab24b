-- ===== src/Vector/Push.antt =====
-- What `PersistentVectorNode_pushTail` does to a trie (backend/runtime/PersistentVectorNode.c).
use clojure_rt.Base.{
  ℕ, zero, suc, ◌-◌, ◌*◌, ◌≤◌, ◌≡◌, refl, sym, ap, ◌∙◌, List, ◌++◌, Option, ltb, leb, none, some,
  length, append-nil, append_assoc, arith, Bool, true, false, Bool-cases, inl, inr, not, ◌&&◌,
  if◌then◌else◌,
}
use native.Mathlib.Nat.{le_of_eq}
use clojure_rt.Value.{RtValue}
use clojure_rt.Vector.Radix.{capacity, capacity-zero}
use clojure_rt.Vector.Node.{
  Leaf, Node, leaf, internal, Nodes, nil, cons, one_node, count, snoc, set_last, rrb_bits,
  push_tail, push_last, push_root, attach, reusable_node, fresh, placed,
}
use clojure_rt.Vector.Shape.{
  length-contents_full, contents, contents_nodes, IsFull, AllFull, IsDense, AllDense, AllDense-cons,
  IsTrie, IsBranching, trie_contents, is_some,
}

-- What `pushTail` returns for a node of a height: the node with the elements appended; or a tree of
-- the elements alone beside a node that is full, which at the root is joined with it one level up.
abbrev pub Pushed : Bool → ℕ → Node → List RtValue → Node × Bool → Type 0
Pushed root h n xs (r, true) =
    IsDense r h × (contents r ≡ contents n ++ xs) × (IsBranching n → IsBranching r)
Pushed true h n xs (r, false) =
    IsDense r (suc h) × (contents r ≡ contents n ++ xs) × IsFull n h × IsBranching r
Pushed false h n xs (r, false) = IsFull n h × IsDense r h × (contents r ≡ xs)

-- The same for the last child of a row.
abbrev PushedLast : ℕ → Nodes → List RtValue → Node × Bool → Type 0
PushedLast h ns xs (r, true) =
    AllDense (set_last ns r) h × (contents_nodes (set_last ns r) ≡ contents_nodes ns ++ xs)
PushedLast h ns xs (r, false) = AllFull ns h × IsDense r h × (contents r ≡ xs)

pub count-set_last : (ns : Nodes) (n : Node) → count (set_last ns n) ≡ count ns
count-set_last nil n = refl
count-set_last (cons m nil) n = refl
count-set_last (cons m (cons k ns)) n = ap suc (count-set_last (cons k ns) n)

count-snoc : (ns : Nodes) (n : Node) → count (snoc ns n) ≡ suc (count ns)
count-snoc nil n = refl
count-snoc (cons m ns) n = ap suc (count-snoc ns n)

snoc-AllDense :
    (ns : Nodes) (n : Node) (h : ℕ) → AllFull ns h → IsDense n h → AllDense (snoc ns n) h
snoc-AllDense nil n h f d = d
snoc-AllDense (cons m ns) n h f d = AllDense-cons m (snoc ns n) h f.0 (snoc-AllDense ns n h f.1 d)

contents-snoc :
    (ns : Nodes) (n : Node) → contents_nodes (snoc ns n) ≡ contents_nodes ns ++ contents n
unfolding contents
contents-snoc nil n = append-nil (contents n)
contents-snoc (cons m ns) n =
    ap (λ xs. contents m ++ xs) (contents-snoc ns n) ∙ sym (append_assoc (contents m) _ _)

leaves-AllFull : (ns : Nodes) → AllDense ns 0 → AllFull ns 0
leaves-AllFull nil d = absurd d
leaves-AllFull (cons (leaf l) nil) d = (d, tt)
leaves-AllFull (cons (internal a t ns) nil) d = absurd d
leaves-AllFull (cons n (cons m ns)) d = (d.0, leaves-AllFull (cons m ns) d.1)

-- The new root: the elements are appended, and the height grows by one exactly when there was a trie
-- and the answer is not `copied`; then the trie was full.
pub record RootPushed (root : Option Node) (h : ℕ) (xs : List RtValue) (p : Node × Bool)
    : Type 0 where
  pub shape : IsTrie (some p.0) (if not p.1 && is_some root then suc h else h)
  pub holds : contents p.0 ≡ trie_contents root ++ xs
  pub grown : (not p.1 && is_some root) ≡ true → capacity h ≤ length (trie_contents root)

Pushed-RootPushed :
    (n : Node) (h : ℕ) (xs : List RtValue) (p : Node × Bool)
    → IsBranching n
    → Pushed true h n xs p
    → RootPushed (some n) h xs p
Pushed-RootPushed n h xs (r, true) b p = record {
  shape = (p.0, p.2 b);
  holds = p.1;
  grown = λ e. cc;
}
Pushed-RootPushed n h xs (r, false) b p = record {
  shape = (p.0, p.3);
  holds = p.1;
  grown = λ _. le_of_eq (sym (length-contents_full n h p.2));
}

only :
    (n : Node) (h : ℕ) (xs : List RtValue) (r : Node × Bool)
    → Pushed false h n xs r
    → PushedLast h (one_node n) xs r
unfolding contents
only n h xs (r, true) p = (p.0, rw (append-nil, append-nil) p.1)
only n h xs (r, false) p = ((p.0, tt), p.1, p.2)

more :
    (n m : Node) (ns : Nodes) (h : ℕ) (xs : List RtValue) (r : Node × Bool)
    → IsFull n h
    → PushedLast h (cons m ns) xs r
    → PushedLast h (cons n (cons m ns)) xs r
unfolding contents
more n m ns h xs (r, true) f p = (
  AllDense-cons n _ h f p.0,
  ap (λ ys. contents n ++ ys) p.1 ∙ sym (append_assoc (contents n) _ xs),
)
more n m ns h xs (r, false) f p = ((f, p.0), p.1, p.2)

module _ (sole : ℕ → Bool) (vector_transient_id : ℕ) where
  attach-Pushed :
      (root : Bool) (a t : ℕ) (ns : Nodes) (reusable : Bool) (h : ℕ) (xs : List RtValue)
      (p : Node × Bool)
      → count ns ≤ 32
      → PushedLast h ns xs p
      → (r : Node × Bool) × (attach sole vector_transient_id root a t ns reusable (some p) ≡ some r)
        × Pushed root (suc h) (internal a t ns) xs r
  unfolding attach contents
  attach-Pushed root a t ns reusable h xs (sub, true) small p = (
    (internal (placed reusable a) t (set_last ns sub), true),
    refl,
    ((rw count-set_last small, p.0), p.1, λ b. rw count-set_last b),
  )
  attach-Pushed root a t ns reusable h xs (sub, false) small p =
      elim (Bool-cases (ltb (count ns) 32)) [
        | inl room ↦ (
          (internal fresh t (snoc ns sub), true),
          rw room,
          (
            (rw count-snoc (ground arith), snoc-AllDense ns sub h p.0 p.1),
            contents-snoc ns sub ∙ ap (λ ys. contents_nodes ns ++ ys) p.2,
            λ b. omega (arith, count-snoc ns sub, b),
          ),
        )
        | inr full ↦ rw full (split root (ground arith))
      ]
    where
      split :
          (root : Bool)
          → count ns ≡ 32
          → (r : Node × Bool) × ((if root
                then some (
                  internal fresh vector_transient_id (
                      cons
                        (internal a t ns)
                        (one_node (internal fresh vector_transient_id (one_node sub)))),
                  false,
                )
                else some (internal fresh vector_transient_id (one_node sub), false))
              ≡ some r)
            × Pushed root (suc h) (internal a t ns) xs r
      split true full = (
        _,
        refl,
        (
          (omega arith, ((full, p.0), (omega arith, p.1))),
          ap (λ ys. contents_nodes ns ++ ys) (append-nil _ ∙ append-nil _ ∙ p.2),
          (full, p.0),
          omega arith,
        ),
      )
      split false full =
          (_, refl, ((full, p.0), (omega arith, p.1), append-nil (contents sub) ∙ p.2))

  mutual
    unfolding push_tail contents

    push_tail-Pushed :
        (n : Node) (h : ℕ) (root : Bool) (tail : Leaf) (allows : Bool)
        → length tail.array ≡ 32
        → IsDense n (suc h)
        → (r : Node × Bool) × (push_tail sole vector_transient_id root n tail (5 * suc h) allows
            ≡ some r)
          × Pushed root (suc h) n tail.array r
    push_tail-Pushed (leaf l) h root tail allows w d = absurd d
    push_tail-Pushed (internal a t ns) zero root tail allows w d =
        attach-Pushed root a t ns (reusable_node sole vector_transient_id allows a t) zero
          tail.array (leaf tail, false) d.0 (leaves-AllFull ns d.1, w, refl)
    push_tail-Pushed (internal a t ns) (suc h) root tail allows w d =
        let above : leb (5 * suc (suc h)) rrb_bits ≡ false = ground arith in
        let below : 5 * suc (suc h) - rrb_bits ≡ 5 * suc h = omega arith in
        let reusable = reusable_node sole vector_transient_id allows a t in
        let (p, runs, pushed) = push_last-Pushed ns h tail reusable w d.1 in
        rw (above, below, runs) (attach-Pushed root a t ns reusable (suc h) tail.array p d.0 pushed)

    push_last-Pushed :
        (ns : Nodes) (h : ℕ) (tail : Leaf) (allows : Bool)
        → length tail.array ≡ 32
        → AllDense ns (suc h)
        → (r : Node × Bool) × (push_last sole vector_transient_id ns tail (5 * suc h) allows
            ≡ some r)
          × PushedLast (suc h) ns tail.array r
    push_last-Pushed nil h tail allows w d = absurd d
    push_last-Pushed (cons n nil) h tail allows w d =
        let (r, runs, pushed) = push_tail-Pushed n h false tail allows w d in
        (r, runs, only n (suc h) tail.array r pushed)
    push_last-Pushed (cons n (cons m ns)) h tail allows w d =
        let (r, runs, pushed) = push_last-Pushed (cons m ns) h tail allows w d.1 in
        (r, runs, more n m ns (suc h) tail.array r d.0 pushed)

  -- `pushTail` on the root of a vector does not fault.
  pub push_root-RootPushed :
      (root : Option Node) (h : ℕ) (tail : Leaf) (allows : Bool)
      → length tail.array ≡ 32
      → IsTrie root h
      → (p : Node × Bool) × (push_root sole vector_transient_id root tail (5 * h) allows ≡ some p)
        × RootPushed root h tail.array p
  unfolding push_root push_tail contents
  push_root-RootPushed none h tail allows w t =
      ((leaf tail, false), refl, record { shape = (rw t w, tt); holds = refl; grown = λ e. cc })
  push_root-RootPushed (some (leaf l)) zero tail allows w t = (
    (internal fresh vector_transient_id (cons (leaf l) (one_node (leaf tail))), false),
    refl,
    record {
      shape = ((omega arith, (t.0, w)), omega arith);
      holds = ap (λ xs. l.array ++ xs) (append-nil tail.array);
      grown = λ _. rw capacity-zero (omega arith);
    },
  )
  push_root-RootPushed (some (leaf l)) (suc h) tail allows w t = absurd t.0
  push_root-RootPushed (some (internal a i ns)) zero tail allows w t = absurd t.0
  push_root-RootPushed (some (internal a i ns)) (suc h) tail allows w t =
      let (p, runs, pushed) = push_tail-Pushed (internal a i ns) h true tail allows w t.0 in
      (p, runs, Pushed-RootPushed (internal a i ns) (suc h) tail.array p t.1 pushed)
