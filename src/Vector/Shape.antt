-- ===== src/Vector/Shape.antt =====
-- The elements of a trie and its shape: every leaf holds 32 elements, the children of a node have one
-- height, and only the nodes on the right edge have fewer than 32 children.
use clojure_rt.Base.{
  Bool, true, false, Option, none, some, ℕ, zero, suc, ◌*◌, ◌≤◌, ◌<◌, ◌≡◌, sym, ◌∙◌, List, [], ◌++◌,
  length, length-append, append-nil, arith,
}
use clojure_rt.Value.{RtValue}
use clojure_rt.Vector.Node.{Node, leaf, internal, Nodes, nil, cons, count}
use clojure_rt.Vector.Radix.{capacity, capacity-zero, capacity-suc}

unfoldable mutual
  pub contents : Node → List RtValue
  contents (leaf l) = l.array
  contents (internal a t ns) = contents_nodes ns

  pub contents_nodes : Nodes → List RtValue
  contents_nodes nil = []
  contents_nodes (cons n ns) = contents n ++ contents_nodes ns

-- A complete tree of a height.
abbrev mutual
  pub IsFull : Node → ℕ → Type 0
  IsFull (leaf l) zero = length l.array ≡ 32
  IsFull (leaf l) (suc h) = ⊥
  IsFull (internal a t ns) zero = ⊥
  IsFull (internal a t ns) (suc h) = (count ns ≡ 32) × AllFull ns h

  pub AllFull : Nodes → ℕ → Type 0
  AllFull nil h = Unit {0}
  AllFull (cons n ns) h = IsFull n h × AllFull ns h

-- A tree of a height that is filled from the left.
abbrev mutual
  pub IsDense : Node → ℕ → Type 0
  IsDense (leaf l) zero = length l.array ≡ 32
  IsDense (leaf l) (suc h) = ⊥
  IsDense (internal a t ns) zero = ⊥
  IsDense (internal a t ns) (suc h) = (count ns ≤ 32) × AllDense ns h

  pub AllDense : Nodes → ℕ → Type 0
  AllDense nil h = ⊥
  AllDense (cons n nil) h = IsDense n h
  AllDense (cons n (cons m ns)) h = IsFull n h × AllDense (cons m ns) h

mutual
  pub IsFull-IsDense : (n : Node) (h : ℕ) → IsFull n h → IsDense n h
  IsFull-IsDense (leaf l) zero f = f
  IsFull-IsDense (leaf l) (suc h) f = f
  IsFull-IsDense (internal a t ns) zero f = f
  IsFull-IsDense (internal a t ns) (suc h) f =
      (omega (arith, f.0), AllFull-AllDense ns h (omega (arith, f.0)) f.1)

  pub AllFull-AllDense : (ns : Nodes) (h : ℕ) → 0 < count ns → AllFull ns h → AllDense ns h
  AllFull-AllDense nil h p f = absurd (omega (arith, p))
  AllFull-AllDense (cons n nil) h p f = IsFull-IsDense n h f.0
  AllFull-AllDense (cons n (cons m ns)) h p f =
      (f.0, AllFull-AllDense (cons m ns) h (omega arith) f.1)

mutual
  unfolding contents

  pub length-contents_full : (n : Node) (h : ℕ) → IsFull n h → length (contents n) ≡ capacity h
  length-contents_full (leaf l) zero f = f ∙ sym capacity-zero
  length-contents_full (leaf l) (suc h) f = absurd f
  length-contents_full (internal a t ns) zero f = absurd f
  length-contents_full (internal a t ns) (suc h) f =
      length-contents-AllFull ns h f.1 ∙ rw f.0 (sym (capacity-suc h))

  pub length-contents-AllFull :
      (ns : Nodes) (h : ℕ) → AllFull ns h → length (contents_nodes ns) ≡ count ns * capacity h
  length-contents-AllFull nil h f = omega arith
  length-contents-AllFull (cons n ns) h f =
      length-append (contents n) (contents_nodes ns)
      ∙ rw (length-contents_full n h f.0, length-contents-AllFull ns h f.1) (omega arith)

mul_bound : (k c n : ℕ) → n ≤ c * k → c ≤ 32 → n ≤ 32 * k
mul_bound k c n h b = grind arith

mutual
  unfolding contents

  -- A tree that is filled from the left is not empty, and holds no more than a full one.
  pub length-contents_dense :
      (n : Node) (h : ℕ)
      → IsDense n h
      → (0 < length (contents n)) × (length (contents n) ≤ capacity h)
  length-contents_dense (leaf l) zero d = rw capacity-zero (omega arith)
  length-contents_dense (leaf l) (suc h) d = absurd d
  length-contents_dense (internal a t ns) zero d = absurd d
  length-contents_dense (internal a t ns) (suc h) d =
      let s = length-contents-AllDense ns h d.1 in (s.0, rw capacity-suc (mul_bound _ _ _ s.1 d.0))

  pub length-contents-AllDense :
      (ns : Nodes) (h : ℕ)
      → AllDense ns h
      → (0 < length (contents_nodes ns)) × (length (contents_nodes ns) ≤ count ns * capacity h)
  length-contents-AllDense nil h d = absurd d
  length-contents-AllDense (cons n nil) h d =
      rw append-nil (omega (arith, length-contents_dense n h d))
  length-contents-AllDense (cons n (cons m ns)) h d =
      let s = length-contents-AllDense (cons m ns) h d.1 in
      rw (length-append, length-contents_full n h d.0) (omega (arith, s))

pub AllDense-cons :
    (n : Node) (ns : Nodes) (h : ℕ) → IsFull n h → AllDense ns h → AllDense (cons n ns) h
AllDense-cons n nil h f d = absurd d
AllDense-cons n (cons m ns) h f d = (f, d)

abbrev pub is_some : Option Node → Bool
is_some none = false
is_some (some n) = true

-- An internal node with more than one child.
abbrev pub IsBranching : Node → Type 0
IsBranching (leaf l) = Unit {0}
IsBranching (internal a t ns) = 2 ≤ count ns

pub IsFull-IsBranching : (n : Node) (h : ℕ) → IsFull n h → IsBranching n
IsFull-IsBranching (leaf l) h f = tt
IsFull-IsBranching (internal a t ns) zero f = absurd f
IsFull-IsBranching (internal a t ns) (suc h) f = omega (arith, f.0)

-- The trie of a vector: none, of height 0, or a tree that is filled from the left and whose root, if it
-- is not a leaf, has more than one child.
abbrev pub IsTrie : Option Node → ℕ → Type 0
IsTrie none h = h ≡ 0
IsTrie (some n) h = IsDense n h × IsBranching n

abbrev pub trie_contents : Option Node → List RtValue
trie_contents none = []
trie_contents (some n) = contents n
