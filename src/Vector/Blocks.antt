-- ===== src/Vector/Blocks.antt =====
-- The block of an index: the leaf of 32 elements in the trie, or the tail.
use clojure_rt.Base.{
  ℕ, zero, suc, ◌+◌, ◌-◌, ◌*◌, ◌/◌, ◌%◌, ◌≤◌, ◌<◌, ◌≡◌, refl, sym, ap, ◌∙◌, false, Option, none,
  some, [], length, length-append, get_elem?, get_elem?-append_left, get_elem?-append_right, leb,
  arith, ok, Bool-cases, Option-cases, inl, inr,
}
use mathlib.Core.Path.{subst}
use native.Mathlib.Nat.{mod-eq_of_lt, div-div-eq-div-mul}
use clojure_rt.Vector.Node.{Leaf, Node, leaf, internal, Nodes, nil, cons}
use clojure_rt.Vector.Radix.{capacity, capacity-zero, capacity-suc, capacity-level}
use clojure_rt.Vector.Shape.{
  contents, contents_nodes, trie_contents, IsTrie, IsDense, AllDense, IsFull-IsDense,
  length-contents_dense,
}
use clojure_rt.Vector.Walk.{descend, walk, find_leaf, find_leaf-eq-walk, walk-Reached}
use clojure_rt.Vector.Ops.{Vector, tail_offset}
use clojure_rt.Vector.Valid.{elements, IsValid, tail_offset-eq}
use clojure_rt.Vector.Access.{nth_block}

mutual
  unfolding contents

  -- A trie holds whole leaves.
  whole_leaves : (n : Node) (h : ℕ) → IsDense n h → (m : ℕ) × (length (contents n) ≡ 32 * m)
  whole_leaves (leaf l) zero d = (1, omega (arith, d))
  whole_leaves (leaf l) (suc h) d = absurd d
  whole_leaves (internal a t ns) zero d = absurd d
  whole_leaves (internal a t ns) (suc h) d = all_whole_leaves ns h d.1

  all_whole_leaves :
      (ns : Nodes) (h : ℕ) → AllDense ns h → (m : ℕ) × (length (contents_nodes ns) ≡ 32 * m)
  all_whole_leaves nil h d = absurd d
  all_whole_leaves (cons n nil) h d =
      let (m, e) = whole_leaves n h d in (m, length-append (contents n) [] ∙ omega (arith, e))
  all_whole_leaves (cons n (cons k ns)) h d =
      let (m, e) = whole_leaves n h (IsFull-IsDense n h d.0) in
      let (m', e') = all_whole_leaves (cons k ns) h d.1 in
      (m + m', length-append (contents n) (contents_nodes (cons k ns)) ∙ omega (arith, e, e'))

div-capacity : (i j h : ℕ) → i / 32 ≡ j / 32 → i / capacity h ≡ j / capacity h
div-capacity i j zero e = rw capacity-zero e
div-capacity i j (suc h) e = rw (capacity-suc h) (
    sym (div-div-eq-div-mul i 32 (capacity h))
    ∙ ap (λ k. k / capacity h) e
    ∙ div-div-eq-div-mul j 32 (capacity h))

descend_congr :
    (i j h : ℕ) (t : Option Node)
    → i / 32 ≡ j / 32
    → descend i (5 * suc h) t ≡ descend j (5 * suc h) t
descend_congr i j h none e = refl
descend_congr i j h (some n) e = rw (capacity-level h, div-capacity i j h e) refl

-- Indices of one block have the same descent.
walk_congr : (h i j : ℕ) (t : Option Node) → i / 32 ≡ j / 32 → walk h i t ≡ walk h j t
unfolding walk
walk_congr zero i j t e = refl
walk_congr (suc h) i j t e =
    rw (descend_congr i j h t e) (walk_congr h i j (descend j (5 * suc h) t) e)

same_leaf : {l k : Leaf} → some (leaf l) ≡ some (leaf k) → l ≡ k
same_leaf {l} e = ap (λ o. elim o [ none ↦ l | some n ↦ leaf_of l n ]) e
  where
    leaf_of : Leaf → Node → Leaf
    leaf_of l (leaf k) = k
    leaf_of l (internal a t ns) = l

-- A leaf of the trie holds the 32 elements from a multiple of 32 on.
record Whole (n : Node) (h index : ℕ) (l : Leaf) : Type 0 where
  found : find_leaf n (5 * h) index ≡ some (leaf l)
  width : length l.array ≡ 32
  elem : (k : ℕ) → k < 32 → get_elem? l.array k ≡ get_elem? (contents n) (index - index % 32 + k)

trie-Whole :
    (n : Node) (h index : ℕ)
    → IsDense n h
    → index < length (contents n)
    → (l : Leaf) × Whole n h index l
trie-Whole n h index d inside =
    let (m, whole) = whole_leaves n h d in
    let bound = length-contents_dense n h d in
    let low : index % capacity h ≡ index = mod-eq_of_lt (omega (arith, inside, bound)) in
    let (l, r) = walk-Reached n h index d (rw low inside) in
    (
      l,
      record {
        found = find_leaf-eq-walk n h index ∙ r.found;
        width = r.width;
        elem = λ k small.
            let j = index - index % 32 + k in
            let inside' : j < length (contents n) = omega (arith, inside, whole, small) in
            let low' : j % capacity h ≡ j = mod-eq_of_lt (omega (arith, inside', bound)) in
            let (l', r') = walk-Reached n h j d (rw low' inside') in
            let block : index / 32 ≡ j / 32 = omega (arith, small) in
            let same : l ≡ l' =
              same_leaf (sym r.found ∙ walk_congr h index j (some n) block ∙ r'.found) in
            let place : j % 32 ≡ k = omega (arith, small) in
            ap (λ (c : Leaf). get_elem? c.array k) same
            ∙ ap (get_elem? l'.array) (sym place)
            ∙ r'.elem
            ∙ ap (get_elem? (contents n)) low';
      },
    )

-- The block of an index: a leaf with the elements from `start` on. Where another element follows the block,
-- it is the first of its own block.
pub record Covers (v : Vector) (index : ℕ) (l : Leaf) : Type 0 where
  pub start : ℕ
  pub begins : start ≤ index
  pub ends : index < start + length l.array
  pub inside : start + length l.array ≤ v.count
  pub elem : (k : ℕ) → k < length l.array → get_elem? l.array k ≡ get_elem? (elements v) (start + k)
  pub exact : index % 32 ≡ 0 → index ≤ tail_offset v → start ≡ index
  pub full :
      start + length l.array < v.count
      → ((start + length l.array) % 32 ≡ 0) × (start + length l.array ≤ tail_offset v)

tail-Covers :
    {v : Vector} (index : ℕ)
    → IsValid v
    → index < v.count
    → tail_offset v ≤ index
    → Covers v index v.tail
tail-Covers {v} index i p in_tail =
    let offset = tail_offset-eq i in
    let all = length-append (trie_contents v.root) v.tail.array in
    record {
      start = tail_offset v;
      begins = in_tail;
      ends = omega (arith, offset, all, i.counted, p);
      inside = omega (arith, offset, all, i.counted);
      elem = λ k small.
          let back : tail_offset v + k - length (trie_contents v.root) ≡ k =
            omega (arith, offset) in
          sym (
            get_elem?-append_right (trie_contents v.root) v.tail.array (tail_offset v + k)
              (omega (arith, offset))
            ∙ ap (get_elem? v.tail.array) back);
      exact = λ z h. omega (arith, in_tail, h);
      full = λ h. absurd (omega (arith, h, offset, all, i.counted));
    }

trie-Covers :
    {v : Vector} (n : Node) (index : ℕ) (i : IsValid v)
    → v.root ≡ some n
    → IsDense n i.height
    → index < tail_offset v
    → (l : Leaf) × (find_leaf n v.shift index ≡ some (leaf l)) × Covers v index l
trie-Covers {v} n index i e d p =
    let same : trie_contents v.root ≡ contents n = ap trie_contents e in
    let offset : tail_offset v ≡ length (contents n) = tail_offset-eq i ∙ ap length same in
    let all = length-append (trie_contents v.root) v.tail.array in
    let size : length (trie_contents v.root) ≡ length (contents n) = ap length same in
    let (m, whole) = whole_leaves n i.height d in
    let (l, w) = trie-Whole n i.height index d (omega (arith, p, offset)) in
    (
      l,
      rw i.level w.found,
      record {
        start = index - index % 32;
        begins = omega arith;
        ends = omega (arith, w.width);
        inside = omega (arith, w.width, p, offset, whole, all, i.counted, size);
        elem = λ k small.
            let below : index - index % 32 + k < length (contents n) =
              omega (arith, w.width, small, p, offset, whole) in
            w.elem k (omega (arith, small, w.width))
            ∙ ap (λ xs. get_elem? xs (index - index % 32 + k)) (sym same)
            ∙ sym (
                get_elem?-append_left (trie_contents v.root) v.tail.array (index - index % 32 + k)
                  (omega (arith, below, size)));
        exact = λ z h. omega (arith, z);
        full = λ h. (omega (arith, w.width), omega (arith, w.width, p, offset, whole));
      },
    )

-- For a valid vector and an index below its count, `nth_block` is the block of the index.
pub nth_block-Covers :
    {v : Vector} (index : ℕ)
    → IsValid v
    → index < v.count
    → (l : Leaf) × (nth_block v index ≡ ok (some (leaf l))) × Covers v index l
unfolding nth_block
nth_block-Covers {v} index i p =
    let within : leb v.count index ≡ false = ground arith in
    elim (Bool-cases (leb (tail_offset v) index)) [
      | inl e ↦ (v.tail, rw (within, e) refl, tail-Covers index i p (ground arith))
      | inr e ↦
          let below : index < tail_offset v = ground arith in
          elim (Option-cases v.root) [
            | inl z ↦
                absurd
                  (omega (arith, below, tail_offset-eq i, ap (λ o. length (trie_contents o)) z))
            | inr (n, f) ↦
                let d : IsTrie (some n) i.height = subst (λ o. IsTrie o i.height) f i.trie in
                let (l, found, c) = trie-Covers n index i f d.0 below in
                (l, rw (within, e, f, found) refl, c)
          ]
    ]
