-- ===== src/Vector/Walk.antt =====
-- The descent from the root to the leaf of an index, as `PersistentVector_nth`, `_nth_default` and
-- `_nthBlock` write it out (backend/runtime/PersistentVector.c).
use clojure_rt.Base.{
  ℕ, zero, suc, ◌+◌, ◌-◌, ◌*◌, ◌/◌, ◌%◌, ◌≤◌, ◌<◌, ◌≡◌, refl, sym, ap, ◌∙◌, Option, none, some,
  length, length-append, append-nil, get_elem?, get_elem?-append_left, get_elem?-append_right,
  arith, ltb, ◌==◌, if◌then◌else◌, sub_word, true, false,
}
use native.Mathlib.Nat.{mod-lt}
use clojure_rt.Vector.Node.{
  Leaf, Node, leaf, internal, Nodes, nil, cons, nth_node, child, level_index, rrb_bits,
}
use clojure_rt.Vector.Radix.{
  capacity, capacity-zero, capacity-suc, capacity-pos, capacity-level, mod-digit,
}
use clojure_rt.Vector.Shape.{
  contents, contents_nodes, IsDense, AllDense, length-contents_full, length-contents_dense,
  IsFull-IsDense,
}

-- One line of the switch, `node = node->array[(index >> level) & RRB_MASK]`.
abbrev pub descend : ℕ → ℕ → Option Node → Option Node
descend index level none = none
descend index level (some n) = child n (level_index index level)

-- `while (level > 0) { node = …; level -= RRB_BITS; }` on fuel; `none` also where the fuel ends.
unfoldable pub descend_while : ℕ → ℕ → ℕ → Option Node → Option Node
descend_while zero index level tree = none
descend_while (suc fuel) index level tree =
    let rest = descend_while fuel index (sub_word level rrb_bits) (descend index level tree) in
    if ltb 0 level then rest else tree

-- The switch on the shift: each case falls through to the next, and a shift above 30 takes the loop.
unfoldable pub find_leaf : Node → ℕ → ℕ → Option Node
unfolding descend_while
find_leaf root shift index =
    let d = descend index in
    if shift == 30
    then d 5 (d 10 (d 15 (d 20 (d 25 (d 30 (some root))))))
    else if shift == 25
    then d 5 (d 10 (d 15 (d 20 (d 25 (some root)))))
    else if shift == 20
    then d 5 (d 10 (d 15 (d 20 (some root))))
    else if shift == 15
    then d 5 (d 10 (d 15 (some root)))
    else if shift == 10
    then d 5 (d 10 (some root))
    else if shift == 5
    then d 5 (some root)
    else if shift == 0
    then some root
    else descend_while (suc shift) index shift (some root)

-- The descent through the levels of a tree of a height, one at a time.
unfoldable pub walk : ℕ → ℕ → Option Node → Option Node
walk zero index tree = tree
walk (suc h) index tree = walk h index (descend index (5 * suc h) tree)

descend_while-eq-walk :
    (fuel h index : ℕ) (tree : Option Node)
    → 5 * h < fuel
    → descend_while fuel index (5 * h) tree ≡ walk h index tree
unfolding descend_while walk
descend_while-eq-walk zero h index tree p = absurd (omega arith)
descend_while-eq-walk (suc fuel) zero index tree p = refl
descend_while-eq-walk (suc fuel) (suc h) index tree p =
    let e : sub_word (5 * suc h) rrb_bits ≡ 5 * h = ground arith in
    let t : ltb 0 (5 * suc h) ≡ true = ground arith in
    rw (t, e) (descend_while-eq-walk fuel h index (descend index (5 * suc h) tree) (omega arith))

find_leaf-large :
    (root : Node) (shift index : ℕ)
    → 30 < shift
    → find_leaf root shift index ≡ descend_while (suc shift) index shift (some root)
unfolding find_leaf
find_leaf-large root shift index h =
    let other : (n : ℕ) → n ≤ 30 → (shift == n) ≡ false = λ n p. ground arith in
    let le : (n : ℕ) → ltb 30 n ≡ false → n ≤ 30 = λ n p. ground arith in
    rw (
      other 30 (le 30 refl),
      other 25 (le 25 refl),
      other 20 (le 20 refl),
      other 15 (le 15 refl),
      other 10 (le 10 refl),
      other 5 (le 5 refl),
      other 0 (le 0 refl),
    )

-- The unrolled switch and its loop are the same descent, at every shift that is a height's.
pub find_leaf-eq-walk :
    (root : Node) (h index : ℕ) → find_leaf root (5 * h) index ≡ walk h index (some root)
unfolding find_leaf walk
find_leaf-eq-walk root zero index = refl
find_leaf-eq-walk root (suc zero) index = refl
find_leaf-eq-walk root (suc (suc zero)) index = refl
find_leaf-eq-walk root (suc (suc (suc zero))) index = refl
find_leaf-eq-walk root (suc (suc (suc (suc zero)))) index = refl
find_leaf-eq-walk root (suc (suc (suc (suc (suc zero))))) index = refl
find_leaf-eq-walk root (suc (suc (suc (suc (suc (suc zero)))))) index = refl
find_leaf-eq-walk root (suc (suc (suc (suc (suc (suc (suc h))))))) index =
    let k = suc (suc (suc (suc (suc (suc (suc h)))))) in
    find_leaf-large root (5 * k) index (omega arith)
    ∙ descend_while-eq-walk (suc (5 * k)) k index (some root) (omega arith)

-- The child that holds a position of a row of trees, and the position in it.
record Located (ns : Nodes) (h q r : ℕ) (c : Node) : Type 0 where
  found : nth_node ns q ≡ some c
  dense : IsDense c h
  inside : r < length (contents c)
  elem : get_elem? (contents_nodes ns) (q * capacity h + r) ≡ get_elem? (contents c) r

locate :
    (ns : Nodes) (h q r : ℕ)
    → AllDense ns h
    → r < capacity h
    → q * capacity h + r < length (contents_nodes ns)
    → (c : Node) × Located ns h q r c
unfolding contents
locate nil h q r d b p = absurd d
locate (cons n nil) h zero r d b p =
    let inside : r < length (contents n) = omega (arith, ap length (append-nil (contents n))) in
    (
      n,
      record {
        found = refl;
        dense = d;
        inside = inside;
        elem = rw append-nil (ap (get_elem? (contents n)) (omega arith));
      },
    )
locate (cons n nil) h (suc q) r d b p =
    absurd (omega (arith, ap length (append-nil (contents n)), length-contents_dense n h d))
locate (cons n (cons m ns)) h zero r d b p =
    let inside : r < length (contents n) = rw (length-contents_full n h d.0) b in
    let at : 0 * capacity h + r ≡ r = omega arith in
    (
      n,
      record {
        found = refl;
        dense = IsFull-IsDense n h d.0;
        inside = inside;
        elem = rw at (get_elem?-append_left (contents n) _ r inside);
      },
    )
locate (cons n (cons m ns)) h (suc q) r d b p =
    let size = length-contents_full n h d.0 in
    let rest = length-append (contents n) (contents_nodes (cons m ns)) in
    let (c, at) = locate (cons m ns) h q r d.1 b (omega (arith, size, rest)) in
    let back : suc q * capacity h + r - length (contents n) ≡ q * capacity h + r =
      omega (arith, size) in
    (
      c,
      record {
        found = at.found;
        dense = at.dense;
        inside = at.inside;
        elem = get_elem?-append_right (contents n) _ _ (omega (arith, size)) ∙ rw back at.elem;
      },
    )

-- What the descent reaches in a tree of a height: the leaf of the index and its element.
pub record Reached (tree : Node) (h index : ℕ) (l : Leaf) : Type 0 where
  pub found : walk h index (some tree) ≡ some (leaf l)
  pub width : length l.array ≡ 32
  pub elem : get_elem? l.array (index % 32) ≡ get_elem? (contents tree) (index % capacity h)

pub walk-Reached :
    (tree : Node) (h index : ℕ)
    → IsDense tree h
    → index % capacity h < length (contents tree)
    → (l : Leaf) × Reached tree h index l
unfolding walk contents
walk-Reached (leaf l) zero index d p =
    (l, record { found = refl; width = d; elem = rw capacity-zero })
walk-Reached (leaf l) (suc h) index d p = absurd d
walk-Reached (internal a t ns) zero index d p = absurd d
walk-Reached (internal a t ns) (suc h) index d p =
    let digit = mod-digit index (capacity h) (capacity-pos h) in
    let split : index % capacity (suc h)
        ≡ index / capacity h % 32 * capacity h + index % capacity h =
      rw capacity-suc digit in
    let (c, at) =
      locate ns h (index / capacity h % 32) (index % capacity h) d.1 (mod-lt index (capacity-pos h))
        (rw split at p) in
    let (l, r) = walk-Reached c h index at.dense at.inside in
    (
      l,
      record {
        found = rw (capacity-level h, at.found) r.found;
        width = r.width;
        elem = r.elem ∙ sym at.elem ∙ ap (get_elem? (contents_nodes ns)) (sym split);
      },
    )
