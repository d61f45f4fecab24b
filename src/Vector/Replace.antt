-- ===== src/Vector/Replace.antt =====
-- What `PersistentVectorNode_replacePath` does to a trie (backend/runtime/PersistentVectorNode.c).
use clojure_rt.Base.{
  ℕ, zero, suc, ◌+◌, ◌-◌, ◌*◌, ◌/◌, ◌%◌, ◌<◌, ◌≡◌, refl, sym, ap, ◌∙◌, ◌++◌, length, length-append,
  length-set, append-nil, set, set-append_left, set-append_right, arith, sub_word, Bool,
}
use native.Mathlib.Nat.{mod-lt}
use clojure_rt.Value.{RtValue}
use clojure_rt.Vector.Node.{
  Node, leaf, internal, Nodes, nil, cons, count, level_index, rrb_bits, replace_path, replace_nodes,
  reusable_node,
}
use clojure_rt.Vector.Radix.{
  capacity, capacity-zero, capacity-suc, capacity-pos, capacity-level, mod-digit,
}
use clojure_rt.Vector.Shape.{
  contents, contents_nodes, IsBranching, IsFull, AllFull, IsDense, AllDense, AllDense-cons,
  length-contents_full, length-contents_dense, IsFull-IsDense,
}

level_below : (h : ℕ) → sub_word (5 * suc h) rrb_bits ≡ 5 * h
level_below h = ground arith

module _ (sole : ℕ → Bool) (vector_transient_id : ℕ) (index : ℕ) (other : RtValue) where
  count-replace_nodes :
      (ns : Nodes) (q level : ℕ) (allows : Bool)
      → count (replace_nodes sole vector_transient_id ns q level index other allows) ≡ count ns
  unfolding replace_path
  count-replace_nodes nil q level allows = refl
  count-replace_nodes (cons n ns) zero level allows = refl
  count-replace_nodes (cons n ns) (suc q) level allows =
      ap suc (count-replace_nodes ns q level allows)

  mutual
    unfolding replace_path

    pub replace_path-IsFull :
        (n : Node) (h : ℕ) (allows : Bool)
        → IsFull n h
        → IsFull (replace_path sole vector_transient_id n (5 * h) index other allows) h
    replace_path-IsFull (leaf l) zero allows f = length-set l.array _ other ∙ f
    replace_path-IsFull (leaf l) (suc h) allows f = f
    replace_path-IsFull (internal a t ns) zero allows f = f
    replace_path-IsFull (internal a t ns) (suc h) allows f = (
      count-replace_nodes ns _ _ _ ∙ f.0,
      rw level_below (replace_nodes-AllFull ns h (level_index index (5 * suc h)) _ f.1),
    )

    replace_nodes-AllFull :
        (ns : Nodes) (h q : ℕ) (allows : Bool)
        → AllFull ns h
        → AllFull (replace_nodes sole vector_transient_id ns q (5 * h) index other allows) h
    replace_nodes-AllFull nil h q allows f = f
    replace_nodes-AllFull (cons n ns) h zero allows f = (replace_path-IsFull n h allows f.0, f.1)
    replace_nodes-AllFull (cons n ns) h (suc q) allows f =
        (f.0, replace_nodes-AllFull ns h q allows f.1)

  mutual
    unfolding replace_path contents

    pub replace_path-IsDense :
        (n : Node) (h : ℕ) (allows : Bool)
        → IsDense n h
        → index % capacity h < length (contents n)
        → let n' = replace_path sole vector_transient_id n (5 * h) index other allows in
          IsDense n' h × (contents n' ≡ set (contents n) (index % capacity h) other)
    replace_path-IsDense (leaf l) zero allows d p =
        let e : index / 1 % 32 ≡ index % 32 = omega arith in
        (length-set l.array _ other ∙ d, rw (capacity-zero, e))
    replace_path-IsDense (leaf l) (suc h) allows d p = absurd d
    replace_path-IsDense (internal a t ns) zero allows d p = absurd d
    replace_path-IsDense (internal a t ns) (suc h) allows d p =
        let digit = mod-digit index (capacity h) (capacity-pos h) in
        let split : index % capacity (suc h)
            ≡ index / capacity h % 32 * capacity h + index % capacity h =
          rw capacity-suc digit in
        let r =
          replace_nodes-AllDense ns h (index / capacity h % 32)
            (reusable_node sole vector_transient_id allows a t) d.1 (rw split at p) in
        rw (level_below, capacity-level, split) ((rw count-replace_nodes d.0, r.0), r.1)

    replace_nodes-AllDense :
        (ns : Nodes) (h q : ℕ) (allows : Bool)
        → AllDense ns h
        → q * capacity h + index % capacity h < length (contents_nodes ns)
        → let ns' = replace_nodes sole vector_transient_id ns q (5 * h) index other allows in
          AllDense ns' h
          × (contents_nodes ns'
              ≡ set (contents_nodes ns) (q * capacity h + index % capacity h) other)
    replace_nodes-AllDense nil h q allows d p = absurd d
    replace_nodes-AllDense (cons n nil) h zero allows d p =
        let at : 0 * capacity h + index % capacity h ≡ index % capacity h = omega arith in
        let r =
          replace_path-IsDense n h allows d (omega (arith, ap length (append-nil (contents n)))) in
        (r.0, rw (at, append-nil, append-nil) r.1)
    replace_nodes-AllDense (cons n nil) h (suc q) allows d p =
        absurd (omega (arith, ap length (append-nil (contents n)), length-contents_dense n h d))
    replace_nodes-AllDense (cons n (cons m ns)) h zero allows d p =
        let at : 0 * capacity h + index % capacity h ≡ index % capacity h = omega arith in
        let size = length-contents_full n h d.0 in
        let inside : index % capacity h < length (contents n) =
          rw size (mod-lt index (capacity-pos h)) in
        let r = replace_path-IsDense n h allows (IsFull-IsDense n h d.0) inside in
        (
          (replace_path-IsFull n h allows d.0, d.1),
          rw at (
              ap (λ xs. xs ++ contents_nodes (cons m ns)) r.1
              ∙ sym (set-append_left (contents n) _ _ other inside)),
        )
    replace_nodes-AllDense (cons n (cons m ns)) h (suc q) allows d p =
        let size = length-contents_full n h d.0 in
        let rest = length-append (contents n) (contents_nodes (cons m ns)) in
        let r = replace_nodes-AllDense (cons m ns) h q allows d.1 (omega (arith, size, rest)) in
        let back : suc q * capacity h + index % capacity h - length (contents n)
            ≡ q * capacity h + index % capacity h =
          omega (arith, size) in
        (
          AllDense-cons n _ h d.0 r.0,
          ap (λ xs. contents n ++ xs) r.1
              ∙ sym (set-append_right (contents n) _ _ other (omega (arith, size)) ∙ rw back),
        )

  pub replace_path-IsBranching :
      (n : Node) (level : ℕ) (allows : Bool)
      → IsBranching n
      → IsBranching (replace_path sole vector_transient_id n level index other allows)
  unfolding replace_path
  replace_path-IsBranching (leaf l) level allows b = tt
  replace_path-IsBranching (internal a t ns) level allows b = rw count-replace_nodes b
