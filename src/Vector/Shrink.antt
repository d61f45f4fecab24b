-- ===== src/Vector/Shrink.antt =====
-- `pop` of backend/runtime/PersistentVector.c against the list of elements.
use clojure_rt.Base.{
  ℕ, zero, suc, ◌*◌, ◌≤◌, ◌<◌, ◌≡◌, ◌⊎◌, refl, sym, ap, ◌∙◌, Bool, true, false, Option, none, some,
  List, [], ◌∷◌, ◌++◌, length, length-append, length-init, append-nil, arith, Outcome, ok,
  Bool-cases, inl, inr, ltb, ◌==◌, sub_word, init, init-append,
}
use clojure_rt.Value.{RtValue}
use clojure_rt.Vector.Node.{
  Leaf, Node, leaf, internal, Nodes, nil, cons, count, new_leaf, rrb_bits, pop_tail,
}
use clojure_rt.Vector.Shape.{
  is_some, IsTrie, AllFull, IsDense, trie_contents, contents, contents_nodes, IsFull-IsDense,
  IsFull-IsBranching,
}
use clojure_rt.Vector.Pop.{pop_tail-RootLeft}
use clojure_rt.Vector.Ops.{
  Vector, pop, pop_from_tail, pop_from_trie, pop_root, reduced, self_or_copy, reusable_vector,
  reusable_tail,
}
use clojure_rt.Vector.Valid.{elements, IsValid, Yields, tail-pos}

init-one : (xs : List RtValue) → length xs ≤ 1 → init xs ≡ []
init-one [] h = refl
init-one (x ∷ []) h = refl
init-one (x ∷ (y ∷ xs)) h = absurd (omega (arith, h))

-- What is left of a trie whose last leaf has been taken off.
record Left (root : Option Node) (h : ℕ) (popped : Outcome (Option Node × ℕ)) (l : Leaf)
    : Type 0 where
  left : Option Node
  height : ℕ
  runs : popped ≡ ok (left, 5 * height)
  trie : IsTrie left height
  leaf_size : is_some left ≡ true → length l.array ≡ 32
  leaf_short : length l.array ≤ 32
  same : trie_contents left ++ l.array ≡ trie_contents root

-- A root with one child gives way to it.
reduced-Left :
    (a t : ℕ) (ms : Nodes) (h : ℕ) (l : Leaf) (root : Option Node)
    → IsDense (internal a t ms) (suc h)
    → (2 ≤ count ms) ⊎ AllFull ms h
    → length l.array ≡ 32
    → contents_nodes ms ++ l.array ≡ trie_contents root
    → Left root (suc h) (reduced (some (internal a t ms)) (5 * suc h)) l
unfolding reduced
reduced-Left a t nil h l root d b w same = absurd d.1
reduced-Left a t (cons n nil) h l root d (inl b) w same = absurd (omega (arith, b))
reduced-Left a t (cons n nil) h l root d (inr f) w same =
    let up : ltb 0 (5 * suc h) ≡ true = ground arith in
    let down : sub_word (5 * suc h) rrb_bits ≡ 5 * h = ground arith in
    record {
      left = some n;
      height = h;
      runs = rw (up, down);
      trie = (IsFull-IsDense n h f.0, IsFull-IsBranching n h f.0);
      leaf_size = λ _. w;
      leaf_short = omega (arith, w);
      same = ap (λ xs. xs ++ l.array) (sym (append-nil (contents n))) ∙ (unfold contents in same);
    }
reduced-Left a t (cons n (cons m ns)) h l root d b w same =
    let up : ltb 0 (5 * suc h) ≡ true = ground arith in
    let many : (suc (suc (count ns)) == 1) ≡ false = ground arith in
    record {
      left = some (internal a t (cons n (cons m ns)));
      height = suc h;
      runs = rw (up, many);
      trie = (d, omega arith);
      leaf_size = λ _. w;
      leaf_short = omega (arith, w);
      same = unfold contents in same;
    }

module _ (sole : ℕ → Bool) where
  -- `popTail` on the root and the step that follows it do not fault.
  pop_root-Left :
      (root : Option Node) (h transient_id : ℕ) (allows : Bool)
      → IsTrie root h
      → (r : Option Node) × (l : Leaf) × (pop_root sole transient_id allows root ≡ some (r, l))
        × Left root h (reduced r (5 * h)) l
  unfolding pop_root
  pop_root-Left none h i allows t = (
    none,
    new_leaf i [],
    refl,
    record {
      left = none;
      height = h;
      runs = unfold reduced in refl;
      trie = t;
      leaf_size = λ e. cc;
      leaf_short = omega arith;
      same = refl;
    },
  )
  pop_root-Left (some (leaf l)) zero i allows t = (
    none,
    l,
    unfold pop_tail in refl,
    record {
      left = none;
      height = 0;
      runs = unfold reduced in refl;
      trie = refl;
      leaf_size = λ e. cc;
      leaf_short = omega (arith, t.0);
      same = unfold contents in refl;
    },
  )
  pop_root-Left (some (leaf l)) (suc h) i allows t = absurd t.0
  pop_root-Left (some (internal a b ns)) zero i allows t = absurd t.0
  pop_root-Left (some (internal a b ns)) (suc h) i allows t =
      let (a', b', ms, l, runs, popped, rest) = pop_tail-RootLeft sole i a b ns h allows t.1 t.0 in
      (
        some (internal a' b' ms),
        l,
        runs,
        reduced-Left a' b' ms h l (some (internal a b ns)) popped.2 rest popped.0
            (unfold contents in sym popped.1),
      )

  pop_from_trie-Yields :
      {v : Vector}
      → IsValid v
      → 0 < v.count
      → length v.tail.array ≤ 1
      → Yields (pop_from_trie sole v) (init (elements v))
  unfolding pop_from_trie
  pop_from_trie-Yields {v} i some_left last =
      let (r, l, runs, left) =
        pop_root-Left v.root i.height v.transient_id (reusable_vector sole v) i.trie in
      let new = self_or_copy sole v in
      let w : Vector = record new {
        count = sub_word v.count 1;
        tail = l;
        root = left.left;
        shift = 5 * left.height;
      } in
      let all = length-append (trie_contents v.root) v.tail.array in
      let full : 0 < length v.tail.array = tail-pos i some_left in
      let same : elements w ≡ init (elements v) =
        left.same
        ∙ sym (
            init-append (trie_contents v.root) v.tail.array full
            ∙ ap (λ ys. trie_contents v.root ++ ys) (init-one v.tail.array last)
            ∙ append-nil (trie_contents v.root)) in
      (
        w,
        rw (runs, i.level, left.runs),
        record {
          height = left.height;
          level = refl;
          trie = left.trie;
          counted = ground (arith, i.counted, ap length same, length-init (elements v));
          short = left.leaf_short;
          started = λ e. omega (arith, left.leaf_size e);
          small = ground (arith, i.small);
        },
        same,
      )

  pop_from_tail-array : (v : Vector) → (pop_from_tail sole v).tail.array ≡ init v.tail.array
  unfolding pop_from_tail
  pop_from_tail-array v = elim (Bool-cases (reusable_tail sole v)) [ inl e ↦ rw e | inr e ↦ rw e ]

  pop_from_tail-Yields :
      {v : Vector}
      → IsValid v
      → 1 < length v.tail.array
      → Yields (ok (pop_from_tail sole v)) (init (elements v))
  unfolding pop_from_tail
  pop_from_tail-Yields {v} i more =
      let w = pop_from_tail sole v in
      let array = pop_from_tail-array v in
      let all = length-append (trie_contents v.root) v.tail.array in
      let same : elements w ≡ init (elements v) =
        ap (λ ys. trie_contents v.root ++ ys) array
        ∙ sym (init-append (trie_contents v.root) v.tail.array (omega arith)) in
      let shorter = length-init v.tail.array in
      (
        w,
        refl,
        record {
          height = i.height;
          level = i.level;
          trie = i.trie;
          counted = ground (arith, i.counted, all, ap length same, length-init (elements v));
          short = rw array (omega (arith, shorter, i.short));
          started = λ _. rw array (omega (arith, shorter));
          small = ground (arith, i.small, i.counted, all);
        },
        same,
      )

  -- For a valid vector that is not empty, `pop` does not fault, and returns a valid vector of all elements
  -- but the last.
  pub pop-Yields : {v : Vector} → IsValid v → 0 < v.count → Yields (pop sole v) (init (elements v))
  unfolding pop
  pop-Yields {v} i some_left =
      let nonempty : (v.count == 0) ≡ false = ground arith in
      elim (Bool-cases (ltb 1 (length v.tail.array))) [
        | inl more ↦ rw (nonempty, more) (pop_from_tail-Yields i (ground arith))
        | inr last ↦ rw (nonempty, last) (pop_from_trie-Yields i some_left (ground arith))
      ]
