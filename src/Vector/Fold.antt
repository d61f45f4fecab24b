-- ===== src/Vector/Fold.antt =====
-- `PersistentVector_reduce` and `PersistentVector_contains`
-- (backend/runtime/PersistentVector.c, PersistentVectorNode.c).
use clojure_rt.Base.{
  zero, suc, foldl, >>=-assoc, >>=_congr, if◌then◌else◌, get_elem?, arith, ◌↔◌, Bool-cases, inl,
  inr, ℕ, ◌≡◌, refl, sym, ap, ◌∙◌, Bool, true, false, Option, none, some, List, [], ◌∷◌, ◌++◌,
  Outcome, ok, throw, undefined, ◌>>=◌,
}
use clojure_rt.Value.{RtValue}
use clojure_rt.Functions.Ops.{Method, Function, method_for}
use clojure_rt.Vector.Node.{Node, leaf, internal, Nodes, nil, cons}
use clojure_rt.Vector.Shape.{contents, contents_nodes, trie_contents}
use clojure_rt.Vector.Ops.{Vector}
use clojure_rt.Vector.Valid.{elements}

-- `invoke` is the call of the method that was chosen, from the accumulator and an element to the new
-- accumulator; an accumulator holds the state of the program that the function changes, too.
module _ {A : Type 0} (invoke : A → RtValue → Outcome A) where
  -- The loop over the elements of a leaf.
  unfoldable pub reduce_array : List RtValue → A → Outcome A
  reduce_array [] acc = ok acc
  reduce_array (x ∷ xs) acc = invoke acc x >>= reduce_array xs

  -- `PersistentVectorNode_reduce`
  unfoldable mutual
    pub reduce_node : Node → A → Outcome A
    reduce_node (leaf l) acc = reduce_array l.array acc
    reduce_node (internal a t ns) acc = reduce_nodes ns acc

    -- The loop over the children.
    pub reduce_nodes : Nodes → A → Outcome A
    reduce_nodes nil acc = ok acc
    reduce_nodes (cons n ns) acc = reduce_node n acc >>= reduce_nodes ns

  -- `if (root) …`
  abbrev pub reduce_root : Option Node → A → Outcome A
  reduce_root none acc = ok acc
  reduce_root (some n) acc = reduce_node n acc

  -- Two arrays one after the other.
  reduce_array-append :
      (xs ys : List RtValue) (acc : A)
      → reduce_array (xs ++ ys) acc ≡ reduce_array xs acc >>= reduce_array ys
  unfolding reduce_array
  reduce_array-append [] ys acc = refl
  reduce_array-append (x ∷ xs) ys acc =
      >>=_congr (invoke acc x) _ _ (reduce_array-append xs ys)
      ∙ sym (>>=-assoc (invoke acc x) (reduce_array xs) (reduce_array ys))

  mutual
    unfolding reduce_node contents reduce_array

    reduce_node-contents : (n : Node) (acc : A) → reduce_node n acc ≡ reduce_array (contents n) acc
    reduce_node-contents (leaf l) acc = refl
    reduce_node-contents (internal a t ns) acc = reduce_nodes-contents ns acc

    reduce_nodes-contents :
        (ns : Nodes) (acc : A) → reduce_nodes ns acc ≡ reduce_array (contents_nodes ns) acc
    reduce_nodes-contents nil acc = refl
    reduce_nodes-contents (cons n ns) acc =
        ap (λ r. r >>= reduce_nodes ns) (reduce_node-contents n acc)
        ∙ >>=_congr (reduce_array (contents n) acc) _ _ (reduce_nodes-contents ns)
        ∙ sym (reduce_array-append (contents n) (contents_nodes ns) acc)

  reduce_root-contents :
      (root : Option Node) (acc : A) → reduce_root root acc ≡ reduce_array (trie_contents root) acc
  unfolding reduce_array
  reduce_root-contents none acc = refl
  reduce_root-contents (some n) acc = reduce_node-contents n acc

  -- One step of a fold over outcomes: an exception stops it.
  abbrev pub then_invoke : Outcome A → RtValue → Outcome A
  then_invoke r x = r >>= λ acc. invoke acc x

  pub foldl-reduce_array :
      (xs : List RtValue) (r : Outcome A) → foldl then_invoke r xs ≡ (r >>= reduce_array xs)
  unfolding reduce_array
  foldl-reduce_array [] (ok a) = refl
  foldl-reduce_array [] (throw e) = refl
  foldl-reduce_array [] undefined = refl
  foldl-reduce_array (x ∷ xs) r =
      foldl-reduce_array xs (then_invoke r x) ∙ >>=-assoc r (λ acc. invoke acc x) (reduce_array xs)

  reduce_parts :
      (v : Vector) (start : A)
      → (reduce_root v.root start >>= reduce_array v.tail.array)
        ≡ foldl then_invoke (ok start) (elements v)
  reduce_parts v start =
      ap (λ r. r >>= reduce_array v.tail.array) (reduce_root-contents v.root start)
      ∙ sym (reduce_array-append (trie_contents v.root) v.tail.array start)
      ∙ sym (foldl-reduce_array (elements v) (ok start))

-- The function that a value is, if it is one, and the call of a method of it.
module _ {A : Type 0} (function_at : RtValue → Option Function)
    (invoke : RtValue → Method → A → RtValue → Outcome A) where
  -- `PersistentVector_reduce`
  unfoldable pub reduce : Vector → RtValue → A → Outcome A
  reduce v f start = do
    method ← method_for (function_at f) 2
    acc ← reduce_root (invoke f method) v.root start
    reduce_array (invoke f method) v.tail.array acc

  -- For any vector and any value `f`: `reduce` chooses a method of `f` for 2 arguments, which throws if `f` is not a
  -- function or has no such method, even if the vector is empty; with that method the result is the left fold of its
  -- call over the elements in their order, which the first exception of a call ends.
  pub reduce-eq-foldl :
      (v : Vector) (f : RtValue) (start : A)
      → reduce v f start ≡ (
          method_for (function_at f) 2 >>= λ method.
          foldl (then_invoke (invoke f method)) (ok start) (elements v))
  unfolding reduce
  reduce-eq-foldl v f start =
      >>=_congr (method_for (function_at f) 2) _ _ (λ m. reduce_parts (invoke f m) v start)

-- `equals` (Object.h) on the value of an element and the value that is looked for.
module _ (equals : RtValue → RtValue → Bool) where
  -- The loop over a leaf, which stops at the first element that is equal.
  unfoldable pub array_contains : List RtValue → RtValue → Bool
  array_contains [] other = false
  array_contains (x ∷ xs) other = if equals x other then true else array_contains xs other

  -- `PersistentVectorNode_contains`
  unfoldable mutual
    pub node_contains : Node → RtValue → Bool
    node_contains (leaf l) other = array_contains l.array other
    node_contains (internal a t ns) other = nodes_contain ns other

    -- The loop over the children.
    pub nodes_contain : Nodes → RtValue → Bool
    nodes_contain nil other = false
    nodes_contain (cons n ns) other = if node_contains n other then true else nodes_contain ns other

  abbrev pub root_contains : Option Node → RtValue → Bool
  root_contains none other = false
  root_contains (some n) other = node_contains n other

  -- `PersistentVector_contains`
  unfoldable pub contains : Vector → RtValue → Bool
  contains v other = if root_contains v.root other then true else array_contains v.tail.array other

  array_contains-append :
      (xs ys : List RtValue) (other : RtValue)
      → array_contains (xs ++ ys) other
        ≡ (if array_contains xs other then true else array_contains ys other)
  unfolding array_contains
  array_contains-append [] ys other = refl
  array_contains-append (x ∷ xs) ys other = ground (arith, array_contains-append xs ys other)

  mutual
    unfolding node_contains contents array_contains

    node_contains-contents :
        (n : Node) (other : RtValue) → node_contains n other ≡ array_contains (contents n) other
    node_contains-contents (leaf l) other = refl
    node_contains-contents (internal a t ns) other = nodes_contain-contents ns other

    nodes_contain-contents :
        (ns : Nodes) (other : RtValue)
        → nodes_contain ns other ≡ array_contains (contents_nodes ns) other
    nodes_contain-contents nil other = refl
    nodes_contain-contents (cons n ns) other = rw (
      node_contains-contents n other,
      nodes_contain-contents ns other,
      array_contains-append (contents n) (contents_nodes ns) other,
    )

  root_contains-contents :
      (root : Option Node) (other : RtValue)
      → root_contains root other ≡ array_contains (trie_contents root) other
  unfolding array_contains
  root_contains-contents none other = refl
  root_contains-contents (some n) other = node_contains-contents n other

  found_in :
      (xs : List RtValue) (other : RtValue)
      → array_contains xs other ≡ true
      → (i : ℕ) × (x : RtValue) × (get_elem? xs i ≡ some x) × (equals x other ≡ true)
  unfolding array_contains
  found_in [] other h = cc
  found_in (x ∷ xs) other h = elim (Bool-cases (equals x other)) [
    | inl e ↦ (0, x, refl, e)
    | inr e ↦ let (i, y, at, same) = found_in xs other (rw e at h) in (suc i, y, at, same)
  ]

  array_contains_of :
      (xs : List RtValue) (other : RtValue) (i : ℕ) (x : RtValue)
      → get_elem? xs i ≡ some x
      → equals x other ≡ true
      → array_contains xs other ≡ true
  unfolding array_contains
  array_contains_of [] other i x h e = cc
  array_contains_of (y ∷ xs) other zero x h e = ground arith
  array_contains_of (y ∷ xs) other (suc i) x h e =
      ground (arith, array_contains_of xs other i x h e)

  -- For any vector and any answers of `equals`: `contains` answers true exactly when the element at some index is equal to the value.
  pub contains_iff :
      (v : Vector) (other : RtValue)
      → (contains v other ≡ true)
        ↔ ((i : ℕ) × (x : RtValue) × (get_elem? (elements v) i ≡ some x) × (equals x other ≡ true))
  unfolding contains
  contains_iff v other =
      rw
        (
          root_contains-contents v.root other,
          ← array_contains-append (trie_contents v.root) v.tail.array other,
        )
        (found_in (elements v) other, λ h. array_contains_of (elements v) other h.0 h.1 h.2 h.3)
