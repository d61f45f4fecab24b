-- ===== src/Vector/Pop.antt =====
-- What `PersistentVectorNode_popTail` does to a trie (backend/runtime/PersistentVectorNode.c).
use clojure_rt.Base.{
  false, ◌⊎◌, ℕ, zero, suc, ◌-◌, ◌≤◌, ◌<◌, ◌≡◌, refl, sym, ap, ◌∙◌, [], ◌++◌, Option, ◌==◌, none,
  some, length, append-nil, append_assoc, arith, Bool, Bool-cases, inl, inr, if◌then◌else◌,
}
use clojure_rt.Vector.Node.{
  Leaf, Node, leaf, internal, Nodes, nil, cons, one_node, count, set_last, drop_last, pop_tail,
  pop_last, detach, reusable_popped, placed,
}
use clojure_rt.Vector.Shape.{
  contents, contents_nodes, IsFull, AllFull, IsDense, AllDense, AllDense-cons, AllFull-AllDense,
}
use clojure_rt.Vector.Push.{count-set_last}

-- What `popTail` returns for a node of a height: a full leaf, and the tree of the elements before it.
abbrev pub Popped : ℕ → Node → Option Node × Leaf → Type 0
Popped h n (none, l) = (length l.array ≡ 32) × (contents n ≡ l.array)
Popped h n (some r, l) = (length l.array ≡ 32) × (contents n ≡ contents r ++ l.array) × IsDense r h

-- The same for the last child of a row.
abbrev PoppedLast : ℕ → Nodes → Option Node × Leaf → Type 0
PoppedLast h ns (none, l) =
    (length l.array ≡ 32)
    × (contents_nodes ns ≡ contents_nodes (drop_last ns) ++ l.array)
    × AllFull (drop_last ns) h
PoppedLast h ns (some r, l) =
    (length l.array ≡ 32)
    × (contents_nodes ns ≡ contents_nodes (set_last ns r) ++ l.array)
    × AllDense (set_last ns r) h

count-drop_last : (ns : Nodes) → count (drop_last ns) ≡ count ns - 1
count-drop_last nil = omega arith
count-drop_last (cons m nil) = omega arith
count-drop_last (cons m (cons k ns)) = omega (arith, count-drop_last (cons k ns))

-- A row that loses its only child has no elements left.
contents-drop_last_one : (ns : Nodes) → count ns ≡ 1 → contents_nodes (drop_last ns) ≡ []
unfolding contents
contents-drop_last_one nil h = refl
contents-drop_last_one (cons n nil) h = refl
contents-drop_last_one (cons n (cons m ns)) h = absurd (omega (arith, h))

AllDense-count_pos : (ns : Nodes) (h : ℕ) → AllDense ns h → 0 < count ns
AllDense-count_pos nil h d = absurd d
AllDense-count_pos (cons n ns) h d = omega arith

only : (n : Node) (h : ℕ) (r : Option Node × Leaf) → Popped h n r → PoppedLast h (one_node n) r
unfolding contents
only n h (none, l) p = (p.0, append-nil (contents n) ∙ p.1, tt)
only n h (some r, l) p = (
  p.0,
  append-nil (contents n) ∙ p.1 ∙ ap (λ xs. xs ++ l.array) (sym (append-nil (contents r))),
  p.2,
)

more :
    (n m : Node) (ns : Nodes) (h : ℕ) (r : Option Node × Leaf)
    → IsFull n h
    → PoppedLast h (cons m ns) r
    → PoppedLast h (cons n (cons m ns)) r
unfolding contents
more n m ns h (none, l) f p =
    (p.0, ap (λ xs. contents n ++ xs) p.1 ∙ sym (append_assoc (contents n) _ l.array), (f, p.2))
more n m ns h (some r, l) f p = (
  p.0,
  ap (λ xs. contents n ++ xs) p.1 ∙ sym (append_assoc (contents n) _ l.array),
  AllDense-cons n _ h f p.2,
)

-- What is left of a root that is not a leaf: an internal node, which has more than one child unless all
-- its children are full.
abbrev pub RootLeft : ℕ → Node → Option (Option Node × Leaf) → Type 0
RootLeft h n result =
    (a t : ℕ) × (ms : Nodes) × (l : Leaf) × (result ≡ some (some (internal a t ms), l))
    × Popped (suc h) n (some (internal a t ms), l)
    × ((2 ≤ count ms) ⊎ AllFull ms h)

module _ (sole : ℕ → Bool) (vector_transient_id : ℕ) where
  detach-Popped :
      (a t : ℕ) (ns : Nodes) (reusable : Bool) (h : ℕ) (p : Option Node × Leaf)
      → count ns ≤ 32
      → AllDense ns h
      → PoppedLast h ns p
      → (r : Option Node × Leaf) × (detach sole vector_transient_id a t ns reusable (some p)
          ≡ some r)
        × Popped (suc h) (internal a t ns) r
  unfolding detach contents
  detach-Popped a t ns reusable h (some sub, l) small d p =
      (_, refl, (p.0, p.1, (rw count-set_last small, p.2)))
  detach-Popped a t ns reusable h (none, l) small d p = elim (Bool-cases (count ns == 1)) [
    | inl one ↦ (
      (none, l),
      rw one,
      (p.0, p.1 ∙ ap (λ xs. xs ++ l.array) (contents-drop_last_one ns (ground arith))),
    )
    | inr many ↦
        let some_left : 0 < count (drop_last ns) =
          ground (arith, count-drop_last ns, AllDense-count_pos ns h d) in
        (
          (
            some (
                internal (placed reusable a) (if reusable then t else vector_transient_id)
                  (drop_last ns)),
            l,
          ),
          rw many,
          (
            p.0,
            p.1,
            (omega (arith, count-drop_last ns), AllFull-AllDense (drop_last ns) h some_left p.2),
          ),
        )
  ]

  mutual
    unfolding pop_tail contents

    pub pop_tail-Popped :
        (n : Node) (h : ℕ) (allows : Bool)
        → IsDense n h
        → (r : Option Node × Leaf) × (pop_tail sole vector_transient_id n allows ≡ some r)
          × Popped h n r
    pop_tail-Popped (leaf l) zero allows d = ((none, l), refl, (d, refl))
    pop_tail-Popped (leaf l) (suc h) allows d = absurd d
    pop_tail-Popped (internal a t ns) zero allows d = absurd d
    pop_tail-Popped (internal a t ns) (suc h) allows d =
        let reusable = reusable_popped sole vector_transient_id allows a t in
        let (p, runs, popped) = pop_last-Popped ns h reusable d.1 in
        rw runs (detach-Popped a t ns reusable h p d.0 d.1 popped)

    pop_last-Popped :
        (ns : Nodes) (h : ℕ) (allows : Bool)
        → AllDense ns h
        → (r : Option Node × Leaf) × (pop_last sole vector_transient_id ns allows ≡ some r)
          × PoppedLast h ns r
    pop_last-Popped nil h allows d = absurd d
    pop_last-Popped (cons n nil) h allows d =
        let (r, runs, popped) = pop_tail-Popped n h allows d in (r, runs, only n h r popped)
    pop_last-Popped (cons n (cons m ns)) h allows d =
        let (r, runs, popped) = pop_last-Popped (cons m ns) h allows d.1 in
        (r, runs, more n m ns h r d.0 popped)

  detach-RootLeft :
      (a t : ℕ) (ns : Nodes) (reusable : Bool) (h : ℕ) (p : Option Node × Leaf)
      → count ns ≤ 32
      → 2 ≤ count ns
      → PoppedLast h ns p
      → RootLeft h (internal a t ns) (detach sole vector_transient_id a t ns reusable (some p))
  unfolding detach contents
  detach-RootLeft a t ns reusable h (some sub, l) small b p = (
    placed reusable a,
    (if reusable then t else vector_transient_id),
    set_last ns sub,
    l,
    refl,
    (p.0, p.1, (rw count-set_last small, p.2)),
    inl (rw count-set_last b),
  )
  detach-RootLeft a t ns reusable h (none, l) small b p =
      let many : (count ns == 1) ≡ false = ground arith in
      let fewer = count-drop_last ns in
      (
        placed reusable a,
        (if reusable then t else vector_transient_id),
        drop_last ns,
        l,
        rw many,
        (
          p.0,
          p.1,
          (omega (arith, fewer), AllFull-AllDense (drop_last ns) h (omega (arith, fewer)) p.2),
        ),
        inr p.2,
      )

  -- `popTail` on a root that is not a leaf does not fault and leaves a root.
  pub pop_tail-RootLeft :
      (a t : ℕ) (ns : Nodes) (h : ℕ) (allows : Bool)
      → 2 ≤ count ns
      → IsDense (internal a t ns) (suc h)
      → RootLeft h (internal a t ns) (pop_tail sole vector_transient_id (internal a t ns) allows)
  unfolding pop_tail
  pop_tail-RootLeft a t ns h allows b d =
      let reusable = reusable_popped sole vector_transient_id allows a t in
      let (p, runs, popped) = pop_last-Popped ns h reusable d.1 in
      rw runs (detach-RootLeft a t ns reusable h p d.0 b popped)
