-- ===== src/Vector/Sharing.antt =====
-- Making a vector visible to other threads: `PersistentVector_promoteToShared` and
-- `PersistentVectorNode_promoteToShared` (backend/runtime/PersistentVector.c, PersistentVectorNode.c).
use clojure_rt.Base.{
  ℕ, ◌≡◌, ◌≢◌, refl, Bool, false, Option, none, some, List, [], ◌∷◌, ◌==◌, if◌then◌else◌, Outcome,
  ok, throw, ◌>>=◌, illegal_state, arith,
}
use clojure_rt.Value.{RtValue}
use clojure_rt.Vector.Node.{fresh, Leaf, Node, leaf, internal, Nodes, nil, cons}
use clojure_rt.Vector.Ops.{Vector, persistent}
use clojure_rt.Vector.Transient.{persistent_bang}

-- `shared a` is the shared bit of the object at the address `a`, and `promote` is `promoteToShared`
-- (Object.h) on an element.
module _ (shared : ℕ → Bool) (promote : RtValue → Outcome (Unit {0})) where
  promote_all : List RtValue → Outcome (Unit {0})
  promote_all [] = ok tt
  promote_all (x ∷ xs) = promote x >>= λ _. promote_all xs

  -- `PersistentVectorNode_promoteToShared` on a leaf.
  unfoldable pub promote_leaf : Leaf → Outcome (Unit {0})
  unfolding promote_all
  promote_leaf l =
      if shared l.address
      then ok tt
      else if l.transient_id == 0
      then promote_all l.array
      else throw (illegal_state "Cannot share a transient vector node")

  -- The same on a node.
  unfoldable mutual
    pub promote_node : Node → Outcome (Unit {0})
    promote_node (leaf l) = promote_leaf l
    promote_node (internal a t ns) =
        let children = promote_nodes ns in
        if shared a
        then ok tt
        else if t == 0
        then children
        else throw (illegal_state "Cannot share a transient vector node")

    -- The loop over the children.
    pub promote_nodes : Nodes → Outcome (Unit {0})
    promote_nodes nil = ok tt
    promote_nodes (cons n ns) = promote_node n >>= λ _. promote_nodes ns

  abbrev pub promote_root : Option Node → Outcome (Unit {0})
  promote_root none = ok tt
  promote_root (some n) = promote_node n

  -- `PersistentVector_promoteToShared`
  unfoldable pub promote_vector : Vector → Outcome (Unit {0})
  unfolding promote_leaf
  promote_vector v =
      if shared v.address
      then ok tt
      else if v.transient_id == persistent
      then (promote_root v.root >>= λ _. promote_leaf v.tail)
      else throw (illegal_state "Cannot share a transient vector")

  -- For a transient vector whose tail carries a transient ID and is not shared, and whose trie can be
  -- promoted: `persistent!` returns a new vector that is persistent, and promoting it throws.
  pub persistent_bang-throw :
      (v : Vector)
      → shared fresh ≡ false
      → v.tail.transient_id ≢ 0
      → promote_root v.root ≡ ok tt
      → ((persistent_bang v).1.transient_id ≡ persistent)
        × (promote_vector (persistent_bang v).1
            ≡ throw (illegal_state "Cannot share a transient vector node"))
  unfolding promote_vector persistent_bang
  persistent_bang-throw v alone kept root =
      let id : (v.tail.transient_id == 0) ≡ false = ground arith in (refl, rw (alone, root, id))
