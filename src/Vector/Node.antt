-- ===== src/Vector/Node.antt =====
-- The nodes of a vector's trie and the recursive operations on them
-- (backend/runtime/PersistentVectorNode.c).
--
-- A node is the tree that is reached from it. The `count` of a node is the number of its elements,
-- so an array lists the slots that are in use. An address identifies an object that existed when
-- the operation began; an object that the operation allocates has the address 0, and one that it
-- writes in place keeps its address. `sole a` is what `Ptr_isReusable` answers for the object at the
-- address `a`: the operations ask it once for each node on their path.
use clojure_rt.Base.{
  ℕ, zero, suc, ◌-◌, ◌/◌, ◌%◌, ◌^◌, Bool, true, false, ◌&&◌, ◌||◌, not, Option, none, some, List,
  length, set, ◌==◌, ltb, leb, if◌then◌else◌, sub_word,
}
use clojure_rt.Value.{RtValue}

abbrev pub rrb_bits : ℕ
rrb_bits = 5

abbrev pub rrb_branching : ℕ
rrb_branching = 32

-- The address of an object that the operation has allocated itself.
abbrev pub fresh : ℕ
fresh = 0

-- A node of type `leafNode`.
pub record Leaf : Type 0 where
  pub address : ℕ
  pub transient_id : ℕ
  pub array : List RtValue

abbrev pub new_leaf : ℕ → List RtValue → Leaf
new_leaf t xs = record { address = fresh; transient_id = t; array = xs }

mutual
  -- `PersistentVectorNode`, by its `type`. An internal node has an address and a transient ID.
  pub data Node : Type 0 where
    leaf : Leaf → Node
    internal : ℕ → ℕ → Nodes → Node

  -- The array of an internal node.
  pub data Nodes : Type 0 where
    nil : Nodes
    cons : Node → Nodes → Nodes

abbrev pub one_node : Node → Nodes
one_node n = cons n nil

abbrev pub count : Nodes → ℕ
count nil = 0
count (cons n ns) = suc (count ns)

-- `node->count`
abbrev pub node_count : Node → ℕ
node_count (leaf l) = length l.array
node_count (internal a t ns) = count ns

abbrev pub nth_node : Nodes → ℕ → Option Node
nth_node nil i = none
nth_node (cons n ns) zero = some n
nth_node (cons n ns) (suc i) = nth_node ns i

-- `array[count] = n; count++`
abbrev pub snoc : Nodes → Node → Nodes
snoc nil n = one_node n
snoc (cons m ns) n = cons m (snoc ns n)

-- `array[count - 1] = n`
abbrev pub set_last : Nodes → Node → Nodes
set_last nil n = nil
set_last (cons m nil) n = one_node n
set_last (cons m (cons k ns)) n = cons m (set_last (cons k ns) n)

-- `count--`
abbrev pub drop_last : Nodes → Nodes
drop_last nil = nil
drop_last (cons m nil) = nil
drop_last (cons m (cons k ns)) = cons m (drop_last (cons k ns))

-- `(index >> level) & RRB_MASK`
abbrev pub level_index : ℕ → ℕ → ℕ
level_index index level = index / 2 ^ level % rrb_branching

-- `(PersistentVectorNode *)RT_unboxPtr(node->array[i])`, undefined on a leaf and past the count.
abbrev pub child : Node → ℕ → Option Node
child (leaf l) i = none
child (internal a t ns) i = nth_node ns i

abbrev pub placed : Bool → ℕ → ℕ
placed reusable a = if reusable then a else fresh

module _ (sole : ℕ → Bool) (vector_transient_id : ℕ) where
  -- The test of `replacePath` and `pushTail`.
  abbrev pub reusable_node : Bool → ℕ → ℕ → Bool
  reusable_node allows a t = allows && (sole a || (t == vector_transient_id))

  -- The test of `popTail`, which also asks that the transient ID is not 0.
  abbrev pub reusable_popped : Bool → ℕ → ℕ → Bool
  reusable_popped allows a t = allows && (sole a || (not (t == 0) && (t == vector_transient_id)))

  -- `PersistentVectorNode_replacePath`. The copy takes the transient ID of the original along, since
  -- `memcpy` overwrites the field that `allocate` has set.
  unfoldable mutual
    pub replace_path : Node → ℕ → ℕ → RtValue → Bool → Node
    replace_path (leaf l) level index other allows = leaf (record l {
      address = placed (reusable_node allows l.address l.transient_id) l.address;
      array = set l.array (level_index index level) other;
    })
    replace_path (internal a t ns) level index other allows =
        internal (placed (reusable_node allows a t) a) t (
          replace_nodes ns (level_index index level) (sub_word level rrb_bits) index other
            (reusable_node allows a t))

    -- The loop over the array: the element at the position is replaced, all others stay.
    pub replace_nodes : Nodes → ℕ → ℕ → ℕ → RtValue → Bool → Nodes
    replace_nodes nil i level index other allows = nil
    replace_nodes (cons n ns) zero level index other allows =
        cons (replace_path n level index other allows) ns
    replace_nodes (cons n ns) (suc i) level index other allows =
        cons n (replace_nodes ns i level index other allows)

  -- The end of `pushTail` at an internal node, from what the recursive call has returned: the subtree
  -- and whether it took the place of the last child.
  unfoldable pub attach :
      (root : Bool) (a t : ℕ)
      → Nodes
      → (reusable : Bool) → Option (Node × Bool)
      → Option (Node × Bool)
  attach root a t ns reusable none = none
  attach root a t ns reusable (some (subtree, true)) =
      some (internal (placed reusable a) t (set_last ns subtree), true)
  attach root a t ns reusable (some (subtree, false)) =
      if ltb (count ns) rrb_branching
      then some (internal fresh t (snoc ns subtree), true)
      else if root
      then some (
        internal fresh vector_transient_id (
            cons (internal a t ns)
              (one_node (internal fresh vector_transient_id (one_node subtree)))),
        false,
      )
      else some (internal fresh vector_transient_id (one_node subtree), false)

  -- `PersistentVectorNode_pushTail` at a node, with `*copied`; `root` says that `parent` is NULL.
  -- The case `self == NULL` below a node returns the tail itself.
  unfoldable mutual
    pub push_tail : (root : Bool) → Node → Leaf → ℕ → Bool → Option (Node × Bool)
    push_tail root (leaf l) tail level allows =
        some (internal fresh vector_transient_id (cons (leaf l) (one_node (leaf tail))), false)
    push_tail root (internal a t ns) tail level allows =
        let reusable = reusable_node allows a t in
        let entry = push_last ns tail (level - rrb_bits) reusable in
        attach root a t ns reusable (if leb level rrb_bits then some (leaf tail, false) else entry)

    -- The recursive call on `array[count - 1]`.
    pub push_last : Nodes → Leaf → ℕ → Bool → Option (Node × Bool)
    push_last nil tail level allows = none
    push_last (cons n nil) tail level allows = push_tail false n tail level allows
    push_last (cons n (cons m ns)) tail level allows = push_last (cons m ns) tail level allows

  -- `pushTail` on the root of a vector, which is NULL while the vector has no trie.
  unfoldable pub push_root : Option Node → Leaf → ℕ → Bool → Option (Node × Bool)
  push_root none tail level allows = some (leaf tail, false)
  push_root (some n) tail level allows = push_tail true n tail level allows

  -- The end of `popTail` at an internal node: the last child is replaced or dropped, and a node that
  -- has lost its only child is gone.
  unfoldable pub detach :
      (a t : ℕ)
      → Nodes
      → (reusable : Bool) → Option (Option Node × Leaf)
      → Option (Option Node × Leaf)
  detach a t ns reusable none = none
  detach a t ns reusable (some (some subtree, popped)) = some (
    some (
        internal (placed reusable a) (if reusable then t else vector_transient_id)
          (set_last ns subtree)),
    popped,
  )
  detach a t ns reusable (some (none, popped)) = some (
    if count ns == 1
        then none
        else some (
            internal (placed reusable a) (if reusable then t else vector_transient_id)
              (drop_last ns)),
    popped,
  )

  -- `PersistentVectorNode_popTail`: the node that is left, NULL if there is none, and `*poppedLeaf`.
  unfoldable mutual
    pub pop_tail : Node → Bool → Option (Option Node × Leaf)
    pop_tail (leaf l) allows = some (none, l)
    pop_tail (internal a t ns) allows =
        detach a t ns (reusable_popped allows a t) (pop_last ns (reusable_popped allows a t))

    -- The recursive call on `array[count - 1]`.
    pub pop_last : Nodes → Bool → Option (Option Node × Leaf)
    pop_last nil allows = none
    pop_last (cons n nil) allows = pop_tail n allows
    pop_last (cons n (cons m ns)) allows = pop_last (cons m ns) allows
