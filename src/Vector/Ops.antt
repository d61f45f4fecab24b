-- ===== src/Vector/Ops.antt =====
-- The operations of backend/runtime/PersistentVector.c, and the transient IDs of Transient.c.
--
-- An operation returns the object that the code returns. Whether it is the argument, written in
-- place, or a copy shows in the address (see `Node`). Reference counts are not part of the model but
-- for the answers of `Ptr_isReusable`, so `retain` and `release` have no counterpart. The functions
-- `assert_persistent` and `assert_transient` are empty in the source.
use clojure_rt.Base.{
  ℕ, ◌-◌, ◌%◌, Bool, false, ◌&&◌, ◌||◌, not, Option, none, some, List, [], ◌∷◌, ◌++◌, length, set,
  init, take, drop, get_elem?, ltb, leb, ◌==◌, if◌then◌else◌, add_word, sub_word, Outcome, ok,
  throw, undefined, ◌>>=◌, unchecked, index_out_of_bounds, illegal_state,
}
use clojure_rt.Value.{RtValue, box_nil}
use clojure_rt.Vector.Node.{
  rrb_bits, rrb_branching, fresh, Leaf, new_leaf, Node, leaf, internal, node_count, child, placed,
  replace_path, push_root, pop_tail,
}
use clojure_rt.Vector.Walk.{find_leaf}
use clojure_rt.Vector.Shape.{is_some}

pub record Vector : Type 0 where
  pub address : ℕ
  pub count : ℕ
  pub shift : ℕ
  pub transient_id : ℕ
  pub tail : Leaf
  pub root : Option Node
  pub metadata : RtValue

-- `PERSISTENT`
abbrev pub persistent : ℕ
persistent = 0

-- `getTransientID`: the counter and the ID that it gives out.
unfoldable pub get_transient_id : ℕ → ℕ × ℕ
get_transient_id counter = (counter, add_word counter 1)

-- `PersistentVector_allocate` with the tail that `PersistentVector_initialise` gives EMPTY_VECTOR.
unfoldable pub empty_vector : Vector
empty_vector = record {
  address = fresh;
  count = 0;
  shift = 0;
  transient_id = persistent;
  tail = new_leaf persistent [];
  root = none;
  metadata = box_nil;
}

-- `self->count - self->tail->count`
abbrev pub tail_offset : Vector → ℕ
tail_offset v = sub_word v.count (length v.tail.array)

-- `newRoot && new->shift > 0 && newRoot->count == 1`: the root has one child left.
abbrev pub reduce_node_tree : Option Node → ℕ → Bool
reduce_node_tree none shift = false
reduce_node_tree (some root) shift = ltb 0 shift && (node_count root == 1)

-- The new root and shift, from the root that `popTail` has left.
unfoldable pub reduced : Option Node → ℕ → Outcome (Option Node × ℕ)
reduced none shift = ok (none, shift)
reduced (some root) shift =
    let only = child root 0 in
    if reduce_node_tree (some root) shift
    then (do n ← unchecked only; ok (some n, sub_word shift rrb_bits))
    else ok (some root, shift)

module _ (sole : ℕ → Bool) where
  -- `Ptr_isReusable(self) || transientID`
  abbrev pub reusable_vector : Vector → Bool
  reusable_vector v = sole v.address || not (v.transient_id == 0)

  -- The test for the tail in `assoc` and `pop`.
  abbrev pub reusable_tail : Vector → Bool
  reusable_tail v =
      (reusable_vector v && sole v.tail.address)
      || (not (v.transient_id == 0) && (v.transient_id == v.tail.transient_id))

  -- `new = self`, or a new object with the fields of `self`.
  abbrev pub self_or_copy : Vector → Vector
  self_or_copy v = record v { address = placed (reusable_vector v) v.address }

  -- The first half of `conj`: there is room in the tail. A vector that may be written is not asked
  -- about its tail.
  unfoldable pub conj_tail : Vector → RtValue → Vector
  conj_tail v other =
      let new = self_or_copy v in
      record new {
        count = add_word v.count 1;
        tail =
            if reusable_vector v
            then record (v.tail) { array = v.tail.array ++ (other ∷ []) }
            else new_leaf v.transient_id (v.tail.array ++ (other ∷ []));
      }

  -- The second half: the full tail goes into the trie.
  unfoldable pub conj_full : Vector → RtValue → Outcome Vector
  conj_full v other = do
    (root, copied) ←
        unchecked (push_root sole v.transient_id v.root v.tail v.shift (reusable_vector v))
    let new = self_or_copy v
    ok (record new {
      count = add_word v.count 1;
      tail = new_leaf v.transient_id (other ∷ []);
      root = some root;
      shift = if not copied && is_some v.root then add_word v.shift rrb_bits else v.shift;
    })

  -- `PersistentVector_conj_internal`, which `conj` and `conj!` call.
  unfoldable pub conj : Vector → RtValue → Outcome Vector
  unfolding conj_tail conj_full
  conj v other =
      if ltb (length v.tail.array) rrb_branching then ok (conj_tail v other) else conj_full v other

  -- `PersistentVector_assoc_internal` where the index lies in the tail.
  unfoldable pub assoc_tail : Vector → ℕ → RtValue → Vector
  assoc_tail v index other =
      let new = self_or_copy v in
      let array = set v.tail.array (index - tail_offset v) other in
      record new {
        tail =
            if reusable_tail v
            then record (v.tail) { array = array }
            else new_leaf v.transient_id array;
      }

  -- The same where the index lies in the trie; the tail is shared with the original.
  unfoldable pub assoc_trie : Vector → ℕ → RtValue → Outcome Vector
  assoc_trie v index other = do
    root ← unchecked v.root
    let new = self_or_copy v
    ok (record new {
      root = some (replace_path sole v.transient_id root v.shift index other (reusable_vector v));
    })

  -- `PersistentVector_assoc_internal`, which `assoc` and `assoc!` call.
  unfoldable pub assoc : Vector → ℕ → RtValue → Outcome Vector
  unfolding assoc_tail assoc_trie
  assoc v index other =
      if ltb v.count index
      then throw (index_out_of_bounds index v.count)
      else if index == v.count
      then conj v other
      else if leb (tail_offset v) index
      then ok (assoc_tail v index other)
      else assoc_trie v index other

  -- `PersistentVector_pop_internal` where the tail keeps an element.
  unfoldable pub pop_from_tail : Vector → Vector
  pop_from_tail v =
      let new = self_or_copy v in
      record new {
        count = sub_word v.count 1;
        tail =
            if reusable_tail v
            then record (v.tail) { transient_id = v.transient_id; array = init v.tail.array }
            else new_leaf v.transient_id (init v.tail.array);
      }

  -- `popTail` on the root, or a new empty tail where there is no trie.
  unfoldable pub pop_root : ℕ → Bool → Option Node → Option (Option Node × Leaf)
  pop_root transient_id allows none = some (none, new_leaf transient_id [])
  pop_root transient_id allows (some root) = pop_tail sole transient_id root allows

  -- The rest of `pop_internal`: the last leaf of the trie becomes the tail.
  unfoldable pub pop_from_trie : Vector → Outcome Vector
  unfolding pop_root reduced
  pop_from_trie v = do
    (new_root, new_tail) ← unchecked (pop_root v.transient_id (reusable_vector v) v.root)
    (root, shift) ← reduced new_root v.shift
    let new = self_or_copy v
    ok (record new { count = sub_word v.count 1; tail = new_tail; root = root; shift = shift })

  -- `PersistentVector_pop_internal`, which `pop` and `pop!` call.
  unfoldable pub pop : Vector → Outcome Vector
  unfolding pop_from_tail pop_from_trie
  pop v =
      if v.count == 0
      then throw (illegal_state "Can't pop empty vector")
      else if ltb 1 (length v.tail.array)
      then ok (pop_from_tail v)
      else pop_from_trie v

  -- The loop of `createMany` over the arguments that do not fit into the first tail.
  unfoldable pub conj_all : Vector → List RtValue → Outcome Vector
  conj_all v [] = ok v
  conj_all v (x ∷ xs) = conj v x >>= λ w. conj_all w xs

  -- `PersistentVector_createMany` on the list of its arguments.
  unfoldable pub create_many : List RtValue → Outcome Vector
  unfolding conj_all
  create_many xs =
      conj_all
        (record {
          address = fresh;
          count = length (take rrb_branching xs);
          shift = 0;
          transient_id = persistent;
          tail = new_leaf persistent (take rrb_branching xs);
          root = none;
          metadata = box_nil;
        })
        (drop rrb_branching xs)

-- `node->array[index & RRB_MASK]` as a value; an internal node holds none.
abbrev pub read_leaf : Node → ℕ → Outcome RtValue
read_leaf (leaf l) index = unchecked (get_elem? l.array (index % rrb_branching))
read_leaf (internal a t ns) index = undefined

-- The descent from the root by the shift and the read in the leaf.
unfoldable pub read_trie : Option Node → ℕ → ℕ → Outcome RtValue
read_trie root shift index = do
  n ← unchecked root
  node ← unchecked (find_leaf n shift index)
  read_leaf node index

-- The read of an index below the count: in the tail, or in the leaf that the descent finds.
unfoldable pub read_at : Vector → ℕ → Outcome RtValue
unfolding read_trie
read_at v index =
    if leb (tail_offset v) index
    then unchecked (get_elem? v.tail.array (index - tail_offset v))
    else read_trie v.root v.shift index

-- `PersistentVector_nth`
unfoldable pub nth : Vector → ℕ → Outcome RtValue
unfolding read_at
nth v index =
    if leb v.count index then throw (index_out_of_bounds index v.count) else read_at v index
