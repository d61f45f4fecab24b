-- ===== src/Vector/Iterator.antt =====
-- Iterators and chunked sequences (backend/runtime/PersistentVectorIterator.c and
-- PersistentVectorChunkedSeq.c, and `seq` of PersistentVector.c).
use clojure_rt.Base.{
  ℕ, zero, suc, ◌%◌, Bool, Option, none, some, get_elem?, if◌then◌else◌, ◌==◌, ltb, leb, ℤ, pos,
  negsuc, to_int32, add_word, sub_word, Outcome, ok, undefined, ◌>>=◌, unchecked,
}
use clojure_rt.Value.{RtValue, box_nil, box_null}
use clojure_rt.Vector.Node.{Node, leaf, internal, rrb_branching, fresh, node_count}
use clojure_rt.Vector.Ops.{Vector}
use clojure_rt.Vector.Access.{nth_block}
use clojure_rt.Vector.Chunk.{ArrayChunk}

pub record Iterator : Type 0 where
  pub parent : Vector
  pub index : ℕ
  pub block_index : ℕ
  pub block : Option Node

-- `PersistentVector_iterator`
unfoldable pub iterator : Vector → Outcome Iterator
iterator v = do
  block ← (if ltb 0 v.count then nth_block v 0 else ok none)
  ok (record { parent = v; index = 0; block_index = 0; block = block })

-- `block->array[i]` of a leaf.
abbrev pub in_block : Option Node → ℕ → Outcome RtValue
in_block none i = undefined
in_block (some (leaf l)) i = unchecked (get_elem? l.array i)
in_block (some (internal a t ns)) i = undefined

abbrev pub block_count : Option Node → Outcome ℕ
block_count none = undefined
block_count (some n) = ok (node_count n)

-- `PersistentVector_iteratorGet`
unfoldable pub iterator_get : Iterator → Outcome RtValue
iterator_get it = in_block it.block it.block_index

-- The part of `iteratorNext` that goes on to the next block; null at the end.
unfoldable pub next_block : Iterator → Outcome (Iterator × RtValue)
next_block it = if it.parent.count == it.index then ok (it, box_null) else (do
  new_block ← nth_block it.parent it.index
  elim new_block [
    | none ↦ ok (it, box_null)
    | some n ↦ in_block (some n) 0 >>= λ x. ok (record it { block = some n; block_index = 0 }, x)
  ])

-- `PersistentVector_iteratorNext`
unfoldable pub iterator_next : Iterator → Outcome (Iterator × RtValue)
unfolding next_block
iterator_next it =
    let moved = record it {
      block_index = add_word it.block_index 1;
      index = add_word it.index 1;
    } in
    block_count it.block >>= λ n.
    if ltb moved.block_index n
    then (in_block moved.block moved.block_index >>= λ x. ok (moved, x))
    else next_block moved

pub record ChunkedSeq : Type 0 where
  pub address : ℕ
  pub it : Iterator

-- `PersistentVector_seq`: nil for an empty vector.
unfoldable pub seq : Vector → Outcome (Option ChunkedSeq)
unfolding iterator
seq v =
    if v.count == 0
    then ok none
    else (iterator v >>= λ it. ok (some (record { address = fresh; it = it })))

-- A sequence whose iterator has been moved: nil past the end, or this object or a new one.
abbrev pub continue_at : Bool → ChunkedSeq → Iterator → Option ChunkedSeq
continue_at reusable s it =
    if leb it.parent.count it.index
    then none
    else some (record { address = if reusable then s.address else fresh; it = it })

-- `PersistentVectorChunkedSeq_first`
unfoldable pub seq_first : ChunkedSeq → Outcome RtValue
unfolding iterator_get
seq_first s = if leb s.it.parent.count s.it.index then ok box_nil else iterator_get s.it

-- `PersistentVectorChunkedSeq_next`
unfoldable pub seq_next : (sole : ℕ → Bool) → ChunkedSeq → Outcome (Option ChunkedSeq)
unfolding iterator_next
seq_next sole s = iterator_next s.it >>= λ r. ok (continue_at (sole s.address) s r.0)

-- `PersistentVectorChunkedSeq_count`
unfoldable pub seq_count : ChunkedSeq → ℤ
seq_count s = to_int32 (sub_word s.it.parent.count s.it.index)

-- `PersistentVectorChunkedSeq_chunkedFirst`
unfoldable pub chunked_first : ChunkedSeq → Outcome ArrayChunk
chunked_first s = elim s.it.block [
  | some (leaf l) ↦ ok (record { node = l; offset = s.it.block_index })
  | _ ↦ undefined
]

-- An iterator at an index, with the block of the index; `position` is the place in the block.
abbrev pub refreshed : Bool → ChunkedSeq → Iterator → ℕ → Outcome (Option ChunkedSeq)
refreshed reusable s it position = if leb it.parent.count it.index then ok none else (do
  block ← nth_block it.parent it.index
  ok (
      some (record {
        address = if reusable then s.address else fresh;
        it = record it { block = block; block_index = position };
      })))

-- `PersistentVectorChunkedSeq_chunkedNext`
unfoldable pub chunked_next : (sole : ℕ → Bool) → ChunkedSeq → Outcome (Option ChunkedSeq)
chunked_next sole s = block_count s.it.block >>= λ n.
    refreshed (sole s.address) s
      (record (s.it) { index = add_word s.it.index (sub_word n s.it.block_index) }) 0

-- `PersistentVectorChunkedSeq_drop`
unfoldable pub seq_drop : (sole : ℕ → Bool) → ChunkedSeq → ℤ → Outcome (Option ChunkedSeq)
seq_drop sole s (negsuc n) = ok (some s)
seq_drop sole s (pos zero) = ok (some s)
seq_drop sole s (pos (suc n)) =
    let index = add_word s.it.index (suc n) in
    refreshed (sole s.address) s (record (s.it) { index = index }) (index % rrb_branching)
