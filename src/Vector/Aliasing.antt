-- ===== src/Vector/Aliasing.antt =====
-- Which objects the operations write in place (backend/runtime/PersistentVector.c,
-- PersistentVectorNode.c).
use clojure_rt.Base.{
  ℕ, ◌<◌, ◌≡◌, ◌∙◌, Bool, true, false, not, ◌||◌, Option, none, some, [], ◌∷◌, ◌++◌, length, ◌==◌,
  ltb, leb, ok, arith,
}
use clojure_rt.Value.{RtValue}
use clojure_rt.Vector.Node.{Node, leaf, internal, Nodes, fresh, replace_path}
use clojure_rt.Vector.Ops.{Vector, conj, conj_tail, assoc, assoc_trie, tail_offset, persistent}

-- The address of the root, if there is one.
abbrev pub root_address : Option Node → ℕ
root_address none = fresh
root_address (some (leaf l)) = l.address
root_address (some (internal a t ns)) = a

assoc-eq-assoc_trie :
    (sole : ℕ → Bool) (v : Vector) (index : ℕ) (x : RtValue)
    → index < v.count
    → index < tail_offset v
    → assoc sole v index x ≡ assoc_trie sole v index x
unfolding assoc
assoc-eq-assoc_trie sole v index x within inside =
    let inner : ltb v.count index ≡ false = ground arith in
    let below : (index == v.count) ≡ false = ground arith in
    let outside : leb (tail_offset v) index ≡ false = ground arith in rw (inner, below, outside)

-- Where `Ptr_isReusable` answers yes for a persistent vector and no for its root, an internal node with
-- the transient ID 0: `assoc` at an index of the trie writes the root in place, because the IDs of the
-- root and of the vector are both 0.
pub assoc-writes_shared_root :
    (sole : ℕ → Bool) (v : Vector) (a : ℕ) (ns : Nodes) (index : ℕ) (x : RtValue)
    → sole v.address ≡ true
    → sole a ≡ false
    → v.transient_id ≡ persistent
    → v.root ≡ some (internal a persistent ns)
    → index < v.count
    → index < tail_offset v
    → (w : Vector) × (assoc sole v index x ≡ ok w) × (root_address w.root ≡ a)
unfolding assoc_trie replace_path
assoc-writes_shared_root sole v a ns index x s r t e within inside = (
  record v {
    root = some (replace_path sole v.transient_id (internal a persistent ns) v.shift index x true);
  },
  assoc-eq-assoc_trie sole v index x within inside ∙ rw (s, e),
  rw (r, t),
)

-- Where `Ptr_isReusable` answers no for a persistent vector whose tail has room: `assoc` at an index of
-- the trie returns a vector with the same tail object; and if the answer for that vector is then yes,
-- `conj` on it appends to this object in place, which is still the tail of the first vector.
pub assoc-conj_writes_shared_tail :
    (before after : ℕ → Bool) (v : Vector) (n : Node) (index : ℕ) (x y : RtValue)
    → before v.address ≡ false
    → after fresh ≡ true
    → v.transient_id ≡ persistent
    → v.root ≡ some n
    → length v.tail.array < 32
    → index < v.count
    → index < tail_offset v
    → (w u : Vector) × (assoc before v index x ≡ ok w)
      × (conj after w y ≡ ok u)
      × (u.tail.address ≡ v.tail.address)
      × (u.tail.array ≡ v.tail.array ++ (y ∷ []))
unfolding assoc_trie conj conj_tail
assoc-conj_writes_shared_tail before after v n index x y shared alone t e room within inside =
    let w : Vector = record v {
      address = fresh;
      root = some (replace_path before v.transient_id n v.shift index x false);
    } in
    let kept : (before v.address || not (v.transient_id == 0)) ≡ false = rw (shared, t) in
    let short : ltb (length v.tail.array) 32 ≡ true = ground arith in
    (
      w,
      conj_tail after w y,
      assoc-eq-assoc_trie before v index x within inside ∙ rw (e, kept),
      rw short,
      rw alone,
      rw alone,
    )
