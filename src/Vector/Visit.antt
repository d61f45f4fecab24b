-- ===== src/Vector/Visit.antt =====
-- The order in which an iterator and a chunked sequence go
-- (backend/runtime/PersistentVectorIterator.c, PersistentVectorChunkedSeq.c).
use clojure_rt.Base.{
  ℕ, zero, suc, ◌+◌, ◌<◌, ◌≡◌, refl, sym, ap, ◌∙◌, Bool, true, false, Option, none, some, List, [],
  ◌∷◌, length, drop, get_elem?, get_elem?-lt, if◌then◌else◌, ◌==◌, leb, ltb, arith, add_word,
  Outcome, ok, undefined, ◌>>=◌, unchecked, Bool-cases, inl, inr,
}
use clojure_rt.Value.{RtValue, box_null}
use clojure_rt.Vector.Node.{Leaf, leaf, fresh}
use clojure_rt.Vector.Ops.{Vector}
use clojure_rt.Vector.Valid.{elements, IsValid}
use clojure_rt.Vector.Blocks.{Covers, nth_block-Covers}
use clojure_rt.Vector.ReverseSeq.{no_elements}
use clojure_rt.Vector.Iterator.{
  Iterator, iterator, iterator_get, iterator_next, next_block, ChunkedSeq, seq, seq_first, seq_next,
}

-- An iterator that stands at an index has the block that it was given at `origin`, and the place of the
-- index in it.
pub record Stands (v : Vector) (i : ℕ) (it : Iterator) : Type 0 where
  pub node : Leaf
  pub parent : it.parent ≡ v
  pub index : it.index ≡ i
  pub block : it.block ≡ some (leaf node)
  pub origin : ℕ
  pub covers : Covers v origin node
  pub place : covers.start + it.block_index ≡ i
  pub within : it.block_index < length node.array

pub iterator-Stands :
    {v : Vector} → IsValid v → 0 < v.count → (it : Iterator) × (iterator v ≡ ok it) × Stands v 0 it
unfolding iterator
iterator-Stands {v} i p =
    let some_left : ltb 0 v.count ≡ true = ground arith in
    let (l, found, c) = nth_block-Covers 0 i p in
    (
      record { parent = v; index = 0; block_index = 0; block = some (leaf l) },
      rw (some_left, found) refl,
      record {
        node = l;
        parent = refl;
        index = refl;
        block = refl;
        origin = 0;
        covers = c;
        place = omega (arith, c.begins);
        within = omega (arith, c.begins, c.ends);
      },
    )

pub iterator_get-get_elem? :
    {v : Vector} {i : ℕ} {it : Iterator}
    → Stands v i it
    → iterator_get it ≡ unchecked (get_elem? (elements v) i)
unfolding iterator_get
iterator_get-get_elem? {v} {i} {it} s =
    let e = s.covers.elem it.block_index s.within in rw (s.block, e, s.place) refl

-- Where another element follows: the next step stands at it and returns it.
pub iterator_next-Stands :
    {v : Vector} {i : ℕ} {it : Iterator}
    → IsValid v
    → Stands v i it
    → i + 1 < v.count
    → (it' : Iterator) × (x : RtValue) × (iterator_next it ≡ ok (it', x))
      × (get_elem? (elements v) (i + 1) ≡ some x)
      × Stands v (i + 1) it'
unfolding iterator_next next_block
iterator_next-Stands {v} {i} {it} valid s p =
    let (x, found) = get_elem?-lt (elements v) (i + 1) (omega (arith, p, valid.counted)) in
    let c = s.covers in
    let step : add_word it.block_index 1 ≡ it.block_index + 1 =
      omega (arith, s.place, p, valid.small) in
    let step' : add_word i 1 ≡ i + 1 = omega (arith, p, valid.small) in
    elim (Bool-cases (ltb (it.block_index + 1) (length s.node.array))) [
      | inl e ↦
          let inside : it.block_index + 1 < length s.node.array = ground arith in
          let next_place : c.start + (it.block_index + 1) ≡ i + 1 = omega (arith, s.place) in
          let here : get_elem? s.node.array (it.block_index + 1) ≡ some x =
            c.elem (it.block_index + 1) inside ∙ ap (get_elem? (elements v)) next_place ∙ found in
          (
            record it { index = add_word it.index 1; block_index = add_word it.block_index 1 },
            x,
            rw (s.block, step, e, here) refl,
            found,
            record {
              node = s.node;
              parent = s.parent;
              index = ap (λ k. add_word k 1) s.index ∙ step';
              block = s.block;
              origin = s.origin;
              covers = c;
              place = ap (λ k. c.start + k) step ∙ next_place;
              within = rw step inside;
            },
          )
      | inr e ↦
          let over : c.start + length s.node.array ≡ i + 1 = ground (arith, s.place, s.within) in
          let more : c.start + length s.node.array < v.count = omega (arith, over, p) in
          let (aligned, low) = c.full more in
          let (l, block, c') = nth_block-Covers (i + 1) valid p in
          let start : c'.start ≡ i + 1 = c'.exact (rw over at aligned) (rw over at low) in
          let differs : (v.count == i + 1) ≡ false = ground arith in
          let here : get_elem? l.array 0 ≡ some x =
            c'.elem 0 (omega (arith, start, c'.ends))
            ∙ ap (get_elem? (elements v)) (omega (arith, start))
            ∙ found in
          (
            record it { index = add_word it.index 1; block_index = 0; block = some (leaf l) },
            x,
            rw (s.block, step, e, s.parent, s.index, step', differs, block, here)
                (rw (s.parent, s.index, step') refl),
            found,
            record {
              node = l;
              parent = s.parent;
              index = ap (λ k. add_word k 1) s.index ∙ step';
              block = refl;
              origin = i + 1;
              covers = c';
              place = omega (arith, start);
              within = omega (arith, start, c'.ends);
            },
          )
    ]

-- At the last element the next step returns null, and the index is the count.
pub iterator_next-null :
    {v : Vector} {i : ℕ} {it : Iterator}
    → IsValid v
    → Stands v i it
    → i + 1 ≡ v.count
    → (it' : Iterator) × (iterator_next it ≡ ok (it', box_null))
      × (it'.index ≡ v.count)
      × (it'.parent ≡ v)
unfolding iterator_next next_block
iterator_next-null {v} {i} {it} valid s p =
    let c = s.covers in
    let step : add_word it.block_index 1 ≡ it.block_index + 1 =
      omega (arith, s.place, p, valid.small) in
    let step' : add_word i 1 ≡ v.count = omega (arith, p, valid.small) in
    let past : ltb (it.block_index + 1) (length s.node.array) ≡ false =
      ground (arith, s.place, c.inside, p) in
    let last : (v.count == v.count) ≡ true = ground arith in
    (
      record it { index = add_word it.index 1; block_index = add_word it.block_index 1 },
      rw (s.block, step, past, s.parent, s.index, step', last) refl,
      ap (λ k. add_word k 1) s.index ∙ step',
      s.parent,
    )

-- What a consumer sees that takes `first` and goes on with `next` until nil; `undefined` where the
-- number of steps is not enough.
unfoldable pub collect_seq :
    (sole : ℕ → Bool) (steps : ℕ) → Option ChunkedSeq → Outcome (List RtValue)
unfolding seq_first seq_next
collect_seq sole zero s = undefined
collect_seq sole (suc steps) none = ok []
collect_seq sole (suc steps) (some s) =
    seq_first s >>= λ x. seq_next sole s >>= λ t. collect_seq sole steps t >>= λ xs. ok (x ∷ xs)

drop-get_elem? :
    (xs : List RtValue) (i : ℕ) (x : RtValue)
    → get_elem? xs i ≡ some x
    → drop i xs ≡ x ∷ drop (i + 1) xs
drop-get_elem? [] i x e = cc
drop-get_elem? (y ∷ xs) zero x e = ap (λ o. elim o [ none ↦ xs | some z ↦ z ∷ xs ]) e
drop-get_elem? (y ∷ xs) (suc i) x e =
    let n : suc i + 1 ≡ suc (i + 1) = omega arith in rw n (drop-get_elem? xs i x e)

drop-length : (xs : List RtValue) → drop (length xs) xs ≡ []
drop-length [] = refl
drop-length (x ∷ xs) = drop-length xs

module _ (sole : ℕ → Bool) where
  collect_seq-Stands :
      (steps a : ℕ) {v : Vector} {i : ℕ} {it : Iterator}
      → IsValid v
      → Stands v i it
      → i < v.count
      → v.count < steps + i
      → collect_seq sole steps (some (record { address = a; it = it })) ≡ ok (drop i (elements v))
  unfolding collect_seq seq_first seq_next
  collect_seq-Stands zero a {v} {i} valid s p enough = absurd (omega (arith, p, enough))
  collect_seq-Stands (suc zero) a {v} {i} valid s p enough = absurd (omega (arith, p, enough))
  collect_seq-Stands (suc (suc steps)) a {v} {i} {it} valid s p enough =
      let (x, found) = get_elem?-lt (elements v) i (omega (arith, p, valid.counted)) in
      let inside : leb it.parent.count it.index ≡ false = rw (s.parent, s.index) (ground arith) in
      let here : iterator_get it ≡ ok x = iterator_get-get_elem? s ∙ ap unchecked found in
      elim (Bool-cases (ltb (i + 1) v.count)) [
        | inl e ↦
            let (it', y, runs, found', s') = iterator_next-Stands valid s (ground arith) in
            let more : leb it'.parent.count it'.index ≡ false =
              rw (s'.parent, s'.index) (ground arith) in
            let rest =
              collect_seq-Stands (suc steps) (if sole a then a else fresh) valid s' (ground arith)
                (omega (arith, enough)) in
            rw (inside, here, runs, more, rest)
              (ap ok (sym (drop-get_elem? (elements v) i x found)))
        | inr e ↦
            let last : i + 1 ≡ v.count = ground (arith, p) in
            let (it', runs, index, parent) = iterator_next-null valid s last in
            let past : leb it'.parent.count it'.index ≡ true = rw (parent, index) (ground arith) in
            let end : drop (i + 1) (elements v) ≡ [] =
              rw (last, valid.counted) (drop-length (elements v)) in
            rw (inside, here, runs, past)
              (ap ok (ap (◌∷◌ x) (sym end) ∙ sym (drop-get_elem? (elements v) i x found)))
      ]

  -- For a valid vector and any answers of `Ptr_isReusable`: a consumer of `seq` that takes one step more than
  -- there are elements sees the elements in their order.
  pub collect_seq-elements :
      {v : Vector} → IsValid v → (seq v >>= collect_seq sole (v.count + 1)) ≡ ok (elements v)
  unfolding collect_seq seq
  collect_seq-elements {v} valid = elim (Bool-cases (v.count == 0)) [
    | inl e ↦
        let steps : v.count + 1 ≡ suc v.count = omega arith in
        let empty = no_elements (elements v) (ground (arith, valid.counted)) in
        rw (e, steps) (ap ok (sym empty))
    | inr e ↦
        let (it, runs, s) = iterator-Stands valid (ground arith) in
        rw (e, runs) (collect_seq-Stands (v.count + 1) fresh valid s (ground arith) (omega arith))
  ]
