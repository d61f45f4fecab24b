-- ===== src/Vector/Refine.antt =====
-- `conj` and `nth` of backend/runtime/PersistentVector.c against the list of elements.
use clojure_rt.Base.{
  get_elem?, get_elem?-append_left, get_elem?-append_right, get_elem?-ge, get_elem?-lt, ℕ, suc, ◌+◌,
  ◌-◌, ◌*◌, ◌%◌, ◌≤◌, ◌<◌, ◌≡◌, refl, sym, ap, ◌∙◌, Bool, true, false, not, ◌&&◌, Option, none,
  some, [], ◌∷◌, ◌++◌, length, length-append, append_assoc, arith, word_mod, Outcome, ok, throw,
  index_out_of_bounds, Bool-cases, inl, inr, ltb, leb, if◌then◌else◌, add_word, unchecked,
}
use clojure_rt.Value.{RtValue}
use clojure_rt.Vector.Node.{Node, new_leaf, rrb_bits}
use clojure_rt.Vector.Radix.{capacity, capacity-ge}
use clojure_rt.Vector.Push.{push_root-RootPushed}
use clojure_rt.Vector.Shape.{length-contents_dense, contents, is_some, IsTrie, trie_contents}
use clojure_rt.Vector.Walk.{find_leaf-eq-walk, walk-Reached}
use native.Mathlib.Nat.{mod-eq_of_lt}
use clojure_rt.Vector.Ops.{
  read_trie, read_at, nth, Vector, tail_offset, conj, conj_tail, conj_full, self_or_copy,
  reusable_vector,
}
use clojure_rt.Vector.Valid.{elements, IsValid, Yields, tail_offset-eq}

module _ (sole : ℕ → Bool) where
  conj_tail-array :
      (v : Vector) (x : RtValue) → (conj_tail sole v x).tail.array ≡ v.tail.array ++ (x ∷ [])
  unfolding conj_tail
  conj_tail-array v x = ground arith

  conj_tail-Yields :
      {v : Vector} (x : RtValue)
      → IsValid v
      → v.count + 1 < word_mod
      → length v.tail.array < 32
      → Yields (ok (conj_tail sole v x)) (elements v ++ (x ∷ []))
  unfolding conj_tail
  conj_tail-Yields {v} x i room short =
      let w = conj_tail sole v x in
      let array = conj_tail-array v x in
      let same : elements w ≡ elements v ++ (x ∷ []) =
        ap (λ ys. trie_contents v.root ++ ys) array
        ∙ sym (append_assoc (trie_contents v.root) v.tail.array (x ∷ [])) in
      let one = length-append v.tail.array (x ∷ []) in
      let all = length-append (elements v) (x ∷ []) in
      (
        w,
        refl,
        record {
          height = i.height;
          level = i.level;
          trie = i.trie;
          counted = omega (arith, i.counted, all) ∙ sym (ap length same);
          short = rw array (omega (arith, one));
          started = λ _. rw array (omega (arith, one));
          small = omega (arith, room);
        },
        same,
      )

  -- A trie that grows is full, so its shift is far below 2 ^ 64.
  grown_level :
      {v : Vector} (i : IsValid v) (grows : Bool)
      → (grows ≡ true → capacity i.height ≤ length (trie_contents v.root))
      → (if grows then add_word v.shift rrb_bits else v.shift)
        ≡ 5 * (if grows then suc i.height else i.height)
  grown_level i false full = i.level
  grown_level {v} i true full = omega (
    arith,
    full refl,
    capacity-ge i.height,
    i.level,
    i.counted,
    i.small,
    length-append (trie_contents v.root) v.tail.array,
  )

  conj_full-Yields :
      {v : Vector} (x : RtValue)
      → IsValid v
      → v.count + 1 < word_mod
      → length v.tail.array ≡ 32
      → Yields (conj_full sole v x) (elements v ++ (x ∷ []))
  unfolding conj_full
  conj_full-Yields {v} x i room full =
      let (p, runs, pushed) =
        push_root-RootPushed sole v.transient_id v.root i.height v.tail (reusable_vector sole v)
          full i.trie in
      let grows = not p.1 && is_some v.root in
      let new = self_or_copy sole v in
      let w : Vector = record new {
        count = add_word v.count 1;
        tail = new_leaf v.transient_id (x ∷ []);
        root = some p.0;
        shift = if grows then add_word v.shift rrb_bits else v.shift;
      } in
      let same : elements w ≡ elements v ++ (x ∷ []) = ap (λ ys. ys ++ (x ∷ [])) pushed.holds in
      let all = length-append (elements v) (x ∷ []) in
      (
        w,
        rw (i.level, runs, ← i.level),
        record {
          height = if grows then suc i.height else i.height;
          level = grown_level i grows pushed.grown;
          trie = pushed.shape;
          counted = omega (arith, i.counted, all) ∙ sym (ap length same);
          short = omega arith;
          started = λ _. omega arith;
          small = omega (arith, room);
        },
        same,
      )

  -- `conj` appends one element: for a valid vector with room in its count it does not fault, and
  -- returns a valid vector.
  pub conj-Yields :
      {v : Vector} (x : RtValue)
      → IsValid v
      → v.count + 1 < word_mod
      → Yields (conj sole v x) (elements v ++ (x ∷ []))
  unfolding conj
  conj-Yields {v} x i room = elim (Bool-cases (ltb (length v.tail.array) 32)) [
    | inl short ↦ rw short (conj_tail-Yields x i room (ground arith))
    | inr full ↦ rw full (conj_full-Yields x i room (ground (arith, i.short)))
  ]

read_trie-get_elem? :
    (root : Option Node) (h index : ℕ)
    → IsTrie root h
    → index < length (trie_contents root)
    → read_trie root (5 * h) index ≡ unchecked (get_elem? (trie_contents root) index)
unfolding read_trie
read_trie-get_elem? none h index t p = absurd (omega (arith, p))
read_trie-get_elem? (some n) h index t p =
    let low : index % capacity h ≡ index =
      mod-eq_of_lt (omega (arith, p, length-contents_dense n h t.0)) in
    let (l, r) = walk-Reached n h index t.0 (rw low p) in
    let found = find_leaf-eq-walk n h index ∙ r.found in
    let elem = r.elem ∙ ap (get_elem? (contents n)) low in rw found (ap unchecked elem)

-- A read of a valid vector below its count is the element of the list.
pub read_at-get_elem? :
    {v : Vector} (index : ℕ)
    → IsValid v
    → index < v.count
    → read_at v index ≡ unchecked (get_elem? (elements v) index)
unfolding read_at
read_at-get_elem? {v} index i p =
    let offset = tail_offset-eq i in
    elim (Bool-cases (leb (tail_offset v) index)) [
      | inl in_tail ↦ rw in_tail (
          ap unchecked (
            ap (get_elem? v.tail.array) (ap (λ k. index - k) offset)
            ∙ sym (
                get_elem?-append_right (trie_contents v.root) v.tail.array index
                  (ground (arith, offset)))))
      | inr in_trie ↦
          let inside : index < length (trie_contents v.root) = ground (arith, offset) in
          rw (in_trie, i.level)
            (read_trie-get_elem? v.root i.height index i.trie inside
              ∙ ap unchecked
                  (sym (get_elem?-append_left (trie_contents v.root) v.tail.array index inside)))
    ]

-- What a checked read of a list returns.
abbrev pub checked : Option RtValue → (index size : ℕ) → Outcome RtValue
checked none index size = throw (index_out_of_bounds index size)
checked (some x) index size = ok x

-- For a valid vector and any index, `nth` returns the element of the list at the index, and throws the
-- bounds exception with the index and the count where the list has none.
pub nth-checked :
    {v : Vector} (index : ℕ)
    → IsValid v
    → nth v index ≡ checked (get_elem? (elements v) index) index v.count
unfolding nth
nth-checked {v} index i = elim (Bool-cases (leb v.count index)) [
  | inl out ↦ rw (out, get_elem?-ge (elements v) index (ground (arith, i.counted)))
  | inr within ↦
      let small : index < v.count = ground arith in
      let (x, found) = get_elem?-lt (elements v) index (omega (arith, i.counted)) in
      rw (within, read_at-get_elem? index i small, found)
]
