-- ===== src/Vector/Update.antt =====
-- `assoc` of backend/runtime/PersistentVector.c against the list of elements.
use native.Mathlib.Nat.{mod-eq_of_lt}
use mathlib.Core.Path.{subst}
use clojure_rt.Base.{
  ℕ, ◌+◌, ◌-◌, ◌*◌, ◌%◌, ◌≤◌, ◌<◌, ◌≡◌, refl, sym, ap, ◌∙◌, Bool, false, Option, none, some, List,
  [], ◌∷◌, ◌++◌, length, length-set, arith, word_mod, ok, Bool-cases, inl, inr, ltb, leb, ◌==◌,
  if◌then◌else◌, set, set-append_left, set-append_right,
}
use clojure_rt.Value.{RtValue}
use clojure_rt.Vector.Node.{Node, replace_path}
use clojure_rt.Vector.Radix.{capacity}
use clojure_rt.Vector.Shape.{is_some, IsTrie, trie_contents, contents, length-contents_dense}
use clojure_rt.Vector.Replace.{replace_path-IsDense, replace_path-IsBranching}
use clojure_rt.Vector.Ops.{
  Vector, tail_offset, assoc, assoc_tail, assoc_trie, self_or_copy, reusable_vector, reusable_tail,
}
use clojure_rt.Vector.Refine.{conj-Yields}
use clojure_rt.Vector.Valid.{elements, IsValid, Yields, tail_offset-eq}

-- `assoc` on a list: the index of the end appends.
abbrev pub assoc_list : List RtValue → ℕ → RtValue → List RtValue
assoc_list xs index x = if index == length xs then xs ++ (x ∷ []) else set xs index x

module _ (sole : ℕ → Bool) where
  assoc_tail-array :
      (v : Vector) (index : ℕ) (x : RtValue)
      → (assoc_tail sole v index x).tail.array ≡ set v.tail.array (index - tail_offset v) x
  unfolding assoc_tail
  assoc_tail-array v index x = elim (Bool-cases (reusable_tail sole v)) [
    | inl e ↦ rw e
    | inr e ↦ rw e
  ]

  assoc_tail-Yields :
      {v : Vector} (index : ℕ) (x : RtValue)
      → IsValid v
      → tail_offset v ≤ index
      → Yields (ok (assoc_tail sole v index x)) (set (elements v) index x)
  unfolding assoc_tail
  assoc_tail-Yields {v} index x i inside =
      let w = assoc_tail sole v index x in
      let array = assoc_tail-array v index x in
      let offset = tail_offset-eq i in
      let same : elements w ≡ set (elements v) index x =
        ap (λ ys. trie_contents v.root ++ ys)
          (array ∙ ap (λ k. set v.tail.array (index - k) x) offset)
        ∙ sym (
            set-append_right (trie_contents v.root) v.tail.array index x (omega (arith, offset))) in
      let size = length-set v.tail.array (index - tail_offset v) x in
      (
        w,
        refl,
        record {
          height = i.height;
          level = i.level;
          trie = i.trie;
          counted = i.counted ∙ sym (ap length same ∙ length-set (elements v) index x);
          short = rw (array, size) i.short;
          started = λ h. rw (array, size) (i.started h);
          small = i.small;
        },
        same,
      )

  assoc_trie-Yields :
      {v : Vector} (index : ℕ) (x : RtValue) (root : Option Node)
      → v.root ≡ root
      → IsValid v
      → index < length (trie_contents v.root)
      → Yields (assoc_trie sole v index x) (set (elements v) index x)
  unfolding assoc_trie
  assoc_trie-Yields {v} index x none e i inside =
      absurd (omega (arith, inside, ap (λ r. length (trie_contents r)) e))
  assoc_trie-Yields {v} index x (some n) e i inside =
      let trie = subst (λ r. IsTrie r i.height) e i.trie in
      let within = subst (λ r. index < length (trie_contents r)) e inside in
      let low : index % capacity i.height ≡ index =
        mod-eq_of_lt (omega (arith, within, length-contents_dense n i.height trie.0)) in
      let r =
        replace_path-IsDense sole v.transient_id index x n i.height (reusable_vector sole v) trie.0
          (rw low within) in
      let b =
        replace_path-IsBranching sole v.transient_id index x n (5 * i.height)
          (reusable_vector sole v) trie.1 in
      let new = self_or_copy sole v in
      let w : Vector = record new {
        root = some (replace_path sole v.transient_id n v.shift index x (reusable_vector sole v));
      } in
      let same : elements w ≡ set (elements v) index x = rw i.level (
        ap (λ ys. ys ++ v.tail.array)
          (r.1
            ∙ ap (λ k. set (contents n) k x) low
            ∙ ap (λ t. set (trie_contents t) index x) (sym e))
        ∙ sym (set-append_left (trie_contents v.root) v.tail.array index x inside)) in
      (
        w,
        rw e,
        record {
          height = i.height;
          level = i.level;
          trie = rw i.level (r.0, b);
          counted = i.counted ∙ sym (ap length same ∙ length-set (elements v) index x);
          short = i.short;
          started = λ _. i.started (ap is_some e);
          small = i.small;
        },
        same,
      )

  -- For a valid vector with room in its count and an index of at most its count, `assoc` does not fault:
  -- it returns a valid vector, in which the element at the index is replaced, or appended at the end.
  pub assoc-Yields :
      {v : Vector} (index : ℕ) (x : RtValue)
      → IsValid v
      → v.count + 1 < word_mod
      → index ≤ v.count
      → Yields (assoc sole v index x) (assoc_list (elements v) index x)
  unfolding assoc
  assoc-Yields {v} index x i room le =
      let within : ltb v.count index ≡ false = ground arith in
      elim (Bool-cases (index == v.count)) [
        | inl end ↦ rw (within, end, ← i.counted, end) (conj-Yields sole x i room)
        | inr inner ↦ elim (Bool-cases (leb (tail_offset v) index)) [
          | inl in_tail ↦
              rw (within, inner, ← i.counted, inner, in_tail)
                (assoc_tail-Yields index x i (ground arith))
          | inr in_trie ↦
              rw (within, inner, ← i.counted, inner, in_trie)
                (assoc_trie-Yields index x v.root refl i (ground (arith, tail_offset-eq i)))
        ]
      ]
