-- ===== src/Vector/Chunk.antt =====
-- Chunks of a vector, the leaves that a chunked sequence gives out (backend/runtime/ArrayChunk.c).
use clojure_rt.Base.{
  ℕ, zero, suc, ◌+◌, ◌-◌, ◌≤◌, ◌<◌, ◌%◌, ◌^◌, ◌≡◌, refl, ap, ◌∙◌, false, Option, none, some, List,
  [], ◌∷◌, length, drop, get_elem?, get_elem?-lt, get_elem?-ge, if◌then◌else◌, leb, arith, ℤ, pos,
  negsuc, to_word, to_int32, add_word, sub_word, word_mod, Outcome, ok, throw, unchecked,
  index_out_of_bounds, Bool-cases, inl, inr,
}
use clojure_rt.Value.{RtValue}
use clojure_rt.Vector.Node.{Leaf}

pub record ArrayChunk : Type 0 where
  pub node : Leaf
  pub offset : ℕ

-- `ArrayChunk_nth`, with the `int32_t` index; the sum wraps.
unfoldable pub chunk_nth : ArrayChunk → ℤ → Outcome RtValue
chunk_nth c i =
    let idx = add_word c.offset (to_word i) in
    if leb (length c.node.array) idx
    then throw (index_out_of_bounds (to_word i) (sub_word (length c.node.array) c.offset))
    else unchecked (get_elem? c.node.array idx)

-- `ArrayChunk_nth_default`
unfoldable pub chunk_nth_default : ArrayChunk → ℤ → RtValue → Outcome RtValue
chunk_nth_default c i not_found =
    let idx = add_word c.offset (to_word i) in
    if leb (length c.node.array) idx then ok not_found else unchecked (get_elem? c.node.array idx)

-- `ArrayChunk_count`
unfoldable pub chunk_count : ArrayChunk → ℤ
chunk_count c = to_int32 (sub_word (length c.node.array) c.offset)

-- The elements of a chunk.
abbrev pub chunk_elements : ArrayChunk → List RtValue
chunk_elements c = drop c.offset c.node.array

length-drop : (n : ℕ) (xs : List RtValue) → length (drop n xs) ≡ length xs - n
length-drop zero xs = omega arith
length-drop (suc n) [] = omega arith
length-drop (suc n) (x ∷ xs) = length-drop n xs ∙ omega arith

get_elem?-drop :
    (n : ℕ) (xs : List RtValue) (i : ℕ) → get_elem? (drop n xs) i ≡ get_elem? xs (n + i)
get_elem?-drop zero xs i = ap (get_elem? xs) (omega arith)
get_elem?-drop (suc n) [] i = refl
get_elem?-drop (suc n) (x ∷ xs) i =
    let e : suc n + i ≡ suc (n + i) = omega arith in rw e (get_elem?-drop n xs i)

abbrev pub found_or : Option RtValue → Outcome RtValue → Outcome RtValue
found_or none r = r
found_or (some x) r = ok x

-- For a chunk whose offset is at most its length, below 2 ^ 31, and an index that is not negative: `nth` is the
-- element of the chunk or the bounds exception with the length of the chunk, `nth_default` the element or the
-- default, and `count` the number of elements.
pub chunk_nth-found_or :
    (c : ArrayChunk) (i : ℕ) (default : RtValue)
    → c.offset ≤ length c.node.array
    → length c.node.array < 2 ^ 31
    → i < 2 ^ 31
    → (chunk_nth c (pos i)
        ≡ found_or
            (get_elem? (chunk_elements c) i)
            (throw (index_out_of_bounds i (length (chunk_elements c)))))
      × (chunk_nth_default c (pos i) default
          ≡ found_or (get_elem? (chunk_elements c) i) (ok default))
      × (chunk_count c ≡ pos (length (chunk_elements c)))
unfolding chunk_nth chunk_nth_default chunk_count
chunk_nth-found_or c i default start short small =
    let n = length-drop c.offset c.node.array in
    let wrap : (c.offset + i) % word_mod ≡ c.offset + i = omega (arith, start, short, small) in
    let size : sub_word (length c.node.array) c.offset ≡ length (chunk_elements c) = ground arith in
    let count : to_int32 (length (chunk_elements c)) ≡ pos (length (chunk_elements c)) =
      ground arith in
    elim (Bool-cases (leb (length c.node.array) (c.offset + i))) [
      | inl e ↦
          let absent =
            get_elem?-drop c.offset c.node.array i
            ∙ get_elem?-ge c.node.array (c.offset + i) (ground arith) in
          rw (wrap, e, size, absent, count) (refl, refl, refl)
      | inr e ↦
          let (x, found) = get_elem?-lt c.node.array (c.offset + i) (ground arith) in
          rw (wrap, e, size, get_elem?-drop c.offset c.node.array i, found, count)
            (refl, refl, refl)
    ]

-- For a negative index -(n + 1) within the offset: `nth` does not throw but returns an element of the leaf that
-- stands before the chunk.
pub chunk_nth-before :
    (c : ArrayChunk) (n : ℕ)
    → c.offset ≤ length c.node.array
    → length c.node.array < 2 ^ 31
    → n < c.offset
    → (x : RtValue) × (chunk_nth c (negsuc n) ≡ ok x)
      × (get_elem? c.node.array (c.offset - 1 - n) ≡ some x)
unfolding chunk_nth
chunk_nth-before c n start short inside =
    let (x, found) = get_elem?-lt c.node.array (c.offset - 1 - n) (omega (arith, start, inside)) in
    let wrap : (c.offset + (word_mod - 1 - n)) % word_mod ≡ c.offset - 1 - n =
      omega (arith, start, short, inside) in
    let within : leb (length c.node.array) (c.offset - 1 - n) ≡ false = ground arith in
    (x, rw (wrap, within, found) refl, found)
