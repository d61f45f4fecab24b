-- ===== src/Vector/Valid.antt =====
-- The list that a vector stands for, and the invariant of its representation.
use clojure_rt.Base.{
  Option, some, false, Bool-cases, inl, inr, ℕ, ◌*◌, ◌≤◌, ◌<◌, ◌≡◌, refl, true, none, List, ◌++◌,
  length, length-append, arith, word_mod, Outcome, ok,
}
use clojure_rt.Value.{RtValue}
use clojure_rt.Vector.Node.{Node}
use clojure_rt.Vector.Shape.{is_some, IsTrie, trie_contents}
use clojure_rt.Vector.Ops.{Vector, tail_offset, empty_vector}

abbrev pub elements : Vector → List RtValue
elements v = trie_contents v.root ++ v.tail.array

-- The shift is the height of the trie, the trie is filled from the left with leaves of 32 elements, the
-- count is the number of elements, and a vector with a trie has a tail of 1 to 32 elements.
pub record IsValid (v : Vector) : Type 0 where
  pub height : ℕ
  pub level : v.shift ≡ 5 * height
  pub trie : IsTrie v.root height
  pub counted : v.count ≡ length (elements v)
  pub short : length v.tail.array ≤ 32
  pub started : is_some v.root ≡ true → 0 < length v.tail.array
  pub small : v.count < word_mod

-- The tail begins where the trie ends.
pub tail_offset-eq : {v : Vector} → IsValid v → tail_offset v ≡ length (trie_contents v.root)
tail_offset-eq {v} i =
    let size = length-append (trie_contents v.root) v.tail.array in ground (arith, size, i.counted)

no_trie : (root : Option Node) → is_some root ≡ false → length (trie_contents root) ≡ 0
no_trie none h = refl
no_trie (some n) h = cc

-- A vector that is not empty has a tail that is not empty.
pub tail-pos : {v : Vector} → IsValid v → 0 < v.count → 0 < length v.tail.array
tail-pos {v} i p = elim (Bool-cases (is_some v.root)) [
  | inl e ↦ i.started e
  | inr e ↦
      omega (arith, no_trie v.root e, length-append (trie_contents v.root) v.tail.array, i.counted)
]

pub empty_vector-IsValid : IsValid empty_vector
unfolding empty_vector
empty_vector-IsValid = record {
  height = 0;
  level = refl;
  trie = refl;
  counted = refl;
  short = omega arith;
  started = λ h. cc;
  small = omega arith;
}

-- An operation that returns a valid vector of the given elements.
abbrev pub Yields : Outcome Vector → List RtValue → Type 0
Yields r xs = (w : Vector) × (r ≡ ok w) × IsValid w × (elements w ≡ xs)
