-- ===== src/Tests/Sequences.antt =====
-- A vector from its end to its start, and a chunk of it.
use clojure_rt.Base.{ℕ, refl, Bool, true, none, [], ◌∷◌, arith}
use clojure_rt.Value.{box_nil}
use clojure_rt.Vector.Node.{Leaf}
use clojure_rt.Vector.Shape.{contents}
use clojure_rt.Vector.Ops.{Vector, persistent}
use clojure_rt.Vector.Valid.{IsValid}
use clojure_rt.Vector.Chunk.{ArrayChunk}

abbrev three_leaf : Leaf
three_leaf = record { address = 2; transient_id = persistent; array = 4 ∷ (5 ∷ (6 ∷ [])) }

abbrev three : Vector
three = record {
  address = 1;
  count = 3;
  shift = 0;
  transient_id = persistent;
  tail = three_leaf;
  root = none;
  metadata = box_nil;
}

three-IsValid : IsValid three
unfolding contents
three-IsValid = record {
  height = 0;
  level = refl;
  trie = refl;
  counted = refl;
  short = omega arith;
  started = λ h. omega arith;
  small = omega arith;
}

abbrev always : ℕ → Bool
always a = true

-- The chunk of 5 and 6.
abbrev two_chunk : ArrayChunk
two_chunk = record { node = three_leaf; offset = 1 }

-- The index -1 of the chunk is the 4 before it.
