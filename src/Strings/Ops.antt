-- ===== src/Strings/Ops.antt =====
-- The operations of backend/runtime/String.c. A character is a byte other than 0, and the bytes of a
-- flat string are followed by a byte of 0. The vector of a compound string is the list of its
-- strings, in the order of its iterator, and no string of it is compound.
use clojure_rt.Base.{
  ℕ, zero, suc, ◌+◌, ◌-◌, Bool, true, false, List, [], ◌∷◌, ◌++◌, length, get_elem?, take,
  if◌then◌else◌, ltb, ◌==◌, not, add_word, sub_word, word_mod, Outcome, ok, undefined, ◌>>=◌,
  unchecked, Option, none, some,
}
use clojure_rt.Hash.Mix.{avalanche}

-- A string that is not compound, static or dynamic.
pub record Flat : Type 0 where
  pub count : ℕ
  pub hash : ℕ
  pub value : List ℕ

pub data RtString : Type 0 where
  flat : Flat → RtString
  compound : (count hash : ℕ) → List Flat → RtString

-- The word that a `char` converts to, which is signed.
abbrev pub widen : ℕ → ℕ
widen c = if ltb c 128 then c else word_mod - 256 + c

unfoldable pub hash_from : ℕ → List ℕ → ℕ
hash_from h [] = h
hash_from h (c ∷ str) = hash_from (add_word h (avalanche (widen c))) str

unfoldable pub compute_hash : List ℕ → ℕ
compute_hash str = hash_from 5381 str

unfoldable pub create_static : List ℕ → Flat
create_static str = record { count = length str; hash = compute_hash str; value = str }

abbrev pub count_of : RtString → ℕ
count_of (flat s) = s.count
count_of (compound count hash blocks) = count

abbrev pub hash_of : RtString → ℕ
hash_of (flat s) = s.hash
hash_of (compound count hash blocks) = hash

-- The vector of one string for a string that is not compound, and that of the string otherwise.
abbrev pub blocks_of : RtString → List Flat
blocks_of (flat s) = s ∷ []
blocks_of (compound count hash blocks) = blocks

-- An assertion refuses a hash of 0.
unfoldable pub create_compound : RtString → RtString → Outcome RtString
create_compound left right =
    let count = add_word (count_of left) (count_of right) in
    let hash = sub_word (add_word (hash_of left) (hash_of right)) (compute_hash []) in
    if hash == 0 then undefined else ok (compound count hash (blocks_of left ++ blocks_of right))

-- The bytes that the copies write one behind the other.
abbrev pub copy_blocks : List Flat → List ℕ
copy_blocks [] = []
copy_blocks (b ∷ blocks) = take b.count b.value ++ copy_blocks blocks

unfoldable pub compactify : RtString → RtString
compactify (flat s) = flat s
compactify (compound count hash blocks) =
    let output = copy_blocks blocks in
    flat (record { count = count; hash = compute_hash output; value = output })

pub record StringIterator : Type 0 where
  pub index : ℕ
  pub in_block_index : ℕ
  pub block_length : ℕ
  pub current_count : ℕ
  pub block : List ℕ
  pub blocks_left : List Flat

abbrev pub iterator_on : ℕ → Flat → List Flat → StringIterator
iterator_on count b blocks = record {
  index = 0;
  in_block_index = 0;
  block_length = b.count;
  current_count = count;
  block = b.value;
  blocks_left = blocks;
}

unfoldable pub iterator : RtString → Outcome StringIterator
iterator (flat s) = ok (iterator_on s.count s [])
iterator (compound count hash []) = undefined
iterator (compound count hash (b ∷ blocks)) = ok (iterator_on count b blocks)

-- The byte that an iterator points to.
unfoldable pub iterator_get : StringIterator → Outcome ℕ
iterator_get it = unchecked (get_elem? (it.block ++ (0 ∷ [])) it.in_block_index)

-- The first byte of the next string of the vector.
unfoldable pub next_string : StringIterator → List Flat → Outcome (StringIterator × Option ℕ)
unfolding iterator_get
next_string it [] = undefined
next_string it (child ∷ blocks) =
    let moved : StringIterator = record {
      index = add_word it.index 1;
      in_block_index = 0;
      block_length = child.count;
      current_count = it.current_count;
      block = child.value;
      blocks_left = blocks;
    } in
    iterator_get moved >>= λ c. ok (moved, some c)

-- The iterator, and the byte that the pointer is to, if it is not null.
unfoldable pub iterator_next : StringIterator → Outcome (StringIterator × Option ℕ)
unfolding iterator_get next_string
iterator_next it =
    let moved : StringIterator = record it {
      index = add_word it.index 1;
      in_block_index = add_word it.in_block_index 1;
    } in
    if ltb it.in_block_index (sub_word it.block_length 1)
    then (iterator_get moved >>= λ c. ok (moved, some c))
    else if it.current_count == add_word it.index 1
    then ok (it, none)
    else next_string it it.blocks_left

abbrev pub byte_or_zero : Option ℕ → ℕ
byte_or_zero none = 0
byte_or_zero (some c) = c

-- The loop of `equals` over two iterators.
unfoldable pub bytes_equal :
    (fuel : ℕ) (left right : StringIterator) (left_char right_char : ℕ) → Outcome Bool
bytes_equal zero left right left_char right_char = undefined
bytes_equal (suc fuel) left right left_char right_char =
    if left_char == 0
    then ok true
    else if not (left_char == right_char)
    then ok false
    else (iterator_next left >>= λ l.
        iterator_next right >>= λ r. bytes_equal fuel l.0 r.0 (byte_or_zero l.1) (byte_or_zero r.1))

-- `strcmp(left, right) == 0`
abbrev pub same_bytes : List ℕ → List ℕ → Bool
same_bytes [] [] = true
same_bytes [] (d ∷ right) = false
same_bytes (c ∷ left) [] = false
same_bytes (c ∷ left) (d ∷ right) = if c == d then same_bytes left right else false

unfoldable pub iterators_equal : RtString → RtString → Outcome Bool
iterators_equal self other = iterator self >>= λ l. iterator other >>= λ r.
    iterator_get l >>= λ c. iterator_get r >>= λ d. bytes_equal (suc (count_of self)) l r c d

unfoldable pub string_equals : RtString → RtString → Outcome Bool
unfolding iterators_equal
string_equals (flat s) (flat s') =
    if not (s.count == s'.count) then ok false else ok (same_bytes s.value s'.value)
string_equals self other =
    if not (count_of self == count_of other) then ok false else iterators_equal self other
