-- ===== src/Strings/Iterate.antt =====
-- Iterators over the bytes of a string of backend/runtime/String.c.
use clojure_rt.Base.{
  ℕ, suc, ◌+◌, ◌^◌, ◌<◌, ◌≡◌, ◌⊎◌, refl, sym, ap, ◌∙◌, true, false, List, [], ◌∷◌, ◌++◌, length,
  length-append, append_assoc, ltb, ◌==◌, add_word, sub_word, ok, arith, inl, inr, get_elem?, some,
  none,
}
use clojure_rt.Strings.Ops.{Flat, StringIterator, iterator_get, iterator_next, next_string}
use clojure_rt.Strings.Holds.{text_of}

-- The count of each string of the vector is the length of its text.
abbrev pub AllCounted : List Flat → Type 0
AllCounted [] = Unit {0}
AllCounted (b ∷ blocks) = (b.count ≡ length b.value) × AllCounted blocks

-- No string of the vector is empty.
abbrev pub NoneEmpty : List Flat → Type 0
NoneEmpty [] = Unit {0}
NoneEmpty (b ∷ blocks) = (0 < length b.value) × NoneEmpty blocks

-- No byte is 0.
abbrev pub NoZero : List ℕ → Type 0
NoZero [] = Unit {0}
NoZero (x ∷ xs) = (0 < x) × NoZero xs

-- An iterator that points to the byte x, with the bytes xs behind it.
pub record At (x : ℕ) (xs : List ℕ) (it : StringIterator) : Type 0 where
  pub passed : List ℕ
  pub left : List ℕ
  pub block : it.block ≡ passed ++ (x ∷ left)
  pub place : it.in_block_index ≡ length passed
  pub size : it.block_length ≡ length it.block
  pub rest : xs ≡ left ++ text_of it.blocks_left
  pub counted : it.index + suc (length xs) ≡ it.current_count
  pub fits : it.current_count < 2 ^ 64
  pub blocks : AllCounted it.blocks_left
  pub filled : NoneEmpty it.blocks_left

pub iterator_get-At :
    (x : ℕ) (xs : List ℕ) (it : StringIterator) → At x xs it → iterator_get it ≡ ok x
unfolding iterator_get
iterator_get-At x xs it a =
    let found : get_elem? (a.passed ++ (x ∷ a.left) ++ (0 ∷ [])) (length a.passed) ≡ some x =
      byte_at a.passed x (a.left) in
    rw (a.block, a.place, found) refl
  where
    byte_at :
        (ys : List ℕ) (x : ℕ) (zs : List ℕ)
        → get_elem? (ys ++ (x ∷ zs) ++ (0 ∷ [])) (length ys) ≡ some x
    byte_at [] x zs = refl
    byte_at (y ∷ ys) x zs = byte_at ys x zs

pub List-cases : {A : Type 0} (xs : List A) → (xs ≡ []) ⊎ ((y : A) × (ys : List A) × (xs ≡ y ∷ ys))
List-cases [] = inl refl
List-cases (y ∷ ys) = inr (y, ys, refl)

pub head_eq : {x y : ℕ} {xs ys : List ℕ} → x ∷ xs ≡ y ∷ ys → x ≡ y
head_eq e = cc

pub tail_eq : {x y : ℕ} {xs ys : List ℕ} → x ∷ xs ≡ y ∷ ys → xs ≡ ys
tail_eq e = cc

module _ (x : ℕ) (it : StringIterator) where
  block-length :
      {xs : List ℕ} (a : At x xs it) → it.block_length ≡ length a.passed + suc (length a.left)
  block-length a = a.size ∙ ap length a.block ∙ length-append a.passed (x ∷ a.left)

  -- The end of the string.
  pub next-end : At x [] it → it.block_length < 2 ^ 64 → iterator_next it ≡ ok (it, none)
  unfolding iterator_next
  next-end a short =
      let no_left : 0 ≡ length a.left + length (text_of it.blocks_left) =
        ap length a.rest ∙ length-append a.left (text_of it.blocks_left) in
      let size = block-length a in
      let place = a.place in
      let last : ltb it.in_block_index (sub_word it.block_length 1) ≡ false = ground arith in
      let counted = a.counted in
      let fits = a.fits in
      let all : (it.current_count == add_word it.index 1) ≡ true = ground arith in
      rw (last, all) refl

  module _ (y : ℕ) (ys : List ℕ) (a : At x (y ∷ ys) it) (short : it.block_length < 2 ^ 64) where
    abbrev pub Moved : Type 0
    Moved =
        (it' : StringIterator) × (iterator_next it ≡ ok (it', some y))
        × At y ys it'
        × (it'.block_length < 2 ^ 64)

    -- The next byte is in the block.
    next_in_block : (l : List ℕ) → a.left ≡ y ∷ l → ys ≡ l ++ text_of it.blocks_left → Moved
    unfolding iterator_next
    next_in_block l e rest =
        let size = block-length a in
        let place = a.place in
        let n = ap length e in
        let inside : ltb it.in_block_index (sub_word it.block_length 1) ≡ true = ground arith in
        let counted = a.counted in
        let fits = a.fits in
        let moved : StringIterator = record it {
          index = add_word it.index 1;
          in_block_index = add_word it.in_block_index 1;
        } in
        let at : At y ys moved = record {
          passed = a.passed ++ (x ∷ []);
          left = l;
          block = a.block ∙ rw (e, append_assoc a.passed (x ∷ []) (y ∷ l)) refl;
          place = rw (length-append a.passed (x ∷ [])) (omega arith);
          size = a.size;
          rest = rest;
          counted = omega arith;
          fits = fits;
          blocks = a.blocks;
          filled = a.filled;
        } in
        (moved, rw (inside, iterator_get-At y ys moved at) refl, at, short)

    -- The next byte is the first of the next string of the vector.
    next_in_string :
        (b : Flat) (bs : List Flat) (l : List ℕ)
        → a.left ≡ []
        → it.blocks_left ≡ b ∷ bs
        → b.value ≡ y ∷ l
        → ys ≡ l ++ text_of bs
        → Moved
    unfolding iterator_next next_string
    next_in_string b bs l e f v rest =
        let size = block-length a in
        let place = a.place in
        let n = ap length e in
        let last : ltb it.in_block_index (sub_word it.block_length 1) ≡ false = ground arith in
        let counted = a.counted in
        let fits = a.fits in
        let more : (it.current_count == add_word it.index 1) ≡ false = ground arith in
        let blocks : (b.count ≡ length b.value) × AllCounted bs = rw f at (a.blocks) in
        let filled : (0 < length b.value) × NoneEmpty bs = rw f at (a.filled) in
        let m = ap length rest ∙ length-append l (text_of bs) in
        let size' = blocks.0 in
        let v' = ap length v in
        let moved : StringIterator = record {
          index = add_word it.index 1;
          in_block_index = 0;
          block_length = b.count;
          current_count = it.current_count;
          block = b.value;
          blocks_left = bs;
        } in
        let at : At y ys moved = record {
          passed = [];
          left = l;
          block = v;
          place = refl;
          size = blocks.0;
          rest = rest;
          counted = omega arith;
          fits = fits;
          blocks = blocks.1;
          filled = filled.1;
        } in
        (moved, rw (last, more, f, iterator_get-At y ys moved at) refl, at, omega arith)

    pub next-At : Moved
    next-At = elim (List-cases a.left) [
      | inr (z, l, e) ↦
          let rest : y ∷ ys ≡ z ∷ (l ++ text_of it.blocks_left) = rw e at (a.rest) in
          next_in_block l (e ∙ ap (λ k. k ∷ l) (sym (head_eq rest))) (tail_eq rest)
      | inl e ↦ elim (List-cases it.blocks_left) [
        | inl f ↦ absurd (let rest : y ∷ ys ≡ [] = rw (e, f) at (a.rest) in cc)
        | inr (b, bs, f) ↦ elim (List-cases b.value) [
          | inl v ↦ absurd (
              let filled : (0 < length b.value) × NoneEmpty bs = rw f at (a.filled) in
              let p : 0 < length b.value = filled.0 in let q = ap length v in omega arith)
          | inr (z, l, v) ↦
              let rest : y ∷ ys ≡ z ∷ (l ++ text_of bs) = rw (e, f, v) at (a.rest) in
              next_in_string b bs l e f (v ∙ ap (λ k. k ∷ l) (sym (head_eq rest))) (tail_eq rest)
        ]
      ]
    ]
