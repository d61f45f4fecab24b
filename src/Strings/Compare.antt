-- ===== src/Strings/Compare.antt =====
-- `equals` of strings of backend/runtime/String.c that go through iterators.
use clojure_rt.Base.{
  ℕ, zero, suc, ◌+◌, ◌^◌, ◌<◌, ◌≡◌, ◌≢◌, refl, sym, ap, ◌∙◌, true, false, List, [], ◌∷◌, ◌++◌,
  length, length-append, append-nil, ◌==◌, ==_self, ok, arith, Bool-cases, inl, inr, ==_iff,
}
use clojure_rt.Strings.Ops.{
  Flat, RtString, flat, compound, count_of, blocks_of, StringIterator, iterator, iterator_on,
  iterator_get, bytes_equal, same_bytes, iterators_equal, string_equals,
}
use clojure_rt.Strings.Holds.{text_of, text}
use clojure_rt.Strings.Iterate.{
  AllCounted, NoneEmpty, NoZero, At, iterator_get-At, List-cases, head_eq, tail_eq, next-end,
  next-At,
}

-- The count of a string, and that of each of its blocks, is the length of its text; the hashes may be anything.
pub record IsCounted (s : RtString) : Type 0 where
  pub counted : count_of s ≡ length (text s)
  pub blocks : AllCounted (blocks_of s)

-- The loop over two iterators with as many bytes before them.
bytes_equal-same_bytes :
    (fuel x y : ℕ) (xs ys : List ℕ) (left right : StringIterator)
    → length xs ≡ length ys
    → length xs + 1 < fuel
    → NoZero (x ∷ xs)
    → At x xs left
    → At y ys right
    → left.block_length < 2 ^ 64
    → right.block_length < 2 ^ 64
    → bytes_equal fuel left right x y ≡ ok (same_bytes (x ∷ xs) (y ∷ ys))
unfolding bytes_equal
bytes_equal-same_bytes zero x y xs ys left right same fuel no_zero a b p q = absurd (omega arith)
bytes_equal-same_bytes (suc zero) x y xs ys left right same fuel no_zero a b p q =
    absurd (omega arith)
bytes_equal-same_bytes (suc (suc fuel)) x y [] (z ∷ ys) left right same enough no_zero a b p q =
    absurd (omega arith)
bytes_equal-same_bytes (suc (suc fuel)) x y (w ∷ xs) [] left right same enough no_zero a b p q =
    absurd (omega arith)
bytes_equal-same_bytes (suc (suc fuel)) x y [] [] left right same enough (positive, no_zero) a b p
      q =
    let some_byte : (x == 0) ≡ false = ground arith in
    elim (Bool-cases (x == y)) [
      | inr n ↦ rw (some_byte, n) refl
      | inl e ↦ rw (some_byte, e, next-end x left a p, next-end y right b q) refl
    ]
bytes_equal-same_bytes (suc (suc fuel)) x y (w ∷ xs) (z ∷ ys) left right same enough
      (positive, no_zero) a b p q =
    let some_byte : (x == 0) ≡ false = ground arith in
    elim (Bool-cases (x == y)) [
      | inr n ↦ rw (some_byte, n) refl
      | inl e ↦
          let (left', run, a', p') = next-At x left w xs a p in
          let (right', run', b', q') = next-At y right z ys b q in
          rw (some_byte, e, run, run')
            (bytes_equal-same_bytes (suc fuel) w z xs ys left' right' (omega arith) (omega arith)
              no_zero a' b' p' q')
    ]

-- The start of a string without an empty block.
iterator-At :
    (s : RtString) (x : ℕ) (xs : List ℕ)
    → IsCounted s
    → NoneEmpty (blocks_of s)
    → count_of s < 2 ^ 64
    → text s ≡ x ∷ xs
    → (it : StringIterator) × (iterator s ≡ ok it) × At x xs it × (it.block_length < 2 ^ 64)
unfolding iterator
iterator-At (flat b) x xs p filled fits e =
    let whole = append-nil b.value in
    let value : b.value ≡ x ∷ xs = sym whole ∙ e in
    let n = ap length e in
    let counted = p.counted in
    (
      iterator_on b.count b [],
      refl,
      record {
        passed = [];
        left = xs;
        block = value;
        place = refl;
        size = p.blocks.0;
        rest = sym (append-nil xs);
        counted = omega arith;
        fits = fits;
        blocks = tt;
        filled = tt;
      },
      fits,
    )
iterator-At (compound count hash []) x xs p filled fits e = absurd (cc)
iterator-At (compound count hash (b ∷ bs)) x xs p filled fits e = elim (List-cases b.value) [
  | inl v ↦ absurd (let q : 0 < length b.value = filled.0 in let n = ap length v in omega arith)
  | inr (z, l, v) ↦
      let parts : z ∷ (l ++ text_of bs) ≡ x ∷ xs = rw v at e in
      let value : b.value ≡ x ∷ l = v ∙ ap (λ k. k ∷ l) (head_eq parts) in
      let rest : xs ≡ l ++ text_of bs = sym (tail_eq parts) in
      let n = ap length e in
      let m = length-append b.value (text_of bs) in
      let counted = p.counted in
      let size : b.count ≡ length b.value = (p.blocks).0 in
      (
        iterator_on count b bs,
        refl,
        record {
          passed = [];
          left = l;
          block = value;
          place = refl;
          size = size;
          rest = rest;
          counted = omega arith;
          fits = fits;
          blocks = (p.blocks).1;
          filled = filled.1;
        },
        omega arith,
      )
]

iterators_equal-same_bytes :
    (s s' : RtString)
    → IsCounted s
    → IsCounted s'
    → NoneEmpty (blocks_of s)
    → NoneEmpty (blocks_of s')
    → NoZero (text s)
    → 0 < count_of s
    → count_of s < 2 ^ 64
    → count_of s ≡ count_of s'
    → iterators_equal s s' ≡ ok (same_bytes (text s) (text s'))
unfolding iterators_equal
iterators_equal-same_bytes s s' p p' filled filled' no_zero some_text fits same =
    let counted = p.counted in
    let counted' = p'.counted in
    elim (List-cases (text s)) [
      | inl e ↦ absurd (let n = ap length e in omega arith)
      | inr (x, xs, e) ↦ elim (List-cases (text s')) [
        | inl e' ↦ absurd (let n = ap length e' in omega arith)
        | inr (y, ys, e') ↦
            let n = ap length e in
            let n' = ap length e' in
            let fits' : count_of s' < 2 ^ 64 = rw (← same) fits in
            let (it, run, a, short) = iterator-At s x xs p filled fits e in
            let (it', run', a', short') = iterator-At s' y ys p' filled' fits' e' in
            rw (run, run', iterator_get-At x xs it a, iterator_get-At y ys it' a', e, e')
              (bytes_equal-same_bytes (suc (count_of s)) x y xs ys it it' (omega arith)
                (omega arith) (rw e at no_zero) a a' short short')
      ]
    ]

same_bytes-length : (xs ys : List ℕ) → length xs ≢ length ys → same_bytes xs ys ≡ false
same_bytes-length [] [] n = absurd (n refl)
same_bytes-length [] (y ∷ ys) n = refl
same_bytes-length (x ∷ xs) [] n = refl
same_bytes-length (x ∷ xs) (y ∷ ys) n = elim (Bool-cases (x == y)) [
  | inr m ↦ rw m refl
  | inl e ↦ rw e (same_bytes-length xs ys (λ k. n (ap suc k)))
]

-- For two strings whose counts, and those of each of their blocks, are the lengths of their texts, whatever their
-- hashes, and neither of which has an empty block: if the first has a count that is not 0 and below 2 ^ 64, and no byte of
-- 0, then `equals` answers whether the texts are the same bytes, in however many blocks they are.
pub string_equals-same_bytes :
    (s s' : RtString)
    → IsCounted s
    → IsCounted s'
    → NoneEmpty (blocks_of s)
    → NoneEmpty (blocks_of s')
    → NoZero (text s)
    → 0 < count_of s
    → count_of s < 2 ^ 64
    → string_equals s s' ≡ ok (same_bytes (text s) (text s'))
unfolding string_equals
string_equals-same_bytes s s' p p' filled filled' no_zero some_text fits =
    elim (Bool-cases (count_of s == count_of s')) [
      | inl z ↦
          let same = (==_iff (count_of s) (count_of s')).0 z in
          counts_same s s' z
            (iterators_equal-same_bytes s s' p p' filled filled' no_zero some_text fits same)
      | inr z ↦
          let counted = p.counted in
          let counted' = p'.counted in
          let differ : length (text s) ≢ length (text s') =
            λ e. absurd (let q = (==_iff (count_of s) (count_of s')).1 (omega arith) in cc) in
          rw (same_bytes-length (text s) (text s') differ) (counts_differ s s' z)
    ]
  where
    counts_differ :
        (s s' : RtString) → (count_of s == count_of s') ≡ false → string_equals s s' ≡ ok false
    counts_differ (flat b) (flat c) z = rw z refl
    counts_differ (flat b) (compound n h bs) z = rw z refl
    counts_differ (compound m g bs) (flat c) z = rw z refl
    counts_differ (compound m g bs) (compound n h cs) z = rw z refl

    counts_same :
        (s s' : RtString)
        → (count_of s == count_of s') ≡ true
        → iterators_equal s s' ≡ ok (same_bytes (text s) (text s'))
        → string_equals s s' ≡ ok (same_bytes (text s) (text s'))
    counts_same (flat b) (flat c) z e = rw (z, append-nil b.value, append-nil c.value) refl
    counts_same (flat b) (compound n h bs) z e = rw z e
    counts_same (compound m g bs) (flat c) z e = rw z e
    counts_same (compound m g bs) (compound n h cs) z e = rw z e

-- For two compound strings of the same count, of which the first begins with an empty block: `equals` answers true, whatever the
-- texts are.
pub string_equals-empty_block :
    (n h h' : ℕ) (b c : Flat) (bs cs : List Flat)
    → b.value ≡ []
    → string_equals (compound n h (b ∷ bs)) (compound n h' (c ∷ cs)) ≡ ok true
unfolding string_equals iterators_equal iterator iterator_get bytes_equal
string_equals-empty_block n h h' b c bs cs e = elim (List-cases c.value) [
  | inl f ↦ rw (==_self n, e, f) refl
  | inr (y, ys, f) ↦ rw (==_self n, e, f) refl
]
