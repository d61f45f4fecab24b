-- ===== src/Strings/Holds.antt =====
-- The text of a string of backend/runtime/String.c, under concatenation and copying.
use clojure_rt.Base.{
  ℕ, ◌+◌, ◌^◌, ◌<◌, ◌≡◌, ◌≢◌, refl, sym, ap, ◌∙◌, false, List, [], ◌∷◌, ◌++◌, length, length-append,
  append_assoc, append-nil, ◌==◌, add_word, sub_word, ok, arith, Bool-cases, inl, inr, ==_iff, take,
}
use clojure_rt.Hash.Mix.{avalanche}
use clojure_rt.Strings.Ops.{
  Flat, RtString, flat, compound, widen, hash_from, compute_hash, count_of, hash_of, blocks_of,
  create_compound, copy_blocks, compactify,
}

-- A string that is not compound, of fewer than 2 ^ 64 bytes.
pub record IsBlock (b : Flat) : Type 0 where
  pub counted : b.count ≡ length b.value
  pub hashed : b.hash ≡ compute_hash b.value

abbrev pub AllBlocks : List Flat → Type 0
AllBlocks [] = Unit {0}
AllBlocks (b ∷ blocks) = IsBlock b × AllBlocks blocks

abbrev pub text_of : List Flat → List ℕ
text_of [] = []
text_of (b ∷ blocks) = b.value ++ text_of blocks

abbrev pub text : RtString → List ℕ
text s = text_of (blocks_of s)

-- The count and the hash of a string are those of its text.
pub record IsText (s : RtString) : Type 0 where
  pub counted : count_of s ≡ length (text s)
  pub hashed : hash_of s ≡ compute_hash (text s)
  pub blocks : AllBlocks (blocks_of s)

text_of-append : (bs cs : List Flat) → text_of (bs ++ cs) ≡ text_of bs ++ text_of cs
text_of-append [] cs = refl
text_of-append (b ∷ bs) cs =
    rw (text_of-append bs cs) (sym (append_assoc b.value (text_of bs) (text_of cs)))

AllBlocks-append : (bs cs : List Flat) → AllBlocks bs → AllBlocks cs → AllBlocks (bs ++ cs)
AllBlocks-append [] cs p q = q
AllBlocks-append (b ∷ bs) cs (p, ps) q = (p, AllBlocks-append bs cs ps q)

hash_from-lt : (xs : List ℕ) (h : ℕ) → h < 2 ^ 64 → hash_from h xs < 2 ^ 64
unfolding hash_from
hash_from-lt [] h p = p
hash_from-lt (x ∷ xs) h p = hash_from-lt xs (add_word h (avalanche (widen x))) (omega arith)

-- The hash is a sum, so a start may be added before or after.
hash_from-add_word :
    (xs : List ℕ) (h k : ℕ) → h < 2 ^ 64 → hash_from (add_word h k) xs ≡ add_word (hash_from h xs) k
unfolding hash_from
hash_from-add_word [] h k p = refl
hash_from-add_word (x ∷ xs) h k p =
    let a = avalanche (widen x) in
    let swap : add_word (add_word h k) a ≡ add_word (add_word h a) k = omega arith in
    rw swap (hash_from-add_word xs (add_word h a) k (omega arith))

hash_from-append : (xs ys : List ℕ) (h : ℕ) → hash_from h (xs ++ ys) ≡ hash_from (hash_from h xs) ys
unfolding hash_from
hash_from-append [] ys h = refl
hash_from-append (x ∷ xs) ys h = hash_from-append xs ys (add_word h (avalanche (widen x)))

-- The hash of two texts one behind the other.
pub compute_hash-append :
    (xs ys : List ℕ)
    → compute_hash (xs ++ ys)
      ≡ sub_word (add_word (compute_hash xs) (compute_hash ys)) (compute_hash [])
unfolding compute_hash hash_from
compute_hash-append xs ys =
    let hx = hash_from 5381 xs in
    let lt = hash_from-lt xs 5381 (omega arith) in
    let lt' = hash_from-lt ys 5381 (omega arith) in
    let d = sub_word hx 5381 in
    let back : add_word 5381 d ≡ hx = ground arith in
    let whole : hash_from hx ys ≡ add_word (hash_from 5381 ys) d =
      ap (λ n. hash_from n ys) (sym back) ∙ hash_from-add_word ys 5381 d (omega arith) in
    hash_from-append xs ys 5381 ∙ whole ∙ ground arith

-- For two strings whose counts and hashes are those of their texts, fewer than 2 ^ 64 bytes together, and a text of both whose
-- hash is not 0: `concat` returns a string of the text of the first followed by that of the second, with its count and hash.
pub create_compound-IsText :
    (left right : RtString)
    → IsText left
    → IsText right
    → length (text left) + length (text right) < 2 ^ 64
    → compute_hash (text left ++ text right) ≢ 0
    → (s : RtString) × (create_compound left right ≡ ok s)
      × IsText s
      × (text s ≡ text left ++ text right)
unfolding create_compound
create_compound-IsText left right p q fits some_hash =
    let n = add_word (count_of left) (count_of right) in
    let h = sub_word (add_word (hash_of left) (hash_of right)) (compute_hash []) in
    let blocks = blocks_of left ++ blocks_of right in
    let joined : text_of blocks ≡ text left ++ text right =
      text_of-append (blocks_of left) (blocks_of right) in
    let hashed : h ≡ compute_hash (text left ++ text right) =
      rw (p.hashed, q.hashed) (sym (compute_hash-append (text left) (text right))) in
    let no_zero : (h == 0) ≡ false = elim (Bool-cases (h == 0)) [
      | inr z ↦ z
      | inl z ↦ absurd (some_hash (sym hashed ∙ (==_iff h 0).0 z))
    ] in
    (
      compound n h blocks,
      rw no_zero refl,
      record {
        counted =
            let c = p.counted in
            let d = q.counted in
            rw joined (let l = length-append (text left) (text right) in omega arith);
        hashed = rw joined hashed;
        blocks = AllBlocks-append (blocks_of left) (blocks_of right) p.blocks q.blocks;
      },
      joined,
    )

take-length : (xs : List ℕ) → take (length xs) xs ≡ xs
take-length [] = refl
take-length (x ∷ xs) = ap (◌∷◌ x) (take-length xs)

copy_blocks-text_of : (blocks : List Flat) → AllBlocks blocks → copy_blocks blocks ≡ text_of blocks
copy_blocks-text_of [] p = refl
copy_blocks-text_of (b ∷ blocks) (p, ps) =
    rw (p.counted, take-length b.value, copy_blocks-text_of blocks ps) refl

-- For a string whose count and hash are those of its text: a copy into one block keeps the text, the count and the hash, and is
-- the string itself if it is not compound.
pub compactify-IsText :
    (s : RtString)
    → IsText s
    → IsText (compactify s)
      × (text (compactify s) ≡ text s)
      × (count_of (compactify s) ≡ count_of s)
      × (hash_of (compactify s) ≡ hash_of s)
      × (length (blocks_of (compactify s)) ≡ 1)
unfolding compactify
compactify-IsText (flat s) p = (p, refl, refl, refl, refl)
compactify-IsText (compound count hash blocks) p =
    let copied = copy_blocks-text_of blocks p.blocks in
    let whole : copy_blocks blocks ++ [] ≡ copy_blocks blocks = append-nil (copy_blocks blocks) in
    (
      record {
        counted = rw (whole, copied) p.counted;
        hashed = rw (whole, copied) refl;
        blocks = (record { counted = rw copied p.counted; hashed = rw copied refl }, tt);
      },
      whole ∙ copied,
      refl,
      rw copied (sym p.hashed),
      refl,
    )
