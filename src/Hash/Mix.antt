-- ===== src/Hash/Mix.antt =====
-- The mixing of hashes (backend/runtime/Hash.h), for words of 64 bits.
use Prim.Native.Nat.{bit_or, bit_xor}
use clojure_rt.Base.{ℕ, ◌*◌, ◌/◌, ◌%◌, ◌^◌, ◌≤◌, ◌<◌, ◌≡◌, refl, arith, word_mod}
use clojure_rt.Hash.Digits.{
  bit_xor_twice, bit_xor-shift, bit_xor-zero, bit_xor-lt, right-le-bit_or, bit_or-lt,
}

-- `h ^= h >> 33`
unfoldable pub fold : ℕ → ℕ
fold h = bit_xor h (h / 2 ^ 33)

-- `h *= c`
unfoldable pub mul_word : ℕ → ℕ → ℕ
mul_word h c = h * c % word_mod

unfoldable pub avalanche_64 : ℕ → ℕ
avalanche_64 h = fold (mul_word (fold (mul_word (fold h) 0xff51afd7ed558ccd)) 0xc4ceb9fe1a85ec53)

unfoldable pub deavalanche_64 : ℕ → ℕ
deavalanche_64 h = fold (mul_word (fold (mul_word (fold h) 0x9cb4b2f8129337db)) 0x4f74430c22a54005)

unfoldable pub avalanche : ℕ → ℕ
avalanche h = bit_or (avalanche_64 h) (2 ^ 63)

fold_lem : (h : ℕ) → h < 2 ^ 64 → (fold (fold h) ≡ h) × (fold h < 2 ^ 64)
unfolding fold
fold_lem h small =
    let top : h / 2 ^ 33 / 2 ^ 33 ≡ 0 = omega arith in
    let shifted : fold h / 2 ^ 33 ≡ h / 2 ^ 33 =
      rw (bit_xor-shift 33 h (h / 2 ^ 33), top) (bit_xor-zero h (h / 2 ^ 33) (omega arith)) in
    (
      rw shifted (bit_xor_twice h h (h / 2 ^ 33) (omega arith) (omega arith)),
      bit_xor-lt 64 h (h / 2 ^ 33) small (omega arith),
    )

first_factor :
    (h : ℕ) → h < 2 ^ 64 → mul_word (mul_word h 0xff51afd7ed558ccd) 0x4f74430c22a54005 ≡ h
unfolding mul_word
first_factor h small = omega arith

second_factor :
    (h : ℕ) → h < 2 ^ 64 → mul_word (mul_word h 0xc4ceb9fe1a85ec53) 0x9cb4b2f8129337db ≡ h
unfolding mul_word
second_factor h small = omega arith

mul_word-lt : (h c : ℕ) → mul_word h c < 2 ^ 64
unfolding mul_word
mul_word-lt h c = mod-lt (h * c)
  where
    mod-lt : (x : ℕ) → x % word_mod < 2 ^ 64
    mod-lt x = omega arith

-- The five steps of the mixing, taken back from the last.
steps_back :
    (h a b c d : ℕ)
    → h < 2 ^ 64
    → fold h ≡ a
    → mul_word a 0xff51afd7ed558ccd ≡ b
    → fold b ≡ c
    → mul_word c 0xc4ceb9fe1a85ec53 ≡ d
    → fold (mul_word (fold (mul_word (fold (fold d)) 0x9cb4b2f8129337db)) 0x4f74430c22a54005) ≡ h
steps_back h a b c d small p q r t =
    let a_small : a < 2 ^ 64 = rw p at (fold_lem h small).1 in
    let b_small : b < 2 ^ 64 = rw q at (mul_word-lt a 0xff51afd7ed558ccd) in
    let c_small : c < 2 ^ 64 = rw r at (fold_lem b b_small).1 in
    let d_small : d < 2 ^ 64 = rw t at (mul_word-lt c 0xc4ceb9fe1a85ec53) in
    let c_back : mul_word d 0x9cb4b2f8129337db ≡ c = rw t at (second_factor c c_small) in
    let b_back : fold c ≡ b = rw r at (fold_lem b b_small).0 in
    let a_back : mul_word b 0x4f74430c22a54005 ≡ a = rw q at (first_factor a a_small) in
    let h_back : fold a ≡ h = rw p at (fold_lem h small).0 in
    rw ((fold_lem d d_small).0, c_back, b_back, a_back) h_back

-- For a word: `deavalanche_64` takes `avalanche_64` back.
pub deavalanche_64-avalanche_64 : (h : ℕ) → h < 2 ^ 64 → deavalanche_64 (avalanche_64 h) ≡ h
unfolding deavalanche_64 avalanche_64
deavalanche_64-avalanche_64 h small = steps_back h _ _ _ _ small refl refl refl refl

-- For a word: the hash has its highest bit set, so it is not 0, and it is a word.
pub avalanche-bounds : (h : ℕ) → h < 2 ^ 64 → (2 ^ 63 ≤ avalanche h) × (avalanche h < 2 ^ 64)
unfolding avalanche avalanche_64
avalanche-bounds h small =
    let mixed : avalanche_64 h < 2 ^ 64 = (fold_lem _ (mul_word-lt _ 0xc4ceb9fe1a85ec53)).1 in
    (
      right-le-bit_or (2 ^ 63) (avalanche_64 h) (2 ^ 63) (omega arith),
      bit_or-lt 64 (avalanche_64 h) (2 ^ 63) mixed (omega arith),
    )
