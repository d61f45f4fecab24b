-- ===== src/ConcurrentMap/Slots.antt =====
-- Masks with `sizeMask`, which keep the low bits of an index.
use Prim.Native.Nat.{bit_xor, differ, ◌∣◌}
use native.Mathlib.Nat.{
  pow-suc, mod-add-mod, mod-lt, one-le-pow, mod-eq_of_lt, div-add-mod, mul-add-mod_self_left,
  mod-mod_of_dvd, mul_right_comm, dvd_refl, dvd-mul_right_of_dvd,
}
use mathlib.Core.Path.{subst}
use clojure_rt.Base.{
  ℕ, zero, suc, ◌+◌, ◌-◌, ◌*◌, ◌/◌, ◌%◌, ◌^◌, ◌≤◌, ◌<◌, ◌≡◌, refl, sym, ap, ◌∙◌, arith, add_word,
  sub_word, word_mod,
}
use clojure_rt.Hash.Digits.{bit_xor_digit, bit_xor-half, low_digit}

-- The low bits of a number, from those of its half.
mod_pow_suc : (k a : ℕ) → a % 2 ^ suc k ≡ a / 2 % 2 ^ k * 2 + a % 2
mod_pow_suc k a =
    let m = 2 ^ k in
    let half = div-add-mod (a / 2) m in
    let lt = mod-lt (a / 2) (one-le-pow k 2 (omega arith)) in
    let e : 2 ^ suc k ≡ m * 2 = pow-suc 2 k in
    let whole : m * 2 * (a / 2 / m) + (a / 2 % m * 2 + a % 2) ≡ a =
      regroup m (a / 2 / m) (a / 2 % m) (a % 2) ∙ rw half (omega arith) in
    rw e (
      ap (λ x. x % (m * 2)) (sym whole)
      ∙ mul-add-mod_self_left (m * 2) (a / 2 / m) (a / 2 % m * 2 + a % 2)
      ∙ mod-eq_of_lt (omega (arith, lt)))
  where
    regroup : (m q s r : ℕ) → m * 2 * q + (s * 2 + r) ≡ (m * q + s) * 2 + r
    regroup m q s r = omega (arith, mul_right_comm m 2 q)

xor_digit_zero : (x y : ℕ) → x < 2 → y < 2 → differ x y ≡ 0 → x ≡ y
xor_digit_zero zero y p q h = sym h
xor_digit_zero (suc x) zero p q h = h
xor_digit_zero (suc zero) (suc zero) p q h = refl
xor_digit_zero (suc zero) (suc (suc y)) p q h = absurd (omega arith)
xor_digit_zero (suc (suc x)) (suc y) p q h = absurd (omega arith)

-- `x & sizeMask` is 0 for an exclusive or x of two hashes of one bucket only.
pub bit_xor-low : (k a b : ℕ) → bit_xor a b % 2 ^ k ≡ 0 → a % 2 ^ k ≡ b % 2 ^ k
bit_xor-low zero a b h = omega arith
bit_xor-low (suc k) a b h =
    let low = low_digit a b in
    let q : bit_xor a b / 2 % 2 ^ k * 2 + bit_xor a b % 2 ≡ 0 =
      sym (mod_pow_suc k (bit_xor a b)) ∙ h in
    let high : bit_xor (a / 2) (b / 2) % 2 ^ k ≡ 0 =
      ap (λ x. x % 2 ^ k) (sym (bit_xor-half a b)) ∙ omega (arith, q) in
    let digit =
      xor_digit_zero (a % 2) (b % 2) (omega arith) (omega arith)
        (omega (arith, q, bit_xor_digit a b, low)) in
    let rest = bit_xor-low k (a / 2) (b / 2) high in
    rw (mod_pow_suc k a, mod_pow_suc k b, rest, digit) refl

-- An exclusive or of 0 is one of equal numbers.
pub bit_xor-same : (n a b : ℕ) → a ≤ n → b ≤ n → bit_xor a b ≡ 0 → a ≡ b
bit_xor-same zero a b p q h = omega arith
bit_xor-same (suc n) a b p q h =
    let low = low_digit a b in
    let e = bit_xor_digit a b in
    let digit = xor_digit_zero (a % 2) (b % 2) (omega arith) (omega arith) (omega arith) in
    let rest = bit_xor-same n (a / 2) (b / 2) (omega arith) (omega arith) (omega arith) in
    omega arith

pow-dvd-pow : (n k : ℕ) → 2 ^ k ∣ 2 ^ (n + k)
pow-dvd-pow zero k = let e : 0 + k ≡ k = omega arith in rw e (dvd_refl (2 ^ k))
pow-dvd-pow (suc n) k =
    let e : suc n + k ≡ suc (n + k) = omega arith in
    rw (e, pow-suc 2 (n + k)) (dvd-mul_right_of_dvd (2 ^ k) (pow-dvd-pow n k) 2)

-- The slot of the next index on a chain, for a size that is a power of two of at most 64 bits.
pub add_word-mod : (k i d : ℕ) → k ≤ 64 → add_word i d % 2 ^ k ≡ (i % 2 ^ k + d) % 2 ^ k
add_word-mod k i d h =
    let e : 64 - k + k ≡ 64 = omega arith in
    let below : 2 ^ k ∣ word_mod = subst (λ n. 2 ^ k ∣ 2 ^ n) e (pow-dvd-pow (64 - k) k) in
    mod-mod_of_dvd (2 ^ k) (i + d) (below) ∙ sym (mod-add-mod i (2 ^ k) d)

-- The distance of an index from the one it was counted from.
pub sub_word-add_word : (i d : ℕ) → i < 2 ^ 64 → d < 2 ^ 64 → sub_word (add_word i d) i ≡ d
sub_word-add_word i d p q = ground arith
