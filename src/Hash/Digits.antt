-- ===== src/Hash/Digits.antt =====
-- Exclusive or of words, for the shifts of backend/runtime/Hash.h.
use Prim.Native.Nat.{max, digits, differ, bit_or, bit_xor, bit_or-bitwise, bit_xor-bitwise}
use native.Mathlib.Nat.{pow-suc, div-div-eq-div-mul}
use clojure_rt.Base.{sym, ℕ, zero, suc, ◌+◌, ◌*◌, ◌/◌, ◌%◌, ◌^◌, ◌≤◌, ◌<◌, ◌≡◌, refl, arith}

-- The fuel of the digit recursion does not matter where it is enough.
module _ (f : ℕ → ℕ → ℕ) where
  more_fuel : (a n b : ℕ) → a ≤ n → digits (λ y. y) f n a b ≡ digits (λ y. y) f a a b
  more_fuel a n b le = between n a a b le (omega arith)
    where
      between : (n m a b : ℕ) → a ≤ n → a ≤ m → digits (λ y. y) f n a b ≡ digits (λ y. y) f m a b
      between zero zero a b p q = refl
      between zero (suc m) zero b p q = refl
      between zero (suc m) (suc a) b p q = absurd (omega arith)
      between (suc n) zero zero b p q = refl
      between (suc n) zero (suc a) b p q = absurd (omega arith)
      between (suc n) (suc m) zero b p q = refl
      between (suc n) (suc m) (suc a) b p q =
          rw (between n m (suc a / 2) (b / 2) (omega arith) (omega arith))

-- The lowest digit and the others.
pub bit_xor_digit : (a b : ℕ) → bit_xor a b ≡ bit_xor (a / 2) (b / 2) * 2 + differ (a % 2) (b % 2)
bit_xor_digit zero b = simp bit_xor-bitwise (omega arith)
bit_xor_digit (suc a) b =
    simp bit_xor-bitwise (omega (arith, more_fuel differ (suc a / 2) a (b / 2) (omega arith)))

pub bit_or_digit : (a b : ℕ) → bit_or a b ≡ bit_or (a / 2) (b / 2) * 2 + max (a % 2) (b % 2)
bit_or_digit zero b = simp bit_or-bitwise (omega arith)
bit_or_digit (suc a) b =
    simp bit_or-bitwise (omega (arith, more_fuel max (suc a / 2) a (b / 2) (omega arith)))

differ-lt : (x y : ℕ) → x < 2 → y < 2 → differ x y < 2
differ-lt zero y p q = q
differ-lt (suc x) zero p q = p
differ-lt (suc x) (suc y) p q = differ-lt x y (omega arith) (omega arith)

differ_twice : (x y : ℕ) → x < 2 → y < 2 → differ (differ x y) y ≡ x
differ_twice zero zero p q = refl
differ_twice zero (suc zero) p q = refl
differ_twice (suc zero) zero p q = refl
differ_twice (suc zero) (suc zero) p q = refl
differ_twice _ (suc (suc y)) p q = absurd (omega arith)
differ_twice (suc (suc x)) _ p q = absurd (omega arith)

pub low_digit : (a b : ℕ) → differ (a % 2) (b % 2) < 2
low_digit a b = differ-lt (a % 2) (b % 2) (omega arith) (omega arith)

pub bit_xor-zero : (n a : ℕ) → a ≤ n → bit_xor a 0 ≡ a
bit_xor-zero zero a p = let e : a ≡ 0 = omega arith in rw e refl
bit_xor-zero (suc n) a p =
    let rest : bit_xor (a / 2) 0 ≡ a / 2 = bit_xor-zero n (a / 2) (omega arith) in
    let digit : differ (a % 2) 0 ≡ a % 2 = differ-zero (a % 2) in
    omega (arith, bit_xor_digit a 0, rest, digit)
  where
    differ-zero : (x : ℕ) → differ x 0 ≡ x
    differ-zero zero = refl
    differ-zero (suc x) = refl

pub bit_xor-half : (a b : ℕ) → bit_xor a b / 2 ≡ bit_xor (a / 2) (b / 2)
bit_xor-half a b = omega (arith, bit_xor_digit a b, low_digit a b)

pub bit_xor_twice : (n a b : ℕ) → a ≤ n → b ≤ n → bit_xor (bit_xor a b) b ≡ a
bit_xor_twice zero a b p q =
    let e : a ≡ 0 = omega arith in let f : b ≡ 0 = omega arith in rw (e, f) refl
bit_xor_twice (suc n) a b p q =
    let high = bit_xor-half a b in
    let low : bit_xor a b % 2 ≡ differ (a % 2) (b % 2) =
      omega (arith, bit_xor_digit a b, low_digit a b) in
    let rest = bit_xor_twice n (a / 2) (b / 2) (omega arith) (omega arith) in
    let digit = differ_twice (a % 2) (b % 2) (omega arith) (omega arith) in
    rw (bit_xor_digit (bit_xor a b) b, high, low, rest, digit) (omega arith)

pub bit_xor-lt : (k a b : ℕ) → a < 2 ^ k → b < 2 ^ k → bit_xor a b < 2 ^ k
bit_xor-lt zero a b p q =
    let e : a ≡ 0 = omega arith in let f : b ≡ 0 = omega arith in rw (e, f) (omega arith)
bit_xor-lt (suc k) a b p q =
    let rest = bit_xor-lt k (a / 2) (b / 2) (omega arith) (omega arith) in
    omega (arith, bit_xor_digit a b, low_digit a b, rest)

half_shift : (k x : ℕ) → x / 2 ^ suc k ≡ x / 2 ^ k / 2
half_shift k x = rw (pow-suc 2 k) (sym (div-div-eq-div-mul x (2 ^ k) 2))

-- A shift of the exclusive or.
pub bit_xor-shift : (k a b : ℕ) → bit_xor a b / 2 ^ k ≡ bit_xor (a / 2 ^ k) (b / 2 ^ k)
bit_xor-shift zero a b =
    let one : (x : ℕ) → x / 2 ^ 0 ≡ x = λ x. omega arith in
    rw (one (bit_xor a b), one a, one b) refl
bit_xor-shift (suc k) a b =
    rw (half_shift k (bit_xor a b), half_shift k a, half_shift k b, bit_xor-shift k a b)
      (bit_xor-half (a / 2 ^ k) (b / 2 ^ k))

pub right-le-bit_or : (n a b : ℕ) → b ≤ n → b ≤ bit_or a b
right-le-bit_or zero a b p = omega arith
right-le-bit_or (suc n) a b p =
    let rest = right-le-bit_or n (a / 2) (b / 2) (omega arith) in
    omega (arith, bit_or_digit a b, rest, max-right (a % 2) (b % 2))
  where
    max-right : (x y : ℕ) → y ≤ max x y
    max-right zero y = omega arith
    max-right (suc x) zero = omega arith
    max-right (suc x) (suc y) = omega (arith, max-right x y)

max_two : (x y : ℕ) → x < 2 → y < 2 → max x y < 2
max_two x y p q = omega arith

pub bit_or-lt : (k a b : ℕ) → a < 2 ^ k → b < 2 ^ k → bit_or a b < 2 ^ k
bit_or-lt zero a b p q =
    let e : a ≡ 0 = omega arith in let f : b ≡ 0 = omega arith in rw (e, f) (omega arith)
bit_or-lt (suc k) a b p q =
    let rest = bit_or-lt k (a / 2) (b / 2) (omega arith) (omega arith) in
    omega (arith, bit_or_digit a b, rest, max_two (a % 2) (b % 2) (omega arith) (omega arith))
