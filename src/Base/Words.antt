-- ===== src/Base/Words.antt =====
-- Machine words as native numbers: 64-bit wrap-around, shifts and masks of `uword_t`, and the
-- two's complement reading of `int32_t`.
use Prim.Native.Nat.{ℕ, ◌+◌, ◌-◌, ◌%◌, ◌^◌, ◌<◌}
use mathlib.Core.Path.{◌≡◌}
use mathlib.Core.Bool.{Bool, true, false}
use native.Mathlib.Omega.{arith}
use clojure_rt.Base.Tests.{ltb, leb, if◌then◌else◌}

abbrev pub word_mod : ℕ
word_mod = 2 ^ 64

-- `a + b` on `uword_t`.
abbrev pub add_word : ℕ → ℕ → ℕ
add_word a b = (a + b) % word_mod

-- `a - b` on `uword_t`, which wraps where `a < b`.
abbrev pub sub_word : ℕ → ℕ → ℕ
sub_word a b = if leb b a then a - b else a + word_mod - b

-- An `int32_t`: `negsuc n` is -(n + 1).
pub data ℤ : Type 0 where
  pos : ℕ → ℤ
  negsuc : ℕ → ℤ

abbrev pub is_negative : ℤ → Bool
is_negative (pos n) = false
is_negative (negsuc n) = true

-- `(uint32_t)i`
abbrev pub to_uint32 : ℤ → ℕ
to_uint32 (pos n) = n % 2 ^ 32
to_uint32 (negsuc n) = 2 ^ 32 - 1 - n % 2 ^ 32

-- `(int32_t)n` for a word `n`: the low 32 bits, the highest of them being the sign.
abbrev pub to_int32 : ℕ → ℤ
to_int32 n = let low = n % 2 ^ 32 in if ltb low (2 ^ 31) then pos low else negsuc (2 ^ 32 - 1 - low)

-- `(uword_t)i` for an `int32_t` i, which extends the sign.
abbrev pub to_word : ℤ → ℕ
to_word (pos n) = n
to_word (negsuc n) = word_mod - 1 - n

abbrev pub IsInt32 : ℤ → Type 0
IsInt32 (pos n) = n < 2 ^ 31
IsInt32 (negsuc n) = n < 2 ^ 31

pub to_int32-to_uint32 : (i : ℤ) → IsInt32 i → to_int32 (to_uint32 i) ≡ i
to_int32-to_uint32 (pos n) h = ground arith
to_int32-to_uint32 (negsuc n) h = ground arith

pub to_int32-IsInt32 : (n : ℕ) → IsInt32 (to_int32 n)
to_int32-IsInt32 n = ground arith

pub to_uint32-lt : (i : ℤ) → to_uint32 i < 2 ^ 32
to_uint32-lt (pos n) = omega arith
to_uint32-lt (negsuc n) = omega arith
