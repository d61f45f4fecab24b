-- ===== src/Tests/Hashing.antt =====
-- Hashes of backend/runtime/Hash.h and Object.h at concrete values.
use clojure_rt.Base.{ℕ, ◌+◌, ◌^◌, ◌≤◌, ◌<◌, ◌≡◌, refl, arith, true, ok, ◌==◌, if◌then◌else◌}
use clojure_rt.Value.{RtValue, ObjectType, heap_type, get_type, is_ptr, unbox_ptr}
use clojure_rt.Hash.Mix.{
  avalanche_64, deavalanche_64, avalanche, deavalanche_64-avalanche_64, avalanche-bounds,
}
use clojure_rt.Hash.Dispatch.{
  Methods, hash, equals, object_equals, object_hash, has_case, equals-hash,
}

deavalanche_64-avalanche_64_example : deavalanche_64 (avalanche_64 42) ≡ 42
deavalanche_64-avalanche_64_example = deavalanche_64-avalanche_64 42 (omega arith)

avalanche-bounds_example : (2 ^ 63 ≤ avalanche 0) × (avalanche 0 < 2 ^ 64)
avalanche-bounds_example = avalanche-bounds 0 (omega arith)

-- All strings are the same.
abbrev one_string : Methods
one_string = record { hash_of = λ n a. 7; equals_of = λ n a b. true }

-- A string at 16 and at 32, and reverse sequences elsewhere.
abbrev two_strings : ℕ → ObjectType
two_strings a = if a == 16 then heap_type 1 else if a == 32 then heap_type 1 else heap_type 26

abbrev ptr : ℕ → RtValue
ptr a = 0xFFFE000000000000 + a

strings_equal : equals one_string two_strings (ptr 16) (ptr 32) ≡ ok true
unfolding equals object_equals object_hash has_case is_ptr get_type unbox_ptr
strings_equal = refl

equals-hash_example : hash one_string two_strings (ptr 16) ≡ hash one_string two_strings (ptr 32)
equals-hash_example = equals-hash one_string two_strings (ptr 16) (ptr 32) strings_equal
