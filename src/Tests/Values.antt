-- ===== src/Tests/Values.antt =====
-- Boxed values of each kind (backend/runtime/RTValue.h).
use clojure_rt.Base.{ℕ, ◌%◌, ◌^◌, ◌<◌, ◌≡◌, refl, true, false, arith, if◌then◌else◌, negsuc}
use clojure_rt.Value.{
  box_double, box_bool, box_keyword, box_ptr, boolean_type, keyword_type, box_int32, unbox_double,
  is_nan, is_bool, ObjectType, double_type, integer_type, get_type,
}
use clojure_rt.Value.Boxing.{Kinds, unbox_double-box_double, get_type-boxed}

-- A heap of integer objects.
abbrev heap : ℕ → ObjectType
heap a = integer_type

minus_two : box_int32 (negsuc 1) ≡ 0xFFFF0000FFFFFFFE
unfolding box_int32
minus_two = refl

-- The double 1.0.
unbox_double-box_double_example :
    (unbox_double (box_double 0x3FF0000000000000)
      ≡ (if is_nan 0x3FF0000000000000 then 0x7FF8000000000000 else 0x3FF0000000000000))
    × Kinds (box_double 0x3FF0000000000000) true false false false false
    × (get_type heap (box_double 0x3FF0000000000000) ≡ double_type)
unbox_double-box_double_example = unbox_double-box_double heap 0x3FF0000000000000 (omega arith)

five_is_no_bool : is_bool 5 ≡ true → 5 % 2 ^ 48 < 2
unfolding is_bool
five_is_no_bool e = cc

get_type-boxed_example :
    (get_type heap (box_int32 (negsuc 1)) ≡ integer_type)
    × (get_type heap (box_bool true) ≡ boolean_type)
    × (get_type heap (box_keyword 7) ≡ keyword_type)
    × (get_type heap (box_double 0x7FF0000000000001) ≡ double_type)
    × (get_type heap (box_ptr 4096) ≡ heap 4096)
get_type-boxed_example =
    get_type-boxed heap (negsuc 1) true 7 0x7FF0000000000001 4096 (omega arith) (omega arith)
      (omega arith) (omega arith)
