-- ===== src/Value.antt =====
-- RtValue: 64-bit values that hold a double, or a tag of 16 bits above 48 bits of data
-- (backend/runtime/RTValue.h). A value is the native number of its bits.
pub mod Boxing
use Prim.Native.Nat.{bit_or}
use clojure_rt.Base.{
  ℕ, ◌+◌, ◌*◌, ◌/◌, ◌%◌, ◌^◌, Bool, true, false, ◌&&◌, ltb, ◌==◌, if◌then◌else◌, ℤ, to_uint32,
  to_int32, not,
}

abbrev pub RtValue : Type 0
RtValue = ℕ

abbrev pub tag_double_start : ℕ
tag_double_start = 0xFFF1000000000000

abbrev pub tag_int32 : ℕ
tag_int32 = 0xFFFF000000000000

abbrev pub tag_ptr : ℕ
tag_ptr = 0xFFFE000000000000

abbrev pub tag_bool : ℕ
tag_bool = 0xFFFD000000000000

abbrev pub tag_keyword : ℕ
tag_keyword = 0xFFFB000000000000

abbrev pub tag_null : ℕ
tag_null = 0xFFF9000000000000

abbrev pub tag_nil : ℕ
tag_nil = 0xFFFC000000000000

-- `v & RT_TAG_MASK`: the high 16 bits in their place.
abbrev pub tag_bits : RtValue → ℕ
tag_bits v = v / 2 ^ 48 * 2 ^ 48

-- `data | tag`, for a tag whose low 48 bits are 0: the high 16 bits are joined, and the low 48 are
-- those of the data.
abbrev pub or_tag : ℕ → ℕ → ℕ
or_tag x tag = bit_or (x / 2 ^ 48) (tag / 2 ^ 48) * 2 ^ 48 + x % 2 ^ 48

unfoldable pub is_double : RtValue → Bool
is_double v = ltb v tag_double_start

unfoldable pub is_int32 : RtValue → Bool
is_int32 v = tag_bits v == tag_int32

unfoldable pub is_ptr : RtValue → Bool
is_ptr v = tag_bits v == tag_ptr

unfoldable pub is_bool : RtValue → Bool
is_bool v = tag_bits v == tag_bool

unfoldable pub is_nil : RtValue → Bool
is_nil v = v == tag_nil

unfoldable pub is_keyword : RtValue → Bool
is_keyword v = tag_bits v == tag_keyword

unfoldable pub is_null : RtValue → Bool
is_null v = v == tag_null

-- Only nil and the boolean with bit 0 clear are false.
unfoldable pub is_truthy : RtValue → Bool
unfolding is_nil is_bool
is_truthy v = if is_nil v then false else if is_bool v && (v % 2 == 0) then false else true

-- `p` is the machine word of the pointer.
unfoldable pub box_ptr : ℕ → RtValue
box_ptr p = or_tag p tag_ptr

-- `d != d` on the bits of an IEEE 754 double: the exponent is all ones, the fraction is not zero.
abbrev pub is_nan : ℕ → Bool
is_nan bits = (bits / 2 ^ 52 % 2 ^ 11 == 0x7FF) && not (bits % 2 ^ 52 == 0)

-- A double is its bits, so the copy of its memory into the value is the identity.
unfoldable pub box_double : ℕ → RtValue
box_double bits = if is_nan bits then 0x7FF8000000000000 else bits

unfoldable pub box_int32 : ℤ → RtValue
box_int32 i = or_tag (to_uint32 i) tag_int32

unfoldable pub box_bool : Bool → RtValue
box_bool b = or_tag (if b then 1 else 0) tag_bool

abbrev pub box_nil : RtValue
box_nil = tag_nil

abbrev pub box_null : RtValue
box_null = tag_null

-- `id` is a `uint32_t`.
unfoldable pub box_keyword : ℕ → RtValue
box_keyword id = or_tag id tag_keyword

unfoldable pub unbox_double : RtValue → ℕ
unbox_double v = v

-- The cast keeps the low 32 bits and reads them with their sign.
unfoldable pub unbox_int32 : RtValue → ℤ
unbox_int32 v = to_int32 (v % 2 ^ 32)

unfoldable pub unbox_ptr : RtValue → ℕ
unbox_ptr v = v % 2 ^ 48

unfoldable pub unbox_bool : RtValue → Bool
unbox_bool v = v % 2 == 1

unfoldable pub unbox_keyword : RtValue → ℕ
unbox_keyword v = v % 2 ^ 32

-- `objectType` (ObjectProto.h): the tagged types, and one case for the types of heap objects.
pub data ObjectType : Type 0 where
  double_type null_type symbol_type keyword_type nil_type boolean_type integer_type : ObjectType
  heap_type : ℕ → ObjectType

-- `(objectType)(tag & 0xF)` by the values of the enumeration.
abbrev pub tagged_type : ℕ → ObjectType
tagged_type n =
    if n == 9
    then null_type
    else if n == 10
    then symbol_type
    else if n == 11
    then keyword_type
    else if n == 12
    then nil_type
    else if n == 13
    then boolean_type
    else if n == 15
    then integer_type
    else heap_type n

-- `heap` is the type field of the object at an address.
unfoldable pub get_type : (heap : ℕ → ObjectType) → RtValue → ObjectType
unfolding unbox_ptr
get_type heap v =
    if ltb v tag_double_start
    then double_type
    else if v / 2 ^ 48 == tag_ptr / 2 ^ 48
    then heap (unbox_ptr v)
    else tagged_type (v / 2 ^ 48 % 16)
