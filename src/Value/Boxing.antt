-- ===== src/Value/Boxing.antt =====
-- Boxing against unboxing, and the tests of the tags (backend/runtime/RTValue.h).
use clojure_rt.Base.{
  ℕ, ◌+◌, ◌*◌, ◌/◌, ◌%◌, ◌^◌, ◌<◌, ◌≤◌, ◌≡◌, refl, Bool, true, false, ltb, ◌==◌, arith,
  if◌then◌else◌, le→ltb_false, ◌≢◌, ◌↔◌, ℤ, IsInt32, to_int32-IsInt32, to_uint32,
  to_int32-to_uint32, to_uint32-lt,
}
use Prim.Native.Nat.{bit_or}
use clojure_rt.Value.{
  RtValue, tagged_type, tag_double_start, tag_int32, tag_ptr, tag_bool, tag_keyword, or_tag,
  is_double, is_int32, is_ptr, is_bool, is_keyword, is_truthy, box_ptr, is_nan, box_double,
  box_int32, box_bool, box_nil, box_keyword, unbox_double, unbox_int32, unbox_ptr, unbox_bool,
  unbox_keyword, ObjectType, double_type, keyword_type, boolean_type, integer_type, get_type,
}

-- What the five tests of the tags say of a value: double, int32, pointer, boolean, keyword.
pub record Kinds (v : RtValue) (d i p b k : Bool) : Type 0 where
  pub double : is_double v ≡ d
  pub int32 : is_int32 v ≡ i
  pub ptr : is_ptr v ≡ p
  pub bool : is_bool v ≡ b
  pub keyword : is_keyword v ≡ k

-- A tag above data of 48 bits is a sum.
or_tag-eq-add :
    (x tag : ℕ)
    → x < 2 ^ 48
    → bit_or 0 (tag / 2 ^ 48) ≡ tag / 2 ^ 48
    → or_tag x tag ≡ tag / 2 ^ 48 * 2 ^ 48 + x
or_tag-eq-add x tag h e =
    let z : x / 2 ^ 48 ≡ 0 = omega arith in let r : x % 2 ^ 48 ≡ x = omega arith in rw (z, e, r)

module _ (x : ℕ) (h : x < 2 ^ 48) where
  int32-Kinds : Kinds (tag_int32 + x) false true false false false
  unfolding is_double is_int32 is_ptr is_bool is_keyword
  int32-Kinds = ground arith

  ptr-Kinds : Kinds (tag_ptr + x) false false true false false
  unfolding is_double is_int32 is_ptr is_bool is_keyword
  ptr-Kinds = ground arith

  bool-Kinds : Kinds (tag_bool + x) false false false true false
  unfolding is_double is_int32 is_ptr is_bool is_keyword
  bool-Kinds = ground arith

  keyword-Kinds : Kinds (tag_keyword + x) false false false false true
  unfolding is_double is_int32 is_ptr is_bool is_keyword
  keyword-Kinds = ground arith

-- The dispatch on the type reads the 16 tag bits alone.
module _ (heap : ℕ → ObjectType) (v tag : ℕ) (e : v / 2 ^ 48 ≡ tag) where
  get_type-tagged : 0xFFF1 ≤ tag → tag ≢ 0xFFFE → get_type heap v ≡ tagged_type (tag % 16)
  unfolding get_type
  get_type-tagged h ne =
      let big : ltb v tag_double_start ≡ false = le→ltb_false v tag_double_start (omega arith) in
      let other : (tag == 0xFFFE) ≡ false = ground arith in rw (big, e, other)

-- For an `int32_t`, negative ones included: unboxing the boxed value gives it back, the value is seen
-- as an int32 and as nothing else, and its type is the integer type.
pub unbox_int32-box_int32 :
    (heap : ℕ → ObjectType) (i : ℤ)
    → IsInt32 i
    → (unbox_int32 (box_int32 i) ≡ i)
      × Kinds (box_int32 i) false true false false false
      × (get_type heap (box_int32 i) ≡ integer_type)
unfolding box_int32 unbox_int32
unbox_int32-box_int32 heap i h =
    let u = to_uint32-lt i in
    let low : (tag_int32 + to_uint32 i) % 2 ^ 32 ≡ to_uint32 i = omega arith in
    rw (or_tag-eq-add (to_uint32 i) tag_int32 (omega arith) refl) (
      rw low (to_int32-to_uint32 i h),
      int32-Kinds (to_uint32 i) (omega arith),
      get_type-tagged heap (tag_int32 + to_uint32 i) 0xFFFF (omega arith) (omega arith)
          (omega arith),
    )

-- For an address of at most 48 bits: unboxing gives it back, the value is seen as a pointer and as
-- nothing else, and its type is that of the object at the address.
pub unbox_ptr-box_ptr :
    (heap : ℕ → ObjectType) (p : ℕ)
    → p < 2 ^ 48
    → (unbox_ptr (box_ptr p) ≡ p)
      × Kinds (box_ptr p) false false true false false
      × (get_type heap (box_ptr p) ≡ heap p)
unfolding box_ptr unbox_ptr get_type
unbox_ptr-box_ptr heap p h =
    let low : (tag_ptr + p) % 2 ^ 48 ≡ p = omega arith in
    let high : (tag_ptr + p) / 2 ^ 48 ≡ 0xFFFE = omega arith in
    let big : ltb (tag_ptr + p) tag_double_start ≡ false = ground arith in
    rw (or_tag-eq-add p tag_ptr h refl) (low, ptr-Kinds p h, rw (big, high, low))

-- A boolean comes back from its box, is seen as a boolean and as nothing else, has the boolean type,
-- and is truthy exactly when it is true.
pub unbox_bool-box_bool :
    (heap : ℕ → ObjectType) (b : Bool)
    → (unbox_bool (box_bool b) ≡ b)
      × Kinds (box_bool b) false false false true false
      × (get_type heap (box_bool b) ≡ boolean_type)
      × (is_truthy (box_bool b) ≡ b)
unfolding box_bool unbox_bool get_type is_truthy
unbox_bool-box_bool heap true = (refl, bool-Kinds 1 (omega arith), refl, refl)
unbox_bool-box_bool heap false = (refl, bool-Kinds 0 (omega arith), refl, refl)

-- For a keyword's number of 32 bits: unboxing gives it back, the value is seen as a keyword and as
-- nothing else, and its type is the keyword type.
pub unbox_keyword-box_keyword :
    (heap : ℕ → ObjectType) (k : ℕ)
    → k < 2 ^ 32
    → (unbox_keyword (box_keyword k) ≡ k)
      × Kinds (box_keyword k) false false false false true
      × (get_type heap (box_keyword k) ≡ keyword_type)
unfolding box_keyword unbox_keyword
unbox_keyword-box_keyword heap k h =
    let low : (tag_keyword + k) % 2 ^ 32 ≡ k = omega arith in
    rw (or_tag-eq-add k tag_keyword (omega arith) refl) (
      low,
      keyword-Kinds k (omega arith),
      get_type-tagged heap (tag_keyword + k) 0xFFFB (omega arith) (omega arith) (omega arith),
    )

-- For the 64 bits of any double, NaNs of either sign and infinities included: the boxed value is seen
-- as a double and as nothing else, has the double type, and unboxes to the same bits unless the
-- double is a NaN, which becomes the canonical NaN.
pub unbox_double-box_double :
    (heap : ℕ → ObjectType) (d : ℕ)
    → d < 2 ^ 64
    → (unbox_double (box_double d) ≡ (if is_nan d then 0x7FF8000000000000 else d))
      × Kinds (box_double d) true false false false false
      × (get_type heap (box_double d) ≡ double_type)
unfolding box_double unbox_double get_type is_double is_int32 is_ptr is_bool is_keyword
unbox_double-box_double heap d h = (refl, ground arith, ground arith)

-- A value whose data is 0 or 1 if it is a boolean is truthy exactly when it is neither nil nor the
-- boxed `false`.
pub is_truthy_iff :
    (v : RtValue)
    → v < 2 ^ 64
    → (is_bool v ≡ true → v % 2 ^ 48 < 2)
    → (is_truthy v ≡ true) ↔ ((v ≢ box_nil) × (v ≢ box_bool false))
unfolding is_truthy is_bool box_bool
is_truthy_iff v h d = ground arith

pub unbox_int32-IsInt32 : (v : RtValue) → IsInt32 (unbox_int32 v)
unfolding unbox_int32
unbox_int32-IsInt32 v = to_int32-IsInt32 (v % 2 ^ 32)

-- For an `int32_t`, a boolean, a keyword's number of 32 bits, the 64 bits of a double and an address of at most 48 bits: `getType` of
-- each in its box is the type of what was boxed, and for the address that of the object there.
pub get_type-boxed :
    (heap : ℕ → ObjectType) (i : ℤ) (b : Bool) (k d p : ℕ)
    → IsInt32 i
    → k < 2 ^ 32
    → d < 2 ^ 64
    → p < 2 ^ 48
    → (get_type heap (box_int32 i) ≡ integer_type)
      × (get_type heap (box_bool b) ≡ boolean_type)
      × (get_type heap (box_keyword k) ≡ keyword_type)
      × (get_type heap (box_double d) ≡ double_type)
      × (get_type heap (box_ptr p) ≡ heap p)
get_type-boxed heap i b k d p hi hk hd hp = (
  (unbox_int32-box_int32 heap i hi).2,
  (unbox_bool-box_bool heap b).2,
  (unbox_keyword-box_keyword heap k hk).2,
  (unbox_double-box_double heap d hd).2,
  (unbox_ptr-box_ptr heap p hp).2,
)
