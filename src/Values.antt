-- ===== src/Values.antt =====
-- Tagged values: src/native-c/libc/core.h (`union _value`, `struct _nullable_value`, the `PRIMITIVE_*`
-- flags, `enum _ctype`) and the flag helpers of src/native-c/libc/core_inline_functions.h. The union is its
-- eight bytes, as one number: a member is stored at the low end of it on a little-endian host and at the
-- high end on a big-endian one, the bytes beside it zero. Builds without FEATURE_FLOATING_POINT.
pub mod Equality
pub mod Coerce
pub mod Laws
mod Tests
use am_lang_core.Base.{
  ℕ, ◌+◌, ◌-◌, ◌*◌, ◌/◌, ◌%◌, ◌^◌, Bool, true, false, not, ltb, ◌==◌, if◌then◌else◌,
}

pub data Endian : Type 0 where
  little big : Endian

-- The members of `union _value` that a build without floating point has.
pub data Field : Type 0 where
  object_value custom_value long_value ulong_value int_value uint_value : Field
  short_value ushort_value char_value uchar_value bool_value : Field

abbrev pub bits : Field → ℕ
bits Field.object_value = 64
bits Field.custom_value = 64
bits Field.long_value = 64
bits Field.ulong_value = 64
bits Field.int_value = 32
bits Field.uint_value = 32
bits Field.short_value = 16
bits Field.ushort_value = 16
bits Field.char_value = 8
bits Field.uchar_value = 8
bits Field.bool_value = 8

-- `{ .f = x }`: the conversion to the member's type keeps the low bits.
unfoldable pub store : Endian → Field → ℕ → ℕ
store Endian.little f x = x % 2 ^ bits f
store Endian.big f x = x % 2 ^ bits f * 2 ^ (64 - bits f)

-- `v.f`: the bit pattern of the member.
unfoldable pub load : Endian → Field → ℕ → ℕ
load Endian.little f p = p % 2 ^ bits f
load Endian.big f p = p / 2 ^ (64 - bits f) % 2 ^ bits f

-- A `w`-bit pattern of a signed type, widened to 64 bits.
unfoldable pub sext : ℕ → ℕ → ℕ
sext w x = if ltb x (2 ^ (w - 1)) then x else x + (2 ^ 64 - 2 ^ w)

pub record NullableValue : Type 0 where
  pub flags : ℕ  -- unsigned short
  pub value : ℕ

-- `(nullable_value) { .value = { .f = x }, .flags = 0 }`
unfoldable pub give : Endian → Field → ℕ → NullableValue
unfolding store
give e f x = record { flags = 0; value = store e f x }

-- `enum _ctype`, in its order.
pub data Ctype : Type 0 where
  object_type long_type int_type short_type char_type ulong_type uint_type : Ctype
  ushort_type uchar_type float_type double_type bool_type any_type void_type : Ctype

abbrev pub ctype_code : Ctype → ℕ
ctype_code Ctype.object_type = 0
ctype_code Ctype.long_type = 1
ctype_code Ctype.int_type = 2
ctype_code Ctype.short_type = 3
ctype_code Ctype.char_type = 4
ctype_code Ctype.ulong_type = 5
ctype_code Ctype.uint_type = 6
ctype_code Ctype.ushort_type = 7
ctype_code Ctype.uchar_type = 8
ctype_code Ctype.float_type = 9
ctype_code Ctype.double_type = 10
ctype_code Ctype.bool_type = 11
ctype_code Ctype.any_type = 12
ctype_code Ctype.void_type = 13

abbrev pub ctype_eq : Ctype → Ctype → Bool
ctype_eq s t = ctype_code s == ctype_code t

-- `flags & PRIMITIVE_NULLABLE`, `flags & PRIMITIVE_NULL`, `flags != 0`
unfoldable pub is_primitive_nullable : NullableValue → Bool
is_primitive_nullable v = v.flags % 2 == 1

unfoldable pub is_primitive_null : NullableValue → Bool
is_primitive_null v = v.flags / 2 % 2 == 1

unfoldable pub is_primitive : NullableValue → Bool
is_primitive v = not (v.flags == 0)

-- The setters go through an `unsigned char`: they clear one bit of the low byte and set it again.
unfoldable pub set_primitive_nullable : NullableValue → Bool → NullableValue
set_primitive_nullable v b = record v { flags = v.flags % 256 - v.flags % 2 + (if b then 1 else 0) }

unfoldable pub set_primitive_null : NullableValue → Bool → NullableValue
set_primitive_null v b = record v {
  flags = v.flags % 256 - v.flags / 2 % 2 * 2 + (if b then 2 else 0);
}

-- The `switch` on `flags & 0b11111100`, the argument an `unsigned char`.
unfoldable pub ctype_of_stripped : ℕ → Ctype
ctype_of_stripped s =
    if s == 192
    then Ctype.bool_type
    else if s == 176
    then Ctype.long_type
    else if s == 160
    then Ctype.int_type
    else if s == 144
    then Ctype.short_type
    else if s == 128
    then Ctype.char_type
    else if s == 180
    then Ctype.ulong_type
    else if s == 164
    then Ctype.uint_type
    else if s == 148
    then Ctype.ushort_type
    else if s == 132
    then Ctype.uchar_type
    else Ctype.object_type

unfoldable pub value_flags_to_ctype : ℕ → Ctype
unfolding ctype_of_stripped
value_flags_to_ctype flags = ctype_of_stripped (flags % 256 / 4 * 4)

-- `__amlc_ctype_flags` of src/native-c/libc/Am/Lang/ClassRef.c
unfoldable pub ctype_flags : Ctype → ℕ
ctype_flags Ctype.int_type = 160
ctype_flags Ctype.long_type = 176
ctype_flags Ctype.short_type = 144
ctype_flags Ctype.char_type = 128
ctype_flags Ctype.uint_type = 164
ctype_flags Ctype.ulong_type = 180
ctype_flags Ctype.ushort_type = 148
ctype_flags Ctype.uchar_type = 132
ctype_flags Ctype.bool_type = 192
ctype_flags _ = 0
