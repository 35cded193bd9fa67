-- ===== src/Values/Coerce.antt =====
-- `__amlc_coerce_primitive` of src/native-c/libc/Am/Lang/ClassRef.c: a reflective write converts a
-- primitive to the declared kind of its slot.
use am_lang_core.Base.{ℕ, ◌||◌, Option, none, some, ◌==◌, if◌then◌else◌}
use am_lang_core.Values.{
  Endian, Field, store, load, sext, NullableValue, Ctype, ctype_eq, is_primitive_null,
  value_flags_to_ctype, ctype_flags,
}

-- The first `switch`: the value as a `long long`, `none` for the kinds that return `v` unchanged.
unfoldable pub long_of : Endian → ℕ → Ctype → Option ℕ
unfolding load sext
long_of e v Ctype.int_type = some (sext 32 (load e Field.int_value v))
long_of e v Ctype.long_type = some (load e Field.long_value v)
long_of e v Ctype.short_type = some (sext 16 (load e Field.short_value v))
long_of e v Ctype.char_type = some (sext 8 (load e Field.char_value v))
long_of e v Ctype.uint_type = some (load e Field.uint_value v)
long_of e v Ctype.ulong_type = some (load e Field.ulong_value v)
long_of e v Ctype.ushort_type = some (load e Field.ushort_value v)
long_of e v Ctype.uchar_type = some (load e Field.uchar_value v)
long_of e v Ctype.bool_type = some (if load e Field.bool_value v == 0 then 0 else 1)
long_of e v _ = none

-- The second `switch`: the member that is written, `none` for the kinds that return `v`.
unfoldable pub value_of_long : Endian → ℕ → Ctype → Option ℕ
unfolding store
value_of_long e l Ctype.int_type = some (store e Field.int_value l)
value_of_long e l Ctype.long_type = some (store e Field.long_value l)
value_of_long e l Ctype.short_type = some (store e Field.short_value l)
value_of_long e l Ctype.char_type = some (store e Field.char_value l)
value_of_long e l Ctype.uint_type = some (store e Field.uint_value l)
value_of_long e l Ctype.ulong_type = some (store e Field.ulong_value l)
value_of_long e l Ctype.ushort_type = some (store e Field.ushort_value l)
value_of_long e l Ctype.uchar_type = some (store e Field.uchar_value l)
value_of_long e l Ctype.bool_type = some (store e Field.bool_value (if l == 0 then 0 else 1))
value_of_long e l _ = none

convert : Endian → NullableValue → Ctype → Option ℕ → NullableValue
convert e v target none = v
convert e v target (some l) = elim (value_of_long e l target) [
  | none ↦ v
  | some x ↦ record { flags = ctype_flags target; value = x }
]

-- `v.flags == 0` and the null flag come first; then a value of the right kind stays as it is.
unfoldable pub coerce_primitive : Endian → NullableValue → Ctype → NullableValue
unfolding convert
coerce_primitive e v target =
    if v.flags == 0
      || is_primitive_null v
      || ctype_eq target Ctype.object_type
      || ctype_eq target Ctype.any_type
    then v
    else if ctype_eq (value_flags_to_ctype v.flags) target
    then v
    else convert e v target (long_of e v.value (value_flags_to_ctype v.flags))
