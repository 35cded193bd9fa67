-- ===== src/Values/Equality.antt =====
-- `__any_null`, `primitive_or_object_equals` and `__any_equals` of src/native-c/libc/core.c.
-- `object_equals` stands for the dispatch to the program's own `equals` methods; the null pointer
-- is 0.
use am_lang_core.Base.{ℕ, Bool, true, false, not, ◌&&◌, ◌==◌, if◌then◌else◌}
use am_lang_core.Values.{
  Endian, Field, load, NullableValue, Ctype, ctype_eq, is_primitive_nullable, is_primitive_null,
  value_flags_to_ctype,
}

-- The `switch` of `__any_null`: a primitive without the nullable flag is never null.
null_at : Endian → ℕ → Ctype → Bool
unfolding load
null_at e v Ctype.char_type = false
null_at e v Ctype.short_type = false
null_at e v Ctype.int_type = false
null_at e v Ctype.long_type = false
null_at e v Ctype.bool_type = false
null_at e v Ctype.uchar_type = false
null_at e v Ctype.ushort_type = false
null_at e v Ctype.uint_type = false
null_at e v Ctype.ulong_type = false
null_at e v _ = load e Field.object_value v == 0

unfoldable pub any_null : Endian → NullableValue → Bool
unfolding null_at is_primitive_nullable is_primitive_null value_flags_to_ctype
any_null e a =
    if is_primitive_nullable a
    then is_primitive_null a
    else null_at e a.value (value_flags_to_ctype a.flags)

-- Equality of one member of the union.
same : Endian → Field → ℕ → ℕ → Bool
unfolding load
same e f a b = load e f a == load e f b

module _ (object_equals : ℕ → ℕ → Bool) where
  -- The pointer test, the test for two non-null objects, and the rest.
  objects_equal : ℕ → ℕ → Bool
  objects_equal p q =
      if p == q then true else if not (p == 0) && not (q == 0) then object_equals p q else false

  unfoldable pub primitive_or_object_equals : Endian → ℕ → ℕ → Ctype → Bool
  unfolding same objects_equal load
  primitive_or_object_equals e a b Ctype.bool_type = same e Field.bool_value a b
  primitive_or_object_equals e a b Ctype.char_type = same e Field.char_value a b
  primitive_or_object_equals e a b Ctype.short_type = same e Field.short_value a b
  primitive_or_object_equals e a b Ctype.int_type = same e Field.int_value a b
  primitive_or_object_equals e a b Ctype.long_type = same e Field.long_value a b
  primitive_or_object_equals e a b Ctype.uchar_type = same e Field.uchar_value a b
  primitive_or_object_equals e a b Ctype.ushort_type = same e Field.ushort_value a b
  primitive_or_object_equals e a b Ctype.uint_type = same e Field.uint_value a b
  primitive_or_object_equals e a b Ctype.ulong_type = same e Field.ulong_value a b
  primitive_or_object_equals e a b _ =
      objects_equal (load e Field.object_value a) (load e Field.object_value b)

  unfoldable pub any_equals : Endian → NullableValue → NullableValue → Bool
  unfolding primitive_or_object_equals is_primitive_nullable is_primitive_null value_flags_to_ctype
  any_equals e a b =
      if is_primitive_nullable a
      then (if is_primitive_nullable b
          then (if is_primitive_null a
              then is_primitive_null b
              else if is_primitive_null b
              then false
              else primitive_or_object_equals e a.value b.value (value_flags_to_ctype a.flags))
          else false)
      else if is_primitive_nullable b
      then false
      else if ctype_eq (value_flags_to_ctype a.flags) (value_flags_to_ctype b.flags)
      then primitive_or_object_equals e a.value b.value (value_flags_to_ctype a.flags)
      else false
