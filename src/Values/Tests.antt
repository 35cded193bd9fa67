-- ===== src/Values/Tests.antt =====
-- Runs of the tagged values, and their theorems at concrete inputs.
use am_lang_core.Base.{ℕ, ◌-◌, ◌*◌, ◌^◌, Bool, ◌≡◌, refl, true, false, some, arith}
use am_lang_core.Values.{
  Endian, load, sext, NullableValue, Ctype, is_primitive_nullable, is_primitive_null,
  set_primitive_nullable, set_primitive_null, value_flags_to_ctype, ctype_flags,
}
use am_lang_core.Values.Equality.{any_equals}
use am_lang_core.Values.Coerce.{long_of, value_of_long, coerce_primitive}
use am_lang_core.Values.Laws.{
  flags_round_trip, any_equals_refl, any_equals_mixed_kinds, coerce_primitive_lem,
}

abbrev never : ℕ → ℕ → Bool
never p q = false

abbrev int_five : NullableValue
int_five = record { flags = 160; value = 5 }

abbrev long_minus : NullableValue
long_minus = record { flags = 176; value = 2 ^ 64 - 200 }

flags_round_trip_example :
    (value_flags_to_ctype
        (set_primitive_null
          (set_primitive_nullable (record { flags = ctype_flags Ctype.uint_type; value = 7 }) true)
          false).flags
      ≡ Ctype.uint_type)
    × (is_primitive_nullable (
          set_primitive_null
            (set_primitive_nullable
              (record { flags = ctype_flags Ctype.uint_type; value = 7 })
              true)
            false)
        ≡ true)
    × (is_primitive_null (
          set_primitive_null
            (set_primitive_nullable
              (record { flags = ctype_flags Ctype.uint_type; value = 7 })
              true)
            false)
        ≡ false)
flags_round_trip_example = flags_round_trip Ctype.uint_type 7 true false refl

any_equals_refl_example : any_equals never Endian.big int_five int_five ≡ true
any_equals_refl_example = any_equals_refl never Endian.big int_five

any_equals_mixed_kinds_example :
    (any_equals never Endian.little
        (record { flags = 129; value = 1 })
        (record { flags = 161; value = 257 })
      ≡ true)
    × (any_equals never Endian.little
          (record { flags = 161; value = 257 })
          (record { flags = 129; value = 1 })
        ≡ false)
any_equals_mixed_kinds_example =
    any_equals_mixed_kinds never 1 257 (omega arith) (omega arith) (omega arith) (omega arith)

coerce_primitive_example :
    (value_flags_to_ctype (coerce_primitive Endian.big long_minus Ctype.char_type).flags
      ≡ Ctype.char_type)
    × (long_of Endian.big
          (coerce_primitive Endian.big long_minus Ctype.char_type).value
          Ctype.char_type
        ≡ some 56)
unfolding long_of load is_primitive_null value_flags_to_ctype sext
coerce_primitive_example =
    coerce_primitive_lem Endian.big long_minus Ctype.char_type (2 ^ 64 - 200) refl refl refl

-- An int is an int again after a trip through a long.
coerce_back :
    coerce_primitive Endian.big
      (coerce_primitive Endian.big
        (record { flags = 160; value = (2 ^ 32 - 3) * 2 ^ 32 })
        Ctype.long_type)
      Ctype.int_type
    ≡ record { flags = 160; value = (2 ^ 32 - 3) * 2 ^ 32 }
unfolding coerce_primitive is_primitive_null value_flags_to_ctype long_of value_of_long ctype_flags
coerce_back = refl
