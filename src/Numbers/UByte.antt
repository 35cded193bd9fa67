-- ===== src/Numbers/UByte.antt =====
-- The native methods of Am.Lang.UByte: src/native-c/libc/Am/Lang/UByte.c, without the two that give
-- floating-point numbers.
use am_lang_core.Base.{ℕ, ◌==◌, if◌then◌else◌}
use am_lang_core.Values.{Endian, Field, load, NullableValue, give}
use am_lang_core.Text.Hash.{c_str}
use am_lang_core.Text.Holder.{StringHolder}
use am_lang_core.Numbers.{NumberString, number_string, decimal, strtoul}

-- `sprintf` into a buffer of 4 bytes.
unfoldable pub to_string : Endian → NullableValue → NumberString
to_string e v = number_string 4 (decimal (load e Field.uchar_value v.value))

unfoldable pub hash : Endian → NullableValue → NullableValue
unfolding give load
hash e v = give e Field.int_value (load e Field.uchar_value v.value)

unfoldable pub to_short : Endian → ℕ → NullableValue
unfolding give
to_short e x = give e Field.short_value x

unfoldable pub to_int : Endian → ℕ → NullableValue
unfolding give
to_int e x = give e Field.int_value x

unfoldable pub to_long : Endian → ℕ → NullableValue
unfolding give
to_long e x = give e Field.long_value x

unfoldable pub to_byte : Endian → ℕ → NullableValue
unfolding give
to_byte e x = give e Field.uchar_value x

unfoldable pub to_ushort : Endian → ℕ → NullableValue
unfolding give
to_ushort e x = give e Field.ushort_value x

unfoldable pub to_uint : Endian → ℕ → NullableValue
unfolding give
to_uint e x = give e Field.uint_value x

unfoldable pub to_ulong : Endian → ℕ → NullableValue
unfolding give
to_ulong e x = give e Field.ulong_value x

unfoldable pub to_bool : Endian → ℕ → NullableValue
unfolding give
to_bool e x = give e Field.bool_value (if x == 0 then 0 else 1)

unfoldable pub parse : Endian → StringHolder → NullableValue
parse e s = give e Field.uchar_value (strtoul (c_str s.string_value))
