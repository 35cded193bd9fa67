-- ===== src/Numbers/Short.antt =====
-- The native methods of Am.Lang.Short: src/native-c/libc/Am/Lang/Short.c, without the two that give
-- floating-point numbers.
use am_lang_core.Base.{ℕ, ◌==◌, if◌then◌else◌}
use am_lang_core.Values.{Endian, Field, load, sext, NullableValue, give}
use am_lang_core.Text.Hash.{c_str}
use am_lang_core.Text.Holder.{StringHolder}
use am_lang_core.Numbers.{NumberString, number_string, decimal_signed, strtol}

-- `sprintf` into a buffer of 7 bytes.
unfoldable pub to_string : Endian → NullableValue → NumberString
to_string e v = number_string 7 (decimal_signed 16 (load e Field.short_value v.value))

unfoldable pub hash : Endian → NullableValue → NullableValue
unfolding give load sext
hash e v = give e Field.int_value (sext 16 (load e Field.short_value v.value))

unfoldable pub to_byte : Endian → ℕ → NullableValue
unfolding give sext
to_byte e x = give e Field.char_value (sext 16 x)

unfoldable pub to_int : Endian → ℕ → NullableValue
unfolding give sext
to_int e x = give e Field.int_value (sext 16 x)

unfoldable pub to_long : Endian → ℕ → NullableValue
unfolding give sext
to_long e x = give e Field.long_value (sext 16 x)

unfoldable pub to_ubyte : Endian → ℕ → NullableValue
unfolding give sext
to_ubyte e x = give e Field.uchar_value (sext 16 x)

unfoldable pub to_ushort : Endian → ℕ → NullableValue
unfolding give sext
to_ushort e x = give e Field.ushort_value (sext 16 x)

unfoldable pub to_uint : Endian → ℕ → NullableValue
unfolding give sext
to_uint e x = give e Field.uint_value (sext 16 x)

unfoldable pub to_ulong : Endian → ℕ → NullableValue
unfolding give sext
to_ulong e x = give e Field.ulong_value (sext 16 x)

unfoldable pub to_bool : Endian → ℕ → NullableValue
unfolding give
to_bool e x = give e Field.bool_value (if x == 0 then 0 else 1)

unfoldable pub parse : Endian → StringHolder → NullableValue
parse e s = give e Field.short_value (strtol (c_str s.string_value))
