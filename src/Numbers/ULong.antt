-- ===== src/Numbers/ULong.antt =====
-- The native methods of Am.Lang.ULong: src/native-c/libc/Am/Lang/ULong.c, without the two that give
-- floating-point numbers.
use am_lang_core.Base.{ℕ, ◌/◌, ◌%◌, ◌^◌, bit_xor, List, [], ◌∷◌, ◌==◌, if◌then◌else◌}
use am_lang_core.Values.{Endian, Field, load, NullableValue, give}
use am_lang_core.Text.Hash.{c_str}
use am_lang_core.Text.Holder.{StringHolder}
use am_lang_core.Numbers.{NumberString, number_string, decimal}
use am_lang_core.Numbers.Long.{skip_blank, digits_loop}

-- `sprintf` into a buffer of 20 bytes.
unfoldable pub to_string : Endian → NullableValue → NumberString
to_string e v = number_string 20 (decimal (load e Field.ulong_value v.value))

-- The two halves are combined and stored as an `int`.
unfoldable pub hash : Endian → NullableValue → NullableValue
unfolding give load
hash e v =
    let x = load e Field.ulong_value v.value in
    give e Field.int_value (bit_xor (x % 2 ^ 32) (x / 2 ^ 32))

unfoldable pub to_byte : Endian → ℕ → NullableValue
unfolding give
to_byte e x = give e Field.char_value x

unfoldable pub to_short : Endian → ℕ → NullableValue
unfolding give
to_short e x = give e Field.short_value x

unfoldable pub to_int : Endian → ℕ → NullableValue
unfolding give
to_int e x = give e Field.int_value x

unfoldable pub to_long : Endian → ℕ → NullableValue
unfolding give
to_long e x = give e Field.long_value x

unfoldable pub to_ubyte : Endian → ℕ → NullableValue
unfolding give
to_ubyte e x = give e Field.uchar_value x

unfoldable pub to_ushort : Endian → ℕ → NullableValue
unfolding give
to_ushort e x = give e Field.ushort_value x

unfoldable pub to_uint : Endian → ℕ → NullableValue
unfolding give
to_uint e x = give e Field.uint_value x

unfoldable pub to_bool : Endian → ℕ → NullableValue
unfolding give
to_bool e x = give e Field.bool_value (if x == 0 then 0 else 1)

-- A plus sign is passed over; a minus sign ends the number.
unfoldable pub plus : List ℕ → List ℕ
plus [] = []
plus (c ∷ cs) = if c == b'+' then cs else c ∷ cs

unfoldable pub parse : Endian → StringHolder → NullableValue
parse e s = give e Field.ulong_value (digits_loop 0 (plus (skip_blank (c_str s.string_value))))
