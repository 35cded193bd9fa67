-- ===== src/Numbers/Long.antt =====
-- The native methods of Am.Lang.Long: src/native-c/libc/Am/Lang/Long.c, without the two that give
-- floating-point numbers.
use am_lang_core.Base.{
  ℕ, ◌+◌, ◌-◌, ◌*◌, ◌/◌, ◌%◌, ◌^◌, bit_xor, Bool, ◌||◌, List, [], ◌∷◌, ◌==◌, if◌then◌else◌,
}
use am_lang_core.Values.{Endian, Field, load, sext, NullableValue, give}
use am_lang_core.Text.Hash.{c_str}
use am_lang_core.Text.Holder.{StringHolder}
use am_lang_core.Numbers.{NumberString, number_string, decimal_signed, sign, is_digit}

-- `sprintf` into a buffer of 21 bytes.
unfoldable pub to_string : Endian → NullableValue → NumberString
to_string e v = number_string 21 (decimal_signed 64 (load e Field.long_value v.value))

-- `v >> 32` of a negative number brings in ones; as the low 32 bits of it, that is the high half.
shift_right_32 : ℕ → ℕ
shift_right_32 x = sext 32 (x / 2 ^ 32)

-- The two halves are combined and stored as an `int`.
unfoldable pub hash : Endian → NullableValue → NullableValue
unfolding give load shift_right_32 sext
hash e v =
    let x = load e Field.long_value v.value in
    give e Field.int_value (bit_xor (x % 2 ^ 32) (shift_right_32 x))

unfoldable pub to_short : Endian → ℕ → NullableValue
unfolding give
to_short e x = give e Field.short_value x

unfoldable pub to_int : Endian → ℕ → NullableValue
unfolding give
to_int e x = give e Field.int_value x

unfoldable pub to_byte : Endian → ℕ → NullableValue
unfolding give
to_byte e x = give e Field.char_value x

unfoldable pub to_ubyte : Endian → ℕ → NullableValue
unfolding give
to_ubyte e x = give e Field.uchar_value x

unfoldable pub to_ushort : Endian → ℕ → NullableValue
unfolding give
to_ushort e x = give e Field.ushort_value x

unfoldable pub to_uint : Endian → ℕ → NullableValue
unfolding give
to_uint e x = give e Field.uint_value x

unfoldable pub to_ulong : Endian → ℕ → NullableValue
unfolding give
to_ulong e x = give e Field.ulong_value x

unfoldable pub to_bool : Endian → ℕ → NullableValue
unfolding give
to_bool e x = give e Field.bool_value (if x == 0 then 0 else 1)

-- The loops of `parse`. The accumulation wraps at 64 bits.
unfoldable pub is_blank : ℕ → Bool
is_blank c = c == b' ' || c == 9 || c == 10 || c == 13

unfoldable pub skip_blank : List ℕ → List ℕ
unfolding is_blank
skip_blank [] = []
skip_blank (c ∷ cs) = if is_blank c then skip_blank cs else c ∷ cs

-- The digits, in 64 bits. ULong counts in an unsigned number, which wraps; in the signed one of Long an
-- overflow is undefined in C, and stands here as the wrap.
unfoldable pub digits_loop : ℕ → List ℕ → ℕ
digits_loop result [] = result
digits_loop result (c ∷ cs) =
    if is_digit c then digits_loop ((result * 10 + (c - b'0')) % 2 ^ 64) cs else result

unfoldable pub parse : Endian → StringHolder → NullableValue
parse e s =
    let (negative, digits) = sign (skip_blank (c_str s.string_value)) in
    let result = digits_loop 0 digits in
    give e Field.long_value (if negative then (2 ^ 64 - result) % 2 ^ 64 else result)
