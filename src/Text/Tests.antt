-- ===== src/Text/Tests.antt =====
-- Runs of the strings, and their theorems at concrete inputs.
use am_lang_core.Base.{
  ◌≤◌, ℕ, suc, ◌+◌, ◌<◌, ◌^◌, ◌≡◌, ◌≢◌, ◌↔◌, refl, inl, true, false, Option, none, some, List, [],
  ◌∷◌, ◌++◌, arith, length, leb, get_or, replicate, if◌then◌else◌,
}
use am_lang_core.Text.Utf8.{decoded, utf8_decode, utf8_utf16_length}
use am_lang_core.Text.Utf8.Bounds.{IsSound, utf8_decode-IsSound}
use am_lang_core.Text.Utf8.Encode.{utf8_encode, decode-encode}
use am_lang_core.Text.Utf8.Slice.{piece}
use am_lang_core.Text.Utf8.Steps.{Steps, here, next, total_units, utf16_length-Steps}
use am_lang_core.Text.Hash.{c_str}
use am_lang_core.Text.Holder.{
  StringHolder, holder_of, hash_and_units, byte_index, string_wide, string_unit_to_byte,
  string_byte_to_unit,
}
use am_lang_core.Text.Holder.View.{IsHolder, utf16_all, string_wide-utf16}
use am_lang_core.Text.Holder.Positions.{positions_inverse, split_character}
use am_lang_core.Text.Methods.{
  value, thrown, index_out_of_bounds, inside_character, string, equals, from_bytes, to_bytes,
  character_at_native, get_chars, substring, native_copy, concatenate_strings, index_of,
  last_index_of,
}
use am_lang_core.Text.Methods.Indexing.{character_at-utf16, get_chars-utf16, fast_malformed}
use am_lang_core.Text.Methods.Equality.{equals_iff}
use am_lang_core.Text.Methods.Building.{
  holder_of-IsHolder, Joins, concatenate-Joins, to_bytes-from_bytes, from_bytes_zero, SameString,
  native_copy-SameString, argument, null_argument, nothing,
}
use am_lang_core.Text.Methods.Slicing.{substring_between, substring_inside_character}

-- An e with an acute accent, an emoji outside the basic plane, and an x.
abbrev mixed_bytes : List ℕ
mixed_bytes = 0xc3 ∷ 0xa9 ∷ 0xf0 ∷ 0x9f ∷ 0x98 ∷ 0x80 ∷ 0x78 ∷ []

abbrev mixed : StringHolder
mixed = holder_of false mixed_bytes 7

abbrev tail_bytes : List ℕ
tail_bytes = 0x78 ∷ 0x79 ∷ []

abbrev tail : StringHolder
tail = holder_of true tail_bytes 2

-- A continuation byte that follows nothing.
abbrev stray : StringHolder
stray = holder_of false (0x78 ∷ 0x80 ∷ []) 2

mixed-IsHolder : IsHolder mixed
mixed-IsHolder = holder_of-IsHolder false mixed_bytes 7 refl

tail-IsHolder : IsHolder tail
tail-IsHolder = holder_of-IsHolder true tail_bytes 2 refl

stray-IsHolder : IsHolder stray
stray-IsHolder = holder_of-IsHolder false (0x78 ∷ 0x80 ∷ []) 2 refl

first_step : Steps mixed.string_value mixed.length 0 (0xe9 ∷ []) 2
unfolding utf8_decode holder_of
first_step = next 2 (omega arith) refl refl (here refl)

second_step : Steps mixed.string_value mixed.length 2 (0x1f600 ∷ []) 6
unfolding utf8_decode holder_of
second_step = next 4 (omega arith) refl refl (here refl)

mixed-Steps : Steps mixed.string_value mixed.length 0 (0xe9 ∷ 0x1f600 ∷ 0x78 ∷ []) mixed.length
unfolding utf8_decode holder_of
mixed-Steps =
    next 2 (omega arith) refl refl
      (next 4 (omega arith) refl refl (next 1 (omega arith) refl refl (here refl)))

stray-Steps : Steps stray.string_value stray.length 0 (0x78 ∷ 0xfffd ∷ []) stray.length
unfolding utf8_decode holder_of
stray-Steps = next 1 (omega arith) refl refl (next 1 (omega arith) refl refl (here refl))

mixed_units : mixed.char_length ≡ 4
unfolding holder_of hash_and_units utf8_utf16_length
mixed_units = refl

mixed_slow : mixed.char_length ≢ mixed.length
unfolding holder_of hash_and_units utf8_utf16_length
mixed_slow = omega arith

stray_fast : stray.char_length ≡ stray.length
unfolding holder_of hash_and_units utf8_utf16_length
stray_fast = refl

abbrev ahead : List ℕ
ahead = 0x41 ∷ []

abbrev behind : List ℕ
behind = 0x42 ∷ []

decode-encode_example :
    utf8_decode
      (ahead ++ (utf8_encode 0x20ac ++ behind))
      (length (ahead ++ (utf8_encode 0x20ac ++ behind)))
      (length ahead)
    ≡ decoded (length (utf8_encode 0x20ac)) 0x20ac
decode-encode_example =
    decode-encode ahead behind 0x20ac
      (record { in_unicode = omega arith; no_surrogate = inl (omega arith) })

utf8_decode-IsSound_example : IsSound 7 1 (utf8_decode mixed_bytes 7 1)
utf8_decode-IsSound_example = utf8_decode-IsSound mixed_bytes 7 1

utf16_length-Steps_example :
    utf8_utf16_length mixed.string_value mixed.length ≡ total_units (0xe9 ∷ 0x1f600 ∷ 0x78 ∷ [])
utf16_length-Steps_example = utf16_length-Steps mixed.string_value mixed.length mixed-Steps

string_wide-utf16_example :
    ((string_wide true mixed).0 ≡ some (utf16_all (0xe9 ∷ 0x1f600 ∷ 0x78 ∷ [])))
    × (length (utf16_all (0xe9 ∷ 0x1f600 ∷ 0x78 ∷ [])) ≡ mixed.char_length)
    × IsHolder (string_wide true mixed).1
string_wide-utf16_example =
    string_wide-utf16 mixed (0xe9 ∷ 0x1f600 ∷ 0x78 ∷ []) mixed-IsHolder mixed-Steps mixed_slow

positions_inverse_example :
    (string_unit_to_byte mixed (total_units (0xe9 ∷ [])) ≡ byte_index 2 false)
    × (string_byte_to_unit mixed 2 ≡ total_units (0xe9 ∷ []))
positions_inverse_example = positions_inverse mixed mixed-IsHolder first_step

split_character_example :
    string_unit_to_byte mixed (total_units (0xe9 ∷ []) + 1) ≡ byte_index 2 true
unfolding utf8_decode holder_of
split_character_example =
    split_character mixed mixed-IsHolder first_step (omega arith) (omega arith)

character_at-utf16_example : character_at_native false (some mixed) 2 ≡ (
    if leb mixed.char_length 2
    then thrown index_out_of_bounds
    else value (get_or (utf16_all (0xe9 ∷ 0x1f600 ∷ 0x78 ∷ [])) 2 0))
character_at-utf16_example =
    character_at-utf16 mixed (0xe9 ∷ 0x1f600 ∷ 0x78 ∷ []) mixed-IsHolder mixed-Steps false 2
      (inl mixed_slow)

get_chars-utf16_example :
    get_chars true false (some mixed) ≡ value (utf16_all (0xe9 ∷ 0x1f600 ∷ 0x78 ∷ []))
get_chars-utf16_example =
    get_chars-utf16 mixed (0xe9 ∷ 0x1f600 ∷ 0x78 ∷ []) mixed-IsHolder mixed-Steps false
      (inl mixed_slow)

fast_malformed_example :
    (character_at_native true (some stray) 1 ≡ value (get_or stray.string_value 1 0))
    × (get_or (utf16_all (0x78 ∷ 0xfffd ∷ [])) 1 0 ≡ 0xfffd)
unfolding holder_of
fast_malformed_example =
    fast_malformed stray (0x78 ∷ 0xfffd ∷ []) stray-IsHolder stray-Steps true 1 stray_fast
      (omega arith) (omega arith)

equals_iff_example :
    (equals mixed (string tail) ≡ true) ↔ (c_str mixed.string_value ≡ c_str tail.string_value)
equals_iff_example = equals_iff mixed tail mixed-IsHolder tail-IsHolder

abbrev three : List (Option StringHolder)
three = some mixed ∷ none ∷ some tail ∷ []

concatenate-Joins_example :
    (r : StringHolder) × (concatenate_strings true three ≡ some r)
    × Joins
        (c_str mixed.string_value ++ (c_str tail.string_value ++ []))
        (mixed.length + (tail.length + 0))
        r
concatenate-Joins_example =
    concatenate-Joins three (c_str mixed.string_value ++ (c_str tail.string_value ++ []))
      (mixed.length + (tail.length + 0)) (mixed-IsHolder, (tail-IsHolder, tt))
      (argument mixed (null_argument (argument tail nothing)))

to_bytes-from_bytes_example :
    (r : StringHolder) × (from_bytes true mixed_bytes ≡ value r)
    × IsHolder r
    × (to_bytes true r ≡ value mixed_bytes)
unfolding c_str
to_bytes-from_bytes_example = to_bytes-from_bytes mixed_bytes refl

from_bytes_zero_example :
    (r : StringHolder) × (from_bytes true (tail_bytes ++ 0 ∷ mixed_bytes) ≡ value r)
    × (to_bytes true r ≡ value (tail_bytes ++ replicate (suc (length mixed_bytes)) 0))
unfolding c_str
from_bytes_zero_example = from_bytes_zero tail_bytes mixed_bytes refl

-- A string with an embedded zero.
abbrev with_zero : StringHolder
with_zero = holder_of false (0x78 ∷ 0 ∷ 0x79 ∷ []) 3

native_copy-SameString_example :
    (r : StringHolder) × (native_copy true (some with_zero) ≡ some r)
    × IsHolder r
    × SameString with_zero r
unfolding holder_of
native_copy-SameString_example =
    native_copy-SameString with_zero (holder_of-IsHolder false (0x78 ∷ 0 ∷ 0x79 ∷ []) 3 refl)
      (λ e. cc)

mixed_small : mixed.char_length < 2 ^ 32
unfolding holder_of hash_and_units utf8_utf16_length
mixed_small = omega arith

substring_between_example :
    (substring true mixed (total_units (0xe9 ∷ [])) (total_units (0x1f600 ∷ []))
      ≡ value (holder_of false (piece mixed.string_value 2 4) 4))
    × IsHolder (holder_of false (piece mixed.string_value 2 4) 4)
    × Steps (piece mixed.string_value 2 4) 4 0 (0x1f600 ∷ []) 4
    × ((holder_of false (piece mixed.string_value 2 4) 4).char_length ≡ total_units (0x1f600 ∷ []))
substring_between_example =
    substring_between mixed mixed-IsHolder mixed_small first_step second_step

substring_inside_character_example :
    ((count : ℕ)
      → total_units (0xe9 ∷ []) + 1 + count ≤ mixed.char_length
      → substring true mixed (total_units (0xe9 ∷ []) + 1) count ≡ thrown inside_character)
    × ((start count : ℕ)
        → start + count ≡ total_units (0xe9 ∷ []) + 1
        → total_units (0xe9 ∷ []) + 1 ≤ mixed.char_length
        → substring true mixed start count ≡ thrown inside_character)
unfolding utf8_decode holder_of
substring_inside_character_example =
    substring_inside_character mixed mixed-IsHolder mixed_small true first_step (omega arith)
      (omega arith)

-- Searching: the first and the last "ab" of "abcab".
abbrev twice : StringHolder
twice = holder_of true (0x61 ∷ 0x62 ∷ 0x63 ∷ 0x61 ∷ 0x62 ∷ []) 5

abbrev needle : StringHolder
needle = holder_of true (0x61 ∷ 0x62 ∷ []) 2

found_first : index_of twice needle ≡ some 0
unfolding index_of holder_of hash_and_units utf8_utf16_length string_byte_to_unit
found_first = refl

found_last : last_index_of twice needle ≡ some 3
unfolding last_index_of holder_of hash_and_units utf8_utf16_length string_byte_to_unit
found_last = refl
