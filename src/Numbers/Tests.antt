-- ===== src/Numbers/Tests.antt =====
-- Runs of the boxed integers, and their theorems at concrete inputs.
use am_lang_core.Base.{
  ◌+◌, ◌-◌, ◌^◌, ◌<◌, ◌≤◌, ◌≡◌, ◌↔◌, refl, [], ◌∷◌, ◌++◌, arith, ltb, if◌then◌else◌,
}
use am_lang_core.Values.{Endian, Field, load, NullableValue, Ctype}
use am_lang_core.Numbers.{decimal, decimal_signed, strtol, strtoul}
use am_lang_core.Numbers.RoundTrip.{RoundTrips, parse-to_string}
use am_lang_core.Numbers.Strings.{Fits, to_string-Fits, ulong_to_string-room}
use am_lang_core.Numbers.Conversions.{Agrees, conversion-Agrees, to_ubyte_big}
use am_lang_core.Numbers.Byte
use am_lang_core.Numbers.Short
use am_lang_core.Numbers.Int
use am_lang_core.Numbers.Long
use am_lang_core.Numbers.UByte
use am_lang_core.Numbers.UShort
use am_lang_core.Numbers.UInt
use am_lang_core.Numbers.ULong

-- "-128", " +42x", and a number that does not fit 64 bits.
prints : decimal_signed 8 128 ≡ 45 ∷ 49 ∷ 50 ∷ 56 ∷ []
unfolding decimal_signed decimal
prints = refl

reads : strtol (32 ∷ 43 ∷ 52 ∷ 50 ∷ 120 ∷ []) ≡ 42
unfolding strtol
reads = refl

saturates : strtoul (decimal (2 ^ 64 - 1) ++ 48 ∷ []) ≡ 2 ^ 64 - 1
unfolding strtoul decimal
saturates = refl

-- A value whose eight bytes all count.
abbrev sample : NullableValue
sample = record { flags = 0; value = 2 ^ 64 - 2 ^ 40 - 3 }

-- A value below 10 ^ 19.
abbrev small_sample : NullableValue
small_sample = record { flags = 0; value = 10 ^ 19 - 3 }

parse-to_string_example :
    RoundTrips Field.char_value Byte.to_string Byte.parse Endian.big sample
    × RoundTrips Field.short_value Short.to_string Short.parse Endian.big sample
    × RoundTrips Field.int_value Int.to_string Int.parse Endian.big sample
    × RoundTrips Field.long_value Long.to_string Long.parse Endian.big sample
    × RoundTrips Field.uchar_value UByte.to_string UByte.parse Endian.big sample
    × RoundTrips Field.ushort_value UShort.to_string UShort.parse Endian.big sample
    × RoundTrips Field.uint_value UInt.to_string UInt.parse Endian.big sample
    × RoundTrips Field.ulong_value ULong.to_string ULong.parse Endian.big small_sample
unfolding load
parse-to_string_example =
    parse-to_string Endian.big sample sample small_sample (omega arith) (omega arith)

to_string-Fits_example :
    Fits (Byte.to_string Endian.little sample)
    × Fits (Short.to_string Endian.little sample)
    × Fits (Int.to_string Endian.little sample)
    × Fits (Long.to_string Endian.little sample)
    × Fits (UByte.to_string Endian.little sample)
    × Fits (UShort.to_string Endian.little sample)
    × Fits (UInt.to_string Endian.little sample)
to_string-Fits_example = to_string-Fits Endian.little sample

ulong_to_string-room_example :
    ((ULong.to_string Endian.little sample).holder.length + 1
      ≤ (ULong.to_string Endian.little sample).capacity)
    ↔ (load Endian.little Field.ulong_value sample.value < 10 ^ 19)
ulong_to_string-room_example = ulong_to_string-room Endian.little sample

conversion-Agrees_example :
    Agrees Ctype.short_type Short.to_ulong Ctype.ulong_type Endian.big (2 ^ 16 - 9)
conversion-Agrees_example =
    conversion-Agrees Ctype.short_type Ctype.ulong_type {method = Short.to_ulong} Endian.big
      (2 ^ 16 - 9) refl (omega arith) (λ p. cc)

to_ubyte_big_example :
    load Endian.big Field.uchar_value (Byte.to_ubyte Endian.big 5).value
    ≡ (if ltb 5 128 then 0 else 255)
to_ubyte_big_example = to_ubyte_big 5 (omega arith)
