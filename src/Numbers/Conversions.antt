-- ===== src/Numbers/Conversions.antt =====
-- The conversion methods of the boxed integers against the coercion of reflective writes: two
-- pieces of the library that promise the same thing.
use am_lang_core.Base.{ℕ, ◌%◌, ◌^◌, ◌<◌, ◌≡◌, refl, Option, none, some, arith, ltb, if◌then◌else◌}
use am_lang_core.Values.{
  Endian, Field, bits, store, load, sext, NullableValue, give, Ctype, ctype_flags,
  is_primitive_null, value_flags_to_ctype,
}
use am_lang_core.Values.Coerce.{long_of, value_of_long, coerce_primitive}
use am_lang_core.Values.Laws.{load-store}
use am_lang_core.Numbers.Byte
use am_lang_core.Numbers.Short
use am_lang_core.Numbers.Int
use am_lang_core.Numbers.Long
use am_lang_core.Numbers.UByte
use am_lang_core.Numbers.UShort
use am_lang_core.Numbers.UInt
use am_lang_core.Numbers.ULong

-- The method of each type that converts to a kind.
abbrev pub byte_method : Ctype → Option (Endian → ℕ → NullableValue)
byte_method Ctype.short_type = some Byte.to_short
byte_method Ctype.int_type = some Byte.to_int
byte_method Ctype.long_type = some Byte.to_long
byte_method Ctype.uchar_type = some Byte.to_ubyte
byte_method Ctype.ushort_type = some Byte.to_ushort
byte_method Ctype.uint_type = some Byte.to_uint
byte_method Ctype.ulong_type = some Byte.to_ulong
byte_method Ctype.bool_type = some Byte.to_bool
byte_method _ = none

abbrev pub short_method : Ctype → Option (Endian → ℕ → NullableValue)
short_method Ctype.char_type = some Short.to_byte
short_method Ctype.int_type = some Short.to_int
short_method Ctype.long_type = some Short.to_long
short_method Ctype.uchar_type = some Short.to_ubyte
short_method Ctype.ushort_type = some Short.to_ushort
short_method Ctype.uint_type = some Short.to_uint
short_method Ctype.ulong_type = some Short.to_ulong
short_method Ctype.bool_type = some Short.to_bool
short_method _ = none

abbrev pub int_method : Ctype → Option (Endian → ℕ → NullableValue)
int_method Ctype.char_type = some Int.to_byte
int_method Ctype.short_type = some Int.to_short
int_method Ctype.long_type = some Int.to_long
int_method Ctype.uchar_type = some Int.to_ubyte
int_method Ctype.ushort_type = some Int.to_ushort
int_method Ctype.uint_type = some Int.to_uint
int_method Ctype.ulong_type = some Int.to_ulong
int_method Ctype.bool_type = some Int.to_bool
int_method _ = none

abbrev pub long_method : Ctype → Option (Endian → ℕ → NullableValue)
long_method Ctype.char_type = some Long.to_byte
long_method Ctype.short_type = some Long.to_short
long_method Ctype.int_type = some Long.to_int
long_method Ctype.uchar_type = some Long.to_ubyte
long_method Ctype.ushort_type = some Long.to_ushort
long_method Ctype.uint_type = some Long.to_uint
long_method Ctype.ulong_type = some Long.to_ulong
long_method Ctype.bool_type = some Long.to_bool
long_method _ = none

abbrev pub ubyte_method : Ctype → Option (Endian → ℕ → NullableValue)
ubyte_method Ctype.char_type = some UByte.to_byte
ubyte_method Ctype.short_type = some UByte.to_short
ubyte_method Ctype.int_type = some UByte.to_int
ubyte_method Ctype.long_type = some UByte.to_long
ubyte_method Ctype.ushort_type = some UByte.to_ushort
ubyte_method Ctype.uint_type = some UByte.to_uint
ubyte_method Ctype.ulong_type = some UByte.to_ulong
ubyte_method Ctype.bool_type = some UByte.to_bool
ubyte_method _ = none

abbrev pub ushort_method : Ctype → Option (Endian → ℕ → NullableValue)
ushort_method Ctype.char_type = some UShort.to_byte
ushort_method Ctype.short_type = some UShort.to_short
ushort_method Ctype.int_type = some UShort.to_int
ushort_method Ctype.long_type = some UShort.to_long
ushort_method Ctype.uchar_type = some UShort.to_ubyte
ushort_method Ctype.uint_type = some UShort.to_uint
ushort_method Ctype.ulong_type = some UShort.to_ulong
ushort_method Ctype.bool_type = some UShort.to_bool
ushort_method _ = none

abbrev pub uint_method : Ctype → Option (Endian → ℕ → NullableValue)
uint_method Ctype.char_type = some UInt.to_byte
uint_method Ctype.short_type = some UInt.to_short
uint_method Ctype.int_type = some UInt.to_int
uint_method Ctype.long_type = some UInt.to_long
uint_method Ctype.uchar_type = some UInt.to_ubyte
uint_method Ctype.ushort_type = some UInt.to_ushort
uint_method Ctype.ulong_type = some UInt.to_ulong
uint_method Ctype.bool_type = some UInt.to_bool
uint_method _ = none

abbrev pub ulong_method : Ctype → Option (Endian → ℕ → NullableValue)
ulong_method Ctype.char_type = some ULong.to_byte
ulong_method Ctype.short_type = some ULong.to_short
ulong_method Ctype.int_type = some ULong.to_int
ulong_method Ctype.long_type = some ULong.to_long
ulong_method Ctype.uchar_type = some ULong.to_ubyte
ulong_method Ctype.ushort_type = some ULong.to_ushort
ulong_method Ctype.uint_type = some ULong.to_uint
ulong_method Ctype.bool_type = some ULong.to_bool
ulong_method _ = none

-- The member that holds a boxed primitive of a kind.
abbrev pub member_of : Ctype → Field
member_of Ctype.int_type = Field.int_value
member_of Ctype.long_type = Field.long_value
member_of Ctype.short_type = Field.short_value
member_of Ctype.char_type = Field.char_value
member_of Ctype.uint_type = Field.uint_value
member_of Ctype.ulong_type = Field.ulong_value
member_of Ctype.ushort_type = Field.ushort_value
member_of Ctype.uchar_type = Field.uchar_value
member_of Ctype.bool_type = Field.bool_value
member_of _ = Field.object_value

-- The number in the method's result is the one that a reflective write of the receiver to a slot
-- of the method's kind would store.
abbrev pub Agrees : Ctype → (Endian → ℕ → NullableValue) → Ctype → Endian → ℕ → Type 0
Agrees kind method target e x =
    load e (member_of target) (method e x).value
    ≡ load e (member_of target)
        (coerce_primitive e
          (record { flags = ctype_flags kind; value = store e (member_of kind) x }) target).value

-- On a little-endian host the low byte of an unsigned int is where the unsigned byte is read.
narrow :
    (e : Endian) (x : ℕ)
    → e ≡ Endian.little
    → load e Field.uchar_value (store e Field.uint_value x) ≡ x % 2 ^ 8
unfolding load store
narrow Endian.little x h = omega arith
narrow Endian.big x h = cc

byte-Agrees :
    (target : Ctype) {method : Endian → ℕ → NullableValue} (e : Endian) (x : ℕ)
    → byte_method target ≡ some method
    → x < 2 ^ 8
    → (target ≡ Ctype.uchar_type → e ≡ Endian.little)
    → Agrees Ctype.char_type method target e x
unfolding Byte.to_short Byte.to_int Byte.to_long Byte.to_ubyte Byte.to_ushort Byte.to_uint
    Byte.to_ulong Byte.to_bool coerce_primitive give long_of value_of_long sext ctype_flags
    value_flags_to_ctype is_primitive_null
byte-Agrees Ctype.int_type e x is h host = ground (
  arith,
  load-store e Field.char_value x,
  narrow e (sext 8 x),
  load-store e Field.uchar_value (sext 8 x),
)
byte-Agrees target e x is h host = ground (
  arith,
  load-store e Field.char_value x,
  narrow e (sext 8 x),
  load-store e Field.uchar_value (sext 8 x),
)

short-Agrees :
    (target : Ctype) {method : Endian → ℕ → NullableValue} (e : Endian) (x : ℕ)
    → short_method target ≡ some method
    → x < 2 ^ 16
    → Agrees Ctype.short_type method target e x
unfolding Short.to_byte Short.to_int Short.to_long Short.to_ubyte Short.to_ushort Short.to_uint
    Short.to_ulong Short.to_bool coerce_primitive give long_of value_of_long sext ctype_flags
    value_flags_to_ctype is_primitive_null
short-Agrees Ctype.int_type e x is h = ground (arith, load-store e Field.short_value x)
short-Agrees target e x is h = ground (arith, load-store e Field.short_value x)

int-Agrees :
    (target : Ctype) {method : Endian → ℕ → NullableValue} (e : Endian) (x : ℕ)
    → int_method target ≡ some method
    → x < 2 ^ 32
    → Agrees Ctype.int_type method target e x
unfolding Int.to_byte Int.to_short Int.to_long Int.to_ubyte Int.to_ushort Int.to_uint Int.to_ulong
    Int.to_bool coerce_primitive give long_of value_of_long sext ctype_flags value_flags_to_ctype
    is_primitive_null
int-Agrees Ctype.int_type e x is h = ground (arith, load-store e Field.int_value x)
int-Agrees target e x is h = ground (arith, load-store e Field.int_value x)

long-Agrees :
    (target : Ctype) {method : Endian → ℕ → NullableValue} (e : Endian) (x : ℕ)
    → long_method target ≡ some method
    → x < 2 ^ 64
    → Agrees Ctype.long_type method target e x
unfolding Long.to_byte Long.to_short Long.to_int Long.to_ubyte Long.to_ushort Long.to_uint
    Long.to_ulong Long.to_bool coerce_primitive give long_of value_of_long sext ctype_flags
    value_flags_to_ctype is_primitive_null
long-Agrees Ctype.int_type e x is h = ground (arith, load-store e Field.long_value x)
long-Agrees target e x is h = ground (arith, load-store e Field.long_value x)

ubyte-Agrees :
    (target : Ctype) {method : Endian → ℕ → NullableValue} (e : Endian) (x : ℕ)
    → ubyte_method target ≡ some method
    → x < 2 ^ 8
    → Agrees Ctype.uchar_type method target e x
unfolding UByte.to_byte UByte.to_short UByte.to_int UByte.to_long UByte.to_ushort UByte.to_uint
    UByte.to_ulong UByte.to_bool coerce_primitive give long_of value_of_long sext ctype_flags
    value_flags_to_ctype is_primitive_null
ubyte-Agrees Ctype.int_type e x is h = ground (arith, load-store e Field.uchar_value x)
ubyte-Agrees target e x is h = ground (arith, load-store e Field.uchar_value x)

ushort-Agrees :
    (target : Ctype) {method : Endian → ℕ → NullableValue} (e : Endian) (x : ℕ)
    → ushort_method target ≡ some method
    → x < 2 ^ 16
    → Agrees Ctype.ushort_type method target e x
unfolding UShort.to_byte UShort.to_short UShort.to_int UShort.to_long UShort.to_ubyte UShort.to_uint
    UShort.to_ulong UShort.to_bool coerce_primitive give long_of value_of_long sext ctype_flags
    value_flags_to_ctype is_primitive_null
ushort-Agrees Ctype.int_type e x is h = ground (arith, load-store e Field.ushort_value x)
ushort-Agrees target e x is h = ground (arith, load-store e Field.ushort_value x)

uint-Agrees :
    (target : Ctype) {method : Endian → ℕ → NullableValue} (e : Endian) (x : ℕ)
    → uint_method target ≡ some method
    → x < 2 ^ 32
    → Agrees Ctype.uint_type method target e x
unfolding UInt.to_byte UInt.to_short UInt.to_int UInt.to_long UInt.to_ubyte UInt.to_ushort
    UInt.to_ulong UInt.to_bool coerce_primitive give long_of value_of_long sext ctype_flags
    value_flags_to_ctype is_primitive_null
uint-Agrees Ctype.int_type e x is h = ground (arith, load-store e Field.uint_value x)
uint-Agrees target e x is h = ground (arith, load-store e Field.uint_value x)

ulong-Agrees :
    (target : Ctype) {method : Endian → ℕ → NullableValue} (e : Endian) (x : ℕ)
    → ulong_method target ≡ some method
    → x < 2 ^ 64
    → Agrees Ctype.ulong_type method target e x
unfolding ULong.to_byte ULong.to_short ULong.to_int ULong.to_long ULong.to_ubyte ULong.to_ushort
    ULong.to_uint ULong.to_bool coerce_primitive give long_of value_of_long sext ctype_flags
    value_flags_to_ctype is_primitive_null
ulong-Agrees Ctype.int_type e x is h = ground (arith, load-store e Field.ulong_value x)
ulong-Agrees target e x is h = ground (arith, load-store e Field.ulong_value x)

-- `Byte.toUByte` writes the `uint` member of its result. On a big-endian host the unsigned byte is
-- read from the first byte of that, which is the sign of the receiver and not its value.
pub to_ubyte_big :
    (x : ℕ)
    → x < 2 ^ 8
    → load Endian.big Field.uchar_value (Byte.to_ubyte Endian.big x).value
      ≡ (if ltb x 128 then 0 else 255)
unfolding Byte.to_ubyte give store load sext
to_ubyte_big x h = ground arith

abbrev pub method_of : Ctype → Ctype → Option (Endian → ℕ → NullableValue)
method_of Ctype.char_type target = byte_method target
method_of Ctype.short_type target = short_method target
method_of Ctype.int_type target = int_method target
method_of Ctype.long_type target = long_method target
method_of Ctype.uchar_type target = ubyte_method target
method_of Ctype.ushort_type target = ushort_method target
method_of Ctype.uint_type target = uint_method target
method_of Ctype.ulong_type target = ulong_method target
method_of _ target = none

-- Every conversion method of the eight boxed integers, at every number of its type, gives the number
-- that a reflective write of the receiver to a slot of the method's kind would store; for `toUByte`
-- of a Byte, on a little-endian host.
pub conversion-Agrees :
    (kind target : Ctype) {method : Endian → ℕ → NullableValue} (e : Endian) (x : ℕ)
    → method_of kind target ≡ some method
    → x < 2 ^ bits (member_of kind)
    → (kind ≡ Ctype.char_type → target ≡ Ctype.uchar_type → e ≡ Endian.little)
    → Agrees kind method target e x
conversion-Agrees Ctype.char_type target e x is h host = byte-Agrees target e x is h (host refl)
conversion-Agrees Ctype.short_type target e x is h host = short-Agrees target e x is h
conversion-Agrees Ctype.int_type target e x is h host = int-Agrees target e x is h
conversion-Agrees Ctype.long_type target e x is h host = long-Agrees target e x is h
conversion-Agrees Ctype.uchar_type target e x is h host = ubyte-Agrees target e x is h
conversion-Agrees Ctype.ushort_type target e x is h host = ushort-Agrees target e x is h
conversion-Agrees Ctype.uint_type target e x is h host = uint-Agrees target e x is h
conversion-Agrees Ctype.ulong_type target e x is h host = ulong-Agrees target e x is h
conversion-Agrees Ctype.object_type target e x is h host = cc
conversion-Agrees kind target e x is h host = cc
