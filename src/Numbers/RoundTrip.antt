-- ===== src/Numbers/RoundTrip.antt =====
-- Printing a boxed integer and parsing the text gives the number back.
use am_lang_core.Base.{
  ℕ, ◌-◌, ◌*◌, ◌%◌, ◌^◌, ◌≤◌, ◌<◌, ◌≡◌, ◌≢◌, refl, sym, ap, ◌∙◌, Bool, true, false, ◌⊎◌, inl, inr,
  List, ◌∷◌, arith, ltb, ltb→lt, Bool-cases, if◌then◌else◌,
}
use am_lang_core.Values.{Endian, Field, bits, load, NullableValue, give}
use am_lang_core.Values.Laws.{load-lt}
use am_lang_core.Text.Hash.{c_str}
use am_lang_core.Text.Holder.{StringHolder}
use am_lang_core.Numbers.{
  NumberString, number_string, decimal, decimal_signed, is_digit, digits_value, strtol, strtoul,
  sign, saturate, unsigned_of, skip_space, is_space,
}
use am_lang_core.Numbers.Decimal.{
  digits_value-decimal, digits_loop-decimal, decimal_begins, decimal-IsPrinted,
  decimal_signed-IsPrinted,
}
use am_lang_core.Numbers.Strings.{
  c_str-IsPrinted, number_string-IsHolder, Fits, to_string-Fits, ulong_to_string-room,
}
use am_lang_core.Numbers.Byte
use am_lang_core.Numbers.Short
use am_lang_core.Numbers.Int
use am_lang_core.Numbers.Long.{skip_blank, is_blank, digits_loop}
use am_lang_core.Numbers.ULong.{plus}
use am_lang_core.Numbers.Long
use am_lang_core.Numbers.UByte
use am_lang_core.Numbers.UShort
use am_lang_core.Numbers.UInt
use am_lang_core.Numbers.ULong

-- Digits in front are neither white space nor a sign.
strtol-digit :
    (c : ℕ) (cs : List ℕ)
    → is_digit c ≡ true
    → strtol (c ∷ cs) ≡ saturate false (digits_value 0 (c ∷ cs))
unfolding strtol skip_space is_space
strtol-digit c cs h = ground arith

strtoul-digit :
    (c : ℕ) (cs : List ℕ)
    → is_digit c ≡ true
    → strtoul (c ∷ cs) ≡ unsigned_of false (digits_value 0 (c ∷ cs))
unfolding strtoul skip_space is_space
strtoul-digit c cs h = ground arith

strtol-decimal : (n : ℕ) → n < 2 ^ 64 → strtol (decimal n) ≡ saturate false n
strtol-decimal n h =
    let (c, cs, begins, digit) = decimal_begins n in
    ap strtol begins
    ∙ strtol-digit c cs digit
    ∙ ap (λ t. saturate false (digits_value 0 t)) (sym begins)
    ∙ ap (saturate false) (digits_value-decimal n h)

strtoul-decimal : (n : ℕ) → n < 2 ^ 64 → strtoul (decimal n) ≡ n
unfolding unsigned_of
strtoul-decimal n h =
    let (c, cs, begins, digit) = decimal_begins n in
    ap strtoul begins
    ∙ strtoul-digit c cs digit
    ∙ ap (λ t. unsigned_of false (digits_value 0 t)) (sym begins)
    ∙ ap (unsigned_of false) (digits_value-decimal n h)
    ∙ ground arith

strtol-minus : (n : ℕ) → n < 2 ^ 64 → strtol (b'-' ∷ decimal n) ≡ saturate true n
unfolding strtol skip_space is_space sign
strtol-minus n h = ap (saturate true) (digits_value-decimal n h)

-- The three widths below 64 bits: what `strtol` reads has the low bits of the number.
ge_of_ltb : (a b : ℕ) → ltb a b ≡ false → b ≤ a
ge_of_ltb a b h = ground arith

saturate_small : (n : ℕ) → n < 2 ^ 63 → saturate false n ≡ n
unfolding saturate
saturate_small n h = ground arith

saturate_minus : (n : ℕ) → 0 < n → n ≤ 2 ^ 63 → saturate true n ≡ 2 ^ 64 - n
unfolding saturate
saturate_minus n pos h = ground arith

strtol-signed :
    (w m x : ℕ)
    → 2 ^ w ≡ 2 * m
    → 2 ^ (w - 1) ≡ m
    → m ≤ 2 ^ 31
    → x < 2 * m
    → (strtol (decimal_signed w x) ≡ x) ⊎ (strtol (decimal_signed w x) ≡ 2 ^ 64 - (2 * m - x))
unfolding decimal_signed
strtol-signed w m x whole half small h = elim (Bool-cases (ltb x (2 ^ (w - 1)))) [
  | inl low ↦
      let lt = ltb→lt x (2 ^ (w - 1)) low in
      inl (rw low (strtol-decimal x (omega arith) ∙ saturate_small x (omega arith)))
  | inr high ↦
      let ge = ge_of_ltb x (2 ^ (w - 1)) high in
      let n = 2 ^ w - x in
      inr (
        rw high (
          strtol-minus n (omega arith)
          ∙ saturate_minus n (omega arith) (omega arith)
          ∙ omega arith))
]

parsed :
    (e : Endian) (f : Field) (n x : ℕ) → n % 2 ^ bits f ≡ x % 2 ^ bits f → give e f n ≡ give e f x
unfolding give
parsed Endian.little f n x h = rw h refl
parsed Endian.big f n x h = rw h refl

-- `parse` reads what `toString` printed back.
abbrev Returns :
    Field
    → (Endian → NullableValue → NumberString)
    → (Endian → StringHolder → NullableValue)
    → Endian
    → NullableValue
    → Type 0
Returns f to_string parse e v = parse e (to_string e v).holder ≡ give e f (load e f v.value)

-- What a type's `toString` and `parse` promise together: the text is a string in order that fits its
-- buffer, and `parse` reads it back.
abbrev pub RoundTrips :
    Field
    → (Endian → NullableValue → NumberString)
    → (Endian → StringHolder → NullableValue)
    → Endian
    → NullableValue
    → Type 0
RoundTrips f to_string parse e v =
    Fits (to_string e v) × (parse e (to_string e v).holder ≡ give e f (load e f v.value))

byte : (e : Endian) (v : NullableValue) → Returns Field.char_value Byte.to_string Byte.parse e v
unfolding Byte.to_string Byte.parse number_string
byte e v =
    let x = load e Field.char_value v.value in
    parsed e Field.char_value (strtol (c_str (decimal_signed 8 x))) x (
      ground (
        arith,
        c_str-IsPrinted (decimal_signed 8 x) (decimal_signed-IsPrinted 8 x),
        strtol-signed 8 128 x,
        load-lt e Field.char_value v.value,
      ))

short : (e : Endian) (v : NullableValue) → Returns Field.short_value Short.to_string Short.parse e v
unfolding Short.to_string Short.parse number_string
short e v =
    let x = load e Field.short_value v.value in
    parsed e Field.short_value (strtol (c_str (decimal_signed 16 x))) x (
      ground (
        arith,
        c_str-IsPrinted (decimal_signed 16 x) (decimal_signed-IsPrinted 16 x),
        strtol-signed 16 32768 x,
        load-lt e Field.short_value v.value,
      ))

int : (e : Endian) (v : NullableValue) → Returns Field.int_value Int.to_string Int.parse e v
unfolding Int.to_string Int.parse number_string
int e v =
    let x = load e Field.int_value v.value in
    parsed e Field.int_value (strtol (c_str (decimal_signed 32 x))) x (
      ground (
        arith,
        c_str-IsPrinted (decimal_signed 32 x) (decimal_signed-IsPrinted 32 x),
        strtol-signed 32 2147483648 x,
        load-lt e Field.int_value v.value,
      ))

ubyte : (e : Endian) (v : NullableValue) → Returns Field.uchar_value UByte.to_string UByte.parse e v
unfolding UByte.to_string UByte.parse number_string
ubyte e v =
    let x = load e Field.uchar_value v.value in
    parsed e Field.uchar_value (strtoul (c_str (decimal x))) x (
      ground (
        arith,
        c_str-IsPrinted (decimal x) (decimal-IsPrinted x),
        strtoul-decimal x,
        load-lt e Field.uchar_value v.value,
      ))

ushort :
    (e : Endian) (v : NullableValue) → Returns Field.ushort_value UShort.to_string UShort.parse e v
unfolding UShort.to_string UShort.parse number_string
ushort e v =
    let x = load e Field.ushort_value v.value in
    parsed e Field.ushort_value (strtoul (c_str (decimal x))) x (
      ground (
        arith,
        c_str-IsPrinted (decimal x) (decimal-IsPrinted x),
        strtoul-decimal x,
        load-lt e Field.ushort_value v.value,
      ))

uint : (e : Endian) (v : NullableValue) → Returns Field.uint_value UInt.to_string UInt.parse e v
unfolding UInt.to_string UInt.parse number_string
uint e v =
    let x = load e Field.uint_value v.value in
    parsed e Field.uint_value (strtoul (c_str (decimal x))) x (
      ground (
        arith,
        c_str-IsPrinted (decimal x) (decimal-IsPrinted x),
        strtoul-decimal x,
        load-lt e Field.uint_value v.value,
      ))

-- The parsers of the 64-bit types are loops of their own.
skip_blank-digit : (c : ℕ) (cs : List ℕ) → is_digit c ≡ true → skip_blank (c ∷ cs) ≡ c ∷ cs
unfolding skip_blank is_blank
skip_blank-digit c cs h = ground arith

skip_blank-decimal : (n : ℕ) → skip_blank (decimal n) ≡ decimal n
skip_blank-decimal n =
    let (c, cs, begins, digit) = decimal_begins n in
    ap skip_blank begins ∙ skip_blank-digit c cs digit ∙ sym begins

skip_blank-minus : (cs : List ℕ) → skip_blank (b'-' ∷ cs) ≡ b'-' ∷ cs
unfolding skip_blank is_blank
skip_blank-minus cs = refl

plus-digit : (c : ℕ) (cs : List ℕ) → is_digit c ≡ true → plus (c ∷ cs) ≡ c ∷ cs
unfolding plus
plus-digit c cs h = ground arith

plus-decimal : (n : ℕ) → plus (decimal n) ≡ decimal n
plus-decimal n =
    let (c, cs, begins, digit) = decimal_begins n in
    ap plus begins ∙ plus-digit c cs digit ∙ sym begins

sign-digit : (c : ℕ) (cs : List ℕ) → is_digit c ≡ true → sign (c ∷ cs) ≡ (false, c ∷ cs)
unfolding sign
sign-digit c cs h = ground arith

sign-decimal : (n : ℕ) → sign (decimal n) ≡ (false, decimal n)
sign-decimal n =
    let (c, cs, begins, digit) = decimal_begins n in
    ap sign begins ∙ sign-digit c cs digit ∙ ap (λ t. (false, t)) (sym begins)

sign-minus : (cs : List ℕ) → sign (b'-' ∷ cs) ≡ (true, cs)
unfolding sign
sign-minus cs = refl

ulong : (e : Endian) (v : NullableValue) → Returns Field.ulong_value ULong.to_string ULong.parse e v
unfolding ULong.to_string ULong.parse number_string
ulong e v =
    let x = load e Field.ulong_value v.value in
    ap (λ s. give e Field.ulong_value (digits_loop 0 (plus (skip_blank s))))
      (c_str-IsPrinted (decimal x) (decimal-IsPrinted x))
    ∙ ap (λ s. give e Field.ulong_value (digits_loop 0 (plus s))) (skip_blank-decimal x)
    ∙ ap (λ s. give e Field.ulong_value (digits_loop 0 s)) (plus-decimal x)
    ∙ ap (give e Field.ulong_value) (digits_loop-decimal x (load-lt e Field.ulong_value v.value))

-- `Long.parse` behind the white space and the copy of the bytes.
long_value_of : Bool × List ℕ → ℕ
long_value_of (negative, digits) =
    if negative then (2 ^ 64 - digits_loop 0 digits) % 2 ^ 64 else digits_loop 0 digits

long_value_of-signed :
    (x : ℕ) → x < 2 ^ 64 → long_value_of (sign (skip_blank (decimal_signed 64 x))) ≡ x
unfolding decimal_signed long_value_of
long_value_of-signed x h = elim (Bool-cases (ltb x (2 ^ 63))) [
  | inl low ↦ rw low (
      ap (λ s. long_value_of (sign s)) (skip_blank-decimal x)
      ∙ ap long_value_of (sign-decimal x)
      ∙ digits_loop-decimal x h)
  | inr high ↦
      let n = 2 ^ 64 - x in
      let ge = ge_of_ltb x (2 ^ 63) high in
      let read = digits_loop-decimal n (omega arith) in
      rw high (
        ap (λ s. long_value_of (sign s)) (skip_blank-minus (decimal n))
        ∙ ap long_value_of (sign-minus (decimal n))
        ∙ omega arith)
]

long : (e : Endian) (v : NullableValue) → Returns Field.long_value Long.to_string Long.parse e v
unfolding Long.to_string Long.parse number_string long_value_of
long e v =
    let x = load e Field.long_value v.value in
    ap (λ s. give e Field.long_value (long_value_of (sign (skip_blank s))))
      (c_str-IsPrinted (decimal_signed 64 x) (decimal_signed-IsPrinted 64 x))
    ∙ ap (give e Field.long_value) (long_value_of-signed x (load-lt e Field.long_value v.value))

ulong-Fits :
    (e : Endian) (v : NullableValue)
    → load e Field.ulong_value v.value < 10 ^ 19
    → Fits (ULong.to_string e v)
unfolding ULong.to_string
ulong-Fits e v small = record {
  in_order =
      number_string-IsHolder 20 (decimal (load e Field.ulong_value v.value))
        (decimal-IsPrinted (load e Field.ulong_value v.value));
  room = (ulong_to_string-room e v).1 small;
}

-- For each of the eight boxed integer types, on either host, and for every value but the least Long, whose
-- digits overflow the signed accumulator of `parse`, and the ULongs from 10 ^ 19 on, whose text does not
-- fit its buffer: `toString`, with memory for its string, gives a string in order that fits its buffer, and
-- `parse` reads it back as the number.
pub parse-to_string :
    (e : Endian) (v l u : NullableValue)
    → load e Field.long_value l.value ≢ 2 ^ 63
    → load e Field.ulong_value u.value < 10 ^ 19
    → RoundTrips Field.char_value Byte.to_string Byte.parse e v
      × RoundTrips Field.short_value Short.to_string Short.parse e v
      × RoundTrips Field.int_value Int.to_string Int.parse e v
      × RoundTrips Field.long_value Long.to_string Long.parse e l
      × RoundTrips Field.uchar_value UByte.to_string UByte.parse e v
      × RoundTrips Field.ushort_value UShort.to_string UShort.parse e v
      × RoundTrips Field.uint_value UInt.to_string UInt.parse e v
      × RoundTrips Field.ulong_value ULong.to_string ULong.parse e u
parse-to_string e v l u least small =
    let (b, s, i, _, ub, us, ui) = to_string-Fits e v in
    let (_, _, _, long_fits, _, _, _) = to_string-Fits e l in
    (
      (b, byte e v),
      (s, short e v),
      (i, int e v),
      (long_fits, long e l),
      (ub, ubyte e v),
      (us, ushort e v),
      (ui, uint e v),
      (ulong-Fits e u small, ulong e u),
    )
