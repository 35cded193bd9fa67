-- ===== src/Numbers.antt =====
-- The boxed integers, src/native-c/libc/Am/Lang/{Byte,Short,Int,Long,UByte,UShort,UInt,ULong}.c:
-- what they share, which is the C library's printing and parsing of numbers.
-- A number is its bit pattern, and `long` has 64 bits. `char` is signed.
pub mod Byte
pub mod Short
pub mod Int
pub mod Long
pub mod UByte
pub mod UShort
pub mod UInt
pub mod ULong
pub mod Decimal
pub mod Strings
pub mod RoundTrip
pub mod Conversions
mod Tests
use am_lang_core.Base.{
  ℕ, zero, suc, ◌+◌, ◌-◌, ◌*◌, ◌/◌, ◌%◌, ◌^◌, Bool, true, false, ◌||◌, ◌&&◌, none, List, [], ◌∷◌,
  ltb, leb, ◌==◌, if◌then◌else◌, length,
}
use am_lang_core.Text.Hash.{hash_bytes}
use am_lang_core.Text.Holder.{StringHolder}

-- A new String and the bytes that were allocated behind its holder.
pub record NumberString : Type 0 where
  pub capacity : ℕ
  pub holder : StringHolder

-- The body that all eight `toString` share where the allocation, which they do not test, succeeds, `text`
-- being what `sprintf` printed. The holder is that of C where the text and its terminating zero fit
-- `capacity`; where they do not, `sprintf` writes outside of the allocation and anything may follow.
unfoldable pub number_string : ℕ → List ℕ → NumberString
number_string capacity text = record {
  capacity = capacity;
  holder = record {
    is_string_constant = false;
    length = length text;
    string_value = text;
    hash = hash_bytes text;
    char_length = length text;
    wide = none;
  };
}

-- `sprintf` with `%u` and `%llu`: the decimal digits. Twenty rounds print any 64-bit number.
decimal_loop : ℕ → ℕ → List ℕ → List ℕ
decimal_loop zero n acc = acc
decimal_loop (suc fuel) n acc =
    let acc' = (b'0' + n % 10) ∷ acc in
    let rest = decimal_loop fuel (n / 10) acc' in if n / 10 == 0 then acc' else rest

unfoldable pub decimal : ℕ → List ℕ
unfolding decimal_loop
decimal n = decimal_loop 20 n []

-- `sprintf` with `%d` and `%lld` of a `w`-bit pattern.
unfoldable pub decimal_signed : ℕ → ℕ → List ℕ
decimal_signed w x = if ltb x (2 ^ (w - 1)) then decimal x else b'-' ∷ decimal (2 ^ w - x)

abbrev pub is_digit : ℕ → Bool
is_digit c = leb b'0' c && leb c b'9'

-- The digits at the front, accumulated without a bound.
unfoldable pub digits_value : ℕ → List ℕ → ℕ
digits_value acc [] = acc
digits_value acc (c ∷ cs) = if is_digit c then digits_value (acc * 10 + (c - b'0')) cs else acc

-- `isspace` of C.
unfoldable pub is_space : ℕ → Bool
is_space c = c == b' ' || (leb 9 c && leb c 13)

unfoldable pub skip_space : List ℕ → List ℕ
unfolding is_space
skip_space [] = []
skip_space (c ∷ cs) = if is_space c then skip_space cs else c ∷ cs

-- The sign, and what follows it.
unfoldable pub sign : List ℕ → Bool × List ℕ
sign [] = (false, [])
sign (c ∷ cs) = if c == b'-' then (true, cs) else if c == b'+' then (false, cs) else (false, c ∷ cs)

-- `strtol(str, &endptr, 10)`: 64 bits, saturating.
unfoldable pub saturate : Bool → ℕ → ℕ
saturate negative n =
    if negative
    then (if leb n (2 ^ 63) then (2 ^ 64 - n) % 2 ^ 64 else 2 ^ 63)
    else if ltb n (2 ^ 63)
    then n
    else 2 ^ 63 - 1

unfoldable pub strtol : List ℕ → ℕ
unfolding skip_space sign digits_value saturate
strtol str =
    let (negative, digits) = sign (skip_space str) in saturate negative (digits_value 0 digits)

-- `strtoul(str, &endptr, 10)`: a number out of range gives the greatest one, and a sign negates.
unfoldable pub unsigned_of : Bool → ℕ → ℕ
unsigned_of negative n =
    if leb (2 ^ 64) n then 2 ^ 64 - 1 else if negative then (2 ^ 64 - n) % 2 ^ 64 else n

unfoldable pub strtoul : List ℕ → ℕ
unfolding skip_space sign digits_value unsigned_of
strtoul str =
    let (negative, digits) = sign (skip_space str) in unsigned_of negative (digits_value 0 digits)
