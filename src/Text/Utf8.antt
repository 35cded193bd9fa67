-- ===== src/Text/Utf8.antt =====
-- The UTF-8 decoder of src/native-c/libc/core.c: `__utf8_decode` and `__utf8_utf16_length`.
-- A buffer is the list of its bytes. A read behind the last one gives the terminating zero. The
-- operands of each `|` have no bit in common, so it is a sum. Positions are unsigned ints, and a buffer has
-- fewer than 2 ^ 32 - 3 bytes, so that the tests of `i + 3 < len` do not wrap.
pub mod Bounds
pub mod Encode
pub mod Steps
pub mod Slice
use am_lang_core.Base.{
  ℕ, zero, suc, ◌+◌, ◌*◌, ◌%◌, Bool, ◌&&◌, ◌||◌, List, ltb, leb, if◌then◌else◌, get_or,
}

-- The return value and `*out_cp`.
pub record Decoded : Type 0 where
  pub step : ℕ
  pub cp : ℕ

abbrev pub decoded : ℕ → ℕ → Decoded
decoded n c = record { step = n; cp = c }

abbrev pub malformed : Decoded
malformed = decoded 1 0xfffd

abbrev pub byte_at : List ℕ → ℕ → ℕ
byte_at s i = get_or s i 0

abbrev pub is_continuation : ℕ → Bool
is_continuation b = leb 0x80 b && leb b 0xbf

two_bytes : ℕ → ℕ → Decoded
two_bytes b0 b1 = if is_continuation b1 then decoded 2 (b0 % 32 * 64 + b1 % 64) else malformed

-- Overlong forms and surrogates are rejected.
checked_three : ℕ → Decoded
checked_three cp =
    if leb 0x800 cp && (ltb cp 0xd800 || ltb 0xdfff cp) then decoded 3 cp else malformed

three_bytes : ℕ → ℕ → ℕ → Decoded
unfolding checked_three
three_bytes b0 b1 b2 =
    if is_continuation b1 && is_continuation b2
    then checked_three (b0 % 16 * 4096 + b1 % 64 * 64 + b2 % 64)
    else malformed

checked_four : ℕ → Decoded
checked_four cp = if leb 0x10000 cp && leb cp 0x10ffff then decoded 4 cp else malformed

four_bytes : ℕ → ℕ → ℕ → ℕ → Decoded
unfolding checked_four
four_bytes b0 b1 b2 b3 =
    if is_continuation b1 && is_continuation b2 && is_continuation b3
    then checked_four (b0 % 8 * 262144 + b1 % 64 * 4096 + b2 % 64 * 64 + b3 % 64)
    else malformed

-- The tests on the lead byte, with the room that each form needs before `len`.
lead : List ℕ → ℕ → ℕ → ℕ → Decoded
unfolding two_bytes three_bytes four_bytes
lead s len i b0 =
    if ltb b0 0x80
    then decoded 1 b0
    else if leb 0xc2 b0 && leb b0 0xdf && ltb (i + 1) len
    then two_bytes b0 (byte_at s (i + 1))
    else if leb 0xe0 b0 && leb b0 0xef && ltb (i + 2) len
    then three_bytes b0 (byte_at s (i + 1)) (byte_at s (i + 2))
    else if leb 0xf0 b0 && leb b0 0xf4 && ltb (i + 3) len
    then four_bytes b0 (byte_at s (i + 1)) (byte_at s (i + 2)) (byte_at s (i + 3))
    else malformed

unfoldable pub utf8_decode : List ℕ → ℕ → ℕ → Decoded
unfolding lead
utf8_decode s len i = if leb len i then malformed else lead s len i (byte_at s i)

-- An astral character takes a surrogate pair.
abbrev pub units_of : ℕ → ℕ
units_of cp = if leb 0x10000 cp then 2 else 1

-- `while (i < len)`; each round moves on by a byte at least, so `len` rounds are enough.
units_loop : ℕ → List ℕ → ℕ → ℕ → ℕ → ℕ
units_loop zero s len i units = units
units_loop (suc fuel) s len i units =
    let d = utf8_decode s len i in
    let rest = units_loop fuel s len (i + d.step) (units + units_of d.cp) in
    if ltb i len then rest else units

unfoldable pub utf8_utf16_length : List ℕ → ℕ → ℕ
unfolding utf8_decode units_loop
utf8_utf16_length s len = units_loop len s len 0 0
