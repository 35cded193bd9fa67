-- ===== src/Text/Holder.antt =====
-- `struct _string_holder`, its UTF-16 view and the conversions between byte offsets and UTF-16
-- indices: src/native-c/libc/core.h and src/native-c/libc/core.c.
-- A buffer has fewer than 2 ^ 32 - 3 bytes, so the unsigned counters do not wrap.
pub mod View
pub mod Positions
use am_lang_core.Base.{
  ℕ, zero, suc, ◌+◌, ◌-◌, ◌/◌, ◌%◌, Bool, true, false, ◌&&◌, Option, none, some, List, [], ◌∷◌,
  ◌++◌, ltb, leb, ◌==◌, if◌then◌else◌, length,
}
use am_lang_core.Text.Utf8.{utf8_decode, units_of, utf8_utf16_length}
use am_lang_core.Text.Hash.{c_str, hash_bytes}

pub record StringHolder : Type 0 where
  pub is_string_constant : Bool
  pub length : ℕ
  pub string_value : List ℕ  -- the bytes in front of the terminating zero
  pub hash : ℕ
  pub char_length : ℕ
  pub wide : Option (List ℕ)

-- `*out_units` and the return value of `__string_hash_and_units`.
unfoldable pub hash_and_units : List ℕ → ℕ → ℕ × ℕ
unfolding hash_bytes utf8_utf16_length
hash_and_units str byte_len = (hash_bytes str, utf8_utf16_length str byte_len)

-- A holder over bytes of the given length, with the two cached numbers.
unfoldable pub holder_of : Bool → List ℕ → ℕ → StringHolder
unfolding hash_and_units
holder_of constant str len =
    let (hash, units) = hash_and_units str len in
    record {
      is_string_constant = constant;
      length = len;
      string_value = str;
      hash = hash;
      char_length = units;
      wide = none;
    }

-- `memory` says whether the allocation succeeds. `strlen` and `strcpy` stop at a zero byte.
unfoldable pub create_string_constant : (memory : Bool) → List ℕ → Option StringHolder
unfolding c_str holder_of
create_string_constant memory str =
    if memory then some (holder_of true (c_str str) (length (c_str str))) else none

unfoldable pub create_string : (memory : Bool) → List ℕ → Option StringHolder
unfolding c_str holder_of
create_string memory str =
    if memory then some (holder_of false (c_str str) (length (c_str str))) else none

-- The surrogates of an astral character.
abbrev pub high_unit : ℕ → ℕ
high_unit cp = 0xd800 + (cp - 0x10000) / 1024

abbrev pub low_unit : ℕ → ℕ
low_unit cp = 0xdc00 + (cp - 0x10000) % 1024

-- What one character writes at the end of `out`, the second unit only where there is room.
put_units : ℕ → List ℕ → ℕ → List ℕ
put_units units out cp =
    if ltb cp 0x10000
    then out ++ (cp ∷ [])
    else if ltb (length out + 1) units
    then out ++ (high_unit cp ∷ low_unit cp ∷ [])
    else out ++ (high_unit cp ∷ [])

-- `while (i < length && o < units)`, with `o` the number of units written.
unfoldable pub wide_loop : ℕ → List ℕ → (len units i : ℕ) → List ℕ → List ℕ
unfolding put_units
wide_loop zero s len units i out = out
wide_loop (suc fuel) s len units i out =
    let d = utf8_decode s len i in
    let rest = wide_loop fuel s len units (i + d.step) (put_units units out d.cp) in
    if ltb i len && ltb (length out) units then rest else out

-- The view that `__string_wide` returns, and the holder with the view in it. `none` is `NULL`.
unfoldable pub string_wide : (memory : Bool) → StringHolder → Option (List ℕ) × StringHolder
unfolding wide_loop
string_wide memory holder =
    if holder.char_length == holder.length then (none, holder) else elim holder.wide [
      | some view ↦ (some view, holder)
      | none ↦
          if holder.char_length == 0
          then (none, holder)
          else if memory
          then (let buf =
                wide_loop holder.length holder.string_value holder.length holder.char_length 0 [] in
              (some buf, record holder { wide = some buf }))
          else (none, holder)
    ]

-- The byte offset, and `*out_split`.
pub record ByteIndex : Type 0 where
  pub byte : ℕ
  pub split : Bool

abbrev pub byte_index : ℕ → Bool → ByteIndex
byte_index i b = record { byte = i; split = b }

unit_to_byte_loop : ℕ → List ℕ → (len unit_index i o : ℕ) → ByteIndex
unit_to_byte_loop zero s len unit_index i o = byte_index i false
unit_to_byte_loop (suc fuel) s len unit_index i o =
    let d = utf8_decode s len i in
    let rest = unit_to_byte_loop fuel s len unit_index (i + d.step) (o + units_of d.cp) in
    if ltb i len && ltb o unit_index
    then (if leb 0x10000 d.cp
        then (if o + 1 == unit_index then byte_index i true else rest)
        else rest)
    else byte_index i false

unfoldable pub string_unit_to_byte : StringHolder → ℕ → ByteIndex
unfolding unit_to_byte_loop
string_unit_to_byte holder unit_index =
    if holder.char_length == holder.length
    then byte_index (if ltb unit_index holder.length then unit_index else holder.length) false
    else unit_to_byte_loop holder.length holder.string_value holder.length unit_index 0 0

byte_to_unit_loop : ℕ → List ℕ → (len byte_offset i o : ℕ) → ℕ
byte_to_unit_loop zero s len byte_offset i o = o
byte_to_unit_loop (suc fuel) s len byte_offset i o =
    let d = utf8_decode s len i in
    let rest = byte_to_unit_loop fuel s len byte_offset (i + d.step) (o + units_of d.cp) in
    if ltb i len && ltb i byte_offset then rest else o

unfoldable pub string_byte_to_unit : StringHolder → ℕ → ℕ
unfolding byte_to_unit_loop
string_byte_to_unit holder byte_offset =
    if holder.char_length == holder.length
    then (if ltb byte_offset holder.length then byte_offset else holder.char_length)
    else byte_to_unit_loop holder.length holder.string_value holder.length byte_offset 0 0

unfoldable pub string_wide_free : StringHolder → StringHolder
string_wide_free holder = record holder { wide = none }
