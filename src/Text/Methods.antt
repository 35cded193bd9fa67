-- ===== src/Text/Methods.antt =====
-- The methods of Am.Lang.String: src/native-c/libc/Am/Lang/String.c, and `__concatenate_strings` of
-- src/native-c/libc/core.c. `memory` says whether an allocation succeeds. A method that uses a
-- failed allocation without a test ends in `crash`.
pub mod Indexing
pub mod Equality
pub mod Building
pub mod Slicing
use am_lang_core.Base.{
  ℕ, zero, suc, ◌+◌, ◌-◌, ◌%◌, ◌^◌, Bool, true, false, ◌&&◌, ◌||◌, Option, none, some, List, [],
  ◌∷◌, ◌++◌, ltb, leb, ◌==◌, if◌then◌else◌, length, get_or, take, drop, replicate,
}
use am_lang_core.Text.Utf8.{utf8_decode}
use am_lang_core.Text.Hash.{c_str}
use am_lang_core.Text.Holder.{
  StringHolder, holder_of, create_string_constant, string_wide, high_unit, low_unit, ByteIndex,
  string_unit_to_byte, string_byte_to_unit, wide_loop,
}

pub data Message : Type 0 where
  index_out_of_bounds end_index_too_high inside_character out_of_memory : Message

pub data Outcome (A : Type 0) : Type 0 where
  value : A → Outcome A
  thrown : Message → Outcome A
  crash : Outcome A

-- `none` is a String with no holder.
pub hash : Option StringHolder → ℕ
hash (some h) = h.hash
hash none = 0

pub get_length : Option StringHolder → ℕ
get_length (some h) = h.char_length
get_length none = 0

pub byte_length : Option StringHolder → ℕ
byte_length (some h) = h.length
byte_length none = 0

pub char_length : Option StringHolder → ℕ
char_length (some h) = h.char_length
char_length none = 0

-- The argument of `equals`: the null pointer, an object of another class, or a String.
pub data Other : Type 0 where
  null foreign : Other
  string : StringHolder → Other

-- `strcmp(a, b) == 0`, on the bytes in front of the first zero.
unfoldable pub bytes_equal : List ℕ → List ℕ → Bool
bytes_equal [] [] = true
bytes_equal [] (b ∷ ys) = false
bytes_equal (a ∷ xs) [] = false
bytes_equal (a ∷ xs) (b ∷ ys) = a == b && bytes_equal xs ys

unfoldable pub equals : StringHolder → Other → Bool
unfolding bytes_equal
equals h null = false
equals h foreign = false
equals h (string o) = h.hash == o.hash && bytes_equal (c_str h.string_value) (c_str o.string_value)

-- The buffer is zeroed, and `strcpy` and `strcat` stop at a zero byte.
pub padded : List ℕ → ℕ → List ℕ
padded bytes n = bytes ++ replicate (n - length bytes) 0

unfoldable pub op_plus :
    (memory : Bool) → Option StringHolder → Option StringHolder → Outcome (Option StringHolder)
unfolding padded c_str holder_of
op_plus memory this none = value this
op_plus memory none (some s) = value (some s)
op_plus memory (some h) (some s) =
    if memory
    then (let total = h.length + s.length in
        let text = padded (c_str h.string_value ++ c_str s.string_value) total in
        value (some (holder_of false text total)))
    else crash

-- `strncpy` stops at a zero byte and fills up with zeros.
unfoldable pub from_bytes : (memory : Bool) → List ℕ → Outcome StringHolder
unfolding padded c_str holder_of
from_bytes memory bytes =
    if memory
    then value (holder_of false (padded (c_str bytes) (length bytes)) (length bytes))
    else crash

unfoldable pub to_bytes : (memory : Bool) → StringHolder → Outcome (List ℕ)
to_bytes memory h = if memory then value (take h.length h.string_value) else crash

-- The scan of `characterAtNative` where the view could not be built.
unit_loop : ℕ → List ℕ → (len index i o unit : ℕ) → ℕ
unit_loop zero s len index i o unit = unit
unit_loop (suc fuel) s len index i o unit =
    let d = utf8_decode s len i in
    let narrow =
      unit_loop fuel s len index (i + d.step) (o + 1) (if o == index then d.cp else unit) in
    let high = if o == index then high_unit d.cp else unit in
    let astral =
      unit_loop fuel s len index (i + d.step) (o + 2)
        (if o + 1 == index then low_unit d.cp else high) in
    if ltb i len && leb o index then (if ltb d.cp 0x10000 then narrow else astral) else unit

-- What the two tests leave: the view, or the scan without it.
unit_of_view : StringHolder → ℕ → Option (List ℕ) → ℕ
unfolding unit_loop
unit_of_view h index none = unit_loop h.length h.string_value h.length index 0 0 0
unit_of_view h index (some view) = get_or view index 0

unfoldable pub character_at_native : (memory : Bool) → Option StringHolder → ℕ → Outcome ℕ
unfolding unit_of_view
character_at_native memory none index = thrown index_out_of_bounds
character_at_native memory (some h) index =
    if leb h.char_length index
    then thrown index_out_of_bounds
    else if h.char_length == h.length
    then value (get_or h.string_value index 0)
    else value (unit_of_view h index (string_wide memory h).0)

-- `strstr` of C: the offset of the first occurrence.
unfoldable pub is_prefix : List ℕ → List ℕ → Bool
is_prefix [] s = true
is_prefix (b ∷ bs) [] = false
is_prefix (b ∷ bs) (c ∷ s) = b == c && is_prefix bs s

unfoldable pub strstr : List ℕ → List ℕ → Option ℕ
unfolding is_prefix
strstr [] needle = if is_prefix needle [] then some 0 else none
strstr (b ∷ s) needle =
    let later = strstr s needle in
    if is_prefix needle (b ∷ s) then some 0 else elim later [ none ↦ none | some i ↦ some (suc i) ]

-- `none` is -1.
unfoldable pub index_of : StringHolder → StringHolder → Option ℕ
unfolding strstr c_str
index_of h s = elim (strstr (c_str h.string_value) (c_str s.string_value)) [
  | none ↦ none
  | some b ↦ some (string_byte_to_unit h b)
]

-- The loop of `lastIndexOf`: search from byte `i`; a hit becomes the last one and the search goes
-- on behind its first byte.
last_loop : ℕ → List ℕ → List ℕ → (len i : ℕ) → Option ℕ → Option ℕ
unfolding strstr
last_loop zero s needle len i last = last
last_loop (suc fuel) s needle len i last =
    if ltb i len
    then elim (strstr (c_str (drop i s)) needle) [
      | none ↦ last
      | some b ↦ last_loop fuel s needle len (i + b + 1) (some (i + b))
    ]
    else last

unfoldable pub last_index_of : StringHolder → StringHolder → Option ℕ
unfolding last_loop c_str
last_index_of h s =
    elim (last_loop h.length h.string_value (c_str s.string_value) h.length 0 none) [
      | none ↦ none
      | some b ↦ some (string_byte_to_unit h b)
    ]

-- The bytes between two offsets, as a string of its own.
slice : (memory : Bool) → StringHolder → ByteIndex → ByteIndex → Outcome StringHolder
unfolding holder_of
slice memory h from to =
    if from.split || to.split
    then thrown inside_character
    else if memory
    then value (
        holder_of false (take (to.byte - from.byte) (drop from.byte h.string_value))
          (to.byte - from.byte))
    else thrown out_of_memory

-- `start + length` wraps; both are unsigned ints.
unfoldable pub substring : (memory : Bool) → StringHolder → ℕ → ℕ → Outcome StringHolder
unfolding slice
substring memory h start count =
    let end_unit = (start + count) % 2 ^ 32 in
    if ltb h.char_length end_unit || ltb end_unit start
    then thrown end_index_too_high
    else slice memory h (string_unit_to_byte h start) (string_unit_to_byte h end_unit)

-- The copy of `getChars`: straight, from the view, or by a scan.
chars_of_view : StringHolder → Option (List ℕ) → List ℕ
unfolding wide_loop
chars_of_view h (some view) = take h.char_length view
chars_of_view h none = wide_loop h.length h.string_value h.length h.char_length 0 []

-- `array` and `memory` are the two allocations: the result array and the view.
unfoldable pub get_chars : (array memory : Bool) → Option StringHolder → Outcome (List ℕ)
unfolding chars_of_view
get_chars false memory h = thrown out_of_memory
get_chars true memory none = value []
get_chars true memory (some h) =
    if h.char_length == 0
    then value []
    else if h.char_length == h.length
    then value (take h.char_length h.string_value)
    else value (chars_of_view h (string_wide memory h).0)

-- `_native_copy`: a constant shares its bytes, anything else is copied byte for byte; `none` is a
-- null result.
unfoldable pub native_copy : (memory : Bool) → Option StringHolder → Option StringHolder
unfolding create_string_constant
native_copy memory none = none
native_copy memory (some h) =
    if h.is_string_constant
    then create_string_constant memory h.string_value
    else if memory
    then some (record h { is_string_constant = false; wide = none })
    else none

-- The two loops of `__concatenate_strings` over its arguments, from what was counted and copied so far:
-- null arguments are passed over, the first adds up the lengths, and the second is `strcat`.
unfoldable pub total_length : ℕ → List (Option StringHolder) → ℕ
total_length total [] = total
total_length total (none ∷ args) = total_length total args
total_length total (some h ∷ args) = total_length (total + h.length) args

unfoldable pub joined : List ℕ → List (Option StringHolder) → List ℕ
unfolding c_str
joined result [] = result
joined result (none ∷ args) = joined result args
joined result (some h ∷ args) = joined (result ++ c_str h.string_value) args

unfoldable pub concatenate_strings :
    (memory : Bool) → List (Option StringHolder) → Option StringHolder
unfolding total_length joined padded holder_of
concatenate_strings memory args =
    let total = total_length 0 args in
    if memory then some (holder_of false (padded (joined [] args) total) total) else none
