-- ===== src/Numbers/Strings.antt =====
-- The texts of numbers are strings in order, and the buffers that they are printed to.
use am_lang_core.Base.{
  ℕ, zero, suc, ◌+◌, ◌-◌, ◌*◌, ◌^◌, ◌≤◌, ◌<◌, ◌≡◌, ◌↔◌, refl, sym, false, inl, inr, Bool-cases, ltb,
  ltb→lt, List, [], ◌∷◌, arith, length, get_or,
}
use am_lang_core.Values.{Endian, Field, load, NullableValue}
use am_lang_core.Values.Laws.{load-lt}
use am_lang_core.Text.Utf8.{utf8_decode, utf8_utf16_length}
use am_lang_core.Text.Utf8.Steps.{Steps, here, next, total_units, walk_all, utf16_length-Steps}
use am_lang_core.Text.Hash.{c_str}
use am_lang_core.Text.Holder.View.{IsHolder}
use am_lang_core.Numbers.{NumberString, number_string, decimal, decimal_signed}
use am_lang_core.Numbers.Decimal.{
  pow10, IsPrinted, decimal-IsPrinted, decimal_signed-IsPrinted, length-decimal_le,
  length-decimal_ge,
}
use am_lang_core.Numbers.Byte
use am_lang_core.Numbers.Short
use am_lang_core.Numbers.Int
use am_lang_core.Numbers.Long
use am_lang_core.Numbers.UByte
use am_lang_core.Numbers.UShort
use am_lang_core.Numbers.UInt
use am_lang_core.Numbers.ULong

-- ASCII text takes a byte for each unit.
IsPrinted-ascii : (s : List ℕ) (i : ℕ) → IsPrinted s → get_or s i 0 < 0x80
IsPrinted-ascii [] i h = omega arith
IsPrinted-ascii (c ∷ s) zero h = h.0.1
IsPrinted-ascii (c ∷ s) (suc i) h = IsPrinted-ascii s i h.1

ascii_step :
    (s : List ℕ) (len i : ℕ)
    → get_or s i 0 < 0x80
    → ((utf8_decode s len i).step ≡ 1) × ((utf8_decode s len i).cp < 0x10000)
unfolding utf8_decode
ascii_step s len i h = ground arith

module _ (s : List ℕ) (len : ℕ) (ascii : (i : ℕ) → get_or s i 0 < 0x80) where
  ascii_units : {i : ℕ} {cs : List ℕ} → Steps s len i cs len → i + total_units cs ≡ len
  ascii_units (here e) = omega arith
  ascii_units {i} (next k room step cp rest) =
      ground (arith, ascii_step s len i (ascii i), ascii_units rest)

  ascii_utf16_length : utf8_utf16_length s len ≡ len
  ascii_utf16_length =
      let (cs, w) = walk_all s len in omega (arith, utf16_length-Steps s len w, ascii_units w)

pub c_str-IsPrinted : (s : List ℕ) → IsPrinted s → c_str s ≡ s
unfolding c_str
c_str-IsPrinted [] h = refl
c_str-IsPrinted (c ∷ s) h = ground (arith, c_str-IsPrinted s)

pub number_string-IsHolder :
    (capacity : ℕ) (text : List ℕ) → IsPrinted text → IsHolder (number_string capacity text).holder
unfolding number_string
number_string-IsHolder capacity text h = record {
  size = refl;
  hashed = refl;
  counted = sym (ascii_utf16_length text (length text) (λ i. IsPrinted-ascii text i h));
  cached = inl refl;
}

-- A string in order, with room for the text and its terminating zero.
pub record Fits (n : NumberString) : Type 0 where
  pub in_order : IsHolder n.holder
  pub room : n.holder.length + 1 ≤ n.capacity

number_string-Fits :
    (capacity : ℕ) (text : List ℕ)
    → IsPrinted text
    → length text + 1 ≤ capacity
    → Fits (number_string capacity text)
unfolding number_string
number_string-Fits capacity text h room = record {
  in_order = number_string-IsHolder capacity text h;
  room = room;
}

ge_of_ltb : (a b : ℕ) → ltb a b ≡ false → b ≤ a
ge_of_ltb a b h = ground arith

length-decimal_signed :
    (k w x : ℕ)
    → x < 2 ^ w
    → 2 ^ w ≡ 2 * 2 ^ (w - 1)
    → 2 ^ (w - 1) < pow10 (suc k)
    → length (decimal_signed w x) ≤ suc (suc k)
unfolding decimal_signed
length-decimal_signed k w x h half big = elim (Bool-cases (ltb x (2 ^ (w - 1)))) [
  | inl low ↦
      let lt = ltb→lt x (2 ^ (w - 1)) low in
      rw low (omega (arith, length-decimal_le k x (omega arith)))
  | inr high ↦
      let ge : 2 ^ (w - 1) ≤ x = ge_of_ltb x (2 ^ (w - 1)) high in
      rw high (omega (arith, length-decimal_le k (2 ^ w - x) (omega arith)))
]

-- The text of a number fits the buffer that `toString` allocates, for every value of the seven
-- types other than ULong.
pub to_string-Fits :
    (e : Endian) (v : NullableValue)
    → Fits (Byte.to_string e v)
      × Fits (Short.to_string e v)
      × Fits (Int.to_string e v)
      × Fits (Long.to_string e v)
      × Fits (UByte.to_string e v)
      × Fits (UShort.to_string e v)
      × Fits (UInt.to_string e v)
unfolding Byte.to_string Short.to_string Int.to_string Long.to_string UByte.to_string
    UShort.to_string UInt.to_string
to_string-Fits e v = (
  number_string-Fits 5 _ (decimal_signed-IsPrinted 8 (load e Field.char_value v.value)) (
      omega (
        arith,
        length-decimal_signed 2 8 (load e Field.char_value v.value)
            (load-lt e Field.char_value v.value) refl (omega arith),
      )),
  number_string-Fits 7 _ (decimal_signed-IsPrinted 16 (load e Field.short_value v.value)) (
      omega (
        arith,
        length-decimal_signed 4 16 (load e Field.short_value v.value)
            (load-lt e Field.short_value v.value) refl (omega arith),
      )),
  number_string-Fits 12 _ (decimal_signed-IsPrinted 32 (load e Field.int_value v.value)) (
      omega (
        arith,
        length-decimal_signed 9 32 (load e Field.int_value v.value)
            (load-lt e Field.int_value v.value) refl (omega arith),
      )),
  number_string-Fits 21 _ (decimal_signed-IsPrinted 64 (load e Field.long_value v.value)) (
      omega (
        arith,
        length-decimal_signed 18 64 (load e Field.long_value v.value)
            (load-lt e Field.long_value v.value) refl (omega arith),
      )),
  number_string-Fits 4 _ (decimal-IsPrinted (load e Field.uchar_value v.value)) (
      omega (
        arith,
        length-decimal_le 2 (load e Field.uchar_value v.value)
            (omega (arith, load-lt e Field.uchar_value v.value)),
      )),
  number_string-Fits 6 _ (decimal-IsPrinted (load e Field.ushort_value v.value)) (
      omega (
        arith,
        length-decimal_le 4 (load e Field.ushort_value v.value)
            (omega (arith, load-lt e Field.ushort_value v.value)),
      )),
  number_string-Fits 11 _ (decimal-IsPrinted (load e Field.uint_value v.value)) (
      omega (
        arith,
        length-decimal_le 9 (load e Field.uint_value v.value)
            (omega (arith, load-lt e Field.uint_value v.value)),
      )),
)

ulong_small : (n : ℕ) → length (decimal n) + 1 ≤ 20 → n < 10 ^ 19
ulong_small n h = elim (Bool-cases (ltb n (10 ^ 19))) [
  | inl small ↦ ltb→lt n (10 ^ 19) small
  | inr large ↦ absurd (omega (arith, length-decimal_ge 19 n (ground arith) (omega arith)))
]

-- The text of an unsigned 64-bit number fits its buffer of 20 bytes exactly when the number is
-- below 10 ^ 19: from there on the terminating zero is written one byte behind the allocation.
pub ulong_to_string-room :
    (e : Endian) (v : NullableValue)
    → (((ULong.to_string e v).holder.length + 1 ≤ (ULong.to_string e v).capacity)
        ↔ (load e Field.ulong_value v.value < 10 ^ 19))
unfolding ULong.to_string number_string
ulong_to_string-room e v =
    let n = load e Field.ulong_value v.value in
    ((λ fits. ulong_small n fits), (λ small. omega (arith, length-decimal_le 18 n (omega arith))))
