-- ===== src/Text/Methods/Building.antt =====
-- The ways of making a string: every one leaves a holder in order, over the bytes that it should hold.
use am_lang_core.Base.{
  ℕ, zero, suc, ◌+◌, ◌-◌, ◌≤◌, ◌≡◌, refl, sym, ap, ◌∙◌, inl, inr, Bool, true, false, Option, some,
  none, List, [], ◌∷◌, ◌++◌, arith, length, length-append, length-replicate, replicate, take_all,
  Bool-cases,
}
use mathlib.Core.Path.{ap₂}
use mathlib.Core.List.{append-nil, append_assoc}
use am_lang_core.Text.Utf8.{utf8_utf16_length}
use am_lang_core.Text.Hash.{c_str, hash_bytes}
use am_lang_core.Text.Holder.{StringHolder, holder_of}
use am_lang_core.Text.Holder.View.{IsHolder}
use am_lang_core.Text.Methods.{
  value, padded, op_plus, from_bytes, to_bytes, native_copy, total_length, joined,
  concatenate_strings,
}

pub holder_of-IsHolder :
    (constant : Bool) (str : List ℕ) (len : ℕ)
    → len ≡ length str
    → IsHolder (holder_of constant str len)
unfolding holder_of
holder_of-IsHolder constant str len size = record {
  size = size;
  hashed = refl;
  counted = refl;
  cached = inl refl;
}

pub holder_of-units :
    (constant : Bool) (str : List ℕ) (len : ℕ)
    → (holder_of constant str len).char_length ≡ utf8_utf16_length str len
unfolding holder_of
holder_of-units constant str len = refl

pub length-c_str : (s : List ℕ) → length (c_str s) ≤ length s
unfolding c_str
length-c_str [] = omega arith
length-c_str (b ∷ s) = ground (arith, length-c_str s)

length-padded : (s : List ℕ) (n : ℕ) → length s ≤ n → length (padded s n) ≡ n
unfolding padded
length-padded s n h =
    omega (
      arith,
      length-append s (replicate (n - length s) 0),
      length-replicate {A = ℕ} (n - length s) 0,
    )

-- What C sees of a text that consists of C strings and zeros.
c_str-zeros : (n : ℕ) → c_str (replicate n 0) ≡ []
unfolding c_str
c_str-zeros zero = refl
c_str-zeros (suc n) = refl

c_str-append : (s t : List ℕ) → c_str (c_str s ++ t) ≡ c_str s ++ c_str t
unfolding c_str
c_str-append [] t = refl
c_str-append (b ∷ s) t = ground (arith, c_str-append s t)

pub c_str_idem : (s : List ℕ) → c_str (c_str s) ≡ c_str s
unfolding c_str
c_str_idem [] = refl
c_str_idem (b ∷ s) = ground (arith, c_str_idem s)

c_str-padded : (s : List ℕ) (n : ℕ) → c_str s ≡ s → c_str (padded s n) ≡ s
unfolding padded
c_str-padded s n clean =
    let zeros = replicate (n - length s) 0 in
    ap (λ t. c_str (t ++ zeros)) (sym clean)
    ∙ c_str-append s zeros
    ∙ ap (λ t. c_str s ++ t) (c_str-zeros (n - length s))
    ∙ append-nil (c_str s)
    ∙ clean

padded_holder : List ℕ → ℕ → StringHolder
padded_holder s n = holder_of false (padded s n) n

padded_holder-IsHolder : (s : List ℕ) (n : ℕ) → length s ≤ n → IsHolder (padded_holder s n)
unfolding padded_holder
padded_holder-IsHolder s n h = holder_of-IsHolder false (padded s n) n (sym (length-padded s n h))

padded_holder-text : (s : List ℕ) (n : ℕ) → c_str s ≡ s → c_str (padded_holder s n).string_value ≡ s
unfolding padded_holder holder_of
padded_holder-text s n clean = c_str-padded s n clean

-- What joining strings promises: a string in order, over the C strings of the operands one behind the
-- other, of the sum of their lengths.
pub record Joins (text : List ℕ) (total : ℕ) (r : StringHolder) : Type 0 where
  pub in_order : IsHolder r
  pub holds : c_str r.string_value ≡ text
  pub size : r.length ≡ total

padded_holder-Joins :
    (s : List ℕ) (n : ℕ) → c_str s ≡ s → length s ≤ n → Joins s n (padded_holder s n)
unfolding padded_holder holder_of
padded_holder-Joins s n clean h = record {
  in_order = padded_holder-IsHolder s n h;
  holds = padded_holder-text s n clean;
  size = refl;
}

clean_append : (s t : List ℕ) → c_str t ≡ t → c_str (c_str s ++ t) ≡ c_str s ++ t
clean_append s t clean = c_str-append s t ∙ ap (λ u. c_str s ++ u) clean

-- `+` on two strings joins them, embedded zero bytes ending an operand early.
pub op_plus-Joins :
    (h s : StringHolder)
    → IsHolder h
    → IsHolder s
    → (r : StringHolder) × (op_plus true (some h) (some s) ≡ value (some r))
      × Joins (c_str h.string_value ++ c_str s.string_value) (h.length + s.length) r
unfolding op_plus padded_holder
op_plus-Joins h s is_h is_s =
    let text = c_str h.string_value ++ c_str s.string_value in
    (
      padded_holder text (h.length + s.length),
      refl,
      padded_holder-Joins text (h.length + s.length)
          (clean_append h.string_value (c_str s.string_value) (c_str_idem s.string_value))
          (omega (
            arith,
            length-append (c_str h.string_value) (c_str s.string_value),
            length-c_str h.string_value,
            length-c_str s.string_value,
            is_h.size,
            is_s.size,
          )),
    )

-- Every argument that is there is in order.
abbrev pub AreHolders : List (Option StringHolder) → Type 0
AreHolders [] = Unit {0}
AreHolders (none ∷ args) = AreHolders args
AreHolders (some h ∷ args) = IsHolder h × AreHolders args

-- What a row of strings, some of them null, spells: the C strings one behind the other, and the sum of
-- the lengths.
pub data Spells : List (Option StringHolder) → List ℕ → ℕ → Type 0 where
  nothing : Spells [] [] 0
  null_argument :
      {args : List (Option StringHolder)} {text : List ℕ} {total : ℕ}
      → Spells args text total
      → Spells (none ∷ args) text total
  argument :
      {args : List (Option StringHolder)} {text : List ℕ} {total : ℕ} (h : StringHolder)
      → Spells args text total
      → Spells (some h ∷ args) (c_str h.string_value ++ text) (h.length + total)

Spells-clean :
    {args : List (Option StringHolder)} {text : List ℕ} {total : ℕ}
    → Spells args text total
    → c_str text ≡ text
unfolding c_str
Spells-clean nothing = refl
Spells-clean (null_argument rest) = Spells-clean rest
Spells-clean (argument {text = text} h rest) = clean_append h.string_value text (Spells-clean rest)

length-Spells :
    {args : List (Option StringHolder)} {text : List ℕ} {total : ℕ}
    → Spells args text total
    → AreHolders args
    → length text ≤ total
length-Spells nothing is = omega arith
length-Spells (null_argument rest) is = length-Spells rest is
length-Spells (argument {text = text} h rest) is = omega (
  arith,
  length-append (c_str h.string_value) text,
  length-c_str h.string_value,
  is.0.size,
  length-Spells rest is.1,
)

joined-Spells :
    {args : List (Option StringHolder)} {text : List ℕ} {total : ℕ} (before : List ℕ)
    → Spells args text total
    → joined before args ≡ before ++ text
unfolding joined
joined-Spells before nothing = sym (append-nil before)
joined-Spells before (null_argument rest) = joined-Spells before rest
joined-Spells before (argument {text = text} h rest) =
    joined-Spells (before ++ c_str h.string_value) rest
    ∙ append_assoc before (c_str h.string_value) text

total_length-Spells :
    {args : List (Option StringHolder)} {text : List ℕ} {total : ℕ} (before : ℕ)
    → Spells args text total
    → total_length before args ≡ before + total
unfolding total_length
total_length-Spells before nothing = omega arith
total_length-Spells before (null_argument rest) = total_length-Spells before rest
total_length-Spells before (argument h rest) =
    omega (arith, total_length-Spells (before + h.length) rest)

-- With memory, `__concatenate_strings` gives a string in order that holds what its arguments spell: the C
-- strings of those that are not null one behind the other, with the sum of their lengths.
pub concatenate-Joins :
    (args : List (Option StringHolder)) (text : List ℕ) (total : ℕ)
    → AreHolders args
    → Spells args text total
    → (r : StringHolder) × (concatenate_strings true args ≡ some r) × Joins text total r
unfolding concatenate_strings padded_holder
concatenate-Joins args text total is spells =
    let bytes : joined [] args ≡ text = joined-Spells [] spells in
    let size : total_length 0 args ≡ total = total_length-Spells 0 spells ∙ omega arith in
    (
      padded_holder text total,
      ap₂ (λ t n. some (padded_holder t n)) bytes size,
      padded_holder-Joins text total (Spells-clean spells) (length-Spells spells is),
    )

sub_self : (n : ℕ) → n - n ≡ 0
sub_self n = omega arith

stored_bytes :
    (s : List ℕ) (n : ℕ) → length s ≤ n → to_bytes true (padded_holder s n) ≡ value (padded s n)
unfolding to_bytes padded_holder holder_of
stored_bytes s n h = ap value (take_all n (padded s n) (omega (arith, length-padded s n h)))

-- Where memory is left, bytes without a zero survive `fromBytes` and `toBytes`, through a string in order.
pub to_bytes-from_bytes :
    (bytes : List ℕ)
    → c_str bytes ≡ bytes
    → (r : StringHolder) × (from_bytes true bytes ≡ value r)
      × IsHolder r
      × (to_bytes true r ≡ value bytes)
unfolding from_bytes padded_holder padded
to_bytes-from_bytes bytes clean = (
  padded_holder (c_str bytes) (length bytes),
  refl,
  padded_holder-IsHolder (c_str bytes) (length bytes) (length-c_str bytes),
  stored_bytes (c_str bytes) (length bytes) (length-c_str bytes)
      ∙ ap (λ t. value (padded t (length bytes))) clean
      ∙ ap (λ n. value (bytes ++ replicate n 0)) (sub_self (length bytes))
      ∙ ap value (append-nil bytes),
)

-- The bytes behind an embedded zero are lost, with all the memory that is asked for: `fromBytes` keeps the
-- length and stores zeros.
pub from_bytes_zero :
    (front back : List ℕ)
    → c_str front ≡ front
    → (r : StringHolder) × (from_bytes true (front ++ 0 ∷ back) ≡ value r)
      × (to_bytes true r ≡ value (front ++ replicate (suc (length back)) 0))
unfolding from_bytes padded_holder padded c_str
from_bytes_zero front back clean =
    let bytes = front ++ 0 ∷ back in
    let cut : c_str bytes ≡ front =
      ap (λ t. c_str (t ++ 0 ∷ back)) (sym clean)
      ∙ c_str-append front (0 ∷ back)
      ∙ append-nil (c_str front)
      ∙ clean in
    let room : length bytes - length front ≡ suc (length back) =
      omega (arith, length-append front (0 ∷ back)) in
    (
      padded_holder (c_str bytes) (length bytes),
      refl,
      stored_bytes (c_str bytes) (length bytes) (length-c_str bytes)
          ∙ ap (λ t. value (padded t (length bytes))) cut
          ∙ ap (λ n. value (front ++ replicate n 0)) room,
    )

-- What a copy of a string has in common with it.
pub record SameString (h r : StringHolder) : Type 0 where
  pub bytes : r.string_value ≡ h.string_value
  pub size : r.length ≡ h.length
  pub hash : r.hash ≡ h.hash
  pub units : r.char_length ≡ h.char_length
  pub kind : r.is_string_constant ≡ h.is_string_constant

-- A string that is sent to another isolate, with memory for the copy, arrives as a string in order with the
-- same bytes, cached numbers and kind. Bytes that are copied may hold zeros; a literal, whose bytes are
-- shared, is a C string.
pub native_copy-SameString :
    (h : StringHolder)
    → IsHolder h
    → (h.is_string_constant ≡ true → c_str h.string_value ≡ h.string_value)
    → (r : StringHolder) × (native_copy true (some h) ≡ some r) × IsHolder r × SameString h r
unfolding native_copy holder_of
native_copy-SameString h is literal = elim (Bool-cases h.is_string_constant) [
  | inl constant ↦
      let clean = literal constant in
      let size = ap length clean in
      (
        holder_of true (c_str h.string_value) (length (c_str h.string_value)),
        rw constant refl,
        holder_of-IsHolder true (c_str h.string_value) (length (c_str h.string_value)) refl,
        record {
          bytes = clean;
          size = size ∙ sym is.size;
          hash = ap hash_bytes clean ∙ sym is.hashed;
          units = ap₂ utf8_utf16_length clean (size ∙ sym is.size) ∙ sym is.counted;
          kind = sym constant;
        },
      )
  | inr dynamic ↦ (
    record h { is_string_constant = false; wide = none },
    rw dynamic refl,
    record { size = is.size; hashed = is.hashed; counted = is.counted; cached = inl refl },
    record { bytes = refl; size = refl; hash = refl; units = refl; kind = sym dynamic },
  )
]
