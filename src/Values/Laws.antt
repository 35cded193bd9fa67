-- ===== src/Values/Laws.antt =====
-- What the tagged values promise: kinds survive in the flags, equality, and coercion.
use am_lang_core.Base.{
  ℕ, ◌%◌, ◌^◌, ◌<◌, ◌≡◌, refl, ◌≢◌, Bool, true, false, ◌==◌, none, some, if◌then◌else◌, arith,
}
use am_lang_core.Values.{
  Endian, Field, bits, store, load, sext, NullableValue, Ctype, ctype_eq, is_primitive_nullable,
  is_primitive_null, set_primitive_nullable, set_primitive_null, value_flags_to_ctype, ctype_flags,
}
use am_lang_core.Values.Equality.{primitive_or_object_equals, any_equals}
use am_lang_core.Values.Coerce.{long_of, value_of_long, coerce_primitive}

-- A member reads back what was stored in it, on either host.
pub load-store : (e : Endian) (f : Field) (x : ℕ) → load e f (store e f x) ≡ x % 2 ^ bits f
unfolding load store
load-store Endian.little Field.int_value x = omega arith
load-store Endian.little f x = omega arith
load-store Endian.big Field.int_value x = omega arith
load-store Endian.big f x = omega arith

pub load-lt : (e : Endian) (f : Field) (x : ℕ) → load e f x < 2 ^ bits f
unfolding load
load-lt Endian.little Field.int_value x = omega arith
load-lt Endian.little f x = omega arith
load-lt Endian.big Field.int_value x = omega arith
load-lt Endian.big f x = omega arith

-- The kinds that a boxed primitive can have.
abbrev pub is_boxed : Ctype → Bool
is_boxed Ctype.long_type = true
is_boxed Ctype.int_type = true
is_boxed Ctype.short_type = true
is_boxed Ctype.char_type = true
is_boxed Ctype.ulong_type = true
is_boxed Ctype.uint_type = true
is_boxed Ctype.ushort_type = true
is_boxed Ctype.uchar_type = true
is_boxed Ctype.bool_type = true
is_boxed _ = false

-- The kind of a boxed primitive is read back from its flags, whatever the nullable and null flags
-- are and whether they are set by the setters, and the two flags are read back as well.
pub flags_round_trip :
    (t : Ctype) (x : ℕ) (nullable null : Bool)
    → is_boxed t ≡ true
    → (value_flags_to_ctype
          (set_primitive_null
            (set_primitive_nullable (record { flags = ctype_flags t; value = x }) nullable)
            null).flags
        ≡ t)
      × (is_primitive_nullable (
            set_primitive_null
              (set_primitive_nullable (record { flags = ctype_flags t; value = x }) nullable)
              null)
          ≡ nullable)
      × (is_primitive_null (
            set_primitive_null
              (set_primitive_nullable (record { flags = ctype_flags t; value = x }) nullable)
              null)
          ≡ null)
unfolding value_flags_to_ctype ctype_flags set_primitive_null set_primitive_nullable
    is_primitive_nullable is_primitive_null
flags_round_trip Ctype.int_type x true true h = (refl, refl, refl)
flags_round_trip Ctype.int_type x true false h = (refl, refl, refl)
flags_round_trip Ctype.int_type x false true h = (refl, refl, refl)
flags_round_trip Ctype.int_type x false false h = (refl, refl, refl)
flags_round_trip t x nullable null h = ground arith

module _ (object_equals : ℕ → ℕ → Bool) where
  primitive_refl :
      (e : Endian) (v : ℕ) (t : Ctype) → primitive_or_object_equals object_equals e v v t ≡ true
  unfolding primitive_or_object_equals
  primitive_refl e v Ctype.int_type = ground arith
  primitive_refl e v t = ground arith

  -- Equality of tagged values is reflexive, whatever the `equals` methods answer.
  pub any_equals_refl : (e : Endian) (a : NullableValue) → any_equals object_equals e a a ≡ true
  unfolding any_equals
  any_equals_refl e a = ground (arith, primitive_refl e a.value (value_flags_to_ctype a.flags))

  primitive_comm :
      ((p q : ℕ) → object_equals p q ≡ object_equals q p)
      → (e : Endian) (v w : ℕ) (t : Ctype)
      → primitive_or_object_equals object_equals e v w t
        ≡ primitive_or_object_equals object_equals e w v t
  unfolding primitive_or_object_equals
  primitive_comm comm e v w Ctype.int_type = ground arith
  primitive_comm comm e v w t =
      ground (arith, comm (load e Field.object_value v) (load e Field.object_value w))

  -- Where the `equals` methods are symmetric, equality of two values of one kind is symmetric.
  pub any_equals_comm :
      ((p q : ℕ) → object_equals p q ≡ object_equals q p)
      → (e : Endian) (a b : NullableValue)
      → value_flags_to_ctype a.flags ≡ value_flags_to_ctype b.flags
      → any_equals object_equals e a b ≡ any_equals object_equals e b a
  unfolding any_equals
  any_equals_comm comm e a b same_kind =
      ground (arith, primitive_comm comm e a.value b.value (value_flags_to_ctype a.flags))

  -- Two nullable primitives are compared in the kind of the left one alone: a `Byte?` and an
  -- `Int?` that share their low eight bits and differ are equal from one side and not from the
  -- other, on a little-endian host.
  pub any_equals_mixed_kinds :
      (x y : ℕ)
      → x < 256
      → y < 2 ^ 32
      → y % 256 ≡ x
      → y ≢ x
      → (any_equals object_equals Endian.little
            (record { flags = 129; value = x })
            (record { flags = 161; value = y })
          ≡ true)
        × (any_equals object_equals Endian.little
              (record { flags = 161; value = y })
              (record { flags = 129; value = x })
            ≡ false)
  unfolding any_equals primitive_or_object_equals value_flags_to_ctype is_primitive_nullable
      is_primitive_null load
  any_equals_mixed_kinds x y hx hy low ne = ground arith

-- The `long long` after a conversion to a kind: reduced to the kind's range, and to 0 or 1 for bool.
abbrev pub in_range : Ctype → ℕ → ℕ
in_range Ctype.int_type l = sext 32 (l % 2 ^ 32)
in_range Ctype.short_type l = sext 16 (l % 2 ^ 16)
in_range Ctype.char_type l = sext 8 (l % 2 ^ 8)
in_range Ctype.uint_type l = l % 2 ^ 32
in_range Ctype.ushort_type l = l % 2 ^ 16
in_range Ctype.uchar_type l = l % 2 ^ 8
in_range Ctype.bool_type l = if l == 0 then 0 else 1
in_range _ l = l % 2 ^ 64

ctype-ctype_flags : (t : Ctype) → is_boxed t ≡ true → value_flags_to_ctype (ctype_flags t) ≡ t
unfolding value_flags_to_ctype ctype_flags
ctype-ctype_flags Ctype.int_type h = refl
ctype-ctype_flags t h = ground arith

ctype_eq_sound : (s t : Ctype) → ctype_eq s t ≡ true → s ≡ t
ctype_eq_sound Ctype.int_type Ctype.int_type h = refl
ctype_eq_sound s t h = ground arith

no_flags : value_flags_to_ctype 0 ≡ Ctype.object_type
unfolding value_flags_to_ctype
no_flags = refl

not_object :
    (t : Ctype)
    → is_boxed t ≡ true
    → (ctype_eq t Ctype.object_type ≡ false) × (ctype_eq t Ctype.any_type ≡ false)
not_object Ctype.int_type h = ground arith
not_object t h = ground arith

object_has_no_long : (e : Endian) (v : ℕ) → long_of e v Ctype.object_type ≡ none
unfolding long_of
object_has_no_long e v = refl

module _ (e : Endian) where
  in_range-long_of : (v l : ℕ) (t : Ctype) → long_of e v t ≡ some l → (in_range t l ≡ l)
  unfolding long_of sext
  in_range-long_of v l Ctype.int_type h = ground (arith, load-lt e Field.int_value v)
  in_range-long_of v l t h = ground (
    arith,
    load-lt e Field.int_value v,
    load-lt e Field.long_value v,
    load-lt e Field.short_value v,
    load-lt e Field.char_value v,
    load-lt e Field.uint_value v,
    load-lt e Field.ulong_value v,
    load-lt e Field.ushort_value v,
    load-lt e Field.uchar_value v,
    load-lt e Field.bool_value v,
  )

  Stored : ℕ → Ctype → Type 0
  Stored l t = (p : ℕ) × (value_of_long e l t ≡ some p) × (long_of e p t ≡ some (in_range t l))

  stored : (l : ℕ) (t : Ctype) → is_boxed t ≡ true → Stored l t
  unfolding Stored long_of value_of_long
  stored l Ctype.int_type h = (_, refl, ground (arith, load-store e Field.int_value l))
  stored l Ctype.long_type h = (_, refl, ground (arith, load-store e Field.long_value l))
  stored l Ctype.short_type h = (_, refl, ground (arith, load-store e Field.short_value l))
  stored l Ctype.char_type h = (_, refl, ground (arith, load-store e Field.char_value l))
  stored l Ctype.uint_type h = (_, refl, ground (arith, load-store e Field.uint_value l))
  stored l Ctype.ulong_type h = (_, refl, ground (arith, load-store e Field.ulong_value l))
  stored l Ctype.ushort_type h = (_, refl, ground (arith, load-store e Field.ushort_value l))
  stored l Ctype.uchar_type h = (_, refl, ground (arith, load-store e Field.uchar_value l))
  stored l Ctype.bool_type h =
      (_, refl, ground (arith, load-store e Field.bool_value 0, load-store e Field.bool_value 1))
  stored l t h = absurd (ground arith)

  -- Coercion of a non-null boxed primitive to a boxed kind: the flags then name that kind, and the
  -- number is the old one reduced to the range of the kind.
  pub coerce_primitive_lem :
      (v : NullableValue) (t : Ctype) (l : ℕ)
      → is_primitive_null v ≡ false
      → is_boxed t ≡ true
      → long_of e v.value (value_flags_to_ctype v.flags) ≡ some l
      → (value_flags_to_ctype (coerce_primitive e v t).flags ≡ t)
        × (long_of e (coerce_primitive e v t).value t ≡ some (in_range t l))
  unfolding coerce_primitive Stored
  coerce_primitive_lem v t l live boxed h = ground (
    arith,
    stored l t,
    in_range-long_of v.value l t,
    ctype-ctype_flags t,
    ctype_eq_sound (value_flags_to_ctype v.flags) t,
    object_has_no_long e v.value,
    no_flags,
    not_object t,
  )
