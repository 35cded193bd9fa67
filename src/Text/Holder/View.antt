-- ===== src/Text/Holder/View.antt =====
-- The cached view holds the UTF-16 units of the text, all of them and no more.
use am_lang_core.Base.{
  ℕ, zero, suc, ◌+◌, ◌≤◌, ◌≡◌, refl, sym, ◌≢◌, ◌⊎◌, ◌∙◌, inl, inr, true, none, some, List, [], ◌∷◌,
  ◌++◌, arith, ltb, if◌then◌else◌, length, length-append,
}
use mathlib.Core.List.{append-nil, append_assoc}
use am_lang_core.Text.Utf8.{utf8_utf16_length, units_of}
use am_lang_core.Text.Utf8.Bounds.{utf8_decode-IsSound}
use am_lang_core.Text.Utf8.Steps.{
  Steps, here, next, total_units, utf16_length-Steps, Steps-unique, pos_of_units,
}
use am_lang_core.Text.Hash.{hash_bytes}
use am_lang_core.Text.Holder.{StringHolder, high_unit, low_unit, put_units, wide_loop, string_wide}

-- The UTF-16 form of a character and of a text.
abbrev pub utf16 : ℕ → List ℕ
utf16 c = if ltb c 0x10000 then c ∷ [] else high_unit c ∷ low_unit c ∷ []

abbrev pub utf16_all : List ℕ → List ℕ
utf16_all [] = []
utf16_all (c ∷ cs) = utf16 c ++ utf16_all cs

-- What every way of making a string establishes: the length is that of the buffer, the two cached
-- numbers belong to the bytes, and a cached view is the UTF-16 form of the text.
pub record IsHolder (h : StringHolder) : Type 0 where
  pub size : h.length ≡ length h.string_value
  pub hashed : h.hash ≡ hash_bytes h.string_value
  pub counted : h.char_length ≡ utf8_utf16_length h.string_value h.length
  pub cached :
      (h.wide ≡ none)
      ⊎ ((cs : List ℕ) × Steps h.string_value h.length 0 cs h.length
          × (h.wide ≡ some (utf16_all cs)))

pub length-utf16_all : (cs : List ℕ) → length (utf16_all cs) ≡ total_units cs
length-utf16_all [] = refl
length-utf16_all (c ∷ cs) =
    ground (arith, length-append (utf16 c) (utf16_all cs), length-utf16_all cs)

put_units-eq :
    (units c : ℕ) (out : List ℕ)
    → length out + units_of c ≤ units
    → put_units units out c ≡ out ++ utf16 c
unfolding put_units
put_units-eq units c out h = ground arith

module _ (s : List ℕ) (len units : ℕ) where
  pub wide_loop-Steps :
      (fuel : ℕ) {i : ℕ} {cs : List ℕ} (out : List ℕ)
      → Steps s len i cs len
      → len ≤ i + fuel
      → length out + total_units cs ≤ units
      → wide_loop fuel s len units i out ≡ out ++ utf16_all cs
  unfolding wide_loop
  wide_loop-Steps zero out (here e) fits room = sym (append-nil out)
  wide_loop-Steps (suc fuel) out (here e) fits room = ground (arith, append-nil out)
  wide_loop-Steps zero out (next k lt step cp rest) fits room = absurd (omega arith)
  wide_loop-Steps (suc fuel) {i} out (next {c} {cs} k lt step cp rest) fits room = ground (
    arith,
    utf8_decode-IsSound s len i,
    put_units-eq units c out,
    append_assoc out (utf16 c) (utf16_all cs),
    length-append out (utf16 c),
    wide_loop-Steps fuel (put_units units out c) rest,
  )

abbrev pub with_view : StringHolder → List ℕ → StringHolder
with_view h view = record h { wide = some view }

-- Both the first call, which fills the buffer, and a later one, which finds it.
pub string_wide-eq :
    (h : StringHolder) (cs : List ℕ)
    → IsHolder h
    → Steps h.string_value h.length 0 cs h.length
    → h.char_length ≢ h.length
    → string_wide true h ≡ (some (utf16_all cs), with_view h (utf16_all cs))
unfolding string_wide
string_wide-eq h cs is w slow =
    let counted = is.counted ∙ utf16_length-Steps h.string_value h.length w in
    let filled =
      wide_loop-Steps h.string_value h.length h.char_length h.length [] w (omega arith)
        (omega arith) in
    let some_units = pos_of_units h.string_value h.length w in
    elim is.cached [
      | inl empty ↦ ground arith
      | inr (ds, w', full) ↦ let same = Steps-unique h.string_value h.length w w' in ground arith
    ]

with_view-IsHolder :
    (h : StringHolder) (cs : List ℕ)
    → IsHolder h
    → Steps h.string_value h.length 0 cs h.length
    → IsHolder (with_view h (utf16_all cs))
with_view-IsHolder h cs is w = record {
  size = is.size;
  hashed = is.hashed;
  counted = is.counted;
  cached = inr (cs, w, refl);
}

-- A string outside the fast case, with its text `cs`, and memory for the view: `__string_wide` returns the
-- UTF-16 form of the text, filled to the last slot of its buffer, and leaves a holder that is in order.
pub string_wide-utf16 :
    (h : StringHolder) (cs : List ℕ)
    → IsHolder h
    → Steps h.string_value h.length 0 cs h.length
    → h.char_length ≢ h.length
    → ((string_wide true h).0 ≡ some (utf16_all cs))
      × (length (utf16_all cs) ≡ h.char_length)
      × IsHolder (string_wide true h).1
string_wide-utf16 h cs is w slow = rw (string_wide-eq h cs is w slow) (
  refl,
  length-utf16_all cs ∙ sym (is.counted ∙ utf16_length-Steps h.string_value h.length w),
  with_view-IsHolder h cs is w,
)
