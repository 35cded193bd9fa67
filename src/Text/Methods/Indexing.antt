-- ===== src/Text/Methods/Indexing.antt =====
-- `characterAt` and `getChars` answer with the UTF-16 units of the text.
use am_lang_core.Base.{
  ℕ, zero, suc, ◌+◌, ◌≤◌, ◌<◌, ◌≡◌, ◌≢◌, ◌⊎◌, inl, inr, refl, ◌∙◌, Bool, true, false, some, none,
  List, [], arith, ltb, leb, ap, if◌then◌else◌, Bool-cases, get_or, ◌==◌, ==_iff, eq_nil, list_ext,
  take_all,
}
use native.Mathlib.Nat.{add-zero}
use am_lang_core.Text.Utf8.{utf8_decode}
use am_lang_core.Text.Utf8.Bounds.{utf8_decode-IsSound}
use am_lang_core.Text.Utf8.Steps.{
  Steps, here, next, total_units, utf16_length-Steps, utf8_decode_units, utf8_decode_astral,
  total_units-le, Steps-unique,
}
use am_lang_core.Text.Holder.{StringHolder, string_wide, high_unit, low_unit}
use am_lang_core.Text.Holder.View.{
  IsHolder, utf16_all, string_wide-eq, wide_loop-Steps, length-utf16_all,
}
use am_lang_core.Text.Methods.{
  value, thrown, index_out_of_bounds, unit_loop, character_at_native, get_chars,
}

module _ (s : List ℕ) (len : ℕ) where
  -- Once the index is passed the loop keeps its unit.
  unit_loop_done :
      (fuel index i o unit : ℕ) → index < o → unit_loop fuel s len index i o unit ≡ unit
  unfolding unit_loop
  unit_loop_done zero index i o unit h = refl
  unit_loop_done (suc fuel) index i o unit h = ground arith

  unit_loop-Steps :
      (fuel k o unit : ℕ) {i : ℕ} {cs : List ℕ}
      → Steps s len i cs len
      → len ≤ i + fuel
      → k < total_units cs
      → unit_loop fuel s len (o + k) i o unit ≡ get_or (utf16_all cs) k 0
  unfolding unit_loop
  unit_loop-Steps fuel k o unit (here e) fits lt = absurd (omega arith)
  unit_loop-Steps zero k o unit (next n room step cp rest) fits lt = absurd (omega arith)
  unit_loop-Steps (suc fuel) zero o unit {i} (next {c} n room step cp rest) fits lt = ground (
    arith,
    unit_loop_done fuel (o + 0) (i + n) (o + 1) c,
    unit_loop_done fuel (o + 0) (i + n) (o + 2) (high_unit c),
  )
  unit_loop-Steps (suc fuel) (suc zero) o unit {i} (next {c} n room step cp rest) fits lt = ground (
    arith,
    utf8_decode-IsSound s len i,
    unit_loop_done fuel (o + 1) (i + n) (o + 2) (low_unit c),
    unit_loop-Steps fuel zero (o + 1) unit rest,
  )
  unit_loop-Steps (suc fuel) (suc (suc k)) o unit {i} (next {c} n room step cp rest) fits lt =
      ground (
        arith,
        utf8_decode-IsSound s len i,
        unit_loop-Steps fuel (suc k) (o + 1) unit rest,
        unit_loop-Steps fuel k (o + 2) unit rest,
      )

module _ (s : List ℕ) (len : ℕ) where
  -- Where a walk takes one byte for each unit, the unit at `k` is that of the byte at `k`.
  get_or-fast :
      (k : ℕ) {i : ℕ} {cs : List ℕ}
      → Steps s len i cs len
      → i + total_units cs ≡ len
      → k < total_units cs
      → (get_or (utf16_all cs) k 0 ≡ (utf8_decode s len (i + k)).cp)
        × ((utf8_decode s len (i + k)).step ≡ 1)
  get_or-fast k (here e) fast lt = absurd (omega arith)
  get_or-fast zero {i} (next n room step cp rest) fast lt = ground (
    arith,
    utf8_decode_units s len i,
    utf8_decode_astral s len i,
    total_units-le s len rest,
    ap (utf8_decode s len) (add-zero i),
  )
  get_or-fast (suc k) {i} (next n room step cp rest) fast lt = ground (
    arith,
    utf8_decode_units s len i,
    utf8_decode_astral s len i,
    total_units-le s len rest,
    get_or-fast k rest,
  )

byte_or_malformed :
    (s : List ℕ) (len i : ℕ)
    → i < len
    → (utf8_decode s len i).step ≡ 1
    → (utf8_decode s len i).cp ≡ (if ltb (get_or s i 0) 0x80 then get_or s i 0 else 0xfffd)
unfolding utf8_decode
byte_or_malformed s len i room one = ground arith

module _ (h : StringHolder) (cs : List ℕ) (is : IsHolder h)
    (w : Steps h.string_value h.length 0 cs h.length) where
  view_or_none :
      (memory : Bool)
      → h.char_length ≢ h.length
      → ((string_wide memory h).0 ≡ none) ⊎ ((string_wide memory h).0 ≡ some (utf16_all cs))
  unfolding string_wide
  view_or_none true slow = inr (ground (arith, string_wide-eq h cs is w slow))
  view_or_none false slow = elim is.cached [
    | inl empty ↦ inl (ground arith)
    | inr (ds, w', full) ↦
        let same = Steps-unique h.string_value h.length w w' in inr (ground arith)
  ]

  -- `characterAt` throws behind the end, and answers with the unit at the index otherwise, whether
  -- the view exists, can be built or cannot; in the fast case, where the byte there is ASCII.
  pub character_at-utf16 :
      (memory : Bool) (index : ℕ)
      → (h.char_length ≢ h.length) ⊎ (get_or h.string_value index 0 < 0x80)
      → character_at_native memory (some h) index ≡ (
          if leb h.char_length index
          then thrown index_out_of_bounds
          else value (get_or (utf16_all cs) index 0))
  unfolding character_at_native
  character_at-utf16 memory index good = ground (
    arith,
    view_or_none memory,
    is.counted ∙ utf16_length-Steps h.string_value h.length w,
    unit_loop-Steps h.string_value h.length h.length index 0 0 w,
    get_or-fast h.string_value h.length index w,
    byte_or_malformed h.string_value h.length index,
  )

  -- In the fast case with ASCII bytes only, the bytes are the units.
  ascii-utf16 :
      h.char_length ≡ h.length
      → ((k : ℕ) → get_or h.string_value k 0 < 0x80)
      → h.string_value ≡ utf16_all cs
  ascii-utf16 fast ascii =
      let counted = is.counted ∙ utf16_length-Steps h.string_value h.length w in
      list_ext h.string_value (utf16_all cs) (omega (arith, is.size, length-utf16_all cs)) λ k lt.
        ground (
          arith,
          ascii k,
          is.size,
          get_or-fast h.string_value h.length k w,
          byte_or_malformed h.string_value h.length k,
        )

  -- Where the result array is allocated, `getChars` copies out the UTF-16 form of the whole text, whether
  -- the view exists, can be built or cannot; in the fast case, where the bytes are ASCII.
  pub get_chars-utf16 :
      (memory : Bool)
      → (h.char_length ≢ h.length) ⊎ ((k : ℕ) → get_or h.string_value k 0 < 0x80)
      → get_chars true memory (some h) ≡ value (utf16_all cs)
  unfolding get_chars
  get_chars-utf16 memory good =
      let counted = is.counted ∙ utf16_length-Steps h.string_value h.length w in
      let size = length-utf16_all cs in
      let empty = eq_nil (utf16_all cs) in
      elim good [
        | inl slow ↦ ground (
          arith,
          view_or_none memory slow,
          take_all h.char_length (utf16_all cs),
          wide_loop-Steps h.string_value h.length h.char_length h.length [] w,
        )
        | inr ascii ↦ elim (Bool-cases (h.char_length == h.length)) [
          | inl fast ↦
              let bytes = ascii-utf16 ((==_iff _ _).0 fast) ascii in
              ground (arith, is.size, take_all h.char_length h.string_value)
          | inr slow ↦ ground (
            arith,
            view_or_none memory,
            take_all h.char_length (utf16_all cs),
            wide_loop-Steps h.string_value h.length h.char_length h.length [] w,
          )
        ]
      ]

  -- Where every step is one byte and one unit, a byte above the ASCII range is malformed text: the
  -- decoder reads U+FFFD there and `characterAt` answers with the raw byte.
  pub fast_malformed :
      (memory : Bool) (index : ℕ)
      → h.char_length ≡ h.length
      → index < h.length
      → 0x80 ≤ get_or h.string_value index 0
      → (character_at_native memory (some h) index ≡ value (get_or h.string_value index 0))
        × (get_or (utf16_all cs) index 0 ≡ 0xfffd)
  unfolding character_at_native
  fast_malformed memory index fast lt high = ground (
    arith,
    is.counted ∙ utf16_length-Steps h.string_value h.length w,
    get_or-fast h.string_value h.length index w,
    byte_or_malformed h.string_value h.length index,
  )
