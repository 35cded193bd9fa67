-- ===== src/Text/Holder/Positions.antt =====
-- Byte offsets and UTF-16 indices agree at every character boundary, in the fast case and in the
-- scan.
use am_lang_core.Base.{
  ℕ, zero, suc, ◌+◌, ◌≤◌, ◌<◌, ◌≡◌, ◌≢◌, refl, ap, true, false, List, [], ◌∷◌, arith,
}
use am_lang_core.Text.Utf8.{utf8_decode, units_of}
use am_lang_core.Text.Utf8.Bounds.{utf8_decode-IsSound}
use am_lang_core.Text.Utf8.Steps.{
  Steps, here, next, total_units, total_units-le, utf16_length-Steps, walk_from, Steps-le,
  Steps-append, total_units-append, utf8_decode_astral,
}
use am_lang_core.Text.Holder.{
  StringHolder, byte_index, unit_to_byte_loop, string_unit_to_byte, byte_to_unit_loop,
  string_byte_to_unit,
}
use am_lang_core.Text.Holder.View.{IsHolder}

module _ (s : List ℕ) (len : ℕ) where
  unit_to_byte_loop-Steps :
      (fuel u o : ℕ) {i j : ℕ} {cs : List ℕ}
      → Steps s len i cs j
      → len ≤ i + fuel
      → u ≡ o + total_units cs
      → unit_to_byte_loop fuel s len u i o ≡ byte_index j false
  unfolding unit_to_byte_loop
  unit_to_byte_loop-Steps zero u o (here e) fits eq = ground arith
  unit_to_byte_loop-Steps (suc fuel) u o (here e) fits eq = ground arith
  unit_to_byte_loop-Steps zero u o (next k room step cp rest) fits eq = absurd (omega arith)
  unit_to_byte_loop-Steps (suc fuel) u o {i} (next {c} k room step cp rest) fits eq =
      ground
        (arith, utf8_decode-IsSound s len i, unit_to_byte_loop-Steps fuel u (o + units_of c) rest)

  unit_to_byte_loop_split :
      (fuel u o : ℕ) {i j : ℕ} {cs : List ℕ}
      → Steps s len i cs j
      → len ≤ i + fuel
      → u ≡ o + total_units cs + 1
      → j < len
      → 0x10000 ≤ (utf8_decode s len j).cp
      → unit_to_byte_loop fuel s len u i o ≡ byte_index j true
  unfolding unit_to_byte_loop
  unit_to_byte_loop_split zero u o (here e) fits eq lt astral = absurd (omega arith)
  unit_to_byte_loop_split (suc fuel) u o (here e) fits eq lt astral =
      ground (arith, ap (utf8_decode s len) e)
  unit_to_byte_loop_split zero u o (next k room step cp rest) fits eq lt astral =
      absurd (omega arith)
  unit_to_byte_loop_split (suc fuel) u o {i} (next {c} k room step cp rest) fits eq lt astral =
      ground
        (arith, utf8_decode-IsSound s len i, unit_to_byte_loop_split fuel u (o + units_of c) rest)

  byte_to_unit_loop-Steps :
      (fuel o : ℕ) {i j : ℕ} {cs : List ℕ}
      → Steps s len i cs j
      → len ≤ i + fuel
      → i ≤ len
      → byte_to_unit_loop fuel s len j i o ≡ o + total_units cs
  unfolding byte_to_unit_loop
  byte_to_unit_loop-Steps zero o (here e) fits h = ground arith
  byte_to_unit_loop-Steps (suc fuel) o (here e) fits h = ground arith
  byte_to_unit_loop-Steps zero o (next k room step cp rest) fits h = absurd (omega arith)
  byte_to_unit_loop-Steps (suc fuel) o {i} {j} (next {c} k room step cp rest) fits h = ground (
    arith,
    utf8_decode-IsSound s len i,
    Steps-le s len {i = i + k} (omega (arith, (utf8_decode-IsSound s len i).within room)) rest,
    byte_to_unit_loop-Steps fuel (o + units_of c) rest,
  )

module _ (h : StringHolder) (is : IsHolder h) where
  -- In the fast case every character up to a boundary is one byte and one unit.
  fast_boundary :
      {cs : List ℕ} {b : ℕ}
      → Steps h.string_value h.length 0 cs b
      → h.char_length ≡ h.length
      → total_units cs ≡ b
  fast_boundary {cs} {b} w fast =
      let inside = Steps-le h.string_value h.length (omega arith) w in
      let (ds, rest) = walk_from h.string_value h.length b inside.1 in
      omega (
        arith,
        is.counted,
        utf16_length-Steps h.string_value h.length (Steps-append w rest),
        total_units-append cs ds,
        total_units-le h.string_value h.length w,
        total_units-le h.string_value h.length rest,
      )

  -- At a character boundary, `cs` being the text before it and `b` its byte offset: the index in
  -- UTF-16 units is taken to the byte offset with no split, and the byte offset back to the index.
  pub positions_inverse :
      {cs : List ℕ} {b : ℕ}
      → Steps h.string_value h.length 0 cs b
      → (string_unit_to_byte h (total_units cs) ≡ byte_index b false)
        × (string_byte_to_unit h b ≡ total_units cs)
  unfolding string_unit_to_byte string_byte_to_unit
  positions_inverse {cs} {b} w = ground (
    arith,
    fast_boundary w,
    Steps-le h.string_value h.length {i = 0} (omega arith) w,
    unit_to_byte_loop-Steps h.string_value h.length h.length (total_units cs) 0 w,
    byte_to_unit_loop-Steps h.string_value h.length h.length 0 w,
  )

  slow_of_astral :
      {cs : List ℕ} {b : ℕ}
      → Steps h.string_value h.length 0 cs b
      → b < h.length
      → 0x10000 ≤ (utf8_decode h.string_value h.length b).cp
      → h.char_length ≢ h.length
  slow_of_astral {cs} {b} w lt astral fast =
      let d = utf8_decode h.string_value h.length b in
      let on = Steps-append w (next d.step lt refl refl (here refl)) in
      absurd (
        ground (
          arith,
          fast_boundary w fast,
          fast_boundary on fast,
          total_units-append cs (d.cp ∷ []),
          utf8_decode_astral h.string_value h.length b,
        ))

  -- Where an astral character follows the boundary, the index of its low surrogate is reported as a
  -- split, with the byte offset of the character.
  pub split_character :
      {cs : List ℕ} {b : ℕ}
      → Steps h.string_value h.length 0 cs b
      → b < h.length
      → 0x10000 ≤ (utf8_decode h.string_value h.length b).cp
      → string_unit_to_byte h (total_units cs + 1) ≡ byte_index b true
  unfolding string_unit_to_byte
  split_character {cs} {b} w lt astral = ground (
    arith,
    slow_of_astral w lt astral,
    unit_to_byte_loop_split h.string_value h.length h.length (total_units cs + 1) 0 w,
  )
