-- ===== src/Text/Methods/Slicing.antt =====
-- `substring` cuts at character boundaries and keeps the characters.
use am_lang_core.Base.{
  ℕ, ◌+◌, ◌-◌, ◌^◌, ◌≤◌, ◌<◌, ◌≡◌, ap, ◌∙◌, Bool, true, false, List, arith, length-take_le,
  length-drop, drop, sym,
}
use am_lang_core.Text.Utf8.{utf8_decode}
use am_lang_core.Text.Utf8.Steps.{
  Steps, total_units, total_units-append, Steps-append, utf16_length-Steps, walk_from, Steps-le,
}
use am_lang_core.Text.Utf8.Slice.{piece, Steps-piece}
use am_lang_core.Text.Holder.{StringHolder, holder_of, ByteIndex, string_unit_to_byte}
use am_lang_core.Text.Holder.View.{IsHolder}
use am_lang_core.Text.Holder.Positions.{positions_inverse, split_character}
use am_lang_core.Text.Methods.{value, thrown, inside_character, slice, substring}
use am_lang_core.Text.Methods.Building.{holder_of-IsHolder, holder_of-units}

module _ (h : StringHolder) (is : IsHolder h) (small : h.char_length < 2 ^ 32) where
  units_inside :
      {cs : List ℕ} {b : ℕ} → Steps h.string_value h.length 0 cs b → total_units cs ≤ h.char_length
  units_inside {cs} {b} w =
      let inside = Steps-le h.string_value h.length (omega arith) w in
      let (ds, rest) = walk_from h.string_value h.length b inside.1 in
      omega (
        arith,
        is.counted,
        utf16_length-Steps h.string_value h.length (Steps-append w rest),
        total_units-append cs ds,
      )

  -- The text `ds` between two character boundaries: `substring`, called with the number of units before it
  -- and the number of its own and with memory for the new string, answers with a string in order whose text
  -- is `ds` and whose length is the one asked for.
  pub substring_between :
      {cs ds : List ℕ} {a b : ℕ}
      → Steps h.string_value h.length 0 cs a
      → Steps h.string_value h.length a ds b
      → (substring true h (total_units cs) (total_units ds)
          ≡ value (holder_of false (piece h.string_value a (b - a)) (b - a)))
        × IsHolder (holder_of false (piece h.string_value a (b - a)) (b - a))
        × Steps (piece h.string_value a (b - a)) (b - a) 0 ds (b - a)
        × ((holder_of false (piece h.string_value a (b - a)) (b - a)).char_length ≡ total_units ds)
  unfolding substring
  substring_between {cs} {ds} {a} {b} w v =
      let from = Steps-le h.string_value h.length (omega arith) w in
      let to = Steps-le h.string_value h.length from.1 v in
      let both = Steps-append w v in
      let sum = total_units-append cs ds in
      let inner =
        Steps-piece h.string_value h.length a (b - a) 0 v (omega arith) (omega arith) to.1 in
      let size =
        length-take_le (b - a) (drop a h.string_value)
          (omega (arith, length-drop a h.string_value, is.size)) in
      (
        ground (
          arith,
          units_inside both,
          (positions_inverse h is w).0,
          (positions_inverse h is both).0,
        ),
        holder_of-IsHolder false (piece h.string_value a (b - a)) (b - a) (sym size),
        inner,
        holder_of-units false (piece h.string_value a (b - a)) (b - a)
            ∙ utf16_length-Steps (piece h.string_value a (b - a)) (b - a) inner,
      )

  split_end :
      (memory : Bool) (from to : ByteIndex)
      → to.split ≡ true
      → slice memory h from to ≡ thrown inside_character
  unfolding slice
  split_end memory from to e = ground arith

  split_start :
      (memory : Bool) (from to : ByteIndex)
      → from.split ≡ true
      → slice memory h from to ≡ thrown inside_character
  unfolding slice
  split_start memory from to e = ground arith

  -- A range that starts on the low surrogate of an astral character is refused, and one that ends there
  -- from any earlier start too, whether or not memory is left.
  pub substring_inside_character :
      (memory : Bool) {cs : List ℕ} {b : ℕ}
      → Steps h.string_value h.length 0 cs b
      → b < h.length
      → 0x10000 ≤ (utf8_decode h.string_value h.length b).cp
      → ((count : ℕ)
          → total_units cs + 1 + count ≤ h.char_length
          → substring memory h (total_units cs + 1) count ≡ thrown inside_character)
        × ((start count : ℕ)
            → start + count ≡ total_units cs + 1
            → total_units cs + 1 ≤ h.char_length
            → substring memory h start count ≡ thrown inside_character)
  unfolding substring
  substring_inside_character memory {cs} w lt astral =
      let split = ap (λ p. p.split) (split_character h is w lt astral) in
      (
        λ count room. ground (
          arith,
          split_start memory (string_unit_to_byte h (total_units cs + 1))
              (string_unit_to_byte h (total_units cs + 1 + count)) split,
        ),
        λ start count ends room. rw ends (
            ground (
              arith,
              split_end memory (string_unit_to_byte h start)
                  (string_unit_to_byte h (total_units cs + 1)) split,
            )),
      )
