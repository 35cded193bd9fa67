-- ===== src/Text/Utf8/Steps.antt =====
-- The characters of a buffer as the decoder walks it, and the walk that every loop over a buffer
-- follows.
use am_lang_core.Base.{
  ℕ, zero, suc, ◌+◌, ◌≤◌, ◌<◌, ◌≡◌, refl, sym, ◌∙◌, List, [], ◌∷◌, ◌++◌, arith, Bool-cases, inl,
  inr, ltb, ltb→lt,
}
use mathlib.Core.Path.{ap₂}
use am_lang_core.Text.Utf8.{utf8_decode, units_of, units_loop, utf8_utf16_length}
use am_lang_core.Text.Utf8.Bounds.{utf8_decode-IsSound}

-- From `i` the decoder reads the characters `cs` and stands at `j`.
pub data Steps (s : List ℕ) (len : ℕ) : ℕ → List ℕ → ℕ → Type 0 where
  here : {i j : ℕ} → i ≡ j → Steps s len i [] j
  next :
      {i j c : ℕ} {cs : List ℕ}
      → (k : ℕ) → i < len
      → (utf8_decode s len i).step ≡ k
      → (utf8_decode s len i).cp ≡ c
      → Steps s len (i + k) cs j
      → Steps s len i (c ∷ cs) j

abbrev pub total_units : List ℕ → ℕ
total_units [] = 0
total_units (c ∷ cs) = units_of c + total_units cs

pub utf8_decode_units :
    (s : List ℕ) (len i : ℕ) → units_of (utf8_decode s len i).cp ≤ (utf8_decode s len i).step
unfolding utf8_decode
utf8_decode_units s len i = ground arith

pub utf8_decode_astral :
    (s : List ℕ) (len i : ℕ) → 0x10000 ≤ (utf8_decode s len i).cp → (utf8_decode s len i).step ≡ 4
unfolding utf8_decode
utf8_decode_astral s len i h = ground arith

module _ (s : List ℕ) (len : ℕ) where
  -- Every buffer is walked to its end.
  walk : (fuel i : ℕ) → i ≤ len → len ≤ i + fuel → (cs : List ℕ) × Steps s len i cs len
  walk zero i h fits = ([], here (omega arith))
  walk (suc fuel) i h fits = elim (Bool-cases (ltb i len)) [
    | inr done ↦ ([], here (ground arith))
    | inl more ↦
        let d = utf8_decode s len i in
        let sound = utf8_decode-IsSound s len i in
        let (cs, rest) =
          walk fuel (i + d.step) (sound.within (ltb→lt _ _ more)) (omega (arith, ltb→lt)) in
        (d.cp ∷ cs, next d.step (ltb→lt _ _ more) refl refl rest)
  ]

  -- The loop adds up the units of the characters that are left.
  units_loop-Steps :
      (fuel units : ℕ) {i : ℕ} {cs : List ℕ}
      → Steps s len i cs len
      → len ≤ i + fuel
      → units_loop fuel s len i units ≡ units + total_units cs
  unfolding units_loop
  units_loop-Steps zero units (here e) fits = omega arith
  units_loop-Steps (suc fuel) units (here e) fits = ground arith
  units_loop-Steps zero units (next k room step cp rest) fits = absurd (omega arith)
  units_loop-Steps (suc fuel) units {i} (next {c} k room step cp rest) fits =
      ground (arith, utf8_decode-IsSound s len i, units_loop-Steps fuel (units + units_of c) rest)

  -- `__utf8_utf16_length` counts the UTF-16 units of the characters of the whole buffer.
  pub utf16_length-Steps :
      {cs : List ℕ} → Steps s len 0 cs len → utf8_utf16_length s len ≡ total_units cs
  unfolding utf8_utf16_length
  utf16_length-Steps w = units_loop-Steps len 0 w (omega arith) ∙ omega arith

  pub walk_all : (cs : List ℕ) × Steps s len 0 cs len
  walk_all = walk len 0 (omega arith) (omega arith)

  pub walk_from : (i : ℕ) → i ≤ len → (cs : List ℕ) × Steps s len i cs len
  walk_from i h = walk len i h (omega arith)

  -- A character has at most as many units as bytes.
  pub total_units-le : {i j : ℕ} {cs : List ℕ} → Steps s len i cs j → i + total_units cs ≤ j
  total_units-le (here e) = omega arith
  total_units-le {i} (next {cs} k room step cp rest) =
      ground (arith, utf8_decode_units s len i, total_units-le rest)

  pub pos_of_units : {i j : ℕ} {cs : List ℕ} → Steps s len i cs j → i < j → 0 < total_units cs
  pos_of_units (here e) h = absurd (omega arith)
  pos_of_units (next k room step cp rest) h = ground arith

  -- The walk to the end is unique.
  pub Steps-unique :
      {i : ℕ} {cs ds : List ℕ} → Steps s len i cs len → Steps s len i ds len → cs ≡ ds
  Steps-unique (here e) (here e') = refl
  Steps-unique (here e) (next k room step cp rest) = absurd (omega arith)
  Steps-unique (next k room step cp rest) (here e) = absurd (omega arith)
  Steps-unique (next k room step cp rest) (next k' room' step' cp' rest') =
      ap₂ ◌∷◌ (sym cp ∙ cp') (Steps-unique rest (rw (sym step' ∙ step) at rest'))

  pub Steps-le : {i j : ℕ} {cs : List ℕ} → i ≤ len → Steps s len i cs j → (i ≤ j) × (j ≤ len)
  Steps-le h (here e) = omega arith
  Steps-le {i} h (next k room step cp rest) =
      let sound = utf8_decode-IsSound s len i in
      omega (arith, sound.within room, Steps-le (omega (arith, sound.within room)) rest)

pub total_units-append : (cs ds : List ℕ) → total_units (cs ++ ds) ≡ total_units cs + total_units ds
total_units-append [] ds = omega arith
total_units-append (c ∷ cs) ds = omega (arith, total_units-append cs ds)

pub Steps-append :
    {s : List ℕ} {len i j k : ℕ} {cs ds : List ℕ}
    → Steps s len i cs j
    → Steps s len j ds k
    → Steps s len i (cs ++ ds) k
Steps-append (here e) w = rw e w
Steps-append (next k room step cp rest) w = next k room step cp (Steps-append rest w)
