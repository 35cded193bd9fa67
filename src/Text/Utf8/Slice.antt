-- ===== src/Text/Utf8/Slice.antt =====
-- A piece of a buffer between two character boundaries decodes to the same characters.
use am_lang_core.Base.{
  ℕ, ◌+◌, ◌≤◌, ◌<◌, ◌≡◌, ap, ◌∙◌, List, arith, take, drop, get_or-take, get_or-drop, ltb,
  if◌then◌else◌, ◌⊎◌,
}
use mathlib.Core.Logic.{dite}
use native.Mathlib.Decide.{dec_lt}
use am_lang_core.Text.Utf8.Bounds.{utf8_decode-IsSound}
use am_lang_core.Text.Utf8.Steps.{Steps, here, next, Steps-le}
use am_lang_core.Text.Utf8.{
  byte_at, decoded, malformed, two_bytes, three_bytes, four_bytes, utf8_decode,
}

-- Two places show the same bytes as far as the shorter buffer goes.
record Agree (s : List ℕ) (len i : ℕ) (t : List ℕ) (n j : ℕ) : Type 0 where
  room : j < n
  fits : n + i ≤ len + j
  b0 : byte_at t j ≡ byte_at s i
  b1 : j + 1 < n → byte_at t (j + 1) ≡ byte_at s (i + 1)
  b2 : j + 2 < n → byte_at t (j + 2) ≡ byte_at s (i + 2)
  b3 : j + 3 < n → byte_at t (j + 3) ≡ byte_at s (i + 3)

-- What the decoder does, by the range of the lead byte.
module _ (s : List ℕ) (len i : ℕ) (room : i < len) where
  decode_two :
      0xc2 ≤ byte_at s i
      → byte_at s i ≤ 0xdf
      → utf8_decode s len i
        ≡ (if ltb (i + 1) len then two_bytes (byte_at s i) (byte_at s (i + 1)) else malformed)
  unfolding utf8_decode
  decode_two lo hi = ground arith

  decode_three :
      0xe0 ≤ byte_at s i
      → byte_at s i ≤ 0xef
      → utf8_decode s len i ≡ (
          if ltb (i + 2) len
          then three_bytes (byte_at s i) (byte_at s (i + 1)) (byte_at s (i + 2))
          else malformed)
  unfolding utf8_decode
  decode_three lo hi = ground arith

  decode_four :
      0xf0 ≤ byte_at s i
      → byte_at s i ≤ 0xf4
      → utf8_decode s len i ≡ (
          if ltb (i + 3) len
          then four_bytes (byte_at s i) (byte_at s (i + 1)) (byte_at s (i + 2)) (byte_at s (i + 3))
          else malformed)
  unfolding utf8_decode
  decode_four lo hi = ground arith

  decode_ascii : byte_at s i < 0x80 → utf8_decode s len i ≡ decoded 1 (byte_at s i)
  unfolding utf8_decode
  decode_ascii lo = ground arith

  decode_stray : 0x80 ≤ byte_at s i → byte_at s i < 0xc2 → utf8_decode s len i ≡ malformed
  unfolding utf8_decode
  decode_stray lo hi = ground arith

  decode_high : 0xf4 < byte_at s i → utf8_decode s len i ≡ malformed
  unfolding utf8_decode
  decode_high lo = ground arith

step_two : (b0 b1 : ℕ) → (two_bytes b0 b1 ≡ malformed) ⊎ ((two_bytes b0 b1).step ≡ 2)
unfolding two_bytes
step_two b0 b1 = ground arith

step_three : (b0 b1 b2 : ℕ) → (three_bytes b0 b1 b2 ≡ malformed) ⊎ ((three_bytes b0 b1 b2).step ≡ 3)
unfolding three_bytes
step_three b0 b1 b2 = ground arith

step_four :
    (b0 b1 b2 b3 : ℕ) → (four_bytes b0 b1 b2 b3 ≡ malformed) ⊎ ((four_bytes b0 b1 b2 b3).step ≡ 4)
unfolding four_bytes
step_four b0 b1 b2 b3 = ground arith

-- Which range a byte lies in.
data Range (b : ℕ) : Type 0 where
  ascii : b < 0x80 → Range b
  stray : 0x80 ≤ b → b < 0xc2 → Range b
  two : 0xc2 ≤ b → b ≤ 0xdf → Range b
  three : 0xe0 ≤ b → b ≤ 0xef → Range b
  four : 0xf0 ≤ b → b ≤ 0xf4 → Range b
  high : 0xf4 < b → Range b

range : (b : ℕ) → Range b
range b = dite (dec_lt b 0x80) ascii λ n1. dite (dec_lt b 0xc2) (stray (omega arith)) λ n2.
    dite (dec_lt b 0xe0) (λ h. two (omega arith) (omega arith))
      λ n3.
        dite (dec_lt b 0xf0) (λ h. three (omega arith) (omega arith))
          λ n4.
            dite (dec_lt b 0xf5) (λ h. four (omega arith) (omega arith)) λ n5. high (omega arith)

module _ (s : List ℕ) (len i : ℕ) (t : List ℕ) (n j : ℕ) (same : Agree s len i t n j)
    (inside : (utf8_decode s len i).step + j ≤ n) where
  there : i < len
  there = omega (arith, same.room, same.fits)

  decode_in : Range (byte_at s i) → utf8_decode t n j ≡ utf8_decode s len i
  decode_in (ascii lo) = ground (arith, decode_ascii s len i there, decode_ascii t n j same.room)
  decode_in (stray lo hi) = ground (arith, decode_stray s len i there, decode_stray t n j same.room)
  decode_in (high lo) = ground (arith, decode_high s len i there, decode_high t n j same.room)
  decode_in (two lo hi) = ground (
    arith,
    decode_two s len i there,
    decode_two t n j same.room,
    step_two (byte_at s i) (byte_at s (i + 1)),
  )
  decode_in (three lo hi) = ground (
    arith,
    decode_three s len i there,
    decode_three t n j same.room,
    step_three (byte_at s i) (byte_at s (i + 1)) (byte_at s (i + 2)),
  )
  decode_in (four lo hi) = ground (
    arith,
    decode_four s len i there,
    decode_four t n j same.room,
    step_four (byte_at s i) (byte_at s (i + 1)) (byte_at s (i + 2)) (byte_at s (i + 3)),
  )

  decode_local : utf8_decode t n j ≡ utf8_decode s len i
  decode_local = decode_in (range (byte_at s i))

abbrev pub piece : List ℕ → (a n : ℕ) → List ℕ
piece s a n = take n (drop a s)

byte_at-piece : (s : List ℕ) (a n j : ℕ) → j < n → byte_at (piece s a n) j ≡ byte_at s (a + j)
byte_at-piece s a n j h = get_or-take n (drop a s) j 0 h ∙ get_or-drop a s j 0

module _ (s : List ℕ) (len a n : ℕ) where
  piece-Agree : (i j : ℕ) → i ≡ a + j → j < n → a + n ≤ len → Agree s len i (piece s a n) n j
  piece-Agree i j e h fits =
      let at = λ (k : ℕ). byte_at-piece s a n (j + k) in
      record {
        room = h;
        fits = omega arith;
        b0 = ground (arith, byte_at-piece s a n j);
        b1 = λ r. ground (arith, at 1 r);
        b2 = λ r. ground (arith, at 2 r);
        b3 = λ r. ground (arith, at 3 r);
      }

  -- The characters between the boundaries `a` and `a + n` are those of the piece.
  pub Steps-piece :
      (j : ℕ) {i b : ℕ} {cs : List ℕ}
      → Steps s len i cs b
      → i ≡ a + j
      → b ≡ a + n
      → b ≤ len
      → Steps (piece s a n) n j cs n
  Steps-piece j (here e) start end fits = here (omega arith)
  Steps-piece j {i} {b} (next k room step cp rest) start end fits =
      let sound = utf8_decode-IsSound s len i in
      let ordered = Steps-le s len (omega (arith, sound.within room)) rest in
      let lt : j < n = omega (arith, sound.moves, ordered.0) in
      let same = piece-Agree i j start lt (omega arith) in
      let eq = decode_local s len i (piece s a n) n j same (omega (arith, ordered.0)) in
      next k lt (ap (λ d. d.step) eq ∙ step) (ap (λ d. d.cp) eq ∙ cp)
        (Steps-piece (j + k) rest (omega arith) end fits)
