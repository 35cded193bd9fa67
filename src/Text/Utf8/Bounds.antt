-- ===== src/Text/Utf8/Bounds.antt =====
-- The decoder always moves on, never past the end, and yields a Unicode scalar value.
use am_lang_core.Base.{ℕ, ◌+◌, ◌≤◌, ◌<◌, ◌⊎◌, List, arith}
use am_lang_core.Text.Utf8.{Decoded, utf8_decode}

-- What a decoded step promises, read at `i` of a buffer of `len` bytes: it takes one to four bytes,
-- none of them behind the end, and its value is below 0x110000 and no surrogate.
pub record IsSound (len i : ℕ) (d : Decoded) : Type 0 where
  pub moves : 1 ≤ d.step
  pub short : d.step ≤ 4
  pub within : i < len → i + d.step ≤ len
  pub in_unicode : d.cp < 0x110000
  pub no_surrogate : (d.cp < 0xd800) ⊎ (0xdfff < d.cp)

-- Whatever the bytes are, well formed or not, a decoding step is sound: it makes progress, stays in the
-- buffer and yields a scalar value.
pub utf8_decode-IsSound : (s : List ℕ) (len i : ℕ) → IsSound len i (utf8_decode s len i)
unfolding utf8_decode
utf8_decode-IsSound s len i = ground arith
