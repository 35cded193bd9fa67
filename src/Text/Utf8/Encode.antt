-- ===== src/Text/Utf8/Encode.antt =====
-- An encoder, as a specification of the decoder: what Unicode says the bytes of a character are.
use am_lang_core.Base.{
  ℕ, ◌+◌, ◌/◌, ◌%◌, ◌≤◌, ◌<◌, ◌≡◌, ◌⊎◌, List, [], ◌∷◌, ◌++◌, ap, ◌∙◌, arith, ltb, if◌then◌else◌,
  length, get_or-append, length-append,
}
use am_lang_core.Text.Utf8.{decoded, byte_at, utf8_decode}

unfoldable pub utf8_encode : ℕ → List ℕ
utf8_encode c =
    if ltb c 0x80
    then c ∷ []
    else if ltb c 0x800
    then (0xc0 + c / 64) ∷ (0x80 + c % 64) ∷ []
    else if ltb c 0x10000
    then (0xe0 + c / 4096) ∷ (0x80 + c / 64 % 64) ∷ (0x80 + c % 64) ∷ []
    else (0xf0 + c / 262144) ∷ (0x80 + c / 4096 % 64) ∷ (0x80 + c / 64 % 64) ∷ (0x80 + c % 64) ∷ []

pub record IsScalar (c : ℕ) : Type 0 where
  pub in_unicode : c < 0x110000
  pub no_surrogate : (c < 0xd800) ⊎ (0xdfff < c)

module _ (s : List ℕ) (len i c : ℕ) where
  one_byte : i < len → byte_at s i ≡ c → c < 0x80 → utf8_decode s len i ≡ decoded 1 c
  unfolding utf8_decode
  one_byte room b0 small = ground arith

  two_bytes :
      i + 1 < len
      → byte_at s i ≡ 0xc0 + c / 64
      → byte_at s (i + 1) ≡ 0x80 + c % 64
      → 0x80 ≤ c
      → c < 0x800
      → utf8_decode s len i ≡ decoded 2 c
  unfolding utf8_decode
  two_bytes room b0 b1 large small = ground arith

  three_bytes :
      i + 2 < len
      → byte_at s i ≡ 0xe0 + c / 4096
      → byte_at s (i + 1) ≡ 0x80 + c / 64 % 64
      → byte_at s (i + 2) ≡ 0x80 + c % 64
      → 0x800 ≤ c
      → c < 0x10000
      → (c < 0xd800) ⊎ (0xdfff < c)
      → utf8_decode s len i ≡ decoded 3 c
  unfolding utf8_decode
  three_bytes room b0 b1 b2 large small no_surrogate = ground arith

  four_bytes :
      i + 3 < len
      → byte_at s i ≡ 0xf0 + c / 262144
      → byte_at s (i + 1) ≡ 0x80 + c / 4096 % 64
      → byte_at s (i + 2) ≡ 0x80 + c / 64 % 64
      → byte_at s (i + 3) ≡ 0x80 + c % 64
      → 0x10000 ≤ c
      → c < 0x110000
      → utf8_decode s len i ≡ decoded 4 c
  unfolding utf8_decode
  four_bytes room b0 b1 b2 b3 large small = ground arith

module _ (before bytes : List ℕ) (k : ℕ) where
  -- A byte behind a prefix, and the room for it.
  byte_behind : byte_at (before ++ bytes) (length before + k) ≡ byte_at bytes k
  byte_behind = get_or-append before bytes k 0

first_byte : (before bytes : List ℕ) → byte_at (before ++ bytes) (length before) ≡ byte_at bytes 0
first_byte before bytes =
    ap (byte_at (before ++ bytes)) (omega arith) ∙ get_or-append before bytes 0 0

-- Between any bytes before and behind it, the decoder reads an encoded character back and takes exactly its
-- bytes.
pub decode-encode :
    (before behind : List ℕ) (c : ℕ)
    → IsScalar c
    → utf8_decode
        (before ++ (utf8_encode c ++ behind))
        (length (before ++ (utf8_encode c ++ behind)))
        (length before)
      ≡ decoded (length (utf8_encode c)) c
unfolding utf8_encode
decode-encode before behind c h = ground (
  arith,
  length-append before (utf8_encode c ++ behind),
  first_byte before (utf8_encode c ++ behind),
  byte_behind before (utf8_encode c ++ behind) 1,
  byte_behind before (utf8_encode c ++ behind) 2,
  byte_behind before (utf8_encode c ++ behind) 3,
  one_byte text (length text) (length before) c,
  two_bytes text (length text) (length before) c,
  three_bytes text (length text) (length before) c,
  four_bytes text (length text) (length before) c,
)
  where
    text : List ℕ
    text = before ++ (utf8_encode c ++ behind)
