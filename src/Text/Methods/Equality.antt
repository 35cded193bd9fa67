-- ===== src/Text/Methods/Equality.antt =====
-- `equals` compares the texts, and the cached hash never makes it wrong.
use am_lang_core.Base.{ℕ, ◌≡◌, ◌↔◌, true, List, [], ◌∷◌, arith}
use am_lang_core.Text.Hash.{c_str, hash_bytes-c_str}
use am_lang_core.Text.Holder.{StringHolder}
use am_lang_core.Text.Holder.View.{IsHolder}
use am_lang_core.Text.Methods.{bytes_equal, equals, string}

bytes_equal_iff : (s t : List ℕ) → (bytes_equal s t ≡ true) ↔ (s ≡ t)
unfolding bytes_equal
bytes_equal_iff [] [] = ground arith
bytes_equal_iff [] (b ∷ t) = ground arith
bytes_equal_iff (a ∷ s) [] = ground arith
bytes_equal_iff (a ∷ s) (b ∷ t) = ground (arith, bytes_equal_iff s t)

-- For two strings in order, `equals` answers true exactly when C sees the same text in both.
pub equals_iff :
    (h o : StringHolder)
    → IsHolder h
    → IsHolder o
    → (equals h (string o) ≡ true) ↔ (c_str h.string_value ≡ c_str o.string_value)
unfolding equals
equals_iff h o is_h is_o = ground (
  arith,
  bytes_equal_iff (c_str h.string_value) (c_str o.string_value),
  hash_bytes-c_str h.string_value,
  hash_bytes-c_str o.string_value,
)
