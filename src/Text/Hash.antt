-- ===== src/Text/Hash.antt =====
-- The string hash of src/native-c/libc/core.c: FNV-1a over the bytes of a C string and a final
-- mix, all modulo 2 ^ 32.
use am_lang_core.Base.{
  ℕ, ◌*◌, ◌/◌, ◌%◌, ◌^◌, ◌≡◌, refl, ap, arith, bit_xor, List, [], ◌∷◌, ◌==◌, if◌then◌else◌,
}

-- The bytes before the first zero: what the string functions of C see of a buffer.
unfoldable pub c_str : List ℕ → List ℕ
c_str [] = []
c_str (b ∷ bs) = if b == 0 then [] else b ∷ c_str bs

unfoldable pub fnv_loop : ℕ → List ℕ → ℕ
fnv_loop hash [] = hash
fnv_loop hash (b ∷ bs) = if b == 0 then hash else fnv_loop (bit_xor hash b * 16777619 % 2 ^ 32) bs

-- `hash ^= hash >> k`
shift_xor : ℕ → ℕ → ℕ
shift_xor hash k = bit_xor hash (hash / 2 ^ k)

unfoldable pub avalanche : ℕ → ℕ
unfolding shift_xor
avalanche hash =
    let h1 = shift_xor hash 16 * 0x85ebca6b % 2 ^ 32 in
    let h2 = shift_xor h1 13 * 0xc2b2ae35 % 2 ^ 32 in shift_xor h2 16

unfoldable pub hash_bytes : List ℕ → ℕ
unfolding fnv_loop avalanche
hash_bytes str = avalanche (fnv_loop 2166136261 str)

fnv_loop-c_str : (hash : ℕ) (s : List ℕ) → fnv_loop hash (c_str s) ≡ fnv_loop hash s
unfolding fnv_loop c_str
fnv_loop-c_str hash [] = refl
fnv_loop-c_str hash (b ∷ s) = ground (arith, fnv_loop-c_str (bit_xor hash b * 16777619 % 2 ^ 32) s)

-- The hash reads a text as C does, up to the first zero byte.
pub hash_bytes-c_str : (s : List ℕ) → hash_bytes (c_str s) ≡ hash_bytes s
unfolding hash_bytes
hash_bytes-c_str s = ap avalanche (fnv_loop-c_str 2166136261 s)
