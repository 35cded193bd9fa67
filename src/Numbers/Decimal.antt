-- ===== src/Numbers/Decimal.antt =====
-- What `sprintf` prints of a number: its digits, how many there are, and what the parsers read in them.
use am_lang_core.Base.{
  ℕ, zero, suc, ◌+◌, ◌*◌, ◌/◌, ◌%◌, ◌^◌, ◌≤◌, ◌<◌, ◌≡◌, refl, true, List, [], ◌∷◌, arith, length,
  All, Bool-cases, inl, inr, ltb, ◌-◌, ◌==◌,
}
use am_lang_core.Numbers.{decimal_loop, decimal, decimal_signed, is_digit, digits_value}
use am_lang_core.Numbers.Long.{digits_loop}

abbrev pub pow10 : ℕ → ℕ
pow10 zero = 1
pow10 (suc k) = 10 * pow10 k

-- Printing and then reading goes on with what follows the digits.
digits_value-loop :
    (fuel n : ℕ) (acc : List ℕ)
    → n < pow10 fuel
    → digits_value 0 (decimal_loop fuel n acc) ≡ digits_value n acc
unfolding decimal_loop digits_value
digits_value-loop zero n acc h = ground arith
digits_value-loop (suc fuel) n acc h =
    ground (arith, digits_value-loop fuel (n / 10) ((b'0' + n % 10) ∷ acc))

digits_loop-loop :
    (fuel n : ℕ) (acc : List ℕ)
    → n < pow10 fuel
    → n < 2 ^ 64
    → digits_loop 0 (decimal_loop fuel n acc) ≡ digits_loop n acc
unfolding decimal_loop digits_loop
digits_loop-loop zero n acc h small = ground arith
digits_loop-loop (suc fuel) n acc h small =
    ground (arith, digits_loop-loop fuel (n / 10) ((b'0' + n % 10) ∷ acc))

pub digits_value-decimal : (n : ℕ) → n < 2 ^ 64 → digits_value 0 (decimal n) ≡ n
unfolding decimal digits_value
digits_value-decimal n h = digits_value-loop 20 n [] (omega arith)

pub digits_loop-decimal : (n : ℕ) → n < 2 ^ 64 → digits_loop 0 (decimal n) ≡ n
unfolding decimal digits_loop
digits_loop-decimal n h = digits_loop-loop 20 n [] (omega arith) h

-- A printed text begins with a digit.
begins :
    (fuel n c : ℕ) (acc : List ℕ)
    → is_digit c ≡ true
    → (d : ℕ) × (ds : List ℕ) × (decimal_loop fuel n (c ∷ acc) ≡ d ∷ ds) × (is_digit d ≡ true)
unfolding decimal_loop
begins zero n c acc h = (c, acc, refl, h)
begins (suc fuel) n c acc h =
    let d = b'0' + n % 10 in
    elim (Bool-cases (n / 10 == 0)) [
      | inl last ↦ (d, c ∷ acc, rw last refl, ground arith)
      | inr more ↦ rw more (begins fuel (n / 10) d (c ∷ acc) (ground arith))
    ]

pub decimal_begins : (n : ℕ) → (d : ℕ) × (ds : List ℕ) × (decimal n ≡ d ∷ ds) × (is_digit d ≡ true)
unfolding decimal decimal_loop
decimal_begins n = elim (Bool-cases (n / 10 == 0)) [
  | inl last ↦ (b'0' + n % 10, [], rw last refl, ground arith)
  | inr more ↦ rw more (begins 19 (n / 10) (b'0' + n % 10) [] (ground arith))
]

-- Digits and the sign are ASCII characters other than zero.
abbrev pub IsPrinted : List ℕ → Type 0
IsPrinted = All (λ c. (0 < c) × (c < 0x80))

decimal_loop-IsPrinted :
    (fuel n : ℕ) (acc : List ℕ) → IsPrinted acc → IsPrinted (decimal_loop fuel n acc)
unfolding decimal_loop
decimal_loop-IsPrinted zero n acc h = h
decimal_loop-IsPrinted (suc fuel) n acc h =
    let d : (0 < b'0' + n % 10) × (b'0' + n % 10 < 0x80) = (omega arith, omega arith) in
    elim (Bool-cases (n / 10 == 0)) [
      | inl last ↦ rw last (d, h)
      | inr more ↦ rw more (decimal_loop-IsPrinted fuel (n / 10) ((b'0' + n % 10) ∷ acc) (d, h))
    ]

pub decimal-IsPrinted : (n : ℕ) → IsPrinted (decimal n)
unfolding decimal
decimal-IsPrinted n = decimal_loop-IsPrinted 20 n [] tt

pub decimal_signed-IsPrinted : (w x : ℕ) → IsPrinted (decimal_signed w x)
unfolding decimal_signed
decimal_signed-IsPrinted w x = elim (Bool-cases (ltb x (2 ^ (w - 1)))) [
  | inl low ↦ rw low (decimal-IsPrinted x)
  | inr high ↦ rw high ((omega arith, omega arith), decimal-IsPrinted (2 ^ w - x))
]

-- The number of digits.
length-decimal_loop_le :
    (k fuel n : ℕ) (acc : List ℕ)
    → n < pow10 (suc k)
    → length (decimal_loop fuel n acc) ≤ suc k + length acc
unfolding decimal_loop
length-decimal_loop_le k zero n acc h = omega arith
length-decimal_loop_le zero (suc fuel) n acc h = ground arith
length-decimal_loop_le (suc k) (suc fuel) n acc h =
    ground (arith, length-decimal_loop_le k fuel (n / 10) ((b'0' + n % 10) ∷ acc))

pow10_pos : (k : ℕ) → 0 < pow10 k
pow10_pos zero = omega arith
pow10_pos (suc k) = omega (arith, pow10_pos k)

length-decimal_loop_ge :
    (k fuel n : ℕ) (acc : List ℕ)
    → pow10 k ≤ n
    → k < fuel
    → suc k + length acc ≤ length (decimal_loop fuel n acc)
unfolding decimal_loop
length-decimal_loop_ge k zero n acc h more = absurd (omega arith)
length-decimal_loop_ge zero (suc zero) n acc h more = ground arith
length-decimal_loop_ge zero (suc (suc fuel)) n acc h more =
    ground (arith, length-decimal_loop_ge zero (suc fuel) (n / 10) ((b'0' + n % 10) ∷ acc))
length-decimal_loop_ge (suc k) (suc fuel) n acc h more =
    ground (arith, pow10_pos k, length-decimal_loop_ge k fuel (n / 10) ((b'0' + n % 10) ∷ acc))

pub length-decimal_le : (k n : ℕ) → n < pow10 (suc k) → length (decimal n) ≤ suc k
unfolding decimal
length-decimal_le k n h = omega (arith, length-decimal_loop_le k 20 n [] h)

pub length-decimal_ge : (k n : ℕ) → pow10 k ≤ n → k < 20 → suc k ≤ length (decimal n)
unfolding decimal
length-decimal_ge k n h more = omega (arith, length-decimal_loop_ge k 20 n [] h more)
