-- ===== src/KextVersion/Decimal.antt =====
-- The decimal text of a number of at most four digits.
use native.Mathlib.Decide.{dec_lt}
use iokit_user.Prelude.{◌%◌, ◌∷◌, arith, ◌/◌, ◌+◌, length, ◌≡◌, ◌<◌, ◌≤◌}
use iokit_user.KextVersion.{[], ℕ, Text}
use iokit_user.KextVersion.Print.{digits, decimal}
use iokit_user.Prelude.Memory.{NoNul}

one_digit : (n : ℕ) → n < 10 → decimal n ≡ (b'0' + n) ∷ []
unfolding decimal digits
one_digit n h = ground arith

two_digits : (n : ℕ) → 10 ≤ n → n < 100 → decimal n ≡ (b'0' + n / 10) ∷ (b'0' + n % 10) ∷ []
unfolding decimal digits
two_digits n l h = ground arith

three_digits :
    (n : ℕ)
    → 100 ≤ n
    → n < 1000
    → decimal n ≡ (b'0' + n / 100) ∷ (b'0' + n / 10 % 10) ∷ (b'0' + n % 10) ∷ []
unfolding decimal digits
three_digits n l h = ground arith

four_digits :
    (n : ℕ)
    → 1000 ≤ n
    → n < 10000
    → decimal n
      ≡ (b'0' + n / 1000) ∷ (b'0' + n / 100 % 10) ∷ (b'0' + n / 10 % 10) ∷ (b'0' + n % 10) ∷ []
unfolding decimal digits
four_digits n l h = ground arith

-- What holds of every text of one or two digits holds of the texts of the numbers below 100.
pub two_digit_texts :
    (P : Text → Type 0) (n : ℕ)
    → n ≤ 99
    → (n ≤ 9 → P ((b'0' + n) ∷ []))
    → (10 ≤ n → P ((b'0' + n / 10) ∷ (b'0' + n % 10) ∷ []))
    → P (decimal n)
two_digit_texts P n h one two = elim (dec_lt n 10) [
  | yes l ↦ rw (one_digit n l) (one (omega arith))
  | no l ↦ rw (two_digits n (omega arith) (omega arith)) (two (omega arith))
]

pub three_digit_texts :
    (P : Text → Type 0) (n : ℕ)
    → n ≤ 999
    → (n ≤ 9 → P ((b'0' + n) ∷ []))
    → (10 ≤ n → n ≤ 99 → P ((b'0' + n / 10) ∷ (b'0' + n % 10) ∷ []))
    → (100 ≤ n → P ((b'0' + n / 100) ∷ (b'0' + n / 10 % 10) ∷ (b'0' + n % 10) ∷ []))
    → P (decimal n)
three_digit_texts P n h one two three = elim (dec_lt n 100) [
  | yes l ↦ two_digit_texts P n (omega arith) one (λ m. two m (omega arith))
  | no l ↦ rw (three_digits n (omega arith) (omega arith)) (three (omega arith))
]

pub four_digit_texts :
    (P : Text → Type 0) (n : ℕ)
    → n ≤ 9999
    → (n ≤ 9 → P ((b'0' + n) ∷ []))
    → (10 ≤ n → n ≤ 99 → P ((b'0' + n / 10) ∷ (b'0' + n % 10) ∷ []))
    → (100 ≤ n → n ≤ 999 → P ((b'0' + n / 100) ∷ (b'0' + n / 10 % 10) ∷ (b'0' + n % 10) ∷ []))
    → (1000 ≤ n
        → P (
            (b'0' + n / 1000)
            ∷ (b'0' + n / 100 % 10)
            ∷ (b'0' + n / 10 % 10)
            ∷ (b'0' + n % 10)
            ∷ []))
    → P (decimal n)
four_digit_texts P n h one two three four = elim (dec_lt n 1000) [
  | yes l ↦ three_digit_texts P n (omega arith) one two (λ m. three m (omega arith))
  | no l ↦ rw (four_digits n (omega arith) (omega arith)) (four (omega arith))
]

-- The length of a decimal text, and that it is printable.
pub decimal_two : (n : ℕ) → n ≤ 99 → (length (decimal n) ≤ 2) × NoNul (decimal n)
decimal_two n h =
    two_digit_texts (λ t. (length t ≤ 2) × NoNul t) n h (λ l. omega arith) (λ l. omega arith)

pub decimal_three : (n : ℕ) → n ≤ 999 → (length (decimal n) ≤ 3) × NoNul (decimal n)
decimal_three n h =
    three_digit_texts (λ t. (length t ≤ 3) × NoNul t) n h (λ l. omega arith) (λ l u. omega arith)
      (λ l. omega arith)

pub decimal_four : (n : ℕ) → n ≤ 9999 → (length (decimal n) ≤ 4) × NoNul (decimal n)
decimal_four n h =
    four_digit_texts (λ t. (length t ≤ 4) × NoNul t) n h (λ l. omega arith) (λ l u. omega arith)
      (λ l u. omega arith) (λ l. omega arith)
