-- ===== src/Xml/RoundTrip/Ids.antt =====
-- The numbers in attributes: the text of `%d`, and the C library's conversions of it.
use iokit_user.Prelude.{
  sym, append-nil, ap, ◌∙◌, [], ◌||◌, ◌&&◌, ◌%◌, ◌*◌, true, false, ◌-◌, append_assoc, if◌then◌else◌,
  refl, arith, ltb→lt, Bool, inr, inl, ltb, leb, Bool-cases, ◌∷◌, zero, ◌+◌, ◌++◌, ◌^◌, ◌/◌, ◌<◌,
  ◌≤◌, suc, ◌≡◌, ◌==◌, some, length, length-append, All, List, ℕ, pos,
}
use iokit_user.Xml.Serialize.{decimal_digits, id_text}
use iokit_user.Xml.Strtol.{
  is_white, skip_white, digit_value, read_digits, magnitude, strtol, strtoul, int_of_bits,
  int_of_long,
}
use iokit_user.Xml.Tag.{take_quoted}
use iokit_user.Xml.Text.{current_char}

-- The number has at most so many digits.
abbrev Fits : ℕ → ℕ → Type 0
Fits zero n = n ≡ 0
Fits (suc k) n = Fits k (n / 10)

-- The character is a digit.
abbrev IsDigit : ℕ → Type 0
IsDigit c = (b'0' ≤ c) × (c ≤ b'9')

pub All-append : (P : ℕ → Type 0) (s t : List ℕ) → All P s → All P t → All P (s ++ t)
All-append P [] t p q = q
All-append P (c ∷ s) t p q = (p.0, All-append P s t p.1 q)

decimal_digits-IsDigit : (k n : ℕ) → All IsDigit (decimal_digits k n)
unfolding decimal_digits
decimal_digits-IsDigit zero n = tt
decimal_digits-IsDigit (suc k) n = elim (Bool-cases (ltb n 10)) [
  | inl e ↦ rw e ((omega arith, ground arith), tt)
  | inr e ↦ rw e (
      All-append IsDigit (decimal_digits k (n / 10)) ((b'0' + n % 10) ∷ [])
        (decimal_digits-IsDigit k (n / 10)) ((omega arith, omega arith), tt))
]

length-decimal_digits : (k n : ℕ) → length (decimal_digits k n) ≤ k
unfolding decimal_digits
length-decimal_digits zero n = omega arith
length-decimal_digits (suc k) n = elim (Bool-cases (ltb n 10)) [
  | inl e ↦ rw e (omega arith)
  | inr e ↦ rw e (
      omega (
        arith,
        length-append (decimal_digits k (n / 10)) ((b'0' + n % 10) ∷ []),
        length-decimal_digits k (n / 10),
      ))
]

digit_value-lt : (d : ℕ) → d < 10 → digit_value (b'0' + d) ≡ d
unfolding digit_value
digit_value-lt d h = ground arith

digit_round :
    (n d : ℕ) (s : List ℕ)
    → d < 10
    → read_digits 10 n ((b'0' + d) ∷ s) ≡ read_digits 10 (n * 10 + d) s
unfolding read_digits
digit_round n d s h =
    let small : ltb d 10 ≡ true = ground arith in rw (digit_value-lt d h, small) refl

read_digits-decimal_digits :
    (k n : ℕ) (s : List ℕ)
    → Fits k n
    → read_digits 10 0 (decimal_digits k n ++ s) ≡ read_digits 10 n s
unfolding decimal_digits
read_digits-decimal_digits zero n s fits = rw fits refl
read_digits-decimal_digits (suc k) n s fits = elim (Bool-cases (ltb n 10)) [
  | inl e ↦ rw e (digit_round 0 n s (ltb→lt n 10 e) ∙ ap (λ m. read_digits 10 m s) (omega arith))
  | inr e ↦
      rw (e, append_assoc (decimal_digits k (n / 10)) ((b'0' + n % 10) ∷ []) s)
        (read_digits-decimal_digits k (n / 10) ((b'0' + n % 10) ∷ s) fits
          ∙ digit_round (n / 10) (n % 10) s (omega arith)
          ∙ ap (λ m. read_digits 10 m s) (omega arith))
]

-- The first digit of a number that is not 0 is not 0.
first_digit :
    (k n : ℕ) (s : List ℕ)
    → 0 < n
    → Fits k n
    → (b'1' ≤ current_char (decimal_digits k n ++ s))
      × (current_char (decimal_digits k n ++ s) ≤ b'9')
unfolding decimal_digits
first_digit zero n s h fits = absurd (omega (arith, fits))
first_digit (suc k) n s h fits = elim (Bool-cases (ltb n 10)) [
  | inl e ↦ rw e (omega arith, ground arith)
  | inr e ↦
      rw (e, append_assoc (decimal_digits k (n / 10)) ((b'0' + n % 10) ∷ []) s)
        (first_digit k (n / 10) ((b'0' + n % 10) ∷ s) (ground arith) fits)
]

-- A text that begins with a digit.
BeginsWithDigit : List ℕ → Type 0
BeginsWithDigit s = (c : ℕ) × (t : List ℕ) × (s ≡ c ∷ t) × IsDigit c

read_digits_nil : (n : ℕ) → read_digits 10 n [] ≡ n
unfolding read_digits
read_digits_nil n = refl

magnitude-decimal_digits : (k n : ℕ) → 0 < n → Fits k n → magnitude (decimal_digits k n) ≡ n
unfolding magnitude
magnitude-decimal_digits k n h fits = rw not_zero (
    ap (λ t. read_digits 10 0 t) (sym (append-nil (decimal_digits k n)))
    ∙ read_digits-decimal_digits k n [] fits
    ∙ read_digits_nil n)
  where
    first : (b'1' ≤ current_char (decimal_digits k n)) × (current_char (decimal_digits k n) ≤ b'9')
    first = rw (← append-nil (decimal_digits k n)) (first_digit k n [] h fits)

    not_zero : (current_char (decimal_digits k n) == b'0') ≡ false
    not_zero = ground (arith, first.0)

magnitude-id_text : (n : ℕ) → n < 2 ^ 31 → magnitude (id_text n) ≡ n
unfolding id_text
magnitude-id_text zero h = unfold magnitude decimal_digits read_digits digit_value in refl
magnitude-id_text (suc n) h = magnitude-decimal_digits 10 (suc n) (omega arith) (omega arith)

begins : (s : List ℕ) → All IsDigit s → 0 < length s → BeginsWithDigit s
unfolding BeginsWithDigit
begins [] h l = absurd (omega arith)
begins (c ∷ s) h l = (c, s, refl, h.0)

length-id_text_pos : (n : ℕ) → 0 < length (id_text n)
unfolding id_text decimal_digits
length-id_text_pos n = elim (Bool-cases (ltb n 10)) [
  | inl e ↦ rw e (omega arith)
  | inr e ↦ rw e (omega (arith, length-append (decimal_digits 9 (n / 10)) ((b'0' + n % 10) ∷ [])))
]

id_text-IsDigit : (n : ℕ) → All IsDigit (id_text n)
unfolding id_text
id_text-IsDigit n = decimal_digits-IsDigit 10 n

strtol-digit :
    (bits c : ℕ) (s : List ℕ)
    → IsDigit c
    → strtol bits (c ∷ s)
      ≡ pos (
          if leb (magnitude (c ∷ s)) (2 ^ (bits - 1) - 1)
          then magnitude (c ∷ s)
          else 2 ^ (bits - 1) - 1)
unfolding strtol skip_white is_white
strtol-digit bits c s h =
    let white : (c == 32 || (leb 9 c && leb c 13)) ≡ false = ground arith in
    let minus : (c == b'-') ≡ false = ground arith in
    let plus : (c == b'+') ≡ false = ground arith in rw (white, minus, plus) refl

strtoul-digit :
    (bits c : ℕ) (s : List ℕ)
    → IsDigit c
    → strtoul bits (c ∷ s)
      ≡ (if leb (magnitude (c ∷ s)) (2 ^ bits - 1) then magnitude (c ∷ s) else 2 ^ bits - 1)
unfolding strtoul skip_white is_white
strtoul-digit bits c s h =
    let white : (c == 32 || (leb 9 c && leb c 13)) ≡ false = ground arith in
    let minus : (c == b'-') ≡ false = ground arith in
    let plus : (c == b'+') ≡ false = ground arith in rw (white, minus, plus) refl

int_of_bits_small : (n : ℕ) → n < 2 ^ 31 → int_of_bits n ≡ pos n
unfolding int_of_bits
int_of_bits_small n h =
    let same : n % 2 ^ 32 ≡ n = omega arith in
    let small : ltb n (2 ^ 31) ≡ true = ground arith in rw (same, small) refl

abbrev pub long_bits : Bool → ℕ
long_bits lp64 = if lp64 then 64 else 32

smaller_bits : (lp64 : Bool) (n : ℕ) → n < 2 ^ 31 → leb n (2 ^ (long_bits lp64 - 1) - 1) ≡ true
smaller_bits true n h = ground arith
smaller_bits false n h = ground arith

smaller_unsigned_bits : (lp64 : Bool) (n : ℕ) → n < 2 ^ 31 → leb n (2 ^ long_bits lp64 - 1) ≡ true
smaller_unsigned_bits true n h = ground arith
smaller_unsigned_bits false n h = ground arith

int_of_long_pos : (n : ℕ) → int_of_long (pos n) ≡ int_of_bits n
unfolding int_of_long
int_of_long_pos n = refl

strtol_of :
    (lp64 : Bool) (n : ℕ) (s : List ℕ)
    → n < 2 ^ 31
    → magnitude s ≡ n
    → BeginsWithDigit s
    → strtol (long_bits lp64) s ≡ pos n
unfolding BeginsWithDigit
strtol_of lp64 n s h m (c, t, e, d) =
    ap (strtol (long_bits lp64)) e
    ∙ strtol-digit (long_bits lp64) c t d
    ∙ rw (← e, m, smaller_bits lp64 n h) refl

strtoul_of :
    (lp64 : Bool) (n : ℕ) (s : List ℕ)
    → n < 2 ^ 31
    → magnitude s ≡ n
    → BeginsWithDigit s
    → strtoul (long_bits lp64) s ≡ n
unfolding BeginsWithDigit
strtoul_of lp64 n s h m (c, t, e, d) =
    ap (strtoul (long_bits lp64)) e
    ∙ strtoul-digit (long_bits lp64) c t d
    ∙ rw (← e, m, smaller_unsigned_bits lp64 n h) refl

-- An identity is read as it is written.
pub int_of_long-id_text :
    (lp64 : Bool) (n : ℕ) → n < 2 ^ 31 → int_of_long (strtol (long_bits lp64) (id_text n)) ≡ pos n
int_of_long-id_text lp64 n h =
    ap int_of_long (
      strtol_of lp64 n (id_text n) h (magnitude-id_text n h)
        (begins (id_text n) (id_text-IsDigit n) (length-id_text_pos n)))
    ∙ int_of_long_pos n
    ∙ int_of_bits_small n h

pub int_of_bits-id_text :
    (lp64 : Bool) (n : ℕ) → n < 2 ^ 31 → int_of_bits (strtoul (long_bits lp64) (id_text n)) ≡ pos n
int_of_bits-id_text lp64 n h =
    ap int_of_bits (
      strtoul_of lp64 n (id_text n) h (magnitude-id_text n h)
        (begins (id_text n) (id_text-IsDigit n) (length-id_text_pos n)))
    ∙ int_of_bits_small n h

take_quoted_step :
    (room c : ℕ) (s value rest : List ℕ)
    → (c == b'"') ≡ false
    → take_quoted room s ≡ some (value, rest)
    → take_quoted (suc room) (c ∷ s) ≡ some (c ∷ value, rest)
unfolding take_quoted
take_quoted_step room c s value rest e h = rw (e, h) refl

take_quoted-IsDigit :
    (room : ℕ) (s rest : List ℕ)
    → All IsDigit s
    → length s ≤ room
    → take_quoted room (s ++ b'"' ∷ rest) ≡ some (s, rest)
take_quoted-IsDigit zero [] rest h l = unfold take_quoted in refl
take_quoted-IsDigit (suc room) [] rest h l = unfold take_quoted in refl
take_quoted-IsDigit zero (c ∷ s) rest h l = absurd (omega arith)
take_quoted-IsDigit (suc room) (c ∷ s) rest h l =
    take_quoted_step room c (s ++ b'"' ∷ rest) s rest (ground arith)
      (take_quoted-IsDigit room s rest h.1 (omega arith))

length-id_text : (n : ℕ) → length (id_text n) ≤ 30
unfolding id_text
length-id_text n = omega (arith, length-decimal_digits 10 n)

-- The text of a number is the value of its attribute.
pub take_quoted-id_text :
    (n : ℕ) (rest : List ℕ) → take_quoted 30 (id_text n ++ b'"' ∷ rest) ≡ some (id_text n, rest)
take_quoted-id_text n rest =
    take_quoted-IsDigit 30 (id_text n) rest (id_text-IsDigit n) (length-id_text n)
