-- ===== src/Xml/Number/RoundTrip.antt =====
-- The number that IOCFUnserialize.tab.c reads is the one that IOCFSerialize.c has written.
use iokit_user.Prelude.{
  ap, ◌∙◌, [], ◌||◌, ◌%◌, true, false, ◌-◌, append_assoc, if◌then◌else◌, refl, arith, ltb→lt, Bool,
  inr, inl, ltb, Bool-cases, ◌∷◌, zero, ◌+◌, ◌++◌, ◌^◌, ◌*◌, ◌/◌, ◌<◌, suc, ◌≡◌, List, ℕ,
}
use iokit_user.Xml.Number.{
  size_of, is_alpha_digit, is_digit, NumberType, hex_digit, hex_digits, number_text, written_value,
  read_hex, get_number,
}

-- The number has at most so many digits.
abbrev Fits : ℕ → ℕ → Type 0
Fits zero n = n ≡ 0
Fits (suc k) n = Fits k (n / 16)

-- The two loops' steps, with the character and the new value named.
digit_round :
    (n c : ℕ) (s : List ℕ) (m : ℕ)
    → is_digit c ≡ true
    → (n * 16 + (c - b'0')) % 2 ^ 64 ≡ m
    → read_hex n (c ∷ s) ≡ read_hex m s
unfolding read_hex
digit_round n c s m e f = rw (e, f) refl

alpha_round :
    (n c : ℕ) (s : List ℕ) (m : ℕ)
    → is_digit c ≡ false
    → is_alpha_digit c ≡ true
    → (n * 16 + 10 + (c - b'a')) % 2 ^ 64 ≡ m
    → read_hex n (c ∷ s) ≡ read_hex m s
unfolding read_hex
alpha_round n c s m e a f = rw (e, a, f) refl

read_hex-hex_digit :
    (n d : ℕ) (s : List ℕ)
    → d < 16
    → n * 16 + d < 2 ^ 64
    → read_hex n (hex_digit d ∷ s) ≡ read_hex (n * 16 + d) s
unfolding hex_digit
read_hex-hex_digit n d s small h = elim (Bool-cases (ltb d 10)) [
  | inl e ↦ rw e (digit_round n (b'0' + d) s (n * 16 + d) (ground arith) (omega arith))
  | inr e ↦
      rw e (
        alpha_round n (b'a' + (d - 10)) s (n * 16 + d) (ground arith) (ground arith) (ground arith))
]

read_hex-hex_digits :
    (k n : ℕ) (s : List ℕ) → Fits k n → n < 2 ^ 64 → read_hex 0 (hex_digits k n ++ s) ≡ read_hex n s
unfolding hex_digits
read_hex-hex_digits zero n s fits h = rw fits refl
read_hex-hex_digits (suc k) n s fits h = elim (Bool-cases (ltb n 16)) [
  | inl e ↦ rw e (
      read_hex-hex_digit 0 n s (ltb→lt n 16 e) (omega arith) ∙ ap (λ m. read_hex m s) (omega arith))
  | inr e ↦
      rw (e, append_assoc (hex_digits k (n / 16)) (hex_digit (n % 16) ∷ []) s)
        (read_hex-hex_digits k (n / 16) (hex_digit (n % 16) ∷ s) fits (omega arith)
          ∙ read_hex-hex_digit (n / 16) (n % 16) s (omega arith) (omega arith)
          ∙ ap (λ m. read_hex m s) (omega arith))
]

read_hex_stop : (n : ℕ) (rest : List ℕ) → read_hex n (b'<' ∷ rest) ≡ (n, b'<' ∷ rest)
unfolding read_hex
read_hex_stop n rest = refl

written_value-lt :
    (lp64 : Bool) (type : NumberType) (value : ℕ)
    → value < 2 ^ 64
    → written_value lp64 type value < 2 ^ 64
unfolding written_value
written_value-lt lp64 type value h = ground arith

written_value_lem :
    (lp64 : Bool) (type : NumberType) (value : ℕ)
    → written_value lp64 type value
      ≡ (if lp64 || ltb 32 (size_of lp64 type) then value else value % 2 ^ 32)
unfolding written_value
written_value_lem lp64 type value = ground arith

-- The text of a number of 64 bits, up to a tag, is read as its value: all 64 bits of it, unless the
-- size that is written is at most 32 and a `long` is 32 bits wide, where its lower 32 bits are read.
pub get_number-number_text :
    (lp64 : Bool) (type : NumberType) (value : ℕ) (rest : List ℕ)
    → value < 2 ^ 64
    → get_number (number_text lp64 type value ++ b'<' ∷ rest)
      ≡ (if lp64 || ltb 32 (size_of lp64 type) then value else value % 2 ^ 32, b'<' ∷ rest)
unfolding get_number number_text
get_number-number_text lp64 type value rest h =
    read_hex-hex_digits 16 (written_value lp64 type value) (b'<' ∷ rest)
      (omega (arith, written_value-lt lp64 type value h)) (written_value-lt lp64 type value h)
    ∙ read_hex_stop _ rest
    ∙ ap (λ n. (n, b'<' ∷ rest)) (written_value_lem lp64 type value)
