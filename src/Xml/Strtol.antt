-- ===== src/Xml/Strtol.antt =====
-- The C library's conversions of a text in base 0, as the scanner of IOCFUnserialize.tab.c uses them: a
-- `long` and an `unsigned long` of so many bits, and an `int` made from one.
use iokit_user.Prelude.{
  zero, suc, ◌+◌, ◌-◌, ◌*◌, ◌%◌, ◌^◌, ◌&&◌, ◌||◌, ◌==◌, leb, ltb, ◌∷◌, [], if◌then◌else◌, List,
  Bool, ℕ, ℤ, pos, negsuc,
}
use iokit_user.Xml.Number.{is_digit}
use iokit_user.Xml.Text.{current_char, behind}

-- `isspace`
unfoldable pub is_white : ℕ → Bool
is_white c = c == 32 || (leb 9 c && leb c 13)

unfoldable pub skip_white : List ℕ → List ℕ
skip_white [] = []
skip_white (c ∷ s) = let later = skip_white s in if is_white c then later else c ∷ s

-- The value of a digit; 36 for another character.
unfoldable pub digit_value : ℕ → ℕ
digit_value c =
    if is_digit c
    then c - b'0'
    else if leb b'a' c && leb c b'z'
    then c - b'a' + 10
    else if leb b'A' c && leb c b'Z'
    then c - b'A' + 10
    else 36

-- The value of the digits of a base in front.
unfoldable pub read_digits : ℕ → ℕ → List ℕ → ℕ
read_digits base n [] = n
read_digits base n (c ∷ s) =
    let later = read_digits base (n * base + digit_value c) s in
    if ltb (digit_value c) base then later else n

-- The digits behind the sign, with the base that their prefix says. A prefix `0x` without a digit behind
-- it is the number 0.
unfoldable pub magnitude : List ℕ → ℕ
magnitude s =
    let x = current_char (behind s) in
    let digits = behind (behind s) in
    if current_char s == b'0'
    then (if (x == b'x' || x == b'X') && ltb (digit_value (current_char digits)) 16
        then read_digits 16 0 digits
        else read_digits 8 0 s)
    else read_digits 10 0 s

abbrev smaller : ℕ → ℕ → ℕ
smaller a b = if leb a b then a else b

abbrev negated : ℕ → ℤ
negated zero = pos 0
negated (suc n) = negsuc n

-- `strtol` with base 0, where a `long` has `bits` bits: out of range it is the nearest number.
unfoldable pub strtol : ℕ → List ℕ → ℤ
strtol bits text =
    let s = skip_white text in
    let top = 2 ^ (bits - 1) in
    if current_char s == b'-'
    then negated (smaller (magnitude (behind s)) top)
    else if current_char s == b'+'
    then pos (smaller (magnitude (behind s)) (top - 1))
    else pos (smaller (magnitude s) (top - 1))

-- `strtoul` with base 0: a number with a minus is negated modulo 2 ^ bits.
unfoldable pub strtoul : ℕ → List ℕ → ℕ
strtoul bits text =
    let s = skip_white text in
    let top = 2 ^ bits in
    let in_range = λ (n : ℕ). ltb n top in
    let n = magnitude (behind s) in
    if current_char s == b'-'
    then (if in_range n then (top - n) % top else top - 1)
    else if current_char s == b'+'
    then smaller n (top - 1)
    else smaller (magnitude s) (top - 1)

-- The `int` with the lower 32 bits of an unsigned number.
unfoldable pub int_of_bits : ℕ → ℤ
int_of_bits n =
    let bits = n % 2 ^ 32 in if ltb bits (2 ^ 31) then pos bits else negsuc (2 ^ 32 - 1 - bits)

-- The conversion of a `long` to an `int`.
unfoldable pub int_of_long : ℤ → ℤ
int_of_long (pos n) = int_of_bits n
int_of_long (negsuc n) = int_of_bits (2 ^ 32 - 1 - n % 2 ^ 32)
