-- ===== src/Xml/Number.antt =====
-- The text between the tags of a number: `DoCFSerializeNumber` of IOCFSerialize.c and `getNumber` of
-- IOCFUnserialize.tab.c. A `long long` is known by its 64 bits, a number below 2 ^ 64.
pub mod RoundTrip
mod Tests
use iokit_user.Prelude.{
  zero, ◌/◌, ◌++◌, suc, ◌*◌, ◌+◌, ◌-◌, ◌&&◌, ◌%◌, ◌==◌, codes, ◌^◌, ◌∷◌, [], leb, ltb, List,
  if◌then◌else◌, Bool, ℕ,
}
use iokit_user.Xml.Text.{current_char, behind}

-- What `CFNumberGetType` answers.
pub data NumberType : Type 0 where
  sint8 char sint16 short sint32 int long sint64 long_long other : NumberType

-- The size that is written; the argument says whether a `long` is 64 bits wide.
unfoldable pub size_of : Bool → NumberType → ℕ
size_of lp64 sint8 = 8
size_of lp64 char = 8
size_of lp64 sint16 = 16
size_of lp64 short = 16
size_of lp64 sint32 = 32
size_of lp64 int = 32
size_of lp64 long = if lp64 then 64 else 32
size_of lp64 sint64 = 64
size_of lp64 long_long = 64
size_of lp64 other = 64

unfoldable pub hex_digit : ℕ → ℕ
hex_digit d = if ltb d 10 then b'0' + d else b'a' + (d - 10)

-- What `snprintf` makes of `%lx` and `%qx`, with at most as many digits as the first argument says: a
-- number of 64 bits has at most sixteen.
unfoldable pub hex_digits : ℕ → ℕ → List ℕ
hex_digits zero n = []
hex_digits (suc k) n =
    let more = hex_digits k (n / 16) in
    if ltb n 16 then hex_digit n ∷ [] else more ++ hex_digit (n % 16) ∷ []

-- The value after the conversion to an `unsigned long` for a small size.
unfoldable pub written_value : Bool → NumberType → ℕ → ℕ
written_value lp64 type value =
    if leb (size_of lp64 type) 32 then (if lp64 then value else value % 2 ^ 32) else value

-- The text that is written for a number.
unfoldable pub number_text : Bool → NumberType → ℕ → List ℕ
number_text lp64 type value = codes "0x" ++ hex_digits 16 (written_value lp64 type value)

abbrev pub is_digit : ℕ → Bool
is_digit c = leb b'0' c && leb c b'9'

abbrev pub is_alpha_digit : ℕ → Bool
is_alpha_digit c = leb b'a' c && leb c b'f'

-- The loops over the digits; the arithmetic is that of `unsigned long long`.
unfoldable pub read_decimal : ℕ → List ℕ → ℕ × List ℕ
read_decimal n [] = (n, [])
read_decimal n (c ∷ s) =
    let later = read_decimal ((n * 10 + (c - b'0')) % 2 ^ 64) s in
    if is_digit c then later else (n, c ∷ s)

unfoldable pub read_hex : ℕ → List ℕ → ℕ × List ℕ
read_hex n [] = (n, [])
read_hex n (c ∷ s) =
    let with_digit = read_hex ((n * 16 + (c - b'0')) % 2 ^ 64) s in
    let with_alpha_digit = read_hex ((n * 16 + 10 + (c - b'a')) % 2 ^ 64) s in
    if is_digit c then with_digit else if is_alpha_digit c then with_alpha_digit else (n, c ∷ s)

abbrev negated : ℕ × List ℕ → ℕ × List ℕ
negated (n, s) = ((2 ^ 64 - n) % 2 ^ 64, s)

-- The part for base 10.
unfoldable pub read_base_ten : List ℕ → ℕ × List ℕ
read_base_ten s =
    if current_char s == b'-' then negated (read_decimal 0 (behind s)) else read_decimal 0 s

-- `getNumber`, from the text on: the number, and the text behind it.
unfoldable pub get_number : List ℕ → ℕ × List ℕ
get_number s =
    if current_char s == b'0'
    then (if current_char (behind s) == b'x'
        then read_hex 0 (behind (behind s))
        else read_base_ten (behind s))
    else read_base_ten s
