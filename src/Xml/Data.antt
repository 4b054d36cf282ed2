-- ===== src/Xml/Data.antt =====
-- The text between the tags of data, in base 64: the loop of `DoCFSerializeData` of IOCFSerialize.c and
-- `getCFEncodedData` of IOCFUnserialize.tab.c. A shift is a product or a quotient, a mask of the lowest
-- bits a remainder, and an `|` of disjoint bits a sum. `acc` is 32 bits wide; `cntr` does not wrap,
-- and no allocation fails.
mod Steps
mod Groups
mod Writing
pub mod RoundTrip
mod Tests
use iokit_user.Prelude.{
  true, false, Bool, zero, ltb, ◌^◌, ◌+◌, suc, ◌∷◌, ◌++◌, ◌*◌, none, ◌==◌, codes, replicate, [],
  some, ◌%◌, ◌/◌, if◌then◌else◌, Option, get_elem?, List, ℕ,
}
use iokit_user.Xml.Text.{Input}

-- `__CFPLDataEncodeTable`
abbrev encode_table : List ℕ
encode_table = codes "ABCDEFGHIJKLMNOPQRSTUVWXYZabcdefghijklmnopqrstuvwxyz0123456789+/"

abbrev or_zero : Option ℕ → ℕ
or_zero none = 0
or_zero (some n) = n

unfoldable pub encoded_char : ℕ → ℕ
encoded_char n = or_zero (get_elem? encode_table n)

-- What is written for the byte at an index, from the index modulo 3, the byte before and the byte.
unfoldable pub write_byte : ℕ → ℕ → ℕ → List ℕ
write_byte r before b =
    if r == 0
    then encoded_char (b / 4 % 64) ∷ []
    else if r == 1
    then encoded_char ((before * 256 + b) / 16 % 64) ∷ []
    else encoded_char ((before * 256 + b) / 64 % 64) ∷ encoded_char (b % 64) ∷ []

-- What is written behind the last byte, from the number of bytes modulo 3 and that byte.
unfoldable pub write_last : ℕ → ℕ → List ℕ
write_last r before =
    if r == 0
    then []
    else if r == 1
    then encoded_char (before % 4 * 16) ∷ b'=' ∷ b'=' ∷ []
    else encoded_char (before % 16 * 4) ∷ b'=' ∷ []

-- The loop at an index, and what follows it.
unfoldable pub write_from : ℕ → ℕ → List ℕ → List ℕ
write_from i before [] = write_last (i % 3) before
write_from i before (b ∷ bs) = write_byte (i % 3) before b ++ write_from (suc i) b bs

-- The text that `DoCFSerializeData` writes for the bytes.
unfoldable pub serialize_data : List ℕ → List ℕ
serialize_data bytes = write_from 0 0 bytes

abbrev count_from : ℕ → ℕ → List (Option ℕ)
count_from n zero = []
count_from n (suc k) = some n ∷ count_from (suc n) k

-- `__CFPLDataDecodeTable`, with `none` for -1.
abbrev decode_table : List (Option ℕ)
decode_table =
    replicate 43 none
    ++ some 62 ∷ replicate 3 none
    ++ some 63 ∷ count_from 52 10
    ++ replicate 3 none
    ++ some 0 ∷ replicate 3 none
    ++ count_from 0 26
    ++ replicate 6 none
    ++ count_from 26 26
    ++ replicate 5 none

abbrev joined : Option (Option ℕ) → Option ℕ
joined none = none
joined (some o) = o

unfoldable pub decoded_char : ℕ → Option ℕ
decoded_char c = joined (get_elem? decode_table c)

-- The variables of `getCFEncodedData`: `out` is the part of `tmpbuf` that is filled.
pub record Decoder : Type 0 where
  pub numeq : ℕ
  pub acc : ℕ
  pub cntr : ℕ
  pub out : List ℕ
  pub line_number : ℕ

-- The bytes of four characters.
unfoldable pub quantum : ℕ → ℕ → List ℕ
quantum numeq acc =
    (acc / 65536 % 256) ∷ (if ltb numeq 2 then (acc / 256 % 256) ∷ [] else [])
    ++ (if ltb numeq 1 then (acc % 256) ∷ [] else [])

-- A round of the loop from `cntr++` on, for a value of the table.
unfoldable pub take_value : Decoder → Option ℕ → Decoder
take_value d none = d
take_value d (some v) =
    let acc = (d.acc * 64 + v) % 2 ^ 32 in
    record d {
      cntr = d.cntr + 1;
      acc = acc;
      out = if (d.cntr + 1) % 4 == 0 then d.out ++ quantum d.numeq acc else d.out;
    }

-- A round of the loop for a character without its highest bit.
unfoldable pub round : Decoder → ℕ → Decoder
round d c =
    take_value
      (record d {
        numeq = if c == b'=' then d.numeq + 1 else 0;
        line_number = if c == b'\n' then d.line_number + 1 else d.line_number;
      })
      (decoded_char c)

-- The loop: whether it stops at a tag rather than at the end of the input, its variables, and the
-- input from there on.
unfoldable pub decode : Decoder → List ℕ → Bool × Decoder × List ℕ
decode d [] = (false, d, [])
decode d (c ∷ s) =
    let later = decode (round d (c % 128)) s in
    if c == b'<' then (true, d, c ∷ s) else if c % 128 == 0 then (false, d, c ∷ s) else later

-- There is no pointer to no bytes.
abbrev pub non_null : List ℕ → Option (List ℕ)
non_null [] = none
non_null (b ∷ bs) = some (b ∷ bs)

unfoldable pub result_of : Bool × Decoder × List ℕ → Option (List ℕ) × Input
result_of (at_tag, d, s) =
    (if at_tag then non_null d.out else none, record { rest = s; line_number = d.line_number })

-- `getCFEncodedData`: the bytes, or `none` for the null pointer, and the input behind them.
unfoldable pub get_cf_encoded_data : Input → Option (List ℕ) × Input
get_cf_encoded_data input = result_of (
    decode (record { numeq = 0; acc = 0; cntr = 0; out = []; line_number = input.line_number })
      input.rest)
