-- ===== src/Xml/Number/Tests.antt =====
-- Runs of the numbers of IOCFSerialize.c and IOCFUnserialize.tab.c, and the theorem at one.
use iokit_user.Prelude.{arith, ◌∷◌, ◌++◌, refl, ◌-◌, ◌≡◌, ◌^◌, false, true, codes}
use iokit_user.Xml.Number.{
  sint32, size_of, number_text, hex_digits, hex_digit, written_value, read_decimal, read_base_ten,
  get_number,
}
use iokit_user.Xml.Number.RoundTrip.{get_number-number_text}

-- Minus two, in 32 bits, where a `long` has as many.
minus_two : number_text false sint32 (2 ^ 64 - 2) ≡ codes "0xfffffffe"
unfolding number_text hex_digits hex_digit written_value size_of
minus_two = refl

decimal : get_number (codes "-12</integer>") ≡ (2 ^ 64 - 12, codes "</integer>")
unfolding get_number read_base_ten read_decimal
decimal = refl

get_number-number_text_example :
    get_number (number_text true sint32 (2 ^ 64 - 2) ++ b'<' ∷ codes "/integer>")
    ≡ (2 ^ 64 - 2, b'<' ∷ codes "/integer>")
unfolding size_of
get_number-number_text_example =
    get_number-number_text true sint32 (2 ^ 64 - 2) (codes "/integer>") (omega arith)
