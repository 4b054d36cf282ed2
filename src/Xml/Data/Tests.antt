-- ===== src/Xml/Data/Tests.antt =====
-- Runs of the data texts of IOCFSerialize.c and IOCFUnserialize.tab.c, and the theorem at one.
use iokit_user.Prelude.{some, arith, refl, ◌++◌, none, [], ◌≡◌, codes, ◌∷◌, All}
use iokit_user.Xml.Data.{
  encoded_char, write_byte, write_last, write_from, serialize_data, decoded_char, quantum,
  take_value, round, decode, result_of, get_cf_encoded_data,
}
use iokit_user.Xml.Data.RoundTrip.{IsByte, get_cf_encoded_data-serialize_data}

written : serialize_data (codes "Mana") ≡ codes "TWFuYQ=="
unfolding serialize_data write_from write_byte write_last encoded_char
written = refl

-- Spaces and line ends between the characters are skipped.
read_across_lines :
    get_cf_encoded_data (record { rest = codes "TW Fu\nYQ==</data>"; line_number = 1 })
    ≡ (some (codes "Mana"), record { rest = codes "</data>"; line_number = 2 })
unfolding get_cf_encoded_data result_of decode round take_value quantum decoded_char
read_across_lines = refl

-- A line end between the two characters of padding adds a null byte.
padding_across_lines :
    get_cf_encoded_data (record { rest = codes "YQ=\n=</data>"; line_number = 1 })
    ≡ (some (codes "a" ++ 0 ∷ []), record { rest = codes "</data>"; line_number = 2 })
unfolding get_cf_encoded_data result_of decode round take_value quantum decoded_char
padding_across_lines = refl

-- No bytes are read as the null pointer.
nothing :
    get_cf_encoded_data (record { rest = codes "</data>"; line_number = 1 })
    ≡ (none, record { rest = codes "</data>"; line_number = 1 })
unfolding get_cf_encoded_data result_of decode round take_value quantum decoded_char
nothing = refl

bytes-IsByte : All IsByte (255 ∷ 0 ∷ 17 ∷ 128 ∷ [])
bytes-IsByte = (omega arith, (omega arith, (omega arith, (omega arith, tt))))

get_cf_encoded_data-serialize_data_example :
    get_cf_encoded_data (record {
      rest = serialize_data (255 ∷ 0 ∷ 17 ∷ 128 ∷ []) ++ b'<' ∷ codes "/data>";
      line_number = 5;
    })
    ≡ (some (255 ∷ 0 ∷ 17 ∷ 128 ∷ []), record { rest = b'<' ∷ codes "/data>"; line_number = 5 })
get_cf_encoded_data-serialize_data_example =
    get_cf_encoded_data-serialize_data (255 ∷ 0 ∷ 17 ∷ 128 ∷ []) (codes "/data>") 5 bytes-IsByte
