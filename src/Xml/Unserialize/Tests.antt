-- ===== src/Xml/Unserialize/Tests.antt =====
-- Runs of IOCFSerialize.c and IOCFUnserialize.tab.c.
use iokit_user.Xml.Build.{
  retrieved, perform, build_boolean, build_number, number_of, build_data, build_string, build_set,
  build_array, build_dictionary, built, pairs_of, values_of, reverse_onto, retrieve_object,
  remember_object, set_tag, yyerror,
}
use iokit_user.Xml.Tables.{
  goto_state, token_move, table_move, default_move, needs_token, rule_length, plus, symbol,
}
use iokit_user.Xml.Data.{
  get_cf_encoded_data, result_of, decode, round, take_value, quantum, decoded_char, serialize_data,
  write_from, write_last, write_byte, encoded_char,
}
use iokit_user.Xml.Lexer.{
  front_of, identified, yylex, lex, front, token_of, read_tag, read_boolean, read_number, read_data,
  or_empty, read_text, expect_end, find_size, find_id, same_text,
}
use iokit_user.Xml.Text.{get_string, unescape, next_of, entity, find_end, add_escaped, escape_char}
use iokit_user.Xml.Strtol.{
  int_of_long, int_of_bits, strtoul, strtol, magnitude, read_digits, digit_value, skip_white,
  is_white,
}
use iokit_user.Xml.Tag.{
  expect, get_tag, named_tag, close_tag, take_attributes, take_attribute, take_quoted, take_name,
  skip_instruction, skip_markup, skip_comment, skip_declaration, skip_spaces, is_alpha_numeric,
  is_alpha,
}
use iokit_user.Prelude.{◌++◌, ◌∷◌, [], ◌≡◌, refl, codes, some, none, Bool, List, ℕ, Option}
use iokit_user.Xml.Number.{
  get_number, read_base_ten, read_hex, read_decimal, number_text, written_value, hex_digits,
  hex_digit, size_of, NumberType,
}
use iokit_user.Xml.Objects.{
  Object, string, number, boolean, array, dictionary, no_objects, object, no_fields, field,
}
use iokit_user.Xml.Values.{
  Value, string_value, sint32_value, boolean_value, array_value, dictionary_value, no_values, value,
  no_pairs, pair,
}
use iokit_user.Xml.Serialize.{
  Kind-discrete, serialize_fields, serialize_objects, serialize, scan_fields, scan_objects, scan,
  start_writer, number_body, not_serializable, size_tag, serialize_key, serialize_as, add_end_tag,
  add_start_tag, previously_serialized, id_text, decimal_digits, record_object, seen_again,
  tag_string, set_entry, add_start, serialize_unless, iocf_serialize,
}
use iokit_user.Xml.Unserialize.{
  initial, run, step, make_default, make_move, shift_to, with_token, syntax_failure, reduce_by,
  new_state, iocf_unserialize,
}

abbrev shared : Object
shared = string 7 (codes "a&b")

abbrev sample : Object
sample = dictionary 1 (
    field (codes "k") shared (
      field (codes "l")
        (array 2 (object shared (object (number 3 NumberType.sint16 (some 300)) no_objects)))
        (field (codes "m") (boolean Bool.true) no_fields)))

abbrev sample_text : List ℕ
sample_text =
    codes
      "<dict><key>k</key><string ID=\"0\">a&amp;b</string><key>l</key><array><string IDREF=\"0\"/><integer size=\"16\">0x12c</integer></array><key>m</key><true/></dict>"

without_nul : Option (List ℕ) → List ℕ
without_nul none = []
without_nul (some s) = s

abbrev back : Value
back = dictionary_value (
    pair (string_value (codes "k")) (string_value (codes "a&b")) (
      pair (string_value (codes "l"))
        (array_value (value (string_value (codes "a&b")) (value (sint32_value 300) no_values)))
        (pair (string_value (codes "m")) (boolean_value Bool.true) no_pairs)))

written : iocf_serialize Bool.true (some sample) 0 ≡ some (sample_text ++ 0 ∷ [])
unfolding add_start serialize_unless Kind-discrete set_entry tag_string seen_again record_object
    decimal_digits id_text previously_serialized add_start_tag add_end_tag serialize_as
    serialize_key size_tag not_serializable number_body start_writer iocf_serialize scan
    scan_objects scan_fields serialize serialize_objects serialize_fields escape_char add_escaped
    size_of hex_digit hex_digits written_value number_text encoded_char write_byte write_last
    write_from serialize_data
written = refl

reread : iocf_unserialize 100 Bool.true (some sample_text) 0 ≡ some back
unfolding is_alpha is_alpha_numeric skip_spaces skip_declaration skip_comment skip_markup
    skip_instruction take_name expect take_quoted take_attribute take_attributes close_tag named_tag
    get_tag is_white skip_white digit_value read_digits magnitude strtol strtoul int_of_bits
    int_of_long same_text find_id find_size expect_end read_text or_empty read_data read_number
    read_boolean read_tag token_of identified front_of front lex yylex symbol plus rule_length
    needs_token default_move table_move token_move goto_state yyerror set_tag remember_object
    retrieve_object retrieved reverse_onto values_of pairs_of built build_dictionary build_array
    build_set build_string build_data number_of build_number build_boolean perform new_state
    reduce_by syntax_failure with_token shift_to make_move make_default step run initial
    iocf_unserialize find_end entity next_of unescape get_string read_decimal read_hex read_base_ten
    get_number decoded_char quantum take_value round decode result_of get_cf_encoded_data
reread = refl
