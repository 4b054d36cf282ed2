-- ===== src/Xml/Lexer.antt =====
-- The scanner `yylex` of IOCFUnserialize.tab.c.
pub mod Ending
mod Tests
use iokit_user.Prelude.{
  zero, suc, ◌+◌, ◌&&◌, not, ◌==◌, ◌∷◌, [], none, some, if◌then◌else◌, List, Option, Bool, true,
  false, ℕ, ℤ, pos, codes, length,
}
use iokit_user.Xml.Number.{get_number}
use iokit_user.Xml.Data.{get_cf_encoded_data}
use iokit_user.Xml.Strtol.{strtol, strtoul, int_of_long, int_of_bits}
use iokit_user.Xml.Tag.{
  TagType, start_tag, end_tag, empty_tag, Attribute, TagResult, bad, ignored, tag, skip_spaces,
  get_tag,
}
use iokit_user.Xml.Text.{Input, current_char, behind, get_string}
use iokit_user.Xml.Values.{Cell, new_object}

-- The tokens; those of one character are named for it.
pub data Token : Type 0 where
  end_of_buffer array_token boolean_token data_token dictionary_token idref_token key_token : Token
  number_token set_token string_token syntax_error : Token
  brace_open brace_close paren_open paren_close bracket_open bracket_close : Token

-- A token, the object of `*lvalp`, and the input behind the token.
pub record Lexed : Type 0 where
  pub token : Token
  pub cell : Cell
  pub input : Input

-- `strcmp`, as a test for equality.
unfoldable pub same_text : List ℕ → List ℕ → Bool
same_text [] [] = true
same_text (c ∷ s) (d ∷ t) = c == d && same_text s t
same_text _ _ = false

abbrev long_bits : Bool → ℕ
long_bits lp64 = if lp64 then 64 else 32

-- What the loop over the attributes comes to: a reference, a syntax error, or the `idref` of the object.
pub data IdResult : Type 0 where
  reference : ℤ → IdResult
  bad_id : IdResult
  identity : ℤ → IdResult

-- The attribute begins with `ID`.
abbrev is_id : List ℕ → Bool
is_id name = current_char name == b'I' && current_char (behind name) == b'D'

-- The loop over the attributes, from the `idref` so far on.
unfoldable pub find_id : Bool → TagType → ℤ → List Attribute → IdResult
find_id lp64 type idref [] = identity idref
find_id lp64 type idref ((name, value) ∷ others) =
    let number = int_of_long (strtol (long_bits lp64) value) in
    let unchanged = find_id lp64 type idref others in
    let changed = find_id lp64 type number others in
    if not (is_id name)
    then unchanged
    else if same_text name (codes "IDREF")
    then refer type number
    else if same_text name (codes "ID")
    then changed
    else bad_id
  where
    refer : TagType → ℤ → IdResult
    refer empty_tag number = reference number
    refer _ number = bad_id

-- The size that the attributes of a number say; the last one counts.
unfoldable pub find_size : Bool → ℤ → List Attribute → ℤ
find_size lp64 size [] = size
find_size lp64 size ((name, value) ∷ others) =
    find_size lp64
      (if same_text name (codes "size") then int_of_bits (strtoul (long_bits lp64) value) else size)
      others

abbrev pub failed : Cell → Input → Lexed
failed o input = record { token = syntax_error; cell = o; input = input }

-- The end tag that must follow a text, and the token of the object that is read.
unfoldable pub expect_end : List ℕ → Token → Cell → Input → Lexed
expect_end name token o input = check (get_tag input)
  where
    check : TagResult → Lexed
    check (tag end_tag found attributes rest) =
        if same_text found name
        then record { token = token; cell = o; input = rest }
        else failed o rest
    check (tag type found attributes rest) = failed o rest
    check (ignored rest) = failed o rest
    check (bad n) = failed o (record input { line_number = n })

-- The text of a string or a key, and its end tag.
unfoldable pub read_text : List ℕ → Token → Cell → Input → Lexed
read_text name token o input = check (get_string input)
  where
    check : Option (List ℕ) × Input → Lexed
    check (none, rest) = failed o rest
    check (some text, rest) = expect_end name token (record o { text = text }) rest

unfoldable pub or_empty : Option (List ℕ) → List ℕ
or_empty none = []
or_empty (some bytes) = bytes

-- The text of data, and its end tag.
unfoldable pub read_data : Cell → Input → Lexed
read_data o input =
    let (bytes, rest) = get_cf_encoded_data input in
    expect_end (codes "data") data_token
      (record o { data_bytes = or_empty bytes; size = pos (length (or_empty bytes)) }) rest

-- The digits of a number, and its end tag.
unfoldable pub read_number : Cell → Input → Lexed
read_number o input =
    let (n, rest) = get_number input.rest in
    expect_end (codes "integer") number_token (record o { number = n })
      (record input { rest = rest })

-- The tokens of a container's tags.
abbrev container : TagType → Token → Token → Token → Cell → Input → Lexed
container start_tag opening closing empty o input = record {
  token = opening;
  cell = o;
  input = input;
}
container end_tag opening closing empty o input = record {
  token = closing;
  cell = o;
  input = input;
}
container empty_tag opening closing empty o input = record {
  token = empty;
  cell = o;
  input = input;
}

unfoldable pub read_boolean : TagType → ℕ → Cell → Input → Lexed
read_boolean empty_tag n o input = record {
  token = boolean_token;
  cell = record o { number = n };
  input = input;
}
read_boolean _ n o input = failed o input

-- The switch over the tag, for all tags but `plist`. An end tag is taken for a start tag where the code
-- does not tell them apart.
unfoldable pub read_tag : Bool → TagType → List ℕ → List Attribute → Cell → Input → Lexed
read_tag lp64 type name attributes o input =
    if same_text name (codes "array")
    then container type paren_open paren_close array_token (record o { elements = [] }) input
    else if same_text name (codes "dict")
    then container type brace_open brace_close dictionary_token (record o { elements = [] }) input
    else if same_text name (codes "data")
    then (elim type [
      | empty_tag ↦ record {
        token = data_token;
        cell = record o { data_bytes = []; size = pos 0 };
        input = input;
      }
      | _ ↦ read_data o input
    ])
    else if same_text name (codes "false")
    then read_boolean type 0 o input
    else if same_text name (codes "integer")
    then (elim type [
      | empty_tag ↦ record {
        token = number_token;
        cell = record sized { number = 0 };
        input = input;
      }
      | _ ↦ read_number sized input
    ])
    else if same_text name (codes "key")
    then (elim type [ empty_tag ↦ failed o input | _ ↦ read_text (codes "key") key_token o input ])
    else if same_text name (codes "string")
    then (elim type [
      | empty_tag ↦ record { token = string_token; cell = record o { text = [] }; input = input }
      | _ ↦ read_text (codes "string") string_token o input
    ])
    else if same_text name (codes "set")
    then container type bracket_open bracket_close set_token (record o { elements = [] }) input
    else if same_text name (codes "true")
    then read_boolean type 1 o input
    else failed o input
  where
    sized : Cell
    sized = record o { size = find_size lp64 (pos 64) attributes }

-- What follows the loop over the attributes: a token, or nothing for `plist`, which is passed over.
unfoldable pub identified :
    Bool → TagType → List ℕ → List Attribute → Input → IdResult → Option Lexed
identified lp64 type name attributes input (reference n) =
    some (record { token = idref_token; cell = record new_object { idref = n }; input = input })
identified lp64 type name attributes input bad_id = some (failed new_object input)
identified lp64 type name attributes input (identity n) =
    if same_text name (codes "plist")
    then none
    else some (read_tag lp64 type name attributes (record new_object { idref = n }) input)

-- What a tag comes to.
unfoldable pub token_of : Bool → TagType → List ℕ → List Attribute → Input → Option Lexed
token_of lp64 type name attributes input =
    identified lp64 type name attributes input (find_id lp64 type new_object.idref attributes)

-- The token that the tag at the front is, or the input from which to go on behind it.
pub data Front : Type 0 where
  found : Lexed → Front
  go_on : Input → Front

abbrev pass : Option Lexed → Input → Front
pass none rest = go_on rest
pass (some lexed) rest = found lexed

-- At a tag.
unfoldable pub front_of : Bool → Input → TagResult → Front
front_of lp64 input (bad n) = found (failed new_object (record input { line_number = n }))
front_of lp64 input (ignored rest) = go_on rest
front_of lp64 input (tag type name attributes rest) =
    pass (token_of lp64 type name attributes rest) rest

unfoldable pub front : Bool → Input → Front
front lp64 input =
    let s = skip_spaces input.rest in
    let c = current_char s in
    let n = input.line_number in
    if c == b'\n'
    then go_on (record { rest = behind s; line_number = n + 1 })
    else if c == 0
    then found
        (record { token = end_of_buffer; cell = new_object; input = record input { rest = s } })
    else front_of lp64 input (get_tag (record input { rest = s }))

abbrev lexed_from : Front → (Input → Lexed) → Lexed
lexed_from (found lexed) later = lexed
lexed_from (go_on rest) later = later rest

-- `yylex`. Each round takes a byte at least.
unfoldable pub lex : ℕ → Bool → Input → Lexed
lex zero lp64 input = failed new_object input
lex (suc fuel) lp64 input = lexed_from (front lp64 input) (lex fuel lp64)

unfoldable pub yylex : Bool → Input → Lexed
yylex lp64 input = lex (suc (length input.rest)) lp64 input
