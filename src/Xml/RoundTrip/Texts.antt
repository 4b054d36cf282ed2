-- ===== src/Xml/RoundTrip/Texts.antt =====
-- The tokens that hold a text: those of strings, keys, data and numbers, and of Booleans.
use iokit_user.Prelude.{
  arith, false, ap, [], refl, ◌∷◌, ◌++◌, ◌≡◌, ◌+◌, ◌%◌, ◌^◌, ◌<◌, ◌||◌, ltb, if◌then◌else◌, none,
  some, true, Bool, Option, List, ℕ, pos, codes, ◌∙◌, All, ◌≢◌, length,
}
use iokit_user.Xml.Data.{serialize_data, get_cf_encoded_data, non_null}
use iokit_user.Xml.Data.RoundTrip.{get_cf_encoded_data-serialize_data}
use iokit_user.Xml.Lexer.{
  Token, same_text, find_id, find_size, expect_end, read_text, read_data, or_empty, read_number,
  read_boolean, read_tag, identified, token_of, front_of, front, lex, yylex,
}
use iokit_user.Xml.Number.{NumberType, size_of, number_text, get_number}
use iokit_user.Xml.Number.RoundTrip.{get_number-number_text}
use iokit_user.Xml.Objects.{integer, data_bytes, Kind}
use iokit_user.Xml.RoundTrip.Tags.{start_text, end_text, get_tag-end_text}
use iokit_user.Xml.Serialize.{tag_string}
use iokit_user.Xml.Tag.{
  is_alpha_numeric, is_alpha, close_tag, take_attributes, take_name, named_tag, start_tag, end_tag,
  Attribute, tag, skip_spaces, get_tag,
}
use iokit_user.Xml.Text.{Input, add_escaped, get_string}
use iokit_user.Xml.Text.RoundTrip.{line_ends, get_string-add_escaped}
use iokit_user.Xml.Values.{Cell}
use iokit_user.Xml.RoundTrip.Tokens.{IsInt, headed, find_size_all, yylex_tag, yylex-start_text}
use iokit_user.Xml.Data.RoundTrip.{IsByte}
use iokit_user.Xml.Serialize.{boolean_text}

same_name : (kind : Kind) → same_text (tag_string kind) (tag_string kind) ≡ true
unfolding same_text tag_string
same_name Kind.string = refl
same_name Kind.integer = refl
same_name Kind.data_bytes = refl
same_name Kind.dict = refl
same_name Kind.array = refl
same_name Kind.set = refl

-- The end tag behind a text.
expect_end_kind :
    (kind : Kind) (token : Token) (o : Cell) (rest : List ℕ) (n : ℕ)
    → expect_end (tag_string kind) token o (record { rest = end_text kind rest; line_number = n })
      ≡ record { token = token; cell = o; input = record { rest = rest; line_number = n } }
unfolding expect_end
expect_end_kind kind token o rest n = rw (get_tag-end_text kind rest n, same_name kind) refl

read_text-some :
    (name text : List ℕ) (token : Token) (o : Cell) (input rest : Input)
    → get_string input ≡ (some text, rest)
    → read_text name token o input ≡ expect_end name token (record o { text = text }) rest
unfolding read_text
read_text-some name text token o input rest h = rw h refl

read_tag_string :
    (lp64 : Bool) (attributes : List Attribute) (o : Cell) (input : Input)
    → read_tag lp64 start_tag (tag_string Kind.string) attributes o input
      ≡ read_text (tag_string Kind.string) Token.string_token o input
unfolding read_tag tag_string same_text
read_tag_string lp64 attributes o input = refl

read_tag_data :
    (lp64 : Bool) (attributes : List Attribute) (o : Cell) (input : Input)
    → read_tag lp64 start_tag (tag_string data_bytes) attributes o input ≡ read_data o input
unfolding read_tag tag_string same_text
read_tag_data lp64 attributes o input = refl

read_tag_integer :
    (lp64 : Bool) (attributes : List Attribute) (o : Cell) (input : Input)
    → read_tag lp64 start_tag (tag_string integer) attributes o input
      ≡ read_number (record o { size = find_size lp64 (pos 64) attributes }) input
unfolding read_tag tag_string same_text
read_tag_integer lp64 attributes o input = refl

read_data_bytes :
    (o : Cell) (input rest : Input) (bytes : List ℕ)
    → get_cf_encoded_data input ≡ (non_null bytes, rest)
    → read_data o input
      ≡ expect_end
          (tag_string data_bytes)
          Token.data_token
          (record o { data_bytes = bytes; size = pos (length bytes) })
          rest
unfolding read_data tag_string or_empty
read_data_bytes o input rest [] h = rw h refl
read_data_bytes o input rest (b ∷ bytes) h = rw h refl

read_number_digits :
    (o : Cell) (input : Input) (v : ℕ) (rest : List ℕ)
    → get_number input.rest ≡ (v, rest)
    → read_number o input
      ≡ expect_end
          (tag_string integer)
          Token.number_token
          (record o { number = v })
          (record input { rest = rest })
unfolding read_number tag_string
read_number_digits o input v rest h = rw h refl

pub yylex_string :
    (lp64 : Bool) (id : Option ℕ) (s rest : List ℕ) (n : ℕ)
    → IsInt id
    → All (λ c. c ≢ 0) s
    → yylex lp64 (record {
      rest = start_text Kind.string id none (add_escaped [] s ++ end_text Kind.string rest);
      line_number = n;
    })
      ≡ record {
        token = Token.string_token;
        cell = record (headed id) { text = s };
        input = record { rest = rest; line_number = n + line_ends (add_escaped [] s) };
      }
yylex_string lp64 id s rest n h no_nul =
    yylex-start_text lp64 Kind.string id none _ n h
    ∙ read_tag_string lp64 _ (headed id) _
    ∙ read_text-some (tag_string Kind.string) s Token.string_token (headed id) _ _
        (get_string-add_escaped s _ n no_nul)
    ∙ expect_end_kind Kind.string Token.string_token _ rest _

pub yylex_data :
    (lp64 : Bool) (id : Option ℕ) (s rest : List ℕ) (n : ℕ)
    → IsInt id
    → All IsByte s
    → yylex lp64 (record {
      rest = start_text data_bytes id none (serialize_data s ++ end_text data_bytes rest);
      line_number = n;
    })
      ≡ record {
        token = Token.data_token;
        cell = record (headed id) { data_bytes = s; size = pos (length s) };
        input = record { rest = rest; line_number = n };
      }
yylex_data lp64 id s rest n h are_bytes =
    yylex-start_text lp64 data_bytes id none _ n h
    ∙ read_tag_data lp64 _ (headed id) _
    ∙ read_data_bytes (headed id) _ _ s (get_cf_encoded_data-serialize_data s _ n are_bytes)
    ∙ expect_end_kind data_bytes Token.data_token _ rest _

-- The bits of a number that are read.
abbrev pub value_read : Bool → NumberType → ℕ → ℕ
value_read lp64 type value = if lp64 || ltb 32 (size_of lp64 type) then value else value % 2 ^ 32

size_of-lt : (lp64 : Bool) (type : NumberType) → size_of lp64 type < 2 ^ 31
unfolding size_of
size_of-lt lp64 NumberType.sint8 = omega arith
size_of-lt lp64 NumberType.char = omega arith
size_of-lt lp64 NumberType.sint16 = omega arith
size_of-lt lp64 NumberType.short = omega arith
size_of-lt lp64 NumberType.sint32 = omega arith
size_of-lt lp64 NumberType.int = omega arith
size_of-lt lp64 NumberType.sint64 = omega arith
size_of-lt lp64 NumberType.long_long = omega arith
size_of-lt lp64 NumberType.other = omega arith
size_of-lt true NumberType.long = omega arith
size_of-lt false NumberType.long = omega arith

pub yylex_number :
    (lp64 : Bool) (id : Option ℕ) (type : NumberType) (value : ℕ) (rest : List ℕ) (n : ℕ)
    → IsInt id
    → value < 2 ^ 64
    → yylex lp64 (record {
      rest =
          start_text integer id
            (some (size_of lp64 type))
            (number_text lp64 type value ++ end_text integer rest);
      line_number = n;
    })
      ≡ record {
        token = Token.number_token;
        cell = record (headed id) {
          size = pos (size_of lp64 type);
          number = value_read lp64 type value;
        };
        input = record { rest = rest; line_number = n };
      }
yylex_number lp64 id type value rest n h small =
    yylex-start_text lp64 integer id (some (size_of lp64 type)) _ n h
    ∙ read_tag_integer lp64 _ (headed id) _
    ∙ read_number_digits _ _ (value_read lp64 type value) (end_text integer rest)
        (get_number-number_text lp64 type value _ small)
    ∙ expect_end_kind integer Token.number_token _ rest _
    ∙ ap
        (λ z. record {
          token = Token.number_token;
          cell = record (headed id) { size = z; number = value_read lp64 type value };
          input = record { rest = rest; line_number = n };
        })
        (find_size_all lp64 id (some (size_of lp64 type)) (size_of-lt lp64 type))

get_tag_key :
    (s : List ℕ) (n : ℕ)
    → get_tag (record { rest = codes "<key>" ++ s; line_number = n })
      ≡ tag start_tag (codes "key") [] (record { rest = s; line_number = n })
unfolding get_tag named_tag take_name take_attributes close_tag is_alpha is_alpha_numeric
get_tag_key s n = refl

get_tag_key_end :
    (s : List ℕ) (n : ℕ)
    → get_tag (record { rest = codes "</key>" ++ s; line_number = n })
      ≡ tag end_tag (codes "key") [] (record { rest = s; line_number = n })
unfolding get_tag named_tag take_name take_attributes close_tag is_alpha is_alpha_numeric
get_tag_key_end s n = refl

token_of_key :
    (lp64 : Bool) (rest : Input)
    → token_of lp64 start_tag (codes "key") [] rest
      ≡ some (read_text (codes "key") Token.key_token (headed none) rest)
unfolding token_of identified find_id read_tag same_text
token_of_key lp64 rest = refl

expect_end_key :
    (token : Token) (o : Cell) (rest : List ℕ) (n : ℕ)
    → expect_end (codes "key") token o (record { rest = codes "</key>" ++ rest; line_number = n })
      ≡ record { token = token; cell = o; input = record { rest = rest; line_number = n } }
unfolding expect_end same_text
expect_end_key token o rest n = rw (get_tag_key_end rest n) refl

pub yylex_key :
    (lp64 : Bool) (s rest : List ℕ) (n : ℕ)
    → All (λ c. c ≢ 0) s
    → yylex lp64 (record {
      rest = codes "<key>" ++ (add_escaped [] s ++ (codes "</key>" ++ rest));
      line_number = n;
    })
      ≡ record {
        token = Token.key_token;
        cell = record (headed none) { text = s };
        input = record { rest = rest; line_number = n + line_ends (add_escaped [] s) };
      }
yylex_key lp64 s rest n no_nul =
    yylex_tag lp64 _ n start_tag (codes "key") [] (record { rest = _; line_number = n }) _
      (get_tag_key _ n) (token_of_key lp64 _)
    ∙ read_text-some (codes "key") s Token.key_token (headed none) _ _
        (get_string-add_escaped s _ n no_nul)
    ∙ expect_end_key Token.key_token _ rest _

abbrev pub bit_of : Bool → ℕ
bit_of b = if b then 1 else 0

pub yylex_boolean :
    (lp64 b : Bool) (rest : List ℕ) (n : ℕ)
    → yylex lp64 (record { rest = boolean_text b ++ rest; line_number = n }) ≡ record {
      token = Token.boolean_token;
      cell = record (headed none) { number = bit_of b };
      input = record { rest = rest; line_number = n };
    }
unfolding yylex lex front front_of skip_spaces get_tag named_tag take_name take_attributes close_tag
    is_alpha is_alpha_numeric token_of identified find_id read_tag read_boolean same_text
yylex_boolean lp64 true rest n = refl
yylex_boolean lp64 false rest n = refl
