-- ===== src/Xml/RoundTrip/Tokens.antt =====
-- The tokens that the scanner of IOCFUnserialize.tab.c makes of what IOCFSerialize.c writes.
use iokit_user.Prelude.{
  suc, ap, [], refl, ◌∷◌, ◌≡◌, ◌^◌, ◌<◌, none, some, Bool, Option, List, ℕ, ℤ, pos, negsuc, codes,
  ◌∙◌,
}
use iokit_user.Xml.Lexer.{
  Token, Lexed, same_text, identity, find_id, find_size, read_tag, identified, Front, token_of,
  front_of, front, lex, yylex,
}
use iokit_user.Xml.Objects.{dict, Kind}
use iokit_user.Xml.RoundTrip.Ids.{long_bits, int_of_long-id_text, int_of_bits-id_text}
use iokit_user.Xml.RoundTrip.Tags.{
  id_attribute, size_attribute, start_text, end_text, reference_text, get_tag-start_text,
  get_tag-reference_text, get_tag-end_text,
}
use iokit_user.Xml.Serialize.{id_text, tag_string}
use iokit_user.Xml.Strtol.{strtol, int_of_long}
use iokit_user.Xml.Tag.{
  TagType, start_tag, end_tag, empty_tag, Attribute, tag, skip_spaces, get_tag,
}
use iokit_user.Xml.Text.{Input}
use iokit_user.Xml.Values.{Cell, new_object}

-- The `idref` that is read for an identity.
abbrev pub idref_of : Option ℕ → ℤ
idref_of none = negsuc 0
idref_of (some n) = pos n

-- The identity is a number that an `int` holds.
abbrev pub IsInt : Option ℕ → Type 0
IsInt none = Unit
IsInt (some n) = n < 2 ^ 31

-- The size that is read.
abbrev pub size_read : Option ℕ → ℤ
size_read none = pos 64
size_read (some n) = pos n

-- The object of a token with such an identity.
abbrev pub headed : Option ℕ → Cell
headed id = record new_object { idref = idref_of id }

lex_found :
    (fuel : ℕ) (lp64 : Bool) (input : Input) (lexed : Lexed)
    → front lp64 input ≡ Front.found lexed
    → lex (suc fuel) lp64 input ≡ lexed
unfolding lex
lex_found fuel lp64 input lexed h = rw h refl

front_at_tag :
    (lp64 : Bool) (s : List ℕ) (n : ℕ)
    → front lp64 (record { rest = b'<' ∷ s; line_number = n })
      ≡ front_of lp64
          (record { rest = b'<' ∷ s; line_number = n })
          (get_tag (record { rest = b'<' ∷ s; line_number = n }))
unfolding front skip_spaces
front_at_tag lp64 s n = refl

front_of_token :
    (lp64 : Bool) (type : TagType) (name : List ℕ) (attributes : List Attribute)
    (input rest : Input) (lexed : Lexed)
    → token_of lp64 type name attributes rest ≡ some lexed
    → front_of lp64 input (tag type name attributes rest) ≡ Front.found lexed
unfolding front_of
front_of_token lp64 type name attributes input rest lexed h = rw h refl

pub yylex_tag :
    (lp64 : Bool) (s : List ℕ) (n : ℕ) (type : TagType) (name : List ℕ)
    (attributes : List Attribute) (rest : Input) (lexed : Lexed)
    → get_tag (record { rest = b'<' ∷ s; line_number = n }) ≡ tag type name attributes rest
    → token_of lp64 type name attributes rest ≡ some lexed
    → yylex lp64 (record { rest = b'<' ∷ s; line_number = n }) ≡ lexed
unfolding yylex
yylex_tag lp64 s n type name attributes rest lexed h k = lex_found _ lp64 _ lexed (
    front_at_tag lp64 s n
    ∙ ap (front_of lp64 _) h
    ∙ front_of_token lp64 type name attributes _ rest lexed k)

find_id_size :
    (lp64 : Bool) (idref : ℤ) (size : Option ℕ)
    → find_id lp64 start_tag idref (size_attribute size) ≡ identity idref
unfolding find_id
find_id_size lp64 idref none = refl
find_id_size lp64 idref (some n) = refl

find_id_step :
    (lp64 : Bool) (idref : ℤ) (value : List ℕ) (others : List Attribute)
    → find_id lp64 start_tag idref ((codes "ID", value) ∷ others)
      ≡ find_id lp64 start_tag (int_of_long (strtol (long_bits lp64) value)) others
unfolding find_id same_text
find_id_step lp64 idref value others = refl

find_id_all :
    (lp64 : Bool) (id size : Option ℕ)
    → IsInt id
    → find_id lp64 start_tag (negsuc 0) (id_attribute id (size_attribute size))
      ≡ identity (idref_of id)
find_id_all lp64 none size h = find_id_size lp64 (negsuc 0) size
find_id_all lp64 (some n) size h =
    find_id_step lp64 (negsuc 0) (id_text n) (size_attribute size)
    ∙ ap (λ m. find_id lp64 start_tag m (size_attribute size)) (int_of_long-id_text lp64 n h)
    ∙ find_id_size lp64 (pos n) size

pub find_size_all :
    (lp64 : Bool) (id size : Option ℕ)
    → IsInt size
    → find_size lp64 (pos 64) (id_attribute id (size_attribute size)) ≡ size_read size
unfolding find_size same_text
find_size_all lp64 none none h = refl
find_size_all lp64 (some m) none h = refl
find_size_all lp64 none (some n) h = int_of_bits-id_text lp64 n h
find_size_all lp64 (some m) (some n) h = int_of_bits-id_text lp64 n h

module _ (lp64 : Bool) (type : TagType) (attributes : List Attribute) (idref : ℤ)
    (rest : Input) where
  identified_kind :
      (kind : Kind)
      → identified lp64 type (tag_string kind) attributes rest (identity idref)
        ≡ some (
            read_tag lp64 type
              (tag_string kind)
              attributes
              (record new_object { idref = idref })
              rest)
  unfolding identified same_text tag_string
  identified_kind Kind.string = refl
  identified_kind Kind.integer = refl
  identified_kind Kind.data_bytes = refl
  identified_kind Kind.dict = refl
  identified_kind Kind.array = refl
  identified_kind Kind.set = refl

  token_of_identity :
      (kind : Kind)
      → find_id lp64 type (negsuc 0) attributes ≡ identity idref
      → token_of lp64 type (tag_string kind) attributes rest
        ≡ some (
            read_tag lp64 type
              (tag_string kind)
              attributes
              (record new_object { idref = idref })
              rest)
  unfolding token_of
  token_of_identity kind h =
      ap (identified lp64 type (tag_string kind) attributes rest) h ∙ identified_kind kind

-- A start tag is what its name makes of it.
pub yylex-start_text :
    (lp64 : Bool) (kind : Kind) (id size : Option ℕ) (rest : List ℕ) (n : ℕ)
    → IsInt id
    → yylex lp64 (record { rest = start_text kind id size rest; line_number = n })
      ≡ read_tag lp64 start_tag
          (tag_string kind)
          (id_attribute id (size_attribute size))
          (headed id)
          (record { rest = rest; line_number = n })
yylex-start_text lp64 kind id size rest n h =
    yylex_tag lp64 _ n start_tag (tag_string kind) _ (record { rest = rest; line_number = n }) _
      (get_tag-start_text kind id size rest n)
      (token_of_identity lp64 start_tag _ (idref_of id) _ kind (find_id_all lp64 id size h))

token_of_reference :
    (lp64 : Bool) (kind : Kind) (m : ℕ) (rest : Input)
    → m < 2 ^ 31
    → token_of lp64 empty_tag (tag_string kind) ((codes "IDREF", id_text m) ∷ []) rest
      ≡ some (record { token = Token.idref_token; cell = headed (some m); input = rest })
unfolding token_of identified find_id same_text
token_of_reference lp64 kind m rest h =
    ap
      (λ i. some (record {
        token = Token.idref_token;
        cell = record new_object { idref = i };
        input = rest;
      }))
      (int_of_long-id_text lp64 m h)

pub yylex-reference_text :
    (lp64 : Bool) (kind : Kind) (m : ℕ) (rest : List ℕ) (n : ℕ)
    → m < 2 ^ 31
    → yylex lp64 (record { rest = reference_text kind m rest; line_number = n }) ≡ record {
      token = Token.idref_token;
      cell = headed (some m);
      input = record { rest = rest; line_number = n };
    }
yylex-reference_text lp64 kind m rest n h =
    yylex_tag lp64 _ n empty_tag (tag_string kind) _ (record { rest = rest; line_number = n }) _
      (get_tag-reference_text kind m rest n) (token_of_reference lp64 kind m _ h)

find_id_nil : (lp64 : Bool) (type : TagType) → find_id lp64 type (negsuc 0) [] ≡ identity (negsuc 0)
unfolding find_id
find_id_nil lp64 type = refl

-- The end tag of a container.
yylex-end_text :
    (lp64 : Bool) (kind : Kind) (rest : List ℕ) (n : ℕ)
    → yylex lp64 (record { rest = end_text kind rest; line_number = n })
      ≡ read_tag lp64 end_tag
          (tag_string kind)
          []
          (headed none)
          (record { rest = rest; line_number = n })
yylex-end_text lp64 kind rest n =
    yylex_tag lp64 _ n end_tag (tag_string kind) [] (record { rest = rest; line_number = n }) _
      (get_tag-end_text kind rest n)
      (token_of_identity lp64 end_tag [] (negsuc 0) _ kind (find_id_nil lp64 end_tag))

-- The token of a container's start tag, and of its end tag.
abbrev pub opening : Kind → Token
opening dict = Token.brace_open
opening Kind.array = Token.paren_open
opening _ = Token.bracket_open

abbrev pub closing : Kind → Token
closing dict = Token.brace_close
closing Kind.array = Token.paren_close
closing _ = Token.bracket_close

pub data IsContainer : Kind → Type 0 where
  dict_container : IsContainer dict
  array_container : IsContainer Kind.array
  set_container : IsContainer Kind.set

pub yylex-opening :
    {kind : Kind} (lp64 : Bool) (id : Option ℕ) (rest : List ℕ) (n : ℕ)
    → IsContainer kind
    → IsInt id
    → yylex lp64 (record { rest = start_text kind id none rest; line_number = n }) ≡ record {
      token = opening kind;
      cell = headed id;
      input = record { rest = rest; line_number = n };
    }
unfolding read_tag tag_string same_text
yylex-opening lp64 id rest n dict_container h = yylex-start_text lp64 dict id none rest n h
yylex-opening lp64 id rest n array_container h = yylex-start_text lp64 Kind.array id none rest n h
yylex-opening lp64 id rest n set_container h = yylex-start_text lp64 Kind.set id none rest n h

pub yylex-closing :
    {kind : Kind} (lp64 : Bool) (rest : List ℕ) (n : ℕ)
    → IsContainer kind
    → yylex lp64 (record { rest = end_text kind rest; line_number = n }) ≡ record {
      token = closing kind;
      cell = headed none;
      input = record { rest = rest; line_number = n };
    }
unfolding read_tag tag_string same_text
yylex-closing lp64 rest n dict_container = yylex-end_text lp64 dict rest n
yylex-closing lp64 rest n array_container = yylex-end_text lp64 Kind.array rest n
yylex-closing lp64 rest n set_container = yylex-end_text lp64 Kind.set rest n
