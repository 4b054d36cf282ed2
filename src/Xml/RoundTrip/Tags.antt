-- ===== src/Xml/RoundTrip/Tags.antt =====
-- The tags that IOCFSerialize.c writes, read by `getTag` of IOCFUnserialize.tab.c.
use iokit_user.Prelude.{
  zero, suc, ap, [], refl, ◌∷◌, ◌++◌, ◌≡◌, none, some, true, Option, List, ℕ, codes, ◌>>=◌, ◌∙◌,
}
use iokit_user.Xml.Objects.{Kind}
use iokit_user.Xml.RoundTrip.Ids.{take_quoted-id_text}
use iokit_user.Xml.Serialize.{id_text, tag_string}
use iokit_user.Xml.Tag.{
  expect, TagType, start_tag, end_tag, empty_tag, Attribute, tag, is_alpha, is_alpha_numeric,
  skip_spaces, take_name, take_attribute, take_attributes, close_tag, named_tag, get_tag,
}
use iokit_user.Xml.Text.{current_char}

-- The text of an attribute that may be missing, and what follows it.
abbrev pub id_part : Option ℕ → List ℕ → List ℕ
id_part none s = s
id_part (some n) s = codes " ID=\"" ++ (id_text n ++ b'"' ∷ s)

abbrev pub size_part : Option ℕ → List ℕ → List ℕ
size_part none s = s
size_part (some n) s = codes " size=\"" ++ (id_text n ++ b'"' ∷ s)

abbrev pub id_attribute : Option ℕ → List Attribute → List Attribute
id_attribute none attributes = attributes
id_attribute (some n) attributes = (codes "ID", id_text n) ∷ attributes

abbrev pub size_attribute : Option ℕ → List Attribute
size_attribute none = []
size_attribute (some n) = (codes "size", id_text n) ∷ []

-- A start tag and what follows it.
abbrev pub start_text : Kind → Option ℕ → Option ℕ → List ℕ → List ℕ
start_text kind id size rest = b'<' ∷ (tag_string kind ++ id_part id (size_part size (b'>' ∷ rest)))

abbrev pub end_text : Kind → List ℕ → List ℕ
end_text kind rest = b'<' ∷ b'/' ∷ (tag_string kind ++ b'>' ∷ rest)

abbrev pub reference_text : Kind → ℕ → List ℕ → List ℕ
reference_text kind n rest =
    b'<' ∷ (tag_string kind ++ (codes " IDREF=\"" ++ (id_text n ++ b'"' ∷ b'/' ∷ b'>' ∷ rest)))

take_attribute_id :
    (n : ℕ) (s : List ℕ)
    → take_attribute (codes " ID=\"" ++ (id_text n ++ b'"' ∷ s)) ≡ some ((codes "ID", id_text n), s)
unfolding take_attribute expect take_name skip_spaces is_alpha_numeric is_alpha
take_attribute_id n s =
    ap (λ o. o >>= λ (v, t). some ((codes "ID", v), t)) (take_quoted-id_text n s)

take_attribute_size :
    (n : ℕ) (s : List ℕ)
    → take_attribute (codes " size=\"" ++ (id_text n ++ b'"' ∷ s))
      ≡ some ((codes "size", id_text n), s)
unfolding take_attribute expect take_name skip_spaces is_alpha_numeric is_alpha
take_attribute_size n s =
    ap (λ o. o >>= λ (v, t). some ((codes "size", v), t)) (take_quoted-id_text n s)

take_attribute_idref :
    (n : ℕ) (s : List ℕ)
    → take_attribute (codes " IDREF=\"" ++ (id_text n ++ b'"' ∷ s))
      ≡ some ((codes "IDREF", id_text n), s)
unfolding take_attribute expect take_name skip_spaces is_alpha_numeric is_alpha
take_attribute_idref n s =
    ap (λ o. o >>= λ (v, t). some ((codes "IDREF", v), t)) (take_quoted-id_text n s)

take_attributes_stop :
    (room : ℕ) (rest : List ℕ) → take_attributes room (b'>' ∷ rest) ≡ some ([], b'>' ∷ rest)
unfolding take_attributes
take_attributes_stop zero rest = refl
take_attributes_stop (suc room) rest = refl

-- An attribute in front of others.
take_attributes_step :
    (room : ℕ) (s t rest : List ℕ) (a : Attribute) (others : List Attribute)
    → take_attribute (b' ' ∷ s) ≡ some (a, t)
    → take_attributes room t ≡ some (others, rest)
    → take_attributes (suc room) (b' ' ∷ s) ≡ some (a ∷ others, rest)
unfolding take_attributes
take_attributes_step room s t rest a others h k = rw (h, k) refl

take_attributes_size :
    (size : Option ℕ) (rest : List ℕ)
    → take_attributes 30 (size_part size (b'>' ∷ rest)) ≡ some (size_attribute size, b'>' ∷ rest)
take_attributes_size none rest = take_attributes_stop 30 rest
take_attributes_size (some n) rest =
    take_attributes_step 29 _ (b'>' ∷ rest) _ _ [] (take_attribute_size n (b'>' ∷ rest))
      (take_attributes_stop 29 rest)

take_attributes_all :
    (id size : Option ℕ) (rest : List ℕ)
    → take_attributes 31 (id_part id (size_part size (b'>' ∷ rest)))
      ≡ some (id_attribute id (size_attribute size), b'>' ∷ rest)
take_attributes_all none none rest = take_attributes_stop 31 rest
take_attributes_all none (some n) rest =
    take_attributes_step 30 _ (b'>' ∷ rest) _ _ [] (take_attribute_size n (b'>' ∷ rest))
      (take_attributes_stop 30 rest)
take_attributes_all (some n) size rest =
    take_attributes_step 30 _ (size_part size (b'>' ∷ rest)) _ _ (size_attribute size)
      (take_attribute_id n (size_part size (b'>' ∷ rest))) (take_attributes_size size rest)

take_attributes_idref :
    (n : ℕ) (rest : List ℕ)
    → take_attributes 31 (codes " IDREF=\"" ++ (id_text n ++ b'"' ∷ b'/' ∷ rest))
      ≡ some ((codes "IDREF", id_text n) ∷ [], b'/' ∷ rest)
take_attributes_idref n rest =
    take_attributes_step 30 _ (b'/' ∷ rest) _ _ [] (take_attribute_idref n (b'/' ∷ rest))
      (unfold take_attributes in refl)

module _ (s : List ℕ) where
  take_name_space :
      (kind : Kind) → take_name 30 (tag_string kind ++ b' ' ∷ s) ≡ some (tag_string kind, b' ' ∷ s)
  unfolding take_name tag_string is_alpha_numeric is_alpha
  take_name_space Kind.string = refl
  take_name_space Kind.integer = refl
  take_name_space Kind.data_bytes = refl
  take_name_space Kind.dict = refl
  take_name_space Kind.array = refl
  take_name_space Kind.set = refl

  take_name_close :
      (kind : Kind) → take_name 30 (tag_string kind ++ b'>' ∷ s) ≡ some (tag_string kind, b'>' ∷ s)
  unfolding take_name tag_string is_alpha_numeric is_alpha
  take_name_close Kind.string = refl
  take_name_close Kind.integer = refl
  take_name_close Kind.data_bytes = refl
  take_name_close Kind.dict = refl
  take_name_close Kind.array = refl
  take_name_close Kind.set = refl

  -- A tag begins with a letter.
  alpha_first : (kind : Kind) → is_alpha (current_char (tag_string kind ++ s)) ≡ true
  unfolding tag_string is_alpha
  alpha_first Kind.string = refl
  alpha_first Kind.integer = refl
  alpha_first Kind.data_bytes = refl
  alpha_first Kind.dict = refl
  alpha_first Kind.array = refl
  alpha_first Kind.set = refl

  get_tag_start :
      (kind : Kind) (n : ℕ)
      → get_tag (record { rest = b'<' ∷ (tag_string kind ++ s); line_number = n })
        ≡ named_tag start_tag (tag_string kind ++ s) n
  unfolding get_tag tag_string
  get_tag_start Kind.string n = refl
  get_tag_start Kind.integer n = refl
  get_tag_start Kind.data_bytes n = refl
  get_tag_start Kind.dict n = refl
  get_tag_start Kind.array n = refl
  get_tag_start Kind.set n = refl

take_name_parts :
    (kind : Kind) (id size : Option ℕ) (rest : List ℕ)
    → take_name 30 (tag_string kind ++ id_part id (size_part size (b'>' ∷ rest)))
      ≡ some (tag_string kind, id_part id (size_part size (b'>' ∷ rest)))
take_name_parts kind none none rest = take_name_close rest kind
take_name_parts kind none (some n) rest = take_name_space _ kind
take_name_parts kind (some n) size rest = take_name_space _ kind

named_tag_close :
    (type : TagType) (s t rest name : List ℕ) (n : ℕ) (attributes : List Attribute)
    → is_alpha (current_char s) ≡ true
    → take_name 30 s ≡ some (name, t)
    → take_attributes 31 t ≡ some (attributes, b'>' ∷ rest)
    → named_tag type s n ≡ tag type name attributes (record { rest = rest; line_number = n })
unfolding named_tag close_tag
named_tag_close type s t rest name n attributes a b c = rw (a, b, c) refl

named_tag_empty :
    (type : TagType) (s t rest name : List ℕ) (n : ℕ) (attributes : List Attribute)
    → is_alpha (current_char s) ≡ true
    → take_name 30 s ≡ some (name, t)
    → take_attributes 31 t ≡ some (attributes, b'/' ∷ b'>' ∷ rest)
    → named_tag type s n ≡ tag empty_tag name attributes (record { rest = rest; line_number = n })
unfolding named_tag close_tag
named_tag_empty type s t rest name n attributes a b c = rw (a, b, c) refl

-- A start tag, with an identity, with a size, with both or with neither, is read as a start tag of its
-- name with these attributes, whatever follows it.
pub get_tag-start_text :
    (kind : Kind) (id size : Option ℕ) (rest : List ℕ) (n : ℕ)
    → get_tag (record { rest = start_text kind id size rest; line_number = n })
      ≡ tag start_tag
          (tag_string kind)
          (id_attribute id (size_attribute size))
          (record { rest = rest; line_number = n })
get_tag-start_text kind id size rest n =
    get_tag_start _ kind n
    ∙ named_tag_close start_tag _ _ rest (tag_string kind) n _ (alpha_first _ kind)
        (take_name_parts kind id size rest) (take_attributes_all id size rest)

pub get_tag-reference_text :
    (kind : Kind) (m : ℕ) (rest : List ℕ) (n : ℕ)
    → get_tag (record { rest = reference_text kind m rest; line_number = n })
      ≡ tag empty_tag
          (tag_string kind)
          ((codes "IDREF", id_text m) ∷ [])
          (record { rest = rest; line_number = n })
get_tag-reference_text kind m rest n =
    get_tag_start _ kind n
    ∙ named_tag_empty start_tag _ _ rest (tag_string kind) n _ (alpha_first _ kind)
        (take_name_space _ kind) (take_attributes_idref m (b'>' ∷ rest))

get_tag_end :
    (s : List ℕ) (n : ℕ)
    → get_tag (record { rest = b'<' ∷ b'/' ∷ s; line_number = n }) ≡ named_tag end_tag s n
unfolding get_tag
get_tag_end s n = refl

pub get_tag-end_text :
    (kind : Kind) (rest : List ℕ) (n : ℕ)
    → get_tag (record { rest = end_text kind rest; line_number = n })
      ≡ tag end_tag (tag_string kind) [] (record { rest = rest; line_number = n })
get_tag-end_text kind rest n =
    get_tag_end _ n
    ∙ named_tag_close end_tag _ _ rest (tag_string kind) n [] (alpha_first _ kind)
        (take_name_close rest kind) (take_attributes_stop 31 rest)
