-- ===== src/Xml/Serialize.antt =====
-- IOCFSerialize.c: the scan for objects that are met twice, and the writing of the objects. Its six
-- dictionaries are one function of the type and the address. No allocation fails.
use iokit_user.Prelude.{
  zero, suc, ◌+◌, ◌/◌, ◌%◌, ◌^◌, ◌++◌, ◌==◌, ◌∷◌, [], codes, ltb, none, some, ◌>>=◌, if◌then◌else◌,
  true, List, Option, Bool, ℕ,
}
use iokit_user.Xml.Data.{serialize_data}
use iokit_user.Xml.Number.{NumberType, size_of, number_text, hex_digits}
use iokit_user.Xml.Objects.{
  Object, Objects, Fields, Kind, string, number, bytes, boolean, array, set, dictionary, unknown,
  no_objects, object, no_fields, field, integer, data_bytes, dict,
}
use iokit_user.Xml.Text.{add_escaped}

-- An entry of an IDRef dictionary: `kCFBooleanFalse`, `kCFBooleanTrue`, or a number.
pub data Entry : Type 0 where
  seen_once : Entry
  has_refs : Entry
  identified : ℕ → Entry

-- The dictionaries of `IOCFSerializeState`.
abbrev pub IdRefs : Type 0
IdRefs = Kind → ℕ → Option Entry

-- `IOCFSerializeState`
pub record Writer : Type 0 where
  pub written : List ℕ
  pub idref_num_refs : ℕ
  pub id_refs : IdRefs

unfoldable pub Kind-discrete : Discrete Kind
Kind-discrete = hlevel

-- The new entry if the type and the address are the same, and the old one otherwise.
abbrev pub entry_at {ℓ} : {P : Type ℓ} → Dec P → Bool → Option Entry → Option Entry → Option Entry
entry_at (yes _) true new old = new
entry_at _ _ new old = old

-- `CFDictionarySetValue` on the dictionary of a type.
unfoldable pub set_entry : IdRefs → Kind → ℕ → Entry → IdRefs
set_entry refs kind address entry k a =
    entry_at (Kind-discrete k kind) (a == address) (some entry) (refs k a)

-- `getTagString`
unfoldable pub tag_string : Kind → List ℕ
tag_string Kind.string = codes "string"
tag_string integer = codes "integer"
tag_string data_bytes = codes "data"
tag_string dict = codes "dict"
tag_string Kind.array = codes "array"
tag_string Kind.set = codes "set"

-- `addString`
abbrev pub add_string : List ℕ → Writer → Writer
add_string s w = record w { written = w.written ++ s }

unfoldable pub seen_again : Option Entry → Entry
seen_again none = seen_once
seen_again (some entry) = has_refs

-- `recordObjectInIDRefDictionary`
unfoldable pub record_object : Kind → ℕ → IdRefs → IdRefs
record_object kind address refs = set_entry refs kind address (seen_again (refs kind address))

-- `DoIdrefScan`
unfoldable mutual
  pub scan : Object → IdRefs → IdRefs
  scan (string a s) refs = record_object Kind.string a refs
  scan (number a type value) refs = record_object integer a refs
  scan (bytes a s) refs = record_object data_bytes a refs
  scan (boolean b) refs = refs
  scan (array a xs) refs = scan_objects xs (record_object Kind.array a refs)
  scan (set a xs) refs = scan_objects xs (record_object Kind.set a refs)
  scan (dictionary a fs) refs = scan_fields fs (record_object dict a refs)
  scan (unknown type) refs = refs

  pub scan_objects : Objects → IdRefs → IdRefs
  scan_objects no_objects refs = refs
  scan_objects (object x xs) refs = scan_objects xs (scan x refs)

  pub scan_fields : Fields → IdRefs → IdRefs
  scan_fields no_fields refs = refs
  scan_fields (field key x fs) refs = scan_fields fs (scan x refs)

unfoldable pub decimal_digits : ℕ → ℕ → List ℕ
decimal_digits zero n = []
decimal_digits (suc k) n =
    let more = decimal_digits k (n / 10) in
    if ltb n 10 then (b'0' + n) ∷ [] else more ++ (b'0' + n % 10) ∷ []

-- What `snprintf` makes of `%d` for an `int` that is not negative: at most ten digits.
unfoldable pub id_text : ℕ → List ℕ
id_text n = decimal_digits 10 n

-- `previouslySerialized`: the reference that is written, if any.
unfoldable pub previously_serialized : Kind → Option Entry → Option (List ℕ)
previously_serialized kind (some (identified n)) =
    some (codes "<" ++ tag_string kind ++ codes " IDREF=\"" ++ id_text n ++ codes "\"/>")
previously_serialized kind _ = none

-- The additional tags, behind a blank.
abbrev pub additional : Option (List ℕ) → List ℕ
additional none = []
additional (some s) = b' ' ∷ s

-- `addStartTag`, from the entry of the object on.
unfoldable pub add_start : Kind → ℕ → Option (List ℕ) → Writer → Option Entry → Writer
add_start kind address tags w (some has_refs) = record w {
  written =
      w.written
      ++ (codes "<"
          ++ tag_string kind
          ++ codes " ID=\""
          ++ id_text w.idref_num_refs
          ++ codes "\""
          ++ additional tags
          ++ codes ">");
  idref_num_refs = w.idref_num_refs + 1;
  id_refs = set_entry w.id_refs kind address (identified w.idref_num_refs);
}
add_start kind address tags w _ =
    add_string (codes "<" ++ tag_string kind ++ additional tags ++ codes ">") w

-- `addStartTag`
unfoldable pub add_start_tag : Kind → ℕ → Option (List ℕ) → Writer → Writer
add_start_tag kind address tags w = add_start kind address tags w (w.id_refs kind address)

-- `addEndTag`
unfoldable pub add_end_tag : Kind → Writer → Writer
add_end_tag kind = add_string (codes "</" ++ tag_string kind ++ codes ">")

-- The rest of a function of a type, from the reference on that has been written, if any.
unfoldable pub serialize_unless :
    Kind → ℕ → Option (List ℕ) → (Writer → Option Writer) → Writer → Option (List ℕ) → Option Writer
serialize_unless kind address tags body w (some reference) = some (add_string reference w)
serialize_unless kind address tags body w none = do
  w2 ← body (add_start_tag kind address tags w)
  some (add_end_tag kind w2)

-- The frame that the functions of the types share: nothing but a reference if the object has been
-- serialised already, and the tags around what the body writes otherwise.
unfoldable pub serialize_as :
    Kind → ℕ → Option (List ℕ) → (Writer → Option Writer) → Writer → Option Writer
serialize_as kind address tags body w =
    serialize_unless kind address tags body w (previously_serialized kind (w.id_refs kind address))

-- `DoCFSerializeBoolean`
abbrev pub boolean_text : Bool → List ℕ
boolean_text b = if b then codes "<true/>" else codes "<false/>"

-- `DoCFSerializeKey`
unfoldable pub serialize_key : List ℕ → Writer → Writer
serialize_key key = add_string (codes "<key>" ++ add_escaped [] key ++ codes "</key>")

-- The additional tags of `DoCFSerializeNumber`.
unfoldable pub size_tag : Bool → NumberType → List ℕ
size_tag lp64 type = codes "size=\"" ++ id_text (size_of lp64 type) ++ codes "\""

-- The string that stands for an object of another type.
unfoldable pub not_serializable : ℕ → List ℕ
not_serializable type =
    codes "<string>typeID 0x" ++ hex_digits 8 (type % 2 ^ 32) ++ codes " not serializable</string>"

-- What `DoCFSerializeNumber` writes between its tags; its value is read before the start tag.
unfoldable pub number_body : Bool → NumberType → Option ℕ → Writer → Option Writer
number_body lp64 type none w = none
number_body lp64 type (some value) w = some (add_string (number_text lp64 type value) w)

-- `DoCFSerialize`; `none` where it answers false. The argument says whether a `long` has 64 bits. The
-- string made for an object of another type is in no dictionary.
unfoldable mutual
  pub serialize : Bool → Object → Writer → Option Writer
  serialize lp64 (string a s) w =
      serialize_as Kind.string a none (λ v. some (add_string (add_escaped [] s) v)) w
  serialize lp64 (number a type value) w =
      serialize_as integer a (some (size_tag lp64 type)) (number_body lp64 type value) w
  serialize lp64 (bytes a s) w =
      serialize_as data_bytes a none (λ v. some (add_string (serialize_data s) v)) w
  serialize lp64 (boolean b) w = some (add_string (boolean_text b) w)
  serialize lp64 (array a xs) w = serialize_as Kind.array a none (serialize_objects lp64 xs) w
  serialize lp64 (set a xs) w = serialize_as Kind.set a none (serialize_objects lp64 xs) w
  serialize lp64 (dictionary a fs) w = serialize_as dict a none (serialize_fields lp64 fs) w
  serialize lp64 (unknown type) w = some (
      add_string (codes "<string>" ++ add_escaped [] (not_serializable type) ++ codes "</string>")
        w)

  pub serialize_objects : Bool → Objects → Writer → Option Writer
  serialize_objects lp64 no_objects w = some w
  serialize_objects lp64 (object x xs) w = do v ← serialize lp64 x w; serialize_objects lp64 xs v

  pub serialize_fields : Bool → Fields → Writer → Option Writer
  serialize_fields lp64 no_fields w = some w
  serialize_fields lp64 (field key x fs) w = do
    v ← serialize lp64 x (serialize_key key w)
    serialize_fields lp64 fs v

-- The state behind the scan.
unfoldable pub start_writer : Object → Writer
start_writer x = record { written = []; idref_num_refs = 0; id_refs = scan x (λ k a. none) }

-- `IOCFSerialize`: the bytes with the terminator, or `none` for the null pointer. An argument is missing
-- where the object is the null pointer.
unfoldable pub iocf_serialize : Bool → Option Object → ℕ → Option (List ℕ)
iocf_serialize lp64 none options = none
iocf_serialize lp64 (some x) options =
    if options == 0
    then (do w ← serialize lp64 x (start_writer x); some (w.written ++ 0 ∷ []))
    else none
