-- ===== src/Xml/Values.antt =====
-- What IOCFUnserialize.tab.c makes: a CoreFoundation object, known by the calls that made it, and
-- `object_t`, in which the scanner and the actions of the grammar keep one.
use iokit_user.Prelude.{List, [], ◌∷◌, ℕ, ℤ, pos, negsuc, Bool}

-- `null` is the null pointer. A string is the C string that it is made from, a number the bits of an
-- SInt32 or an SInt64; a container lists what it was filled with, from the first call on.
mutual
  pub data Value : Type 0 where
    null : Value
    string_value : List ℕ → Value
    sint32_value : ℕ → Value
    sint64_value : ℕ → Value
    data_value : List ℕ → Value
    boolean_value : Bool → Value
    array_value : Values → Value
    set_value : Values → Value
    dictionary_value : Pairs → Value

  pub data Values : Type 0 where
    no_values : Values
    value : Value → Values → Values

  pub data Pairs : Type 0 where
    no_pairs : Pairs
    pair : Value → Value → Pairs → Pairs

-- An `object_t` in a list of elements: its key and its object.
abbrev pub Link : Type 0
Link = Value × Value

-- `object_t`; a list is that of the objects along `next`, and fields that are not read are not set.
pub record Cell : Type 0 where
  pub next : List Link
  pub elements : List Link
  pub object : Value
  pub key : Value
  pub size : ℤ
  pub data_bytes : List ℕ
  pub text : List ℕ
  pub number : ℕ
  pub idref : ℤ

-- What `newObject` hands out, with the `idref` that the scanner sets.
abbrev pub new_object : Cell
new_object = record {
  next = [];
  elements = [];
  object = null;
  key = null;
  size = pos 0;
  data_bytes = [];
  text = [];
  number = 0;
  idref = negsuc 0;
}

-- What a list of elements holds of a cell, and of those behind it.
abbrev pub links : Cell → List Link
links o = (o.key, o.object) ∷ o.next
