-- ===== src/Xml/Objects.antt =====
-- The objects that IOCFSerialize.c writes, and the type codes by which it knows them. An object that is
-- not a Boolean is known by its address. A container lists what CoreFoundation hands out for it, in that
-- order; a string, and a key, is its UTF-8 bytes.
use iokit_user.Prelude.{List, Option, ℕ, Bool}
use iokit_user.Xml.Number.{NumberType}

-- A number holds its `long long`, or `none` if `CFNumberGetValue` answers that it has none; `unknown`
-- holds the type code of an object of any other type.
mutual
  pub data Object : Type 0 where
    string : ℕ → List ℕ → Object
    number : ℕ → NumberType → Option ℕ → Object
    bytes : ℕ → List ℕ → Object
    boolean : Bool → Object
    array : ℕ → Objects → Object
    set : ℕ → Objects → Object
    dictionary : ℕ → Fields → Object
    unknown : ℕ → Object

  pub data Objects : Type 0 where
    no_objects : Objects
    object : Object → Objects → Objects

  pub data Fields : Type 0 where
    no_fields : Fields
    field : List ℕ → Object → Fields → Fields

-- The types that have a tag of their own.
pub data Kind : Type 0 where
  string integer data_bytes dict array set : Kind
