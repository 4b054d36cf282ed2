-- ===== src/Xml/View.antt =====
-- What is to come back for an object that IOCFSerialize.c writes, how large and how deeply nested it is, and
-- which objects can be written.
use iokit_user.Prelude.{
  suc, ◌+◌, ◌%◌, ◌^◌, ◌<◌, ◌≢◌, ◌≡◌, leb, none, some, if◌then◌else◌, All, Option, Bool, ℕ,
}
use iokit_user.Xml.Data.RoundTrip.{IsByte}
use iokit_user.Xml.Number.{NumberType, size_of}
use iokit_user.Xml.Objects.{
  Object, Objects, Fields, Kind, string, number, bytes, boolean, array, set, dictionary, unknown,
  no_objects, object, no_fields, field, integer, data_bytes, dict,
}
use iokit_user.Xml.Serialize.{not_serializable}
use iokit_user.Xml.Values.{
  Value, Values, Pairs, null, string_value, sint32_value, sint64_value, data_value, boolean_value,
  array_value, set_value, dictionary_value, no_values, value, no_pairs, pair,
}

-- A number of at most 32 bits comes back as an SInt32.
abbrev pub number_value : Bool → NumberType → ℕ → Value
number_value lp64 type n =
    if leb (size_of lp64 type) 32 then sint32_value (n % 2 ^ 32) else sint64_value n

abbrev number_view : Bool → NumberType → Option ℕ → Value
number_view lp64 type none = null
number_view lp64 type (some n) = number_value lp64 type n

-- The object without its addresses; a string comes back for an object of a type without a tag.
unfoldable mutual
  pub view : Bool → Object → Value
  view lp64 (string a s) = string_value s
  view lp64 (number a type n) = number_view lp64 type n
  view lp64 (bytes a s) = data_value s
  view lp64 (boolean b) = boolean_value b
  view lp64 (array a xs) = array_value (view_objects lp64 xs)
  view lp64 (set a xs) = set_value (view_objects lp64 xs)
  view lp64 (dictionary a fs) = dictionary_value (view_fields lp64 fs)
  view lp64 (unknown type) = string_value (not_serializable type)

  pub view_objects : Bool → Objects → Values
  view_objects lp64 no_objects = no_values
  view_objects lp64 (object x xs) = value (view lp64 x) (view_objects lp64 xs)

  pub view_fields : Bool → Fields → Pairs
  view_fields lp64 no_fields = no_pairs
  view_fields lp64 (field key x fs) = pair (string_value key) (view lp64 x) (view_fields lp64 fs)

-- The number of objects, each counted as often as it is met.
unfoldable mutual
  pub weight : Object → ℕ
  weight (array a xs) = suc (weight_objects xs)
  weight (set a xs) = suc (weight_objects xs)
  weight (dictionary a fs) = suc (weight_fields fs)
  weight _ = 1

  pub weight_objects : Objects → ℕ
  weight_objects no_objects = 0
  weight_objects (object x xs) = weight x + weight_objects xs

  pub weight_fields : Fields → ℕ
  weight_fields no_fields = 0
  weight_fields (field key x fs) = weight x + weight_fields fs

abbrev pub larger : ℕ → ℕ → ℕ
larger a b = if leb a b then b else a

-- How many containers an object is inside of, at most.
unfoldable mutual
  pub nesting : Object → ℕ
  nesting (array a xs) = suc (nesting_objects xs)
  nesting (set a xs) = suc (nesting_objects xs)
  nesting (dictionary a fs) = suc (nesting_fields fs)
  nesting _ = 0

  pub nesting_objects : Objects → ℕ
  nesting_objects no_objects = 0
  nesting_objects (object x xs) = larger (nesting x) (nesting_objects xs)

  pub nesting_fields : Fields → ℕ
  nesting_fields no_fields = 0
  nesting_fields (field key x fs) = larger (nesting x) (nesting_fields fs)

abbrev IsNumber : Option ℕ → Type 0
IsNumber none = ⊥
IsNumber (some n) = n < 2 ^ 64

-- No text holds a null byte, bytes are bytes, and each number has a `long long`.
unfoldable mutual
  pub IsWritable : Object → Type 0
  IsWritable (string a s) = All (λ c. c ≢ 0) s
  IsWritable (number a type n) = IsNumber n
  IsWritable (bytes a s) = All IsByte s
  IsWritable (boolean b) = Unit
  IsWritable (array a xs) = AreWritable xs
  IsWritable (set a xs) = AreWritable xs
  IsWritable (dictionary a fs) = FieldsAreWritable fs
  IsWritable (unknown type) = Unit

  pub AreWritable : Objects → Type 0
  AreWritable no_objects = Unit
  AreWritable (object x xs) = IsWritable x × AreWritable xs

  pub FieldsAreWritable : Fields → Type 0
  FieldsAreWritable no_fields = Unit
  FieldsAreWritable (field key x fs) = All (λ c. c ≢ 0) key × IsWritable x × FieldsAreWritable fs

-- At each address there is one object of a type: the one that the first argument says.
unfoldable mutual
  pub Stored : (Kind → ℕ → Object) → Object → Type 0
  Stored heap (string a s) = heap Kind.string a ≡ string a s
  Stored heap (number a type n) = heap integer a ≡ number a type n
  Stored heap (bytes a s) = heap data_bytes a ≡ bytes a s
  Stored heap (boolean b) = Unit
  Stored heap (array a xs) = (heap Kind.array a ≡ array a xs) × AreStored heap xs
  Stored heap (set a xs) = (heap Kind.set a ≡ set a xs) × AreStored heap xs
  Stored heap (dictionary a fs) = (heap dict a ≡ dictionary a fs) × FieldsAreStored heap fs
  Stored heap (unknown type) = Unit

  pub AreStored : (Kind → ℕ → Object) → Objects → Type 0
  AreStored heap no_objects = Unit
  AreStored heap (object x xs) = Stored heap x × AreStored heap xs

  pub FieldsAreStored : (Kind → ℕ → Object) → Fields → Type 0
  FieldsAreStored heap no_fields = Unit
  FieldsAreStored heap (field key x fs) = Stored heap x × FieldsAreStored heap fs
