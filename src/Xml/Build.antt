-- ===== src/Xml/Build.antt =====
-- The actions of the grammar in IOCFUnserialize.tab.c and the functions that they call. The calls of
-- CoreFoundation do not fail.
use iokit_user.Prelude.{
  ◌%◌, ◌^◌, ◌||◌, not, ◌==◌, leb, ◌∷◌, [], none, some, if◌then◌else◌, get_elem?, codes, List,
  Option, ℕ, ℤ, pos, negsuc,
}
use iokit_user.Xml.Text.{Input}
use iokit_user.Xml.Values.{
  Value, Values, Pairs, null, string_value, sint32_value, sint64_value, data_value, boolean_value,
  array_value, set_value, dictionary_value, no_values, value, no_pairs, pair, Link, Cell,
  new_object, links,
}

-- `parser_state_t`; the error is the text of the message and its line.
pub record Parser : Type 0 where
  pub input : Input
  pub tags : ℕ → Value
  pub parsed_object : Value
  pub error_string : Option (List ℕ × ℕ)

-- `IOCFUnserializeerror`
unfoldable pub yyerror : List ℕ → Parser → Parser
yyerror message p = record p { error_string = some (message, p.input.line_number) }

-- `CFDictionarySetValue` on the tags.
unfoldable pub set_tag : (ℕ → Value) → ℕ → Value → ℕ → Value
set_tag tags n o m = if m == n then o else tags m

-- `rememberObject`, where the `idref` is not negative.
unfoldable pub remember_object : ℤ → Value → Parser → Parser
remember_object (pos n) o p = record p { tags = set_tag p.tags n o }
remember_object (negsuc n) o p = p

-- `CFDictionaryGetValue` of `retrieveObject`.
unfoldable pub retrieve_object : ℤ → Parser → Value
retrieve_object (pos n) p = p.tags n
retrieve_object (negsuc n) p = null

-- The loop that reverses the elements.
unfoldable pub reverse_onto : List Link → List Link → List Link
reverse_onto done [] = done
reverse_onto done (l ∷ ls) = reverse_onto (l ∷ done) ls

unfoldable pub values_of : List Link → Values
values_of [] = no_values
values_of ((k, o) ∷ ls) = value o (values_of ls)

unfoldable pub pairs_of : List Link → Pairs
pairs_of [] = no_pairs
pairs_of ((k, o) ∷ ls) = pair k o (pairs_of ls)

-- An object that is built: remembered under the `idref` of its cell, and kept in it.
unfoldable pub built : Value → Cell → Parser → Cell × Parser
built o cell p = (record cell { object = o }, remember_object cell.idref o p)

-- `buildDictionary`
unfoldable pub build_dictionary : Cell → Parser → Cell × Parser
build_dictionary header =
    built (dictionary_value (pairs_of (reverse_onto [] header.elements)))
      (record header { elements = [] })

-- `buildArray`
unfoldable pub build_array : Cell → Parser → Cell × Parser
build_array header =
    built (array_value (values_of (reverse_onto [] header.elements)))
      (record header { elements = [] })

-- `buildSet`
unfoldable pub build_set : Cell → Parser → Cell × Parser
build_set header =
    built (set_value (values_of (reverse_onto [] header.elements)))
      (record header { elements = [] })

-- `buildString`
unfoldable pub build_string : Cell → Parser → Cell × Parser
build_string o = built (string_value o.text) (record o { text = [] })

-- `buildData`
unfoldable pub build_data : Cell → Parser → Cell × Parser
build_data o = built (data_value o.data_bytes) (record o { data_bytes = [] })

-- The number that is made from a size and the bits of a `long long`.
unfoldable pub number_of : ℤ → ℕ → Value
number_of (pos size) n = if leb size 32 then sint32_value (n % 2 ^ 32) else sint64_value n
number_of (negsuc size) n = sint32_value (n % 2 ^ 32)

-- `buildNumber`
unfoldable pub build_number : Cell → Parser → Cell × Parser
build_number o = built (number_of o.size o.number) o

-- `buildBoolean`
unfoldable pub build_boolean : Cell → Parser → Cell × Parser
build_boolean o p = (record o { object = boolean_value (not (o.number == 0)) }, p)

-- What an action comes to: the object of the left side, the end of the parse, or `YYERROR`.
pub data Performed : Type 0 where
  goes_on : Cell → Parser → Performed
  accepts : Parser → Performed
  gives_up : Parser → Performed

-- The object of a symbol, from the top of the stack down.
abbrev cell_at : List Cell → ℕ → Cell
cell_at cells i = or_fresh (get_elem? cells i)
  where
    or_fresh : Option Cell → Cell
    or_fresh none = new_object
    or_fresh (some cell) = cell

abbrev pub built_of : Cell × Parser → Performed
built_of (cell, p) = goes_on cell p

-- The action of a reference, on the object that was retrieved.
unfoldable pub retrieved : Value → Parser → Performed
retrieved null p = gives_up (yyerror (codes "forward reference detected") p)
retrieved o p = goes_on (record new_object { object = o }) p

-- The action of a rule that looks at the stack and, for a rule that pops nothing, at nothing.
unfoldable pub perform : ℕ → List Cell → Parser → Performed
perform rule cells p =
    if rule == 2
    then gives_up (yyerror (codes "unexpected end of buffer") p)
    else if rule == 3
    then accepts (record p { parsed_object = first.object })
    else if rule == 4
    then gives_up (yyerror (codes "syntax error") p)
    else if rule == 5
    then built_of (build_dictionary first p)
    else if rule == 6
    then built_of (build_array first p)
    else if rule == 7
    then built_of (build_set first p)
    else if rule == 8 || rule == 19
    then built_of (build_string first p)
    else if rule == 9
    then built_of (build_data first p)
    else if rule == 10
    then built_of (build_number first p)
    else if rule == 11
    then built_of (build_boolean first p)
    else if rule == 12
    then retrieved (retrieve_object first.idref p) p
    else if rule == 13 || rule == 20 || rule == 23
    then goes_on (record second { elements = [] }) p
    else if rule == 14 || rule == 21 || rule == 24
    then goes_on (record third { elements = links second }) p
    else if rule == 17 || rule == 27
    then goes_on (record first { next = links second }) p
    else if rule == 18
    then goes_on (record second { key = second.object; object = first.object; next = [] }) p
    else if rule == 26
    then goes_on (record first { next = [] }) p
    else goes_on first p
  where
    first : Cell
    first = cell_at cells 0

    second : Cell
    second = cell_at cells 1

    third : Cell
    third = cell_at cells 2
