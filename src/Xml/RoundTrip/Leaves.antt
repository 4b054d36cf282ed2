-- ===== src/Xml/RoundTrip/Leaves.antt =====
-- Objects without elements, read by `yyparse` of IOCFUnserialize.tab.c.
use iokit_user.Prelude.{
  ap, [], refl, ◌∷◌, ◌++◌, ◌≡◌, ◌≢◌, ◌+◌, ◌^◌, ◌<◌, ◌≤◌, ◌==◌, leb, ltb, none, some, true, false,
  Bool, Bool-cases, inl, inr, if◌then◌else◌, Option, List, ℕ, ◌∙◌, length, drop, arith, All, pos,
}
use iokit_user.Xml.Build.{
  retrieved, built_of, Parser, goes_on, perform, set_tag, remember_object, retrieve_object, built,
  build_string, build_data, build_number, build_boolean, number_of,
}
use iokit_user.Xml.Data.{serialize_data}
use iokit_user.Xml.Data.RoundTrip.{IsByte}
use iokit_user.Xml.Lexer.{Token, yylex}
use iokit_user.Xml.Number.{NumberType, size_of, number_text}
use iokit_user.Xml.Objects.{Kind, integer, data_bytes}
use iokit_user.Xml.RoundTrip.Moves.{
  Starts, needs_token-Starts, move_boolean, move_data, move_idref, move_number, move_string,
  goto_boolean, goto_data, goto_idref, goto_number, goto_string, Steps, ◌then◌, machine, reduction,
  shifting,
}
use iokit_user.Xml.RoundTrip.Tags.{start_text, end_text, reference_text}
use iokit_user.Xml.RoundTrip.Texts.{
  yylex_string, yylex_data, yylex_number, yylex_boolean, value_read, bit_of,
}
use iokit_user.Xml.RoundTrip.Tokens.{IsInt, headed, idref_of, yylex-reference_text}
use iokit_user.Xml.Serialize.{boolean_text}
use iokit_user.Xml.Tables.{
  symbol, rule_length, shift, reduce, needs_token, default_move, token_move, goto_state,
}
use iokit_user.Xml.View.{number_value}
use mathlib.Core.Path.{subst}
use iokit_user.Xml.Text.{Input, add_escaped}
use iokit_user.Xml.Text.RoundTrip.{line_ends}
use iokit_user.Xml.Unserialize.{running}
use iokit_user.Xml.Values.{
  Cell, Value, null, string_value, sint32_value, sint64_value, data_value, boolean_value,
  array_value, set_value, dictionary_value, new_object,
}

abbrev pub parser : List ℕ → ℕ → (ℕ → Value) → Value → Option (List ℕ × ℕ) → Parser
parser s n tags o e = record {
  input = record { rest = s; line_number = n };
  tags = tags;
  parsed_object = o;
  error_string = e;
}

-- In a state in which an object may begin, the parser goes over the text in front of the rest to the
-- state behind an object, with the value in the cell on top, and with other tags. It needs room for so
-- many states.
abbrev pub Reads : Bool → ℕ → List ℕ → List ℕ → (ℕ → Value) → (ℕ → Value) → Value → Type 0
Reads lp64 need s rest tags tags2 v =
    (q : ℕ) (states : List ℕ) (cells : List Cell) (n : ℕ) (o : Value) (e : Option (List ℕ × ℕ))
    → Starts q
    → length (q ∷ states) + need ≤ 9999
    → (cell : Cell) × (n2 : ℕ) × (cell.object ≡ v)
      × Steps lp64 (running (machine (q ∷ states) cells (parser s n tags o e))) (
          running (machine (goto_state 5 q ∷ q ∷ states) (cell ∷ cells) (parser rest n2 tags2 o e)))

-- The tags behind an object with such an identity.
abbrev pub remembered : Option ℕ → Value → (ℕ → Value) → ℕ → Value
remembered none v tags = tags
remembered (some n) v tags = set_tag tags n v

pub remember_object-parser :
    (id : Option ℕ) (v : Value) (s : List ℕ) (n : ℕ) (tags : ℕ → Value) (o : Value)
    (e : Option (List ℕ × ℕ))
    → remember_object (idref_of id) v (parser s n tags o e) ≡ parser s n (remembered id v tags) o e
unfolding remember_object
remember_object-parser none v s n tags o e = refl
remember_object-parser (some m) v s n tags o e = refl

-- A token is shifted, reduced by one rule to its nonterminal, and by another to an object.
leaf :
    (lp64 : Bool) (q : ℕ) (states : List ℕ) (cells : List Cell) (p p2 : Parser) (input : Input)
    (token : Token) (cell cell2 : Cell) (t rule t2 rule2 : ℕ)
    → Starts q
    → length (q ∷ states) + 1 ≤ 9999
    → yylex lp64 p.input ≡ record { token = token; cell = cell; input = input }
    → (token_move q (symbol token) ≡ shift t) × ((symbol token == 0) ≡ false)
    → (needs_token t ≡ false)
      × (default_move t ≡ reduce rule)
      × (rule_length rule ≡ 1)
      × (goto_state rule q ≡ t2)
    → (needs_token t2 ≡ false)
      × (default_move t2 ≡ reduce rule2)
      × (rule_length rule2 ≡ 1)
      × (goto_state rule2 q ≡ goto_state 5 q)
    → perform rule (cell ∷ cells) (record p { input = input })
      ≡ goes_on cell (record p { input = input })
    → perform rule2 (cell ∷ cells) (record p { input = input }) ≡ goes_on cell2 p2
    → Steps lp64
        (running (machine (q ∷ states) cells p))
        (running (machine (goto_state 5 q ∷ q ∷ states) (cell2 ∷ cells) p2))
leaf lp64 q states cells p p2 input token cell cell2 t rule t2 rule2 h room lex (mv, no_end)
      (a, b, c, d) (a2, b2, c2, d2) act act2 =
    shifting lp64 q t states cells p token cell input lex (needs_token-Starts q h) mv no_end
      (omega arith)
    then reduction lp64 t rule q t2 (q ∷ states) states (cell ∷ cells) cells _ _ cell a b act
        (ap (λ k. drop k (t ∷ q ∷ states)) c) (ap (λ k. drop k (cell ∷ cells)) c) d (omega arith)
    then reduction lp64 t2 rule2 q (goto_state 5 q) (q ∷ states) states (cell ∷ cells) cells _ p2
        cell2 a2 b2 act2 (ap (λ k. drop k (t2 ∷ q ∷ states)) c2)
        (ap (λ k. drop k (cell ∷ cells)) c2) d2 (omega arith)

pub Reads-string :
    (lp64 : Bool) (id : Option ℕ) (s rest : List ℕ) (tags : ℕ → Value)
    → IsInt id
    → All (λ c. c ≢ 0) s
    → Reads lp64 1
        (start_text Kind.string id none (add_escaped [] s ++ end_text Kind.string rest))
        rest
        tags
        (remembered id (string_value s) tags)
        (string_value s)
unfolding needs_token default_move rule_length perform build_string built symbol goto_state
Reads-string lp64 id s rest tags h no_nul q states cells n o e starts room =
    let cell : Cell = headed id in
    (
      record cell { object = string_value s },
      n + line_ends (add_escaped [] s),
      refl,
      leaf lp64 q states cells _ _ _ Token.string_token _ _ 8 32 22 8 starts room
          (yylex_string lp64 id s rest n h no_nul) (move_string q starts, refl)
          (refl, refl, refl, goto_string q starts) (refl, refl, refl, refl) refl
          (ap (goes_on (record cell { object = string_value s })) (
            remember_object-parser id (string_value s) rest (n + line_ends (add_escaped [] s)) tags
              o e)),
    )

pub Reads-data :
    (lp64 : Bool) (id : Option ℕ) (s rest : List ℕ) (tags : ℕ → Value)
    → IsInt id
    → All IsByte s
    → Reads lp64 1
        (start_text data_bytes id none (serialize_data s ++ end_text data_bytes rest))
        rest
        tags
        (remembered id (data_value s) tags)
        (data_value s)
unfolding needs_token default_move rule_length perform build_data built symbol goto_state
Reads-data lp64 id s rest tags h are_bytes q states cells n o e starts room =
    let cell : Cell = record (headed id) { size = pos (length s) } in
    (
      record cell { object = data_value s },
      n,
      refl,
      leaf lp64 q states cells _ _ _ Token.data_token _ _ 3 29 19 9 starts room
          (yylex_data lp64 id s rest n h are_bytes) (move_data q starts, refl)
          (refl, refl, refl, goto_data q starts) (refl, refl, refl, refl) refl
          (ap (goes_on (record cell { object = data_value s }))
            (remember_object-parser id (data_value s) rest (n) tags o e)),
    )

number_of-value_read :
    (lp64 : Bool) (type : NumberType) (value : ℕ)
    → number_of (pos (size_of lp64 type)) (value_read lp64 type value)
      ≡ number_value lp64 type value
unfolding number_of
number_of-value_read true type value = refl
number_of-value_read false type value = elim (Bool-cases (ltb 32 (size_of false type))) [
  | inl large ↦ rw large refl
  | inr small ↦
      let fits : leb (size_of false type) 32 ≡ true = ground arith in
      rw (small, fits) (ap sint32_value (omega arith))
]

Reads-size :
    (lp64 : Bool) (id : Option ℕ) (type : NumberType) (value : ℕ) (rest : List ℕ) (tags : ℕ → Value)
    → IsInt id
    → value < 2 ^ 64
    → Reads lp64 1
        (start_text integer id
          (some (size_of lp64 type))
          (number_text lp64 type value ++ end_text integer rest))
        rest
        tags
        (remembered id (number_of (pos (size_of lp64 type)) (value_read lp64 type value)) tags)
        (number_of (pos (size_of lp64 type)) (value_read lp64 type value))
unfolding needs_token default_move rule_length perform build_number built symbol goto_state
Reads-size lp64 id type value rest tags h small q states cells n o e starts room =
    let cell : Cell = record (headed id) {
      size = pos (size_of lp64 type);
      number = value_read lp64 type value;
    } in
    (
      record cell { object = number_of (pos (size_of lp64 type)) (value_read lp64 type value) },
      n,
      refl,
      leaf lp64 q states cells _ _ _ Token.number_token _ _ 6 31 21 10 starts room
          (yylex_number lp64 id type value rest n h small) (move_number q starts, refl)
          (refl, refl, refl, goto_number q starts) (refl, refl, refl, refl) refl
          (ap
            (goes_on (record cell {
              object = number_of (pos (size_of lp64 type)) (value_read lp64 type value);
            }))
            (remember_object-parser id
              (number_of (pos (size_of lp64 type)) (value_read lp64 type value)) rest (n) tags o
              e)),
    )

pub Reads-number :
    (lp64 : Bool) (id : Option ℕ) (type : NumberType) (value : ℕ) (rest : List ℕ) (tags : ℕ → Value)
    → IsInt id
    → value < 2 ^ 64
    → Reads lp64 1
        (start_text integer id
          (some (size_of lp64 type))
          (number_text lp64 type value ++ end_text integer rest))
        rest
        tags
        (remembered id (number_value lp64 type value) tags)
        (number_value lp64 type value)
Reads-number lp64 id type value rest tags h small =
    subst
      (λ v.
        Reads lp64 1
          (start_text integer id (some (size_of lp64 type))
            (number_text lp64 type value ++ end_text integer rest))
          rest tags (remembered id v tags) v)
      (number_of-value_read lp64 type value) (Reads-size lp64 id type value rest tags h small)

build_bit :
    (b : Bool) (cell : Cell) (p : Parser)
    → build_boolean (record cell { number = bit_of b }) p
      ≡ (record cell { number = bit_of b; object = boolean_value b }, p)
unfolding build_boolean
build_bit true cell p = refl
build_bit false cell p = refl

pub Reads-boolean :
    (lp64 : Bool) (b : Bool) (rest : List ℕ) (tags : ℕ → Value)
    → Reads lp64 1
        (boolean_text b ++ rest)
        rest
        tags
        (remembered none (boolean_value b) tags)
        (boolean_value b)
unfolding needs_token default_move rule_length perform built symbol goto_state
Reads-boolean lp64 b rest tags q states cells n o e starts room =
    let cell : Cell = record (headed none) { number = bit_of b } in
    (
      record cell { object = boolean_value b },
      n,
      refl,
      leaf lp64 q states cells _ _ _ Token.boolean_token _ _ 2 28 18 11 starts room
          (yylex_boolean lp64 b rest n) (move_boolean q starts, refl)
          (refl, refl, refl, goto_boolean q starts) (refl, refl, refl, refl) refl
          (ap built_of (build_bit b (headed none) (parser rest n tags o e))),
    )

retrieved-not_null :
    (v : Value) (p : Parser)
    → v ≢ null
    → retrieved v p ≡ goes_on (record new_object { object = v }) p
unfolding retrieved
retrieved-not_null null p h = absurd (h refl)
retrieved-not_null (string_value x) p h = refl
retrieved-not_null (sint32_value x) p h = refl
retrieved-not_null (sint64_value x) p h = refl
retrieved-not_null (data_value x) p h = refl
retrieved-not_null (boolean_value x) p h = refl
retrieved-not_null (array_value x) p h = refl
retrieved-not_null (set_value x) p h = refl
retrieved-not_null (dictionary_value x) p h = refl

-- What is retrieved is the value that the tags hold.
perform_retrieve :
    (m : ℕ) (v : Value) (cells : List Cell) (p : Parser)
    → p.tags m ≡ v
    → v ≢ null
    → perform 12 (headed (some m) ∷ cells) p ≡ goes_on (record new_object { object = v }) p
unfolding perform retrieve_object
perform_retrieve m v cells p h not_null =
    ap (λ x. retrieved x p) h ∙ retrieved-not_null v p not_null

pub Reads-reference :
    (lp64 : Bool) (kind : Kind) (m : ℕ) (v : Value) (rest : List ℕ) (tags : ℕ → Value)
    → m < 2 ^ 31
    → tags m ≡ v
    → v ≢ null
    → Reads lp64 1 (reference_text kind m rest) rest tags tags v
unfolding needs_token default_move rule_length symbol goto_state
Reads-reference lp64 kind m v rest tags h found not_null q states cells n o e starts room = (
  record new_object { object = v },
  n,
  refl,
  leaf lp64 q states cells _ _ _ Token.idref_token _ _ 5 30 20 12 starts room
      (yylex-reference_text lp64 kind m rest n h) (move_idref q starts, refl)
      (refl, refl, refl, goto_idref q starts) (refl, refl, refl, refl) (unfold perform in refl)
      (perform_retrieve m v cells (parser rest n tags o e) found not_null),
)
