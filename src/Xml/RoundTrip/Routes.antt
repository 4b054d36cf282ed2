-- ===== src/Xml/RoundTrip/Routes.antt =====
-- How the tables of IOCFUnserialize.tab.c go over arrays, sets and dictionaries.
use iokit_user.Prelude.{[], refl, ◌∷◌, ◌≡◌, ◌==◌, true, false, List, ℕ}
use iokit_user.Xml.Build.{
  Parser, goes_on, perform, reverse_onto, values_of, pairs_of, built, build_array, build_set,
  build_dictionary, remember_object,
}
use iokit_user.Xml.Objects.{Kind, dict}
use iokit_user.Xml.RoundTrip.Moves.{
  Starts, move_brace, move_paren, move_bracket, goto_array, goto_empty_array, goto_set,
  goto_empty_set, goto_dict, goto_empty_dict,
}
use iokit_user.Xml.RoundTrip.Tokens.{
  opening, closing, IsContainer, dict_container, array_container, set_container,
}
use iokit_user.Xml.Tables.{
  symbol, rule_length, shift, reduce, needs_token, default_move, table_move, token_move, goto_state,
  plus,
}
use iokit_user.Xml.Values.{Cell, Link, Value, array_value, set_value, dictionary_value, links}

-- A state without a token, in which a rule of that length reduces.
abbrev pub Reduces : ℕ → ℕ → ℕ → Type 0
Reduces state rule len =
    (needs_token state ≡ false) × (default_move state ≡ reduce rule) × (rule_length rule ≡ len)

-- How the tables go over a container: the state behind its start tag, the state behind its elements, and
-- what is made of the links of the elements.
pub record Route (kind : Kind) (op elements : ℕ) (make : List Link → Value) : Type 0 where
  pub container : IsContainer kind
  pub full : ℕ
  pub empty : ℕ
  pub rule_full : ℕ
  pub rule_empty : ℕ
  pub symbol_state : ℕ
  pub rule_build : ℕ
  pub opens : (q : ℕ) → Starts q → token_move q (symbol (opening kind)) ≡ shift op
  pub tokens : ((symbol (opening kind) == 0) ≡ false) × ((symbol (closing kind) == 0) ≡ false)
  pub looks : (needs_token op ≡ true) × (needs_token elements ≡ true)
  pub closes : token_move elements (symbol (closing kind)) ≡ shift full
  pub closes_empty : token_move op (symbol (closing kind)) ≡ shift empty
  pub reduces_full : Reduces full rule_full 3
  pub reduces_empty : Reduces empty rule_empty 2
  pub reduces_build : Reduces symbol_state rule_build 1
  pub goes_full : (q : ℕ) → Starts q → goto_state rule_full q ≡ symbol_state
  pub goes_empty : (q : ℕ) → Starts q → goto_state rule_empty q ≡ symbol_state
  pub goes_build : (q : ℕ) → goto_state rule_build q ≡ goto_state 5 q
  pub takes :
      (close chain header : Cell) (cells : List Cell) (p : Parser)
      → perform rule_full (close ∷ chain ∷ header ∷ cells) p
        ≡ goes_on (record header { elements = links chain }) p
  pub takes_none :
      (close header : Cell) (cells : List Cell) (p : Parser)
      → perform rule_empty (close ∷ header ∷ cells) p ≡ goes_on (record header { elements = [] }) p
  pub builds :
      (header : Cell) (cells : List Cell) (p : Parser)
      → perform rule_build (header ∷ cells) p
        ≡ goes_on
            (record header { elements = []; object = make header.elements })
            (remember_object header.idref (make header.elements) p)

abbrev pub made_array : List Link → Value
made_array ls = array_value (values_of (reverse_onto [] ls))

abbrev pub made_set : List Link → Value
made_set ls = set_value (values_of (reverse_onto [] ls))

abbrev pub made_dictionary : List Link → Value
made_dictionary ls = dictionary_value (pairs_of (reverse_onto [] ls))

pub array-Route : Route Kind.array 11 30 made_array
unfolding needs_token default_move rule_length token_move table_move plus symbol goto_state perform
    build_array built
array-Route = record {
  container = array_container;
  full = 37;
  empty = 28;
  rule_full = 21;
  rule_empty = 20;
  symbol_state = 16;
  rule_build = 6;
  opens = move_paren;
  tokens = (refl, refl);
  looks = (refl, refl);
  closes = refl;
  closes_empty = refl;
  reduces_full = (refl, refl, refl);
  reduces_empty = (refl, refl, refl);
  reduces_build = (refl, refl, refl);
  goes_full = goto_array;
  goes_empty = goto_empty_array;
  goes_build = λ q. refl;
  takes = λ close chain header cells p. refl;
  takes_none = λ close header cells p. refl;
  builds = λ header cells p. refl;
}

pub set-Route : Route Kind.set 12 32 made_set
unfolding needs_token default_move rule_length token_move table_move plus symbol goto_state perform
    build_set built
set-Route = record {
  container = set_container;
  full = 39;
  empty = 31;
  rule_full = 24;
  rule_empty = 23;
  symbol_state = 17;
  rule_build = 7;
  opens = move_bracket;
  tokens = (refl, refl);
  looks = (refl, refl);
  closes = refl;
  closes_empty = refl;
  reduces_full = (refl, refl, refl);
  reduces_empty = (refl, refl, refl);
  reduces_build = (refl, refl, refl);
  goes_full = goto_set;
  goes_empty = goto_empty_set;
  goes_build = λ q. refl;
  takes = λ close chain header cells p. refl;
  takes_none = λ close header cells p. refl;
  builds = λ header cells p. refl;
}

pub dictionary-Route : Route dict 10 25 made_dictionary
unfolding needs_token default_move rule_length token_move table_move plus symbol goto_state perform
    build_dictionary built
dictionary-Route = record {
  container = dict_container;
  full = 34;
  empty = 24;
  rule_full = 14;
  rule_empty = 13;
  symbol_state = 15;
  rule_build = 5;
  opens = move_brace;
  tokens = (refl, refl);
  looks = (refl, refl);
  closes = refl;
  closes_empty = refl;
  reduces_full = (refl, refl, refl);
  reduces_empty = (refl, refl, refl);
  reduces_build = (refl, refl, refl);
  goes_full = goto_dict;
  goes_empty = goto_empty_dict;
  goes_build = λ q. refl;
  takes = λ close chain header cells p. refl;
  takes_none = λ close header cells p. refl;
  builds = λ header cells p. refl;
}
