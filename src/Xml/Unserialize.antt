-- ===== src/Xml/Unserialize.antt =====
-- `yyparse` and `IOCFUnserialize` of IOCFUnserialize.tab.c. No state shifts the error token, so that an
-- error ends the parse; no allocation fails.
mod Tests
use iokit_user.Prelude.{
  zero, suc, ◌==◌, leb, ◌∷◌, [], none, some, if◌then◌else◌, length, drop, codes, List, Option, Bool,
  ℕ, true, false,
}
use iokit_user.Xml.Text.{Input}
use iokit_user.Xml.Lexer.{Token, Lexed, yylex}
use iokit_user.Xml.Values.{Value, null, Cell}
use iokit_user.Xml.Tables.{
  symbol, rule_length, Move, shift, reduce, accept, fail, needs_token, default_move, token_move,
  goto_state,
}
use iokit_user.Xml.Build.{Parser, yyerror, Performed, goes_on, accepts, gives_up, perform}

-- The variables of `yyparse`: the stacks, from their tops down, and the token that is looked at, with its
-- object, if one has been read.
pub record Machine : Type 0 where
  pub states : List ℕ
  pub cells : List Cell
  pub lookahead : Option (Token × Cell)
  pub parser : Parser

pub data Outcome : Type 0 where
  running : Machine → Outcome
  halted : Parser → Outcome

abbrev top : List ℕ → ℕ
top [] = 0
top (s ∷ states) = s

-- `yynewstate`: the stack holds at most `YYMAXDEPTH` states, and gives up where that many are on it.
unfoldable pub new_state : ℕ → Machine → Outcome
new_state state m =
    if leb 10000 (length (state ∷ m.states))
    then halted (yyerror (codes "memory exhausted") m.parser)
    else running (record m { states = state ∷ m.states })

-- `yyreduce`
unfoldable pub reduce_by : ℕ → Machine → Outcome
reduce_by rule m = next (perform rule m.cells m.parser)
  where
    below : List ℕ
    below = drop (rule_length rule) m.states

    next : Performed → Outcome
    next (goes_on cell p) =
        new_state (goto_state rule (top below))
          (record m { states = below; cells = cell ∷ drop (rule_length rule) m.cells; parser = p })
    next (accepts p) = halted p
    next (gives_up p) = halted p

unfoldable pub syntax_failure : Machine → Outcome
syntax_failure m = halted (yyerror (codes "syntax error") m.parser)

abbrev token_of : Lexed → Token × Cell
token_of lexed = (lexed.token, lexed.cell)

-- The token that is read when there is none.
unfoldable pub with_token : Bool → Machine → (Token × Cell) × Machine
with_token lp64 m = look m.lookahead
  where
    look : Option (Token × Cell) → (Token × Cell) × Machine
    look (some token) = (token, m)
    look none =
        let lexed = yylex lp64 m.parser.input in
        (
          token_of lexed,
          record m {
            lookahead = some (token_of lexed);
            parser = record m.parser { input = lexed.input };
          },
        )

-- A shift; the token that ends the buffer stays.
unfoldable pub shift_to : ℕ → Token × Cell → Machine → Outcome
shift_to state (token, cell) m = new_state state (record m {
  cells = cell ∷ m.cells;
  lookahead = if symbol token == 0 then m.lookahead else none;
})

-- What a move does.
unfoldable pub make_move : Move → Token × Cell → Machine → Outcome
make_move (shift state) token m = shift_to state token m
make_move (reduce rule) token m = reduce_by rule m
make_move accept token m = halted m.parser
make_move fail token m = syntax_failure m

-- The move of a state that looks at no token.
unfoldable pub make_default : Move → Machine → Outcome
make_default (reduce rule) m = reduce_by rule m
make_default _ m = syntax_failure m

abbrev move_with : ℕ → (Token × Cell) × Machine → Outcome
move_with state (token, m) = make_move (token_move state (symbol token.0)) token m

-- A step in a state, which looks at a token or not.
abbrev pub step_in : ℕ → Bool → Bool → Machine → Outcome
step_in state true lp64 m = move_with state (with_token lp64 m)
step_in state false lp64 m = make_default (default_move state) m

-- `yybackup`, up to the next state or the end.
unfoldable pub step : Bool → Machine → Outcome
step lp64 m = step_in (top m.states) (needs_token (top m.states)) lp64 m

-- So many steps; `none` where the parse has not come to its end.
unfoldable pub run : ℕ → Bool → Outcome → Option Parser
run fuel lp64 (halted p) = some p
run zero lp64 (running m) = none
run (suc fuel) lp64 (running m) = run fuel lp64 (step lp64 m)

-- The state in which `yyparse` begins, on a buffer.
unfoldable pub initial : List ℕ → Machine
initial buffer = record {
  states = 0 ∷ [];
  cells = [];
  lookahead = none;
  parser = record {
    input = record { rest = buffer; line_number = 1 };
    tags = λ n. null;
    parsed_object = null;
    error_string = none;
  };
}

abbrev pub object_of : Option Parser → Option Value
object_of none = none
object_of (some p) = some p.parsed_object

-- `IOCFUnserialize`: the object, or the null pointer, if so many steps are enough. A buffer is missing
-- where it is the null pointer.
unfoldable pub iocf_unserialize : ℕ → Bool → Option (List ℕ) → ℕ → Option Value
iocf_unserialize fuel lp64 none options = some null
iocf_unserialize fuel lp64 (some buffer) options =
    if options == 0 then object_of (run fuel lp64 (running (initial buffer))) else some null
