-- ===== src/Xml/RoundTrip/Moves.antt =====
-- The steps of `yyparse` of IOCFUnserialize.tab.c: those that shift a token, and those that reduce.
use iokit_user.Prelude.{
  ap, refl, ◌∷◌, ◌≡◌, ◌+◌, ◌≤◌, ◌==◌, leb, none, some, true, false, Bool, List, ℕ, ◌∙◌, length,
  drop, arith, suc,
}
use iokit_user.Xml.Build.{Parser, goes_on, perform}
use iokit_user.Xml.Lexer.{Token, Lexed, yylex}
use iokit_user.Xml.Tables.{
  symbol, rule_length, shift, reduce, needs_token, default_move, table_move, token_move, goto_state,
  plus,
}
use iokit_user.Xml.Text.{Input}
use iokit_user.Xml.Unserialize.{
  Machine, Outcome, running, new_state, reduce_by, with_token, shift_to, make_move, make_default,
  step_in, step, run,
}
use iokit_user.Xml.Values.{Cell}

-- The states in which an object may begin.
pub data Starts : ℕ → Type 0 where
  at_start : Starts 0
  in_array : Starts 11
  in_set : Starts 12
  behind_array_elements : Starts 30
  behind_set_elements : Starts 32
  behind_key : Starts 27

Starts_all : (P : ℕ → Type 0) {s : ℕ} → P 0 → P 11 → P 12 → P 30 → P 32 → P 27 → Starts s → P s
Starts_all P a b c d e f at_start = a
Starts_all P a b c d e f in_array = b
Starts_all P a b c d e f in_set = c
Starts_all P a b c d e f behind_array_elements = d
Starts_all P a b c d e f behind_set_elements = e
Starts_all P a b c d e f behind_key = f

-- What holds of each of them.
module _ (s : ℕ) (h : Starts s) where
  pub needs_token-Starts : needs_token s ≡ true
  unfolding needs_token
  needs_token-Starts = Starts_all (λ t. needs_token t ≡ true) refl refl refl refl refl refl h

  pub move_boolean : token_move s 4 ≡ shift 2
  unfolding token_move table_move plus
  move_boolean = Starts_all (λ t. token_move t 4 ≡ shift 2) refl refl refl refl refl refl h

  pub move_data : token_move s 5 ≡ shift 3
  unfolding token_move table_move plus
  move_data = Starts_all (λ t. token_move t 5 ≡ shift 3) refl refl refl refl refl refl h

  pub move_idref : token_move s 7 ≡ shift 5
  unfolding token_move table_move plus
  move_idref = Starts_all (λ t. token_move t 7 ≡ shift 5) refl refl refl refl refl refl h

  pub move_number : token_move s 9 ≡ shift 6
  unfolding token_move table_move plus
  move_number = Starts_all (λ t. token_move t 9 ≡ shift 6) refl refl refl refl refl refl h

  pub move_string : token_move s 11 ≡ shift 8
  unfolding token_move table_move plus
  move_string = Starts_all (λ t. token_move t 11 ≡ shift 8) refl refl refl refl refl refl h

  pub move_brace : token_move s 13 ≡ shift 10
  unfolding token_move table_move plus
  move_brace = Starts_all (λ t. token_move t 13 ≡ shift 10) refl refl refl refl refl refl h

  pub move_paren : token_move s 15 ≡ shift 11
  unfolding token_move table_move plus
  move_paren = Starts_all (λ t. token_move t 15 ≡ shift 11) refl refl refl refl refl refl h

  pub move_bracket : token_move s 17 ≡ shift 12
  unfolding token_move table_move plus
  move_bracket = Starts_all (λ t. token_move t 17 ≡ shift 12) refl refl refl refl refl refl h

  pub goto_boolean : goto_state 28 s ≡ 18
  unfolding goto_state plus
  goto_boolean = Starts_all (λ t. goto_state 28 t ≡ 18) refl refl refl refl refl refl h

  pub goto_data : goto_state 29 s ≡ 19
  unfolding goto_state plus
  goto_data = Starts_all (λ t. goto_state 29 t ≡ 19) refl refl refl refl refl refl h

  pub goto_idref : goto_state 30 s ≡ 20
  unfolding goto_state plus
  goto_idref = Starts_all (λ t. goto_state 30 t ≡ 20) refl refl refl refl refl refl h

  pub goto_number : goto_state 31 s ≡ 21
  unfolding goto_state plus
  goto_number = Starts_all (λ t. goto_state 31 t ≡ 21) refl refl refl refl refl refl h

  pub goto_string : goto_state 32 s ≡ 22
  unfolding goto_state plus
  goto_string = Starts_all (λ t. goto_state 32 t ≡ 22) refl refl refl refl refl refl h

  pub goto_array : goto_state 21 s ≡ 16
  unfolding goto_state plus
  goto_array = Starts_all (λ t. goto_state 21 t ≡ 16) refl refl refl refl refl refl h

  pub goto_empty_array : goto_state 20 s ≡ 16
  unfolding goto_state plus
  goto_empty_array = Starts_all (λ t. goto_state 20 t ≡ 16) refl refl refl refl refl refl h

  pub goto_set : goto_state 24 s ≡ 17
  unfolding goto_state plus
  goto_set = Starts_all (λ t. goto_state 24 t ≡ 17) refl refl refl refl refl refl h

  pub goto_empty_set : goto_state 23 s ≡ 17
  unfolding goto_state plus
  goto_empty_set = Starts_all (λ t. goto_state 23 t ≡ 17) refl refl refl refl refl refl h

  pub goto_dict : goto_state 14 s ≡ 15
  unfolding goto_state plus
  goto_dict = Starts_all (λ t. goto_state 14 t ≡ 15) refl refl refl refl refl refl h

  pub goto_empty_dict : goto_state 13 s ≡ 15
  unfolding goto_state plus
  goto_empty_dict = Starts_all (λ t. goto_state 13 t ≡ 15) refl refl refl refl refl refl h

-- A parse goes from an outcome to another in some number of steps.
pub record Steps (lp64 : Bool) (from to : Outcome) : Type 0 where
  pub count : ℕ
  pub reaches : (fuel : ℕ) → run (count + fuel) lp64 from ≡ run fuel lp64 to

pub no-Steps : (lp64 : Bool) (o : Outcome) → Steps lp64 o o
no-Steps lp64 o = record { count = 0; reaches = λ fuel. ap (λ k. run k lp64 o) (omega arith) }

infixr 40 ◌then◌
pub ◌then◌ : {lp64 : Bool} {a b c : Outcome} → Steps lp64 a b → Steps lp64 b c → Steps lp64 a c
◌then◌ {lp64} {a} p q = record {
  count = p.count + q.count;
  reaches =
      λ fuel. ap (λ k. run k lp64 a) (omega arith) ∙ p.reaches (q.count + fuel) ∙ q.reaches fuel;
}

run-step :
    (fuel : ℕ) (lp64 : Bool) (m : Machine)
    → run (suc fuel) lp64 (running m) ≡ run fuel lp64 (step lp64 m)
unfolding run
run-step fuel lp64 m = refl

pub one_step :
    {lp64 : Bool} {m : Machine} {o : Outcome} → step lp64 m ≡ o → Steps lp64 (running m) o
one_step {lp64} {m} e = record {
  count = 1;
  reaches = λ fuel.
      ap (λ k. run k lp64 (running m)) (omega arith) ∙ run-step fuel lp64 m ∙ ap (run fuel lp64) e;
}

-- A state is pushed unless the stack is full.
new_state_room :
    (state : ℕ) (m : Machine)
    → length m.states ≤ 9998
    → new_state state m ≡ running (record m { states = state ∷ m.states })
unfolding new_state
new_state_room state m h =
    let few : leb 10000 (suc (length m.states)) ≡ false = ground arith in rw few refl

-- A machine without a token.
abbrev pub machine : List ℕ → List Cell → Parser → Machine
machine states cells p = record { states = states; cells = cells; lookahead = none; parser = p }

step_default :
    (lp64 : Bool) (q rule : ℕ) (states : List ℕ) (cells : List Cell) (p : Parser)
    → needs_token q ≡ false
    → default_move q ≡ reduce rule
    → step lp64 (machine (q ∷ states) cells p) ≡ reduce_by rule (machine (q ∷ states) cells p)
unfolding step make_default
step_default lp64 q rule states cells p h k =
    ap (λ b. step_in q b lp64 (machine (q ∷ states) cells p)) h
    ∙ ap (λ m. make_default m (machine (q ∷ states) cells p)) k

reduce_by_goes_on :
    (rule s to : ℕ) (states below : List ℕ) (cells : List Cell) (p p2 : Parser) (cell : Cell)
    → perform rule cells p ≡ goes_on cell p2
    → drop (rule_length rule) states ≡ s ∷ below
    → goto_state rule s ≡ to
    → reduce_by rule (machine states cells p)
      ≡ new_state to (machine (s ∷ below) (cell ∷ drop (rule_length rule) cells) p2)
unfolding reduce_by
reduce_by_goes_on rule s to states below cells p p2 cell h k g = rw (h, k, g) refl

-- A reduction, from the state on top and the rule it reduces by.
pub reduction :
    (lp64 : Bool) (q rule s to : ℕ) (states below : List ℕ) (cells rest : List Cell) (p p2 : Parser)
    (cell : Cell)
    → needs_token q ≡ false
    → default_move q ≡ reduce rule
    → perform rule cells p ≡ goes_on cell p2
    → drop (rule_length rule) (q ∷ states) ≡ s ∷ below
    → drop (rule_length rule) cells ≡ rest
    → goto_state rule s ≡ to
    → length (s ∷ below) ≤ 9998
    → Steps lp64
        (running (machine (q ∷ states) cells p))
        (running (machine (to ∷ s ∷ below) (cell ∷ rest) p2))
reduction lp64 q rule s to states below cells rest p p2 cell h k act pop pop_cells g room =
    one_step (
      step_default lp64 q rule states cells p h k
      ∙ reduce_by_goes_on rule s to (q ∷ states) below cells p p2 cell act pop g
      ∙ new_state_room to _ room
      ∙ ap (λ r. running (machine (to ∷ s ∷ below) (cell ∷ r) p2)) pop_cells)

pub with_token_read :
    (lp64 : Bool) (states : List ℕ) (cells : List Cell) (p : Parser) (lexed : Lexed)
    → yylex lp64 p.input ≡ lexed
    → with_token lp64 (machine states cells p) ≡ (
      (lexed.token, lexed.cell),
      record {
        states = states;
        cells = cells;
        lookahead = some (lexed.token, lexed.cell);
        parser = record p { input = lexed.input };
      },
    )
unfolding with_token
with_token_read lp64 states cells p lexed h =
    ap
      (λ (l : Lexed). (
        (l.token, l.cell),
        record {
          states = states;
          cells = cells;
          lookahead = some (l.token, l.cell);
          parser = record p { input = l.input };
        },
      ))
      h

pub step_token :
    (lp64 : Bool) (q : ℕ) (states : List ℕ) (cells : List Cell) (p : Parser) (token : Token × Cell)
    (m : Machine)
    → needs_token q ≡ true
    → with_token lp64 (machine (q ∷ states) cells p) ≡ (token, m)
    → step lp64 (machine (q ∷ states) cells p) ≡ make_move (token_move q (symbol token.0)) token m
unfolding step
step_token lp64 q states cells p token m h k =
    ap (λ b. step_in q b lp64 (machine (q ∷ states) cells p)) h
    ∙ ap (λ (r : (Token × Cell) × Machine). make_move (token_move q (symbol r.0.0)) r.0 r.1) k

make_shift :
    (to : ℕ) (token : Token) (cell : Cell) (m : Machine)
    → (symbol token == 0) ≡ false
    → length m.states ≤ 9998
    → make_move (shift to) (token, cell) m
      ≡ running (machine (to ∷ m.states) (cell ∷ m.cells) m.parser)
unfolding make_move shift_to
make_shift to token cell m h room = new_state_room to _ room ∙ rw h refl

-- A token is shifted.
pub shifting :
    (lp64 : Bool) (q to : ℕ) (states : List ℕ) (cells : List Cell) (p : Parser) (token : Token)
    (cell : Cell) (input : Input)
    → yylex lp64 p.input ≡ record { token = token; cell = cell; input = input }
    → needs_token q ≡ true
    → token_move q (symbol token) ≡ shift to
    → (symbol token == 0) ≡ false
    → length (q ∷ states) ≤ 9998
    → Steps lp64
        (running (machine (q ∷ states) cells p))
        (running (machine (to ∷ q ∷ states) (cell ∷ cells) (record p { input = input })))
shifting lp64 q to states cells p token cell input lex h k no_end room = one_step (
    step_token lp64 q states cells p (token, cell) _ h
      (with_token_read lp64 (q ∷ states) cells p _ lex)
    ∙ ap (λ m. make_move m (token, cell) looking) k
    ∙ make_shift to token cell looking no_end room)
  where
    looking : Machine
    looking = record {
      states = q ∷ states;
      cells = cells;
      lookahead = some (token, cell);
      parser = record p { input = input };
    }
