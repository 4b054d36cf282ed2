-- ===== src/Xml/RoundTrip/Depth.antt =====
-- Containers that are nested too deeply for the stack of `yyparse` of IOCFUnserialize.tab.c.
use iokit_user.Prelude.{
  ap, [], refl, ◌∷◌, ◌++◌, ◌≡◌, ◌+◌, leb, none, some, true, Bool, Option, List, ℕ, ◌∙◌, arith,
  codes, suc, zero, length,
}
use iokit_user.Xml.Build.{Parser, yyerror}
use iokit_user.Xml.Lexer.{Token, yylex}
use iokit_user.Xml.RoundTrip.Leaves.{parser}
use iokit_user.Xml.RoundTrip.Moves.{
  Starts, needs_token-Starts, move_paren, Steps, ◌then◌, one_step, machine, shifting, step_token,
  with_token_read,
}
use iokit_user.Xml.RoundTrip.Tokens.{headed, array_container, yylex-opening}
use iokit_user.Xml.RoundTrip.Whole.{run_halted}
use iokit_user.Xml.Serialize.{tag_string}
use iokit_user.Xml.Tables.{symbol, shift}
use iokit_user.Xml.Unserialize.{
  Machine, running, halted, new_state, shift_to, make_move, run, initial,
}
use iokit_user.Xml.Values.{Cell, Value, null}

-- So many start tags of arrays, and what follows them.
abbrev pub open_arrays : ℕ → List ℕ → List ℕ
open_arrays zero rest = rest
open_arrays (suc k) rest = codes "<array>" ++ open_arrays k rest

-- The error of a full stack.
abbrev exhausted : Parser → Parser
exhausted = yyerror (codes "memory exhausted")

lex_array :
    (lp64 : Bool) (rest : List ℕ) (n : ℕ)
    → yylex lp64 (record { rest = codes "<array>" ++ rest; line_number = n }) ≡ record {
      token = Token.paren_open;
      cell = headed none;
      input = record { rest = rest; line_number = n };
    }
unfolding tag_string
lex_array lp64 rest n = yylex-opening lp64 none rest n array_container tt

full_stack :
    (to : ℕ) (m : Machine)
    → length m.states ≡ 9999
    → make_move (shift to) (Token.paren_open, headed none) m ≡ halted (exhausted m.parser)
unfolding make_move shift_to new_state symbol
full_stack to m h =
    let full : leb 10000 (suc (length m.states)) ≡ true = ground (arith, h) in rw full refl

module _ (lp64 : Bool) (rest : List ℕ) (o : Value) (e : Option (List ℕ × ℕ))
    (tags : ℕ → Value) where
  -- With room for so many states, that many start tags and one more.
  too_deep_from :
      (k q : ℕ) (states : List ℕ) (cells : List Cell)
      → Starts q
      → length (q ∷ states) + k ≡ 9999
      → Steps lp64
          (running (machine (q ∷ states) cells (parser (open_arrays (suc k) rest) 1 tags o e)))
          (halted (exhausted (parser rest 1 tags o e)))
  unfolding symbol
  too_deep_from zero q states cells h full = one_step (
      step_token lp64 q states cells _ (Token.paren_open, headed none) _ (needs_token-Starts q h)
        (with_token_read lp64 (q ∷ states) cells _ _ (lex_array lp64 rest 1))
      ∙ ap (λ m. make_move m (Token.paren_open, headed none) looking) (move_paren q h)
      ∙ full_stack 11 looking (omega (arith, full)))
    where
      looking : Machine
      looking = record {
        states = q ∷ states;
        cells = cells;
        lookahead = some (Token.paren_open, headed none);
        parser = parser rest 1 tags o e;
      }
  too_deep_from (suc k) q states cells h full =
      shifting lp64 q 11 states cells _ Token.paren_open (headed none) _
        (lex_array lp64 (open_arrays (suc k) rest) 1) (needs_token-Starts q h) (move_paren q h) refl
        (omega (arith, full))
      then too_deep_from k 11 (q ∷ states) (headed none ∷ cells) Starts.in_array
          (omega (arith, full))

-- A buffer that begins with 9999 start tags of arrays, whatever follows them, gives no object, and the
-- error says that the memory is exhausted.
pub too_deep :
    (lp64 : Bool) (rest : List ℕ)
    → (p : Parser) × (p.parsed_object ≡ null)
      × (p.error_string ≡ some (codes "memory exhausted", 1))
      × (k : ℕ) × ((extra : ℕ)
          → run (k + extra) lp64 (running (initial (open_arrays 9999 rest))) ≡ some p)
unfolding initial yyerror
too_deep lp64 rest =
    let all =
      too_deep_from lp64 rest null none (λ n. null) 9998 0 [] [] Starts.at_start (omega arith) in
    let p = parser rest 1 (λ n. null) null none in
    (
      exhausted p,
      refl,
      refl,
      all.count,
      λ extra. all.reaches extra ∙ run_halted extra lp64 (exhausted p),
    )
