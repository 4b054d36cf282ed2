-- ===== src/Xml/RoundTrip/Forward.antt =====
-- A reference that comes before the object, to IOCFUnserialize.tab.c.
use iokit_user.Prelude.{
  [], refl, ◌∷◌, ◌≡◌, ◌+◌, ◌<◌, ◌^◌, none, some, Bool, List, ℕ, ◌∙◌, arith, codes,
}
use iokit_user.Xml.Build.{Parser, perform, retrieve_object, retrieved, yyerror}
use iokit_user.Xml.Lexer.{Token}
use iokit_user.Xml.Objects.{Kind}
use iokit_user.Xml.RoundTrip.Leaves.{parser}
use iokit_user.Xml.RoundTrip.Moves.{
  Starts, needs_token-Starts, move_idref, goto_idref, ◌then◌, one_step, machine, reduction,
  shifting,
}
use iokit_user.Xml.RoundTrip.Tags.{reference_text}
use iokit_user.Xml.RoundTrip.Tokens.{headed, yylex-reference_text}
use iokit_user.Xml.RoundTrip.Whole.{run_halted}
use iokit_user.Xml.Tables.{symbol, rule_length, needs_token, default_move}
use iokit_user.Xml.Unserialize.{running, halted, reduce_by, make_default, step, run, initial}
use iokit_user.Xml.Values.{null}

-- The error that is reported.
abbrev refused : Parser → Parser
refused = yyerror (codes "forward reference detected")

giving_up :
    (lp64 : Bool) (m : ℕ) (rest : List ℕ)
    → step lp64 (machine (20 ∷ 0 ∷ []) (headed (some m) ∷ []) (parser rest 1 (λ n. null) null none))
      ≡ halted (refused (parser rest 1 (λ n. null) null none))
unfolding step needs_token default_move make_default reduce_by perform retrieve_object retrieved
giving_up lp64 m rest = refl

-- A buffer that begins with a reference whose number is below 2 ^ 31, whatever follows it, gives no
-- object, and the error is reported at the first line.
pub forward_reference :
    (lp64 : Bool) (kind : Kind) (m : ℕ) (rest : List ℕ)
    → m < 2 ^ 31
    → (p : Parser) × (p.parsed_object ≡ null)
      × (p.error_string ≡ some (codes "forward reference detected", 1))
      × (k : ℕ) × ((extra : ℕ)
          → run (k + extra) lp64 (running (initial (reference_text kind m rest))) ≡ some p)
unfolding initial yyerror needs_token default_move rule_length perform symbol
forward_reference lp64 kind m rest h =
    let p = parser rest 1 (λ n. null) null none in
    let all =
      shifting lp64 0 5 [] [] (parser (reference_text kind m rest) 1 (λ n. null) null none)
        Token.idref_token (headed (some m)) _ (yylex-reference_text lp64 kind m rest 1 h)
        (needs_token-Starts 0 Starts.at_start) (move_idref 0 Starts.at_start) refl (omega arith)
      then reduction lp64 5 30 0 20 (0 ∷ []) [] (headed (some m) ∷ []) [] p p (headed (some m)) refl
          refl refl refl refl (goto_idref 0 Starts.at_start) (omega arith)
      then one_step (giving_up lp64 m rest) in
    (
      refused p,
      refl,
      refl,
      all.count,
      λ extra. all.reaches extra ∙ run_halted extra lp64 (refused p),
    )
