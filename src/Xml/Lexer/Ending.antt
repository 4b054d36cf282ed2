-- ===== src/Xml/Lexer/Ending.antt =====
-- The jumps to `top` in `yylex` of IOCFUnserialize.tab.c, each of which is behind a byte that is taken.
use iokit_user.Prelude.{
  ◌+◌, ◌<◌, ◌≡◌, ◌==◌, ◌∷◌, [], ◌∙◌, refl, ap, none, some, inl, inr, length, arith, suc, zero,
  Bool-cases, List, Option, Bool, false, ℕ,
}
use iokit_user.Xml.Lexer.{
  Lexed, Front, found, go_on, pass, front_of, front, lexed_from, lex, yylex, token_of,
}
use iokit_user.Xml.Tag.{TagResult, bad, ignored, tag, skip_spaces, get_tag}
use iokit_user.Xml.Text.{Input, current_char, behind}
use iokit_user.Xml.Tag.Progress.{Within, get_tag-Within, length-skip_spaces, behind-lt}

-- The scan goes on with less than so much left, if it goes on.
abbrev GoesOn : ℕ → Front → Type 0
GoesOn m (found lexed) = Unit
GoesOn m (go_on rest) = length rest.rest < m

pass-GoesOn :
    (m : ℕ) (o : Option Lexed) (rest : Input) → length rest.rest < m → GoesOn m (pass o rest)
pass-GoesOn m none rest h = h
pass-GoesOn m (some lexed) rest h = tt

front_of-GoesOn :
    (lp64 : Bool) (input : Input) (r : TagResult) (k m : ℕ)
    → k < m
    → Within k r
    → GoesOn m (front_of lp64 input r)
unfolding front_of
front_of-GoesOn lp64 input (bad n) k m less h = tt
front_of-GoesOn lp64 input (ignored rest) k m less h = omega arith
front_of-GoesOn lp64 input (tag type name attributes rest) k m less h =
    pass-GoesOn m (token_of lp64 type name attributes rest) rest (omega arith)

-- At the end of the buffer there is no tag.
some_left : (s : List ℕ) → (current_char s == 0) ≡ false → length (behind s) < length s
some_left [] e = absurd (ground (arith, e))
some_left (c ∷ s) e = omega arith

front-GoesOn : (lp64 : Bool) (input : Input) → GoesOn (length input.rest) (front lp64 input)
unfolding front
front-GoesOn lp64 input =
    let s = skip_spaces input.rest in
    let n = input.line_number in
    elim (Bool-cases (current_char s == b'\n')) [
      | inl e ↦
          rw e (omega (arith, behind-lt s b'\n' e (omega arith), length-skip_spaces input.rest))
      | inr e ↦ elim (Bool-cases (current_char s == 0)) [
        | inl f ↦ rw (e, f) tt
        | inr f ↦
            rw (e, f)
              (front_of-GoesOn lp64 input (get_tag (record { rest = s; line_number = n }))
                (length (behind s)) (length input.rest)
                (omega (arith, some_left s f, length-skip_spaces input.rest)) (get_tag-Within s n))
      ]
    ]

lexed_from-more :
    (r : Front) (m : ℕ) (later later2 : Input → Lexed)
    → GoesOn m r
    → ((input : Input) → length input.rest < m → later input ≡ later2 input)
    → lexed_from r later ≡ lexed_from r later2
lexed_from-more (found lexed) m later later2 g h = refl
lexed_from-more (go_on rest) m later later2 g h = h rest g

lex-more :
    (fuel extra : ℕ) (lp64 : Bool) (input : Input)
    → length input.rest < fuel
    → lex (fuel + extra) lp64 input ≡ lex fuel lp64 input
unfolding lex
lex-more zero extra lp64 input h = absurd (omega arith)
lex-more (suc fuel) extra lp64 input h =
    let sum : suc fuel + extra ≡ suc (fuel + extra) = omega arith in
    ap (λ k. lex k lp64 input) sum
    ∙ lexed_from-more (front lp64 input) (length input.rest) (lex (fuel + extra) lp64)
        (lex fuel lp64) (front-GoesOn lp64 input)
        (λ rest less. lex-more fuel extra lp64 rest (omega arith))

-- On every buffer the fuel of the scanner is enough: with any more of it, it finds the same token and
-- leaves the same input.
pub lex-yylex :
    (lp64 : Bool) (input : Input) (extra : ℕ)
    → lex (suc (length input.rest) + extra) lp64 input ≡ yylex lp64 input
unfolding yylex
lex-yylex lp64 input extra = lex-more (suc (length input.rest)) extra lp64 input (omega arith)
