-- ===== src/Xml/Tables.antt =====
-- The tables of the parser in IOCFUnserialize.tab.c, and what it reads off them: the move in a state for a
-- token, and the state behind a reduction. An entry that the code never reads counts as 0.
use iokit_user.Prelude.{
  ◌&&◌, ◌+◌, ◌-◌, ◌||◌, not, ◌==◌, leb, ltb, ◌∷◌, [], none, some, if◌then◌else◌, get_elem?, List,
  Option, Bool, ℕ, ℤ, pos, negsuc,
}
use iokit_user.Xml.Lexer.{Token}

-- `YYTRANSLATE`
unfoldable pub symbol : Token → ℕ
symbol Token.end_of_buffer = 0
symbol Token.array_token = 3
symbol Token.boolean_token = 4
symbol Token.data_token = 5
symbol Token.dictionary_token = 6
symbol Token.idref_token = 7
symbol Token.key_token = 8
symbol Token.number_token = 9
symbol Token.set_token = 10
symbol Token.string_token = 11
symbol Token.syntax_error = 12
symbol Token.brace_open = 13
symbol Token.brace_close = 14
symbol Token.paren_open = 15
symbol Token.paren_close = 16
symbol Token.bracket_open = 17
symbol Token.bracket_close = 18

-- `YYPACT_NINF`
abbrev ninf : ℤ
ninf = negsuc 19

-- The nonterminal on the left of a rule.
abbrev yyr1 : List ℕ
yyr1 =
    0 ∷ 19 ∷ 20 ∷ 20 ∷ 20 ∷ 21 ∷ 21 ∷ 21 ∷ 21 ∷ 21 ∷ 21 ∷ 21 ∷ 21 ∷ 22 ∷ 22 ∷ 22 ∷ 23 ∷ 23 ∷ 24 ∷ 25
    ∷ 26 ∷ 26 ∷ 26 ∷ 27 ∷ 27 ∷ 27 ∷ 28 ∷ 28 ∷ 29 ∷ 30 ∷ 31 ∷ 32 ∷ 33 ∷ []

-- The number of symbols on the right of a rule.
abbrev yyr2 : List ℕ
yyr2 =
    0 ∷ 2 ∷ 0 ∷ 1 ∷ 1 ∷ 1 ∷ 1 ∷ 1 ∷ 1 ∷ 1 ∷ 1 ∷ 1 ∷ 1 ∷ 2 ∷ 3 ∷ 1 ∷ 1 ∷ 2 ∷ 2 ∷ 1 ∷ 2 ∷ 3 ∷ 1 ∷ 2
    ∷ 3 ∷ 1 ∷ 1 ∷ 2 ∷ 1 ∷ 1 ∷ 1 ∷ 1 ∷ 1 ∷ []

-- The rule to reduce by without looking at a token.
abbrev yydefact : List ℕ
yydefact =
    2 ∷ 22 ∷ 28 ∷ 29 ∷ 15 ∷ 30 ∷ 31 ∷ 25 ∷ 32 ∷ 4 ∷ 0 ∷ 0 ∷ 0 ∷ 0 ∷ 3 ∷ 5 ∷ 6 ∷ 7 ∷ 11 ∷ 9 ∷ 12 ∷ 10
    ∷ 8 ∷ 19 ∷ 13 ∷ 0 ∷ 16 ∷ 0 ∷ 20 ∷ 26 ∷ 0 ∷ 23 ∷ 0 ∷ 1 ∷ 14 ∷ 17 ∷ 18 ∷ 21 ∷ 27 ∷ 24 ∷ []

-- The state behind a reduction to a nonterminal, unless the table says another; `none` is -1.
abbrev yydefgoto : List (Option ℕ)
yydefgoto =
    none
    ∷ some 13
    ∷ some 29
    ∷ some 15
    ∷ some 25
    ∷ some 26
    ∷ some 27
    ∷ some 16
    ∷ some 17
    ∷ some 30
    ∷ some 18
    ∷ some 19
    ∷ some 20
    ∷ some 21
    ∷ some 22
    ∷ []

abbrev yypact : List ℤ
yypact =
    pos 46
    ∷ ninf
    ∷ ninf
    ∷ ninf
    ∷ ninf
    ∷ ninf
    ∷ ninf
    ∷ ninf
    ∷ ninf
    ∷ ninf
    ∷ pos 4
    ∷ pos 61
    ∷ negsuc 1
    ∷ pos 10
    ∷ ninf
    ∷ ninf
    ∷ ninf
    ∷ ninf
    ∷ ninf
    ∷ ninf
    ∷ ninf
    ∷ ninf
    ∷ ninf
    ∷ ninf
    ∷ ninf
    ∷ pos 6
    ∷ ninf
    ∷ pos 91
    ∷ ninf
    ∷ ninf
    ∷ pos 76
    ∷ ninf
    ∷ pos 30
    ∷ ninf
    ∷ ninf
    ∷ ninf
    ∷ ninf
    ∷ ninf
    ∷ ninf
    ∷ ninf
    ∷ []

abbrev yypgoto : List ℤ
yypgoto =
    ninf
    ∷ ninf
    ∷ pos 0
    ∷ ninf
    ∷ ninf
    ∷ negsuc 18
    ∷ ninf
    ∷ ninf
    ∷ ninf
    ∷ pos 5
    ∷ ninf
    ∷ ninf
    ∷ ninf
    ∷ ninf
    ∷ ninf
    ∷ []

abbrev yytable : List ℕ
yytable =
    14 ∷ 1 ∷ 2 ∷ 3 ∷ 4 ∷ 5 ∷ 35 ∷ 6 ∷ 7 ∷ 8 ∷ 33 ∷ 10 ∷ 23 ∷ 11 ∷ 23 ∷ 12 ∷ 31 ∷ 32 ∷ 24 ∷ 0 ∷ 34
    ∷ 0 ∷ 0 ∷ 0 ∷ 0 ∷ 0 ∷ 0 ∷ 36 ∷ 0 ∷ 0 ∷ 38 ∷ 0 ∷ 38 ∷ 1 ∷ 2 ∷ 3 ∷ 4 ∷ 5 ∷ 0 ∷ 6 ∷ 7 ∷ 8 ∷ 0 ∷ 10
    ∷ 0 ∷ 11 ∷ 0 ∷ 12 ∷ 39 ∷ 1 ∷ 2 ∷ 3 ∷ 4 ∷ 5 ∷ 0 ∷ 6 ∷ 7 ∷ 8 ∷ 9 ∷ 10 ∷ 0 ∷ 11 ∷ 0 ∷ 12 ∷ 1 ∷ 2
    ∷ 3 ∷ 4 ∷ 5 ∷ 0 ∷ 6 ∷ 7 ∷ 8 ∷ 0 ∷ 10 ∷ 0 ∷ 11 ∷ 28 ∷ 12 ∷ 1 ∷ 2 ∷ 3 ∷ 4 ∷ 5 ∷ 0 ∷ 6 ∷ 7 ∷ 8 ∷ 0
    ∷ 10 ∷ 0 ∷ 11 ∷ 37 ∷ 12 ∷ 1 ∷ 2 ∷ 3 ∷ 4 ∷ 5 ∷ 0 ∷ 6 ∷ 7 ∷ 8 ∷ 0 ∷ 10 ∷ 0 ∷ 11 ∷ 0 ∷ 12 ∷ []

-- `none` is -1.
abbrev yycheck : List (Option ℕ)
yycheck =
    some 0
    ∷ some 3
    ∷ some 4
    ∷ some 5
    ∷ some 6
    ∷ some 7
    ∷ some 25
    ∷ some 9
    ∷ some 10
    ∷ some 11
    ∷ some 0
    ∷ some 13
    ∷ some 8
    ∷ some 15
    ∷ some 8
    ∷ some 17
    ∷ some 18
    ∷ some 12
    ∷ some 14
    ∷ none
    ∷ some 14
    ∷ none
    ∷ none
    ∷ none
    ∷ none
    ∷ none
    ∷ none
    ∷ some 27
    ∷ none
    ∷ none
    ∷ some 30
    ∷ none
    ∷ some 32
    ∷ some 3
    ∷ some 4
    ∷ some 5
    ∷ some 6
    ∷ some 7
    ∷ none
    ∷ some 9
    ∷ some 10
    ∷ some 11
    ∷ none
    ∷ some 13
    ∷ none
    ∷ some 15
    ∷ none
    ∷ some 17
    ∷ some 18
    ∷ some 3
    ∷ some 4
    ∷ some 5
    ∷ some 6
    ∷ some 7
    ∷ none
    ∷ some 9
    ∷ some 10
    ∷ some 11
    ∷ some 12
    ∷ some 13
    ∷ none
    ∷ some 15
    ∷ none
    ∷ some 17
    ∷ some 3
    ∷ some 4
    ∷ some 5
    ∷ some 6
    ∷ some 7
    ∷ none
    ∷ some 9
    ∷ some 10
    ∷ some 11
    ∷ none
    ∷ some 13
    ∷ none
    ∷ some 15
    ∷ some 16
    ∷ some 17
    ∷ some 3
    ∷ some 4
    ∷ some 5
    ∷ some 6
    ∷ some 7
    ∷ none
    ∷ some 9
    ∷ some 10
    ∷ some 11
    ∷ none
    ∷ some 13
    ∷ none
    ∷ some 15
    ∷ some 16
    ∷ some 17
    ∷ some 3
    ∷ some 4
    ∷ some 5
    ∷ some 6
    ∷ some 7
    ∷ none
    ∷ some 9
    ∷ some 10
    ∷ some 11
    ∷ none
    ∷ some 13
    ∷ none
    ∷ some 15
    ∷ none
    ∷ some 17
    ∷ []

abbrev entry : List ℕ → ℕ → ℕ
entry table i = value (get_elem? table i)
  where
    value : Option ℕ → ℕ
    value none = 0
    value (some n) = n

abbrev signed_entry : List ℤ → ℕ → ℤ
signed_entry table i = value (get_elem? table i)
  where
    value : Option ℤ → ℤ
    value none = pos 0
    value (some n) = n

abbrev option_entry : List (Option ℕ) → ℕ → Option ℕ
option_entry table i = value (get_elem? table i)
  where
    value : Option (Option ℕ) → Option ℕ
    value none = none
    value (some o) = o

-- The sum of an entry and a number, if it is not negative.
unfoldable pub plus : ℤ → ℕ → Option ℕ
plus (pos m) n = some (m + n)
plus (negsuc m) n = if ltb m n then some (n - (m + 1)) else none

-- The entry of `yycheck` is the number.
abbrev checks : Option ℕ → ℕ → Bool
checks none n = Bool.false
checks (some m) n = m == n

unfoldable pub rule_length : ℕ → ℕ
rule_length rule = entry yyr2 rule

pub data Move : Type 0 where
  shift : ℕ → Move
  reduce : ℕ → Move
  accept : Move
  fail : Move

-- `yypact[yystate] == YYPACT_NINF`: no token is looked at.
unfoldable pub needs_token : ℕ → Bool
needs_token state = not_ninf (signed_entry yypact state)
  where
    not_ninf : ℤ → Bool
    not_ninf (pos n) = Bool.true
    not_ninf (negsuc n) = not (n == 19)

-- `yydefault`
unfoldable pub default_move : ℕ → Move
default_move state = let rule = entry yydefact state in if rule == 0 then fail else reduce rule

-- An entry of `yytable`, none of which is negative; 33 is `YYFINAL`.
unfoldable pub table_move : ℕ → Move
table_move n = if n == 0 then fail else if n == 33 then accept else shift n

-- `yybackup`, for a state that looks at a token, from the number of the token on.
unfoldable pub token_move : ℕ → ℕ → Move
token_move state token = move (plus (signed_entry yypact state) token)
  where
    move : Option ℕ → Move
    move none = default_move state
    move (some i) =
        if ltb 108 i || not (checks (option_entry yycheck i) token)
        then default_move state
        else table_move (entry yytable i)

-- The state behind a reduction by a rule, from the state below.
unfoldable pub goto_state : ℕ → ℕ → ℕ
goto_state rule below = to (plus (signed_entry yypgoto nonterminal) below)
  where
    nonterminal : ℕ
    nonterminal = entry yyr1 rule - 19

    default_goto : Option ℕ → ℕ
    default_goto none = 0
    default_goto (some state) = state

    to : Option ℕ → ℕ
    to none = default_goto (option_entry yydefgoto nonterminal)
    to (some i) =
        if leb i 108 && checks (option_entry yycheck i) below
        then entry yytable i
        else default_goto (option_entry yydefgoto nonterminal)
