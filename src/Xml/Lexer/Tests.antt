-- ===== src/Xml/Lexer/Tests.antt =====
-- The theorem on the scanner of IOCFUnserialize.tab.c at a buffer with white space and a comment.
use iokit_user.Prelude.{◌+◌, ◌≡◌, suc, length, codes, true}
use iokit_user.Xml.Lexer.Ending.{lex-yylex}
use iokit_user.Xml.Lexer.{lex, yylex}
use iokit_user.Xml.Text.{Input}

abbrev buffer : Input
buffer = record { rest = codes " \n<!-- a -->\n<plist>\n<array>"; line_number = 1 }

lex-yylex_example : lex (suc (length buffer.rest) + 5) true buffer ≡ yylex true buffer
lex-yylex_example = lex-yylex true buffer 5
