-- ===== src/Xml/Text.antt =====
-- The text between the tags of a string: the loop of `DoCFSerializeString` and `DoCFSerializeKey` of
-- IOCFSerialize.c, which escapes it, and `getString` of IOCFUnserialize.tab.c.
pub mod RoundTrip
mod Tests
use iokit_user.Prelude.{
  zero, ◌||◌, ◌&&◌, length, ◌+◌, ◌>>=◌, codes, ◌++◌, ltb, [], suc, ◌==◌, if◌then◌else◌, none, ◌∷◌,
  some, List, Option, ℕ,
}

-- The bytes of `parseBuffer` from `parseBufferIndex` on, up to its terminator, and `lineNumber`. The index
-- and the lengths of texts are of type int: the model is that of the code for buffers shorter than 2^31
-- bytes.
pub record Input : Type 0 where
  pub rest : List ℕ
  pub line_number : ℕ

-- `currentChar`; at the end it is the terminator.
abbrev pub current_char : List ℕ → ℕ
current_char [] = 0
current_char (c ∷ s) = c

-- `nextChar` is the current character behind this one.
abbrev pub behind : List ℕ → List ℕ
behind [] = []
behind (c ∷ s) = s

-- What the loop writes for a byte.
unfoldable pub escape_char : ℕ → List ℕ
escape_char c =
    if c == b'<'
    then codes "&lt;"
    else if c == b'>'
    then codes "&gt;"
    else if c == b'&'
    then codes "&amp;"
    else c ∷ []

-- The loop, on the bytes written so far.
unfoldable pub add_escaped : List ℕ → List ℕ → List ℕ
add_escaped written [] = written
add_escaped written (c ∷ s) = add_escaped (written ++ escape_char c) s

-- The first loop of `getString`: the text before the next tag, and the input at it.
unfoldable pub find_end : List ℕ → ℕ → List ℕ × Input
find_end [] n = ([], record { rest = []; line_number = n })
find_end (c ∷ s) n =
    let later = find_end s (if c == b'\n' then n + 1 else n) in
    if c == 0 || c == b'<'
    then ([], record { rest = c ∷ s; line_number = n })
    else (c ∷ later.0, later.1)

-- The character that an entity stands for, and the text behind it; the argument is the text behind
-- its `&`.
unfoldable pub entity : List ℕ → Option (ℕ × List ℕ)
entity s =
    let c = current_char s in
    let s1 = behind s in
    let s2 = behind s1 in
    let s3 = behind s2 in
    if ltb (length s) 3
    then none
    else if c == b'l'
    then (if current_char s1 == b't' && current_char s2 == b';' then some (b'<', s3) else none)
    else if c == b'g'
    then (if current_char s1 == b't' && current_char s2 == b';' then some (b'>', s3) else none)
    else if ltb (length s1) 3
    then none
    else if c == b'a'
    then (if current_char s1 == b'm' && current_char s2 == b'p' && current_char s3 == b';'
        then some (b'&', behind s3)
        else none)
    else none

-- A character of the text, and what is behind it.
unfoldable pub next_of : List ℕ → Option (ℕ × List ℕ)
next_of [] = none
next_of (c ∷ s) = if c == b'&' then entity s else some (c, s)

-- The second loop of `getString`. Each round takes at least a byte, so that the length is fuel enough.
unfoldable pub unescape : ℕ → List ℕ → Option (List ℕ)
unescape fuel [] = some []
unescape zero (c ∷ s) = none
unescape (suc fuel) (c ∷ s) = do
  (d, rest) ← next_of (c ∷ s)
  text ← unescape fuel rest
  some (d ∷ text)

-- `getString`: the string, or `none` for the null pointer, and the input behind it.
unfoldable pub get_string : Input → Option (List ℕ) × Input
get_string input =
    let (text, end) = find_end input.rest input.line_number in
    (if current_char end.rest == b'<' then unescape (length text) text else none, end)
