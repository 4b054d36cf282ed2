-- ===== src/Xml/Tag.antt =====
-- `getTag` of IOCFUnserialize.tab.c. The bytes behind the end of the input are read as zeros.
pub mod Progress
use iokit_user.Prelude.{
  zero, suc, ◌+◌, ◌&&◌, ◌||◌, not, ◌==◌, leb, ◌∷◌, [], none, some, ◌>>=◌, if◌then◌else◌, List,
  Option, Bool, ℕ,
}
use iokit_user.Xml.Number.{is_digit}
use iokit_user.Xml.Text.{Input, current_char, behind}

pub data TagType : Type 0 where
  start_tag end_tag empty_tag : TagType

-- The name of an attribute and its value.
abbrev pub Attribute : Type 0
Attribute = List ℕ × List ℕ

-- A bad tag, at a line; a declaration, a comment or an instruction, which is ignored; or a tag. The last
-- argument is the input behind it.
pub data TagResult : Type 0 where
  bad : ℕ → TagResult
  ignored : Input → TagResult
  tag : TagType → List ℕ → List Attribute → Input → TagResult

abbrev pub is_space : ℕ → Bool
is_space c = c == b' ' || c == b'\t'

unfoldable pub is_alpha : ℕ → Bool
is_alpha c = (leb b'A' c && leb c b'Z') || (leb b'a' c && leb c b'z')

unfoldable pub is_alpha_numeric : ℕ → Bool
is_alpha_numeric c = is_alpha c || is_digit c || c == b'-'

-- `while (isSpace(c)) c = nextChar();`
unfoldable pub skip_spaces : List ℕ → List ℕ
skip_spaces [] = []
skip_spaces (c ∷ s) = let later = skip_spaces s in if is_space c then later else c ∷ s

abbrev pub down : ℕ → ℕ → ℕ
down c n = if c == b'\n' then n + 1 else n

-- The loop over a declaration; the first character of the list is `c`.
unfoldable pub skip_declaration : List ℕ → ℕ → TagResult
skip_declaration [] n = bad n
skip_declaration (d ∷ s) n =
    let c = current_char s in
    let later = skip_declaration s (down c n) in
    if d == 0 || c == 0
    then bad n
    else if c == b'>'
    then ignored (record { rest = behind s; line_number = n })
    else later

-- The loop over a comment: the input is behind `c`, and the flags say how many dashes stand in front.
-- A third dash does not continue a row of dashes.
pub data Dashes : Type 0 where
  no_dash one_dash two_dashes : Dashes

unfoldable pub skip_comment : Dashes → List ℕ → ℕ → TagResult
skip_comment dashes [] n = bad n
skip_comment no_dash (c ∷ s) n =
    let later = skip_comment no_dash s (down c n) in
    let dashed = skip_comment one_dash s n in
    if c == 0 then bad n else if c == b'-' then dashed else later
skip_comment one_dash (c ∷ s) n =
    let later = skip_comment no_dash s n in
    let dashed = skip_comment two_dashes s n in
    if c == b'-' then dashed else if c == 0 then bad n else later
skip_comment two_dashes (c ∷ s) n =
    if c == b'>' then ignored (record { rest = s; line_number = n }) else bad n

-- The part for `<!`, from the character behind it on.
unfoldable pub skip_markup : List ℕ → ℕ → TagResult
skip_markup s n =
    if current_char s == b'-' && current_char (behind s) == b'-'
    then skip_comment no_dash (behind (behind s)) n
    else if current_char s == b'-'
    then (if is_alpha (current_char (behind s)) then skip_declaration (behind s) n else bad n)
    else if is_alpha (current_char s)
    then skip_declaration s n
    else bad n

-- The loop over an instruction, from the character behind `c` on; the flag says whether `c` is the
-- character behind a question mark.
unfoldable pub skip_instruction : Bool → List ℕ → ℕ → TagResult
skip_instruction asked [] n = bad n
skip_instruction Bool.false (c ∷ s) n =
    let later = skip_instruction Bool.false s (down c n) in
    let marked = skip_instruction Bool.true s n in
    if c == 0 then bad n else if c == b'?' then marked else later
skip_instruction Bool.true (c ∷ s) n =
    let later = skip_instruction Bool.false s n in
    if c == b'>' then ignored (record { rest = s; line_number = n }) else later

-- The loops over a name, with room for so many characters and one; `none` is a name that is too long.
unfoldable pub take_name : ℕ → List ℕ → Option (List ℕ × List ℕ)
take_name room [] = some ([], [])
take_name zero (c ∷ s) = if is_alpha_numeric c then none else some ([], c ∷ s)
take_name (suc room) (c ∷ s) =
    let later = take_name room s in
    if is_alpha_numeric c
    then (do (name, rest) ← later; some (c ∷ name, rest))
    else some ([], c ∷ s)

-- The loop over a value, and the closing quote.
unfoldable pub take_quoted : ℕ → List ℕ → Option (List ℕ × List ℕ)
take_quoted zero s = if current_char s == b'"' then some ([], behind s) else none
take_quoted (suc room) s =
    let later = take_quoted room (behind s) in
    if current_char s == b'"'
    then some ([], behind s)
    else (do (value, rest) ← later; some (current_char s ∷ value, rest))

-- A character that must stand there.
unfoldable pub expect : ℕ → List ℕ → Option (ℕ × List ℕ)
expect c s = if current_char s == c then some (c, behind s) else none

-- One attribute, from its name to its closing quote.
unfoldable pub take_attribute : List ℕ → Option (Attribute × List ℕ)
take_attribute s = do
  (name, s1) ← take_name 30 (skip_spaces s)
  (equals, s2) ← expect b'=' (skip_spaces s1)
  (quote, s3) ← expect b'"' (skip_spaces s2)
  (value, s4) ← take_quoted 30 s3
  some ((name, value), s4)

abbrev pub at_close : List ℕ → Bool
at_close s = current_char s == b'>' || current_char s == b'/'

-- The loop over the attributes, with room for so many and one.
unfoldable pub take_attributes : ℕ → List ℕ → Option (List Attribute × List ℕ)
take_attributes zero s = if at_close s then some ([], s) else none
take_attributes (suc room) s = elim (at_close s) [
  | Bool.true ↦ some ([], s)
  | Bool.false ↦ do
    (a, t) ← take_attribute s
    (others, rest) ← take_attributes room t
    some (a ∷ others, rest)
]

-- The end of the tag.
unfoldable pub close_tag : TagType → List ℕ → List Attribute → List ℕ → ℕ → TagResult
close_tag type name attributes s n =
    let slash = current_char s == b'/' in
    let end = if slash then behind s else s in
    if current_char end == b'>'
    then tag (if slash then empty_tag else type) name attributes
        (record { rest = behind end; line_number = n })
    else bad n

-- The name of a tag, and what follows it.
unfoldable pub named_tag : TagType → List ℕ → ℕ → TagResult
named_tag type s n = if is_alpha (current_char s) then close found else bad n
  where
    found : Option (List ℕ × List Attribute × List ℕ)
    found = do
      (name, t) ← take_name 30 s
      (attributes, rest) ← take_attributes 31 t
      some (name, attributes, rest)

    close : Option (List ℕ × List Attribute × List ℕ) → TagResult
    close none = bad n
    close (some (name, attributes, rest)) = close_tag type name attributes rest n

-- `getTag`
unfoldable pub get_tag : Input → TagResult
get_tag input =
    let n = input.line_number in
    let s = behind input.rest in
    let c = current_char s in
    if not (current_char input.rest == b'<')
    then bad n
    else if c == b'!'
    then skip_markup (behind s) n
    else if c == b'?'
    then skip_instruction Bool.false (behind s) n
    else if c == b'/'
    then named_tag end_tag (behind s) n
    else named_tag start_tag s n
