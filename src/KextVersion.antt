-- ===== src/KextVersion.antt =====
-- kext.subproj/OSKextVersion.c: the packed version number of a kext, its parser and its printer.
-- A C string is the list of its bytes; its NUL is the end of the list, or a byte 0 in it.
pub mod Print
pub mod Valid
mod Decimal
mod Reread
pub mod RoundTrip
pub mod Order
mod Tests
use iokit_user.Prelude.{
  refl, ◌≡◌, ℕ, zero, suc, ◌+◌, ◌-◌, ◌*◌, Bool, true, false, ◌&&◌, ◌||◌, Option, none, some, List,
  [], ◌∷◌, ℤ, pos, negsuc, ◌>>=◌, ltb, leb, ◌==◌, if◌then◌else◌,
}

abbrev pub Text : Type 0
Text = List ℕ

abbrev pub major_digits : ℕ
major_digits = 4

abbrev pub minor_digits : ℕ
minor_digits = 2

abbrev pub revision_digits : ℕ
revision_digits = 2

abbrev pub stage_level_digits : ℕ
stage_level_digits = 3

abbrev pub major_max : ℕ
major_max = 9999

abbrev pub stage_level_max : ℕ
stage_level_max = 255

abbrev pub major_mult : ℕ
major_mult = 100000000

abbrev pub minor_mult : ℕ
minor_mult = 1000000

abbrev pub revision_mult : ℕ
revision_mult = 10000

abbrev pub stage_mult : ℕ
stage_mult = 1000

abbrev pub stage_invalid : ℕ
stage_invalid = 0

abbrev pub stage_development : ℕ
stage_development = 1

abbrev pub stage_alpha : ℕ
stage_alpha = 3

abbrev pub stage_beta : ℕ
stage_beta = 5

abbrev pub stage_candidate : ℕ
stage_candidate = 7

abbrev pub stage_release : ℕ
stage_release = 9

pub vers_isdigit : ℕ → Bool
vers_isdigit c = leb b'0' c && leb c b'9'

pub vers_isspace : ℕ → Bool
vers_isspace c = c == b' ' || c == 9 || c == 13 || c == 10

-- `none` is the result -1.
pub vers_digit_for_char : ℕ → Option ℕ
unfolding vers_isdigit
vers_digit_for_char c = if vers_isdigit c then some (c - b'0') else none

pub vers_isreleasestate : ℕ → Bool
vers_isreleasestate c = c == b'd' || c == b'a' || c == b'b' || c == b'f'

-- White space or the NUL stands here.
pub ends : ℕ → Bool
unfolding vers_isspace
ends c = vers_isspace c || c == 0

-- The character at the pointer.
abbrev pub peek : Text → ℕ
peek [] = 0
peek (c ∷ s) = c

-- The pointer behind it.
abbrev pub advance : Text → Text
advance [] = []
advance (c ∷ s) = s

-- How the loop over the digits of a component is left, with the component's value.
pub data ScanExit : Type 0 where
  ended : ℕ → ScanExit
  release_state : ℕ → Text → ScanExit
  period : ℕ → Text → ScanExit
  full : ℕ → Text → ScanExit
  rejected : ScanExit

-- The loop; the first argument says whether a period is legal, the second how many digits may come.
pub scan : Bool → ℕ → ℕ → Text → ScanExit
unfolding ends vers_isdigit vers_isreleasestate
scan dots zero acc s = full acc s
scan dots (suc k) acc [] = ended acc
scan dots (suc k) acc (c ∷ s) =
    let more = scan dots k (acc * 10 + (c - b'0')) s in
    if ends c
    then ended acc
    else if vers_isdigit c
    then more
    else if vers_isreleasestate c
    then release_state acc (c ∷ s)
    else if dots && c == b'.'
    then period acc s
    else rejected

-- The check for too many digits: a period is skipped, a digit refused.
pub past_full : Text → Option Text
unfolding vers_isdigit
past_full s =
    if peek s == b'.' then some (advance s) else if vers_isdigit (peek s) then none else some s

pub record Vers : Type 0 where
  pub major : ℕ
  pub minor : ℕ
  pub revision : ℕ
  pub stage : ℕ
  pub stage_level : ℕ

-- The number that packs the components.
pub packed : Vers → ℕ
packed v =
    v.major * major_mult
    + v.minor * minor_mult
    + v.revision * revision_mult
    + v.stage * stage_mult
    + v.stage_level

-- The label `finish`: a release candidate must have a level.
pub finish : Vers → Option ℕ
unfolding packed
finish v = if v.stage == stage_candidate && v.stage_level == 0 then none else some (packed v)

-- `__OSKextVersionStageForString`: the stage and the text behind its letters.
pub stage_for_string : Text → Option (ℕ × Text)
unfolding ends vers_isdigit
stage_for_string s =
    if ends (peek s)
    then some (stage_release, s)
    else if peek s == b'd' && vers_isdigit (peek (advance s))
    then some (stage_development, advance s)
    else if peek s == b'a' && vers_isdigit (peek (advance s))
    then some (stage_alpha, advance s)
    else if peek s == b'b' && vers_isdigit (peek (advance s))
    then some (stage_beta, advance s)
    else if peek s == b'f' && vers_isdigit (peek (advance s))
    then some (stage_candidate, advance s)
    else if peek s == b'f' && peek (advance s) == b'c' && vers_isdigit (peek (advance (advance s)))
    then some (stage_candidate, advance (advance s))
    else none

-- The loop over the digits of the stage level, and the check behind it; the first argument counts the
-- digits that may come, the second those scanned.
pub scan_level : ℕ → ℕ → ℕ → Text → Option ℕ
unfolding ends vers_isdigit
scan_level zero n acc s = if ends (peek s) then some acc else none
scan_level (suc k) n acc [] = if n == 0 then none else some acc
scan_level (suc k) n acc (c ∷ s) =
    let more = scan_level k (n + 1) (acc * 10 + (c - b'0')) s in
    if ends c then (if n == 0 then none else some acc) else if vers_isdigit c then more else none

check_level : ℕ → Option ℕ
check_level n = if ltb stage_level_max n then none else some n

-- The label `release_state`.
pub parse_stage : ℕ → ℕ → ℕ → Text → Option ℕ
parse_stage m n r s =
    if ends (peek s)
    then finish
        (record { major = m; minor = n; revision = r; stage = stage_release; stage_level = 0 })
    else do
      (stage, rest) ← stage_for_string s
      scanned ← scan_level stage_level_digits 0 0 rest
      level ← check_level scanned
      finish (record { major = m; minor = n; revision = r; stage = stage; stage_level = level })

-- What follows the loop over the digits of the revision.
after_revision : ℕ → ℕ → ScanExit → Option ℕ
after_revision m n (ended r) =
    finish (record { major = m; minor = n; revision = r; stage = stage_release; stage_level = 0 })
after_revision m n (release_state r s) = parse_stage m n r s
after_revision m n (period r s) = none
after_revision m n (full r s) = do rest ← past_full s; parse_stage m n r rest
after_revision m n rejected = none

-- The label `revision`.
pub parse_revision : ℕ → ℕ → Text → Option ℕ
parse_revision m n s = after_revision m n (scan false revision_digits 0 s)

after_minor : ℕ → ScanExit → Option ℕ
after_minor m (ended n) =
    finish (record { major = m; minor = n; revision = 0; stage = stage_release; stage_level = 0 })
after_minor m (release_state n s) = parse_stage m n 0 s
after_minor m (period n s) = parse_revision m n s
after_minor m (full n s) = do rest ← past_full s; parse_revision m n rest
after_minor m rejected = none

-- The label `minor_version`.
pub parse_minor : ℕ → Text → Option ℕ
parse_minor m s = after_minor m (scan true minor_digits 0 s)

after_major : ScanExit → Option ℕ
after_major (ended m) =
    finish (record { major = m; minor = 0; revision = 0; stage = stage_release; stage_level = 0 })
after_major (release_state m s) = parse_stage m 0 0 s
after_major (period m s) = parse_minor m s
after_major (full m s) = do rest ← past_full s; parse_minor m rest
after_major rejected = none

-- The number that a text spells; `none` where the code returns -1.
pub parse_text : Text → Option ℕ
parse_text s = do
  first ← vers_digit_for_char (peek s)
  after_major (scan true (major_digits - 1) first (advance s))

abbrev or_minus_one : Option ℕ → ℤ
or_minus_one none = negsuc 0
or_minus_one (some n) = pos n

-- `OSKextParseVersionString`; `none` is the null pointer.
unfoldable pub parse_version_string : Option Text → ℤ
unfolding parse_text vers_digit_for_char after_major parse_minor after_minor parse_revision
    after_revision parse_stage scan past_full stage_for_string scan_level check_level finish ends
parse_version_string none = negsuc 0
parse_version_string (some s) = or_minus_one (parse_text s)

pub parse_version_string_lem :
    (s : Text) → parse_version_string (some s) ≡ or_minus_one (parse_text s)
unfolding parse_version_string
parse_version_string_lem s = refl
