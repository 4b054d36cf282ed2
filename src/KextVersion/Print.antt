-- ===== src/KextVersion/Print.antt =====
-- `OSKextVersionGetString` of kext.subproj/OSKextVersion.c: the text of a version in a caller's buffer.
pub mod Printed
use iokit_user.Prelude.{
  ℕ, zero, suc, ◌+◌, ◌-◌, ◌*◌, ◌/◌, ◌%◌, ◌^◌, ◌||◌, Option, none, some, List, [], ◌∷◌, ◌++◌, ℤ, pos,
  negsuc, ltb, ◌==◌, if◌then◌else◌, length, replicate, codes, ◌≡◌, refl,
}
use iokit_user.Prelude.Memory.{store, strlen, fitted}
use iokit_user.KextVersion.{
  Text, Vers, major_max, stage_level_max, major_mult, minor_mult, revision_mult, stage_mult,
  stage_development, stage_alpha, stage_beta, stage_candidate, stage_release,
}

-- The digits of a number that has at most as many as the first argument says.
unfoldable pub digits : ℕ → ℕ → Text → Text
digits zero n out = out
digits (suc k) n out =
    let more = digits k (n / 10) ((b'0' + n % 10) ∷ out) in
    if ltb n 10 then (b'0' + n) ∷ out else more

-- What `snprintf` makes of `%u`: a uint32_t has at most ten digits.
unfoldable pub decimal : ℕ → Text
unfolding digits
decimal n = digits 10 (n % 2 ^ 32) []

-- `__OSKextVersionStringForStage`; `none` is the null pointer.
unfoldable pub string_for_stage : ℕ → Option Text
string_for_stage stage =
    if stage == stage_development
    then some (b'd' ∷ [])
    else if stage == stage_alpha
    then some (b'a' ∷ [])
    else if stage == stage_beta
    then some (b'b' ∷ [])
    else if stage == stage_candidate
    then some (b'f' ∷ [])
    else if stage == stage_release
    then some []
    else none

-- A buffer, and the position `cpos` in it.
pub record Cursor : Type 0 where
  pub buffer : List ℕ
  pub cpos : ℕ

-- `cpos += snprintf(buffer + cpos, bufferLength - cpos, "%u", n)`
print_u : ℕ → Cursor → Cursor
print_u n c = record {
  buffer = store c.buffer c.cpos (fitted (length c.buffer - c.cpos) (decimal n));
  cpos = c.cpos + length (decimal n);
}

-- `buffer[cpos] = '.'; cpos++;`
print_period : Cursor → Cursor
print_period c = record { buffer = store c.buffer c.cpos (b'.' ∷ []); cpos = c.cpos + 1 }

-- `strlcat` of the stage's letter, if it has one.
print_stage : Text → Cursor → Cursor
print_stage [] c = c
print_stage (l ∷ s) c = record {
  buffer = store c.buffer (strlen c.buffer) (fitted (length c.buffer - strlen c.buffer) (l ∷ s));
  cpos = c.cpos + length (l ∷ s);
}

-- `strlcpy(buffer, text, bufferLength)`
copy_text : Text → List ℕ → List ℕ
copy_text s buffer = store buffer 0 (fitted (length buffer) s)

-- The components, by division; every difference is of a number and a smaller one.
pub fields : ℕ → Vers
fields v =
    let major = v / major_mult in
    let minor = (v - major * major_mult) / minor_mult in
    let revision = (v - (major * major_mult + minor * minor_mult)) / revision_mult in
    let stage =
      (v - (major * major_mult + minor * minor_mult + revision * revision_mult)) / stage_mult in
    record {
      major = major;
      minor = minor;
      revision = revision;
      stage = stage;
      stage_level =
          v
          - (major * major_mult
              + minor * minor_mult
              + revision * revision_mult
              + stage * stage_mult);
    }

print_numbers : Vers → List ℕ → Cursor
print_numbers f buffer =
    let head =
      print_u f.minor (print_period (print_u f.major (record { buffer = buffer; cpos = 0 }))) in
    if f.revision == 0 then head else print_u f.revision (print_period head)

print_level : Vers → Cursor → List ℕ
print_level f c = if ltb f.stage stage_release then (print_u f.stage_level c).buffer else c.buffer

-- The stage's letter and the level, or the failure to find a letter.
print_rest : Option Text → Vers → Cursor → List ℕ
print_rest none f c = copy_text (codes "(invalid)") c.buffer
print_rest (some s) f c = print_level f (print_stage s c)

print_fields : Vers → List ℕ → List ℕ
print_fields f buffer = print_rest (string_for_stage f.stage) f (print_numbers f buffer)

print_number : ℕ → List ℕ → List ℕ
print_number v buffer =
    if ltb major_max (fields v).major || ltb stage_level_max (fields v).stage_level
    then copy_text (codes "(invalid)") buffer
    else print_fields (fields v) buffer

print_version : ℤ → List ℕ → List ℕ
print_version (negsuc n) buffer = copy_text (codes "(invalid)") buffer
print_version (pos zero) buffer = copy_text (codes "(missing)") buffer
print_version (pos (suc n)) buffer = print_number (suc n) buffer

-- `kOSKextVersionMaxLength` is a constant of the system's headers, here `max_length`. `none` is the
-- result FALSE; the buffer is `bufferLength` bytes long.
unfoldable pub version_get_string : ℕ → ℤ → Option (List ℕ) → Option (List ℕ)
unfolding print_version print_number print_fields print_rest print_level print_numbers copy_text
    print_stage print_period print_u store strlen fitted decimal fields string_for_stage
version_get_string max_length version none = none
version_get_string max_length version (some buffer) =
    if ltb (length buffer) max_length
    then none
    else some (print_version version (replicate (length buffer) 0))
