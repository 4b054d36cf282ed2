-- ===== src/KextVersion/Reread.antt =====
-- How the parser of kext.subproj/OSKextVersion.c reads a component that the printer wrote.
use iokit_user.Prelude.{arith, ◌∷◌, ◌++◌, ◌⊎◌, ◌≤◌, ◌≡◌}
use iokit_user.KextVersion.{
  false, [], some, ℕ, Text, Vers, finish, past_full, scan, scan_level, check_level, parse_stage,
  after_revision, parse_revision, after_minor, parse_minor, after_major, parse_text, stage_release,
  vers_digit_for_char, ends, stage_for_string,
}
use iokit_user.KextVersion.Print.{decimal, string_for_stage}
use iokit_user.KextVersion.Decimal.{two_digit_texts, three_digit_texts, four_digit_texts}

abbrev pub IsLetter : ℕ → Type 0
IsLetter c = (c ≡ b'd') ⊎ (c ≡ b'a') ⊎ (c ≡ b'b') ⊎ (c ≡ b'f')

abbrev pub release_of : ℕ → ℕ → ℕ → Vers
release_of m n r = record {
  major = m;
  minor = n;
  revision = r;
  stage = stage_release;
  stage_level = 0;
}

module _ (m n r : ℕ) (hr : r ≤ 99) where
  pub revision-letter :
      (c : ℕ) (s : Text)
      → IsLetter c
      → parse_revision m n (decimal r ++ c ∷ s) ≡ parse_stage m n r (c ∷ s)
  unfolding parse_revision after_revision scan past_full
  revision-letter c s hc =
      two_digit_texts (λ t. parse_revision m n (t ++ c ∷ s) ≡ parse_stage m n r (c ∷ s)) r hr
        (λ l. ground arith) (λ l. ground arith)

  pub revision-end :
      (s : Text) → parse_revision m n (decimal r ++ 0 ∷ s) ≡ finish (release_of m n r)
  unfolding parse_revision after_revision scan past_full parse_stage
  revision-end s =
      two_digit_texts (λ t. parse_revision m n (t ++ 0 ∷ s) ≡ finish (release_of m n r)) r hr
        (λ l. ground arith) (λ l. ground arith)

module _ (m n : ℕ) (hn : n ≤ 99) where
  pub minor-period : (s : Text) → parse_minor m (decimal n ++ b'.' ∷ s) ≡ parse_revision m n s
  unfolding parse_minor after_minor scan past_full
  minor-period s =
      two_digit_texts (λ t. parse_minor m (t ++ b'.' ∷ s) ≡ parse_revision m n s) n hn
        (λ l. ground arith) (λ l. ground arith)

  pub minor-letter :
      (c : ℕ) (s : Text)
      → IsLetter c
      → parse_minor m (decimal n ++ c ∷ s) ≡ parse_stage m n 0 (c ∷ s)
  unfolding parse_minor after_minor scan past_full parse_revision after_revision
  minor-letter c s hc =
      two_digit_texts (λ t. parse_minor m (t ++ c ∷ s) ≡ parse_stage m n 0 (c ∷ s)) n hn
        (λ l. ground arith) (λ l. ground arith)

  pub minor-end : (s : Text) → parse_minor m (decimal n ++ 0 ∷ s) ≡ finish (release_of m n 0)
  unfolding parse_minor after_minor scan past_full parse_revision after_revision
  minor-end s =
      two_digit_texts (λ t. parse_minor m (t ++ 0 ∷ s) ≡ finish (release_of m n 0)) n hn
        (λ l. ground arith) (λ l. ground arith)

pub major-period :
    (m : ℕ) (s : Text) → m ≤ 9999 → parse_text (decimal m ++ b'.' ∷ s) ≡ parse_minor m s
unfolding parse_text after_major vers_digit_for_char scan past_full
major-period m s hm =
    four_digit_texts (λ t. parse_text (t ++ b'.' ∷ s) ≡ parse_minor m s) m hm (λ l. ground arith)
      (λ l u. ground arith) (λ l u. ground arith) (λ l. ground arith)

scan_level-decimal : (l : ℕ) (s : Text) → l ≤ 999 → scan_level 3 0 0 (decimal l ++ 0 ∷ s) ≡ some l
unfolding scan_level
scan_level-decimal l s h =
    three_digit_texts (λ t. scan_level 3 0 0 (t ++ 0 ∷ s) ≡ some l) l h (λ a. ground arith)
      (λ a b. ground arith) (λ a. ground arith)

stage_for_string-letter :
    (g c l : ℕ) (s : Text)
    → l ≤ 999
    → string_for_stage g ≡ some (c ∷ [])
    → stage_for_string (c ∷ decimal l ++ s) ≡ some (g, decimal l ++ s)
unfolding string_for_stage stage_for_string
stage_for_string-letter g c l s h e =
    three_digit_texts (λ t. stage_for_string (c ∷ t ++ s) ≡ some (g, t ++ s)) l h
      (λ a. ground arith) (λ a b. ground arith) (λ a. ground arith)

letter-not-end : (g c : ℕ) → string_for_stage g ≡ some (c ∷ []) → ends c ≡ false
unfolding string_for_stage ends
letter-not-end g c e = ground arith

check_level-some : (l : ℕ) → l ≤ 255 → check_level l ≡ some l
unfolding check_level
check_level-some l h = ground arith

pub string_for_stage-IsLetter : (g c : ℕ) → string_for_stage g ≡ some (c ∷ []) → IsLetter c
unfolding string_for_stage
string_for_stage-IsLetter g c e = ground arith

pub stage-decimal :
    (m n r g c l : ℕ) (s : Text)
    → l ≤ 255
    → string_for_stage g ≡ some (c ∷ [])
    → parse_stage m n r (c ∷ decimal l ++ 0 ∷ s)
      ≡ finish (record { major = m; minor = n; revision = r; stage = g; stage_level = l })
unfolding parse_stage
stage-decimal m n r g c l s h e = rw (
  letter-not-end g c e,
  stage_for_string-letter g c l (0 ∷ s) (omega arith) e,
  scan_level-decimal l s (omega arith),
  check_level-some l h,
)
