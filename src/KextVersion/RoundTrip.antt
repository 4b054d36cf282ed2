-- ===== src/KextVersion/RoundTrip.antt =====
-- Printing and parsing a version of kext.subproj/OSKextVersion.c are inverse to each other.
use mathlib.Core.Path.{subst}
use iokit_user.Prelude.{
  sym, length-replicate, length-append, replicate, length, ap, ◌<◌, ◌-◌, zero, inr, ◌∙◌,
  append_assoc, arith, inl, ◌≤◌, ◌∷◌, ◌++◌, ◌≡◌,
}
use iokit_user.KextVersion.{
  pos, List, suc, [], some, ◌≡◌, ℕ, Text, Vers, packed, stage_release, finish, parse_text,
  parse_stage, parse_version_string, parse_version_string_lem,
}
use iokit_user.KextVersion.Valid.{IsVersion, parse_version_string_sound}
use iokit_user.KextVersion.Reread.{
  IsLetter, release_of, major-period, minor-letter, minor-end, minor-period, revision-letter,
  revision-end, stage-decimal, string_for_stage-IsLetter,
}
use iokit_user.KextVersion.Decimal.{decimal_three}
use iokit_user.KextVersion.Print.{decimal, version_get_string}
use iokit_user.KextVersion.Print.Printed.{
  version_text, numbers_text, with_revision, stage_letter, numbers_text-Fits, filled,
  version_get_string_lem,
}

finish-packed : (v : Vers) → IsVersion v → finish v ≡ some (packed v)
unfolding finish
finish-packed v h = ground (arith, h.candidate_level)

-- The text of the numbers, then a NUL or the letter of a stage.
numbers-end :
    (m n r : ℕ) (s : Text)
    → m ≤ 9999
    → n ≤ 99
    → r ≤ 99
    → parse_text (with_revision ((decimal m ++ b'.' ∷ []) ++ decimal n) r ++ 0 ∷ s)
      ≡ finish (release_of m n r)
numbers-end m n zero s hm hn hr = simp append_assoc (major-period m _ hm ∙ minor-end m n hn s)
numbers-end m n (suc r) s hm hn hr =
    simp append_assoc (major-period m _ hm ∙ minor-period m n hn _ ∙ revision-end m n (suc r) hr s)

numbers-letter :
    (m n r c : ℕ) (s : Text)
    → m ≤ 9999
    → n ≤ 99
    → r ≤ 99
    → IsLetter c
    → parse_text (with_revision ((decimal m ++ b'.' ∷ []) ++ decimal n) r ++ c ∷ s)
      ≡ parse_stage m n r (c ∷ s)
numbers-letter m n zero c s hm hn hr hc =
    simp append_assoc (major-period m _ hm ∙ minor-letter m n hn c s hc)
numbers-letter m n (suc r) c s hm hn hr hc =
    simp append_assoc
      (major-period m _ hm ∙ minor-period m n hn _ ∙ revision-letter m n (suc r) hr c s hc)

release_of-eq :
    (v : Vers) → IsVersion v → v.stage ≡ stage_release → release_of v.major v.minor v.revision ≡ v
release_of-eq v h l = ground (arith, h.release_level l)

parse_text-version_text :
    (v : Vers) (s : Text) → IsVersion v → parse_text (version_text v ++ 0 ∷ s) ≡ finish v
parse_text-version_text v s h = elim (stage_letter v.stage h.stage) [
  | inl (c, e, l) ↦
      rw
        (
          e,
          append_assoc (numbers_text v ++ c ∷ []) (decimal v.stage_level) (0 ∷ s),
          append_assoc (numbers_text v) (c ∷ []) (decimal v.stage_level ++ 0 ∷ s),
        )
        (numbers-letter v.major v.minor v.revision c _ h.major h.minor h.revision
            (string_for_stage-IsLetter v.stage c e)
          ∙ stage-decimal v.major v.minor v.revision v.stage c v.stage_level s h.level e)
  | inr (e, l) ↦ rw e (
      numbers-end v.major v.minor v.revision s h.major h.minor h.revision
      ∙ ap finish (release_of-eq v h l))
]

-- The text of a version takes at most 14 bytes.
text-length : (v : Vers) → IsVersion v → length (version_text v) ≤ 14
text-length v h = elim (stage_letter v.stage h.stage) [
  | inl (c, e, l) ↦ rw e (
      omega (
        arith,
        length-append (numbers_text v ++ c ∷ []) (decimal v.stage_level),
        length-append (numbers_text v) (c ∷ []),
        numbers_text-Fits v h,
        decimal_three v.stage_level (omega (arith, h.level)),
      ))
  | inr (e, l) ↦ rw e (omega (arith, numbers_text-Fits v h))
]

zeros_split : (n : ℕ) → 0 < n → replicate {A = ℕ} n 0 ≡ 0 ∷ replicate (n - 1) 0
zeros_split zero h = absurd (omega arith)
zeros_split (suc n) h = let e : suc n - 1 ≡ n = omega arith in rw e

parse-filled :
    (v : Vers) (n : ℕ)
    → IsVersion v
    → 15 ≤ n
    → parse_text (filled n (version_text v)) ≡ some (packed v)
parse-filled v n h b =
    rw (zeros_split (n - length (version_text v)) (omega (arith, text-length v h)))
      (parse_text-version_text v _ h ∙ finish-packed v h)

-- Every version whose components are in range is printed into a buffer that is long enough, and the
-- buffer, read as a C string, is parsed to the same number.
pub parse-version_get_string :
    (max_length : ℕ) (buffer : List ℕ) (v : Vers)
    → IsVersion v
    → 15 ≤ max_length
    → max_length ≤ length buffer
    → (out : List ℕ) × (version_get_string max_length (pos (packed v)) (some buffer) ≡ some out)
      × (length out ≡ length buffer)
      × (parse_version_string (some out) ≡ pos (packed v))
parse-version_get_string max_length buffer v h b c = (
  filled (length buffer) (version_text v),
  version_get_string_lem max_length buffer v h b c,
  omega (
    arith,
    length-append (version_text v) (replicate (length buffer - length (version_text v)) 0),
    length-replicate {A = ℕ} (length buffer - length (version_text v)) 0,
    text-length v h,
  ),
  rw (parse_version_string_lem, parse-filled v (length buffer) h (omega arith)),
)

-- What is parsed from any text is printed to a text that is parsed to the same number.
pub version_get_string-parse :
    (max_length : ℕ) (buffer : List ℕ) (s : Text) (n : ℕ)
    → 15 ≤ max_length
    → max_length ≤ length buffer
    → parse_version_string (some s) ≡ pos n
    → (out : List ℕ) × (version_get_string max_length (pos n) (some buffer) ≡ some out)
      × (parse_version_string (some out) ≡ pos n)
version_get_string-parse max_length buffer s n b c e =
    let (v, h, eq) = parse_version_string_sound s n e in
    let (out, printed, len, parsed) = parse-version_get_string max_length buffer v h b c in
    (
      out,
      subst (λ k. version_get_string max_length (pos k) (some buffer) ≡ some out) (sym eq) printed,
      parsed ∙ ap pos (sym eq),
    )
