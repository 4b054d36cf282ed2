-- ===== src/KextVersion/Print/Printed.antt =====
-- The text that `OSKextVersionGetString` of kext.subproj/OSKextVersion.c leaves in the buffer.
use iokit_user.Prelude.Memory.{NoNul-append, strlen_text, NoNul, store_char, store_text}
use iokit_user.Prelude.{
  ◌||◌, ap, refl, ◌==◌, if◌then◌else◌, none, lt→ltb, inr, ◌⊎◌, inl, arith, ◌+◌, ◌≤◌, zero,
  length-append, ◌-◌, ◌≡◌, length, replicate, ◌<◌, ◌∷◌, ◌++◌,
}
use iokit_user.KextVersion.{
  stage_level_max, ℤ, major_max, pos, false, ltb, List, suc, some, [], ℕ, Option, Text, Vers,
  packed, stage_release,
}
use iokit_user.KextVersion.Valid.{IsVersion, IsStage}
use iokit_user.KextVersion.Decimal.{decimal_two, decimal_three, decimal_four}
use iokit_user.KextVersion.Print.{
  print_rest, Cursor, decimal, string_for_stage, print_u, print_period, print_stage, print_level,
  print_numbers, print_fields, print_number, print_version, fields, version_get_string,
}

-- The text of a version: `major.minor`, the revision if it is not zero, and the letter and the level
-- of a stage before the release.
abbrev pub with_revision : Text → ℕ → Text
with_revision t zero = t
with_revision t (suc r) = (t ++ b'.' ∷ []) ++ decimal (suc r)

abbrev pub numbers_text : Vers → Text
numbers_text v = with_revision ((decimal v.major ++ b'.' ∷ []) ++ decimal v.minor) v.revision

abbrev pub with_stage : Text → Option Text → ℕ → Text
with_stage t (some (c ∷ s)) l = (t ++ c ∷ s) ++ decimal l
with_stage t (some []) l = t
with_stage t none l = t

abbrev pub version_text : Vers → Text
version_text v = with_stage (numbers_text v) (string_for_stage v.stage) v.stage_level

-- A printable text of at most `b` bytes.
abbrev pub Fits : ℕ → Text → Type 0
Fits b t = (length t ≤ b) × NoNul t

pub Fits-append : (a b : ℕ) (s t : Text) → Fits a s → Fits b t → Fits (a + b) (s ++ t)
Fits-append a b s t hs ht = (omega (arith, length-append s t), NoNul-append s t hs.1 ht.1)

-- A buffer of `n` bytes that holds a text, and the cursor behind it.
abbrev pub filled : ℕ → Text → List ℕ
filled n t = t ++ replicate (n - length t) 0

abbrev pub at : ℕ → Text → Cursor
at n t = record { buffer = filled n t; cpos = length t }

module _ (n b : ℕ) (t : Text) (ht : Fits b t) where
  print_u-at :
      (k d : ℕ) → Fits d (decimal k) → b + d < n → print_u k (at n t) ≡ at n (t ++ decimal k)
  unfolding print_u
  print_u-at k d hd h =
      let len : length (t ++ decimal k) ≡ length t + length (decimal k) =
        length-append t (decimal k) in
      let left : n - length t - length (decimal k) ≡ n - (length t + length (decimal k)) =
        omega arith in
      rw (store_text t (decimal k) (n - length t) (omega arith), len, left)

  print_period-at : b + 1 < n → print_period (at n t) ≡ at n (t ++ b'.' ∷ [])
  unfolding print_period
  print_period-at h =
      let len : length (t ++ b'.' ∷ []) ≡ length t + 1 = length-append t (b'.' ∷ []) in
      let left : n - length t - 1 ≡ n - (length t + 1) = omega arith in
      rw (store_char t b'.' (n - length t) (omega arith), len, left)

  print_stage-at : (c : ℕ) → b + 1 < n → print_stage (c ∷ []) (at n t) ≡ at n (t ++ c ∷ [])
  unfolding print_stage
  print_stage-at c h =
      let len : length (t ++ c ∷ []) ≡ length t + 1 = length-append t (c ∷ []) in
      let left : n - length t - 1 ≡ n - (length t + 1) = omega arith in
      rw (
        strlen_text t (n - length t) ht.1,
        store_text t (c ∷ []) (n - length t) (omega arith),
        len,
        left,
      )

module _ (v : Vers) (h : IsVersion v) where
  head-Fits : Fits 7 ((decimal v.major ++ b'.' ∷ []) ++ decimal v.minor)
  head-Fits =
      Fits-append 5 2 _ _ (Fits-append 4 1 _ _ (decimal_four v.major h.major) (omega arith))
        (decimal_two v.minor h.minor)

  pub numbers_text-Fits : Fits 10 (numbers_text v)
  numbers_text-Fits = go v.revision h.revision
    where
      go :
          (r : ℕ)
          → r ≤ 99
          → Fits 10 (with_revision ((decimal v.major ++ b'.' ∷ []) ++ decimal v.minor) r)
      go zero hr = (omega (arith, head-Fits), head-Fits.1)
      go (suc r) hr =
          Fits-append 8 2 _ _ (Fits-append 7 1 _ _ head-Fits (omega arith)) (decimal_two (suc r) hr)

  print_head :
      (n : ℕ)
      → 15 ≤ n
      → print_u v.minor
          (print_period (print_u v.major (record { buffer = replicate n 0; cpos = 0 })))
        ≡ at n ((decimal v.major ++ b'.' ∷ []) ++ decimal v.minor)
  print_head n b =
      let start : record { buffer = replicate n 0; cpos = 0 } ≡ at n [] =
        let e : n - 0 ≡ n = omega arith in rw e in
      let major = decimal_four v.major h.major in
      rw (
        start,
        print_u-at n 0 [] (omega arith) v.major 4 major (omega arith),
        print_period-at n 4 (decimal v.major) major (omega arith),
        print_u-at n 5 (decimal v.major ++ b'.' ∷ []) (Fits-append 4 1 _ _ major (omega arith))
            v.minor 2 (decimal_two v.minor h.minor) (omega arith),
      )

  print_revision :
      (n r : ℕ) (t : Text)
      → 15 ≤ n
      → r ≤ 99
      → Fits 7 t
      → (if r == 0 then at n t else print_u r (print_period (at n t))) ≡ at n (with_revision t r)
  print_revision n zero t b hr ht = refl
  print_revision n (suc r) t b hr ht =
      rw
        (
          print_period-at n 7 t ht (omega arith),
          print_u-at n 8 (t ++ b'.' ∷ []) (Fits-append 7 1 _ _ ht (omega arith)) (suc r) 2
              (decimal_two (suc r) hr) (omega arith),
        )
        (ground arith)

  print_numbers_lem : (n : ℕ) → 15 ≤ n → print_numbers v (replicate n 0) ≡ at n (numbers_text v)
  unfolding print_numbers
  print_numbers_lem n b = rw (print_head n b) (print_revision n v.revision _ b h.revision head-Fits)

-- The stage of a version has a letter, or is the release.
pub stage_letter :
    (g : ℕ)
    → IsStage g
    → ((c : ℕ) × (string_for_stage g ≡ some (c ∷ [])) × (g < stage_release))
      ⊎ ((string_for_stage g ≡ some []) × (g ≡ stage_release))
unfolding string_for_stage
stage_letter g (inl e) = inl (b'd', ground arith, omega arith)
stage_letter g (inr (inl e)) = inl (b'a', ground arith, omega arith)
stage_letter g (inr (inr (inl e))) = inl (b'b', ground arith, omega arith)
stage_letter g (inr (inr (inr (inl e)))) = inl (b'f', ground arith, omega arith)
stage_letter g (inr (inr (inr (inr e)))) = inr (ground arith, e)

string_for_stage-pos : (g c : ℕ) → string_for_stage g ≡ some (c ∷ []) → 0 < c
unfolding string_for_stage
string_for_stage-pos g c e = ground arith

module _ (v : Vers) (h : IsVersion v) where
  print_fields_lem : (n : ℕ) → 15 ≤ n → print_fields v (replicate n 0) ≡ filled n (version_text v)
  unfolding print_fields print_rest print_level print_stage
  print_fields_lem n b = elim (stage_letter v.stage h.stage) [
    | inl (c, e, l) ↦ rw (
      e,
      print_numbers_lem v h n b,
      print_stage-at n 10 (numbers_text v) fits c (omega arith),
      lt→ltb v.stage stage_release l,
      print_u-at n 11 (numbers_text v ++ c ∷ []) (Fits-append 10 1 _ _ fits (letter c e))
          v.stage_level 3 (decimal_three v.stage_level (omega (arith, h.level))) (omega arith),
    )
    | inr (e, l) ↦
        let at_release : ltb v.stage stage_release ≡ false = ground arith in
        rw (e, print_numbers_lem v h n b) (rw at_release)
  ]
    where
      fits : Fits 10 (numbers_text v)
      fits = numbers_text-Fits v h

      letter : (c : ℕ) → string_for_stage v.stage ≡ some (c ∷ []) → Fits 1 (c ∷ [])
      letter c e = (omega arith, (string_for_stage-pos v.stage c e, tt))

fields-packed : (v : Vers) → IsVersion v → fields (packed v) ≡ v
unfolding fields packed
fields-packed v h = ground arith

stage_pos : (g : ℕ) → IsStage g → 0 < g
stage_pos g h = omega arith

packed_pos : (v : Vers) → IsVersion v → 0 < packed v
unfolding packed
packed_pos v h = omega (arith, stage_pos v.stage h.stage)

print_number_lem :
    (v : Vers) (n : ℕ)
    → IsVersion v
    → 15 ≤ n
    → print_number (packed v) (replicate n 0) ≡ filled n (version_text v)
unfolding print_number
print_number_lem v n h b =
    let in_range : (ltb major_max v.major || ltb stage_level_max v.stage_level) ≡ false =
      ground (arith, h.major, h.level) in
    rw (fields-packed v h, in_range) (print_fields_lem v h n b)

print_version_pos :
    (k : ℕ) (buffer : List ℕ) → 0 < k → print_version (pos k) buffer ≡ print_number k buffer
unfolding print_version
print_version_pos zero buffer h = absurd (omega arith)
print_version_pos (suc k) buffer h = refl

get_string_some :
    (max_length : ℕ) (version : ℤ) (buffer : List ℕ)
    → ltb (length buffer) max_length ≡ false
    → version_get_string max_length version (some buffer)
      ≡ some (print_version version (replicate (length buffer) 0))
unfolding version_get_string
get_string_some max_length version buffer e = rw e

-- Into a buffer of at least 15 bytes and at least the length that the headers demand, a version is
-- printed whole: its text, and zeros up to the end of the buffer.
pub version_get_string_lem :
    (max_length : ℕ) (buffer : List ℕ) (v : Vers)
    → IsVersion v
    → 15 ≤ max_length
    → max_length ≤ length buffer
    → version_get_string max_length (pos (packed v)) (some buffer)
      ≡ some (filled (length buffer) (version_text v))
version_get_string_lem max_length buffer v h b c =
    let enough : ltb (length buffer) max_length ≡ false = ground arith in
    rw
      (
        get_string_some max_length (pos (packed v)) buffer enough,
        print_version_pos (packed v) (replicate (length buffer) 0) (packed_pos v h),
      )
      (ap some (print_number_lem v (length buffer) h (omega arith)))
