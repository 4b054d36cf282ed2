-- ===== src/Xml/Tag/Progress.antt =====
-- What `getTag` of IOCFUnserialize.tab.c takes of the input.
use iokit_user.Prelude.{
  ◌<◌, ◌≤◌, ◌≡◌, ◌==◌, ◌&&◌, ◌||◌, not, ◌∷◌, [], none, some, ◌>>=◌, inl, inr, length, arith, suc,
  zero, if_both, Bool-cases, Option-cases, if◌then◌else◌, List, Option, Bool, true, false, ℕ,
}
use iokit_user.Xml.Tag.{
  TagType, end_tag, start_tag, Attribute, TagResult, bad, ignored, tag, is_space, skip_spaces, down,
  skip_declaration, Dashes, no_dash, one_dash, two_dashes, skip_comment, skip_markup,
  skip_instruction, is_alpha_numeric, is_alpha, take_name, take_quoted, expect, take_attribute,
  at_close, take_attributes, close_tag, named_tag, get_tag,
}
use iokit_user.Xml.Text.{current_char, behind}
use mathlib.Core.Path.{subst}

behind-le : (s : List ℕ) → length (behind s) ≤ length s
behind-le [] = omega arith
behind-le (c ∷ s) = omega arith

-- Behind a byte that is not the terminator, less is left.
pub behind-lt :
    (s : List ℕ) (c : ℕ) → (current_char s == c) ≡ true → 0 < c → length (behind s) < length s
behind-lt [] c e h = absurd (ground (arith, e, h))
behind-lt (d ∷ s) c e h = omega arith

pub length-skip_spaces : (s : List ℕ) → length (skip_spaces s) ≤ length s
unfolding skip_spaces
length-skip_spaces [] = omega arith
length-skip_spaces (c ∷ s) = elim (Bool-cases (is_space c)) [
  | inl e ↦ rw e (omega (arith, length-skip_spaces s))
  | inr e ↦ rw e (omega arith)
]

-- What is left behind a tag, or what is ignored, is at most so long.
abbrev pub Within : ℕ → TagResult → Type 0
Within m (bad n) = Unit
Within m (ignored r) = length r.rest ≤ m
Within m (tag type name attributes r) = length r.rest ≤ m

Within-more : (m k : ℕ) (r : TagResult) → m ≤ k → Within m r → Within k r
Within-more m k (bad n) h w = tt
Within-more m k (ignored r) h w = omega arith
Within-more m k (tag type name attributes r) h w = omega arith

skip_declaration-Within : (s : List ℕ) (n : ℕ) → Within (length s) (skip_declaration s n)
unfolding skip_declaration
skip_declaration-Within [] n = tt
skip_declaration-Within (d ∷ s) n =
    let c = current_char s in
    if_both (Within (suc (length s))) (d == 0 || c == 0) tt (
      if_both (Within (suc (length s))) (c == b'>') (omega (arith, behind-le s)) (
        Within-more (length s) (suc (length s)) (skip_declaration s (down c n)) (omega arith)
          (skip_declaration-Within s (down c n))))

skip_comment-Within :
    (dashes : Dashes) (s : List ℕ) (n : ℕ) → Within (length s) (skip_comment dashes s n)
unfolding skip_comment
skip_comment-Within no_dash [] n = tt
skip_comment-Within one_dash [] n = tt
skip_comment-Within two_dashes [] n = tt
skip_comment-Within no_dash (c ∷ s) n = if_both (Within (suc (length s))) (c == 0) tt (
    if_both (Within (suc (length s))) (c == b'-')
      (Within-more (length s) (suc (length s)) (skip_comment one_dash s n) (omega arith)
        (skip_comment-Within one_dash s n))
      (Within-more (length s) (suc (length s)) (skip_comment no_dash s (down c n)) (omega arith)
        (skip_comment-Within no_dash s (down c n))))
skip_comment-Within one_dash (c ∷ s) n =
    if_both (Within (suc (length s))) (c == b'-')
      (Within-more (length s) (suc (length s)) (skip_comment two_dashes s n) (omega arith)
        (skip_comment-Within two_dashes s n))
      (if_both (Within (suc (length s))) (c == 0) tt (
        Within-more (length s) (suc (length s)) (skip_comment no_dash s n) (omega arith)
          (skip_comment-Within no_dash s n)))
skip_comment-Within two_dashes (c ∷ s) n =
    if_both (Within (suc (length s))) (c == b'>') (omega arith) tt

skip_instruction-Within :
    (asked : Bool) (s : List ℕ) (n : ℕ) → Within (length s) (skip_instruction asked s n)
unfolding skip_instruction
skip_instruction-Within true [] n = tt
skip_instruction-Within false [] n = tt
skip_instruction-Within false (c ∷ s) n = if_both (Within (suc (length s))) (c == 0) tt (
    if_both (Within (suc (length s))) (c == b'?')
      (Within-more (length s) (suc (length s)) (skip_instruction true s n) (omega arith)
        (skip_instruction-Within true s n))
      (Within-more (length s) (suc (length s)) (skip_instruction false s (down c n)) (omega arith)
        (skip_instruction-Within false s (down c n))))
skip_instruction-Within true (c ∷ s) n =
    if_both (Within (suc (length s))) (c == b'>') (omega arith) (
      Within-more (length s) (suc (length s)) (skip_instruction false s n) (omega arith)
        (skip_instruction-Within false s n))

skip_markup-Within : (s : List ℕ) (n : ℕ) → Within (length s) (skip_markup s n)
unfolding skip_markup
skip_markup-Within s n =
    if_both (Within (length s)) (current_char s == b'-' && current_char (behind s) == b'-')
      {x = skip_comment no_dash (behind (behind s)) n}
      {y = if current_char s == b'-'
        then (if is_alpha (current_char (behind s)) then skip_declaration (behind s) n else bad n)
        else if is_alpha (current_char s)
        then skip_declaration s n
        else bad n}
      (Within-more (length (behind (behind s))) (length s)
        (skip_comment no_dash (behind (behind s)) n)
        (omega (arith, behind-le s, behind-le (behind s)))
        (skip_comment-Within no_dash (behind (behind s)) n))
      (if_both (Within (length s)) (current_char s == b'-')
        {x = if is_alpha (current_char (behind s)) then skip_declaration (behind s) n else bad n}
        {y = if is_alpha (current_char s) then skip_declaration s n else bad n}
        (if_both (Within (length s)) (is_alpha (current_char (behind s)))
          {x = skip_declaration (behind s) n} {y = bad n}
          (Within-more (length (behind s)) (length s) (skip_declaration (behind s) n) (behind-le s)
            (skip_declaration-Within (behind s) n))
          tt)
        (if_both (Within (length s)) (is_alpha (current_char s)) {x = skip_declaration s n}
          {y = bad n} (skip_declaration-Within s n) tt))

-- What is left behind a part of a tag is at most so long.
abbrev Leaves {ℓ} : {A : Type ℓ} → ℕ → Option (A × List ℕ) → Type 0
Leaves m none = Unit
Leaves m (some (a, rest)) = length rest ≤ m

Leaves-bind {ℓ κ} :
    {A : Type ℓ} {B : Type κ} (m k : ℕ) (o : Option (A × List ℕ))
    (f : A × List ℕ → Option (B × List ℕ))
    → Leaves m o
    → ((a : A) (rest : List ℕ) → length rest ≤ m → Leaves k (f (a, rest)))
    → Leaves k (o >>= f)
Leaves-bind m k none f h g = tt
Leaves-bind m k (some (a, rest)) f h g = g a rest h

take_name-Leaves : (room : ℕ) (s : List ℕ) → Leaves (length s) (take_name room s)
unfolding take_name
take_name-Leaves zero [] = omega arith
take_name-Leaves (suc room) [] = omega arith
take_name-Leaves zero (c ∷ s) =
    if_both (Leaves (suc (length s))) (is_alpha_numeric c) tt (omega arith)
take_name-Leaves (suc room) (c ∷ s) =
    if_both (Leaves (suc (length s))) (is_alpha_numeric c)
      (Leaves-bind (length s) (suc (length s)) (take_name room s) _ (take_name-Leaves room s)
        (λ a rest h. omega arith))
      (omega arith)

take_quoted-Leaves : (room : ℕ) (s : List ℕ) → Leaves (length s) (take_quoted room s)
unfolding take_quoted
take_quoted-Leaves zero s = if_both (Leaves (length s)) (current_char s == b'"') (behind-le s) tt
take_quoted-Leaves (suc room) s =
    if_both (Leaves (length s)) (current_char s == b'"') (behind-le s) (
      Leaves-bind (length (behind s)) (length s) (take_quoted room (behind s)) _
        (take_quoted-Leaves room (behind s)) (λ a rest h. omega (arith, behind-le s)))

expect-Leaves : (c : ℕ) (s : List ℕ) → Leaves (length s) (expect c s)
unfolding expect
expect-Leaves c s = if_both (Leaves (length s)) (current_char s == c) (behind-le s) tt

take_attribute-Leaves : (s : List ℕ) → Leaves (length s) (take_attribute s)
unfolding take_attribute
take_attribute-Leaves s =
    Leaves-bind (length (skip_spaces s)) (length s) (take_name 30 (skip_spaces s)) _
      (take_name-Leaves 30 (skip_spaces s))
      (λ name s1 h1.
        Leaves-bind (length (skip_spaces s1)) (length s) (expect b'=' (skip_spaces s1)) _
          (expect-Leaves b'=' (skip_spaces s1))
          (λ equals s2 h2.
            Leaves-bind (length (skip_spaces s2)) (length s) (expect b'"' (skip_spaces s2)) _
              (expect-Leaves b'"' (skip_spaces s2))
              (λ quote s3 h3.
                Leaves-bind (length s3) (length s) (take_quoted 30 s3) _ (take_quoted-Leaves 30 s3)
                  (λ value s4 h4. omega (
                    arith,
                    h1,
                    h2,
                    h3,
                    h4,
                    length-skip_spaces s,
                    length-skip_spaces s1,
                    length-skip_spaces s2,
                  )))))

take_attributes-Leaves : (room : ℕ) (s : List ℕ) → Leaves (length s) (take_attributes room s)
unfolding take_attributes
take_attributes-Leaves zero s = if_both (Leaves (length s)) (at_close s) (omega arith) tt
take_attributes-Leaves (suc room) s = by_close (at_close s) (take_attributes-Leaves room)
  where
    by_close :
        (b : Bool)
        → ((t : List ℕ) → Leaves (length t) (take_attributes room t))
        → Leaves (length s) (elim b [
          | true ↦ some ([], s)
          | false ↦ do
            (a, t) ← take_attribute s
            (others, rest) ← take_attributes room t
            some (a ∷ others, rest)
        ])
    by_close true later = omega arith
    by_close false later =
        Leaves-bind (length s) (length s) (take_attribute s) _ (take_attribute-Leaves s) (λ a t h.
          Leaves-bind (length t) (length s) (take_attributes room t) _ (later t)
            (λ others rest k. omega (arith, h, k)))

close_tag-Within :
    (type : TagType) (name : List ℕ) (attributes : List Attribute) (s : List ℕ) (n : ℕ)
    → Within (length s) (close_tag type name attributes s n)
unfolding close_tag
close_tag-Within type name attributes s n = elim (Bool-cases (current_char s == b'/')) [
  | inl e ↦ rw e (
      if_both (Within (length s)) (current_char (behind s) == b'>')
        (omega (arith, behind-le s, behind-le (behind s))) tt)
  | inr e ↦ rw e (if_both (Within (length s)) (current_char s == b'>') (behind-le s) tt)
]

Leaves-at {ℓ} :
    {A : Type ℓ} (m : ℕ) (o : Option (A × List ℕ)) (a : A) (rest : List ℕ)
    → Leaves m o
    → o ≡ some (a, rest)
    → length rest ≤ m
Leaves-at m o a rest h e = subst (Leaves m) e h

named_tag-Within : (type : TagType) (s : List ℕ) (n : ℕ) → Within (length s) (named_tag type s n)
unfolding named_tag
named_tag-Within type s n = elim (Option-cases (take_name 30 s)) [
  | inl e ↦
      rw e (if_both (Within (length s)) (is_alpha (current_char s)) {x = bad n} {y = bad n} tt tt)
  | inr ((name, t), e) ↦ elim (Option-cases (take_attributes 31 t)) [
    | inl f ↦
        rw (e, f)
          (if_both (Within (length s)) (is_alpha (current_char s)) {x = bad n} {y = bad n} tt tt)
    | inr ((attributes, rest), f) ↦
        rw (e, f)
          (if_both (Within (length s)) (is_alpha (current_char s))
            {x = close_tag type name attributes rest n} {y = bad n}
            (Within-more (length rest) (length s) (close_tag type name attributes rest n)
              (omega (
                arith,
                Leaves-at (length s) (take_name 30 s) name t (take_name-Leaves 30 s) e,
                Leaves-at (length t) (take_attributes 31 t) attributes rest
                    (take_attributes-Leaves 31 t) f,
              ))
              (close_tag-Within type name attributes rest n))
            tt)
  ]
]

-- A tag, or what is ignored, is behind its first character.
pub get_tag-Within :
    (s : List ℕ) (n : ℕ)
    → Within (length (behind s)) (get_tag (record { rest = s; line_number = n }))
unfolding get_tag
get_tag-Within s n =
    let t = behind s in
    let c = current_char t in
    let m = length t in
    let after_slash =
      if_both (Within m) (c == b'/') {x = named_tag end_tag (behind t) n}
        {y = named_tag start_tag t n}
        (Within-more (length (behind t)) m (named_tag end_tag (behind t) n) (behind-le t)
          (named_tag-Within end_tag (behind t) n))
        (named_tag-Within start_tag t n) in
    let after_question =
      if_both (Within m) (c == b'?') {x = skip_instruction false (behind t) n}
        {y = if c == b'/' then named_tag end_tag (behind t) n else named_tag start_tag t n}
        (Within-more (length (behind t)) m (skip_instruction false (behind t) n) (behind-le t)
          (skip_instruction-Within false (behind t) n))
        after_slash in
    let after_mark =
      if_both (Within m) (c == b'!') {x = skip_markup (behind t) n}
        {y = if c == b'?'
          then skip_instruction false (behind t) n
          else if c == b'/'
          then named_tag end_tag (behind t) n
          else named_tag start_tag t n}
        (Within-more (length (behind t)) m (skip_markup (behind t) n) (behind-le t)
          (skip_markup-Within (behind t) n))
        after_question in
    if_both (Within m) (not (current_char s == b'<')) {x = bad n} tt after_mark
