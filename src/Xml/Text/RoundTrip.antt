-- ===== src/Xml/Text/RoundTrip.antt =====
-- Escaped text of IOCFSerialize.c read by IOCFUnserialize.tab.c, and the other way round.
use iokit_user.Kext.LoadList.Order.{none-ne-some}
use iokit_user.Prelude.{
  none, ◌&&◌, ◌||◌, not, Bool, ap, true, ==_iff, zero, Bool-cases, refl, ◌⊎◌, length-append, inr,
  false, suc, inl, codes, ◌==◌, arith, if◌then◌else◌, ◌+◌, append_assoc, ◌∙◌, append-nil, sym, some,
  [], ◌≤◌, ◌∷◌, ◌++◌, ◌≡◌, length, All, ◌≢◌, List, ℕ,
}
use iokit_user.Xml.Text.{escape_char, add_escaped, find_end, entity, next_of, unescape, get_string}

-- The escaped text.
abbrev pub escaped : List ℕ → List ℕ
escaped [] = []
escaped (c ∷ s) = escape_char c ++ escaped s

add_escaped_lem : (written s : List ℕ) → add_escaped written s ≡ written ++ escaped s
unfolding add_escaped
add_escaped_lem written [] = sym (append-nil written)
add_escaped_lem written (c ∷ s) =
    add_escaped_lem (written ++ escape_char c) s ∙ append_assoc written (escape_char c) (escaped s)

-- A byte that can stand in the text before a tag.
abbrev pub IsPlain : ℕ → Type 0
IsPlain c = (c ≢ 0) × (c ≢ b'<')

-- What stands for a byte: an entity, or the byte itself.
escape_char-cases :
    (c : ℕ)
    → ((c ≡ b'<') × (escape_char c ≡ codes "&lt;"))
      ⊎ (((c ≡ b'>') × (escape_char c ≡ codes "&gt;"))
          ⊎ (((c ≡ b'&') × (escape_char c ≡ codes "&amp;"))
              ⊎ ((c ≢ b'<') × ((c == b'&') ≡ false) × (escape_char c ≡ c ∷ []))))
unfolding escape_char
escape_char-cases c = elim (Bool-cases (c == b'<')) [
  | inl p ↦ inl ((==_iff c b'<').0 p, rw p refl)
  | inr p ↦ elim (Bool-cases (c == b'>')) [
    | inl q ↦ inr (inl ((==_iff c b'>').0 q, rw (p, q) refl))
    | inr q ↦ elim (Bool-cases (c == b'&')) [
      | inl r ↦ inr (inr (inl ((==_iff c b'&').0 r, rw (p, q, r) refl)))
      | inr r ↦ inr (inr (inr (λ e. ground arith, r, rw (p, q, r) refl)))
    ]
  ]
]

next_of-escape_char : (c : ℕ) (s : List ℕ) → next_of (escape_char c ++ s) ≡ some (c, s)
unfolding next_of entity
next_of-escape_char c s = elim (escape_char-cases c) [
  | inl (e, f) ↦ rw (f, e) (ground arith)
  | inr (inl (e, f)) ↦ rw (f, e) (ground arith)
  | inr (inr (inl (e, f))) ↦ rw (f, e) (ground arith)
  | inr (inr (inr (n, a, f))) ↦ rw (f, a) refl
]

abbrev all_plain : List ℕ → Bool
all_plain [] = true
all_plain (c ∷ s) = not (c == 0) && not (c == b'<') && all_plain s

all_plain-IsPlain : (s : List ℕ) → all_plain s ≡ true → All IsPlain s
all_plain-IsPlain [] h = tt
all_plain-IsPlain (c ∷ s) h =
    ((λ e. ground arith, λ e. ground arith), all_plain-IsPlain s (ground arith))

escape_char-IsPlain : (c : ℕ) → c ≢ 0 → All IsPlain (escape_char c)
escape_char-IsPlain c h = elim (escape_char-cases c) [
  | inl (e, f) ↦ rw f (all_plain-IsPlain (codes "&lt;") refl)
  | inr (inl (e, f)) ↦ rw f (all_plain-IsPlain (codes "&gt;") refl)
  | inr (inr (inl (e, f))) ↦ rw f (all_plain-IsPlain (codes "&amp;") refl)
  | inr (inr (inr (n, a, f))) ↦ rw f ((h, n), tt)
]

next_of_nil : next_of [] ≡ none
unfolding next_of
next_of_nil = refl

unescape-next_of :
    (fuel d : ℕ) (t rest s : List ℕ)
    → next_of t ≡ some (d, rest)
    → unescape fuel rest ≡ some s
    → unescape (suc fuel) t ≡ some (d ∷ s)
unfolding unescape
unescape-next_of fuel d [] rest s e f = absurd (none-ne-some (sym next_of_nil ∙ e))
unescape-next_of fuel d (c ∷ t) rest s e f = rw (e, f) refl

length-escape_char : (c : ℕ) → 1 ≤ length (escape_char c)
unfolding escape_char
length-escape_char c = ground arith

unescape-escaped :
    (fuel : ℕ) (s : List ℕ) → length (escaped s) ≤ fuel → unescape fuel (escaped s) ≡ some s
unescape-escaped fuel [] h = unfold unescape in refl
unescape-escaped zero (c ∷ s) h =
    absurd (omega (arith, h, length-append (escape_char c) (escaped s), length-escape_char c))
unescape-escaped (suc fuel) (c ∷ s) h =
    unescape-next_of fuel c (escape_char c ++ escaped s) (escaped s) s
      (next_of-escape_char c (escaped s))
      (unescape-escaped fuel s
        (omega (arith, h, length-append (escape_char c) (escaped s), length-escape_char c)))

-- How many lines a text goes down.
abbrev pub line_ends : List ℕ → ℕ
line_ends [] = 0
line_ends (c ∷ s) = if c == b'\n' then suc (line_ends s) else line_ends s

find_end-IsPlain :
    (s rest : List ℕ) (n : ℕ)
    → All IsPlain s
    → find_end (s ++ b'<' ∷ rest) n
      ≡ (s, record { rest = b'<' ∷ rest; line_number = n + line_ends s })
unfolding find_end
find_end-IsPlain [] rest n h =
    ap (λ m. ([], record { rest = b'<' ∷ rest; line_number = m })) (omega arith)
find_end-IsPlain (c ∷ s) rest n h =
    rw (goes_on, find_end-IsPlain s rest (if c == b'\n' then n + 1 else n) h.1)
      (ap (λ m. (c ∷ s, record { rest = b'<' ∷ rest; line_number = m })) (ground arith))
  where
    goes_on : (c == 0 || c == b'<') ≡ false
    goes_on = ground (arith, h.0.0, h.0.1)

All-append : (P : ℕ → Type 0) (s t : List ℕ) → All P s → All P t → All P (s ++ t)
All-append P [] t p q = q
All-append P (c ∷ s) t p q = (p.0, All-append P s t p.1 q)

escaped-IsPlain : (s : List ℕ) → All (λ c. c ≢ 0) s → All IsPlain (escaped s)
escaped-IsPlain [] h = tt
escaped-IsPlain (c ∷ s) h =
    All-append IsPlain (escape_char c) (escaped s) (escape_char-IsPlain c h.0)
      (escaped-IsPlain s h.1)

-- A text without null bytes, escaped behind what is written already, and read from there up to a tag,
-- is the text again, and the input ends at the tag, as many lines down as the escaped text goes.
pub get_string-add_escaped :
    (s rest : List ℕ) (n : ℕ)
    → All (λ c. c ≢ 0) s
    → get_string (record { rest = add_escaped [] s ++ b'<' ∷ rest; line_number = n })
      ≡ (some s, record { rest = b'<' ∷ rest; line_number = n + line_ends (add_escaped [] s) })
unfolding get_string
get_string-add_escaped s rest n h =
    rw
      (
        add_escaped_lem [] s,
        find_end-IsPlain (escaped s) rest n (escaped-IsPlain s h),
        unescape-escaped (length (escaped s)) s (omega arith),
      )
      refl
