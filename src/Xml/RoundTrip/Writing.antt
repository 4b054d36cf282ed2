-- ===== src/Xml/RoundTrip/Writing.antt =====
-- The text that the functions of IOCFSerialize.c append, as the scanner of IOCFUnserialize.tab.c meets it.
use iokit_user.Prelude.{
  ap, refl, ◌∷◌, ◌++◌, ◌≡◌, none, some, Option, List, ℕ, ◌∙◌, append_assoc, codes,
}
use iokit_user.Xml.Objects.{Kind}
use iokit_user.Xml.RoundTrip.Tags.{size_part, start_text, end_text, reference_text}
use iokit_user.Xml.Serialize.{id_text, tag_string, additional}

-- The additional tags for a size.
abbrev pub tags_of : Option ℕ → Option (List ℕ)
tags_of none = none
tags_of (some n) = some (codes "size=\"" ++ id_text n ++ codes "\"")

additional_part :
    (size : Option ℕ) (u : List ℕ)
    → additional (tags_of size) ++ (b'>' ∷ u) ≡ size_part size (b'>' ∷ u)
additional_part none u = refl
additional_part (some n) u = simp append_assoc refl

abbrev pub plain_start : Kind → Option ℕ → List ℕ
plain_start kind size = codes "<" ++ tag_string kind ++ additional (tags_of size) ++ codes ">"

abbrev pub identified_start : Kind → ℕ → Option ℕ → List ℕ
identified_start kind n size =
    codes "<"
    ++ tag_string kind
    ++ codes " ID=\""
    ++ id_text n
    ++ codes "\""
    ++ additional (tags_of size)
    ++ codes ">"

abbrev pub end_of : Kind → List ℕ
end_of kind = codes "</" ++ tag_string kind ++ codes ">"

end_of-append : (kind : Kind) (rest : List ℕ) → end_of kind ++ rest ≡ end_text kind rest
end_of-append kind rest = simp append_assoc refl

plain_start-append :
    (kind : Kind) (size : Option ℕ) (u : List ℕ)
    → plain_start kind size ++ u ≡ start_text kind none size u
plain_start-append kind size u =
    simp append_assoc (ap (λ t. b'<' ∷ (tag_string kind ++ t)) (additional_part size u))

identified_start-append :
    (kind : Kind) (n : ℕ) (size : Option ℕ) (u : List ℕ)
    → identified_start kind n size ++ u ≡ start_text kind (some n) size u
identified_start-append kind n size u = simp append_assoc (
    ap (λ t. b'<' ∷ (tag_string kind ++ (codes " ID=\"" ++ (id_text n ++ b'"' ∷ t))))
      (additional_part size u))

-- Around a text, in front of the rest.
pub wrapped :
    (start t : List ℕ) (kind : Kind) (rest : List ℕ)
    → (start ++ (t ++ end_of kind)) ++ rest ≡ start ++ (t ++ end_text kind rest)
wrapped start t kind rest =
    append_assoc start (t ++ end_of kind) rest
    ∙ ap (λ u. start ++ u) (append_assoc t (end_of kind) rest)
    ∙ ap (λ u. start ++ (t ++ u)) (end_of-append kind rest)

pub plain_text :
    (kind : Kind) (size : Option ℕ) (t rest : List ℕ)
    → (plain_start kind size ++ (t ++ end_of kind)) ++ rest
      ≡ start_text kind none size (t ++ end_text kind rest)
plain_text kind size t rest =
    wrapped (plain_start kind size) t kind rest ∙ plain_start-append kind size _

pub identified_text :
    (kind : Kind) (n : ℕ) (size : Option ℕ) (t rest : List ℕ)
    → (identified_start kind n size ++ (t ++ end_of kind)) ++ rest
      ≡ start_text kind (some n) size (t ++ end_text kind rest)
identified_text kind n size t rest =
    wrapped (identified_start kind n size) t kind rest ∙ identified_start-append kind n size _

-- A reference.
abbrev pub reference_of : Kind → ℕ → List ℕ
reference_of kind n = codes "<" ++ tag_string kind ++ codes " IDREF=\"" ++ id_text n ++ codes "\"/>"

pub reference_of-append :
    (kind : Kind) (n : ℕ) (rest : List ℕ) → reference_of kind n ++ rest ≡ reference_text kind n rest
reference_of-append kind n rest = simp append_assoc refl

pub appended_twice :
    (s start t : List ℕ) (kind : Kind)
    → ((s ++ start) ++ t) ++ end_of kind ≡ s ++ (start ++ (t ++ end_of kind))
appended_twice s start t kind =
    append_assoc (s ++ start) t (end_of kind) ∙ append_assoc s start (t ++ end_of kind)
