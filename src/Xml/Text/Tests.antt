-- ===== src/Xml/Text/Tests.antt =====
-- Runs of the scanner of strings of IOCFUnserialize.tab.c, and the theorem at one.
use iokit_user.Prelude.{
  ◌&&◌, ◌==◌, not, true, Bool, ◌+◌, some, refl, none, ◌∷◌, arith, ◌++◌, ◌≢◌, ◌≡◌, codes, List, [],
  All, ℕ,
}
use iokit_user.Xml.Text.{escape_char, add_escaped, find_end, entity, next_of, unescape, get_string}
use iokit_user.Xml.Text.RoundTrip.{line_ends, get_string-add_escaped}

abbrev bytes : List ℕ
bytes = codes "a<b & c>d"

abbrev without_nul : List ℕ → Bool
without_nul [] = true
without_nul (c ∷ s) = not (c == 0) && without_nul s

no_nul_lem : (s : List ℕ) → without_nul s ≡ true → All (λ c. c ≢ 0) s
no_nul_lem [] h = tt
no_nul_lem (c ∷ s) h = (λ e. ground arith, no_nul_lem s (ground arith))

no_nul : All (λ c. c ≢ 0) bytes
no_nul = no_nul_lem bytes refl

written : add_escaped [] bytes ≡ codes "a&lt;b &amp; c&gt;d"
unfolding add_escaped escape_char
written = refl

cut_short : (get_string (record { rest = codes "a&l</string>"; line_number = 1 })).0 ≡ none
unfolding get_string find_end unescape next_of entity
cut_short = refl

get_string-add_escaped_example :
    get_string (record { rest = add_escaped [] bytes ++ b'<' ∷ codes "/string>"; line_number = 3 })
    ≡ (
      some bytes,
      record { rest = b'<' ∷ codes "/string>"; line_number = 3 + line_ends (add_escaped [] bytes) },
    )
get_string-add_escaped_example = get_string-add_escaped bytes (codes "/string>") 3 no_nul
