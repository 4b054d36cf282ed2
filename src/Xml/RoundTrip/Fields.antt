-- ===== src/Xml/RoundTrip/Fields.antt =====
-- The keys and values of dictionaries, read by `yyparse` of IOCFUnserialize.tab.c.
use iokit_user.Prelude.{
  ap, [], refl, ◌∷◌, ◌++◌, ◌≡◌, ◌≢◌, ◌+◌, ◌≤◌, none, true, Bool, inr, Option, List, ℕ, length,
  arith, All, codes,
}
use iokit_user.Xml.Build.{
  goes_on, perform, reverse_onto, pairs_of, built, build_string, remember_object,
}
use iokit_user.Xml.Lexer.{Token}
use iokit_user.Xml.RoundTrip.Containers.{ReadsBody}
use iokit_user.Xml.RoundTrip.Routes.{made_dictionary}
use iokit_user.Xml.RoundTrip.Leaves.{parser, Reads}
use iokit_user.Xml.RoundTrip.Moves.{Starts, Steps, no-Steps, ◌then◌, machine, reduction, shifting}
use iokit_user.Xml.RoundTrip.Texts.{yylex_key}
use iokit_user.Xml.RoundTrip.Tokens.{headed}
use iokit_user.Xml.Tables.{
  symbol, rule_length, shift, needs_token, default_move, table_move, token_move, goto_state, plus,
}
use iokit_user.Xml.Text.{add_escaped}
use iokit_user.Xml.Text.RoundTrip.{line_ends}
use iokit_user.Xml.Unserialize.{running}
use iokit_user.Xml.Values.{
  Cell, Link, Value, Pairs, string_value, dictionary_value, no_pairs, pair, links,
}

-- A key with its tags, and what follows it.
abbrev pub key_text : List ℕ → List ℕ → List ℕ
key_text key rest = codes "<key>" ++ (add_escaped [] key ++ (codes "</key>" ++ rest))

-- The links are those of these pairs in front of others, the last one first.
abbrev pub ListsPairs : List Link → (Pairs → Pairs) → Type 0
ListsPairs ls f = (done : List Link) → pairs_of (reverse_onto done ls) ≡ f (pairs_of done)

ListsPairs-more :
    (k v : Value) (ls : List Link) (f : Pairs → Pairs)
    → ListsPairs ls f
    → ListsPairs ((k, v) ∷ ls) (λ d. f (pair k v d))
unfolding reverse_onto pairs_of
ListsPairs-more k v ls f h done = h ((k, v) ∷ done)

ListsPairs-nil : ListsPairs [] (λ d. d)
unfolding reverse_onto
ListsPairs-nil done = refl

ListsPairs-end :
    (ls : List Link) (f : Pairs → Pairs)
    → ListsPairs ls f
    → pairs_of (reverse_onto [] ls) ≡ f no_pairs
unfolding pairs_of
ListsPairs-end ls f h = h []

-- Behind pairs, the parser goes over the text of more.
abbrev pub ReadsPairs : Bool → ℕ → List ℕ → List ℕ → (ℕ → Value) → (ℕ → Value) → Pairs → Type 0
ReadsPairs lp64 need s rest tags tags2 ps =
    (states : List ℕ) (cells : List Cell) (chain : Cell) (f : Pairs → Pairs) (n : ℕ) (o : Value)
    (e : Option (List ℕ × ℕ))
    → ListsPairs (links chain) f
    → length (25 ∷ 10 ∷ states) + need ≤ 9999
    → (n2 : ℕ) × (chain2 : Cell) × (pairs_of (reverse_onto [] (links chain2)) ≡ f ps)
      × Steps lp64 (running (machine (25 ∷ 10 ∷ states) (chain ∷ cells) (parser s n tags o e)))
          (running (machine (25 ∷ 10 ∷ states) (chain2 ∷ cells) (parser rest n2 tags2 o e)))

pub ReadsPairs-nil :
    (lp64 : Bool) (need : ℕ) (s : List ℕ) (tags : ℕ → Value)
    → ReadsPairs lp64 need s s tags tags no_pairs
ReadsPairs-nil lp64 need s tags states cells chain f n o e h room =
    (n, chain, ListsPairs-end (links chain) f h, no-Steps lp64 _)

starts_value : Starts 27
starts_value = Starts.behind_key

-- The states in which a key may stand: behind the start tag, and behind pairs.
data IsBefore : ℕ → Type 0 where
  before_first : IsBefore 10
  before_next : IsBefore 25

key_moves :
    {q : ℕ}
    → IsBefore q
    → (needs_token q ≡ true) × (token_move q 8 ≡ shift 23) × (goto_state 19 q ≡ 27)
unfolding needs_token token_move table_move goto_state plus
key_moves before_first = (refl, refl, refl)
key_moves before_next = (refl, refl, refl)

-- The cell of a key that has been read, and that of a pair.
abbrev key_cell : List ℕ → Cell
key_cell key = record (headed none) { object = string_value key }

abbrev pair_cell : List ℕ → Value → Cell
pair_cell key v = record (headed none) { key = string_value key; object = v }

read_key :
    {q : ℕ} (lp64 : Bool) (key rest : List ℕ) (states : List ℕ) (cells : List Cell) (n : ℕ)
    (tags : ℕ → Value) (o : Value) (e : Option (List ℕ × ℕ))
    → IsBefore q
    → All (λ c. c ≢ 0) key
    → length (q ∷ states) + 1 ≤ 9999
    → Steps lp64 (running (machine (q ∷ states) cells (parser (key_text key rest) n tags o e))) (
        running (
          machine
            (27 ∷ q ∷ states)
            (key_cell key ∷ cells)
            (parser rest (n + line_ends (add_escaped [] key)) tags o e)))
unfolding needs_token default_move rule_length perform build_string built symbol remember_object
read_key {q} lp64 key rest states cells n tags o e before no_nul room =
    let (looks, moves, goes) = key_moves before in
    shifting lp64 q 23 states cells _ Token.key_token (record (headed none) { text = key }) _
      (yylex_key lp64 key rest n no_nul) looks moves refl (omega arith)
    then reduction lp64 23 19 q 27 (q ∷ states) states (record (headed none) { text = key } ∷ cells)
        cells _ _ _ refl refl refl refl refl goes (omega arith)

module _ (lp64 : Bool) (need : ℕ) (key : List ℕ) (s mid rest : List ℕ)
    (tags tags1 tags2 : ℕ → Value) (v : Value) (ps : Pairs) (no_nul : All (λ c. c ≢ 0) key)
    (first : Reads lp64 need s mid tags tags1 v)
    (others : ReadsPairs lp64 (need + 1) mid rest tags1 tags2 ps) where
  -- A key and its value, up to the state of a pair.
  read_pair :
      (q to : ℕ) (states : List ℕ) (cells : List Cell) (n : ℕ) (o : Value) (e : Option (List ℕ × ℕ))
      → IsBefore q
      → goto_state 18 q ≡ to
      → length (27 ∷ q ∷ states) + need ≤ 9999
      → 1 ≤ need
      → (n2 : ℕ) × Steps lp64
          (running (machine (q ∷ states) cells (parser (key_text key s) n tags o e)))
          (running (machine (to ∷ q ∷ states) (pair_cell key v ∷ cells) (parser mid n2 tags1 o e)))
  unfolding needs_token default_move rule_length perform goto_state plus
  read_pair q to states cells n o e before goes room one =
      let (cell, n1, same, steps) =
        first 27 (q ∷ states) (key_cell key ∷ cells) (n + line_ends (add_escaped [] key)) o e
          starts_value room in
      (
        n1,
        read_key lp64 key s states cells n tags o e before no_nul (omega arith)
            then steps
            then reduction lp64 36 18 q to (27 ∷ q ∷ states) states (cell ∷ key_cell key ∷ cells)
                cells _ (parser mid n1 tags1 o e) (pair_cell key v) refl refl
                (λ i. goes_on (pair_cell key (same i)) (parser mid n1 tags1 o e)) refl refl goes
                (omega arith),
      )

  pub ReadsPairs-cons :
      1 ≤ need
      → ReadsPairs lp64 (need + 1) (key_text key s) rest tags tags2 (pair (string_value key) v ps)
  unfolding needs_token default_move rule_length perform goto_state plus
  ReadsPairs-cons one states cells chain f n o e h room =
      let (n1, steps) =
        read_pair 25 35 (10 ∷ states) (chain ∷ cells) n o e before_next refl (omega arith) one in
      let linked : Cell = record (pair_cell key v) { next = links chain } in
      let (n2, chain2, all, more) =
        others states cells linked (λ d. f (pair (string_value key) v d)) n1 o e
          (ListsPairs-more (string_value key) v (links chain) f h) room in
      (
        n2,
        chain2,
        all,
        steps
            then reduction lp64 35 17 10 25 (25 ∷ 10 ∷ states) states
                (pair_cell key v ∷ chain ∷ cells) cells _ (parser mid n1 tags1 o e) linked refl refl
                refl refl refl refl (omega arith)
            then more,
      )

  pub ReadsBody-pairs :
      1 ≤ need
      → ReadsBody lp64
          (need + 2)
          10
          25
          made_dictionary
          (key_text key s)
          rest
          tags
          tags2
          (dictionary_value (pair (string_value key) v ps))
  unfolding needs_token default_move rule_length perform goto_state plus
  ReadsBody-pairs one states cells n o e room =
      let (n1, steps) = read_pair 10 26 states cells n o e before_first refl (omega arith) one in
      let (n2, chain2, all, more) =
        others states cells (pair_cell key v) (λ d. pair (string_value key) v d) n1 o e
          (ListsPairs-more (string_value key) v [] (λ d. d) ListsPairs-nil) (omega arith) in
      (
        n2,
        inr (
          chain2,
          ap dictionary_value all,
          steps
              then reduction lp64 26 16 10 25 (10 ∷ states) states (pair_cell key v ∷ cells) cells _
                  (parser mid n1 tags1 o e) (pair_cell key v) refl refl refl refl refl refl
                  (omega arith)
              then more,
        ),
      )
