-- ===== src/Xml/RoundTrip/Containers.antt =====
-- Containers, read by `yyparse` of IOCFUnserialize.tab.c: from the start tag to the end tag, around what
-- reads the elements.
use iokit_user.Prelude.{
  ap, [], refl, ◌∷◌, ◌≡◌, ◌+◌, ◌≤◌, ◌⊎◌, none, Bool, inl, inr, Option, List, ℕ, ◌∙◌, length, drop,
  arith,
}
use iokit_user.Xml.Build.{goes_on, remember_object}
use iokit_user.Xml.Objects.{Kind}
use iokit_user.Xml.RoundTrip.Leaves.{parser, Reads, remembered, remember_object-parser}
use iokit_user.Xml.RoundTrip.Moves.{
  Starts, needs_token-Starts, Steps, ◌then◌, machine, reduction, shifting,
}
use iokit_user.Xml.RoundTrip.Tags.{start_text, end_text}
use iokit_user.Xml.RoundTrip.Tokens.{
  IsInt, headed, idref_of, opening, closing, yylex-opening, yylex-closing,
}
use iokit_user.Xml.Tables.{goto_state}
use iokit_user.Xml.Unserialize.{running}
use iokit_user.Xml.Values.{Cell, Link, Value, links}
use iokit_user.Xml.RoundTrip.Routes.{Route}

-- Behind a start tag, the parser goes over the text of the elements: it stays in the state if there are
-- none, and has a list of them on top otherwise; what is made of them is the value.
abbrev pub ReadsBody :
    Bool
    → ℕ
    → ℕ
    → ℕ
    → (List Link → Value)
    → List ℕ
    → List ℕ
    → (ℕ → Value)
    → (ℕ → Value)
    → Value
    → Type 0
ReadsBody lp64 need op elements make s rest tags tags2 v =
    (states : List ℕ) (cells : List Cell) (n : ℕ) (o : Value) (e : Option (List ℕ × ℕ))
    → length (op ∷ states) + need ≤ 9999
    → (n2 : ℕ) × (((make [] ≡ v)
          × Steps lp64 (running (machine (op ∷ states) cells (parser s n tags o e)))
              (running (machine (op ∷ states) cells (parser rest n2 tags2 o e))))
        ⊎ ((chain : Cell) × (make (links chain) ≡ v)
            × Steps lp64 (running (machine (op ∷ states) cells (parser s n tags o e))) (
                running
                  (machine (elements ∷ op ∷ states) (chain ∷ cells) (parser rest n2 tags2 o e)))))

module _ (lp64 : Bool) {kind : Kind} {op elements : ℕ} {make : List Link → Value}
    (r : Route kind op elements make) where
  -- From the state of the container's symbol on.
  build_step :
      (q : ℕ) (states : List ℕ) (cells : List Cell) (id : Option ℕ) (header : Cell) (v : Value)
      (s : List ℕ) (n : ℕ) (tags : ℕ → Value) (o : Value) (e : Option (List ℕ × ℕ))
      → length (q ∷ states) ≤ 9998
      → header.idref ≡ idref_of id
      → make header.elements ≡ v
      → Steps lp64
          (running (machine (r.symbol_state ∷ q ∷ states) (header ∷ cells) (parser s n tags o e)))
          (running (
            machine
              (goto_state 5 q ∷ q ∷ states)
              (record header { elements = []; object = make header.elements } ∷ cells)
              (parser s n (remembered id v tags) o e)))
  build_step q states cells id header v s n tags o e room same_id same =
      let (a, b, c) = r.reduces_build in
      reduction lp64 r.symbol_state r.rule_build q (goto_state 5 q) (q ∷ states) states
        (header ∷ cells) cells _ _ _ a b
        (r.builds header cells _
          ∙ (λ i.
              goes_on (record header { elements = []; object = make header.elements })
                (remember_object (same_id i) (same i) (parser s n tags o e)))
          ∙ ap (goes_on (record header { elements = []; object = make header.elements }))
              (remember_object-parser id v s n tags o e))
        (ap (λ k. drop k (r.symbol_state ∷ q ∷ states)) c) (ap (λ k. drop k (header ∷ cells)) c)
        (r.goes_build q) room

  -- From the end tag behind elements on, and from the end tag behind none.
  close_full :
      (q : ℕ) (states : List ℕ) (cells : List Cell) (id : Option ℕ) (chain : Cell) (v : Value)
      (rest : List ℕ) (n : ℕ) (tags : ℕ → Value) (o : Value) (e : Option (List ℕ × ℕ))
      → Starts q
      → length (q ∷ states) + 3 ≤ 9999
      → make (links chain) ≡ v
      → Steps lp64
          (running (
            machine
              (elements ∷ op ∷ q ∷ states)
              (chain ∷ headed id ∷ cells)
              (parser (end_text kind rest) n tags o e)))
          (running (
            machine
              (goto_state 5 q ∷ q ∷ states)
              (record (headed id) { elements = []; object = make (links chain) } ∷ cells)
              (parser rest n (remembered id v tags) o e)))
  close_full q states cells id chain v rest n tags o e starts room same =
      let (a, b, c) = r.reduces_full in
      let stack = chain ∷ headed id ∷ cells in
      shifting lp64 elements r.full (op ∷ q ∷ states) stack _ (closing kind) _ _
        (yylex-closing lp64 rest n r.container) (r.looks.1) r.closes (r.tokens.1) (omega arith)
      then reduction lp64 r.full r.rule_full q r.symbol_state (elements ∷ op ∷ q ∷ states) states
          (headed none ∷ stack) cells _ _ _ a b (r.takes (headed none) chain (headed id) cells _)
          (ap (λ k. drop k (r.full ∷ elements ∷ op ∷ q ∷ states)) c)
          (ap (λ k. drop k (headed none ∷ stack)) c) (r.goes_full q starts) (omega arith)
      then build_step q states cells id (record (headed id) { elements = links chain }) v rest n
          tags o e (omega arith) refl same

  close_empty :
      (q : ℕ) (states : List ℕ) (cells : List Cell) (id : Option ℕ) (v : Value) (rest : List ℕ)
      (n : ℕ) (tags : ℕ → Value) (o : Value) (e : Option (List ℕ × ℕ))
      → Starts q
      → length (q ∷ states) + 3 ≤ 9999
      → make [] ≡ v
      → Steps lp64
          (running (
            machine (op ∷ q ∷ states) (headed id ∷ cells) (parser (end_text kind rest) n tags o e)))
          (running (
            machine
              (goto_state 5 q ∷ q ∷ states)
              (record (headed id) { elements = []; object = make [] } ∷ cells)
              (parser rest n (remembered id v tags) o e)))
  close_empty q states cells id v rest n tags o e starts room same =
      let (a, b, c) = r.reduces_empty in
      let stack = headed id ∷ cells in
      shifting lp64 op r.empty (q ∷ states) stack _ (closing kind) _ _
        (yylex-closing lp64 rest n r.container) (r.looks.0) r.closes_empty (r.tokens.1)
        (omega arith)
      then reduction lp64 r.empty r.rule_empty q r.symbol_state (op ∷ q ∷ states) states
          (headed none ∷ stack) cells _ _ _ a b (r.takes_none (headed none) (headed id) cells _)
          (ap (λ k. drop k (r.empty ∷ op ∷ q ∷ states)) c)
          (ap (λ k. drop k (headed none ∷ stack)) c) (r.goes_empty q starts) (omega arith)
      then build_step q states cells id (record (headed id) { elements = [] }) v rest n tags o e
          (omega arith) refl same

  -- A container is read if its elements are; it is remembered behind them.
  pub Reads-container :
      (need : ℕ) (id : Option ℕ) (s rest : List ℕ) (tags tags2 : ℕ → Value) (v : Value)
      → IsInt id
      → 2 ≤ need
      → ReadsBody lp64 need op elements make s (end_text kind rest) tags tags2 v
      → Reads lp64 (need + 1) (start_text kind id none s) rest tags (remembered id v tags2) v
  Reads-container need id s rest tags tags2 v h two body q states cells n o e starts room =
      finish (body (q ∷ states) (headed id ∷ cells) n o e (omega arith))
    where
      opened :
          Steps lp64
            (running (machine (q ∷ states) cells (parser (start_text kind id none s) n tags o e)))
            (running (machine (op ∷ q ∷ states) (headed id ∷ cells) (parser s n tags o e)))
      opened =
          shifting lp64 q op states cells _ (opening kind) _ _
            (yylex-opening lp64 id s n r.container h) (needs_token-Starts q starts)
            (r.opens q starts) (r.tokens.0) (omega arith)

      finish :
          (n2 : ℕ) × (((make [] ≡ v)
                × Steps lp64
                    (running (machine (op ∷ q ∷ states) (headed id ∷ cells) (parser s n tags o e)))
                    (running (
                      machine
                        (op ∷ q ∷ states)
                        (headed id ∷ cells)
                        (parser (end_text kind rest) n2 tags2 o e))))
              ⊎ ((chain : Cell) × (make (links chain) ≡ v)
                  × Steps lp64
                      (running
                        (machine (op ∷ q ∷ states) (headed id ∷ cells) (parser s n tags o e)))
                      (running (
                        machine
                          (elements ∷ op ∷ q ∷ states)
                          (chain ∷ headed id ∷ cells)
                          (parser (end_text kind rest) n2 tags2 o e)))))
          → (cell : Cell) × (n2 : ℕ) × (cell.object ≡ v)
            × Steps lp64
                (running
                  (machine (q ∷ states) cells (parser (start_text kind id none s) n tags o e)))
                (running (
                  machine
                    (goto_state 5 q ∷ q ∷ states)
                    (cell ∷ cells)
                    (parser rest n2 (remembered id v tags2) o e)))
      finish (n2, inl (same, steps)) = (
        record (headed id) { elements = []; object = make [] },
        n2,
        same,
        opened
            then steps
            then close_empty q states cells id v rest n2 tags2 o e starts (omega arith) same,
      )
      finish (n2, inr (chain, same, steps)) = (
        record (headed id) { elements = []; object = make (links chain) },
        n2,
        same,
        opened
            then steps
            then close_full q states cells id chain v rest n2 tags2 o e starts (omega arith) same,
      )
