-- ===== src/Xml/RoundTrip/Elements.antt =====
-- The elements of arrays and sets, read by `yyparse` of IOCFUnserialize.tab.c.
use iokit_user.Prelude.{
  ap, [], refl, ◌∷◌, ◌≡◌, ◌+◌, ◌≤◌, Bool, inl, inr, Option, List, ℕ, ◌∙◌, length, arith,
}
use iokit_user.Xml.Build.{perform, reverse_onto, values_of}
use iokit_user.Xml.RoundTrip.Containers.{ReadsBody}
use iokit_user.Xml.RoundTrip.Leaves.{parser, Reads}
use iokit_user.Xml.RoundTrip.Moves.{Starts, Steps, no-Steps, ◌then◌, machine, reduction}
use iokit_user.Xml.Tables.{rule_length, needs_token, default_move, goto_state, plus}
use iokit_user.Xml.Unserialize.{running}
use iokit_user.Xml.Values.{Cell, Link, Value, Values, no_values, value, links}
use mathlib.Core.Path.{subst}

-- The states behind the start tag and behind elements, in an array and in a set.
pub data IsSequence : ℕ → ℕ → Type 0 where
  in_array : IsSequence 11 30
  in_set : IsSequence 12 32

starts_open : {op el : ℕ} → IsSequence op el → Starts op
starts_open in_array = Starts.in_array
starts_open in_set = Starts.in_set

starts_elements : {op el : ℕ} → IsSequence op el → Starts el
starts_elements in_array = Starts.behind_array_elements
starts_elements in_set = Starts.behind_set_elements

goto_first : {op el : ℕ} → IsSequence op el → (goto_state 5 op ≡ 29) × (goto_state 26 op ≡ el)
unfolding goto_state plus
goto_first in_array = (refl, refl)
goto_first in_set = (refl, refl)

goto_next : {op el : ℕ} → IsSequence op el → (goto_state 5 el ≡ 38) × (goto_state 27 op ≡ el)
unfolding goto_state plus
goto_next in_array = (refl, refl)
goto_next in_set = (refl, refl)

-- The links are those of these values in front of others, the last one first.
abbrev pub Lists : List Link → (Values → Values) → Type 0
Lists ls f = (done : List Link) → values_of (reverse_onto done ls) ≡ f (values_of done)

Lists-more :
    (k v : Value) (ls : List Link) (f : Values → Values)
    → Lists ls f
    → Lists ((k, v) ∷ ls) (λ d. f (value v d))
unfolding reverse_onto values_of
Lists-more k v ls f h done = h ((k, v) ∷ done)

Lists-nil : Lists [] (λ d. d)
unfolding reverse_onto
Lists-nil done = refl

Lists-end :
    (ls : List Link) (f : Values → Values)
    → Lists ls f
    → values_of (reverse_onto [] ls) ≡ f no_values
unfolding values_of
Lists-end ls f h = h []

-- Behind elements, the parser goes over the text of more.
abbrev pub ReadsMore :
    Bool → ℕ → ℕ → ℕ → List ℕ → List ℕ → (ℕ → Value) → (ℕ → Value) → Values → Type 0
ReadsMore lp64 need op el s rest tags tags2 vs =
    (states : List ℕ) (cells : List Cell) (chain : Cell) (f : Values → Values) (n : ℕ) (o : Value)
    (e : Option (List ℕ × ℕ))
    → Lists (links chain) f
    → length (el ∷ op ∷ states) + need ≤ 9999
    → (n2 : ℕ) × (chain2 : Cell) × (values_of (reverse_onto [] (links chain2)) ≡ f vs)
      × Steps lp64 (running (machine (el ∷ op ∷ states) (chain ∷ cells) (parser s n tags o e)))
          (running (machine (el ∷ op ∷ states) (chain2 ∷ cells) (parser rest n2 tags2 o e)))

pub ReadsMore-nil :
    (lp64 : Bool) (need op el : ℕ) (s : List ℕ) (tags : ℕ → Value)
    → ReadsMore lp64 need op el s s tags tags no_values
ReadsMore-nil lp64 need op el s tags states cells chain f n o e h room =
    (n, chain, Lists-end (links chain) f h, no-Steps lp64 _)

module _ (lp64 : Bool) {op el : ℕ} (seq : IsSequence op el) (need : ℕ) (s mid rest : List ℕ)
    (tags tags1 tags2 : ℕ → Value) (v : Value) (vs : Values)
    (first : Reads lp64 need s mid tags tags1 v)
    (others : ReadsMore lp64 need op el mid rest tags1 tags2 vs) where
  pub ReadsMore-cons : ReadsMore lp64 need op el s rest tags tags2 (value v vs)
  unfolding needs_token default_move rule_length perform
  ReadsMore-cons states cells chain f n o e h room =
      let (cell, n1, same, steps) =
        first el (op ∷ states) (chain ∷ cells) n o e (starts_elements seq) room in
      let linked : Cell = record cell { next = links chain } in
      let listed : Lists (links linked) (λ d. f (value v d)) =
        subst (λ w. Lists (links linked) (λ d. f (value w d))) same
          (Lists-more cell.key cell.object (links chain) f h) in
      let (n2, chain2, all, more) =
        others states cells linked (λ d. f (value v d)) n1 o e listed room in
      (n2, chain2, all, steps then reduced cell chain n1 then more)
    where
      reduced :
          (cell chain : Cell) (n1 : ℕ)
          → Steps lp64
              (running (
                machine
                  (goto_state 5 el ∷ el ∷ op ∷ states)
                  (cell ∷ chain ∷ cells)
                  (parser mid n1 tags1 o e)))
              (running (
                machine
                  (el ∷ op ∷ states)
                  (record cell { next = links chain } ∷ cells)
                  (parser mid n1 tags1 o e)))
      reduced cell chain n1 = rw ((goto_next seq).0) (
          reduction lp64 38 27 op el (el ∷ op ∷ states) states (cell ∷ chain ∷ cells) cells _ _ _
            refl refl refl refl refl ((goto_next seq).1) (omega arith))

  -- The elements behind a start tag.
  pub ReadsBody-cons :
      (make : List Link → Value) (whole : Values → Value)
      → ((ls : List Link) → make ls ≡ whole (values_of (reverse_onto [] ls)))
      → ReadsBody lp64 (need + 1) op el make s rest tags tags2 (whole (value v vs))
  unfolding needs_token default_move rule_length perform
  ReadsBody-cons make whole makes states cells n o e room =
      let (cell, n1, same, steps) = first op states cells n o e (starts_open seq) (omega arith) in
      let linked : Cell = record cell { next = [] } in
      let listed : Lists (links linked) (λ d. value v d) =
        subst (λ w. Lists (links linked) (λ d. value w d)) same
          (Lists-more cell.key cell.object [] (λ d. d) Lists-nil) in
      let (n2, chain2, all, more) =
        others states cells linked (λ d. value v d) n1 o e listed (omega arith) in
      (n2, inr (chain2, makes (links chain2) ∙ ap whole all, steps then reduced cell n1 then more))
    where
      reduced :
          (cell : Cell) (n1 : ℕ)
          → Steps lp64
              (running
                (machine (goto_state 5 op ∷ op ∷ states) (cell ∷ cells) (parser mid n1 tags1 o e)))
              (running (
                machine
                  (el ∷ op ∷ states)
                  (record cell { next = [] } ∷ cells)
                  (parser mid n1 tags1 o e)))
      reduced cell n1 = rw ((goto_first seq).0) (
          reduction lp64 29 26 op el (op ∷ states) states (cell ∷ cells) cells _ _ _ refl refl refl
            refl refl ((goto_first seq).1) (omega arith))

pub ReadsBody-nil :
    (lp64 : Bool) (need op el : ℕ) (s : List ℕ) (tags : ℕ → Value) (make : List Link → Value)
    (v : Value)
    → make [] ≡ v
    → ReadsBody lp64 need op el make s s tags tags v
ReadsBody-nil lp64 need op el s tags make v h states cells n o e room =
    (n, inl (h, no-Steps lp64 _))
