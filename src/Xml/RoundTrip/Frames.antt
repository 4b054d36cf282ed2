-- ===== src/Xml/RoundTrip/Frames.antt =====
-- The frame of the functions of IOCFSerialize.c: a reference, or the tags around a body.
use iokit_user.Prelude.{
  ap, [], refl, ◌++◌, ◌≡◌, ◌≢◌, ◌+◌, ◌≤◌, ◌^◌, none, some, Bool, Option, List, ℕ, ◌∙◌, sym, suc,
  inl, append_assoc, append-nil, arith, ◌>>=◌,
}
use iokit_user.Xml.Objects.{Kind, Object}
use iokit_user.Xml.RoundTrip.Leaves.{Reads, remembered, Reads-reference}
use iokit_user.Xml.RoundTrip.Sharing.{
  Agree, Grows, Grows-trans, Agree-smaller, Agree-inside, Grows-identified,
}
use iokit_user.Xml.RoundTrip.Tags.{start_text, end_text}
use iokit_user.Xml.RoundTrip.Tokens.{IsInt}
use iokit_user.Xml.RoundTrip.Writing.{
  tags_of, plain_start, identified_start, end_of, plain_text, identified_text, reference_of,
  reference_of-append, appended_twice,
}
use iokit_user.Xml.Serialize.{
  Entry, seen_once, has_refs, identified, Writer, add_string, previously_serialized, add_start,
  add_start_tag, add_end_tag, serialize_unless, serialize_as,
}
use iokit_user.Xml.Values.{Value, null}
use iokit_user.Xml.View.{view, weight}
use mathlib.Core.Path.{subst}

-- A step of the serialisation succeeds: it appends a text, gives out at most so many numbers, and takes
-- the tags along to others, as the predicate says of the text and these.
pub record Appends {ℓ} (lp64 : Bool) (heap : Kind → ℕ → Object) (count : ℕ) (w : Writer)
    (tags : ℕ → Value) (outcome : Option Writer) (P : List ℕ → (ℕ → Value) → Type ℓ) : Type ℓ where
  pub writer : Writer
  pub text : List ℕ
  pub tags2 : ℕ → Value
  pub succeeds : outcome ≡ some writer
  pub appended : writer.written ≡ w.written ++ text
  pub counts : writer.idref_num_refs ≤ w.idref_num_refs + count
  pub grows : Grows lp64 heap w writer tags tags2
  pub holds : P text tags2

pub Appends_map {ℓ κ} :
    (lp64 : Bool) (heap : Kind → ℕ → Object) {count : ℕ} {w : Writer} {tags : ℕ → Value}
    {outcome : Option Writer} {P : List ℕ → (ℕ → Value) → Type ℓ}
    {Q : List ℕ → (ℕ → Value) → Type κ}
    → ((text : List ℕ) (tags2 : ℕ → Value) → P text tags2 → Q text tags2)
    → Appends lp64 heap count w tags outcome P
    → Appends lp64 heap count w tags outcome Q
Appends_map lp64 heap f r = record {
  writer = r.writer;
  text = r.text;
  tags2 = r.tags2;
  succeeds = r.succeeds;
  appended = r.appended;
  counts = r.counts;
  grows = r.grows;
  holds = f r.text r.tags2 r.holds;
}

-- A text alone.
pub Appends_text {ℓ} :
    (lp64 : Bool) (heap : Kind → ℕ → Object) (count : ℕ) (w : Writer) (tags : ℕ → Value)
    (t : List ℕ) {P : List ℕ → (ℕ → Value) → Type ℓ}
    → P t tags
    → Appends lp64 heap count w tags (some (add_string t w)) P
Appends_text lp64 heap count w tags t h = record {
  writer = add_string t w;
  text = t;
  tags2 = tags;
  succeeds = refl;
  appended = refl;
  counts = omega arith;
  grows = record { more = omega arith; keeps = λ n l. refl; entries = λ k a n e. inl e };
  holds = h;
}

-- Two steps, one behind the other.
pub Appends_then {ℓ κ μ} :
    (lp64 : Bool) (heap : Kind → ℕ → Object) {count count2 total : ℕ} {w : Writer}
    {tags : ℕ → Value} {outcome : Option Writer} (later : Writer → Option Writer)
    {P : List ℕ → (ℕ → Value) → Type ℓ} (Q : List ℕ → (ℕ → Value) → List ℕ → (ℕ → Value) → Type κ)
    {R : List ℕ → (ℕ → Value) → Type μ}
    → count + count2 ≤ total
    → ((t u : List ℕ) (tags1 tags2 : ℕ → Value) → P t tags1 → Q t tags1 u tags2 → R (t ++ u) tags2)
    → (r : Appends lp64 heap count w tags outcome P)
    → Appends lp64 heap count2 r.writer r.tags2 (later r.writer) (Q r.text r.tags2)
    → Appends lp64 heap total w tags (outcome >>= later) R
Appends_then lp64 heap {w} later Q le f r s = record {
  writer = s.writer;
  text = r.text ++ s.text;
  tags2 = s.tags2;
  succeeds = ap (λ o. o >>= later) r.succeeds ∙ s.succeeds;
  appended = s.appended ∙ ap (λ t. t ++ s.text) r.appended ∙ append_assoc w.written r.text s.text;
  counts = omega (arith, r.counts, s.counts);
  grows = Grows-trans lp64 heap r.grows s.grows;
  holds = f r.text s.text r.tags2 s.tags2 r.holds s.holds;
}

-- Steps behind a text.
pub Appends_behind {ℓ} :
    (lp64 : Bool) (heap : Kind → ℕ → Object) {count : ℕ} (w : Writer) {tags : ℕ → Value}
    {outcome : Option Writer} (t : List ℕ) (R : List ℕ → (ℕ → Value) → Type ℓ)
    → Appends lp64 heap count (add_string t w) tags outcome (λ u tags2. R (t ++ u) tags2)
    → Appends lp64 heap count w tags outcome R
Appends_behind lp64 heap w t R r = record {
  writer = r.writer;
  text = t ++ r.text;
  tags2 = r.tags2;
  succeeds = r.succeeds;
  appended = r.appended ∙ append_assoc w.written t r.text;
  counts = r.counts;
  grows = record { more = r.grows.more; keeps = r.grows.keeps; entries = r.grows.entries };
  holds = r.holds;
}

-- Nothing.
pub Appends_none {ℓ} :
    (lp64 : Bool) (heap : Kind → ℕ → Object) (count : ℕ) (w : Writer) (tags : ℕ → Value)
    {P : List ℕ → (ℕ → Value) → Type ℓ}
    → P [] tags
    → Appends lp64 heap count w tags (some w) P
Appends_none lp64 heap count w tags h = record {
  writer = w;
  text = [];
  tags2 = tags;
  succeeds = refl;
  appended = sym (append-nil w.written);
  counts = omega arith;
  grows = record { more = omega arith; keeps = λ n l. refl; entries = λ k a n e. inl e };
  holds = h;
}

pub Reads-more :
    (lp64 : Bool) {need need2 : ℕ} {s rest : List ℕ} {tags tags2 : ℕ → Value} {v : Value}
    → need ≤ need2
    → Reads lp64 need s rest tags tags2 v
    → Reads lp64 need2 s rest tags tags2 v
Reads-more lp64 le reads q states cells n o e starts room =
    reads q states cells n o e starts (omega arith)

-- The text of an object, in front of any other, is read.
abbrev pub ReadsObject : Bool → ℕ → (ℕ → Value) → Value → List ℕ → (ℕ → Value) → Type 0
ReadsObject lp64 need tags v text tags2 =
    (rest : List ℕ) → Reads lp64 need (text ++ rest) rest tags tags2 v

-- The same between the tags.
abbrev pub ReadsInside :
    Bool → ℕ → Kind → Option ℕ → (ℕ → Value) → Value → List ℕ → (ℕ → Value) → Type 0
ReadsInside lp64 need kind size tags v text tags2 =
    (id : Option ℕ) (rest : List ℕ)
    → IsInt id
    → Reads lp64 need (start_text kind id size (text ++ end_text kind rest)) rest tags
        (remembered id v tags2) v

module _ (lp64 : Bool) (heap : Kind → ℕ → Object) (need count : ℕ) (kind : Kind) (address : ℕ)
    (size : Option ℕ) (x : Object) (body : Writer → Option Writer) (at : heap kind address ≡ x)
    (weighs : weight x ≡ suc count) (not_null : view lp64 x ≢ null) (one : 1 ≤ need)
    (inside : (w : Writer) (tags : ℕ → Value)
      → Agree lp64 heap count w tags
      → w.idref_num_refs + count ≤ 2 ^ 31
      → Appends lp64 heap count w tags
          (body w)
          (ReadsInside lp64 need kind size tags (view lp64 x)))
    (w : Writer) (tags : ℕ → Value) (agree : Agree lp64 heap (weight x) w tags)
    (few : w.idref_num_refs + weight x ≤ 2 ^ 31) where
  abbrev Goal : Option Writer → Type 0
  Goal outcome =
      Appends lp64 heap (weight x) w tags outcome (ReadsObject lp64 need tags (view lp64 x))

  -- What is written around the body, from the entry on.
  abbrev around : Option Entry → Option Writer
  around entry = do
    v ← body (add_start kind address (tags_of size) w entry)
    some (add_end_tag kind v)

  -- An object that is met for the first time and has no identity.
  appends_plain :
      (entry : Option Entry)
      → add_start kind address (tags_of size) w entry
        ≡ record w { written = w.written ++ plain_start kind size }
      → Goal (around entry)
  unfolding add_end_tag
  appends_plain entry starts =
      let w1 : Writer = record w { written = w.written ++ plain_start kind size } in
      let r =
        inside w1 tags (Agree-smaller lp64 heap w tags (omega (arith, weighs)) agree)
          (omega (arith, weighs)) in
      record {
        writer = add_end_tag kind r.writer;
        text = plain_start kind size ++ (r.text ++ end_of kind);
        tags2 = r.tags2;
        succeeds =
            ap (λ v. body v >>= λ u. some (add_end_tag kind u)) starts
            ∙ ap (λ o. o >>= λ u. some (add_end_tag kind u)) r.succeeds;
        appended =
            ap (λ s. s ++ end_of kind) r.appended
            ∙ appended_twice w.written (plain_start kind size) r.text kind;
        counts = omega (arith, r.counts, weighs);
        grows = record { more = r.grows.more; keeps = r.grows.keeps; entries = r.grows.entries };
        holds = λ rest.
            subst (λ s. Reads lp64 need s rest tags r.tags2 (view lp64 x))
              (sym (plain_text kind size r.text rest)) (r.holds none rest tt);
      }

  -- An object that is met for the first time and will be met again.
  appends_identified : Goal (around (some has_refs))
  unfolding add_end_tag add_start
  appends_identified =
      let w1 : Writer = add_start kind address (tags_of size) w (some has_refs) in
      let r =
        inside w1 tags
          (Agree-inside lp64 heap x kind address count w w1 tags at (omega (arith, weighs)) refl
            refl (Agree-smaller lp64 heap w tags (omega (arith, weighs)) agree))
          (omega (arith, weighs)) in
      record {
        writer = add_end_tag kind r.writer;
        text = identified_start kind w.idref_num_refs size ++ (r.text ++ end_of kind);
        tags2 = remembered (some w.idref_num_refs) (view lp64 x) r.tags2;
        succeeds = ap (λ o. o >>= λ u. some (add_end_tag kind u)) r.succeeds;
        appended =
            ap (λ s. s ++ end_of kind) r.appended
            ∙ appended_twice w.written (identified_start kind w.idref_num_refs size) r.text kind;
        counts = omega (arith, r.counts, weighs);
        grows =
            Grows-identified lp64 heap x kind address w w1 (add_end_tag kind r.writer) tags r.tags2
              at refl refl
              (record { more = r.grows.more; keeps = r.grows.keeps; entries = r.grows.entries });
        holds = λ rest.
            subst
              (λ s.
                Reads lp64 need s rest tags
                  (remembered (some w.idref_num_refs) (view lp64 x) r.tags2) (view lp64 x))
              (sym (identified_text kind w.idref_num_refs size r.text rest))
              (r.holds (some w.idref_num_refs) rest (omega (arith, few, weighs)));
      }

  -- An object that has been written before.
  appends_reference :
      (m : ℕ)
      → w.id_refs kind address ≡ some (identified m)
      → Goal (some (record w { written = w.written ++ reference_of kind m }))
  appends_reference m e =
      let (less, same) = agree kind address m e (omega (arith, ap weight at)) in
      record {
        writer = record w { written = w.written ++ reference_of kind m };
        text = reference_of kind m;
        tags2 = tags;
        succeeds = refl;
        appended = refl;
        counts = omega arith;
        grows = record { more = omega arith; keeps = λ n l. refl; entries = λ k a n h. inl h };
        holds = λ rest.
            subst (λ s. Reads lp64 need s rest tags tags (view lp64 x))
              (sym (reference_of-append kind m rest))
              (Reads-more lp64 one (
                Reads-reference lp64 kind m (view lp64 x) rest tags
                  (omega (arith, less, few, weighs)) (same ∙ ap (view lp64) at) not_null));
      }

  appends_entry :
      (entry : Option Entry)
      → w.id_refs kind address ≡ entry
      → Goal
          (serialize_unless kind address (tags_of size) body w (previously_serialized kind entry))
  unfolding serialize_unless previously_serialized add_start_tag add_start
  appends_entry none e = subst (λ h. Goal (around h)) (sym e) (appends_plain none refl)
  appends_entry (some seen_once) e =
      subst (λ h. Goal (around h)) (sym e) (appends_plain (some seen_once) refl)
  appends_entry (some has_refs) e = subst (λ h. Goal (around h)) (sym e) appends_identified
  appends_entry (some (identified m)) e = appends_reference m e

  pub appends_as :
      Appends lp64 heap
        (weight x)
        w
        tags
        (serialize_as kind address (tags_of size) body w)
        (ReadsObject lp64 need tags (view lp64 x))
  unfolding serialize_as
  appends_as = appends_entry (w.id_refs kind address) refl
