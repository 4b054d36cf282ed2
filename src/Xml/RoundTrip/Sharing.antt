-- ===== src/Xml/RoundTrip/Sharing.antt =====
-- The identities of IOCFSerialize.c and the tags of IOCFUnserialize.tab.c, side by side.
use iokit_user.Prelude.{
  ap, refl, ◌≡◌, ◌≢◌, ◌+◌, ◌<◌, ◌≤◌, ◌==◌, ◌⊎◌, ◌∙◌, sym, some, inl, inr, true, false, Bool, ==_iff,
  Option, ℕ, arith,
}
use iokit_user.Xml.Build.{set_tag}
use iokit_user.Xml.Objects.{Kind, Object}
use iokit_user.Xml.Serialize.{Entry, identified, IdRefs, Writer, Kind-discrete, entry_at, set_entry}
use iokit_user.Xml.Values.{Value}
use iokit_user.Xml.View.{view, weight}

-- Every identified object of at most some weight is remembered with its value.
abbrev pub Agree : Bool → (Kind → ℕ → Object) → ℕ → Writer → (ℕ → Value) → Type 0
Agree lp64 heap bound w tags =
    (k : Kind) (a n : ℕ)
    → w.id_refs k a ≡ some (identified n)
    → weight (heap k a) ≤ bound
    → (n < w.idref_num_refs) × (tags n ≡ view lp64 (heap k a))

-- From one point to a later one: numbers are only given out, what was remembered stays, and an object
-- that is identified since then is remembered.
pub record Grows (lp64 : Bool) (heap : Kind → ℕ → Object) (w w2 : Writer) (tags tags2 : ℕ → Value)
    : Type 0 where
  pub more : w.idref_num_refs ≤ w2.idref_num_refs
  pub keeps : (n : ℕ) → n < w.idref_num_refs → tags2 n ≡ tags n
  pub entries :
      (k : Kind) (a n : ℕ)
      → w2.id_refs k a ≡ some (identified n)
      → (w.id_refs k a ≡ some (identified n))
        ⊎ ((w.idref_num_refs ≤ n) × (n < w2.idref_num_refs) × (tags2 n ≡ view lp64 (heap k a)))

module _ (lp64 : Bool) (heap : Kind → ℕ → Object) where
  pub Agree-smaller :
      {bound bound2 : ℕ} (w : Writer) (tags : ℕ → Value)
      → bound2 ≤ bound
      → Agree lp64 heap bound w tags
      → Agree lp64 heap bound2 w tags
  Agree-smaller w tags le h k a n e small = h k a n e (omega arith)

  pub Grows-refl : (w : Writer) (tags : ℕ → Value) → Grows lp64 heap w w tags tags
  Grows-refl w tags = record { more = omega arith; keeps = λ n h. refl; entries = λ k a n e. inl e }

  pub Grows-trans :
      {w w2 w3 : Writer} {tags tags2 tags3 : ℕ → Value}
      → Grows lp64 heap w w2 tags tags2
      → Grows lp64 heap w2 w3 tags2 tags3
      → Grows lp64 heap w w3 tags tags3
  Grows-trans g h = record {
    more = omega (arith, g.more, h.more);
    keeps = λ n l. h.keeps n (omega (arith, g.more)) ∙ g.keeps n l;
    entries = λ k a n e. elim (h.entries k a n e) [
      | inl old ↦ elim (g.entries k a n old) [
        | inl older ↦ inl older
        | inr (l, u, same) ↦ inr (l, omega (arith, h.more), h.keeps n u ∙ same)
      ]
      | inr (l, u, same) ↦ inr (omega (arith, g.more), u, same)
    ];
  }

  pub Agree-Grows :
      {bound : ℕ} (w w2 : Writer) (tags tags2 : ℕ → Value)
      → Agree lp64 heap bound w tags
      → Grows lp64 heap w w2 tags tags2
      → Agree lp64 heap bound w2 tags2
  Agree-Grows w w2 tags tags2 h g k a n e small = elim (g.entries k a n e) [
    | inl old ↦ let (l, same) = h k a n old small in (omega (arith, g.more), g.keeps n l ∙ same)
    | inr (l, u, same) ↦ (u, same)
  ]

  entry_at-cases :
      {kind k : Kind} (d : Dec (k ≡ kind)) (b : Bool) (m n : ℕ) (old : Option Entry)
      → entry_at d b (some (identified m)) old ≡ some (identified n)
      → (old ≡ some (identified n)) ⊎ ((k ≡ kind) × (b ≡ true) × (m ≡ n))
  entry_at-cases (yes p) true m n old e = inr (p, refl, cc)
  entry_at-cases (yes p) false m n old e = inl e
  entry_at-cases (no p) true m n old e = inl e
  entry_at-cases (no p) false m n old e = inl e

  set_entry-cases :
      (refs : IdRefs) (kind : Kind) (address m : ℕ) (k : Kind) (a n : ℕ)
      → set_entry refs kind address (identified m) k a ≡ some (identified n)
      → (refs k a ≡ some (identified n)) ⊎ ((k ≡ kind) × ((a == address) ≡ true) × (m ≡ n))
  unfolding set_entry
  set_entry-cases refs kind address m k a n e =
      entry_at-cases (Kind-discrete k kind) (a == address) m n (refs k a) e

  set_tag_same : (tags : ℕ → Value) (m : ℕ) (v : Value) → set_tag tags m v m ≡ v
  unfolding set_tag
  set_tag_same tags m v = let same : (m == m) ≡ true = (==_iff m m).1 refl in rw same refl

  set_tag_other : (tags : ℕ → Value) (m n : ℕ) (v : Value) → n ≢ m → set_tag tags m v n ≡ tags n
  unfolding set_tag
  set_tag_other tags m n v h = let other : (n == m) ≡ false = ground (arith, h) in rw other refl

  -- Inside of an object that has just been identified.
  pub Agree-inside :
      (x : Object) (kind : Kind) (address bound : ℕ) (w w1 : Writer) (tags : ℕ → Value)
      → heap kind address ≡ x
      → bound < weight x
      → w1.idref_num_refs ≡ w.idref_num_refs + 1
      → w1.id_refs ≡ set_entry w.id_refs kind address (identified w.idref_num_refs)
      → Agree lp64 heap bound w tags
      → Agree lp64 heap bound w1 tags
  Agree-inside x kind address bound w w1 tags at less next refs h k a n e small =
      elim (set_entry-cases w.id_refs kind address w.idref_num_refs k a n
        ((λ i. sym refs i k a) ∙ e)) [
          | inl old ↦ let (l, same) = h k a n old small in (omega (arith, next), same)
          | inr (p, q, r) ↦ absurd (omega (arith, small, less, weigh p ((==_iff a address).0 q)))
        ]
    where
      weigh : k ≡ kind → a ≡ address → weight (heap k a) ≡ weight x
      weigh p q = (λ i. weight (heap (p i) (q i))) ∙ ap weight at

  -- Around an object that has been identified, from the growth inside of it.
  pub Grows-identified :
      (x : Object) (kind : Kind) (address : ℕ) (w w1 w2 : Writer) (tags tags2 : ℕ → Value)
      → heap kind address ≡ x
      → w1.idref_num_refs ≡ w.idref_num_refs + 1
      → w1.id_refs ≡ set_entry w.id_refs kind address (identified w.idref_num_refs)
      → Grows lp64 heap w1 w2 tags tags2
      → Grows lp64 heap w w2 tags (set_tag tags2 w.idref_num_refs (view lp64 x))
  Grows-identified x kind address w w1 w2 tags tags2 at next refs g = record {
    more = omega (arith, next, g.more);
    keeps = λ n l.
        set_tag_other tags2 w.idref_num_refs n (view lp64 x) (λ e. omega (arith, e, l))
        ∙ g.keeps n (omega (arith, next, l));
    entries = λ k a n e. elim (g.entries k a n e) [
      | inl old ↦
          elim (set_entry-cases w.id_refs kind address w.idref_num_refs k a n
            ((λ i. sym refs i k a) ∙ old)) [
              | inl older ↦ inl older
              | inr (p, q, r) ↦ inr (
                omega (arith, r),
                omega (arith, r, next, g.more),
                ap (set_tag tags2 w.idref_num_refs (view lp64 x)) (sym r)
                    ∙ set_tag_same tags2 w.idref_num_refs (view lp64 x)
                    ∙ ap (view lp64) (sym at)
                    ∙ (λ i. view lp64 (heap (sym p i) (sym ((==_iff a address).0 q) i))),
              )
            ]
      | inr (l, u, same) ↦ inr (
        omega (arith, next, l),
        u,
        set_tag_other tags2 w.idref_num_refs n (view lp64 x) (λ e. omega (arith, e, l, next))
            ∙ same,
      )
    ];
  }
