-- ===== src/Kext/Identifiers/Searching.antt =====
-- What the searches for a loaded and for a compatible kext in kext.subproj/OSKext.c find.
use iokit_user.Prelude.{
  [], arith, ◌==◌, inr, ==_iff, sym, some_inj, inl, Bool-cases, false, ◌∷◌, true, some, none,
  Option, List, ◌≡◌, Bool, ℤ, ℕ,
}
use iokit_user.Kext.LoadList.{contains}
use iokit_user.Kext.LoadList.Order.{none-ne-some}
use iokit_user.Kext.Identifiers.{
  Library, many, one, Entry, Dictionary, is_compatible, first_where, entry_where,
  loaded_kext_with_identifier, compatible_kext_with_identifier,
}
use iokit_user.Kext.Identifiers.Entries.{has, kexts_of}
use mathlib.Core.Bool.{false≢true}

first_where-member :
    (test : ℕ → Bool) (ks : List ℕ) (x : ℕ)
    → first_where test ks ≡ some x
    → (contains ks x ≡ true) × (test x ≡ true)
unfolding first_where contains
first_where-member test [] x e = cc
first_where-member test (k ∷ ks) x e = elim (Bool-cases (test k)) [
  | inl q ↦
      let same_kext : k ≡ x = some_inj (rw q at e) in
      (rw ((==_iff k x).1 same_kext), rw same_kext at q)
  | inr q ↦ let (m, t) = first_where-member test ks x (rw q at e) in (ground (arith, m), t)
]

first_where-none :
    (test : ℕ → Bool) (ks : List ℕ)
    → first_where test ks ≡ none
    → (x : ℕ) → contains ks x ≡ true
    → test x ≡ false
unfolding first_where contains
first_where-none test [] e x h = absurd (false≢true h)
first_where-none test (k ∷ ks) e x h = elim (Bool-cases (test k)) [
  | inl q ↦ absurd (none-ne-some (sym (rw q at e)))
  | inr q ↦ elim (Bool-cases (k == x)) [
    | inl p ↦ rw ((==_iff k x).0 p) at q
    | inr p ↦ first_where-none test ks (rw q at e) x (rw p at h)
  ]
]

-- The kext of an entry that passes a test, and that there is none.
entry_where-member :
    (test : ℕ → Bool) (e : Option Entry) (x : ℕ)
    → entry_where test e ≡ some x
    → (contains (kexts_of e) x ≡ true) × (test x ≡ true)
unfolding entry_where contains first_where
entry_where-member test none x e = cc
entry_where-member test (some (one k)) x e = first_where-member test (k ∷ []) x e
entry_where-member test (some (many ks)) x e = first_where-member test ks x e

entry_where-none :
    (test : ℕ → Bool) (e : Option Entry)
    → entry_where test e ≡ none
    → (x : ℕ) → contains (kexts_of e) x ≡ true
    → test x ≡ false
unfolding entry_where contains first_where
entry_where-none test none e x h = absurd (false≢true h)
entry_where-none test (some (one k)) e x h = first_where-none test (k ∷ []) e x h
entry_where-none test (some (many ks)) e x h = first_where-none test ks e x h

module _ (l : Library) (d : Dictionary) (i : ℕ) where
  pub loaded-some :
      (x : ℕ)
      → loaded_kext_with_identifier l d i ≡ some x
      → (has d i x ≡ true) × (l.is_loaded x ≡ true)
  unfolding loaded_kext_with_identifier
  loaded-some x e = entry_where-member (λ k. l.is_loaded k) (d i) x e

  pub loaded-none :
      loaded_kext_with_identifier l d i ≡ none → (y : ℕ) → has d i y ≡ true → l.is_loaded y ≡ false
  unfolding loaded_kext_with_identifier
  loaded-none e y h = entry_where-none (λ k. l.is_loaded k) (d i) e y h

  module _ (v : ℤ) where
    pub compatible-some :
        (x : ℕ)
        → compatible_kext_with_identifier l (some d) i v ≡ some x
        → (has d i x ≡ true) × (is_compatible l x v ≡ true)
    unfolding compatible_kext_with_identifier
    compatible-some x e = entry_where-member (λ k. is_compatible l k v) (d i) x e

    pub compatible-none :
        compatible_kext_with_identifier l (some d) i v ≡ none
        → (y : ℕ) → has d i y ≡ true
        → is_compatible l y v ≡ false
    unfolding compatible_kext_with_identifier
    compatible-none e y h = entry_where-none (λ k. is_compatible l k v) (d i) e y h
