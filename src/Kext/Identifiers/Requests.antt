-- ===== src/Kext/Identifiers/Requests.antt =====
-- Which kext a request of kext.subproj/OSKext.c finds in the dictionary.
use mathlib.Core.Path.{subst}
use mathlib.Core.Bool.{false≢true}
use iokit_user.Prelude.{
  ap, get_elem?, refl, Bool-cases, ◌||◌, ◌==◌, inr, sym, ◌∷◌, ◌⊎◌, arith, none, inl, ◌∙◌, [], false,
  true, Option, List, some, Bool, ◌≡◌, ℤ, ℕ,
}
use iokit_user.Kext.LoadList.{contains}
use iokit_user.Kext.Identifiers.{
  array_of, copy_kexts_with_identifier, many, one, Library, Entry, Dictionary, first_where,
  entry_where, kext_with_identifier, kext_with_identifier_and_version, loaded_kext_with_identifier,
  compatible_kext_with_identifier, record_kext, is_compatible, same, goes_before,
}
use iokit_user.Kext.Identifiers.Order.{Sorted, goes_before_irrefl, same_eq, same_refl}
use iokit_user.Kext.Identifiers.Entries.{Recorded, kexts_of, WellFormed, has}
use iokit_user.Kext.Identifiers.Recording.{record_kext-WellFormed}

-- The kext is one of those that pass the test, and none of those stands before it.
pub record First (l : Library) (test : ℕ → Bool) (ks : List ℕ) (r : ℕ) : Type 0 where
  pub found : contains ks r ≡ true
  pub passes : test r ≡ true
  pub none_before : (y : ℕ) → contains ks y ≡ true → test y ≡ true → goes_before l y r ≡ false

-- Either no kext passes the test and there is no result, or the first that does is the result.
abbrev pub Finds : Library → (ℕ → Bool) → List ℕ → Option ℕ → Type 0
Finds l test ks o =
    ((o ≡ none) × ((y : ℕ) → contains ks y ≡ true → test y ≡ false))
    ⊎ ((r : ℕ) × (o ≡ some r) × First l test ks r)

module _ (l : Library) (test : ℕ → Bool) where
  first_where-Finds : (ks : List ℕ) → Sorted l ks → Finds l test ks (first_where test ks)
  unfolding first_where contains
  first_where-Finds [] s = inl (refl, λ y h. absurd (false≢true h))
  first_where-Finds (k ∷ ks) s = elim (Bool-cases (test k)) [
    | inl t ↦
        rw t (inr (k, refl, record { found = ground arith; passes = t; none_before = before }))
    | inr t ↦ rw t (elim (first_where-Finds ks s.1) [
      | inl (e, f) ↦
          inl (e, λ y h. elim (head_or_tail y h) [ inl q ↦ rw (← q) t | inr h' ↦ f y h' ])
      | inr (r, e, f) ↦ inr (
        r,
        e,
        record {
          found = ground (arith, f.found);
          passes = f.passes;
          none_before = λ y h p. later t f y h p;
        },
      )
    ])
  ]
    where
      head_or_tail : (y : ℕ) → (k == y || contains ks y) ≡ true → (k ≡ y) ⊎ (contains ks y ≡ true)
      head_or_tail y h = ground arith

      before :
          (y : ℕ) → (k == y || contains ks y) ≡ true → test y ≡ true → goes_before l y k ≡ false
      before y h p = elim (head_or_tail y h) [
        | inl q ↦ rw (← q) (goes_before_irrefl l k)
        | inr h' ↦ s.0 y h'
      ]

      later :
          {r : ℕ}
          → test k ≡ false
          → First l test ks r
          → (y : ℕ) → (k == y || contains ks y) ≡ true
          → test y ≡ true
          → goes_before l y r ≡ false
      later t f y h p = elim (head_or_tail y h) [
        | inl q ↦ absurd (false≢true (sym (subst (λ z. test z ≡ false) q t) ∙ p))
        | inr h' ↦ f.none_before y h' p
      ]

  entry_where-Finds :
      (e : Option Entry) → Sorted l (kexts_of e) → Finds l test (kexts_of e) (entry_where test e)
  unfolding entry_where
  entry_where-Finds none s = unfold first_where in first_where-Finds [] s
  entry_where-Finds (some (one k)) s = unfold first_where in first_where-Finds (k ∷ []) s
  entry_where-Finds (some (many ks)) s = first_where-Finds ks s

-- In a well-formed dictionary, as recording and removing keep it, a request for a compatible kext gives
-- the one of the highest version that was created last, among those with the identifier that are
-- compatible, and no kext exactly if none of them is.
pub compatible_kext_with_identifier-Finds :
    (l : Library) (d : Dictionary) (i : ℕ) (v : ℤ)
    → WellFormed l d
    → Finds l
        (λ k. is_compatible l k v)
        (kexts_of (d i))
        (compatible_kext_with_identifier l (some d) i v)
unfolding compatible_kext_with_identifier
compatible_kext_with_identifier-Finds l d i v w = entry_where-Finds l _ (d i) (w i).sorted

-- In a well-formed dictionary, as recording and removing keep it, the requests for any kext with an
-- identifier, for one of a version, and for a loaded one each give the first such kext in the order of
-- versions and creation, and none exactly if there is none.
pub kext_requests :
    (l : Library) (d : Dictionary) (i : ℕ) (v : ℤ)
    → WellFormed l d
    → Finds l (λ k. true) (kexts_of (d i)) (kext_with_identifier (some d) i)
      × Finds l
          (λ k. same (l.version k) v)
          (kexts_of (d i))
          (kext_with_identifier_and_version l (some d) i v)
      × Finds l (λ k. l.is_loaded k) (kexts_of (d i)) (loaded_kext_with_identifier l d i)
unfolding kext_with_identifier kext_with_identifier_and_version loaded_kext_with_identifier
kext_requests l d i v w = (
  entry_where-Finds l _ (d i) (w i).sorted,
  entry_where-Finds l _ (d i) (w i).sorted,
  entry_where-Finds l _ (d i) (w i).sorted,
)

-- Once a kext is recorded in a well-formed dictionary, a request for its identifier and version finds a kext
-- with both that was not created before it. The arrays are those of a library that does not record by last opened.
pub kext_with_identifier_and_version-record_kext :
    (l : Library) (k i : ℕ) (d : Dictionary)
    → l.by_last_opened ≡ false
    → l.identifier k ≡ some i
    → WellFormed l d
    → (r : ℕ) × (kext_with_identifier_and_version l (some (record_kext l k d).1) i (l.version k)
        ≡ some r)
      × (l.identifier r ≡ some i)
      × (l.version r ≡ l.version k)
      × (goes_before l k r ≡ false)
kext_with_identifier_and_version-record_kext l k i d sorted_mode id w =
    let (_, w', members) = record_kext-WellFormed l k i d sorted_mode id w in
    let there : has (record_kext l k d).1 i k ≡ true = members i k ∙ ground arith in
    elim (kext_requests l (record_kext l k d).1 i (l.version k) w').1 [
      | inl (e, f) ↦ absurd (false≢true (sym (f k there) ∙ same_refl (l.version k)))
      | inr (r, e, f) ↦ (
        r,
        e,
        (w' i).identified r f.found,
        same_eq _ _ f.passes,
        f.none_before k there (same_refl (l.version k)),
      )
    ]

array_of-kexts_of : (e : Option Entry) → array_of e ≡ kexts_of e
unfolding array_of
array_of-kexts_of none = refl
array_of-kexts_of (some (one k)) = refl
array_of-kexts_of (some (many ks)) = refl

first_kext : (e : Option Entry) → entry_where (λ k. true) e ≡ get_elem? (array_of e) 0
unfolding entry_where first_where array_of
first_kext none = refl
first_kext (some (one k)) = refl
first_kext (some (many [])) = refl
first_kext (some (many (k ∷ ks))) = refl

-- The copied array of an identifier holds the kexts that are recorded under it, sorted and each once,
-- and the request for any kext with the identifier gives the first of them.
pub copy_kexts_with_identifier-Recorded :
    (l : Library) (d : Dictionary) (i : ℕ)
    → WellFormed l d
    → Recorded l i (copy_kexts_with_identifier (some d) i)
      × ((k : ℕ) → contains (copy_kexts_with_identifier (some d) i) k ≡ has d i k)
      × (kext_with_identifier (some d) i ≡ get_elem? (copy_kexts_with_identifier (some d) i) 0)
unfolding copy_kexts_with_identifier kext_with_identifier
copy_kexts_with_identifier-Recorded l d i w = (
  subst (Recorded l i) (sym (array_of-kexts_of (d i))) (w i),
  (λ k. ap (λ ks. contains ks k) (array_of-kexts_of (d i))),
  first_kext (d i),
)
