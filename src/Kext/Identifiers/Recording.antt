-- ===== src/Kext/Identifiers/Recording.antt =====
-- What recording a kext in the dictionary of kext.subproj/OSKext.c does to the kexts of each
-- identifier.
use mathlib.Core.Path.{subst}
use mathlib.Core.Bool.{false≢true}
use iokit_user.Prelude.{
  ◌∙◌, refl, ==_iff, inr, inl, ◌&&◌, Bool-cases, none, arith, ◌∷◌, ◌||◌, some, ◌==◌, [], true,
  false, Option, List, ◌≡◌, ℕ,
}
use iokit_user.Kext.LoadList.{contains}
use iokit_user.Kext.Identifiers.{
  set_value, insert_sorted, many, remove_first, one, Library, Entry, Dictionary, insert_kext,
  record_entry, record_kext,
}
use iokit_user.Kext.Identifiers.Order.{
  Distinct, contains-insert_sorted, insert_sorted-Sorted, insert_sorted-Distinct,
  contains-remove_first, remove_first-Sorted, remove_first-Distinct,
}
use iokit_user.Kext.Identifiers.Entries.{
  kexts_of, Recorded, WellFormed, has, set_value-WellFormed, has-set_value_other, has-set_value_at,
  has_at, record_kext_lem,
}

module _ (l : Library) (sorted_mode : l.by_last_opened ≡ false) where
  -- Taken away, if it is there, and inserted again.
  insert_kext_again :
      (k : ℕ) (ks : List ℕ) → insert_kext l k ks ≡ insert_sorted l k (remove_first k ks)
  unfolding insert_kext
  insert_kext_again k ks = simp sorted_mode

  contains-insert_kext :
      (k : ℕ) (ks : List ℕ) (y : ℕ)
      → Distinct ks
      → contains (insert_kext l k ks) y ≡ (k == y || contains ks y)
  contains-insert_kext k ks y d = rw (insert_kext_again k ks) (
      ground
        (arith, contains-insert_sorted l k (remove_first k ks) y, contains-remove_first k ks y d))

  insert_kext-Recorded :
      (i k : ℕ) (ks : List ℕ)
      → l.identifier k ≡ some i
      → Recorded l i ks
      → Recorded l i (insert_kext l k ks)
  insert_kext-Recorded i k ks id r = record {
    sorted =
        rw (insert_kext_again k ks)
          (insert_sorted-Sorted l k (remove_first k ks) (remove_first-Sorted l k ks r.sorted));
    distinct = rw (insert_kext_again k ks) (
        insert_sorted-Distinct l k (remove_first k ks)
          (ground (arith, contains-remove_first k ks k r.distinct))
          (remove_first-Distinct k ks r.distinct));
    identified = identified;
  }
    where
      identified : (y : ℕ) → contains (insert_kext l k ks) y ≡ true → l.identifier y ≡ some i
      identified y h = elim (Bool-cases (k == y)) [
        | inl q ↦ subst (λ z. l.identifier z ≡ some i) ((==_iff k y).0 q) id
        | inr q ↦ r.identified y (ground (arith, contains-insert_kext k ks y r.distinct))
      ]

  one-Recorded : (i k : ℕ) → l.identifier k ≡ some i → Recorded l i (k ∷ [])
  unfolding contains
  one-Recorded i k id = record {
    sorted = (λ y h. absurd (false≢true h), tt);
    distinct = (refl, tt);
    identified = λ y h. subst (λ z. l.identifier z ≡ some i) (ground (arith, ==_iff k y)) id;
  }

  record_entry-Recorded :
      (i k : ℕ) (e : Option Entry)
      → l.identifier k ≡ some i
      → Recorded l i (kexts_of e)
      → Recorded l i (kexts_of (some (record_entry l k e)))
  unfolding record_entry
  record_entry-Recorded i k none id r = one-Recorded i k id
  record_entry-Recorded i k (some (one x)) id r = elim (Bool-cases (x == k)) [
    | inl q ↦ rw q r
    | inr q ↦ rw q (insert_kext-Recorded i k (x ∷ []) id r)
  ]
  record_entry-Recorded i k (some (many xs)) id r = insert_kext-Recorded i k xs id r

  contains-record_entry :
      (k : ℕ) (e : Option Entry) (y : ℕ)
      → Distinct (kexts_of e)
      → contains (kexts_of (some (record_entry l k e))) y ≡ (k == y || contains (kexts_of e) y)
  unfolding record_entry contains
  contains-record_entry k none y d = refl
  contains-record_entry k (some (one x)) y d = elim (Bool-cases (x == k)) [
    | inl q ↦ rw q (ground arith)
    | inr q ↦ rw q (contains-insert_kext k (x ∷ []) y d)
  ]
  contains-record_entry k (some (many xs)) y d = contains-insert_kext k xs y d

-- Recording a kext that has an identifier adds it to the kexts of that identifier, changes those of
-- no other, and keeps each array sorted, without a kext twice, and under its identifier. The arrays
-- are those of a library that does not record by last opened.
pub record_kext-WellFormed :
    (l : Library) (k i : ℕ) (d : Dictionary)
    → l.by_last_opened ≡ false
    → l.identifier k ≡ some i
    → WellFormed l d
    → ((record_kext l k d).0 ≡ true)
      × WellFormed l (record_kext l k d).1
      × ((j y : ℕ) → has (record_kext l k d).1 j y ≡ ((j == i && k == y) || has d j y))
record_kext-WellFormed l k i d sorted_mode id w = rw (record_kext_lem l k i d id) (
  refl,
  set_value-WellFormed l d i (some (record_entry l k (d i))) w
      (record_entry-Recorded l sorted_mode i k (d i) id (w i)),
  members,
)
  where
    members :
        (j y : ℕ)
        → has (set_value d i (some (record_entry l k (d i)))) j y
          ≡ ((j == i && k == y) || has d j y)
    members j y = elim (Bool-cases (j == i)) [
      | inl q ↦
          has-set_value_at d i j y (some (record_entry l k (d i))) q
          ∙ contains-record_entry l sorted_mode k (d i) y (w i).distinct
          ∙ rw (q, has_at d i j y (d i) q) refl
      | inr q ↦ has-set_value_other l d i (some (record_entry l k (d i))) j y q ∙ ground arith
    ]
