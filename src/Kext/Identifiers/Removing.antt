-- ===== src/Kext/Identifiers/Removing.antt =====
-- What removing a kext from the dictionary of kext.subproj/OSKext.c does to the kexts of each
-- identifier.
use mathlib.Core.Bool.{false≢true}
use iokit_user.Prelude.{
  not, ◌∙◌, refl, inr, inl, ◌&&◌, Bool-cases, none, arith, ◌∷◌, some, ◌==◌, [], Option, List, ◌≡◌,
  ℕ,
}
use iokit_user.Kext.LoadList.{contains}
use iokit_user.Kext.Identifiers.{
  set_value, many, remove_first, one, Library, Entry, Dictionary, remove_entry, remove_kext,
  non_empty,
}
use iokit_user.Kext.Identifiers.Order.{
  Distinct, contains-remove_first, remove_first-Sorted, remove_first-Distinct,
}
use iokit_user.Kext.Identifiers.Entries.{
  kexts_of, Recorded, WellFormed, has, set_value-WellFormed, has-set_value_other, has-set_value_at,
  has_at, remove_kext_lem,
}

kexts_of-non_empty : (xs : List ℕ) → kexts_of (non_empty xs) ≡ xs
kexts_of-non_empty [] = refl
kexts_of-non_empty (x ∷ xs) = refl

remove_entry-Recorded :
    (l : Library) (i k : ℕ) (e : Option Entry)
    → Recorded l i (kexts_of e)
    → Recorded l i (kexts_of (remove_entry k e))
unfolding remove_entry
remove_entry-Recorded l i k none r = r
remove_entry-Recorded l i k (some (one x)) r = elim (Bool-cases (x == k)) [
  | inl q ↦ rw q (record {
    sorted = tt;
    distinct = tt;
    identified = λ y h. absurd (false≢true (unfold contains in h));
  })
  | inr q ↦ rw q r
]
remove_entry-Recorded l i k (some (many xs)) r =
    rw (kexts_of-non_empty (remove_first k xs)) (record {
      sorted = remove_first-Sorted l k xs r.sorted;
      distinct = remove_first-Distinct k xs r.distinct;
      identified = λ y h. r.identified y (ground (arith, contains-remove_first k xs y r.distinct));
    })

contains-remove_entry :
    (k : ℕ) (e : Option Entry) (y : ℕ)
    → Distinct (kexts_of e)
    → contains (kexts_of (remove_entry k e)) y ≡ (not (k == y) && contains (kexts_of e) y)
unfolding remove_entry contains
contains-remove_entry k none y d = ground arith
contains-remove_entry k (some (one x)) y d = elim (Bool-cases (x == k)) [
  | inl q ↦ rw q (ground arith)
  | inr q ↦ rw q (ground arith)
]
contains-remove_entry k (some (many xs)) y d =
    rw (kexts_of-non_empty (remove_first k xs)) (contains-remove_first k xs y d)

-- Removing a kext that has an identifier takes it from the kexts of that identifier, changes those of
-- no other, and keeps each array sorted, without a kext twice, and under its identifier.
pub remove_kext-WellFormed :
    (l : Library) (k i : ℕ) (d : Dictionary)
    → l.identifier k ≡ some i
    → WellFormed l d
    → WellFormed l (remove_kext l k d)
      × ((j y : ℕ) → has (remove_kext l k d) j y ≡ (not (j == i && k == y) && has d j y))
remove_kext-WellFormed l k i d id w = rw (remove_kext_lem l k i d id) (
  set_value-WellFormed l d i (remove_entry k (d i)) w (remove_entry-Recorded l i k (d i) (w i)),
  members,
)
  where
    members :
        (j y : ℕ)
        → has (set_value d i (remove_entry k (d i))) j y ≡ (not (j == i && k == y) && has d j y)
    members j y = elim (Bool-cases (j == i)) [
      | inl q ↦
          has-set_value_at d i j y (remove_entry k (d i)) q
          ∙ contains-remove_entry k (d i) y (w i).distinct
          ∙ rw (q, has_at d i j y (d i) q) refl
      | inr q ↦ has-set_value_other l d i (remove_entry k (d i)) j y q ∙ ground arith
    ]
