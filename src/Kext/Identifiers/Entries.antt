-- ===== src/Kext/Identifiers/Entries.antt =====
-- What the dictionary of kext.subproj/OSKext.c holds for each identifier, and the shape of it.
use mathlib.Core.Path.{subst}
use iokit_user.Prelude.{
  ap, sym, refl, ==_iff, inr, inl, Bool-cases, none, ◌∷◌, some, ◌==◌, [], true, false, Option, List,
  Bool, ◌≡◌, ℕ,
}
use iokit_user.Kext.LoadList.{contains}
use iokit_user.Kext.Identifiers.{
  set_value, many, one, Library, Entry, Dictionary, record_entry, record_kext, remove_entry,
  remove_kext,
}
use iokit_user.Kext.Identifiers.Order.{Sorted, Distinct}

-- The kexts of an entry, in order.
abbrev pub kexts_of : Option Entry → List ℕ
kexts_of none = []
kexts_of (some (one k)) = k ∷ []
kexts_of (some (many ks)) = ks

-- Sorted, without a kext twice, and all with the identifier.
pub record Recorded (l : Library) (i : ℕ) (ks : List ℕ) : Type 0 where
  pub sorted : Sorted l ks
  pub distinct : Distinct ks
  pub identified : (k : ℕ) → contains ks k ≡ true → l.identifier k ≡ some i

abbrev pub WellFormed : Library → Dictionary → Type 0
WellFormed l d = (i : ℕ) → Recorded l i (kexts_of (d i))

-- Whether a kext is recorded under an identifier.
abbrev pub has : Dictionary → ℕ → ℕ → Bool
has d i k = contains (kexts_of (d i)) k

-- The dictionary with the entry of one identifier replaced.
module _ (l : Library) (d : Dictionary) (i : ℕ) (e : Option Entry) where
  pub set_value-WellFormed :
      WellFormed l d → Recorded l i (kexts_of e) → WellFormed l (set_value d i e)
  set_value-WellFormed w r j = elim (Bool-cases (j == i)) [
    | inl q ↦ rw q (subst (λ x. Recorded l x (kexts_of e)) (sym ((==_iff j i).0 q)) r)
    | inr q ↦ rw q (w j)
  ]

  pub has-set_value_other : (j y : ℕ) → (j == i) ≡ false → has (set_value d i e) j y ≡ has d j y
  has-set_value_other j y q = rw q refl

module _ (l : Library) (k i : ℕ) (d : Dictionary) (id : l.identifier k ≡ some i) where
  pub record_kext_lem : record_kext l k d ≡ (true, set_value d i (some (record_entry l k (d i))))
  unfolding record_kext
  record_kext_lem =
      ap
        (λ o. elim o as (λ x. Bool × Dictionary) [
          | none ↦ (false, d)
          | some j ↦ (true, set_value d j (some (record_entry l k (d j))))
        ])
        id

  pub remove_kext_lem : remove_kext l k d ≡ set_value d i (remove_entry k (d i))
  unfolding remove_kext
  remove_kext_lem =
      ap
        (λ o. elim o as (λ x. Dictionary) [
          | none ↦ d
          | some j ↦ set_value d j (remove_entry k (d j))
        ])
        id

module _ (d : Dictionary) (i j y : ℕ) (e : Option Entry) (q : (j == i) ≡ true) where
  pub has-set_value_at : has (set_value d i e) j y ≡ contains (kexts_of e) y
  has-set_value_at = rw q refl

  pub has_at : has d j y ≡ contains (kexts_of (d i)) y
  has_at = ap (λ x. contains (kexts_of (d x)) y) ((==_iff j i).0 q)
