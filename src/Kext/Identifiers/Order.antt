-- ===== src/Kext/Identifiers/Order.antt =====
-- The order of an array of kexts with one identifier in kext.subproj/OSKext.c: the higher version
-- first, and of equal versions the kext created later.
use mathlib.Core.Path.{subst}
use mathlib.Core.Bool.{false≢true}
use iokit_user.Prelude.{
  ==_iff, ◌∙◌, ◌⊎◌, not, sym, refl, inr, inl, negsuc, ap, pos, Bool-cases, [], ◌||◌, arith, ◌&&◌,
  false, ◌==◌, true, ◌∷◌, ℤ, List, ◌≡◌, ℕ,
}
use iokit_user.Kext.LoadList.{contains}
use iokit_user.Kext.Identifiers.{
  first_index_of_value, Library, gtb, same, goes_before, insert_sorted, remove_first,
}

-- No kext of the array ought to stand before one that precedes it.
abbrev pub Sorted : Library → List ℕ → Type 0
Sorted l [] = Unit
Sorted l (x ∷ xs) = ((y : ℕ) → contains xs y ≡ true → goes_before l y x ≡ false) × Sorted l xs

abbrev pub Distinct : List ℕ → Type 0
Distinct [] = Unit
Distinct (x ∷ xs) = (contains xs x ≡ false) × Distinct xs

gtb_trans : (a b c : ℤ) → gtb a b ≡ true → gtb b c ≡ true → gtb a c ≡ true
unfolding gtb
gtb_trans a b c p q = ground arith

pub same_eq : (a b : ℤ) → same a b ≡ true → a ≡ b
unfolding same
same_eq (pos a) (pos b) h = ap pos (ground arith)
same_eq (pos a) (negsuc b) h = absurd (false≢true h)
same_eq (negsuc a) (pos b) h = absurd (false≢true h)
same_eq (negsuc a) (negsuc b) h = ap negsuc (ground arith)

pub same_refl : (a : ℤ) → same a a ≡ true
unfolding same
same_refl (pos a) = ground arith
same_refl (negsuc a) = ground arith

gtb_irrefl : (a : ℤ) → gtb a a ≡ false
unfolding gtb
gtb_irrefl (pos a) = ground arith
gtb_irrefl (negsuc a) = ground arith

-- A pair is before another by its first components, or by the second ones.
either :
    (a b o o' : ℤ)
    → ((same a b && gtb o o') || gtb a b) ≡ true
    → ((a ≡ b) × (gtb o o' ≡ true)) ⊎ (gtb a b ≡ true)
either a b o o' h = elim (Bool-cases (same a b)) [
  | inl e ↦ elim (Bool-cases (gtb o o')) [
    | inl f ↦ inl (same_eq a b e, f)
    | inr f ↦ inr (ground arith)
  ]
  | inr e ↦ inr (ground arith)
]

lexicographic_trans :
    (a b c o o' o'' : ℤ)
    → ((same a b && gtb o o') || gtb a b) ≡ true
    → ((same b c && gtb o' o'') || gtb b c) ≡ true
    → ((same a c && gtb o o'') || gtb a c) ≡ true
lexicographic_trans a b c o o' o'' p q = elim (either a b o o' p) [
  | inl (e, f) ↦ elim (either b c o' o'' q) [
    | inl (e', f') ↦ ground (arith, gtb_trans o o' o'' f f', same_of (e ∙ e'))
    | inr g ↦ ground (arith, subst (λ x. gtb x c ≡ true) (sym e) g)
  ]
  | inr g ↦ elim (either b c o' o'' q) [
    | inl (e', f') ↦ ground (arith, subst (λ x. gtb a x ≡ true) e' g)
    | inr g' ↦ ground (arith, gtb_trans a b c g g')
  ]
]
  where
    same_of : a ≡ c → same a c ≡ true
    same_of e = subst (λ x. same a x ≡ true) e (same_refl a)

-- What is left when a kext is taken away.
contains-remove_first_left :
    (k : ℕ) (xs : List ℕ) (y : ℕ) → contains (remove_first k xs) y ≡ true → contains xs y ≡ true
unfolding contains remove_first
contains-remove_first_left k [] y h = h
contains-remove_first_left k (x ∷ xs) y h = ground (arith, contains-remove_first_left k xs y)

pub contains-remove_first :
    (k : ℕ) (xs : List ℕ) (y : ℕ)
    → Distinct xs
    → contains (remove_first k xs) y ≡ (not (k == y) && contains xs y)
unfolding contains remove_first
contains-remove_first k [] y d = ground arith
contains-remove_first k (x ∷ xs) y d = ground (arith, contains-remove_first k xs y d.1, d.0)

pub remove_first-Distinct : (k : ℕ) (xs : List ℕ) → Distinct xs → Distinct (remove_first k xs)
unfolding remove_first
remove_first-Distinct k [] d = tt
remove_first-Distinct k (x ∷ xs) d = elim (Bool-cases (x == k)) [
  | inl e ↦ rw e d.1
  | inr e ↦
      rw e (ground (arith, d.0, contains-remove_first k xs x d.1), remove_first-Distinct k xs d.1)
]

module _ (l : Library) where
  goes_before_trans :
      (x y z : ℕ) → goes_before l x y ≡ true → goes_before l y z ≡ true → goes_before l x z ≡ true
  unfolding goes_before
  goes_before_trans x y z p q = lexicographic_trans _ _ _ _ _ _ p q

  pub goes_before_irrefl : (x : ℕ) → goes_before l x x ≡ false
  unfolding goes_before
  goes_before_irrefl x =
      ground (arith, gtb_irrefl (l.version x), gtb_irrefl (first_index_of_value 0 l.all_kexts x))

  pub contains-insert_sorted :
      (k : ℕ) (xs : List ℕ) (y : ℕ) → contains (insert_sorted l k xs) y ≡ (k == y || contains xs y)
  unfolding contains insert_sorted
  contains-insert_sorted k [] y = refl
  contains-insert_sorted k (x ∷ xs) y =
      let rest = contains-insert_sorted k xs y in
      elim (Bool-cases (goes_before l k x)) [
        | inl e ↦ rw e refl
        | inr e ↦ rw (e, rest) (ground arith)
      ]

  pub insert_sorted-Sorted : (k : ℕ) (xs : List ℕ) → Sorted l xs → Sorted l (insert_sorted l k xs)
  unfolding insert_sorted contains
  insert_sorted-Sorted k [] s = (λ y h. absurd (false≢true h), tt)
  insert_sorted-Sorted k (x ∷ xs) s =
      let rest = insert_sorted-Sorted k xs s.1 in
      elim (Bool-cases (goes_before l k x)) [
        | inl e ↦ rw e (first_in e, s)
        | inr e ↦ rw e (λ y h. elim (place y h) [ inl q ↦ rw (← q) e | inr h' ↦ s.0 y h' ], rest)
      ]
    where
      first_in :
          goes_before l k x ≡ true
          → (y : ℕ) → (x == y || contains xs y) ≡ true
          → goes_before l y k ≡ false
      first_in e y h = elim (Bool-cases (goes_before l y k)) [
        | inr n ↦ n
        | inl b ↦
            let over : goes_before l y x ≡ true = goes_before_trans y k x b e in
            elim (Bool-cases (x == y)) [
              | inl q ↦ absurd (
                  false≢true (
                    sym (goes_before_irrefl x)
                    ∙ subst (λ z. goes_before l z x ≡ true) (sym ((==_iff x y).0 q)) over))
              | inr q ↦ absurd (false≢true (sym (s.0 y (ground arith)) ∙ over))
            ]
      ]

      place : (y : ℕ) → contains (insert_sorted l k xs) y ≡ true → (k ≡ y) ⊎ (contains xs y ≡ true)
      place y h = ground (arith, contains-insert_sorted k xs y)

  pub insert_sorted-Distinct :
      (k : ℕ) (xs : List ℕ) → contains xs k ≡ false → Distinct xs → Distinct (insert_sorted l k xs)
  unfolding insert_sorted contains
  insert_sorted-Distinct k [] new d = (refl, tt)
  insert_sorted-Distinct k (x ∷ xs) new d =
      let rest = insert_sorted-Distinct k xs (ground arith) d.1 in
      elim (Bool-cases (goes_before l k x)) [
        | inl e ↦ rw e (new, d)
        | inr e ↦ rw e (ground (arith, d.0, contains-insert_sorted k xs x), rest)
      ]

  pub remove_first-Sorted : (k : ℕ) (xs : List ℕ) → Sorted l xs → Sorted l (remove_first k xs)
  unfolding remove_first
  remove_first-Sorted k [] s = tt
  remove_first-Sorted k (x ∷ xs) s = elim (Bool-cases (x == k)) [
    | inl e ↦ rw e s.1
    | inr e ↦
        rw e (λ y h. s.0 y (contains-remove_first_left k xs y h), remove_first-Sorted k xs s.1)
  ]
