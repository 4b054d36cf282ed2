-- ===== src/Kext/Resolve/Choices.antt =====
-- What the loop over the declared dependencies in `__OSKextResolveDependencies` of kext.subproj/OSKext.c
-- chooses, and what it leaves.
use iokit_user.Prelude.{
  append_assoc, inr, append-nil, sym, inl, ap, ◌∙◌, Bool-cases, [], refl, false, ◌∷◌, ◌++◌, ◌⊎◌,
  none, some, arith, true, ◌≡◌, ℤ, Option, List, ℕ,
}
use iokit_user.Kext.Identifiers.{
  compatible_kext_with_identifier, loaded_kext_with_identifier, is_compatible,
}
use iokit_user.Kext.Identifiers.Searching.{
  loaded-some, loaded-none, compatible-some, compatible-none,
}
use iokit_user.Kext.Identifiers.Entries.{has}
use iokit_user.Kext.LoadInfo.{LoadInfo}
use mathlib.Core.Bool.{false≢true}
use iokit_user.Kext.Resolve.{
  collection_error, Rules, Choice, missing, refused, usable, Found, Text, add_choice, noted,
  collect, with_dependency, choose, chosen, parse_version_string,
}

-- What each choice means for the kexts that are recorded under the identifier.
abbrev pub Chosen : Rules → ℕ → ℤ → Choice → Type 0
Chosen r i v (usable x) =
    (has r.kexts i x ≡ true)
    × (is_compatible r.library x v ≡ true)
    × ((r.library.is_loaded x ≡ true)
        ⊎ ((y : ℕ) → has r.kexts i y ≡ true → r.library.is_loaded y ≡ false))
Chosen r i v refused =
    (x : ℕ) × (has r.kexts i x ≡ true)
    × (r.library.is_loaded x ≡ true)
    × (is_compatible r.library x v ≡ false)
Chosen r i v missing =
    (y : ℕ)
    → has r.kexts i y ≡ true
    → (r.library.is_loaded y ≡ false) × (is_compatible r.library y v ≡ false)

-- A dependency is met by a recorded kext with the identifier that is compatible with the version, and is
-- loaded if any of them is; it is refused only where one of them is loaded and is not compatible; and it
-- is missing only where none of them is loaded and none is compatible.
pub choose-Chosen : (r : Rules) (i : ℕ) (v : ℤ) → Chosen r i v (choose r i v)
unfolding choose chosen
choose-Chosen r i v =
    by_loaded (loaded_kext_with_identifier r.library r.kexts i)
      (compatible_kext_with_identifier r.library (some r.kexts) i v) refl refl
  where
    by_loaded :
        (o o' : Option ℕ)
        → loaded_kext_with_identifier r.library r.kexts i ≡ o
        → compatible_kext_with_identifier r.library (some r.kexts) i v ≡ o'
        → Chosen r i v (chosen r o o' v)
    by_loaded (some x) o' e e' =
        let (m, l) = loaded-some r.library r.kexts i x e in
        elim (Bool-cases (is_compatible r.library x v)) [
          | inl q ↦ rw q (m, q, inl l)
          | inr q ↦ rw q (x, m, l, q)
        ]
    by_loaded none none e e' =
        λ y h. (loaded-none r.library r.kexts i e y h, compatible-none r.library r.kexts i v e' y h)
    by_loaded none (some x) e e' =
        let (m, c) = compatible-some r.library r.kexts i v x e' in
        (m, c, inr (loaded-none r.library r.kexts i e))

-- The declared dependencies are met by the kexts of a list, one by one.
abbrev pub Satisfies : Rules → List (ℕ × Text) → List ℕ → Type 0
Satisfies r [] [] = Unit
Satisfies r [] (x ∷ xs) = ⊥
Satisfies r (d ∷ ds) [] = ⊥
Satisfies r (d ∷ ds) (x ∷ xs) =
    (choose r d.0 (parse_version_string (some d.1)) ≡ usable x) × Satisfies r ds xs

with_dependency-some :
    (x : ℕ) (o : Option (List ℕ)) (ks : List ℕ)
    → o ≡ some ks
    → with_dependency x o ≡ some (ks ++ x ∷ [])
unfolding with_dependency
with_dependency-some x o ks e = rw e refl

pub noted-dependencies :
    (r : Rules) (i : ℕ) (info : LoadInfo) → (noted r i info).dependencies ≡ info.dependencies
unfolding noted
noted-dependencies r i info = ground arith

usable-dependencies :
    (r : Rules) (x i : ℕ) (f : Found) (ks : List ℕ)
    → f.info.dependencies ≡ some ks
    → (add_choice r (usable x) i f).info.dependencies ≡ some (ks ++ x ∷ [])
unfolding add_choice
usable-dependencies r x i f ks e = with_dependency-some x _ ks (noted-dependencies r i f.info ∙ e)

add_choice_error :
    (r : Rules) (c : Choice) (i : ℕ) (f : Found)
    → f.error ≡ true
    → (add_choice r c i f).error ≡ true
unfolding add_choice
add_choice_error r refused i f e = refl
add_choice_error r missing i f e = refl
add_choice_error r (usable x) i f e = e

collect_error :
    (r : Rules) (ds : List (ℕ × Text)) (f : Found) → f.error ≡ true → (collect r ds f).error ≡ true
unfolding collect
collect_error r [] f e = e
collect_error r ((i, version) ∷ ds) f e =
    collect_error r ds _
      (add_choice_error r (choose r i (parse_version_string (some version))) i f e)

-- Without an error, the loop has appended a kext for each declared dependency.
pub collect-Satisfies :
    (r : Rules) (ds : List (ℕ × Text)) (f : Found) (ks : List ℕ)
    → f.info.dependencies ≡ some ks
    → (collect r ds f).error ≡ false
    → (xs : List ℕ) × ((collect r ds f).info.dependencies ≡ some (ks ++ xs)) × Satisfies r ds xs
unfolding collect
collect-Satisfies r [] f ks e ne = ([], e ∙ ap some (sym (append-nil ks)), tt)
collect-Satisfies r ((i, version) ∷ ds) f ks e ne =
    by_choice (choose r i (parse_version_string (some version))) refl ne
      (λ x p n. collect-Satisfies r ds (add_choice r (usable x) i f) (ks ++ x ∷ []) p n)
  where
    by_choice :
        (c : Choice)
        → choose r i (parse_version_string (some version)) ≡ c
        → (collect r ds (add_choice r c i f)).error ≡ false
        → ((x : ℕ)
            → (add_choice r (usable x) i f).info.dependencies ≡ some (ks ++ x ∷ [])
            → (collect r ds (add_choice r (usable x) i f)).error ≡ false
            → (xs : List ℕ) × ((collect r ds (add_choice r (usable x) i f)).info.dependencies
                ≡ some ((ks ++ x ∷ []) ++ xs))
              × Satisfies r ds xs)
        → (xs : List ℕ) × ((collect r ds (add_choice r c i f)).info.dependencies ≡ some (ks ++ xs))
          × Satisfies r ((i, version) ∷ ds) xs
    by_choice refused q n rest =
        absurd (false≢true (sym n ∙ collect_error r ds _ (unfold add_choice in refl)))
    by_choice missing q n rest =
        absurd (false≢true (sym n ∙ collect_error r ds _ (unfold add_choice in refl)))
    by_choice (usable x) q n rest =
        let (xs, has, all) = rest x (usable-dependencies r x i f ks e) n in
        (x ∷ xs, has ∙ ap some (append_assoc ks (x ∷ []) xs), (q, all))

pub error-collection_error :
    (r : Rules) (k : ℕ) (f : Found) → collection_error r k f ≡ false → f.error ≡ false
unfolding collection_error
error-collection_error r k f h = ground (arith, h)
