-- ===== src/Kext/Resolve/Sound.antt =====
-- What a run of `__OSKextResolveDependencies` of kext.subproj/OSKext.c keeps: kernel components without
-- dependencies, and kexts that are listed.
use mathlib.Core.Path.{subst}
use mathlib.Core.Bool.{false≢true}
use iokit_user.Prelude.{
  if_both, none, refl, ℤ, some, ==_iff, ◌∙◌, inr, sym, inl, ◌==◌, Bool-cases, false, [], true,
  Option, ◌++◌, ◌≡◌, ◌∷◌, Bool, List, ℕ,
}
use iokit_user.Kext.LoadList.{contains}
use iokit_user.Kext.LoadList.Order.{AllIn}
use iokit_user.Kext.LoadInfo.{LoadInfo, set_info, listed}
use iokit_user.Kext.LoadInfo.Flush.Ending.{KernelBare}
use iokit_user.Kext.Identifiers.Entries.{has}
use iokit_user.Kext.Resolve.{
  parse_version_string, with_dependency, Text, Rules, Run, Found, Choice, refused, missing, usable,
  finish, conclude, collect, add_choice, choose, add_to_set, list_of,
}
use iokit_user.Kext.Resolve.Choices.{noted-dependencies, Chosen, choose-Chosen}
use iokit_user.Kext.Resolve.Ends.{conclude-Ends, dependencies_of-finish}

-- Every kext that is recorded under an identifier is listed.
abbrev pub AllListed : Rules → Type 0
AllListed r = (i x : ℕ) → has r.kexts i x ≡ true → contains r.library.all_kexts x ≡ true

AllIn-snoc : (ks xs : List ℕ) (x : ℕ) → AllIn ks xs → contains xs x ≡ true → AllIn (ks ++ x ∷ []) xs
AllIn-snoc [] xs x a h = (h, tt)
AllIn-snoc (k ∷ ks) xs x a h = (a.0, AllIn-snoc ks xs x a.1 h)

-- The state of the recursion: no kernel component lists a dependency, and the kexts visited are listed.
abbrev pub Sound : Rules → Run → Type 0
Sound r run = KernelBare r.kernel_component run.infos × AllIn run.resolved_set r.library.all_kexts

AllIn-add_to_set :
    (xs ys : List ℕ) (k : ℕ) → AllIn xs ys → contains ys k ≡ true → AllIn (add_to_set xs k) ys
unfolding add_to_set
AllIn-add_to_set xs ys k a h =
    if_both (λ zs. AllIn zs ys) (contains xs k) a (AllIn-snoc xs ys k a h)

module _ (r : Rules) where
  pub set_info-Sound :
      (run : Run) (k : ℕ) (i : LoadInfo)
      → ((j : ℕ) → r.kernel_component k ≡ true → listed i.dependencies j ≡ false)
      → Sound r run
      → Sound r (record run { infos = set_info run.infos k i })
  set_info-Sound run k i bi (b, a) = (
    λ x j kx. elim (Bool-cases (x == k)) [
      | inl q ↦ rw q (bi j (subst (λ y. r.kernel_component y ≡ true) ((==_iff x k).0 q) kx))
      | inr q ↦ rw q (b x j kx)
    ],
    a,
  )

  pub finish-Sound :
      (k : ℕ) (added result : Bool) (run : Run)
      → contains r.library.all_kexts k ≡ true
      → Sound r run
      → Sound r (finish k added result run).1
  finish-Sound k added result run m (b, a) = (
    λ x j kx. rw (dependencies_of-finish k added result run x) (b x j kx),
    unfold finish in AllIn-add_to_set run.resolved_set r.library.all_kexts k a m,
  )

  pub conclude-Sound :
      (k : ℕ) (error : Bool) (run : Run) (o : Option LoadInfo)
      → r.kernel_component k ≡ false
      → contains r.library.all_kexts k ≡ true
      → Sound r run
      → Sound r (conclude r k error run o).1
  conclude-Sound k error run o n m (b, a) = (
    λ x j kx. elim (Bool-cases (x == k)) [
      | inl q ↦
          absurd
            (false≢true (sym n ∙ subst (λ y. r.kernel_component y ≡ true) ((==_iff x k).0 q) kx))
      | inr q ↦ rw ((conclude-Ends r k error run o).kept x q) (b x j kx)
    ],
    rw ((conclude-Ends r k error run o).set)
        (AllIn-add_to_set run.resolved_set r.library.all_kexts k a m),
  )

  with_dependency-Listed :
      (xs : List ℕ) (x : ℕ) (o : Option (List ℕ))
      → AllIn (list_of o) xs
      → contains xs x ≡ true
      → AllIn (list_of (with_dependency x o)) xs
  unfolding with_dependency
  with_dependency-Listed xs x none a h = tt
  with_dependency-Listed xs x (some ks) a h = AllIn-snoc ks xs x a h

  add_choice-Listed :
      (xs : List ℕ) (c : Choice) (i : ℕ) (f : Found)
      → ((x : ℕ) → c ≡ usable x → contains xs x ≡ true)
      → AllIn (list_of f.info.dependencies) xs
      → AllIn (list_of (add_choice r c i f).info.dependencies) xs
  unfolding add_choice
  add_choice-Listed xs refused i f h a = a
  add_choice-Listed xs missing i f h a = rw (noted-dependencies r i f.info) a
  add_choice-Listed xs (usable x) i f h a =
      with_dependency-Listed xs x _ (rw (noted-dependencies r i f.info) a) (h x refl)

  chosen-Listed :
      AllListed r
      → (i : ℕ) (v : ℤ) (x : ℕ) → choose r i v ≡ usable x
      → contains r.library.all_kexts x ≡ true
  chosen-Listed all i v x e = all i x (subst (Chosen r i v) e (choose-Chosen r i v)).0

  pub collect-Listed :
      AllListed r
      → (ds : List (ℕ × Text)) (f : Found) → AllIn (list_of f.info.dependencies) r.library.all_kexts
      → AllIn (list_of (collect r ds f).info.dependencies) r.library.all_kexts
  unfolding collect
  collect-Listed all [] f a = a
  collect-Listed all ((i, version) ∷ ds) f a = collect-Listed all ds _ (
      add_choice-Listed r.library.all_kexts (choose r i (parse_version_string (some version))) i f
        (λ x e. chosen-Listed all i _ x e) a)
