-- ===== src/Kext/LoadInfo/Tests.antt =====
-- Runs of kext.subproj/OSKext.c that flush the dependencies of three kexts, and the theorems at them.
use iokit_user.Kext.LoadList.Order.{none-ne-some}
use iokit_user.Prelude.{
  sym, inr, ◌||◌, inl, Bool-cases, none, arith, refl, true, [], ◌==◌, some, ◌∷◌, Bool, false, ℕ,
  List, if◌then◌else◌, ◌≡◌, ==_iff,
}
use mathlib.Core.Bool.{false≢true}
use mathlib.Core.Path.{subst}
use iokit_user.Kext.LoadList.{contains}
use iokit_user.Kext.LoadInfo.{
  unflagged, LoadInfo, LoadInfos, has_all, has_all_dependencies, clear_has_all_dependencies,
  clear_each, clear_one, unflagged, flags_flushed, array_flushed, flush_array, flush_info,
  flush_dependencies, flush_all, dependencies_of,
}
use iokit_user.Kext.LoadInfo.Flush.All.{Arrayed, flush_all_total}
use iokit_user.Kext.LoadInfo.Flush.Ending.{KernelBare}
use iokit_user.Kext.LoadInfo.Flush.Consistency.{Consistent, flush_dependencies-Consistent}

abbrev is_kernel : ℕ → Bool
is_kernel k = k == 1

abbrev all_kexts : List ℕ
all_kexts = 1 ∷ 2 ∷ 3 ∷ []

abbrev resolved_info : List ℕ → LoadInfo
resolved_info ks = record {
  dependencies = some ks;
  has_raw_kernel_dependency = false;
  has_kernel_dependency = false;
  has_kpi_dependency = true;
  has_private_kpi_dependency = false;
  has_all_dependencies = true;
  dependencies_valid = false;
  dependencies_authentic = false;
}

-- Kext 3 depends on 2, and 2 on the kernel component 1.
abbrev three : LoadInfos
three k =
    if k == 3
    then some (resolved_info (2 ∷ []))
    else if k == 2
    then some (resolved_info (1 ∷ []))
    else none

three-KernelBare : KernelBare is_kernel three
three-KernelBare x k h = rw ((==_iff x 1).0 h) refl

three-Consistent : Consistent is_kernel all_kexts three
unfolding contains has_all_dependencies
three-Consistent c b m h l = elim (Bool-cases (c == 3)) [
  | inl q ↦
      subst (λ x. (has_all_dependencies is_kernel three x || contains [] x) ≡ true)
        (only 2 (rw q at l)) refl
  | inr q ↦ elim (Bool-cases (c == 2)) [
    | inl p ↦
        subst (λ x. (has_all_dependencies is_kernel three x || contains [] x) ≡ true)
          (only 1 (rw (q, p) at l)) refl
    | inr p ↦ absurd (false≢true (rw (q, p) at h))
  ]
]
  where
    only : (j : ℕ) → contains (j ∷ []) b ≡ true → j ≡ b
    only j e = (==_iff j b).0 (ground (arith, e))

-- Flushing kext 2 takes the flag of 2 and of 3.
flushed : (s' : LoadInfos) × (flush_dependencies is_kernel all_kexts 4 2 three ≡ some s')
unfolding flush_dependencies flush_info flush_array array_flushed flags_flushed contains
    clear_has_all_dependencies clear_each clear_one has_all_dependencies unflagged
flushed = (_, refl)

flags_taken : (has_all (flushed.0 2) ≡ false) × (has_all (flushed.0 3) ≡ false)
unfolding flushed unflagged array_flushed
flags_taken = (refl, refl)

flush_dependencies-Consistent_example : Consistent is_kernel all_kexts flushed.0
flush_dependencies-Consistent_example =
    flush_dependencies-Consistent is_kernel all_kexts 4 2 three flushed.0 flushed.1 three-Consistent

three-Arrayed : Arrayed three
three-Arrayed x e = elim (Bool-cases (x == 3)) [
  | inl q ↦ absurd (none-ne-some (sym (rw q at e)))
  | inr q ↦ elim (Bool-cases (x == 2)) [
    | inl p ↦ absurd (none-ne-some (sym (rw (q, p) at e)))
    | inr p ↦ rw (q, p) refl
  ]
]

flush_all_total_example :
    (s' : LoadInfos) × (flush_all is_kernel all_kexts 4 all_kexts three ≡ some s')
    × ((k : ℕ)
        → contains all_kexts k ≡ true
        → (dependencies_of (s' k) ≡ none) × (has_all (s' k) ≡ false))
flush_all_total_example =
    flush_all_total is_kernel all_kexts 4 all_kexts three three-KernelBare three-Arrayed
      (omega arith)
