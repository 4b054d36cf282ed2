-- ===== src/Kext/Resolve/Tests.antt =====
-- Runs of kext.subproj/OSKext.c that resolve the dependencies of four kexts, and the theorems at them.
use mathlib.Core.Bool.{false≢true}
use mathlib.Core.Path.{subst}
use iokit_user.Prelude.{
  inr, ==_iff, inl, Bool-cases, arith, refl, [], false, ltb, ◌==◌, ◌∷◌, List, Bool, pos, true, none,
  if◌then◌else◌, some, ◌≡◌, ℕ, codes,
}
use iokit_user.Kext.LoadList
use iokit_user.Kext.LoadList.{
  contains, copy_load_list, copy_dependencies_list, add_dependencies, visit, apply_function,
}
use iokit_user.Kext.LoadList.Order.{LoadOrder, AllIn}
use iokit_user.Kext.Identifiers.{
  first_where, many, gtb, entry_where, Library, Dictionary, one, is_compatible,
  loaded_kext_with_identifier, compatible_kext_with_identifier,
}
use iokit_user.Kext.LoadInfo.{
  LoadInfos, flush_dependencies, flush_info, created, has_all_dependencies,
}
use iokit_user.KextVersion.{Text, parse_version_string}
use iokit_user.Kext.LoadInfo.Flush.Ending.{KernelBare}
use iokit_user.Kext.Resolve.Order.{resolve-LoadOrder}
use iokit_user.Kext.Resolve.Ordered.{Met}
use iokit_user.Kext.Resolve.Loading.{resolve-copy_load_list}
use iokit_user.Kext.Resolve.Sound.{AllListed}
use iokit_user.Kext.Resolve.Ending.{resolve_total}
use iokit_user.Kext.Resolve.Stack.{Visits, resolve-Visits}
use iokit_user.Kext.Resolve.Choices.{Chosen, choose-Chosen}
use iokit_user.Kext.Resolve.Answers.{
  OneEach, resolve_dependencies_total, resolve_dependencies-OneEach, resolve_dependencies_again,
}
use iokit_user.Kext.Resolve.{
  graph, check_list, has_duplicates, shared_with, same_identifier, enter, finish, collect,
  add_choice, choose, chosen, noted, resolve_each, collection_error, conclude, judge, add_to_set,
  drop_last, flagged_resolved, with_dependency, Rules, Run, resolve, fresh, resolve_dependencies,
}

abbrev version : Text
version = codes "1.0"

abbrev small_library : Library
small_library = record {
  identifier = λ k. some k;
  version = λ k. pos 900000000;
  compatible_version = λ k. pos 5;
  is_loaded = λ k. k == 1;
  all_kexts = 0 ∷ 1 ∷ 2 ∷ 3 ∷ [];
  by_last_opened = false;
}

abbrev small_kexts : Dictionary
small_kexts i = if ltb i 4 then some (one i) else none

abbrev needed : ℕ → List (ℕ × Text)
needed k =
    if k == 3
    then (1, version) ∷ (2, version) ∷ []
    else if k == 2
    then (1, version) ∷ []
    else if k == 1
    then (0, version) ∷ []
    else []

-- Kext 3 declares 1 and 2, kext 2 declares 1, and kext 1 the kernel component 0.
abbrev small : Rules
small = record {
  library = small_library;
  kexts = small_kexts;
  has_info = λ k. true;
  is_valid = λ k. true;
  kernel_component = λ k. k == 0;
  is_interface = λ k. false;
  declares_executable = λ k. true;
  supports_architecture = λ k. true;
  declared = needed;
  is_kernel_lib = λ i. false;
  has_kernel_prefix = λ i. false;
  has_kpi_prefix = λ i. i == 0;
  is_private_kpi = λ i. false;
  compatibility_identifier = 9;
  has_apple_prefix = λ k. true;
  copyright_is_valid = λ k. true;
  lp64 = true;
}

abbrev nothing_known : LoadInfos
nothing_known k = none

-- The run of kext 3.
small_run : (run : Run) × (resolve small 5 5 3 (fresh small nothing_known) ≡ some (true, run))
unfolding resolve contains flush_dependencies flush_info enter created finish collect add_choice
    choose chosen noted resolve_each collection_error conclude judge add_to_set drop_last
    flagged_resolved with_dependency loaded_kext_with_identifier compatible_kext_with_identifier
    entry_where is_compatible gtb parse_version_string
small_run = (_, refl)

resolved_in_order : small_run.0.resolved_set ≡ 0 ∷ 1 ∷ 2 ∷ 3 ∷ []
unfolding small_run
resolved_in_order = refl

three_listed : contains small.library.all_kexts 3 ≡ true
unfolding contains
three_listed = refl

small-AllListed : AllListed small
unfolding contains
small-AllListed i x h = elim (Bool-cases (ltb i 4)) [
  | inl q ↦
      let same_kext : i ≡ x = (==_iff i x).0 (ground (arith, rw q at h)) in
      subst (λ y. contains small.library.all_kexts y ≡ true) same_kext (ground (arith, q))
  | inr q ↦ absurd (false≢true (rw q at h))
]

nothing-KernelBare : KernelBare small.kernel_component nothing_known
nothing-KernelBare x k h = refl

resolve-LoadOrder_example :
    LoadOrder (graph small small_run.0.infos) [] small_run.0.resolved_set
    × (contains small_run.0.resolved_set 3 ≡ true)
    × ((x : ℕ) → contains small_run.0.resolved_set x ≡ true → Met small small_run.0.infos x)
resolve-LoadOrder_example = resolve-LoadOrder small 5 5 3 nothing_known small_run.0 refl small_run.1

resolve-copy_load_list_example :
    (list : List ℕ) × (copy_load_list (graph small small_run.0.infos) 4 3 true true
      ≡ some (some list))
    × LoadOrder (graph small small_run.0.infos) [] list
    × (contains list 3 ≡ true)
resolve-copy_load_list_example =
    resolve-copy_load_list small 5 5 4 3 true nothing_known small_run.0 refl small_run.1
      (rw resolved_in_order (omega arith))

resolve_total_example :
    (resolved : Bool) × (run : Run) × (resolve small 5 5 3 (fresh small nothing_known)
      ≡ some (resolved, run))
    × KernelBare small.kernel_component run.infos
    × AllIn run.resolved_set small.library.all_kexts
resolve_total_example =
    resolve_total small 5 5 3 nothing_known small-AllListed three_listed nothing-KernelBare
      (omega arith) (omega arith)

resolve-Visits_example : Visits 3 (fresh small nothing_known) small_run.0
resolve-Visits_example =
    resolve-Visits small 5 5 3 (fresh small nothing_known) small_run.0 true small_run.1

choose-Chosen_example : Chosen small 2 (pos 7) (choose small 2 (pos 7))
choose-Chosen_example = choose-Chosen small 2 (pos 7)

resolve_dependencies_total_example :
    (b : Bool) × (s' : LoadInfos) × (resolve_dependencies small 5 5 3 nothing_known ≡ some (b, s'))
resolve_dependencies_total_example =
    resolve_dependencies_total small 5 5 3 nothing_known refl small-AllListed three_listed
      nothing-KernelBare (omega arith) (omega arith)

-- The answer for kext 3.
small_answer : (s' : LoadInfos) × (resolve_dependencies small 5 5 3 nothing_known ≡ some (true, s'))
unfolding resolve_dependencies has_all_dependencies copy_load_list copy_dependencies_list
    add_dependencies visit apply_function LoadList.finish check_list has_duplicates shared_with
    same_identifier resolve contains flush_dependencies flush_info enter created finish collect
    add_choice choose chosen noted resolve_each collection_error conclude judge add_to_set drop_last
    flagged_resolved with_dependency loaded_kext_with_identifier compatible_kext_with_identifier
    entry_where is_compatible gtb parse_version_string
small_answer = (_, refl)

resolve_dependencies-OneEach_example :
    (list : List ℕ) × (copy_load_list (graph small small_answer.0) 5 3 true true ≡ some (some list))
    × LoadOrder (graph small small_answer.0) [] list
    × (contains list 3 ≡ true)
    × OneEach small list
resolve_dependencies-OneEach_example =
    resolve_dependencies-OneEach small 5 5 3 nothing_known small_answer.0
      (unfold has_all_dependencies in refl) small_answer.1

-- Kexts 1 and 4 have the identifier 1, in versions that kexts 3 and 2 declare.
abbrev twins_library : Library
twins_library = record small_library {
  identifier = λ k. if k == 4 then some 1 else some k;
  version = λ k. if k == 1 then pos 150000000 else pos 900000000;
  compatible_version = λ k. if k == 4 then pos 200000000 else pos 5;
  is_loaded = λ k. false;
  all_kexts = 0 ∷ 1 ∷ 2 ∷ 3 ∷ 4 ∷ [];
}

abbrev twins_kexts : Dictionary
twins_kexts i = if i == 1 then some (many (4 ∷ 1 ∷ [])) else small_kexts i

abbrev twins_needed : ℕ → List (ℕ × Text)
twins_needed k = if k == 2 then (1, codes "5.0") ∷ [] else if k == 4 then [] else needed k

abbrev twins : Rules
twins = record small { library = twins_library; kexts = twins_kexts; declared = twins_needed }

twins_run : (run : Run) × (resolve twins 6 6 3 (fresh twins nothing_known) ≡ some (true, run))
unfolding resolve_dependencies has_all_dependencies copy_load_list copy_dependencies_list
    add_dependencies visit apply_function LoadList.finish check_list has_duplicates shared_with
    same_identifier resolve contains flush_dependencies flush_info enter created finish collect
    add_choice choose chosen noted resolve_each collection_error conclude judge add_to_set drop_last
    flagged_resolved with_dependency loaded_kext_with_identifier compatible_kext_with_identifier
    entry_where first_where is_compatible gtb parse_version_string
twins_run = (_, refl)

-- Two kexts of one identifier: the answer is no.
twins_answer :
    (s' : LoadInfos) × (resolve_dependencies twins 6 6 3 nothing_known ≡ some (false, s'))
unfolding resolve_dependencies has_all_dependencies copy_load_list copy_dependencies_list
    add_dependencies visit apply_function LoadList.finish check_list has_duplicates shared_with
    same_identifier resolve contains flush_dependencies flush_info enter created finish collect
    add_choice choose chosen noted resolve_each collection_error conclude judge add_to_set drop_last
    flagged_resolved with_dependency loaded_kext_with_identifier compatible_kext_with_identifier
    entry_where first_where is_compatible gtb parse_version_string
twins_answer = (_, refl)

-- The second answer is yes.
resolve_dependencies_again_example :
    resolve_dependencies twins 6 6 3 twins_answer.0 ≡ some (true, twins_answer.0)
resolve_dependencies_again_example =
    resolve_dependencies_again twins 6 6 3 nothing_known twins_answer.0 twins_run.0 false
      twins_run.1 twins_answer.1

-- Kext 1 declares an identifier that no kext has, so that kext 3 is refused; but since kext 2 visits kext
-- 1 again, both have the flag then.
abbrev broken : Rules
broken = record small { declared = λ k. if k == 1 then (8, version) ∷ [] else needed k }

broken_run : (run : Run) × (resolve broken 5 5 3 (fresh broken nothing_known) ≡ some (false, run))
unfolding resolve contains flush_dependencies flush_info enter created finish collect add_choice
    choose chosen noted resolve_each collection_error conclude judge add_to_set drop_last
    flagged_resolved with_dependency loaded_kext_with_identifier compatible_kext_with_identifier
    entry_where is_compatible gtb parse_version_string
broken_run = (_, refl)

broken_flags :
    (has_all_dependencies broken.kernel_component broken_run.0.infos 1 ≡ true)
    × (has_all_dependencies broken.kernel_component broken_run.0.infos 2 ≡ true)
unfolding broken_run has_all_dependencies flagged_resolved
broken_flags = (refl, refl)
