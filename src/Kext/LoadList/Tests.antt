-- ===== src/Kext/LoadList/Tests.antt =====
-- Runs of kext.subproj/OSKext.c on four kexts, and the theorems at them.
use iokit_user.Prelude.{
  inr, refl, arith, ◌++◌, ◌↔◌, some, ◌≡◌, if◌then◌else◌, List, ◌==◌, ◌∷◌, true, [], ℕ,
}
use iokit_user.Kext.LoadList.{
  Kexts, contains, finish, apply_function, visit, add_dependencies, copy_dependencies_list,
  copy_load_list, copy_all_dependencies, copy_indirect_dependencies,
}
use iokit_user.Kext.LoadList.Order.{LoadOrder, copy_load_list-LoadOrder}
use iokit_user.Kext.LoadList.Reach.{Reaches, copy_load_list-Reaches}
use iokit_user.Kext.LoadList.Total.{
  Acyclic, Complete, copy_load_list_total, copy_load_list-all_dependencies,
}

abbrev needed : ℕ → List ℕ
needed k = if k == 3 then 1 ∷ 2 ∷ [] else if k == 2 then 1 ∷ [] else if k == 1 then 0 ∷ [] else []

-- Kext 3 depends on 1 and 2, kext 2 on 1, and kext 1 on the kernel component 0.
abbrev four : Kexts
four = record { kernel_component = λ k. k == 0; dependencies = λ k. some (needed k) }

loads : copy_load_list four 4 3 true true ≡ some (some (0 ∷ 1 ∷ 2 ∷ 3 ∷ []))
unfolding copy_load_list copy_dependencies_list add_dependencies visit apply_function finish
    contains
loads = refl

needs : copy_all_dependencies four 4 3 true true ≡ some (some (0 ∷ 1 ∷ 2 ∷ []))
unfolding copy_all_dependencies copy_dependencies_list add_dependencies visit apply_function finish
    contains
needs = refl

-- An indirect dependency that is also a direct one is listed.
indirectly_needs : copy_indirect_dependencies four 4 3 true true ≡ some (some (0 ∷ 1 ∷ []))
unfolding copy_indirect_dependencies copy_dependencies_list add_dependencies visit apply_function
    finish contains
indirectly_needs = refl

abbrev rank : ℕ → ℕ
rank k = k

four-Acyclic : Acyclic four rank
unfolding contains
four-Acyclic k j h = ground arith

four-Complete : Complete four
four-Complete k = inr (needed k, refl)

copy_load_list-LoadOrder_example :
    LoadOrder four [] (0 ∷ 1 ∷ 2 ∷ 3 ∷ []) × (contains (0 ∷ 1 ∷ 2 ∷ 3 ∷ []) 3 ≡ true)
copy_load_list-LoadOrder_example =
    copy_load_list-LoadOrder four 4 3 true true (0 ∷ 1 ∷ 2 ∷ 3 ∷ []) loads

copy_load_list-Reaches_example : (contains (0 ∷ 1 ∷ 2 ∷ 3 ∷ []) 0 ≡ true) ↔ Reaches four 3 0
copy_load_list-Reaches_example =
    copy_load_list-Reaches four 4 3 true true (0 ∷ 1 ∷ 2 ∷ 3 ∷ []) loads 0

copy_load_list_total_example :
    (list : List ℕ) × (copy_load_list four 4 3 true true ≡ some (some list))
copy_load_list_total_example =
    copy_load_list_total four rank 4 3 true four-Acyclic four-Complete (omega arith)

copy_load_list-all_dependencies_example :
    copy_load_list four 4 3 true true ≡ some (some ((0 ∷ 1 ∷ 2 ∷ []) ++ 3 ∷ []))
copy_load_list-all_dependencies_example =
    copy_load_list-all_dependencies four rank 4 3 true true (0 ∷ 1 ∷ 2 ∷ []) four-Acyclic needs
