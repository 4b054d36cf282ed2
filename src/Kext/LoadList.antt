-- ===== src/Kext/LoadList.antt =====
-- The lists of dependencies of kext.subproj/OSKext.c. A kext is known by a number, which stands for
-- the object's address; equality of objects is equality of numbers.
pub mod Order
pub mod Reach
pub mod Within
pub mod Total
mod Tests
use iokit_user.Prelude.{
  zero, ◌>>=◌, not, ◌&&◌, true, ◌||◌, [], ◌==◌, ◌++◌, suc, ◌∷◌, some, leb, none, false, Option,
  if◌then◌else◌, Bool, ℕ, List,
}

-- What the graph search reads of the kexts: which are kernel components, and the array
-- loadInfo->dependencies of each, if it is there.
pub record Kexts : Type 0 where
  pub kernel_component : ℕ → Bool
  pub dependencies : ℕ → Option (List ℕ)

-- `__OSKextAddDependenciesContext`; `minDepth` and `depth` are arguments.
pub record Context : Type 0 where
  pub array : List ℕ
  pub error : Bool

-- `CFArrayGetFirstIndexOfValue` finds the value.
unfoldable pub contains : List ℕ → ℕ → Bool
contains [] k = false
contains (x ∷ xs) k = x == k || contains xs k

-- The label `finish` of the applier.
unfoldable pub finish : ℕ → ℕ → ℕ → Context → Context
finish min_depth depth k c =
    if c.error
    then c
    else if leb min_depth depth
    then (if contains c.array k then c else record c { array = c.array ++ k ∷ [] })
    else c

-- `CFArrayApplyFunction`: the calls, one after another.
unfoldable pub apply_function : (ℕ → Context → Option Context) → List ℕ → Context → Option Context
apply_function call [] c = some c
apply_function call (k ∷ ks) c = do c' ← call k c; apply_function call ks c'

-- The dependencies of a kext, before it: a kernel component has none, and a missing array is an error.
unfoldable pub visit :
    Bool → Option (List ℕ) → (ℕ → Context → Option Context) → Context → Option Context
visit true ds call c = some c
visit false none call c = some (record c { error = true })
visit false (some ks) call c = apply_function call ks c

-- `__OSKextAddDependenciesApplierFunction`. The fuel bounds how deep the calls are nested; `none`
-- means that it did not suffice.
unfoldable pub add_dependencies : Kexts → ℕ → ℕ → ℕ → ℕ → Context → Option Context
add_dependencies g min_depth zero depth k c = none
add_dependencies g min_depth (suc fuel) depth k c = do
  c' ←
      visit (g.kernel_component k) (g.dependencies k)
        (add_dependencies g min_depth fuel (suc depth)) c
  some (finish min_depth depth k c')

-- `__OSKextCopyDependenciesList`, behind the resolution of the dependencies, whose result is
-- `resolved`; in the result, `none` is the null pointer.
unfoldable pub copy_dependencies_list : Kexts → ℕ → ℕ → Bool → Bool → ℕ → Option (Option (List ℕ))
copy_dependencies_list g fuel k resolved need_all min_depth =
    if need_all && not resolved then some none else do
      c ← add_dependencies g min_depth fuel 0 k (record { array = []; error = false })
      some (if c.error then none else some c.array)

-- `OSKextCopyLoadList`
unfoldable pub copy_load_list : Kexts → ℕ → ℕ → Bool → Bool → Option (Option (List ℕ))
copy_load_list g fuel k resolved need_all = copy_dependencies_list g fuel k resolved need_all 0

-- `OSKextCopyAllDependencies`
pub copy_all_dependencies : Kexts → ℕ → ℕ → Bool → Bool → Option (Option (List ℕ))
copy_all_dependencies g fuel k resolved need_all =
    copy_dependencies_list g fuel k resolved need_all 1

-- `OSKextCopyIndirectDependencies`
pub copy_indirect_dependencies : Kexts → ℕ → ℕ → Bool → Bool → Option (Option (List ℕ))
copy_indirect_dependencies g fuel k resolved need_all =
    copy_dependencies_list g fuel k resolved need_all 2
