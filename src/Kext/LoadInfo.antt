-- ===== src/Kext/LoadInfo.antt =====
-- The load information of kexts in kext.subproj/OSKext.c, and what flushing dependencies does to it.
-- `none` stands for a kext without load information; an allocation never fails.
pub mod Flush
mod Tests
use iokit_user.Prelude.{
  [], zero, suc, ◌>>=◌, ◌∷◌, ◌&&◌, none, ◌||◌, some, false, ◌==◌, List, if◌then◌else◌, Option, Bool,
  ℕ,
}
use iokit_user.Kext.LoadList.{contains}

-- The part of `__OSKextLoadInfo` that concerns dependencies.
pub record LoadInfo : Type 0 where
  pub dependencies : Option (List ℕ)
  pub has_raw_kernel_dependency : Bool
  pub has_kernel_dependency : Bool
  pub has_kpi_dependency : Bool
  pub has_private_kpi_dependency : Bool
  pub has_all_dependencies : Bool
  pub dependencies_valid : Bool
  pub dependencies_authentic : Bool

abbrev pub LoadInfos : Type 0
LoadInfos = ℕ → Option LoadInfo

abbrev pub set_info : LoadInfos → ℕ → LoadInfo → LoadInfos
set_info s k i x = if x == k then some i else s x

-- The array of dependencies, if it is there.
abbrev pub dependencies_of : Option LoadInfo → Option (List ℕ)
dependencies_of none = none
dependencies_of (some i) = i.dependencies

abbrev pub has_all : Option LoadInfo → Bool
has_all none = false
has_all (some i) = i.has_all_dependencies

abbrev pub listed : Option (List ℕ) → ℕ → Bool
listed none k = false
listed (some ks) k = contains ks k

-- `__OSKextCreateLoadInfo`
unfoldable pub created : Option LoadInfo → LoadInfo
created (some i) = i
created none = record {
  dependencies = none;
  has_raw_kernel_dependency = false;
  has_kernel_dependency = false;
  has_kpi_dependency = false;
  has_private_kpi_dependency = false;
  has_all_dependencies = false;
  dependencies_valid = false;
  dependencies_authentic = false;
}

-- `hasAllDependencies = 0`
pub unflagged : Option LoadInfo → Option LoadInfo
unflagged none = none
unflagged (some i) = some (record i { has_all_dependencies = false })

abbrev pub update_info : LoadInfos → ℕ → Option LoadInfo → LoadInfos
update_info s k o x = if x == k then o else s x

module _ (kernel_component : ℕ → Bool) where
  -- `__OSKextHasAllDependencies`
  unfoldable pub has_all_dependencies : LoadInfos → ℕ → Bool
  has_all_dependencies s k = kernel_component k || has_all (s k)

  -- One round of the loop, with the recursive call.
  pub clear_one : (ℕ → LoadInfos → Option LoadInfos) → ℕ → ℕ → LoadInfos → Option LoadInfos
  clear_one call k c s =
      if listed (dependencies_of (s c)) k && has_all_dependencies s c
      then call c (update_info s c (unflagged (s c)))
      else some s

  pub clear_each : (ℕ → LoadInfos → Option LoadInfos) → ℕ → List ℕ → LoadInfos → Option LoadInfos
  clear_each call k [] s = some s
  clear_each call k (c ∷ cs) s = do s' ← clear_one call k c s; clear_each call k cs s'

  -- `__OSKextClearHasAllDependenciesOnKext`. The fuel bounds how deep the calls are nested; `none`
  -- means that it did not suffice.
  pub clear_has_all_dependencies : List ℕ → ℕ → ℕ → LoadInfos → Option LoadInfos
  clear_has_all_dependencies all_kexts zero k s = none
  clear_has_all_dependencies all_kexts (suc fuel) k s =
      clear_each (clear_has_all_dependencies all_kexts fuel) k all_kexts s

-- What is cleared in the kext itself.
pub flags_flushed : LoadInfo → LoadInfo
flags_flushed i = record i {
  has_raw_kernel_dependency = false;
  has_kernel_dependency = false;
  has_kpi_dependency = false;
}

pub array_flushed : LoadInfo → LoadInfo
array_flushed i = record i {
  dependencies = none;
  has_all_dependencies = false;
  dependencies_valid = false;
  dependencies_authentic = false;
}

module _ (kernel_component : ℕ → Bool) (all_kexts : List ℕ) where
  pub flush_array : ℕ → ℕ → LoadInfos → LoadInfo → Option (List ℕ) → Option LoadInfos
  flush_array fuel k s i none = some (set_info s k i)
  flush_array fuel k s i (some ks) =
      clear_has_all_dependencies kernel_component all_kexts fuel k (set_info s k (array_flushed i))

  unfoldable pub flush_info : ℕ → ℕ → LoadInfos → Option LoadInfo → Option LoadInfos
  flush_info fuel k s none = some s
  flush_info fuel k s (some i) = flush_array fuel k s (flags_flushed i) i.dependencies

  -- `OSKextFlushDependencies` of a kext.
  unfoldable pub flush_dependencies : ℕ → ℕ → LoadInfos → Option LoadInfos
  flush_dependencies fuel k s = flush_info fuel k s (s k)

  -- `OSKextFlushDependencies` of all kexts: the list has the values of `__sOSKextsByURL`.
  pub flush_all : ℕ → List ℕ → LoadInfos → Option LoadInfos
  flush_all fuel [] s = some s
  flush_all fuel (k ∷ ks) s = do s' ← flush_dependencies fuel k s; flush_all fuel ks s'
