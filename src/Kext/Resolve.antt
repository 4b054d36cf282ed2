-- ===== src/Kext/Resolve.antt =====
-- The resolution of dependencies in kext.subproj/OSKext.c. What the code reads of the kexts, and does not
-- change here, is a `Rules`; the diagnostics and the log are left out, and so is what only an embedded
-- system does.
mod Cases
mod Ends
mod Success
pub mod Choices
pub mod Stack
pub mod Ordered
pub mod Order
pub mod Loading
mod Counting
pub mod Sound
pub mod Ending
pub mod Flag
pub mod Answers
mod Tests
use iokit_user.Prelude.{
  length, zero, ◌==◌, ◌>>=◌, not, suc, false, ◌&&◌, ◌++◌, ◌∷◌, ◌||◌, some, none, Option, List, ℤ,
  Bool, true, [], if◌then◌else◌, ℕ,
}
use iokit_user.KextVersion.{Text, parse_version_string}
use iokit_user.Kext.LoadList.{contains, Kexts, copy_load_list}
use iokit_user.Kext.Identifiers.{
  Library, Dictionary, is_compatible, kext_with_identifier, loaded_kext_with_identifier,
  compatible_kext_with_identifier,
}
use iokit_user.Kext.LoadInfo.{
  LoadInfo, LoadInfos, set_info, dependencies_of, created, has_all_dependencies, flush_dependencies,
}

pub record Rules : Type 0 where
  pub library : Library
  pub kexts : Dictionary
  -- Whether the info dictionary can be read, and whether the kext is valid.
  pub has_info : ℕ → Bool
  pub is_valid : ℕ → Bool
  pub kernel_component : ℕ → Bool
  pub is_interface : ℕ → Bool
  pub declares_executable : ℕ → Bool
  pub supports_architecture : ℕ → Bool
  -- The pairs of `OSBundleLibraries`: an identifier, and the text of a version.
  pub declared : ℕ → List (ℕ × Text)
  -- The tests of an identifier: the kernel itself, the prefixes, and the private KPI.
  pub is_kernel_lib : ℕ → Bool
  pub has_kernel_prefix : ℕ → Bool
  pub has_kpi_prefix : ℕ → Bool
  pub is_private_kpi : ℕ → Bool
  pub compatibility_identifier : ℕ
  pub has_apple_prefix : ℕ → Bool
  pub copyright_is_valid : ℕ → Bool
  -- `__OSKextIsArchitectureLP64`
  pub lp64 : Bool

-- The state of a run: the load information, `resolvedSet` in the order of insertion, and `loopStack`.
pub record Run : Type 0 where
  pub infos : LoadInfos
  pub resolved_set : List ℕ
  pub loop_stack : List ℕ

-- `CFSetAddValue`
pub add_to_set : List ℕ → ℕ → List ℕ
add_to_set xs k = if contains xs k then xs else xs ++ k ∷ []

-- `CFArrayRemoveValueAtIndex` at the last index.
pub drop_last : List ℕ → List ℕ
drop_last [] = []
drop_last (x ∷ []) = []
drop_last (x ∷ y ∷ xs) = x ∷ drop_last (y ∷ xs)

-- `hasAllDependencies = 1`, if there is load information.
pub flagged_resolved : LoadInfos → ℕ → Option LoadInfo → LoadInfos
flagged_resolved s k none = s
flagged_resolved s k (some i) = set_info s k (record i { has_all_dependencies = true })

-- The label `finish`; the second argument is `addedToLoopStack`.
pub finish : ℕ → Bool → Bool → Run → Bool × Run
finish k added result run = (
  result,
  record {
    infos = if result then flagged_resolved run.infos k (run.infos k) else run.infos;
    resolved_set = add_to_set run.resolved_set k;
    loop_stack = if added then drop_last run.loop_stack else run.loop_stack;
  },
)

-- What the search for a declared dependency comes to.
pub data Choice : Type 0 where
  -- The loaded kext is not compatible.
  refused : Choice
  missing : Choice
  usable : ℕ → Choice

-- The load information with the dependencies found so far, and `error`.
pub record Found : Type 0 where
  pub info : LoadInfo
  pub error : Bool

pub with_dependency : ℕ → Option (List ℕ) → Option (List ℕ)
with_dependency x none = none
with_dependency x (some ks) = some (ks ++ x ∷ [])

abbrev pub list_of : Option (List ℕ) → List ℕ
list_of none = []
list_of (some ks) = ks

module _ (r : Rules) where
  pub chosen : Option ℕ → Option ℕ → ℤ → Choice
  chosen (some x) compatible v = if is_compatible r.library x v then usable x else refused
  chosen none none v = missing
  chosen none (some x) v = usable x

  -- A loaded kext with the identifier, or else any compatible one.
  pub choose : ℕ → ℤ → Choice
  choose i v =
      chosen (loaded_kext_with_identifier r.library r.kexts i)
        (compatible_kext_with_identifier r.library (some r.kexts) i v) v

  -- The flags for the kinds of kernel dependencies.
  pub noted : ℕ → LoadInfo → LoadInfo
  noted i info =
      if r.is_kernel_lib i
      then record info { has_raw_kernel_dependency = true }
      else if r.has_kernel_prefix i
      then record info { has_kernel_dependency = true }
      else if r.has_kpi_prefix i
      then record info {
        has_kpi_dependency = true;
        has_private_kpi_dependency = r.is_private_kpi i || info.has_private_kpi_dependency;
      }
      else info

  -- A round of the loop over the declared dependencies.
  pub add_choice : Choice → ℕ → Found → Found
  add_choice refused i f = record f { error = true }
  add_choice missing i f = record { info = noted i f.info; error = true }
  add_choice (usable x) i f = record f {
    info = record (noted i f.info) {
      dependencies = with_dependency x (noted i f.info).dependencies;
    };
  }

  pub collect : List (ℕ × Text) → Found → Found
  collect [] f = f
  collect ((i, version) ∷ ds) f =
      collect ds (add_choice (choose i (parse_version_string (some version))) i f)

  -- The tests behind the loop: no raw kernel, and one dependency for an interface.
  pub collection_error : ℕ → Found → Bool
  collection_error k f =
      f.error
      || f.info.has_raw_kernel_dependency
      || (r.is_interface k && not (length (list_of f.info.dependencies) == 1))

  -- The loop that resolves the dependencies, with the recursive call.
  pub resolve_each : (ℕ → Run → Option (Bool × Run)) → List ℕ → Bool → Run → Option (Bool × Run)
  resolve_each call [] error run = some (error, run)
  resolve_each call (x ∷ xs) error run = do
    (resolved, run') ← call x run
    resolve_each call xs (error || not resolved) run'

  -- The tests of a kext with a private KPI, and what `error` says.
  pub judge : ℕ → Bool → LoadInfo → Run → Bool × Run
  judge k error i run =
      if i.has_private_kpi_dependency
        && (not (r.has_apple_prefix k) || not (r.copyright_is_valid k))
      then finish k true false run
      else finish k true (not error) run

  -- A 32-bit kext without a kernel dependency is linked against the whole kernel.
  pub with_kernel : Option ℕ → ℕ → Bool → LoadInfo → Run → Bool × Run
  with_kernel none k error i run = finish k true false run
  with_kernel (some x) k error i run = judge k error i (record run {
    infos = set_info run.infos k (record i { dependencies = with_dependency x i.dependencies });
  })

  pub conclude : ℕ → Bool → Run → Option LoadInfo → Bool × Run
  conclude k error run none = finish k true false run
  conclude k error run (some i) =
      if r.lp64
      then (if r.declares_executable k && r.supports_architecture k && i.has_kernel_dependency
          then finish k true false run
          else judge k error i run)
      else if r.declares_executable k && not i.has_kernel_dependency && not i.has_kpi_dependency
      then with_kernel (kext_with_identifier (some r.kexts) r.compatibility_identifier) k error i
          run
      else judge k error i run

  -- The part from the flush on, for a kext that is on the stack now.
  pub enter : (ℕ → Run → Option (Bool × Run)) → ℕ → Run → Option (Bool × Run)
  enter call k run =
      let start = record (created (run.infos k)) { dependencies = some [] } in
      if r.kernel_component k
      then some (finish k true true (record run { infos = set_info run.infos k start }))
      else let f = collect (r.declared k) (record { info = start; error = false }) in
        do
          (error, run') ←
              resolve_each call (list_of f.info.dependencies) (collection_error k f)
                (record run { infos = set_info run.infos k f.info })
          some (conclude k error run' (run'.infos k))

  -- `__OSKextResolveDependencies`. The fuel bounds how deep the calls are nested, and the second one how
  -- deep those of the flush are; `none` means that one did not suffice.
  pub resolve : ℕ → ℕ → ℕ → Run → Option (Bool × Run)
  resolve flush_fuel zero k run = none
  resolve flush_fuel (suc fuel) k run =
      if not (r.has_info k) || not (r.is_valid k)
      then some (finish k false false run)
      else if contains run.resolved_set k
      then some (finish k false true run)
      else if contains run.loop_stack k
      then some (finish k false false run)
      else do
        infos ← flush_dependencies r.kernel_component r.library.all_kexts flush_fuel k run.infos
        enter (resolve flush_fuel fuel) k
            (record run { infos = infos; loop_stack = run.loop_stack ++ k ∷ [] })

  -- The graph of the load lists.
  abbrev pub graph : LoadInfos → Kexts
  graph s = record {
    kernel_component = r.kernel_component;
    dependencies = λ x. dependencies_of (s x);
  }

  abbrev pub fresh : LoadInfos → Run
  fresh s = record { infos = s; resolved_set = []; loop_stack = [] }

  -- Whether two kexts of a list have an identifier in common.
  pub same_identifier : Option ℕ → Option ℕ → Bool
  same_identifier (some i) (some j) = i == j
  same_identifier none o = false
  same_identifier (some i) none = false

  pub shared_with : ℕ → List ℕ → Bool
  shared_with k [] = false
  shared_with k (x ∷ xs) =
      same_identifier (r.library.identifier k) (r.library.identifier x) || shared_with k xs

  pub has_duplicates : List ℕ → Bool
  has_duplicates [] = false
  has_duplicates (x ∷ xs) = shared_with x xs || has_duplicates xs

  -- The check of the load list, once the dependencies are resolved.
  pub check_list : Bool → Option (List ℕ) → Bool
  check_list false list = false
  check_list true none = false
  check_list true (some list) = not (has_duplicates list)

  -- `OSKextResolveDependencies` of a kext. The load list asks for the resolution again, which then
  -- answers by the flag.
  pub resolve_dependencies : ℕ → ℕ → ℕ → LoadInfos → Option (Bool × LoadInfos)
  resolve_dependencies flush_fuel fuel k s =
      if has_all_dependencies r.kernel_component s k then some (true, s) else do
        (resolved, run) ← resolve flush_fuel fuel k (fresh s)
        list ←
            if resolved
            then copy_load_list (graph run.infos) fuel k
                (has_all_dependencies r.kernel_component run.infos k) true
            else some none
        some (check_list resolved list, run.infos)
