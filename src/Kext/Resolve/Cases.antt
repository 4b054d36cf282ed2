-- ===== src/Kext/Resolve/Cases.antt =====
-- The ways in which `__OSKextResolveDependencies` of kext.subproj/OSKext.c goes.
use iokit_user.Prelude.{
  refl, none, zero, >>=-eq-some, inr, some_inj, ◌||◌, sym, not, inl, Bool-cases, ◌∷◌, ◌++◌, ◌⊎◌,
  true, [], suc, false, ◌≡◌, some, Bool, Option, ℕ,
}
use iokit_user.Kext.LoadList.{contains}
use iokit_user.Kext.LoadInfo.{flush_dependencies, LoadInfos, set_info, created, LoadInfo}
use iokit_user.Kext.Resolve.{
  conclude, collection_error, list_of, resolve_each, finish, enter, resolve, collect, Found, Rules,
  Run,
}

-- The load information of a kext that is entered, and what is found for it.
abbrev pub started : ℕ → Run → LoadInfo
started k run = record (created (run.infos k)) { dependencies = some [] }

abbrev pub found : Rules → ℕ → Run → Found
found r k run = collect r (r.declared k) (record { info = started k run; error = false })

module _ (r : Rules) (call : ℕ → Run → Option (Bool × Run)) (k : ℕ) (run : Run)
    (p : Bool × Run) where
  pub enter-cases :
      enter r call k run ≡ some p
      → ((r.kernel_component k ≡ true)
          × (p ≡ finish k true true (record run { infos = set_info run.infos k (started k run) })))
        ⊎ ((r.kernel_component k ≡ false)
            × (error : Bool) × (mid : Run) × (resolve_each r call
                  (list_of (found r k run).info.dependencies)
                  (collection_error r k (found r k run))
                  (record run { infos = set_info run.infos k (found r k run).info })
                ≡ some (error, mid))
            × (p ≡ conclude r k error mid (mid.infos k)))
  unfolding enter
  enter-cases e = elim (Bool-cases (r.kernel_component k)) [
    | inl q ↦ inl (q, sym (some_inj (rw q at e)))
    | inr q ↦
        let ((error, mid), each, rest) =
          >>=-eq-some
            (resolve_each r call (list_of (found r k run).info.dependencies)
              (collection_error r k (found r k run))
              (record run { infos = set_info run.infos k (found r k run).info }))
            (λ (o : Bool × Run). some (conclude r k o.0 o.1 (o.1.infos k))) (rw q at e) in
        inr (q, error, mid, each, sym (some_inj rest))
  ]

module _ (r : Rules) (flush_fuel fuel k : ℕ) (run : Run) (p : Bool × Run) where
  pub resolve-cases :
      resolve r flush_fuel (suc fuel) k run ≡ some p
      → (p ≡ finish k false false run)
        ⊎ (((contains run.resolved_set k ≡ true) × (p ≡ finish k false true run))
            ⊎ ((contains run.resolved_set k ≡ false)
                × (contains run.loop_stack k ≡ false)
                × (s : LoadInfos) × (flush_dependencies r.kernel_component r.library.all_kexts
                      flush_fuel k run.infos
                    ≡ some s)
                × (enter r
                      (resolve r flush_fuel fuel)
                      k
                      (record run { infos = s; loop_stack = run.loop_stack ++ k ∷ [] })
                    ≡ some p)))
  unfolding resolve
  resolve-cases e = elim (Bool-cases (not (r.has_info k) || not (r.is_valid k))) [
    | inl a ↦ inl (sym (some_inj (rw a at e)))
    | inr a ↦ elim (Bool-cases (contains run.resolved_set k)) [
      | inl b ↦ inr (inl (b, sym (some_inj (rw (a, b) at e))))
      | inr b ↦ elim (Bool-cases (contains run.loop_stack k)) [
        | inl c ↦ inl (sym (some_inj (rw (a, b, c) at e)))
        | inr c ↦
            let (s, flushed, rest) =
              >>=-eq-some
                (flush_dependencies r.kernel_component r.library.all_kexts flush_fuel k run.infos)
                (λ s.
                  enter r (resolve r flush_fuel fuel) k
                    (record run { infos = s; loop_stack = run.loop_stack ++ k ∷ [] }))
                (rw (a, b, c) at e) in
            inr (inr (b, c, s, flushed, rest))
      ]
    ]
  ]

pub resolve-zero :
    (r : Rules) (flush_fuel k : ℕ) (run : Run) → resolve r flush_fuel zero k run ≡ none
unfolding resolve
resolve-zero r flush_fuel k run = refl
