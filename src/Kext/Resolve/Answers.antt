-- ===== src/Kext/Resolve/Answers.antt =====
-- What `OSKextResolveDependencies` of kext.subproj/OSKext.c answers.
use mathlib.Core.Path.{subst}
use mathlib.Core.Bool.{false≢true}
use iokit_user.Prelude.{
  [], ◌∷◌, get_elem?, List, zero, >>=-eq-some, arith, some_inj, suc, ap, ◌<◌, ◌∙◌, Bool-cases,
  length, sym, ◌>>=◌, refl, inr, none, inl, some, true, ◌≡◌, false, Bool, ℕ, Option,
}
use iokit_user.Kext.LoadList.{contains, copy_load_list}
use iokit_user.Kext.LoadList.Order.{copy_load_list-LoadOrder, AllIn, LoadOrder, none-ne-some}
use iokit_user.Kext.LoadInfo.{LoadInfos, has_all_dependencies}
use iokit_user.Kext.LoadInfo.Flush.Ending.{KernelBare}
use iokit_user.Kext.Resolve.{
  Rules, Run, resolve, graph, fresh, resolve_dependencies, has_duplicates, shared_with,
  same_identifier, check_list,
}
use iokit_user.Kext.Resolve.Order.{resolve-LoadOrder}
use iokit_user.Kext.Resolve.Flag.{resolve-has_all_dependencies}
use iokit_user.Kext.Resolve.Counting.{LoadOrder-length}
use iokit_user.Kext.Resolve.Ending.{resolve_total}
use iokit_user.Kext.Resolve.Sound.{AllListed}
use iokit_user.Kext.Resolve.Loading.{resolve-copy_load_list}

-- The ways in which the answer comes about.
module _ (r : Rules) (flush_fuel fuel k : ℕ) (s : LoadInfos) where
  resolve_dependencies_flagged :
      has_all_dependencies r.kernel_component s k ≡ true
      → resolve_dependencies r flush_fuel fuel k s ≡ some (true, s)
  unfolding resolve_dependencies
  resolve_dependencies_flagged q = rw q refl

  resolve_dependencies-none :
      has_all_dependencies r.kernel_component s k ≡ false
      → resolve r flush_fuel fuel k (fresh r s) ≡ none
      → resolve_dependencies r flush_fuel fuel k s ≡ none
  unfolding resolve_dependencies
  resolve_dependencies-none n e = rw n (rw e refl)

  module _ (n : has_all_dependencies r.kernel_component s k ≡ false) (run : Run) where
    resolve_dependencies_failed :
        resolve r flush_fuel fuel k (fresh r s) ≡ some (false, run)
        → resolve_dependencies r flush_fuel fuel k s ≡ some (false, run.infos)
    unfolding resolve_dependencies check_list
    resolve_dependencies_failed e = rw n (rw e refl)

    resolve_dependencies_resolved :
        resolve r flush_fuel fuel k (fresh r s) ≡ some (true, run)
        → resolve_dependencies r flush_fuel fuel k s ≡ (
            copy_load_list (graph r run.infos) fuel k true true >>= λ list.
            some (check_list r true list, run.infos))
    unfolding resolve_dependencies
    resolve_dependencies_resolved e = rw n (rw e (rw flag refl))
      where
        flag : has_all_dependencies r.kernel_component run.infos k ≡ true
        flag =
            resolve-has_all_dependencies r flush_fuel fuel k (fresh r s) run
              (unfold contains in refl) e

-- Where every kext that is recorded under an identifier is listed, the kext to resolve among them, and no
-- kernel component lists a dependency, a 64-bit system has an answer, with nested calls no deeper than
-- there are kexts.
pub resolve_dependencies_total :
    (r : Rules) (flush_fuel fuel k : ℕ) (s : LoadInfos)
    → r.lp64 ≡ true
    → AllListed r
    → contains r.library.all_kexts k ≡ true
    → KernelBare r.kernel_component s
    → length r.library.all_kexts < flush_fuel
    → length r.library.all_kexts < fuel
    → (b : Bool) × (s' : LoadInfos) × (resolve_dependencies r flush_fuel fuel k s ≡ some (b, s'))
resolve_dependencies_total r flush_fuel fuel k s lp64 all m b ff h =
    elim (Bool-cases (has_all_dependencies r.kernel_component s k)) [
      | inl q ↦ (true, s, resolve_dependencies_flagged r flush_fuel fuel k s q)
      | inr q ↦
          let (resolved, run, e, bare, visited) =
            resolve_total r flush_fuel fuel k s all m b ff h in
          by_result q run visited resolved e
    ]
  where
    by_result :
        has_all_dependencies r.kernel_component s k ≡ false
        → (run : Run) → AllIn run.resolved_set r.library.all_kexts
        → (resolved : Bool) → resolve r flush_fuel fuel k (fresh r s) ≡ some (resolved, run)
        → (b : Bool) × (s' : LoadInfos) × (resolve_dependencies r flush_fuel fuel k s
            ≡ some (b, s'))
    by_result q run visited false e =
        (false, run.infos, resolve_dependencies_failed r flush_fuel fuel k s q run e)
    by_result q run visited true e =
        let (order, member, met) = resolve-LoadOrder r flush_fuel fuel k s run lp64 e in
        let few =
          LoadOrder-length (graph r run.infos) r.library.all_kexts run.resolved_set order visited in
        let (list, copied, ordered, has) =
          resolve-copy_load_list r flush_fuel fuel fuel k true s run lp64 e
            (omega (arith, few, h)) in
        (
          check_list r true (some list),
          run.infos,
          resolve_dependencies_resolved r flush_fuel fuel k s q run e ∙ rw copied refl,
        )

-- Once the dependencies of a kext could be resolved, the next request answers yes and changes nothing,
-- whatever the answer to the first one was.
pub resolve_dependencies_again :
    (r : Rules) (flush_fuel fuel k : ℕ) (s s' : LoadInfos) (run : Run) (b : Bool)
    → resolve r flush_fuel fuel k (fresh r s) ≡ some (true, run)
    → resolve_dependencies r flush_fuel fuel k s ≡ some (b, s')
    → resolve_dependencies r flush_fuel fuel k s' ≡ some (true, s')
resolve_dependencies_again r flush_fuel fuel k s s' run b resolved e =
    elim (Bool-cases (has_all_dependencies r.kernel_component s k)) [
      | inl q ↦
          let same_infos : s ≡ s' =
            ap (λ (p : Bool × LoadInfos). p.1)
              (some_inj (sym (resolve_dependencies_flagged r flush_fuel fuel k s q) ∙ e)) in
          resolve_dependencies_flagged r flush_fuel fuel k s'
            (subst (λ t. has_all_dependencies r.kernel_component t k ≡ true) same_infos q)
      | inr q ↦
          let (list, copied, rest) =
            >>=-eq-some (copy_load_list (graph r run.infos) fuel k true true)
              (λ list. some (check_list r true list, run.infos))
              (sym (resolve_dependencies_resolved r flush_fuel fuel k s q run resolved) ∙ e) in
          resolve_dependencies_flagged r flush_fuel fuel k s' (
            subst (λ t. has_all_dependencies r.kernel_component t k ≡ true)
              (ap (λ (p : Bool × LoadInfos). p.1) (some_inj rest))
              (resolve-has_all_dependencies r flush_fuel fuel k (fresh r s) run
                (unfold contains in refl) resolved))
    ]

get_elem?-shared_with :
    (r : Rules) (k : ℕ) (xs : List ℕ) (j y : ℕ)
    → shared_with r k xs ≡ false
    → get_elem? xs j ≡ some y
    → same_identifier r (r.library.identifier k) (r.library.identifier y) ≡ false
unfolding shared_with
get_elem?-shared_with r k [] j y h e = absurd (none-ne-some e)
get_elem?-shared_with r k (x ∷ xs) zero y h e =
    subst (λ z. same_identifier r (r.library.identifier k) (r.library.identifier z) ≡ false)
      (some_inj e) (ground (arith, h))
get_elem?-shared_with r k (x ∷ xs) (suc j) y h e =
    get_elem?-shared_with r k xs j y (ground (arith, h)) e

get_elem?-has_duplicates :
    (r : Rules) (xs : List ℕ) (i j x y : ℕ)
    → has_duplicates r xs ≡ false
    → i < j
    → get_elem? xs i ≡ some x
    → get_elem? xs j ≡ some y
    → same_identifier r (r.library.identifier x) (r.library.identifier y) ≡ false
unfolding has_duplicates
get_elem?-has_duplicates r [] i j x y h l e f = absurd (none-ne-some e)
get_elem?-has_duplicates r (z ∷ zs) i zero x y h l e f = absurd (omega arith)
get_elem?-has_duplicates r (z ∷ zs) zero (suc j) x y h l e f =
    subst (λ w. same_identifier r (r.library.identifier w) (r.library.identifier y) ≡ false)
      (some_inj e) (get_elem?-shared_with r z zs j y (ground (arith, h)) f)
get_elem?-has_duplicates r (z ∷ zs) (suc i) (suc j) x y h l e f =
    get_elem?-has_duplicates r zs i j x y (ground (arith, h)) (omega (arith, l)) e f

check_list-true :
    (r : Rules) (o : Option (List ℕ))
    → check_list r true o ≡ true
    → (list : List ℕ) × (o ≡ some list) × (has_duplicates r list ≡ false)
unfolding check_list
check_list-true r none h = absurd (false≢true h)
check_list-true r (some list) h = (list, refl, ground (arith, h))

-- A list without two kexts of one identifier.
abbrev pub OneEach : Rules → List ℕ → Type 0
OneEach r list =
    (i j x y : ℕ)
    → i < j
    → get_elem? list i ≡ some x
    → get_elem? list j ≡ some y
    → same_identifier r (r.library.identifier x) (r.library.identifier y) ≡ false

-- Where the answer for a kext without the flag is yes, the kext has a load list, in which each kext stands
-- behind its dependencies, once, the kext among them, and no two have an identifier in common.
pub resolve_dependencies-OneEach :
    (r : Rules) (flush_fuel fuel k : ℕ) (s s' : LoadInfos)
    → has_all_dependencies r.kernel_component s k ≡ false
    → resolve_dependencies r flush_fuel fuel k s ≡ some (true, s')
    → (list : List ℕ) × (copy_load_list (graph r s') fuel k true true ≡ some (some list))
      × LoadOrder (graph r s') [] list
      × (contains list k ≡ true)
      × OneEach r list
resolve_dependencies-OneEach r flush_fuel fuel k s s' n e =
    by_resolve (resolve r flush_fuel fuel k (fresh r s)) refl
  where
    answer :
        (run : Run) (list : Option (List ℕ))
        → copy_load_list (graph r run.infos) fuel k true true ≡ some list
        → check_list r true list ≡ true
        → (list : List ℕ) × (copy_load_list (graph r run.infos) fuel k true true ≡ some (some list))
          × LoadOrder (graph r run.infos) [] list
          × (contains list k ≡ true)
          × OneEach r list
    answer run o copied checked =
        let (list, there, fine) = check_list-true r o checked in
        let copied' = copied ∙ ap some there in
        let (ordered, has) =
          copy_load_list-LoadOrder (graph r run.infos) fuel k true true list copied' in
        (list, copied', ordered, has, λ i j x y. get_elem?-has_duplicates r list i j x y fine)

    by_resolve :
        (o : Option (Bool × Run))
        → resolve r flush_fuel fuel k (fresh r s) ≡ o
        → (list : List ℕ) × (copy_load_list (graph r s') fuel k true true ≡ some (some list))
          × LoadOrder (graph r s') [] list
          × (contains list k ≡ true)
          × OneEach r list
    by_resolve none q =
        absurd (none-ne-some (sym (resolve_dependencies-none r flush_fuel fuel k s n q) ∙ e))
    by_resolve (some (false, run)) q = absurd (
        false≢true (
          ap (λ (p : Bool × LoadInfos). p.0)
            (some_inj (sym (resolve_dependencies_failed r flush_fuel fuel k s n run q) ∙ e))))
    by_resolve (some (true, run)) q =
        let (list, copied, rest) =
          >>=-eq-some (copy_load_list (graph r run.infos) fuel k true true)
            (λ list. some (check_list r true list, run.infos))
            (sym (resolve_dependencies_resolved r flush_fuel fuel k s n run q) ∙ e) in
        rw (← ap (λ (p : Bool × LoadInfos). p.1) (some_inj rest))
          (answer run list copied (ap (λ (p : Bool × LoadInfos). p.0) (some_inj rest)))
