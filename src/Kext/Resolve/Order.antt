-- ===== src/Kext/Resolve/Order.antt =====
-- The order in which `__OSKextResolveDependencies` of kext.subproj/OSKext.c visits kexts where it
-- succeeds.
use iokit_user.Kext.Resolve.Choices.{error-collection_error, collect-Satisfies}
use iokit_user.Kext.Resolve.Cases.{resolve-cases, resolve-zero, found, started, enter-cases}
use iokit_user.Kext.LoadInfo.Flush.Frame.{flush_dependencies-kept, set_info_other}
use mathlib.Core.Bool.{false≢true}
use mathlib.Core.Path.{subst}
use iokit_user.Kext.Resolve.Ordered.{
  Met, Ordered, Ordered-kept, again-Ordered, finish-Ordered, other_member,
}
use iokit_user.Kext.Resolve.Success.{finish_failed, conclude-true}
use iokit_user.Kext.Resolve.Stack.{resolve-Visits, resolve_each-VisitsAll, Visits}
use iokit_user.Kext.LoadList.Order.{
  contains_last, none-ne-some, followed, depends_on, AllIn, LoadOrder,
}
use iokit_user.Prelude.{
  ℕ, ℕ, ℕ, ℕ, ℕ, ℕ, ℕ, ℕ, ℕ, ℕ, ℕ, ℕ, ℕ, ℕ, ℕ, ℕ, ℕ, ℕ, ℕ, ℕ, ℕ, ℕ, ℕ, ℕ, ℕ, zero, suc, ==_iff,
  ◌==◌, arith, >>=-eq-some, not, ◌||◌, some_inj, ap, refl, false, Option, ◌++◌, sym, ◌∙◌, inr, ◌∷◌,
  some, inl, [], true, List, Bool, ◌≡◌, ℕ,
}
use iokit_user.Kext.LoadList.{contains}
use iokit_user.Kext.LoadInfo.{
  LoadInfos, LoadInfos, LoadInfos, LoadInfos, LoadInfos, LoadInfos, LoadInfos, LoadInfos, LoadInfos,
  LoadInfos, LoadInfos, LoadInfos, LoadInfos, LoadInfos, LoadInfos, LoadInfos, LoadInfos, LoadInfos,
  LoadInfos, LoadInfos, LoadInfos, LoadInfos, LoadInfos, LoadInfos, LoadInfos, flush_dependencies,
  set_info, dependencies_of, LoadInfos, LoadInfo,
}
use iokit_user.Kext.Resolve.{fresh, list_of, resolve, enter, resolve_each, graph, Rules, Run}

-- The loop without an error: no visit failed.
module _ (r : Rules) (call : ℕ → Run → Option (Bool × Run))
    (orders : (k : ℕ) (run run' : Run)
      → call k run ≡ some (true, run')
      → Ordered r run
      → Ordered r run') where
  resolve_each_error :
      (ks : List ℕ) (error : Bool) (run run' : Run)
      → resolve_each r call ks error run ≡ some (false, run')
      → error ≡ false
  unfolding resolve_each
  resolve_each_error [] error run run' e = ap (λ (p : Bool × Run). p.0) (some_inj e)
  resolve_each_error (x ∷ xs) error run run' e =
      let ((ok, mid), one, rest) =
        >>=-eq-some (call x run) (λ (p : Bool × Run). resolve_each r call xs (error || not p.0) p.1)
          e in
      ground (arith, resolve_each_error xs (error || not ok) mid run' rest)

  pub resolve_each-Ordered :
      (ks : List ℕ) (error : Bool) (run run' : Run)
      → resolve_each r call ks error run ≡ some (false, run')
      → Ordered r run
      → Ordered r run'
  unfolding resolve_each
  resolve_each-Ordered [] error run run' e o =
      subst (Ordered r) (ap (λ (p : Bool × Run). p.1) (some_inj e)) o
  resolve_each-Ordered (x ∷ xs) error run run' e o =
      let ((ok, mid), one, rest) =
        >>=-eq-some (call x run) (λ (p : Bool × Run). resolve_each r call xs (error || not p.0) p.1)
          e in
      let fine : (error || not ok) ≡ false =
        resolve_each_error xs (error || not ok) mid run' rest in
      let succeeded : ok ≡ true = ground arith in
      let o' : Ordered r mid = orders x run mid (one ∙ ap (λ b. some (b, mid)) succeeded) o in
      resolve_each-Ordered xs (error || not ok) mid run' rest o'

set_info_self :
    (s : LoadInfos) (k : ℕ) (i : LoadInfo) → dependencies_of (set_info s k i k) ≡ i.dependencies
set_info_self s k i = rw ((==_iff k k).1 refl) refl

-- A kext that is neither on the stack nor visited is set up without harm to the order.
set_info-Ordered :
    (r : Rules) (k : ℕ) (i : LoadInfo) (run : Run)
    → contains run.resolved_set k ≡ false
    → Ordered r run
    → Ordered r (record run { infos = set_info run.infos k i })
set_info-Ordered r k i run new o =
    Ordered-kept r run (record run { infos = set_info run.infos k i }) refl
      (λ x h. ap dependencies_of (set_info_other run.infos k i x (not_new x h))) o
  where
    not_new : (x : ℕ) → contains run.resolved_set x ≡ true → (x == k) ≡ false
    not_new x h = other_member run.resolved_set k x new h

module _ (r : Rules) (lp64 : r.lp64 ≡ true) (call : ℕ → Run → Option (Bool × Run))
    (visits : (k : ℕ) (run run' : Run) (b : Bool) → call k run ≡ some (b, run') → Visits k run run')
    (orders : (k : ℕ) (run run' : Run)
      → call k run ≡ some (true, run')
      → Ordered r run
      → Ordered r run') where
  enter-Ordered :
      (k : ℕ) (run run' : Run)
      → contains run.resolved_set k ≡ false
      → contains run.loop_stack k ≡ true
      → enter r call k run ≡ some (true, run')
      → Ordered r run
      → Ordered r run'
  enter-Ordered k run run' new pushed e o = elim (enter-cases r call k run (true, run') e) [
    | inl (q, f) ↦ rw (ap (λ (p : Bool × Run). p.1) f) (
        finish-Ordered r k true (record run { infos = set_info run.infos k (started k run) })
          (kernel_bare (set_info run.infos k (started k run)) q) (inl q)
          (set_info-Ordered r k (started k run) run new o))
    | inr (q, error, mid, each, f) ↦
        let run2 : Run = record run { infos = set_info run.infos k (found r k run).info } in
        let (fine, at_end) = conclude-true r k error mid run' (mid.infos k) lp64 (sym f) in
        let v = resolve_each-VisitsAll r call visits _ _ run2 mid error each in
        let o' : Ordered r mid =
          resolve_each-Ordered r call orders _ _ run2 mid (each ∙ ap (λ b. some (b, mid)) fine)
            (set_info-Ordered r k (found r k run).info run new o) in
        let (ks, has, all) =
          collect-Satisfies r (r.declared k) (record { info = started k run; error = false }) []
            refl
            (error-collection_error r k (found r k run) (
              resolve_each_error r call orders _ _ run2 mid
                (each ∙ ap (λ b. some (b, mid)) fine))) in
        let kept : dependencies_of (mid.infos k) ≡ some ks =
          v.kept k (ground (arith, pushed))
          ∙ set_info_self run.infos k (found r k run).info
          ∙ has in
        rw at_end (
          finish-Ordered r k true mid
            (all_listed mid q kept (subst (λ d. AllIn (list_of d) mid.resolved_set) has v.visited))
            (inr (ks, kept, all)) o')
  ]
    where
      kernel_bare :
          (s : LoadInfos)
          → r.kernel_component k ≡ true
          → AllIn (depends_on (graph r s) k) run.resolved_set
      kernel_bare s q =
          subst (λ b. AllIn (followed b (dependencies_of (s k))) run.resolved_set) (sym q) tt

      all_listed :
          (mid : Run) {ks : List ℕ}
          → r.kernel_component k ≡ false
          → dependencies_of (mid.infos k) ≡ some ks
          → AllIn ks mid.resolved_set
          → AllIn (depends_on (graph r mid.infos) k) mid.resolved_set
      all_listed mid q kept all =
          subst (λ b. AllIn (followed b (dependencies_of (mid.infos k))) mid.resolved_set) (sym q)
            (subst (λ o. AllIn (followed false o) mid.resolved_set) (sym kept) all)

flushed-Ordered :
    (r : Rules) (flush_fuel k : ℕ) (run : Run) (s : LoadInfos)
    → contains run.resolved_set k ≡ false
    → flush_dependencies r.kernel_component r.library.all_kexts flush_fuel k run.infos ≡ some s
    → Ordered r run
    → Ordered r (record run { infos = s; loop_stack = run.loop_stack ++ k ∷ [] })
flushed-Ordered r flush_fuel k run s new flushed o =
    Ordered-kept r run (record run { infos = s; loop_stack = run.loop_stack ++ k ∷ [] }) refl
      (λ x h.
        flush_dependencies-kept r.kernel_component r.library.all_kexts flush_fuel k run.infos s x
          flushed (other_member run.resolved_set k x new h))
      o

resolve-Ordered :
    (r : Rules) (flush_fuel fuel k : ℕ) (run run' : Run)
    → r.lp64 ≡ true
    → resolve r flush_fuel fuel k run ≡ some (true, run')
    → Ordered r run
    → Ordered r run'
resolve-Ordered r flush_fuel zero k run run' lp64 e o =
    absurd (none-ne-some (sym (resolve-zero r flush_fuel k run) ∙ e))
resolve-Ordered r flush_fuel (suc fuel) k run run' lp64 e o =
    elim (resolve-cases r flush_fuel fuel k run (true, run') e) [
      | inl f ↦ absurd (false≢true (sym (ap (λ (p : Bool × Run). p.0) (f ∙ finish_failed k run))))
      | inr (inl (q, f)) ↦ rw (ap (λ (p : Bool × Run). p.1) f) (again-Ordered r k false run q o)
      | inr (inr (q, n, s, flushed, entered)) ↦
          enter-Ordered r lp64 (resolve r flush_fuel fuel) (resolve-Visits r flush_fuel fuel)
            (λ j u u' g p. resolve-Ordered r flush_fuel fuel j u u' lp64 g p) k _ run' q
            (contains_last run.loop_stack k) entered
            (flushed-Ordered r flush_fuel k run s q flushed o)
    ]

-- Where a kext's dependencies are resolved, on a 64-bit system and with nothing resolved before, the
-- kexts visited stand each behind all of its dependencies, the kext among them, and each that is no
-- kernel component has in its array, one by one, the kexts chosen for its declared dependencies.
pub resolve-LoadOrder :
    (r : Rules) (flush_fuel fuel k : ℕ) (s : LoadInfos) (run : Run)
    → r.lp64 ≡ true
    → resolve r flush_fuel fuel k (fresh r s) ≡ some (true, run)
    → LoadOrder (graph r run.infos) [] run.resolved_set
      × (contains run.resolved_set k ≡ true)
      × ((x : ℕ) → contains run.resolved_set x ≡ true → Met r run.infos x)
resolve-LoadOrder r flush_fuel fuel k s run lp64 e =
    let o =
      resolve-Ordered r flush_fuel fuel k (fresh r s) run lp64 e
        (record { order = tt; complete = λ x h. absurd (false≢true (unfold contains in h)) }) in
    (o.order, (resolve-Visits r flush_fuel fuel k (fresh r s) run true e).visited, o.complete)
