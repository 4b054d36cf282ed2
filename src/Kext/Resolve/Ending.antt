-- ===== src/Kext/Resolve/Ending.antt =====
-- The end of the recursion of `__OSKextResolveDependencies` of kext.subproj/OSKext.c.
use iokit_user.Kext.Resolve.Counting.{free-lt, free-le-length, free}
use iokit_user.Kext.Resolve.Sound.{
  conclude-Sound, collect-Listed, set_info-Sound, finish-Sound, AllListed, Sound,
}
use mathlib.Core.Path.{subst}
use mathlib.Core.Bool.{false≢true}
use iokit_user.Prelude.{
  zero, suc, not, refl, ◌||◌, some, ◌∙◌, inr, sym, inl, ◌<◌, Bool-cases, false, arith, length, [],
  true, Option, ◌++◌, ◌≡◌, ◌∷◌, Bool, List, ℕ,
}
use iokit_user.Kext.LoadList.{contains}
use iokit_user.Kext.LoadList.Order.{AllIn}
use iokit_user.Kext.LoadInfo.{flush_dependencies, LoadInfos, set_info}
use iokit_user.Kext.LoadInfo.Flush.Ending.{KernelBare}
use iokit_user.Kext.LoadInfo.Flush.Frame.{flush_dependencies_total}
use iokit_user.Kext.Resolve.{
  fresh, Rules, Run, resolve, enter, resolve_each, finish, conclude, list_of, collection_error,
}
use iokit_user.Kext.Resolve.Cases.{started, found}
use iokit_user.Kext.Resolve.Stack.{Visits, resolve-Visits}

-- A visit returns, and keeps the state sound.
abbrev Returns : Rules → Option (Bool × Run) → Type 0
Returns r o = (b : Bool) × (run' : Run) × (o ≡ some (b, run')) × Sound r run'

module _ (r : Rules) (call : ℕ → Run → Option (Bool × Run)) (stack : List ℕ)
    (returns : (x : ℕ) (run : Run)
      → contains r.library.all_kexts x ≡ true
      → Sound r run
      → run.loop_stack ≡ stack
      → Returns r (call x run))
    (visits : (k : ℕ) (run run' : Run) (b : Bool)
      → call k run ≡ some (b, run')
      → Visits k run run') where
  resolve_each-cons :
      (x : ℕ) (xs : List ℕ) (error b : Bool) (run run' : Run)
      → call x run ≡ some (b, run')
      → resolve_each r call (x ∷ xs) error run ≡ resolve_each r call xs (error || not b) run'
  unfolding resolve_each
  resolve_each-cons x xs error b run run' e = rw e refl

  resolve_each-Returns :
      (ks : List ℕ) (error : Bool) (run : Run)
      → AllIn ks r.library.all_kexts
      → Sound r run
      → run.loop_stack ≡ stack
      → Returns r (resolve_each r call ks error run)
  resolve_each-Returns [] error run a b s = (error, run, unfold resolve_each in refl, b)
  resolve_each-Returns (x ∷ xs) error run a b s =
      let (ok, mid, one, bare) = returns x run a.0 b s in
      let (error', run', rest, bare') =
        resolve_each-Returns xs (error || not ok) mid a.1 bare
          ((visits x run mid ok one).stack ∙ s) in
      (error', run', resolve_each-cons x xs error ok run mid one ∙ rest, bare')

  enter_kernel :
      (k : ℕ) (run : Run)
      → r.kernel_component k ≡ true
      → enter r call k run
        ≡ some (finish k true true (record run { infos = set_info run.infos k (started k run) }))
  unfolding enter
  enter_kernel k run q = rw q refl

  enter_found :
      (k : ℕ) (run mid : Run) (error : Bool)
      → r.kernel_component k ≡ false
      → resolve_each r call
          (list_of (found r k run).info.dependencies)
          (collection_error r k (found r k run))
          (record run { infos = set_info run.infos k (found r k run).info })
        ≡ some (error, mid)
      → enter r call k run ≡ some (conclude r k error mid (mid.infos k))
  unfolding enter
  enter_found k run mid error q e = rw q (rw e refl)

  enter-Returns :
      (k : ℕ) (run : Run)
      → AllListed r
      → contains r.library.all_kexts k ≡ true
      → Sound r run
      → run.loop_stack ≡ stack
      → Returns r (enter r call k run)
  enter-Returns k run all m b s = elim (Bool-cases (r.kernel_component k)) [
    | inl q ↦ (
      _,
      _,
      enter_kernel k run q,
      finish-Sound r k true true _ m
          (set_info-Sound r run k (started k run) (λ j h. unfold contains in refl) b),
    )
    | inr q ↦
        let (error, mid, each, bare) =
          resolve_each-Returns (list_of (found r k run).info.dependencies)
            (collection_error r k (found r k run))
            (record run { infos = set_info run.infos k (found r k run).info })
            (collect-Listed r all (r.declared k) _ tt)
            (set_info-Sound r run k (found r k run).info (λ j h. absurd (false≢true (sym q ∙ h))) b)
            s in
        (
          _,
          _,
          enter_found k run mid error q each,
          conclude-Sound r k error mid (mid.infos k) q m bare,
        )
  ]

module _ (r : Rules) (flush_fuel fuel k : ℕ) (run : Run) where
  resolve_unusable :
      (not (r.has_info k) || not (r.is_valid k)) ≡ true
      → resolve r flush_fuel (suc fuel) k run ≡ some (finish k false false run)
  unfolding resolve
  resolve_unusable q = rw q refl

  resolve_again :
      (not (r.has_info k) || not (r.is_valid k)) ≡ false
      → contains run.resolved_set k ≡ true
      → resolve r flush_fuel (suc fuel) k run ≡ some (finish k false true run)
  unfolding resolve
  resolve_again q v = rw q (rw v refl)

  resolve_cycle :
      (not (r.has_info k) || not (r.is_valid k)) ≡ false
      → contains run.resolved_set k ≡ false
      → contains run.loop_stack k ≡ true
      → resolve r flush_fuel (suc fuel) k run ≡ some (finish k false false run)
  unfolding resolve
  resolve_cycle q v c = rw q (rw v (rw c refl))

  resolve-enter :
      (s : LoadInfos)
      → (not (r.has_info k) || not (r.is_valid k)) ≡ false
      → contains run.resolved_set k ≡ false
      → contains run.loop_stack k ≡ false
      → flush_dependencies r.kernel_component r.library.all_kexts flush_fuel k run.infos ≡ some s
      → resolve r flush_fuel (suc fuel) k run
        ≡ enter r
            (resolve r flush_fuel fuel)
            k
            (record run { infos = s; loop_stack = run.loop_stack ++ k ∷ [] })
  unfolding resolve
  resolve-enter s q v c f = rw q (rw v (rw c (rw f refl)))

resolve-Returns :
    (r : Rules) (flush_fuel fuel k : ℕ) (run : Run)
    → AllListed r
    → length r.library.all_kexts < flush_fuel
    → contains r.library.all_kexts k ≡ true
    → Sound r run
    → free r.library.all_kexts run.loop_stack < fuel
    → Returns r (resolve r flush_fuel fuel k run)
resolve-Returns r flush_fuel zero k run all ff m b h = absurd (omega arith)
resolve-Returns r flush_fuel (suc fuel) k run all ff m b h =
    elim (Bool-cases (not (r.has_info k) || not (r.is_valid k))) [
      | inl q ↦
          (_, _, resolve_unusable r flush_fuel fuel k run q, finish-Sound r k false false run m b)
      | inr q ↦ elim (Bool-cases (contains run.resolved_set k)) [
        | inl v ↦
            (_, _, resolve_again r flush_fuel fuel k run q v, finish-Sound r k false true run m b)
        | inr v ↦ elim (Bool-cases (contains run.loop_stack k)) [
          | inl c ↦ (
            _,
            _,
            resolve_cycle r flush_fuel fuel k run q v c,
            finish-Sound r k false false run m b,
          )
          | inr c ↦
              let (s, flushed, bare) =
                flush_dependencies_total r.kernel_component r.library.all_kexts flush_fuel k
                  run.infos b.0 ff in
              let (b', run', entered, bare') =
                enter-Returns r (resolve r flush_fuel fuel) (run.loop_stack ++ k ∷ [])
                  (λ x u m' bu su. resolve-Returns r flush_fuel fuel x u all ff m' bu (
                    subst (λ l. free r.library.all_kexts l < fuel) (sym su)
                      (omega (arith, h, free-lt r.library.all_kexts run.loop_stack k m c))))
                  (resolve-Visits r flush_fuel fuel) k
                  (record run { infos = s; loop_stack = run.loop_stack ++ k ∷ [] }) all m
                  (bare, b.1) refl in
              (b', run', resolve-enter r flush_fuel fuel k run s q v c flushed ∙ entered, bare')
        ]
      ]
    ]

-- Where every kext that is recorded under an identifier is listed, the kext to resolve among them, and no
-- kernel component lists a dependency, the resolution returns, nested no deeper than there are kexts;
-- then no kernel component lists a dependency, and the kexts visited are listed.
pub resolve_total :
    (r : Rules) (flush_fuel fuel k : ℕ) (s : LoadInfos)
    → AllListed r
    → contains r.library.all_kexts k ≡ true
    → KernelBare r.kernel_component s
    → length r.library.all_kexts < flush_fuel
    → length r.library.all_kexts < fuel
    → (resolved : Bool) × (run : Run) × (resolve r flush_fuel fuel k (fresh r s)
        ≡ some (resolved, run))
      × KernelBare r.kernel_component run.infos
      × AllIn run.resolved_set r.library.all_kexts
resolve_total r flush_fuel fuel k s all m b ff h =
    let (resolved, run, e, sound) =
      resolve-Returns r flush_fuel fuel k (fresh r s) all ff m (b, tt)
        (omega (arith, h, free-le-length r.library.all_kexts [])) in
    (resolved, run, e, sound.0, sound.1)
