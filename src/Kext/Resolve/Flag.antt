-- ===== src/Kext/Resolve/Flag.antt =====
-- The flag `hasAllDependencies` that `__OSKextResolveDependencies` of kext.subproj/OSKext.c sets.
use mathlib.Core.Bool.{false≢true}
use iokit_user.Prelude.{
  zero, suc, ap, ◌∙◌, sym, ◌||◌, not, ◌&&◌, refl, inr, none, inl, ==_iff, if_both, some, true, ◌≡◌,
  false, Bool, ℕ, Option,
}
use iokit_user.Kext.LoadList.{contains}
use iokit_user.Kext.LoadList.Order.{none-ne-some}
use iokit_user.Kext.LoadInfo.{LoadInfo, has_all, has_all_dependencies}
use iokit_user.Kext.LoadInfo.Flush.Clearing.{has_all_dependencies-flag}
use iokit_user.Kext.Identifiers.{kext_with_identifier}
use iokit_user.Kext.Resolve.{
  Rules, Run, finish, judge, with_kernel, conclude, resolve, enter, flagged_resolved,
  with_dependency,
}
use iokit_user.Kext.Resolve.Cases.{resolve-cases, resolve-zero, enter-cases, started}
use iokit_user.Kext.Resolve.Success.{finish_failed}

-- A visit that succeeds has set the kext's flag.
abbrev FlagSet : ℕ → Bool × Run → Type 0
FlagSet k p = p.0 ≡ true → has_all (p.1.infos k) ≡ true

finish-FlagSet :
    (k : ℕ) (added result : Bool) (run : Run) (i : LoadInfo)
    → run.infos k ≡ some i
    → FlagSet k (finish k added result run)
unfolding finish flagged_resolved
finish-FlagSet k added false run i e h = absurd (false≢true h)
finish-FlagSet k added true run i e h = rw e (rw ((==_iff k k).1 refl) refl)

finish_failed-FlagSet : (k : ℕ) (added : Bool) (run : Run) → FlagSet k (finish k added false run)
unfolding finish
finish_failed-FlagSet k added run h = absurd (false≢true h)

judge-FlagSet :
    (r : Rules) (k : ℕ) (error : Bool) (i : LoadInfo) (run : Run) (i' : LoadInfo)
    → run.infos k ≡ some i'
    → FlagSet k (judge r k error i run)
unfolding judge
judge-FlagSet r k error i run i' e =
    if_both (FlagSet k)
      (i.has_private_kpi_dependency && (not (r.has_apple_prefix k) || not (r.copyright_is_valid k)))
      (finish_failed-FlagSet k true run) (finish-FlagSet k true (not error) run i' e)

with_kernel-FlagSet :
    (r : Rules) (o : Option ℕ) (k : ℕ) (error : Bool) (i : LoadInfo) (run : Run)
    → FlagSet k (with_kernel r o k error i run)
unfolding with_kernel
with_kernel-FlagSet r none k error i run = finish_failed-FlagSet k true run
with_kernel-FlagSet r (some x) k error i run =
    judge-FlagSet r k error i _ (record i { dependencies = with_dependency x i.dependencies })
      (rw ((==_iff k k).1 refl) refl)

conclude-FlagSet :
    (r : Rules) (k : ℕ) (error : Bool) (run : Run) (o : Option LoadInfo)
    → run.infos k ≡ o
    → FlagSet k (conclude r k error run o)
unfolding conclude
conclude-FlagSet r k error run none e = finish_failed-FlagSet k true run
conclude-FlagSet r k error run (some i) e =
    if_both (FlagSet k) r.lp64
      (if_both (FlagSet k)
        (r.declares_executable k && r.supports_architecture k && i.has_kernel_dependency)
        (finish_failed-FlagSet k true run) (judge-FlagSet r k error i run i e))
      (if_both (FlagSet k)
        (r.declares_executable k && not i.has_kernel_dependency && not i.has_kpi_dependency)
        (with_kernel-FlagSet r (kext_with_identifier (some r.kexts) r.compatibility_identifier) k
          error i run)
        (judge-FlagSet r k error i run i e))

enter-FlagSet :
    (r : Rules) (call : ℕ → Run → Option (Bool × Run)) (k : ℕ) (run : Run) (p : Bool × Run)
    → enter r call k run ≡ some p
    → FlagSet k p
enter-FlagSet r call k run p e = elim (enter-cases r call k run p e) [
  | inl (q, f) ↦ rw f (finish-FlagSet k true true _ (started k run) (rw ((==_iff k k).1 refl) refl))
  | inr (q, error, mid, each, f) ↦ rw f (conclude-FlagSet r k error mid (mid.infos k) refl)
]

-- A kext whose dependencies are resolved by a visit has the flag then, if it was not visited before.
pub resolve-has_all_dependencies :
    (r : Rules) (flush_fuel fuel k : ℕ) (run run' : Run)
    → contains run.resolved_set k ≡ false
    → resolve r flush_fuel fuel k run ≡ some (true, run')
    → has_all_dependencies r.kernel_component run'.infos k ≡ true
resolve-has_all_dependencies r flush_fuel zero k run run' n e =
    absurd (none-ne-some (sym (resolve-zero r flush_fuel k run) ∙ e))
resolve-has_all_dependencies r flush_fuel (suc fuel) k run run' n e =
    elim (resolve-cases r flush_fuel fuel k run (true, run') e) [
      | inl f ↦ absurd (false≢true (sym (ap (λ (p : Bool × Run). p.0) (f ∙ finish_failed k run))))
      | inr (inl (q, f)) ↦ absurd (false≢true (sym n ∙ q))
      | inr (inr (q, m, s, flushed, entered)) ↦
          has_all_dependencies-flag r.kernel_component run'.infos k
            (enter-FlagSet r (resolve r flush_fuel fuel) k _ (true, run') entered refl)
    ]
