-- ===== src/Kext/Resolve/Success.antt =====
-- What it means that a visit of `__OSKextResolveDependencies` of kext.subproj/OSKext.c succeeds.
use mathlib.Core.Bool.{false≢true}
use iokit_user.Prelude.{
  not, ◌&&◌, arith, none, sym, ap, refl, some, Option, inr, true, false, inl, ◌||◌, Bool-cases, ◌≡◌,
  Bool, ℕ,
}
use iokit_user.Kext.LoadInfo.{LoadInfo}
use iokit_user.Kext.Resolve.{judge, conclude, finish, Rules, Run}

pub finish-true :
    (k : ℕ) (result : Bool) (run run' : Run)
    → finish k true result run ≡ (true, run')
    → (result ≡ true) × (run' ≡ (finish k true true run).1)
unfolding finish
finish-true k true run run' e = (refl, ap (λ (p : Bool × Run). p.1) (sym e))
finish-true k false run run' e = absurd (false≢true (ap (λ (p : Bool × Run). p.0) e))

pub finish_failed :
    (k : ℕ) (run : Run) → finish k false false run ≡ (false, (finish k false false run).1)
unfolding finish
finish_failed k run = refl

judge-true :
    (r : Rules) (k : ℕ) (error : Bool) (i : LoadInfo) (run run' : Run)
    → judge r k error i run ≡ (true, run')
    → (error ≡ false) × (run' ≡ (finish k true true run).1)
judge-true r k error i run run' e =
    elim (Bool-cases (
      i.has_private_kpi_dependency
      && (not (r.has_apple_prefix k) || not (r.copyright_is_valid k)))) [
        | inl q ↦ absurd (false≢true (finish-true k false run run' (unfold judge in rw q at e)).0)
        | inr q ↦ cleared (finish-true k (not error) run run' (unfold judge in rw q at e))
      ]
  where
    cleared :
        (not error ≡ true) × (run' ≡ (finish k true true run).1)
        → (error ≡ false) × (run' ≡ (finish k true true run).1)
    cleared (a, b) = (ground arith, b)

pub conclude-true :
    (r : Rules) (k : ℕ) (error : Bool) (run run' : Run) (o : Option LoadInfo)
    → r.lp64 ≡ true
    → conclude r k error run o ≡ (true, run')
    → (error ≡ false) × (run' ≡ (finish k true true run).1)
unfolding conclude judge
conclude-true r k error run run' none lp e = absurd (false≢true (finish-true k false run run' e).0)
conclude-true r k error run run' (some i) lp e =
    elim (Bool-cases
      (r.declares_executable k && r.supports_architecture k && i.has_kernel_dependency)) [
        | inl q ↦ absurd (false≢true (finish-true k false run run' (rw (lp, q) at e)).0)
        | inr q ↦ judge-true r k error i run run' (rw (lp, q) at e)
      ]
