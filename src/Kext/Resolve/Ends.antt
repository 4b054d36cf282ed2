-- ===== src/Kext/Resolve/Ends.antt =====
-- The end of a visit of `__OSKextResolveDependencies` of kext.subproj/OSKext.c.
use iokit_user.Kext.Identifiers.{kext_with_identifier}
use iokit_user.Kext.LoadInfo.Flush.Frame.{set_info_other}
use iokit_user.Kext.LoadList.Order.{contains-append_left, contains_last, Extends}
use iokit_user.Prelude.{
  if_both, not, ◌&&◌, ==_iff, ◌∙◌, none, sym, ap, refl, some, Option, [], inr, true, false, inl,
  ◌∷◌, ◌||◌, ◌++◌, Bool-cases, ◌==◌, ◌≡◌, Bool, List, ℕ,
}
use iokit_user.Kext.LoadList.{contains}
use iokit_user.Kext.LoadInfo.{dependencies_of, set_info, LoadInfos, LoadInfo}
use iokit_user.Kext.Resolve.{
  with_dependency, with_kernel, judge, conclude, flagged_resolved, drop_last, add_to_set, finish,
  Rules, Run,
}

pub drop_last-append : (xs : List ℕ) (k : ℕ) → drop_last (xs ++ k ∷ []) ≡ xs
unfolding drop_last
drop_last-append [] k = refl
drop_last-append (x ∷ []) k = refl
drop_last-append (x ∷ y ∷ xs) k = ap (λ ys. x ∷ ys) (drop_last-append (y ∷ xs) k)

pub add_to_set-Extends : (xs : List ℕ) (k : ℕ) → Extends xs (add_to_set xs k)
unfolding add_to_set
add_to_set-Extends xs k x h = elim (Bool-cases (contains xs k)) [
  | inl q ↦ rw q h
  | inr q ↦ rw q (contains-append_left xs (k ∷ []) x h)
]

pub contains-add_to_set : (xs : List ℕ) (k : ℕ) → contains (add_to_set xs k) k ≡ true
unfolding add_to_set
contains-add_to_set xs k = elim (Bool-cases (contains xs k)) [
  | inl q ↦ rw q q
  | inr q ↦ rw q (contains_last xs k)
]

-- Setting a kext's load information with the same array changes no array.
pub set_info_same :
    (s : LoadInfos) (k : ℕ) (i : LoadInfo) (x : ℕ)
    → dependencies_of (s k) ≡ i.dependencies
    → dependencies_of (set_info s k i x) ≡ dependencies_of (s x)
set_info_same s k i x e = elim (Bool-cases (x == k)) [
  | inl q ↦ rw q (sym e ∙ ap (λ y. dependencies_of (s y)) (sym ((==_iff x k).0 q)))
  | inr q ↦ rw q refl
]

pub dependencies_of-flagged_resolved :
    (s : LoadInfos) (k : ℕ) (x : ℕ)
    → dependencies_of (flagged_resolved s k (s k) x) ≡ dependencies_of (s x)
dependencies_of-flagged_resolved s k x = go (s k) refl
  where
    go :
        (o : Option LoadInfo)
        → s k ≡ o
        → dependencies_of (flagged_resolved s k o x) ≡ dependencies_of (s x)
    go none e = unfold flagged_resolved in refl
    go (some i) e = unfold flagged_resolved in (set_info_same s k _ x (ap dependencies_of e))

-- The end of a visit changes no array.
pub dependencies_of-finish :
    (k : ℕ) (added result : Bool) (run : Run) (x : ℕ)
    → dependencies_of ((finish k added result run).1.infos x) ≡ dependencies_of (run.infos x)
unfolding finish
dependencies_of-finish k added true run x = dependencies_of-flagged_resolved run.infos k x
dependencies_of-finish k added false run x = refl

-- The end of a visit, whichever way it is reached.
pub record Ends (k : ℕ) (run run' : Run) : Type 0 where
  pub set : run'.resolved_set ≡ add_to_set run.resolved_set k
  pub stack : run'.loop_stack ≡ drop_last run.loop_stack
  pub kept :
      (x : ℕ) → (x == k) ≡ false → dependencies_of (run'.infos x) ≡ dependencies_of (run.infos x)

abbrev EndsAt : ℕ → Run → Bool × Run → Type 0
EndsAt k run p = Ends k run p.1

pub finish-Ends : (k : ℕ) (result : Bool) (run : Run) → Ends k run (finish k true result run).1
finish-Ends k result run = record {
  set = unfold finish in refl;
  stack = unfold finish in refl;
  kept = λ x q. dependencies_of-finish k true result run x;
}

judge-Ends :
    (r : Rules) (k : ℕ) (error : Bool) (i : LoadInfo) (run : Run)
    → Ends k run (judge r k error i run).1
unfolding judge
judge-Ends r k error i run =
    if_both (EndsAt k run)
      (i.has_private_kpi_dependency && (not (r.has_apple_prefix k) || not (r.copyright_is_valid k)))
      (finish-Ends k false run) (finish-Ends k (not error) run)

with_kernel-Ends :
    (r : Rules) (o : Option ℕ) (k : ℕ) (error : Bool) (i : LoadInfo) (run : Run)
    → Ends k run (with_kernel r o k error i run).1
unfolding with_kernel
with_kernel-Ends r none k error i run = finish-Ends k false run
with_kernel-Ends r (some x) k error i run =
    let e = judge-Ends r k error i (record run {
      infos = set_info run.infos k (record i { dependencies = with_dependency x i.dependencies });
    }) in
    record {
      set = e.set;
      stack = e.stack;
      kept = λ y q. e.kept y q ∙ ap dependencies_of (set_info_other run.infos k _ y q);
    }

pub conclude-Ends :
    (r : Rules) (k : ℕ) (error : Bool) (run : Run) (o : Option LoadInfo)
    → Ends k run (conclude r k error run o).1
unfolding conclude
conclude-Ends r k error run none = finish-Ends k false run
conclude-Ends r k error run (some i) =
    if_both (EndsAt k run) r.lp64
      (if_both (EndsAt k run)
        (r.declares_executable k && r.supports_architecture k && i.has_kernel_dependency)
        (finish-Ends k false run) (judge-Ends r k error i run))
      (if_both (EndsAt k run)
        (r.declares_executable k && not i.has_kernel_dependency && not i.has_kpi_dependency)
        (with_kernel-Ends r (kext_with_identifier (some r.kexts) r.compatibility_identifier) k error
          i run)
        (judge-Ends r k error i run))
