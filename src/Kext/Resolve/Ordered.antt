-- ===== src/Kext/Resolve/Ordered.antt =====
-- The order of the resolved set of `__OSKextResolveDependencies` of kext.subproj/OSKext.c, and what
-- keeps it.
use iokit_user.Kext.Resolve.Choices.{Satisfies}
use mathlib.Core.Bool.{false≢true}
use iokit_user.Kext.LoadList.Reach.{contains_tail, contains_head}
use mathlib.Core.Path.{subst}
use iokit_user.Kext.Resolve.Ends.{dependencies_of-finish}
use iokit_user.Kext.LoadList.Order.{
  LoadOrder-append, contains_snoc, followed, depends_on, AllIn, LoadOrder,
}
use iokit_user.Prelude.{
  ℕ, ℕ, ℕ, ℕ, ℕ, ℕ, ℕ, ℕ, ℕ, ℕ, ℕ, ℕ, ℕ, ℕ, ℕ, ℕ, ℕ, ℕ, ℕ, ℕ, ℕ, ℕ, ℕ, ℕ, ℕ, ==_iff, ◌==◌, refl,
  false, ◌++◌, sym, ◌∙◌, inr, ◌∷◌, some, inl, Bool-cases, [], ◌⊎◌, true, List, Bool, ◌≡◌, ℕ,
}
use iokit_user.Kext.LoadList.{contains}
use iokit_user.Kext.LoadInfo.{
  LoadInfos, LoadInfos, LoadInfos, LoadInfos, LoadInfos, LoadInfos, LoadInfos, LoadInfos, LoadInfos,
  LoadInfos, LoadInfos, LoadInfos, LoadInfos, LoadInfos, LoadInfos, LoadInfos, LoadInfos, LoadInfos,
  LoadInfos, LoadInfos, LoadInfos, LoadInfos, LoadInfos, LoadInfos, LoadInfos, dependencies_of,
  LoadInfos,
}
use iokit_user.Kext.Resolve.{
  add_to_set, finish, add_to_set, finish, add_to_set, finish, add_to_set, finish, add_to_set,
  finish, add_to_set, finish, add_to_set, finish, add_to_set, finish, add_to_set, finish,
  add_to_set, finish, add_to_set, finish, add_to_set, finish, add_to_set, finish, add_to_set,
  finish, add_to_set, finish, add_to_set, finish, add_to_set, finish, add_to_set, finish,
  add_to_set, finish, add_to_set, finish, add_to_set, finish, add_to_set, finish, add_to_set,
  finish, add_to_set, finish, add_to_set, finish, add_to_set, finish, graph, Rules, Run,
}

-- A kext that is no kernel component has an array that meets its declared dependencies.
abbrev pub Met : Rules → LoadInfos → ℕ → Type 0
Met r s x =
    (r.kernel_component x ≡ true)
    ⊎ ((ks : List ℕ) × (dependencies_of (s x) ≡ some ks) × Satisfies r (r.declared x) ks)

-- The resolved set is in the order of a load list, and its dependencies are met.
pub record Ordered (r : Rules) (run : Run) : Type 0 where
  pub order : LoadOrder (graph r run.infos) [] run.resolved_set
  pub complete : (x : ℕ) → contains run.resolved_set x ≡ true → Met r run.infos x

LoadOrder-kept :
    (r : Rules) (s s' : LoadInfos) (seen xs : List ℕ)
    → ((x : ℕ) → contains xs x ≡ true → dependencies_of (s' x) ≡ dependencies_of (s x))
    → LoadOrder (graph r s) seen xs
    → LoadOrder (graph r s') seen xs
LoadOrder-kept r s s' seen [] same h = tt
LoadOrder-kept r s s' seen (x ∷ xs) same h = (
  h.0,
  subst (λ o. AllIn (followed (r.kernel_component x) o) seen) (sym (same x (contains_head x xs)))
      h.1,
  LoadOrder-kept r s s' (seen ++ x ∷ []) xs (λ y m. same y (contains_tail x y xs m)) h.2,
)

pub Ordered-kept :
    (r : Rules) (run run' : Run)
    → run'.resolved_set ≡ run.resolved_set
    → ((x : ℕ)
        → contains run.resolved_set x ≡ true
        → dependencies_of (run'.infos x) ≡ dependencies_of (run.infos x))
    → Ordered r run
    → Ordered r run'
Ordered-kept r run run' set same o = record {
  order = rw set (LoadOrder-kept r run.infos run'.infos [] run.resolved_set same o.order);
  complete = λ x h. has x (rw set at h) (o.complete x (rw set at h));
}
  where
    has : (x : ℕ) → contains run.resolved_set x ≡ true → Met r run.infos x → Met r run'.infos x
    has x h (inl q) = inl q
    has x h (inr (ks, e, all)) = inr (ks, same x h ∙ e, all)

pub again-Ordered :
    (r : Rules) (k : ℕ) (added : Bool) (run : Run)
    → contains run.resolved_set k ≡ true
    → Ordered r run
    → Ordered r (finish k added true run).1
again-Ordered r k added run old o =
    Ordered-kept r run (finish k added true run).1 (unfold finish add_to_set in rw old refl)
      (λ x h. dependencies_of-finish k added true run x) o

next-Ordered :
    (r : Rules) (k : ℕ) (run : Run)
    → contains run.resolved_set k ≡ false
    → AllIn (depends_on (graph r run.infos) k) run.resolved_set
    → Met r run.infos k
    → Ordered r run
    → Ordered r (record run { resolved_set = run.resolved_set ++ k ∷ [] })
next-Ordered r k run new deps has o = record {
  order = LoadOrder-append (graph r run.infos) [] run.resolved_set k o.order new deps;
  complete = complete;
}
  where
    old_or_new :
        (x : ℕ)
        → contains (run.resolved_set ++ k ∷ []) x ≡ true
        → (contains run.resolved_set x ≡ true) ⊎ (k ≡ x)
    old_or_new x h = contains_snoc run.resolved_set k x h

    complete : (x : ℕ) → contains (run.resolved_set ++ k ∷ []) x ≡ true → Met r run.infos x
    complete x h = elim (old_or_new x h) [
      | inl q ↦ o.complete x q
      | inr q ↦ subst (Met r run.infos) q has
    ]

pub other_member :
    (xs : List ℕ) (k x : ℕ) → contains xs k ≡ false → contains xs x ≡ true → (x == k) ≡ false
other_member xs k x new h = elim (Bool-cases (x == k)) [
  | inr q ↦ q
  | inl q ↦ absurd (false≢true (sym new ∙ subst (λ y. contains xs y ≡ true) ((==_iff x k).0 q) h))
]

-- The kext that a visit ends with takes its place behind its dependencies.
pub finish-Ordered :
    (r : Rules) (k : ℕ) (added : Bool) (run : Run)
    → AllIn (depends_on (graph r run.infos) k) run.resolved_set
    → Met r run.infos k
    → Ordered r run
    → Ordered r (finish k added true run).1
finish-Ordered r k added run deps has o = elim (Bool-cases (contains run.resolved_set k)) [
  | inl q ↦ again-Ordered r k added run q o
  | inr q ↦
      Ordered-kept r (record run { resolved_set = run.resolved_set ++ k ∷ [] })
        (finish k added true run).1 (unfold finish add_to_set in rw q refl)
        (λ x h. dependencies_of-finish k added true run x) (next-Ordered r k run q deps has o)
]
