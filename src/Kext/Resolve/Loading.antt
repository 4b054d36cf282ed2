-- ===== src/Kext/Resolve/Loading.antt =====
-- The load list of kext.subproj/OSKext.c for a kext whose dependencies `__OSKextResolveDependencies` has
-- resolved.
use mathlib.Core.Path.{subst}
use mathlib.Core.Bool.{false≢true}
use iokit_user.Prelude.{
  ◌⊎◌, some, Bool, append_assoc, inr, sym, ==_iff, [], inl, Bool-cases, suc, arith, ◌≤◌, length,
  ◌++◌, ◌==◌, ◌<◌, true, false, if◌then◌else◌, ◌≡◌, ◌∷◌, ℕ, List,
}
use iokit_user.Kext.LoadList.{contains, copy_load_list, Kexts}
use iokit_user.Kext.LoadList.Order.{
  copy_load_list-LoadOrder, contains-append_left, depends_on, LoadOrder, AllIn,
}
use iokit_user.Kext.LoadList.Within.{copy_load_list-Within}
use iokit_user.Kext.Resolve.{Rules, Run, resolve, graph, fresh}
use iokit_user.Kext.Resolve.Order.{resolve-LoadOrder}
use iokit_user.Kext.Resolve.Ordered.{Met}
use iokit_user.Kext.LoadInfo.{dependencies_of, LoadInfos}

-- Where a kext stands first in a list.
position : List ℕ → ℕ → ℕ
position [] k = 0
position (x ∷ xs) k = if x == k then 0 else suc (position xs k)

position-lt : (xs : List ℕ) (k : ℕ) → contains xs k ≡ true → position xs k < length xs
unfolding contains position
position-lt [] k h = absurd (false≢true h)
position-lt (x ∷ xs) k h = ground (arith, position-lt xs k)

position-append_left :
    (xs ys : List ℕ) (k : ℕ) → contains xs k ≡ true → position (xs ++ ys) k ≡ position xs k
unfolding contains position
position-append_left [] ys k h = absurd (false≢true h)
position-append_left (x ∷ xs) ys k h = ground (arith, position-append_left xs ys k)

position-append_new :
    (xs ys : List ℕ) (k : ℕ) → contains xs k ≡ false → length xs ≤ position (xs ++ ys) k
unfolding contains position
position-append_new [] ys k h = omega arith
position-append_new (x ∷ xs) ys k h = ground (arith, position-append_new xs ys k)

AllIn-member : (ks xs : List ℕ) (j : ℕ) → AllIn ks xs → contains ks j ≡ true → contains xs j ≡ true
unfolding contains
AllIn-member [] xs j a h = absurd (false≢true h)
AllIn-member (k ∷ ks) xs j a h = elim (Bool-cases (k == j)) [
  | inl q ↦ subst (λ y. contains xs y ≡ true) ((==_iff k j).0 q) a.0
  | inr q ↦ AllIn-member ks xs j a.1 (rw q at h)
]

contains_later :
    (x : ℕ) (xs : List ℕ) (k : ℕ)
    → (x == k) ≡ false
    → contains (x ∷ xs) k ≡ true
    → contains xs k ≡ true
unfolding contains
contains_later x xs k q h = rw q at h

-- In a load list, the dependencies of a kext come before it.
dependency_before :
    (g : Kexts) (seen xs : List ℕ) (k j : ℕ)
    → LoadOrder g seen xs
    → contains xs k ≡ true
    → contains (depends_on g k) j ≡ true
    → (contains (seen ++ xs) j ≡ true) × (position (seen ++ xs) j < position (seen ++ xs) k)
dependency_before g seen [] k j o h d = absurd (false≢true (unfold contains in h))
dependency_before g seen (x ∷ xs) k j o h d = elim (Bool-cases (x == k)) [
  | inl q ↦
      here (subst (λ y. contains (depends_on g y) j ≡ true) (sym ((==_iff x k).0 q)) d)
        ((==_iff x k).0 q)
  | inr q ↦
      subst (λ l. (contains l j ≡ true) × (position l j < position l k))
        (append_assoc seen (x ∷ []) xs)
        (dependency_before g (seen ++ x ∷ []) xs k j o.2 (contains_later x xs k q h) d)
]
  where
    here :
        contains (depends_on g x) j ≡ true
        → x ≡ k
        → (contains (seen ++ x ∷ xs) j ≡ true)
          × (position (seen ++ x ∷ xs) j < position (seen ++ x ∷ xs) k)
    here d e =
        let old : contains seen j ≡ true = AllIn-member (depends_on g x) seen j o.1 d in
        (
          contains-append_left seen (x ∷ xs) j old,
          omega (
            arith,
            position-lt seen j old,
            position-append_left seen (x ∷ xs) j old,
            position-append_new seen (x ∷ xs) k (subst (λ y. contains seen y ≡ false) e o.0),
          ),
        )

array-Met :
    (r : Rules) (s : LoadInfos) (x : ℕ)
    → Met r s x
    → (r.kernel_component x ≡ true) ⊎ ((ks : List ℕ) × (dependencies_of (s x) ≡ some ks))
array-Met r s x (inl q) = inl q
array-Met r s x (inr (ks, e, all)) = inr (ks, e)

-- Where a kext's dependencies are resolved, on a 64-bit system and with nothing resolved before, its load
-- list is returned, in which each kext stands behind its dependencies, once, and the kext among them; the
-- calls of that search are nested no deeper than there are resolved kexts.
pub resolve-copy_load_list :
    (r : Rules) (flush_fuel fuel load_fuel k : ℕ) (need_all : Bool) (s : LoadInfos) (run : Run)
    → r.lp64 ≡ true
    → resolve r flush_fuel fuel k (fresh r s) ≡ some (true, run)
    → length run.resolved_set ≤ load_fuel
    → (list : List ℕ) × (copy_load_list (graph r run.infos) load_fuel k true need_all
        ≡ some (some list))
      × LoadOrder (graph r run.infos) [] list
      × (contains list k ≡ true)
resolve-copy_load_list r flush_fuel fuel load_fuel k need_all s run lp64 e h =
    let (order, member, complete) = resolve-LoadOrder r flush_fuel fuel k s run lp64 e in
    let (list, copied) =
      copy_load_list-Within (graph r run.infos) (λ x. contains run.resolved_set x ≡ true)
        (position run.resolved_set)
        (λ x j p d. dependency_before (graph r run.infos) [] run.resolved_set x j order p d)
        (λ x p. array-Met r run.infos x (complete x p)) load_fuel k need_all member
        (omega (arith, h, position-lt run.resolved_set k member)) in
    let (ordered, has) =
      copy_load_list-LoadOrder (graph r run.infos) load_fuel k true need_all list copied in
    (list, copied, ordered, has)
