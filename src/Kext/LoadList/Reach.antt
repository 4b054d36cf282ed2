-- ===== src/Kext/LoadList/Reach.antt =====
-- Which kexts the lists of kext.subproj/OSKext.c hold: those that the root depends on.
use mathlib.Core.Bool.{false≢true}
use mathlib.Core.Path.{subst}
use iokit_user.Prelude.{
  none, false, zero, some_inj, ◌↔◌, ◌⊎◌, Bool, suc, append_assoc, inr, arith, >>=-eq-some, inl,
  ◌==◌, some, Bool-cases, Option, ◌∷◌, true, [], ◌++◌, ◌≡◌, ℕ, List,
}
use iokit_user.Kext.LoadList.{
  copy_dependencies_list, Kexts, Context, contains, finish, apply_function, visit, add_dependencies,
  copy_load_list,
}
use iokit_user.Kext.LoadList.Order.{
  contains-append_left, depends_on, followed, AllIn, LoadOrder, contains-append,
  copy_dependencies_list-some, copy_load_list-LoadOrder, add_dependencies-visit, none-ne-some,
}

-- `x` is the root or a dependency of something that the root reaches.
pub data Reaches (g : Kexts) (root : ℕ) : ℕ → Type 0 where
  here : Reaches g root root
  next : {x : ℕ} (y : ℕ) → Reaches g root x → contains (depends_on g x) y ≡ true → Reaches g root y

AllIn-contains :
    (ks xs : List ℕ) (y : ℕ) → AllIn ks xs → contains ks y ≡ true → contains xs y ≡ true
unfolding contains
AllIn-contains [] xs y h e = cc
AllIn-contains (k ∷ ks) xs y h e = elim (Bool-cases (k == y)) [
  | inl same_kext ↦ let q : k ≡ y = ground arith in rw (← q) (h.0)
  | inr other ↦ AllIn-contains ks xs y h.1 (ground arith)
]

AllIn-append : (ks xs ys : List ℕ) → AllIn ks xs → AllIn ks (xs ++ ys)
AllIn-append [] xs ys h = tt
AllIn-append (k ∷ ks) xs ys h = (contains-append_left xs ys k h.0, AllIn-append ks xs ys h.1)

-- The dependencies of a kext in the list are in the list.
LoadOrder-closed :
    (g : Kexts) (seen xs : List ℕ) (x : ℕ)
    → LoadOrder g seen xs
    → contains xs x ≡ true
    → AllIn (depends_on g x) (seen ++ xs)
unfolding contains
LoadOrder-closed g seen [] x h e = cc
LoadOrder-closed g seen (y ∷ xs) x h e = elim (Bool-cases (y == x)) [
  | inl same_kext ↦
      let q : y ≡ x = ground arith in rw (← q) (AllIn-append (depends_on g y) seen (y ∷ xs) h.1)
  | inr other ↦
      rw (← append_assoc seen (y ∷ []) xs)
        (LoadOrder-closed g (seen ++ y ∷ []) xs x h.2 (ground arith))
]

Reaches-contains :
    (g : Kexts) (root x : ℕ) (list : List ℕ)
    → LoadOrder g [] list
    → contains list root ≡ true
    → Reaches g root x
    → contains list x ≡ true
Reaches-contains g root x list l r here = r
Reaches-contains g root x list l r (next {x = w} y p d) =
    AllIn-contains (depends_on g w) list y
      (LoadOrder-closed g [] list w l (Reaches-contains g root w list l r p)) d

-- Every kext of an array satisfies a predicate.
abbrev pub Only : (ℕ → Type 0) → List ℕ → Type 0
Only P xs = (x : ℕ) → contains xs x ≡ true → P x

contains-finish :
    (min_depth depth k x : ℕ) (c : Context)
    → contains (finish min_depth depth k c).array x ≡ true
    → (contains c.array x ≡ true) ⊎ (k ≡ x)
unfolding finish contains
contains-finish min_depth depth k x c h = ground (arith, contains-append c.array (k ∷ []) x)

pub contains_head : (k : ℕ) (ks : List ℕ) → contains (k ∷ ks) k ≡ true
unfolding contains
contains_head k ks = ground arith

pub contains_tail : (k x : ℕ) (ks : List ℕ) → contains ks x ≡ true → contains (k ∷ ks) x ≡ true
unfolding contains
contains_tail k x ks h = ground arith

module _ (g : Kexts) (min_depth : ℕ) (P : ℕ → Type 0)
    (closed : (x y : ℕ) → P x → contains (depends_on g x) y ≡ true → P y) where
  finish-Only :
      (depth k : ℕ) (c : Context) → P k → Only P c.array → Only P (finish min_depth depth k c).array
  finish-Only depth k c pk o x h = elim (contains-finish min_depth depth k x c h) [
    | inl old ↦ o x old
    | inr q ↦ rw (← q) pk
  ]

  apply_function-Only :
      (call : ℕ → Context → Option Context)
      → ((k : ℕ) (c c' : Context) → P k → call k c ≡ some c' → Only P c.array → Only P c'.array)
      → (ks : List ℕ) (c c' : Context) → Only P ks
      → apply_function call ks c ≡ some c'
      → Only P c.array
      → Only P c'.array
  unfolding apply_function
  apply_function-Only call step [] c c' pk e o =
      subst (λ (d : Context). Only P d.array) (some_inj e) o
  apply_function-Only call step (k ∷ ks) c c' pk e o =
      let (d, one, rest) = >>=-eq-some (call k c) (λ d. apply_function call ks d) e in
      apply_function-Only call step ks d c' (λ x h. pk x (contains_tail k x ks h)) rest
        (step k c d (pk k (contains_head k ks)) one o)

  pub visit-Only :
      (call : ℕ → Context → Option Context)
      → ((k : ℕ) (c c' : Context) → P k → call k c ≡ some c' → Only P c.array → Only P c'.array)
      → (b : Bool) (ds : Option (List ℕ)) (c c' : Context) → Only P (followed b ds)
      → visit b ds call c ≡ some c'
      → Only P c.array
      → Only P c'.array
  unfolding visit
  visit-Only call step true ds c c' pk e o = subst (λ (d : Context). Only P d.array) (some_inj e) o
  visit-Only call step false none c c' pk e o =
      subst (λ (d : Context). Only P d.array) (some_inj e) o
  visit-Only call step false (some ks) c c' pk e o = apply_function-Only call step ks c c' pk e o

  pub add_dependencies-Only :
      (fuel depth k : ℕ) (c c' : Context)
      → P k
      → add_dependencies g min_depth fuel depth k c ≡ some c'
      → Only P c.array
      → Only P c'.array
  add_dependencies-Only zero depth k c c' pk e o =
      absurd (none-ne-some {a = c'} (unfold add_dependencies in e))
  add_dependencies-Only (suc fuel) depth k c c' pk e o =
      let (d, v, f) = add_dependencies-visit g min_depth fuel depth k c c' e in
      rw f (
        finish-Only depth k d pk (
          visit-Only _ (add_dependencies-Only fuel (suc depth)) (g.kernel_component k)
            (g.dependencies k) c d (λ y h. closed k y pk h) v o))

-- A list that is returned, whatever the least depth, holds only what the root reaches.
copy_dependencies_list-Reaches :
    (g : Kexts) (fuel k : ℕ) (resolved need_all : Bool) (min_depth : ℕ) (list : List ℕ)
    → copy_dependencies_list g fuel k resolved need_all min_depth ≡ some (some list)
    → (x : ℕ) → contains list x ≡ true
    → Reaches g k x
copy_dependencies_list-Reaches g fuel k resolved need_all m list e =
    let (c, run, ne, same_array) =
      copy_dependencies_list-some g fuel k resolved need_all m list e in
    rw (← same_array) (
      add_dependencies-Only g m (Reaches g k) (λ x y p d. next y p d) fuel 0 k _ c here run
        (λ x h. absurd (false≢true (unfold contains in h))))

-- A load list that is returned holds exactly what the kext reaches by its dependencies.
pub copy_load_list-Reaches :
    (g : Kexts) (fuel k : ℕ) (resolved need_all : Bool) (list : List ℕ)
    → copy_load_list g fuel k resolved need_all ≡ some (some list)
    → (x : ℕ) → (contains list x ≡ true) ↔ Reaches g k x
copy_load_list-Reaches g fuel k resolved need_all list e x =
    let (order, root) = copy_load_list-LoadOrder g fuel k resolved need_all list e in
    (
      copy_dependencies_list-Reaches g fuel k resolved need_all 0 list (unfold copy_load_list in e)
          x,
      Reaches-contains g k x list order root,
    )
