-- ===== src/Kext/LoadList/Total.antt =====
-- The end of the search of kext.subproj/OSKext.c, and the end of a load list.
use mathlib.Core.Path.{subst, fun_ext}
use mathlib.Core.Bool.{false≢true}
use iokit_user.Prelude.{
  sym, ap, not, ◌&&◌, Bool-cases, le→leb, ◌>>=◌, ◌++◌, inr, zero, refl, false, inl, ◌∙◌, ◌∷◌, ◌⊎◌,
  [], suc, some, true, arith, Bool, ◌<◌, List, ◌≡◌, ℕ, Option,
}
use iokit_user.Kext.LoadList.{
  Kexts, Context, contains, finish, visit, add_dependencies, copy_dependencies_list, copy_load_list,
  copy_all_dependencies,
}
use iokit_user.Kext.LoadList.Within.{copy_load_list-Within, add_dependencies-some}
use iokit_user.Kext.LoadList.Order.{
  none-ne-some, depends_on, copy_dependencies_list-some, add_dependencies-visit,
}
use iokit_user.Kext.LoadList.Reach.{add_dependencies-Only, visit-Only}

-- A rank that falls along every dependency: there is no cycle.
abbrev pub Acyclic : Kexts → (ℕ → ℕ) → Type 0
Acyclic g rank = (k j : ℕ) → contains (depends_on g k) j ≡ true → rank j < rank k

-- Every kext that is no kernel component has its array.
abbrev pub Complete : Kexts → Type 0
Complete g =
    (k : ℕ) → (g.kernel_component k ≡ true) ⊎ ((ks : List ℕ) × (g.dependencies k ≡ some ks))

-- Without a cycle, and with the array of every kext that is no kernel component, a load list of
-- resolved dependencies is returned, with as much fuel as the kext's rank asks for.
pub copy_load_list_total :
    (g : Kexts) (rank : ℕ → ℕ) (fuel k : ℕ) (need_all : Bool)
    → Acyclic g rank
    → Complete g
    → rank k < fuel
    → (list : List ℕ) × (copy_load_list g fuel k true need_all ≡ some (some list))
copy_load_list_total g rank fuel k need_all acyclic w h =
    copy_load_list-Within g (λ x. Unit) rank (λ x j p q. (tt, acyclic x j q)) (λ x p. w x) fuel k
      need_all tt h

-- With the least depth and the depth both one higher, a search does the same.
finish_shift : (m depth k : ℕ) (c : Context) → finish (suc m) (suc depth) k c ≡ finish m depth k c
unfolding finish
finish_shift m depth k c = ground arith

-- The end of a call at the least depth 0 does not depend on the depth.
finish_depth : (depth depth' k : ℕ) (c : Context) → finish 0 depth k c ≡ finish 0 depth' k c
unfolding finish
finish_depth depth depth' k c = rw (le→leb 0 depth (omega arith), le→leb 0 depth' (omega arith))

module _ (g : Kexts) where
  -- Equal calls and equal ends make equal searches.
  search-eq :
      {call call' : ℕ → Context → Option Context} {end end' : Context → Context} (k : ℕ)
      (c : Context)
      → call ≡ call'
      → end ≡ end'
      → (visit (g.kernel_component k) (g.dependencies k) call c >>= λ d. some (end d))
        ≡ (visit (g.kernel_component k) (g.dependencies k) call' c >>= λ d. some (end' d))
  search-eq k c p q =
      λ i. visit (g.kernel_component k) (g.dependencies k) (p i) c >>= λ d. some (q i d)

  add_dependencies_shift :
      (m fuel depth k : ℕ) (c : Context)
      → add_dependencies g (suc m) fuel (suc depth) k c ≡ add_dependencies g m fuel depth k c
  unfolding add_dependencies
  add_dependencies_shift m zero depth k c = refl
  add_dependencies_shift m (suc fuel) depth k c =
      search-eq k c (fun_ext λ j. fun_ext λ d. add_dependencies_shift m fuel (suc depth) j d)
        (fun_ext λ d. finish_shift m depth k d)

  add_dependencies_depth :
      (fuel depth depth' k : ℕ) (c : Context)
      → add_dependencies g 0 fuel depth k c ≡ add_dependencies g 0 fuel depth' k c
  unfolding add_dependencies
  add_dependencies_depth zero depth depth' k c = refl
  add_dependencies_depth (suc fuel) depth depth' k c =
      search-eq k c
        (fun_ext λ j. fun_ext λ d. add_dependencies_depth fuel (suc depth) (suc depth') j d)
        (fun_ext λ d. finish_depth depth depth' k d)

  -- Below the root, the searches for a load list and for its dependencies are the same.
  below_root : (fuel : ℕ) → add_dependencies g 1 fuel 1 ≡ add_dependencies g 0 fuel 1
  below_root fuel =
      fun_ext
        λ k. fun_ext λ c. add_dependencies_shift 0 fuel 0 k c ∙ add_dependencies_depth fuel 0 1 k c

-- The ends of a search of the root: it is skipped, or comes last.
finish_skip : (k : ℕ) (c : Context) → finish 1 0 k c ≡ c
unfolding finish
finish_skip k c = ground arith

finish_new :
    (k : ℕ) (c : Context)
    → c.error ≡ false
    → contains c.array k ≡ false
    → finish 0 0 k c ≡ record { array = c.array ++ k ∷ []; error = false }
unfolding finish
finish_new k c ne new = ground arith

not_in :
    (g : Kexts) (rank : ℕ → ℕ) (fuel k : ℕ) (c d : Context)
    → Acyclic g rank
    → c.array ≡ []
    → visit (g.kernel_component k) (g.dependencies k) (add_dependencies g 1 fuel 1) c ≡ some d
    → contains d.array k ≡ false
unfolding contains
not_in g rank fuel k c d acyclic nil v = elim (Bool-cases (contains d.array k)) [
  | inr e ↦ e
  | inl e ↦ absurd (omega (arith, below k e))
]
  where
    closed : (x y : ℕ) → rank x < rank k → contains (depends_on g x) y ≡ true → rank y < rank k
    closed x y h p = omega (arith, acyclic x y p)

    below : (x : ℕ) → contains d.array x ≡ true → rank x < rank k
    below =
        visit-Only g 1 (λ x. rank x < rank k) closed (add_dependencies g 1 fuel 1)
          (λ j a b p e o.
            add_dependencies-Only g 1 (λ x. rank x < rank k) closed fuel 1 j a b p e o)
          (g.kernel_component k) (g.dependencies k) c d (λ j p. acyclic k j p) v
          (λ x h. absurd (false≢true (subst (λ l. contains l x ≡ true) nil h)))

not_refused :
    (g : Kexts) (fuel k : ℕ) (resolved need_all : Bool) (m : ℕ) (list : List ℕ)
    → copy_dependencies_list g fuel k resolved need_all m ≡ some (some list)
    → (need_all && not resolved) ≡ false
unfolding copy_dependencies_list
not_refused g fuel k resolved need_all m list e = ground arith

list_of_run :
    (g : Kexts) (fuel k : ℕ) (resolved need_all : Bool) (m : ℕ) (c : Context)
    → (need_all && not resolved) ≡ false
    → add_dependencies g m fuel 0 k (record { array = []; error = false }) ≡ some c
    → c.error ≡ false
    → copy_dependencies_list g fuel k resolved need_all m ≡ some (some c.array)
unfolding copy_dependencies_list
list_of_run g fuel k resolved need_all m c t run ne = rw (t, run, ne)

-- The search for the load list, from the search for the dependencies.
root_last :
    (g : Kexts) (rank : ℕ → ℕ) (fuel k : ℕ) (c : Context)
    → Acyclic g rank
    → add_dependencies g 1 fuel 0 k (record { array = []; error = false }) ≡ some c
    → c.error ≡ false
    → add_dependencies g 0 fuel 0 k (record { array = []; error = false })
      ≡ some (record { array = c.array ++ k ∷ []; error = false })
root_last g rank zero k c acyclic run ne =
    absurd (none-ne-some {a = c} (unfold add_dependencies in run))
root_last g rank (suc fuel) k c acyclic run ne =
    let (d, v, f) =
      add_dependencies-visit g 1 fuel 0 k (record { array = []; error = false }) c run in
    let same_context : c ≡ d = f ∙ finish_skip k d in
    let fine : d.error ≡ false = ap (λ (x : Context). x.error) (sym same_context) ∙ ne in
    let new : contains d.array k ≡ false = not_in g rank fuel k _ d acyclic refl v in
    let v0 = rw (below_root g fuel) at v in
    rw same_context (
      add_dependencies-some g 0 fuel 0 k (record { array = []; error = false }) d v0
      ∙ ap some (finish_new k d fine new))

-- Without a cycle, a kext's load list is the list of all its dependencies with the kext behind them.
pub copy_load_list-all_dependencies :
    (g : Kexts) (rank : ℕ → ℕ) (fuel k : ℕ) (resolved need_all : Bool) (list : List ℕ)
    → Acyclic g rank
    → copy_all_dependencies g fuel k resolved need_all ≡ some (some list)
    → copy_load_list g fuel k resolved need_all ≡ some (some (list ++ k ∷ []))
copy_load_list-all_dependencies g rank fuel k resolved need_all list acyclic e =
    let (c, run, ne, same_array) =
      copy_dependencies_list-some g fuel k resolved need_all 1 list e' in
    unfold copy_load_list in
    rw (← same_array) (
      list_of_run g fuel k resolved need_all 0 _ (not_refused g fuel k resolved need_all 1 list e')
        (root_last g rank fuel k c acyclic run ne) refl)
  where
    e' : copy_dependencies_list g fuel k resolved need_all 1 ≡ some (some list)
    e' = unfold copy_all_dependencies in e
