-- ===== src/Kext/LoadList/Within.antt =====
-- The end of the search of kext.subproj/OSKext.c among kexts that have no cycle.
use mathlib.Core.Bool.{false≢true}
use iokit_user.Prelude.{
  none, inr, zero, refl, false, inl, ◌∙◌, ◌∷◌, ◌⊎◌, [], suc, some, true, arith, Bool, ◌<◌, List,
  ◌≡◌, ℕ, Option,
}
use iokit_user.Kext.LoadList.{
  Kexts, Context, contains, finish, apply_function, visit, add_dependencies, copy_dependencies_list,
  copy_load_list,
}
use iokit_user.Kext.LoadList.Order.{depends_on, followed, error-finish, apply_function-some}
use iokit_user.Kext.LoadList.Reach.{contains_head, contains_tail}

-- Among the kexts that `P` holds of, a rank falls along every dependency, and leads to such kexts.
abbrev pub AcyclicWithin : Kexts → (ℕ → Type 0) → (ℕ → ℕ) → Type 0
AcyclicWithin g P rank =
    (k j : ℕ) → P k → contains (depends_on g k) j ≡ true → P j × (rank j < rank k)

abbrev pub CompleteWithin : Kexts → (ℕ → Type 0) → Type 0
CompleteWithin g P =
    (k : ℕ) → P k → (g.kernel_component k ≡ true) ⊎ ((ks : List ℕ) × (g.dependencies k ≡ some ks))

-- A call returns, and adds no error.
abbrev Returns : Option Context → Context → Type 0
Returns o c = (d : Context) × (o ≡ some d) × (d.error ≡ c.error)

apply_function-Returns :
    (call : ℕ → Context → Option Context) (ks : List ℕ) (c : Context)
    → ((k : ℕ) → contains ks k ≡ true → (c : Context) → Returns (call k c) c)
    → Returns (apply_function call ks c) c
apply_function-Returns call [] c h = (c, unfold apply_function in refl, refl)
apply_function-Returns call (k ∷ ks) c h =
    let (d, one, fine) = h k (contains_head k ks) c in
    let (d', rest, fine') =
      apply_function-Returns call ks d (λ j p. h j (contains_tail k j ks p)) in
    (d', apply_function-some call k ks c d one ∙ rest, fine' ∙ fine)

visit-Returns :
    (call : ℕ → Context → Option Context) (b : Bool) (ds : Option (List ℕ)) (c : Context)
    → (b ≡ true) ⊎ ((ks : List ℕ) × (ds ≡ some ks))
    → ((k : ℕ) → contains (followed b ds) k ≡ true → (c : Context) → Returns (call k c) c)
    → Returns (visit b ds call c) c
visit-Returns call true ds c w h = (c, unfold visit in refl, refl)
visit-Returns call false none c (inl e) h = absurd (false≢true e)
visit-Returns call false none c (inr (ks, e)) h = cc
visit-Returns call false (some ks) c w h = unfold visit in (apply_function-Returns call ks c h)

pub add_dependencies-some :
    (g : Kexts) (min_depth fuel depth k : ℕ) (c d : Context)
    → visit
        (g.kernel_component k)
        (g.dependencies k)
        (add_dependencies g min_depth fuel (suc depth))
        c
      ≡ some d
    → add_dependencies g min_depth (suc fuel) depth k c ≡ some (finish min_depth depth k d)
unfolding add_dependencies
add_dependencies-some g m fuel depth k c d v = rw v

module _ (g : Kexts) (P : ℕ → Type 0) (rank : ℕ → ℕ) (acyclic : AcyclicWithin g P rank)
    (complete : CompleteWithin g P) where
  add_dependencies-Returns :
      (min_depth fuel depth k : ℕ) (c : Context)
      → P k
      → rank k < fuel
      → Returns (add_dependencies g min_depth fuel depth k c) c
  add_dependencies-Returns m zero depth k c p h = absurd (omega arith)
  add_dependencies-Returns m (suc fuel) depth k c p h =
      let (d, v, fine) =
        visit-Returns (add_dependencies g m fuel (suc depth)) (g.kernel_component k)
          (g.dependencies k) c (complete k p)
          (λ j q c'.
            add_dependencies-Returns m fuel (suc depth) j c' (acyclic k j p q).0
              (omega (arith, (acyclic k j p q).1))) in
      (
        finish m depth k d,
        add_dependencies-some g m fuel depth k c d v,
        error-finish m depth k d ∙ fine,
      )

  -- The load list of a kext among them is returned.
  pub copy_load_list-Within :
      (fuel k : ℕ) (need_all : Bool)
      → P k
      → rank k < fuel
      → (list : List ℕ) × (copy_load_list g fuel k true need_all ≡ some (some list))
  copy_load_list-Within fuel k need_all p h =
      let (c, run, fine) =
        add_dependencies-Returns 0 fuel 0 k (record { array = []; error = false }) p h in
      (c.array, unfold copy_load_list copy_dependencies_list in rw run (ground arith))
