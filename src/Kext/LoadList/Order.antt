-- ===== src/Kext/LoadList/Order.antt =====
-- The order of a load list of kext.subproj/OSKext.c.
use mathlib.Core.Path.{subst}
use iokit_user.Prelude.{
  ◌⊎◌, ◌>>=◌, not, ◌&&◌, if◌then◌else◌, some_inj, >>=-eq-some, zero, ap, suc, ◌∙◌, le→leb, sym, inr,
  inl, Bool-cases, Option-cases, append_assoc, none, refl, some, append-nil, arith, true, ◌||◌,
  false, [], ◌++◌, ◌≡◌, ◌∷◌, Option, All, Bool, List, ℕ,
}
use iokit_user.Kext.LoadList.{
  copy_dependencies_list, copy_load_list, Kexts, Context, contains, finish, apply_function, visit,
  add_dependencies,
}

-- The dependencies that the search follows.
abbrev pub followed : Bool → Option (List ℕ) → List ℕ
followed true ds = []
followed false none = []
followed false (some ks) = ks

abbrev pub depends_on : Kexts → ℕ → List ℕ
depends_on g k = followed (g.kernel_component k) (g.dependencies k)

abbrev pub AllIn : List ℕ → List ℕ → Type 0
AllIn ks xs = All (λ k. contains xs k ≡ true) ks

-- Each kext of a list is new, and its dependencies stand before it, behind those seen already.
abbrev pub LoadOrder : Kexts → List ℕ → List ℕ → Type 0
LoadOrder g seen [] = Unit
LoadOrder g seen (k ∷ ks) =
    (contains seen k ≡ false) × AllIn (depends_on g k) seen × LoadOrder g (seen ++ k ∷ []) ks

pub contains-append :
    (xs ys : List ℕ) (k : ℕ) → contains (xs ++ ys) k ≡ (contains xs k || contains ys k)
unfolding contains
contains-append [] ys k = refl
contains-append (x ∷ xs) ys k = ground (arith, contains-append xs ys k)

pub contains-append_left :
    (xs ys : List ℕ) (k : ℕ) → contains xs k ≡ true → contains (xs ++ ys) k ≡ true
contains-append_left xs ys k h = ground (arith, contains-append xs ys k)

pub contains_last : (xs : List ℕ) (k : ℕ) → contains (xs ++ k ∷ []) k ≡ true
unfolding contains
contains_last [] k = ground arith
contains_last (x ∷ xs) k = ground (arith, contains_last xs k)

pub contains_snoc :
    (xs : List ℕ) (k x : ℕ) → contains (xs ++ k ∷ []) x ≡ true → (contains xs x ≡ true) ⊎ (k ≡ x)
unfolding contains
contains_snoc xs k x h = ground (arith, contains-append xs (k ∷ []) x)

pub LoadOrder-append :
    (g : Kexts) (seen xs : List ℕ) (k : ℕ)
    → LoadOrder g seen xs
    → contains (seen ++ xs) k ≡ false
    → AllIn (depends_on g k) (seen ++ xs)
    → LoadOrder g seen (xs ++ k ∷ [])
LoadOrder-append g seen [] k h new deps =
    (rw append-nil at new, subst (AllIn (depends_on g k)) (append-nil seen) deps, tt)
LoadOrder-append g seen (x ∷ xs) k h new deps = (
  h.0,
  h.1,
  LoadOrder-append g (seen ++ x ∷ []) xs k h.2 (rw (append_assoc seen (x ∷ []) xs) new)
      (rw (append_assoc seen (x ∷ []) xs) deps),
)

-- The array has grown.
abbrev pub Extends : List ℕ → List ℕ → Type 0
Extends xs ys = (k : ℕ) → contains xs k ≡ true → contains ys k ≡ true

pub AllIn-Extends : (ks xs ys : List ℕ) → Extends xs ys → AllIn ks xs → AllIn ks ys
AllIn-Extends [] xs ys e h = tt
AllIn-Extends (k ∷ ks) xs ys e h = (e k h.0, AllIn-Extends ks xs ys e h.1)

-- What a search without error has done: the array grew, stayed in order, and holds the kext.
pub record Adds (g : Kexts) (c c' : Context) (ks : List ℕ) : Type 0 where
  pub no_error : c.error ≡ false
  pub grown : Extends c.array c'.array
  pub ordered : LoadOrder g [] c.array → LoadOrder g [] c'.array
  pub found : AllIn ks c'.array

Extends-refl : (xs : List ℕ) → Extends xs xs
Extends-refl xs k h = h

pub apply_function-some :
    (call : ℕ → Context → Option Context) (k : ℕ) (ks : List ℕ) (c d : Context)
    → call k c ≡ some d
    → apply_function call (k ∷ ks) c ≡ apply_function call ks d
unfolding apply_function
apply_function-some call k ks c d e = rw e

pub apply_function-none :
    (call : ℕ → Context → Option Context) (k : ℕ) (ks : List ℕ) (c : Context)
    → call k c ≡ none
    → apply_function call (k ∷ ks) c ≡ none
unfolding apply_function
apply_function-none call k ks c e = rw e

pub none-ne-some {ℓ} : {A : Type ℓ} {a : A} → none ≡ some a → ⊥
none-ne-some e = cc

module _ (g : Kexts) where
  -- Calls that each add their kext add all of them.
  apply_function-Adds :
      (call : ℕ → Context → Option Context)
      → ((k : ℕ) (c c' : Context) → call k c ≡ some c' → c'.error ≡ false → Adds g c c' (k ∷ []))
      → (ks : List ℕ) (c c' : Context) → apply_function call ks c ≡ some c'
      → c'.error ≡ false
      → Adds g c c' ks
  unfolding apply_function
  apply_function-Adds call step [] c c' e ne =
      let same_context : c ≡ c' = cc in
      rw (← same_context) (record {
        no_error = rw same_context ne;
        grown = Extends-refl c.array;
        ordered = λ o. o;
        found = tt;
      })
  apply_function-Adds call step (k ∷ ks) c c' e ne = elim (Option-cases (call k c)) [
    | inl o ↦ absurd (none-ne-some (sym (apply_function-none call k ks c o) ∙ e))
    | inr (d, o) ↦
        let rest : Adds g d c' ks =
          apply_function-Adds call step ks d c' (sym (apply_function-some call k ks c d o) ∙ e)
            ne in
        let one : Adds g c d (k ∷ []) = step k c d o rest.no_error in
        record {
          no_error = one.no_error;
          grown = λ x h. rest.grown x (one.grown x h);
          ordered = λ l. rest.ordered (one.ordered l);
          found = (rest.grown k one.found.0, rest.found);
        }
  ]

  -- The end of a call adds the kext whose dependencies are there.
  finish-Adds :
      (k depth : ℕ) (c c' : Context)
      → Adds g c c' (depends_on g k)
      → c'.error ≡ false
      → Adds g c (finish 0 depth k c') (k ∷ [])
  unfolding finish
  finish-Adds k depth c c' a ne = elim (Bool-cases (contains c'.array k)) [
    | inl e ↦
        rw (ne, le→leb 0 depth (omega arith), e)
          (record { no_error = a.no_error; grown = a.grown; ordered = a.ordered; found = (e, tt) })
    | inr e ↦
        rw (ne, le→leb 0 depth (omega arith), e)
          (record {
            no_error = a.no_error;
            grown = λ x h. contains-append_left c'.array (k ∷ []) x (a.grown x h);
            ordered = λ l. LoadOrder-append g [] c'.array k (a.ordered l) e a.found;
            found = (contains_last c'.array k, tt);
          })
  ]

  visit-Adds :
      (k : ℕ) (call : ℕ → Context → Option Context)
      → ((j : ℕ) (c c' : Context) → call j c ≡ some c' → c'.error ≡ false → Adds g c c' (j ∷ []))
      → (b : Bool) (ds : Option (List ℕ)) (c c' : Context) → visit b ds call c ≡ some c'
      → c'.error ≡ false
      → Adds g c c' (followed b ds)
  unfolding visit
  visit-Adds k call step true ds c c' e ne = apply_function-Adds call step [] c c' e' ne
    where
      e' : apply_function call [] c ≡ some c'
      e' = unfold apply_function in e
  visit-Adds k call step false none c c' e ne = ground arith
  visit-Adds k call step false (some ks) c c' e ne = apply_function-Adds call step ks c c' e ne

pub error-finish :
    (min_depth depth k : ℕ) (c : Context) → (finish min_depth depth k c).error ≡ c.error
unfolding finish
error-finish min_depth depth k c = ground arith

-- A call that returns is the visit of the dependencies, and the end of the call.
pub add_dependencies-visit :
    (g : Kexts) (min_depth fuel depth k : ℕ) (c c' : Context)
    → add_dependencies g min_depth (suc fuel) depth k c ≡ some c'
    → (d : Context) × (visit
          (g.kernel_component k)
          (g.dependencies k)
          (add_dependencies g min_depth fuel (suc depth))
          c
        ≡ some d)
      × (c' ≡ finish min_depth depth k d)
unfolding add_dependencies
add_dependencies-visit g m fuel depth k c c' e =
    let (d, v, f) =
      >>=-eq-some
        (visit (g.kernel_component k) (g.dependencies k) (add_dependencies g m fuel (suc depth)) c)
        (λ d. some (finish m depth k d)) e in
    (d, v, some_inj (sym f))

add_dependencies-Adds :
    (g : Kexts) (fuel depth k : ℕ) (c c' : Context)
    → add_dependencies g 0 fuel depth k c ≡ some c'
    → c'.error ≡ false
    → Adds g c c' (k ∷ [])
add_dependencies-Adds g zero depth k c c' e ne =
    absurd (none-ne-some {a = c'} (unfold add_dependencies in e))
add_dependencies-Adds g (suc fuel) depth k c c' e ne =
    let (d, v, f) = add_dependencies-visit g 0 fuel depth k c c' e in
    let fine : d.error ≡ false =
      sym (error-finish 0 depth k d) ∙ ap (λ (x : Context). x.error) (sym f) ∙ ne in
    rw f (
      finish-Adds g k depth c d
        (visit-Adds g k _ (add_dependencies-Adds g fuel (suc depth)) (g.kernel_component k)
          (g.dependencies k) c d v fine)
        fine)

returned : Context → Option (List ℕ)
returned c = if c.error then none else some c.array

returned-some :
    (c : Context) (list : List ℕ) → returned c ≡ some list → (c.error ≡ false) × (c.array ≡ list)
unfolding returned
returned-some c list e = ground arith

-- A list that is returned is the array of a search without error.
pub copy_dependencies_list-some :
    (g : Kexts) (fuel k : ℕ) (resolved need_all : Bool) (min_depth : ℕ) (list : List ℕ)
    → copy_dependencies_list g fuel k resolved need_all min_depth ≡ some (some list)
    → (c : Context) × (add_dependencies g min_depth fuel 0 k (record { array = []; error = false })
        ≡ some c)
      × (c.error ≡ false)
      × (c.array ≡ list)
unfolding copy_dependencies_list returned
copy_dependencies_list-some g fuel k resolved need_all m list e =
    elim (Bool-cases (need_all && not resolved)) [
      | inl b ↦ absurd (none-ne-some (some_inj (sym (unresolved b) ∙ e)))
      | inr b ↦
          let (c, run, f) =
            >>=-eq-some (add_dependencies g m fuel 0 k (record { array = []; error = false }))
              (λ c. some (returned c)) (sym (searched b) ∙ e) in
          let (ne, same_array) = returned-some c list (some_inj f) in (c, run, ne, same_array)
    ]
  where
    unresolved :
        (need_all && not resolved) ≡ true
        → copy_dependencies_list g fuel k resolved need_all m ≡ some none
    unresolved b = rw b

    searched :
        (need_all && not resolved) ≡ false
        → copy_dependencies_list g fuel k resolved need_all m ≡ (
            add_dependencies g m fuel 0 k (record { array = []; error = false }) >>= λ c.
            some (returned c))
    searched b = rw b

-- A load list that is returned holds the kext, and every kext of it stands once, behind all of its
-- dependencies.
pub copy_load_list-LoadOrder :
    (g : Kexts) (fuel k : ℕ) (resolved need_all : Bool) (list : List ℕ)
    → copy_load_list g fuel k resolved need_all ≡ some (some list)
    → LoadOrder g [] list × (contains list k ≡ true)
unfolding copy_load_list
copy_load_list-LoadOrder g fuel k resolved need_all list e =
    let (c, run, ne, same_array) =
      copy_dependencies_list-some g fuel k resolved need_all 0 list e in
    let a = add_dependencies-Adds g fuel 0 k (record { array = []; error = false }) c run ne in
    rw (← same_array) (a.ordered tt, a.found.0)
