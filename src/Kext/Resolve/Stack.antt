-- ===== src/Kext/Resolve/Stack.antt =====
-- What a run of `__OSKextResolveDependencies` of kext.subproj/OSKext.c does to the loop stack, to the set
-- of resolved kexts, and to the arrays of those that are on one of them.
use iokit_user.Kext.Resolve.Ends.{
  Ends, finish-Ends, conclude-Ends, drop_last-append, add_to_set-Extends, contains-add_to_set,
  dependencies_of-finish,
}
use iokit_user.Kext.Resolve.Cases.{resolve-zero, started, enter-cases, resolve-cases}
use mathlib.Core.Bool.{false≢true}
use iokit_user.Kext.LoadInfo.Flush.Frame.{flush_dependencies-kept, set_info_other}
use mathlib.Core.Path.{subst}
use iokit_user.Kext.LoadList.Order.{contains-append, none-ne-some, AllIn, Extends}
use iokit_user.Prelude.{
  ℕ, ℕ, ℕ, ℕ, ℕ, ℕ, ℕ, ℕ, ℕ, ℕ, ℕ, ℕ, ℕ, ℕ, ℕ, ℕ, ℕ, ℕ, ℕ, ℕ, ℕ, ℕ, ℕ, ℕ, zero, suc, >>=-eq-some,
  not, some_inj, arith, ==_iff, ◌∙◌, sym, ap, refl, some, Option, [], inr, true, false, inl, ◌∷◌,
  ◌||◌, ◌++◌, Bool-cases, ◌==◌, ◌≡◌, Bool, List, ℕ,
}
use iokit_user.Kext.LoadList.{contains}
use iokit_user.Kext.LoadInfo.{
  LoadInfos, LoadInfos, LoadInfos, LoadInfos, LoadInfos, LoadInfos, LoadInfos, LoadInfos, LoadInfos,
  LoadInfos, LoadInfos, LoadInfos, LoadInfos, LoadInfos, LoadInfos, LoadInfos, LoadInfos, LoadInfos,
  LoadInfos, LoadInfos, LoadInfos, LoadInfos, LoadInfos, LoadInfos, dependencies_of, set_info,
  LoadInfos,
}
use iokit_user.Kext.Resolve.{
  drop_last, finish, drop_last, finish, drop_last, finish, drop_last, finish, drop_last, finish,
  drop_last, finish, drop_last, finish, drop_last, finish, drop_last, finish, drop_last, finish,
  drop_last, finish, drop_last, finish, drop_last, finish, drop_last, finish, drop_last, finish,
  drop_last, finish, drop_last, finish, drop_last, finish, drop_last, finish, drop_last, finish,
  drop_last, finish, drop_last, finish, drop_last, finish, drop_last, finish, enter, resolve,
  resolve_each, drop_last, finish, Rules, Run,
}

-- A kext is left alone if it is being resolved, or was visited.
abbrev pub busy : Run → ℕ → Bool
busy run x = contains run.loop_stack x || contains run.resolved_set x

-- What a visit that returns has done.
pub record Visits (k : ℕ) (run run' : Run) : Type 0 where
  pub grown : Extends run.resolved_set run'.resolved_set
  pub visited : contains run'.resolved_set k ≡ true
  pub stack : run'.loop_stack ≡ run.loop_stack
  pub kept :
      (x : ℕ) → busy run x ≡ true → dependencies_of (run'.infos x) ≡ dependencies_of (run.infos x)

-- What the visits of a list have done.
pub record VisitsAll (ks : List ℕ) (run run' : Run) : Type 0 where
  pub grown : Extends run.resolved_set run'.resolved_set
  pub visited : AllIn ks run'.resolved_set
  pub stack : run'.loop_stack ≡ run.loop_stack
  pub kept :
      (x : ℕ) → busy run x ≡ true → dependencies_of (run'.infos x) ≡ dependencies_of (run.infos x)

pub VisitsAll-cons :
    (x : ℕ) (xs : List ℕ) (run mid run' : Run)
    → Visits x run mid
    → VisitsAll xs mid run'
    → VisitsAll (x ∷ xs) run run'
VisitsAll-cons x xs run mid run' p q = record {
  grown = λ y h. q.grown y (p.grown y h);
  visited = (q.grown x p.visited, q.visited);
  stack = q.stack ∙ p.stack;
  kept = λ y h. q.kept y (still y h) ∙ p.kept y h;
}
  where
    still : (y : ℕ) → busy run y ≡ true → busy mid y ≡ true
    still y h = rw p.stack (ground (arith, p.grown y))

module _ (r : Rules) (call : ℕ → Run → Option (Bool × Run))
    (visits : (k : ℕ) (run run' : Run) (b : Bool)
      → call k run ≡ some (b, run')
      → Visits k run run') where
  pub resolve_each-VisitsAll :
      (ks : List ℕ) (error : Bool) (run run' : Run) (b : Bool)
      → resolve_each r call ks error run ≡ some (b, run')
      → VisitsAll ks run run'
  unfolding resolve_each
  resolve_each-VisitsAll [] error run run' b e =
      subst (VisitsAll [] run) (ap (λ (p : Bool × Run). p.1) (some_inj e))
        (record { grown = λ x h. h; visited = tt; stack = refl; kept = λ x h. refl })
  resolve_each-VisitsAll (x ∷ xs) error run run' b e =
      let ((ok, mid), one, rest) =
        >>=-eq-some (call x run) (λ (p : Bool × Run). resolve_each r call xs (error || not p.0) p.1)
          e in
      VisitsAll-cons x xs run mid run' (visits x run mid ok one)
        (resolve_each-VisitsAll xs (error || not ok) mid run' b rest)

-- A visit that does not enter the kext.
finish-Visits : (k : ℕ) (result : Bool) (run : Run) → Visits k run (finish k false result run).1
finish-Visits k result run = record {
  grown = unfold finish in add_to_set-Extends run.resolved_set k;
  visited = unfold finish in contains-add_to_set run.resolved_set k;
  stack = unfold finish in refl;
  kept = λ x h. dependencies_of-finish k false result run x;
}

pub busy_other : (run : Run) (k x : ℕ) → busy run k ≡ false → busy run x ≡ true → (x == k) ≡ false
busy_other run k x new h = elim (Bool-cases (x == k)) [
  | inr q ↦ q
  | inl q ↦ absurd (false≢true (sym new ∙ subst (λ y. busy run y ≡ true) ((==_iff x k).0 q) h))
]

-- The end of a visit of a kext that was pushed on the stack, after a run that left the stack alone.
Ends-Visits :
    (k : ℕ) (run mid run' : Run)
    → busy run k ≡ false
    → mid.loop_stack ≡ run.loop_stack ++ k ∷ []
    → Extends run.resolved_set mid.resolved_set
    → ((x : ℕ) → busy run x ≡ true → dependencies_of (mid.infos x) ≡ dependencies_of (run.infos x))
    → Ends k mid run'
    → Visits k run run'
Ends-Visits k run mid run' new pushed grown kept e = record {
  grown = λ x h. rw e.set (add_to_set-Extends mid.resolved_set k x (grown x h));
  visited = rw e.set (contains-add_to_set mid.resolved_set k);
  stack = e.stack ∙ ap drop_last pushed ∙ drop_last-append run.loop_stack k;
  kept = λ x h. e.kept x (busy_other run k x new h) ∙ kept x h;
}

pub busy_pushed :
    (run : Run) (s : LoadInfos) (k x : ℕ)
    → busy run x ≡ true
    → busy (record run { infos = s; loop_stack = run.loop_stack ++ k ∷ [] }) x ≡ true
busy_pushed run s k x h = ground (arith, contains-append run.loop_stack (k ∷ []) x)

-- How a kext that is on the stack is left: a state from which its visit ends.
record Entered (k : ℕ) (run run' : Run) : Type 0 where
  mid : Run
  ends : Ends k mid run'
  stack : mid.loop_stack ≡ run.loop_stack
  grown : Extends run.resolved_set mid.resolved_set
  kept :
      (x : ℕ)
      → (x == k) ≡ false
      → busy run x ≡ true
      → dependencies_of (mid.infos x) ≡ dependencies_of (run.infos x)

module _ (r : Rules) (call : ℕ → Run → Option (Bool × Run))
    (visits : (k : ℕ) (run run' : Run) (b : Bool)
      → call k run ≡ some (b, run')
      → Visits k run run') where
  enter-Entered :
      (k : ℕ) (run run' : Run) (b : Bool) → enter r call k run ≡ some (b, run') → Entered k run run'
  enter-Entered k run run' b e = elim (enter-cases r call k run (b, run') e) [
    | inl (q, f) ↦ record {
      mid = record run { infos = set_info run.infos k (started k run) };
      ends = rw (ap (λ (p : Bool × Run). p.1) f) (finish-Ends k true _);
      stack = refl;
      grown = λ x h. h;
      kept = λ x n h. ap dependencies_of (set_info_other run.infos k _ x n);
    }
    | inr (q, error, mid, each, f) ↦
        let v = resolve_each-VisitsAll r call visits _ _ _ mid error each in
        record {
          mid = mid;
          ends = rw (ap (λ (p : Bool × Run). p.1) f) (conclude-Ends r k error mid (mid.infos k));
          stack = v.stack;
          grown = v.grown;
          kept = λ x n h. v.kept x h ∙ ap dependencies_of (set_info_other run.infos k _ x n);
        }
  ]

-- A visit that returns adds its kext to the resolved set and forgets none of that set, leaves the loop
-- stack as it was, and changes the array of no kext that is on the stack or in the set already.
pub resolve-Visits :
    (r : Rules) (flush_fuel fuel k : ℕ) (run run' : Run) (b : Bool)
    → resolve r flush_fuel fuel k run ≡ some (b, run')
    → Visits k run run'
resolve-Visits r flush_fuel zero k run run' b e =
    absurd (none-ne-some (sym (resolve-zero r flush_fuel k run) ∙ e))
resolve-Visits r flush_fuel (suc fuel) k run run' b e =
    elim (resolve-cases r flush_fuel fuel k run (b, run') e) [
      | inl f ↦ rw (ap (λ (p : Bool × Run). p.1) f) (finish-Visits k false run)
      | inr (inl (q, f)) ↦ rw (ap (λ (p : Bool × Run). p.1) f) (finish-Visits k true run)
      | inr (inr (q, n, s, flushed, entered)) ↦
          let new : busy run k ≡ false = ground (arith, q, n) in
          let m =
            enter-Entered r (resolve r flush_fuel fuel)
              (λ j u u' c g. resolve-Visits r flush_fuel fuel j u u' c g) k _ run' b entered in
          Ends-Visits k run m.mid run' new m.stack m.grown
            (λ x h.
              m.kept x (busy_other run k x new h) (busy_pushed run s k x h)
              ∙ flush_dependencies-kept r.kernel_component r.library.all_kexts flush_fuel k
                  run.infos s x flushed (busy_other run k x new h))
            m.ends
    ]
