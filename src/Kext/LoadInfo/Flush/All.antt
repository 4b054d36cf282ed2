-- ===== src/Kext/LoadInfo/Flush/All.antt =====
-- OSKextFlushDependencies of all kexts, of kext.subproj/OSKext.c.
use iokit_user.Prelude.{
  [], ◌∷◌, ◌∙◌, ap, ◌==◌, refl, false, some_inj, ◌<◌, sym, length, some, Option, none, true, inl,
  ==_iff, inr, Bool, ◌≡◌, ℕ, Bool-cases, List,
}
use iokit_user.Kext.LoadList.{contains}
use iokit_user.Kext.LoadInfo.{
  LoadInfo, LoadInfos, set_info, dependencies_of, has_all, flags_flushed, array_flushed,
  flush_array, flush_info, flush_dependencies, flush_all,
}
use iokit_user.Kext.LoadInfo.Flush.Clearing.{Cleared, clear-Cleared}
use iokit_user.Kext.LoadInfo.Flush.Ending.{KernelBare}
use iokit_user.Kext.LoadInfo.Flush.Frame.{flush_dependencies-kept, flush_dependencies_total}
use mathlib.Core.Bool.{false≢true}
use mathlib.Core.Path.{subst}

-- A kext without an array does not have the flag.
abbrev pub Arrayed : LoadInfos → Type 0
Arrayed s = (x : ℕ) → dependencies_of (s x) ≡ none → has_all (s x) ≡ false

-- Kexts without an array stay without one.
abbrev pub StillNone : LoadInfos → LoadInfos → Type 0
StillNone s s' = (x : ℕ) → dependencies_of (s x) ≡ none → dependencies_of (s' x) ≡ none

Arrayed-Cleared : (s s' : LoadInfos) → Cleared s s' → Arrayed s → Arrayed s'
Arrayed-Cleared s s' c a x e = elim (Bool-cases (has_all (s' x))) [
  | inr q ↦ q
  | inl q ↦ absurd (false≢true (sym (a x (sym (c.arrays x) ∙ e)) ∙ c.flags x q))
]

Arrayed-set_info :
    (s : LoadInfos) (k : ℕ) (i : LoadInfo)
    → (i.dependencies ≡ none → i.has_all_dependencies ≡ false)
    → Arrayed s
    → Arrayed (set_info s k i)
Arrayed-set_info s k i h a x e = elim (Bool-cases (x == k)) [
  | inl q ↦ rw q (h (rw q at e))
  | inr q ↦ rw q (a x (rw q at e))
]

module _ (kernel_component : ℕ → Bool) (all_kexts : List ℕ) (fuel k : ℕ) where
  at_k : (s : LoadInfos) (i : LoadInfo) → dependencies_of (set_info s k i k) ≡ i.dependencies
  at_k s i = rw ((==_iff k k).1 refl) refl

  flush_array-Flushed :
      (s s' : LoadInfos) (i : LoadInfo) (ds : Option (List ℕ))
      → i.dependencies ≡ ds
      → (i.dependencies ≡ none → i.has_all_dependencies ≡ false)
      → flush_array kernel_component all_kexts fuel k s i ds ≡ some s'
      → Arrayed s
      → Arrayed s' × (dependencies_of (s' k) ≡ none)
  unfolding flush_array array_flushed
  flush_array-Flushed s s' i none d h e a = (
    subst Arrayed (some_inj e) (Arrayed-set_info s k i h a),
    ap (λ t. dependencies_of (t k)) (sym (some_inj e)) ∙ at_k s i ∙ d,
  )
  flush_array-Flushed s s' i (some ks) d h e a =
      let c = clear-Cleared kernel_component all_kexts fuel k _ s' e in
      (
        Arrayed-Cleared _ s' c (Arrayed-set_info s k (array_flushed i) (λ z. refl) a),
        c.arrays k ∙ at_k s (array_flushed i),
      )

  flush_info-Flushed :
      (s s' : LoadInfos) (o : Option LoadInfo)
      → s k ≡ o
      → flush_info kernel_component all_kexts fuel k s o ≡ some s'
      → Arrayed s
      → Arrayed s' × (dependencies_of (s' k) ≡ none)
  unfolding flush_info flags_flushed
  flush_info-Flushed s s' none q e a = (
    subst Arrayed (some_inj e) a,
    ap (λ t. dependencies_of (t k)) (sym (some_inj e)) ∙ ap dependencies_of q,
  )
  flush_info-Flushed s s' (some i) q e a =
      flush_array-Flushed s s' (flags_flushed i) i.dependencies refl
        (λ z. sym (ap has_all q) ∙ a k (ap dependencies_of q ∙ z)) e a

  flush_dependencies-Flushed :
      (s s' : LoadInfos)
      → flush_dependencies kernel_component all_kexts fuel k s ≡ some s'
      → Arrayed s
      → Arrayed s' × (dependencies_of (s' k) ≡ none)
  unfolding flush_dependencies
  flush_dependencies-Flushed s s' e a = flush_info-Flushed s s' (s k) refl e a

  flush_dependencies-StillNone :
      (s s' : LoadInfos)
      → flush_dependencies kernel_component all_kexts fuel k s ≡ some s'
      → Arrayed s
      → StillNone s s'
  flush_dependencies-StillNone s s' e a x d = elim (Bool-cases (x == k)) [
    | inl q ↦
        subst (λ y. dependencies_of (s' y) ≡ none) (sym ((==_iff x k).0 q))
          (flush_dependencies-Flushed s s' e a).1
    | inr q ↦ flush_dependencies-kept kernel_component all_kexts fuel k s s' x e q ∙ d
  ]

-- What a flush of a list has done.
record AllFlushed (ks : List ℕ) (s s' : LoadInfos) : Type 0 where
  arrayed : Arrayed s'
  still : StillNone s s'
  flushed : (k : ℕ) → contains ks k ≡ true → dependencies_of (s' k) ≡ none

flush_all_each :
    (kernel_component : ℕ → Bool) (all_kexts : List ℕ) (fuel : ℕ) (ks : List ℕ) (s : LoadInfos)
    → KernelBare kernel_component s
    → Arrayed s
    → length all_kexts < fuel
    → (s' : LoadInfos) × (flush_all kernel_component all_kexts fuel ks s ≡ some s')
      × AllFlushed ks s s'
unfolding flush_all contains
flush_all_each kc all fuel [] s b a h =
    (s, refl, record { arrayed = a; still = λ x d. d; flushed = λ k m. absurd (false≢true m) })
flush_all_each kc all fuel (k ∷ ks) s b a h =
    let (t, one, bare) = flush_dependencies_total kc all fuel k s b h in
    let (arrayed, gone) = flush_dependencies-Flushed kc all fuel k s t one a in
    let (s', rest, f) = flush_all_each kc all fuel ks t bare arrayed h in
    (
      s',
      rw one rest,
      record {
        arrayed = f.arrayed;
        still = λ x d. f.still x (flush_dependencies-StillNone kc all fuel k s t one a x d);
        flushed = λ x m. elim (Bool-cases (k == x)) [
          | inl q ↦ subst (λ y. dependencies_of (s' y) ≡ none) ((==_iff k x).0 q) (f.still k gone)
          | inr q ↦ f.flushed x (rw q at m)
        ];
      },
    )

-- Where no kernel component lists a dependency, and no kext has the flag without an array, flushing all
-- kexts of a list ends, with as much fuel as there are kexts, and none of them has an array or the flag then.
pub flush_all_total :
    (kernel_component : ℕ → Bool) (all_kexts : List ℕ) (fuel : ℕ) (ks : List ℕ) (s : LoadInfos)
    → KernelBare kernel_component s
    → Arrayed s
    → length all_kexts < fuel
    → (s' : LoadInfos) × (flush_all kernel_component all_kexts fuel ks s ≡ some s')
      × ((k : ℕ)
          → contains ks k ≡ true
          → (dependencies_of (s' k) ≡ none) × (has_all (s' k) ≡ false))
flush_all_total kc all fuel ks s b a h =
    let (s', run, f) = flush_all_each kc all fuel ks s b a h in
    (s', run, λ k m. (f.flushed k m, f.arrayed k (f.flushed k m)))
