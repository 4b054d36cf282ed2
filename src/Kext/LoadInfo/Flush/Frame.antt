-- ===== src/Kext/LoadInfo/Flush/Frame.antt =====
-- What `OSKextFlushDependencies` of kext.subproj/OSKext.c does to the other kexts, and its end.
use mathlib.Core.Path.{subst}
use iokit_user.Prelude.{
  arith, inr, ==_iff, inl, Bool-cases, true, ◌<◌, length, none, ◌∙◌, some_inj, sym, ap, refl,
  Option, false, some, ◌≡◌, List, ◌==◌, Bool, ℕ,
}
use iokit_user.Kext.LoadInfo.{
  listed, flags_flushed, flush_info, array_flushed, flush_array, dependencies_of, set_info,
  flush_dependencies, LoadInfos, LoadInfo,
}
use iokit_user.Kext.LoadInfo.Flush.Clearing.{clear-Cleared}
use iokit_user.Kext.LoadInfo.Flush.Ending.{
  KernelBare-Cleared, flagged-le-length, KernelBare, clear_has_all_dependencies_total,
}

-- Where two kexts differ, setting the one leaves the other.
pub set_info_other :
    (s : LoadInfos) (k : ℕ) (i : LoadInfo) (x : ℕ) → (x == k) ≡ false → set_info s k i x ≡ s x
set_info_other s k i x q = rw q refl

-- A flush changes the array of its kext only.
pub flush_dependencies-kept :
    (kernel_component : ℕ → Bool) (all_kexts : List ℕ) (fuel k : ℕ) (s s' : LoadInfos) (x : ℕ)
    → flush_dependencies kernel_component all_kexts fuel k s ≡ some s'
    → (x == k) ≡ false
    → dependencies_of (s' x) ≡ dependencies_of (s x)
unfolding flush_dependencies flush_info flush_array
flush_dependencies-kept kc all fuel k s s' x e q = by_info (s k) e
  where
    by_array :
        (i : LoadInfo) (ds : Option (List ℕ))
        → flush_array kc all fuel k s i ds ≡ some s'
        → dependencies_of (s' x) ≡ dependencies_of (s x)
    by_array i none f =
        ap (λ t. dependencies_of (t x)) (sym (some_inj f))
        ∙ ap dependencies_of (set_info_other s k i x q)
    by_array i (some ks) f =
        (clear-Cleared kc all fuel k _ s' f).arrays x
        ∙ ap dependencies_of (set_info_other s k (array_flushed i) x q)

    by_info :
        (o : Option LoadInfo)
        → flush_info kc all fuel k s o ≡ some s'
        → dependencies_of (s' x) ≡ dependencies_of (s x)
    by_info none f = ap (λ t. dependencies_of (t x)) (sym (some_inj f))
    by_info (some i) f = by_array (flags_flushed i) i.dependencies f

-- Where no kernel component lists a dependency, a flush ends, with as much fuel as there are kexts, and
-- no kernel component lists one then.
pub flush_dependencies_total :
    (kernel_component : ℕ → Bool) (all_kexts : List ℕ) (fuel k : ℕ) (s : LoadInfos)
    → KernelBare kernel_component s
    → length all_kexts < fuel
    → (s' : LoadInfos) × (flush_dependencies kernel_component all_kexts fuel k s ≡ some s')
      × KernelBare kernel_component s'
unfolding flush_dependencies flush_info flush_array array_flushed flags_flushed
flush_dependencies_total kc all fuel k s b h = by_info (s k) refl
  where
    bare_set :
        (i : LoadInfo)
        → ((j : ℕ) → kc k ≡ true → listed i.dependencies j ≡ false)
        → KernelBare kc (set_info s k i)
    bare_set i bi x j kx = elim (Bool-cases (x == k)) [
      | inl q ↦ rw q (bi j (subst (λ y. kc y ≡ true) ((==_iff x k).0 q) kx))
      | inr q ↦ rw q (b x j kx)
    ]

    by_array :
        (i : LoadInfo) (ds : Option (List ℕ))
        → i.dependencies ≡ ds
        → ((j : ℕ) → kc k ≡ true → listed i.dependencies j ≡ false)
        → (s' : LoadInfos) × (flush_array kc all fuel k s i ds ≡ some s') × KernelBare kc s'
    by_array i none e bi = (set_info s k i, refl, bare_set i bi)
    by_array i (some ks) e bi =
        let b' : KernelBare kc (set_info s k (array_flushed i)) =
          bare_set (array_flushed i) (λ j kx. refl) in
        let (s', run) =
          clear_has_all_dependencies_total kc all fuel k (set_info s k (array_flushed i)) b'
            (omega (arith, flagged-le-length (set_info s k (array_flushed i)) all)) in
        (s', run, KernelBare-Cleared kc _ s' (clear-Cleared kc all fuel k _ s' run) b')

    by_info :
        (o : Option LoadInfo)
        → s k ≡ o
        → (s' : LoadInfos) × (flush_info kc all fuel k s o ≡ some s') × KernelBare kc s'
    by_info none e = (s, refl, b)
    by_info (some i) e =
        by_array (flags_flushed i) i.dependencies refl
          (λ j kx. subst (λ o. listed (dependencies_of o) j ≡ false) e (b k j kx))
