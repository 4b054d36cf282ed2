-- ===== src/Kext/LoadInfo/Flush/Ending.antt =====
-- The end of the recursion of `__OSKextClearHasAllDependenciesOnKext` of kext.subproj/OSKext.c.
use iokit_user.Kext.LoadList.Reach.{contains_tail, contains_head}
use mathlib.Core.Bool.{false≢true}
use iokit_user.Prelude.{
  length, zero, ==_iff, inr, inl, ◌&&◌, ◌==◌, refl, Bool-cases, ◌+◌, suc, [], false, true,
  if◌then◌else◌, arith, some, ◌≡◌, ◌<◌, ◌≤◌, ◌∷◌, List, Bool, ℕ,
}
use iokit_user.Kext.LoadList.{contains}
use iokit_user.Kext.LoadInfo.{
  LoadInfos, dependencies_of, has_all, listed, unflagged, update_info, has_all_dependencies,
  clear_one, clear_each, clear_has_all_dependencies,
}
use iokit_user.Kext.LoadInfo.Flush.Clearing.{
  Cleared, clear_one-Cleared, clear-Cleared, update_info-Cleared, has_all-unflagged,
}

-- How many kexts have the flag.
pub flagged : LoadInfos → List ℕ → ℕ
flagged s [] = 0
flagged s (c ∷ cs) = (if has_all (s c) then 1 else 0) + flagged s cs

pub flagged-Cleared : (s s' : LoadInfos) (cs : List ℕ) → Cleared s s' → flagged s' cs ≤ flagged s cs
unfolding flagged
flagged-Cleared s s' [] p = omega arith
flagged-Cleared s s' (c ∷ cs) p = ground (arith, p.flags c, flagged-Cleared s s' cs p)

pub flagged-le-length : (s : LoadInfos) (cs : List ℕ) → flagged s cs ≤ length cs
unfolding flagged
flagged-le-length s [] = omega arith
flagged-le-length s (c ∷ cs) = ground (arith, flagged-le-length s cs)

flagged-lt :
    (s s' : LoadInfos) (c : ℕ) (cs : List ℕ)
    → Cleared s s'
    → contains cs c ≡ true
    → has_all (s c) ≡ true
    → has_all (s' c) ≡ false
    → flagged s' cs < flagged s cs
unfolding flagged contains
flagged-lt s s' c [] p m h h' = absurd (false≢true m)
flagged-lt s s' c (d ∷ cs) p m h h' = elim (Bool-cases (d == c)) [
  | inl q ↦
      let same : d ≡ c = (==_iff d c).0 q in
      rw same (rw (h, h') (omega (arith, flagged-Cleared s s' cs p)))
  | inr q ↦ ground (arith, p.flags d, flagged-lt s s' c cs p)
]

-- No kernel component lists a dependency.
abbrev pub KernelBare : (ℕ → Bool) → LoadInfos → Type 0
KernelBare kernel_component s =
    (x k : ℕ) → kernel_component x ≡ true → listed (dependencies_of (s x)) k ≡ false

pub KernelBare-Cleared :
    (kernel_component : ℕ → Bool) (s s' : LoadInfos)
    → Cleared s s'
    → KernelBare kernel_component s
    → KernelBare kernel_component s'
KernelBare-Cleared kc s s' p b x k h = rw (p.arrays x) (b x k h)

-- A kext that a round clears has the flag itself.
flag_of :
    (kernel_component : ℕ → Bool) (k c : ℕ) (s : LoadInfos)
    → KernelBare kernel_component s
    → (listed (dependencies_of (s c)) k && has_all_dependencies kernel_component s c) ≡ true
    → has_all (s c) ≡ true
unfolding has_all_dependencies
flag_of kc k c s b q = ground (arith, b c k)

-- A call within the loop.
module _ (kernel_component : ℕ → Bool) (all_kexts : List ℕ) (fuel : ℕ)
    (returns : (k : ℕ) (s : LoadInfos)
      → KernelBare kernel_component s
      → flagged s all_kexts < fuel
      → (s' : LoadInfos) × (clear_has_all_dependencies kernel_component all_kexts fuel k s
          ≡ some s')) where
  clear_one-some :
      (k c : ℕ) (s : LoadInfos)
      → KernelBare kernel_component s
      → contains all_kexts c ≡ true
      → flagged s all_kexts < suc fuel
      → (s' : LoadInfos) × (clear_one kernel_component
            (clear_has_all_dependencies kernel_component all_kexts fuel)
            k
            c
            s
          ≡ some s')
  unfolding clear_one
  clear_one-some k c s b m h =
      elim (Bool-cases
        (listed (dependencies_of (s c)) k && has_all_dependencies kernel_component s c)) [
          | inr q ↦ rw q (s, refl)
          | inl q ↦ rw q (
              returns c (update_info s c (unflagged (s c)))
                (KernelBare-Cleared kernel_component s _ (update_info-Cleared s c) b) (less q))
        ]
    where
      gone : has_all (update_info s c (unflagged (s c)) c) ≡ false
      gone = rw ((==_iff c c).1 refl) (has_all-unflagged (s c))

      less :
          (listed (dependencies_of (s c)) k && has_all_dependencies kernel_component s c) ≡ true
          → flagged (update_info s c (unflagged (s c))) all_kexts < fuel
      less q = omega (
        arith,
        flagged-lt s (update_info s c (unflagged (s c))) c all_kexts (update_info-Cleared s c) m
            (flag_of kernel_component k c s b q) gone,
      )

  clear_each-some :
      (k : ℕ) (cs : List ℕ) (s : LoadInfos)
      → KernelBare kernel_component s
      → ((c : ℕ) → contains cs c ≡ true → contains all_kexts c ≡ true)
      → flagged s all_kexts < suc fuel
      → (s' : LoadInfos) × (clear_each kernel_component
            (clear_has_all_dependencies kernel_component all_kexts fuel)
            k
            cs
            s
          ≡ some s')
  unfolding clear_each
  clear_each-some k [] s b m h = (s, refl)
  clear_each-some k (c ∷ cs) s b m h =
      let (t, one) = clear_one-some k c s b (m c (contains_head c cs)) h in
      let p : Cleared s t =
        clear_one-Cleared kernel_component _
          (λ j u u' f. clear-Cleared kernel_component all_kexts fuel j u u' f) k c s t one in
      let (u, rest) =
        clear_each-some k cs t (KernelBare-Cleared kernel_component s t p b)
          (λ x i. m x (contains_tail c x cs i)) (omega (arith, flagged-Cleared s t all_kexts p)) in
      (u, rw one rest)

-- Where no kernel component lists a dependency, clearing the flags of a kext's dependents ends, with
-- as much fuel as kexts have the flag.
pub clear_has_all_dependencies_total :
    (kernel_component : ℕ → Bool) (all_kexts : List ℕ) (fuel k : ℕ) (s : LoadInfos)
    → KernelBare kernel_component s
    → flagged s all_kexts < fuel
    → (s' : LoadInfos) × (clear_has_all_dependencies kernel_component all_kexts fuel k s ≡ some s')
unfolding clear_has_all_dependencies
clear_has_all_dependencies_total kc all zero k s b h = absurd (omega arith)
clear_has_all_dependencies_total kc all (suc fuel) k s b h =
    clear_each-some kc all fuel (λ j t c l. clear_has_all_dependencies_total kc all fuel j t c l) k
      all s b (λ c m. m) h
