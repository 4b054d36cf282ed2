-- ===== src/Kext/LoadInfo/Flush/Clearing.antt =====
-- What `__OSKextClearHasAllDependenciesOnKext` of kext.subproj/OSKext.c leaves alone.
use mathlib.Core.Bool.{false≢true}
use mathlib.Core.Path.{subst}
use iokit_user.Kext.LoadList.Order.{none-ne-some}
use iokit_user.Prelude.{
  arith, [], ==_iff, sym, >>=-eq-some, ap, ◌∷◌, ◌==◌, some_inj, inr, inl, Bool-cases, zero, suc,
  ◌⊎◌, ◌&&◌, refl, none, List, some, false, true, Option, ◌≡◌, ◌∙◌, Bool, ℕ,
}
use iokit_user.Kext.LoadInfo.{
  LoadInfo, LoadInfos, dependencies_of, has_all, listed, unflagged, update_info,
  has_all_dependencies, clear_one, clear_each, clear_has_all_dependencies,
}

-- The arrays are the same, and no kext has gained the flag.
pub record Cleared (s s' : LoadInfos) : Type 0 where
  pub arrays : (x : ℕ) → dependencies_of (s' x) ≡ dependencies_of (s x)
  pub flags : (x : ℕ) → has_all (s' x) ≡ true → has_all (s x) ≡ true

pub Cleared-refl : (s : LoadInfos) → Cleared s s
Cleared-refl s = record { arrays = λ x. refl; flags = λ x h. h }

pub Cleared-trans : (s t u : LoadInfos) → Cleared s t → Cleared t u → Cleared s u
Cleared-trans s t u p q = record {
  arrays = λ x. q.arrays x ∙ p.arrays x;
  flags = λ x h. p.flags x (q.flags x h);
}

dependencies_of-unflagged :
    (o : Option LoadInfo) → dependencies_of (unflagged o) ≡ dependencies_of o
unfolding unflagged
dependencies_of-unflagged none = refl
dependencies_of-unflagged (some i) = refl

pub has_all-unflagged : (o : Option LoadInfo) → has_all (unflagged o) ≡ false
unfolding unflagged
has_all-unflagged none = refl
has_all-unflagged (some i) = refl

pub update_info-Cleared : (s : LoadInfos) (c : ℕ) → Cleared s (update_info s c (unflagged (s c)))
update_info-Cleared s c = record { arrays = arrays; flags = flags }
  where
    arrays : (x : ℕ) → dependencies_of (update_info s c (unflagged (s c)) x) ≡ dependencies_of (s x)
    arrays x = elim (Bool-cases (x == c)) [
      | inl q ↦ rw q (
          dependencies_of-unflagged (s c)
          ∙ ap (λ y. dependencies_of (s y)) (sym ((==_iff x c).0 q)))
      | inr q ↦ rw q refl
    ]

    flags : (x : ℕ) → has_all (update_info s c (unflagged (s c)) x) ≡ true → has_all (s x) ≡ true
    flags x h = elim (Bool-cases (x == c)) [
      | inl q ↦ absurd (false≢true (sym (has_all-unflagged (s c)) ∙ rw q at h))
      | inr q ↦ rw q at h
    ]

-- The two ways in which a round goes.
pub clear_one-cases :
    (kernel_component : ℕ → Bool) (call : ℕ → LoadInfos → Option LoadInfos) (k c : ℕ)
    (s s' : LoadInfos)
    → clear_one kernel_component call k c s ≡ some s'
    → ((listed (dependencies_of (s c)) k && has_all_dependencies kernel_component s c) ≡ true)
        × (call c (update_info s c (unflagged (s c))) ≡ some s')
      ⊎ ((listed (dependencies_of (s c)) k && has_all_dependencies kernel_component s c) ≡ false)
        × (s ≡ s')
unfolding clear_one
clear_one-cases kc call k c s s' e =
    elim (Bool-cases (listed (dependencies_of (s c)) k && has_all_dependencies kc s c)) [
      | inl q ↦ inl (q, rw q at e)
      | inr q ↦ inr (q, some_inj (rw q at e))
    ]

module _ (kernel_component : ℕ → Bool) (call : ℕ → LoadInfos → Option LoadInfos)
    (keeps : (k : ℕ) (s s' : LoadInfos) → call k s ≡ some s' → Cleared s s') where
  pub clear_one-Cleared :
      (k c : ℕ) (s s' : LoadInfos) → clear_one kernel_component call k c s ≡ some s' → Cleared s s'
  clear_one-Cleared k c s s' e = elim (clear_one-cases kernel_component call k c s s' e) [
    | inl (q, r) ↦ Cleared-trans s _ s' (update_info-Cleared s c) (keeps c _ s' r)
    | inr (q, same) ↦ subst (Cleared s) same (Cleared-refl s)
  ]

  pub clear_each-Cleared :
      (k : ℕ) (cs : List ℕ) (s s' : LoadInfos)
      → clear_each kernel_component call k cs s ≡ some s'
      → Cleared s s'
  unfolding clear_each
  clear_each-Cleared k [] s s' e = subst (Cleared s) (some_inj e) (Cleared-refl s)
  clear_each-Cleared k (c ∷ cs) s s' e =
      let (t, one, rest) =
        >>=-eq-some (clear_one kernel_component call k c s)
          (λ t. clear_each kernel_component call k cs t) e in
      Cleared-trans s t s' (clear_one-Cleared k c s t one) (clear_each-Cleared k cs t s' rest)

pub clear-Cleared :
    (kernel_component : ℕ → Bool) (all_kexts : List ℕ) (fuel k : ℕ) (s s' : LoadInfos)
    → clear_has_all_dependencies kernel_component all_kexts fuel k s ≡ some s'
    → Cleared s s'
unfolding clear_has_all_dependencies
clear-Cleared kc all zero k s s' e = absurd (none-ne-some {a = s'} e)
clear-Cleared kc all (suc fuel) k s s' e =
    clear_each-Cleared kc (clear_has_all_dependencies kc all fuel)
      (λ j t t' f. clear-Cleared kc all fuel j t t' f) k all s s' e

pub has_all_dependencies-flag :
    (kernel_component : ℕ → Bool) (s : LoadInfos) (k : ℕ)
    → has_all (s k) ≡ true
    → has_all_dependencies kernel_component s k ≡ true
unfolding has_all_dependencies
has_all_dependencies-flag kc s k h = ground (arith, h)
