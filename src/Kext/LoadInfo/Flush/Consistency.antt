-- ===== src/Kext/LoadInfo/Flush/Consistency.antt =====
-- The flag "has all dependencies" of kext.subproj/OSKext.c and the flags of the dependencies.
use iokit_user.Kext.LoadList.Order.{none-ne-some}
use mathlib.Core.Bool.{false≢true}
use mathlib.Core.Path.{subst}
use iokit_user.Prelude.{
  ap, zero, suc, none, refl, ◌∙◌, >>=-eq-some, sym, some_inj, inr, ◌&&◌, ==_iff, inl, ◌==◌, some,
  arith, Option, Bool-cases, false, ◌||◌, true, [], ◌∷◌, ◌≡◌, List, Bool, ℕ,
}
use iokit_user.Kext.LoadList.{contains}
use iokit_user.Kext.LoadInfo.{
  LoadInfo, LoadInfos, dependencies_of, has_all, listed, unflagged, update_info,
  has_all_dependencies, clear_one, clear_each, clear_has_all_dependencies, flush_array, flush_info,
  flush_dependencies, set_info, array_flushed, flags_flushed,
}
use iokit_user.Kext.LoadInfo.Flush.Clearing.{
  Cleared, clear-Cleared, clear_each-Cleared, update_info-Cleared, has_all-unflagged,
  clear_one-cases,
}

module _ (kernel_component : ℕ → Bool) (all_kexts : List ℕ) where
  -- The dependencies of a kext with the flag have all theirs, but for some that are still pending.
  abbrev pub Supported : List ℕ → LoadInfos → Type 0
  Supported pending s =
      (c b : ℕ)
      → contains all_kexts c ≡ true
      → has_all (s c) ≡ true
      → listed (dependencies_of (s c)) b ≡ true
      → (has_all_dependencies kernel_component s b || contains pending b) ≡ true

  abbrev pub Consistent : LoadInfos → Type 0
  Consistent s = Supported [] s

  -- No kext of the list has the flag and lists the kext.
  abbrev Bare : ℕ → List ℕ → LoadInfos → Type 0
  Bare k cs s =
      (c : ℕ)
      → contains cs c ≡ true
      → has_all (s c) ≡ true
      → listed (dependencies_of (s c)) k ≡ false

  has_all_left :
      (s : LoadInfos) (c : ℕ)
      → has_all (s c) ≡ true
      → has_all_dependencies kernel_component s c ≡ true
  unfolding has_all_dependencies
  has_all_left s c h = ground arith

  update_info-Supported :
      (c : ℕ) (pending : List ℕ) (s : LoadInfos)
      → Supported pending s
      → Supported (c ∷ pending) (update_info s c (unflagged (s c)))
  unfolding has_all_dependencies contains
  update_info-Supported c pending s sup x b m h l = elim (Bool-cases (b == c)) [
    | inl q ↦ ground (arith, ==_iff b c, ==_iff c b)
    | inr q ↦ rw q (ground (arith, sup x b m (p.flags x h) (rw (p.arrays x) at l)))
  ]
    where
      p : Cleared s (update_info s c (unflagged (s c)))
      p = update_info-Cleared s c

  Supported-done :
      (k : ℕ) (pending : List ℕ) (s : LoadInfos)
      → Supported (k ∷ pending) s
      → Bare k all_kexts s
      → Supported pending s
  unfolding contains
  Supported-done k pending s sup bare x b m h l = elim (Bool-cases (k == b)) [
    | inl q ↦ absurd (
        false≢true (
          sym (bare x m h)
          ∙ subst (λ y. listed (dependencies_of (s x)) y ≡ true) (sym ((==_iff k b).0 q)) l))
    | inr q ↦ ground (arith, sup x b m h l)
  ]

  Bare-nil : (k : ℕ) (s : LoadInfos) → Bare k [] s
  unfolding contains
  Bare-nil k s x m h = absurd (false≢true m)

  Bare-cons :
      (k c : ℕ) (cs : List ℕ) (t s : LoadInfos)
      → Cleared t s
      → (has_all (t c) ≡ true → listed (dependencies_of (t c)) k ≡ false)
      → Bare k cs s
      → Bare k (c ∷ cs) s
  unfolding contains
  Bare-cons k c cs t s p at_c at_cs x m h = elim (Bool-cases (c == x)) [
    | inl q ↦
        let same : c ≡ x = (==_iff c x).0 q in
        rw (← same) (rw (p.arrays c) (at_c (p.flags c (rw same h))))
    | inr q ↦ at_cs x (ground arith) h
  ]

  -- The loop, with calls that each settle what they are called for.
  module _ (call : ℕ → LoadInfos → Option LoadInfos)
      (keeps : (k : ℕ) (s s' : LoadInfos) → call k s ≡ some s' → Cleared s s')
      (settles : (k : ℕ) (pending : List ℕ) (s s' : LoadInfos)
        → call k s ≡ some s'
        → Supported (k ∷ pending) s
        → Supported pending s')
      (k : ℕ) (pending : List ℕ) where
    clear_one-Supported :
        (c : ℕ) (s s' : LoadInfos)
        → clear_one kernel_component call k c s ≡ some s'
        → Supported (k ∷ pending) s
        → Supported (k ∷ pending) s'
          × (has_all (s' c) ≡ true → listed (dependencies_of (s' c)) k ≡ false)
    clear_one-Supported c s s' e sup = elim (clear_one-cases kernel_component call k c s s' e) [
      | inl (q, r) ↦ (
        settles c (k ∷ pending) _ s' r (update_info-Supported c (k ∷ pending) s sup),
        λ h. absurd (false≢true (sym gone ∙ (keeps c _ s' r).flags c h)),
      )
      | inr (q, same) ↦ (subst (Supported (k ∷ pending)) same sup, subst Settled same (settled q))
    ]
      where
        gone : has_all (update_info s c (unflagged (s c)) c) ≡ false
        gone = rw ((==_iff c c).1 refl) (has_all-unflagged (s c))

        Settled : LoadInfos → Type 0
        Settled t = has_all (t c) ≡ true → listed (dependencies_of (t c)) k ≡ false

        settled :
            (listed (dependencies_of (s c)) k && has_all_dependencies kernel_component s c) ≡ false
            → has_all (s c) ≡ true
            → listed (dependencies_of (s c)) k ≡ false
        settled q h = ground (arith, has_all_left s c h)

    clear_each-Supported :
        (cs : List ℕ) (s s' : LoadInfos)
        → clear_each kernel_component call k cs s ≡ some s'
        → Supported (k ∷ pending) s
        → Supported (k ∷ pending) s' × Bare k cs s'
    unfolding clear_each
    clear_each-Supported [] s s' e sup =
        (subst (Supported (k ∷ pending)) (some_inj e) sup, Bare-nil k s')
    clear_each-Supported (c ∷ cs) s s' e sup =
        let (t, one, rest) =
          >>=-eq-some (clear_one kernel_component call k c s)
            (λ t. clear_each kernel_component call k cs t) e in
        let (sup', at_c) = clear_one-Supported c s t one sup in
        let (sup'', at_cs) = clear_each-Supported cs t s' rest sup' in
        let p : Cleared t s' = clear_each-Cleared kernel_component call keeps k cs t s' rest in
        (sup'', Bare-cons k c cs t s' p at_c at_cs)

  clear-Supported :
      (fuel k : ℕ) (pending : List ℕ) (s s' : LoadInfos)
      → clear_has_all_dependencies kernel_component all_kexts fuel k s ≡ some s'
      → Supported (k ∷ pending) s
      → Supported pending s'
  unfolding clear_has_all_dependencies
  clear-Supported zero k pending s s' e sup = absurd (none-ne-some {a = s'} e)
  clear-Supported (suc fuel) k pending s s' e sup =
      let (sup', bare) =
        clear_each-Supported (clear_has_all_dependencies kernel_component all_kexts fuel)
          (clear-Cleared kernel_component all_kexts fuel)
          (λ j ps t t' f u. clear-Supported fuel j ps t t' f u) k pending all_kexts s s' e sup in
      Supported-done k pending s' sup' bare

  -- Flags for the kinds of kernel dependencies do not matter.
  flags_flushed-Consistent :
      (k : ℕ) (s : LoadInfos) (i : LoadInfo)
      → s k ≡ some i
      → Consistent s
      → Consistent (set_info s k (flags_flushed i))
  unfolding flags_flushed has_all_dependencies
  flags_flushed-Consistent k s i e sup x b m h l =
      rw (has_same b)
        (sup x b m (sym (has_same x) ∙ h) (ap (λ o. listed o b) (sym (array_same x)) ∙ l))
    where
      at_k : (y : ℕ) → (y == k) ≡ true → s y ≡ some i
      at_k y q = ap s ((==_iff y k).0 q) ∙ e

      has_same : (y : ℕ) → has_all (set_info s k (flags_flushed i) y) ≡ has_all (s y)
      has_same y = elim (Bool-cases (y == k)) [
        | inl q ↦ rw q (ap has_all (sym (at_k y q)))
        | inr q ↦ rw q refl
      ]

      array_same :
          (y : ℕ) → dependencies_of (set_info s k (flags_flushed i) y) ≡ dependencies_of (s y)
      array_same y = elim (Bool-cases (y == k)) [
        | inl q ↦ rw q (ap dependencies_of (sym (at_k y q)))
        | inr q ↦ rw q refl
      ]

  array_flushed-Supported :
      (k : ℕ) (s : LoadInfos) (i : LoadInfo)
      → Consistent s
      → Supported (k ∷ []) (set_info s k (array_flushed i))
  unfolding array_flushed has_all_dependencies contains
  array_flushed-Supported k s i sup x b m h l = elim (Bool-cases (x == k)) [
    | inl q ↦ absurd (false≢true (rw q at h))
    | inr q ↦ elim (Bool-cases (b == k)) [
      | inl r ↦ ground (arith, ==_iff b k, ==_iff k b)
      | inr r ↦ rw r (ground (arith, sup x b m (rw q at h) (rw q at l)))
    ]
  ]

  flush_array-Consistent :
      (fuel k : ℕ) (s s' : LoadInfos) (i : LoadInfo) (ds : Option (List ℕ))
      → s k ≡ some i
      → flush_array kernel_component all_kexts fuel k s (flags_flushed i) ds ≡ some s'
      → Consistent s
      → Consistent s'
  unfolding flush_array
  flush_array-Consistent fuel k s s' i none q e sup =
      subst Consistent (some_inj e) (flags_flushed-Consistent k s i q sup)
  flush_array-Consistent fuel k s s' i (some ks) q e sup =
      clear-Supported fuel k [] _ s' e (array_flushed-Supported k s (flags_flushed i) sup)

  flush_info-Consistent :
      (fuel k : ℕ) (s s' : LoadInfos) (o : Option LoadInfo)
      → s k ≡ o
      → flush_info kernel_component all_kexts fuel k s o ≡ some s'
      → Consistent s
      → Consistent s'
  unfolding flush_info
  flush_info-Consistent fuel k s s' none q e sup = subst Consistent (some_inj e) sup
  flush_info-Consistent fuel k s s' (some i) q e sup =
      flush_array-Consistent fuel k s s' i i.dependencies q e sup

-- Flushing the dependencies of a kext keeps this: if a kext has the flag "has all dependencies", so has
-- each kext that it lists, or that one is a kernel component.
pub flush_dependencies-Consistent :
    (kernel_component : ℕ → Bool) (all_kexts : List ℕ) (fuel k : ℕ) (s s' : LoadInfos)
    → flush_dependencies kernel_component all_kexts fuel k s ≡ some s'
    → Consistent kernel_component all_kexts s
    → Consistent kernel_component all_kexts s'
unfolding flush_dependencies
flush_dependencies-Consistent kernel_component all_kexts fuel k s s' e sup =
    flush_info-Consistent kernel_component all_kexts fuel k s s' (s k) refl e sup
