-- ===== src/Kext/Resolve/Counting.antt =====
-- How many kexts are not on the loop stack of `__OSKextResolveDependencies` of kext.subproj/OSKext.c.
use mathlib.Core.Path.{subst}
use mathlib.Core.Bool.{false≢true}
use iokit_user.Prelude.{
  append_assoc, append-nil, ==_iff, inr, inl, ◌==◌, ◌<◌, Bool-cases, ◌+◌, false, arith,
  if◌then◌else◌, length, [], true, ◌++◌, ◌≡◌, ◌≤◌, ◌∷◌, List, ℕ,
}
use iokit_user.Kext.LoadList.{Kexts, contains}
use iokit_user.Kext.LoadList.Order.{LoadOrder, contains_last, AllIn, contains-append}

-- How many kexts of a list are not on the stack.
pub free : List ℕ → List ℕ → ℕ
free [] stack = 0
free (x ∷ xs) stack = (if contains stack x then 0 else 1) + free xs stack

pub free-le-length : (xs stack : List ℕ) → free xs stack ≤ length xs
unfolding free
free-le-length [] stack = omega arith
free-le-length (x ∷ xs) stack = ground (arith, free-le-length xs stack)

free-push : (xs stack : List ℕ) (k : ℕ) → free xs (stack ++ k ∷ []) ≤ free xs stack
unfolding free
free-push [] stack k = omega arith
free-push (x ∷ xs) stack k = ground (arith, free-push xs stack k, contains-append stack (k ∷ []) x)

pub free-lt :
    (xs stack : List ℕ) (k : ℕ)
    → contains xs k ≡ true
    → contains stack k ≡ false
    → free xs (stack ++ k ∷ []) < free xs stack
unfolding free contains
free-lt [] stack k h n = absurd (false≢true h)
free-lt (x ∷ xs) stack k h n = elim (Bool-cases (x == k)) [
  | inl q ↦
      let same_kext : x ≡ k = (==_iff x k).0 q in
      rw same_kext (rw (n, contains_last stack k) (omega (arith, free-push xs stack k)))
  | inr q ↦ ground (arith, free-lt xs stack k (rw q at h) n, contains-append stack (k ∷ []) x)
]

-- The kexts of a list of distinct ones among others are no more than those.
distinct-le-free :
    (g : Kexts) (ys seen xs : List ℕ)
    → LoadOrder g seen xs
    → AllIn xs ys
    → length xs + free ys (seen ++ xs) ≤ free ys seen
distinct-le-free g ys seen [] o a = rw (append-nil seen) (omega arith)
distinct-le-free g ys seen (x ∷ xs) o a = omega (
  arith,
  free-lt ys seen x a.0 o.0,
  subst (λ l. length xs + free ys l ≤ free ys (seen ++ x ∷ [])) (append_assoc seen (x ∷ []) xs)
      (distinct-le-free g ys (seen ++ x ∷ []) xs o.2 a.1),
)

pub LoadOrder-length :
    (g : Kexts) (ys xs : List ℕ) → LoadOrder g [] xs → AllIn xs ys → length xs ≤ length ys
LoadOrder-length g ys xs o a = omega (arith, distinct-le-free g ys [] xs o a, free-le-length ys [])
