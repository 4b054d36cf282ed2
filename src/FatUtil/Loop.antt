-- ===== src/FatUtil/Loop.antt =====
-- A loop over fat_iterator_next_arch of kext.subproj/fat_util.c.
use mathlib.Core.Path.{subst}
use iokit_user.Prelude.{
  sym, ap, le→leb, false, Bool-cases, ◌∙◌, inr, ltb, inl, Option, zero, refl, leb, arith,
  if◌then◌else◌, length, suc, ◌+◌, none, lt→ltb, ◌≤◌, true, ◌<◌, All, ◌∷◌, [], some, ◌≡◌, List, ℕ,
}
use iokit_user.FatUtil.{
  Formats, Iterator, next_arch, next_fat, checked_arch, joined, all_arches, arch_at, reset,
}
use iokit_user.FatUtil.Bounds.{Layout, Sound, Inside, word_of, big_word-some, field_inside}
use iokit_user.FatUtil.Next.{left, Steps, next_arch-Steps}

abbrev pub AllInside : List ℕ → List (ℕ × ℕ) → Type 0
AllInside file list = All (λ a. Inside file (some a)) list

all_arches_end :
    (f : Formats) (fuel : ℕ) (it it' : Iterator)
    → next_arch f it ≡ some (none, it')
    → all_arches f (suc fuel) it ≡ some []
unfolding all_arches joined
all_arches_end f fuel it it' e = rw e refl

all_arches_next :
    (f : Formats) (fuel : ℕ) (it it' : Iterator) (a : ℕ × ℕ) (list : List (ℕ × ℕ))
    → next_arch f it ≡ some (some a, it')
    → all_arches f fuel it' ≡ some list
    → all_arches f (suc fuel) it ≡ some (a ∷ list)
unfolding all_arches joined
all_arches_next f fuel it it' a list e rest = rw e (rw rest refl)

some-ne-none : {a : ℕ × ℕ} → some a ≡ none → ⊥
some-ne-none e = cc

-- Where the fields lie inside the structures, and the table or the header of an iterator is inside the
-- file, the loop over its architectures ends, with a call more than architectures are left, and what
-- it is given is inside the file, and no more than was left.
pub all_arches_total :
    (f : Formats) (fuel : ℕ) (it : Iterator)
    → Layout f
    → Sound f it
    → left it < fuel
    → (list : List (ℕ × ℕ)) × (all_arches f fuel it ≡ some list)
      × AllInside it.file list
      × (length list ≤ left it)
all_arches_total f zero it layout s h = absurd (omega arith)
all_arches_total f (suc fuel) it layout s h =
    by_step (next_arch-Steps f it layout s)
      (λ it' s' l. all_arches_total f fuel it' layout s' (omega (arith, h, l)))
  where
    by_step :
        (o : Option (ℕ × ℕ)) × (it' : Iterator) × (next_arch f it ≡ some (o, it'))
          × Steps f it o it'
        → ((it' : Iterator)
            → Sound f it'
            → left it' < left it
            → (list : List (ℕ × ℕ)) × (all_arches f fuel it' ≡ some list)
              × AllInside it'.file list
              × (length list ≤ left it'))
        → (list : List (ℕ × ℕ)) × (all_arches f (suc fuel) it ≡ some list)
          × AllInside it.file list
          × (length list ≤ left it)
    by_step (none, it', e, st) rest = ([], all_arches_end f fuel it it' e, tt, omega arith)
    by_step (some a, it', e, st) rest = elim st.less [
      | inl n ↦ absurd (some-ne-none n)
      | inr l ↦
          let (list, given, inside, few) = rest it' st.sound l in
          (
            a ∷ list,
            all_arches_next f fuel it it' a list e given,
            (st.inside, subst (λ file. AllInside file list) st.same_file inside),
            omega (arith, few, l),
          )
    ]

-- The table of a fat file, from an index on: the start and the end of each architecture.
abbrev pub table_from : Formats → List ℕ → ℕ → ℕ → List (ℕ × ℕ)
table_from f file i zero = []
table_from f file i (suc n) =
    (
      word_of file (arch_at f i + f.offset_at),
      word_of file (arch_at f i + f.offset_at) + word_of file (arch_at f i + f.size_at),
    )
    ∷ table_from f file (suc i) n

-- The architectures in front of the first one that is not inside the file.
pub while_inside : List ℕ → List (ℕ × ℕ) → List (ℕ × ℕ)
while_inside file [] = []
while_inside file (a ∷ list) =
    let later = while_inside file list in if leb a.1 (length file) then a ∷ later else []

while_inside_far :
    (file : List ℕ) (a : ℕ × ℕ) (list : List (ℕ × ℕ))
    → ltb (length file) a.1 ≡ true
    → while_inside file (a ∷ list) ≡ []
unfolding while_inside
while_inside_far file a list h = ground (arith, h)

while_inside_near :
    (file : List ℕ) (a : ℕ × ℕ) (list : List (ℕ × ℕ))
    → ltb (length file) a.1 ≡ false
    → while_inside file (a ∷ list) ≡ a ∷ while_inside file list
unfolding while_inside
while_inside_near file a list h = rw (le→leb a.1 (length file) (ground (arith, h))) refl

checked_arch_far :
    (f : Formats) (it : Iterator) (start size : ℕ)
    → ltb (length it.file) (start + size) ≡ true
    → checked_arch f it start size ≡ (none, record it { arch_index = it.num_arches })
unfolding checked_arch
checked_arch_far f it start size h = rw h refl

checked_arch_near :
    (f : Formats) (it : Iterator) (start size : ℕ)
    → ltb (length it.file) (start + size) ≡ false
    → checked_arch f it start size
      ≡ (some (start, start + size), record it { arch_index = suc it.arch_index })
unfolding checked_arch
checked_arch_near f it start size h = rw h refl

module _ (f : Formats) (it : Iterator) (layout : Layout f) (s : Sound f it)
    (fat : it.fat_header ≡ true) where
  abbrev start_of : ℕ → ℕ
  start_of i = word_of it.file (arch_at f i + f.offset_at)

  abbrev size_of_arch : ℕ → ℕ
  size_of_arch i = word_of it.file (arch_at f i + f.size_at)

  next_arch-table :
      (i : ℕ)
      → i < it.num_arches
      → next_arch f (record it { arch_index = i })
        ≡ some (checked_arch f (record it { arch_index = i }) (start_of i) (size_of_arch i))
  unfolding next_arch next_fat
  next_arch-table i l = rw fat (
      rw (lt→ltb i it.num_arches l) (
        rw
          (big_word-some it.file (arch_at f i + f.offset_at)
            (field_inside f it i f.offset_at s fat l layout.offset))
          (rw
            (big_word-some it.file (arch_at f i + f.size_at)
              (field_inside f it i f.size_at s fat l layout.size))
            refl)))

  next_arch_end :
      (i : ℕ)
      → it.num_arches ≤ i
      → next_arch f (record it { arch_index = i }) ≡ some (none, record it { arch_index = i })
  unfolding next_arch next_fat
  next_arch_end i l = rw fat (ground (arith, l))

  -- From an index on, the loop is given the architectures of the table in front of the first one that is
  -- not inside the file.
  all_arches_from :
      (n i fuel : ℕ)
      → i + n ≡ it.num_arches
      → n < fuel
      → all_arches f fuel (record it { arch_index = i })
        ≡ some (while_inside it.file (table_from f it.file i n))
  all_arches_from n i zero e h = absurd (omega arith)
  all_arches_from zero i (suc fuel) e h =
      all_arches_end f fuel _ _ (next_arch_end i (omega (arith, e))) ∙ (unfold while_inside in refl)
  all_arches_from (suc n) i (suc fuel) e h =
      elim (Bool-cases (ltb (length it.file) (start_of i + size_of_arch i))) [
        | inl q ↦
            all_arches_end f fuel _ _
              (next_arch-table i l ∙ ap some (checked_arch_far f _ (start_of i) (size_of_arch i) q))
            ∙ ap some (sym (while_inside_far it.file _ (table_from f it.file (suc i) n) q))
        | inr q ↦
            all_arches_next f fuel _ _ _ _
              (next_arch-table i l
                ∙ ap some (checked_arch_near f _ (start_of i) (size_of_arch i) q))
              (all_arches_from n (suc i) fuel (omega (arith, e)) (omega (arith, h)))
            ∙ ap some (sym (while_inside_near it.file _ (table_from f it.file (suc i) n) q))
      ]
    where
      l : i < it.num_arches
      l = omega (arith, e)

-- Where the fields lie inside the structures, and the table is inside the file, a loop over the
-- architectures of a fat file, from the first one on, is given those of the table in front of the
-- first one that is not inside the file.
pub all_arches-table :
    (f : Formats) (it : Iterator) (fuel : ℕ)
    → Layout f
    → Sound f it
    → it.fat_header ≡ true
    → it.num_arches < fuel
    → all_arches f fuel (reset it)
      ≡ some (while_inside it.file (table_from f it.file 0 it.num_arches))
unfolding reset
all_arches-table f it fuel layout s fat h =
    all_arches_from f it layout s fat it.num_arches 0 fuel (omega arith) h
