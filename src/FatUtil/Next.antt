-- ===== src/FatUtil/Next.antt =====
-- A call of fat_iterator_next_arch in kext.subproj/fat_util.c.
use iokit_user.Prelude.{
  ltb→lt, inl, ◌-◌, inr, ◌⊎◌, ltb, ◌==◌, none, Bool-cases, if◌then◌else◌, suc, false, arith, ◌<◌,
  refl, true, some, Option, ◌≡◌, length, ◌+◌, ℕ,
}
use iokit_user.FatUtil.{Formats, Iterator, next_thin, checked_arch, next_fat, next_arch, arch_at}
use iokit_user.FatUtil.Bounds.{Layout, Sound, Inside, word_of, big_word-some, field_inside}

-- How many architectures can still be returned.
unfoldable pub left : Iterator → ℕ
left it =
    if it.fat_header then it.num_arches - it.arch_index else if it.arch_index == 0 then 1 else 0

-- What a call does: the iterator stays sound, what it returns is inside the file, and then less is left.
pub record Steps (f : Formats) (it : Iterator) (o : Option (ℕ × ℕ)) (it' : Iterator) : Type 0 where
  pub sound : Sound f it'
  pub same_file : it'.file ≡ it.file
  pub inside : Inside it.file o
  pub less : (o ≡ none) ⊎ (left it' < left it)

-- The index does not matter.
Sound-arch_index :
    (f : Formats) (it : Iterator) (i : ℕ) → Sound f it → Sound f (record it { arch_index = i })
Sound-arch_index f it i s = record { magic = s.magic; table = s.table; header = s.header }

next_thin-Steps :
    (f : Formats) (it : Iterator)
    → it.fat_header ≡ false
    → Sound f it
    → Steps f it (next_thin f it).0 (next_thin f it).1
unfolding next_thin left
next_thin-Steps f it h s = elim (Bool-cases (it.arch_index == 0)) [
  | inl q ↦ rw q (record {
    sound = Sound-arch_index f it (suc it.arch_index) s;
    same_file = refl;
    inside = (omega arith, omega arith);
    less = inr (rw h (ground (arith, q)));
  })
  | inr q ↦ rw q (record { sound = s; same_file = refl; inside = tt; less = inl refl })
]

checked_arch-Steps :
    (f : Formats) (it : Iterator) (start size : ℕ)
    → it.fat_header ≡ true
    → it.arch_index < it.num_arches
    → Sound f it
    → Steps f it (checked_arch f it start size).0 (checked_arch f it start size).1
unfolding checked_arch left
checked_arch-Steps f it start size h l s = elim (Bool-cases (ltb (length it.file) (start + size))) [
  | inl q ↦ rw q (record {
    sound = Sound-arch_index f it it.num_arches s;
    same_file = refl;
    inside = tt;
    less = inl refl;
  })
  | inr q ↦ rw q (record {
    sound = Sound-arch_index f it (suc it.arch_index) s;
    same_file = refl;
    inside = (omega arith, ground (arith, q));
    less = inr (rw h (omega (arith, l)));
  })
]

-- Where the fields lie inside the structures, and the table or the header of an iterator is inside the
-- file, the next architecture is read inside the file, what is returned is inside the file, the
-- iterator stays as it was required, and less is left for it if an architecture is returned.
pub next_arch-Steps :
    (f : Formats) (it : Iterator)
    → Layout f
    → Sound f it
    → (o : Option (ℕ × ℕ)) × (it' : Iterator) × (next_arch f it ≡ some (o, it')) × Steps f it o it'
unfolding next_arch next_fat
next_arch-Steps f it layout s = elim (Bool-cases it.fat_header) [
  | inr h ↦ (_, _, rw h refl, next_thin-Steps f it h s)
  | inl h ↦ elim (Bool-cases (ltb it.arch_index it.num_arches)) [
    | inr q ↦ (
      none,
      it,
      rw h (rw q refl),
      record { sound = s; same_file = refl; inside = tt; less = inl refl },
    )
    | inl q ↦
        let l : it.arch_index < it.num_arches = ltb→lt it.arch_index it.num_arches q in
        let start = word_of it.file (arch_at f it.arch_index + f.offset_at) in
        let size = word_of it.file (arch_at f it.arch_index + f.size_at) in
        let start_read =
          big_word-some it.file (arch_at f it.arch_index + f.offset_at)
            (field_inside f it it.arch_index f.offset_at s h l layout.offset) in
        let size_read =
          big_word-some it.file (arch_at f it.arch_index + f.size_at)
            (field_inside f it it.arch_index f.size_at s h l layout.size) in
        (
          (checked_arch f it start size).0,
          (checked_arch f it start size).1,
          rw h (rw q (rw start_read (rw size_read refl))),
          checked_arch-Steps f it start size h l s,
        )
  ]
]
