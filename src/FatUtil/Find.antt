-- ===== src/FatUtil/Find.antt =====
-- The architecture that fat_iterator_find_arch of kext.subproj/fat_util.c finds.
use mathlib.Core.Path.{subst}
use native.Mathlib.Nat.{mul-le-mul_right}
use iokit_user.Prelude.{
  sym, le→leb, ◌∙◌, ap, ◌*◌, ◌≤◌, drop, take, inr, some_inj, inl, Bool-cases, none, ◌^◌, zero, ◌%◌,
  refl, ◌∷◌, arith, ◌<◌, some, suc, [], Option, false, true, ◌+◌, List, ℕ, ◌≡◌, get_elem?, length,
}
use iokit_user.FatUtil.{
  big_value, bytes_at, big_word, fat_arches_size, copied_arches, Formats, Iterator, FatArch,
  arch_at, read_arch, read_arches, fake_arch, mach_word, find_fat_arch, find_arch, ends_of,
}
use iokit_user.FatUtil.Bounds.{
  Layout, Sound, Inside, word_of, bytes_of, bytes_at-some, big_word-some,
}
use iokit_user.FatUtil.Loop.{AllInside, table_from}

-- `NXFindBestFatArch` gives one of the headers that it is handed.
abbrev pub Picks : (ℕ → ℕ → List FatArch → Option FatArch) → Type 0
Picks best =
    (cputype cpusubtype : ℕ) (arches : List FatArch) (a : FatArch)
    → best cputype cpusubtype arches ≡ some a
    → (i : ℕ) × (get_elem? arches i ≡ some a)

-- The header at a place, in the host's order.
abbrev arch_of : Formats → List ℕ → ℕ → FatArch
arch_of f file p = record {
  cputype = word_of file (p + f.cputype_at);
  cpusubtype = word_of file (p + f.cpusubtype_at);
  offset = word_of file (p + f.offset_at);
  size = word_of file (p + f.size_at);
  align = word_of file (p + f.align_at);
}

-- The header that is made up.
abbrev fake_of : Formats → List ℕ → FatArch
fake_of f file = record {
  cputype = mach_word f (f.is_swapped_macho (bytes_of file 0)) (bytes_of file f.mach_cputype_at);
  cpusubtype =
      mach_word f (f.is_swapped_macho (bytes_of file 0)) (bytes_of file f.mach_cpusubtype_at);
  offset = 0;
  size = length file % 2 ^ 32;
  align = 1;
}

arches_of : Formats → List ℕ → ℕ → ℕ → List FatArch
arches_of f file i zero = []
arches_of f file i (suc n) = arch_of f file (arch_at f i) ∷ arches_of f file (suc i) n

ends-Inside :
    (f : Formats) (file : List ℕ) (n i j : ℕ) (a : FatArch)
    → AllInside file (table_from f file i n)
    → get_elem? (arches_of f file i n) j ≡ some a
    → Inside file (ends_of (some a))
unfolding arches_of ends_of
ends-Inside f file zero i j a all e = cc
ends-Inside f file (suc n) i zero a all e =
    subst (λ b. Inside file (ends_of (some b))) (some_inj e) all.0
ends-Inside f file (suc n) i (suc j) a all e = ends-Inside f file n (suc i) j a all.1 e

-- What is taken of a part of a list, from a place in it on.
take-drop-take :
    (s : List ℕ) (k p n : ℕ) → p + n ≤ k → take n (drop p (take k s)) ≡ take n (drop p s)
take-drop-take s k p zero h = refl
take-drop-take s zero p (suc n) h = absurd (omega arith)
take-drop-take [] (suc k) p (suc n) h = refl
take-drop-take (c ∷ s) (suc k) zero (suc n) h =
    ap (λ t. c ∷ t) (take-drop-take s k zero n (omega arith))
take-drop-take (c ∷ s) (suc k) (suc p) (suc n) h = take-drop-take s k p (suc n) (omega arith)

drop-drop : (s : List ℕ) (h p : ℕ) → drop p (drop h s) ≡ drop (h + p) s
drop-drop s zero p = let e : p ≡ 0 + p = omega arith in ap (λ x. drop x s) e
drop-drop [] (suc h) zero = let e : suc h ≡ suc h + 0 = omega arith in ap (λ x. drop {A = ℕ} x []) e
drop-drop [] (suc h) (suc p) =
    let e : suc (h + suc p) ≡ suc h + suc p = omega arith in ap (λ x. drop {A = ℕ} x []) e
drop-drop (c ∷ s) (suc h) p =
    let e : suc (h + p) ≡ suc h + p = omega arith in drop-drop s h p ∙ ap (λ x. drop x (c ∷ s)) e

length-part : (s : List ℕ) (h k : ℕ) → h + k ≤ length s → length (take k (drop h s)) ≡ k
length-part s zero zero l = refl
length-part [] zero (suc k) l = absurd (omega arith)
length-part (c ∷ s) zero (suc k) l = ap suc (length-part s zero k (omega arith))
length-part [] (suc h) k l = absurd (omega arith)
length-part (c ∷ s) (suc h) k l = length-part s h k (omega arith)

-- A word of a copy is the word of the file from which it is.
copied_word :
    (file : List ℕ) (h k p q : ℕ)
    → h + k ≤ length file
    → p + 4 ≤ k
    → q ≡ h + p
    → big_word (take k (drop h file)) p ≡ some (word_of file q)
copied_word file h k p q inside l e =
    big_word-some (take k (drop h file)) p (rw (length-part file h k inside) l)
    ∙ ap (λ t. some (big_value 0 t))
        (take-drop-take (drop h file) k p 4 l
          ∙ ap (take 4) (drop-drop file h p ∙ ap (λ x. drop x file) (sym e)))

-- The bytes of the table.
abbrev table_of : Formats → Iterator → List ℕ
table_of f it = take (it.num_arches * f.fat_arch_size) (drop f.fat_header_size it.file)

module _ (f : Formats) (layout : Layout f) (it : Iterator) (s : Sound f it) where
  field_word :
      (i at : ℕ)
      → it.fat_header ≡ true
      → i < it.num_arches
      → at + 4 ≤ f.fat_arch_size
      → big_word (table_of f it) (i * f.fat_arch_size + at)
        ≡ some (word_of it.file (arch_at f i + at))
  field_word i at fat l a =
      copied_word it.file f.fat_header_size (it.num_arches * f.fat_arch_size) _ _ (s.table fat)
        (omega (arith, a, mul-le-mul_right f.fat_arch_size l)) (omega arith)

  read_arch-some :
      (i : ℕ)
      → it.fat_header ≡ true
      → i < it.num_arches
      → read_arch f (table_of f it) (i * f.fat_arch_size) ≡ some (arch_of f it.file (arch_at f i))
  unfolding read_arch
  read_arch-some i fat l =
      rw
        (
          field_word i f.cputype_at fat l layout.cputype,
          field_word i f.cpusubtype_at fat l layout.cpusubtype,
          field_word i f.offset_at fat l layout.offset,
          field_word i f.size_at fat l layout.size,
          field_word i f.align_at fat l layout.align,
        )
        refl

  read_arches-some :
      (n i : ℕ)
      → it.fat_header ≡ true
      → i + n ≡ it.num_arches
      → read_arches f (table_of f it) i n ≡ some (arches_of f it.file i n)
  unfolding read_arches arches_of
  read_arches-some zero i fat e = refl
  read_arches-some (suc n) i fat e =
      rw (read_arch-some i fat (omega (arith, e)))
        (rw (read_arches-some n (suc i) fat (omega (arith, e))) refl)

  -- Where the size of the table does not wrap around, all of it is copied.
  copied_arches-some :
      it.fat_header ≡ true
      → it.num_arches * f.fat_arch_size < 2 ^ 32
      → copied_arches f it ≡ some (arches_of f it.file 0 it.num_arches)
  unfolding copied_arches fat_arches_size bytes_at
  copied_arches-some fat small =
      let whole : it.num_arches * f.fat_arch_size % 2 ^ 32 ≡ it.num_arches * f.fat_arch_size =
        omega (arith, small) in
      rw (whole, le→leb _ (length it.file) (s.table fat))
        (read_arches-some it.num_arches 0 fat (omega arith))

  fake_arch-some :
      it.fat_header ≡ false → it.iterable ≡ true → fake_arch f it.file ≡ some (fake_of f it.file)
  unfolding fake_arch
  fake_arch-some thin i = rw (bytes_at-some it.file 0 s.magic) (
      rw
        (bytes_at-some it.file f.mach_cputype_at
          (omega (arith, s.header thin i, layout.mach_cputype)))
        (rw
          (bytes_at-some it.file f.mach_cpusubtype_at
            (omega (arith, s.header thin i, layout.mach_cpusubtype)))
          refl))

module _ (f : Formats) (best : ℕ → ℕ → List FatArch → Option FatArch) (picks : Picks best) where
  best-Inside :
      (file : List ℕ) (cputype cpusubtype : ℕ) (arches : List FatArch)
      → ((i : ℕ) (a : FatArch) → get_elem? arches i ≡ some a → Inside file (ends_of (some a)))
      → Inside file (ends_of (best cputype cpusubtype arches))
  best-Inside file cputype cpusubtype arches h = by_pick (best cputype cpusubtype arches) refl
    where
      by_pick : (o : Option FatArch) → best cputype cpusubtype arches ≡ o → Inside file (ends_of o)
      by_pick none e = unfold ends_of in tt
      by_pick (some a) e = let (i, m) = picks cputype cpusubtype arches a e in h i a m

  fake-Inside :
      (file : List ℕ) (i : ℕ) (a : FatArch)
      → get_elem? (fake_of f file ∷ []) i ≡ some a
      → Inside file (ends_of (some a))
  unfolding ends_of
  fake-Inside file zero a e =
      subst (λ b. Inside file (ends_of (some b))) (some_inj e) (omega arith, omega arith)
  fake-Inside file (suc i) a e = cc

  -- Where the fields lie inside the structures, the iterator is iterable and its table or header is
  -- inside the file, a table has fewer than 2^32 bytes, each architecture of the table of a fat file is
  -- inside the file, and the system's function gives one of the headers that it is handed, the search for
  -- an architecture reads inside the file and inside its copy of the table, and what it finds is inside
  -- the file.
  pub find_arch-Inside :
      (it : Iterator) (cputype cpusubtype : ℕ)
      → Layout f
      → Sound f it
      → it.iterable ≡ true
      → (it.fat_header ≡ true → it.num_arches * f.fat_arch_size < 2 ^ 32)
      → (it.fat_header ≡ true → AllInside it.file (table_from f it.file 0 it.num_arches))
      → (o : Option (ℕ × ℕ)) × (find_arch f best it cputype cpusubtype ≡ some o) × Inside it.file o
  unfolding find_arch find_fat_arch
  find_arch-Inside it cputype cpusubtype layout s iterable small all =
      elim (Bool-cases it.fat_header) [
        | inl fat ↦ (
          ends_of (best cputype cpusubtype (arches_of f it.file 0 it.num_arches)),
          rw (copied_arches-some f layout it s fat (small fat), fat) refl,
          best-Inside it.file cputype cpusubtype _
              (λ j a e. ends-Inside f it.file it.num_arches 0 j a (all fat) e),
        )
        | inr thin ↦ (
          ends_of (best cputype cpusubtype (fake_of f it.file ∷ [])),
          rw thin (rw (fake_arch-some f layout it s thin iterable) refl),
          best-Inside it.file cputype cpusubtype _ (λ j a e. fake-Inside it.file j a e),
        )
      ]
