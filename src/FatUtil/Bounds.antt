-- ===== src/FatUtil/Bounds.antt =====
-- The bounds of a file in kext.subproj/fat_util.c: the table of its architectures, and reads of it.
use iokit_user.Prelude.{
  if_both, sym, inl, inr, ltb, none, Bool-cases, false, arith, ◌<◌, ◌*◌, refl, le→leb, true, some,
  Option, drop, ◌≡◌, length, take, ◌+◌, ◌≤◌, ℕ, Bool, List,
}
use native.Mathlib.Nat.{mul-le-mul_right}
use mathlib.Core.Bool.{false≢true}
use iokit_user.FatUtil.{
  Formats, Iterator, bytes_at, big_value, big_word, init_fat, init_macho, init_other, init,
  for_data,
}

-- What the system's headers promise of the structures: the fields lie inside them.
pub record Layout (f : Formats) : Type 0 where
  pub nfat_arch : f.nfat_arch_at + 4 ≤ f.fat_header_size
  pub cputype : f.cputype_at + 4 ≤ f.fat_arch_size
  pub cpusubtype : f.cpusubtype_at + 4 ≤ f.fat_arch_size
  pub offset : f.offset_at + 4 ≤ f.fat_arch_size
  pub size : f.size_at + 4 ≤ f.fat_arch_size
  pub align : f.align_at + 4 ≤ f.fat_arch_size
  pub mach_cputype : f.mach_cputype_at + 4 ≤ f.mach_header_size
  pub mach_cpusubtype : f.mach_cpusubtype_at + 4 ≤ f.mach_header_size

-- The table of a fat file is inside it, and a file that can be iterated otherwise has its header.
pub record Sound (f : Formats) (it : Iterator) : Type 0 where
  pub magic : 4 ≤ length it.file
  pub table :
      it.fat_header ≡ true → f.fat_header_size + it.num_arches * f.fat_arch_size ≤ length it.file
  pub header : it.fat_header ≡ false → it.iterable ≡ true → f.mach_header_size ≤ length it.file

-- The bytes at a place.
abbrev pub bytes_of : List ℕ → ℕ → List ℕ
bytes_of file p = take 4 (drop p file)

abbrev pub word_of : List ℕ → ℕ → ℕ
word_of file p = big_value 0 (bytes_of file p)

pub bytes_at-some :
    (file : List ℕ) (p : ℕ) → p + 4 ≤ length file → bytes_at file p 4 ≡ some (bytes_of file p)
unfolding bytes_at
bytes_at-some file p h = rw (le→leb (p + 4) (length file) h) refl

pub big_word-some :
    (file : List ℕ) (p : ℕ) → p + 4 ≤ length file → big_word file p ≡ some (word_of file p)
unfolding big_word
big_word-some file p h = rw (bytes_at-some file p h) refl

-- The header of an entry of the table is inside the file.
pub field_inside :
    (f : Formats) (it : Iterator) (i at : ℕ)
    → Sound f it
    → it.fat_header ≡ true
    → i < it.num_arches
    → at + 4 ≤ f.fat_arch_size
    → f.fat_header_size + i * f.fat_arch_size + at + 4 ≤ length it.file
field_inside f it i at s h l a = omega (arith, s.table h, mul-le-mul_right f.fat_arch_size l)

-- What is returned is inside the file.
abbrev pub Inside : List ℕ → Option (ℕ × ℕ) → Type 0
Inside file none = Unit
Inside file (some (a, b)) = (a ≤ b) × (b ≤ length file)

-- An iterator that is made for a file.
abbrev pub SoundFor : Formats → List ℕ → Option Iterator → Type 0
SoundFor f file none = Unit
SoundFor f file (some it) = Sound f it × (it.file ≡ file) × (it.arch_index ≡ 0)

init_macho-SoundFor :
    (f : Formats) (file : List ℕ) → 4 ≤ length file → SoundFor f file (init_macho f file)
unfolding init_macho
init_macho-SoundFor f file h = elim (Bool-cases (ltb (length file) f.mach_header_size)) [
  | inl q ↦ rw q tt
  | inr q ↦ rw q (
    record { magic = h; table = λ e. absurd (false≢true e); header = λ e i. ground (arith, q) },
    refl,
    refl,
  )
]

init_other-SoundFor :
    (f : Formats) (macho_only : Bool) (file : List ℕ)
    → 4 ≤ length file
    → SoundFor f file (init_other f macho_only file)
unfolding init_other
init_other-SoundFor f true file h = tt
init_other-SoundFor f false file h = (
  record { magic = h; table = λ e. absurd (false≢true e); header = λ e i. absurd (false≢true i) },
  refl,
  refl,
)

module _ (f : Formats) (layout : Layout f) where
  init_fat-SoundFor :
      (file : List ℕ)
      → 4 ≤ length file
      → (o : Option Iterator) × (init_fat f file ≡ some o) × SoundFor f file o
  unfolding init_fat
  init_fat-SoundFor file h = elim (Bool-cases (ltb (length file) f.fat_header_size)) [
    | inl q ↦ (none, rw q refl, tt)
    | inr q ↦
        let n = word_of file f.nfat_arch_at in
        let read = big_word-some file f.nfat_arch_at (ground (arith, q, layout.nfat_arch)) in
        elim (Bool-cases (ltb (length file) (f.fat_header_size + n * f.fat_arch_size))) [
          | inl p ↦ (none, rw q (rw read (rw p refl)), tt)
          | inr p ↦ (
            some (record {
              file = file;
              fat_header = true;
              num_arches = n;
              arch_index = 0;
              iterable = true;
            }),
            rw q (rw read (rw p refl)),
            (
              record {
                magic = h;
                table = λ e. ground (arith, p);
                header = λ e. absurd (false≢true (sym e));
              },
              refl,
              refl,
            ),
          )
        ]
  ]

  -- Where the fields lie inside the structures, making an iterator for any file reads inside the file,
  -- and the table or the header of one that is made is inside the file.
  pub for_data-SoundFor :
      (macho_only : Bool) (file : List ℕ)
      → (o : Option Iterator) × (for_data f macho_only file ≡ some o) × SoundFor f file o
  unfolding for_data init
  for_data-SoundFor macho_only file = elim (Bool-cases (ltb (length file) 4)) [
    | inl q ↦ (none, rw q refl, tt)
    | inr q ↦
        let h : 4 ≤ length file = ground (arith, q) in
        let read = bytes_at-some file 0 h in
        elim (Bool-cases (f.is_fat (bytes_of file 0))) [
          | inl p ↦ let (o, e, s) = init_fat-SoundFor file h in (o, rw q (rw read (rw p e)), s)
          | inr p ↦ (
            _,
            rw q (rw read (rw p refl)),
            if_both (SoundFor f file) (f.is_macho (bytes_of file 0)) (init_macho-SoundFor f file h)
                (init_other-SoundFor f macho_only file h),
          )
        ]
  ]
