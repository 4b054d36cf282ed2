-- ===== src/FatUtil/Tests.antt =====
-- Runs of kext.subproj/fat_util.c on a file with one architecture, and the theorems at them.
use iokit_user.Prelude.{
  ◌≤◌, ◌==◌, refl, length, none, some, sym, Bool, [], List, ℕ, Option, false, ◌∷◌, ◌≡◌, true, arith,
}
use mathlib.Core.Bool.{false≢true}
use iokit_user.FatUtil.{
  fat_arches_size, copied_arches, Formats, Iterator, FatArch, bytes_at, big_word, big_value, init,
  init_fat, for_data, reset, all_arches, next_arch, next_fat, checked_arch, joined, read_arch,
  read_arches, find_fat_arch, find_arch, ends_of,
}
use iokit_user.FatUtil.Bounds.{Layout, Sound, SoundFor, Inside, for_data-SoundFor}
use iokit_user.FatUtil.Next.{left, Steps, next_arch-Steps}
use iokit_user.FatUtil.Loop.{
  AllInside, table_from, while_inside, all_arches_total, all_arches-table,
}
use iokit_user.FatUtil.Find.{Picks, find_arch-Inside}

abbrev starts_with : ℕ → List ℕ → Bool
starts_with b [] = false
starts_with b (x ∷ xs) = x == b

abbrev formats : Formats
formats = record {
  is_fat = starts_with 202;
  is_macho = starts_with 206;
  is_swapped_macho = λ bytes. false;
  host_word = big_value 0;
  fat_header_size = 8;
  nfat_arch_at = 4;
  fat_arch_size = 20;
  cputype_at = 0;
  cpusubtype_at = 4;
  offset_at = 8;
  size_at = 12;
  align_at = 16;
  mach_header_size = 28;
  mach_cputype_at = 4;
  mach_cpusubtype_at = 8;
}

formats-Layout : Layout formats
formats-Layout = record {
  nfat_arch = omega arith;
  cputype = omega arith;
  cpusubtype = omega arith;
  offset = omega arith;
  size = omega arith;
  align = omega arith;
  mach_cputype = omega arith;
  mach_cpusubtype = omega arith;
}

-- A fat file of 32 bytes with one architecture, from byte 28 on; the argument is its size.
abbrev fat_file : ℕ → List ℕ
fat_file size =
    202 ∷ 254 ∷ 186 ∷ 190 ∷ 0 ∷ 0 ∷ 0 ∷ 1 ∷ 0 ∷ 0 ∷ 0 ∷ 7 ∷ 0 ∷ 0 ∷ 0 ∷ 3 ∷ 0 ∷ 0 ∷ 0 ∷ 28 ∷ 0 ∷ 0
    ∷ 0 ∷ size ∷ 0 ∷ 0 ∷ 0 ∷ 0 ∷ 1 ∷ 2 ∷ 3 ∷ 4 ∷ []

abbrev one_arch : ℕ → Iterator
one_arch size = record {
  file = fat_file size;
  fat_header = true;
  num_arches = 1;
  arch_index = 0;
  iterable = true;
}

one_arch-Sound : (size : ℕ) → Sound formats (one_arch size)
one_arch-Sound size = record {
  magic = omega arith;
  table = λ e. omega arith;
  header = λ e. absurd (false≢true (sym e));
}

opened : for_data formats true (fat_file 4) ≡ some (some (one_arch 4))
unfolding for_data init init_fat bytes_at big_word big_value
opened = refl

iterated : all_arches formats 2 (one_arch 4) ≡ some ((28, 32) ∷ [])
unfolding all_arches joined next_arch next_fat checked_arch bytes_at big_word big_value
iterated = refl

-- An architecture that goes past the end of the file is not iterated, but found.
too_long : all_arches formats 2 (one_arch 9) ≡ some []
unfolding all_arches joined next_arch next_fat checked_arch bytes_at big_word big_value
too_long = refl

abbrev first_of : ℕ → ℕ → List FatArch → Option FatArch
first_of cputype cpusubtype [] = none
first_of cputype cpusubtype (a ∷ list) = some a

first_of-Picks : Picks first_of
first_of-Picks cputype cpusubtype [] a e = cc
first_of-Picks cputype cpusubtype (b ∷ list) a e = (0, e)

found_too_long : find_arch formats first_of (one_arch 9) 7 3 ≡ some (some (28, 37))
unfolding find_arch find_fat_arch copied_arches fat_arches_size read_arches read_arch ends_of
    bytes_at big_word big_value
found_too_long = refl

for_data-SoundFor_example :
    (o : Option Iterator) × (for_data formats true (fat_file 4) ≡ some o)
    × SoundFor formats (fat_file 4) o
for_data-SoundFor_example = for_data-SoundFor formats formats-Layout true (fat_file 4)

next_arch-Steps_example :
    (o : Option (ℕ × ℕ)) × (it' : Iterator) × (next_arch formats (one_arch 4) ≡ some (o, it'))
    × Steps formats (one_arch 4) o it'
next_arch-Steps_example = next_arch-Steps formats (one_arch 4) formats-Layout (one_arch-Sound 4)

all_arches_total_example :
    (list : List (ℕ × ℕ)) × (all_arches formats 2 (one_arch 4) ≡ some list)
    × AllInside (fat_file 4) list
    × (length list ≤ left (one_arch 4))
all_arches_total_example =
    all_arches_total formats 2 (one_arch 4) formats-Layout (one_arch-Sound 4)
      (unfold left in omega arith)

all_arches-table_example :
    all_arches formats 2 (reset (one_arch 4))
    ≡ some (while_inside (fat_file 4) (table_from formats (fat_file 4) 0 1))
all_arches-table_example =
    all_arches-table formats (one_arch 4) 2 formats-Layout (one_arch-Sound 4) refl (omega arith)

table_inside : AllInside (fat_file 4) (table_from formats (fat_file 4) 0 1)
unfolding big_value
table_inside = ((omega arith, omega arith), tt)

find_arch-Inside_example :
    (o : Option (ℕ × ℕ)) × (find_arch formats first_of (one_arch 4) 7 3 ≡ some o)
    × Inside (fat_file 4) o
find_arch-Inside_example =
    find_arch-Inside formats first_of first_of-Picks (one_arch 4) 7 3 formats-Layout
      (one_arch-Sound 4) refl (λ e. omega arith) (λ e. table_inside)
