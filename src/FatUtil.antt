-- ===== src/FatUtil.antt =====
-- The iterator over the architectures of a file in kext.subproj/fat_util.c. A pointer into the file is its
-- distance from the start of the file: what is added to one is less than 2^33, so that no sum wraps around
-- in an address space of 64 bits. A read outside the file is `none`.
pub mod Bounds
pub mod Next
pub mod Loop
pub mod Find
mod Tests
use iokit_user.Prelude.{
  zero, true, ◌^◌, ◌*◌, ◌%◌, false, ◌==◌, [], ◌++◌, suc, ◌+◌, none, ◌∷◌, if◌then◌else◌, ◌>>=◌, some,
  List, Bool, Option, ℕ, length, take, drop, leb, ltb,
}

-- What the headers of the system say of the formats. A magic number is given as its four bytes.
pub record Formats : Type 0 where
  pub is_fat : List ℕ → Bool
  pub is_macho : List ℕ → Bool
  pub is_swapped_macho : List ℕ → Bool
  -- The value of four bytes in the host's order.
  pub host_word : List ℕ → ℕ
  -- `struct fat_header`
  pub fat_header_size : ℕ
  pub nfat_arch_at : ℕ
  -- `struct fat_arch`
  pub fat_arch_size : ℕ
  pub cputype_at : ℕ
  pub cpusubtype_at : ℕ
  pub offset_at : ℕ
  pub size_at : ℕ
  pub align_at : ℕ
  -- `struct mach_header`
  pub mach_header_size : ℕ
  pub mach_cputype_at : ℕ
  pub mach_cpusubtype_at : ℕ

-- `fat_header` says whether the pointer of this name is set; `fat_arches` is behind that header.
pub record Iterator : Type 0 where
  pub file : List ℕ
  pub fat_header : Bool
  pub num_arches : ℕ
  pub arch_index : ℕ
  pub iterable : Bool

-- `struct fat_arch` in the host's order.
pub record FatArch : Type 0 where
  pub cputype : ℕ
  pub cpusubtype : ℕ
  pub offset : ℕ
  pub size : ℕ
  pub align : ℕ

-- Bytes of the file, and none if they are not all inside it.
unfoldable pub bytes_at : List ℕ → ℕ → ℕ → Option (List ℕ)
bytes_at file p n = if leb (p + n) (length file) then some (take n (drop p file)) else none

-- `OSSwapBigToHostInt32`, of four bytes.
unfoldable pub big_value : ℕ → List ℕ → ℕ
big_value v [] = v
big_value v (b ∷ bs) = big_value (v * 256 + b) bs

pub big_word : List ℕ → ℕ → Option ℕ
big_word file p = do bytes ← bytes_at file p 4; some (big_value 0 bytes)

-- `fat_iterator_reset`
pub reset : Iterator → Iterator
reset it = record it { arch_index = 0 }

-- `OSSwapInt32`
pub swapped : List ℕ → List ℕ
swapped [] = []
swapped (b ∷ bs) = swapped bs ++ b ∷ []

-- The start and the end, which is not compared with that of the file.
pub ends_of : Option FatArch → Option (ℕ × ℕ)
ends_of none = none
ends_of (some a) = some (a.offset, a.offset + a.size)

module _ (f : Formats) where
  -- The branches of `__fat_iterator_init`; the inner option is the result -1.
  pub init_fat : List ℕ → Option (Option Iterator)
  init_fat file = if ltb (length file) f.fat_header_size then some none else do
    n ← big_word file f.nfat_arch_at
    some (
        if ltb (length file) (f.fat_header_size + n * f.fat_arch_size)
        then none
        else some (record {
          file = file;
          fat_header = true;
          num_arches = n;
          arch_index = 0;
          iterable = true;
        }))

  pub init_macho : List ℕ → Option Iterator
  init_macho file =
      if ltb (length file) f.mach_header_size
      then none
      else some (record {
        file = file;
        fat_header = false;
        num_arches = 1;
        arch_index = 0;
        iterable = true;
      })

  -- A file that is neither fat nor Mach-O.
  pub init_other : Bool → List ℕ → Option Iterator
  init_other macho_only file =
      if macho_only
      then none
      else some (record {
        file = file;
        fat_header = false;
        num_arches = 0;
        arch_index = 0;
        iterable = false;
      })

  -- `__fat_iterator_init` behind the first test.
  pub init : Bool → List ℕ → List ℕ → Option (Option Iterator)
  init macho_only file magic =
      if f.is_fat magic
      then init_fat file
      else some (if f.is_macho magic then init_macho file else init_other macho_only file)

  -- `fat_iterator_for_data`
  pub for_data : Bool → List ℕ → Option (Option Iterator)
  for_data macho_only file =
      if ltb (length file) 4
      then some none
      else do magic ← bytes_at file 0 4; init macho_only file magic

  -- Where the header of an architecture stands.
  abbrev pub arch_at : ℕ → ℕ
  arch_at i = f.fat_header_size + i * f.fat_arch_size

  pub next_thin : Iterator → Option (ℕ × ℕ) × Iterator
  next_thin it =
      if it.arch_index == 0
      then (some (0, length it.file), record it { arch_index = suc it.arch_index })
      else (none, it)

  -- The end of an architecture is compared with the end of the file.
  pub checked_arch : Iterator → ℕ → ℕ → Option (ℕ × ℕ) × Iterator
  checked_arch it start size =
      if ltb (length it.file) (start + size)
      then (none, record it { arch_index = it.num_arches })
      else (some (start, start + size), record it { arch_index = suc it.arch_index })

  pub next_fat : Iterator → Option (Option (ℕ × ℕ) × Iterator)
  next_fat it =
      if ltb it.arch_index it.num_arches
      then (do
        start ← big_word it.file (arch_at it.arch_index + f.offset_at)
        size ← big_word it.file (arch_at it.arch_index + f.size_at)
        some (checked_arch it start size))
      else some (none, it)

  -- `fat_iterator_next_arch`: the start and the end of the architecture, if there is one.
  pub next_arch : Iterator → Option (Option (ℕ × ℕ) × Iterator)
  next_arch it = if it.fat_header then next_fat it else some (next_thin it)

  -- What a caller's loop, as in `OSKextCopyArchitectures`, over `fat_iterator_next_arch` is given, up to
  -- the null pointer. The fuel bounds
  -- the calls; `none` means that it did not suffice, or a read outside the file.
  pub joined : Option (ℕ × ℕ) → Option (List (ℕ × ℕ)) → Option (List (ℕ × ℕ))
  joined none rest = some []
  joined (some a) rest = do later ← rest; some (a ∷ later)

  pub all_arches : ℕ → Iterator → Option (List (ℕ × ℕ))
  all_arches zero it = none
  all_arches (suc fuel) it = do (found, it') ← next_arch it; joined found (all_arches fuel it')

  -- A header in the table, in the host's order.
  pub read_arch : List ℕ → ℕ → Option FatArch
  read_arch file p = do
    cputype ← big_word file (p + f.cputype_at)
    cpusubtype ← big_word file (p + f.cpusubtype_at)
    offset ← big_word file (p + f.offset_at)
    size ← big_word file (p + f.size_at)
    align ← big_word file (p + f.align_at)
    some (record {
      cputype = cputype;
      cpusubtype = cpusubtype;
      offset = offset;
      size = size;
      align = align;
    })

  -- The loop over the copy of the table, from an index on; a read outside the copy is `none`.
  pub read_arches : List ℕ → ℕ → ℕ → Option (List FatArch)
  read_arches copy i zero = some []
  read_arches copy i (suc n) = do
    a ← read_arch copy (i * f.fat_arch_size)
    later ← read_arches copy (suc i) n
    some (a ∷ later)

  -- `fat_arches_size`, which has 32 bits.
  pub fat_arches_size : Iterator → ℕ
  fat_arches_size it = it.num_arches * f.fat_arch_size % 2 ^ 32

  -- The table is copied, as far as that size goes, and its headers are brought into the host's order.
  pub copied_arches : Iterator → Option (List FatArch)
  copied_arches it = do
    copy ← bytes_at it.file f.fat_header_size (fat_arches_size it)
    read_arches copy 0 it.num_arches

  -- `CondSwapInt32`
  pub mach_word : Bool → List ℕ → ℕ
  mach_word swap bytes = f.host_word (if swap then swapped bytes else bytes)

  -- The header that is made up for a file that is not fat; its size has 32 bits.
  pub fake_arch : List ℕ → Option FatArch
  fake_arch file = do
    magic ← bytes_at file 0 4
    cputype ← bytes_at file f.mach_cputype_at 4
    cpusubtype ← bytes_at file f.mach_cpusubtype_at 4
    some (record {
      cputype = mach_word (f.is_swapped_macho magic) cputype;
      cpusubtype = mach_word (f.is_swapped_macho magic) cpusubtype;
      offset = 0;
      size = length file % 2 ^ 32;
      align = 1;
    })

  -- `NXFindBestFatArch` is `best`.
  module _ (best : ℕ → ℕ → List FatArch → Option FatArch) where
    -- `fat_iterator_find_fat_arch`
    pub find_fat_arch : Iterator → ℕ → ℕ → Option (Option FatArch)
    find_fat_arch it cputype cpusubtype =
        if it.fat_header
        then (do arches ← copied_arches it; some (best cputype cpusubtype arches))
        else do a ← fake_arch it.file; some (best cputype cpusubtype (a ∷ []))

    -- `fat_iterator_find_arch`: the start and the end of the architecture found.
    pub find_arch : Iterator → ℕ → ℕ → Option (Option (ℕ × ℕ))
    find_arch it cputype cpusubtype = do
      found ← find_fat_arch it cputype cpusubtype
      some (ends_of found)
