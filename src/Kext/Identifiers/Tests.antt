-- ===== src/Kext/Identifiers/Tests.antt =====
-- Runs of the dictionary of kext.subproj/OSKext.c with three kexts of one identifier, and the theorems
-- at them.
use mathlib.Core.Bool.{false≢true}
use iokit_user.Prelude.{
  ◌||◌, [], ◌&&◌, ◌∷◌, ◌==◌, if◌then◌else◌, false, not, some, true, none, refl, pos, ◌≡◌, ℕ,
}
use iokit_user.Kext.LoadList.{contains}
use iokit_user.Kext.Identifiers.{
  loaded_kext_with_identifier, kext_with_identifier, Library, Dictionary,
  kext_with_identifier_and_version, first_where, entry_where, gtb, same, first_index_of_value,
  goes_before, compatible_kext_with_identifier, record_kext, remove_kext, is_compatible, same,
  goes_before, record_entry, insert_kext, insert_sorted, remove_first,
}
use iokit_user.Kext.Identifiers.Entries.{kexts_of, WellFormed, has}
use iokit_user.Kext.Identifiers.Recording.{record_kext-WellFormed}
use iokit_user.Kext.Identifiers.Removing.{remove_kext-WellFormed}
use iokit_user.Kext.Identifiers.Requests.{
  Finds, compatible_kext_with_identifier-Finds, kext_requests,
  kext_with_identifier_and_version-record_kext,
}

-- Kexts 1, 2 and 3 have the identifier 7 and the versions 20, 10 and 20, each compatible from 5 on.
abbrev three : Library
three = record {
  identifier = λ k. some 7;
  version = λ k. if k == 2 then pos 10 else pos 20;
  compatible_version = λ k. pos 5;
  is_loaded = λ k. k == 2;
  all_kexts = 1 ∷ 2 ∷ 3 ∷ [];
  by_last_opened = false;
}

abbrev nothing : Dictionary
nothing i = none

nothing-WellFormed : WellFormed three nothing
nothing-WellFormed i = record {
  sorted = tt;
  distinct = tt;
  identified = λ k h. absurd (false≢true (unfold contains in h));
}

abbrev all_three : Dictionary
all_three = (record_kext three 3 (record_kext three 2 (record_kext three 1 nothing).1).1).1

all_three-WellFormed : WellFormed three all_three
all_three-WellFormed =
    (record_kext-WellFormed three 3 7 _ refl refl (
      (record_kext-WellFormed three 2 7 _ refl refl
        ((record_kext-WellFormed three 1 7 nothing refl refl nothing-WellFormed).1)).1)).1

in_order : kexts_of (all_three 7) ≡ 3 ∷ 1 ∷ 2 ∷ []
unfolding record_kext record_entry insert_kext insert_sorted remove_first goes_before same gtb
    first_index_of_value
in_order = refl

at_fifteen : compatible_kext_with_identifier three (some all_three) 7 (pos 15) ≡ some 3
unfolding record_kext record_entry insert_kext insert_sorted remove_first goes_before same gtb
    first_index_of_value compatible_kext_with_identifier entry_where first_where is_compatible
at_fifteen = refl

record_kext-WellFormed_example :
    ((record_kext three 3 all_three).0 ≡ true)
    × WellFormed three (record_kext three 3 all_three).1
    × ((j y : ℕ)
        → has (record_kext three 3 all_three).1 j y ≡ ((j == 7 && 3 == y) || has all_three j y))
record_kext-WellFormed_example =
    record_kext-WellFormed three 3 7 all_three refl refl all_three-WellFormed

remove_kext-WellFormed_example :
    WellFormed three (remove_kext three 1 all_three)
    × ((j y : ℕ)
        → has (remove_kext three 1 all_three) j y ≡ (not (j == 7 && 1 == y) && has all_three j y))
remove_kext-WellFormed_example =
    remove_kext-WellFormed three 1 7 all_three refl all_three-WellFormed

compatible_kext_with_identifier-Finds_example :
    Finds three
      (λ k. is_compatible three k (pos 15))
      (kexts_of (all_three 7))
      (compatible_kext_with_identifier three (some all_three) 7 (pos 15))
compatible_kext_with_identifier-Finds_example =
    compatible_kext_with_identifier-Finds three all_three 7 (pos 15) all_three-WellFormed

kext_requests_example :
    Finds three (λ k. true) (kexts_of (all_three 7)) (kext_with_identifier (some all_three) 7)
    × Finds three
        (λ k. same (three.version k) (pos 20))
        (kexts_of (all_three 7))
        (kext_with_identifier_and_version three (some all_three) 7 (pos 20))
    × Finds three
        (λ k. three.is_loaded k)
        (kexts_of (all_three 7))
        (loaded_kext_with_identifier three all_three 7)
kext_requests_example = kext_requests three all_three 7 (pos 20) all_three-WellFormed

kext_with_identifier_and_version-record_kext_example :
    (r : ℕ) × (kext_with_identifier_and_version three
        (some (record_kext three 1 all_three).1)
        7
        (pos 20)
      ≡ some r)
    × (three.identifier r ≡ some 7)
    × (three.version r ≡ pos 20)
    × (goes_before three 1 r ≡ false)
kext_with_identifier_and_version-record_kext_example =
    kext_with_identifier_and_version-record_kext three 1 7 all_three refl refl all_three-WellFormed
