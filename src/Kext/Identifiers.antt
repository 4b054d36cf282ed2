-- ===== src/Kext/Identifiers.antt =====
-- The dictionary of kexts by bundle identifier of kext.subproj/OSKext.c (`__sOSKextsByIdentifier`):
-- recording and removing a kext, and the requests for one. A kext is known by a number, which stands
-- for the object's address, and so is an identifier; `none` is the null pointer.
pub mod Order
pub mod Entries
pub mod Searching
pub mod Recording
pub mod Removing
pub mod Requests
mod Tests
use iokit_user.Prelude.{
  [], ltb, suc, ◌||◌, ◌==◌, false, true, not, pos, if◌then◌else◌, ◌∷◌, some, none, ◌&&◌, negsuc,
  List, ℤ, Bool, Option, ℕ,
}
use iokit_user.Kext.LoadList.{contains}

-- What the dictionary's code reads of the kexts: their properties, `__sOSAllKexts`, and
-- `__sOSKextStrictRecordingByLastOpened`.
pub record Library : Type 0 where
  pub identifier : ℕ → Option ℕ
  pub version : ℕ → ℤ
  pub compatible_version : ℕ → ℤ
  pub is_loaded : ℕ → Bool
  pub all_kexts : List ℕ
  pub by_last_opened : Bool

-- A value of the dictionary: a kext, or an array of kexts.
pub data Entry : Type 0 where
  one : ℕ → Entry
  many : List ℕ → Entry

abbrev pub Dictionary : Type 0
Dictionary = ℕ → Option Entry

-- `CFDictionarySetValue`, and `CFDictionaryRemoveValue` for `none`
abbrev pub set_value : Dictionary → ℕ → Option Entry → Dictionary
set_value d i e j = if j == i then e else d j

-- The signed comparison `>` of versions and indices.
unfoldable pub gtb : ℤ → ℤ → Bool
gtb (pos a) (pos b) = ltb b a
gtb (pos a) (negsuc b) = true
gtb (negsuc a) (pos b) = false
gtb (negsuc a) (negsuc b) = ltb a b

pub same : ℤ → ℤ → Bool
same (pos a) (pos b) = a == b
same (pos a) (negsuc b) = false
same (negsuc a) (pos b) = false
same (negsuc a) (negsuc b) = a == b

-- `CFArrayGetFirstIndexOfValue`, from an index on; -1 is `kCFNotFound`.
first_index_of_value : ℕ → List ℕ → ℕ → ℤ
first_index_of_value i [] k = negsuc 0
first_index_of_value i (x ∷ xs) k =
    let later = first_index_of_value (suc i) xs k in if x == k then pos i else later

-- `CFArrayRemoveValueAtIndex` at the first index of the value, if it is there.
pub remove_first : ℕ → List ℕ → List ℕ
remove_first k [] = []
remove_first k (x ∷ xs) = let rest = remove_first k xs in if x == k then xs else x ∷ rest

-- An array that is left, if it is not empty.
abbrev non_empty : List ℕ → Option Entry
non_empty [] = none
non_empty (x ∷ xs) = some (many (x ∷ xs))

-- The entry without the kext.
pub remove_entry : ℕ → Option Entry → Option Entry
remove_entry k none = none
remove_entry k (some (one x)) = if x == k then none else some (one x)
remove_entry k (some (many xs)) = non_empty (remove_first k xs)

module _ (l : Library) where
  -- The tests of the loop at which the kext is inserted before an existing one.
  pub goes_before : ℕ → ℕ → Bool
  goes_before added existing =
      (same (l.version added) (l.version existing)
        && gtb (first_index_of_value 0 l.all_kexts added)
            (first_index_of_value 0 l.all_kexts existing))
      || gtb (l.version added) (l.version existing)

  -- The loop, with `CFArrayInsertValueAtIndex` behind it.
  pub insert_sorted : ℕ → List ℕ → List ℕ
  insert_sorted k [] = k ∷ []
  insert_sorted k (x ∷ xs) =
      let rest = insert_sorted k xs in if goes_before k x then k ∷ x ∷ xs else x ∷ rest

  -- The insertion into an array.
  pub insert_kext : ℕ → List ℕ → List ℕ
  insert_kext k xs = if l.by_last_opened then k ∷ xs else insert_sorted k (remove_first k xs)

  -- The entry, with the kext recorded.
  pub record_entry : ℕ → Option Entry → Entry
  record_entry k none = one k
  record_entry k (some (one x)) = if x == k then one x else many (insert_kext k (x ∷ []))
  record_entry k (some (many xs)) = many (insert_kext k xs)

  -- `__OSKextRecordKextInIdentifierDict`
  pub record_kext : ℕ → Dictionary → Bool × Dictionary
  record_kext k d = elim (l.identifier k) [
    | none ↦ (false, d)
    | some i ↦ (true, set_value d i (some (record_entry k (d i))))
  ]

  -- `__OSKextRemoveKextFromIdentifierDict`
  pub remove_kext : ℕ → Dictionary → Dictionary
  remove_kext k d = elim (l.identifier k) [
    | none ↦ d
    | some i ↦ set_value d i (remove_entry k (d i))
  ]

  -- `OSKextIsCompatibleWithVersion`
  unfoldable pub is_compatible : ℕ → ℤ → Bool
  is_compatible k v =
      gtb (l.compatible_version k) (pos 0)
      && not (gtb (l.compatible_version k) v)
      && not (gtb v (l.version k))

-- The first kext of an array that passes a test.
unfoldable pub first_where : (ℕ → Bool) → List ℕ → Option ℕ
first_where test [] = none
first_where test (x ∷ xs) = let later = first_where test xs in if test x then some x else later

-- The kext of an entry that passes a test.
unfoldable pub entry_where : (ℕ → Bool) → Option Entry → Option ℕ
entry_where test none = none
entry_where test (some (one x)) = if test x then some x else none
entry_where test (some (many xs)) = first_where test xs

-- `OSKextGetKextWithIdentifier`, once the kexts with the identifier are realized, as are the next three.
pub kext_with_identifier : Option Dictionary → ℕ → Option ℕ
kext_with_identifier none i = none
kext_with_identifier (some d) i = entry_where (λ k. true) (d i)

-- `OSKextGetKextWithIdentifierAndVersion`
pub kext_with_identifier_and_version : Library → Option Dictionary → ℕ → ℤ → Option ℕ
kext_with_identifier_and_version l none i v = none
kext_with_identifier_and_version l (some d) i v = entry_where (λ k. same (l.version k) v) (d i)

-- `OSKextGetLoadedKextWithIdentifier`
unfoldable pub loaded_kext_with_identifier : Library → Dictionary → ℕ → Option ℕ
loaded_kext_with_identifier l d i = entry_where (λ k. l.is_loaded k) (d i)

-- `OSKextGetCompatibleKextWithIdentifier`
unfoldable pub compatible_kext_with_identifier : Library → Option Dictionary → ℕ → ℤ → Option ℕ
compatible_kext_with_identifier l none i v = none
compatible_kext_with_identifier l (some d) i v = entry_where (λ k. is_compatible l k v) (d i)

-- The array that is made of an entry, empty if there is none.
array_of : Option Entry → List ℕ
array_of none = []
array_of (some (one k)) = k ∷ []
array_of (some (many ks)) = ks

-- `OSKextCopyKextsWithIdentifier`
pub copy_kexts_with_identifier : Option Dictionary → ℕ → List ℕ
copy_kexts_with_identifier none i = []
copy_kexts_with_identifier (some d) i = array_of (d i)
