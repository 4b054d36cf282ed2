-- ===== src/Xml/Data/Writing.antt =====
-- The characters that `DoCFSerializeData` of IOCFSerialize.c writes for three bytes or fewer.
use iokit_user.Prelude.{suc, refl, [], arith, ◌/◌, ◌*◌, ◌∷◌, ◌+◌, ◌≡◌, ◌%◌, List, ℕ}
use iokit_user.Xml.Data.{encoded_char, write_byte, write_last, write_from}

-- What the loop writes from an index that is a multiple of three.
module _ (i before : ℕ) (at_three : i % 3 ≡ 0) where
  one_behind : suc i % 3 ≡ 1
  one_behind = omega arith

  two_behind : suc (suc i) % 3 ≡ 2
  two_behind = omega arith

  pub write_three :
      (x y z : ℕ) (bs : List ℕ)
      → write_from i before (x ∷ y ∷ z ∷ bs)
        ≡ encoded_char (x / 4 % 64)
          ∷ encoded_char ((x * 256 + y) / 16 % 64)
          ∷ encoded_char ((y * 256 + z) / 64 % 64)
          ∷ encoded_char (z % 64)
          ∷ write_from (suc (suc (suc i))) z bs
  unfolding write_from write_byte
  write_three x y z bs = rw (at_three, one_behind, two_behind) refl

  pub write_two :
      (x y : ℕ)
      → write_from i before (x ∷ y ∷ [])
        ≡ encoded_char (x / 4 % 64)
          ∷ encoded_char ((x * 256 + y) / 16 % 64)
          ∷ encoded_char (y % 16 * 4)
          ∷ b'='
          ∷ []
  unfolding write_from write_byte write_last
  write_two x y = rw (at_three, one_behind, two_behind) refl

  pub write_one :
      (x : ℕ)
      → write_from i before (x ∷ [])
        ≡ encoded_char (x / 4 % 64) ∷ encoded_char (x % 4 * 16) ∷ b'=' ∷ b'=' ∷ []
  unfolding write_from write_byte write_last
  write_one x = rw (at_three, one_behind) refl

  pub write_nothing : write_from i before [] ≡ []
  unfolding write_from write_last
  write_nothing = rw at_three refl
