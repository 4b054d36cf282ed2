-- ===== src/Xml/RoundTrip/Sequences.antt =====
-- The texts of elements and fields that IOCFSerialize.c writes, one behind the other.
use iokit_user.Prelude.{
  ◌&&◌, ◌==◌, not, ◌/◌, ◌%◌, ltb, [], refl, ◌∷◌, ◌++◌, ◌≡◌, ◌≢◌, ◌+◌, ◌*◌, ◌^◌, Bool, Bool-cases,
  inl, inr, leb, List, ℕ, sym, suc, zero, arith, All, codes, append_assoc, true,
}
use iokit_user.Xml.Build.{reverse_onto, values_of, pairs_of}
use iokit_user.Xml.Number.{NumberType, size_of, hex_digit, hex_digits}
use iokit_user.Xml.RoundTrip.Containers.{ReadsBody}
use iokit_user.Xml.RoundTrip.Routes.{made_array, made_set, made_dictionary}
use iokit_user.Xml.RoundTrip.Elements.{
  IsSequence, in_array, in_set, ReadsMore, ReadsMore-nil, ReadsMore-cons, ReadsBody-cons,
  ReadsBody-nil,
}
use iokit_user.Xml.RoundTrip.Fields.{
  key_text, ReadsPairs, ReadsPairs-nil, ReadsPairs-cons, ReadsBody-pairs,
}
use iokit_user.Xml.RoundTrip.Frames.{ReadsObject}
use iokit_user.Xml.Serialize.{not_serializable}
use iokit_user.Xml.RoundTrip.Ids.{All-append}
use iokit_user.Xml.Text.{add_escaped}
use iokit_user.Xml.Values.{
  Value, Values, Pairs, no_values, value, no_pairs, pair, string_value, null, array_value,
  set_value, dictionary_value,
}
use iokit_user.Xml.View.{number_value}
use mathlib.Core.Path.{subst}

pub number_value-not_null :
    (lp64 : Bool) (type : NumberType) (n : ℕ) → number_value lp64 type n ≢ null
number_value-not_null lp64 type n e = elim (Bool-cases (leb (size_of lp64 type) 32)) [
  | inl small ↦ cc
  | inr large ↦ cc
]

-- The room that an object needs which is nested at most so deeply.
abbrev pub room_of : ℕ → ℕ
room_of d = 3 * d + 1

-- The texts of elements, in front of any other, are read behind elements and behind a start tag.
abbrev pub ReadsSequence : Bool → ℕ → (ℕ → Value) → Values → List ℕ → (ℕ → Value) → Type 0
ReadsSequence lp64 d tags vs text tags2 =
    ((op el : ℕ)
      → IsSequence op el
      → (rest : List ℕ) → ReadsMore lp64 (room_of d) op el (text ++ rest) rest tags tags2 vs)
    × ((rest : List ℕ)
        → ReadsBody lp64 (room_of d + 1) 11 30 made_array (text ++ rest) rest tags tags2
            (array_value vs))
    × ((rest : List ℕ)
        → ReadsBody lp64 (room_of d + 1) 12 32 made_set (text ++ rest) rest tags tags2
            (set_value vs))

abbrev pub ReadsFields : Bool → ℕ → (ℕ → Value) → Pairs → List ℕ → (ℕ → Value) → Type 0
ReadsFields lp64 d tags ps text tags2 =
    ((rest : List ℕ) → ReadsPairs lp64 (room_of d + 1) (text ++ rest) rest tags tags2 ps)
    × ((rest : List ℕ)
        → ReadsBody lp64 (room_of d + 2) 10 25 made_dictionary (text ++ rest) rest tags tags2
            (dictionary_value ps))

abbrev pub closed_key : List ℕ → List ℕ
closed_key key = codes "<key>" ++ add_escaped [] key ++ codes "</key>"

pub reads_nothing :
    (lp64 : Bool) (d : ℕ) (tags : ℕ → Value) → ReadsSequence lp64 d tags no_values [] tags
reads_nothing lp64 d tags = (
  λ op el seq rest. ReadsMore-nil lp64 (room_of d) op el rest tags,
  λ rest.
      ReadsBody-nil lp64 (room_of d + 1) 11 30 rest tags made_array (array_value no_values)
        (unfold reverse_onto values_of in refl),
  λ rest.
      ReadsBody-nil lp64 (room_of d + 1) 12 32 rest tags made_set (set_value no_values)
        (unfold reverse_onto values_of in refl),
)

pub reads_no_fields :
    (lp64 : Bool) (d : ℕ) (tags : ℕ → Value) → ReadsFields lp64 d tags no_pairs [] tags
reads_no_fields lp64 d tags = (
  λ rest. ReadsPairs-nil lp64 (room_of d + 1) rest tags,
  λ rest.
      ReadsBody-nil lp64 (room_of d + 2) 10 25 rest tags made_dictionary (dictionary_value no_pairs)
        (unfold reverse_onto pairs_of in refl),
)

module _ (lp64 : Bool) (d : ℕ) where
  -- An object in front of others.
  pub reads_first :
      (t u : List ℕ) (tags tags1 tags2 : ℕ → Value) (v : Value) (vs : Values)
      → ReadsObject lp64 (room_of d) tags v t tags1
      → ReadsSequence lp64 d tags1 vs u tags2
      → ReadsSequence lp64 d tags (value v vs) (t ++ u) tags2
  reads_first t u tags tags1 tags2 v vs read (more, in_arrays, in_sets) = (
    λ op el seq rest.
        subst (λ s. ReadsMore lp64 (room_of d) op el s rest tags tags2 (value v vs))
          (sym (append_assoc t u rest))
          (ReadsMore-cons lp64 seq (room_of d) _ (u ++ rest) rest tags tags1 tags2 v vs
            (read (u ++ rest)) (more op el seq rest)),
    λ rest.
        subst
          (λ s.
            ReadsBody lp64 (room_of d + 1) 11 30 made_array s rest tags tags2
              (array_value (value v vs)))
          (sym (append_assoc t u rest))
          (ReadsBody-cons lp64 in_array (room_of d) _ (u ++ rest) rest tags tags1 tags2 v vs
            (read (u ++ rest)) (more 11 30 in_array rest) made_array array_value (λ ls. refl)),
    λ rest.
        subst
          (λ s.
            ReadsBody lp64 (room_of d + 1) 12 32 made_set s rest tags tags2
              (set_value (value v vs)))
          (sym (append_assoc t u rest))
          (ReadsBody-cons lp64 in_set (room_of d) _ (u ++ rest) rest tags tags1 tags2 v vs
            (read (u ++ rest)) (more 12 32 in_set rest) made_set set_value (λ ls. refl)),
  )

  key_in_front :
      (key t u rest : List ℕ)
      → (closed_key key ++ (t ++ u)) ++ rest ≡ key_text key (t ++ (u ++ rest))
  key_in_front key t u rest = simp append_assoc refl

  -- A key and an object in front of others.
  pub reads_field :
      (key t u : List ℕ) (tags tags1 tags2 : ℕ → Value) (v : Value) (ps : Pairs)
      → All (λ c. c ≢ 0) key
      → ReadsObject lp64 (room_of d) tags v t tags1
      → ReadsFields lp64 d tags1 ps u tags2
      → ReadsFields lp64 d tags (pair (string_value key) v ps) (closed_key key ++ (t ++ u)) tags2
  reads_field key t u tags tags1 tags2 v ps no_nul read (more, others) = (
    λ rest.
        subst
          (λ s. ReadsPairs lp64 (room_of d + 1) s rest tags tags2 (pair (string_value key) v ps))
          (sym (key_in_front key t u rest))
          (ReadsPairs-cons lp64 (room_of d) key _ (u ++ rest) rest tags tags1 tags2 v ps no_nul
            (read (u ++ rest)) (more rest) (omega arith)),
    λ rest.
        subst
          (λ s.
            ReadsBody lp64 (room_of d + 2) 10 25 made_dictionary s rest tags tags2
              (dictionary_value (pair (string_value key) v ps)))
          (sym (key_in_front key t u rest))
          (ReadsBody-pairs lp64 (room_of d) key _ (u ++ rest) rest tags tags1 tags2 v ps no_nul
            (read (u ++ rest)) (more rest) (omega arith)),
  )

-- The text that stands for an object of a type without a tag.
hex_digits-nonzero : (k n : ℕ) → All (λ c. c ≢ 0) (hex_digits k n)
unfolding hex_digits hex_digit
hex_digits-nonzero zero n = tt
hex_digits-nonzero (suc k) n = elim (Bool-cases (ltb n 16)) [
  | inl e ↦ rw e (λ h. ground arith, tt)
  | inr e ↦ rw e (
      All-append (λ c. c ≢ 0) (hex_digits k (n / 16)) _ (hex_digits-nonzero k (n / 16))
        (λ h. ground arith, tt))
]

abbrev all_nonzero : List ℕ → Bool
all_nonzero [] = true
all_nonzero (c ∷ s) = not (c == 0) && all_nonzero s

pub all_nonzero_lem : (s : List ℕ) → all_nonzero s ≡ true → All (λ c. c ≢ 0) s
all_nonzero_lem [] h = tt
all_nonzero_lem (c ∷ s) h = (λ e. ground arith, all_nonzero_lem s (ground arith))

pub not_serializable-nonzero : (type : ℕ) → All (λ c. c ≢ 0) (not_serializable type)
unfolding not_serializable
not_serializable-nonzero type =
    All-append (λ c. c ≢ 0) (codes "<string>typeID 0x" ++ hex_digits 8 (type % 2 ^ 32))
      (codes " not serializable</string>")
      (All-append (λ c. c ≢ 0) (codes "<string>typeID 0x") (hex_digits 8 (type % 2 ^ 32))
        (all_nonzero_lem (codes "<string>typeID 0x") refl) (hex_digits-nonzero 8 (type % 2 ^ 32)))
      (all_nonzero_lem (codes " not serializable</string>") refl)
