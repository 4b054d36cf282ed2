-- ===== src/Xml/RoundTrip/Trees.antt =====
-- Every object, by induction on it: what IOCFSerialize.c appends for it, IOCFUnserialize.tab.c reads.
use iokit_user.Prelude.{
  [], refl, ◌++◌, ◌≡◌, ◌+◌, ◌≤◌, ◌^◌, none, some, Bool, List, ℕ, suc, zero, arith, codes,
  append_assoc,
}
use iokit_user.Xml.Number.{NumberType, size_of, number_text}
use iokit_user.Xml.Data.{serialize_data}
use iokit_user.Xml.Objects.{
  Kind, Object, Objects, Fields, string, number, bytes, boolean, array, set, dictionary, unknown,
  no_objects, object, no_fields, field, integer, data_bytes, dict,
}
use iokit_user.Xml.RoundTrip.Containers.{Reads-container}
use iokit_user.Xml.RoundTrip.Routes.{array-Route, set-Route, dictionary-Route}
use iokit_user.Xml.RoundTrip.Frames.{
  Appends_none, Appends, Appends_map, Appends_text, Appends_then, Appends_behind, Reads-more,
  ReadsObject, appends_as,
}
use iokit_user.Xml.RoundTrip.Leaves.{Reads, Reads-string, Reads-data, Reads-number, Reads-boolean}
use iokit_user.Xml.RoundTrip.Sharing.{Agree, Agree-smaller, Agree-Grows}
use iokit_user.Xml.RoundTrip.Tags.{start_text, end_text}
use iokit_user.Xml.Serialize.{
  Writer, serialize, serialize_objects, serialize_fields, serialize_key, number_body, size_tag,
  not_serializable, boolean_text,
}
use iokit_user.Xml.Serialize.{tag_string}
use iokit_user.Xml.Text.{add_escaped}
use iokit_user.Xml.Values.{Value, string_value}
use iokit_user.Xml.View.{
  larger, view, view_objects, view_fields, weight, weight_objects, weight_fields, nesting,
  nesting_objects, nesting_fields, IsWritable, AreWritable, FieldsAreWritable, Stored, AreStored,
  FieldsAreStored, larger,
}
use mathlib.Core.Path.{subst}
use iokit_user.Xml.RoundTrip.Sequences.{
  number_value-not_null, room_of, ReadsSequence, ReadsFields, closed_key, reads_nothing,
  reads_no_fields, reads_first, reads_field, not_serializable-nonzero,
}

larger-le : (a b d : ℕ) → larger a b ≤ d → (a ≤ d) × (b ≤ d)
larger-le a b d h = (ground arith, ground arith)

module _ (lp64 : Bool) (heap : Kind → ℕ → Object) where
  abbrev AppendsObject : Object → ℕ → Type 0
  AppendsObject x d =
      (w : Writer) (tags : ℕ → Value)
      → Agree lp64 heap (weight x) w tags
      → w.idref_num_refs + weight x ≤ 2 ^ 31
      → Appends lp64 heap (weight x) w tags (serialize lp64 x w)
          (ReadsObject lp64 (room_of d) tags (view lp64 x))

  appends_string :
      (a : ℕ) (s : List ℕ) (d : ℕ)
      → Stored heap (string a s)
      → IsWritable (string a s)
      → AppendsObject (string a s) d
  unfolding Stored IsWritable weight view serialize
  appends_string a s d at ok w tags agree few =
      appends_as lp64 heap (room_of d) 0 Kind.string a none (string a s) _ at refl (λ e. cc)
        (omega arith)
        (λ w1 tags1 agree1 few1.
          Appends_text lp64 heap 0 w1 tags1 (add_escaped [] s)
            (λ id rest h. Reads-more lp64 (omega arith) (Reads-string lp64 id s rest tags1 h ok)))
        w tags agree few

  appends_bytes :
      (a : ℕ) (s : List ℕ) (d : ℕ)
      → Stored heap (bytes a s)
      → IsWritable (bytes a s)
      → AppendsObject (bytes a s) d
  unfolding Stored IsWritable weight view serialize
  appends_bytes a s d at ok w tags agree few =
      appends_as lp64 heap (room_of d) 0 data_bytes a none (bytes a s) _ at refl (λ e. cc)
        (omega arith)
        (λ w1 tags1 agree1 few1.
          Appends_text lp64 heap 0 w1 tags1 (serialize_data s)
            (λ id rest h. Reads-more lp64 (omega arith) (Reads-data lp64 id s rest tags1 h ok)))
        w tags agree few

  appends_number :
      (a : ℕ) (type : NumberType) (n d : ℕ)
      → Stored heap (number a type (some n))
      → IsWritable (number a type (some n))
      → AppendsObject (number a type (some n)) d
  unfolding Stored IsWritable weight view serialize size_tag number_body
  appends_number a type n d at ok w tags agree few =
      appends_as lp64 heap (room_of d) 0 integer a (some (size_of lp64 type))
        (number a type (some n)) _ at refl (number_value-not_null lp64 type n) (omega arith)
        (λ w1 tags1 agree1 few1.
          Appends_text lp64 heap 0 w1 tags1 (number_text lp64 type n) (λ id rest h.
            Reads-more lp64 (omega arith) (Reads-number lp64 id type n rest tags1 h ok)))
        w tags agree few

  appends_boolean : (b : Bool) (d : ℕ) → AppendsObject (boolean b) d
  unfolding weight view serialize
  appends_boolean b d w tags agree few =
      Appends_text lp64 heap 1 w tags (boolean_text b)
        (λ rest. Reads-more lp64 (omega arith) (Reads-boolean lp64 b rest tags))

  appends_unknown : (type d : ℕ) → AppendsObject (unknown type) d
  unfolding weight view serialize
  appends_unknown type d w tags agree few =
      Appends_text lp64 heap 1 w tags
        (codes "<string>" ++ add_escaped [] (not_serializable type) ++ codes "</string>")
        (λ rest.
          subst
            (λ s. Reads lp64 (room_of d) s rest tags tags (string_value (not_serializable type)))
            (in_front rest)
            (Reads-more lp64 (omega arith) (
              Reads-string lp64 none (not_serializable type) rest tags tt
                (not_serializable-nonzero type))))
    where
      in_front :
          (rest : List ℕ)
          → start_text Kind.string none none
              (add_escaped [] (not_serializable type) ++ end_text Kind.string rest)
            ≡ (codes "<string>" ++ add_escaped [] (not_serializable type) ++ codes "</string>")
              ++ rest
      in_front rest = unfold tag_string in simp append_assoc refl

  mutual
    unfolding Stored AreStored FieldsAreStored IsWritable AreWritable FieldsAreWritable weight view
        nesting serialize serialize_key

    pub appends :
        (x : Object) (d : ℕ) → Stored heap x → IsWritable x → nesting x ≤ d → AppendsObject x d
    appends (string a s) d at ok deep = appends_string a s d at ok
    appends (number a type none) d at ok deep = absurd ok
    appends (number a type (some n)) d at ok deep = appends_number a type n d at ok
    appends (bytes a s) d at ok deep = appends_bytes a s d at ok
    appends (boolean b) d at ok deep = appends_boolean b d
    appends (unknown type) d at ok deep = appends_unknown type d
    appends (array a xs) zero at ok deep = absurd (omega arith)
    appends (array a xs) (suc d) at ok deep = λ w tags agree few.
        appends_as lp64 heap (room_of (suc d)) (weight_objects xs) Kind.array a none (array a xs) _
          (at.0) refl (λ e. cc) (omega arith)
          (λ w1 tags1 agree1 few1.
            Appends_map lp64 heap
              (λ t tags2 read id rest h. Reads-more lp64 (omega arith) (
                Reads-container lp64 array-Route (room_of d + 1) id _ rest tags1 tags2 _ h
                  (omega arith) (read.1 (end_text Kind.array rest))))
              (appends_objects xs d (at.1) ok (omega arith) w1 tags1 agree1 few1))
          w tags agree few
    appends (set a xs) zero at ok deep = absurd (omega arith)
    appends (set a xs) (suc d) at ok deep = λ w tags agree few.
        appends_as lp64 heap (room_of (suc d)) (weight_objects xs) Kind.set a none (set a xs) _
          (at.0) refl (λ e. cc) (omega arith)
          (λ w1 tags1 agree1 few1.
            Appends_map lp64 heap
              (λ t tags2 read id rest h. Reads-more lp64 (omega arith) (
                Reads-container lp64 set-Route (room_of d + 1) id _ rest tags1 tags2 _ h
                  (omega arith) (read.2 (end_text Kind.set rest))))
              (appends_objects xs d (at.1) ok (omega arith) w1 tags1 agree1 few1))
          w tags agree few
    appends (dictionary a fs) zero at ok deep = absurd (omega arith)
    appends (dictionary a fs) (suc d) at ok deep = λ w tags agree few.
        appends_as lp64 heap (room_of (suc d)) (weight_fields fs) dict a none (dictionary a fs) _
          (at.0) refl (λ e. cc) (omega arith)
          (λ w1 tags1 agree1 few1.
            Appends_map lp64 heap
              (λ t tags2 read id rest h. Reads-more lp64 (omega arith) (
                Reads-container lp64 dictionary-Route (room_of d + 2) id _ rest tags1 tags2 _ h
                  (omega arith) (read.1 (end_text dict rest))))
              (appends_fields fs d (at.1) ok (omega arith) w1 tags1 agree1 few1))
          w tags agree few

    appends_objects :
        (xs : Objects) (d : ℕ)
        → AreStored heap xs
        → AreWritable xs
        → nesting_objects xs ≤ d
        → (w : Writer) (tags : ℕ → Value) → Agree lp64 heap (weight_objects xs) w tags
        → w.idref_num_refs + weight_objects xs ≤ 2 ^ 31
        → Appends lp64 heap
            (weight_objects xs)
            w
            tags
            (serialize_objects lp64 xs w)
            (ReadsSequence lp64 d tags (view_objects lp64 xs))
    appends_objects no_objects d at ok deep w tags agree few =
        Appends_none lp64 heap 0 w tags (reads_nothing lp64 d tags)
    appends_objects (object x xs) d at ok deep w tags agree few =
        let first =
          appends x d (at.0) (ok.0) ((larger-le (nesting x) (nesting_objects xs) d deep).0) w tags
            (Agree-smaller lp64 heap w tags (omega arith) agree) (omega arith) in
        Appends_then lp64 heap (serialize_objects lp64 xs)
          (λ t tags1. ReadsSequence lp64 d tags1 (view_objects lp64 xs)) (omega arith)
          (λ t u tags1 tags2 read reads. reads_first lp64 d t u tags tags1 tags2 _ _ read reads)
          first
          (appends_objects xs d (at.1) (ok.1)
            ((larger-le (nesting x) (nesting_objects xs) d deep).1) first.writer first.tags2
            (Agree-smaller lp64 heap first.writer first.tags2 (omega arith)
              (Agree-Grows lp64 heap w first.writer tags first.tags2 agree first.grows))
            (omega (arith, first.counts)))

    appends_fields :
        (fs : Fields) (d : ℕ)
        → FieldsAreStored heap fs
        → FieldsAreWritable fs
        → nesting_fields fs ≤ d
        → (w : Writer) (tags : ℕ → Value) → Agree lp64 heap (weight_fields fs) w tags
        → w.idref_num_refs + weight_fields fs ≤ 2 ^ 31
        → Appends lp64 heap
            (weight_fields fs)
            w
            tags
            (serialize_fields lp64 fs w)
            (ReadsFields lp64 d tags (view_fields lp64 fs))
    appends_fields no_fields d at ok deep w tags agree few =
        Appends_none lp64 heap 0 w tags (reads_no_fields lp64 d tags)
    appends_fields (field key x fs) d at ok deep w tags agree few =
        let named : Writer = serialize_key key w in
        let first =
          appends x d (at.0) (ok.1) ((larger-le (nesting x) (nesting_fields fs) d deep).0) named
            tags (Agree-smaller lp64 heap w tags (omega arith) agree) (omega arith) in
        Appends_behind lp64 heap w (closed_key key)
          (λ t tags2. ReadsFields lp64 d tags (view_fields lp64 (field key x fs)) t tags2)
          (Appends_then lp64 heap (serialize_fields lp64 fs)
            (λ t tags1. ReadsFields lp64 d tags1 (view_fields lp64 fs)) (omega arith)
            (λ t u tags1 tags2 read reads.
              reads_field lp64 d key t u tags tags1 tags2 _ _ (ok.0) read reads)
            first
            (appends_fields fs d (at.1) (ok.2)
              ((larger-le (nesting x) (nesting_fields fs) d deep).1) first.writer first.tags2
              (Agree-smaller lp64 heap first.writer first.tags2 (omega arith)
                (Agree-Grows lp64 heap named first.writer tags first.tags2 agree first.grows))
              (omega (arith, first.counts))))
