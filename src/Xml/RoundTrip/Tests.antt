-- ===== src/Xml/RoundTrip/Tests.antt =====
-- The theorems on property lists at an object that is met twice.
use iokit_user.Prelude.{◌∷◌, [], ◌≡◌, ◌+◌, refl, codes, some, true, List, ℕ, arith}
use iokit_user.Xml.Build.{Parser}
use iokit_user.Xml.Number.{NumberType}
use iokit_user.Xml.Objects.{
  Kind, Object, string, number, array, dictionary, no_objects, object, no_fields, field, integer,
}
use iokit_user.Xml.RoundTrip.Depth.{open_arrays, too_deep}
use iokit_user.Xml.RoundTrip.Forward.{forward_reference}
use iokit_user.Xml.RoundTrip.Sequences.{all_nonzero_lem}
use iokit_user.Xml.RoundTrip.Tags.{
  reference_text, start_text, get_tag-start_text, id_attribute, size_attribute,
}
use iokit_user.Xml.RoundTrip.Whole.{iocf_unserialize-iocf_serialize}
use iokit_user.Xml.Serialize.{iocf_serialize, tag_string}
use iokit_user.Xml.Tag.{get_tag, tag, start_tag}
use iokit_user.Xml.Unserialize.{running, run, initial, iocf_unserialize}
use iokit_user.Xml.Values.{null}
use iokit_user.Xml.View.{view, weight, nesting, IsWritable, Stored}

abbrev shared : Object
shared = string 7 (codes "a&b")

abbrev inner : Object
inner = array 2 (object shared (object (number 3 NumberType.sint16 (some 300)) no_objects))

abbrev sample : Object
sample = dictionary 1 (field (codes "k") shared (field (codes "l") inner no_fields))

-- The objects at their addresses.
abbrev memory : Kind → ℕ → Object
memory Kind.string a = shared
memory integer a = number 3 NumberType.sint16 (some 300)
memory Kind.array a = inner
memory _ a = sample

iocf_unserialize-iocf_serialize_example :
    (text : List ℕ) × (iocf_serialize true (some sample) 0 ≡ some text)
    × (k : ℕ) × ((extra : ℕ)
        → iocf_unserialize (k + extra) true (some text) 0 ≡ some (view true sample))
unfolding Stored IsWritable nesting weight
iocf_unserialize-iocf_serialize_example =
    iocf_unserialize-iocf_serialize true memory sample
      (refl, (refl, ((refl, (refl, (refl, tt))), tt)))
      (
        all_nonzero_lem (codes "k") refl,
        all_nonzero_lem (codes "a&b") refl,
        (
          all_nonzero_lem (codes "l") refl,
          (all_nonzero_lem (codes "a&b") refl, (omega arith, tt)),
          tt,
        ),
      )
      (omega arith) (omega arith)

forward_reference_example :
    (p : Parser) × (p.parsed_object ≡ null)
    × (p.error_string ≡ some (codes "forward reference detected", 1))
    × (k : ℕ) × ((extra : ℕ)
        → run (k + extra) true (running (initial (reference_text Kind.array 3 (0 ∷ [])))) ≡ some p)
forward_reference_example = forward_reference true Kind.array 3 (0 ∷ []) (omega arith)

get_tag-start_text_example :
    get_tag (record { rest = start_text integer (some 4) (some 32) (codes "0x1"); line_number = 2 })
    ≡ tag start_tag
        (tag_string integer)
        (id_attribute (some 4) (size_attribute (some 32)))
        (record { rest = codes "0x1"; line_number = 2 })
get_tag-start_text_example = get_tag-start_text integer (some 4) (some 32) (codes "0x1") 2

too_deep_example :
    (p : Parser) × (p.parsed_object ≡ null)
    × (p.error_string ≡ some (codes "memory exhausted", 1))
    × (k : ℕ) × ((extra : ℕ)
        → run (k + extra) true (running (initial (open_arrays 9999 (0 ∷ [])))) ≡ some p)
too_deep_example = too_deep true (0 ∷ [])
