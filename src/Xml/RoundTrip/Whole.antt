-- ===== src/Xml/RoundTrip/Whole.antt =====
-- `IOCFSerialize` and `IOCFUnserialize`, one behind the other.
use iokit_user.Prelude.{
  ap, [], refl, ◌∷◌, ◌++◌, ◌≡◌, ◌≢◌, ◌+◌, ◌≤◌, ◌^◌, none, some, Bool, Option, List, ℕ, ◌∙◌, suc,
  zero, arith, ◌>>=◌, true, false, ◌==◌,
}
use iokit_user.Xml.Build.{Parser, perform}
use iokit_user.Xml.Objects.{
  Kind, Object, Objects, Fields, string, number, bytes, boolean, array, set, dictionary, unknown,
  no_objects, object, no_fields, field, integer, data_bytes, dict,
}
use iokit_user.Xml.RoundTrip.Leaves.{parser}
use iokit_user.Xml.RoundTrip.Moves.{Starts, ◌then◌, one_step, machine}
use iokit_user.Xml.RoundTrip.Sharing.{Agree}
use iokit_user.Xml.RoundTrip.Trees.{appends}
use iokit_user.Xml.Serialize.{
  Entry, identified, IdRefs, Kind-discrete, entry_at, set_entry, seen_again, record_object, scan,
  scan_objects, scan_fields, start_writer, iocf_serialize,
}
use iokit_user.Xml.Tables.{needs_token, default_move, goto_state, plus}
use iokit_user.Xml.Unserialize.{
  halted, reduce_by, make_default, step, run, initial, object_of, iocf_unserialize,
}
use iokit_user.Xml.Values.{Cell, null}
use iokit_user.Xml.View.{view, weight, nesting, IsWritable, Stored}

-- No object has a number yet.
NoneIdentified : IdRefs → Type 0
NoneIdentified refs = (k : Kind) (a n : ℕ) → refs k a ≢ some (identified n)

entry_at_unidentified :
    {P : Type 0} (d : Dec P) (b : Bool) (old : Option Entry) (seen : Option Entry) (n : ℕ)
    → old ≢ some (identified n)
    → entry_at d b (some (seen_again seen)) old ≢ some (identified n)
unfolding seen_again
entry_at_unidentified (yes p) true old none n h e = cc
entry_at_unidentified (yes p) true old (some entry) n h e = cc
entry_at_unidentified (yes p) false old seen n h e = h e
entry_at_unidentified (no p) true old seen n h e = h e
entry_at_unidentified (no p) false old seen n h e = h e

record_unidentified :
    (kind : Kind) (address : ℕ) (refs : IdRefs)
    → NoneIdentified refs
    → NoneIdentified (record_object kind address refs)
unfolding NoneIdentified record_object set_entry
record_unidentified kind address refs h k a n =
    entry_at_unidentified (Kind-discrete k kind) (a == address) (refs k a) (refs kind address) n
      (h k a n)

mutual
  unfolding scan

  scan_unidentified :
      (x : Object) (refs : IdRefs) → NoneIdentified refs → NoneIdentified (scan x refs)
  scan_unidentified (string a s) refs h = record_unidentified Kind.string a refs h
  scan_unidentified (number a type n) refs h = record_unidentified integer a refs h
  scan_unidentified (bytes a s) refs h = record_unidentified data_bytes a refs h
  scan_unidentified (boolean b) refs h = h
  scan_unidentified (array a xs) refs h =
      scan_objects_unidentified xs _ (record_unidentified Kind.array a refs h)
  scan_unidentified (set a xs) refs h =
      scan_objects_unidentified xs _ (record_unidentified Kind.set a refs h)
  scan_unidentified (dictionary a fs) refs h =
      scan_fields_unidentified fs _ (record_unidentified dict a refs h)
  scan_unidentified (unknown type) refs h = h

  scan_objects_unidentified :
      (xs : Objects) (refs : IdRefs) → NoneIdentified refs → NoneIdentified (scan_objects xs refs)
  scan_objects_unidentified no_objects refs h = h
  scan_objects_unidentified (object x xs) refs h =
      scan_objects_unidentified xs (scan x refs) (scan_unidentified x refs h)

  scan_fields_unidentified :
      (fs : Fields) (refs : IdRefs) → NoneIdentified refs → NoneIdentified (scan_fields fs refs)
  scan_fields_unidentified no_fields refs h = h
  scan_fields_unidentified (field key x fs) refs h =
      scan_fields_unidentified fs (scan x refs) (scan_unidentified x refs h)

start_agrees :
    (lp64 : Bool) (heap : Kind → ℕ → Object) (x : Object)
    → Agree lp64 heap (weight x) (start_writer x) (λ n. null)
unfolding start_writer NoneIdentified
start_agrees lp64 heap x k a n e small =
    absurd (scan_unidentified x (λ k2 a2. none) (λ k2 a2 m none_some. cc) k a n e)

-- The last step: an object alone is the result.
accepting :
    (lp64 : Bool) (cell : Cell) (p : Parser)
    → step lp64 (machine (14 ∷ 0 ∷ []) (cell ∷ []) p)
      ≡ halted (record p { parsed_object = cell.object })
unfolding step needs_token default_move make_default reduce_by perform
accepting lp64 cell p = refl

after_object : goto_state 5 0 ≡ 14
unfolding goto_state plus
after_object = refl

pub run_halted : (fuel : ℕ) (lp64 : Bool) (p : Parser) → run fuel lp64 (halted p) ≡ some p
unfolding run
run_halted zero lp64 p = refl
run_halted (suc fuel) lp64 p = refl

module _ (lp64 : Bool) (heap : Kind → ℕ → Object) (x : Object) (stored : Stored heap x)
    (writable : IsWritable x) (shallow : nesting x ≤ 3000) (few : weight x ≤ 2 ^ 31) where
  -- An object that can be written, with one object of a type at each address, nested at most 3000 deep
  -- and of at most 2 ^ 31 objects, is written to a text, and that text, with enough steps, is read as
  -- the object without its addresses, in which a number of at most 32 bits is an SInt32.
  pub iocf_unserialize-iocf_serialize :
      (text : List ℕ) × (iocf_serialize lp64 (some x) 0 ≡ some text)
      × (k : ℕ) × ((extra : ℕ)
          → iocf_unserialize (k + extra) lp64 (some text) 0 ≡ some (view lp64 x))
  unfolding iocf_serialize iocf_unserialize start_writer initial
  iocf_unserialize-iocf_serialize =
      let r =
        appends lp64 heap x 3000 stored writable shallow (start_writer x) (λ n. null)
          (start_agrees lp64 heap x) (omega arith) in
      let (cell, n2, same, steps) =
        r.holds (0 ∷ []) 0 [] [] 1 null none Starts.at_start (omega arith) in
      let all =
        steps
        then one_step (
            ap
              (λ q.
                step lp64 (machine (q ∷ 0 ∷ []) (cell ∷ []) (parser (0 ∷ []) n2 r.tags2 null none)))
              after_object
            ∙ accepting lp64 cell (parser (0 ∷ []) n2 r.tags2 null none)) in
      (
        r.text ++ 0 ∷ [],
        ap (λ o. o >>= λ w. some (w.written ++ 0 ∷ [])) r.succeeds
            ∙ ap (λ s. some (s ++ 0 ∷ [])) r.appended,
        all.count,
        λ extra. ap object_of (all.reaches extra ∙ run_halted extra lp64 _) ∙ ap some same,
      )
