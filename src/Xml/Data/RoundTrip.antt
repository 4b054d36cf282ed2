-- ===== src/Xml/Data/RoundTrip.antt =====
-- The bytes that IOCFSerialize.c writes as data are those that IOCFUnserialize.tab.c reads.
use iokit_user.Prelude.{
  true, append_assoc, suc, append-nil, sym, All, refl, ap, [], ◌∙◌, arith, ◌/◌, ◌++◌, ◌*◌, ◌∷◌, ◌+◌,
  ◌<◌, ◌≡◌, ◌%◌, List, ℕ,
}
use iokit_user.Xml.Data.{
  non_null, write_from, serialize_data, Decoder, decode, result_of, get_cf_encoded_data,
}
use iokit_user.Xml.Data.Groups.{decode_full, decode_two, decode_one}
use iokit_user.Xml.Data.Writing.{write_three, write_two, write_one, write_nothing}

abbrev pub IsByte : ℕ → Type 0
IsByte b = b < 256

-- The loop reads the bytes, and stops at the tag.
abbrev Reads : Decoder → List ℕ → List ℕ → List ℕ → Type 0
Reads d text rest bytes =
    (d' : Decoder) × (decode d (text ++ b'<' ∷ rest) ≡ (true, d', b'<' ∷ rest))
    × (d'.out ≡ d.out ++ bytes)
    × (d'.line_number ≡ d.line_number)

decode_stop : (d : Decoder) (rest : List ℕ) → decode d (b'<' ∷ rest) ≡ (true, d, b'<' ∷ rest)
unfolding decode
decode_stop d rest = refl

-- The first, second and third byte of four characters.
join1 : (x y : ℕ) → x < 256 → y < 256 → x / 4 % 64 * 4 + (x * 256 + y) / 16 % 64 / 16 ≡ x
join1 x y h k = omega arith

join2 :
    (x y z : ℕ)
    → x < 256
    → y < 256
    → z < 256
    → (x * 256 + y) / 16 % 64 % 16 * 16 + (y * 256 + z) / 64 % 64 / 4 ≡ y
join2 x y z h k m = omega arith

join3 : (y z : ℕ) → y < 256 → z < 256 → (y * 256 + z) / 64 % 64 % 4 * 64 + z % 64 ≡ z
join3 y z h k = omega arith

join1_alone : (x : ℕ) → x < 256 → x / 4 % 64 * 4 + x % 4 * 16 / 16 ≡ x
join1_alone x h = omega arith

join2_alone : (x y : ℕ) → x < 256 → y < 256 → (x * 256 + y) / 16 % 64 % 16 * 16 + y % 16 * 4 / 4 ≡ y
join2_alone x y h k = omega arith

at_text :
    (d : Decoder) (rest : List ℕ) {t t' : List ℕ}
    → t ≡ t'
    → decode d (t ++ b'<' ∷ rest) ≡ decode d (t' ++ b'<' ∷ rest)
at_text d rest e = ap (λ t. decode d (t ++ b'<' ∷ rest)) e

abbrev start : ℕ → ℕ → ℕ → List ℕ → ℕ → Decoder
start q acc k out l = record { numeq = q; acc = acc; cntr = k; out = out; line_number = l }

decode-write_from :
    (i before q acc k : ℕ) (out : List ℕ) (l : ℕ) (bytes rest : List ℕ)
    → i % 3 ≡ 0
    → k % 4 ≡ 0
    → All IsByte bytes
    → Reads
        (record { numeq = q; acc = acc; cntr = k; out = out; line_number = l })
        (write_from i before bytes)
        rest
        bytes
decode-write_from i before q acc k out l [] rest hi hk h = (
  _,
  at_text (start q acc k out l) rest (write_nothing i before hi) ∙ decode_stop _ rest,
  sym (append-nil out),
  refl,
)
decode-write_from i before q acc k out l (x ∷ []) rest hi hk h = (
  _,
  at_text (start q acc k out l) rest (write_one i before hi x)
      ∙ decode_one q acc k out l hk (b'<' ∷ rest) (x / 4 % 64) (x % 4 * 16) (omega arith)
          (omega arith)
      ∙ decode_stop _ rest,
  ap (λ v. out ++ v ∷ []) (join1_alone x h.0),
  refl,
)
decode-write_from i before q acc k out l (x ∷ y ∷ []) rest hi hk h = (
  _,
  at_text (start q acc k out l) rest (write_two i before hi x y)
      ∙ decode_two q acc k out l hk (b'<' ∷ rest) (x / 4 % 64) ((x * 256 + y) / 16 % 64)
          (y % 16 * 4) (omega arith) (omega arith) (omega arith)
      ∙ decode_stop _ rest,
  (λ j. out ++ join1 x y h.0 h.1.0 j ∷ join2_alone x y h.0 h.1.0 j ∷ []),
  refl,
)
decode-write_from i before q acc k out l (x ∷ y ∷ z ∷ bs) rest hi hk h =
    let (d, run, same_out, same_line) =
      decode-write_from (suc (suc (suc i))) z 0 _ (k + 1 + 1 + 1 + 1) _ l bs rest (omega arith)
        (omega arith) h.1.1.1 in
    (
      d,
      at_text (start q acc k out l) rest (write_three i before hi x y z bs)
          ∙ decode_full q acc k out l hk (write_from (suc (suc (suc i))) z bs ++ b'<' ∷ rest)
              (x / 4 % 64) ((x * 256 + y) / 16 % 64) ((y * 256 + z) / 64 % 64) (z % 64)
              (omega arith) (omega arith) (omega arith) (omega arith)
          ∙ run,
      same_out ∙ append_assoc out (_ ∷ _ ∷ _ ∷ []) bs ∙ (λ j.
          out
          ++ join1 x y h.0 h.1.0 j
            ∷ join2 x y z h.0 h.1.0 h.1.1.0 j
            ∷ join3 y z h.1.0 h.1.1.0 j
            ∷ bs),
      same_line,
    )

result_of-at_tag :
    (d : Decoder) (s bytes : List ℕ) (n : ℕ)
    → d.out ≡ bytes
    → d.line_number ≡ n
    → result_of (true, d, s) ≡ (non_null bytes, record { rest = s; line_number = n })
unfolding result_of
result_of-at_tag d s bytes n o e = rw (o, e) refl

-- Bytes written as data and read from there up to a tag are the bytes again, or the null pointer if
-- there are none, and the input ends at the tag, on the same line.
pub get_cf_encoded_data-serialize_data :
    (bytes rest : List ℕ) (n : ℕ)
    → All IsByte bytes
    → get_cf_encoded_data (record { rest = serialize_data bytes ++ b'<' ∷ rest; line_number = n })
      ≡ (non_null bytes, record { rest = b'<' ∷ rest; line_number = n })
unfolding get_cf_encoded_data serialize_data
get_cf_encoded_data-serialize_data bytes rest n h =
    let (d, run, same_out, same_line) = decode-write_from 0 0 0 0 0 [] n bytes rest refl refl h in
    ap result_of run ∙ result_of-at_tag d (b'<' ∷ rest) bytes n same_out same_line
