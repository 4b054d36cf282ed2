-- ===== src/Xml/Data/Groups.antt =====
-- What `getCFEncodedData` of IOCFUnserialize.tab.c makes of four characters.
use iokit_user.Prelude.{
  ap, [], ◌∙◌, arith, ◌^◌, ◌/◌, false, ◌++◌, ◌*◌, true, ◌==◌, ◌∷◌, ◌+◌, ◌<◌, ◌≡◌, ◌%◌, List, ℕ,
}
use iokit_user.Xml.Data.{encoded_char, decode}
use iokit_user.Xml.Data.Steps.{
  round_inside, round_last, round-padding_inside, round-padding_last, decode-padding,
  decode-encoded_char, four_values, quantum_full, quantum_two, quantum_one,
}

-- The loop over four characters of the table, and over the last four, with padding.
module _ (q acc k : ℕ) (out : List ℕ) (l : ℕ) (whole : k % 4 ≡ 0) (s : List ℕ) where
  one_more : ((k + 1) % 4 == 0) ≡ false
  one_more = ground arith

  two_more : ((k + 1 + 1) % 4 == 0) ≡ false
  two_more = ground arith

  three_more : ((k + 1 + 1 + 1) % 4 == 0) ≡ false
  three_more = ground arith

  four_more : ((k + 1 + 1 + 1 + 1) % 4 == 0) ≡ true
  four_more = ground arith

  -- After two characters of the table.
  decode_pair :
      (a b : ℕ) (t : List ℕ)
      → a < 64
      → b < 64
      → decode
          (record { numeq = q; acc = acc; cntr = k; out = out; line_number = l })
          (encoded_char a ∷ encoded_char b ∷ t)
        ≡ decode
            (record {
              numeq = 0;
              acc = ((acc * 64 + a) % 2 ^ 32 * 64 + b) % 2 ^ 32;
              cntr = k + 1 + 1;
              out = out;
              line_number = l;
            })
            t
  decode_pair a b t ha hb =
      decode-encoded_char _ a (encoded_char b ∷ t) ha
      ∙ ap (λ d. decode d (encoded_char b ∷ t)) (round_inside q acc k out l a ha one_more)
      ∙ decode-encoded_char _ b t hb
      ∙ ap (λ d. decode d t) (round_inside 0 _ (k + 1) out l b hb two_more)

  pub decode_full :
      (a b c d : ℕ)
      → a < 64
      → b < 64
      → c < 64
      → d < 64
      → decode
          (record { numeq = q; acc = acc; cntr = k; out = out; line_number = l })
          (encoded_char a ∷ encoded_char b ∷ encoded_char c ∷ encoded_char d ∷ s)
        ≡ decode
            (record {
              numeq = 0;
              acc = four_values acc a b c d;
              cntr = k + 1 + 1 + 1 + 1;
              out = out ++ (a * 4 + b / 16) ∷ (b % 16 * 16 + c / 4) ∷ (c % 4 * 64 + d) ∷ [];
              line_number = l;
            })
            s
  decode_full a b c d ha hb hc hd =
      decode_pair a b (encoded_char c ∷ encoded_char d ∷ s) ha hb
      ∙ decode-encoded_char _ c (encoded_char d ∷ s) hc
      ∙ ap (λ d'. decode d' (encoded_char d ∷ s))
          (round_inside 0 _ (k + 1 + 1) out l c hc three_more)
      ∙ decode-encoded_char _ d s hd
      ∙ ap (λ d'. decode d' s)
          (round_last 0 _ (k + 1 + 1 + 1) out l d hd four_more
            ∙ ap
                (λ bs. record {
                  numeq = 0;
                  acc = four_values acc a b c d;
                  cntr = k + 1 + 1 + 1 + 1;
                  out = out ++ bs;
                  line_number = l;
                })
                (quantum_full acc a b c d ha hb hc hd))

  pub decode_two :
      (a b c : ℕ)
      → a < 64
      → b < 64
      → c < 64
      → decode
          (record { numeq = q; acc = acc; cntr = k; out = out; line_number = l })
          (encoded_char a ∷ encoded_char b ∷ encoded_char c ∷ b'=' ∷ s)
        ≡ decode
            (record {
              numeq = 1;
              acc = four_values acc a b c 0;
              cntr = k + 1 + 1 + 1 + 1;
              out = out ++ (a * 4 + b / 16) ∷ (b % 16 * 16 + c / 4) ∷ [];
              line_number = l;
            })
            s
  decode_two a b c ha hb hc =
      decode_pair a b (encoded_char c ∷ b'=' ∷ s) ha hb
      ∙ decode-encoded_char _ c (b'=' ∷ s) hc
      ∙ ap (λ d'. decode d' (b'=' ∷ s)) (round_inside 0 _ (k + 1 + 1) out l c hc three_more)
      ∙ decode-padding _ s
      ∙ ap (λ d'. decode d' s)
          (round-padding_last 0 _ (k + 1 + 1 + 1) out l four_more
            ∙ ap
                (λ bs. record {
                  numeq = 1;
                  acc = four_values acc a b c 0;
                  cntr = k + 1 + 1 + 1 + 1;
                  out = out ++ bs;
                  line_number = l;
                })
                (quantum_two acc a b c 0 ha hb hc (omega arith)))

  pub decode_one :
      (a b : ℕ)
      → a < 64
      → b < 64
      → decode
          (record { numeq = q; acc = acc; cntr = k; out = out; line_number = l })
          (encoded_char a ∷ encoded_char b ∷ b'=' ∷ b'=' ∷ s)
        ≡ decode
            (record {
              numeq = 2;
              acc = four_values acc a b 0 0;
              cntr = k + 1 + 1 + 1 + 1;
              out = out ++ (a * 4 + b / 16) ∷ [];
              line_number = l;
            })
            s
  decode_one a b ha hb =
      decode_pair a b (b'=' ∷ b'=' ∷ s) ha hb
      ∙ decode-padding _ (b'=' ∷ s)
      ∙ ap (λ d'. decode d' (b'=' ∷ s)) (round-padding_inside 0 _ (k + 1 + 1) out l three_more)
      ∙ decode-padding _ s
      ∙ ap (λ d'. decode d' s)
          (round-padding_last 1 _ (k + 1 + 1 + 1) out l four_more
            ∙ ap
                (λ bs. record {
                  numeq = 2;
                  acc = four_values acc a b 0 0;
                  cntr = k + 1 + 1 + 1 + 1;
                  out = out ++ bs;
                  line_number = l;
                })
                (quantum_one acc a b 0 0 ha hb (omega arith) (omega arith)))
