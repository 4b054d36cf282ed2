-- ===== src/Xml/Data/Steps.antt =====
-- What `getCFEncodedData` of IOCFUnserialize.tab.c does with the characters that IOCFSerialize.c writes.
use mathlib.Core.Bool.{false≢true}
use iokit_user.Prelude.{
  if◌then◌else◌, zero, ◌++◌, ◌∙◌, ==_iff, none, zero, ◌^◌, [], ap, ◌&&◌, suc, ◌%◌, refl, ◌==◌, ◌/◌,
  arith, not, false, true, ◌∷◌, some, ◌+◌, ◌*◌, ◌<◌, Bool, List, Option, ◌≡◌, ℕ,
}
use iokit_user.Xml.Data.{encoded_char, decoded_char, Decoder, quantum, take_value, round, decode}

-- Whether every number below a bound passes a test.
passed : (ℕ → Bool) → ℕ → Bool
passed test zero = true
passed test (suc last) = let before = passed test last in if test last then before else false

passed-true : (test : ℕ → Bool) (bound n : ℕ) → n < bound → passed test bound ≡ true → test n ≡ true
unfolding passed
passed-true test zero n below checked = absurd (omega arith)
passed-true test (suc last) n below checked = ground (arith, passed-true test last n)

abbrev holds : Option ℕ → ℕ → Bool
holds none n = false
holds (some m) n = m == n

-- A character of the table: it is none of those that the loop looks for, and gives its value.
abbrev good : ℕ → Bool
good n =
    let c = encoded_char n in
    not (c == b'<')
    && not (c % 128 == 0)
    && (c % 128 == c)
    && not (c == b'=')
    && not (c == b'\n')
    && holds (decoded_char c) n

good_values : passed good 64 ≡ true
unfolding passed encoded_char decoded_char
good_values = refl

table_good : (n : ℕ) → n < 64 → good n ≡ true
table_good n small = passed-true good 64 n small good_values

holds_eq : (o : Option ℕ) (n : ℕ) → holds o n ≡ true → o ≡ some n
holds_eq none n h = absurd (false≢true h)
holds_eq (some m) n h = ap some ((==_iff m n).0 h)

-- A round for a character of the table, before the last of four and at it.
module _ (q a k : ℕ) (out : List ℕ) (l n : ℕ) (small : n < 64) where
  table_value : decoded_char (encoded_char n) ≡ some n
  table_value = holds_eq (decoded_char (encoded_char n)) n (ground (arith, table_good n small))

  round-encoded_char :
      round (record { numeq = q; acc = a; cntr = k; out = out; line_number = l }) (encoded_char n)
      ≡ take_value (record { numeq = 0; acc = a; cntr = k; out = out; line_number = l }) (some n)
  unfolding round
  round-encoded_char = rw (table_value, not_equals, not_end) refl
    where
      not_equals : (encoded_char n == b'=') ≡ false
      not_equals = ground (arith, table_good n small)

      not_end : (encoded_char n == b'\n') ≡ false
      not_end = ground (arith, table_good n small)

  pub round_inside :
      ((k + 1) % 4 == 0) ≡ false
      → round (record { numeq = q; acc = a; cntr = k; out = out; line_number = l }) (encoded_char n)
        ≡ record {
          numeq = 0;
          acc = (a * 64 + n) % 2 ^ 32;
          cntr = k + 1;
          out = out;
          line_number = l;
        }
  unfolding take_value
  round_inside h = round-encoded_char ∙ rw h refl

  pub round_last :
      ((k + 1) % 4 == 0) ≡ true
      → round (record { numeq = q; acc = a; cntr = k; out = out; line_number = l }) (encoded_char n)
        ≡ record {
          numeq = 0;
          acc = (a * 64 + n) % 2 ^ 32;
          cntr = k + 1;
          out = out ++ quantum 0 ((a * 64 + n) % 2 ^ 32);
          line_number = l;
        }
  unfolding take_value
  round_last h = round-encoded_char ∙ rw h refl

-- The same for the padding.
module _ (q a k : ℕ) (out : List ℕ) (l : ℕ) where
  pub round-padding_inside :
      ((k + 1) % 4 == 0) ≡ false
      → round (record { numeq = q; acc = a; cntr = k; out = out; line_number = l }) b'=' ≡ record {
        numeq = q + 1;
        acc = (a * 64 + 0) % 2 ^ 32;
        cntr = k + 1;
        out = out;
        line_number = l;
      }
  unfolding round take_value decoded_char
  round-padding_inside h = rw h refl

  pub round-padding_last :
      ((k + 1) % 4 == 0) ≡ true
      → round (record { numeq = q; acc = a; cntr = k; out = out; line_number = l }) b'=' ≡ record {
        numeq = q + 1;
        acc = (a * 64 + 0) % 2 ^ 32;
        cntr = k + 1;
        out = out ++ quantum (q + 1) ((a * 64 + 0) % 2 ^ 32);
        line_number = l;
      }
  unfolding round take_value decoded_char
  round-padding_last h = rw h refl

pub decode-padding : (d : Decoder) (s : List ℕ) → decode d (b'=' ∷ s) ≡ decode (round d b'=') s
unfolding decode
decode-padding d s = refl

-- The loop goes on over a character of the table.
pub decode-encoded_char :
    (d : Decoder) (n : ℕ) (s : List ℕ)
    → n < 64
    → decode d (encoded_char n ∷ s) ≡ decode (round d (encoded_char n)) s
unfolding decode
decode-encoded_char d n s small =
    rw (not_tag, not_nul, (==_iff (encoded_char n % 128) (encoded_char n)).0 low) refl
  where
    not_tag : (encoded_char n == b'<') ≡ false
    not_tag = ground (arith, table_good n small)

    not_nul : (encoded_char n % 128 == 0) ≡ false
    not_nul = ground (arith, table_good n small)

    low : (encoded_char n % 128 == encoded_char n) ≡ true
    low = ground (arith, table_good n small)

-- The value of four characters, whatever came before.
abbrev pub four_values : ℕ → ℕ → ℕ → ℕ → ℕ → ℕ
four_values acc a b c d =
    (((((acc * 64 + a) % 2 ^ 32 * 64 + b) % 2 ^ 32) * 64 + c) % 2 ^ 32 * 64 + d) % 2 ^ 32

-- A round shifts what `acc` holds at its low end, and adds the value there.
low1 : (t a : ℕ) → a < 64 → (u : ℕ) × ((t * 64 + a) % 2 ^ 32 ≡ u * 64 + a)
low1 t a h = ((t * 64 + a) % 2 ^ 32 / 64, omega arith)

low2 :
    (t v b : ℕ)
    → v < 64
    → b < 64
    → (u : ℕ) × (((t * 64 + v) * 64 + b) % 2 ^ 32 ≡ u * 4096 + v * 64 + b)
low2 t v b h k = (((t * 64 + v) * 64 + b) % 2 ^ 32 / 4096, omega arith)

low3 :
    (t v c : ℕ)
    → v < 4096
    → c < 64
    → (u : ℕ) × (((t * 4096 + v) * 64 + c) % 2 ^ 32 ≡ u * 262144 + v * 64 + c)
low3 t v c h k = (((t * 4096 + v) * 64 + c) % 2 ^ 32 / 262144, omega arith)

low4 :
    (t v d : ℕ)
    → v < 262144
    → d < 64
    → (u : ℕ) × (((t * 262144 + v) * 64 + d) % 2 ^ 32 ≡ u * 16777216 + v * 64 + d)
low4 t v d h k = (((t * 262144 + v) * 64 + d) % 2 ^ 32 / 16777216, omega arith)

-- What is lost of `acc` is above the bits that are read.
four_values_low :
    (acc a b c d : ℕ)
    → a < 64
    → b < 64
    → c < 64
    → d < 64
    → (top : ℕ) × (four_values acc a b c d ≡ top * 16777216 + a * 262144 + b * 4096 + c * 64 + d)
four_values_low acc a b c d ha hb hc hd =
    let (t1, e1) = low1 acc a ha in
    let (t2, e2) = low2 t1 a b ha hb in
    let (t3, e3) = low3 t2 (a * 64 + b) c (omega arith) hc in
    let (t4, e4) = low4 t3 ((a * 64 + b) * 64 + c) d (omega arith) hd in (t4, omega arith)

-- The bytes of four characters, of which none, one or two are padding.
module _ (acc a b c d : ℕ) (ha : a < 64) (hb : b < 64) (hc : c < 64) (hd : d < 64) where
  byte1 : four_values acc a b c d / 65536 % 256 ≡ a * 4 + b / 16
  byte1 = let (t, e) = four_values_low acc a b c d ha hb hc hd in rw e (split1 t)
    where
      split1 :
          (t : ℕ)
          → (t * 16777216 + a * 262144 + b * 4096 + c * 64 + d) / 65536 % 256 ≡ a * 4 + b / 16
      split1 t = omega arith

  byte2 : four_values acc a b c d / 256 % 256 ≡ b % 16 * 16 + c / 4
  byte2 = let (t, e) = four_values_low acc a b c d ha hb hc hd in rw e (split2 t)
    where
      split2 :
          (t : ℕ)
          → (t * 16777216 + a * 262144 + b * 4096 + c * 64 + d) / 256 % 256 ≡ b % 16 * 16 + c / 4
      split2 t = omega arith

  byte3 : four_values acc a b c d % 256 ≡ c % 4 * 64 + d
  byte3 = let (t, e) = four_values_low acc a b c d ha hb hc hd in rw e (split3 t)
    where
      split3 : (t : ℕ) → (t * 16777216 + a * 262144 + b * 4096 + c * 64 + d) % 256 ≡ c % 4 * 64 + d
      split3 t = omega arith

  pub quantum_full :
      quantum 0 (four_values acc a b c d)
      ≡ (a * 4 + b / 16) ∷ (b % 16 * 16 + c / 4) ∷ (c % 4 * 64 + d) ∷ []
  unfolding quantum
  quantum_full = rw (byte1, byte2, byte3) refl

  pub quantum_two :
      quantum 1 (four_values acc a b c d) ≡ (a * 4 + b / 16) ∷ (b % 16 * 16 + c / 4) ∷ []
  unfolding quantum
  quantum_two = rw (byte1, byte2) refl

  pub quantum_one : quantum 2 (four_values acc a b c d) ≡ (a * 4 + b / 16) ∷ []
  unfolding quantum
  quantum_one = rw byte1 refl
