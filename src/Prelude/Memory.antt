-- ===== src/Prelude/Memory.antt =====
-- A region of memory as the list of its bytes, and the C library's functions on strings in it.
-- A byte that would be written outside the region is dropped; the theorems show that none is.
use iokit_user.Prelude.{
  ◌/◌, ◌∙◌, ◌%◌, ◌*◌, ◌^◌, drop, ℕ, zero, suc, ◌+◌, ◌-◌, ◌≤◌, ◌<◌, ◌≡◌, refl, ap, List, [], ◌∷◌,
  ◌++◌, append_assoc, length, take, replicate, ◌==◌, if◌then◌else◌, arith, length-append,
  length-replicate, All,
}

-- Copy bytes to an offset.
unfoldable pub store : List ℕ → ℕ → List ℕ → List ℕ
store [] i bs = []
store (x ∷ m) zero [] = x ∷ m
store (x ∷ m) zero (b ∷ bs) = b ∷ store m zero bs
store (x ∷ m) (suc i) bs = x ∷ store m i bs

-- The number of bytes in front of the first NUL.
unfoldable pub strlen : List ℕ → ℕ
strlen [] = 0
strlen (c ∷ s) = let n = strlen s in if c == 0 then 0 else suc n

-- What `snprintf`, `strlcpy` and `strlcat` write into a room of `size` bytes: a text cut to fit, and
-- a NUL. With no room they write nothing.
unfoldable pub fitted : ℕ → List ℕ → List ℕ
fitted zero s = []
fitted (suc n) s = take n s ++ 0 ∷ []

pub length-store : (m : List ℕ) (i : ℕ) (bs : List ℕ) → length (store m i bs) ≡ length m
unfolding store
length-store [] i bs = refl
length-store (x ∷ m) zero [] = refl
length-store (x ∷ m) zero (b ∷ bs) = ap suc (length-store m zero bs)
length-store (x ∷ m) (suc i) bs = ap suc (length-store m i bs)

-- Behind a text, a write goes to what follows it.
pub store-append : (t m bs : List ℕ) → store (t ++ m) (length t) bs ≡ t ++ store m 0 bs
unfolding store
store-append [] m bs = refl
store-append (c ∷ t) m bs = ap (λ r. c ∷ r) (store-append t m bs)

pub store-zeros :
    (n : ℕ) (bs : List ℕ)
    → length bs ≤ n
    → store (replicate n 0) 0 bs ≡ bs ++ replicate (n - length bs) 0
unfolding store
store-zeros zero [] h = refl
store-zeros zero (b ∷ bs) h = absurd (omega arith)
store-zeros (suc n) [] h = let e : suc n - 0 ≡ suc n = omega arith in rw e
store-zeros (suc n) (b ∷ bs) h =
    let e : suc n - suc (length bs) ≡ n - length bs = omega arith in
    rw e (ap (λ r. b ∷ r) (store-zeros n bs (omega arith)))

take-all : (n : ℕ) (s : List ℕ) → length s ≤ n → take n s ≡ s
take-all zero [] h = refl
take-all zero (c ∷ s) h = absurd (omega arith)
take-all (suc n) [] h = refl
take-all (suc n) (c ∷ s) h = ap (λ r. c ∷ r) (take-all n s (omega arith))

fitted_lem : (n : ℕ) (s : List ℕ) → length s < n → fitted n s ≡ s ++ 0 ∷ []
unfolding fitted
fitted_lem zero s h = absurd (omega arith)
fitted_lem (suc n) s h = rw (take-all n s (omega arith))

-- A text that fits with its NUL, printed behind `t` over zeros.
pub store_text :
    (t s : List ℕ) (n : ℕ)
    → length s < n
    → store (t ++ replicate n 0) (length t) (fitted (length (t ++ replicate n 0) - length t) s)
      ≡ (t ++ s) ++ replicate (n - length s) 0
store_text t s n h =
    let room : length (t ++ replicate n 0) - length t ≡ n =
      omega (arith, length-append t (replicate n 0), length-replicate {A = ℕ} n 0) in
    let len : length (s ++ 0 ∷ []) ≡ length s + 1 = length-append s (0 ∷ []) in
    let split : n - length s ≡ suc (n - (length s + 1)) = omega arith in
    rw (room, fitted_lem n s h, store-append, store-zeros n (s ++ 0 ∷ []) (omega arith), len, split)
      (simp append_assoc)

-- One character printed behind `t` over zeros.
pub store_char :
    (t : List ℕ) (c n : ℕ)
    → 0 < n
    → store (t ++ replicate n 0) (length t) (c ∷ []) ≡ (t ++ c ∷ []) ++ replicate (n - 1) 0
store_char t c n h = rw (store-append, store-zeros n (c ∷ []) h) (simp append_assoc)

-- No byte of the text is a NUL.
abbrev pub NoNul : List ℕ → Type 0
NoNul = All (λ c. 0 < c)

pub NoNul-append : (s t : List ℕ) → NoNul s → NoNul t → NoNul (s ++ t)
NoNul-append [] t hs ht = ht
NoNul-append (c ∷ s) t hs ht = (hs.0, NoNul-append s t hs.1 ht)

pub strlen_text : (t : List ℕ) (n : ℕ) → NoNul t → strlen (t ++ replicate n 0) ≡ length t
unfolding strlen
strlen_text [] zero h = refl
strlen_text [] (suc n) h = refl
strlen_text (c ∷ t) n h = ground (arith, strlen_text t n h.1)

-- The bytes from an offset.
unfoldable pub read : List ℕ → ℕ → ℕ → List ℕ
read m i n = take n (drop i m)

-- A UInt32 in the byte order of the machine, the least byte first.
unfoldable pub word_bytes : ℕ → List ℕ
word_bytes w = (w % 256) ∷ (w / 256 % 256) ∷ (w / 65536 % 256) ∷ (w / 16777216 % 256) ∷ []

unfoldable pub bytes_value : List ℕ → ℕ
bytes_value [] = 0
bytes_value (b ∷ bs) = b + 256 * bytes_value bs

unfoldable pub load_word : List ℕ → ℕ → ℕ
unfolding read bytes_value
load_word m i = bytes_value (read m i 4)

read-store_start : (m bs : List ℕ) → length bs ≤ length m → take (length bs) (store m 0 bs) ≡ bs
unfolding store
read-store_start [] [] h = refl
read-store_start [] (b ∷ bs) h = absurd (omega arith)
read-store_start (x ∷ m) [] h = refl
read-store_start (x ∷ m) (b ∷ bs) h = ap (λ r. b ∷ r) (read-store_start m bs (omega arith))

-- What was written is read back.
pub read-store_self :
    (m : List ℕ) (i : ℕ) (bs : List ℕ)
    → i + length bs ≤ length m
    → read (store m i bs) i (length bs) ≡ bs
unfolding read store
read-store_self m zero bs h = read-store_start m bs (omega arith)
read-store_self [] (suc i) bs h = absurd (omega arith)
read-store_self (x ∷ m) (suc i) bs h = read-store_self m i bs (omega arith)

-- A write behind a range, or in front of it, leaves it alone.
pub read-store_before :
    (m : List ℕ) (i j n : ℕ) (bs : List ℕ) → j + n ≤ i → read (store m i bs) j n ≡ read m j n
unfolding read store
read-store_before [] i j n bs h = refl
read-store_before (x ∷ m) zero zero zero bs h = refl
read-store_before (x ∷ m) zero zero (suc n) bs h = absurd (omega arith)
read-store_before (x ∷ m) zero (suc j) n bs h = absurd (omega arith)
read-store_before (x ∷ m) (suc i) zero zero bs h = refl
read-store_before (x ∷ m) (suc i) zero (suc n) bs h =
    ap (λ r. x ∷ r) (read-store_before m i zero n bs (omega arith))
read-store_before (x ∷ m) (suc i) (suc j) n bs h = read-store_before m i j n bs (omega arith)

pub read-store_after :
    (m : List ℕ) (i j n : ℕ) (bs : List ℕ)
    → i + length bs ≤ j
    → read (store m i bs) j n ≡ read m j n
unfolding read store
read-store_after [] i j n bs h = refl
read-store_after (x ∷ m) zero j n [] h = refl
read-store_after (x ∷ m) zero zero n (b ∷ bs) h = absurd (omega arith)
read-store_after (x ∷ m) zero (suc j) n (b ∷ bs) h = read-store_after m zero j n bs (omega arith)
read-store_after (x ∷ m) (suc i) zero n bs h = absurd (omega arith)
read-store_after (x ∷ m) (suc i) (suc j) n bs h = read-store_after m i j n bs (omega arith)

value-word_bytes : (w : ℕ) → w < 2 ^ 32 → bytes_value (word_bytes w) ≡ w
unfolding bytes_value word_bytes
value-word_bytes w h = omega arith

pub load_word-store_self :
    (m : List ℕ) (i w : ℕ)
    → i + 4 ≤ length m
    → w < 2 ^ 32
    → load_word (store m i (word_bytes w)) i ≡ w
unfolding load_word word_bytes
load_word-store_self m i w h b =
    ap bytes_value (read-store_self m i (word_bytes w) h) ∙ value-word_bytes w b

pub load_word-store_before :
    (m : List ℕ) (i j : ℕ) (bs : List ℕ) → j + 4 ≤ i → load_word (store m i bs) j ≡ load_word m j
unfolding load_word
load_word-store_before m i j bs h = ap bytes_value (read-store_before m i j 4 bs h)

pub load_word-store_after :
    (m : List ℕ) (i j : ℕ) (bs : List ℕ)
    → i + length bs ≤ j
    → load_word (store m i bs) j ≡ load_word m j
unfolding load_word
load_word-store_after m i j bs h = ap bytes_value (read-store_after m i j 4 bs h)
