-- ===== src/KextVersion/Valid.antt =====
-- What `OSKextParseVersionString` of kext.subproj/OSKextVersion.c accepts: the numbers that pack the
-- components of a version.
use iokit_user.Prelude.{
  negsuc, ℤ, ap, refl, refl, refl, ◌∙◌, refl, refl, refl, sym, ◌&&◌, ◌==◌, Bool-cases, ℕ, zero, suc,
  ◌+◌, ◌-◌, ◌*◌, ◌≤◌, ◌<◌, ◌≡◌, ◌⊎◌, inl, inr, refl, Bool, true, false, Option, none, some, [], ◌∷◌,
  pos, ◌>>=◌, arith, Option-cases,
}
use iokit_user.KextVersion.{
  parse_version_string_lem, ltb, Text, ScanExit, ended, release_state, period, full, rejected, Vers,
  packed, finish, ends, scan, past_full, stage_for_string, check_level, parse_stage, after_revision,
  parse_revision, after_minor, parse_minor, after_major, parse_text, stage_level_max,
  parse_version_string, vers_digit_for_char, peek, advance, stage_development, stage_alpha,
  stage_beta, stage_candidate, stage_release, or_minus_one,
}

abbrev pub IsStage : ℕ → Type 0
IsStage g =
    (g ≡ stage_development)
    ⊎ (g ≡ stage_alpha)
    ⊎ (g ≡ stage_beta)
    ⊎ (g ≡ stage_candidate)
    ⊎ (g ≡ stage_release)

-- The components that a version text can spell.
pub record IsVersion (v : Vers) : Type 0 where
  pub major : v.major ≤ 9999
  pub minor : v.minor ≤ 99
  pub revision : v.revision ≤ 99
  pub stage : IsStage v.stage
  pub level : v.stage_level ≤ 255
  pub release_level : v.stage ≡ stage_release → v.stage_level ≡ 0
  pub candidate_level : v.stage ≡ stage_candidate → 0 < v.stage_level

-- A result is -1 or packs a version.
abbrev Packs : Option ℕ → Type 0
Packs none = Unit
Packs (some n) = (v : Vers) × IsVersion v × (n ≡ packed v)

abbrev grow : ℕ → ℕ → ℕ
grow zero b = b
grow (suc k) b = grow k (b * 10 + 9)

-- The value with which a loop is left is at most `b`.
abbrev AtMost : ℕ → ScanExit → Type 0
AtMost b (ended n) = n ≤ b
AtMost b (release_state n s) = n ≤ b
AtMost b (period n s) = n ≤ b
AtMost b (full n s) = n ≤ b
AtMost b rejected = Unit

le-grow : (k a b : ℕ) → a ≤ b → a ≤ grow k b
le-grow zero a b h = h
le-grow (suc k) a b h = le-grow k a (b * 10 + 9) (omega arith)

scan-AtMost :
    (dots : Bool) (k acc b : ℕ) (s : Text) → acc ≤ b → AtMost (grow k b) (scan dots k acc s)
unfolding scan
scan-AtMost dots zero acc b s h = h
scan-AtMost dots (suc k) acc b [] h = le-grow (suc k) acc b h
scan-AtMost dots (suc k) acc b (c ∷ s) h =
    ground
      (arith, scan-AtMost dots k (acc * 10 + (c - b'0')) (b * 10 + 9) s, le-grow (suc k) acc b h)

-- A stage that letters spell is not the release stage.
abbrev IsLettered : ℕ → Type 0
IsLettered g =
    (g ≡ stage_development) ⊎ (g ≡ stage_alpha) ⊎ (g ≡ stage_beta) ⊎ (g ≡ stage_candidate)

stage_for_string-IsLettered :
    (s rest : Text) (g : ℕ)
    → ends (peek s) ≡ false
    → stage_for_string s ≡ some (g, rest)
    → IsLettered g
unfolding stage_for_string
stage_for_string-IsLettered s rest g e h = ground arith

module _ (m n r : ℕ) (hm : m ≤ 9999) (hn : n ≤ 99) (hr : r ≤ 99) where
  abbrev version : ℕ → ℕ → Vers
  version g l = record { major = m; minor = n; revision = r; stage = g; stage_level = l }

  finish_release-Packs : Packs (finish (version stage_release 0))
  unfolding finish
  finish_release-Packs = (
    version stage_release 0,
    record {
      major = hm;
      minor = hn;
      revision = hr;
      stage = inr (inr (inr (inr refl)));
      level = omega arith;
      release_level = λ _. refl;
      candidate_level = λ e. absurd (omega arith);
    },
    refl,
  )

  lettered-IsVersion :
      (g l : ℕ) → IsLettered g → l ≤ 255 → (g ≡ stage_candidate → 0 < l) → IsVersion (version g l)
  lettered-IsVersion g l hg hl hc = record {
    major = hm;
    minor = hn;
    revision = hr;
    stage = omega arith;
    level = hl;
    release_level = λ e. absurd (omega arith);
    candidate_level = hc;
  }

  finish_stage-Packs : (g l : ℕ) → IsLettered g → l ≤ 255 → Packs (finish (version g l))
  unfolding finish
  finish_stage-Packs g l hg hl = elim (Bool-cases (g == stage_candidate && l == 0)) [
    | inl e ↦ rw e tt
    | inr e ↦ rw e (version g l, lettered-IsVersion g l hg hl (λ c. ground arith), refl)
  ]

  level-Packs :
      (g : ℕ) (o : Option ℕ)
      → IsLettered g
      → Packs (o >>= λ n. check_level n >>= λ l. finish (version g l))
  level-Packs g none hg = tt
  level-Packs g (some l) hg = elim (Bool-cases (ltb stage_level_max l)) [
    | inl e ↦ unfold check_level in rw e tt
    | inr e ↦ unfold check_level in rw e (finish_stage-Packs g l hg (ground arith))
  ]

  parse_stage-Packs : (s : Text) → Packs (parse_stage m n r s)
  unfolding parse_stage
  parse_stage-Packs s = elim (Bool-cases (ends (peek s))) [
    | inl e ↦ rw e finish_release-Packs
    | inr e ↦ rw e (elim (Option-cases (stage_for_string s)) [
      | inl o ↦ rw o tt
      | inr (p, o) ↦ rw o (level-Packs p.0 _ (stage_for_string-IsLettered s p.1 p.0 e o))
    ])
  ]

after_revision-Packs :
    (m n : ℕ) (e : ScanExit) → m ≤ 9999 → n ≤ 99 → AtMost 99 e → Packs (after_revision m n e)
unfolding after_revision
after_revision-Packs m n (ended r) hm hn h = finish_release-Packs m n r hm hn h
after_revision-Packs m n (release_state r s) hm hn h = parse_stage-Packs m n r hm hn h s
after_revision-Packs m n (period r s) hm hn h = tt
after_revision-Packs m n (full r s) hm hn h = elim (Option-cases (past_full s)) [
  | inl o ↦ rw o tt
  | inr (t, o) ↦ rw o (parse_stage-Packs m n r hm hn h t)
]
after_revision-Packs m n rejected hm hn h = tt

parse_revision-Packs : (m n : ℕ) (s : Text) → m ≤ 9999 → n ≤ 99 → Packs (parse_revision m n s)
unfolding parse_revision
parse_revision-Packs m n s hm hn =
    after_revision-Packs m n (scan false 2 0 s) hm hn (scan-AtMost false 2 0 0 s (omega arith))

after_minor-Packs : (m : ℕ) (e : ScanExit) → m ≤ 9999 → AtMost 99 e → Packs (after_minor m e)
unfolding after_minor
after_minor-Packs m (ended n) hm h = finish_release-Packs m n 0 hm h (omega arith)
after_minor-Packs m (release_state n s) hm h = parse_stage-Packs m n 0 hm h (omega arith) s
after_minor-Packs m (period n s) hm h = parse_revision-Packs m n s hm h
after_minor-Packs m (full n s) hm h = elim (Option-cases (past_full s)) [
  | inl o ↦ rw o tt
  | inr (t, o) ↦ rw o (parse_revision-Packs m n t hm h)
]
after_minor-Packs m rejected hm h = tt

parse_minor-Packs : (m : ℕ) (s : Text) → m ≤ 9999 → Packs (parse_minor m s)
unfolding parse_minor
parse_minor-Packs m s hm =
    after_minor-Packs m (scan true 2 0 s) hm (scan-AtMost true 2 0 0 s (omega arith))

after_major-Packs : (e : ScanExit) → AtMost 9999 e → Packs (after_major e)
unfolding after_major
after_major-Packs (ended m) h = finish_release-Packs m 0 0 h (omega arith) (omega arith)
after_major-Packs (release_state m s) h = parse_stage-Packs m 0 0 h (omega arith) (omega arith) s
after_major-Packs (period m s) h = parse_minor-Packs m s h
after_major-Packs (full m s) h = elim (Option-cases (past_full s)) [
  | inl o ↦ rw o tt
  | inr (t, o) ↦ rw o (parse_minor-Packs m t h)
]
after_major-Packs rejected h = tt

digit-le-nine : (c d : ℕ) → vers_digit_for_char c ≡ some d → d ≤ 9
unfolding vers_digit_for_char
digit-le-nine c d h = ground arith

parse_text-Packs : (s : Text) → Packs (parse_text s)
unfolding parse_text
parse_text-Packs s = elim (Option-cases (vers_digit_for_char (peek s))) [
  | inl o ↦ rw o tt
  | inr (d, o) ↦ rw o (
      after_major-Packs (scan true 3 d (advance s))
        (scan-AtMost true 3 d 9 (advance s) (digit-le-nine (peek s) d o)))
]

unpack :
    (o : Option ℕ) (n : ℕ)
    → Packs o
    → or_minus_one o ≡ pos n
    → (v : Vers) × IsVersion v × (n ≡ packed v)
unpack none n h e = cc
unpack (some k) n h e = let q : n ≡ k = cc in rw q h

-- A text that `OSKextParseVersionString` accepts spells a version whose components are in range, and
-- the result is the number that packs them.
pub parse_version_string_sound :
    (s : Text) (n : ℕ)
    → parse_version_string (some s) ≡ pos n
    → (v : Vers) × IsVersion v × (n ≡ packed v)
parse_version_string_sound s n h =
    unpack (parse_text s) n (parse_text-Packs s) (sym (parse_version_string_lem s) ∙ h)

-- What `OSKextParseVersionString` may return: -1, or the number of a version whose components are in range.
abbrev pub Answer : ℤ → Type 0
Answer z = (z ≡ negsuc 0) ⊎ ((v : Vers) × IsVersion v × (z ≡ pos (packed v)))

Packs-Answer : (o : Option ℕ) → Packs o → Answer (or_minus_one o)
Packs-Answer none h = inl refl
Packs-Answer (some n) (v, valid, e) = inr (v, valid, ap pos e)

-- For every text, the parser answers -1, or the number that packs a version whose components are in range,
-- with a level that fits the stage.
pub parse_version_string-Answer : (s : Text) → Answer (parse_version_string (some s))
parse_version_string-Answer s =
    rw (parse_version_string_lem s) (Packs-Answer (parse_text s) (parse_text-Packs s))

-- Two versions with the same number are the same version.
pub packed-injective : (v w : Vers) → IsVersion v → IsVersion w → packed v ≡ packed w → v ≡ w
unfolding packed
packed-injective v w hv hw e = ground arith
